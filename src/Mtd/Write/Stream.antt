-- ===== src/Mtd/Write/Stream.antt =====
-- mtd_write_data of mtdutils/mtdutils.c: the bytes of all calls, as a stream on the device.
use midnight_i9000_recovery.Common.{
  ℕ, zero, suc, ◌+◌, ◌-◌, ◌≤◌, ◌<◌, ◌≡◌, ◌≢◌, refl, sym, ◌∙◌, ltb, true, false, List, [], ◌∷◌, ◌++◌,
  length, take, drop, take-drop, take-all, take-append, length-take, length-drop, length-append,
  Option, none, some, append_assoc, append-nil, arith, ap, inl, inr, ◌⊎◌, ◌||◌, ◌==◌,
}
use midnight_i9000_recovery.Common.Run.{Returns}
use midnight_i9000_recovery.Common.Prog.{>>=-Returns}
use midnight_i9000_recovery.Common.Text.{Bytes}
use midnight_i9000_recovery.Mtd.Device.{Device, IsFlash}
use midnight_i9000_recovery.Mtd.Write.{
  WriteContext, write_block, append_buffer, coalesce, reset_stored, flush_full,
}
use midnight_i9000_recovery.Mtd.Write.Block.{behind, Kept, Same, Wrote, Sizes, write_block-Wrote}

behind-le : (size p n : ℕ) → p ≤ behind size p n
behind-le size p zero = omega arith
behind-le size p (suc n) = omega (arith, behind-le size (p + size) n)

-- The bytes of the blocks of a log, whose last block stands first.
abbrev pub text_of : List (ℕ × Bytes) → Bytes
text_of [] = []
text_of ((q, content) ∷ log) = text_of log ++ content

regroup : (t b c r : Bytes) → t ++ (b ++ c) ++ r ≡ t ++ b ++ (c ++ r)
regroup t b c r = simp append_assoc

equal-cases : (a b : ℕ) → (((a == b) ≡ true) × (a ≡ b)) ⊎ (((a == b) ≡ false) × (a ≢ b))
equal-cases a b = ground arith

module _ {D : Type 0} (dev : Device D) (size : ℕ) (flash : IsFlash dev size) where
  -- The blocks of the log are on the device, each before the next and all before `p`.
  abbrev pub Placed : D → ℕ → List (ℕ × Bytes) → Type 0
  Placed d p [] = Unit
  Placed d p ((q, content) ∷ log) = (q + size ≤ p) × (flash.block d q ≡ content) × Placed d q log

  log-Kept :
      (d d' : D) (bound p : ℕ) (log : List (ℕ × Bytes))
      → p ≤ bound
      → Kept dev size flash bound d d'
      → Placed d p log
      → Placed d' p log
  log-Kept d d' bound p [] h kept placed = tt
  log-Kept d d' bound p ((q, content) ∷ log) h kept (before, there, earlier) =
      (before, kept q (omega arith) ∙ there, log-Kept d d' bound q log (omega arith) kept earlier)

  Placed-later :
      (d : D) (p p' : ℕ) (log : List (ℕ × Bytes)) → p ≤ p' → Placed d p log → Placed d p' log
  Placed-later d p p' [] h placed = tt
  Placed-later d p p' ((q, content) ∷ log) h (before, there, earlier) =
      (omega arith, there, earlier)

  -- At position `p`: the blocks of the log, the buffered bytes and the bytes `left` to write make
  -- `total`.
  abbrev pub At : ℕ → WriteContext D → Bytes → Bytes → Type 0
  At p ctx left total =
      Sizes dev size flash ctx.partition
      × (dev.position ctx.fd ≡ some p)
      × (p ≤ ctx.partition.size)
      × (length ctx.buffer ≡ size)
      × (ctx.stored ≤ size)
      × (log : List (ℕ × Bytes)) × Placed ctx.fd p log
      × (text_of log ++ take ctx.stored ctx.buffer ++ left ≡ total)

  -- What calls from position `p` and device `d` come to. `Q` is what else holds on success.
  abbrev pub Outcome :
      {A : Type 0}
      → ℕ
      → D
      → Bytes
      → (A → Bytes)
      → (A → WriteContext D → Type 0)
      → Option A × WriteContext D
      → Type 0
  Outcome p d total left Q (none, ctx') = Kept dev size flash p d ctx'.fd
  Outcome p d total left Q (some a, ctx') =
      Kept dev size flash p d ctx'.fd × (p' : ℕ) × (p ≤ p') × At p' ctx' (left a) total × Q a ctx'

  -- After the write of a block: the log has one block more.
  abbrev pub Put : ℕ → WriteContext D → Bytes → Bytes → Option (Unit {0}) × WriteContext D → Type 0
  Put p ctx left total (none, ctx') = Kept dev size flash p ctx.fd ctx'.fd
  Put p ctx left total (some u, ctx') =
      Kept dev size flash p ctx.fd ctx'.fd
      × Same dev size flash ctx ctx'
      × (p' : ℕ) × (p ≤ p')
      × (dev.position ctx'.fd ≡ some p')
      × (p' ≤ ctx'.partition.size)
      × (log' : List (ℕ × Bytes)) × Placed ctx'.fd p' log'
      × (text_of log' ++ left ≡ total)

  pub write_to_log :
      (content left total : Bytes) (p : ℕ) (ctx : WriteContext D) (log : List (ℕ × Bytes))
      → length content ≡ size
      → Sizes dev size flash ctx.partition
      → dev.position ctx.fd ≡ some p
      → p ≤ ctx.partition.size
      → Placed ctx.fd p log
      → text_of log ++ content ++ left ≡ total
      → Returns (write_block dev content ctx) (Put p ctx left total)
  write_to_log content left total p ctx log whole sizes here low placed text =
      let (r, e, w) = write_block-Wrote dev size flash content whole p ctx sizes here low in
      (r, e, after r w)
    where
      after :
          (r : Option (Unit {0}) × WriteContext D)
          → Wrote dev size flash content p ctx r
          → Put p ctx left total r
      after (none, ctx') (same, kept, _, _, _, _, _, _) = kept
      after (some u, ctx') (same, kept, n, noted, (fit, there, found), _, _, _) =
          let q = behind size p n in
          let later = behind-le size p n in
          (
            kept,
            same,
            q + size,
            omega arith,
            there,
            fit,
            (q, content) ∷ log,
            (
              omega arith,
              found,
              Placed-later ctx'.fd p q log later
                  (log-Kept ctx.fd ctx'.fd p p log (omega arith) kept placed),
            ),
            text,
          )

  -- A piece of the bytes to write that the buffer has room for.
  append_buffer-At :
      (p : ℕ) (ctx : WriteContext D) (chunk rest bytes total : Bytes)
      → At p ctx bytes total
      → chunk ++ rest ≡ bytes
      → ctx.stored + length chunk ≤ size
      → At p (append_buffer chunk ctx) rest total
  append_buffer-At p ctx chunk rest bytes total (sizes, here, low, full, fits, log, placed, text)
        split room =
      let before = take ctx.stored ctx.buffer in
      let n : length before ≡ ctx.stored = omega (arith, length-take ctx.stored ctx.buffer) in
      let front : length (before ++ chunk) ≡ ctx.stored + length chunk =
        omega (arith, length-append before chunk) in
      let behind_it = drop (ctx.stored + length chunk) ctx.buffer in
      (
        sizes,
        here,
        low,
        omega (
          arith,
          length-append (before ++ chunk) behind_it,
          length-drop (ctx.stored + length chunk) ctx.buffer,
        ),
        room,
        log,
        placed,
        rw (take-append (ctx.stored + length chunk) (before ++ chunk) behind_it front) (
            regroup (text_of log) before chunk rest
            ∙ ap (λ bs. text_of log ++ before ++ bs) split
            ∙ text),
      )

  coalesce-cases :
      (stored n es : ℕ)
      → ((ltb 0 stored || ltb n es) ≡ true)
        ⊎ (((ltb 0 stored || ltb n es) ≡ false) × (stored ≡ 0) × (es ≤ n))
  coalesce-cases stored n es = ground arith

  -- What is left is less, or is a whole block or more, with the buffer empty.
  abbrev pub Less : Bytes → Bytes → WriteContext D → Type 0
  Less bytes left ctx' =
      (length left < length bytes)
      ⊎ ((ctx'.stored ≡ 0) × (size ≤ length left) × (length left ≤ length bytes))

  pub coalesce-Outcome :
      (p : ℕ) (ctx : WriteContext D) (bytes total : Bytes)
      → At p ctx bytes total
      → ctx.stored < size
      → 0 < length bytes
      → Returns (coalesce bytes ctx) (Outcome p ctx.fd total (λ left. left) (Less bytes))
  unfolding coalesce
  coalesce-Outcome p ctx bytes total at room some_left =
      elim (coalesce-cases ctx.stored (length bytes) ctx.partition.erase_size) [
        | inl c ↦ rw c (
          (some (drop avail bytes), append_buffer (take avail bytes) ctx),
          refl,
          (
            λ q below. refl,
            p,
            omega arith,
            append_buffer-At p ctx (take avail bytes) (drop avail bytes) bytes total at
                (take-drop avail bytes) (omega (arith, at.0.0, length-take avail bytes)),
            inl (omega (arith, at.0.0, length-drop avail bytes)),
          ),
        )
        | inr (c, empty, whole) ↦ rw c (
          (some bytes, ctx),
          refl,
          (λ q below. refl, p, omega arith, at, inr (empty, omega (arith, at.0.0), omega arith)),
        )
      ]
    where
      avail : ℕ
      avail = ctx.partition.erase_size - ctx.stored

  -- After the write of a block, with an empty buffer.
  pub Put-At :
      (p : ℕ) (ctx s : WriteContext D) (left total : Bytes)
      → Sizes dev size flash ctx.partition
      → length ctx.buffer ≡ size
      → (u : Unit {0}) → Put p ctx left total (some u, s)
      → (stored : ℕ) → stored ≡ 0
      → (p' : ℕ) × (p ≤ p') × At p' (record s { stored = stored }) left total
  Put-At p ctx s left total sizes full u (kept, same, p', later, here, low, log, placed, text)
        stored e =
      (
        p',
        later,
        (
          rw same.0 sizes,
          here,
          low,
          rw same.1 full,
          omega arith,
          log,
          placed,
          rw e (ap (λ bs. bs ++ left) (append-nil (text_of log)) ∙ text),
        ),
      )

  -- A complete buffer is written.
  pub flush_full-Outcome :
      (p : ℕ) (ctx : WriteContext D) (left total : Bytes)
      → At p ctx left total
      → Returns (flush_full dev ctx) (
          Outcome p ctx.fd total
            (λ u. left)
            (λ u ctx'. (ctx'.stored < size) × ((ctx.stored ≡ 0) → (ctx'.stored ≡ 0))))
  unfolding flush_full
  flush_full-Outcome p ctx left total (sizes, here, low, full, fits, log, placed, text) =
      elim (equal-cases ctx.stored ctx.partition.erase_size) [
        | inr (c, differ) ↦ rw c (
          (some tt, ctx),
          refl,
          (
            λ q below. refl,
            p,
            omega arith,
            (sizes, here, low, full, fits, log, placed, text),
            (short differ, λ e. e),
          ),
        )
        | inl (c, equal) ↦ rw c (
            >>=-Returns (write_block dev ctx.buffer) (λ u. reset_stored) ctx
              (write_to_log ctx.buffer left total p ctx log full sizes here low placed (
                ap (λ bs. text_of log ++ bs ++ left)
                  (sym (take-all ctx.stored ctx.buffer (omega (arith, sizes.0))))
                ∙ text))
              (λ s kept. kept)
              (λ u s put.
                let (p', later, at) = Put-At p ctx s left total sizes full u put 0 refl in
                (
                  (some tt, record s { stored = 0 }),
                  refl,
                  (put.0, p', later, at, (omega (arith, sizes.1), λ e. refl)),
                )))
      ]
    where
      short : ctx.stored ≢ ctx.partition.erase_size → ctx.stored < size
      short differ = omega arith

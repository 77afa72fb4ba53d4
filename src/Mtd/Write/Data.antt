-- ===== src/Mtd/Write/Data.antt =====
-- mtd_write_data of mtdutils/mtdutils.c, as a whole.
use midnight_i9000_recovery.Common.{
  ℕ, zero, suc, ◌≤◌, ◌<◌, ◌≡◌, refl, sym, ◌∙◌, leb, true, false, [], ◌∷◌, ◌++◌, length, take, drop,
  take-drop, length-take, length-drop, Option, none, some, append_assoc, append-nil, arith, ap, inl,
  inr, ◌⊎◌, ◌&&◌, ◌==◌,
}
use midnight_i9000_recovery.Common.Run.{Run, Returns}
use midnight_i9000_recovery.Common.Prog.{>>=-Returns}
use midnight_i9000_recovery.Common.Text.{Bytes}
use midnight_i9000_recovery.Mtd.Device.{Device, IsFlash}
use midnight_i9000_recovery.Mtd.Write.{
  WriteContext, write_block, coalesce, flush_full, write_direct, write_data_from, mtd_write_data,
}
use midnight_i9000_recovery.Mtd.Write.Block.{Kept}
use midnight_i9000_recovery.Mtd.Write.Stream.{
  At, Outcome, Less, write_to_log, Put-At, coalesce-Outcome, flush_full-Outcome, text_of,
}

direct-cases :
    (stored n es : ℕ)
    → ((((stored == 0) && leb es n) ≡ true) × (stored ≡ 0) × (es ≤ n))
      ⊎ ((((stored == 0) && leb es n) ≡ false) × ((stored ≡ 0) → n < es))
direct-cases stored n es = ground arith

joined : (t bs : Bytes) (n : ℕ) → t ++ take n bs ++ drop n bs ≡ t ++ [] ++ bs
joined t bs n = simp (append_assoc, take-drop n bs, append-nil)

module _ {D : Type 0} (dev : Device D) (size : ℕ) (flash : IsFlash dev size) where
  Outcome-trans :
      {A : Type 0} (p p' : ℕ) (d d' : D) (total : Bytes) (left : A → Bytes)
      (Q Q' : A → WriteContext D → Type 0)
      → p ≤ p'
      → Kept dev size flash p d d'
      → ((a : A) (c : WriteContext D) → Q a c → Q' a c)
      → (r : Option A × WriteContext D) → Outcome dev size flash p' d' total left Q r
      → Outcome dev size flash p d total left Q' r
  Outcome-trans p p' d d' total left Q Q' h kept f (none, c) kept' =
      λ q below. kept' q (omega arith) ∙ kept q below
  Outcome-trans p p' d d' total left Q Q' h kept f (some a, c) (kept', p2, later, at, more) =
      (λ q below. kept' q (omega arith) ∙ kept q below, p2, omega arith, at, f a c more)

  Returns-trans :
      {A : Type 0} (p p' : ℕ) (d d' : D) (total : Bytes) (left : A → Bytes)
      (Q Q' : A → WriteContext D → Type 0)
      → p ≤ p'
      → Kept dev size flash p d d'
      → ((a : A) (c : WriteContext D) → Q a c → Q' a c)
      → (m : Run (Option A × WriteContext D))
      → Returns m (Outcome dev size flash p' d' total left Q)
      → Returns m (Outcome dev size flash p d total left Q')
  Returns-trans p p' d d' total left Q Q' h kept f m (r, e, o) =
      (r, e, Outcome-trans p p' d d' total left Q Q' h kept f r o)

  -- The complete blocks are written; with an empty buffer and a block to write, one at least.
  abbrev Direct : Bytes → ℕ → Bytes → WriteContext D → Type 0
  Direct bytes stored left ctx' =
      (ctx'.stored < size)
      × (length left ≤ length bytes)
      × ((stored ≡ 0) → size ≤ length bytes → length left < length bytes)

  write_direct-Outcome :
      (fuel p : ℕ) (ctx : WriteContext D) (bytes total : Bytes)
      → At dev size flash p ctx bytes total
      → ctx.stored < size
      → length bytes < fuel
      → Returns
          (write_direct dev fuel bytes ctx)
          (Outcome dev size flash p ctx.fd total (λ left. left) (Direct bytes ctx.stored))
  unfolding write_direct
  write_direct-Outcome zero p ctx bytes total at room enough = absurd (omega arith)
  write_direct-Outcome (suc fuel) p ctx bytes total
        (sizes, here, low, full, fits, log, placed, text) room enough =
      elim (direct-cases ctx.stored (length bytes) ctx.partition.erase_size) [
        | inr (c, short) ↦ rw c (
          (some bytes, ctx),
          refl,
          (
            λ q below. refl,
            p,
            omega arith,
            (sizes, here, low, full, fits, log, placed, text),
            (room, omega arith, λ e more. absurd (omega (arith, short e, sizes.0))),
          ),
        )
        | inl (c, empty, whole) ↦ rw c (
            >>=-Returns (write_block dev (take es bytes))
              (λ u. write_direct dev fuel (drop es bytes)) ctx
              (write_to_log dev size flash (take es bytes) (drop es bytes) total p ctx log
                (omega (arith, sizes.0, length-take es bytes)) sizes here low placed
                (joined (text_of log) bytes es
                  ∙ ap (λ n. text_of log ++ take n ctx.buffer ++ bytes) (sym empty)
                  ∙ text))
              (λ s kept. kept)
              (λ u s put.
                let still : s.stored ≡ 0 = put.1.2 ∙ empty in
                let (p', later, at) =
                  Put-At dev size flash p ctx s (drop es bytes) total sizes full u put s.stored
                    still in
                Returns-trans p p' ctx.fd s.fd total (λ l. l) (Direct (drop es bytes) s.stored)
                  (Direct bytes ctx.stored) later put.0
                  (λ l c more. (
                    more.0,
                    omega (arith, more.1, length-drop es bytes),
                    λ e1 e2. omega (arith, more.1, length-drop es bytes, sizes.0, sizes.1),
                  ))
                  (write_direct dev fuel (drop es bytes) s)
                  (write_direct-Outcome fuel p' s (drop es bytes) total at (omega (arith, sizes.1))
                    (omega (arith, length-drop es bytes, sizes.0, sizes.1)))))
      ]
    where
      es : ℕ
      es = ctx.partition.erase_size

  -- One pass takes at least a byte.
  progress :
      (bytes left left' : Bytes) (s s' : WriteContext D)
      → Less dev size flash bytes left s
      → ((s.stored ≡ 0) → (s'.stored ≡ 0))
      → (length left' ≤ length left)
      → ((s'.stored ≡ 0) → size ≤ length left → length left' < length left)
      → length left' < length bytes
  progress bytes left left' s s' (inl less) still le direct = omega arith
  progress bytes left left' s s' (inr (empty, whole, le')) still le direct =
      omega (arith, direct (still empty) whole)

  abbrev Room : Unit {0} → WriteContext D → Type 0
  Room u ctx' = ctx'.stored < size

  write_data_from-Outcome :
      (fuel p : ℕ) (ctx : WriteContext D) (bytes total : Bytes)
      → At dev size flash p ctx bytes total
      → ctx.stored < size
      → length bytes < fuel
      → Returns
          (write_data_from dev fuel bytes ctx)
          (Outcome dev size flash p ctx.fd total (λ u. []) Room)
  unfolding write_data_from
  write_data_from-Outcome zero p ctx bytes total at room enough = absurd (omega arith)
  write_data_from-Outcome (suc fuel) p ctx [] total at room enough =
      ((some tt, ctx), refl, (λ q below. refl, p, omega arith, at, room))
  write_data_from-Outcome (suc fuel) p ctx (b ∷ bs) total at room enough =
      >>=-Returns (coalesce (b ∷ bs)) _ ctx
        (coalesce-Outcome dev size flash p ctx (b ∷ bs) total at room (omega arith))
        (λ s kept. kept)
        λ left s o.
          let (kept1, p1, later1, at1, less) = o in
          Returns-trans p p1 ctx.fd s.fd total (λ u. []) Room Room later1 kept1 (λ u c r. r) _
            (>>=-Returns (flush_full dev) _ s
              (flush_full-Outcome dev size flash p1 s left total at1) (λ s' kept. kept)
              λ u s2 o2.
                let (kept2, p2, later2, at2, (room2, still)) = o2 in
                Returns-trans p1 p2 s.fd s2.fd total (λ u. []) Room Room later2 kept2 (λ u c r. r) _
                  (>>=-Returns (write_direct dev (suc (length left)) left) _ s2
                    (write_direct-Outcome (suc (length left)) p2 s2 left total at2 room2
                      (omega arith))
                    (λ s' kept. kept)
                    λ left3 s3 o3.
                      let (kept3, p3, later3, at3, (room3, le3, direct3)) = o3 in
                      Returns-trans p2 p3 s2.fd s3.fd total (λ u. []) Room Room later3 kept3
                        (λ u c r. r) _
                        (write_data_from-Outcome fuel p3 s3 left3 total at3 room3 (
                          omega
                            (arith, progress (b ∷ bs) left left3 s s2 less still le3 direct3)))))

  -- What a call of mtd_write_data leaves: the blocks before are kept, and on success the count of
  -- the bytes is returned and the stream is `total`.
  abbrev pub Streamed : ℕ → D → Bytes → ℕ → Option ℕ × WriteContext D → Type 0
  Streamed p d total n r =
      Outcome dev size flash p d total (λ m. []) (λ m ctx'. (m ≡ n) × (ctx'.stored < size)) r

  -- mtd_write_data ends without a fault. If it succeeds it returns the number of bytes, and the
  -- bytes follow the stream of the calls before: the blocks of the device in their order, then
  -- the buffer. If it fails, the blocks before the position are still as they were.
  pub mtd_write_data-Streamed :
      (p : ℕ) (ctx : WriteContext D) (stream bytes : Bytes)
      → At dev size flash p ctx [] stream
      → ctx.stored < size
      → Returns (mtd_write_data dev bytes ctx) (Streamed p ctx.fd (stream ++ bytes) (length bytes))
  unfolding mtd_write_data
  mtd_write_data-Streamed p ctx stream bytes at room =
      >>=-Returns (write_data_from dev (suc (length bytes)) bytes) _ ctx
        (write_data_from-Outcome (suc (length bytes)) p ctx bytes (stream ++ bytes) (next at) room
          (omega arith))
        (λ s kept. kept)
        λ u s o.
          let (kept, p', later, at', room') = o in
          ((some (length bytes), s), refl, (kept, p', later, at', (refl, room')))
    where
      next : At dev size flash p ctx [] stream → At dev size flash p ctx bytes (stream ++ bytes)
      next (sizes, here, low, full, fits, log, placed, text) = (
        sizes,
        here,
        low,
        full,
        fits,
        log,
        placed,
        ap (λ bs. bs ++ bytes) (sym (append-nil _) ∙ text),
      )

-- ===== src/Mtd/Write/Close.antt =====
-- mtd_write_partition and mtd_write_close of mtdutils/mtdutils.c: the start and the end of a stream.
use midnight_i9000_recovery.Common.{
  ℕ, ◌+◌, ◌-◌, ◌^◌, ◌≤◌, ◌<◌, ◌≡◌, refl, sym, ◌∙◌, ltb, Bool, true, false, List, [], ◌++◌, take,
  length-take, length-append, Option, none, some, if◌then◌else◌, append_assoc, append-nil, arith,
  ap, Bool-cases, inl, inr, replicate, length-replicate, ◌%◌,
}
use midnight_i9000_recovery.Common.Run.{ok, Returns}
use midnight_i9000_recovery.Common.Prog.{>>=-Returns}
use midnight_i9000_recovery.Common.Text.{Bytes}
use midnight_i9000_recovery.Mtd.Device.{Device, IsFlash}
use midnight_i9000_recovery.Mtd.Write.{
  MtdPartition, WriteContext, write_block, flush_padded, erase_from, total_blocks, erase_count,
  erase_blocks_at, mtd_erase_blocks, mtd_write_close,
}
use midnight_i9000_recovery.Mtd.Write.Block.{Kept, Sizes}
use midnight_i9000_recovery.Mtd.Write.Stream.{At, write_to_log, Placed, text_of}
use native.Mathlib.Nat.{div-le_self}
use midnight_i9000_recovery.Common.Int.{pos}

no_blocks :
    (partition : MtdPartition) (p : ℕ)
    → p ≤ partition.size
    → partition.size < 2 ^ 31
    → erase_count (pos 0) (total_blocks partition p) ≡ some 0
no_blocks partition p low small =
    let e : (partition.size + 2 ^ 32 - p) % 2 ^ 32 ≡ partition.size - p = omega arith in
    ground (arith, e, div-le_self (partition.size - p) partition.erase_size)

pad_text : (t b z : Bytes) → t ++ (b ++ z) ++ [] ≡ t ++ b ++ [] ++ z
pad_text t b z = simp (append_assoc, append-nil)

nil_text : (t : Bytes) → t ≡ t ++ [] ++ []
nil_text t = simp append-nil

not_positive : (n : ℕ) → ltb 0 n ≡ false → n ≡ 0
not_positive n h = ground arith

module _ {D : Type 0} (dev : Device D) (size : ℕ) (flash : IsFlash dev size) where
  -- The zeros behind the buffered bytes.
  abbrev pub padding : WriteContext D → Bytes
  padding ctx = if ltb 0 ctx.stored then replicate (size - ctx.stored) 0 else []

  -- The stream is on the device, up to `p`.
  abbrev pub Complete : D → ℕ → Bytes → Type 0
  Complete d p total =
      (log : List (ℕ × Bytes)) × Placed dev size flash d p log × (text_of log ≡ total)

  abbrev Closed : ℕ → D → Bytes → Option (Unit {0}) × WriteContext D → Type 0
  Closed p d total (none, s) = Kept dev size flash p d s.fd
  Closed p d total (some u, s) =
      Kept dev size flash p d s.fd
      × Sizes dev size flash s.partition
      × (p' : ℕ) × (dev.position s.fd ≡ some p')
      × (p' ≤ s.partition.size)
      × Complete s.fd p' total

  flush_padded-Closed :
      (p : ℕ) (ctx : WriteContext D) (stream : Bytes)
      → At dev size flash p ctx [] stream
      → ctx.stored < size
      → Returns (flush_padded dev ctx) (Closed p ctx.fd (stream ++ padding ctx))
  unfolding flush_padded
  flush_padded-Closed p ctx stream (sizes, here, low, full, fits, log, placed, text) room =
      elim (Bool-cases (ltb 0 ctx.stored)) [
        | inl c ↦ rw c (
            >>=-Returns (write_block dev padded.buffer) _ padded
              (write_to_log dev size flash padded.buffer []
                (stream ++ replicate (size - ctx.stored) 0) p padded log
                (omega (
                  arith,
                  sizes.0,
                  length-append (take ctx.stored ctx.buffer) zeros,
                  length-take ctx.stored ctx.buffer,
                  length-replicate {A = ℕ} (ctx.partition.erase_size - ctx.stored) 0,
                ))
                sizes here low placed
                (pad_text (text_of log) (take ctx.stored ctx.buffer) zeros
                  ∙ ap (λ bs. bs ++ zeros) text
                  ∙ ap (λ n. stream ++ replicate (n - ctx.stored) 0) sizes.0))
              (λ s kept. kept)
              (λ u s put.
                let (kept, same, p', later, there, low', log', placed', text') = put in
                (
                  (some tt, record s { stored = 0 }),
                  refl,
                  (
                    kept,
                    rw same.0 sizes,
                    p',
                    there,
                    low',
                    (log', placed', sym (append-nil _) ∙ text'),
                  ),
                )))
        | inr c ↦
            let empty = not_positive ctx.stored c in
            rw c (
              (some tt, ctx),
              refl,
              (
                λ q below. refl,
                sizes,
                p,
                here,
                low,
                (
                  log,
                  placed,
                  nil_text (text_of log)
                      ∙ ap (λ n. text_of log ++ take n ctx.buffer ++ []) (sym empty)
                      ∙ text
                      ∙ sym (append-nil stream),
                ),
              ),
            )
      ]
    where
      zeros : Bytes
      zeros = replicate (ctx.partition.erase_size - ctx.stored) 0

      padded : WriteContext D
      padded = record ctx { buffer = take ctx.stored ctx.buffer ++ zeros }

  erase_none :
      (p : ℕ) (s : WriteContext D)
      → Sizes dev size flash s.partition
      → p ≤ s.partition.size
      → erase_blocks_at dev (pos 0) (some p) s ≡ ok (some p, s)
  unfolding erase_blocks_at erase_from
  erase_none p s sizes low =
      rw (erase_blocks_at, no_blocks s.partition p low (omega (arith, sizes.2)))

  abbrev Erased : ℕ → D → Bytes → Option ℕ × WriteContext D → Type 0
  Erased p d total (none, s) = Kept dev size flash p d s.fd
  Erased p d total (some n, s) = Closed p d total (some tt, s)

  erase_blocks-Erased :
      (p : ℕ) (ctx : WriteContext D) (stream : Bytes)
      → At dev size flash p ctx [] stream
      → ctx.stored < size
      → Returns (mtd_erase_blocks dev (pos 0) ctx) (Erased p ctx.fd (stream ++ padding ctx))
  unfolding mtd_erase_blocks
  erase_blocks-Erased p ctx stream at room =
      >>=-Returns (flush_padded dev) _ ctx (flush_padded-Closed p ctx stream at room)
        (λ s kept. kept)
        λ u s c.
          let (kept, sizes, p', there, low, complete) = c in
          rw (there, erase_none p' s sizes low) ((some p', s), refl, c)

  abbrev pub ClosedStream : ℕ → D → Bytes → Bool × D → Type 0
  ClosedStream p d total (okay, d') =
      Kept dev size flash p d d' × ((okay ≡ true) → (p' : ℕ) × Complete d' p' total)

  -- mtd_write_close ends without a fault. When it reports success, the whole stream is on the device,
  -- in blocks in their order, with zeros up to the end of the last one; it never harms the
  -- blocks before the position.
  pub mtd_write_close-ClosedStream :
      (closed : Bool) (p : ℕ) (ctx : WriteContext D) (stream : Bytes)
      → At dev size flash p ctx [] stream
      → ctx.stored < size
      → Returns (mtd_write_close dev closed ctx) (ClosedStream p ctx.fd (stream ++ padding ctx))
  unfolding mtd_write_close
  mtd_write_close-ClosedStream closed p ctx stream at room =
      let (r, e, c) = erase_blocks-Erased p ctx stream at room in rw e (after r c)
    where
      after :
          (r : Option ℕ × WriteContext D)
          → Erased p ctx.fd (stream ++ padding ctx) r
          → Returns
              (elim (r.0) [ none ↦ ok (false, r.1.fd) | some n ↦ ok (closed, r.1.fd) ])
              (ClosedStream p ctx.fd (stream ++ padding ctx))
      after (none, s) kept = ((false, s.fd), refl, (kept, λ e. absurd (cc)))
      after (some n, s) (kept, sizes, p', there, low, complete) =
          ((closed, s.fd), refl, (kept, λ e. (p', complete)))

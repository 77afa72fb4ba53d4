-- ===== src/Mtd/Read/Data.antt =====
-- mtd_read_data of mtdutils/mtdutils.c, as a whole.
use midnight_i9000_recovery.Common.{
  lt→ltb, ℕ, zero, suc, ◌+◌, ◌-◌, ◌^◌, ◌≤◌, ◌<◌, ◌≡◌, refl, ◌∙◌, true, false, ◌&&◌, ◌==◌, leb,
  length, [], ◌++◌, Option, some, if◌then◌else◌, inl, inr, ◌⊎◌, arith, Bool-cases, length-append,
}
use midnight_i9000_recovery.Common.Prog.{>>=-Returns, unless_failed}
use midnight_i9000_recovery.Common.Run
use midnight_i9000_recovery.Common.Run.{Run, ok, Returns}
use midnight_i9000_recovery.Common.Text.{Bytes}
use midnight_i9000_recovery.Mtd.Device.{IsFlash}
use midnight_i9000_recovery.Mtd.Write.{MtdPartition}
use midnight_i9000_recovery.Mtd.Read.{
  ReadDevice, ReadContext, next_block, from_buffer, whole_blocks, refill, read_data_from,
  mtd_read_data,
}
use midnight_i9000_recovery.Mtd.Read.Block.{IsReadable}
use midnight_i9000_recovery.Mtd.Read.Stream.{
  Ready, Step, Delivered, share, sizes, taken, from_buffer-Step, refill-Delivered, Step-refl,
  Step-trans, next_block-NextBlock,
}

module _ {D : Type 0} (dev : ReadDevice D) (readable : IsReadable dev) (partition : MtdPartition)
    (flash : IsFlash dev.device partition.erase_size) (positive : 0 < partition.erase_size) where
  whole-cases :
      (consumed size len : ℕ)
      → (0 < len → consumed ≡ size)
      → 0 < size
      → ((((consumed == size) && leb size len) ≡ true) × (consumed ≡ size) × (size ≤ len))
        ⊎ ((((consumed == size) && leb size len) ≡ false) × (len < size))
  whole-cases consumed size len h positive = ground arith

  -- Less than a block is still wanted, and the buffer is as it was.
  abbrev Whole : ℕ → ReadContext D → Bytes → ReadContext D → Type 0
  Whole len ctx out ctx' =
      (length out ≤ len)
      × (len < length out + partition.erase_size)
      × (ctx'.consumed ≡ ctx.consumed)

  whole_blocks-Delivered :
      (fuel len : ℕ) (ctx : ReadContext D)
      → Ready dev readable partition flash positive ctx
      → (0 < len → ctx.consumed ≡ partition.erase_size)
      → len < fuel
      → Returns
          (whole_blocks dev fuel len ctx)
          (Delivered dev readable partition flash positive ctx (λ out. out) (Whole len ctx))
  unfolding whole_blocks
  whole_blocks-Delivered zero len ctx ready used enough = absurd (omega arith)
  whole_blocks-Delivered (suc fuel) len ctx ready used enough =
      let size = sizes dev readable partition flash positive ctx ready in
      elim (whole-cases ctx.consumed ctx.partition.erase_size len (ground arith) (omega arith)) [
        | inr (c, short) ↦ rw c (
          (some [], ctx),
          refl,
          (
            Step-refl dev readable partition flash positive ctx ready,
            (omega arith, omega arith, refl),
          ),
        )
        | inl (c, at_end, room) ↦ rw c (
            >>=-Returns (next_block dev) _ ctx
              (next_block-NextBlock dev readable partition flash positive ctx ready.0) (λ c h. h)
              (λ b c1 next.
                let (step, kept) =
                  taken dev readable partition flash positive ctx c1 b ready (at_end ∙ size) next in
                >>=-Returns (whole_blocks dev fuel (len - ctx.partition.erase_size)) _ c1
                  (whole_blocks-Delivered fuel (len - ctx.partition.erase_size) c1 step.0
                    (λ h. kept ∙ at_end ∙ size) (omega arith))
                  (λ c h. h)
                  (λ rest c2 (step2, whole). (
                    (some (b ++ rest), c2),
                    refl,
                    (
                      Step-trans dev readable partition flash positive ctx c1 c2 b rest step step2,
                      (
                        omega (arith, length-append b rest, next.0),
                        omega (arith, length-append b rest, next.0),
                        whole.2 ∙ kept,
                      ),
                    ),
                  ))))
      ]

  -- The buffer has what is wanted, or there is fuel for a pass more.
  abbrev Enough : ℕ → ℕ → ReadContext D → Type 0
  Enough fuel len ctx = (0 < fuel) × ((len + ctx.consumed ≤ partition.erase_size) ⊎ (1 < fuel))

  -- The part of a pass behind the copying from the buffer, and behind the complete blocks.
  abbrev last_part : ℕ → ℕ → Bytes → Bytes → ReadContext D → Run (Option Bytes × ReadContext D)
  last_part fuel len1 front blocks ctx2 =
      if len1 - length blocks == 0
      then ok (some (front ++ blocks), ctx2)
      else Run.◌>>=◌ (refill dev ctx2) (
          unless_failed λ u ctx3.
            Run.◌>>=◌ (read_data_from dev fuel (len1 - length blocks) ctx3)
              (unless_failed λ back ctx4. ok (some (front ++ blocks ++ back), ctx4)))

  abbrev later_part : ℕ → ℕ → Bytes → ReadContext D → Run (Option Bytes × ReadContext D)
  later_part fuel len1 front ctx1 =
      Run.◌>>=◌ (whole_blocks dev (suc len1) len1 ctx1) (unless_failed (last_part fuel len1 front))

  read_data_from-suc :
      (fuel len : ℕ) (ctx : ReadContext D)
      → read_data_from dev (suc fuel) len ctx ≡ (
          if len == 0
          then ok (some [], ctx)
          else later_part fuel
              (len - length (from_buffer dev len ctx).0)
              (from_buffer dev len ctx).0
              (from_buffer dev len ctx).1)
  unfolding read_data_from
  read_data_from-suc fuel len ctx = refl

  -- What the recursive call of a pass does.
  abbrev Later : ℕ → Type 0
  Later fuel =
      (len : ℕ) (ctx : ReadContext D)
      → Ready dev readable partition flash positive ctx
      → Enough fuel len ctx
      → Returns (read_data_from dev fuel len ctx) (
          Delivered dev readable partition flash positive ctx (λ out. out)
            (λ out ctx'. length out ≡ len))

  last_part-Delivered :
      (fuel len1 : ℕ) (front blocks : Bytes) (ctx ctx2 : ReadContext D)
      → Later fuel
      → Step dev readable partition flash positive ctx (front ++ blocks) ctx2
      → length blocks ≤ len1
      → len1 < length blocks + partition.erase_size
      → (0 < len1 → (ctx2.consumed ≡ partition.erase_size) × (0 < fuel))
      → Returns (last_part fuel len1 front blocks ctx2) (
          Delivered dev readable partition flash positive ctx
            (λ out. out)
            (λ out ctx'. length out ≡ length front + len1))
  last_part-Delivered fuel len1 front blocks ctx ctx2 ih step room short used =
      elim (Bool-cases (len1 - length blocks == 0)) [
        | inl done ↦ rw done (
          (some (front ++ blocks), ctx2),
          refl,
          (step, ground (arith, length-append front blocks)),
        )
        | inr more ↦ rw more (
            let (at_end, fueled) = used (ground arith) in
            >>=-Returns (refill dev) _ ctx2
              (refill-Delivered dev readable partition flash positive ctx2 step.0 at_end) (λ c h. h)
              (λ u c3 (step3, empty).
                >>=-Returns (read_data_from dev fuel (len1 - length blocks)) _ c3
                  (ih (len1 - length blocks) c3 step3.0 (fueled, inl (omega arith))) (λ c h. h)
                  (λ back c4 (step4, size4). (
                    (some (front ++ blocks ++ back), c4),
                    refl,
                    (
                      Step-trans dev readable partition flash positive ctx ctx2 c4 (front ++ blocks)
                          back step
                          (Step-trans dev readable partition flash positive ctx2 c3 c4 [] back step3
                            step4),
                      omega
                          (arith, length-append (front ++ blocks) back, length-append front blocks),
                    ),
                  ))))
      ]

  later_part-Delivered :
      (fuel len : ℕ) (front : Bytes) (ctx ctx1 : ReadContext D)
      → Later fuel
      → Ready dev readable partition flash positive ctx
      → Enough (suc fuel) len ctx
      → Step dev readable partition flash positive ctx front ctx1
      → length front ≡ share dev readable partition flash positive len ctx
      → ctx1.consumed ≡ ctx.consumed + share dev readable partition flash positive len ctx
      → Returns (later_part fuel (len - length front) front ctx1) (
          Delivered dev readable partition flash positive ctx
            (λ out. out)
            (λ out ctx'. length out ≡ len))
  later_part-Delivered fuel len front ctx ctx1 ih ready (some_fuel, enough) step copied_size now =
      let size = sizes dev readable partition flash positive ctx ready in
      let used : 0 < len - length front → (ctx1.consumed ≡ partition.erase_size) × (0 < fuel) = λ h.
        (
          omega (arith, ready.2),
          elim enough [ inl fits ↦ absurd (omega arith) | inr f ↦ omega arith ],
        ) in
      let total : length front + (len - length front) ≡ len = omega arith in
      >>=-Returns (whole_blocks dev (suc (len - length front)) (len - length front)) _ ctx1
        (whole_blocks-Delivered (suc (len - length front)) (len - length front) ctx1 step.0
          (λ h. (used h).0) (omega arith))
        (λ c h. h)
        (λ blocks c2 (step2, whole). rw total at (
          last_part-Delivered fuel (len - length front) front blocks ctx c2 ih
            (Step-trans dev readable partition flash positive ctx ctx1 c2 front blocks step step2)
            whole.0 whole.1 (λ h. (whole.2 ∙ (used h).0, (used h).1))))

  read_data_from-Delivered : (fuel : ℕ) → Later fuel
  read_data_from-Delivered zero len ctx ready enough = absurd (omega (arith, enough.0))
  read_data_from-Delivered (suc fuel) len ctx ready enough =
      rw (read_data_from-suc fuel len ctx) (elim (Bool-cases (len == 0)) [
        | inl done ↦ rw done (
          (some [], ctx),
          refl,
          (Step-refl dev readable partition flash positive ctx ready, ground arith),
        )
        | inr more ↦ rw more (
            let (step, copied_size, now) =
              from_buffer-Step dev readable partition flash positive len ctx ready in
            later_part-Delivered fuel len (from_buffer dev len ctx).0 ctx
              (from_buffer dev len ctx).1 (read_data_from-Delivered fuel) ready enough step
              copied_size now)
      ])

  -- mtd_read_data of fewer than 2^31 bytes ends without a fault, from a context between two calls.
  -- If it succeeds it has filled the buffer of its caller, and the context is again one between two
  -- calls; the bytes that it gives and those that the context then holds are those that the context
  -- held and the blocks that read_block has given meanwhile: none is lost, doubled or moved.
  pub mtd_read_data-Delivered :
      (len : ℕ) (ctx : ReadContext D)
      → Ready dev readable partition flash positive ctx
      → len < 2 ^ 31
      → Returns (mtd_read_data dev len ctx) (
          Delivered dev readable partition flash positive ctx
            (λ out. out)
            (λ out ctx'. length out ≡ len))
  unfolding mtd_read_data
  mtd_read_data-Delivered len ctx ready small =
      rw (lt→ltb len (2 ^ 31) small)
        (read_data_from-Delivered (suc (suc len)) len ctx ready (omega arith, inr (omega arith)))

-- ===== src/Mtd/Write/Block.antt =====
-- write_block of mtdutils/mtdutils.c.
use midnight_i9000_recovery.Common.{
  ℕ, zero, suc, ◌+◌, ◌^◌, ◌≤◌, ◌<◌, ◌≡◌, refl, sym, ◌∙◌, Bool, true, false, List, [], ◌∷◌, ◌++◌,
  length, Option, none, some, if◌then◌else◌, append_assoc, append-nil, arith, ap, inl, inr, ◌⊎◌,
  lt→ltb,
}
use midnight_i9000_recovery.Common.Run
use midnight_i9000_recovery.Common.Run.{Run, ok, fault, Returns}
use midnight_i9000_recovery.Common.Text.{bytes_eq→≡, Bytes}
use mathlib.Core.Path.{subst}
use midnight_i9000_recovery.Mtd.Write.Refused.{
  Refused, AllRefused, Told, Chosen, write_or_skip-Told,
}
use midnight_i9000_recovery.Mtd.Device.{Device, IsFlash}
use midnight_i9000_recovery.Mtd.Write.{
  MtdPartition, WriteContext, add_bad_block_offset, fits, add_int, not_writable, verified,
  write_once, write_twice, write_or_skip, write_from, write_block,
}

-- The offsets of `n` blocks from `p` on.
abbrev pub offsets : ℕ → ℕ → ℕ → List ℕ
offsets size p zero = []
offsets size p (suc n) = p ∷ offsets size (p + size) n

-- The offset behind them.
abbrev pub behind : ℕ → ℕ → ℕ → ℕ
behind size p zero = p
behind size p (suc n) = behind size (p + size) n

fits-cases :
    (partition : MtdPartition) (n : ℕ)
    → partition.size < 2 ^ 31
    → ((fits partition n ≡ true) × (n ≤ partition.size))
      ⊎ ((fits partition n ≡ false) × (partition.size < n))
fits-cases partition n h = ground arith

add_int-ok : (a b : ℕ) → a + b < 2 ^ 31 → add_int a b ≡ ok (a + b)
add_int-ok a b h = rw (lt→ltb (a + b) (2 ^ 31) h)

module _ {D : Type 0} (dev : Device D) (size : ℕ) (flash : IsFlash dev size) where
  -- The blocks before `p` are as they were.
  abbrev pub Kept : ℕ → D → D → Type 0
  Kept p d d' = (q : ℕ) → q + size ≤ p → flash.block d' q ≡ flash.block d q

  -- An attempt at `p` says whether the block is written, with the position then behind it.
  abbrev Tried : Bytes → ℕ → D → Bool × D → Type 0
  Tried content p d r =
      (r.0 ≡ true → (dev.position r.1 ≡ some (p + size)) × (flash.block r.1 p ≡ content))
      × Kept p d r.1

  Tried-trans :
      (content : Bytes) (p : ℕ) (d d1 : D) (r : Bool × D)
      → Kept p d d1
      → Tried content p d1 r
      → Tried content p d r
  Tried-trans content p d d1 r kept h = (h.0, λ q below. h.1 q below ∙ kept q below)

  Tried-if :
      (content : Bytes) (p : ℕ) (d : D) (c : Bool) (x y : Bool × D)
      → Tried content p d x
      → Tried content p d y
      → Tried content p d (if c then x else y)
  Tried-if content p d true x y hx hy = hx
  Tried-if content p d false x y hx hy = hy

  given_up : (content : Bytes) (p : ℕ) (d d' : D) → Kept p d d' → Tried content p d (false, d')
  given_up content p d d' kept = (λ t. absurd (cc), kept)

  verified-Tried :
      (content : Bytes) (p : ℕ) (d : D) (r : Option Bytes × D)
      → dev.read_at d p size ≡ r
      → Tried content p d (verified content r)
  verified-Tried content p d (none, d') e =
      given_up content p d d' (λ q h. ap (λ r. flash.block r.1 q) (sym e) ∙ flash.read-keeps d p q)
  verified-Tried content p d (some b, d') e = (
    λ t. (
      flash.read-position d d' p b e,
      flash.read-block d d' p b e ∙ sym (bytes_eq→≡ content b t),
    ),
    λ q h. ap (λ r. flash.block r.1 q) (sym e) ∙ flash.read-keeps d p q,
  )

  module _ (content : Bytes) (whole : length content ≡ size) (p : ℕ) where
    write_once-Tried : (d : D) → Tried content p d (write_once dev size content p d)
    unfolding write_once
    write_once-Tried d =
        let d1 = (dev.erase d p size).1 in
        let d2 = (dev.write_at d1 p content).1 in
        let erased : Kept p d d1 = λ q h. flash.erase-keeps d p q h in
        let wrote : Kept p d d2 = λ q h. flash.write-keeps d1 p q content whole h ∙ erased q h in
        Tried-if content p d (dev.erase d p size).0 (verified content (dev.read_at d2 p size))
          (false, d1) (Tried-trans content p d d2 _ wrote (verified-Tried content p d2 _ refl))
          (given_up content p d d1 erased)

    write_twice-Tried : (d : D) → Tried content p d (write_twice dev size content p d)
    unfolding write_twice
    write_twice-Tried d = again (write_once dev size content p d) (write_once-Tried d)
      where
        again :
            (r : Bool × D)
            → Tried content p d r
            → Tried content p d (if r.0 then (true, r.1) else write_once dev size content p r.1)
        again (true, d1) h = h
        again (false, d1) h = Tried-trans content p d d1 _ h.1 (write_once-Tried d1)

    write_or_skip-Tried : (d : D) → Tried content p d (write_or_skip dev size content p d)
    unfolding write_or_skip
    write_or_skip-Tried d =
        Tried-if content p d (not_writable (dev.get_bad_block d p)) (false, d) _
          (given_up content p d d (λ q h. refl))
          (give_up (write_twice dev size content p d) (write_twice-Tried d))
      where
        give_up :
            (r : Bool × D)
            → Tried content p d r
            → Tried content p d (if r.0 then (true, r.1) else (false, (dev.erase r.1 p size).1))
        give_up (true, d1) h = h
        give_up (false, d1) h =
            given_up content p d _ (λ q below. flash.erase-keeps d1 p q below ∙ h.1 q below)

  abbrev pub Same : WriteContext D → WriteContext D → Type 0
  Same ctx ctx' =
      (ctx'.partition ≡ ctx.partition) × (ctx'.buffer ≡ ctx.buffer) × (ctx'.stored ≡ ctx.stored)

  -- The end of the search for a block at offset `q`.
  abbrev pub Ended : Bytes → ℕ → Option (Unit {0}) × WriteContext D → Type 0
  Ended content q (none, ctx') = ctx'.partition.size < q + size
  Ended content q (some u, ctx') =
      (q + size ≤ ctx'.partition.size)
      × (dev.position ctx'.fd ≡ some (q + size))
      × (flash.block ctx'.fd q ≡ content)

  -- The content is in the first of the blocks from `p` on that can be written, the ones before it
  -- cannot and are noted as bad, or there is none up to the end of the partition.
  abbrev pub Wrote : Bytes → ℕ → WriteContext D → Option (Unit {0}) × WriteContext D → Type 0
  Wrote content p ctx r =
      Same ctx r.1
      × Kept p ctx.fd r.1.fd
      × (n : ℕ) × (r.1.bad_block_offsets ≡ ctx.bad_block_offsets ++ offsets size p n)
      × Ended content (behind size p n) r
      × (d : D) × AllRefused dev size content n p ctx.fd d
      × Chosen dev size (behind size p n) d r.0

  -- What the model needs of the sizes: no overflow of type int, and blocks that are not empty.
  abbrev pub Sizes : MtdPartition → Type 0
  Sizes partition = (partition.erase_size ≡ size) × (0 < size) × (partition.size + size < 2 ^ 31)

  -- The rest of the pass of the loop at `p`, after the attempt.
  abbrev after_try :
      Bytes → ℕ → ℕ → WriteContext D → Bool × D → ℕ → Run (Option (Unit {0}) × WriteContext D)
  after_try content fuel p ctx r next =
      if fits ctx.partition next
      then (if r.0
          then ok (some tt, record ctx { fd = r.1 })
          else write_from dev content fuel (p + ctx.partition.erase_size)
              (record (add_bad_block_offset ctx p) { fd = r.1 }))
      else ok (none, ctx)

  write_from-suc :
      (content : Bytes) (fuel p : ℕ) (ctx : WriteContext D)
      → write_from dev content (suc fuel) p ctx
        ≡ Run.◌>>=◌ (add_int p ctx.partition.erase_size) (
            after_try content fuel p ctx
              (write_or_skip dev ctx.partition.erase_size content p ctx.fd))
  unfolding write_from
  write_from-suc content fuel p ctx = refl

  module _ (content : Bytes) (whole : length content ≡ size) where
    skip-Wrote :
        (p : ℕ) (ctx : WriteContext D) (d : D)
        → Kept p ctx.fd d
        → Refused dev size content p ctx.fd
        → d ≡ (write_or_skip dev size content p ctx.fd).1
        → (r : Option (Unit {0}) × WriteContext D)
        → Wrote content (p + size) (record (add_bad_block_offset ctx p) { fd = d }) r
        → Wrote content p ctx r
    skip-Wrote p ctx d kept refused left r (same, after, n, noted, ended, d', all, last) = (
      same,
      λ q below. after q (omega arith) ∙ kept q below,
      suc n,
      rw noted (append_assoc ctx.bad_block_offsets (p ∷ []) (offsets size (p + size) n)),
      ended,
      d',
      (refused, subst (λ z. AllRefused dev size content n (p + size) z d') left all),
      last,
    )

    abbrev Attempt : ℕ → D → Bool × D → Type 0
    Attempt p d r =
        Tried content p d r
        × Told dev size content p d r
        × (r.1 ≡ (write_or_skip dev size content p d).1)

    write_or_skip-sized :
        (es p : ℕ) (d : D) → es ≡ size → Attempt p d (write_or_skip dev es content p d)
    write_or_skip-sized es p d e =
        rw e (write_or_skip-Tried content whole p d, write_or_skip-Told dev size content p d, refl)

    -- What one pass comes to, from what the next ones do.
    module _ (fuel p : ℕ)
        (later : (ctx : WriteContext D)
          → Sizes ctx.partition
          → p + size ≤ ctx.partition.size
          → ctx.partition.size < p + size + fuel
          → Returns (write_from dev content fuel (p + size) ctx) (Wrote content (p + size) ctx))
        (ctx : WriteContext D) (sizes : Sizes ctx.partition)
        (enough : ctx.partition.size < p + suc fuel) where
      pass_with_room :
          (r : Bool × D)
          → Attempt p ctx.fd r
          → p + size ≤ ctx.partition.size
          → Returns
              (if r.0
                then ok (some tt, record ctx { fd = r.1 })
                else write_from dev content fuel
                    (p + size)
                    (record (add_bad_block_offset ctx p) { fd = r.1 }))
              (Wrote content p ctx)
      pass_with_room (true, d) h fit =
          let (there, content_there) = h.0.0 refl in
          (
            (some tt, record ctx { fd = d }),
            refl,
            (
              (refl, refl, refl),
              h.0.1,
              zero,
              sym (append-nil _),
              (fit, there, content_there),
              ctx.fd,
              refl,
              h.1.1 refl,
            ),
          )
      pass_with_room (false, d) h fit =
          let skipped = record (add_bad_block_offset ctx p) { fd = d } in
          let (r, e, w) = later skipped sizes fit (omega arith) in
          (r, e, skip-Wrote p ctx d h.0.1 (h.1.0 refl) h.2 r w)

      pass :
          (r : Bool × D)
          → Attempt p ctx.fd r
          → Returns
              (after_try content fuel p ctx r (p + ctx.partition.erase_size))
              (Wrote content p ctx)
      pass r h =
          rw (ap (λ n. p + n) sizes.0) (elim (fits-cases ctx.partition (p + size) (omega arith)) [
            | inr (full, over) ↦ rw full (
              (none, ctx),
              refl,
              (
                (refl, refl, refl),
                λ q below. refl,
                zero,
                sym (append-nil _),
                over,
                ctx.fd,
                refl,
                tt,
              ),
            )
            | inl (room, fit) ↦ rw room (pass_with_room r h fit)
          ])

    pub write_from-Wrote :
        (fuel p : ℕ) (ctx : WriteContext D)
        → Sizes ctx.partition
        → p ≤ ctx.partition.size
        → ctx.partition.size < p + fuel
        → Returns (write_from dev content fuel p ctx) (Wrote content p ctx)
    write_from-Wrote zero p ctx sizes low enough = absurd (omega arith)
    write_from-Wrote (suc fuel) p ctx sizes low enough =
        rw (write_from-suc content fuel p ctx, add_int-ok p ctx.partition.erase_size (omega arith))
          (pass fuel p (write_from-Wrote fuel (p + size)) ctx sizes enough
            (write_or_skip dev ctx.partition.erase_size content p ctx.fd)
            (write_or_skip-sized ctx.partition.erase_size p ctx.fd sizes.0))

    -- write_block, at a position within the partition, ends without a fault: it puts the content in the
    -- first block from there on that can be written, and moves the position behind it, or it fails when
    -- there is none up to the end of the partition. Each block that it left out is bad, or the kernel
    -- could not tell whether it is, or twice it could not be erased or was not read back as written, and
    -- is noted as bad, in order; the block that is written is not bad. Blocks before the position are
    -- kept.
    pub write_block-Wrote :
        (p : ℕ) (ctx : WriteContext D)
        → Sizes ctx.partition
        → dev.position ctx.fd ≡ some p
        → p ≤ ctx.partition.size
        → Returns (write_block dev content ctx) (Wrote content p ctx)
    unfolding write_block
    write_block-Wrote p ctx sizes here low =
        rw (write_block, here)
          (write_from-Wrote (suc ctx.partition.size) p ctx sizes low (omega arith))

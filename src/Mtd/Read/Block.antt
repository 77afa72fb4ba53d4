-- ===== src/Mtd/Read/Block.antt =====
-- read_block of mtdutils/mtdutils.c.
use midnight_i9000_recovery.Common.{
  ◌==◌, not, ℕ, zero, suc, ◌+◌, ◌≤◌, ◌<◌, ◌≡◌, refl, sym, ◌∙◌, ap, true, false, length, Option,
  none, some, if◌then◌else◌, inl, inr, ◌⊎◌, arith, Bool-cases,
}
use midnight_i9000_recovery.Mtd.Read.{
  after_pass, ReadDevice, Pass, got, stop, skip, check_stats, check_read, read_once, read_from,
  read_block, not_readable,
}
use midnight_i9000_recovery.Common.Run.{Run, ok, Returns}
use midnight_i9000_recovery.Common.Text.{Bytes}
use midnight_i9000_recovery.Mtd.Device.{IsFlash, BadBlock, good}
use midnight_i9000_recovery.Mtd.Write.{MtdPartition, fits}
use midnight_i9000_recovery.Mtd.Write.Block.{behind}

-- What reading relies on besides: a read that succeeds gives as many bytes as asked for, and the two
-- ways to ask for the position agree.
pub record IsReadable {D : Type 0} (dev : ReadDevice D) : Type 0 where
  pub read-length :
      (d d' : D) (p n : ℕ) (b : Bytes) → dev.device.read_at d p n ≡ (some b, d') → length b ≡ n
  pub offset-position : (d : D) (p : ℕ) → dev.device.position d ≡ some p → dev.offset d ≡ p

module _ {D : Type 0} (dev : ReadDevice D) (readable : IsReadable dev) (partition : MtdPartition)
    (flash : IsFlash dev.device partition.erase_size) where
  abbrev pub size : ℕ
  size = partition.erase_size

  -- The device holds what it held.
  abbrev pub Unchanged : D → D → Type 0
  Unchanged d d' = (q : ℕ) → flash.block d' q ≡ flash.block d q

  -- `content` is the good block at `q`, and the position is behind it.
  abbrev pub Got : ℕ → Bytes → D → Type 0
  Got q content d' =
      (length content ≡ size)
      × (flash.block d' q ≡ content)
      × (dev.offset d' ≡ q + size)
      × (dev.device.get_bad_block d' q ≡ good)

  abbrev Passed : ℕ → D → Pass × D → Type 0
  Passed p d (got content, d') = Got p content d' × Unchanged d d'
  Passed p d (stop, d') = Unchanged d d'
  Passed p d (skip failed, d') = Unchanged d d'

  readable_block : (b : BadBlock) → not_readable b ≡ false → b ≡ good
  readable_block b h = ground arith

  check_stats-Passed :
      (before p : ℕ) (content : Bytes) (d d' : D)
      → (dev.device.get_bad_block d' p ≡ good → Got p content d')
      → Unchanged d d'
      → (failed : Option ℕ) → Passed p d (check_stats dev before p content d' failed, d')
  check_stats-Passed before p content d d' found kept none = kept
  check_stats-Passed before p content d d' found kept (some failed) =
      elim (Bool-cases (not (failed == before))) [
        | inl differ ↦ rw differ kept
        | inr same ↦ rw same (elim (Bool-cases (not_readable (dev.device.get_bad_block d' p))) [
          | inl bad ↦ rw bad kept
          | inr g ↦ rw g (found (readable_block (dev.device.get_bad_block d' p) g), kept)
        ])
      ]

  read_once-Passed : (before p : ℕ) (d : D) → Passed p d (read_once dev size before p d)
  unfolding read_once
  read_once-Passed before p d = of_read (dev.device.read_at d p size) refl
    where
      of_read :
          (r : Option Bytes × D)
          → dev.device.read_at d p size ≡ r
          → Passed p d (check_read dev before p r)
      of_read (none, d') e = λ q. ap (λ r. flash.block r.1 q) (sym e) ∙ flash.read-keeps d p q
      of_read (some content, d') e =
          check_stats-Passed before p content d d'
            (λ g. (
              readable.read-length d d' p size content e,
              flash.read-block d d' p content e,
              readable.offset-position d' (p + size) (flash.read-position d d' p content e),
              g,
            ))
            (λ q. ap (λ r. flash.block r.1 q) (sym e) ∙ flash.read-keeps d p q) (dev.ecc_failed d')

  -- The first block from `p` on that can be read, if there is one up to the end.
  abbrev pub Found : ℕ → D → Option Bytes × D → Type 0
  Found p d (none, d') = Unchanged d d'
  Found p d (some content, d') =
      Unchanged d d'
      × (n : ℕ) × (behind size p n + size ≤ partition.size)
      × Got (behind size p n) content d'

  later-Found :
      (p : ℕ) (d d1 : D) (r : Option Bytes × D)
      → Unchanged d d1
      → Found (p + size) d1 r
      → Found p d r
  later-Found p d d1 (none, d') kept h = λ q. h q ∙ kept q
  later-Found p d d1 (some content, d') kept (kept', n, inside, found) =
      (λ q. kept' q ∙ kept q, suc n, inside, found)

  read_from-suc :
      (fuel before p : ℕ) (d : D)
      → read_from dev partition (suc fuel) before p d ≡ (
          if fits partition (p + size)
          then after_pass dev
              (λ failed d'. read_from dev partition fuel failed (p + size) d')
              (read_once dev size before p d)
          else ok (none, d))
  unfolding read_from
  read_from-suc fuel before p d = refl

  fits-cases :
      (n : ℕ) → ((fits partition n ≡ true) × (n ≤ partition.size)) ⊎ (fits partition n ≡ false)
  fits-cases n = ground arith

  pass-Found :
      (p : ℕ) (d : D) (later : ℕ → D → Run (Option Bytes × D))
      → ((failed : ℕ) (d' : D) → Returns (later failed d') (Found (p + size) d'))
      → p + size ≤ partition.size
      → (pass : Pass × D) → Passed p d pass
      → Returns (after_pass dev later pass) (Found p d)
  pass-Found p d later ih room (got content, d') (found, kept) =
      ((some content, d'), refl, (kept, 0, room, found))
  pass-Found p d later ih room (stop, d') kept = ((none, d'), refl, kept)
  pass-Found p d later ih room (skip failed, d') kept =
      let (r, e, found) = ih failed d' in (r, e, later-Found p d d' r kept found)

  pub read_from-Found :
      (fuel before p : ℕ) (d : D)
      → 0 < size
      → partition.size < p + fuel
      → 0 < fuel
      → Returns (read_from dev partition fuel before p d) (Found p d)
  read_from-Found zero before p d positive enough some_fuel = absurd (omega arith)
  read_from-Found (suc fuel) before p d positive enough some_fuel =
      rw (read_from-suc fuel before p d) (elim (fits-cases (p + size)) [
        | inr full ↦ rw full ((none, d), refl, λ q. refl)
        | inl (room, inside) ↦ rw room (
            pass-Found p d (λ failed d'. read_from dev partition fuel failed (p + size) d')
              (λ failed d'.
                read_from-Found fuel failed (p + size) d' positive (omega arith) (omega arith))
              inside (read_once dev size before p d) (read_once-Passed before p d))
      ])

  -- read_block ends without a fault. It changes nothing on the device; if it returns a block, that is
  -- the content of a block that lies in the partition at or after the position and is not marked
  -- bad, and the position is behind it.
  pub read_block-Found :
      (d : D) → 0 < size → Returns (read_block dev partition d) (Found (dev.offset d) d)
  unfolding read_block
  read_block-Found d positive = of_stats (dev.ecc_failed d)
    where
      of_stats :
          (failed : Option ℕ)
          → Returns
              (elim failed [
                | none ↦ ok (none, d)
                | some before ↦ read_from dev partition (suc partition.size) before (dev.offset d) d
              ])
              (Found (dev.offset d) d)
      of_stats none = ((none, d), refl, λ q. refl)
      of_stats (some before) =
          read_from-Found (suc partition.size) before (dev.offset d) d positive (omega arith)
            (omega arith)

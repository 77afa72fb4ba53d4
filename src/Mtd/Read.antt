-- ===== src/Mtd/Read.antt =====
-- Reading from a partition: mtd_read_partition to mtd_read_data of mtdutils/mtdutils.c. A call that
-- fails leaves bytes in the buffer of its caller that are left out.
pub mod Block
pub mod Data
pub mod Stream
use midnight_i9000_recovery.Common.{
  ℕ, zero, suc, ◌+◌, ◌-◌, ◌^◌, ◌==◌, ltb, leb, Bool, true, false, not, ◌&&◌, List, [], ◌∷◌, ◌++◌,
  length, take, drop, min, Option, none, some, if◌then◌else◌,
}
use midnight_i9000_recovery.Common.Run
use midnight_i9000_recovery.Common.Run.{Run, ok, fault, Fault}
use midnight_i9000_recovery.Common.Prog.{Prog, unless_failed}
use midnight_i9000_recovery.Common.Text.{Bytes}
use midnight_i9000_recovery.Mtd.Device.{Device, BadBlock, good, bad, not_supported, ioctl_error}
use midnight_i9000_recovery.Mtd.Write.{MtdPartition, fits}

-- What reading uses of the device besides: the position, which lseek64() always tells of an open
-- device, and the field `failed` of ioctl(ECCGETSTATS), `none` if that fails.
pub record ReadDevice (D : Type 0) : Type 0 where
  pub device : Device D
  pub offset : D → ℕ
  pub ecc_failed : D → Option ℕ

pub record ReadContext (D : Type 0) : Type 0 where
  pub partition : MtdPartition
  pub buffer : Bytes
  pub consumed : ℕ
  pub fd : D

-- `buffer` is what malloc() returns, and `fd` what open() returns.
abbrev pub mtd_read_partition :
    {D : Type 0} → MtdPartition → Option Bytes → Option D → Option (ReadContext D)
mtd_read_partition partition none fd = none
mtd_read_partition partition (some buffer) none = none
mtd_read_partition partition (some buffer) (some fd) =
    some
      (record { partition = partition; buffer = buffer; consumed = partition.erase_size; fd = fd })

-- ioctl(MEMGETBADBLOCK) != 0
abbrev pub not_readable : BadBlock → Bool
not_readable good = false
not_readable bad = true
not_readable not_supported = true
not_readable ioctl_error = true

-- How a pass of the loop of `read_block` ends: with the block, with -1, or with the count of failures
-- that the next pass compares with.
pub data Pass : Type 0 where
  got : Bytes → Pass
  stop : Pass
  skip : ℕ → Pass

module _ {D : Type 0} (dev : ReadDevice D) where
  abbrev pub check_stats : ℕ → ℕ → Bytes → D → Option ℕ → Pass
  check_stats before p content d none = stop
  check_stats before p content d (some failed) =
      if not (failed == before)
      then skip failed
      else if not_readable (dev.device.get_bad_block d p)
      then skip before
      else got content

  abbrev pub check_read : ℕ → ℕ → Option Bytes × D → Pass × D
  check_read before p (none, d) = (skip before, d)
  check_read before p (some content, d) = (check_stats before p content d (dev.ecc_failed d), d)

  -- The body of the loop over `pos`.
  unfoldable pub read_once : ℕ → ℕ → ℕ → D → Pass × D
  read_once size before p d = check_read before p (dev.device.read_at d p size)

  abbrev pub after_pass : (ℕ → D → Run (Option Bytes × D)) → Pass × D → Run (Option Bytes × D)
  after_pass later (got content, d) = ok (some content, d)
  after_pass later (stop, d) = ok (none, d)
  after_pass later (skip failed, d) = later failed d

  unfoldable pub read_from : MtdPartition → ℕ → ℕ → ℕ → Prog D Bytes
  unfolding read_once
  read_from partition zero before p d = fault Fault.no_fuel
  read_from partition (suc fuel) before p d =
      let next = p + partition.erase_size in
      let later : ℕ → D → Run (Option Bytes × D) =
        λ failed d'. read_from partition fuel failed next d' in
      let tried = after_pass later (read_once partition.erase_size before p d) in
      if fits partition next then tried else ok (none, d)

  unfoldable pub read_block : MtdPartition → Prog D Bytes
  unfolding read_from
  read_block partition d = elim (dev.ecc_failed d) [
    | none ↦ ok (none, d)
    | some before ↦ read_from partition (suc partition.size) before (dev.offset d) d
  ]

  -- A block, with the rest of the context as it is.
  unfoldable pub next_block : Prog (ReadContext D) Bytes
  unfolding read_block
  next_block ctx =
      Run.◌>>=◌ (read_block ctx.partition ctx.fd) λ (r, d). ok (r, record ctx { fd = d })

  -- The part that copies from the buffer: what is copied, of the `len` bytes wanted.
  unfoldable pub from_buffer : ℕ → ReadContext D → Bytes × ReadContext D
  from_buffer len ctx =
      let copy = min len (ctx.partition.erase_size - ctx.consumed) in
      if ltb ctx.consumed ctx.partition.erase_size
      then (take copy (drop ctx.consumed ctx.buffer), record ctx { consumed = ctx.consumed + copy })
      else ([], ctx)

  -- The loop that reads complete blocks: what has been read, of the `len` bytes wanted.
  unfoldable pub whole_blocks : ℕ → ℕ → Prog (ReadContext D) Bytes
  unfolding next_block
  whole_blocks zero len ctx = fault Fault.no_fuel
  whole_blocks (suc fuel) len ctx =
      let size = ctx.partition.erase_size in
      let more = Run.◌>>=◌ (next_block ctx) (
        unless_failed λ content ctx'.
          Run.◌>>=◌ (whole_blocks fuel (len - size) ctx')
            (unless_failed λ rest ctx2. ok (some (content ++ rest), ctx2))) in
      if (ctx.consumed == size) && leb size len then more else ok (some [], ctx)

  -- Reading the next block into the buffer.
  unfoldable pub refill : Prog (ReadContext D) (Unit {0})
  unfolding next_block
  refill ctx =
      let read = Run.◌>>=◌ (next_block ctx) (
        unless_failed
          λ content ctx'. ok (some tt, record ctx' { buffer = content; consumed = 0 })) in
      if ctx.consumed == ctx.partition.erase_size then read else ok (some tt, ctx)

  -- The outer loop: what is read, of the `len` bytes that are still wanted.
  unfoldable pub read_data_from : ℕ → ℕ → Prog (ReadContext D) Bytes
  unfolding from_buffer whole_blocks refill
  read_data_from zero len ctx = fault Fault.no_fuel
  read_data_from (suc fuel) len ctx =
      let (front, ctx1) = from_buffer len ctx in
      let len1 = len - length front in
      let pass : Run (Option Bytes × ReadContext D) =
        Run.◌>>=◌ (whole_blocks (suc len1) len1 ctx1) (
          unless_failed λ blocks ctx2.
            let len2 = len1 - length blocks in
            let rest = Run.◌>>=◌ (refill ctx2) (
              unless_failed λ u ctx3.
                Run.◌>>=◌ (read_data_from fuel len2 ctx3)
                  (unless_failed λ back ctx4. ok (some (front ++ blocks ++ back), ctx4))) in
            if len2 == 0 then ok (some (front ++ blocks), ctx2) else rest) in
      if len == 0 then ok (some [], ctx) else pass

  -- The bytes that mtd_read_data() puts into `data`; the result of the call is their number. The loop
  -- compares with (int) len.
  unfoldable pub mtd_read_data : ℕ → Prog (ReadContext D) Bytes
  unfolding read_data_from
  mtd_read_data len ctx =
      let read = read_data_from (suc (suc len)) len ctx in
      if ltb len (2 ^ 31) then read else ok (some [], ctx)

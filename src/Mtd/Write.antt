-- ===== src/Mtd/Write.antt =====
-- Writing to a partition: mtd_write_partition to mtd_find_write_start of mtdutils/mtdutils.c. The
-- descriptor `fd` is the state of the device. Messages and `errno` are left out.
pub mod Refused
pub mod Block
pub mod Stream
pub mod Data
pub mod Close
pub mod Start
use midnight_i9000_recovery.Common.{
  ℕ, zero, suc, ◌+◌, ◌-◌, ◌*◌, ◌/◌, ◌%◌, ◌^◌, ◌==◌, ltb, leb, Bool, true, false, not, ◌&&◌, ◌||◌,
  List, [], ◌∷◌, ◌++◌, length, take, drop, replicate, Option, none, some, if◌then◌else◌,
}
use midnight_i9000_recovery.Common.Int.{ℤ, pos, negsuc}
use midnight_i9000_recovery.Common.Run
use midnight_i9000_recovery.Common.Run.{Run, ok, fault, Fault}
use midnight_i9000_recovery.Common.Prog.{Prog, return, fail, unless_failed, ◌>>=◌, ◌>>◌}
use midnight_i9000_recovery.Common.Text.{Bytes, bytes_eq}
use midnight_i9000_recovery.Mtd.Device.{Device, BadBlock, good, bad, not_supported, ioctl_error}

pub record MtdPartition : Type 0 where
  pub size : ℕ
  pub erase_size : ℕ

-- `bad_block_count` is the length of `bad_block_offsets`.
pub record WriteContext (D : Type 0) : Type 0 where
  pub partition : MtdPartition
  pub buffer : Bytes
  pub stored : ℕ
  pub fd : D
  pub bad_block_offsets : List ℕ
  pub bad_block_alloc : ℕ

-- `buffer` is what malloc() returns, with any bytes in it, and `fd` what open() returns.
abbrev pub mtd_write_partition :
    {D : Type 0} → MtdPartition → Option Bytes → Option D → Option (WriteContext D)
mtd_write_partition partition none fd = none
mtd_write_partition partition (some buffer) none = none
mtd_write_partition partition (some buffer) (some fd) = some (record {
  partition = partition;
  buffer = buffer;
  stored = 0;
  fd = fd;
  bad_block_offsets = [];
  bad_block_alloc = 0;
})

abbrev pub add_bad_block_offset : {D : Type 0} → WriteContext D → ℕ → WriteContext D
add_bad_block_offset ctx p = record ctx {
  bad_block_alloc =
      if ltb ctx.bad_block_alloc (length ctx.bad_block_offsets + 1)
      then ctx.bad_block_alloc * 2 + 1
      else ctx.bad_block_alloc;
  bad_block_offsets = ctx.bad_block_offsets ++ (p ∷ []);
}

-- pos + size <= (int) partition->size; the cast is negative from 2^31 on. `next` is pos + size.
abbrev pub fits : MtdPartition → ℕ → Bool
fits partition next = ltb partition.size (2 ^ 31) && leb next partition.size

-- pos + size, of type int
abbrev pub add_int : ℕ → ℕ → Run ℕ
add_int a b = if ltb (a + b) (2 ^ 31) then ok (a + b) else fault Fault.signed_overflow

-- ret != 0 && !(ret == -1 && errno == EOPNOTSUPP)
abbrev pub not_writable : BadBlock → Bool
not_writable good = false
not_writable bad = true
not_writable not_supported = false
not_writable ioctl_error = true

abbrev pub verified : {D : Type 0} → Bytes → Option Bytes × D → Bool × D
verified content (none, d) = (false, d)
verified content (some verify, d) = (bytes_eq content verify, d)

-- memcpy(ctx->buffer + ctx->stored, bytes, n); ctx->stored += n;
abbrev pub append_buffer : {D : Type 0} → Bytes → WriteContext D → WriteContext D
append_buffer bytes ctx = record ctx {
  buffer = take ctx.stored ctx.buffer ++ bytes ++ drop (ctx.stored + length bytes) ctx.buffer;
  stored = ctx.stored + length bytes;
}

-- The first part of the loop of mtd_write_data: the bytes that are left, from data + wrote on.
unfoldable pub coalesce : {D : Type 0} → Bytes → Prog (WriteContext D) Bytes
coalesce bytes ctx =
    let avail = ctx.partition.erase_size - ctx.stored in
    if ltb 0 ctx.stored || ltb (length bytes) ctx.partition.erase_size
    then ok (some (drop avail bytes), append_buffer (take avail bytes) ctx)
    else ok (some bytes, ctx)

abbrev pub reset_stored : {D : Type 0} → Prog (WriteContext D) (Unit {0})
reset_stored ctx = ok (some tt, record ctx { stored = 0 })

-- const int total = (size - pos) / erase_size, an unsigned number that becomes an int.
abbrev pub total_blocks : MtdPartition → ℕ → ℤ
total_blocks partition p =
    let total = (partition.size + 2 ^ 32 - p) % 2 ^ 32 / partition.erase_size in
    if ltb total (2 ^ 31) then pos total else negsuc (2 ^ 32 - 1 - total)

abbrev pub erase_count : ℤ → ℤ → Option ℕ
erase_count (negsuc n) (negsuc total) = some 0
erase_count (negsuc n) (pos total) = some total
erase_count (pos blocks) (negsuc total) = none
erase_count (pos blocks) (pos total) = if ltb total blocks then none else some blocks

module _ {D : Type 0} (dev : Device D) where
  -- The body of the loop over `retry`: whether the block was written.
  unfoldable pub write_once : ℕ → Bytes → ℕ → D → Bool × D
  write_once size content p d =
      let (erased, d1) = dev.erase d p size in
      if erased
      then verified content (dev.read_at (dev.write_at d1 p content).1 p size)
      else (false, d1)

  unfoldable pub write_twice : ℕ → Bytes → ℕ → D → Bool × D
  unfolding write_once
  write_twice size content p d =
      let (wrote, d1) = write_once size content p d in
      if wrote then (true, d1) else write_once size content p d1

  -- The body of the loop over `pos`: whether the block was written, else it is left out.
  unfoldable pub write_or_skip : ℕ → Bytes → ℕ → D → Bool × D
  unfolding write_twice
  write_or_skip size content p d =
      let (wrote, d1) = write_twice size content p d in
      if not_writable (dev.get_bad_block d p)
      then (false, d)
      else if wrote
      then (true, d1)
      else (false, (dev.erase d1 p size).1)

  unfoldable pub write_from : Bytes → ℕ → ℕ → Prog (WriteContext D) (Unit {0})
  unfolding write_or_skip
  write_from content zero p ctx = fault Fault.no_fuel
  write_from content (suc fuel) p ctx =
      let (wrote, d) = write_or_skip ctx.partition.erase_size content p ctx.fd in
      let skipped = record (add_bad_block_offset ctx p) { fd = d } in
      let rest = write_from content fuel (p + ctx.partition.erase_size) skipped in
      let tried = if wrote then ok (some tt, record ctx { fd = d }) else rest in
      Run.◌>>=◌ (add_int p ctx.partition.erase_size)
        (λ next. if fits ctx.partition next then tried else ok (none, ctx))

  -- Every pass goes on by a block, of at least one byte.
  unfoldable pub write_block : Bytes → Prog (WriteContext D) (Unit {0})
  unfolding write_from
  write_block content ctx = elim (dev.position ctx.fd) [
    | none ↦ ok (none, ctx)
    | some p ↦ write_from content (suc ctx.partition.size) p ctx
  ]

  unfoldable pub flush_full : Prog (WriteContext D) (Unit {0})
  unfolding write_block
  flush_full ctx =
      if ctx.stored == ctx.partition.erase_size
      then (do write_block ctx.buffer; reset_stored) ctx
      else ok (some tt, ctx)

  -- The loop that writes complete blocks directly: the bytes that are left.
  unfoldable pub write_direct : ℕ → Bytes → Prog (WriteContext D) Bytes
  unfolding write_block
  write_direct zero bytes ctx = fault Fault.no_fuel
  write_direct (suc fuel) bytes ctx =
      let size = ctx.partition.erase_size in
      let wrote =
        (write_block (take size bytes) >>= λ _. write_direct fuel (drop size bytes)) ctx in
      if (ctx.stored == 0) && leb size (length bytes) then wrote else ok (some bytes, ctx)

  unfoldable pub write_data_from : ℕ → Bytes → Prog (WriteContext D) (Unit {0})
  unfolding coalesce flush_full write_direct
  write_data_from zero bytes ctx = fault Fault.no_fuel
  write_data_from (suc fuel) [] ctx = ok (some tt, ctx)
  write_data_from (suc fuel) (b ∷ bs) ctx =
      (coalesce (b ∷ bs) >>= λ bytes. flush_full >>= λ _.
      write_direct (suc (length bytes)) bytes >>= λ left. write_data_from fuel left)
        ctx

  -- Every pass takes at least one byte.
  unfoldable pub mtd_write_data : Bytes → Prog (WriteContext D) ℕ
  unfolding write_data_from
  mtd_write_data bytes = do write_data_from (suc (length bytes)) bytes; return (length bytes)

  -- memset(ctx->buffer + ctx->stored, 0, zero), and the write of the block.
  unfoldable pub flush_padded : Prog (WriteContext D) (Unit {0})
  unfolding write_block
  flush_padded ctx =
      let padding = replicate (ctx.partition.erase_size - ctx.stored) 0 in
      let padded = record ctx { buffer = take ctx.stored ctx.buffer ++ padding } in
      if ltb 0 ctx.stored
      then (do write_block padded.buffer; reset_stored) padded
      else ok (some tt, ctx)

  -- The loop over the blocks to erase: the position behind them.
  unfoldable pub erase_from : ℕ → ℕ → ℕ → D → ℕ × D
  erase_from size zero p d = (p, d)
  erase_from size (suc blocks) p d =
      let erased = (dev.erase d p size).1 in
      erase_from size blocks (p + size) (skip_bad (dev.get_bad_block d p) d erased)
    where
      skip_bad : BadBlock → D → D → D
      skip_bad bad d erased = d
      skip_bad _ d erased = erased

  unfoldable pub erase_blocks_at : ℤ → Option ℕ → Prog (WriteContext D) ℕ
  unfolding erase_from
  erase_blocks_at blocks none ctx = ok (none, ctx)
  erase_blocks_at blocks (some p) ctx = elim (erase_count blocks (total_blocks ctx.partition p)) [
    | none ↦ ok (none, ctx)
    | some n ↦
        let (last, d) = erase_from ctx.partition.erase_size n p ctx.fd in
        ok (some last, record ctx { fd = d })
  ]

  unfoldable pub mtd_erase_blocks : ℤ → Prog (WriteContext D) ℕ
  unfolding flush_padded erase_blocks_at
  mtd_erase_blocks blocks =
      flush_padded >>= λ _ ctx. erase_blocks_at blocks (dev.position ctx.fd) ctx

  -- `closed` says whether close() succeeds. The result is whether the function returns 0, and the
  -- device that is left.
  unfoldable pub mtd_write_close : Bool → WriteContext D → Run (Bool × D)
  unfolding mtd_erase_blocks
  mtd_write_close closed ctx =
      Run.◌>>=◌ (mtd_erase_blocks (pos 0) ctx)
        λ (r, left). elim r [ none ↦ ok (false, left.fd) | some p ↦ ok (closed, left.fd) ]

-- mtd_find_write_start: the loop over the bad blocks.
unfoldable pub skip_bad_blocks : ℕ → List ℕ → ℕ → ℕ
skip_bad_blocks size [] p = p
skip_bad_blocks size (offset ∷ offsets) p =
    let next = skip_bad_blocks size offsets (p + size) in
    let same = skip_bad_blocks size offsets p in
    if offset == p then next else if ltb p offset then p else same

unfoldable pub mtd_find_write_start : {D : Type 0} → WriteContext D → ℕ → ℕ
unfolding skip_bad_blocks
mtd_find_write_start ctx p = skip_bad_blocks ctx.partition.erase_size ctx.bad_block_offsets p

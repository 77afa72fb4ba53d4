-- ===== src/Mtd/Tests.antt =====
-- Tests of the model of mtdutils/mtdutils.c on a device of blocks of four bytes, whose block at 4 is
-- bad, and the theorems at that device.
use midnight_i9000_recovery.Common.{
  ℕ, ◌+◌, ◌≤◌, ◌≡◌, refl, true, List, [], ◌∷◌, ◌++◌, length, take, replicate, Option, none, some,
  if◌then◌else◌, ◌==◌, arith, ap, sym, ◌∙◌,
}
use midnight_i9000_recovery.Common.Run.{Run, ok, fault, Returns}
use midnight_i9000_recovery.Common.Text.{Bytes, codes}
use midnight_i9000_recovery.Mtd.Device.{Device, IsFlash, good, bad}
use midnight_i9000_recovery.Mtd.Write.{
  WriteContext, mtd_write_data, mtd_write_close, mtd_find_write_start, write_block, write_from,
  write_or_skip, write_twice, write_once, coalesce, flush_full, write_direct, write_data_from,
  skip_bad_blocks, MtdPartition,
}
use midnight_i9000_recovery.Mtd.Write.Block.{Wrote, write_block-Wrote}
use midnight_i9000_recovery.Mtd.Read.{
  ReadDevice, ReadContext, read_block, mtd_read_data, read_data_from, from_buffer, whole_blocks,
  refill, next_block, read_from, read_once,
}
use midnight_i9000_recovery.Mtd.Read.Block.{IsReadable, Found, read_block-Found}
use midnight_i9000_recovery.Mtd.Read.Stream.{Delivered}
use midnight_i9000_recovery.Mtd.Read.Data.{mtd_read_data-Delivered}
use midnight_i9000_recovery.Mtd.Write.Stream.{At}
use midnight_i9000_recovery.Mtd.Write.Data.{Streamed, mtd_write_data-Streamed}
use midnight_i9000_recovery.Mtd.Write.Close.{ClosedStream, mtd_write_close-ClosedStream}
use midnight_i9000_recovery.Mtd.Write.Start.{FirstGood, mtd_find_write_start-FirstGood}

-- A device in memory: the blocks that have been written or erased, the last first.
record Memory : Type 0 where
  at : ℕ
  blocks : List (ℕ × Bytes)

stored_block : List (ℕ × Bytes) → ℕ → Bytes
stored_block [] q = replicate 4 255
stored_block ((p, content) ∷ blocks) q =
    let earlier = stored_block blocks q in if p == q then content else earlier

-- All of the bytes asked for, or an error.
exact : ℕ → Bytes → Option Bytes
exact size b = if length b == size then some b else none

exact-some : (size : ℕ) (b c : Bytes) → exact size b ≡ some c → (b ≡ c) × (length c ≡ size)
unfolding exact
exact-some size b c h = ground arith

abbrev test_device : Device Memory
unfolding stored_block exact
test_device = record {
  position = λ d. some d.at;
  get_bad_block = λ d p. if p == 4 then bad else good;
  erase = λ d p size. (true, record d { blocks = (p, replicate size 255) ∷ d.blocks });
  write_at =
      λ d p content. (true, record { at = p + length content; blocks = (p, content) ∷ d.blocks });
  read_at = λ d p size. (exact size (stored_block d.blocks p), record d { at = p + size });
}

other_block :
    (p q : ℕ) (content : Bytes) (blocks : List (ℕ × Bytes))
    → q + 4 ≤ p
    → stored_block ((p, content) ∷ blocks) q ≡ stored_block blocks q
unfolding stored_block
other_block p q content blocks h = ground arith

abbrev test_device-IsFlash : IsFlash test_device 4
unfolding stored_block test_device
test_device-IsFlash = record {
  block = λ d p. stored_block d.blocks p;
  read-position = λ d d' p b e. ap (λ r. some (Memory.at (r.1))) (sym e);
  read-block = λ d d' p b e. read_it d d' p b e;
  read-keeps = λ d p q. refl;
  erase-keeps = λ d p q h. other_block p q (replicate 4 255) d.blocks h;
  write-keeps = λ d p q b n h. other_block p q b d.blocks h;
}
  where
    read_it :
        (d d' : Memory) (p : ℕ) (b : Bytes)
        → test_device.read_at d p 4 ≡ (some b, d')
        → stored_block d'.blocks p ≡ b
    read_it d d' p b e =
        ap (λ r. stored_block (Memory.blocks (r.1)) p) (sym e)
        ∙ (exact-some 4 (stored_block d.blocks p) b (ap (λ r. r.0) e)).0

abbrev empty_memory : Memory
empty_memory = record { at = 0; blocks = [] }

abbrev fresh : WriteContext Memory
fresh = record {
  partition = record { size = 16; erase_size = 4 };
  buffer = replicate 4 0;
  stored = 0;
  fd = empty_memory;
  bad_block_offsets = [];
  bad_block_alloc = 0;
}

fresh-At : At test_device 4 test_device-IsFlash 0 fresh [] []
unfolding test_device
fresh-At = ((refl, omega arith, omega arith), refl, omega arith, refl, omega arith, [], tt, refl)

mtd_write_data-Streamed_example :
    Returns
      (mtd_write_data test_device (codes "hello!") fresh)
      (Streamed test_device 4 test_device-IsFlash 0 empty_memory (codes "hello!") 6)
mtd_write_data-Streamed_example =
    mtd_write_data-Streamed test_device 4 test_device-IsFlash 0 fresh [] (codes "hello!") fresh-At
      (omega arith)

-- A context with two bytes in the buffer.
abbrev two_bytes : WriteContext Memory
two_bytes = record fresh { buffer = 104 ∷ 105 ∷ 0 ∷ 0 ∷ []; stored = 2 }

two_bytes-At : At test_device 4 test_device-IsFlash 0 two_bytes [] (codes "hi")
unfolding test_device
two_bytes-At =
    ((refl, omega arith, omega arith), refl, omega arith, refl, omega arith, [], tt, refl)

mtd_write_close-ClosedStream_example :
    Returns
      (mtd_write_close test_device true two_bytes)
      (ClosedStream test_device 4 test_device-IsFlash 0 empty_memory (codes "hi" ++ 0 ∷ 0 ∷ []))
mtd_write_close-ClosedStream_example =
    mtd_write_close-ClosedStream test_device 4 test_device-IsFlash true 0 two_bytes (codes "hi")
      two_bytes-At (omega arith)

write_block-Wrote_example :
    Returns
      (write_block test_device (codes "text") fresh)
      (Wrote test_device 4 test_device-IsFlash (codes "text") 0 fresh)
unfolding test_device
write_block-Wrote_example =
    write_block-Wrote test_device 4 test_device-IsFlash (codes "text") refl 0 fresh
      (refl, omega arith, omega arith) refl (omega arith)

abbrev with_bad : WriteContext Memory
with_bad = record fresh { bad_block_offsets = 4 ∷ 8 ∷ [] }

mtd_find_write_start-FirstGood_example :
    FirstGood 4 (4 ∷ 8 ∷ []) 4 (mtd_find_write_start with_bad 4)
mtd_find_write_start-FirstGood_example =
    mtd_find_write_start-FirstGood with_bad 4 (omega arith) (omega arith, tt)

find_start : mtd_find_write_start with_bad 4 ≡ 12
unfolding mtd_find_write_start skip_bad_blocks
find_start = refl

-- What a run leaves in the memory and in the list of bad blocks.
abbrev left_by : Run (Option ℕ × WriteContext Memory) → List ℕ × Bytes
left_by (ok (r, ctx)) = (ctx.bad_block_offsets, take ctx.stored ctx.buffer)
left_by (fault e) = ([], [])

-- The second block goes behind the bad one.
write_ten : left_by (mtd_write_data test_device (codes "hello worl") fresh) ≡ (4 ∷ [], codes "rl")
unfolding mtd_write_data write_data_from coalesce flush_full write_direct write_block write_from
    write_or_skip write_twice write_once stored_block test_device
write_ten = refl

some-injective : {a b : ℕ} → some a ≡ some b → a ≡ b
some-injective e = cc

abbrev read_device : ReadDevice Memory
read_device = record { device = test_device; offset = λ d. d.at; ecc_failed = λ d. some 0 }

abbrev read_device-IsReadable : IsReadable read_device
unfolding test_device
read_device-IsReadable = record {
  read-length = λ d d' p n b e. (exact-some n (stored_block d.blocks p) b (ap (λ r. r.0) e)).1;
  offset-position = λ d p e. some-injective e;
}

-- Three blocks, the middle one bad.
abbrev three_blocks : Memory
three_blocks = record {
  at = 0;
  blocks = (0, codes "abcd") ∷ (4, codes "????") ∷ (8, codes "efgh") ∷ [];
}

abbrev sixteen_bytes : MtdPartition
sixteen_bytes = record { size = 16; erase_size = 4 }

abbrev opened : ReadContext Memory
opened = record {
  partition = sixteen_bytes;
  buffer = replicate 4 0;
  consumed = 4;
  fd = three_blocks;
}

read_block-Found_example :
    Returns
      (read_block read_device sixteen_bytes three_blocks)
      (Found read_device read_device-IsReadable sixteen_bytes test_device-IsFlash 0 three_blocks)
unfolding test_device
read_block-Found_example =
    read_block-Found read_device read_device-IsReadable sixteen_bytes test_device-IsFlash
      three_blocks (omega arith)

mtd_read_data-Delivered_example : Returns (mtd_read_data read_device 6 opened) (
    Delivered read_device read_device-IsReadable sixteen_bytes test_device-IsFlash
      (omega arith)
      opened
      (λ out. out)
      (λ out ctx'. length out ≡ 6))
unfolding test_device
mtd_read_data-Delivered_example =
    mtd_read_data-Delivered read_device read_device-IsReadable sixteen_bytes test_device-IsFlash
      (omega arith) 6 opened (refl, refl, omega arith) (omega arith)

abbrev bytes_of : Run (Option Bytes × ReadContext Memory) → Bytes
bytes_of (ok (some b, ctx)) = b
bytes_of (ok (none, ctx)) = []
bytes_of (fault e) = []

-- The bad block is passed over.
read_six : bytes_of (mtd_read_data read_device 6 opened) ≡ codes "abcdef"
unfolding mtd_read_data read_data_from from_buffer whole_blocks refill next_block read_block
    read_from read_once stored_block exact test_device
read_six = refl

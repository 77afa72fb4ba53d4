-- ===== src/Bootloader/Flash/Tests.antt =====
-- The flash variant of bootloader.c on a device with one block of 2048 bytes.
use midnight_i9000_recovery.Common.{
  ℕ, ◌+◌, ◌≤◌, ◌≡◌, refl, true, List, [], ◌∷◌, length, replicate, Option, none, some, if◌then◌else◌,
  ◌==◌, arith, ap, sym, ◌∙◌, length-replicate,
}
use midnight_i9000_recovery.Common.Run.{Run, ok, fault}
use midnight_i9000_recovery.Common.Text.{Bytes, codes}
use midnight_i9000_recovery.Mtd.Device.{Device, IsFlash, good}
use midnight_i9000_recovery.Mtd.Write.{
  MtdPartition, mtd_write_data, write_data_from, coalesce, flush_full, write_direct, write_block,
  write_from, write_or_skip, write_twice, write_once, mtd_write_close, mtd_erase_blocks,
  flush_padded, erase_blocks_at, erase_from,
}
use midnight_i9000_recovery.Mtd.Read.{
  mtd_read_data, read_data_from, from_buffer, whole_blocks, refill, next_block, read_block,
  read_from, read_once,
}
use midnight_i9000_recovery.Bootloader.{Message}
use midnight_i9000_recovery.Bootloader.Flash.{
  MiscDevice, set_bootloader_message_mtd, read_pages, write_pages,
}
use midnight_i9000_recovery.Bootloader.Flash.Pages.{Replaced, set_bootloader_message_mtd-Replaced}

-- A device in memory: the blocks that have been written or erased, the last first.
record Memory : Type 0 where
  at : ℕ
  blocks : List (ℕ × Bytes)

stored_block : List (ℕ × Bytes) → ℕ → Bytes
stored_block [] q = replicate 2048 255
stored_block ((p, content) ∷ blocks) q =
    let earlier = stored_block blocks q in if p == q then content else earlier

-- All of the bytes asked for, or an error.
exact : ℕ → Bytes → Option Bytes
exact size b = if length b == size then some b else none

exact-some : (size : ℕ) (b c : Bytes) → exact size b ≡ some c → (b ≡ c) × (length c ≡ size)
unfolding exact
exact-some size b c h = ground arith

abbrev one_block : Device Memory
unfolding stored_block exact
one_block = record {
  position = λ d. some d.at;
  get_bad_block = λ d p. good;
  erase = λ d p size. (true, record d { blocks = (p, replicate size 255) ∷ d.blocks });
  write_at =
      λ d p content. (true, record { at = p + length content; blocks = (p, content) ∷ d.blocks });
  read_at = λ d p size. (exact size (stored_block d.blocks p), record d { at = p + size });
}

other_block :
    (p q : ℕ) (content : Bytes) (blocks : List (ℕ × Bytes))
    → q + 2048 ≤ p
    → stored_block ((p, content) ∷ blocks) q ≡ stored_block blocks q
unfolding stored_block
other_block p q content blocks h = ground arith

abbrev one_block-IsFlash : IsFlash one_block 2048
unfolding stored_block one_block
one_block-IsFlash = record {
  block = λ d p. stored_block d.blocks p;
  read-position = λ d d' p b e. ap (λ r. some (Memory.at (r.1))) (sym e);
  read-block = λ d d' p b e. read_it d d' p b e;
  read-keeps = λ d p q. refl;
  erase-keeps = λ d p q h. other_block p q (replicate 2048 255) d.blocks h;
  write-keeps = λ d p q b n h. other_block p q b d.blocks h;
}
  where
    read_it :
        (d d' : Memory) (p : ℕ) (b : Bytes)
        → one_block.read_at d p 2048 ≡ (some b, d')
        → stored_block d'.blocks p ≡ b
    read_it d d' p b e =
        ap (λ r. stored_block (Memory.blocks (r.1)) p) (sym e)
        ∙ (exact-some 2048 (stored_block d.blocks p) b (ap (λ r. r.0) e)).0

abbrev one_block_partition : MtdPartition
one_block_partition = record { size = 2048; erase_size = 2048 }

abbrev nul : ℕ
nul = 0

abbrev misc : MiscDevice Memory
misc = record {
  read_device = record { device = one_block; offset = λ d. d.at; ecc_failed = λ d. some 0 };
  find_partition = λ name d. some (one_block_partition, 640);
  malloc = λ n. some (replicate n nul);
  open_device = λ d. some (record d { at = 0 });
  closes = true;
}

abbrev erased : Memory
erased = record { at = 0; blocks = [] }

abbrev boot : Message
boot = record {
  command = codes "boot-recovery";
  status = replicate 51 nul;
  recovery = replicate 1024 nul;
}

abbrev state_of : Run (Option (Unit {0}) × Memory) → Memory
state_of (ok (r, d)) = d
state_of (fault e) = erased

abbrev set_boot : Run (Option (Unit {0}) × Memory)
set_boot = set_bootloader_message_mtd misc boot none erased

same_value : {A : Type 0} {a b : A} → some a ≡ some b → a ≡ b
same_value e = cc

at_start :
    (d f : Memory) → misc.open_device d ≡ some f → misc.read_device.device.position f ≡ some 0
unfolding one_block
at_start d f e = ap (λ m. some (Memory.at m)) (sym (same_value e))

allocated : (n : ℕ) (b : Bytes) → misc.malloc n ≡ some b → length b ≡ n
allocated n b e = ap length (sym (same_value e)) ∙ length-replicate n nul

it_is_set : set_boot ≡ ok (some tt, state_of set_boot)
unfolding set_bootloader_message_mtd read_pages write_pages mtd_read_data read_data_from from_buffer
    whole_blocks refill next_block read_block read_from read_once mtd_write_data write_data_from
    coalesce flush_full write_direct write_block write_from write_or_skip write_twice write_once
    mtd_write_close mtd_erase_blocks flush_padded erase_blocks_at erase_from stored_block exact
    one_block
it_is_set = refl

set_bootloader_message_mtd-Replaced_example :
    Replaced misc one_block_partition one_block-IsFlash
      (omega arith)
      (omega arith)
      (λ d f e. at_start d f e)
      (λ n b e. allocated n b e)
      boot
      640
      erased
      (state_of set_boot)
set_bootloader_message_mtd-Replaced_example =
    set_bootloader_message_mtd-Replaced misc one_block_partition one_block-IsFlash (omega arith)
      (omega arith) (λ d f e. at_start d f e) (λ n b e. allocated n b e) boot none 640 erased
      (state_of set_boot) refl it_is_set

-- ===== src/Mtd/Partitions/Tests.antt =====
-- Tests of the model of mtd_scan_partitions of mtdutils/mtdutils.c, and the theorems at a file with
-- one partition.
use midnight_i9000_recovery.Common.{
  ℕ, ◌≡◌, refl, true, [], ◌∷◌, ◌++◌, set, map, replicate, Option, none, some, arith, if◌then◌else◌,
}
use midnight_i9000_recovery.Common.Int.{pos}
use midnight_i9000_recovery.Common.Run.{ok, Returns}
use midnight_i9000_recovery.Common.Text.{Bytes, codes, has_prefix}
use midnight_i9000_recovery.Mtd.Partitions.{
  Entry, Line, MtdState, nump, cleared, reset, entry_of, mtd_scan_partitions,
  mtd_find_partition_by_name,
}
use midnight_i9000_recovery.Mtd.Partitions.Scan.{
  Numbered, IsState, StateTable, Occurs, text_read, mtd_scan_partitions-StateTable,
}
use midnight_i9000_recovery.Mtd.Partitions.Find.{mtd_find_partition_by_name-Line}

abbrev misc_line : Line
misc_line = record {
  mtdnum = pos 3;
  mtdsize = 524288;
  mtderasesize = 131072;
  mtdname = codes "misc";
}

-- It knows one line.
one_line : Bytes → Option Line
one_line text = if has_prefix (codes "mtd3: ") text then some misc_line else none

abbrev copy : ℕ → Bytes → Option Bytes
copy count b = some b

abbrev proc_mtd : Bytes
proc_mtd = codes "dev: size" ++ 10 ∷ codes "mtd3: 00080000 00020000 misc" ++ 10 ∷ []

abbrev unread : MtdState
unread = record { partitions = none; partition_count = none }

abbrev misc_entry : Entry
misc_entry = entry_of one_line copy 0 misc_line 3

abbrev read_state : MtdState
read_state = record {
  partitions = some (set (map reset (replicate nump cleared)) 3 misc_entry);
  partition_count = some 1;
}

one_line-Numbered : Numbered one_line copy nump
unfolding one_line
one_line-Numbered text line e = (3, ground arith, omega arith)

unread-IsState : IsState one_line copy unread
unread-IsState es e = absurd (cc)

read_it : mtd_scan_partitions one_line copy true (some proc_mtd) unread ≡ ok (some 1, read_state)
unfolding mtd_scan_partitions one_line
read_it = refl

same_text : (b c : Bytes) → some b ≡ some c → c ≡ b
same_text b c e = cc

find_it : mtd_find_partition_by_name read_state (codes "misc") ≡ some misc_entry
unfolding mtd_find_partition_by_name
find_it = refl

mtd_scan_partitions-StateTable_example :
    Returns
      (mtd_scan_partitions one_line copy true (some proc_mtd) unread)
      (StateTable one_line copy (some proc_mtd))
mtd_scan_partitions-StateTable_example =
    mtd_scan_partitions-StateTable one_line copy true (some proc_mtd) unread one_line-Numbered
      unread-IsState

mtd_find_partition_by_name-Line_example :
    (line : Line) × (n : ℕ) × Occurs one_line copy (text_read (some proc_mtd)) line
    × (line.mtdname ≡ codes "misc")
    × (line.mtdnum ≡ pos n)
    × (misc_entry.device_index ≡ some n)
    × (misc_entry.partition ≡ record { size = line.mtdsize; erase_size = line.mtderasesize })
mtd_find_partition_by_name-Line_example =
    mtd_find_partition_by_name-Line one_line copy true (some proc_mtd) unread (some 1, read_state)
      (codes "misc") misc_entry one_line-Numbered (λ count b c e. same_text b c e) unread-IsState
      read_it find_it

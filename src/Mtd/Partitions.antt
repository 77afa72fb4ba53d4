-- ===== src/Mtd/Partitions.antt =====
-- mtd_scan_partitions and mtd_find_partition_by_name of mtdutils/mtdutils.c. The file /proc/mtd is a
-- text; sscanf(), the allocation of the table and strdup() are parameters.
pub mod Scan
pub mod Find
mod Tests
use midnight_i9000_recovery.Common.{
  ℕ, zero, suc, ◌+◌, ◌==◌, ltb, Bool, true, false, List, [], ◌∷◌, length, take, set, get_or,
  replicate, map, Option, none, some, if◌then◌else◌,
}
use midnight_i9000_recovery.Common.Int.{ℤ, pos, negsuc}
use midnight_i9000_recovery.Common.Run.{Run, ok, fault, Fault, ◌>>=◌}
use midnight_i9000_recovery.Common.Text.{Bytes, bytes_eq}
use midnight_i9000_recovery.Common.CString.{c_string}
use midnight_i9000_recovery.Mtd.Write.{MtdPartition}

-- An element of the table; `device_index` is `none` for -1. MtdPartition stands for its other fields.
pub record Entry : Type 0 where
  pub device_index : Option ℕ
  pub name : Option Bytes
  pub partition : MtdPartition

-- What sscanf() finds on a line if it finds all four.
pub record Line : Type 0 where
  pub mtdnum : ℤ
  pub mtdsize : ℕ
  pub mtderasesize : ℕ
  pub mtdname : Bytes

abbrev pub nump : ℕ
nump = 32

-- The table after memset().
abbrev pub cleared : Entry
cleared = record {
  device_index = none;
  name = none;
  partition = record { size = 0; erase_size = 0 };
}

abbrev pub reset : Entry → Entry
reset e = record e { device_index = none; name = none }

-- g_mtd_state, whose `partitions` is NULL at first; `partition_count` is `none` for -1.
pub record MtdState : Type 0 where
  pub partitions : Option (List Entry)
  pub partition_count : Option ℕ

-- Eat the line.
unfoldable pub after_line : Bytes → Bytes
after_line [] = []
after_line (c ∷ cs) = let rest = after_line cs in if c == 10 then cs else rest

module _ (sscanf : Bytes → Option Line) (strdup : ℕ → Bytes → Option Bytes) where
  -- The partition of a line; its name is NULL if there is no memory for it.
  abbrev pub entry_of : ℕ → Line → ℕ → Entry
  entry_of count line n = record {
    device_index = some n;
    name = strdup count line.mtdname;
    partition = record { size = line.mtdsize; erase_size = line.mtderasesize };
  }

  -- The number of a line is not compared with the size of the table.
  abbrev pub put_line : List Entry → ℕ → Line → ℤ → Run (List Entry)
  put_line es count line (negsuc n) = fault Fault.out_of_bounds
  put_line es count line (pos n) =
      if ltb n (length es) then ok (set es n (entry_of count line n)) else fault Fault.out_of_bounds

  abbrev pub is_null_name : ℕ → Line → Bool
  is_null_name count line = elim (strdup count line.mtdname) [ none ↦ true | some name ↦ false ]

  -- What sscanf() has found, and then the lines behind.
  abbrev pub read_line :
      (ℕ → List Entry → Run (Option ℕ × List Entry))
      → ℕ
      → List Entry
      → Option Line
      → Run (Option ℕ × List Entry)
  read_line later count es none = later count es
  read_line later count es (some line) = do
    es' ← put_line es count line line.mtdnum
    if is_null_name count line then ok (none, es') else later (count + 1) es'

  -- The loop over the text: the count of the lines, `none` for the error, and the table.
  unfoldable pub scan_from : ℕ → ℕ → Bytes → List Entry → Run (Option ℕ × List Entry)
  unfolding after_line
  scan_from zero count text es = fault Fault.no_fuel
  scan_from (suc fuel) count [] es = ok (some count, es)
  scan_from (suc fuel) count (c ∷ cs) es =
      read_line (λ count' es'. scan_from fuel count' (after_line (c ∷ cs)) es') count es
        (sscanf (c_string (c ∷ cs)))

  abbrev pub scanned : Option ℕ × List Entry → Option ℕ × MtdState
  scanned (count, es) = (count, record { partitions = some es; partition_count = count })

  -- `content` is the file /proc/mtd, `none` if it cannot be opened or read.
  abbrev pub scan_table : Option Bytes → List Entry → Run (Option ℕ × MtdState)
  scan_table none es = ok (scanned (none, es))
  scan_table (some content) es = do
    let text = take 2047 content
    r ← scan_from (suc (length text)) 0 text es
    ok (scanned r)

  -- `allocated` tells whether malloc() succeeds.
  abbrev pub scan_into :
      Bool → Option Bytes → MtdState → Option (List Entry) → Run (Option ℕ × MtdState)
  scan_into allocated content state (some es) = scan_table content (map reset es)
  scan_into true content state none = scan_table content (map reset (replicate nump cleared))
  scan_into false content state none = ok (none, state)

  unfoldable pub mtd_scan_partitions : Bool → Option Bytes → MtdState → Run (Option ℕ × MtdState)
  unfolding scan_from
  mtd_scan_partitions allocated content state = scan_into allocated content state state.partitions

abbrev pub has_name : Bytes → Entry → Bool
has_name wanted e = elim (e.device_index) [
  | none ↦ false
  | some n ↦ elim (e.name) [ none ↦ false | some name ↦ bytes_eq name wanted ]
]

unfoldable pub find_name : List Entry → Bytes → Option Entry
find_name [] wanted = none
find_name (e ∷ es) wanted =
    let rest = find_name es wanted in if has_name wanted e then some e else rest

unfoldable pub mtd_find_partition_by_name : MtdState → Bytes → Option Entry
unfolding find_name
mtd_find_partition_by_name state wanted = elim (state.partitions) [
  | none ↦ none
  | some es ↦ find_name es wanted
]

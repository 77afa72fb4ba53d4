-- ===== src/Minzip/Hash.antt =====
-- minzip/Hash.c and Hash.h: an expandable hash table with linear probing and tombstones.
-- A pointer is a number, NULL is 0. A function that updates `*pHashTable` returns the new table.
-- A loop over `pEntries` up to `tableSize` goes over the list of entries (`IsValid` says that the
-- two lengths agree). The outcome of each allocation is an argument.
mod Probe
pub mod Lookup
pub mod Size
pub mod Create
pub mod Iterate
mod Tests
pub mod Change
mod Resize
pub mod Valid
mod Counting
use midnight_i9000_recovery.Common.Run.{
  Fault, Run, ok, fault, aborted, out_of_bounds, no_fuel, ◌>>=◌, ◌>>◌, assert, mul_int,
}
use midnight_i9000_recovery.Common.{
  ℕ, zero, suc, ◌+◌, ◌-◌, ◌*◌, ◌/◌, ◌%◌, ◌^◌, bit_and, bit_or, Bool, true, false, not, ◌&&◌, Option,
  none, some, List, [], ◌∷◌, length, get_or, set, replicate, drop, ltb, leb, ◌==◌, if◌then◌else◌,
}

abbrev pub null : ℕ
null = 0

abbrev pub hash_tombstone : ℕ
hash_tombstone = 0xcbcacccd

-- The test `data != NULL && data != HASH_TOMBSTONE`.
abbrev pub is_live : ℕ → Bool
is_live d = not (d == null) && not (d == hash_tombstone)

-- `item` is the field `data` of the source.
pub record HashEntry : Type 0 where
  pub hash_value : ℕ
  pub item : ℕ

-- What `calloc` leaves in a slot.
abbrev pub blank : HashEntry
blank = record { hash_value = 0; item = null }

pub record HashTable : Type 0 where
  pub table_size : ℕ
  pub num_entries : ℕ
  pub num_dead_entries : ℕ
  pub entries : List HashEntry
  pub has_free_func : Bool

-- `size_t` has 32 bits on the device.
pub mz_hash_size : ℕ → ℕ
mz_hash_size size = (size * 8 % 2 ^ 32 / 5 + 1) % 2 ^ 32

-- val |= val >> m
smear : ℕ → ℕ → ℕ
smear m v = bit_or v (v / 2 ^ m)

pub round_up_power2 : ℕ → ℕ
round_up_power2 val =
    let lowered = (val + 2 ^ 32 - 1) % 2 ^ 32 in
    (smear 16 (smear 8 (smear 4 (smear 2 (smear 1 lowered)))) + 1) % 2 ^ 32

-- `none` is the NULL returned when either allocation fails.
pub mz_hash_table_create : ℕ → Bool → Bool → Bool → Run (Option HashTable)
mz_hash_table_create initial_size has_free_func got_table got_entries = do
  assert (ltb 0 initial_size)
  let fresh : HashTable = record {
    table_size = round_up_power2 initial_size;
    num_entries = 0;
    num_dead_entries = 0;
    entries = replicate (round_up_power2 initial_size) blank;
    has_free_func = has_free_func;
  }
  ok (if got_table && got_entries then some fresh else none)

-- The loop of `mzHashTableClear`, with the pointers given to `freeFunc`, in order.
pub clear_entries : Bool → List HashEntry → List HashEntry × List ℕ
clear_entries frees [] = ([], [])
clear_entries frees (e ∷ es) =
    let (rest, freed) = clear_entries frees es in
    (record e { item = null } ∷ rest, if is_live e.item && frees then e.item ∷ freed else freed)

pub mz_hash_table_clear : HashTable → HashTable × List ℕ
unfolding clear_entries
mz_hash_table_clear t =
    let (es, freed) = clear_entries t.has_free_func t.entries in
    (record t { entries = es; num_entries = 0; num_dead_entries = 0 }, freed)

pub count_tombstones : List HashEntry → ℕ
count_tombstones [] = 0
count_tombstones (e ∷ es) = (if e.item == hash_tombstone then 1 else 0) + count_tombstones es

-- *pEntry
pub entry_at : List HashEntry → ℕ → Run HashEntry
entry_at es i = if ltb i (length es) then ok (get_or es i blank) else fault out_of_bounds

-- while (pNewEntries[newIdx].data != NULL) newIdx = (newIdx + 1) & (newSize-1);
pub probe_free : List HashEntry → ℕ → ℕ → ℕ → Run ℕ
unfolding entry_at
probe_free es n zero i = fault no_fuel
probe_free es n (suc fuel) i =
    let rest = probe_free es n fuel (bit_and (i + 1) (n - 1)) in
    (entry_at es i >>= λ e. if e.item == null then ok i else rest)

-- The loop of `resizeHash` over the old entries.
pub reinsert : ℕ → List HashEntry → List HashEntry → Run (List HashEntry)
unfolding probe_free
reinsert n [] fresh = ok fresh
reinsert n (e ∷ es) fresh =
    let skipped = reinsert n es fresh in
    let moved =
      (probe_free fresh n n (bit_and e.hash_value (n - 1)) >>= λ i.
      reinsert n es (set fresh i e)) in
    if is_live e.item then moved else skipped

-- The part of `resizeHash` after the allocation.
rebuild : HashTable → ℕ → Run (Option HashTable)
unfolding count_tombstones reinsert
rebuild t new_size = do
  es ← reinsert new_size t.entries (replicate new_size blank)
  assert (count_tombstones es == 0)
  ok (some (record t { entries = es; table_size = new_size; num_dead_entries = 0 }))

-- `none` is the result false; `got_memory` says whether `calloc` succeeds.
pub resize_hash : HashTable → ℕ → Bool → Run (Option HashTable)
unfolding rebuild
resize_hash t new_size got_memory = do
  assert (count_tombstones t.entries == t.num_dead_entries)
  (if got_memory then rebuild t new_size else ok none)

-- How a probing loop ends: at an entry that the caller looks for, or at an empty slot, at an index
-- and after a number of steps, or by the break for a table of one entry, which leaves `pEntry`
-- at `pEnd`.
pub data Stop : Type 0 where
  hit hole : ℕ → ℕ → Stop
  single : Stop

-- pEntry++, going round at pEnd
abbrev pub next_index : ℕ → ℕ → ℕ
next_index n i = if i + 1 == n then 0 else i + 1

-- The probing loop of `mzHashTableLookup`, `mzHashTableRemove` and `countProbes`. They differ in the
-- test that ends it. A loop that has passed `tableSize` entries has passed all and never ends.
pub probe : List HashEntry → ℕ → (HashEntry → Bool) → ℕ → ℕ → ℕ → Run Stop
unfolding entry_at
probe es n wanted zero i count = fault no_fuel
probe es n wanted (suc fuel) i count =
    let rest = probe es n wanted fuel (next_index n i) (count + 1) in
    let next = if (i + 1 == n) && (n == 1) then ok single else rest in
    (entry_at es i >>= λ e.
    if e.item == null then ok (hole i count) else if wanted e then ok (hit i count) else next)

-- &pEntries[itemHash & (tableSize-1)]
abbrev pub home : HashTable → ℕ → ℕ
home t item_hash = bit_and item_hash (t.table_size - 1)

-- The test of the loop of `mzHashTableLookup`; `same a b` is `(*cmpFunc)(a, b) == 0`.
abbrev pub is_match : (ℕ → ℕ → Bool) → ℕ → ℕ → HashEntry → Bool
is_match same item_hash item e =
    not (e.item == hash_tombstone) && (e.hash_value == item_hash) && same e.item item

pub required : Option HashTable → Run HashTable
required none = fault aborted
required (some t) = ok t

-- resizeHash(pHashTable, pHashTable->tableSize * 2), with the abort() of its failure.
pub grow : HashTable → Bool → Run HashTable
unfolding required
grow t got_memory = do
  new_size ← mul_int t.table_size 2
  resized ← resize_hash t new_size got_memory
  required resized

-- The part of `mzHashTableLookup` that adds an entry at index `i`.
pub add_entry : HashTable → ℕ → ℕ → ℕ → Bool → Run (ℕ × HashTable)
unfolding grow
add_entry t i item_hash item got_memory = do
  let added = record t {
    entries = set t.entries i (record { hash_value = item_hash; item = item });
    num_entries = t.num_entries + 1;
  }
  used ← mul_int (added.num_entries + added.num_dead_entries) 8
  limit ← mul_int added.table_size 5
  grown ← (if ltb limit used then grow added got_memory else ok added)
  assert (ltb grown.num_entries grown.table_size)
  ok (item, grown)

-- What `mzHashTableLookup` does once the loop has ended: it reads `pEntry->data`.
pub after_lookup : HashTable → ℕ → ℕ → Bool → Bool → Stop → Run (ℕ × HashTable)
unfolding add_entry
after_lookup t item_hash item do_add got_memory (hit i count) =
    ok ((get_or t.entries i blank).item, t)
after_lookup t item_hash item do_add got_memory (hole i count) =
    if do_add then add_entry t i item_hash item got_memory else ok (null, t)
after_lookup t item_hash item do_add got_memory single = fault out_of_bounds

pub mz_hash_table_lookup : HashTable → ℕ → ℕ → (ℕ → ℕ → Bool) → Bool → Bool → Run (ℕ × HashTable)
unfolding probe after_lookup
mz_hash_table_lookup t item_hash item same do_add got_memory = do
  assert (ltb 0 t.table_size)
  assert (not (item == hash_tombstone))
  assert (not (item == null))
  stop ←
      probe t.entries t.table_size (is_match same item_hash item) t.table_size (home t item_hash) 0
  after_lookup t item_hash item do_add got_memory stop

-- The body of the loop of `mzHashTableRemove` at the entry that it looks for, and the end.
pub after_remove : HashTable → Stop → Bool × HashTable
after_remove t (hit i count) = (
  true,
  record t {
    entries =
        set t.entries i
          (record { hash_value = (get_or t.entries i blank).hash_value; item = hash_tombstone });
    num_entries = t.num_entries - 1;
    num_dead_entries = t.num_dead_entries + 1;
  },
)
after_remove t (hole i count) = (false, t)
after_remove t single = (false, t)

pub mz_hash_table_remove : HashTable → ℕ → ℕ → Run (Bool × HashTable)
unfolding probe after_remove
mz_hash_table_remove t item_hash item = do
  assert (ltb 0 t.table_size)
  stop ← probe t.entries t.table_size (λ e. e.item == item) t.table_size (home t item_hash) 0
  ok (after_remove t stop)

after_count : Stop → Run (Option ℕ)
after_count (hit i count) = ok (some count)
after_count (hole i count) = ok none
after_count single = fault out_of_bounds

-- `none` is the result -1.
pub count_probes : HashTable → ℕ → ℕ → (ℕ → ℕ → Bool) → Run (Option ℕ)
unfolding probe after_count
count_probes t item_hash item same = do
  assert (ltb 0 t.table_size)
  assert (not (item == hash_tombstone))
  assert (not (item == null))
  stop ←
      probe t.entries t.table_size (is_match same item_hash item) t.table_size (home t item_hash) 0
  after_count stop

-- `func s d` is the call `(*func)(d, arg)`: the new state of what `arg` points to, and the result.
--
-- The loop from index `i` on, over `n` indices.
foreach_entries : {S : Type 0} → List HashEntry → ℕ → ℕ → (S → ℕ → S × ℕ) → S → Run (S × ℕ)
foreach_entries entries zero i func s = ok (s, 0)
foreach_entries entries (suc n) i func s =
    let item = (get_or entries i blank).item in
    let skipped = foreach_entries entries n (i + 1) func s in
    let later = foreach_entries entries n (i + 1) func (func s item).0 in
    let called = if (func s item).1 == 0 then later else ok (func s item) in
    if ltb i (length entries)
    then if is_live item then called else skipped
    else fault Fault.out_of_bounds

pub mz_hash_foreach : {S : Type 0} → HashTable → (S → ℕ → S × ℕ) → S → Run (S × ℕ)
unfolding foreach_entries
mz_hash_foreach t func s = foreach_entries t.entries t.table_size 0 func s

-- The loop of `mzHashIterNext` from index `i` on, over the entries that stand there.
advance : List HashEntry → ℕ → ℕ
advance [] i = i
advance (e ∷ es) i = let rest = advance es (i + 1) in if is_live e.item then i else rest

-- The index that a HashIter holds. `mzHashIterBegin` sets it to -1 and moves to the next.
pub mz_hash_iter_next : HashTable → ℕ → ℕ
unfolding advance
mz_hash_iter_next t idx = advance (drop (idx + 1) t.entries) (idx + 1)

pub mz_hash_iter_begin : HashTable → ℕ
unfolding advance
mz_hash_iter_begin t = advance t.entries 0

pub mz_hash_iter_done : HashTable → ℕ → Bool
mz_hash_iter_done t idx = leb t.table_size idx

pub mz_hash_iter_data : HashTable → ℕ → Run ℕ
mz_hash_iter_data t idx = do assert (ltb idx t.table_size); ok (get_or t.entries idx blank).item

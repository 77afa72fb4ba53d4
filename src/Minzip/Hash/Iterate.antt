-- ===== src/Minzip/Hash/Iterate.antt =====
-- `mzHashForeach` and the iterator of minzip/Hash.c and Hash.h: the items that they visit.
use midnight_i9000_recovery.Common.{
  ℕ, zero, suc, Bool, ◌+◌, ◌<◌, ◌≡◌, refl, true, false, Bool-cases, inl, inr, List, [], ◌∷◌, length,
  drop, drop-cons, drop-nil, ltb, leb, ◌==◌, if◌then◌else◌, arith,
}
use midnight_i9000_recovery.Common.Run.{Run, ok, fault, no_fuel, ◌>>=◌}
use midnight_i9000_recovery.Minzip.Hash.{
  HashTable, HashEntry, blank, null, hash_tombstone, is_live, foreach_entries, mz_hash_foreach,
  advance, mz_hash_iter_begin, mz_hash_iter_next, mz_hash_iter_done, mz_hash_iter_data,
}
use midnight_i9000_recovery.Minzip.Hash.Valid.{IsValid}
use midnight_i9000_recovery.Minzip.Hash.Create.{live_items}

-- Call a function on each item until it returns a value other than 0.
abbrev pub visit : {S : Type 0} → List ℕ → (S → ℕ → S × ℕ) → S → S × ℕ
visit [] func s = (s, 0)
visit (d ∷ ds) func s =
    let rest = visit ds func (func s d).0 in if (func s d).1 == 0 then rest else func s d

-- The items that are neither NULL nor a tombstone.
abbrev pub stored_items : List HashEntry → List ℕ
stored_items [] = []
stored_items (e ∷ es) =
    if e.item == null
    then stored_items es
    else if e.item == hash_tombstone
    then stored_items es
    else (e.item ∷ stored_items es)

ok_if : {A : Type 0} (b : Bool) (x y : A) → (if b then ok x else ok y) ≡ ok (if b then x else y)
ok_if true x y = refl
ok_if false x y = refl

foreach_entries-visit :
    {S : Type 0} (all rest : List HashEntry) (n i : ℕ) (func : S → ℕ → S × ℕ) (s : S)
    → drop i all ≡ rest
    → length rest ≡ n
    → foreach_entries all n i func s ≡ ok (visit (stored_items rest) func s)
unfolding foreach_entries
foreach_entries-visit all [] zero i func s suffix width = refl
foreach_entries-visit all [] (suc n) i func s suffix width = absurd (omega arith)
foreach_entries-visit all (e ∷ es) zero i func s suffix width = absurd (omega arith)
foreach_entries-visit all (e ∷ es) (suc n) i func s suffix width =
    let (reads, rest, below) = drop-cons all i e es blank suffix in
    let inside : ltb i (length all) ≡ true = ground arith in
    let skip = foreach_entries-visit all es n (i + 1) func s rest (omega arith) in
    let call = foreach_entries-visit all es n (i + 1) func (func s e.item).0 rest (omega arith) in
    elim (Bool-cases (e.item == null)) [
      | inl empty ↦ rw (inside, reads, empty) skip
      | inr full ↦ elim (Bool-cases (e.item == hash_tombstone)) [
        | inl dead ↦ rw (inside, reads, full, dead) skip
        | inr live ↦
            rw (inside, reads, full, live, call)
              (ok_if ((func s e.item).1 == 0) (visit (stored_items es) func (func s e.item).0)
                (func s e.item))
      ]
    ]

-- On a valid table, mzHashForeach reads no entry outside of the array and calls the function, in the
-- order of the slots, on every item that is neither NULL nor a tombstone, up to the first call whose
-- result is not 0, and returns that result, or 0.
pub foreach-visit :
    {S : Type 0} (t : HashTable)
    → IsValid t
    → (func : S → ℕ → S × ℕ) (s : S)
    → mz_hash_foreach t func s ≡ ok (visit (stored_items t.entries) func s)
unfolding mz_hash_foreach
foreach-visit t valid func s =
    foreach_entries-visit t.entries t.entries t.table_size 0 func s refl valid.stored.width

-- for (; !mzHashIterDone(&iter); mzHashIterNext(&iter)) with the data that the body sees.
pub iterate : HashTable → ℕ → ℕ → Run (List ℕ)
iterate t zero idx = fault no_fuel
iterate t (suc fuel) idx =
    let rest = iterate t fuel (mz_hash_iter_next t idx) in
    let round = (mz_hash_iter_data t idx >>= λ d. rest >>= λ ds. ok (d ∷ ds)) in
    if mz_hash_iter_done t idx then ok [] else round

iterate_suffix :
    (t : HashTable) (es : List HashEntry) (i fuel : ℕ)
    → length t.entries ≡ t.table_size
    → drop i t.entries ≡ es
    → length es < fuel
    → iterate t fuel (advance es i) ≡ ok (live_items es)
unfolding iterate advance mz_hash_iter_next mz_hash_iter_data mz_hash_iter_done
iterate_suffix t es i zero width suffix lt = absurd (omega arith)
iterate_suffix t [] i (suc fuel) width suffix lt = ground (arith, drop-nil t.entries i suffix)
iterate_suffix t (e ∷ es) i (suc fuel) width suffix lt =
    let (reads, rest, inside) = drop-cons t.entries i e es blank suffix in
    elim (Bool-cases (is_live e.item)) [
      | inl live ↦
          let more : leb t.table_size i ≡ false = ground arith in
          let there : ltb i t.table_size ≡ true = ground arith in
          rw (
            live,
            more,
            there,
            reads,
            rest,
            iterate_suffix t es (i + 1) fuel width rest (omega arith),
          )
      | inr dead ↦ rw dead (iterate_suffix t es (i + 1) (suc fuel) width rest (omega arith))
    ]

-- The iterator visits exactly the live items, each once, in the order of the slots, and ends.
pub iterate-live_items :
    (t : HashTable)
    → IsValid t
    → iterate t (t.table_size + 1) (mz_hash_iter_begin t) ≡ ok (live_items t.entries)
unfolding mz_hash_iter_begin
iterate-live_items t v =
    iterate_suffix t t.entries 0 (t.table_size + 1) v.stored.width refl
      (omega (arith, v.stored.width))

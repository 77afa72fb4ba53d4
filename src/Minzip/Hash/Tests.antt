-- ===== src/Minzip/Hash/Tests.antt =====
-- The table of minzip/Hash.c at concrete inputs: tests of the code, and the theorems applied.
use midnight_i9000_recovery.Common.{
  ℕ, zero, suc, ◌+◌, ◌*◌, ◌%◌, ◌^◌, ◌≤◌, ◌<◌, ◌≡◌, refl, Bool, true, false, ◌⊎◌, some, [], ◌∷◌,
  get_or, ◌==◌, arith,
}
use midnight_i9000_recovery.Common.Run.{ok, fault, out_of_bounds, ◌>>=◌, Returns}
use midnight_i9000_recovery.Minzip.Hash.{
  HashTable, blank, null, hash_tombstone, is_live, smear, round_up_power2, mz_hash_table_clear,
  mz_hash_table_lookup, mz_hash_table_remove, resize_hash, count_probes, mz_hash_foreach,
  mz_hash_iter_begin, count_tombstones,
}
use midnight_i9000_recovery.Minzip.Hash.Counting.{copies, tally}
use midnight_i9000_recovery.Minzip.Hash.Valid.{IsReachable, IsValid}
use midnight_i9000_recovery.Minzip.Hash.Size.{round_up_power2-least}
use midnight_i9000_recovery.Minzip.Hash.Create.{IsEmpty, clear-IsEmpty}
use midnight_i9000_recovery.Minzip.Hash.Lookup.{Finds, lookup-Finds}
use midnight_i9000_recovery.Minzip.Hash.Change.{Adds, Removes, lookup-Adds, remove-Removes}
use midnight_i9000_recovery.Minzip.Hash.Iterate.{visit, foreach-visit, iterate, iterate-live_items}

-- Items that are equal up to the parity of their address.
abbrev same_parity : ℕ → ℕ → Bool
same_parity a b = a % 2 == b % 2

abbrev same_address : ℕ → ℕ → Bool
same_address a b = a == b

-- The item 100 stands behind a tombstone, one slot past its home.
abbrev sample : HashTable
sample = record {
  table_size = 4;
  num_entries = 1;
  num_dead_entries = 1;
  entries =
      blank
      ∷ record { hash_value = 5; item = hash_tombstone }
      ∷ record { hash_value = 5; item = 100 }
      ∷ blank
      ∷ [];
  has_free_func = true;
}

sample_slots : IsReachable 4 sample.entries
sample_slots zero lt live = absurd (cc)
sample_slots (suc zero) lt live = absurd (cc)
sample_slots (suc (suc zero)) lt live = record {
  steps = 1;
  within = omega arith;
  lands = refl;
  full = λ v h. one_step v h;
}
  where
    one_step : (v : ℕ) → v < 1 → (get_or sample.entries ((1 + v) % 4) blank).item ≡ null → ⊥
    one_step zero h e = omega arith
    one_step (suc v) h e = absurd (omega arith)
sample_slots (suc (suc (suc zero))) lt live = absurd (cc)
sample_slots (suc (suc (suc (suc j)))) lt live = absurd (omega arith)

sample-IsValid : IsValid sample
unfolding tally count_tombstones
sample-IsValid = record {
  stored = record {
    width = refl;
    log_size = 2;
    power = refl;
    live = refl;
    dead = refl;
    reachable = sample_slots;
  };
  load = omega arith;
}

round_up_runs : (round_up_power2 1 ≡ 1) × (round_up_power2 5 ≡ 8) × (round_up_power2 0 ≡ 0)
unfolding round_up_power2 smear
round_up_runs = (refl, refl, refl)

-- The third item makes the table of four slots grow.
lookup_grows :
    (mz_hash_table_lookup sample 7 200 same_address true true >>= λ r. ok r.1.table_size) ≡ ok 8
unfolding mz_hash_table_lookup resize_hash
lookup_grows = refl

lookup_finds : mz_hash_table_lookup sample 5 102 same_parity true true ≡ ok (100, sample)
unfolding mz_hash_table_lookup
lookup_finds = refl

remove_buries : (mz_hash_table_remove sample 5 100 >>= λ r. ok r.1.num_dead_entries) ≡ ok 2
unfolding mz_hash_table_remove
remove_buries = refl

probes_counted : count_probes sample 5 102 same_parity ≡ ok (some 1)
unfolding count_probes
probes_counted = refl

-- In a full table of one slot the loop leaves `pEntry` past the end of the array.
one_slot_overrun :
    mz_hash_table_lookup
      (record {
        table_size = 1;
        num_entries = 1;
        num_dead_entries = 0;
        entries = record { hash_value = 3; item = 9 } ∷ [];
        has_free_func = false;
      })
      4
      8
      same_address
      false
      true
    ≡ fault out_of_bounds
unfolding mz_hash_table_lookup
one_slot_overrun = refl

round_up_power2-least_example :
    (k : ℕ) × (round_up_power2 100 ≡ 2 ^ k) × (100 ≤ 2 ^ k) × (2 ^ k < 2 * 100)
round_up_power2-least_example = round_up_power2-least 100 (omega arith) (omega arith)

clear-IsEmpty_example :
    let (t', freed) = mz_hash_table_clear sample in
    IsEmpty t' × (t'.table_size ≡ 4) × (freed ≡ 100 ∷ [])
clear-IsEmpty_example = clear-IsEmpty sample sample-IsValid

lookup-Finds_example :
    Returns
      (mz_hash_table_lookup sample 5 102 same_parity false false)
      (λ r. Finds same_parity 5 102 sample r.0 × (r.1 ≡ sample))
lookup-Finds_example = lookup-Finds sample sample-IsValid 5 102 same_parity refl false

lookup-Adds_example : Returns (mz_hash_table_lookup sample 7 200 same_address true true) (λ r.
    ((r.1 ≡ sample)
      × (is_live r.0 ≡ true)
      × (0 < copies 7 r.0 sample.entries)
      × (same_address r.0 200 ≡ true))
    ⊎ ((r.0 ≡ 200)
        × ((d : ℕ) → is_live d ≡ true → 0 < copies 7 d sample.entries → same_address d 200 ≡ false)
        × Adds sample 7 200 r.1))
lookup-Adds_example = lookup-Adds sample sample-IsValid 7 200 same_address refl (omega arith)

remove-Removes_example : Returns (mz_hash_table_remove sample 5 100) (λ r.
    ((r.0 ≡ true) × ((g : ℕ) × Removes sample 100 g r.1))
    ⊎ ((r.0 ≡ false) × (r.1 ≡ sample) × (copies 5 100 sample.entries ≡ 0)))
remove-Removes_example = remove-Removes sample sample-IsValid 5 100 refl

foreach-visit_example :
    mz_hash_foreach {S = ℕ} sample (λ s d. (s + d, 0)) 1
    ≡ ok (visit (100 ∷ []) (λ s d. (s + d, 0)) 1)
foreach-visit_example = foreach-visit sample sample-IsValid (λ s d. (s + d, 0)) 1

iterate-live_items_example : iterate sample 5 (mz_hash_iter_begin sample) ≡ ok (100 ∷ [])
iterate-live_items_example = iterate-live_items sample sample-IsValid

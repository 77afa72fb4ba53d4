-- ===== src/Minzip/Hash/Change.antt =====
-- How minzip/Hash.c changes a table: an entry added by `mzHashTableLookup`, and one taken out by
-- `mzHashTableRemove`.
use native.Mathlib.Nat.{mod-lt}
use midnight_i9000_recovery.Common.{
  ℕ, ◌+◌, ◌*◌, ◌%◌, ◌^◌, ◌≤◌, ◌<◌, ◌≡◌, refl, ◌∙◌, ◌⊎◌, inl, inr, Bool, true, false, ◌&&◌, length,
  get_or, set, ltb, ◌==◌, Bool-cases, arith, length-set, lt→ltb, ltb→lt, ==_iff,
}
use midnight_i9000_recovery.Common.Run.{◌>>=◌, Returns, mul_int-ok}
use midnight_i9000_recovery.Minzip.Hash.{
  HashEntry, HashTable, blank, null, hash_tombstone, is_live, home, Stop, hit, required, grow,
  add_entry, after_lookup, mz_hash_table_lookup, mz_hash_table_remove, after_remove,
}
use midnight_i9000_recovery.Minzip.Hash.Valid.{Arrives, IsReachable-set, IsStored, IsValid}
use midnight_i9000_recovery.Minzip.Hash.Counting.{
  live_weight, dead_weight, copies, copy_weight, one_if, tally-set, count_tombstones-eq-tally,
}
use midnight_i9000_recovery.Minzip.Hash.Lookup.{
  Outcome, found, missing, lookup_runs, probe_ends, nothing_missed,
}
use midnight_i9000_recovery.Minzip.Hash.Probe.{slot_at, Passed}
use midnight_i9000_recovery.Minzip.Hash.Resize.{resize_hash-Resized}

-- `t'` holds the items of `t` and one more.
pub record Adds (t : HashTable) (h item : ℕ) (t' : HashTable) : Type 0 where
  pub valid : IsValid t'
  pub count : t'.num_entries ≡ t.num_entries + 1
  pub holds :
      (g d : ℕ)
      → is_live d ≡ true
      → copies g d t'.entries ≡ copies g d t.entries + one_if ((h == g) && (item == d))

module _ (t : HashTable) (v : IsValid t) (h item : ℕ) (live : is_live item ≡ true) (j : ℕ)
    (inside : j < length t.entries) (empty : (get_or t.entries j blank).item ≡ null)
    (path : Arrives t.entries t.table_size (home t h) j) where
  abbrev added : HashTable
  added = record t {
    entries = set t.entries j (record { hash_value = h; item = item });
    num_entries = t.num_entries + 1;
  }

  added-IsStored : IsStored added
  added-IsStored =
      let e : HashEntry = record { hash_value = h; item = item } in
      record {
        width = length-set t.entries j e ∙ v.stored.width;
        log_size = v.stored.log_size;
        power = v.stored.power;
        live = ground (arith, tally-set live_weight t.entries j e inside, v.stored.live, empty);
        dead = ground (
          arith,
          tally-set dead_weight t.entries j e inside,
          v.stored.dead,
          empty,
          count_tombstones-eq-tally t.entries,
          count_tombstones-eq-tally (set t.entries j e),
        );
        reachable =
            IsReachable-set t.entries j e inside t.table_size (ground arith) (λ _. path)
              v.stored.reachable;
      }

  holds-added :
      (g d : ℕ)
      → is_live d ≡ true
      → copies g d added.entries ≡ copies g d t.entries + one_if ((h == g) && (item == d))
  holds-added g d q = ground (
    arith,
    tally-set (copy_weight g d) t.entries j (record { hash_value = h; item = item }) inside,
    empty,
  )

  module _ (small : t.table_size * 5 + 8 < 2 ^ 31) where
    -- The table grows when the load passes five eighths, and is then at most half as full.
    grow-Adds :
        t.table_size * 5 < (t.num_entries + 1 + t.num_dead_entries) * 8
        → Returns (grow added true) (λ t'. Adds t h item t' × (t'.num_entries < t'.table_size))
    unfolding grow required
    grow-Adds full =
        let (o, run, (t', is_some, stored, size, entries, dead, same)) =
          resize_hash-Resized added added-IsStored (omega (arith, v.load)) in
        (
          t',
          rw (mul_int-ok t.table_size 2 (omega arith), ◌>>=◌, run, is_some) refl,
          (
            record {
              valid = record { stored = stored; load = omega (arith, v.load, size, entries, dead) };
              count = entries;
              holds = λ g d q. same g d q ∙ holds-added g d q;
            },
            omega (arith, v.load, size, entries),
          ),
        )

    added-Adds :
        (t.num_entries + 1 + t.num_dead_entries) * 8 ≤ t.table_size * 5 → Adds t h item added
    added-Adds load = record {
      valid = record { stored = added-IsStored; load = load };
      count = refl;
      holds = holds-added;
    }

    add_entry-Adds : Returns (add_entry t j h item true) (λ r. (r.0 ≡ item) × Adds t h item r.1)
    unfolding add_entry
    add_entry-Adds =
        let products =
          mul_int-ok (t.num_entries + 1 + t.num_dead_entries) 8 (omega (arith, v.load)) in
        let limit = mul_int-ok t.table_size 5 (omega arith) in
        elim (Bool-cases (ltb (t.table_size * 5) ((t.num_entries + 1 + t.num_dead_entries) * 8))) [
          | inl full ↦
              let (t', run, (adds, roomy)) = grow-Adds (ltb→lt _ _ full) in
              (
                (item, t'),
                rw (products, limit, ◌>>=◌, full, run, lt→ltb _ _ roomy) refl,
                (refl, adds),
              )
          | inr p ↦
              let adds = added-Adds (ground arith) in
              let roomy : t.num_entries + 1 < t.table_size = ground arith in
              ((item, added), rw (products, limit, ◌>>=◌, p, lt→ltb _ _ roomy) refl, (refl, adds))
        ]

-- With `doAdd`, where memory can be had for a larger table and 5 times the number of slots is below
-- 2 ^ 31 - 8, the lookup of an item ends; it returns a stored item that compares equal and changes
-- nothing, or, when there is none, adds the item and returns it. The table is valid again, also after
-- growing.
pub lookup-Adds :
    (t : HashTable)
    → IsValid t
    → (h item : ℕ) (same : ℕ → ℕ → Bool) → is_live item ≡ true
    → t.table_size * 5 + 8 < 2 ^ 31
    → Returns (mz_hash_table_lookup t h item same true true) (λ r.
      ((r.1 ≡ t) × (is_live r.0 ≡ true) × (0 < copies h r.0 t.entries) × (same r.0 item ≡ true))
      ⊎ ((r.0 ≡ item)
          × ((d : ℕ) → is_live d ≡ true → 0 < copies h d t.entries → same d item ≡ false)
          × Adds t h item r.1))
unfolding after_lookup
lookup-Adds t v h item same live small =
    let (stop, outcome, run) = lookup_runs t v h item same live true true in rw run (finish outcome)
  where
    finish :
        {stop : Stop}
        → Outcome t v h item same live stop
        → Returns (after_lookup t h item true true stop) (λ r.
          ((r.1 ≡ t) × (is_live r.0 ≡ true) × (0 < copies h r.0 t.entries) × (same r.0 item ≡ true))
          ⊎ ((r.0 ≡ item)
              × ((d : ℕ) → is_live d ≡ true → 0 < copies h d t.entries → same d item ≡ false)
              × Adds t h item r.1))
    finish (found j count inside stored counted eq) =
        ((_, t), refl, inl (refl, stored, counted, eq))
    finish (missing j count inside empty path absent) =
        let (r, run, (is_item, adds)) = add_entry-Adds t v h item live j inside empty path small in
        (r, run, inr (is_item, absent, adds))

-- `t'` holds the items of `t` but one `item`, which stood under the hash `g`.
pub record Removes (t : HashTable) (item g : ℕ) (t' : HashTable) : Type 0 where
  pub valid : IsValid t'
  pub count : t'.num_entries + 1 ≡ t.num_entries
  pub holds :
      (g' d : ℕ)
      → is_live d ≡ true
      → copies g' d t'.entries + one_if ((g == g') && (item == d)) ≡ copies g' d t.entries

module _ (t : HashTable) (v : IsValid t) (h item : ℕ) (live : is_live item ≡ true) where
  bury-Removes :
      (j count : ℕ)
      → j < length t.entries
      → (get_or t.entries j blank).item ≡ item
      → Removes t item (get_or t.entries j blank).hash_value (after_remove t (hit j count)).1
  unfolding after_remove
  bury-Removes j count inside holds =
      let old = get_or t.entries j blank in
      let e : HashEntry = record { hash_value = old.hash_value; item = hash_tombstone } in
      record {
        valid = record {
          stored = record {
            width = length-set t.entries j e ∙ v.stored.width;
            log_size = v.stored.log_size;
            power = v.stored.power;
            live = ground (arith, tally-set live_weight t.entries j e inside, v.stored.live, holds);
            dead = ground (
              arith,
              tally-set dead_weight t.entries j e inside,
              v.stored.dead,
              holds,
              count_tombstones-eq-tally t.entries,
              count_tombstones-eq-tally (set t.entries j e),
            );
            reachable =
                IsReachable-set t.entries j e inside t.table_size (omega arith) (λ l. absurd (cc))
                  v.stored.reachable;
          };
          load =
              ground
                (arith, v.load, tally-set live_weight t.entries j e inside, v.stored.live, holds);
        };
        count = ground (arith, tally-set live_weight t.entries j e inside, v.stored.live, holds);
        holds = λ g d q. ground (arith, tally-set (copy_weight g d) t.entries j e inside, holds);
      }

  absent_at_end :
      (steps : ℕ)
      → Passed t.entries t.table_size (λ e. e.item == item) (home t h) steps
      → (slot_at t.entries t.table_size (home t h) steps).item ≡ null
      → copies h item t.entries ≡ 0
  absent_at_end steps passed empty = elim (Bool-cases (ltb 0 (copies h item t.entries))) [
    | inl p ↦
        let (e, hashed, holds, other) =
          nothing_missed t v h (λ e. e.item == item) steps item passed empty live (ltb→lt _ _ p) in
        absurd (ground arith)
    | inr p ↦ ground arith
  ]

  -- Removing ends; it takes out one occurrence of the pointer and reports true, or changes nothing
  -- and reports false, which it does only if the pointer is not stored under the hash.
  pub remove-Removes : Returns (mz_hash_table_remove t h item) (λ r.
      ((r.0 ≡ true) × ((g : ℕ) × Removes t item g r.1))
      ⊎ ((r.0 ≡ false) × (r.1 ≡ t) × (copies h item t.entries ≡ 0)))
  unfolding mz_hash_table_remove
  remove-Removes =
      let (steps, near, (stop, run, r)) = probe_ends t v h (λ e. e.item == item) in
      let inside : (home t h + r.steps) % t.table_size < length t.entries =
        rw v.stored.width (mod-lt (home t h + r.steps) (omega arith)) in
      (
        after_remove t stop,
        rw (lt→ltb 0 t.table_size (omega arith), run, ◌>>=◌),
        elim r.ending [
          | inl (ends, empty) ↦
              let absent = absent_at_end r.steps r.passed empty in
              rw ends (inr (refl, refl, absent))
          | inr (ends, full, match) ↦
              rw ends (inl (refl, (_, bury-Removes _ (0 + r.steps) inside ((==_iff _ _).0 match))))
        ],
      )

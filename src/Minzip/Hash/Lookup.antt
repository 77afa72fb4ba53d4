-- ===== src/Minzip/Hash/Lookup.antt =====
-- `mzHashTableLookup` and `countProbes` of minzip/Hash.c: what is found, and what is added.
use native.Mathlib.Nat.{mod-lt}
use native.Mathlib.Decide.{dec_lt}
use mathlib.Core.Path.{subst}
use midnight_i9000_recovery.Common.{
  ℕ, ◌+◌, ◌%◌, ◌<◌, ◌≡◌, refl, sym, ap, ◌∙◌, ◌≢◌, ◌⊎◌, inl, inr, Bool, not, true, false, length,
  get_or, ◌==◌, Bool-cases, arith, lt→ltb,
}
use midnight_i9000_recovery.Common.Run.{◌>>=◌, Returns}
use midnight_i9000_recovery.Minzip.Hash.{
  HashEntry, HashTable, blank, null, hash_tombstone, is_live, is_match, home, Stop, hit, hole,
  probe, after_lookup, mz_hash_table_lookup,
}
use midnight_i9000_recovery.Minzip.Hash.Probe.{slot_at, Ended, Passed, probe-Ended}
use midnight_i9000_recovery.Minzip.Hash.Valid.{Arrives, IsValid, free_ahead}
use midnight_i9000_recovery.Minzip.Hash.Counting.{
  copies, copy_weight, tally-pos, tally_of_slot, count_tombstones-eq-tally,
}
use midnight_i9000_recovery.Minzip.Hash.Resize.{mask-lt, Arrives-Ended}

module _ (t : HashTable) (v : IsValid t) (h : ℕ) where
  home-lt : home t h < t.table_size
  home-lt = rw v.stored.power (mask-lt v.stored.log_size h)

  -- In a valid table every probing loop ends.
  pub probe_ends :
      (wanted : HashEntry → Bool)
      → (steps : ℕ) × (steps < t.table_size)
        × Returns
            (probe t.entries t.table_size wanted t.table_size (home t h) 0)
            (Ended t.entries t.table_size wanted (home t h) 0 steps)
  probe_ends wanted =
      let dead = count_tombstones-eq-tally t.entries in
      let (steps, near, free) =
        free_ahead t.entries t.table_size (home t h) v.stored.width home-lt
          (omega (arith, dead, v.stored.live, v.stored.dead, v.load, home-lt)) in
      (
        steps,
        near,
        probe-Ended t.entries t.table_size wanted t.table_size (home t h) 0 steps v.stored.width
            home-lt free near,
      )

  -- The loop passes every item that is stored under the hash before it comes to an empty slot.
  pub nothing_missed :
      (wanted : HashEntry → Bool) (steps d : ℕ)
      → Passed t.entries t.table_size wanted (home t h) steps
      → (slot_at t.entries t.table_size (home t h) steps).item ≡ null
      → is_live d ≡ true
      → 0 < copies h d t.entries
      → (e : HashEntry) × (e.hash_value ≡ h) × (e.item ≡ d) × (wanted e ≡ false)
  nothing_missed wanted steps d passed empty live some_copy =
      let (j, inside, counted) = tally-pos (copy_weight h d) t.entries some_copy in
      let e = get_or t.entries j blank in
      let hashed : e.hash_value ≡ h = ground arith in
      let holds : e.item ≡ d = ground arith in
      let a : Arrives t.entries t.table_size (home t h) j =
        rw hashed at (v.stored.reachable j (omega (arith, v.stored.width)) (rw holds live)) in
      let reads : slot_at t.entries t.table_size (home t h) a.steps ≡ e =
        ap (λ (m : ℕ). get_or t.entries m blank) a.lands in
      elim (dec_lt a.steps steps) [
        | yes early ↦ (e, hashed, holds, rw reads at ((passed a.steps early).1))
        | no late ↦ absurd (not_late a reads holds late)
      ]
    where
      not_late :
          {j : ℕ} (a : Arrives t.entries t.table_size (home t h) j)
          → slot_at t.entries t.table_size (home t h) a.steps ≡ get_or t.entries j blank
          → (get_or t.entries j blank).item ≡ d
          → ¬ (a.steps < steps)
          → ⊥
      not_late {j} a reads holds late = elim (dec_lt steps a.steps) [
        | yes lt ↦ a.full steps lt empty
        | no ge ↦
            let same : a.steps ≡ steps = omega arith in
            let none_here : (get_or t.entries j blank).item ≡ null =
              ap (λ (e : HashEntry). e.item) (sym reads) ∙ rw same empty in
            ground arith
      ]

-- What `mzHashTableLookup` reports of an item that it does not add: NULL, if nothing that is stored
-- under the hash compares equal, or a stored item that does.
abbrev pub Finds : (ℕ → ℕ → Bool) → ℕ → ℕ → HashTable → ℕ → Type 0
Finds same h item t r =
    ((r ≡ null) × ((d : ℕ) → is_live d ≡ true → 0 < copies h d t.entries → same d item ≡ false))
    ⊎ ((is_live r ≡ true) × (0 < copies h r t.entries) × (same r item ≡ true))

module _ (same : ℕ → ℕ → Bool) (h item : ℕ) (e : HashEntry) where
  match_facts :
      is_match same h item e ≡ true
      → e.item ≢ null
      → (is_live e.item ≡ true) × (copy_weight h e.item e ≡ 1) × (same e.item item ≡ true)
  match_facts match full = ground arith

  no_match_fact :
      (d : ℕ)
      → e.hash_value ≡ h
      → e.item ≡ d
      → is_live d ≡ true
      → is_match same h item e ≡ false
      → same d item ≡ false
  no_match_fact d hashed holds live other =
      rw (← holds) (elim (Bool-cases (same e.item item)) [ inl p ↦ absurd (contra p) | inr p ↦ p ])
    where
      contra : same e.item item ≡ true → ⊥
      contra p = ground arith

module _ (t : HashTable) (v : IsValid t) (h item : ℕ) (same : ℕ → ℕ → Bool)
    (sound_item : is_live item ≡ true) where
  abbrev wanted : HashEntry → Bool
  wanted = is_match same h item

  -- The two ends of the loop, with what they say of the items in the table.
  pub data Outcome : Stop → Type 0 where
    found :
        (j count : ℕ)
        → j < length t.entries
        → is_live (get_or t.entries j blank).item ≡ true
        → 0 < copies h (get_or t.entries j blank).item t.entries
        → same (get_or t.entries j blank).item item ≡ true
        → Outcome (hit j count)
    missing :
        (j count : ℕ)
        → j < length t.entries
        → (get_or t.entries j blank).item ≡ null
        → Arrives t.entries t.table_size (home t h) j
        → ((d : ℕ) → is_live d ≡ true → 0 < copies h d t.entries → same d item ≡ false)
        → Outcome (hole j count)

  pub classify :
      {steps : ℕ} {stop : Stop}
      → steps < t.table_size
      → Ended t.entries t.table_size wanted (home t h) 0 steps stop
      → Outcome stop
  classify {steps} {stop} near r = elim r.ending [
    | inl (ends, empty) ↦ subst Outcome (sym ends) (
        missing _ _ inside empty
          (Arrives-Ended t.entries t.table_size wanted (home t h) steps stop near r)
          λ d live some_copy.
            let (e, hashed, holds, no_match) =
              nothing_missed t v h wanted r.steps d r.passed empty live some_copy in
            no_match_fact same h item e d hashed holds live no_match)
    | inr (ends, full, match) ↦
        let e = slot_at t.entries t.table_size (home t h) r.steps in
        subst Outcome (sym ends) (
          let (live, counted, eq) = match_facts same h item e match full in
          found _ _ inside live
            (omega (arith, tally_of_slot (copy_weight h e.item) t.entries _ inside)) eq)
  ]
    where
      inside : (home t h + r.steps) % t.table_size < length t.entries
      inside = rw v.stored.width (mod-lt (home t h + r.steps) (omega arith))

  guards : (not (item == hash_tombstone) ≡ true) × (not (item == null) ≡ true)
  guards = ground arith

  -- The lookup comes down to what follows its loop, at one of the two ends.
  pub lookup_runs :
      (do_add got_memory : Bool)
      → (stop : Stop) × Outcome stop
        × (mz_hash_table_lookup t h item same do_add got_memory
            ≡ after_lookup t h item do_add got_memory stop)
  unfolding mz_hash_table_lookup
  lookup_runs do_add got_memory =
      let (steps, near, (stop, run, r)) = probe_ends t v h wanted in
      (
        stop,
        classify near r,
        rw (lt→ltb 0 t.table_size (omega arith), guards.0, guards.1, run, ◌>>=◌),
      )

  -- Without `doAdd` the lookup ends, changes nothing, and returns a stored item that compares equal,
  -- or NULL when there is none: it misses no item.
  pub lookup-Finds :
      (got_memory : Bool)
      → Returns
          (mz_hash_table_lookup t h item same false got_memory)
          (λ r. Finds same h item t r.0 × (r.1 ≡ t))
  unfolding after_lookup
  lookup-Finds got_memory =
      let (stop, outcome, run) = lookup_runs false got_memory in rw run (finish outcome)
    where
      finish :
          {stop : Stop}
          → Outcome stop
          → Returns
              (after_lookup t h item false got_memory stop)
              (λ r. Finds same h item t r.0 × (r.1 ≡ t))
      finish (found j count inside live counted eq) =
          ((_, t), refl, (inr (live, counted, eq), refl))
      finish (missing j count inside empty path absent) =
          ((null, t), refl, (inl (refl, absent), refl))

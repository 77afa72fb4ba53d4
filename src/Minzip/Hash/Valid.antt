-- ===== src/Minzip/Hash/Valid.antt =====
-- The invariant of the table of minzip/Hash.c.
use native.Mathlib.Nat.{mod-eq_of_lt, add-mod_right}
use midnight_i9000_recovery.Common.{
  ℕ, ◌+◌, ◌-◌, ◌*◌, ◌%◌, ◌^◌, ◌≤◌, ◌<◌, ◌≡◌, ap, ◌∙◌, ◌≢◌, inl, inr, true, List, length, get_or,
  set, ltb, ◌==◌, Bool-cases, arith, bit_and, get_or-set_self, get_or-set_ne,
}
use midnight_i9000_recovery.Minzip.Hash.{
  HashEntry, HashTable, blank, null, is_live, count_tombstones,
}
use midnight_i9000_recovery.Minzip.Hash.Probe.{slot_at}
use midnight_i9000_recovery.Minzip.Hash.Counting.{live_count, tally, dead_weight, free_slot, copies}

-- The probing path from `i` gets to slot `j` over slots that are not empty.
pub record Arrives (es : List HashEntry) (n i j : ℕ) : Type 0 where
  pub steps : ℕ
  pub within : steps < n
  pub lands : (i + steps) % n ≡ j
  pub full : (v : ℕ) → v < steps → (slot_at es n i v).item ≢ null

-- Every live entry is on the probing path of its hash.
abbrev pub IsReachable : ℕ → List HashEntry → Type 0
IsReachable n es =
    (j : ℕ)
    → j < n
    → is_live (get_or es j blank).item ≡ true
    → Arrives es n (bit_and (get_or es j blank).hash_value (n - 1)) j

-- The invariant but for the bound on the load, which an insertion may pass before it resizes.
pub record IsStored (t : HashTable) : Type 0 where
  pub width : length t.entries ≡ t.table_size
  pub log_size : ℕ
  pub power : t.table_size ≡ 2 ^ log_size
  pub live : live_count t.entries ≡ t.num_entries
  pub dead : count_tombstones t.entries ≡ t.num_dead_entries
  pub reachable : IsReachable t.table_size t.entries

pub record IsValid (t : HashTable) : Type 0 where
  pub stored : IsStored t
  pub load : (t.num_entries + t.num_dead_entries) * 8 ≤ t.table_size * 5

-- The two arrays hold the same items under the same hashes, each as often.
abbrev pub SameItems : List HashEntry → List HashEntry → Type 0
SameItems a b = (h d : ℕ) → is_live d ≡ true → copies h d b ≡ copies h d a

-- The way round the table from `i` to `j`.
pub distance : (n i j : ℕ) → i < n → j < n → (t : ℕ) × (t < n) × ((i + t) % n ≡ j)
distance n i j hi hj = elim (Bool-cases (ltb j i)) [
  | inl p ↦ (
    j + n - i,
    ground arith,
    let e : i + (j + n - i) ≡ j + n = ground arith in
        ap (λ m. m % n) e ∙ add-mod_right j n ∙ mod-eq_of_lt hj,
  )
  | inr p ↦ (j - i, ground arith, let e : i + (j - i) ≡ j = ground arith in rw e (mod-eq_of_lt hj))
]

-- While fewer slots are full than there are, every probing path comes to an empty one.
pub free_ahead :
    (es : List HashEntry) (n i : ℕ)
    → length es ≡ n
    → i < n
    → live_count es + tally dead_weight es < n
    → (t : ℕ) × (t < n) × ((slot_at es n i t).item ≡ null)
free_ahead es n i size h room =
    let (j, lt, free) = free_slot es (omega arith) in
    let (t, near, lands) = distance n i j h (omega arith) in (t, near, rw lands free)

module _ (es : List HashEntry) (j : ℕ) (e : HashEntry) (here : j < length es) where
  -- A write of an entry that is not empty empties no slot.
  item-set :
      (p : ℕ)
      → e.item ≢ null
      → (get_or es p blank).item ≢ null
      → (get_or (set es j e) p blank).item ≢ null
  item-set p full old = elim (Bool-cases (j == p)) [
    | inl q ↦ let same : j ≡ p = ground arith in rw (← same, get_or-set_self es j e blank here) full
    | inr q ↦ rw (get_or-set_ne es j p e blank (ground arith)) old
  ]

  pub Arrives-set : (n i p : ℕ) → e.item ≢ null → Arrives es n i p → Arrives (set es j e) n i p
  Arrives-set n i p full a = record {
    steps = a.steps;
    within = a.within;
    lands = a.lands;
    full = λ v lt. item-set ((i + v) % n) full (a.full v lt);
  }

  -- A write keeps the live entries reachable, if what is written is.
  pub IsReachable-set :
      (n : ℕ)
      → e.item ≢ null
      → (is_live e.item ≡ true → Arrives es n (bit_and e.hash_value (n - 1)) j)
      → IsReachable n es
      → IsReachable n (set es j e)
  IsReachable-set n full arrives r p lt live = elim (Bool-cases (j == p)) [
    | inl q ↦
        let same : j ≡ p = ground arith in
        let reads : get_or (set es j e) p blank ≡ e =
          rw (← same) (get_or-set_self es j e blank here) in
        rw (reads, ← same)
          (Arrives-set n (bit_and e.hash_value (n - 1)) j full (arrives (rw reads at live)))
    | inr q ↦
        let reads : get_or (set es j e) p blank ≡ get_or es p blank =
          get_or-set_ne es j p e blank (ground arith) in
        rw reads (
          Arrives-set n (bit_and (get_or es p blank).hash_value (n - 1)) p full
            (r p lt (rw reads at live)))
  ]

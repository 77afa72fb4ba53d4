-- ===== src/Minzip/Hash/Create.antt =====
-- `mzHashTableCreate` and `mzHashTableClear` of minzip/Hash.c: the two ways to an empty table.
use midnight_i9000_recovery.Common.{
  ℕ, zero, suc, ◌*◌, ◌^◌, ◌≤◌, ◌<◌, ◌≡◌, refl, ap, ◌∙◌, Bool, true, false, ◌&&◌, ◌⊎◌, inl, inr,
  none, some, arith, Bool-cases, length, get_or, List, [], ◌∷◌, lt→ltb, replicate, if◌then◌else◌,
}
use midnight_i9000_recovery.Common.Run.{◌>>=◌, Returns}
use midnight_i9000_recovery.Minzip.Hash.{
  HashTable, HashEntry, blank, null, is_live, round_up_power2, mz_hash_table_create,
  mz_hash_table_clear, clear_entries,
}
use midnight_i9000_recovery.Minzip.Hash.Counting.{
  copies, copy_weight, live_weight, dead_weight, tally, tally-replicate, count_tombstones-eq-tally,
}
use midnight_i9000_recovery.Minzip.Hash.Valid.{IsValid}
use midnight_i9000_recovery.Minzip.Hash.Resize.{blank_slots}
use midnight_i9000_recovery.Minzip.Hash.Size.{round_up_power2-least}

-- A table without items.
pub record IsEmpty (t : HashTable) : Type 0 where
  pub valid : IsValid t
  pub count : t.num_entries ≡ 0
  pub holds : (h d : ℕ) → is_live d ≡ true → copies h d t.entries ≡ 0

-- What `mzHashTableCreate` fills in.
abbrev pub new_table : ℕ → Bool → HashTable
new_table size frees = record {
  table_size = size;
  num_entries = 0;
  num_dead_entries = 0;
  entries = replicate size blank;
  has_free_func = frees;
}

pub blank_table :
    (k : ℕ) (frees : Bool)
    → IsEmpty (record {
      table_size = 2 ^ k;
      num_entries = 0;
      num_dead_entries = 0;
      entries = replicate (2 ^ k) blank;
      has_free_func = frees;
    })
blank_table k frees =
    let ready = blank_slots k in
    record {
      valid = record {
        stored = record {
          width = ready.width;
          log_size = k;
          power = refl;
          live = tally-replicate live_weight (2 ^ k) refl;
          dead = count_tombstones-eq-tally (replicate (2 ^ k) blank) ∙ ready.clean;
          reachable = ready.reachable;
        };
        load = omega arith;
      };
      count = refl;
      holds = λ h d q. tally-replicate (copy_weight h d) (2 ^ k) (ground arith);
    }

-- `mzHashTableCreate` returns an empty, valid table of at least the size asked for and less than
-- twice it, if there is memory, and NULL if an allocation fails.
create-IsEmpty :
    (initial_size : ℕ) (frees got_table got_entries : Bool)
    → 0 < initial_size
    → initial_size ≤ 2 ^ 31
    → Returns (mz_hash_table_create initial_size frees got_table got_entries) (λ o.
      ((got_table && got_entries ≡ false) × (o ≡ none))
      ⊎ ((got_table && got_entries ≡ true)
          × ((t : HashTable) × (o ≡ some t)
              × IsEmpty t
              × (initial_size ≤ t.table_size)
              × (t.table_size < 2 * initial_size))))
unfolding mz_hash_table_create
create-IsEmpty initial_size frees got_table got_entries pos small =
    let (k, e, le, lt) = round_up_power2-least initial_size pos small in
    elim (Bool-cases (got_table && got_entries)) [
      | inl got ↦ (
        some (new_table (round_up_power2 initial_size) frees),
        rw (lt→ltb 0 initial_size pos, ◌>>=◌, got) refl,
        inr (
          got,
          (
            new_table (round_up_power2 initial_size) frees,
            refl,
            rw e (blank_table k frees),
            rw e le,
            rw e lt,
          ),
        ),
      )
      | inr fails ↦ (none, rw (lt→ltb 0 initial_size pos, ◌>>=◌, fails) refl, inl (fails, refl))
    ]

-- The live items in the order of the slots.
abbrev pub live_items : List HashEntry → List ℕ
live_items [] = []
live_items (e ∷ es) = if is_live e.item then e.item ∷ live_items es else live_items es

module _ (frees : Bool) where
  cleared : List HashEntry → List HashEntry
  cleared es = (clear_entries frees es).0

  length-cleared : (es : List HashEntry) → length (cleared es) ≡ length es
  unfolding cleared clear_entries
  length-cleared [] = refl
  length-cleared (e ∷ es) = ap suc (length-cleared es)

  items-cleared : (es : List HashEntry) (j : ℕ) → (get_or (cleared es) j blank).item ≡ null
  unfolding cleared clear_entries
  items-cleared [] j = refl
  items-cleared (e ∷ es) zero = refl
  items-cleared (e ∷ es) (suc j) = items-cleared es j

  tally-cleared :
      (weight : HashEntry → ℕ)
      → ((e : HashEntry) → e.item ≡ null → weight e ≡ 0)
      → (es : List HashEntry) → tally weight (cleared es) ≡ 0
  unfolding cleared clear_entries tally
  tally-cleared weight light [] = refl
  tally-cleared weight light (e ∷ es) =
      omega (arith, light (record e { item = null }) refl, tally-cleared weight light es)

  freed-cleared :
      (es : List HashEntry) → (clear_entries frees es).1 ≡ (if frees then live_items es else [])
  unfolding clear_entries
  freed-cleared [] = ground arith
  freed-cleared (e ∷ es) = ground (arith, freed-cleared es)

-- `mzHashTableClear` leaves a valid, empty table of the same size, and gives each live item to
-- `freeFunc` once, in the order of the slots, if there is a `freeFunc`.
pub clear-IsEmpty :
    (t : HashTable)
    → IsValid t
    → let (t', freed) = mz_hash_table_clear t in
      IsEmpty t'
      × (t'.table_size ≡ t.table_size)
      × (freed ≡ (if t.has_free_func then live_items t.entries else []))
unfolding mz_hash_table_clear cleared
clear-IsEmpty t v =
    let f = t.has_free_func in
    (
      record {
        valid = record {
          stored = record {
            width = length-cleared f t.entries ∙ v.stored.width;
            log_size = v.stored.log_size;
            power = v.stored.power;
            live = tally-cleared f live_weight (λ e n. ground arith) t.entries;
            dead =
                count_tombstones-eq-tally (cleared f t.entries)
                ∙ tally-cleared f dead_weight (λ e n. ground arith) t.entries;
            reachable = λ j lt live. absurd (ground (arith, items-cleared f t.entries j));
          };
          load = omega arith;
        };
        count = refl;
        holds = λ h d q. tally-cleared f (copy_weight h d) (λ e n. ground arith) t.entries;
      },
      refl,
      freed-cleared f t.entries,
    )

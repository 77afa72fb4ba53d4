-- ===== src/Minzip/Hash/Probe.antt =====
-- The probing loops of minzip/Hash.c: where they go and where they end.
use native.Mathlib.Nat.{mod-eq_of_lt, mod_self, add-mod_left, add-zero}
use midnight_i9000_recovery.Common.{
  ℕ, zero, suc, ◌+◌, ◌-◌, ◌%◌, ◌^◌, ◌≤◌, ◌<◌, ◌≡◌, refl, ap, ◌≢◌, ◌⊎◌, inl, inr, Bool, ◌&&◌, true,
  false, List, length, get_or, ◌==◌, Bool-cases, lt→ltb, arith, bit_and,
}
use midnight_i9000_recovery.Common.Run.{ok, ◌>>=◌, Returns}
use midnight_i9000_recovery.Common.Bits.{bit_and-mask}
use midnight_i9000_recovery.Minzip.Hash.{
  HashEntry, blank, null, next_index, entry_at, probe, probe_free, Stop, hit, hole,
}

-- The slot at distance `u` from `i` round a table of `n` slots.
abbrev pub slot_at : List HashEntry → ℕ → ℕ → ℕ → HashEntry
slot_at es n i u = get_or es ((i + u) % n) blank

pub entry_at-ok :
    (es : List HashEntry) (i : ℕ) → i < length es → entry_at es i ≡ ok (get_or es i blank)
unfolding entry_at
entry_at-ok es i h = rw (lt→ltb i (length es) h)

-- One step round the table, then `u` more, is `u + 1` steps.
pub next_index-add : (n i u : ℕ) → i < n → (next_index n i + u) % n ≡ (i + suc u) % n
next_index-add n i u h = elim (Bool-cases (i + 1 == n)) [
  | inl e ↦ ground (arith, add-mod_left n u)
  | inr e ↦ rw e (ap (λ m. m % n) (omega arith))
]

pub next_index-lt : (n i : ℕ) → i < n → next_index n i < n
next_index-lt n i h = ground arith

-- With a mask of ones the step of the loop in `resizeHash` is the same step.
pub mask-next_index : (k i : ℕ) → i < 2 ^ k → bit_and (i + 1) (2 ^ k - 1) ≡ next_index (2 ^ k) i
mask-next_index k i h = elim (Bool-cases (i + 1 == 2 ^ k)) [
  | inl e ↦ ground (arith, bit_and-mask k (i + 1), mod_self (2 ^ k))
  | inr e ↦ rw (e, bit_and-mask k (i + 1)) (mod-eq_of_lt (ground arith))
]

module _ (es : List HashEntry) (n : ℕ) (wanted : HashEntry → Bool) where
  -- The first `u` slots from `i` on are neither empty nor what the caller looks for.
  abbrev pub Passed : ℕ → ℕ → Type 0
  Passed i u =
      (v : ℕ) → v < u → ((slot_at es n i v).item ≢ null) × (wanted (slot_at es n i v) ≡ false)

  -- The loop from `i` on ends after at most `t` steps, at the first slot that ends it.
  pub record Ended (i count t : ℕ) (stop : Stop) : Type 0 where
    pub steps : ℕ
    pub within : steps ≤ t
    pub passed : Passed i steps
    pub ending :
        ((stop ≡ hole ((i + steps) % n) (count + steps)) × ((slot_at es n i steps).item ≡ null))
        ⊎ ((stop ≡ hit ((i + steps) % n) (count + steps))
            × ((slot_at es n i steps).item ≢ null)
            × (wanted (slot_at es n i steps) ≡ true))

  slot-zero : (i : ℕ) → i < n → slot_at es n i 0 ≡ get_or es i blank
  slot-zero i h = ap (λ j. get_or es j blank) (rw (add-zero, mod-eq_of_lt h))

  slot-next : (i u : ℕ) → i < n → slot_at es n (next_index n i) u ≡ slot_at es n i (suc u)
  slot-next i u h = ap (λ j. get_or es j blank) (next_index-add n i u h)

  Passed-suc :
      (i u : ℕ)
      → i < n
      → (get_or es i blank).item ≢ null
      → wanted (get_or es i blank) ≡ false
      → Passed (next_index n i) u
      → Passed i (suc u)
  Passed-suc i u h full other p zero lt = rw (slot-zero i h) (full, other)
  Passed-suc i u h full other p (suc v) lt = rw (← slot-next i v h) (p v (omega arith))

  Ended-suc :
      (i count t : ℕ) (stop : Stop)
      → i < n
      → (get_or es i blank).item ≢ null
      → wanted (get_or es i blank) ≡ false
      → Ended (next_index n i) (count + 1) t stop
      → Ended i count (suc t) stop
  Ended-suc i count t stop h full other r = record {
    steps = suc r.steps;
    within = omega (arith, r.within);
    passed = Passed-suc i r.steps h full other r.passed;
    ending =
        let e : count + 1 + r.steps ≡ count + suc r.steps = omega arith in
        rw (next_index-add n i r.steps h, e) at r.ending;
  }

  Ended-empty :
      (i count t : ℕ)
      → i < n
      → ((get_or es i blank).item == null) ≡ true
      → Ended i count t (hole i count)
  Ended-empty i count t h e = record {
    steps = 0;
    within = omega arith;
    passed = λ v lt. absurd (omega arith);
    ending = simp (add-zero, mod-eq_of_lt h) (inl (refl, ground arith));
  }

  Ended-wanted :
      (i count t : ℕ)
      → i < n
      → ((get_or es i blank).item == null) ≡ false
      → wanted (get_or es i blank) ≡ true
      → Ended i count t (hit i count)
  Ended-wanted i count t h full e = record {
    steps = 0;
    within = omega arith;
    passed = λ v lt. absurd (omega arith);
    ending = simp (add-zero, mod-eq_of_lt h) (inr (refl, ground arith, e));
  }

  empty_here :
      (i : ℕ) → i < n → (slot_at es n i 0).item ≡ null → ((get_or es i blank).item == null) ≡ true
  empty_here i h free = ground (arith, slot-zero i h)

  -- A table of one entry has no second slot that could be empty.
  many :
      (i t : ℕ)
      → i < n
      → (slot_at es n i (suc t)).item ≡ null
      → ((get_or es i blank).item == null) ≡ false
      → ((i + 1 == n) && (n == 1)) ≡ false
  many i t h free full = elim (Bool-cases (n == 1)) [
    | inl one ↦
        let only : n ≡ 1 = ground arith in
        let back : (i + suc t) % n ≡ i = rw only (omega arith) in
        let empty : (get_or es i blank).item ≡ null = rw back at free in ground arith
    | inr e ↦ rw e (ground arith)
  ]

  pub probe-Ended :
      (fuel i count t : ℕ)
      → length es ≡ n
      → i < n
      → (slot_at es n i t).item ≡ null
      → t < fuel
      → Returns (probe es n wanted fuel i count) (Ended i count t)
  unfolding probe
  probe-Ended zero i count t size h free lt = absurd (omega arith)
  probe-Ended (suc fuel) i count zero size h free lt = (
    hole i count,
    rw (entry_at-ok es i (omega arith), ◌>>=◌, empty_here i h free),
    Ended-empty i count 0 h (empty_here i h free),
  )
  probe-Ended (suc fuel) i count (suc t) size h free lt =
      let here : HashEntry = get_or es i blank in
      elim (Bool-cases (here.item == null)) [
        | inl e ↦ (
          hole i count,
          rw (entry_at-ok es i (omega arith), ◌>>=◌, e),
          Ended-empty i count (suc t) h e,
        )
        | inr full ↦ elim (Bool-cases (wanted here)) [
          | inl e ↦ (
            hit i count,
            rw (entry_at-ok es i (omega arith), ◌>>=◌, full, e),
            Ended-wanted i count (suc t) h full e,
          )
          | inr e ↦
              let (stop, run, r) =
                probe-Ended fuel (next_index n i) (count + 1) t size (next_index-lt n i h)
                  (rw (slot-next i t h) free) (omega arith) in
              (
                stop,
                rw (entry_at-ok es i (omega arith), ◌>>=◌, full, e, many i t h free full) run,
                Ended-suc i count t stop h (ground arith) e r,
              )
        ]
      ]

-- The loop of `resizeHash` is a probing loop that looks for nothing: it ends at an empty slot.
pub probe_free-eq-probe :
    (k : ℕ) (es : List HashEntry) (fuel i count j steps : ℕ)
    → length es ≡ 2 ^ k
    → i < 2 ^ k
    → probe es (2 ^ k) (λ _. false) fuel i count ≡ ok (hole j steps)
    → probe_free es (2 ^ k) fuel i ≡ ok j
unfolding probe probe_free
probe_free-eq-probe k es zero i count j steps size h run = cc
probe_free-eq-probe k es (suc fuel) i count j steps size h run =
    rw (entry_at-ok es i (omega arith), mask-next_index k i h)
      (ground (
        arith,
        entry_at-ok es i,
        probe_free-eq-probe k es fuel (next_index (2 ^ k) i) (count + 1) j steps size
            (next_index-lt (2 ^ k) i h),
      ))

-- ===== src/Minzip/Hash/Counting.antt =====
-- Sums over the slots of the table of minzip/Hash.c: how many are live, are tombstones, or hold a given item.
use midnight_i9000_recovery.Common.{
  ℕ, zero, suc, ◌+◌, ◌≤◌, ◌<◌, ◌≡◌, refl, inl, inr, Bool, true, false, ◌&&◌, List, [], ◌∷◌, length,
  get_or, set, replicate, ltb, ◌==◌, Bool-cases, arith,
}
use midnight_i9000_recovery.Minzip.Hash.{
  HashEntry, blank, null, hash_tombstone, is_live, count_tombstones,
}

abbrev pub one_if : Bool → ℕ
one_if true = 1
one_if false = 0

unfoldable pub tally : (HashEntry → ℕ) → List HashEntry → ℕ
tally weight [] = 0
tally weight (e ∷ es) = weight e + tally weight es

abbrev pub live_weight : HashEntry → ℕ
live_weight e = one_if (is_live e.item)

abbrev pub dead_weight : HashEntry → ℕ
dead_weight e = one_if (e.item == hash_tombstone)

abbrev pub copy_weight : ℕ → ℕ → HashEntry → ℕ
copy_weight h d e = one_if ((e.hash_value == h) && (e.item == d))

-- How many slots hold the item `d` under the hash `h`: the table as a bag of pairs.
abbrev pub copies : ℕ → ℕ → List HashEntry → ℕ
copies h d = tally (copy_weight h d)

abbrev pub live_count : List HashEntry → ℕ
live_count = tally live_weight

pub tally-set :
    (weight : HashEntry → ℕ) (es : List HashEntry) (i : ℕ) (e : HashEntry)
    → i < length es
    → tally weight (set es i e) + weight (get_or es i blank) ≡ tally weight es + weight e
unfolding tally
tally-set weight [] i e h = absurd (omega arith)
tally-set weight (x ∷ es) zero e h = omega arith
tally-set weight (x ∷ es) (suc i) e h = omega (arith, tally-set weight es i e (omega arith))

pub count_tombstones-eq-tally : (es : List HashEntry) → count_tombstones es ≡ tally dead_weight es
unfolding count_tombstones tally
count_tombstones-eq-tally [] = refl
count_tombstones-eq-tally (e ∷ es) = ground (arith, count_tombstones-eq-tally es)

pub tally-replicate :
    (weight : HashEntry → ℕ) (n : ℕ) → weight blank ≡ 0 → tally weight (replicate n blank) ≡ 0
unfolding tally
tally-replicate weight zero e = refl
tally-replicate weight (suc n) e = omega (arith, tally-replicate weight n e)

-- A slot that a positive sum counts, and one that the sum of the full slots leaves out.
pub tally-pos :
    (weight : HashEntry → ℕ) (es : List HashEntry)
    → 0 < tally weight es
    → (i : ℕ) × (i < length es) × (0 < weight (get_or es i blank))
unfolding tally
tally-pos weight [] h = absurd (omega arith)
tally-pos weight (e ∷ es) h = elim (Bool-cases (ltb 0 (weight e))) [
  | inl p ↦ (0, omega arith, ground arith)
  | inr p ↦ let (i, lt, q) = tally-pos weight es (ground arith) in (suc i, omega arith, q)
]

pub tally_of_slot :
    (weight : HashEntry → ℕ) (es : List HashEntry) (i : ℕ)
    → i < length es
    → weight (get_or es i blank) ≤ tally weight es
unfolding tally
tally_of_slot weight [] i h = absurd (omega arith)
tally_of_slot weight (e ∷ es) zero h = omega arith
tally_of_slot weight (e ∷ es) (suc i) h = omega (arith, tally_of_slot weight es i (omega arith))

pub free_slot :
    (es : List HashEntry)
    → live_count es + tally dead_weight es < length es
    → (i : ℕ) × (i < length es) × ((get_or es i blank).item ≡ null)
unfolding tally
free_slot [] h = absurd (omega arith)
free_slot (e ∷ es) h = elim (Bool-cases (e.item == null)) [
  | inl p ↦ (0, omega arith, ground arith)
  | inr p ↦
      let full : 1 ≤ live_weight e + dead_weight e = ground arith in
      let (i, lt, q) = free_slot es (omega arith) in (suc i, omega arith, q)
]

-- ===== src/Minzip/Zip/Names.antt =====
-- The order of names in minzip/Zip.c.
use midnight_i9000_recovery.Minzip.Zip.{
  Order, less, equal, greater, strncmp, by_length, compare_names,
}
use midnight_i9000_recovery.Common.{
  ℕ, suc, ◌<◌, ◌≡◌, refl, ap, ◌⊎◌, inl, inr, Bool, true, false, [], ◌∷◌, length, ltb, arith,
  if◌then◌else◌,
}
use midnight_i9000_recovery.Common.Text.{Bytes}
use mathlib.Core.Path.{subst}

-- The order of the dictionary.
abbrev pub Before : Bytes → Bytes → Type 0
Before a [] = ⊥
Before [] (y ∷ ys) = Unit
Before (x ∷ xs) (y ∷ ys) = (x < y) ⊎ ((x ≡ y) × Before xs ys)

abbrev pub NotAfter : Bytes → Bytes → Type 0
NotAfter a b = Before a b ⊎ (a ≡ b)

abbrev pub Compared : Bytes → Bytes → Order → Type 0
Compared a b less = Before a b
Compared a b equal = a ≡ b
Compared a b greater = Before b a

Before-trans : (a b c : Bytes) → Before a b → Before b c → Before a c
Before-trans a b [] h k = absurd k
Before-trans [] b (z ∷ zs) h k = tt
Before-trans (x ∷ xs) [] (z ∷ zs) h k = absurd h
Before-trans (x ∷ xs) (y ∷ ys) (z ∷ zs) (inl h) (inl k) = inl (omega arith)
Before-trans (x ∷ xs) (y ∷ ys) (z ∷ zs) (inl h) (inr (e, k)) = inl (omega arith)
Before-trans (x ∷ xs) (y ∷ ys) (z ∷ zs) (inr (e, h)) (inl k) = inl (omega arith)
Before-trans (x ∷ xs) (y ∷ ys) (z ∷ zs) (inr (e, h)) (inr (e', k)) =
    inr (omega arith, Before-trans xs ys zs h k)

pub NotAfter-trans : (a b c : Bytes) → NotAfter a b → NotAfter b c → NotAfter a c
NotAfter-trans a b c (inl h) (inl k) = inl (Before-trans a b c h k)
NotAfter-trans a b c (inl h) (inr e) = inl (subst (Before a) e h)
NotAfter-trans a b c (inr e) k = rw e k

-- The comparison of the common part, and then of the lengths.
abbrev steps : ℕ → Bytes → Bytes → Order
steps n a b = by_length (length a) (length b) (strncmp n a b)

abbrev shorter : ℕ → ℕ → ℕ
shorter m n = if ltb m n then m else n

Compared-cons :
    (x : ℕ) (xs ys : Bytes) (r : Order)
    → Compared xs ys (by_length (length xs) (length ys) r)
    → Compared (x ∷ xs) (x ∷ ys) (by_length (length (x ∷ xs)) (length (x ∷ ys)) r)
Compared-cons x xs ys less h = inr (refl, h)
Compared-cons x xs ys greater h = inr (refl, h)
Compared-cons x xs ys equal h =
    of_tests (ltb (length xs) (length ys)) (ltb (length ys) (length xs)) refl refl h
  where
    of_tests :
        (p q : Bool)
        → ltb (length xs) (length ys) ≡ p
        → ltb (length ys) (length xs) ≡ q
        → Compared xs ys (if p then less else if q then greater else equal)
        → Compared (x ∷ xs) (x ∷ ys) (by_length (suc (length xs)) (suc (length ys)) equal)
    of_tests true q e e' h =
        let s : ltb (suc (length xs)) (suc (length ys)) ≡ true = ground arith in
        rw s (inr (refl, h))
    of_tests false true e e' h =
        let s : ltb (suc (length xs)) (suc (length ys)) ≡ false = ground arith in
        let t : ltb (suc (length ys)) (suc (length xs)) ≡ true = ground arith in
        rw (s, t) (inr (refl, h))
    of_tests false false e e' h =
        let s : ltb (suc (length xs)) (suc (length ys)) ≡ false = ground arith in
        let t : ltb (suc (length ys)) (suc (length xs)) ≡ false = ground arith in
        rw (s, t) (ap (λ zs. x ∷ zs) h)

steps-Compared : (a b : Bytes) → Compared a b (steps (shorter (length a) (length b)) a b)
steps-Compared [] [] = refl
steps-Compared [] (y ∷ ys) = let s : ltb 0 (suc (length ys)) ≡ true = ground arith in rw s (rw s tt)
steps-Compared (x ∷ xs) [] =
    let s : ltb (suc (length xs)) 0 ≡ false = ground arith in
    let t : ltb 0 (suc (length xs)) ≡ true = ground arith in rw s (rw (s, t) tt)
steps-Compared (x ∷ xs) (y ∷ ys) =
    let next = steps-Compared xs ys in
    let e : shorter (length (x ∷ xs)) (length (y ∷ ys)) ≡ suc (shorter (length xs) (length ys)) =
      ground arith in
    rw e (of_tests (ltb x y) (ltb y x) refl refl next)
  where
    of_tests :
        (p q : Bool)
        → ltb x y ≡ p
        → ltb y x ≡ q
        → Compared xs ys (steps (shorter (length xs) (length ys)) xs ys)
        → Compared (x ∷ xs) (y ∷ ys) (
            by_length (length (x ∷ xs)) (length (y ∷ ys)) (
              if p
              then less
              else if q
              then greater
              else strncmp (shorter (length xs) (length ys)) xs ys))
    of_tests true q e e' h = inl (ground arith)
    of_tests false true e e' h = inl (ground arith)
    of_tests false false e e' h =
        let same : x ≡ y = ground arith in
        subst
          (λ z. Compared (x ∷ xs) (z ∷ ys) (
            by_length (length (x ∷ xs)) (length (z ∷ ys))
              (strncmp (shorter (length xs) (length ys)) xs ys)))
          same (Compared-cons x xs ys (strncmp (shorter (length xs) (length ys)) xs ys) h)

-- The comparison is by the order of the dictionary.
pub compare_names-Compared : (a b : Bytes) → Compared a b (compare_names a b)
compare_names-Compared a b = steps-Compared a b

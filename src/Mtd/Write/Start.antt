-- ===== src/Mtd/Write/Start.antt =====
-- mtd_find_write_start of mtdutils/mtdutils.c.
use midnight_i9000_recovery.Common.{
  ℕ, suc, ◌+◌, ◌≤◌, ◌<◌, ◌≡◌, ◌≢◌, refl, List, [], ◌∷◌, arith, inl, inr, ◌⊎◌,
}
use mathlib.Core.Path.{subst, sym}
use midnight_i9000_recovery.Mtd.Write.{WriteContext, skip_bad_blocks, mtd_find_write_start}
use midnight_i9000_recovery.Mtd.Write.Block.{offsets, behind}

-- The bad blocks stand in the order of their offsets.
abbrev pub Increasing : List ℕ → Type 0
Increasing [] = Unit
Increasing (x ∷ []) = Unit
Increasing (x ∷ y ∷ xs) = (x < y) × Increasing (y ∷ xs)

abbrev pub NotIn : ℕ → List ℕ → Type 0
NotIn p [] = Unit
NotIn p (x ∷ xs) = (p ≢ x) × NotIn p xs

abbrev pub In : ℕ → List ℕ → Type 0
In p [] = ⊥
In p (x ∷ xs) = (p ≡ x) ⊎ In p xs

abbrev pub AllIn : List ℕ → List ℕ → Type 0
AllIn [] bad = Unit
AllIn (p ∷ ps) bad = In p bad × AllIn ps bad

AllIn-cons : (x : ℕ) (ps bad : List ℕ) → AllIn ps bad → AllIn ps (x ∷ bad)
AllIn-cons x [] bad h = tt
AllIn-cons x (p ∷ ps) bad (here, rest) = (inr here, AllIn-cons x ps bad rest)

below-NotIn : (p x : ℕ) (xs : List ℕ) → Increasing (x ∷ xs) → p < x → NotIn p (x ∷ xs)
below-NotIn p x [] inc h = (omega arith, tt)
below-NotIn p x (y ∷ ys) (less, inc) h = (omega arith, below-NotIn p y ys inc (omega arith))

Increasing-tail : (x : ℕ) (xs : List ℕ) → Increasing (x ∷ xs) → Increasing xs
Increasing-tail x [] inc = tt
Increasing-tail x (y ∷ ys) (less, inc) = inc

-- `q` is the first good block at or after `p`: no bad one, and all from `p` up to it are bad.
abbrev pub FirstGood : ℕ → List ℕ → ℕ → ℕ → Type 0
FirstGood size bad p q =
    NotIn q bad × (p ≤ q) × (n : ℕ) × (q ≡ behind size p n) × AllIn (offsets size p n) bad

skip-cases :
    (size x : ℕ) (xs : List ℕ) (p : ℕ)
    → ((x ≡ p) × (skip_bad_blocks size (x ∷ xs) p ≡ skip_bad_blocks size xs (p + size)))
      ⊎ (((p < x) × (skip_bad_blocks size (x ∷ xs) p ≡ p))
          ⊎ ((x < p) × (skip_bad_blocks size (x ∷ xs) p ≡ skip_bad_blocks size xs p)))
unfolding skip_bad_blocks
skip-cases size x xs p = ground arith

skip-nil : (size p : ℕ) → skip_bad_blocks size [] p ≡ p
unfolding skip_bad_blocks
skip-nil size p = refl

skip-FirstGood :
    (size : ℕ) (bad : List ℕ) (p : ℕ)
    → 0 < size
    → Increasing bad
    → FirstGood size bad p (skip_bad_blocks size bad p)
skip-FirstGood size [] p positive inc = rw skip-nil (tt, omega arith, 0, refl, tt)
skip-FirstGood size (x ∷ xs) p positive inc =
    let tail = Increasing-tail x xs inc in
    elim (skip-cases size x xs p) [
      | inl (same, e) ↦
          let (out, later, n, there, all) = skip-FirstGood size xs (p + size) positive tail in
          subst (FirstGood size (x ∷ xs) p) (sym e) (
            (omega arith, out),
            omega arith,
            suc n,
            there,
            (inl (omega arith), AllIn-cons x (offsets size (p + size) n) xs all),
          )
      | inr (inl (less, e)) ↦
          subst (FirstGood size (x ∷ xs) p) (sym e)
            (below-NotIn p x xs inc less, omega arith, 0, refl, tt)
      | inr (inr (less, e)) ↦
          let (out, later, n, there, all) = skip-FirstGood size xs p positive tail in
          subst (FirstGood size (x ∷ xs) p) (sym e)
            ((omega arith, out), later, n, there, AllIn-cons x (offsets size p n) xs all)
    ]

-- mtd_find_write_start returns the first good block at or after the offset, where the bad blocks are
-- noted in their order.
pub mtd_find_write_start-FirstGood :
    {D : Type 0} (ctx : WriteContext D) (p : ℕ)
    → 0 < ctx.partition.erase_size
    → Increasing ctx.bad_block_offsets
    → FirstGood ctx.partition.erase_size ctx.bad_block_offsets p (mtd_find_write_start ctx p)
unfolding mtd_find_write_start
mtd_find_write_start-FirstGood ctx p positive inc =
    skip-FirstGood ctx.partition.erase_size ctx.bad_block_offsets p positive inc

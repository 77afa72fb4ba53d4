-- ===== src/Common/Bits.antt =====
-- Bitwise laws at variables: the recursion on the lowest digit, `&` with a mask of ones, and bounds
-- for `|`.
use Prim.Native.Nat.{
  ℕ, zero, suc, ◌+◌, ◌-◌, ◌*◌, ◌/◌, ◌%◌, ◌^◌, ◌≤◌, ◌<◌, min, max, bit_and, bit_or, digits, bitwise,
  bit_and-bitwise, bit_or-bitwise,
}
use mathlib.Core.Path.{◌≡◌, refl, ap, ◌∙◌}
use native.Mathlib.Nat.{
  pow-suc, one-le-pow, div-add-mod, mod-lt, mod-eq_of_lt, mul-add-mod_self_left,
}
use native.Mathlib.Omega.{arith}

-- Any fuel that covers the first argument gives the same digits.
enough_digits :
    (unit : ℕ → ℕ) (op : ℕ → ℕ → ℕ) (f g x y : ℕ)
    → x ≤ f
    → x ≤ g
    → digits unit op f x y ≡ digits unit op g x y
enough_digits unit op zero zero x y hf hg = refl
enough_digits unit op zero (suc g) zero y hf hg = refl
enough_digits unit op zero (suc g) (suc x) y hf hg = absurd (omega arith)
enough_digits unit op (suc f) zero zero y hf hg = refl
enough_digits unit op (suc f) zero (suc x) y hf hg = absurd (omega arith)
enough_digits unit op (suc f) (suc g) zero y hf hg = refl
enough_digits unit op (suc f) (suc g) (suc x) y hf hg =
    rw (enough_digits unit op f g (suc x / 2) (y / 2) (omega arith) (omega arith))

bitwise-digit :
    (unit : ℕ → ℕ) (op : ℕ → ℕ → ℕ) (x y : ℕ)
    → bitwise unit op (suc x) y ≡ bitwise unit op (suc x / 2) (y / 2) * 2 + op (suc x % 2) (y % 2)
bitwise-digit unit op x y =
    omega
      (arith, enough_digits unit op x (suc x / 2) (suc x / 2) (y / 2) (omega arith) (omega arith))

pub bit_and-digit : (x y : ℕ) → bit_and x y ≡ bit_and (x / 2) (y / 2) * 2 + min (x % 2) (y % 2)
bit_and-digit zero y = simp bit_and-bitwise (omega arith)
bit_and-digit (suc x) y = simp bit_and-bitwise (bitwise-digit (λ _. 0) min x y)

pub bit_or-digit : (x y : ℕ) → bit_or x y ≡ bit_or (x / 2) (y / 2) * 2 + max (x % 2) (y % 2)
bit_or-digit zero y = simp bit_or-bitwise (omega arith)
bit_or-digit (suc x) y = simp bit_or-bitwise (bitwise-digit (λ d. d) max x y)

bit_and-zero_fuel : (f x : ℕ) → x ≤ f → bit_and x 0 ≡ 0
bit_and-zero_fuel zero x h = let e : x ≡ 0 = omega arith in rw e refl
bit_and-zero_fuel (suc f) zero h = refl
bit_and-zero_fuel (suc f) (suc x) h =
    omega (arith, bit_and-digit (suc x) 0, bit_and-zero_fuel f (suc x / 2) (omega arith))

-- A remainder by an even number, digit first.
mod-double : (p y : ℕ) → 0 < p → y % (2 * p) ≡ y / 2 % p * 2 + y % 2
mod-double p y h =
    let split : y ≡ 2 * p * (y / 2 / p) + (y / 2 % p * 2 + y % 2) =
      omega (arith, div-add-mod (y / 2) p) in
    let low : y / 2 % p < p = mod-lt (y / 2) h in
    ap (λ n. n % (2 * p)) split
    ∙ mul-add-mod_self_left (2 * p) (y / 2 / p) (y / 2 % p * 2 + y % 2)
    ∙ mod-eq_of_lt (omega arith)

-- `x & (2 ^ k - 1)` is the remainder by `2 ^ k`.
pub bit_and-mask : (k x : ℕ) → bit_and x (2 ^ k - 1) ≡ x % 2 ^ k
bit_and-mask zero x = omega (arith, bit_and-zero_fuel x x (omega arith))
bit_and-mask (suc k) x =
    let p : 1 ≤ 2 ^ k = one-le-pow k 2 (omega arith) in
    let double : 2 ^ suc k ≡ 2 * 2 ^ k = omega (arith, pow-suc 2 k) in
    let halves : (2 * 2 ^ k - 1) / 2 ≡ 2 ^ k - 1 = omega arith in
    bit_and-digit x (2 ^ suc k - 1)
    ∙ rw (double, halves, bit_and-mask k (x / 2), mod-double (2 ^ k) x p) (omega arith)

-- `|` of numbers below a power of two stays below it, and is at least either.
pub bit_or-bounds :
    (k x y : ℕ) → x < 2 ^ k → y < 2 ^ k → (bit_or x y < 2 ^ k) × (x ≤ bit_or x y) × (y ≤ bit_or x y)
bit_or-bounds zero x y hx hy =
    let ex : x ≡ 0 = omega arith in let ey : y ≡ 0 = omega arith in rw (ex, ey) (omega arith)
bit_or-bounds (suc k) x y hx hy = omega (
  arith,
  pow-suc 2 k,
  bit_or-digit x y,
  bit_or-bounds k (x / 2) (y / 2) (omega (arith, pow-suc 2 k)) (omega (arith, pow-suc 2 k)),
)

bit_or-zero_fuel : (f x : ℕ) → x ≤ f → bit_or x 0 ≡ x
bit_or-zero_fuel zero x h = let e : x ≡ 0 = omega arith in rw e refl
bit_or-zero_fuel (suc f) zero h = refl
bit_or-zero_fuel (suc f) (suc x) h =
    omega (arith, bit_or-digit (suc x) 0, bit_or-zero_fuel f (suc x / 2) (omega arith))

-- The digits of the left side from place `k` on stay where the right side has none.
pub bit_or-high :
    (k q x y : ℕ) → x < 2 ^ k → y < 2 ^ k → bit_or (q * 2 ^ k + x) y ≡ q * 2 ^ k + bit_or x y
bit_or-high zero q x y hx hy =
    let ex : x ≡ 0 = omega arith in
    let ey : y ≡ 0 = omega arith in
    rw (ex, ey) (omega (arith, bit_or-zero_fuel (q * 1 + 0) (q * 1 + 0) (omega arith)))
bit_or-high (suc k) q x y hx hy =
    let double : q * 2 ^ suc k ≡ 2 * (q * 2 ^ k) =
      omega (arith, ap (λ (t : ℕ). q * t) (pow-suc 2 k)) in
    let half : (q * 2 ^ suc k + x) / 2 ≡ q * 2 ^ k + x / 2 = omega arith in
    bit_or-digit (q * 2 ^ suc k + x) y
    ∙ rw
        (
          half,
          bit_or-high k q (x / 2) (y / 2) (omega (arith, pow-suc 2 k)) (omega (arith, pow-suc 2 k)),
        )
        (omega (arith, bit_or-digit x y))

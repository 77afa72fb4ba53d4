-- ===== src/Minzip/Hash/Size.antt =====
-- The sizes of the table of minzip/Hash.c: `roundUpPower2` and `mzHashSize`.
use native.Mathlib.Nat.{
  one-le-pow, pow-suc, le-div_iff_mul-le, div-lt_iff_lt-mul, div-add-mod', mod-lt, div-le_self,
  add-zero, pow-le-pow_right,
}
use native.Mathlib.Decide.{dec_le}
use midnight_i9000_recovery.Common.{
  ℕ, zero, suc, ◌+◌, ◌-◌, ◌*◌, ◌/◌, ◌%◌, ◌^◌, ◌≤◌, ◌<◌, ◌≡◌, ap, sym, ◌∙◌, bit_or, arith,
}
use midnight_i9000_recovery.Common.Bits.{bit_or-bounds, bit_or-high}
use midnight_i9000_recovery.Minzip.Hash.{smear, round_up_power2}

pow-add : (j m : ℕ) → 2 ^ (j + m) ≡ 2 ^ j * 2 ^ m
pow-add j zero = rw (add-zero) (omega arith)
pow-add j (suc m) =
    let e : j + suc m ≡ suc (j + m) = omega arith in
    rw e (
      omega (
        arith,
        pow-suc 2 (j + m),
        ap (λ (t : ℕ). t * 2) (pow-add j m),
        pow-suc 2 m,
        ap (λ (t : ℕ). 2 ^ j * t) (pow-suc 2 m),
      ))

-- The `k`-bit number `x` has ones in its top `m` places.
record HasTop (k m x : ℕ) : Type 0 where
  below : x < 2 ^ k
  ones : 2 ^ k ≤ x + 2 ^ (k - m)

-- Over plain numbers `p`, `w` and `q` for the powers: the quotient by `p` of a number with ones on
-- top, and how large its shift is.
top_quotient : (p w x : ℕ) → 1 ≤ p → 1 ≤ w → x < p * w → p * w ≤ x + p → x / p * p + p ≡ p * w
top_quotient p w x hp hw hi lo =
    let split : (w - 1) * p + p ≡ p * w =
      omega (arith, ap (λ (t : ℕ). t * p) (let e : w - 1 + 1 ≡ w = omega arith in e)) in
    let at_least : w - 1 ≤ x / p = (le-div_iff_mul-le hp).1 (omega arith) in
    let below : x / p < w = (div-lt_iff_lt-mul hp).1 (omega arith) in
    let exactly : x / p ≡ w - 1 = omega arith in rw exactly split

shift_large : (p w q x : ℕ) → 1 ≤ w → p ≤ q * w → p * w ≤ x + p → p ≤ x / w + q
shift_large p w q x hw fits lo = elim (dec_le p q) [
  | yes small ↦ omega arith
  | no large ↦
      let split : (p - q) * w + q * w ≡ p * w =
        omega (arith, ap (λ (t : ℕ). t * w) (let e : p - q + q ≡ p = omega arith in e)) in
      let at_least : p - q ≤ x / w = (le-div_iff_mul-le hw).1 (omega arith) in omega arith
]

-- One step where the run of ones does not fill the number yet.
smear_long :
    (j m x : ℕ)
    → x < 2 ^ (j + m)
    → 2 ^ (j + m) ≤ x + 2 ^ j
    → (smear m x < 2 ^ (j + m)) × (2 ^ (j + m) ≤ smear m x + 2 ^ (j - m))
unfolding smear
smear_long j m x hi lo =
    let p = 2 ^ j in
    let w = 2 ^ m in
    let total : 2 ^ (j + m) ≡ p * w = pow-add j m in
    let hp : 1 ≤ p = one-le-pow j 2 (omega arith) in
    let hw : 1 ≤ w = one-le-pow m 2 (omega arith) in
    let fits : p ≤ 2 ^ (j - m) * w =
      rw (← pow-add (j - m) m) (pow-le-pow_right (omega arith) (omega arith)) in
    let low : x % p < p = mod-lt x hp in
    let shifted : x / w < p = (div-lt_iff_lt-mul hw).1 (omega arith) in
    let split : bit_or x (x / w) ≡ x / p * p + bit_or (x % p) (x / w) =
      ap (λ (t : ℕ). bit_or t (x / w)) (sym (div-add-mod' x p))
      ∙ bit_or-high j (x / p) (x % p) (x / w) low shifted in
    omega (
      arith,
      split,
      bit_or-bounds j (x % p) (x / w) low shifted,
      top_quotient p w x hp hw (omega arith) (omega arith),
      shift_large p w (2 ^ (j - m)) x hw fits (omega arith),
    )

smear_full : (k m x : ℕ) → x < 2 ^ k → 2 ^ k ≤ x + 1 → (smear m x < 2 ^ k) × (2 ^ k ≤ smear m x + 1)
unfolding smear
smear_full k m x below full =
    let shifted : x / 2 ^ m < 2 ^ k = omega (arith, div-le_self x (2 ^ m)) in
    omega (arith, bit_or-bounds k x (x / 2 ^ m) below shifted)

smear-HasTop : (k m x : ℕ) → HasTop k m x → HasTop k (m + m) (smear m x)
smear-HasTop k m x t = elim (dec_le k m) [
  | yes short ↦
      let now : k - m ≡ 0 = omega arith in
      let after : k - (m + m) ≡ 0 = omega arith in
      let (below, ones) = smear_full k m x t.below (rw now at t.ones) in
      record { below = below; ones = rw after ones }
  | no long ↦
      let e : k - m + m ≡ k = omega arith in
      let e' : k - m - m ≡ k - (m + m) = omega arith in
      let (below, ones) = smear_long (k - m) m x (rw e t.below) (rw e t.ones) in
      record { below = rw e at below; ones = rw (e, e') at ones }
]

-- The number of binary digits.
digits_of : (fuel x : ℕ) → x ≤ fuel → (k : ℕ) × HasTop k 1 x
digits_of fuel zero h = (0, record { below = omega arith; ones = omega arith })
digits_of zero (suc x) h = absurd (omega arith)
digits_of (suc fuel) (suc x) h =
    let (k, t) = digits_of fuel (suc x / 2) (omega arith) in (suc k, grow k t)
  where
    grow : (k : ℕ) → HasTop k 1 (suc x / 2) → HasTop (suc k) 1 (suc x)
    grow zero t = record { below = omega (arith, t.below); ones = omega (arith, t.below) }
    grow (suc k) t = record {
      below = omega (arith, t.below, pow-suc 2 (suc k));
      ones =
          let e : suc k - 1 ≡ k = omega arith in
          let e' : suc (suc k) - 1 ≡ suc k = omega arith in
          let half : 2 ^ suc k ≤ suc x / 2 + 2 ^ k = rw e at t.ones in
          rw e' (omega (arith, half, pow-suc 2 k, pow-suc 2 (suc k)));
    }

digits_bound : (k x : ℕ) → HasTop k 1 x → 2 ^ k < 2 * (x + 1)
digits_bound zero x t = omega arith
digits_bound (suc k) x t =
    let e : suc k - 1 ≡ k = omega arith in
    let ones : 2 ^ suc k ≤ x + 2 ^ k = rw e at t.ones in omega (arith, ones, pow-suc 2 k)

narrow : (k : ℕ) → 2 ^ k < 2 ^ 32 + 1 → k ≤ 32
narrow k h = elim (dec_le k 32) [
  | yes le ↦ le
  | no gt ↦
      let p : 2 ^ 33 ≤ 2 ^ k = pow-le-pow_right (omega arith) {i = 33} {j = k} (omega arith) in
      absurd (omega arith)
]

-- The five steps fill all the digits below the highest.
smear-fills :
    (k x : ℕ)
    → HasTop k 1 x
    → k ≤ 32
    → smear 16 (smear 8 (smear 4 (smear 2 (smear 1 x)))) + 1 ≡ 2 ^ k
smear-fills k x t short =
    let t' =
      smear-HasTop k 16 _
        (smear-HasTop k 8 _ (smear-HasTop k 4 _ (smear-HasTop k 2 _ (smear-HasTop k 1 _ t)))) in
    let filled : k - 32 ≡ 0 = omega arith in
    let ones = rw filled at t'.ones in omega (arith, ones, t'.below)

-- From 1 up to 2 ^ 31, the result is the least power of two that is not below the argument.
pub round_up_power2-least :
    (val : ℕ)
    → 0 < val
    → val ≤ 2 ^ 31
    → (k : ℕ) × (round_up_power2 val ≡ 2 ^ k) × (val ≤ 2 ^ k) × (2 ^ k < 2 * val)
unfolding round_up_power2
round_up_power2-least val pos small =
    let (k, t) = digits_of (val - 1) (val - 1) (omega arith) in go k t
  where
    lowered : (val + 2 ^ 32 - 1) % 2 ^ 32 ≡ val - 1
    lowered = omega arith

    go :
        (k : ℕ)
        → HasTop k 1 (val - 1)
        → (k : ℕ) × (round_up_power2 val ≡ 2 ^ k) × (val ≤ 2 ^ k) × (2 ^ k < 2 * val)
    go k t =
        let upper : 2 ^ k < 2 * val = omega (arith, digits_bound k (val - 1) t) in
        let filled = smear-fills k (val - 1) t (narrow k (omega arith)) in
        (k, rw lowered (omega (arith, filled)), omega (arith, t.below), upper)

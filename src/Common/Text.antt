-- ===== src/Common/Text.antt =====
-- C strings as lists of bytes without the final NUL, with what the code uses of string.h and strtol.
use Prim.Native.Nat.{ℕ, ◌+◌, ◌-◌, ◌*◌, ◌^◌}
use Prim.Native.Char.{code}
use Prim.Native.String.{String}
use mathlib.Core.Path.{◌≡◌, refl}
use native.Mathlib.Omega.{arith}
use mathlib.Core.Bool.{Bool, true, false, ◌&&◌, ◌||◌}
use mathlib.Core.List.{List, [], ◌∷◌}
use midnight_i9000_recovery.Common.Int.{ℤ, pos, neg_ℤ}
use midnight_i9000_recovery.Common.Tests.{ltb, leb, ◌==◌, if◌then◌else◌}

abbrev pub Bytes : Type 0
Bytes = List ℕ

abbrev pub codes : String → Bytes
codes String.[] = []
codes (String.◌∷◌ c s) = code c ∷ codes s

-- strcmp(a, b) == 0
abbrev pub bytes_eq : Bytes → Bytes → Bool
bytes_eq [] [] = true
bytes_eq [] (y ∷ ys) = false
bytes_eq (x ∷ xs) [] = false
bytes_eq (x ∷ xs) (y ∷ ys) = (x == y) && bytes_eq xs ys

pub bytes_eq→≡ : (xs ys : Bytes) → bytes_eq xs ys ≡ true → xs ≡ ys
bytes_eq→≡ [] [] e = refl
bytes_eq→≡ [] (y ∷ ys) e = absurd (cc)
bytes_eq→≡ (x ∷ xs) [] e = absurd (cc)
bytes_eq→≡ (x ∷ xs) (y ∷ ys) e = ground (arith, bytes_eq→≡ xs ys)

pub bytes_eq_refl : (xs : Bytes) → bytes_eq xs xs ≡ true
bytes_eq_refl [] = refl
bytes_eq_refl (x ∷ xs) = ground (arith, bytes_eq_refl xs)

-- strncmp(text, prefix, strlen(prefix)) == 0
abbrev pub has_prefix : Bytes → Bytes → Bool
has_prefix [] text = true
has_prefix (p ∷ ps) [] = false
has_prefix (p ∷ ps) (c ∷ cs) = (p == c) && has_prefix ps cs

-- strstr(haystack, needle) != NULL
unfoldable pub strstr : Bytes → Bytes → Bool
strstr [] needle = has_prefix needle []
strstr (c ∷ cs) needle = has_prefix needle (c ∷ cs) || strstr cs needle

abbrev pub is_digit : ℕ → Bool
is_digit c = leb b'0' c && leb c b'9'

abbrev pub is_space : ℕ → Bool
is_space c = (c == 32) || (leb 9 c && leb c 13)

-- The digits at the front, as a number that goes on from `acc`, and what stands behind them.
unfoldable pub read_digits : ℕ → Bytes → ℕ × Bytes
read_digits acc [] = (acc, [])
read_digits acc (c ∷ cs) =
    let more = read_digits (acc * 10 + (c - b'0')) cs in if is_digit c then more else (acc, c ∷ cs)

-- `long` has 32 bits on the device; strtol returns the nearest value that fits.
abbrev pub clamp_long : Bool → ℕ → ℤ
clamp_long negative n =
    if negative
    then neg_ℤ (pos (if ltb (2 ^ 31) n then 2 ^ 31 else n))
    else pos (if ltb n (2 ^ 31) then n else 2 ^ 31 - 1)

-- After the sign: the value and `*end`. With no digit nothing is read, and `*end` is the whole text.
unfoldable pub strtol_unsigned : Bytes → Bool → Bytes → ℤ × Bytes
unfolding read_digits
strtol_unsigned whole negative [] = (pos 0, whole)
strtol_unsigned whole negative (c ∷ cs) =
    let (n, rest) = read_digits 0 (c ∷ cs) in
    if is_digit c then (clamp_long negative n, rest) else (pos 0, whole)

unfoldable pub strtol_sign : Bytes → Bytes → ℤ × Bytes
unfolding strtol_unsigned
strtol_sign whole [] = (pos 0, whole)
strtol_sign whole (c ∷ cs) =
    if c == b'-'
    then strtol_unsigned whole true cs
    else if c == b'+'
    then strtol_unsigned whole false cs
    else strtol_unsigned whole false (c ∷ cs)

abbrev pub skip_space : Bytes → Bytes
skip_space [] = []
skip_space (c ∷ cs) = if is_space c then skip_space cs else c ∷ cs

-- strtol(text, &end, 10), with the text from `end` on.
unfoldable pub strtol : Bytes → ℤ × Bytes
unfolding strtol_sign
strtol text = strtol_sign text (skip_space text)

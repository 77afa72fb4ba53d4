-- ===== src/Edify/Numbers.antt =====
-- less_than_int and greater_than_int of edify/expr.c on decimal numerals.
use midnight_i9000_recovery.Common.{
  ℕ, ◌+◌, ◌-◌, ◌*◌, ◌^◌, ◌<◌, ◌≡◌, refl, true, false, List, [], ◌∷◌, min, ltb, arith,
}
use midnight_i9000_recovery.Common.Int.{pos}
use midnight_i9000_recovery.Common.Text.{
  Bytes, is_digit, read_digits, strtol_unsigned, strtol_sign, strtol, skip_space,
}
use midnight_i9000_recovery.Edify.Value.{Arg, State, pure, string_value, evaluate, as_string}
use midnight_i9000_recovery.Edify.Builtins.{less_than_int_fn, read_args_2, truth, int_less}

-- The digits of a numeral, each below 10, the first one first.
abbrev pub AreDigits : List ℕ → Type 0
AreDigits [] = Unit
AreDigits (d ∷ ds) = (d < 10) × AreDigits ds

abbrev pub numeral : List ℕ → Bytes
numeral [] = []
numeral (d ∷ ds) = (d + 48) ∷ numeral ds

-- The number that the digits `ds` stand for, behind those of `acc`.
abbrev pub number_from : ℕ → List ℕ → ℕ
number_from acc [] = acc
number_from acc (d ∷ ds) = number_from (acc * 10 + d) ds

is_digit-digit : (d : ℕ) → d < 10 → is_digit (d + 48) ≡ true
is_digit-digit d h = ground arith

minus48 : (d : ℕ) → d + 48 - 48 ≡ d
minus48 d = omega arith

read_digits-numeral :
    (ds : List ℕ) (acc : ℕ) → AreDigits ds → read_digits acc (numeral ds) ≡ (number_from acc ds, [])
unfolding read_digits
read_digits-numeral [] acc h = refl
read_digits-numeral (d ∷ ds) acc h =
    rw (is_digit-digit d h.0, minus48 d, read_digits-numeral ds (acc * 10 + d) h.1)

unsigned-numeral :
    (d : ℕ) (ds : List ℕ) (whole : Bytes)
    → AreDigits (d ∷ ds)
    → strtol_unsigned whole false (numeral (d ∷ ds))
      ≡ (pos (min (number_from 0 (d ∷ ds)) (2 ^ 31 - 1)), [])
unfolding strtol_unsigned
unsigned-numeral d ds whole h =
    rw (is_digit-digit d h.0, minus48 d, read_digits-numeral ds (0 + d) h.1) ground arith

no_sign :
    (d : ℕ) (ds : List ℕ) (whole : Bytes)
    → d < 10
    → strtol_sign whole (numeral (d ∷ ds)) ≡ strtol_unsigned whole false (numeral (d ∷ ds))
unfolding strtol_sign
no_sign d ds whole h = ground arith

no_space : (d : ℕ) (ds : List ℕ) → d < 10 → skip_space (numeral (d ∷ ds)) ≡ numeral (d ∷ ds)
no_space d ds h = ground arith

strtol-numeral :
    (d : ℕ) (ds : List ℕ)
    → AreDigits (d ∷ ds)
    → strtol (numeral (d ∷ ds)) ≡ (pos (min (number_from 0 (d ∷ ds)) (2 ^ 31 - 1)), [])
unfolding strtol strtol_sign strtol_unsigned
strtol-numeral d ds h = rw (
  no_space d ds h.0,
  no_sign d ds (numeral (d ∷ ds)) h.0,
  unsigned-numeral d ds (numeral (d ∷ ds)) h,
)

-- An argument that is a string of the script.
abbrev pub constant : Bytes → Arg
constant text = record { run = pure (string_value text); start = 0; stop = 0 }

abbrev capped : List ℕ → ℕ
capped ds = min (number_from 0 ds) (2 ^ 31 - 1)

int_less-numeral :
    (d e : ℕ) (ds es : List ℕ)
    → AreDigits (d ∷ ds)
    → AreDigits (e ∷ es)
    → int_less (numeral (d ∷ ds)) (numeral (e ∷ es)) ≡ ltb (capped (d ∷ ds)) (capped (e ∷ es))
int_less-numeral d e ds es h k = rw (strtol-numeral d ds h, strtol-numeral e es k) ground arith

-- On two decimal numerals less_than_int tests that the first number is below the second, each cut
-- to the greatest number of type `long`, and has no other effect.
pub less_than_int-numeral :
    (d e : ℕ) (ds es : List ℕ) (name : Bytes) (s : State)
    → AreDigits (d ∷ ds)
    → AreDigits (e ∷ es)
    → less_than_int_fn name (constant (numeral (d ∷ ds)) ∷ constant (numeral (e ∷ es)) ∷ []) s
      ≡ pure (truth (ltb (capped (d ∷ ds)) (capped (e ∷ es)))) s
unfolding less_than_int_fn read_args_2 evaluate as_string
less_than_int-numeral d e ds es name s h k = rw (int_less-numeral d e ds es h k)

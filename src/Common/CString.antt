-- ===== src/Common/CString.antt =====
-- C strings in arrays of char: what string.h does with an array of a given size, and fgets().
use Prim.Native.Nat.{ℕ, zero, suc, ◌+◌, ◌-◌, ◌≤◌, ◌<◌, min}
use mathlib.Core.Path.{◌≡◌, refl, sym, ap, ◌∙◌}
use mathlib.Core.Bool.{false}
use mathlib.Core.List.{[], ◌∷◌, ◌++◌, append_assoc}
use native.Mathlib.Omega.{arith}
use midnight_i9000_recovery.Common.Tests.{◌==◌, if◌then◌else◌}
use midnight_i9000_recovery.Common.Lists.{
  length, take, drop, set, length-take, length-drop, length-append,
}
use midnight_i9000_recovery.Common.Text.{Bytes}

-- The string in an array.
abbrev pub c_string : Bytes → Bytes
c_string [] = []
c_string (c ∷ cs) = if c == 0 then [] else c ∷ c_string cs

-- strlcpy(array, text, sizeof(array))
unfoldable pub strlcpy : Bytes → Bytes → Bytes
strlcpy [] text = []
strlcpy (c ∷ cs) text = let n = min (length text) (length cs) in take n text ++ 0 ∷ drop n cs

-- strlcat(array, text, sizeof(array))
unfoldable pub strlcat : Bytes → Bytes → Bytes
unfolding strlcpy
strlcat array text = let n = length (c_string array) in take n array ++ strlcpy (drop n array) text

-- What fgets() reads of a text with room for `n` bytes, and the text behind it.
unfoldable pub fgets : ℕ → Bytes → Bytes × Bytes
fgets n [] = ([], [])
fgets zero (c ∷ cs) = ([], c ∷ cs)
fgets (suc n) (c ∷ cs) =
    let (line, rest) = fgets n cs in if c == 10 then (c ∷ [], cs) else (c ∷ line, rest)

abbrev pub NoNul : Bytes → Type 0
NoNul [] = Unit
NoNul (c ∷ cs) = (0 < c) × NoNul cs

-- The array holds this string, with its NUL.
abbrev pub Holds : Bytes → Bytes → Type 0
Holds array text = NoNul text × (rest : Bytes) × (array ≡ text ++ 0 ∷ rest)

pub NoNul-append : (xs ys : Bytes) → NoNul xs → NoNul ys → NoNul (xs ++ ys)
NoNul-append [] ys h k = k
NoNul-append (x ∷ xs) ys h k = (h.0, NoNul-append xs ys h.1 k)

pub c_string-NoNul : (text : Bytes) → NoNul text → c_string text ≡ text
c_string-NoNul [] clean = refl
c_string-NoNul (c ∷ cs) clean =
    let e : (c == 0) ≡ false = ground (arith, clean.0) in rw (e, c_string-NoNul cs clean.1)

NoNul-take : (n : ℕ) (xs : Bytes) → NoNul xs → NoNul (take n xs)
NoNul-take zero xs h = tt
NoNul-take (suc n) [] h = tt
NoNul-take (suc n) (x ∷ xs) h = (h.0, NoNul-take n xs h.1)

string_of : (text rest : Bytes) → NoNul text → c_string (text ++ 0 ∷ rest) ≡ text
string_of [] rest h = refl
string_of (c ∷ cs) rest h =
    let e : (c == 0) ≡ false = ground (arith, h.0) in rw (e, string_of cs rest h.1)

pub c_string-Holds : (array text : Bytes) → Holds array text → c_string array ≡ text
c_string-Holds array text (clean, rest, e) = ap c_string e ∙ string_of text rest clean

drop_front : (xs ys : Bytes) → drop (length xs) (xs ++ ys) ≡ ys
drop_front [] ys = refl
drop_front (x ∷ xs) ys = drop_front xs ys

take_front : (xs ys : Bytes) → take (length xs) (xs ++ ys) ≡ xs
take_front [] ys = refl
take_front (x ∷ xs) ys = ap (λ z. x ∷ z) (take_front xs ys)

take_inside : (xs ys : Bytes) (n : ℕ) → take (length xs + n) (xs ++ ys) ≡ xs ++ take n ys
take_inside [] ys n = let e : 0 + n ≡ n = omega arith in rw e refl
take_inside (x ∷ xs) ys n =
    let e : suc (length xs) + n ≡ suc (length xs + n) = omega arith in
    rw e (ap (λ z. x ∷ z) (take_inside xs ys n))

take-min : (n : ℕ) (xs : Bytes) → take (min (length xs) n) xs ≡ take n xs
take-min zero [] = refl
take-min (suc n) [] = let e : min 0 (suc n) ≡ 0 = omega arith in rw e refl
take-min zero (x ∷ xs) = let e : min (suc (length xs)) 0 ≡ 0 = omega arith in rw e refl
take-min (suc n) (x ∷ xs) =
    let e : min (suc (length xs)) (suc n) ≡ suc (min (length xs) n) = omega arith in
    rw e (ap (λ z. x ∷ z) (take-min n xs))

-- A copy holds the text, cut at the end of the array.
pub strlcpy-Holds :
    (c : ℕ) (cs text : Bytes) → NoNul text → Holds (strlcpy (c ∷ cs) text) (take (length cs) text)
unfolding strlcpy
strlcpy-Holds c cs text clean = (
  NoNul-take (length cs) text clean,
  drop (min (length text) (length cs)) cs,
  ap (λ z. z ++ 0 ∷ drop (min (length text) (length cs)) cs) (take-min (length cs) text),
)

strlcat-eq :
    (s rest text : Bytes) → NoNul s → strlcat (s ++ 0 ∷ rest) text ≡ s ++ strlcpy (0 ∷ rest) text
unfolding strlcat
strlcat-eq s rest text clean =
    rw (string_of s rest clean, take_front s (0 ∷ rest), drop_front s (0 ∷ rest))

pub strlcat-Holds :
    (array s text : Bytes)
    → Holds array s
    → NoNul text
    → Holds (strlcat array text) (take (length array - 1) (s ++ text))
strlcat-Holds array s text (clean, rest, e) clean' =
    let (cut_clean, behind, e') = strlcpy-Holds 0 rest text clean' in
    let size : length array - 1 ≡ length s + length rest =
      rw e (omega (arith, length-append s (0 ∷ rest))) in
    rw size (
      rw (take_inside s text (length rest)) (
        NoNul-append s (take (length rest) text) clean cut_clean,
        behind,
        ap (λ z. strlcat z text) e
            ∙ strlcat-eq s rest text clean
            ∙ ap (λ z. s ++ z) e'
            ∙ sym (append_assoc s (take (length rest) text) (0 ∷ behind)),
      ))

pub length-strlcpy : (array text : Bytes) → length (strlcpy array text) ≡ length array
unfolding strlcpy
length-strlcpy [] text = refl
length-strlcpy (c ∷ cs) text =
    let n = min (length text) (length cs) in
    length-append (take n text) (0 ∷ drop n cs)
    ∙ omega (arith, length-take n text, length-drop n cs)

pub length-strlcat : (array text : Bytes) → length (strlcat array text) ≡ length array
unfolding strlcat
length-strlcat array text =
    let n = length (c_string array) in
    length-append (take n array) (strlcpy (drop n array) text)
    ∙ omega (arith, length-take n array, length-drop n array, length-strlcpy (drop n array) text)

-- What has been cut before.
pub take-take-append : (n : ℕ) (xs ys : Bytes) → take n (take n xs ++ ys) ≡ take n (xs ++ ys)
take-take-append zero xs ys = refl
take-take-append (suc n) [] ys = refl
take-take-append (suc n) (x ∷ xs) ys = ap (λ z. x ∷ z) (take-take-append n xs ys)

-- A NUL behind the string.
pub set-Holds :
    (array text : Bytes) (i : ℕ) → Holds array text → length text ≤ i → Holds (set array i 0) text
set-Holds array text i (clean, rest, e) far =
    let (rest', e') = behind text rest i far in (clean, rest', ap (λ z. set z i 0) e ∙ e')
  where
    behind :
        (text rest : Bytes) (i : ℕ)
        → length text ≤ i
        → (rest' : Bytes) × (set (text ++ 0 ∷ rest) i 0 ≡ text ++ 0 ∷ rest')
    behind [] rest zero h = (rest, refl)
    behind [] rest (suc i) h = (set rest i 0, refl)
    behind (c ∷ cs) rest zero h = absurd (omega arith)
    behind (c ∷ cs) rest (suc i) h =
        let (rest', e) = behind cs rest i (omega arith) in (rest', ap (λ z. c ∷ z) e)

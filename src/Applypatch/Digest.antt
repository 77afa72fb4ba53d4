-- ===== src/Applypatch/Digest.antt =====
-- ParseSha1 and FindMatchingPatch of applypatch/applypatch.c.
use midnight_i9000_recovery.Common.{
  ℕ, zero, suc, ◌-◌, ◌+◌, ◌*◌, ◌/◌, ◌%◌, ◌≤◌, ◌<◌, ◌≡◌, refl, sym, ap, ◌∙◌, ltb, bit_or, true,
  false, List, [], ◌∷◌, ◌++◌, length, Option, none, some, if◌then◌else◌, arith, append-nil,
  Bool-cases, inl, inr, ◌⊎◌, ◌≢◌,
}
use mathlib.Core.Path.{subst}
use midnight_i9000_recovery.Common.Bits.{bit_or-digit, bit_or-high}
use midnight_i9000_recovery.Common.Text.{Bytes, bytes_eq, bytes_eq→≡, bytes_eq_refl}
use midnight_i9000_recovery.Applypatch.{
  hex_digit, put_byte, parse_bytes, at_end, parse_sha1, is_digest, find_from, find_matching_patch,
}

abbrev pub hex_char : ℕ → ℕ
hex_char n = if ltb n 10 then n + b'0' else n - 10 + b'a'

-- A digest as text.
abbrev pub sha1_text : Bytes → Bytes
sha1_text [] = []
sha1_text (b ∷ bs) = hex_char (b / 16) ∷ hex_char (b % 16) ∷ sha1_text bs

abbrev pub AllBytes : Bytes → Type 0
AllBytes [] = Unit
AllBytes (b ∷ bs) = (b < 256) × AllBytes bs

hex_digit-hex_char : (n : ℕ) → n < 16 → hex_digit (hex_char n) ≡ some n
hex_digit-hex_char n h = ground arith

hex_digit-lt : (c n : ℕ) → hex_digit c ≡ some n → n < 16
hex_digit-lt c n h = ground arith

bit_or-zero_left : (f x : ℕ) → x ≤ f → bit_or 0 x ≡ x
bit_or-zero_left zero x h = let e : x ≡ 0 = omega arith in rw e refl
bit_or-zero_left (suc f) zero h = refl
bit_or-zero_left (suc f) (suc x) h =
    omega (arith, bit_or-digit 0 (suc x), bit_or-zero_left f (suc x / 2) (omega arith))

-- The two halves of a byte.
halves : (h l : ℕ) → l < 16 → bit_or (h * 16) l ≡ h * 16 + l
halves h l small =
    ap (λ z. bit_or z l) (zero_behind (h * 16))
    ∙ bit_or-high 4 h 0 l (omega arith) small
    ∙ ap (λ z. h * 16 + z) (bit_or-zero_left l l (omega arith))
  where
    zero_behind : (n : ℕ) → n ≡ n + 0
    zero_behind n = omega arith

put_byte-some :
    (h l : ℕ) (digest rest : Bytes)
    → put_byte (some h) (some l) (some (digest, rest)) ≡ some (bit_or (h * 16) l ∷ digest, rest)
put_byte-some h l digest rest = refl

parse_bytes-sha1_text :
    (digest rest : Bytes)
    → AllBytes digest
    → parse_bytes (length digest) (sha1_text digest ++ rest) ≡ some (digest, rest)
unfolding parse_bytes
parse_bytes-sha1_text [] rest all = refl
parse_bytes-sha1_text (b ∷ bs) rest (small, all) =
    let high = hex_digit-hex_char (b / 16) (omega arith) in
    let low = hex_digit-hex_char (b % 16) (omega arith) in
    let whole : bit_or (b / 16 * 16) (b % 16) ≡ b =
      halves (b / 16) (b % 16) (omega arith) ∙ omega arith in
    rw high (rw low (rw (parse_bytes-sha1_text bs rest all) (ap (λ x. some (x ∷ bs, rest)) whole)))

-- A digest printed as 40 hexadecimal digits is read back by ParseSha1.
pub parse_sha1-sha1_text :
    (digest : Bytes)
    → AllBytes digest
    → length digest ≡ 20
    → parse_sha1 (sha1_text digest) ≡ some digest
unfolding parse_sha1
parse_sha1-sha1_text digest all size =
    ap (λ t. at_end (parse_bytes 20 t)) (sym (append-nil (sha1_text digest)))
    ∙ ap at_end (
        subst (λ n. parse_bytes n (sha1_text digest ++ []) ≡ some (digest, [])) size
          (parse_bytes-sha1_text digest [] all))

put_byte-inv :
    (a b : Option ℕ) (next : Option (Bytes × Bytes)) (digest rest : Bytes)
    → put_byte a b next ≡ some (digest, rest)
    → (h : ℕ) × (l : ℕ) × (ds : Bytes) × (a ≡ some h)
      × (b ≡ some l)
      × (next ≡ some (ds, rest))
      × (digest ≡ bit_or (h * 16) l ∷ ds)
put_byte-inv none b next digest rest e = absurd (cc)
put_byte-inv (some h) none next digest rest e = absurd (cc)
put_byte-inv (some h) (some l) none digest rest e = absurd (cc)
put_byte-inv (some h) (some l) (some (ds, r)) digest rest e = (h, l, ds, refl, refl, cc, cc)

-- What is read: pairs of digits, a byte from each.
parse_bytes-Sized :
    (n : ℕ) (text digest rest : Bytes)
    → parse_bytes n text ≡ some (digest, rest)
    → (length text ≡ n + n + length rest) × (length digest ≡ n) × AllBytes digest
unfolding parse_bytes
parse_bytes-Sized zero text digest rest e =
    let same : text ≡ rest = cc in
    let empty : [] ≡ digest = cc in
    (omega (arith, ap length same), omega (arith, ap length empty), subst AllBytes empty tt)
parse_bytes-Sized (suc n) [] digest rest e = absurd (cc)
parse_bytes-Sized (suc n) (a ∷ []) digest rest e = absurd (cc)
parse_bytes-Sized (suc n) (a ∷ b ∷ text) digest rest e =
    let (h, l, ds, high, low, next, same) =
      put_byte-inv (hex_digit a) (hex_digit b) (parse_bytes n text) digest rest e in
    let (chars, size, all) = parse_bytes-Sized n text ds rest next in
    let small : bit_or (h * 16) l < 256 =
      omega
        (arith, halves h l (hex_digit-lt b l low), hex_digit-lt a h high, hex_digit-lt b l low) in
    (omega arith, omega (arith, ap length same), subst AllBytes (sym same) (small, all))

at_end-inv :
    (r : Option (Bytes × Bytes)) (digest : Bytes) → at_end r ≡ some digest → r ≡ some (digest, [])
at_end-inv none digest e = absurd (cc)
at_end-inv (some (d, [])) digest e = cc
at_end-inv (some (d, c ∷ cs)) digest e = absurd (cc)

-- ParseSha1 accepts no text but one of 40 characters, and gives 20 bytes.
parse_sha1-Sized :
    (str digest : Bytes)
    → parse_sha1 str ≡ some digest
    → (length str ≡ 40) × (length digest ≡ 20) × AllBytes digest
unfolding parse_sha1
parse_sha1-Sized str digest e =
    let (chars, size, all) =
      parse_bytes-Sized 20 str digest [] (at_end-inv (parse_bytes 20 str) digest e) in
    (omega arith, size, all)

-- The first string that is this digest stands `n` places behind the first.
abbrev pub FirstDigest : Bytes → List Bytes → ℕ → Type 0
FirstDigest sha1 [] n = ⊥
FirstDigest sha1 (str ∷ strs) zero = parse_sha1 str ≡ some sha1
FirstDigest sha1 (str ∷ strs) (suc n) = (parse_sha1 str ≢ some sha1) × FirstDigest sha1 strs n

abbrev pub NoDigest : Bytes → List Bytes → Type 0
NoDigest sha1 [] = Unit
NoDigest sha1 (str ∷ strs) = (parse_sha1 str ≢ some sha1) × NoDigest sha1 strs

abbrev FoundAt : ℕ → Bytes → List Bytes → Option ℕ → Type 0
FoundAt i sha1 strs none = NoDigest sha1 strs
FoundAt i sha1 strs (some k) = (n : ℕ) × (k ≡ i + n) × FirstDigest sha1 strs n

is_digest-cases :
    (sha1 : Bytes) (d : Option Bytes)
    → ((is_digest sha1 d ≡ true) × (d ≡ some sha1)) ⊎ ((is_digest sha1 d ≡ false) × (d ≢ some sha1))
is_digest-cases sha1 none = inr (refl, λ e. absurd (cc))
is_digest-cases sha1 (some d) = elim (Bool-cases (bytes_eq d sha1)) [
  | inl same ↦ inl (same, ap some (bytes_eq→≡ d sha1 same))
  | inr other ↦ inr (other, λ e. absurd (differ e other))
]
  where
    differ : some d ≡ some sha1 → bytes_eq d sha1 ≡ false → ⊥
    differ e other =
        let same : d ≡ sha1 = cc in
        let t : bytes_eq d sha1 ≡ true = subst (λ z. bytes_eq d z ≡ true) same (bytes_eq_refl d) in
        absurd (cc)

find_from-FoundAt :
    (i : ℕ) (sha1 : Bytes) (strs : List Bytes) → FoundAt i sha1 strs (find_from i sha1 strs)
unfolding find_from
find_from-FoundAt i sha1 [] = tt
find_from-FoundAt i sha1 (str ∷ strs) = elim (is_digest-cases sha1 (parse_sha1 str)) [
  | inl (this, e) ↦ rw this (0, omega arith, e)
  | inr (other, ne) ↦
      rw other (later (find_from (i + 1) sha1 strs) (find_from-FoundAt (i + 1) sha1 strs) ne)
]
  where
    later :
        (r : Option ℕ)
        → FoundAt (i + 1) sha1 strs r
        → parse_sha1 str ≢ some sha1
        → FoundAt i sha1 (str ∷ strs) r
    later none h ne = (ne, h)
    later (some k) (n, e, h) ne = (suc n, omega arith, (ne, h))

-- What FindMatchingPatch returns.
abbrev pub FoundDigest : Bytes → List Bytes → Option ℕ → Type 0
FoundDigest sha1 strs none = NoDigest sha1 strs
FoundDigest sha1 strs (some n) = FirstDigest sha1 strs n

-- FindMatchingPatch returns the index of the first string that ParseSha1 reads as the digest, and an
-- error only if there is none.
pub find_matching_patch-FoundDigest :
    (sha1 : Bytes) (strs : List Bytes) → FoundDigest sha1 strs (find_matching_patch sha1 strs)
unfolding find_matching_patch
find_matching_patch-FoundDigest sha1 strs =
    of_result (find_from 0 sha1 strs) (find_from-FoundAt 0 sha1 strs)
  where
    of_result : (r : Option ℕ) → FoundAt 0 sha1 strs r → FoundDigest sha1 strs r
    of_result none h = h
    of_result (some k) (n, e, h) =
        let same : n ≡ k = omega arith in subst (FirstDigest sha1 strs) same h

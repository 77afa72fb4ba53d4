-- ===== src/Minzip/Zip/Tests.antt =====
-- Reading a small zip archive, and the theorems on it.
use midnight_i9000_recovery.Minzip.Zip.{
  ZipEntry, SafeAdd, censig, endsig, locsig, name_of, get2_le, get4_le, mz_open_zip_archive,
}
use midnight_i9000_recovery.Minzip.Zip.Reading.{Fine}
use midnight_i9000_recovery.Minzip.Zip.Search.{Sorted}
use midnight_i9000_recovery.Minzip.Zip.Whole.{
  AllInside, mz_open_zip_archive-AllInside, mz_open_zip_archive-Sorted,
}
use midnight_i9000_recovery.Common.{
  ℕ, zero, suc, ◌+◌, ◌-◌, ◌*◌, ◌/◌, ◌%◌, ◌^◌, ◌<◌, ◌≡◌, refl, Bool, true, false, List, [], ◌∷◌,
  ◌++◌, length, replicate, get_or, map, Option, none, some, ltb, arith, if◌then◌else◌,
}
use midnight_i9000_recovery.Common.Run.{Run, ok, fault, Fault}
use midnight_i9000_recovery.Common.Text.{Bytes, codes}
use native.Mathlib.Nat.{mod-eq_of_lt}

abbrev le2 : ℕ → Bytes
le2 n = n % 256 ∷ n / 256 ∷ []

abbrev le4 : ℕ → Bytes
le4 n = le2 (n % 65536) ++ le2 (n / 65536)

abbrev local_header : Bytes → Bytes
local_header name = le4 locsig ++ replicate 22 0 ++ le2 (length name) ++ le2 0 ++ name

abbrev central_header : Bytes → ℕ → Bytes
central_header name header =
    le4 censig ++ replicate 24 0 ++ le2 (length name) ++ replicate 12 0 ++ le4 header ++ name

-- Two empty files, "b" and "a".
abbrev archive : Bytes
archive =
    local_header (codes "b")
    ++ local_header (codes "a")
    ++ central_header (codes "b") 0
    ++ central_header (codes "a") 31
    ++ le4 endsig
    ++ replicate 4 0
    ++ le2 2
    ++ replicate 6 0
    ++ le4 62
    ++ le2 0

abbrev checked : SafeAdd
checked = record { of_pointers = λ a b. ltb (a + b) (2 ^ 32); of_longs = λ a b. true }

abbrev names_of : Bytes → Run (Option (List ZipEntry)) → Option (List Bytes)
names_of content (fault cause) = none
names_of content (ok none) = none
names_of content (ok (some entries)) = some (map (name_of content) entries)

-- The entries are put in order.
opened :
    names_of archive (mz_open_zip_archive checked 4096 archive true)
    ≡ some (codes "a" ∷ codes "b" ∷ [])
unfolding mz_open_zip_archive get2_le
opened = refl

abbrev small_bytes : Bytes → Bool
small_bytes [] = true
small_bytes (b ∷ bs) = if ltb b 255 then small_bytes bs else false

get_small-cons :
    (b : ℕ) (bs : Bytes) (i : ℕ) (t : Bool)
    → ltb b 255 ≡ t
    → ((k : ℕ) → small_bytes bs ≡ true → get_or bs k 0 < 255)
    → (if t then small_bytes bs else false) ≡ true
    → get_or (b ∷ bs) i 0 < 255
get_small-cons b bs zero true e ih h = ground arith
get_small-cons b bs (suc i) true e ih h = ih i h
get_small-cons b bs i false e ih h = absurd (cc)

get_small : (content : Bytes) (i : ℕ) → small_bytes content ≡ true → get_or content i 0 < 255
get_small [] i h = omega arith
get_small (b ∷ bs) i h = get_small-cons b bs i (ltb b 255) refl (get_small bs) h

sum_small :
    (content : Bytes) (i v : ℕ)
    → small_bytes content ≡ true
    → get4_le content i ≡ ok v
    → 4096 + v + 30 < 2 ^ 32
unfolding get4_le
sum_small content i v h e = of_test (ltb (i + 3) (length content)) e
  where
    sum : ℕ
    sum =
        get_or content i 0
        + get_or content (i + 1) 0 * 2 ^ 8
        + get_or content (i + 2) 0 * 2 ^ 16
        + get_or content (i + 3) 0 * 2 ^ 24

    bound : sum < 2 ^ 32 - 4126
    bound = omega (
      arith,
      get_small content i h,
      get_small content (i + 1) h,
      get_small content (i + 2) h,
      get_small content (i + 3) h,
    )

    of_ok : {a b : ℕ} → ok a ≡ ok b → a ≡ b
    of_ok same = cc

    of_test :
        (t : Bool)
        → (if t then ok (sum % 2 ^ 32) else fault Fault.out_of_bounds) ≡ ok v
        → 4096 + v + 30 < 2 ^ 32
    of_test true same =
        let value : sum % 2 ^ 32 ≡ v = of_ok same in
        let whole : sum % 2 ^ 32 ≡ sum = mod-eq_of_lt (omega (arith, bound)) in omega (arith, bound)
    of_test false same = absurd (cc)

checked_law : (a b : ℕ) → checked.of_pointers a b ≡ true → a + b < 2 ^ 32
checked_law a b h = ground arith

no_wrap : (i v : ℕ) → get4_le archive i ≡ ok v → 4096 + v < 2 ^ 32 → 4096 + v + 30 < 2 ^ 32
no_wrap i v e h = sum_small archive i v refl e

mz_open_zip_archive-AllInside_example :
    Fine (AllInside (length archive)) (mz_open_zip_archive checked 4096 archive true)
mz_open_zip_archive-AllInside_example =
    mz_open_zip_archive-AllInside checked checked_law 4096 archive (omega arith) (omega arith)
      no_wrap true

mz_open_zip_archive-Sorted_example :
    Fine (Sorted archive) (mz_open_zip_archive checked 4096 archive true)
mz_open_zip_archive-Sorted_example =
    mz_open_zip_archive-Sorted checked checked_law 4096 archive (omega arith) (omega arith) no_wrap
      true

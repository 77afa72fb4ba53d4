-- ===== src/Minzip/Zip/Reading.antt =====
-- Rules for the reads of minzip/Zip.c, and where its entries lie.
use midnight_i9000_recovery.Minzip.Zip.{
  get2_le, get4_le, ZipEntry, SafeAdd, require, locate, compatible, read_numbers, then_some,
  parse_entry, find_eocd, censig, locsig, endsig, valid_filename,
}
use midnight_i9000_recovery.Common.{
  ℕ, zero, suc, ◌+◌, ◌*◌, ◌%◌, ◌^◌, ◌==◌, ◌≤◌, ◌<◌, ◌≡◌, ltb, not, refl, ◌⊎◌, Bool, true, false,
  length, take, drop, get_or, Option, none, some, arith, if◌then◌else◌,
}
use midnight_i9000_recovery.Common.Run.{Run, ok, fault, ◌>>=◌}
use midnight_i9000_recovery.Common.Text.{Bytes}
use native.Mathlib.Nat.{mod-lt}

-- The run ends without a fault, and `P` is true of what it gives, if that is anything.
abbrev pub Fine : {A : Type 0} → (A → Type 0) → Run (Option A) → Type 0
Fine P (fault cause) = ⊥
Fine P (ok none) = Unit
Fine P (ok (some a)) = P a

pub require-Fine :
    {A : Type 0} (P : A → Type 0) (b : Bool) (next : Run (Option A))
    → (b ≡ true → Fine P next)
    → Fine P (require b next)
require-Fine P true next h = h refl
require-Fine P false next h = tt

pub then_some-Fine :
    {A B : Type 0} (P : A → Type 0) (Q : B → Type 0) (run : Run (Option A))
    (next : A → Run (Option B))
    → Fine P run
    → ((a : A) → P a → Fine Q (next a))
    → Fine Q (then_some run next)
then_some-Fine P Q (fault cause) next h k = absurd h
then_some-Fine P Q (ok none) next h k = tt
then_some-Fine P Q (ok (some a)) next h k = k a h

module _ (content : Bytes) where
  pub get2_le-Fine :
      {A : Type 0} (P : A → Type 0) (i : ℕ) (next : ℕ → Run (Option A))
      → i + 2 ≤ length content
      → ((v : ℕ) → v < 2 ^ 16 → Fine P (next v))
      → Fine P (get2_le content i >>= next)
  unfolding get2_le
  get2_le-Fine P i next inside h =
      let e : ltb (i + 1) (length content) ≡ true = ground arith in
      rw e (
        h ((get_or content i 0 + get_or content (i + 1) 0 * 2 ^ 8) % 2 ^ 16)
          (mod-lt (get_or content i 0 + get_or content (i + 1) 0 * 2 ^ 8) (omega arith)))

  pub get4_le-Fine :
      {A : Type 0} (P : A → Type 0) (i : ℕ) (next : ℕ → Run (Option A))
      → i + 4 ≤ length content
      → ((v : ℕ) → get4_le content i ≡ ok v → v < 2 ^ 32 → Fine P (next v))
      → Fine P (get4_le content i >>= next)
  unfolding get4_le
  get4_le-Fine P i next inside h =
      let sum =
        get_or content i 0
        + get_or content (i + 1) 0 * 2 ^ 8
        + get_or content (i + 2) 0 * 2 ^ 16
        + get_or content (i + 3) 0 * 2 ^ 24 in
      let e : ltb (i + 3) (length content) ≡ true = ground arith in
      rw e (h (sum % 2 ^ 32) (rw e refl) (mod-lt sum (omega arith)))

  -- The end of the central directory is found inside of the map.
  pub find_eocd-Fine :
      (n : ℕ) → n + 21 ≤ length content → Fine (λ i. i + 22 ≤ length content) (find_eocd content n)
  unfolding find_eocd
  find_eocd-Fine zero inside = tt
  find_eocd-Fine (suc i) inside =
      let rest = find_eocd-Fine i (omega arith) in
      let e : ltb i (length content) ≡ true = ground arith in
      rw e (of_first (get_or content i 0 == 80) rest)
    where
      of_sig :
          (b : Bool)
          → Fine (λ k. k + 22 ≤ length content) (find_eocd content i)
          → Fine (λ k. k + 22 ≤ length content) (if b then ok (some i) else find_eocd content i)
      of_sig true rest = omega arith
      of_sig false rest = rest

      of_first :
          (b : Bool)
          → Fine (λ k. k + 22 ≤ length content) (find_eocd content i)
          → Fine
              (λ k. k + 22 ≤ length content)
              (if b
                then (get4_le content i >>= λ sig.
                    if sig == endsig then ok (some i) else find_eocd content i)
                else find_eocd content i)
      of_first true rest =
          get4_le-Fine (λ k. k + 22 ≤ length content) i
            (λ sig. if sig == endsig then ok (some i) else find_eocd content i) (omega arith)
            (λ sig e small. of_sig (sig == endsig) rest)
      of_first false rest = rest

-- An entry lies in a map of `size` bytes: its name, and its data, unless their number is negative as
-- a `long`.
abbrev pub Inside : ℕ → ZipEntry → Type 0
Inside size entry =
    (entry.file_name + entry.file_name_len ≤ size)
    × ((entry.offset + entry.comp_len ≤ size) ⊎ (2 ^ 31 ≤ entry.comp_len))

module _ (safe_add : SafeAdd) (law : (a b : ℕ) → safe_add.of_pointers a b ≡ true → a + b < 2 ^ 32)
    (addr : ℕ) (content : Bytes) (mapped : addr + length content + 2 ^ 18 < 2 ^ 32)
    (small : length content < 2 ^ 30)
    (no_wrap : (i v : ℕ)
      → get4_le content i ≡ ok v
      → addr + v < 2 ^ 32
      → addr + v + 30 < 2 ^ 32) where
  -- A pointer in the map or not far behind it.
  abbrev pub Near : ℕ → Type 0
  Near ptr = ptr + 100 ≤ length content + 2 ^ 18

  data_Inside :
      (entry : ZipEntry) (place : ℕ)
      → place < 2 ^ 30 + 2 ^ 18
      → entry.comp_len < 2 ^ 32
      → entry.file_name + entry.file_name_len ≤ length content
      → not (ltb (length content) ((place % 2 ^ 32 + entry.comp_len) % 2 ^ 32)) ≡ true
      → Inside (length content) (record entry { offset = place % 2 ^ 32 })
  data_Inside entry place near comp name fits = (name, ground arith)

  header_inside :
      (header : ℕ)
      → addr + header + 30 < 2 ^ 32
      → not (ltb (addr + length content) ((addr + header + 30) % 2 ^ 32)) ≡ true
      → header + 30 ≤ length content
  header_inside header near fits = ground arith

  locate-Inside :
      (entry : ZipEntry) (header : ℕ)
      → (addr + header < 2 ^ 32 → addr + header + 30 < 2 ^ 32)
      → entry.comp_len < 2 ^ 32
      → entry.file_name + entry.file_name_len ≤ length content
      → Fine (Inside (length content)) (locate safe_add addr content entry header)
  locate-Inside entry header near comp name =
      let In = Inside (length content) in
      require-Fine In (safe_add.of_pointers addr header) _ λ added.
        require-Fine In (not (ltb (addr + length content) ((addr + header + 30) % 2 ^ 32))) _
          λ fits.
            let inside = header_inside header (near (law addr header added)) fits in
            get4_le-Fine content In header _ (omega arith) λ sig is_sig s.
              require-Fine In (sig == locsig) _ λ found.
                get2_le-Fine content In (header + 26) _ (omega arith) λ name_len a.
                  get2_le-Fine content In (header + 28) _ (omega arith) λ extra_len b.
                    let place = header + 30 + name_len + extra_len in
                    require-Fine In (safe_add.of_longs (place % 2 ^ 32) entry.comp_len) _
                      λ in_range.
                        require-Fine In
                          (not (ltb (length content) ((place % 2 ^ 32 + entry.comp_len) % 2 ^ 32)))
                          _ (data_Inside entry place (omega arith) comp name)

  abbrev Read : ZipEntry × ℕ → Type 0
  Read (entry, header) =
      (entry.comp_len < 2 ^ 32)
      × (entry.file_name + entry.file_name_len ≤ length content)
      × (addr + header < 2 ^ 32 → addr + header + 30 < 2 ^ 32)

  read_numbers-Read :
      (ptr name_len : ℕ)
      → ptr + 46 + name_len ≤ length content
      → Fine Read (read_numbers safe_add addr content ptr name_len)
  read_numbers-Read ptr name_len inside =
      get4_le-Fine content Read (ptr + 42) _ (omega arith) λ header is_header h.
        get4_le-Fine content Read (ptr + 20) _ (omega arith) λ comp_len is_comp c.
          get4_le-Fine content Read (ptr + 24) _ (omega arith) λ uncomp_len is_uncomp u.
            get2_le-Fine content Read (ptr + 10) _ (omega arith) λ how a.
              get4_le-Fine content Read (ptr + 12) _ (omega arith) λ time is_time t.
                get4_le-Fine content Read (ptr + 16) _ (omega arith) λ crc is_crc r.
                  get2_le-Fine content Read (ptr + 4) _ (omega arith) λ version v.
                    get4_le-Fine content Read (ptr + 38) _ (omega arith) λ attributes is_at x.
                      require-Fine Read (compatible safe_add addr content version) _
                        λ is_compatible. (c, inside, no_wrap (ptr + 42) header is_header)

  name_inside :
      (ptr name_len : ℕ)
      → ptr + 46 ≤ length content
      → name_len < 2 ^ 16
      → not (ltb (addr + length content) ((addr + ptr + 46 + name_len) % 2 ^ 32)) ≡ true
      → ptr + 46 + name_len ≤ length content
  name_inside ptr name_len near few fits = ground arith

  entry_inside :
      (ptr : ℕ)
      → Near ptr
      → not (ltb (addr + length content) ((addr + ptr + 46) % 2 ^ 32)) ≡ true
      → ptr + 46 ≤ length content
  entry_inside ptr near fits = ground arith

  -- The entry that is read lies in the map, and the next one is near to it.
  pub parse_entry-Inside :
      (ptr : ℕ)
      → Near ptr
      → Fine (λ r. Inside (length content) r.0 × Near r.1) (parse_entry safe_add addr content ptr)
  parse_entry-Inside ptr near =
      let In : ZipEntry × ℕ → Type 0 = λ r. Inside (length content) r.0 × Near r.1 in
      require-Fine In (not (ltb (addr + length content) ((addr + ptr + 46) % 2 ^ 32))) _ λ head.
        let inside : ptr + 46 ≤ length content = entry_inside ptr near head in
        get4_le-Fine content In ptr _ (omega arith) λ sig is_sig s.
          require-Fine In (sig == censig) _ λ found.
            get2_le-Fine content In (ptr + 28) _ (omega arith) λ name_len a.
              get2_le-Fine content In (ptr + 30) _ (omega arith) λ extra_len b.
                get2_le-Fine content In (ptr + 32) _ (omega arith) λ comment_len c.
                  require-Fine In
                    (not (ltb (addr + length content) ((addr + ptr + 46 + name_len) % 2 ^ 32))) _
                    λ fits.
                      require-Fine In (valid_filename (take name_len (drop (ptr + 46) content))) _
                        λ valid.
                          let named : ptr + 46 + name_len ≤ length content =
                            name_inside ptr name_len inside a fits in
                          then_some-Fine Read In _ _ (read_numbers-Read ptr name_len named)
                            λ r read.
                              then_some-Fine (Inside (length content)) In _ _
                                (locate-Inside r.0 r.1 read.2 read.0 read.1)
                                λ entry h. (h, omega arith)

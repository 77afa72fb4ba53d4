-- ===== src/Minzip/Zip.antt =====
-- The reading of a zip archive, parseZipArchive of minzip/Zip.c, on the bytes of the mapped file. A
-- pointer into the map is its distance from the start.
pub mod Reading
pub mod Names
pub mod Search
pub mod Whole
mod Tests
use midnight_i9000_recovery.Common.{
  ℕ, zero, suc, ◌+◌, ◌-◌, ◌*◌, ◌/◌, ◌%◌, ◌^◌, ◌==◌, ltb, leb, Bool, true, false, not, ◌&&◌, ◌||◌,
  List, [], ◌∷◌, ◌++◌, length, take, drop, get_or, min, Option, none, some, if◌then◌else◌, bit_and,
}
use midnight_i9000_recovery.Common.Run.{Run, ok, fault, Fault, ◌>>=◌}
use midnight_i9000_recovery.Common.Text.{Bytes}

abbrev pub censig : ℕ
censig = 33639248

abbrev pub endsig : ℕ
endsig = 101010256

abbrev pub locsig : ℕ
locsig = 67324752

abbrev pub get_byte : Bytes → ℕ → Run ℕ
get_byte content i =
    if ltb i (length content) then ok (get_or content i 0) else fault Fault.out_of_bounds

-- The bytes do not overlap, so that `|` is a sum.
unfoldable pub get2_le : Bytes → ℕ → Run ℕ
get2_le content i =
    if ltb (i + 1) (length content)
    then ok ((get_or content i 0 + get_or content (i + 1) 0 * 2 ^ 8) % 2 ^ 16)
    else fault Fault.out_of_bounds

unfoldable pub get4_le : Bytes → ℕ → Run ℕ
get4_le content i =
    if ltb (i + 3) (length content)
    then ok (
        (get_or content i 0
          + get_or content (i + 1) 0 * 2 ^ 8
          + get_or content (i + 2) 0 * 2 ^ 16
          + get_or content (i + 3) 0 * 2 ^ 24)
        % 2 ^ 32)
    else fault Fault.out_of_bounds

-- `file_name` points into the map. The numbers are words of 32 bits, also where the type is `long`.
pub record ZipEntry : Type 0 where
  pub file_name_len : ℕ
  pub file_name : ℕ
  pub offset : ℕ
  pub comp_len : ℕ
  pub uncomp_len : ℕ
  pub compression : ℕ
  pub mod_time : ℕ
  pub crc32 : ℕ
  pub version_made_by : ℕ
  pub external_file_attributes : ℕ

abbrev pub no_entry : ZipEntry
no_entry = record {
  file_name_len = 0;
  file_name = 0;
  offset = 0;
  comp_len = 0;
  uncomp_len = 0;
  compression = 0;
  mod_time = 0;
  crc32 = 0;
  version_made_by = 0;
  external_file_attributes = 0;
}

abbrev pub path_max : ℕ
path_max = 4096

abbrev pub printable : Bytes → Bool
printable [] = true
printable (c ∷ cs) = if ltb c 32 || leb 127 c then false else printable cs

abbrev pub valid_filename : Bytes → Bool
valid_filename name = ltb (length name) path_max && printable name

pub data Order : Type 0 where
  less equal greater : Order

-- The first `n` bytes of names, in which there is no NUL.
abbrev pub strncmp : ℕ → Bytes → Bytes → Order
strncmp zero a b = equal
strncmp (suc n) [] b = equal
strncmp (suc n) (x ∷ xs) [] = equal
strncmp (suc n) (x ∷ xs) (y ∷ ys) =
    if ltb x y then less else if ltb y x then greater else strncmp n xs ys

abbrev pub by_length : ℕ → ℕ → Order → Order
by_length m n equal = if ltb m n then less else if ltb n m then greater else equal
by_length m n less = less
by_length m n greater = greater

abbrev pub compare_names : Bytes → Bytes → Order
compare_names a b =
    by_length (length a) (length b)
      (strncmp (if ltb (length a) (length b) then length a else length b) a b)

module _ (content : Bytes) where
  abbrev pub name_of : ZipEntry → Bytes
  name_of entry = take entry.file_name_len (drop entry.file_name content)

  -- The backward search for the end of the central directory, from the place before `n`.
  unfoldable pub find_eocd : ℕ → Run (Option ℕ)
  unfolding get4_le
  find_eocd zero = ok none
  find_eocd (suc i) = get_byte content i >>= λ first.
      if first == 80
      then (get4_le content i >>= λ sig. if sig == endsig then ok (some i) else find_eocd i)
      else find_eocd i

  -- What the binary search does after a comparison.
  abbrev pub search_on : ℕ → Run ℕ → Run ℕ → Order → Run ℕ
  search_on mid below above less = above
  search_on mid below above greater = below
  search_on mid below above equal = ok (mid + 1)

  -- The binary search, with the place behind `high` in place of `high`: the place of the new entry.
  unfoldable pub search : ℕ → List ZipEntry → Bytes → ℕ → ℕ → Run ℕ
  search zero entries name low end = fault Fault.no_fuel
  search (suc fuel) entries name low end =
      let mid = low + (end - 1 - low) / 2 in
      if ltb low end
      then search_on mid (search fuel entries name low mid) (search fuel entries name (mid + 1) end)
          (compare_names (name_of (get_or entries mid no_entry)) name)
      else ok end

  -- The new entry at its place, the later ones behind it.
  unfoldable pub insert_entry : ZipEntry → List ZipEntry → Run (List ZipEntry)
  unfolding search
  insert_entry entry entries =
      search (suc (length entries)) entries (name_of entry) 0 (length entries) >>= λ target.
      ok (take target entries ++ (entry ∷ drop target entries))

-- safe_add() on words without and with sign: whether the sum is in range.
pub record SafeAdd : Type 0 where
  pub of_pointers : ℕ → ℕ → Bool
  pub of_longs : ℕ → ℕ → Bool

abbrev pub require : {A : Type 0} → Bool → Run (Option A) → Run (Option A)
require condition next = if condition then next else ok none

abbrev pub then_some : {A B : Type 0} → Run (Option A) → (A → Run (Option B)) → Run (Option B)
then_some run next = run >>= λ r. elim r [ none ↦ ok none | some a ↦ next a ]

-- `addr` is the address of the map.
module _ (safe_add : SafeAdd) (addr : ℕ) (content : Bytes) where
  -- From the local header on: the entry, with the place of its data.
  abbrev pub locate : ZipEntry → ℕ → Run (Option ZipEntry)
  locate entry header = require (safe_add.of_pointers addr header) (
      require (not (ltb (addr + length content) ((addr + header + 30) % 2 ^ 32))) (
        get4_le content header >>= λ sig. require (sig == locsig) (
          get2_le content (header + 26) >>= λ name_len.
          get2_le content (header + 28) >>= λ extra_len.
          let offset = (header + 30 + name_len + extra_len) % 2 ^ 32 in
          require (safe_add.of_longs offset entry.comp_len) (
            require (not (ltb (length content) ((offset + entry.comp_len) % 2 ^ 32)))
              (ok (some (record entry { offset = offset })))))))

  -- "version made by" is of the first system or of Unix.
  abbrev pub compatible : ℕ → Bool
  compatible version = (bit_and version 65280 == 0) || (bit_and version 65280 == 3 * 2 ^ 8)

  -- The numbers of the entry at `ptr`.
  abbrev pub read_numbers : ℕ → ℕ → Run (Option (ZipEntry × ℕ))
  read_numbers ptr name_len = get4_le content (ptr + 42) >>= λ header.
      get4_le content (ptr + 20) >>= λ comp_len. get4_le content (ptr + 24) >>= λ uncomp_len.
      get2_le content (ptr + 10) >>= λ how. get4_le content (ptr + 12) >>= λ time.
      get4_le content (ptr + 16) >>= λ crc. get2_le content (ptr + 4) >>= λ version.
      get4_le content (ptr + 38) >>= λ attributes. require (compatible version) (
        ok (
          some (
            record {
              file_name_len = name_len;
              file_name = ptr + 46;
              offset = 0;
              comp_len = comp_len;
              uncomp_len = uncomp_len;
              compression = how;
              mod_time = time;
              crc32 = crc;
              version_made_by = version;
              external_file_attributes = attributes;
            },
            header,
          )))

  -- One entry of the central directory, at `ptr`: the entry, and where the next one is.
  abbrev pub parse_entry : ℕ → Run (Option (ZipEntry × ℕ))
  parse_entry ptr = require (not (ltb (addr + length content) ((addr + ptr + 46) % 2 ^ 32))) (
      get4_le content ptr >>= λ sig. require (sig == censig) (
        get2_le content (ptr + 28) >>= λ name_len. get2_le content (ptr + 30) >>= λ extra_len.
        get2_le content (ptr + 32) >>= λ comment_len.
        require (not (ltb (addr + length content) ((addr + ptr + 46 + name_len) % 2 ^ 32))) (
          require (valid_filename (take name_len (drop (ptr + 46) content))) (
            then_some (read_numbers ptr name_len) λ r.
              then_some (locate r.0 r.1)
                λ entry. ok (some (entry, ptr + 46 + name_len + extra_len + comment_len))))))

  -- The loop over the `n` entries that are left.
  unfoldable pub parse_entries : ℕ → ℕ → List ZipEntry → Run (Option (List ZipEntry))
  unfolding insert_entry
  parse_entries zero ptr entries = ok (some entries)
  parse_entries (suc n) ptr entries =
      then_some (parse_entry ptr)
        λ r. insert_entry content r.0 entries >>= λ entries'. parse_entries n r.1 entries'

  -- The entries in the order of the array, `none` where the archive is refused; `allocated` tells
  -- whether there is memory for them.
  abbrev pub parse_directory : Bool → ℕ → Run (Option (List ZipEntry))
  parse_directory allocated eocd = get2_le content (eocd + 8) >>= λ num_entries.
      get4_le content (eocd + 16) >>= λ cd_offset.
      require (not ((num_entries == 0) || leb (length content) cd_offset))
        (require allocated (parse_entries num_entries cd_offset []))

  unfoldable pub parse_zip_archive : Bool → Run (Option (List ZipEntry))
  unfolding find_eocd parse_entries
  parse_zip_archive allocated = get4_le content 0 >>= λ val.
      require (not (val == endsig) && (val == locsig))
        (then_some (find_eocd content (length content - 22 + 1)) (parse_directory allocated))

  -- mzOpenZipArchive on a file that has been mapped.
  unfoldable pub mz_open_zip_archive : Bool → Run (Option (List ZipEntry))
  unfolding parse_zip_archive
  mz_open_zip_archive allocated =
      require (not (ltb (length content) 22)) (parse_zip_archive allocated)

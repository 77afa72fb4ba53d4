-- ===== src/Applypatch.antt =====
-- The checks of applypatch/applypatch.c: digests as text, the search for a patch, and the sinks.
pub mod Digest
pub mod Check
pub mod Sink
pub mod SinkRule
pub mod Rules
pub mod Laws
pub mod Saving
pub mod Disk
pub mod Apply
mod Tests
use midnight_i9000_recovery.Common.{
  ℕ, zero, suc, ◌+◌, ◌-◌, ◌*◌, ◌==◌, ltb, leb, bit_or, Bool, true, false, not, ◌&&◌, ◌||◌, List, [],
  ◌∷◌, ◌++◌, length, take, drop, Option, none, some, if◌then◌else◌,
}
use midnight_i9000_recovery.Common.Run.{Run, ok, fault, Fault}
use midnight_i9000_recovery.Common.Text.{Bytes, codes, bytes_eq, has_prefix}

abbrev pub hex_digit : ℕ → Option ℕ
hex_digit c =
    if leb b'0' c && leb c b'9'
    then some (c - b'0')
    else if leb b'a' c && leb c b'f'
    then some (c - b'a' + 10)
    else if leb b'A' c && leb c b'F'
    then some (c - b'A' + 10)
    else none

-- A byte in front of those that are read next.
abbrev pub put_byte : Option ℕ → Option ℕ → Option (Bytes × Bytes) → Option (Bytes × Bytes)
put_byte (some h) (some l) (some (digest, rest)) = some (bit_or (h * 16) l ∷ digest, rest)
put_byte (some h) (some l) none = none
put_byte (some h) none next = none
put_byte none low next = none

-- The loop of ParseSha1, two passes for each of the `n` bytes that are left: the digest and the text
-- behind it.
unfoldable pub parse_bytes : ℕ → Bytes → Option (Bytes × Bytes)
parse_bytes zero text = some ([], text)
parse_bytes (suc n) [] = none
parse_bytes (suc n) (a ∷ []) = none
parse_bytes (suc n) (a ∷ b ∷ text) = put_byte (hex_digit a) (hex_digit b) (parse_bytes n text)

abbrev pub at_end : Option (Bytes × Bytes) → Option Bytes
at_end none = none
at_end (some (digest, [])) = some digest
at_end (some (digest, c ∷ cs)) = none

unfoldable pub parse_sha1 : Bytes → Option Bytes
unfolding parse_bytes
parse_sha1 str = at_end (parse_bytes 20 str)

abbrev pub is_digest : Bytes → Option Bytes → Bool
is_digest sha1 none = false
is_digest sha1 (some patch_sha1) = bytes_eq patch_sha1 sha1

-- The index of the match, counted from `i`.
unfoldable pub find_from : ℕ → Bytes → List Bytes → Option ℕ
find_from i sha1 [] = none
find_from i sha1 (str ∷ strs) =
    let rest = find_from (i + 1) sha1 strs in
    if is_digest sha1 (parse_sha1 str) then some i else rest

unfoldable pub find_matching_patch : Bytes → List Bytes → Option ℕ
unfolding find_from
find_matching_patch sha1 strs = find_from 0 sha1 strs

pub record Stat : Type 0 where
  pub size : ℕ
  pub mode : ℕ
  pub uid : ℕ
  pub gid : ℕ

pub record FileContents : Type 0 where
  pub content : Bytes
  pub sha1 : Bytes
  pub st : Stat

-- What loading uses: the digest, stat(), fopen() with the bytes that can be read, and
-- LoadPartitionContents().
pub record Files : Type 0 where
  pub sha : Bytes → Bytes
  pub stat : Bytes → Option Stat
  pub open_content : Bytes → Option Bytes
  pub load_partition_contents : Bytes → Option FileContents

abbrev pub is_partition : Bytes → Bool
is_partition filename = has_prefix (codes "MTD:") filename || has_prefix (codes "EMMC:") filename

-- CACHE_TEMP_SOURCE
abbrev pub cache_temp_source : Bytes
cache_temp_source = codes "/cache/saved.file"

module _ (files : Files) where
  abbrev pub read_all : Option Stat → Option Bytes → Option FileContents
  read_all none content = none
  read_all (some st) none = none
  read_all (some st) (some content) =
      if ltb (length content) st.size
      then none
      else some (record {
        content = take st.size content;
        sha1 = files.sha (take st.size content);
        st = st;
      })

  unfoldable pub load_file_contents : Bytes → Option FileContents
  load_file_contents filename =
      if is_partition filename
      then files.load_partition_contents filename
      else read_all (files.stat filename) (files.open_content filename)

  abbrev pub has_match : List Bytes → Option FileContents → Bool
  has_match strs none = false
  has_match strs (some file) = elim (find_matching_patch file.sha1 strs) [
    | none ↦ false
    | some i ↦ true
  ]

  -- The file is loaded, and if there are sums one of them is its own.
  abbrev pub accepted : List Bytes → Option FileContents → Bool
  accepted strs none = false
  accepted [] (some file) = true
  accepted (str ∷ strs) (some file) = has_match (str ∷ strs) (some file)

  -- Whether applypatch_check() returns 0.
  unfoldable pub applypatch_check : Bytes → List Bytes → Bool
  unfolding load_file_contents
  applypatch_check filename strs =
      accepted strs (load_file_contents filename)
      || has_match strs (load_file_contents cache_temp_source)

-- The buffer up to `pos`, and the room behind.
pub record MemorySinkInfo : Type 0 where
  pub buffer : Bytes
  pub size : ℕ

-- The result is the number of bytes, `none` for -1.
unfoldable pub memory_sink : Bytes → MemorySinkInfo → Option ℕ × MemorySinkInfo
memory_sink bytes msi =
    if ltb (msi.size - length msi.buffer) (length bytes)
    then (none, msi)
    else (some (length bytes), record msi { buffer = msi.buffer ++ bytes })

module _ {F : Type 0} (write : Bytes → F → Option ℕ × F) where
  -- What write() returns; `none` is an error.
  abbrev pub after_write : (ℕ → F → Run (ℕ × F)) → ℕ → Option ℕ × F → Run (ℕ × F)
  after_write later done (none, fd) = ok (done, fd)
  after_write later done (some zero, fd) = ok (done, fd)
  after_write later done (some (suc wrote), fd) = later (suc wrote) fd

  -- The loop of FileSink over the bytes that are left: how many are written.
  unfoldable pub file_sink_from : ℕ → ℕ → Bytes → F → Run (ℕ × F)
  file_sink_from zero done bytes fd = fault Fault.no_fuel
  file_sink_from (suc fuel) done [] fd = ok (done, fd)
  file_sink_from (suc fuel) done (b ∷ bs) fd =
      after_write (λ wrote fd'. file_sink_from fuel (done + wrote) (drop wrote (b ∷ bs)) fd') done
        (write (b ∷ bs) fd)

  unfoldable pub file_sink : Bytes → F → Run (ℕ × F)
  unfolding file_sink_from
  file_sink bytes fd = file_sink_from (suc (length bytes)) 0 bytes fd

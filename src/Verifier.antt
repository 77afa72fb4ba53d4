-- ===== src/Verifier.antt =====
-- The signature check of a package, verifier.c. The cryptography is that of the library mincrypt,
-- a parameter. The file is the list of its bytes, `none` if it cannot be opened; reading from it
-- does not fail. Progress reports and messages are left out.
pub mod Whole
mod Tests
use midnight_i9000_recovery.Common.{
  ℕ, zero, suc, ◌+◌, ◌-◌, ◌*◌, ◌^◌, ◌==◌, ltb, Bool, true, false, not, ◌&&◌, ◌||◌, List, [], ◌∷◌,
  ◌++◌, ◌≡◌, length, take, drop, get_or, Option, none, some, if◌then◌else◌,
}
use midnight_i9000_recovery.Common.Run.{Run, ok, fault, Fault}
use midnight_i9000_recovery.Common.Text.{Bytes, has_prefix}

-- `rsa_num_bytes` is RSANUMBYTES; the results are those of SHA_init, SHA_update, SHA_final and
-- RSA_verify, which gets the signature and the digest.
pub record Mincrypt (Sha Key : Type 0) : Type 0 where
  pub rsa_num_bytes : ℕ
  pub sha_init : Sha
  pub sha_update : Sha → Bytes → Sha
  pub sha_final : Sha → Bytes
  pub rsa_verify : Key → Bytes → Bytes → Bool

-- The digest depends only on the bytes, not on how they are cut.
pub record IsSha {Sha Key : Type 0} (crypto : Mincrypt Sha Key) : Type 0 where
  pub update-append :
      (s : Sha) (a b : Bytes)
      → crypto.sha_update (crypto.sha_update s a) b ≡ crypto.sha_update s (a ++ b)
  pub update-nil : (s : Sha) → crypto.sha_update s [] ≡ s

pub data Result : Type 0 where
  verify_success verify_failure : Result

-- The four bytes that start an end-of-central-directory record.
abbrev pub eocd_marker : Bytes
eocd_marker = 0x50 ∷ 0x4b ∷ 0x05 ∷ 0x06 ∷ []

-- Whether the marker stands anywhere in the bytes.
unfoldable pub marker_occurs : Bytes → Bool
marker_occurs [] = false
marker_occurs (b ∷ bs) = has_prefix eocd_marker (b ∷ bs) || marker_occurs bs

-- The last six bytes, and the numbers in them.
abbrev pub footer_of : Bytes → Bytes
footer_of file = drop (length file - 6) file

abbrev pub comment_size : Bytes → ℕ
comment_size footer = get_or footer 4 0 + get_or footer 5 0 * 2 ^ 8

abbrev pub signature_start : Bytes → ℕ
signature_start footer = get_or footer 0 0 + get_or footer 1 0 * 2 ^ 8

-- The number of bytes that the next read takes, of those that are left.
abbrev pub chunk_size : ℕ → ℕ
chunk_size left = if ltb left 4096 then left else 4096

module _ {Sha Key : Type 0} (crypto : Mincrypt Sha Key) where
  -- The loop that reads the signed part; `none` is a short read.
  unfoldable pub hash_from : Bytes → ℕ → ℕ → ℕ → Sha → Run (Option Sha)
  hash_from file signed_len zero so_far ctx =
      if ltb so_far signed_len then fault Fault.no_fuel else ok (some ctx)
  hash_from file signed_len (suc fuel) so_far ctx =
      let size = chunk_size (signed_len - so_far) in
      let buffer = take size (drop so_far file) in
      let rest = hash_from file signed_len fuel (so_far + size) (crypto.sha_update ctx buffer) in
      if ltb so_far signed_len
      then if length buffer == size then rest else ok none
      else ok (some ctx)

  -- The loop over the keys. The signature is before the footer at the end of the record.
  unfoldable pub check_keys : List Key → Bytes → Bytes → Run Result
  check_keys [] eocd sha1 = ok verify_failure
  check_keys (key ∷ keys) eocd sha1 =
      let rest = check_keys keys eocd sha1 in
      let at = length eocd - 6 - crypto.rsa_num_bytes in
      let signature = take crypto.rsa_num_bytes (drop at eocd) in
      if ltb (length eocd) (6 + crypto.rsa_num_bytes)
      then fault Fault.out_of_bounds
      else if crypto.rsa_verify key signature sha1
      then ok verify_success
      else rest

  unfoldable pub after_hash : List Key → Bytes → Run (Option Sha) → Run Result
  unfolding check_keys
  after_hash keys eocd (fault e) = fault e
  after_hash keys eocd (ok none) = ok verify_failure
  after_hash keys eocd (ok (some ctx)) = check_keys keys eocd (crypto.sha_final ctx)

  -- The two Booleans say whether the allocations of the record and of the buffer succeed.
  unfoldable pub verify_file : Option Bytes → List Key → Bool → Bool → Run Result
  unfolding hash_from after_hash marker_occurs
  verify_file none keys got_eocd got_buffer = ok verify_failure
  verify_file (some file) keys got_eocd got_buffer =
      let footer = footer_of file in
      let eocd_size = comment_size footer + 22 in
      let start = length file - eocd_size in
      let eocd = drop start file in
      let signed_len = start + 22 - 2 in
      if ltb (length file) 6
      then ok verify_failure
      else if not (get_or footer 2 0 == 0xff) || not (get_or footer 3 0 == 0xff)
      then ok verify_failure
      else if ltb (signature_start footer) (crypto.rsa_num_bytes + 6)
      then ok verify_failure
      else if ltb (length file) eocd_size
      then ok verify_failure
      else if not got_eocd
      then ok verify_failure
      else if not (has_prefix eocd_marker eocd)
      then ok verify_failure
      else if marker_occurs (drop 4 eocd)
      then ok verify_failure
      else if not got_buffer
      then ok verify_failure
      else after_hash keys eocd (hash_from file signed_len signed_len 0 crypto.sha_init)

-- ===== src/Verifier/Tests.antt =====
-- Tests of the model of verifier.c with a toy cryptography: a digest is the bytes themselves, and a
-- signature the key and the number of the signed bytes.
use midnight_i9000_recovery.Common.{
  ℕ, ◌≡◌, refl, true, [], ◌∷◌, ◌++◌, length, replicate, some, append_assoc, append-nil, arith,
}
use midnight_i9000_recovery.Common.Run.{ok, fault, Fault}
use midnight_i9000_recovery.Common.Text.{Bytes, bytes_eq}
use midnight_i9000_recovery.Verifier.{
  Mincrypt, IsSha, verify_success, verify_failure, eocd_marker, marker_occurs, verify_file,
  hash_from, after_hash, check_keys,
}
use midnight_i9000_recovery.Verifier.Whole.{verify_file-well_signed}

abbrev toy : Mincrypt Bytes ℕ
toy = record {
  rsa_num_bytes = 2;
  sha_init = [];
  sha_update = λ s bytes. s ++ bytes;
  sha_final = λ s. s;
  rsa_verify = λ key signature digest. bytes_eq signature (key ∷ length digest ∷ []);
}

toy-IsSha : IsSha toy
toy-IsSha = record { update-append = λ s a b. append_assoc s a b; update-nil = λ s. append-nil s }

-- Three bytes, the record with a comment of eight bytes, and in it a signature and the footer.
abbrev signed_file : Bytes
signed_file =
    1 ∷ 2 ∷ 3 ∷ eocd_marker ++ replicate 16 0 ++ 8 ∷ 0 ∷ 7 ∷ 23 ∷ 8 ∷ 0 ∷ 255 ∷ 255 ∷ 8 ∷ 0 ∷ []

verify_file-well_signed_example :
    verify_file toy (some signed_file) (5 ∷ 7 ∷ []) true true ≡ ok verify_success
unfolding marker_occurs
verify_file-well_signed_example =
    verify_file-well_signed toy toy-IsSha signed_file (5 ∷ 7 ∷ []) true true (omega arith)

wrong_key : verify_file toy (some signed_file) (5 ∷ []) true true ≡ ok verify_failure
unfolding verify_file hash_from after_hash check_keys marker_occurs
wrong_key = refl

-- A signature that starts before the record: it is read from before the array.
abbrev no_comment : Bytes
no_comment = eocd_marker ++ replicate 12 0 ++ 200 ∷ 0 ∷ 255 ∷ 255 ∷ 0 ∷ 0 ∷ []

reads_outside :
    verify_file (record toy { rsa_num_bytes = 20 }) (some no_comment) (5 ∷ []) true true
    ≡ fault Fault.out_of_bounds
unfolding verify_file hash_from after_hash check_keys marker_occurs
reads_outside = refl

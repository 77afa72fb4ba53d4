-- ===== src/Verifier/Whole.antt =====
-- verify_file of verifier.c against a description in one piece.
use midnight_i9000_recovery.Common.{
  ℕ, zero, suc, ◌+◌, ◌-◌, ◌==◌, ◌≤◌, ◌<◌, ltb, leb, Bool, true, false, not, ◌&&◌, ◌||◌, List, [],
  ◌∷◌, ◌++◌, ◌≡◌, refl, ◌∙◌, ap, length, take, drop, get_or, some, if◌then◌else◌, arith,
  length-drop, length-take, drop-drop, take-add, lt→ltb, ◌⊎◌, inl, inr,
}
use midnight_i9000_recovery.Common.Run.{ok}
use midnight_i9000_recovery.Common.Text.{Bytes, has_prefix}
use midnight_i9000_recovery.Verifier.{
  Mincrypt, IsSha, Result, verify_success, verify_failure, eocd_marker, marker_occurs, footer_of,
  comment_size, signature_start, chunk_size, hash_from, check_keys, after_hash, verify_file,
}

chunk_size-bounds : (left : ℕ) → 0 < left → (0 < chunk_size left) × (chunk_size left ≤ left)
chunk_size-bounds left h = ground arith

not_below : (a b : ℕ) → b ≤ a → ltb a b ≡ false
not_below a b h = ground arith

same_is_equal : (a b : ℕ) → a ≡ b → (a == b) ≡ true
same_is_equal a b h = ground arith

compare-cases : (a b : ℕ) → (a < b) ⊎ (b ≤ a)
compare-cases a b = ground arith

module _ {Sha Key : Type 0} (crypto : Mincrypt Sha Key) (is_sha : IsSha crypto) where
  hash-stop :
      (file : Bytes) (signed_len fuel so_far : ℕ) (ctx : Sha)
      → signed_len ≤ so_far
      → hash_from crypto file signed_len fuel so_far ctx ≡ ok (some ctx)
  unfolding hash_from
  hash-stop file signed_len zero so_far ctx h = rw (not_below so_far signed_len h)
  hash-stop file signed_len (suc fuel) so_far ctx h = rw (not_below so_far signed_len h)

  hash-step :
      (file : Bytes) (signed_len fuel so_far m : ℕ) (ctx : Sha)
      → so_far < signed_len
      → signed_len ≤ length file
      → chunk_size (signed_len - so_far) ≡ m
      → m ≤ signed_len - so_far
      → hash_from crypto file signed_len (suc fuel) so_far ctx
        ≡ hash_from crypto file signed_len fuel
            (so_far + m)
            (crypto.sha_update ctx (take m (drop so_far file)))
  unfolding hash_from
  hash-step file signed_len fuel so_far m ctx h inside e le =
      let full : (length (take m (drop so_far file)) == m) ≡ true =
        same_is_equal (length (take m (drop so_far file))) m
          (omega (arith, length-take m (drop so_far file), length-drop so_far file)) in
      rw (lt→ltb so_far signed_len h, e, full)

  pieces :
      (file : Bytes) (signed_len so_far m : ℕ)
      → m ≤ signed_len - so_far
      → take m (drop so_far file) ++ take (signed_len - (so_far + m)) (drop (so_far + m) file)
        ≡ take (signed_len - so_far) (drop so_far file)
  pieces file signed_len so_far m le =
      let e : signed_len - so_far ≡ m + (signed_len - (so_far + m)) = omega arith in
      rw (e, take-add m (signed_len - (so_far + m)) (drop so_far file), drop-drop m so_far file)

  -- All of the signed bytes are hashed, in their order.
  hash_from-take :
      (file : Bytes) (signed_len fuel so_far : ℕ) (ctx : Sha)
      → signed_len ≤ length file
      → signed_len ≤ so_far + fuel
      → hash_from crypto file signed_len fuel so_far ctx
        ≡ ok (some (crypto.sha_update ctx (take (signed_len - so_far) (drop so_far file))))
  hash_from-take file signed_len zero so_far ctx inside enough =
      let e : signed_len - so_far ≡ 0 = omega arith in
      hash-stop file signed_len zero so_far ctx (omega arith) ∙ rw (e, is_sha.update-nil ctx)
  hash_from-take file signed_len (suc fuel) so_far ctx inside enough =
      elim (compare-cases so_far signed_len) [
        | inr past ↦
            let e : signed_len - so_far ≡ 0 = omega arith in
            hash-stop file signed_len (suc fuel) so_far ctx past ∙ rw (e, is_sha.update-nil ctx)
        | inl below ↦
            let m = chunk_size (signed_len - so_far) in
            let (positive, le) = chunk_size-bounds (signed_len - so_far) (omega arith) in
            hash-step file signed_len fuel so_far m ctx below inside refl le
            ∙ hash_from-take file signed_len fuel (so_far + m)
                (crypto.sha_update ctx (take m (drop so_far file))) inside (omega arith)
            ∙ ap (λ s. ok (some s))
                (is_sha.update-append ctx (take m (drop so_far file))
                  (take (signed_len - (so_far + m)) (drop (so_far + m) file)))
            ∙ ap (λ bs. ok (some (crypto.sha_update ctx bs))) (pieces file signed_len so_far m le)
      ]

  -- Whether a key matches the signature in front of the footer, for all bytes in front of the
  -- comment's length.
  abbrev pub some_key : List Key → Bytes → Bytes → Bool
  some_key [] signature digest = false
  some_key (key ∷ keys) signature digest =
      crypto.rsa_verify key signature digest || some_key keys signature digest

  abbrev pub embedded_signature : Bytes → Bytes
  embedded_signature file =
      take crypto.rsa_num_bytes (drop (length file - 6 - crypto.rsa_num_bytes) file)

  abbrev pub signed_digest : Bytes → Bytes
  signed_digest file = crypto.sha_final (
      crypto.sha_update crypto.sha_init
        (take (length file - comment_size (footer_of file) - 2) file))

  -- The record that the length of the comment points to.
  abbrev pub record_of : Bytes → Bytes
  record_of file = drop (length file - (comment_size (footer_of file) + 22)) file

  -- What makes a file one that is signed by one of the keys.
  abbrev pub well_signed : Bytes → List Key → Bool
  well_signed file keys =
      leb 6 (length file)
      && (get_or (footer_of file) 2 0 == 0xff)
      && (get_or (footer_of file) 3 0 == 0xff)
      && leb (crypto.rsa_num_bytes + 6) (signature_start (footer_of file))
      && leb (comment_size (footer_of file) + 22) (length file)
      && has_prefix eocd_marker (record_of file)
      && not (marker_occurs (drop 4 (record_of file)))
      && some_key keys (embedded_signature file) (signed_digest file)

  abbrev pub result_of : Bool → Result
  result_of b = if b then verify_success else verify_failure

  check_keys-some_key :
      (keys : List Key) (eocd digest : Bytes)
      → 6 + crypto.rsa_num_bytes ≤ length eocd
      → check_keys crypto keys eocd digest
        ≡ ok (
            result_of (
              some_key keys
                (take crypto.rsa_num_bytes (drop (length eocd - 6 - crypto.rsa_num_bytes) eocd))
                digest))
  unfolding check_keys
  check_keys-some_key [] eocd digest h = refl
  check_keys-some_key (key ∷ keys) eocd digest h =
      rw
        (
          not_below (length eocd) (6 + crypto.rsa_num_bytes) h,
          check_keys-some_key keys eocd digest h,
        )
        (ground arith)

  -- The hash loop and the loop over the keys, on a file that holds the record.
  after_hash-some_key :
      (file : Bytes) (keys : List Key)
      → comment_size (footer_of file) + 22 ≤ length file
      → 6 + crypto.rsa_num_bytes ≤ comment_size (footer_of file) + 22
      → after_hash crypto keys (record_of file) (
          hash_from crypto file
            (length file - (comment_size (footer_of file) + 22) + 22 - 2)
            (length file - (comment_size (footer_of file) + 22) + 22 - 2)
            0
            crypto.sha_init)
        ≡ ok (result_of (some_key keys (embedded_signature file) (signed_digest file)))
  unfolding after_hash
  after_hash-some_key file keys inside whole =
      let n = length file in
      let c = comment_size (footer_of file) in
      let start = n - (c + 22) in
      let size : length (record_of file) ≡ c + 22 = omega (arith, length-drop start file) in
      let end : start + 22 - 2 - 0 ≡ n - c - 2 = omega arith in
      let there : start + (length (record_of file) - 6 - crypto.rsa_num_bytes)
          ≡ n - 6 - crypto.rsa_num_bytes =
        omega (arith, size) in
      rw
        (hash_from-take file (start + 22 - 2) (start + 22 - 2) 0 crypto.sha_init (omega arith)
          (omega arith))
        (check_keys-some_key keys (record_of file)
            (crypto.sha_final (crypto.sha_update crypto.sha_init (take (start + 22 - 2 - 0) file)))
            (omega (arith, size))
          ∙ rw (
            end,
            drop-drop (length (record_of file) - 6 - crypto.rsa_num_bytes) start file,
            there,
          ))

  -- Where the comment is long enough for a signature in it, verify_file succeeds exactly on the
  -- well signed files for which memory is left, and fails on the others.
  pub verify_file-well_signed :
      (file : Bytes) (keys : List Key) (got_eocd got_buffer : Bool)
      → 6 + crypto.rsa_num_bytes ≤ comment_size (footer_of file) + 22
      → verify_file crypto (some file) keys got_eocd got_buffer
        ≡ ok (result_of (got_eocd && got_buffer && well_signed file keys))
  unfolding verify_file
  verify_file-well_signed file keys got_eocd got_buffer whole =
      elim (compare-cases (length file) (comment_size (footer_of file) + 22)) [
        | inl short ↦ (ground arith)
        | inr inside ↦ rw (after_hash-some_key file keys inside whole) (ground arith)
      ]

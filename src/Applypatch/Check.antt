-- ===== src/Applypatch/Check.antt =====
-- applypatch_check of applypatch/applypatch.c.
use midnight_i9000_recovery.Applypatch.{
  suc, Files, FileContents, has_match, accepted, load_file_contents, cache_temp_source,
  applypatch_check, find_matching_patch,
}
use midnight_i9000_recovery.Common.{
  ℕ, zero, suc, ◌≡◌, ◌↔◌, refl, Bool, true, false, List, [], ◌∷◌, Option, none, some, ◌⊎◌, inl, inr,
  ◌||◌,
}
use midnight_i9000_recovery.Common.Text.{Bytes}
use midnight_i9000_recovery.Applypatch.Digest.{
  FirstDigest, NoDigest, FoundDigest, find_matching_patch-FoundDigest,
}

-- One of the strings is the digest of what is loaded.
abbrev pub Matches : List Bytes → Option FileContents → Type 0
Matches strs none = ⊥
Matches strs (some file) = (n : ℕ) × FirstDigest file.sha1 strs n

-- It is loaded, and matches if there are any strings.
abbrev pub Accepted : List Bytes → Option FileContents → Type 0
Accepted strs none = ⊥
Accepted [] (some file) = Unit
Accepted (str ∷ strs) (some file) = Matches (str ∷ strs) (some file)

pub not_both :
    (sha1 : Bytes) (strs : List Bytes) (n : ℕ) → NoDigest sha1 strs → FirstDigest sha1 strs n → ⊥
not_both sha1 [] n no_digest first = first
not_both sha1 (str ∷ strs) zero no_digest first = no_digest.0 first
not_both sha1 (str ∷ strs) (suc n) no_digest first = not_both sha1 strs n no_digest.1 first.1

module _ (files : Files) where
  has_match-Matches :
      (strs : List Bytes) (file : Option FileContents)
      → (has_match files strs file ≡ true) ↔ Matches strs file
  has_match-Matches strs none = (λ e. absurd (cc), λ h. absurd h)
  has_match-Matches strs (some file) =
      of_result (find_matching_patch file.sha1 strs)
        (find_matching_patch-FoundDigest file.sha1 strs)
    where
      of_result :
          (r : Option ℕ)
          → FoundDigest file.sha1 strs r
          → ((elim r [ none ↦ false | some i ↦ true ]) ≡ true) ↔ Matches strs (some file)
      of_result none h = (λ e. absurd (cc), λ m. absurd (not_both file.sha1 strs m.0 h m.1))
      of_result (some n) h = (λ e. (n, h), λ m. refl)

  accepted-Accepted :
      (strs : List Bytes) (file : Option FileContents)
      → (accepted files strs file ≡ true) ↔ Accepted strs file
  accepted-Accepted [] none = (λ e. absurd (cc), λ h. absurd h)
  accepted-Accepted (str ∷ strs) none = (λ e. absurd (cc), λ h. absurd h)
  accepted-Accepted [] (some file) = (λ e. tt, λ h. refl)
  accepted-Accepted (str ∷ strs) (some file) = has_match-Matches (str ∷ strs) (some file)

  either : (a b : Bool) → ((a || b) ≡ true) ↔ ((a ≡ true) ⊎ (b ≡ true))
  either true b = (λ e. inl refl, λ h. refl)
  either false b = (λ e. inr e, λ h. of_sum h)
    where
      of_sum : ((false ≡ true) ⊎ (b ≡ true)) → b ≡ true
      of_sum (inl e) = absurd (cc)
      of_sum (inr e) = e

  -- applypatch_check passes exactly when the file can be loaded and, if there are strings, one of
  -- them is its digest, or one of them is the digest of the copy in the cache.
  pub applypatch_check-Accepted :
      (filename : Bytes) (strs : List Bytes)
      → (applypatch_check files filename strs ≡ true) ↔ (
          Accepted strs (load_file_contents files filename)
          ⊎ Matches strs (load_file_contents files cache_temp_source))
  unfolding applypatch_check
  applypatch_check-Accepted filename strs = (forth, back)
    where
      file : Option FileContents
      file = load_file_contents files filename

      copy : Option FileContents
      copy = load_file_contents files cache_temp_source

      forth :
          (accepted files strs file || has_match files strs copy) ≡ true
          → Accepted strs file ⊎ Matches strs copy
      forth e = elim ((either (accepted files strs file) (has_match files strs copy)).0 e) [
        | inl a ↦ inl ((accepted-Accepted strs file).0 a)
        | inr b ↦ inr ((has_match-Matches strs copy).0 b)
      ]

      back :
          Accepted strs file ⊎ Matches strs copy
          → (accepted files strs file || has_match files strs copy) ≡ true
      back h = (either (accepted files strs file) (has_match files strs copy)).1 (elim h [
        | inl a ↦ inl ((accepted-Accepted strs file).1 a)
        | inr b ↦ inr ((has_match-Matches strs copy).1 b)
      ])

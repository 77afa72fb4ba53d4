-- ===== src/Applypatch/Apply/Choosing.antt =====
-- The choice of what to patch, the part of applypatch() up to its loop.
use midnight_i9000_recovery.Applypatch.{
  FileContents, Files, cache_temp_source, load_file_contents, find_matching_patch,
}
use midnight_i9000_recovery.Applypatch.Apply.{
  Job, target_filename, patch_sums, patch_at, patch_value, Choice, already_target, no_source,
  chosen, original, cached, is_target, is_loaded, choose_copy, choose_source, load_source,
  choose_from, choose,
}
use midnight_i9000_recovery.Applypatch.Check.{Matches, not_both}
use midnight_i9000_recovery.Applypatch.Laws.{OfDigest}
use midnight_i9000_recovery.Applypatch.Digest.{
  FirstDigest, FoundDigest, find_matching_patch-FoundDigest,
}
use midnight_i9000_recovery.Common.{
  ℕ, zero, suc, ◌≡◌, ◌≢◌, refl, sym, ap, Bool, true, false, not, ◌||◌, List, [], ◌∷◌, Option, none,
  some, if◌then◌else◌,
}
use midnight_i9000_recovery.Common.Text.{Bytes, bytes_eq, bytes_eq→≡}
use midnight_i9000_recovery.Edify.Value.{Value}

patch_at-FirstDigest :
    (sha1 : Bytes) (patches : List (Bytes × Value)) (n : ℕ)
    → FirstDigest sha1 (patch_sums patches) n
    → patch_at patches (some n) ≢ none
patch_at-FirstDigest sha1 [] n first = absurd first
patch_at-FirstDigest sha1 (p ∷ ps) zero first = λ e. absurd (cc)
patch_at-FirstDigest sha1 (p ∷ ps) (suc n) first = patch_at-FirstDigest sha1 ps n first.1

pub patch_value-some :
    (patches : List (Bytes × Value)) (file : FileContents) (patch : Value)
    → patch_value patches (some file) ≡ some patch
    → Matches (patch_sums patches) (some file)
patch_value-some patches file patch e =
    of_result (find_matching_patch file.sha1 (patch_sums patches))
      (find_matching_patch-FoundDigest file.sha1 (patch_sums patches)) e
  where
    of_result :
        (r : Option ℕ)
        → FoundDigest file.sha1 (patch_sums patches) r
        → patch_at patches r ≡ some patch
        → Matches (patch_sums patches) (some file)
    of_result none h e = absurd (cc)
    of_result (some n) h e = (n, h)

pub patch_value-none :
    (patches : List (Bytes × Value)) (file : Option FileContents)
    → patch_value patches file ≡ none
    → Matches (patch_sums patches) file
    → ⊥
patch_value-none patches none e m = m
patch_value-none patches (some file) e (n, first) =
    of_result (find_matching_patch file.sha1 (patch_sums patches))
      (find_matching_patch-FoundDigest file.sha1 (patch_sums patches)) e
  where
    of_result :
        (r : Option ℕ)
        → FoundDigest file.sha1 (patch_sums patches) r
        → patch_at patches r ≡ none
        → ⊥
    of_result none h e = not_both file.sha1 (patch_sums patches) n h first
    of_result (some k) h e = patch_at-FirstDigest file.sha1 patches k h e

module _ (files : Files) (job : Job) where
  abbrev pub source_loaded : Option FileContents
  source_loaded = load_file_contents files job.source_filename

  -- What each choice tells of the files.
  abbrev pub ChosenWell : Bytes → Choice → Type 0
  ChosenWell sha1 already_target = OfDigest sha1 (load_file_contents files (target_filename job))
  ChosenWell sha1 no_source =
      (Matches (patch_sums job.patches) source_loaded → ⊥)
      × (Matches (patch_sums job.patches) (load_file_contents files cache_temp_source) → ⊥)
  ChosenWell sha1 (chosen (original file patch)) =
      (source_loaded ≡ some file)
      × Matches (patch_sums job.patches) (some file)
      × (patch_value job.patches (some file) ≡ some patch)
  ChosenWell sha1 (chosen (cached source copy patch)) =
      (load_file_contents files cache_temp_source ≡ some copy)
      × (source ≡ source_loaded)
      × Matches (patch_sums job.patches) (some copy)
      × (Matches (patch_sums job.patches) source_loaded → ⊥)
      × (patch_value job.patches (some copy) ≡ some patch)

  load_source-loaded :
      load_source files job (load_file_contents files (target_filename job)) ≡ source_loaded
  load_source-loaded =
      of_test (is_loaded (load_file_contents files (target_filename job)))
        (bytes_eq (target_filename job) job.source_filename) refl
    where
      of_test :
          (loaded same : Bool)
          → bytes_eq (target_filename job) job.source_filename ≡ same
          → (if not loaded || not same
              then source_loaded
              else load_file_contents files (target_filename job))
            ≡ source_loaded
      of_test false same e = refl
      of_test true false e = refl
      of_test true true e =
          ap (load_file_contents files) (bytes_eq→≡ (target_filename job) job.source_filename e)

  choose_copy-ChosenWell :
      (sha1 : Bytes) (source copy : Option FileContents) (patch : Option Value)
      → source ≡ source_loaded
      → copy ≡ load_file_contents files cache_temp_source
      → patch_value job.patches copy ≡ patch
      → (Matches (patch_sums job.patches) source_loaded → ⊥)
      → ChosenWell sha1 (choose_copy source copy patch)
  choose_copy-ChosenWell sha1 source none patch same e p unmatched =
      (unmatched, rw (sym e) (λ m. m))
  choose_copy-ChosenWell sha1 source (some copy) none same e p unmatched =
      (unmatched, rw (sym e) (patch_value-none job.patches (some copy) p))
  choose_copy-ChosenWell sha1 source (some copy) (some patch) same e p unmatched =
      (sym e, same, patch_value-some job.patches copy patch p, unmatched, p)

  choose_source-ChosenWell :
      (sha1 : Bytes) (source : Option FileContents) (patch : Option Value) (otherwise : Choice)
      → source ≡ source_loaded
      → patch_value job.patches source ≡ patch
      → ((Matches (patch_sums job.patches) source_loaded → ⊥) → ChosenWell sha1 otherwise)
      → ChosenWell sha1 (choose_source otherwise source patch)
  choose_source-ChosenWell sha1 none patch otherwise e p other = other (rw (sym e) (λ m. m))
  choose_source-ChosenWell sha1 (some file) none otherwise e p other =
      other (rw (sym e) (patch_value-none job.patches (some file) p))
  choose_source-ChosenWell sha1 (some file) (some patch) otherwise e p other =
      (sym e, patch_value-some job.patches file patch p, p)

  is_target-OfDigest :
      (sha1 : Bytes) (file : Option FileContents) → is_target sha1 file ≡ true → OfDigest sha1 file
  is_target-OfDigest sha1 none e = absurd (cc)
  is_target-OfDigest sha1 (some file) e = bytes_eq→≡ file.sha1 sha1 e

  -- applypatch() does nothing only where the target has its digest; it patches the source where that
  -- matches one of the sums, otherwise the copy in the cache where that does, with the patch that
  -- FindMatchingPatch finds for it, and otherwise neither matches and it gives up.
  pub choose-ChosenWell : (sha1 : Bytes) → ChosenWell sha1 (choose files job sha1)
  unfolding choose
  choose-ChosenWell sha1 = of_test (is_target sha1 target) refl
    where
      target : Option FileContents
      target = load_file_contents files (target_filename job)

      copy : Option FileContents
      copy = load_file_contents files cache_temp_source

      source : Option FileContents
      source = load_source files job target

      of_test :
          (b : Bool)
          → is_target sha1 target ≡ b
          → ChosenWell sha1 (if b then already_target else choose_from files job source copy)
      of_test true e = is_target-OfDigest sha1 target e
      of_test false e =
          choose_source-ChosenWell sha1 source (patch_value job.patches source)
            (choose_copy source copy (patch_value job.patches copy)) load_source-loaded refl
            (choose_copy-ChosenWell sha1 source copy (patch_value job.patches copy)
              load_source-loaded refl refl)

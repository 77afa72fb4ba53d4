-- ===== src/Applypatch/Apply/Killed.antt =====
-- What applypatch() leaves, wherever it is killed and where it ends.
use midnight_i9000_recovery.Applypatch.Apply.{
  Job, original, cached, Choice, already_target, no_source, chosen, target_filename, patch_sums,
  choose, apply_choice, applypatch,
}
use midnight_i9000_recovery.Applypatch.{
  FileContents, Stat, is_partition, cache_temp_source, load_file_contents, parse_sha1, read_all,
}
use midnight_i9000_recovery.Applypatch.Disk.{FileSystem, World, files}
use midnight_i9000_recovery.Applypatch.Rules.{Safe, Post, return-Post, fail-Post}
use midnight_i9000_recovery.Applypatch.Laws.{OfDigest, IsFileSystem, HasDigest}
use midnight_i9000_recovery.Applypatch.Check.{Matches}
use midnight_i9000_recovery.Applypatch.Digest.{FirstDigest}
use midnight_i9000_recovery.Applypatch.Apply.Looping.{Apart}
use midnight_i9000_recovery.Applypatch.Apply.Sinking.{Short}
use midnight_i9000_recovery.Applypatch.Apply.Recover.{chosen-Target}
use midnight_i9000_recovery.Applypatch.Apply.Choosing.{ChosenWell, choose-ChosenWell}
use midnight_i9000_recovery.Common.{
  ℕ, ◌≡◌, ◌≢◌, refl, sym, ◌⊎◌, inl, inr, Bool, true, false, List, length, take, Option, none, some,
  ltb, if◌then◌else◌,
}
use midnight_i9000_recovery.Common.Run.{Returns}
use midnight_i9000_recovery.Common.Text.{Bytes}
use mathlib.Core.Path.{subst}

Matches-FirstDigest :
    (digest : Bytes) (strs : List Bytes) (file : Option FileContents) (n : ℕ)
    → FirstDigest digest strs n
    → OfDigest digest file
    → Matches strs file
Matches-FirstDigest digest strs none n first of = of
Matches-FirstDigest digest strs (some file) n first of =
    (n, subst (λ z. FirstDigest z strs n) (sym of) first)

of_some : {file : Option FileContents} {f : FileContents} → file ≡ some f → OfDigest f.sha1 file
of_some e = rw e refl

module _ {S : Type 0} (fs : FileSystem S) (lawful : IsFileSystem fs) where
  read_all-sha :
      (s : S) (st : Option Stat) (content : Option Bytes) (file : FileContents)
      → read_all (files fs s) st content ≡ some file
      → file.sha1 ≡ fs.sha file.content
  read_all-sha s none content file e = absurd (cc)
  read_all-sha s (some st) none file e = absurd (cc)
  read_all-sha s (some st) (some content) file e = of_test (ltb (length content) st.size) e
    where
      of_test :
          (short : Bool)
          → (if short
              then none
              else some (record {
                content = take st.size content;
                sha1 = fs.sha (take st.size content);
                st = st;
              }))
            ≡ some file
          → file.sha1 ≡ fs.sha file.content
      of_test true e = absurd (cc)
      of_test false e = cc

  -- What is loaded has its digest.
  load_file_contents-sha :
      (s : S) (name : Bytes) (file : FileContents)
      → load_file_contents (files fs s) name ≡ some file
      → file.sha1 ≡ fs.sha file.content
  unfolding load_file_contents
  load_file_contents-sha s name file e = of_test (is_partition name) e
    where
      of_test :
          (partition : Bool)
          → (if partition
              then fs.load_partition_contents s name
              else read_all (files fs s) (fs.stat s name) (fs.open_content s name))
            ≡ some file
          → file.sha1 ≡ fs.sha file.content
      of_test true e = lawful.partition_sha s name file e
      of_test false e = read_all-sha s (fs.stat s name) (fs.open_content s name) file e

  module _ (job : Job) (target_sha1 : Bytes) where
    -- Another run can finish the work: the target is there, or what it is made from.
    abbrev pub Recoverable : S → Type 0
    Recoverable s =
        HasDigest fs (target_filename job) target_sha1 s
        ⊎ (Matches (patch_sums job.patches) (load_file_contents (files fs s) job.source_filename)
            ⊎ Matches (patch_sums job.patches) (load_file_contents (files fs s) cache_temp_source))

    abbrev pub Targeted : Unit {0} → S → Type 0
    Targeted _ s = HasDigest fs (target_filename job) target_sha1 s

    of_choice :
        (apart : Apart fs lawful job) (w : World S)
        → ((d : Bytes) → Short fs job d → fs.sha d ≢ target_sha1)
        → (is_partition (target_filename job) ≡ true
            → lawful.Lists (target_filename job) target_sha1)
        → (is_partition (target_filename job) ≡ true
            → Matches
                (patch_sums job.patches)
                (load_file_contents (files fs w.now) job.source_filename))
        → Safe Recoverable w
        → (choice : Choice) → ChosenWell (files fs w.now) job target_sha1 choice
        → Returns (apply_choice fs job target_sha1 choice w) (Post Recoverable Targeted)
    of_choice apart w whole lists source safe already_target well =
        return-Post Recoverable Targeted tt w well safe
    of_choice apart w whole lists source safe no_source well = fail-Post Recoverable Targeted w safe
    of_choice apart w whole lists source safe (chosen (original file patch)) (e, (n, first), fits) =
        chosen-Target fs lawful Recoverable job apart file.sha1 target_sha1
          (λ s has. inr (
            inl (
              Matches-FirstDigest file.sha1 (patch_sums job.patches)
                (load_file_contents (files fs s) job.source_filename) n first has)))
          (λ s has. inr (
            inr (
              Matches-FirstDigest file.sha1 (patch_sums job.patches)
                (load_file_contents (files fs s) cache_temp_source) n first has)))
          (λ s has. inl has) (original file patch) w
          (sym (load_file_contents-sha w.now job.source_filename file e), fits) whole lists
          (sym (load_file_contents-sha w.now job.source_filename file e)) (of_some e) safe
    of_choice apart w whole lists source safe (chosen (cached other copy patch))
          (e, same, (n, first), unmatched, fits) =
        chosen-Target fs lawful Recoverable job apart copy.sha1 target_sha1
          (λ s has. inr (
            inl (
              Matches-FirstDigest copy.sha1 (patch_sums job.patches)
                (load_file_contents (files fs s) job.source_filename) n first has)))
          (λ s has. inr (
            inr (
              Matches-FirstDigest copy.sha1 (patch_sums job.patches)
                (load_file_contents (files fs s) cache_temp_source) n first has)))
          (λ s has. inl has) (cached other copy patch) w
          (sym (load_file_contents-sha w.now cache_temp_source copy e), fits) whole lists
          (a_file (is_partition (target_filename job)) refl) (of_some e) safe
      where
        a_file :
            (b : Bool)
            → is_partition (target_filename job) ≡ b
            → is_partition (target_filename job) ≡ false
        a_file true e' = absurd (unmatched (source e'))
        a_file false e' = e'

    applypatch-Post :
        (apart : Apart fs lawful job) (w : World S)
        → parse_sha1 job.target_sha1_str ≡ some target_sha1
        → ((d : Bytes) → Short fs job d → fs.sha d ≢ target_sha1)
        → (is_partition (target_filename job) ≡ true
            → lawful.Lists (target_filename job) target_sha1)
        → (is_partition (target_filename job) ≡ true
            → Matches
                (patch_sums job.patches)
                (load_file_contents (files fs w.now) job.source_filename))
        → Safe Recoverable w
        → Returns (applypatch fs job w) (Post Recoverable Targeted)
    unfolding applypatch
    applypatch-Post apart w parsed whole lists source safe = rw parsed (
        of_choice apart w whole lists source safe (choose (files fs w.now) job target_sha1)
          (choose-ChosenWell (files fs w.now) job target_sha1))

    -- Where applypatch() has returned 0.
    abbrev pub Targets : Option (Unit {0}) × World S → Type 0
    Targets (none, w) = Unit
    Targets (some a, w) = HasDigest fs (target_filename job) target_sha1 w.now

    -- applypatch() ends, and where it returns 0 the target can be loaded and has the target sum,
    -- under the conditions under which it can be run again wherever it is killed.
    pub applypatch-Targeted :
        (apart : Apart fs lawful job) (w : World S)
        → parse_sha1 job.target_sha1_str ≡ some target_sha1
        → ((d : Bytes) → Short fs job d → fs.sha d ≢ target_sha1)
        → (is_partition (target_filename job) ≡ true
            → lawful.Lists (target_filename job) target_sha1)
        → (is_partition (target_filename job) ≡ true
            → Matches
                (patch_sums job.patches)
                (load_file_contents (files fs w.now) job.source_filename))
        → Safe Recoverable w
        → Returns (applypatch fs job w) Targets
    applypatch-Targeted apart w parsed whole lists source safe =
        let (r, e, post) = applypatch-Post apart w parsed whole lists source safe in
        (r, e, of_post r post)
      where
        of_post : (r : Option (Unit {0}) × World S) → Post Recoverable Targeted r → Targets r
        of_post (none, w') post = tt
        of_post (some a, w') post = post.0

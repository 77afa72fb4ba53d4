-- ===== src/Applypatch/Apply/Recover.antt =====
-- applypatch() as a whole: the states through which it passes, and what it leaves.
use midnight_i9000_recovery.Applypatch.{FileContents, is_partition, cache_temp_source}
use midnight_i9000_recovery.Applypatch.Disk.{FileSystem, World, perform, demand, set_attributes}
use midnight_i9000_recovery.Applypatch.Apply.{
  Job, Chosen, chosen, Output, in_memory, in_file, Patched, target_filename, patch_file,
  source_to_use, chosen_patch, attempt, install, drop_copy, finish, apply_choice,
}
use midnight_i9000_recovery.Applypatch.Rules.{
  Kept-map, Safe, Post, perform-Post, return-Post, fail-Post, bind-Post, demand-Post,
}
use midnight_i9000_recovery.Applypatch.Laws.{IsFileSystem, HasDigest}
use midnight_i9000_recovery.Applypatch.Saving.{Kept-R, Writing, set_attributes-Post}
use midnight_i9000_recovery.Applypatch.Apply.Sinking.{OutputHolds, Fits, Outcome, Short}
use midnight_i9000_recovery.Applypatch.Apply.Looping.{start_name, Usable, Apart}
use midnight_i9000_recovery.Applypatch.Apply.Attempt.{Held, Looped, attempt-Looped}
use midnight_i9000_recovery.Common.{
  ℕ, ◌≡◌, ◌≢◌, refl, sym, ap, ◌∙◌, ◌⊎◌, inl, inr, Bool, true, false, if◌then◌else◌,
}
use midnight_i9000_recovery.Common.Run.{Returns}
use midnight_i9000_recovery.Common.Prog.{return, fail, ◌>>◌}
use midnight_i9000_recovery.Common.Text.{Bytes, bytes_eq, bytes_eq→≡}
use mathlib.Core.Path.{subst}

module _ {S : Type 0} (fs : FileSystem S) (lawful : IsFileSystem fs) (R : S → Type 0) (job : Job)
    (apart : Apart fs lawful job) (digest target_sha1 : Bytes)
    (of_source : (s : S) → HasDigest fs job.source_filename digest s → R s)
    (of_cache : (s : S) → HasDigest fs cache_temp_source digest s → R s)
    (of_target : (s : S) → HasDigest fs (target_filename job) target_sha1 s → R s) where
  abbrev Target : S → Type 0
  Target s = HasDigest fs (target_filename job) target_sha1 s

  -- The patched file takes the place of the target, while `other` keeps its contents.
  rename-Target :
      (other : Bytes)
      → ((s : S) → HasDigest fs other digest s → R s)
      → patch_file (target_filename job) ≢ other
      → (fd : ℕ) (content : Bytes) (file : FileContents) (w : World S)
      → is_partition (target_filename job) ≡ false
      → fs.sha content ≡ target_sha1
      → lawful.Opened fd (patch_file (target_filename job)) content w.now
      → HasDigest fs other digest w.now
      → Safe R w
      → Returns (install fs job (in_file fd) file w) (Post R (λ _. Target))
  rename-Target other of_other away fd content file w a_file same writing has safe =
      bind-Post R
        (λ _.
          Writing fs lawful R other digest of_other (patch_file (target_filename job)) away fd
            content)
        (λ _. Target) (set_attributes fs (patch_file (target_filename job)) file.st)
        (λ _. demand (fs.rename (patch_file (target_filename job)) (target_filename job))) w
        (set_attributes-Post fs lawful R other digest of_other (patch_file (target_filename job))
          away fd content file.st w safe (writing, has))
        (λ _ w' h safe'.
          demand-Post R Target (fs.rename (patch_file (target_filename job)) (target_filename job))
            w' safe'
            (Kept-map
              (λ s.
                HasDigest fs other digest s ⊎ HasDigest fs (target_filename job) (fs.sha content) s)
              R of_either
              (fs.rename (patch_file (target_filename job)) (target_filename job) w'.now)
              (lawful.rename_keeps fd (patch_file (target_filename job)) (target_filename job)
                content other digest w'.now a_file h.0 away h.1))
            (λ e.
              subst
                (λ z.
                  HasDigest fs (target_filename job) z
                    (fs.rename (patch_file (target_filename job)) (target_filename job)
                      w'.now).after)
                same
                (lawful.renamed fd (patch_file (target_filename job)) (target_filename job) content
                  w'.now a_file h.0 e)))
    where
      of_either :
          (s : S)
          → (HasDigest fs other digest s ⊎ HasDigest fs (target_filename job) (fs.sha content) s)
          → R s
      of_either s (inl h) = of_other s h
      of_either s (inr h) = of_target s (subst (λ z. HasDigest fs (target_filename job) z s) same h)

  install-Target :
      (output : Output) (content : Bytes) (file : FileContents) (w : World S)
      → (is_partition (target_filename job) ≡ true → lawful.Lists (target_filename job) target_sha1)
      → fs.sha content ≡ target_sha1
      → Held fs lawful R job apart digest of_source of_cache w.now
      → OutputHolds fs lawful job content output w.now
      → Safe R w
      → Returns (install fs job output file w) (Post R (λ _. Target))
  install-Target (in_file fd) content file w lists same (inl has) (a_file, writing) safe =
      rename-Target cache_temp_source of_cache apart.patch_cache fd content file w a_file same
        writing has safe
  install-Target (in_file fd) content file w lists same (inr (has, _)) (a_file, writing) safe =
      rename-Target job.source_filename of_source apart.patch_source fd content file w a_file same
        writing has safe
  install-Target (in_memory msi) content file w lists same (inr (has, a_file)) (partition, e) safe =
      absurd (cc)
  install-Target (in_memory msi) content file w lists same (inl has) (partition, e) safe =
      let sha : fs.sha msi.buffer ≡ target_sha1 = ap fs.sha e ∙ same in
      let kept =
        lawful.partition_keeps msi.buffer (target_filename job) digest w.now partition has in
      demand-Post R Target (fs.write_to_partition msi.buffer (target_filename job)) w safe
        (Kept-R fs lawful R cache_temp_source digest of_cache
          (fs.write_to_partition msi.buffer (target_filename job) w.now) kept)
        (λ wrote.
          subst
            (λ z.
              HasDigest fs (target_filename job) z
                (fs.write_to_partition msi.buffer (target_filename job) w.now).after)
            sha
            (lawful.partition_written msi.buffer (target_filename job) w.now partition
              (subst (lawful.Lists (target_filename job)) (sym sha) (lists partition)) wrote))

  drop_copy-Target :
      (made : Bool) (w : World S)
      → Target w.now
      → Safe R w
      → Returns (drop_copy fs job made w) (Post R (λ _. Target))
  drop_copy-Target false w has safe = return-Post R (λ _. Target) tt w has safe
  drop_copy-Target true w has safe =
      let kept =
        lawful.unlink_keeps cache_temp_source (target_filename job) target_sha1 w.now
          (λ e. apart.target_cache (sym e)) has in
      bind-Post R (λ _. Target) (λ _. Target) (perform (fs.unlink cache_temp_source))
        (λ gone. return tt) w
        (perform-Post R (λ _. Target) (fs.unlink cache_temp_source) w safe
          (Kept-R fs lawful R (target_filename job) target_sha1 of_target
            (fs.unlink cache_temp_source w.now) kept)
          kept.1)
        (λ gone w' has' safe'. return-Post R (λ _. Target) tt w' has' safe')

  finish-Target :
      (c : Chosen) (r : Patched × Bool) (w : World S)
      → ((d : Bytes) → Short fs job d → fs.sha d ≢ target_sha1)
      → (is_partition (target_filename job) ≡ true → lawful.Lists (target_filename job) target_sha1)
      → Looped fs lawful R job apart digest of_source of_cache r w.now
      → Safe R w
      → Returns (finish fs job target_sha1 c r w) (Post R (λ _. Target))
  finish-Target c (patched, made) w whole lists (held, outcome) safe =
      of_test (bytes_eq (fs.sha patched.digested) target_sha1) refl
    where
      of_outcome :
          fs.sha patched.digested ≡ target_sha1
          → Outcome fs lawful job patched.digested patched.output w.now
          → Returns (install fs job patched.output (source_to_use c) w) (Post R (λ _. Target))
      of_outcome same (inl holds) =
          install-Target patched.output patched.digested (source_to_use c) w lists same held holds
            safe
      of_outcome same (inr short) = absurd (whole patched.digested short same)

      of_test :
          (b : Bool)
          → bytes_eq (fs.sha patched.digested) target_sha1 ≡ b
          → Returns
              ((if b
                  then (install fs job patched.output (source_to_use c) >> drop_copy fs job made)
                  else fail)
                w)
              (Post R (λ _. Target))
      of_test false e = fail-Post R (λ _. Target) w safe
      of_test true e =
          bind-Post R (λ _. Target) (λ _. Target) (install fs job patched.output (source_to_use c))
            (λ _. drop_copy fs job made) w
            (of_outcome (bytes_eq→≡ (fs.sha patched.digested) target_sha1 e) outcome)
            (λ _. drop_copy-Target made)

  pub chosen-Target :
      (c : Chosen) (w : World S)
      → Fits fs job (source_to_use c) (chosen_patch c)
      → ((d : Bytes) → Short fs job d → fs.sha d ≢ target_sha1)
      → (is_partition (target_filename job) ≡ true → lawful.Lists (target_filename job) target_sha1)
      → Usable fs job digest c
      → HasDigest fs (start_name job c) digest w.now
      → Safe R w
      → Returns (apply_choice fs job target_sha1 (chosen c) w) (Post R (λ _. Target))
  chosen-Target c w fits whole lists usable has safe =
      bind-Post R (Looped fs lawful R job apart digest of_source of_cache) (λ _. Target)
        (attempt fs job 1 false c) (finish fs job target_sha1 c) w
        (attempt-Looped fs lawful R job apart digest of_source of_cache c fits 1 false w usable safe
          has)
        (λ r w' looped safe'. finish-Target c r w' whole lists looped safe')

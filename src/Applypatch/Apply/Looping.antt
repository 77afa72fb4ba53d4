-- ===== src/Applypatch/Apply/Looping.antt =====
-- The loop of applypatch(): where the file that is patched can be found while it runs.
use midnight_i9000_recovery.Applypatch.{some, ok, FileContents, is_partition, cache_temp_source}
use midnight_i9000_recovery.Applypatch.Disk.{FileSystem, World, perform, demand, save_file_contents}
use midnight_i9000_recovery.Applypatch.Apply.{
  Job, Chosen, original, cached, target_filename, patch_file, back_up, back_up_source, make_room,
  enough_space, prepare,
}
use midnight_i9000_recovery.Applypatch.Rules.{
  Safe, Post, Post-map, perform-Post, return-Post, fail-Post, bind-Post, demand-Post,
}
use midnight_i9000_recovery.Applypatch.Laws.{IsFileSystem, HasDigest}
use midnight_i9000_recovery.Applypatch.Saving.{Kept-R, save_file_contents-Post}
use midnight_i9000_recovery.Common.{
  ℕ, ◌≡◌, ◌≢◌, refl, sym, ◌⊎◌, inl, inr, Bool, true, false, length, if◌then◌else◌,
}
use midnight_i9000_recovery.Common.Run.{Returns}
use midnight_i9000_recovery.Common.Prog.{return, fail, ◌>>=◌, ◌>>◌}
use midnight_i9000_recovery.Common.Text.{Bytes}
use mathlib.Core.Path.{subst}

-- The name of what is patched.
abbrev pub start_name : Job → Chosen → Bytes
start_name job (original file patch) = job.source_filename
start_name job (cached source copy patch) = cache_temp_source

-- A partition is patched from the source, whose contents have this digest.
abbrev pub Usable : {S : Type 0} → FileSystem S → Job → Bytes → Chosen → Type 0
Usable fs job digest (original file patch) = fs.sha file.content ≡ digest
Usable fs job digest (cached source copy patch) = is_partition (target_filename job) ≡ false

-- The names of a job are those of different files, and MakeFreeSpaceOnCache spares the source.
pub record Apart {S : Type 0} (fs : FileSystem S) (lawful : IsFileSystem fs) (job : Job)
    : Type 0 where
  pub source_cache : job.source_filename ≢ cache_temp_source
  pub target_cache : target_filename job ≢ cache_temp_source
  pub patch_source : patch_file (target_filename job) ≢ job.source_filename
  pub patch_cache : patch_file (target_filename job) ≢ cache_temp_source
  pub source_spared : lawful.Spared job.source_filename

module _ {S : Type 0} (fs : FileSystem S) (lawful : IsFileSystem fs) (R : S → Type 0) (job : Job)
    (apart : Apart fs lawful job) (digest : Bytes)
    (of_source : (s : S) → HasDigest fs job.source_filename digest s → R s)
    (of_cache : (s : S) → HasDigest fs cache_temp_source digest s → R s) where
  -- The copy in the cache is what is patched.
  abbrev pub Copied : S → Type 0
  Copied s = HasDigest fs cache_temp_source digest s

  back_up-Post :
      (file : FileContents) (w : World S)
      → fs.sha file.content ≡ digest
      → Safe R w
      → HasDigest fs job.source_filename digest w.now
      → Returns (back_up fs file w) (Post R (λ _. Copied))
  back_up-Post file w same safe has =
      let kept =
        lawful.space_keeps (length file.content) job.source_filename digest w.now
          apart.source_spared has in
      bind-Post R (λ _ s. HasDigest fs job.source_filename digest s) (λ _. Copied)
        (demand (fs.make_free_space_on_cache (length file.content)))
        (λ _. save_file_contents fs cache_temp_source file) w
        (demand-Post R (HasDigest fs job.source_filename digest)
          (fs.make_free_space_on_cache (length file.content)) w safe
          (Kept-R fs lawful R job.source_filename digest of_source
            (fs.make_free_space_on_cache (length file.content) w.now) kept)
          (λ _. kept.1))
        (λ _ w' has' safe'.
          Post-map R (λ _ s. HasDigest fs cache_temp_source (fs.sha file.content) s) (λ _. Copied)
            (save_file_contents fs cache_temp_source file w')
            (λ _ s h. subst (λ z. HasDigest fs cache_temp_source z s) same h)
            (save_file_contents-Post fs lawful R job.source_filename digest of_source
              cache_temp_source file (λ e. apart.source_cache (sym e)) w' refl safe' has'))

  -- Where the file is after the first part of the loop: in the cache, or, unless the target is a
  -- partition, still under its own name.
  abbrev pub Ready : Chosen → ℕ × Bool → S → Type 0
  Ready c p s =
      (HasDigest fs cache_temp_source digest s
        × ((p.0 ≡ 0) ⊎ (start_name job c ≡ cache_temp_source)))
      ⊎ (HasDigest fs job.source_filename digest s
          × (is_partition (target_filename job) ≡ false)
          × (start_name job c ≡ job.source_filename))

  return_made :
      (c : Chosen) (made : Bool) (w : World S)
      → HasDigest fs cache_temp_source digest w.now
      → Safe R w
      → Returns (return (0, made) w) (Post R (Ready c))
  return_made c made w has safe = return-Post R (Ready c) (0, made) w (inl (has, inl refl)) safe

  make_room-Post :
      (c : Chosen) (made : Bool) (w : World S)
      → Usable fs job digest c
      → Safe R w
      → HasDigest fs (start_name job c) digest w.now
      → Returns (make_room fs job made c w) (Post R (λ _. Copied))
  make_room-Post (cached source copy patch) made w usable safe has =
      return-Post R (λ _. Copied) made w has safe
  make_room-Post (original file patch) made w usable safe has =
      of_test (is_partition job.source_filename)
    where
      unlinked :
          (w' : World S)
          → HasDigest fs cache_temp_source digest w'.now
          → Safe R w'
          → Returns
              ((perform (fs.unlink job.source_filename) >>= λ gone. return true) w')
              (Post R (λ _. Copied))
      unlinked w' has' safe' =
          let kept =
            lawful.unlink_keeps job.source_filename cache_temp_source digest w'.now
              apart.source_cache has' in
          bind-Post R (λ _. Copied) (λ _. Copied) (perform (fs.unlink job.source_filename))
            (λ gone. return true) w'
            (perform-Post R (λ _. Copied) (fs.unlink job.source_filename) w' safe'
              (Kept-R fs lawful R cache_temp_source digest of_cache
                (fs.unlink job.source_filename w'.now) kept)
              kept.1)
            (λ gone w'' has'' safe''. return-Post R (λ _. Copied) true w'' has'' safe'')

      of_test :
          (b : Bool)
          → Returns
              ((if b
                  then fail
                  else (back_up fs file
                      >> (perform (fs.unlink job.source_filename) >>= λ gone. return true)))
                w)
              (Post R (λ _. Copied))
      of_test true = fail-Post R (λ _. Copied) w safe
      of_test false =
          bind-Post R (λ _. Copied) (λ _. Copied) (back_up fs file)
            (λ _. perform (fs.unlink job.source_filename) >>= λ gone. return true) w
            (back_up-Post file w usable safe has) (λ _. unlinked)

  back_up_source-Post :
      (c : Chosen) (w : World S)
      → is_partition (target_filename job) ≡ true
      → Usable fs job digest c
      → Safe R w
      → HasDigest fs (start_name job c) digest w.now
      → Returns (back_up_source fs c w) (Post R (λ _. Copied))
  back_up_source-Post (original file patch) w partition usable safe has =
      back_up-Post file w usable safe has
  back_up_source-Post (cached source copy patch) w partition usable safe has = absurd (cc)

  unprepared :
      (c : Chosen) (p : ℕ × Bool) (s : S)
      → is_partition (target_filename job) ≡ false
      → HasDigest fs (start_name job c) digest s
      → Ready c p s
  unprepared (original file patch) p s a_file has = inr (has, a_file, refl)
  unprepared (cached source copy patch) p s a_file has = inl (has, inr refl)

  pub prepare-Ready :
      (retry : ℕ) (made : Bool) (c : Chosen) (w : World S)
      → Usable fs job digest c
      → Safe R w
      → HasDigest fs (start_name job c) digest w.now
      → Returns (prepare fs job retry made c w) (Post R (Ready c))
  prepare-Ready retry made c w usable safe has =
      of_tests (is_partition (target_filename job)) refl (enough_space fs job w.now retry)
    where
      of_tests :
          (partition : Bool)
          → is_partition (target_filename job) ≡ partition
          → (enough : Bool)
          → Returns
              (if partition
                then (back_up_source fs c >> return (0, true)) w
                else if enough
                then ok (some (retry, made), w)
                else (make_room fs job made c >>= λ made'. return (0, made')) w)
              (Post R (Ready c))
      of_tests true e enough =
          bind-Post R (λ _. Copied) (Ready c) (back_up_source fs c) (λ _. return (0, true)) w
            (back_up_source-Post c w e usable safe has)
            (λ _ w' has' safe'. return_made c true w' has' safe')
      of_tests false e true =
          return-Post R (Ready c) (retry, made) w (unprepared c (retry, made) w.now e has) safe
      of_tests false e false =
          bind-Post R (λ _. Copied) (Ready c) (make_room fs job made c) (λ made'. return (0, made'))
            w (make_room-Post c made w usable safe has)
            (λ made' w' has' safe'. return_made c made' w' has' safe')

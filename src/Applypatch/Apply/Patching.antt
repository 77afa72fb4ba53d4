-- ===== src/Applypatch/Apply/Patching.antt =====
-- One pass of the loop of applypatch(), while the file that is patched keeps its contents.
use midnight_i9000_recovery.Applypatch.{ok, FileContents, is_partition}
use midnight_i9000_recovery.Applypatch.Disk.{FileSystem, Format, World, perform}
use midnight_i9000_recovery.Applypatch.Apply.{
  Job, Chosen, Output, in_memory, in_file, Patched, target_filename, patch_file, format_of, is_blob,
  chosen_patch, source_to_use, sink_pieces, open_output, opened, decode_to, patch_once,
}
use midnight_i9000_recovery.Applypatch.Rules.{
  Safe, Post, Post-map, return-Post, fail-Post, bind-Post,
}
use midnight_i9000_recovery.Applypatch.Laws.{IsFileSystem, HasDigest}
use midnight_i9000_recovery.Applypatch.Saving.{open_trunc-Post}
use midnight_i9000_recovery.Common.{
  ℕ, ◌≡◌, ◌≢◌, refl, inl, inr, Bool, true, false, [], Option, none, some, if◌then◌else◌,
}
use midnight_i9000_recovery.Common.Run.{Returns}
use midnight_i9000_recovery.Common.Prog.{Prog, fail, ◌>>=◌}
use midnight_i9000_recovery.Common.Text.{Bytes}
use midnight_i9000_recovery.Edify.Value.{Value}
use midnight_i9000_recovery.Applypatch.Apply.Sinking.{
  OutputHolds, Omits, Fits, Made, PatchedTo, sink_pieces-Made,
}

module _ {S : Type 0} (fs : FileSystem S) (lawful : IsFileSystem fs) (R : S → Type 0)
    (other digest : Bytes) (safe_of : (s : S) → HasDigest fs other digest s → R s) (job : Job)
    (apart : patch_file (target_filename job) ≢ other) where
  abbrev Empty : Output → S → Type 0
  Empty output s = HasDigest fs other digest s × OutputHolds fs lawful job [] output s

  opened-Empty :
      (fd : Option ℕ) (w : World S)
      → is_partition (target_filename job) ≡ false
      → HasDigest fs other digest w.now
        × ((n : ℕ) → fd ≡ some n → lawful.Opened n (patch_file (target_filename job)) [] w.now)
      → Safe R w
      → Returns (opened fs job fd w) (Post R Empty)
  opened-Empty none w a_file h safe = fail-Post R Empty w safe
  opened-Empty (some fd) w a_file (has, now) safe =
      return-Post R Empty (in_file fd) w (has, (a_file, now fd refl)) safe

  open_output-Empty :
      (w : World S)
      → Safe R w
      → HasDigest fs other digest w.now
      → Returns (open_output fs job w) (Post R Empty)
  open_output-Empty w safe has =
      of_tests (is_partition (target_filename job)) refl (fs.malloc w.now job.target_size)
    where
      of_tests :
          (partition : Bool)
          → is_partition (target_filename job) ≡ partition
          → (room : Bool)
          → Returns
              (if partition
                then (if room
                    then ok (some (in_memory (record { buffer = []; size = job.target_size })), w)
                    else ok (none, w))
                else (perform (fs.open_trunc (patch_file (target_filename job))) >>= opened fs job)
                    w)
              (Post R Empty)
      of_tests true e true =
          return-Post R Empty (in_memory (record { buffer = []; size = job.target_size })) w
            (has, (e, refl)) safe
      of_tests true e false = fail-Post R Empty w safe
      of_tests false e room =
          bind-Post R
            (λ r s.
              HasDigest fs other digest s
              × ((fd : ℕ) → r ≡ some fd → lawful.Opened fd (patch_file (target_filename job)) [] s))
            Empty (perform (fs.open_trunc (patch_file (target_filename job)))) (opened fs job) w
            (open_trunc-Post fs lawful R other digest safe_of (patch_file (target_filename job)) w
              apart safe has)
            (λ fd w' h. opened-Empty fd w' e h)

  decode_to-PatchedTo :
      (file : FileContents) (patch : Value) (output : Output) (format : Option Format) (w : World S)
      → Empty output w.now
      → Fits fs job file patch
      → format_of patch ≡ format
      → Safe R w
      → Returns
          (decode_to fs job file patch output format w)
          (Post R (PatchedTo fs lawful R other digest safe_of job apart))
  decode_to-PatchedTo file patch output none w h fits of_patch safe =
      fail-Post R (PatchedTo fs lawful R other digest safe_of job apart) w safe
  decode_to-PatchedTo file patch output (some format) w (has, holds) fits of_patch safe =
      let decoded = fs.decode format file.content patch.contents in
      Post-map R (Made fs lawful R other digest safe_of job apart (Omits [] decoded.0))
        (PatchedTo fs lawful R other digest safe_of job apart)
        (sink_pieces fs decoded.0 decoded.1 [] output w)
        (λ patched s h. (
          h.0,
          λ e. elim (h.1 e) [
            | inl a ↦ inl a
            | inr b ↦ inr (file, patch, format, fits, of_patch, b)
          ],
        ))
        (sink_pieces-Made fs lawful R other digest safe_of job apart decoded.0 decoded.1 [] output w
          safe has holds)

  pub patch_once-PatchedTo :
      (c : Chosen) (w : World S)
      → Fits fs job (source_to_use c) (chosen_patch c)
      → Safe R w
      → HasDigest fs other digest w.now
      → Returns
          (patch_once fs job c w)
          (Post R (PatchedTo fs lawful R other digest safe_of job apart))
  patch_once-PatchedTo c w fits safe has = of_test (is_blob (chosen_patch c).kind)
    where
      decode : Output → Prog (World S) Patched
      decode output =
          decode_to fs job (source_to_use c) (chosen_patch c) output (format_of (chosen_patch c))

      of_test :
          (b : Bool)
          → Returns
              ((if b then (open_output fs job >>= decode) else fail) w)
              (Post R (PatchedTo fs lawful R other digest safe_of job apart))
      of_test true =
          bind-Post R Empty (PatchedTo fs lawful R other digest safe_of job apart)
            (open_output fs job) decode w (open_output-Empty w safe has)
            (λ output w' h safe'.
              decode_to-PatchedTo (source_to_use c) (chosen_patch c) output
                (format_of (chosen_patch c)) w' h fits refl safe')
      of_test false = fail-Post R (PatchedTo fs lawful R other digest safe_of job apart) w safe

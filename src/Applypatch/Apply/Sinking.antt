-- ===== src/Applypatch/Apply/Sinking.antt =====
-- What a patch sends to the sink of applypatch(), while the file that is patched keeps its contents.
use midnight_i9000_recovery.Applypatch.Apply.{
  format_of, patch_value, Value, Job, Output, in_memory, in_file, Patched, target_filename,
  patch_file, sink, sink_pieces, if_refused,
}
use midnight_i9000_recovery.Common.{
  arith, ◌<◌, ℕ, ◌-◌, ◌≡◌, ◌≢◌, refl, ap, ◌⊎◌, inl, inr, Bool, true, false, List, [], ◌∷◌, ◌++◌,
  length, Option, none, some, ltb, if◌then◌else◌,
}
use midnight_i9000_recovery.Applypatch.{
  Run, FileContents, is_partition, MemorySinkInfo, memory_sink,
}
use midnight_i9000_recovery.Applypatch.Disk.{Piece, FileSystem, Format, World, sink_file}
use midnight_i9000_recovery.Applypatch.Rules.{Safe, Post, Post-map, return-Post, bind-Post}
use midnight_i9000_recovery.Applypatch.Laws.{IsFileSystem, HasDigest}
use midnight_i9000_recovery.Applypatch.Saving.{Open, SunkTo, sink_file-Post}
use midnight_i9000_recovery.Common.Run.{Returns}
use midnight_i9000_recovery.Common.Prog.{Prog, return}
use midnight_i9000_recovery.Common.Text.{Bytes}

abbrev sunk_if : Bool → Bytes → MemorySinkInfo → Option ℕ × MemorySinkInfo
sunk_if full bytes msi =
    if full then (none, msi) else (some (length bytes), record msi { buffer = msi.buffer ++ bytes })

-- A sink that is full leaves the buffer, and bytes that are refused are not none.
abbrev SunkIf : Bytes → MemorySinkInfo → Option ℕ × MemorySinkInfo → Type 0
SunkIf bytes msi r =
    ((r ≡ (none, msi)) × (0 < length bytes))
    ⊎ (r ≡ (some (length bytes), record msi { buffer = msi.buffer ++ bytes }))

sunk_if-cases :
    (full : Bool) (bytes : Bytes) (msi : MemorySinkInfo)
    → ltb (msi.size - length msi.buffer) (length bytes) ≡ full
    → SunkIf bytes msi (sunk_if full bytes msi)
sunk_if-cases true bytes msi e = inl (refl, ground arith)
sunk_if-cases false bytes msi e = inr refl

memory_sink-cases :
    (bytes : Bytes) (msi : MemorySinkInfo) → SunkIf bytes msi (memory_sink bytes msi)
unfolding memory_sink
memory_sink-cases bytes msi =
    sunk_if-cases (ltb (msi.size - length msi.buffer) (length bytes)) bytes msi refl

-- A piece that is not empty can be left out where the decoder does not look at what the sink returns.
abbrev pub Skippable : Piece → Type 0
Skippable p = (p.checked ≡ false) × (0 < length p.bytes)

-- `digested` is made of `before` and of the pieces without some of the ones that can be left out, and,
-- for the other, without at least one of them.
abbrev pub Takes : Bytes → List Piece → Bytes → Type 0
Takes before [] digested = digested ≡ before
Takes before (p ∷ ps) digested =
    Takes (before ++ p.bytes) ps digested ⊎ (Skippable p × Takes before ps digested)

abbrev pub Omits : Bytes → List Piece → Bytes → Type 0
Omits before [] digested = ⊥
Omits before (p ∷ ps) digested =
    Omits (before ++ p.bytes) ps digested ⊎ (Skippable p × Takes before ps digested)

-- A file that has its sum, and the patch of the job that goes with that sum.
abbrev pub Fits : {S : Type 0} → FileSystem S → Job → FileContents → Value → Type 0
Fits fs job file patch =
    (fs.sha file.content ≡ file.sha1) × (patch_value job.patches (some file) ≡ some patch)

-- A piece is missing from what the decoder makes of a file and of the patch that the job has for it.
abbrev pub Short : {S : Type 0} → FileSystem S → Job → Bytes → Type 0
Short fs job digested =
    (file : FileContents) × (patch : Value) × (format : Format) × Fits fs job file patch
    × (format_of patch ≡ some format)
    × Omits [] (fs.decode format file.content patch.contents).0 digested

module _ {S : Type 0} (fs : FileSystem S) (lawful : IsFileSystem fs) (job : Job) where
  -- The output has got these bytes.
  abbrev pub OutputHolds : Bytes → Output → S → Type 0
  OutputHolds content (in_memory msi) s =
      (is_partition (target_filename job) ≡ true) × (msi.buffer ≡ content)
  OutputHolds content (in_file fd) s =
      (is_partition (target_filename job) ≡ false)
      × lawful.Opened fd (patch_file (target_filename job)) content s

  -- The output has got what went into the digest, or a piece is missing from that.
  abbrev pub Outcome : Bytes → Output → S → Type 0
  Outcome digested output s = OutputHolds digested output s ⊎ Short fs job digested

  abbrev pub OutputOpen : Output → S → Type 0
  OutputOpen output s = (content : Bytes) × OutputHolds content output s

module _ {S : Type 0} (fs : FileSystem S) (lawful : IsFileSystem fs) (R : S → Type 0)
    (other digest : Bytes) (safe_of : (s : S) → HasDigest fs other digest s → R s) (job : Job)
    (apart : patch_file (target_filename job) ≢ other) where
  abbrev pub Sunk : Bytes → Bytes → Bool × Output → S → Type 0
  Sunk content bytes r s =
      HasDigest fs other digest s
      × OutputOpen fs lawful job r.1 s
      × (r.0 ≡ true → OutputHolds fs lawful job (content ++ bytes) r.1 s)
      × (r.0 ≡ false → 0 < length bytes)

  -- Where patching is done.
  abbrev pub PatchedTo : Patched → S → Type 0
  PatchedTo patched s =
      HasDigest fs other digest s
      × (patched.done ≡ true → Outcome fs lawful job patched.digested patched.output s)

  in_file-OutputOpen :
      (fd : ℕ) (s : S)
      → is_partition (target_filename job) ≡ false
      → Open fs lawful R other digest safe_of (patch_file (target_filename job)) apart fd s
      → OutputOpen fs lawful job (in_file fd) s
  in_file-OutputOpen fd s a_file (content, writing) = (content, (a_file, writing))

  sink-Post :
      (output : Output) (content bytes : Bytes) (w : World S)
      → Safe R w
      → HasDigest fs other digest w.now
      → OutputHolds fs lawful job content output w.now
      → Returns (sink fs output bytes w) (Post R (Sunk content bytes))
  sink-Post (in_memory msi) content bytes w safe has (partition, holds) =
      elim (memory_sink-cases bytes msi) [
        | inl (full, some_left) ↦ rw full (
            return-Post R (Sunk content bytes) (false, in_memory msi) w
              (has, (content, (partition, holds)), λ e. absurd (cc), λ e. some_left) safe)
        | inr wrote ↦ rw wrote (
            return-Post R (Sunk content bytes)
              (true, in_memory (record msi { buffer = msi.buffer ++ bytes })) w
              (
                has,
                (content ++ bytes, (partition, ap (λ z. z ++ bytes) holds)),
                λ e. (partition, ap (λ z. z ++ bytes) holds),
                λ e. absurd (cc),
              )
              safe)
      ]
  sink-Post (in_file fd) content bytes w safe has (a_file, writing) =
      bind-Post R
        (SunkTo fs lawful R other digest safe_of (patch_file (target_filename job)) apart fd content
          bytes)
        (Sunk content bytes) (sink_file fs fd bytes) (λ all. return (all, in_file fd)) w
        (sink_file-Post fs lawful R other digest safe_of (patch_file (target_filename job)) apart fd
          content bytes w safe (writing, has))
        (λ all w' h safe'.
          return-Post R (Sunk content bytes) (all, in_file fd) w'
            (h.0, in_file-OutputOpen fd w'.now a_file h.1, λ e. (a_file, h.2 e), h.3) safe')

  -- All the pieces are in the output, or `Of` is true of what went into the digest.
  abbrev pub Made : (Bytes → Type 0) → Patched → S → Type 0
  Made Of patched s =
      HasDigest fs other digest s
      × (patched.done ≡ true
          → OutputHolds fs lawful job patched.digested patched.output s ⊎ Of patched.digested)

  if_refused-Made :
      (Of : Bytes → Type 0) (checked : Bool) (digested : Bytes) (output : Output)
      (later : Prog (World S) Patched) (w : World S)
      → HasDigest fs other digest w.now
      → Safe R w
      → (checked ≡ false → Returns (later w) (Post R (Made Of)))
      → Returns (if_refused fs checked digested output later w) (Post R (Made Of))
  if_refused-Made Of true digested output later w has safe ran =
      return-Post R (Made Of) (record { output = output; digested = digested; done = false }) w
        (has, λ e. absurd (cc)) safe
  if_refused-Made Of false digested output later w has safe ran = ran refl

  abbrev Missing : (Bytes → Type 0) → Patched → S → Type 0
  Missing Of patched s = HasDigest fs other digest s × (patched.done ≡ true → Of patched.digested)

  if_refused-Missing :
      (Of : Bytes → Type 0) (checked : Bool) (digested : Bytes) (output : Output)
      (later : Prog (World S) Patched) (w : World S)
      → HasDigest fs other digest w.now
      → Safe R w
      → (checked ≡ false → Returns (later w) (Post R (Missing Of)))
      → Returns (if_refused fs checked digested output later w) (Post R (Missing Of))
  if_refused-Missing Of true digested output later w has safe ran =
      return-Post R (Missing Of) (record { output = output; digested = digested; done = false }) w
        (has, λ e. absurd (cc)) safe
  if_refused-Missing Of false digested output later w has safe ran = ran refl

  abbrev sink_rest :
      Piece
      → (Bytes → Output → Prog (World S) Patched)
      → Bytes
      → Bool × Output
      → Prog (World S) Patched
  sink_rest piece later digested r =
      if r.0
      then later (digested ++ piece.bytes) r.1
      else if_refused fs piece.checked digested r.1 (later digested r.1)

  -- After a piece has been left out.
  sink_pieces-Missing :
      (pieces : List Piece) (decoded : Bool) (digested : Bytes) (output : Output) (w : World S)
      → Safe R w
      → HasDigest fs other digest w.now
      → OutputOpen fs lawful job output w.now
      → Returns
          (sink_pieces fs pieces decoded digested output w)
          (Post R (Missing (Takes digested pieces)))
  unfolding sink_pieces
  sink_pieces-Missing [] decoded digested output w safe has still =
      return-Post R (Missing (Takes digested []))
        (record { output = output; digested = digested; done = decoded }) w (has, λ e. refl) safe
  sink_pieces-Missing (piece ∷ pieces) decoded digested output w safe has (content, holds) =
      bind-Post R (Sunk content piece.bytes) (Missing (Takes digested (piece ∷ pieces)))
        (sink fs output piece.bytes) (sink_rest piece (sink_pieces fs pieces decoded) digested) w
        (sink-Post output content piece.bytes w safe has holds)
        (rest_missing (sink_pieces-Missing pieces decoded))
    where
      weaken :
          (taken : Bytes)
          → ((d : Bytes) → Takes taken pieces d → Takes digested (piece ∷ pieces) d)
          → (run : Run (Option Patched × World S))
          → Returns run (Post R (Missing (Takes taken pieces)))
          → Returns run (Post R (Missing (Takes digested (piece ∷ pieces))))
      weaken taken f run ran =
          Post-map R (Missing (Takes taken pieces)) (Missing (Takes digested (piece ∷ pieces))) run
            (λ patched s h. (h.0, λ e. f patched.digested (h.1 e))) ran

      rest_missing :
          ((taken : Bytes) (output' : Output) (w' : World S)
            → Safe R w'
            → HasDigest fs other digest w'.now
            → OutputOpen fs lawful job output' w'.now
            → Returns
                (sink_pieces fs pieces decoded taken output' w')
                (Post R (Missing (Takes taken pieces))))
          → (r : Bool × Output) (w' : World S) → Sunk content piece.bytes r w'.now
          → Safe R w'
          → Returns
              (sink_rest piece (sink_pieces fs pieces decoded) digested r w')
              (Post R (Missing (Takes digested (piece ∷ pieces))))
      rest_missing ih (true, output') w' (has', still', _, _) safe' =
          weaken (digested ++ piece.bytes) (λ d t. inl t)
            (sink_pieces fs pieces decoded (digested ++ piece.bytes) output' w')
            (ih (digested ++ piece.bytes) output' w' safe' has' still')
      rest_missing ih (false, output') w' (has', still', _, some_left) safe' =
          if_refused-Missing (Takes digested (piece ∷ pieces)) piece.checked digested output'
            (sink_pieces fs pieces decoded digested output') w' has' safe'
            (λ unchecked.
              weaken digested (λ d t. inr ((unchecked, some_left refl), t))
                (sink_pieces fs pieces decoded digested output' w')
                (ih digested output' w' safe' has' still'))

  sink_rest-Made :
      (piece : Piece) (pieces : List Piece) (decoded : Bool) (digested : Bytes)
      → ((output' : Output) (w' : World S)
          → Safe R w'
          → HasDigest fs other digest w'.now
          → OutputHolds fs lawful job (digested ++ piece.bytes) output' w'.now
          → Returns
              (sink_pieces fs pieces decoded (digested ++ piece.bytes) output' w')
              (Post R (Made (Omits (digested ++ piece.bytes) pieces))))
      → (r : Bool × Output) (w' : World S) → Sunk digested piece.bytes r w'.now
      → Safe R w'
      → Returns
          (sink_rest piece (sink_pieces fs pieces decoded) digested r w')
          (Post R (Made (Omits digested (piece ∷ pieces))))
  sink_rest-Made piece pieces decoded digested ih (true, output') w' (has', _, holds', _) safe' =
      Post-map R (Made (Omits (digested ++ piece.bytes) pieces))
        (Made (Omits digested (piece ∷ pieces)))
        (sink_pieces fs pieces decoded (digested ++ piece.bytes) output' w')
        (λ patched s h. (h.0, λ e. elim (h.1 e) [ inl a ↦ inl a | inr b ↦ inr (inl b) ]))
        (ih output' w' safe' has' (holds' refl))
  sink_rest-Made piece pieces decoded digested ih (false, output') w' (has', still', _, some_left)
        safe' =
      if_refused-Made (Omits digested (piece ∷ pieces)) piece.checked digested output'
        (sink_pieces fs pieces decoded digested output') w' has' safe'
        (λ unchecked.
          Post-map R (Missing (Takes digested pieces)) (Made (Omits digested (piece ∷ pieces)))
            (sink_pieces fs pieces decoded digested output' w')
            (λ patched s h. (h.0, λ e. inr (inr ((unchecked, some_left refl), h.1 e))))
            (sink_pieces-Missing pieces decoded digested output' w' safe' has' still'))

  pub sink_pieces-Made :
      (pieces : List Piece) (decoded : Bool) (digested : Bytes) (output : Output) (w : World S)
      → Safe R w
      → HasDigest fs other digest w.now
      → OutputHolds fs lawful job digested output w.now
      → Returns
          (sink_pieces fs pieces decoded digested output w)
          (Post R (Made (Omits digested pieces)))
  unfolding sink_pieces
  sink_pieces-Made [] decoded digested output w safe has holds =
      return-Post R (Made (Omits digested []))
        (record { output = output; digested = digested; done = decoded }) w (has, λ e. inl holds)
        safe
  sink_pieces-Made (piece ∷ pieces) decoded digested output w safe has holds =
      bind-Post R (Sunk digested piece.bytes) (Made (Omits digested (piece ∷ pieces)))
        (sink fs output piece.bytes) (sink_rest piece (sink_pieces fs pieces decoded) digested) w
        (sink-Post output digested piece.bytes w safe has holds)
        (sink_rest-Made piece pieces decoded digested
          (sink_pieces-Made pieces decoded (digested ++ piece.bytes)))

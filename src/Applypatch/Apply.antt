-- ===== src/Applypatch/Apply.antt =====
-- applypatch() of applypatch/applypatch.c.
pub mod Sinking
pub mod Patching
pub mod Looping
pub mod Attempt
pub mod Choosing
pub mod Recover
pub mod Killed
mod Tests
use midnight_i9000_recovery.Applypatch.{
  FileContents, Files, Stat, is_partition, cache_temp_source, load_file_contents,
  find_matching_patch, parse_sha1, MemorySinkInfo, memory_sink,
}
use midnight_i9000_recovery.Applypatch.Disk.{
  Stepped, Piece, Format, bsdiff, imgdiff, FileSystem, World, perform, demand, files, sink_file,
  set_attributes, save_file_contents, free_space_for_file,
}
use midnight_i9000_recovery.Common.{
  ℕ, zero, suc, ◌*◌, ◌/◌, ◌%◌, ◌^◌, ◌==◌, ltb, leb, Bool, true, false, not, ◌&&◌, ◌||◌, List, [],
  ◌∷◌, ◌++◌, length, map, Option, none, some, if◌then◌else◌,
}
use midnight_i9000_recovery.Common.Run.{Run, ok, fault, Fault}
use midnight_i9000_recovery.Common.Prog.{Prog, return, fail, ◌>>=◌, ◌>>◌}
use midnight_i9000_recovery.Common.Text.{Bytes, codes, bytes_eq, has_prefix}
use midnight_i9000_recovery.Edify.Value.{Value, ValueType, val_blob}

-- The arguments; the sums and the patches are one array here, of pairs.
pub record Job : Type 0 where
  pub source_filename : Bytes
  pub given_target : Bytes
  pub target_sha1_str : Bytes
  pub target_size : ℕ
  pub patches : List (Bytes × Value)

abbrev pub target_filename : Job → Bytes
target_filename job =
    if bytes_eq job.given_target (codes "-") then job.source_filename else job.given_target

abbrev pub patch_sums : List (Bytes × Value) → List Bytes
patch_sums patches = map (λ p. p.0) patches

abbrev pub patch_at : List (Bytes × Value) → Option ℕ → Option Value
patch_at patches none = none
patch_at [] (some i) = none
patch_at (p ∷ ps) (some zero) = some p.1
patch_at (p ∷ ps) (some (suc i)) = patch_at ps (some i)

abbrev pub patch_value : List (Bytes × Value) → Option FileContents → Option Value
patch_value patches none = none
patch_value patches (some file) =
    patch_at patches (find_matching_patch file.sha1 (patch_sums patches))

-- What a patch is applied to. With the copy, `source_file` has been freed, or has no data.
pub data Chosen : Type 0 where
  original : FileContents → Value → Chosen
  cached : Option FileContents → FileContents → Value → Chosen

abbrev pub chosen_patch : Chosen → Value
chosen_patch (original file patch) = patch
chosen_patch (cached source copy patch) = patch

abbrev pub source_to_use : Chosen → FileContents
source_to_use (original file patch) = file
source_to_use (cached source copy patch) = copy

pub data Choice : Type 0 where
  already_target no_source : Choice
  chosen : Chosen → Choice

abbrev pub is_target : Bytes → Option FileContents → Bool
is_target target_sha1 none = false
is_target target_sha1 (some file) = bytes_eq file.sha1 target_sha1

abbrev pub is_loaded : Option FileContents → Bool
is_loaded none = false
is_loaded (some file) = true

abbrev pub choose_copy : Option FileContents → Option FileContents → Option Value → Choice
choose_copy source none patch = no_source
choose_copy source (some copy) none = no_source
choose_copy source (some copy) (some patch) = chosen (cached source copy patch)

abbrev pub choose_source : Choice → Option FileContents → Option Value → Choice
choose_source otherwise none patch = otherwise
choose_source otherwise (some file) none = otherwise
choose_source otherwise (some file) (some patch) = chosen (original file patch)

module _ (files : Files) (job : Job) where
  -- `source_file` after the two loads.
  abbrev pub load_source : Option FileContents → Option FileContents
  load_source target =
      if not (is_loaded target) || not (bytes_eq (target_filename job) job.source_filename)
      then load_file_contents files job.source_filename
      else target

  abbrev pub choose_from : Option FileContents → Option FileContents → Choice
  choose_from source copy =
      choose_source (choose_copy source copy (patch_value job.patches copy)) source
        (patch_value job.patches source)

  -- The function up to the loop.
  unfoldable pub choose : Bytes → Choice
  unfolding load_file_contents
  choose target_sha1 =
      let target = load_file_contents files (target_filename job) in
      if is_target target_sha1 target
      then already_target
      else choose_from (load_source target) (load_file_contents files cache_temp_source)

-- The part of the name before the second directory.
abbrev pub up_to_slash : Bytes → Bytes
up_to_slash [] = []
up_to_slash (c ∷ cs) = if c == b'/' then [] else c ∷ up_to_slash cs

abbrev pub target_fs : Bytes → Bytes
target_fs [] = []
target_fs (c ∷ cs) = c ∷ up_to_slash cs

abbrev pub patch_file : Bytes → Bytes
patch_file target = target ++ codes ".patch"

abbrev pub format_of : Value → Option Format
format_of patch =
    if leb 8 patch.size && has_prefix (codes "BSDIFF40") patch.contents
    then some bsdiff
    else if leb 8 patch.size && has_prefix (codes "IMGDIFF2") patch.contents
    then some imgdiff
    else none

abbrev pub is_blob : ValueType → Bool
is_blob val_blob = true
is_blob ValueType.val_string = false

pub data Output : Type 0 where
  in_memory : MemorySinkInfo → Output
  in_file : ℕ → Output

-- The output, what has gone into `ctx`, and whether patching succeeded.
pub record Patched : Type 0 where
  pub output : Output
  pub digested : Bytes
  pub done : Bool

module _ {S : Type 0} (fs : FileSystem S) where
  abbrev pub back_up : FileContents → Prog (World S) (Unit {0})
  back_up file =
      demand (fs.make_free_space_on_cache (length file.content))
      >> save_file_contents fs cache_temp_source file

  -- SaveFileContents to the copy, which is truncated, where the data have been freed: FileSink reads them
  -- if there are any.
  abbrev pub save_freed : FileContents → Option ℕ → Prog (World S) (Unit {0})
  save_freed freed none = fail
  save_freed freed (some fd) =
      if length freed.content == 0 then set_attributes fs cache_temp_source freed.st else λ w.
      fault Fault.use_after_free

  -- The backup of `source_file`, also where it has been freed or was never loaded.
  abbrev pub back_up_source : Chosen → Prog (World S) (Unit {0})
  back_up_source (original file patch) = back_up file
  back_up_source (cached none copy patch) = λ w. fault Fault.uninitialised
  back_up_source (cached (some freed) copy patch) =
      demand (fs.make_free_space_on_cache (length freed.content))
      >> (perform (fs.open_trunc cache_temp_source) >>= save_freed freed)

  -- The sink: whether it takes all of the bytes.
  abbrev pub sink : Output → Bytes → Prog (World S) (Bool × Output)
  sink (in_memory msi) bytes =
      let (wrote, msi') = memory_sink bytes msi in
      return (elim wrote [ none ↦ false | some n ↦ true ], in_memory msi')
  sink (in_file fd) bytes = sink_file fs fd bytes >>= λ all. return (all, in_file fd)

  abbrev pub if_refused : Bool → Bytes → Output → Prog (World S) Patched → Prog (World S) Patched
  if_refused true digested output later =
      return (record { output = output; digested = digested; done = false })
  if_refused false digested output later = later

  -- The pieces go to the sink; one that it does not take is not digested.
  unfoldable pub sink_pieces : List Piece → Bool → Bytes → Output → Prog (World S) Patched
  sink_pieces [] decoded digested output =
      return (record { output = output; digested = digested; done = decoded })
  sink_pieces (piece ∷ pieces) decoded digested output = sink output piece.bytes >>= λ r.
      if r.0
      then sink_pieces pieces decoded (digested ++ piece.bytes) r.1
      else if_refused piece.checked digested r.1 (sink_pieces pieces decoded digested r.1)

  module _ (job : Job) where
    abbrev pub enough_space : S → ℕ → Bool
    enough_space s retry =
        let free = free_space_for_file fs s (target_fs (target_filename job)) in
        ltb 0 retry && ltb (256 * 1024) free && ltb (job.target_size * 3 % 2 ^ 32 / 2) free

    -- Where there is not enough space: `made_copy` afterwards.
    abbrev pub make_room : Bool → Chosen → Prog (World S) Bool
    make_room made_copy (cached source copy patch) = return made_copy
    make_room made_copy (original file patch) =
        if is_partition job.source_filename
        then fail
        else (back_up file >> (perform (fs.unlink job.source_filename) >>= λ gone. return true))

    -- The first part of the loop: `retry` and `made_copy` afterwards.
    abbrev pub prepare : ℕ → Bool → Chosen → Prog (World S) (ℕ × Bool)
    prepare retry made_copy c w =
        if is_partition (target_filename job)
        then (back_up_source c >> return (0, true)) w
        else if enough_space w.now retry
        then ok (some (retry, made_copy), w)
        else (make_room made_copy c >>= λ made. return (0, made)) w

    abbrev pub opened : Option ℕ → Prog (World S) Output
    opened none = fail
    opened (some fd) = return (in_file fd)

    abbrev pub open_output : Prog (World S) Output
    open_output w =
        if is_partition (target_filename job)
        then (if fs.malloc w.now job.target_size
            then ok (some (in_memory (record { buffer = []; size = job.target_size })), w)
            else ok (none, w))
        else (perform (fs.open_trunc (patch_file (target_filename job))) >>= opened) w

    abbrev pub decode_to : FileContents → Value → Output → Option Format → Prog (World S) Patched
    decode_to file patch output none = fail
    decode_to file patch output (some format) =
        let (pieces, decoded) = fs.decode format file.content patch.contents in
        sink_pieces pieces decoded [] output

    -- The second part of the loop.
    abbrev pub patch_once : Chosen → Prog (World S) Patched
    patch_once c =
        if is_blob (chosen_patch c).kind
        then (open_output >>= λ output.
            decode_to (source_to_use c) (chosen_patch c) output (format_of (chosen_patch c)))
        else fail

    abbrev pub unlink_output : Output → Prog (World S) (Unit {0})
    unlink_output (in_memory msi) = return tt
    unlink_output (in_file fd) =
        perform (fs.unlink (patch_file (target_filename job))) >>= λ gone. return tt

    -- The loop, with `made_copy` at its end.
    unfoldable pub attempt : ℕ → Bool → Chosen → Prog (World S) (Patched × Bool)
    unfolding sink_pieces
    attempt zero made_copy c = prepare zero made_copy c >>= λ p.
        patch_once c >>= λ patched. if patched.done then return (patched, p.1) else fail
    attempt (suc n) made_copy c = prepare (suc n) made_copy c >>= λ p. patch_once c >>= λ patched.
        if patched.done
        then return (patched, p.1)
        else if p.0 == 0
        then fail
        else (unlink_output patched.output >> attempt n p.1 c)

    abbrev pub install : Output → FileContents → Prog (World S) (Unit {0})
    install (in_memory msi) file = demand (fs.write_to_partition msi.buffer (target_filename job))
    install (in_file fd) file =
        set_attributes fs (patch_file (target_filename job)) file.st
        >> demand (fs.rename (patch_file (target_filename job)) (target_filename job))

    abbrev pub drop_copy : Bool → Prog (World S) (Unit {0})
    drop_copy made_copy =
        if made_copy
        then (perform (fs.unlink cache_temp_source) >>= λ gone. return tt)
        else return tt

    -- The function after the loop.
    abbrev pub finish : Bytes → Chosen → Patched × Bool → Prog (World S) (Unit {0})
    finish target_sha1 c (patched, made_copy) =
        if bytes_eq (fs.sha patched.digested) target_sha1
        then (install patched.output (source_to_use c) >> drop_copy made_copy)
        else fail

    abbrev pub apply_choice : Bytes → Choice → Prog (World S) (Unit {0})
    apply_choice target_sha1 already_target = return tt
    apply_choice target_sha1 no_source = fail
    apply_choice target_sha1 (chosen c) = attempt 1 false c >>= finish target_sha1 c

    abbrev pub apply_to : Option Bytes → Prog (World S) (Unit {0})
    apply_to none w = ok (none, w)
    apply_to (some target_sha1) w =
        apply_choice target_sha1 (choose (files fs w.now) job target_sha1) w

    unfoldable pub applypatch : Prog (World S) (Unit {0})
    unfolding choose attempt parse_sha1
    applypatch = apply_to (parse_sha1 job.target_sha1_str)

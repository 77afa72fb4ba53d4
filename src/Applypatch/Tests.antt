-- ===== src/Applypatch/Tests.antt =====
-- Tests of the model of applypatch/applypatch.c, and the theorems at small inputs.
use midnight_i9000_recovery.Common.{
  ◌∙◌, ◌⊎◌, ◌↔◌, ℕ, ◌≤◌, ◌≡◌, ◌==◌, refl, true, List, [], ◌∷◌, ◌++◌, length, take, replicate,
  Option, none, some, arith, sym, ap, if◌then◌else◌, min,
}
use midnight_i9000_recovery.Common.Run.{Returns}
use midnight_i9000_recovery.Common.Text.{Bytes, codes}
use midnight_i9000_recovery.Applypatch.{
  parse_sha1, find_matching_patch, memory_sink, file_sink, applypatch_check, Files,
  load_file_contents, cache_temp_source,
}
use midnight_i9000_recovery.Applypatch.Digest.{
  sha1_text, parse_sha1-sha1_text, FoundDigest, find_matching_patch-FoundDigest,
}
use midnight_i9000_recovery.Applypatch.Check.{Accepted, Matches, applypatch_check-Accepted}
use midnight_i9000_recovery.Applypatch.Sink.{IsWrite, Sunk, file_sink-Sunk}

abbrev digest : Bytes
digest = 171 ∷ 205 ∷ replicate 18 7

parse_sha1-sha1_text_example : parse_sha1 (sha1_text digest) ≡ some digest
parse_sha1-sha1_text_example = parse_sha1-sha1_text digest (omega arith) refl

-- Digits of either case.
upper_case : parse_sha1 (codes "ABcd070707070707070707070707070707070707") ≡ some digest
unfolding parse_sha1
upper_case = refl

-- A digest with a colon and more behind it is refused.
with_tail : parse_sha1 (codes "abcd070707070707070707070707070707070707:1") ≡ none
unfolding parse_sha1
with_tail = refl

abbrev sums : List Bytes
sums = codes "none" ∷ sha1_text digest ∷ []

find_matching_patch-FoundDigest_example : FoundDigest digest sums (find_matching_patch digest sums)
find_matching_patch-FoundDigest_example = find_matching_patch-FoundDigest digest sums

found : find_matching_patch digest sums ≡ some 1
unfolding find_matching_patch parse_sha1
found = refl

-- The file is gone, and its copy is in the cache.
abbrev interrupted : Files
interrupted = record {
  sha = λ b. digest;
  stat = λ name.
      if length name == length cache_temp_source
      then some (record { size = 3; mode = 420; uid = 0; gid = 0 })
      else none;
  open_content = λ name. some (codes "old");
  load_partition_contents = λ name. none;
}

applypatch_check-Accepted_example :
    (applypatch_check interrupted (codes "/system/app") sums ≡ true) ↔ (
      Accepted sums (load_file_contents interrupted (codes "/system/app"))
      ⊎ Matches sums (load_file_contents interrupted cache_temp_source))
applypatch_check-Accepted_example = applypatch_check-Accepted interrupted (codes "/system/app") sums

check_copy : applypatch_check interrupted (codes "/system/app") sums ≡ true
unfolding applypatch_check load_file_contents find_matching_patch parse_sha1
check_copy = refl

-- A file as its content, where write() takes two bytes at a time.
two_at_once : Bytes → Bytes → Option ℕ × Bytes
two_at_once bytes fd = (some (min 2 (length bytes)), fd ++ take (min 2 (length bytes)) bytes)

same_count : {a b : ℕ} → some a ≡ some b → a ≡ b
same_count e = cc

two_written :
    (bytes fd fd' : Bytes) (n : ℕ)
    → two_at_once bytes fd ≡ (some n, fd')
    → (n ≤ length bytes) × (fd' ≡ fd ++ take n bytes)
unfolding two_at_once
two_written bytes fd fd' n e =
    let count : min 2 (length bytes) ≡ n = same_count (ap (λ r. r.0) e) in
    (omega arith, sym (ap (λ r. r.1) e) ∙ ap (λ k. fd ++ take k bytes) count)

two_at_once-IsWrite : IsWrite two_at_once
unfolding two_at_once
two_at_once-IsWrite = record {
  content = λ fd. fd;
  write-some = two_written;
  write-none = λ bytes fd fd' e. absurd (cc);
}

file_sink-Sunk_example :
    Returns
      (file_sink two_at_once (codes "bytes") (codes "some "))
      (Sunk two_at_once two_at_once-IsWrite (codes "bytes") (codes "some "))
file_sink-Sunk_example =
    file_sink-Sunk two_at_once two_at_once-IsWrite (codes "bytes") (codes "some ")

-- The buffer of a partition does not overflow.
sink_full : (memory_sink (codes "abc") (record { buffer = codes "xy"; size = 4 })).0 ≡ none
unfolding memory_sink
sink_full = refl

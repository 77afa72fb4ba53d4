-- ===== src/Applypatch/Apply/Tests.antt =====
-- applypatch() on a small store of files, and the theorems on it.
use midnight_i9000_recovery.Applypatch.{
  Fault, fault, FileContents, Stat, is_partition, cache_temp_source, load_file_contents,
  find_matching_patch, parse_sha1, file_sink,
}
use midnight_i9000_recovery.Applypatch.Apply.{attempt, Job, choose, applypatch}
use midnight_i9000_recovery.Applypatch.Disk.{Stepped, FileSystem, World, files, sink_file}
use midnight_i9000_recovery.Applypatch.Rules.{Safe}
use midnight_i9000_recovery.Applypatch.Laws.{IsFileSystem, HasDigest}
use midnight_i9000_recovery.Applypatch.Digest.{sha1_text}
use midnight_i9000_recovery.Applypatch.Apply.Looping.{Apart}
use midnight_i9000_recovery.Applypatch.Apply.Killed.{Recoverable, Targets, applypatch-Targeted}
use midnight_i9000_recovery.Applypatch.Apply.Choosing.{ChosenWell, choose-ChosenWell}
use midnight_i9000_recovery.Applypatch.Apply.Sinking.{Short}
use midnight_i9000_recovery.Common.{
  ℕ, ◌≤◌, ◌≡◌, ◌≢◌, refl, sym, ap, ◌∙◌, ◌⊎◌, inl, inr, Bool, true, false, [], ◌∷◌, ◌++◌, length,
  take, replicate, Option, none, some, min, ltb, arith, if◌then◌else◌, take-all,
}
use midnight_i9000_recovery.Common.Run.{Run, Returns, ok}
use midnight_i9000_recovery.Common.Text.{Bytes, codes, bytes_eq, bytes_eq→≡, bytes_eq_refl}
use midnight_i9000_recovery.Edify.Value.{val_blob}

-- What the files hold, and the name of the one that is open.
record Store : Type 0 where
  pub held : Bytes → Option Bytes
  pub open_name : Bytes

abbrev update : (Bytes → Option Bytes) → Bytes → Option Bytes → Bytes → Option Bytes
update held name v q = if bytes_eq name q then v else held q

abbrev at_once : {A : Type 0} → A → Store → Stepped Store A
at_once result s = record { during = []; result = result; after = s }

abbrev digest_of : Bytes → Bytes
digest_of bytes = length bytes ∷ replicate 19 7

abbrev stat_of : Option Bytes → Option Stat
stat_of none = none
stat_of (some bytes) = some (record { size = length bytes; mode = 420; uid = 0; gid = 0 })

abbrev append_to : Option Bytes → Bytes → Option Bytes
append_to none bytes = none
append_to (some content) bytes = some (content ++ bytes)

-- write() takes two bytes at a time.
abbrev store : FileSystem Store
store = record {
  sha = digest_of;
  stat = λ s name. stat_of (s.held name);
  open_content = λ s name. s.held name;
  load_partition_contents = λ s name. none;
  statfs = λ s name. some (4096, 1000);
  open_trunc =
      λ name s. at_once (some 3) (record { held = update s.held name (some []); open_name = name });
  write = λ fd bytes s. at_once (some (min 2 (length bytes))) (record s {
    held =
        update s.held s.open_name
          (append_to (s.held s.open_name) (take (min 2 (length bytes)) bytes));
  });
  chmod = λ name mode s. at_once true s;
  chown = λ name uid gid s. at_once true s;
  unlink = λ name s. at_once true (record s { held = update s.held name none });
  rename = λ name to s.
      at_once true (record s { held = update (update s.held name none) to (s.held name) });
  make_free_space_on_cache = λ n s. at_once true s;
  write_to_partition = λ bytes name s. at_once false s;
  malloc = λ s n. true;
  decode = λ format source patch. (
    record { bytes = codes "ne"; checked = false }
        ∷ record { bytes = codes "w"; checked = true }
        ∷ [],
    true,
  );
}

bytes_ne : (a b : Bytes) → a ≢ b → bytes_eq a b ≡ false
bytes_ne a b h = of_test (bytes_eq a b) refl
  where
    of_test : (r : Bool) → bytes_eq a b ≡ r → bytes_eq a b ≡ false
    of_test true e = absurd (h (bytes_eq→≡ a b e))
    of_test false e = e

update_self :
    (held : Bytes → Option Bytes) (name : Bytes) (v : Option Bytes) → update held name v name ≡ v
update_self held name v = rw (bytes_eq_refl name) refl

update_else :
    (held : Bytes → Option Bytes) (name q : Bytes) (v : Option Bytes)
    → name ≢ q
    → update held name v q ≡ held q
update_else held name q v h = rw (bytes_ne name q h) refl

-- Loading looks at one file.
same-HasDigest :
    (s s' : Store) (name digest : Bytes)
    → s'.held name ≡ s.held name
    → HasDigest store name digest s
    → HasDigest store name digest s'
unfolding load_file_contents
same-HasDigest s s' name digest e has = rw e has

read_held :
    (s : Store) (name content : Bytes)
    → is_partition name ≡ false
    → s.held name ≡ some content
    → HasDigest store name (digest_of content) s
unfolding load_file_contents
read_held s name content a_file e =
    let short : ltb (length content) (length content) ≡ false = ground arith in
    rw (a_file, e, short) (ap digest_of (take-all (length content) content (omega arith)))

abbrev Open : ℕ → Bytes → Bytes → Store → Type 0
Open fd name content s = (s.open_name ≡ name) × (s.held name ≡ some content)

append_to-some :
    (held : Option Bytes) (content bytes : Bytes)
    → held ≡ some content
    → append_to held bytes ≡ some (content ++ bytes)
append_to-some held content bytes e = rw e refl

-- A change of one file.
updated :
    (s : Store) (name other digest open_name : Bytes) (v : Option Bytes)
    → name ≢ other
    → HasDigest store other digest s
    → HasDigest store other digest (record { held = update s.held name v; open_name = open_name })
updated s name other digest open_name v apart has =
    same-HasDigest s (record { held = update s.held name v; open_name = open_name }) other digest
      (update_else s.held name other v apart) has

some_is : {a b : ℕ} → some a ≡ some b → a ≡ b
some_is e = cc

store_still :
    (fd : ℕ) (name content bytes : Bytes) (s : Store)
    → Open fd name content s
    → (content' : Bytes) × Open fd name content' (store.write fd bytes s).after
store_still fd name content bytes s (same, holds) =
    let wrote = take (min 2 (length bytes)) bytes in
    (
      content ++ wrote,
      (
        same,
        ap (λ z. update s.held z (append_to (s.held z) wrote) name) same
            ∙ update_self s.held name (append_to (s.held name) wrote)
            ∙ append_to-some (s.held name) content wrote holds,
      ),
    )

store_written :
    (fd : ℕ) (name content bytes : Bytes) (s : Store) (n : ℕ)
    → Open fd name content s
    → (store.write fd bytes s).result ≡ some n
    → (n ≤ length bytes) × Open fd name (content ++ take n bytes) (store.write fd bytes s).after
store_written fd name content bytes s n (same, holds) e =
    let count : min 2 (length bytes) ≡ n = some_is e in
    let wrote = take (min 2 (length bytes)) bytes in
    (
      omega arith,
      (
        same,
        ap (λ z. update s.held z (append_to (s.held z) wrote) name) same
            ∙ update_self s.held name (append_to (s.held name) wrote)
            ∙ append_to-some (s.held name) content wrote holds
            ∙ ap (λ k. some (content ++ take k bytes)) count,
      ),
    )

store_rename :
    (name to content other digest : Bytes) (s : Store)
    → is_partition to ≡ false
    → s.held name ≡ some content
    → name ≢ other
    → HasDigest store other digest s
    → HasDigest store other digest (store.rename name to s).after
      ⊎ HasDigest store to (digest_of content) (store.rename name to s).after
store_rename name to content other digest s a_file holds apart has =
    of_test (bytes_eq to other) refl
  where
    of_test :
        (b : Bool)
        → bytes_eq to other ≡ b
        → HasDigest store other digest (store.rename name to s).after
          ⊎ HasDigest store to (digest_of content) (store.rename name to s).after
    of_test true e = inr (
        read_held (store.rename name to s).after to content a_file
          (update_self (update s.held name none) to (s.held name) ∙ holds))
    of_test false e = inl (
        same-HasDigest s (store.rename name to s).after other digest
          (rw (e, bytes_ne name other apart) refl) has)

store-IsFileSystem : IsFileSystem store
store-IsFileSystem = record {
  Opened = Open;
  Spared = λ name. Unit;
  Lists = λ name digest. ⊥;
  partition_sha = λ s name file e. absurd (cc);
  opened = λ name s fd e. (refl, update_self s.held name (some []));
  open_keeps =
      λ name other digest s apart has. (tt, updated s name other digest name (some []) apart has);
  written = store_written;
  still_open = store_still;
  write_keeps = λ fd name content bytes other digest s h apart has. (
    tt,
    updated s s.open_name other digest s.open_name
        (append_to (s.held s.open_name) (take (min 2 (length bytes)) bytes))
        (λ e. apart (sym h.0 ∙ e)) has,
  );
  chmod_opened = λ fd name content mode s h. h;
  chmod_keeps = λ name other digest mode s has. (tt, has);
  chown_opened = λ fd name content uid gid s h. h;
  chown_keeps = λ name other digest uid gid s has. (tt, has);
  read_opened = λ fd name content s a_file h. read_held s name content a_file h.1;
  unlink_keeps =
      λ name other digest s apart has. (tt, updated s name other digest s.open_name none apart has);
  rename_keeps = λ fd name to content other digest s a_file h apart has.
      (tt, store_rename name to content other digest s a_file h.1 apart has);
  renamed = λ fd name to content s a_file h e.
      read_held (store.rename name to s).after to content a_file
        (update_self (update s.held name none) to (s.held name) ∙ h.1);
  cache_spared = tt;
  space_keeps = λ n other digest s spared has. (tt, has);
  partition_keeps = λ content to digest s e has. (tt, has);
  partition_written = λ content to s e lists wrote. absurd lists;
}

abbrev job : Job
job = record {
  source_filename = codes "/a";
  given_target = codes "-";
  target_sha1_str = sha1_text (digest_of (codes "new"));
  target_size = 3;
  patches =
      (
        sha1_text (digest_of (codes "old!")),
        record { kind = val_blob; size = 8; contents = codes "BSDIFF40" },
      )
      ∷ [];
}

abbrev before : World Store
before = record {
  now = record { held = update (λ q. none) (codes "/a") (some (codes "old!")); open_name = [] };
  passed = [];
}

read_sum : parse_sha1 job.target_sha1_str ≡ some (digest_of (codes "new"))
unfolding parse_sha1
read_sum = refl

job-Apart : Apart store store-IsFileSystem job
unfolding store-IsFileSystem
job-Apart = record {
  source_cache = λ e. absurd (cc);
  target_cache = λ e. absurd (cc);
  patch_source = λ e. absurd (cc);
  patch_cache = λ e. absurd (cc);
  source_spared = tt;
}

before-Safe : Safe (Recoverable store store-IsFileSystem job (digest_of (codes "new"))) before
unfolding load_file_contents parse_sha1
before-Safe = (inr (inl (0, refl)), tt)

other_length : (d : Bytes) → (length d ≡ 3 → ⊥) → digest_of d ≢ digest_of (codes "new")
other_length d other e = other (cc)

-- What is made without the first piece is too short.
whole : (d : Bytes) → Short store job d → digest_of d ≢ digest_of (codes "new")
whole d (file, patch, format, fits, of_patch, inl (inl none_left)) = absurd none_left
whole d (file, patch, format, fits, of_patch, inl (inr ((unchecked, some_left), e))) = absurd (cc)
whole d (file, patch, format, fits, of_patch, inr (skipped, inl e)) =
    other_length d (λ same. absurd (omega (arith, ap length e)))
whole d (file, patch, format, fits, of_patch, inr (skipped, inr (again, e))) = absurd (cc)

applypatch-Targeted_example :
    Returns
      (applypatch store job before)
      (Targets store store-IsFileSystem job (digest_of (codes "new")))
applypatch-Targeted_example =
    applypatch-Targeted store store-IsFileSystem job (digest_of (codes "new")) job-Apart before
      read_sum whole (λ e. absurd (cc)) (λ e. absurd (cc)) before-Safe

-- A pass of all of it.
abbrev result_of : Run (Option (Unit {0}) × World Store) → Option (Option Bytes)
result_of (ok (some a, w)) = some (w.now.held (codes "/a"))
result_of (ok (none, w)) = none
result_of (fault cause) = none

patched_a : result_of (applypatch store job before) ≡ some (some (codes "new"))
unfolding applypatch choose attempt find_matching_patch parse_sha1 load_file_contents sink_file
    file_sink
patched_a = refl

-- A partition that is written only in part, and the copy of what it held: another run reads the data of
-- the source after it has freed them, when the copy has been truncated.
abbrev half_written : FileContents
half_written = record {
  content = codes "newd!";
  sha1 = digest_of (codes "newd!");
  st = record { size = 5; mode = 420; uid = 0; gid = 0 };
}

abbrev partition_store : FileSystem Store
partition_store = record store { load_partition_contents = λ s name. some half_written }

abbrev partition_job : Job
partition_job = record job { source_filename = codes "MTD:b" }

abbrev after_kill : World Store
after_kill = record {
  now = record {
    held = update (λ q. none) cache_temp_source (some (codes "old!"));
    open_name = [];
  };
  passed = [];
}

read_freed : applypatch partition_store partition_job after_kill ≡ fault Fault.use_after_free
unfolding applypatch choose attempt find_matching_patch parse_sha1 load_file_contents
read_freed = refl

choose-ChosenWell_example :
    ChosenWell
      (files store before.now)
      job
      (digest_of (codes "new"))
      (choose (files store before.now) job (digest_of (codes "new")))
choose-ChosenWell_example = choose-ChosenWell (files store before.now) job (digest_of (codes "new"))

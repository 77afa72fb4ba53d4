-- ===== src/Applypatch/Disk.antt =====
-- The calls by which applypatch/applypatch.c changes files, and SaveFileContents and FreeSpaceForFile.
use midnight_i9000_recovery.Applypatch.{Stat, FileContents, Files, file_sink}
use midnight_i9000_recovery.Common.{
  ℕ, ◌*◌, ◌-◌, ◌%◌, ◌^◌, ◌==◌, Bool, List, ◌∷◌, ◌++◌, length, Option, none, some, if◌then◌else◌,
}
use midnight_i9000_recovery.Common.Run
use midnight_i9000_recovery.Common.Run.{Run, ok}
use midnight_i9000_recovery.Common.Prog.{Prog, return, fail, ◌>>=◌, ◌>>◌}
use midnight_i9000_recovery.Common.Text.{Bytes}

-- What a call does: the states in which the files stand while it runs, what it returns, and the state
-- that it leaves.
pub record Stepped (S A : Type 0) : Type 0 where
  pub during : List S
  pub result : A
  pub after : S

pub data Format : Type 0 where
  bsdiff imgdiff : Format

-- What a decoder gives to the sink at once. `checked` tells whether it ends where the sink does not take
-- all of it: ApplyImagePatch does not look at what ApplyBSDiffPatch returns for a chunk.
pub record Piece : Type 0 where
  pub bytes : Bytes
  pub checked : Bool

-- The system calls on the files, in a state `S`, and the functions of other files that applypatch()
-- uses. `decode` is what ApplyBSDiffPatch and ApplyImagePatch make of the source and the patch: the
-- pieces they give to the sink, and whether they decode all of the patch.
pub record FileSystem (S : Type 0) : Type 0 where
  pub sha : Bytes → Bytes
  pub stat : S → Bytes → Option Stat
  pub open_content : S → Bytes → Option Bytes
  pub load_partition_contents : S → Bytes → Option FileContents
  pub statfs : S → Bytes → Option (ℕ × ℕ)
  pub open_trunc : Bytes → S → Stepped S (Option ℕ)
  pub write : ℕ → Bytes → S → Stepped S (Option ℕ)
  pub chmod : Bytes → ℕ → S → Stepped S Bool
  pub chown : Bytes → ℕ → ℕ → S → Stepped S Bool
  pub unlink : Bytes → S → Stepped S Bool
  pub rename : Bytes → Bytes → S → Stepped S Bool
  pub make_free_space_on_cache : ℕ → S → Stepped S Bool
  pub write_to_partition : Bytes → Bytes → S → Stepped S Bool
  pub malloc : S → ℕ → Bool
  pub decode : Format → Bytes → Bytes → List Piece × Bool

-- The state, and all those that were before it: where the process is killed, one of them stays.
pub record World (S : Type 0) : Type 0 where
  pub now : S
  pub passed : List S

module _ {S A : Type 0} where
  abbrev pub stepped : Stepped S A → World S → World S
  stepped st w = record { now = st.after; passed = w.now ∷ (st.during ++ w.passed) }

  abbrev pub perform : (S → Stepped S A) → Prog (World S) A
  perform op w = ok (some (op w.now).result, stepped (op w.now) w)

-- A call whose failure ends the function.
abbrev pub demand : {S : Type 0} → (S → Stepped S Bool) → Prog (World S) (Unit {0})
demand op = perform op >>= λ succeeded. if succeeded then return tt else fail

module _ {S : Type 0} (fs : FileSystem S) where
  abbrev pub files : S → Files
  files s = record {
    sha = fs.sha;
    stat = fs.stat s;
    open_content = fs.open_content s;
    load_partition_contents = fs.load_partition_contents s;
  }

  abbrev pub write_to : ℕ → Bytes → World S → Option ℕ × World S
  write_to fd bytes w = ((fs.write fd bytes w.now).result, stepped (fs.write fd bytes w.now) w)

  -- FileSink, and whether it writes all of the bytes.
  unfoldable pub sink_file : ℕ → Bytes → Prog (World S) Bool
  sink_file fd bytes w =
      Run.◌>>=◌ (file_sink (write_to fd) bytes w) λ r. ok (some (r.0 == length bytes), r.1)

  abbrev pub set_attributes : Bytes → Stat → Prog (World S) (Unit {0})
  set_attributes filename st =
      demand (fs.chmod filename st.mode) >> demand (fs.chown filename st.uid st.gid)

  abbrev pub save_to : Bytes → FileContents → Option ℕ → Prog (World S) (Unit {0})
  save_to filename file none = fail
  save_to filename file (some fd) =
      sink_file fd file.content >>= λ all. if all then set_attributes filename file.st else fail

  unfoldable pub save_file_contents : Bytes → FileContents → Prog (World S) (Unit {0})
  save_file_contents filename file =
      perform (fs.open_trunc filename) >>= λ fd. save_to filename file fd

  -- The number is a size_t of 32 bits; -1 marks an error.
  abbrev pub free_space : Option (ℕ × ℕ) → ℕ
  free_space none = 2 ^ 32 - 1
  free_space (some (f_bsize, f_bfree)) = (f_bsize * f_bfree) % 2 ^ 32

  abbrev pub free_space_for_file : S → Bytes → ℕ
  free_space_for_file s filename = free_space (fs.statfs s filename)

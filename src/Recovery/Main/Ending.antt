-- ===== src/Recovery/Main/Ending.antt =====
-- What is left for the next start when main() of recovery.c ends.
use midnight_i9000_recovery.Recovery.Main.{
  get_partition_free, toggle_secure_fs, report_mount, report_mounts, mount_paths, Options,
  no_options, parse_options, fs_mode, run_command, run_package, change_encryption, keep_enabled,
  show_if, end_with, main,
}
use midnight_i9000_recovery.Common.{
  ℕ, ◌≡◌, refl, ap, ◌∷◌, ◌∙◌, inl, inr, Bool, true, false, List, [], Option, none, some, set,
  if◌then◌else◌, Bool-cases,
}
use midnight_i9000_recovery.Common.Run.{ok, Returns, ◌>>=◌}
use midnight_i9000_recovery.Common.Text.{Bytes}
use midnight_i9000_recovery.Common.CString.{c_string}
use midnight_i9000_recovery.Common.Words.{words_by}
use midnight_i9000_recovery.Bootloader.{Message}
use midnight_i9000_recovery.Recovery.Args.{
  Args, Environment, zeroed, is_newline, from_words, taken_from, from_boot_message, or_boot_message,
  or_file, boot_message, get_args, or_zeroed,
}
use midnight_i9000_recovery.Recovery.Finish.{
  System, environment, send, copy_logs, clear_message, remove_command, finish_recovery,
}

-- What finish_recovery relies on: a boot message that has been set is found, a command file that has been
-- removed is not, and the calls after the message is set do not change it.
pub record Finishes {S : Type 0} (sys : System S) : Type 0 where
  pub set-get :
      (s : S)
      → (sys.messages.set zeroed s).0 ≡ true
      → sys.messages.get (sys.messages.set zeroed s).1 ≡ some zeroed
  pub mount-get : (s : S) → sys.messages.get (sys.mount_command_file s).1 ≡ sys.messages.get s
  pub unlink-get : (s : S) → sys.messages.get (sys.unlink_command_file s).1 ≡ sys.messages.get s
  pub sync-get : (s : S) → sys.messages.get (sys.sync s) ≡ sys.messages.get s
  pub unlink-file :
      (s : S)
      → (sys.unlink_command_file s).0 ≡ true
      → sys.command_file (sys.unlink_command_file s).1 ≡ none
  pub sync-file : (s : S) → sys.command_file (sys.sync s) ≡ sys.command_file s

zeroed_words : from_words (words_by is_newline [] (c_string (set zeroed.recovery 1023 0))) ≡ none
unfolding words_by
zeroed_words = refl

message_zeroed :
    (b : Bool) (m : Option Message)
    → (b ≡ true → m ≡ some zeroed)
    → (if b then or_zeroed m else zeroed) ≡ zeroed
message_zeroed true m h = rw (h refl) refl
message_zeroed false m h = refl

if_true : {A : Type 0} (b : Bool) (x y : A) → b ≡ true → (if b then x else y) ≡ x
if_true true x y e = refl
if_true false x y e = absurd (cc)

no_file :
    (env : Environment) (name : Bytes)
    → env.command_file ≡ none
    → or_file env (name, []) ≡ ok (name, [])
no_file env name e = rw e refl

-- Each of the paths is found in the table of mounted volumes where mounting it succeeds, after
-- get_partition_free has mounted it once more.
abbrev pub AllFound : {S : Type 0} → System S → List Bytes → Type 0
AllFound sys [] = Unit {0}
AllFound {S = S} sys (path ∷ rest) =
    ((s : S)
      → (sys.ensure_path_mounted path s).0 ≡ true
      → sys.find_mounted_volume path
          (get_partition_free sys path (sys.ensure_path_mounted path s).1)
        ≡ true)
    × AllFound sys rest

-- The reports end, in a state of which holds what no mount changes.
pub report_mounts-Kept :
    {S : Type 0} (sys : System S) (P : S → Type 0)
    → ((path : Bytes) (s : S) → P s → P (sys.ensure_path_mounted path s).1)
    → (paths : List Bytes) (s : S) → AllFound sys paths
    → P s
    → Returns (report_mounts sys paths s) P
report_mounts-Kept sys P keeps [] s found h = (s, refl, h)
report_mounts-Kept {S = S} sys P keeps (path ∷ rest) s (found, later) h =
    reported (sys.ensure_path_mounted path s) (found s) (keeps path s h)
      (keeps path (sys.ensure_path_mounted path s).1 (keeps path s h))
      (λ s1. report_mounts-Kept sys P keeps rest s1 later)
  where
    reported :
        (r : Bool × S)
        → (r.0 ≡ true → sys.find_mounted_volume path (get_partition_free sys path r.1) ≡ true)
        → P r.1
        → P (get_partition_free sys path r.1)
        → ((s1 : S) → P s1 → Returns (report_mounts sys rest s1) P)
        → Returns (report_mount sys path r >>= λ s1. report_mounts sys rest s1) P
    reported (false, s1) seen h1 h2 ih = ih s1 h1
    reported (true, s1) seen h1 h2 ih = rw (seen refl) (ih (get_partition_free sys path s1) h2)

module _ {S : Type 0} (sys : System S) (lawful : Finishes sys) where
  -- There is nothing to do for a start without arguments.
  abbrev pub Idle : S → Type 0
  Idle s = (boot_message sys.messages (environment sys s) s ≡ zeroed) × (sys.command_file s ≡ none)

  from_zeroed :
      (env : Environment) (name : Bytes) → (or_boot_message env zeroed (name, [])).0 ≡ (name, [])
  unfolding from_boot_message
  from_zeroed env name = elim (Bool-cases env.ignored) [
    | inl ignored ↦ rw ignored refl
    | inr read ↦
        rw read
          (ap (λ o. (taken_from zeroed (set zeroed.recovery 1023 0) (name, []) o).0) zeroed_words)
  ]

  Idle-get_args :
      (name : Bytes) (s : S)
      → Idle s
      → Returns (get_args sys.messages (environment sys s) (name, []) s) (λ r. r.0 ≡ (name, []))
  unfolding get_args
  Idle-get_args name s (message, file) =
      let env = environment sys s in
      let nothing : (or_boot_message env (boot_message sys.messages env s) (name, [])).0
          ≡ (name, []) =
        ap (λ z. (or_boot_message env z (name, [])).0) message ∙ from_zeroed env name in
      let read : or_file env (or_boot_message env (boot_message sys.messages env s) (name, [])).0
          ≡ ok (name, []) =
        ap (or_file env) nothing ∙ no_file env name file in
      rw read (_, refl, refl)

  finish_recovery-Idle :
      (intent : Option Bytes) (s : S)
      → ((s' : S) → (sys.messages.set zeroed s').0 ≡ true)
      → ((s' : S) → (sys.mount_command_file s').0 ≡ true)
      → ((s' : S) → (sys.unlink_command_file s').0 ≡ true)
      → Idle (finish_recovery sys intent s)
  unfolding finish_recovery
  finish_recovery-Idle intent s sets mounts unlinks = (
    message_zeroed sys.is_mtd
        (sys.messages.get (sys.sync (remove_command sys (sys.mount_command_file before))))
        (λ e. kept ∙ read e),
    removed,
  )
    where
      before : S
      before = clear_message sys (copy_logs sys (send sys intent s))

      mounted : S
      mounted = (sys.mount_command_file before).1

      last :
          remove_command sys (sys.mount_command_file before) ≡ (sys.unlink_command_file mounted).1
      last = rw (mounts before) refl

      removed :
          sys.command_file (sys.sync (remove_command sys (sys.mount_command_file before))) ≡ none
      removed =
          ap (λ z. sys.command_file (sys.sync z)) last
          ∙ lawful.sync-file (sys.unlink_command_file mounted).1
          ∙ lawful.unlink-file mounted (unlinks mounted)

      kept :
          sys.messages.get (sys.sync (remove_command sys (sys.mount_command_file before)))
          ≡ sys.messages.get before
      kept =
          ap (λ z. sys.messages.get (sys.sync z)) last
          ∙ lawful.sync-get (sys.unlink_command_file mounted).1
          ∙ lawful.unlink-get mounted
          ∙ lawful.mount-get before

      read : sys.is_mtd ≡ true → sys.messages.get before ≡ some zeroed
      read e =
          let x = copy_logs sys (send sys intent s) in
          ap sys.messages.get (if_true sys.is_mtd (sys.messages.set zeroed x).1 x e)
          ∙ lawful.set-get x (sets x)

  run_command-ok :
      (o : Options) (mode : Option Bytes) (s : S)
      → ((text : Bytes) → mode ≡ some text → (enabled : Bool) × (fs_mode text ≡ some enabled))
      → (done : Bool × S) × (run_command sys o mode s ≡ ok done)
  run_command-ok o none s valid = (run_package sys o o.update_package s, refl)
  run_command-ok o (some text) s valid =
      let (enabled, on) = valid text refl in
      (change_encryption sys (keep_enabled sys enabled s), ap (λ m. toggle_secure_fs sys m s) on)

  -- The command that main() runs is over when it ends. If get_args returns, a setting for encrypted
  -- file systems is "on" or "off", and each of the five paths that are mounted at the start is found in
  -- the table of mounted volumes where mounting it succeeds, once get_partition_free has mounted it again,
  -- then main() comes to its end, and a start
  -- without arguments from the state that it leaves finds no command; where the calls that set the boot
  -- message, mount the directory of the command file and remove it succeed, and calls that report success
  -- have had their effect.
  pub main-Ended :
      (always_wipes : Bool) (getopt : Args → List (ℕ × Bytes)) (args found : Args) (s s1 : S)
      (name : Bytes)
      → get_args sys.messages (environment sys s) args s ≡ ok (found, s1)
      → ((text : Bytes)
          → (parse_options always_wipes no_options (getopt found)).encrypted_fs_mode ≡ some text
          → (enabled : Bool) × (fs_mode text ≡ some enabled))
      → AllFound sys mount_paths
      → ((s' : S) → (sys.messages.set zeroed s').0 ≡ true)
      → ((s' : S) → (sys.mount_command_file s').0 ≡ true)
      → ((s' : S) → (sys.unlink_command_file s').0 ≡ true)
      → Returns (main sys always_wipes getopt args s) (λ s2.
        Returns (get_args sys.messages (environment sys s2) (name, []) s2) (λ r. r.0 ≡ (name, [])))
  unfolding main
  main-Ended always_wipes getopt args found s s1 name got valid all_found sets mounts unlinks =
      let o = parse_options always_wipes no_options (getopt found) in
      let (s2, reported, _) =
        report_mounts-Kept sys (λ _. Unit {0}) (λ _ _ _. tt) mount_paths
          (sys.scan_mounted_volumes (show_if sys o.show_text s1)) all_found tt in
      let (done, ran) = run_command-ok o o.encrypted_fs_mode s2 valid in
      rw got (
        rw (reported, ran)
          (
            end_with sys o done,
            refl,
            Idle-get_args name (end_with sys o done)
                (finish_recovery-Idle o.send_intent _ sets mounts unlinks),
          ))

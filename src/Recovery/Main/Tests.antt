-- ===== src/Recovery/Main/Tests.antt =====
-- main() of recovery.c on a small machine, and the theorems on it.
use midnight_i9000_recovery.Recovery.Main.{
  report_mounts, mount_paths, parse_options, no_options, package_path, main,
}
use midnight_i9000_recovery.Common.{
  not, ℕ, ◌≡◌, refl, Bool, true, false, List, [], ◌∷◌, ◌++◌, map, Option, none, some, if◌then◌else◌,
}
use midnight_i9000_recovery.Recovery.Main.Ending.{AllFound, Finishes, main-Ended}
use midnight_i9000_recovery.Common.Run.{Run, ok, fault, Fault, Returns}
use midnight_i9000_recovery.Common.Text.{Bytes, codes, bytes_eq}
use midnight_i9000_recovery.Bootloader.{Message}
use midnight_i9000_recovery.Recovery.Args.{Args, strtok_array, get_args, with_args, zeroed, newline}
use midnight_i9000_recovery.Recovery.Finish.{System, environment}
use midnight_i9000_recovery.Recovery.Main.Wiping.{Spares, main_spares_data}

-- Whether the data and the cache have contents.
record Machine : Type 0 where
  pub message : Message
  pub file : Option Bytes
  pub has_data : Bool
  pub has_cache : Bool

abbrev erase : Bytes → Machine → Bool × Machine
erase name s =
    if bytes_eq name (codes "/data")
    then (true, record s { has_data = false })
    else (true, record s { has_cache = false })

abbrev succeeds : Machine → Bool × Machine
succeeds s = (true, s)

abbrev machine : System Machine
machine = record {
  is_mtd = true;
  messages = record { get = λ s. some s.message; set = λ x s. (true, record s { message = x }) };
  ignored = λ s. false;
  command_file = λ s. s.file;
  write_intent = λ intent s. s;
  copy_log_file = λ name append s. s;
  chmod = λ name mode s. s;
  mount_command_file = succeeds;
  unlink_command_file = λ s. (true, record s { file = none });
  sync = λ s. s;
  erase_volume = erase;
  device_wipe_data = succeeds;
  install_package = λ path s. (false, s);
  read_encrypted_fs_info = succeeds;
  restore_encrypted_fs_info = succeeds;
  extendedcommand_file_exists = λ s. false;
  run_and_remove_extendedcommand = λ s. (0, s);
  handle_failure = λ ret s. s;
  text_visible = λ s. false;
  show_text = λ shown s. s;
  set_show_text = λ shown s. s;
  prompt_and_wait = λ s. s;
  scan_mounted_volumes = λ s. s;
  ensure_path_mounted = λ path s. (not (bytes_eq path (codes "/sdcard")), s);
  find_mounted_volume = λ path s. not (bytes_eq path (codes "/sdcard"));
}

-- Three of the options, as getopt_long() finds them.
abbrev option_of : Bytes → ℕ × Bytes
option_of text =
    if bytes_eq text (codes "--wipe_data")
    then (b'w', [])
    else if bytes_eq text (codes "--wipe_cache")
    then (b'c', [])
    else if bytes_eq text (codes "--set_encrypted_filesystems=no")
    then (b'e', codes "no")
    else (b'?', [])

abbrev getopt : Args → List (ℕ × Bytes)
getopt args = map option_of args.1

abbrev with_file : Bytes → Machine
with_file text = record {
  message = zeroed;
  file = some (text ++ newline ∷ []);
  has_data = true;
  has_cache = true;
}

abbrev wiping : Args
wiping = (codes "recovery", codes "--wipe_cache" ∷ [])

abbrev started : Machine
started = record (with_file (codes "--wipe_cache")) {
  message = with_args zeroed (codes "--wipe_cache" ∷ []);
}

wiping_args :
    get_args machine.messages
      (environment machine (with_file (codes "--wipe_cache")))
      (codes "recovery", [])
      (with_file (codes "--wipe_cache"))
    ≡ ok (wiping, started)
unfolding get_args strtok_array
wiping_args = refl

machine-Finishes : Finishes machine
machine-Finishes = record {
  set-get = λ s e. refl;
  mount-get = λ s. refl;
  unlink-get = λ s. refl;
  sync-get = λ s. refl;
  unlink-file = λ s e. refl;
  sync-file = λ s. refl;
}

machine-Spares : Spares machine (λ s. s.has_data ≡ true)
machine-Spares = record {
  set_message = λ x s h. h;
  write_intent = λ intent s h. h;
  copy_log_file = λ name append s h. h;
  chmod = λ name mode s h. h;
  mount_command_file = λ s h. h;
  unlink_command_file = λ s h. h;
  sync = λ s h. h;
  erase_cache = λ s h. h;
  install_package = λ path s h. h;
  run_extended = λ s h. h;
  handle_failure = λ ret s h. h;
  show_text = λ shown s h. h;
  set_show_text = λ shown s h. h;
  prompt_and_wait = λ s h. h;
  scan_mounted_volumes = λ s h. h;
  ensure_path_mounted = λ path s h. h;
}

no_mode : (parse_options false no_options (getopt wiping)).encrypted_fs_mode ≡ none
unfolding parse_options
no_mode = refl

no_wipe : (parse_options false no_options (getopt wiping)).wipe_data ≡ false
unfolding parse_options
no_wipe = refl

some_of : {text : Bytes} → none ≡ some text → ⊥
some_of e = cc

no_setting :
    (text : Bytes)
    → (parse_options false no_options (getopt wiping)).encrypted_fs_mode ≡ some text
    → ⊥
unfolding parse_options
no_setting text e = some_of e

machine-AllFound : AllFound machine mount_paths
machine-AllFound =
    (λ s e. refl, (λ s e. refl, (λ s e. refl, (λ s e. refl, (λ s e. absurd (cc), tt)))))

main-Ended_example :
    Returns
      (main machine false getopt (codes "recovery", []) (with_file (codes "--wipe_cache")))
      (λ s2.
        Returns
          (get_args machine.messages (environment machine s2) (codes "recovery", []) s2)
          (λ r. r.0 ≡ (codes "recovery", [])))
main-Ended_example =
    main-Ended machine machine-Finishes false getopt (codes "recovery", []) wiping
      (with_file (codes "--wipe_cache")) started (codes "recovery") wiping_args
      (λ text e. absurd (no_setting text e)) machine-AllFound (λ s. refl) (λ s. refl) (λ s. refl)

main_spares_data_example :
    Returns
      (main machine false getopt (codes "recovery", []) (with_file (codes "--wipe_cache")))
      (λ s. s.has_data ≡ true)
main_spares_data_example =
    main_spares_data machine (λ s. s.has_data ≡ true) machine-Spares false getopt
      (codes "recovery", []) wiping (with_file (codes "--wipe_cache")) started wiping_args refl
      no_wipe no_mode machine-AllFound

-- What is left after it.
abbrev left : Run Machine → Option (Bool × Bool)
left (fault cause) = none
left (ok s) = some (s.has_data, s.has_cache)

cache_wiped :
    left (main machine false getopt (codes "recovery", []) (with_file (codes "--wipe_cache")))
    ≡ some (true, false)
unfolding main
cache_wiped = refl

data_wiped :
    left (main machine false getopt (codes "recovery", []) (with_file (codes "--wipe_data")))
    ≡ some (false, false)
unfolding main
data_wiped = refl

-- With another setting than "on" and "off" a variable is read before it is set.
wrong_setting :
    main machine false getopt
      (codes "recovery", [])
      (with_file (codes "--set_encrypted_filesystems=no"))
    ≡ fault Fault.uninitialised
unfolding main
wrong_setting = refl

old_path : package_path (codes "CACHE:update.zip") ≡ codes "/cache/update.zip"
old_path = refl

-- A path that is mounted but not in the table: its entry is used without a test.
unlisted_volume :
    report_mounts (record machine { find_mounted_volume = λ path s. false }) mount_paths started
    ≡ fault Fault.null_pointer
unlisted_volume = refl

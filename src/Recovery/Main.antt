-- ===== src/Recovery/Main.antt =====
-- The decisions of main() of recovery.c: the options, what is done for them, and the end. The results of
-- getopt_long() are a parameter: the letters of the options with their values. What is printed is left out.
pub mod Ending
pub mod Wiping
mod Tests
use midnight_i9000_recovery.Common.{
  ℕ, zero, suc, ◌==◌, Bool, true, false, not, ◌&&◌, ◌||◌, List, [], ◌∷◌, ◌++◌, drop, Option, none,
  some, if◌then◌else◌,
}
use midnight_i9000_recovery.Common.Run.{Run, ok, fault, Fault, ◌>>=◌}
use midnight_i9000_recovery.Common.Text.{Bytes, codes, bytes_eq, has_prefix}
use midnight_i9000_recovery.Recovery.Args.{Args, get_args}
use midnight_i9000_recovery.Recovery.Finish.{System, environment, finish_recovery}

-- The variables of main() that the options set; `previous_runs` is never used.
pub record Options : Type 0 where
  pub send_intent : Option Bytes
  pub update_package : Option Bytes
  pub encrypted_fs_mode : Option Bytes
  pub wipe_data : Bool
  pub wipe_cache : Bool
  pub show_text : Bool

abbrev pub no_options : Options
no_options = record {
  send_intent = none;
  update_package = none;
  encrypted_fs_mode = none;
  wipe_data = false;
  wipe_cache = false;
  show_text = false;
}

-- One pass of the loop; with `always_wipes` the option to wipe data is without effect.
abbrev pub take_option : Bool → Options → ℕ × Bytes → Options
take_option always_wipes o (arg, value) =
    if arg == b's'
    then record o { send_intent = some value }
    else if arg == b'u'
    then record o { update_package = some value }
    else if arg == b'w'
    then (if always_wipes then o else record o { wipe_data = true; wipe_cache = true })
    else if arg == b'c'
    then record o { wipe_cache = true }
    else if arg == b'e'
    then record o { encrypted_fs_mode = some value }
    else if arg == b't'
    then record o { show_text = true }
    else o

unfoldable pub parse_options : Bool → Options → List (ℕ × Bytes) → Options
parse_options always_wipes o [] = o
parse_options always_wipes o (a ∷ rest) =
    parse_options always_wipes (take_option always_wipes o a) rest

-- "CACHE:foo" is "/cache/foo".
abbrev pub package_path : Bytes → Bytes
package_path path =
    if has_prefix (codes "CACHE:") path then codes "/cache/" ++ drop 6 path else path

-- Whether encrypted file systems are to be enabled; `none` where the mode is not set.
abbrev pub fs_mode : Bytes → Option Bool
fs_mode text =
    if bytes_eq text (codes "on")
    then some true
    else if bytes_eq text (codes "off")
    then some false
    else none

-- The paths that main() mounts.
abbrev pub mount_paths : List Bytes
mount_paths =
    codes "/system" ∷ codes "/cache" ∷ codes "/data" ∷ codes "/dbdata" ∷ codes "/sdcard" ∷ []

module _ {S : Type 0} (sys : System S) where
  -- Goes on only where the call succeeds.
  abbrev pub and_then : Bool × S → (S → Bool × S) → Bool × S
  and_then (true, s) next = next s
  and_then (false, s) next = (false, s)

  -- Goes on in any case, and tells whether both succeed.
  abbrev pub and_also : Bool × S → (S → Bool × S) → Bool × S
  and_also (done, s) next = (done && (next s).0, (next s).1)

  -- Whether the mode stays enabled.
  abbrev pub keep_enabled : Bool → S → Bool × S
  keep_enabled false s = (false, s)
  keep_enabled true s = sys.read_encrypted_fs_info s

  abbrev pub restore_info : Bool → S → Bool × S
  restore_info false s = (true, s)
  restore_info true s = sys.restore_encrypted_fs_info s

  abbrev pub change_encryption : Bool × S → Bool × S
  change_encryption (enabled, s) =
      and_then (sys.erase_volume (codes "/data") s)
        λ s1. and_then (sys.erase_volume (codes "/cache") s1) (restore_info enabled)

  -- With a wrong setting, `mode` is read before it is set.
  abbrev pub toggle_secure_fs : Option Bool → S → Run (Bool × S)
  toggle_secure_fs none s = fault Fault.uninitialised
  toggle_secure_fs (some enabled) s = ok (change_encryption (keep_enabled enabled s))

  abbrev pub erase_cache_if : Bool → S → Bool × S
  erase_cache_if wipe s = if wipe then sys.erase_volume (codes "/cache") s else (true, s)

  abbrev pub wipe_volumes : Bool → S → Bool × S
  wipe_volumes with_cache s =
      and_also (and_also (sys.device_wipe_data s) (sys.erase_volume (codes "/data")))
        (erase_cache_if with_cache)

  abbrev pub extended_result : ℕ × S → Bool × S
  extended_result (ret, s) =
      if ret == 0 then (true, sys.set_show_text false s) else (false, sys.handle_failure ret s)

  -- Where no command is given.
  abbrev pub user_initiated : S → Bool × S
  user_initiated s =
      let s1 = sys.set_show_text true s in
      if sys.extendedcommand_file_exists s1
      then extended_result (sys.run_and_remove_extendedcommand s1)
      else (false, s1)

  abbrev pub run_other : Options → S → Bool × S
  run_other o s =
      if o.wipe_data
      then wipe_volumes o.wipe_cache s
      else if o.wipe_cache
      then sys.erase_volume (codes "/cache") s
      else user_initiated s

  abbrev pub run_package : Options → Option Bytes → S → Bool × S
  run_package o none s = run_other o s
  run_package o (some path) s = sys.install_package (package_path path) s

  -- Whether `status` is INSTALL_SUCCESS in the end.
  abbrev pub run_command : Options → Option Bytes → S → Run (Bool × S)
  run_command o none s = ok (run_package o o.update_package s)
  run_command o (some mode) s = toggle_secure_fs (fs_mode mode) s

  abbrev pub show_if : Bool → S → S
  show_if shown s = if shown then sys.show_text true s else s

  -- What is printed of a volume that is mounted: its entry in the table is used without a test.
  abbrev pub report_found : Bool → S → Run S
  report_found true s = ok s
  report_found false s = fault Fault.null_pointer

  -- The number that it returns is only printed.
  abbrev pub get_partition_free : Bytes → S → S
  get_partition_free partition s = (sys.ensure_path_mounted partition s).1

  abbrev pub report_mount : Bytes → Bool × S → Run S
  report_mount path (mounted, s) =
      let s1 = get_partition_free path s in
      if mounted then report_found (sys.find_mounted_volume path s1) s1 else ok s

  abbrev pub report_mounts : List Bytes → S → Run S
  report_mounts [] s = ok s
  report_mounts (path ∷ rest) s =
      report_mount path (sys.ensure_path_mounted path s) >>= λ s1. report_mounts rest s1

  abbrev pub end_with : Options → Bool × S → S
  end_with o (done, s) =
      finish_recovery sys o.send_intent
        (if not done || sys.text_visible s then sys.prompt_and_wait s else s)

  -- From get_args to the reboot. `getopt` gives the options of the arguments.
  unfoldable pub main : Bool → (Args → List (ℕ × Bytes)) → Args → S → Run S
  unfolding get_args parse_options finish_recovery
  main always_wipes getopt args s = get_args sys.messages (environment sys s) args s >>= λ r.
      let o = parse_options always_wipes no_options (getopt r.0) in
      report_mounts mount_paths (sys.scan_mounted_volumes (show_if o.show_text r.1)) >>= λ s1.
      run_command o o.encrypted_fs_mode s1 >>= λ done. ok (end_with o done)

-- ===== src/Recovery/Main/Wiping.antt =====
-- What main() of recovery.c leaves alone where no option asks for it.
use midnight_i9000_recovery.Common.{
  ap, ℕ, ◌==◌, ◌≡◌, refl, sym, Bool, true, false, not, ◌||◌, List, Option, none, some,
  if◌then◌else◌,
}
use mathlib.Core.Path.{subst}
use midnight_i9000_recovery.Common.Run.{ok, Returns}
use midnight_i9000_recovery.Common.Text.{Bytes, codes}
use midnight_i9000_recovery.Bootloader.{Message}
use midnight_i9000_recovery.Recovery.Args.{Args, get_args, zeroed}
use midnight_i9000_recovery.Recovery.Finish.{
  System, environment, send, copy_logs, clear_message, remove_command, finish_recovery, log_file,
  last_log_file,
}
use midnight_i9000_recovery.Recovery.Main.Ending.{AllFound, report_mounts-Kept}
use midnight_i9000_recovery.Recovery.Main.{
  mount_paths, Options, no_options, parse_options, package_path, extended_result, user_initiated,
  run_other, wipe_volumes, run_package, run_command, show_if, end_with, main,
}

-- All calls keep `P` but those that erase the data: device_wipe_data, erase_volume("/data"), and the two
-- on the encrypted file systems.
pub record Spares {S : Type 0} (sys : System S) (P : S → Type 0) : Type 0 where
  pub set_message : (x : Message) (s : S) → P s → P (sys.messages.set x s).1
  pub write_intent : (intent : Bytes) (s : S) → P s → P (sys.write_intent intent s)
  pub copy_log_file :
      (name : Bytes) (append : Bool) (s : S) → P s → P (sys.copy_log_file name append s)
  pub chmod : (name : Bytes) (mode : ℕ) (s : S) → P s → P (sys.chmod name mode s)
  pub mount_command_file : (s : S) → P s → P (sys.mount_command_file s).1
  pub unlink_command_file : (s : S) → P s → P (sys.unlink_command_file s).1
  pub sync : (s : S) → P s → P (sys.sync s)
  pub erase_cache : (s : S) → P s → P (sys.erase_volume (codes "/cache") s).1
  pub install_package : (path : Bytes) (s : S) → P s → P (sys.install_package path s).1
  pub run_extended : (s : S) → P s → P (sys.run_and_remove_extendedcommand s).1
  pub handle_failure : (ret : ℕ) (s : S) → P s → P (sys.handle_failure ret s)
  pub show_text : (shown : Bool) (s : S) → P s → P (sys.show_text shown s)
  pub set_show_text : (shown : Bool) (s : S) → P s → P (sys.set_show_text shown s)
  pub prompt_and_wait : (s : S) → P s → P (sys.prompt_and_wait s)
  pub scan_mounted_volumes : (s : S) → P s → P (sys.scan_mounted_volumes s)
  pub ensure_path_mounted : (path : Bytes) (s : S) → P s → P (sys.ensure_path_mounted path s).1

module _ {S : Type 0} (sys : System S) (P : S → Type 0) (spares : Spares sys P) where
  if_kept : (b : Bool) (x y : S) → P x → P y → P (if b then x else y)
  if_kept true x y h k = h
  if_kept false x y h k = k

  -- The state after one of two calls.
  if_state : (b : Bool) (x y : Bool × S) → P x.1 → P y.1 → P (if◌then◌else◌ {A = Bool × S} b x y).1
  if_state true x y h k = h
  if_state false x y h k = k

  extended_kept : (r : ℕ × S) → P r.1 → P (extended_result sys r).1
  extended_kept (ret, s) h =
      if_state (ret == 0) (true, sys.set_show_text false s) (false, sys.handle_failure ret s)
        (spares.set_show_text false s h) (spares.handle_failure ret s h)

  user_initiated_kept : (s : S) → P s → P (user_initiated sys s).1
  user_initiated_kept s h =
      let s1 = sys.set_show_text true s in
      let shown : P s1 = spares.set_show_text true s h in
      if_state (sys.extendedcommand_file_exists s1)
        (extended_result sys (sys.run_and_remove_extendedcommand s1)) (false, s1)
        (extended_kept (sys.run_and_remove_extendedcommand s1) (spares.run_extended s1 shown)) shown

  run_other_kept : (o : Options) (s : S) → o.wipe_data ≡ false → P s → P (run_other sys o s).1
  run_other_kept o s no_wipe h =
      subst
        (λ b.
          P
            (if◌then◌else◌ {A = Bool × S} b (wipe_volumes sys o.wipe_cache s) (
              if o.wipe_cache
              then sys.erase_volume (codes "/cache") s
              else user_initiated sys s)).1)
        (sym no_wipe)
        (if_state o.wipe_cache (sys.erase_volume (codes "/cache") s) (user_initiated sys s)
          (spares.erase_cache s h) (user_initiated_kept s h))

  run_package_kept :
      (o : Options) (path : Option Bytes) (s : S)
      → o.wipe_data ≡ false
      → P s
      → P (run_package sys o path s).1
  run_package_kept o none s no_wipe h = run_other_kept o s no_wipe h
  run_package_kept o (some path) s no_wipe h = spares.install_package (package_path path) s h

  send_kept : (intent : Option Bytes) (s : S) → P s → P (send sys intent s)
  send_kept none s h = h
  send_kept (some intent) s h = spares.write_intent intent s h

  remove_kept : (r : Bool × S) → P r.1 → P (remove_command sys r)
  remove_kept (mounted, s) h =
      if_kept mounted (sys.unlink_command_file s).1 s (spares.unlink_command_file s h) h

  finish_recovery_kept : (intent : Option Bytes) (s : S) → P s → P (finish_recovery sys intent s)
  unfolding finish_recovery
  finish_recovery_kept intent s h =
      let s1 = send sys intent s in
      let s2 = sys.copy_log_file log_file true s1 in
      let s3 = sys.copy_log_file last_log_file false s2 in
      let s4 = copy_logs sys s1 in
      let logs : P s4 = spares.chmod last_log_file 416 s3 (
        spares.copy_log_file last_log_file false s2
          (spares.copy_log_file log_file true s1 (send_kept intent s h))) in
      let s5 = clear_message sys s4 in
      let cleared : P s5 =
        if_kept sys.is_mtd (sys.messages.set zeroed s4).1 s4 (spares.set_message zeroed s4 logs)
          logs in
      spares.sync (remove_command sys (sys.mount_command_file s5))
        (remove_kept (sys.mount_command_file s5) (spares.mount_command_file s5 cleared))

  end_with_kept : (o : Options) (r : Bool × S) → P r.1 → P (end_with sys o r)
  end_with_kept o (done, s) h =
      let asked = not done || sys.text_visible s in
      finish_recovery_kept o.send_intent (if asked then sys.prompt_and_wait s else s)
        (if_kept asked (sys.prompt_and_wait s) s (spares.prompt_and_wait s h) h)

  -- Where get_args returns, the options ask neither for a wipe of the data nor for a change of the
  -- encrypted file systems, and each of the five paths that are mounted at the start is found in the
  -- table of mounted volumes where mounting it succeeds, once get_partition_free has mounted it again,
  -- main() ends, and any property that holds after
  -- get_args holds at the end, if it is kept by each of the calls of main(), the menu, the packages and
  -- the extended commands with them, except device_wipe_data, erase_volume("/data") and the two calls on
  -- the encrypted file systems: main() itself makes none of these four then.
  pub main_spares_data :
      (always_wipes : Bool) (getopt : Args → List (ℕ × Bytes)) (args found : Args) (s s1 : S)
      → get_args sys.messages (environment sys s) args s ≡ ok (found, s1)
      → P s1
      → (parse_options always_wipes no_options (getopt found)).wipe_data ≡ false
      → (parse_options always_wipes no_options (getopt found)).encrypted_fs_mode ≡ none
      → AllFound sys mount_paths
      → Returns (main sys always_wipes getopt args s) P
  unfolding main
  main_spares_data always_wipes getopt args found s s1 got h no_wipe no_mode all_found =
      let o = parse_options always_wipes no_options (getopt found) in
      let s2 = show_if sys o.show_text s1 in
      let shown : P s2 =
        if_kept o.show_text (sys.show_text true s1) s1 (spares.show_text true s1 h) h in
      let (s3, reported, kept) =
        report_mounts-Kept sys P spares.ensure_path_mounted mount_paths
          (sys.scan_mounted_volumes s2) all_found (spares.scan_mounted_volumes s2 shown) in
      let done = run_package sys o o.update_package s3 in
      let ran : run_command sys o o.encrypted_fs_mode s3 ≡ ok done =
        ap (λ mode. run_command sys o mode s3) no_mode in
      rw got (
        rw (reported, ran)
          (
            end_with sys o done,
            refl,
            end_with_kept o done (run_package_kept o o.update_package s3 no_wipe kept),
          ))

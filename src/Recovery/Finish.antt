-- ===== src/Recovery/Finish.antt =====
-- finish_recovery of recovery.c, and what main() uses of the rest of the system.
use midnight_i9000_recovery.Common.{ℕ, Bool, true, false, Option, none, some, if◌then◌else◌}
use midnight_i9000_recovery.Common.Text.{Bytes, codes}
use midnight_i9000_recovery.Bootloader.{Messages}
use midnight_i9000_recovery.Recovery.Args.{Environment, zeroed}

-- `messages` is the boot message in /misc. A Bool tells whether a call succeeds.
pub record System (S : Type 0) : Type 0 where
  pub is_mtd : Bool
  pub messages : Messages S
  pub ignored : S → Bool
  pub command_file : S → Option Bytes
  pub write_intent : Bytes → S → S
  pub copy_log_file : Bytes → Bool → S → S
  pub chmod : Bytes → ℕ → S → S
  pub mount_command_file : S → Bool × S
  pub unlink_command_file : S → Bool × S
  pub sync : S → S
  pub erase_volume : Bytes → S → Bool × S
  pub device_wipe_data : S → Bool × S
  pub install_package : Bytes → S → Bool × S
  pub read_encrypted_fs_info : S → Bool × S
  pub restore_encrypted_fs_info : S → Bool × S
  pub extendedcommand_file_exists : S → Bool
  pub run_and_remove_extendedcommand : S → ℕ × S
  pub handle_failure : ℕ → S → S
  pub text_visible : S → Bool
  pub show_text : Bool → S → S
  pub set_show_text : Bool → S → S
  pub prompt_and_wait : S → S
  pub scan_mounted_volumes : S → S
  pub ensure_path_mounted : Bytes → S → Bool × S
  pub find_mounted_volume : Bytes → S → Bool

abbrev pub log_file : Bytes
log_file = codes "/cache/recovery/log"

abbrev pub last_log_file : Bytes
last_log_file = codes "/cache/recovery/last_log"

module _ {S : Type 0} (sys : System S) where
  abbrev pub environment : S → Environment
  environment s = record {
    is_mtd = sys.is_mtd;
    ignored = sys.ignored s;
    command_file = sys.command_file s;
  }

  abbrev pub send : Option Bytes → S → S
  send none s = s
  send (some intent) s = sys.write_intent intent s

  abbrev pub copy_logs : S → S
  copy_logs s =
      sys.chmod last_log_file 416
        (sys.copy_log_file last_log_file false (sys.copy_log_file log_file true s))

  abbrev pub clear_message : S → S
  clear_message s = if sys.is_mtd then (sys.messages.set zeroed s).1 else s

  abbrev pub remove_command : Bool × S → S
  remove_command (mounted, s) = if mounted then (sys.unlink_command_file s).1 else s

  unfoldable pub finish_recovery : Option Bytes → S → S
  finish_recovery intent s =
      sys.sync (remove_command (sys.mount_command_file (clear_message (copy_logs (send intent s)))))

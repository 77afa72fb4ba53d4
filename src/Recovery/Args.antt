-- ===== src/Recovery/Args.antt =====
-- get_args and set_sdcard_update_bootloader_message of recovery.c. The arguments are argv[0] and the
-- list of those behind it.
use midnight_i9000_recovery.Common.CString.{fgets, c_string, strlcpy, strlcat}
use midnight_i9000_recovery.Common.{
  ℕ, zero, suc, Bool, true, false, ◌||◌, List, [], ◌∷◌, ◌++◌, take, set, replicate, Option, none,
  some, if◌then◌else◌, ◌==◌,
}
use midnight_i9000_recovery.Common.Run.{Run, ok, fault, Fault, ◌>>=◌}
use midnight_i9000_recovery.Common.Text.{Bytes, codes, bytes_eq}
use midnight_i9000_recovery.Common.Words.{words_by}
use midnight_i9000_recovery.Bootloader.{Message, Messages}

abbrev pub Args : Type 0
Args = Bytes × List Bytes

-- Whether device_flash_type() is MTD, whether /tmp/.ignorebootmessage is there, and the content of
-- COMMAND_FILE if it can be opened.
pub record Environment : Type 0 where
  pub is_mtd : Bool
  pub ignored : Bool
  pub command_file : Option Bytes

abbrev pub newline : ℕ
newline = 10

abbrev pub is_newline : ℕ → Bool
is_newline c = c == 10

-- One of "\r\n".
abbrev pub is_line_end : ℕ → Bool
is_line_end c = (c == 13) || (c == 10)

abbrev pub zeroed : Message
zeroed = record { command = replicate 32 0; status = replicate 32 0; recovery = replicate 1024 0 }

-- The array after some calls of strtok(…, "\n"): they put a NUL behind each word. `in_word` tells
-- whether a word has begun.
unfoldable pub strtok_array : ℕ → Bool → Bytes → Bytes
strtok_array calls in_word [] = []
strtok_array zero false (c ∷ cs) = c ∷ cs
strtok_array (suc calls) false (c ∷ cs) =
    let between = c ∷ strtok_array (suc calls) false cs in
    let inside = c ∷ strtok_array calls true cs in
    if c == 0 then c ∷ cs else if is_newline c then between else inside
strtok_array calls true (c ∷ cs) =
    let between = 0 ∷ strtok_array calls false cs in
    let inside = c ∷ strtok_array calls true cs in
    if c == 0 then c ∷ cs else if is_newline c then between else inside

-- From the words of the boot message; `none` if it does not begin with "recovery".
abbrev pub from_words : List Bytes → Option Args
from_words [] = none
from_words (arg ∷ more) = if bytes_eq arg (codes "recovery") then some (arg, take 99 more) else none

-- What is left of the array, and the arguments that are taken.
abbrev pub taken_from : Message → Bytes → Args → Option Args → Args × Message
taken_from boot recovery args none =
    (args, record boot { recovery = strtok_array 1 false recovery })
taken_from boot recovery args (some found) =
    (found, record boot { recovery = strtok_array 100 false recovery })

unfoldable pub from_boot_message : Message → Args → Args × Message
from_boot_message boot args =
    let recovery = set boot.recovery 1023 0 in
    taken_from boot recovery args (from_words (words_by is_newline [] (c_string recovery)))

-- strdup(strtok(buf, "\r\n"))
abbrev pub first_word : List Bytes → Run Bytes
first_word [] = fault Fault.null_pointer
first_word (w ∷ ws) = ok w

-- The lines of COMMAND_FILE, of which there is room for `n`.
unfoldable pub file_args : ℕ → Bytes → Run (List Bytes)
unfolding fgets words_by
file_args n [] = ok []
file_args zero (c ∷ cs) = ok []
file_args (suc n) (c ∷ cs) =
    let (line, rest) = fgets 4095 (c ∷ cs) in
    do w ← first_word (words_by is_line_end [] (c_string line)); ws ← file_args n rest; ok (w ∷ ws)

-- If there is no argument yet.
abbrev pub or_file : Environment → Args → Run Args
or_file env (name, a ∷ rest) = ok (name, a ∷ rest)
or_file env (name, []) = elim (env.command_file) [
  | none ↦ ok (name, [])
  | some text ↦ do args ← file_args 99 text; ok (name, args)
]

abbrev pub or_boot_message : Environment → Message → Args → Args × Message
or_boot_message env boot (name, a ∷ rest) = ((name, a ∷ rest), boot)
or_boot_message env boot (name, []) =
    if env.ignored then ((name, []), boot) else from_boot_message boot (name, [])

-- The loop that writes the arguments into the message.
unfoldable pub append_args : Bytes → List Bytes → Bytes
append_args array [] = array
append_args array (a ∷ rest) = append_args (strlcat (strlcat array a) (newline ∷ [])) rest

unfoldable pub with_args : Message → List Bytes → Message
unfolding append_args
with_args boot args = record boot {
  command = strlcpy boot.command (codes "boot-recovery");
  recovery = append_args (strlcpy boot.recovery (codes "recovery" ++ newline ∷ [])) args;
}

-- The message of /misc; an error leaves it zeroed.
abbrev pub or_zeroed : Option Message → Message
or_zeroed none = zeroed
or_zeroed (some boot) = boot

module _ {M : Type 0} (messages : Messages M) where
  abbrev pub boot_message : Environment → M → Message
  boot_message env m = if env.is_mtd then or_zeroed (messages.get m) else zeroed

  abbrev pub store : Environment → Message → M → M
  store env boot m = if env.is_mtd then (messages.set boot m).1 else m

  unfoldable pub get_args : Environment → Args → M → Run (Args × M)
  unfolding from_boot_message file_args with_args
  get_args env args m =
      let (args1, boot) = or_boot_message env (boot_message env m) args in
      do args2 ← or_file env args1; ok (args2, store env (with_args boot args2.1) m)

  -- The result of set_bootloader_message() is not used.
  unfoldable pub set_sdcard_update_bootloader_message : M → M
  set_sdcard_update_bootloader_message m =
      (messages.set
        (record zeroed {
          command = strlcpy zeroed.command (codes "boot-recovery");
          recovery = strlcpy zeroed.recovery (codes "recovery" ++ newline ∷ []);
        })
        m).1

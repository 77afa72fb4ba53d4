-- ===== src/Recovery/Restart.antt =====
-- What get_args of recovery.c writes, and finds after a restart.
use mathlib.Core.Path.{subst}
use midnight_i9000_recovery.Common.{
  ℕ, ◌≤◌, ◌≡◌, ◌≢◌, refl, sym, ap, ◌∙◌, true, false, List, [], ◌∷◌, length, take-all, Option, none,
  some, set, length-set, length-replicate, Bool-cases, inl, inr,
}
use midnight_i9000_recovery.Common.Run
use midnight_i9000_recovery.Common.Run.{Run, ok, fault, Returns}
use midnight_i9000_recovery.Common.Text.{Bytes, codes}
use midnight_i9000_recovery.Common.CString.{Holds, set-Holds, c_string-Holds, c_string}
use midnight_i9000_recovery.Common.Words.{AllWords, words_by, words_by-joined}
use midnight_i9000_recovery.Bootloader.{Message, Messages, IsMessages, IsSized}
use midnight_i9000_recovery.Recovery.Args.{
  Args, Environment, newline, is_newline, zeroed, from_words, taken_from, from_boot_message,
  or_boot_message, or_file, boot_message, store, with_args, get_args, or_zeroed, strtok_array,
}
use midnight_i9000_recovery.Recovery.Message.{
  Clean, message_text, length-strtok_array, Written, with_args-Written,
}

-- Arguments that a message can carry.
pub record Passable (args : List Bytes) : Type 0 where
  pub present : args ≢ []
  pub words : AllWords is_newline args
  pub clean : Clean args
  pub few : length args ≤ 99
  pub short : length (message_text args) ≤ 1023

message_words :
    (args : List Bytes)
    → AllWords is_newline args
    → words_by is_newline [] (message_text args) ≡ codes "recovery" ∷ args
message_words args words =
    words_by-joined is_newline newline (codes "recovery" ∷ args) refl
      ((refl, (refl, (refl, (refl, (refl, (refl, (refl, (refl, tt)))))))), words)

found_words :
    (args : List Bytes)
    → length args ≤ 99
    → from_words (codes "recovery" ∷ args) ≡ some (codes "recovery", args)
found_words args few = ap (λ x. some (codes "recovery", x)) (take-all 99 args few)

from_boot_message-Passable :
    (boot : Message) (args : List Bytes) (name : Bytes)
    → Passable args
    → Holds boot.recovery (message_text args)
    → (from_boot_message boot (name, [])).0 ≡ (codes "recovery", args)
unfolding from_boot_message
from_boot_message-Passable boot args name passable held =
    let read : c_string (set boot.recovery 1023 0) ≡ message_text args =
      c_string-Holds (set boot.recovery 1023 0) (message_text args)
        (set-Holds boot.recovery (message_text args) 1023 held passable.short) in
    let found : from_words (words_by is_newline [] (c_string (set boot.recovery 1023 0)))
        ≡ some (codes "recovery", args) =
      ap (λ t. from_words (words_by is_newline [] t)) read
      ∙ ap from_words (message_words args passable.words)
      ∙ found_words args passable.few in
    ap (λ o. (taken_from boot (set boot.recovery 1023 0) (name, []) o).0) found

abbrev nul : ℕ
nul = 0

zeroed-IsSized : IsSized zeroed
zeroed-IsSized = record {
  command-size = length-replicate 32 nul;
  status-size = length-replicate 32 nul;
  recovery-size = length-replicate 1024 nul;
}

from_boot_message-IsSized :
    (boot : Message) (args : Args) → IsSized boot → IsSized (from_boot_message boot args).1
unfolding from_boot_message
from_boot_message-IsSized boot args sized =
    of_words (from_words (words_by is_newline [] (c_string (set boot.recovery 1023 0))))
  where
    size : (calls : ℕ) → length (strtok_array calls false (set boot.recovery 1023 0)) ≡ 1024
    size calls =
        length-strtok_array calls false (set boot.recovery 1023 0)
        ∙ length-set boot.recovery 1023 0
        ∙ sized.recovery-size

    of_words : (o : Option Args) → IsSized (taken_from boot (set boot.recovery 1023 0) args o).1
    of_words none = record {
      command-size = sized.command-size;
      status-size = sized.status-size;
      recovery-size = size 1;
    }
    of_words (some found) = record {
      command-size = sized.command-size;
      status-size = sized.status-size;
      recovery-size = size 100;
    }

or_boot_message-IsSized :
    (env : Environment) (boot : Message) (args : Args)
    → IsSized boot
    → IsSized (or_boot_message env boot args).1
or_boot_message-IsSized env boot (name, a ∷ rest) sized = sized
or_boot_message-IsSized env boot (name, []) sized = elim (Bool-cases env.ignored) [
  | inl ignored ↦ rw ignored sized
  | inr read ↦ rw read (from_boot_message-IsSized boot (name, []) sized)
]

given :
    (env : Environment) (name : Bytes) (args : List Bytes)
    → args ≢ []
    → or_file env (name, args) ≡ ok (name, args)
given env name [] some_args = absurd (some_args refl)
given env name (a ∷ rest) some_args = refl

module _ {M : Type 0} (messages : Messages M) (lawful : IsMessages messages) where
  boot_message-IsSized : (env : Environment) (m : M) → IsSized (boot_message messages env m)
  boot_message-IsSized env m = elim (Bool-cases env.is_mtd) [
    | inl mtd ↦ rw mtd (of_read (messages.get m) refl)
    | inr other ↦ rw other zeroed-IsSized
  ]
    where
      of_read : (o : Option Message) → messages.get m ≡ o → IsSized (or_zeroed o)
      of_read none e = zeroed-IsSized
      of_read (some boot) e = lawful.get-IsSized m boot e

  kept_result :
      (r : Run Args) (f : Args → M) (found : Args) (m' : M)
      → Run.◌>>=◌ {Result = Args × M} r (λ args2. ok (args2, f args2)) ≡ ok (found, m')
      → m' ≡ f found
  kept_result (fault e) f found m' h = absurd (cc)
  kept_result (ok a) f found m' h =
      let e : a ≡ found = cc in let e' : f a ≡ m' = cc in sym e' ∙ ap f e

  -- What a run of get_args leaves, when it returns arguments without a NUL in them: it writes a message
  -- of the right size with the command boot-recovery, the status it found and, in the third field,
  -- the string of "recovery" and the arguments, a line each, cut after 1023 bytes; on a device
  -- without MTD nothing is written.
  get_args-Writes :
      (env : Environment) (args found : Args) (m m' : M)
      → get_args messages env args m ≡ ok (found, m')
      → Clean found.1
      → (boot written : Message) × Written boot written found.1
        × (m' ≡ store messages env written m)
  unfolding get_args
  get_args-Writes env args found m m' h clean =
      let boot = (or_boot_message env (boot_message messages env m) args).1 in
      (
        boot,
        with_args boot found.1,
        with_args-Written boot found.1
            (or_boot_message-IsSized env (boot_message messages env m) args
              (boot_message-IsSized env m))
            clean,
        kept_result (or_file env (or_boot_message env (boot_message messages env m) args).0)
            (λ a. store messages env (with_args boot a.1) m) found m' h,
      )

  get_args-from_boot_message :
      (env : Environment) (name : Bytes) (args : List Bytes) (m : M)
      → Passable args
      → env.ignored ≡ false
      → Holds (boot_message messages env m).recovery (message_text args)
      → (m' : M) × (get_args messages env (name, []) m ≡ ok ((codes "recovery", args), m'))
  unfolding get_args
  get_args-from_boot_message env name args m passable read held =
      let boot = boot_message messages env m in
      let found = from_boot_message-Passable boot args name passable held in
      (
        store messages env (with_args (from_boot_message boot (name, [])).1 args) m,
        rw read (rw found (rw (given env (codes "recovery") args passable.present) refl)),
      )

  -- A restart before the work is done finds the arguments again. If a run of get_args on a device with
  -- MTD has come to arguments that the message can carry (there are some, at most 99, none is empty or
  -- has a newline or NUL in it, and their text fits into 1023 bytes), and writing the message
  -- succeeds, then a run with no arguments after that, where no file says that the boot message is
  -- to be ignored, returns the same arguments, whatever the command file then is.
  pub get_args-Restart :
      (env env' : Environment) (args found : Args) (name : Bytes) (m m' : M)
      → env.is_mtd ≡ true
      → env'.is_mtd ≡ true
      → env'.ignored ≡ false
      → ((x : Message) → (messages.set x m).0 ≡ true)
      → Passable found.1
      → get_args messages env args m ≡ ok (found, m')
      → (m2 : M) × (get_args messages env' (name, []) m' ≡ ok ((codes "recovery", found.1), m2))
  get_args-Restart env env' args found name m m' mtd mtd' read sets passable h =
      let (boot, written, w, e) = get_args-Writes env args found m m' h passable.clean in
      let stored : store messages env written m ≡ (messages.set written m).1 = rw mtd in
      let there : messages.get m' ≡ some written =
        ap messages.get (e ∙ stored) ∙ lawful.get-set written m w.sized (sets written) in
      let read_back : boot_message messages env' m' ≡ written = rw (mtd', there) in
      let cut = take-all 1023 (message_text found.1) passable.short in
      get_args-from_boot_message env' name found.1 m' passable read (
        subst (λ b. Holds (Message.recovery b) (message_text found.1)) (sym read_back)
          (subst (λ t. Holds written.recovery t) cut w.recovery))

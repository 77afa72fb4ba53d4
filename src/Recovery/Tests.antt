-- ===== src/Recovery/Tests.antt =====
-- Tests of the model of recovery.c, and the theorems at a misc partition in memory.
use midnight_i9000_recovery.Common.{
  ◌≡◌, refl, Bool, true, false, ◌&&◌, ◌==◌, [], ◌∷◌, ◌++◌, length, Option, none, some, arith,
  if◌then◌else◌,
}
use midnight_i9000_recovery.Common.Run.{ok, fault, Returns, Fault}
use midnight_i9000_recovery.Common.Text.{codes}
use midnight_i9000_recovery.Common.CString.{c_string, strlcpy, strlcat}
use midnight_i9000_recovery.Common.Words.{joined, words_by}
use midnight_i9000_recovery.Bootloader.{Message, Messages, IsMessages}
use midnight_i9000_recovery.Recovery.Args.{
  Args, Environment, newline, zeroed, get_args, with_args, append_args,
}
use midnight_i9000_recovery.Recovery.Restart.{Passable, get_args-Restart}
use midnight_i9000_recovery.Recovery.File.{get_args-AllLines}

-- A misc partition that holds a message, if its arrays have the right sizes.
is_sized : Message → Bool
is_sized x = (length x.command == 32) && ((length x.status == 32) && (length x.recovery == 1024))

read_misc : Message → Option Message
unfolding is_sized
read_misc x = if is_sized x then some x else none

abbrev misc : Messages Message
misc = record { get = read_misc; set = λ x m. (true, x) }

misc-IsMessages : IsMessages misc
unfolding read_misc
misc-IsMessages = record {
  get-IsSized = λ m x e. record {
    command-size = ground arith;
    status-size = ground arith;
    recovery-size = ground arith;
  };
  get-set = λ x m s e. ground (arith, s.command-size, s.status-size, s.recovery-size);
}

abbrev wipe_file : Environment
wipe_file = record {
  is_mtd = true;
  ignored = false;
  command_file = some (joined newline (codes "--wipe_data" ∷ []));
}

abbrev no_file : Environment
no_file = record { is_mtd = true; ignored = false; command_file = none }

abbrev wipe : Args
wipe = (codes "recovery", codes "--wipe_data" ∷ [])

abbrev after_wipe : Message
after_wipe = with_args zeroed (codes "--wipe_data" ∷ [])

wipe_args : get_args misc no_file wipe zeroed ≡ ok (wipe, after_wipe)
unfolding get_args read_misc
wipe_args = refl

wipe-Passable : Passable (codes "--wipe_data" ∷ [])
wipe-Passable = record {
  present = λ e. absurd (cc);
  words = (
    (refl, (refl, (refl, (refl, (refl, (refl, (refl, (refl, (refl, (refl, (refl, tt))))))))))),
    tt,
  );
  clean = (omega arith, tt);
  few = omega arith;
  short = omega arith;
}

get_args-Restart_example :
    (m2 : Message) × (get_args misc no_file (codes "/sbin/recovery", []) after_wipe
      ≡ ok ((codes "recovery", codes "--wipe_data" ∷ []), m2))
get_args-Restart_example =
    get_args-Restart misc misc-IsMessages no_file no_file wipe wipe (codes "/sbin/recovery") zeroed
      after_wipe refl refl refl (λ x. refl) wipe-Passable wipe_args

get_args-AllLines_example :
    Returns
      (get_args misc wipe_file (codes "/sbin/recovery", []) zeroed)
      (λ r. r.0 ≡ (codes "/sbin/recovery", codes "--wipe_data" ∷ []))
unfolding words_by read_misc
get_args-AllLines_example =
    get_args-AllLines misc wipe_file (codes "/sbin/recovery") (codes "--wipe_data" ∷ []) zeroed refl
      refl
      (
        (
          (
            refl,
            (refl, (refl, (refl, (refl, (refl, (refl, (refl, (refl, (refl, (refl, tt)))))))))),
          ),
          omega arith,
          omega arith,
        ),
        tt,
      )
      (omega arith)

-- A blank line crashes the program: strtok() finds no word, and strdup() gets NULL.
blank_line :
    get_args misc
      (record wipe_file { command_file = some (newline ∷ []) })
      (codes "recovery", [])
      zeroed
    ≡ fault Fault.null_pointer
unfolding get_args words_by read_misc
blank_line = refl

-- The arguments on the device after the first run.
message :
    c_string after_wipe.recovery ≡ codes "recovery" ++ newline ∷ codes "--wipe_data" ++ newline ∷ []
unfolding with_args append_args strlcpy strlcat
message = refl

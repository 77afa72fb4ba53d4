-- ===== src/Recovery/Message.antt =====
-- The message that get_args of recovery.c writes.
use mathlib.Core.Path.{sym, subst}
use midnight_i9000_recovery.Common.{
  length-append, take-all, append-nil, append_assoc, ap, ◌<◌, false, true, arith, zero, suc, Bool,
  ◌-◌, ◌∙◌, ℕ, ◌≡◌, refl, List, [], ◌∷◌, ◌++◌, length, take,
}
use midnight_i9000_recovery.Common.Text.{Bytes, codes}
use midnight_i9000_recovery.Common.CString.{
  Holds, NoNul, strlcpy, strlcat, strlcpy-Holds, strlcat-Holds, length-strlcpy, length-strlcat,
  take-take-append,
}
use midnight_i9000_recovery.Common.Words.{joined}
use midnight_i9000_recovery.Bootloader.{Message, IsSized}
use midnight_i9000_recovery.Recovery.Args.{newline, strtok_array, append_args, with_args}

abbrev pub Clean : List Bytes → Type 0
Clean [] = Unit
Clean (a ∷ rest) = NoNul a × Clean rest

-- The string for these arguments.
abbrev pub message_text : List Bytes → Bytes
message_text args = joined newline (codes "recovery" ∷ args)

pub length-strtok_array :
    (calls : ℕ) (in_word : Bool) (array : Bytes)
    → length (strtok_array calls in_word array) ≡ length array
unfolding strtok_array
length-strtok_array calls in_word [] = refl
length-strtok_array zero false (c ∷ cs) = refl
length-strtok_array (suc calls) false (c ∷ cs) =
    ground (arith, length-strtok_array (suc calls) false cs, length-strtok_array calls true cs)
length-strtok_array calls true (c ∷ cs) =
    ground (arith, length-strtok_array calls false cs, length-strtok_array calls true cs)

length-append_args :
    (array : Bytes) (args : List Bytes) → length (append_args array args) ≡ length array
unfolding append_args
length-append_args array [] = refl
length-append_args array (a ∷ rest) =
    length-append_args (strlcat (strlcat array a) (newline ∷ [])) rest
    ∙ length-strlcat (strlcat array a) (newline ∷ [])
    ∙ length-strlcat array a

add_argument :
    (n : ℕ) (s a rest : Bytes)
    → take n (take n (take n (s ++ a) ++ newline ∷ []) ++ rest)
      ≡ take n (s ++ (a ++ newline ∷ rest))
add_argument n s a rest =
    take-take-append n (take n (s ++ a) ++ newline ∷ []) rest
    ∙ ap (take n) (append_assoc (take n (s ++ a)) (newline ∷ []) rest)
    ∙ take-take-append n (s ++ a) (newline ∷ rest)
    ∙ ap (take n) (append_assoc s a (newline ∷ rest))

whole_text : (array s : Bytes) → Holds array s → take (length array - 1) (s ++ []) ≡ s
whole_text array s (clean, rest, e) =
    ap (take (length array - 1)) (append-nil s)
    ∙ take-all (length array - 1) s (omega (arith, ap length e, length-append s (0 ∷ rest)))

append_args-Holds :
    (array s : Bytes) (args : List Bytes)
    → Holds array s
    → Clean args
    → Holds (append_args array args) (take (length array - 1) (s ++ joined newline args))
unfolding append_args
append_args-Holds array s [] held clean =
    subst (λ t. Holds array t) (sym (whole_text array s held)) held
append_args-Holds array s (a ∷ rest) held clean =
    let n = length array - 1 in
    let once = strlcat-Holds array s a held clean.0 in
    let array' = strlcat (strlcat array a) (newline ∷ []) in
    let twice =
      strlcat-Holds (strlcat array a) (take n (s ++ a)) (newline ∷ []) once (omega arith, tt) in
    let same : length (strlcat array a) - 1 ≡ n = ap (λ k. k - 1) (length-strlcat array a) in
    let same' : length array' - 1 ≡ n =
      ap (λ k. k - 1) (length-strlcat (strlcat array a) (newline ∷ []) ∙ length-strlcat array a) in
    let more =
      append_args-Holds array' (take n (take n (s ++ a) ++ newline ∷ [])) rest
        (subst (λ k. Holds array' (take k (take n (s ++ a) ++ newline ∷ []))) same twice) clean.1 in
    subst (λ t. Holds (append_args array' rest) t) (add_argument n s a (joined newline rest))
      (subst
        (λ k.
          Holds (append_args array' rest)
            (take k (take n (take n (s ++ a) ++ newline ∷ []) ++ joined newline rest)))
        same' more)

-- What the message is for these arguments.
pub record Written (boot written : Message) (args : List Bytes) : Type 0 where
  pub sized : IsSized written
  pub command : Holds written.command (codes "boot-recovery")
  pub recovery : Holds written.recovery (take 1023 (message_text args))
  pub status : written.status ≡ boot.status

strlcpy_whole :
    (array text : Bytes) → NoNul text → length text < length array → Holds (strlcpy array text) text
strlcpy_whole [] text clean room = absurd (omega arith)
strlcpy_whole (c ∷ cs) text clean room =
    subst (λ t. Holds (strlcpy (c ∷ cs) text) t) (take-all (length cs) text (omega arith))
      (strlcpy-Holds c cs text clean)

pub with_args-Written :
    (boot : Message) (args : List Bytes)
    → IsSized boot
    → Clean args
    → Written boot (with_args boot args) args
unfolding with_args
with_args-Written boot args sized clean =
    let front = codes "recovery" ++ newline ∷ [] in
    let copied = strlcpy boot.recovery front in
    let size : length copied ≡ 1024 = length-strlcpy boot.recovery front ∙ sized.recovery-size in
    record {
      sized = record {
        command-size = length-strlcpy boot.command (codes "boot-recovery") ∙ sized.command-size;
        status-size = sized.status-size;
        recovery-size = length-append_args copied args ∙ size;
      };
      command =
          strlcpy_whole boot.command (codes "boot-recovery") (omega arith)
            (omega (arith, sized.command-size));
      recovery =
          subst (λ k. Holds (append_args copied args) (take (k - 1) (front ++ joined newline args)))
            size
            (append_args-Holds copied front args
              (strlcpy_whole boot.recovery front (omega arith) (omega (arith, sized.recovery-size)))
              clean);
      status = refl;
    }

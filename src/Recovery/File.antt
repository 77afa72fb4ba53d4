-- ===== src/Recovery/File.antt =====
-- get_args of recovery.c, where the arguments come from the command file.
use midnight_i9000_recovery.Common.{
  set, ℕ, zero, suc, ◌≤◌, ◌<◌, ◌≡◌, refl, ap, ◌∙◌, false, List, [], ◌∷◌, ◌++◌, length, none, some,
  arith, Bool-cases, inl, inr,
}
use midnight_i9000_recovery.Common.Run
use midnight_i9000_recovery.Common.Run.{Run, ok, fault, Returns}
use midnight_i9000_recovery.Common.Text.{Bytes}
use midnight_i9000_recovery.Common.CString.{fgets, c_string-NoNul, c_string, NoNul, NoNul-append}
use midnight_i9000_recovery.Common.Words.{NoSeparator, IsWord, words_by, words_by-word, joined}
use midnight_i9000_recovery.Bootloader.{Message, Messages}
use midnight_i9000_recovery.Recovery.Args.{
  Environment, newline, is_newline, is_line_end, first_word, file_args, from_words, taken_from,
  from_boot_message, or_boot_message, or_file, boot_message, get_args,
}

-- A line that can be read back, and a file of such lines.
abbrev pub IsLine : Bytes → Type 0
IsLine w = IsWord is_line_end w × NoNul w × (length w ≤ 4094)

abbrev pub AllLines : List Bytes → Type 0
AllLines [] = Unit
AllLines (w ∷ ws) = IsLine w × AllLines ws

not_newline : (c : ℕ) → is_line_end c ≡ false → is_newline c ≡ false
not_newline c h = ground arith

fgets-line :
    (n : ℕ) (w rest : Bytes)
    → NoSeparator is_line_end w
    → length w < n
    → fgets n (w ++ newline ∷ rest) ≡ (w ++ newline ∷ [], rest)
unfolding fgets
fgets-line zero w rest h room = absurd (omega arith)
fgets-line (suc n) [] rest h room = refl
fgets-line (suc n) (c ∷ cs) rest h room =
    rw (not_newline c h.0, fgets-line n cs rest h.1 (omega arith))

none_left : words_by is_line_end [] [] ≡ []
unfolding words_by
none_left = refl

line_word :
    (w : Bytes)
    → IsWord is_line_end w
    → NoNul w
    → words_by is_line_end [] (c_string (w ++ newline ∷ [])) ≡ w ∷ []
line_word w word clean =
    ap (words_by is_line_end [])
      (c_string-NoNul (w ++ newline ∷ []) (NoNul-append w (newline ∷ []) clean (omega arith, tt)))
    ∙ words_by-word is_line_end newline w [] refl word
    ∙ ap (λ ws. w ∷ ws) none_left

file_args-suc :
    (n c : ℕ) (cs : Bytes)
    → file_args (suc n) (c ∷ cs)
      ≡ Run.◌>>=◌
          (first_word (words_by is_line_end [] (c_string (fgets 4095 (c ∷ cs)).0)))
          (λ w. Run.◌>>=◌ (file_args n (fgets 4095 (c ∷ cs)).1) (λ ws. ok (w ∷ ws)))
unfolding file_args
file_args-suc n c cs = refl

nothing : (n : ℕ) → file_args n [] ≡ ok []
unfolding file_args
nothing n = refl

pub file_args-AllLines :
    (n : ℕ) (ws : List Bytes)
    → AllLines ws
    → length ws ≤ n
    → file_args n (joined newline ws) ≡ ok ws
file_args-AllLines n [] lines few = nothing n
file_args-AllLines zero (w ∷ ws) lines few = absurd (omega arith)
file_args-AllLines (suc n) ([] ∷ ws) lines few = absurd (lines.0.0)
file_args-AllLines (suc n) ((c ∷ cs) ∷ ws) ((word, clean, size), lines) few =
    let read = fgets-line 4095 (c ∷ cs) (joined newline ws) word (omega arith) in
    file_args-suc n c (cs ++ newline ∷ joined newline ws)
    ∙ ap
        (λ r.
          Run.◌>>=◌ (first_word (words_by is_line_end [] (c_string r.0)))
            (λ w. Run.◌>>=◌ (file_args n r.1) (λ ws. ok (w ∷ ws))))
        read
    ∙ ap
        (λ r.
          Run.◌>>=◌ (first_word r)
            (λ w. Run.◌>>=◌ (file_args n (joined newline ws)) (λ ws. ok (w ∷ ws))))
        (line_word (c ∷ cs) word clean)
    ∙ ap (λ r. Run.◌>>=◌ r (λ ws. ok ((c ∷ cs) ∷ ws))) (file_args-AllLines n ws lines (omega arith))

no_message :
    (env : Environment) (boot : Message) (name : Bytes)
    → from_words (words_by is_newline [] (c_string (set boot.recovery 1023 0))) ≡ none
    → (or_boot_message env boot (name, [])).0 ≡ (name, [])
unfolding from_boot_message
no_message env boot name unknown = elim (Bool-cases env.ignored) [
  | inl ignored ↦ rw ignored
  | inr read ↦
      rw read (ap (λ o. (taken_from boot (set boot.recovery 1023 0) (name, []) o).0) unknown)
]

from_file :
    (env : Environment) (name : Bytes) (ws : List Bytes)
    → env.command_file ≡ some (joined newline ws)
    → AllLines ws
    → length ws ≤ 99
    → or_file env (name, []) ≡ ok (name, ws)
from_file env name ws there lines few = rw (there, file_args-AllLines 99 ws lines few)

module _ {M : Type 0} (messages : Messages M) where
  -- The arguments that the main system has written into the command file are read back: with no
  -- arguments of its own and no boot message that begins with "recovery", get_args ends without a
  -- fault and returns the lines of the file, where there are at most 99, each of 1 to 4094 bytes
  -- other than newline, carriage return and NUL.
  pub get_args-AllLines :
      (env : Environment) (name : Bytes) (ws : List Bytes) (m : M)
      → from_words
          (words_by is_newline [] (c_string (set (boot_message messages env m).recovery 1023 0)))
        ≡ none
      → env.command_file ≡ some (joined newline ws)
      → AllLines ws
      → length ws ≤ 99
      → Returns (get_args messages env (name, []) m) (λ r. r.0 ≡ (name, ws))
  unfolding get_args
  get_args-AllLines env name ws m unknown there lines few =
      let e = no_message env (boot_message messages env m) name unknown in
      rw (e, from_file env name ws there lines few) (_, refl, refl)

-- ===== src/Edify/Sound.antt =====
-- The property of an evaluation of edify/expr.c that the modules below are about, and how it passes along
-- a chain of steps: `Functions` has the functions of the language, `Evaluator` the expressions.
pub mod Functions
pub mod Evaluator
use midnight_i9000_recovery.Common.{
  ℕ, zero, suc, ap, ◌≤◌, ◌≡◌, ◌≢◌, refl, sym, ◌∙◌, Bool, true, false, List, [], ◌∷◌, ◌++◌, length,
  Option, none, some, if◌then◌else◌, not, Bool-cases, inl, inr, arith,
}
use midnight_i9000_recovery.Common.Run
use midnight_i9000_recovery.Common.Run.{Run, ok, fault, Fault}
use midnight_i9000_recovery.Common.Text.{Bytes, codes, bytes_eq, strstr, strtol}
use midnight_i9000_recovery.Edify.Value.{
  Value, ValueType, val_string, val_blob, State, Eval, Arg, Function, pure, null, ◌>>=◌, ◌>>◌,
  after, fail, error_abort, as_string, evaluate, string_value, boolean_string, argv_at, Expr, Exprs,
  node, nil, cons, evaluate_value, arguments, argument,
}
use midnight_i9000_recovery.Edify.Builtins
use midnight_i9000_recovery.Edify.Builtins.{
  read_var_args, read_args_2, concat_fn, if_else_fn, abort_fn, assert_fn, sleep_fn, stdout_fn,
  logical_and_fn, logical_or_fn, logical_not_fn, substring_fn, equality_fn, inequality_fn,
  sequence_fn, less_than_int_fn, greater_than_int_fn, concat_all, put_string, sleep_for, truth,
  int_less,
}

-- What a run from `s` may come to: a value with `P`, or NULL with a message; the script stays, and
-- no argument is read that is not there.
abbrev pub Good : {A : Type 0} → (A → Type 0) → State → Run (Option A × State) → Type 0
Good P s (fault f) = ⊥
Good P s (ok (none, s')) = (s'.errmsg ≢ none) × (s'.script ≡ s.script)
Good P s (ok (some a, s')) = P a × (s'.script ≡ s.script)

abbrev pub Any : {A : Type 0} → A → Type 0
Any a = Unit {0}

-- A string whose size is its length.
abbrev pub IsString : Value → Type 0
IsString v = (v.kind ≡ val_string) × (v.size ≡ length v.contents)

module _ {A : Type 0} (P : A → Type 0) (s s₁ : State) (same : s₁.script ≡ s.script) where
  pub Good-trans : (x : Run (Option A × State)) → Good P s₁ x → Good P s x
  Good-trans (fault f) g = g
  Good-trans (ok (none, s₂)) g = (g.0, g.1 ∙ same)
  Good-trans (ok (some a, s₂)) g = (g.0, g.1 ∙ same)

abbrev pub All : {A : Type 0} → (A → Type 0) → List A → Type 0
All P [] = Unit
All P (x ∷ xs) = P x × All P xs

-- In a state whose script has `room` bytes.
module _ (room : ℕ) where
  abbrev pub Sound : {A : Type 0} → (A → Type 0) → Eval A → Type 0
  Sound P m = (s : State) → length s.script ≡ room → Good P s (m s)

  module _ {A B : Type 0} (P : A → Type 0) (Q : B → Type 0) (f : A → Eval B)
      (hf : (a : A) → P a → Sound Q (f a)) where
    pub Good-bind :
        (g : State → Run (Option B × State))
        → ((s : State) → length s.script ≡ room → s.errmsg ≢ none → Good Q s (g s))
        → (s : State) (x : Run (Option A × State)) → length s.script ≡ room
        → Good P s x
        → Good Q s (Run.◌>>=◌ x (after f g))
    Good-bind g hg s (fault e) fits h = h
    Good-bind g hg s (ok (none, s₁)) fits h =
        Good-trans Q s s₁ h.1 (g s₁) (hg s₁ (ap length h.1 ∙ fits) h.0)
    Good-bind g hg s (ok (some a, s₁)) fits h =
        Good-trans Q s s₁ h.1 (f a s₁) (hf a h.0 s₁ (ap length h.1 ∙ fits))

    pub >>=-Sound : (m : Eval A) → Sound P m → Sound Q (m >>= f)
    >>=-Sound m hm s fits = Good-bind null (λ s₁ _ set. (set, refl)) s (m s) fits (hm s fits)

  pub fail-Sound : {A : Type 0} (P : A → Type 0) (msg : Bytes) → Sound P (fail msg)
  fail-Sound P msg s fits = (λ e. absurd (cc), refl)

  pub as_string-Sound : (t : ValueType) (contents : Bytes) → Sound Any (as_string t contents)
  unfolding as_string
  as_string-Sound val_string contents s fits = (tt, refl)
  as_string-Sound val_blob contents s fits = fail-Sound {A = Bytes} Any _ s fits

  -- An argument whose places are in the script.
  abbrev pub SoundArg : Arg → Type 0
  SoundArg a = Sound IsString a.run × (a.start ≤ a.stop) × (a.stop ≤ room)

  pub evaluate-Sound : (a : Arg) → SoundArg a → Sound Any (evaluate a)
  unfolding evaluate
  evaluate-Sound a h = >>=-Sound IsString Any _ (λ v p. as_string-Sound v.kind v.contents) a.run h.0

  -- A chain of steps whose first is the evaluation of an argument to a string.
  pub evaluate-then :
      {B : Type 0} (Q : B → Type 0) (a : Arg) (f : Bytes → Eval B)
      → SoundArg a
      → ((b : Bytes) → Sound Q (f b))
      → Sound Q (evaluate a >>= f)
  evaluate-then Q a f h hf = >>=-Sound Any Q f (λ b _. hf b) (evaluate a) (evaluate-Sound a h)

  pub string_value-Sound : (b : Bytes) → Sound IsString (pure (string_value b))
  string_value-Sound b s fits = ((refl, refl), refl)

  pub if-Sound :
      {B : Type 0} (Q : B → Type 0) (b : Bool) (m n : Eval B)
      → Sound Q m
      → Sound Q n
      → Sound Q (if b then m else n)
  if-Sound Q true m n hm hn = hm
  if-Sound Q false m n hm hn = hn

  pub read_var_args-Sound : (argv : List Arg) → All SoundArg argv → Sound Any (read_var_args argv)
  unfolding read_var_args
  read_var_args-Sound [] h = λ s fits. (tt, refl)
  read_var_args-Sound (a ∷ rest) h = evaluate-then Any a _ h.0 λ v.
      >>=-Sound Any Any _ (λ vs _ s fits. (tt, refl)) (read_var_args rest)
        (read_var_args-Sound rest h.1)

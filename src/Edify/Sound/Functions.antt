-- ===== src/Edify/Sound/Functions.antt =====
-- The functions of edify/expr.c, one by one.
use midnight_i9000_recovery.Common.{
  ℕ, ◌≤◌, ◌≡◌, ◌-◌, ◌&&◌, leb, take, drop, true, refl, Bool, List, [], ◌∷◌, ◌++◌, length, not,
  arith,
}
use midnight_i9000_recovery.Common.Run.{ok}
use midnight_i9000_recovery.Common.Text.{Bytes, codes, bytes_eq, strstr, strtol}
use midnight_i9000_recovery.Edify.Value.{
  Arg, State, Function, pure, ◌>>=◌, fail, evaluate, string_value, boolean_string,
}
use midnight_i9000_recovery.Edify.Builtins
use midnight_i9000_recovery.Edify.Builtins.{
  read_var_args, read_args_2, concat_fn, if_else_fn, abort_fn, assert_fn, sleep_fn, stdout_fn,
  logical_and_fn, logical_or_fn, logical_not_fn, substring_fn, equality_fn, inequality_fn,
  sequence_fn, less_than_int_fn, greater_than_int_fn, concat_all, put_string, sleep_for, truth,
  int_less,
}
use midnight_i9000_recovery.Edify.Sound.{
  Sound, Any, IsString, Good-bind, >>=-Sound, fail-Sound, SoundArg, evaluate-Sound, All,
  evaluate-then, string_value-Sound, if-Sound, read_var_args-Sound,
}

-- The functions that a script can name or write as operators, with the least number of arguments
-- that they read without looking.
pub data Builtin : Type 0 where
  literal ifelse abort assert concat is_substring stdout sleep less_than_int greater_than_int :
      Builtin
  op_and op_or op_not op_eq op_ne op_sequence : Builtin

abbrev pub function_of : Builtin → Function
function_of literal = Builtins.literal
function_of ifelse = if_else_fn
function_of abort = abort_fn
function_of assert = assert_fn
function_of concat = concat_fn
function_of is_substring = substring_fn
function_of stdout = stdout_fn
function_of sleep = sleep_fn
function_of less_than_int = less_than_int_fn
function_of greater_than_int = greater_than_int_fn
function_of op_and = logical_and_fn
function_of op_or = logical_or_fn
function_of op_not = logical_not_fn
function_of op_eq = equality_fn
function_of op_ne = inequality_fn
function_of op_sequence = sequence_fn

abbrev pub least_args : Builtin → ℕ
least_args is_substring = 2
least_args sleep = 1
least_args op_and = 2
least_args op_or = 2
least_args op_not = 1
least_args op_eq = 2
least_args op_ne = 2
least_args op_sequence = 2
least_args _ = 0

module _ (room : ℕ) where
  abbrev pub SoundFunction : Builtin → Type 0
  SoundFunction b =
      (name : Bytes) (argv : List Arg)
      → least_args b ≤ length argv
      → All (SoundArg room) argv
      → Sound room IsString (function_of b name argv)

  concat-Sound : SoundFunction concat
  unfolding concat_fn
  concat-Sound name argv n h =
      >>=-Sound room Any IsString _ (λ ss _. string_value-Sound room (concat_all ss))
        (read_var_args argv) (read_var_args-Sound room argv h)

  if_else-Sound : SoundFunction ifelse
  unfolding if_else_fn
  if_else-Sound name [] n h = fail-Sound room IsString _
  if_else-Sound name (a ∷ []) n h = fail-Sound room IsString _
  if_else-Sound name (c ∷ a ∷ []) n h = evaluate-then room IsString c _ h.0 λ cond.
      if-Sound room IsString (boolean_string cond) a.run (pure (string_value cond)) h.1.0.0
        (string_value-Sound room cond)
  if_else-Sound name (c ∷ a ∷ b ∷ []) n h =
      evaluate-then room IsString c _ h.0
        λ cond. if-Sound room IsString (boolean_string cond) a.run b.run h.1.0.0 h.1.1.0.0
  if_else-Sound name (c ∷ a ∷ b ∷ d ∷ more) n h = fail-Sound room IsString _

  abort-Sound : SoundFunction abort
  unfolding abort_fn
  abort-Sound name [] n h = fail-Sound room IsString _
  abort-Sound name (a ∷ rest) n h = λ s fits.
      Good-bind room Any IsString fail (λ msg _. fail-Sound room IsString msg)
        (fail (codes "called abort()")) (λ s₁ fits₁ _. fail-Sound room IsString _ s₁ fits₁) s
        (evaluate a s) fits (evaluate-Sound room a h.0 s fits)

  source_of-some :
      (a : Arg) (s : State)
      → a.start ≤ a.stop
      → a.stop ≤ length s.script
      → Builtins.source_of a s ≡ ok (take (a.stop - a.start) (drop a.start s.script))
  source_of-some a s order inside =
      let e : (leb a.start a.stop && leb a.stop (length s.script)) ≡ true = ground arith in
      rw e refl

  assert_failed-Sound :
      (a : Arg)
      → (a.start ≤ a.stop) × (a.stop ≤ room)
      → Sound room IsString (Builtins.assert_failed a)
  assert_failed-Sound a (order, inside) s fits =
      rw (source_of-some a s order (omega (arith, fits))) (
        fail-Sound room IsString
          (codes "assert failed: " ++ take (a.stop - a.start) (drop a.start s.script)) s fits)

  assert-Sound : SoundFunction assert
  unfolding assert_fn
  assert-Sound name [] n h = string_value-Sound room []
  assert-Sound name (a ∷ rest) n h = evaluate-then room IsString a _ h.0 λ v.
      if-Sound room IsString (boolean_string v) (assert_fn name rest) (Builtins.assert_failed a)
        (assert-Sound name rest (omega arith) h.1) (assert_failed-Sound a (h.0.1, h.0.2))

  stdout-Sound : SoundFunction stdout
  unfolding stdout_fn
  stdout-Sound name [] n h = string_value-Sound room []
  stdout-Sound name (a ∷ rest) n h = evaluate-then room IsString a _ h.0 λ v.
      >>=-Sound room Any IsString _ (λ _ _. stdout-Sound name rest (omega arith) h.1) (put_string v)
        (λ s fits. (tt, refl))

  sleep-Sound : SoundFunction sleep
  unfolding sleep_fn
  sleep-Sound name [] n h = absurd (omega arith)
  sleep-Sound name (a ∷ rest) n h = evaluate-then room IsString a _ h.0 λ v.
      >>=-Sound room Any IsString (λ _. pure (string_value v)) (λ _ _. string_value-Sound room v)
        (sleep_for (strtol v).0) (λ s fits. (tt, refl))

  -- The functions of two strings that return a truth value.
  two_strings-Sound :
      (test : Bytes → Bytes → Bool) (a b : Arg)
      → SoundArg room a
      → SoundArg room b
      → Sound room IsString
          (do left ← evaluate a; right ← evaluate b; pure (truth (test left right)))
  two_strings-Sound test a b ha hb =
      evaluate-then room IsString a _ ha
        λ left. evaluate-then room IsString b _ hb λ right. string_value-Sound room _

  substring-Sound : SoundFunction is_substring
  unfolding substring_fn
  substring-Sound name [] n h = absurd (omega arith)
  substring-Sound name (a ∷ []) n h = absurd (omega arith)
  substring-Sound name (a ∷ b ∷ rest) n h =
      two_strings-Sound (λ needle haystack. strstr haystack needle) a b h.0 h.1.0

  equality-Sound : SoundFunction op_eq
  unfolding equality_fn
  equality-Sound name [] n h = absurd (omega arith)
  equality-Sound name (a ∷ []) n h = absurd (omega arith)
  equality-Sound name (a ∷ b ∷ rest) n h = two_strings-Sound bytes_eq a b h.0 h.1.0

  inequality-Sound : SoundFunction op_ne
  unfolding inequality_fn
  inequality-Sound name [] n h = absurd (omega arith)
  inequality-Sound name (a ∷ []) n h = absurd (omega arith)
  inequality-Sound name (a ∷ b ∷ rest) n h =
      two_strings-Sound (λ x y. not (bytes_eq x y)) a b h.0 h.1.0

  logical_and-Sound : SoundFunction op_and
  unfolding logical_and_fn
  logical_and-Sound name [] n h = absurd (omega arith)
  logical_and-Sound name (a ∷ []) n h = absurd (omega arith)
  logical_and-Sound name (a ∷ b ∷ rest) n h = evaluate-then room IsString a _ h.0 λ left.
      if-Sound room IsString (boolean_string left) b.run (pure (string_value left)) h.1.0.0
        (string_value-Sound room left)

  logical_or-Sound : SoundFunction op_or
  unfolding logical_or_fn
  logical_or-Sound name [] n h = absurd (omega arith)
  logical_or-Sound name (a ∷ []) n h = absurd (omega arith)
  logical_or-Sound name (a ∷ b ∷ rest) n h = evaluate-then room IsString a _ h.0 λ left.
      if-Sound room IsString (boolean_string left) (pure (string_value left)) b.run
        (string_value-Sound room left) h.1.0.0

  logical_not-Sound : SoundFunction op_not
  unfolding logical_not_fn
  logical_not-Sound name [] n h = absurd (omega arith)
  logical_not-Sound name (a ∷ rest) n h =
      evaluate-then room IsString a _ h.0 λ val. string_value-Sound room _

  sequence-Sound : SoundFunction op_sequence
  unfolding sequence_fn
  sequence-Sound name [] n h = absurd (omega arith)
  sequence-Sound name (a ∷ []) n h = absurd (omega arith)
  sequence-Sound name (a ∷ b ∷ rest) n h =
      >>=-Sound room IsString IsString _ (λ _ _. h.1.0.0) a.run h.0.0

  pub read_args_2-Sound :
      (a b : Arg) → SoundArg room a → SoundArg room b → Sound room Any (read_args_2 (a ∷ b ∷ []))
  unfolding read_args_2
  read_args_2-Sound a b ha hb =
      evaluate-then room Any a _ ha
        λ left. evaluate-then room Any b _ hb λ right. (λ s fits. (tt, refl))

  less_than_int-Sound : SoundFunction less_than_int
  unfolding less_than_int_fn
  less_than_int-Sound name [] n h = fail-Sound room IsString _
  less_than_int-Sound name (a ∷ []) n h = fail-Sound room IsString _
  less_than_int-Sound name (a ∷ b ∷ []) n h =
      >>=-Sound room Any IsString (λ p. pure (truth (int_less p.0 p.1)))
        (λ p _. string_value-Sound room _) (read_args_2 (a ∷ b ∷ []))
        (read_args_2-Sound a b h.0 h.1.0)
  less_than_int-Sound name (a ∷ b ∷ c ∷ rest) n h = fail-Sound room IsString _

  greater_than_int-Sound : SoundFunction greater_than_int
  unfolding greater_than_int_fn
  greater_than_int-Sound name [] n h = fail-Sound room IsString _
  greater_than_int-Sound name (a ∷ []) n h = fail-Sound room IsString _
  greater_than_int-Sound name (a ∷ b ∷ []) n h =
      less_than_int-Sound name (b ∷ a ∷ []) n (h.1.0, (h.0, tt))
  greater_than_int-Sound name (a ∷ b ∷ c ∷ rest) n h = fail-Sound room IsString _

  literal-Sound : SoundFunction literal
  unfolding Builtins.literal
  literal-Sound name argv n h = string_value-Sound room name

  pub function-Sound : (b : Builtin) → SoundFunction b
  function-Sound literal = literal-Sound
  function-Sound ifelse = if_else-Sound
  function-Sound abort = abort-Sound
  function-Sound assert = assert-Sound
  function-Sound concat = concat-Sound
  function-Sound is_substring = substring-Sound
  function-Sound stdout = stdout-Sound
  function-Sound sleep = sleep-Sound
  function-Sound less_than_int = less_than_int-Sound
  function-Sound greater_than_int = greater_than_int-Sound
  function-Sound op_and = logical_and-Sound
  function-Sound op_or = logical_or-Sound
  function-Sound op_not = logical_not-Sound
  function-Sound op_eq = equality-Sound
  function-Sound op_ne = inequality-Sound
  function-Sound op_sequence = sequence-Sound

-- ===== src/Edify/Builtins.antt =====
-- The functions of edify/expr.c that a script can call, and its convenience functions for reading
-- arguments.
use midnight_i9000_recovery.Common.Run.{Fault, fault, Run, ok}
use midnight_i9000_recovery.Common.{
  length, leb, ℕ, ◌-◌, Bool, false, not, ◌&&◌, List, [], ◌∷◌, ◌++◌, take, drop, some, if◌then◌else◌,
}
use midnight_i9000_recovery.Common.Int.{ℤ, ltb_ℤ}
use midnight_i9000_recovery.Common.Run
use midnight_i9000_recovery.Common.Text.{Bytes, codes, bytes_eq, strstr, strtol}
use midnight_i9000_recovery.Edify.Value.{
  Value, State, Eval, Arg, Function, pure, ◌>>=◌, ◌>>◌, after, fail, evaluate, string_value,
  boolean_string, argv_at, Expr, Exprs, node,
}

-- ReadVarArgs: every argument as a string, NULL from the first that fails on.
unfoldable pub read_var_args : List Arg → Eval (List Bytes)
read_var_args [] = pure []
read_var_args (a ∷ rest) = do s ← evaluate a; ss ← read_var_args rest; pure (s ∷ ss)

-- ReadValueVarArgs.
unfoldable pub read_value_var_args : List Arg → Eval (List Value)
read_value_var_args [] = pure []
read_value_var_args (a ∷ rest) = do v ← a.run; vs ← read_value_var_args rest; pure (v ∷ vs)

-- ReadArgs(state, argv, 2, &left, &right)
unfoldable pub read_args_2 : List Arg → Eval (Bytes × Bytes)
read_args_2 argv = argv_at argv 0 λ a.
    argv_at argv 1
      λ b. do left ← evaluate a; right ← evaluate b; pure {A = Bytes × Bytes} (left, right)

abbrev pub concat_all : List Bytes → Bytes
concat_all [] = []
concat_all (s ∷ ss) = s ++ concat_all ss

-- The loop over the arguments is that of ReadVarArgs.
unfoldable pub concat_fn : Function
unfolding read_var_args
concat_fn name argv = do strings ← read_var_args argv; pure (string_value (concat_all strings))

unfoldable pub if_else_fn : Function
if_else_fn name (c ∷ a ∷ []) = do
  cond ← evaluate c
  if boolean_string cond then a.run else pure (string_value cond)
if_else_fn name (c ∷ a ∷ b ∷ []) = do
  cond ← evaluate c
  if boolean_string cond then a.run else b.run
if_else_fn name _ = fail (codes "ifelse expects 2 or 3 arguments")

-- The message of `abort`: that of its argument, or, without one or if that is NULL, a fixed one.
unfoldable pub abort_fn : Function
abort_fn name [] = fail (codes "called abort()")
abort_fn name (a ∷ rest) =
    λ s. Run.◌>>=◌ (evaluate a s) (after fail (fail (codes "called abort()")))

-- The piece of the script that an argument comes from; memcpy reads outside of the script where the
-- places are not in it.
abbrev pub source_of : Arg → State → Run Bytes
source_of a s =
    if leb a.start a.stop && leb a.stop (length s.script)
    then ok (take (a.stop - a.start) (drop a.start s.script))
    else fault Fault.out_of_bounds

abbrev pub assert_failed : Arg → Eval Value
assert_failed a s = Run.◌>>=◌ (source_of a s) (λ source. fail (codes "assert failed: " ++ source) s)

unfoldable pub assert_fn : Function
assert_fn name [] = pure (string_value [])
assert_fn name (a ∷ rest) =
    let more = assert_fn name rest in
    do v ← evaluate a; if boolean_string v then more else assert_failed a

-- sleep(v)
abbrev pub sleep_for : ℤ → Eval (Unit {0})
sleep_for v s = ok (some tt, record s { slept = v ∷ s.slept })

unfoldable pub sleep_fn : Function
sleep_fn name argv =
    argv_at argv 0 λ a. do val ← evaluate a; sleep_for (strtol val).0; pure (string_value val)

-- fputs(v, stdout)
abbrev pub put_string : Bytes → Eval (Unit {0})
put_string v s = ok (some tt, record s { printed = s.printed ++ v })

unfoldable pub stdout_fn : Function
stdout_fn name [] = pure (string_value [])
stdout_fn name (a ∷ rest) = do v ← evaluate a; put_string v; stdout_fn name rest

unfoldable pub logical_and_fn : Function
logical_and_fn name argv = argv_at argv 0 λ a. do
  left ← evaluate a
  if boolean_string left then argv_at argv 1 (λ b. b.run) else pure (string_value left)

unfoldable pub logical_or_fn : Function
logical_or_fn name argv = argv_at argv 0 λ a. do
  left ← evaluate a
  if boolean_string left then pure (string_value left) else argv_at argv 1 (λ b. b.run)

-- The two truth values that a function returns.
abbrev pub truth : Bool → Value
truth b = string_value (if b then codes "t" else [])

unfoldable pub logical_not_fn : Function
logical_not_fn name argv =
    argv_at argv 0 λ a. do val ← evaluate a; pure (truth (not (boolean_string val)))

unfoldable pub substring_fn : Function
substring_fn name argv = argv_at argv 0 λ a. do
  needle ← evaluate a
  argv_at argv 1 λ b. do haystack ← evaluate b; pure (truth (strstr haystack needle))

unfoldable pub equality_fn : Function
equality_fn name argv = argv_at argv 0 λ a. do
  left ← evaluate a
  argv_at argv 1 λ b. do right ← evaluate b; pure (truth (bytes_eq left right))

unfoldable pub inequality_fn : Function
inequality_fn name argv = argv_at argv 0 λ a. do
  left ← evaluate a
  argv_at argv 1 λ b. do right ← evaluate b; pure (truth (not (bytes_eq left right)))

unfoldable pub sequence_fn : Function
sequence_fn name argv = argv_at argv 0 λ a. do left ← a.run; argv_at argv 1 (λ b. b.run)

-- text[0] != '\0' && *end == '\0' after strtol
abbrev pub is_int : Bytes → Bool
is_int [] = false
is_int (c ∷ cs) = bytes_eq (strtol (c ∷ cs)).1 []

-- The test behind less_than_int, false where a side is not an int.
abbrev pub int_less : Bytes → Bytes → Bool
int_less left right = is_int left && is_int right && ltb_ℤ (strtol left).0 (strtol right).0

unfoldable pub less_than_int_fn : Function
unfolding read_args_2
less_than_int_fn name (a ∷ b ∷ []) = do
  (left, right) ← read_args_2 (a ∷ b ∷ [])
  pure (truth (int_less left right))
less_than_int_fn name _ = fail (codes "less_than_int expects 2 arguments")

unfoldable pub greater_than_int_fn : Function
unfolding less_than_int_fn
greater_than_int_fn name (a ∷ b ∷ []) = less_than_int_fn name (b ∷ a ∷ [])
greater_than_int_fn name _ = fail (codes "greater_than_int expects 2 arguments")

unfoldable pub literal : Function
literal name argv = pure (string_value name)

-- An expression for an operator of the grammar.
abbrev pub build : Function → ℕ → ℕ → Exprs → Expr
build fn start stop argv = node fn (codes "(operator)") argv start stop

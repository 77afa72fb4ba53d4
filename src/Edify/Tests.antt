-- ===== src/Edify/Tests.antt =====
-- Tests of the model of edify/expr.c, and its theorems at concrete scripts.
use midnight_i9000_recovery.Common.{◌≡◌, refl, true, [], ◌∷◌, none, some, arith}
use midnight_i9000_recovery.Common.Run.{ok, fault, out_of_bounds}
use midnight_i9000_recovery.Common.Text.{codes}
use midnight_i9000_recovery.Edify.Value.{
  State, Arg, Expr, node, nil, cons, evaluate_value, arguments, argument, pure, evaluate, as_string,
  string_value,
}
use midnight_i9000_recovery.Edify.Builtins
use midnight_i9000_recovery.Edify.Builtins.{
  build, concat_fn, read_var_args, sleep_fn, substring_fn, less_than_int_fn, read_args_2,
  sequence_fn, if_else_fn, logical_not_fn, logical_and_fn, logical_or_fn, assert_fn, abort_fn,
  truth,
}
use midnight_i9000_recovery.Edify.Sound.{Sound, IsString}
use midnight_i9000_recovery.Edify.Sound.Functions.{concat, literal, op_and}
use midnight_i9000_recovery.Edify.Sound.Evaluator.{WellFormed, AllFormed, evaluate_value-Sound}
use midnight_i9000_recovery.Edify.Numbers.{constant, numeral, less_than_int-numeral}

-- The script `concat("a", "b") && "c"`.
abbrev quoted_a : Expr
quoted_a = node Builtins.literal (codes "a") nil 7 10

abbrev quoted_b : Expr
quoted_b = node Builtins.literal (codes "b") nil 12 15

abbrev quoted_c : Expr
quoted_c = node Builtins.literal (codes "c") nil 20 23

abbrev script : Expr
script = build logical_and_fn 0 23 (
    cons (node concat_fn (codes "concat") (cons quoted_a (cons quoted_b nil)) 0 16)
      (cons quoted_c nil))

abbrev start : State
start = record {
  script = codes "concat(\"a\", \"b\") && \"c\"";
  errmsg = none;
  printed = [];
  slept = [];
}

script_run : evaluate_value script start ≡ ok (some (string_value (codes "c")), start)
unfolding evaluate_value arguments argument logical_and_fn concat_fn read_var_args evaluate
    as_string Builtins.literal
script_run = refl

-- An assert quotes the text of its argument.
assert_run :
    assert_fn
      (codes "assert")
      (record { run = pure (string_value []); start = 7; stop = 10 } ∷ [])
      start
    ≡ ok (none, record start { errmsg = some (codes "assert failed: \"a\"") })
unfolding assert_fn evaluate as_string
assert_run = refl

-- `sleep` without an argument reads past the array.
sleep_without_args : sleep_fn (codes "sleep") [] start ≡ fault out_of_bounds
unfolding sleep_fn
sleep_without_args = refl

script-WellFormed : WellFormed 23 script
unfolding WellFormed AllFormed arguments
script-WellFormed = (
  (op_and, refl, omega arith),
  (
    (
      (concat, refl, omega arith),
      (
        ((literal, refl, omega arith), tt, omega arith, omega arith),
        (((literal, refl, omega arith), tt, omega arith, omega arith), tt),
      ),
      omega arith,
      omega arith,
    ),
    (((literal, refl, omega arith), tt, omega arith, omega arith), tt),
  ),
  omega arith,
  omega arith,
)

evaluate_value-Sound_example : Sound 23 IsString (evaluate_value script)
evaluate_value-Sound_example = evaluate_value-Sound 23 script script-WellFormed

-- An assert whose argument ends behind the script reads outside of it.
assert_outside :
    assert_fn
      (codes "assert")
      (record { run = pure (string_value []); start = 7; stop = 24 } ∷ [])
      start
    ≡ fault out_of_bounds
unfolding assert_fn evaluate as_string
assert_outside = refl

abbrev yes : Arg
yes = constant (codes "t")

abbrev no : Arg
no = constant []

less_than_int-numeral_example :
    less_than_int_fn
      (codes "less_than_int")
      (constant (numeral (9 ∷ [])) ∷ constant (numeral (1 ∷ 0 ∷ [])) ∷ [])
      start
    ≡ pure (truth true) start
less_than_int-numeral_example =
    less_than_int-numeral 9 1 [] (0 ∷ []) (codes "less_than_int") start (omega arith, tt)
      (omega arith, (omega arith, tt))

-- ===== src/Edify/Sound/Evaluator.antt =====
-- The evaluator of edify/expr.c, by induction on the expression.
use midnight_i9000_recovery.Common.{ℕ, ◌≤◌, ◌≡◌, List, length}
use midnight_i9000_recovery.Common.Text.{Bytes}
use midnight_i9000_recovery.Edify.Value.{
  Arg, Function, Expr, Exprs, node, nil, cons, evaluate_value, arguments, argument,
}
use midnight_i9000_recovery.Edify.Sound.{Sound, IsString, SoundArg, All}
use midnight_i9000_recovery.Edify.Sound.Functions.{Builtin, function_of, least_args, function-Sound}

-- An expression of these functions, each with as many arguments as it reads, and with its places in a
-- script of `room` bytes.
unfoldable mutual
  pub WellFormed : ℕ → Expr → Type 0
  WellFormed room (node fn name argv start stop) =
      ((b : Builtin) × (fn ≡ function_of b) × (least_args b ≤ length (arguments argv)))
      × AllFormed room argv
      × (start ≤ stop)
      × (stop ≤ room)

  pub AllFormed : ℕ → Exprs → Type 0
  AllFormed room nil = Unit {0}
  AllFormed room (cons e es) = WellFormed room e × AllFormed room es

node-Sound :
    (room : ℕ) (fn : Function) (b : Builtin) (name : Bytes) (argv : List Arg)
    → fn ≡ function_of b
    → least_args b ≤ length argv
    → All (SoundArg room) argv
    → Sound room IsString (fn name argv)
node-Sound room fn b name argv e n h = rw e (function-Sound room b name argv n h)

mutual
  unfolding evaluate_value arguments argument WellFormed AllFormed

  arguments-Sound : (room : ℕ) (es : Exprs) → AllFormed room es → All (SoundArg room) (arguments es)
  arguments-Sound room nil w = tt
  arguments-Sound room (cons e es) w = (argument-Sound room e w.0, arguments-Sound room es w.1)

  argument-Sound : (room : ℕ) (e : Expr) → WellFormed room e → SoundArg room (argument e)
  argument-Sound room (node fn name argv start stop) w = (
    node-Sound room fn w.0.0 name (arguments argv) w.0.1 w.0.2 (arguments-Sound room argv w.1),
    w.2,
    w.3,
  )

-- Every well-formed expression, with all its places in the script, ends from any state with a script
-- of this size: in a string whose size is its length, or in NULL with an error message set. It reads
-- nothing outside of the script, and leaves it as it was.
pub evaluate_value-Sound :
    (room : ℕ) (e : Expr) → WellFormed room e → Sound room IsString (evaluate_value e)
unfolding evaluate_value argument WellFormed
evaluate_value-Sound room (node fn name argv start stop) w =
    (argument-Sound room (node fn name argv start stop) w).0

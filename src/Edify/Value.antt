-- ===== src/Edify/Value.antt =====
-- Values, the state of an evaluation, and `Evaluate`. Memory management is left out. A string is
-- the list of its bytes, with no NUL among them.
use midnight_i9000_recovery.Common.{
  ℕ, zero, suc, Bool, true, false, List, [], ◌∷◌, ◌++◌, length, take, Option, none, some,
}
use midnight_i9000_recovery.Common.Int.{ℤ}
use midnight_i9000_recovery.Common.Run
use midnight_i9000_recovery.Common.Run.{Run, ok, fault, out_of_bounds}
use midnight_i9000_recovery.Common.Text.{Bytes, codes}

pub data ValueType : Type 0 where
  val_string val_blob : ValueType

-- `contents` is the field `data` of the source.
pub record Value : Type 0 where
  pub kind : ValueType
  pub size : ℕ
  pub contents : Bytes

-- `printed` is what has gone to stdout, `slept` the arguments of sleep(); both stand for effects
-- outside the program. The core never uses `cookie`.
pub record State : Type 0 where
  pub script : Bytes
  pub errmsg : Option Bytes
  pub printed : Bytes
  pub slept : List ℤ

-- A function that may return NULL, `none`.
abbrev pub Eval : Type 0 → Type 0
Eval A = State → Run (Option A × State)

abbrev pub pure : {A : Type 0} → A → Eval A
pure a s = ok (some a, s)

-- return NULL
abbrev pub null : {A : Type 0} → Eval A
null s = ok (none, s)

abbrev pub after {ℓ} :
    {A : Type 0} {B : Type ℓ} → (A → State → Run B) → (State → Run B) → Option A × State → Run B
after f g (none, s) = g s
after f g (some a, s) = f a s

-- if (x == NULL) return NULL;
infixl 5 ◌>>=◌ ◌>>◌
abbrev pub ◌>>=◌ : {A B : Type 0} → Eval A → (A → Eval B) → Eval B
◌>>=◌ m f s = Run.◌>>=◌ (m s) (after f null)

abbrev pub ◌>>◌ : {B : Type 0} → Eval (Unit {0}) → Eval B → Eval B
m >> k = m >>= λ _. k

-- An `Expr*` as a function of the language sees it: it can be evaluated, and has its place in the
-- script.
pub record Arg : Type 0 where
  pub run : Eval Value
  pub start : ℕ
  pub stop : ℕ

abbrev pub Function : Type 0
Function = Bytes → List Arg → Eval Value

mutual
  pub data Expr : Type 0 where
    node : Function → Bytes → Exprs → ℕ → ℕ → Expr

  pub data Exprs : Type 0 where
    nil : Exprs
    cons : Expr → Exprs → Exprs

-- `expr->fn(expr->name, state, expr->argc, expr->argv)`
unfoldable mutual
  pub evaluate_value : Expr → Eval Value
  evaluate_value (node fn name argv start stop) = fn name (arguments argv)

  pub arguments : Exprs → List Arg
  arguments nil = []
  arguments (cons e es) = argument e ∷ arguments es

  pub argument : Expr → Arg
  argument (node fn name argv start stop) = record {
    run = fn name (arguments argv);
    start = start;
    stop = stop;
  }

-- free(state->errmsg); state->errmsg = msg; return NULL;
abbrev pub fail : {A : Type 0} → Bytes → Eval A
fail msg s = ok (none, record s { errmsg = some msg })

-- vsnprintf writes at most 4095 bytes and the NUL.
unfoldable pub error_abort : {A : Type 0} → Bytes → Eval A
error_abort msg = fail (take 4095 msg)

-- The number that `%d` prints for a type.
abbrev pub type_digit : ValueType → Bytes
type_digit val_string = codes "1"
type_digit val_blob = codes "2"

-- The test of `Evaluate` on the type of a value.
unfoldable pub as_string : ValueType → Bytes → Eval Bytes
unfolding error_abort
as_string val_string contents = pure contents
as_string val_blob contents =
    error_abort (codes "expecting string, got value type " ++ type_digit val_blob)

unfoldable pub evaluate : Arg → Eval Bytes
unfolding as_string
evaluate arg = do v ← arg.run; as_string v.kind v.contents

abbrev pub string_value : Bytes → Value
string_value str = record { kind = val_string; size = length str; contents = str }

abbrev pub boolean_string : Bytes → Bool
boolean_string [] = false
boolean_string (c ∷ cs) = true

-- argv[i]: reading past the array is undefined.
abbrev pub argv_at : {A : Type 0} → List Arg → ℕ → (Arg → Eval A) → Eval A
argv_at [] i f = λ s. fault out_of_bounds
argv_at (a ∷ rest) zero f = f a
argv_at (a ∷ rest) (suc i) f = argv_at rest i f

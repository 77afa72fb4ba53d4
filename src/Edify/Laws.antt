-- ===== src/Edify/Laws.antt =====
-- The operators and the function `concat` of edify/expr.c, compared with one another.
use midnight_i9000_recovery.Common.{◌≡◌, refl, List, [], ◌∷◌, ◌++◌, append_assoc, arith}
use mathlib.Core.Path.{fun_ext}
use midnight_i9000_recovery.Common.Text.{Bytes, codes}
use midnight_i9000_recovery.Edify.Value.{
  State, Eval, Arg, Function, pure, ◌>>=◌, as_string, evaluate, string_value,
}
use midnight_i9000_recovery.Edify.Builtins.{
  read_var_args, concat_fn, if_else_fn, logical_and_fn, logical_or_fn, logical_not_fn, sequence_fn,
  concat_all,
}

-- The argument that an operator makes of its operands.
abbrev pub operator : Function → List Arg → Arg
operator fn argv = record { run = fn (codes "(operator)") argv; start = 0; stop = 0 }

-- `!(a && b)` is `!a || !b`: the same result, the same effects, and `b` is evaluated in the same
-- cases.
not-and :
    (a b : Arg) (name : Bytes) (s : State)
    → logical_not_fn name (operator logical_and_fn (a ∷ b ∷ []) ∷ []) s
      ≡ logical_or_fn name
          (operator logical_not_fn (a ∷ []) ∷ operator logical_not_fn (b ∷ []) ∷ [])
          s
unfolding logical_not_fn logical_and_fn logical_or_fn evaluate as_string
not-and a b name s = ground arith

-- `a ; (b ; c)` is `(a ; b) ; c`.
sequence_assoc :
    (a b c : Arg) (name : Bytes) (s : State)
    → sequence_fn name (a ∷ operator sequence_fn (b ∷ c ∷ []) ∷ []) s
      ≡ sequence_fn name (operator sequence_fn (a ∷ b ∷ []) ∷ c ∷ []) s
unfolding sequence_fn
sequence_assoc a b c name s = ground arith

-- `if !c then a else b` is `if c then b else a`.
if_else-not :
    (c a b : Arg) (name : Bytes) (s : State)
    → if_else_fn name (operator logical_not_fn (c ∷ []) ∷ a ∷ b ∷ []) s
      ≡ if_else_fn name (c ∷ b ∷ a ∷ []) s
unfolding if_else_fn logical_not_fn evaluate as_string
if_else-not c a b name s = ground arith

bind_assoc :
    {A B C : Type 0} (m : Eval A) (f : A → Eval B) (g : B → Eval C)
    → (m >>= f >>= g) ≡ (m >>= λ a. f a >>= g)
bind_assoc m f g = fun_ext λ s. ground arith

pure-bind : {A B : Type 0} (a : A) (f : A → Eval B) → (pure a >>= f) ≡ f a
pure-bind a f = refl

read_var_args-append :
    (xs ys : List Arg)
    → read_var_args (xs ++ ys)
      ≡ (read_var_args xs >>= λ ss. read_var_args ys >>= λ ts. pure (ss ++ ts))
unfolding read_var_args
read_var_args-append [] ys = fun_ext λ s. ground arith
read_var_args-append (x ∷ xs) ys = simp (bind_assoc, read_var_args-append xs ys)

concat_all-append : (ss ts : List Bytes) → concat_all (ss ++ ts) ≡ concat_all ss ++ concat_all ts
concat_all-append [] ts = refl
concat_all-append (s ∷ ss) ts = simp (concat_all-append ss ts, append_assoc)

concat_fn-read :
    (name : Bytes) (argv : List Arg)
    → concat_fn name argv
      ≡ (read_var_args argv >>= λ strings. pure (string_value (concat_all strings)))
unfolding concat_fn
concat_fn-read name argv = refl

read_var_args-cons :
    (a : Arg) (rest : List Arg)
    → read_var_args (a ∷ rest) ≡ (evaluate a >>= λ s. read_var_args rest >>= λ ss. pure (s ∷ ss))
unfolding read_var_args
read_var_args-cons a rest = refl

evaluate-concat :
    (m : Eval (List Bytes))
    → evaluate (record {
      run = m >>= λ strings. pure (string_value (concat_all strings));
      start = 0;
      stop = 0;
    })
      ≡ (m >>= λ strings. pure (concat_all strings))
unfolding evaluate as_string
evaluate-concat m = fun_ext λ s. ground arith

concat_fn-nested :
    (xs ys : List Arg) (name : Bytes)
    → concat_fn name (operator concat_fn xs ∷ ys) ≡ concat_fn name (xs ++ ys)
concat_fn-nested xs ys name = simp (
  concat_fn-read, read_var_args-cons, evaluate-concat, read_var_args-append, bind_assoc, pure-bind,
  concat_all-append,
)

-- A nested `concat` in front may be flattened: `concat(concat(xs), ys)` is `concat(xs, ys)`.
concat-concat :
    (xs ys : List Arg) (name : Bytes) (s : State)
    → concat_fn name (operator concat_fn xs ∷ ys) s ≡ concat_fn name (xs ++ ys) s
concat-concat xs ys name s = rw (concat_fn-nested xs ys name)

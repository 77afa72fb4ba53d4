-- ===== src/Common/Prog.antt =====
-- C functions that change a state and may return an error code.
use mathlib.Core.Option.{Option, none, some}
use midnight_i9000_recovery.Common.Run
use midnight_i9000_recovery.Common.Run.{Run, ok, fault, Returns}
use mathlib.Core.Path.{refl}

-- `none` is the error; the state is what the call leaves, also then.
abbrev pub Prog : Type 0 → Type 0 → Type 0
Prog S A = S → Run (Option A × S)

module _ {S A : Type 0} where
  abbrev pub return : A → Prog S A
  return a s = ok (some a, s)

  abbrev pub fail : Prog S A
  fail s = ok (none, s)

  abbrev pub unless_failed : {B : Type 0} → (A → Prog S B) → Option A × S → Run (Option B × S)
  unless_failed f (none, s) = ok (none, s)
  unless_failed f (some a, s) = f a s

infixl 5 ◌>>=◌ ◌>>◌
abbrev pub ◌>>=◌ : {S A B : Type 0} → Prog S A → (A → Prog S B) → Prog S B
◌>>=◌ m f s = Run.◌>>=◌ (m s) (unless_failed f)

abbrev pub ◌>>◌ : {S B : Type 0} → Prog S (Unit {0}) → Prog S B → Prog S B
m >> next = m >>= λ _. next

-- A chain of two calls, from what the first returns and what the second does on that.
pub >>=-Returns {i j} :
    {S A B : Type 0} {P : Option A × S → Type i} {Q : Option B × S → Type j} (m : Prog S A)
    (f : A → Prog S B) (s : S)
    → Returns (m s) P
    → ((s' : S) → P (none, s') → Q (none, s'))
    → ((a : A) (s' : S) → P (some a, s') → Returns (f a s') Q)
    → Returns ((m >>= f) s) Q
>>=-Returns {S = S} {A = A} {B = B} {P = P} {Q = Q} m f s (r, e, p) failed went_on =
    rw e (after r p)
  where
    after : (r : Option A × S) → P r → Returns (unless_failed f r) Q
    after (none, s') p = ((none, s'), refl, failed s' p)
    after (some a, s') p = went_on a s' p

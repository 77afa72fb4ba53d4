-- ===== src/Common/Run.antt =====
-- What a run of C code can do: return a value, or leave the defined behaviour of the language.
use mathlib.Core.Path.{◌≡◌}
use mathlib.Core.Bool.{Bool, true, false}
use Prim.Native.Nat.{ℕ, ◌^◌, ◌*◌, ◌<◌}
use midnight_i9000_recovery.Common.Tests.{ltb, lt→ltb, if◌then◌else◌}

-- `no_fuel` marks a loop that has not ended within the fuel of the model.
pub data Fault : Type 0 where
  assertion aborted out_of_bounds null_pointer signed_overflow no_fuel : Fault
  use_after_free uninitialised : Fault

pub data Run {i} (Result : Type i) : Type i where
  fault : Fault → Run Result
  ok : Result → Run Result

abbrev pub ◌>>=◌ {i j} :
    {Mid : Type i} {Result : Type j} → Run Mid → (Mid → Run Result) → Run Result
fault cause >>= next = fault cause
ok value >>= next = next value

infixl 5 ◌>>=◌ ◌>>◌
abbrev pub ◌>>◌ {ℓ} : {B : Type ℓ} → Run (Unit {0}) → Run B → Run B
m >> k = m >>= λ _. k

-- assert(b)
abbrev pub assert : Bool → Run (Unit {0})
assert true = ok tt
assert false = fault assertion

-- The product of two non-negative values of type `int`.
abbrev pub mul_int : ℕ → ℕ → Run ℕ
mul_int a b = if ltb (a * b) (2 ^ 31) then ok (a * b) else fault signed_overflow

pub mul_int-ok : (a b : ℕ) → a * b < 2 ^ 31 → mul_int a b ≡ ok (a * b)
mul_int-ok a b h = rw (lt→ltb (a * b) (2 ^ 31) h)

-- Normal termination with a value for which `Holds` is true.
abbrev pub Returns {i j} : {Result : Type i} → Run Result → (Result → Type j) → Type (i ⊔ j)
Returns {Result} run Holds = (value : Result) × (run ≡ ok value) × Holds value

-- ===== src/Common/Results.antt =====
-- A function that may throw returns a `Result`: the exceptions of the C++ code as values.
use mathlib.Core.Path.{◌≡◌, refl}
use mathlib.Core.Bool.{Bool, true, false}

-- `runtime_error`, `invalid_argument`, `out_of_range`, `length_error` are the exceptions thrown.
-- `bad_access` is a read outside of a buffer, which the C++ code leaves undefined.
-- `out_of_fuel` has no counterpart in the program: a recursion of the model ran out of fuel.
pub data Error : Type 0 where
  runtime_error invalid_argument out_of_range length_error bad_access out_of_fuel : Error

pub data Result {ℓ} (T : Type ℓ) : Type ℓ where
  err : Error → Result T
  ok : T → Result T

-- A call goes on with the value that returned, or passes the exception on.
infixl 5 ◌>>=◌
abbrev pub ◌>>=◌ {ℓ κ} : {T : Type ℓ} {U : Type κ} → Result T → (T → Result U) → Result U
err thrown >>= next = err thrown
ok v >>= next = next v

infixl 5 ◌>>◌
abbrev pub ◌>>◌ {ℓ} : {U : Type ℓ} → Result (Unit {0}) → Result U → Result U
first >> next = first >>= λ _. next

-- `if (test) throw e;`
abbrev pub throw_if : Bool → Error → Result (Unit {0})
throw_if true e = err e
throw_if false e = ok tt

-- A sequence that returned: its first call returned a value, and the rest returned on that.
pub >>=-eq-ok {ℓ κ} :
    {T : Type ℓ} {U : Type κ} (r : Result T) (next : T → Result U) {u : U}
    → (r >>= next) ≡ ok u
    → (v : T) × (r ≡ ok v) × (next v ≡ ok u)
>>=-eq-ok (err thrown) next h = cc
>>=-eq-ok (ok v) next h = (v, refl, h)

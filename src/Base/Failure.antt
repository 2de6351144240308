-- ===== src/Base/Failure.antt =====
-- shared-headers/Exceptions.hpp: a call of `ensure` that fails ends the call with an exception
-- or the process with abort(), SetupFailed ends the start-up, outOfSpace() ends the process; an
-- access outside an array is undefined behaviour. `waiting` says that a loop that waits for another
-- thread has not ended with what it has read so far, `unreachable` is UNREACHABLE().
use mathlib.Core.Path.{◌≡◌, refl}
use mathlib.Core.Bool.{Bool, true, false}

pub data Failure : Type 0 where
  ensure_failed setup_failed out_of_space undefined_behaviour waiting unreachable : Failure

pub data Result {ℓ} (Value : Type ℓ) : Type ℓ where
  ok : Value → Result Value
  fail : Failure → Result Value

infixl 5 ◌>>=◌ ◌>>◌
abbrev pub ◌>>=◌ {ℓ κ} :
    {Value : Type ℓ} {Next : Type κ} → Result Value → (Value → Result Next) → Result Next
fail reason >>= k = fail reason
ok x >>= k = k x

abbrev pub ◌>>◌ {ℓ} : {Next : Type ℓ} → Result (Unit {0}) → Result Next → Result Next
check >> rest = check >>= λ _. rest

abbrev pub ensure : Bool → Result (Unit {0})
ensure true = ok tt
ensure false = fail ensure_failed

-- Inversion of a successful bind, for proofs where the parts stay shut.
pub >>=-eq-ok {ℓ κ} :
    {Value : Type ℓ} {Next : Type κ} (m : Result Value) (f : Value → Result Next) {b : Next}
    → (m >>= f) ≡ ok b
    → (a : Value) × (m ≡ ok a) × (f a ≡ ok b)
>>=-eq-ok (ok a) f h = (a, refl, h)
>>=-eq-ok (fail e) f h = cc

-- A check that the code passed held, and the rest succeeded.
pub ensure-eq-ok {ℓ} :
    {Value : Type ℓ} (b : Bool) (m : Result Value) {x : Value}
    → (ensure b >> m) ≡ ok x
    → (b ≡ true) × (m ≡ ok x)
ensure-eq-ok true m h = (refl, h)
ensure-eq-ok false m h = cc

pub ensure-true {ℓ} :
    {Value : Type ℓ} (b : Bool) (m : Result Value) → b ≡ true → (ensure b >> m) ≡ m
ensure-true b m h = rw h

pub ok-injective {ℓ} : {Value : Type ℓ} {x y : Value} → ok x ≡ ok y → x ≡ y
ok-injective h = cc

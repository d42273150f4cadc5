-- ===== src/Base/Calls.antt =====
-- How a call of C code ends: normally, by `abort()`, by behaviour that C leaves undefined (a read
-- or write out of range, a null pointer, a division by zero), or short of the loop's fuel.
use mathlib.Core.Path.{◌≡◌, refl}
use mathlib.Core.Bool.{Bool, true, false}
use mathlib.Core.Option.{Option, none, some}

pub data Outcome {ℓ} (A : Type ℓ) : Type ℓ where
  ok : A → Outcome A
  aborted fault out_of_fuel : Outcome A

-- What follows a call runs only if the call returns.
infixl 5 ◌>>=◌
abbrev pub ◌>>=◌ {ℓ κ} : {A : Type ℓ} {B : Type κ} → Outcome A → (next : A → Outcome B) → Outcome B
ok value >>= next = next value
aborted >>= next = aborted
fault >>= next = fault
out_of_fuel >>= next = out_of_fuel

infixl 5 ◌>>◌
abbrev pub ◌>>◌ {ℓ} : {B : Type ℓ} (call : Outcome (Unit {0})) (next : Outcome B) → Outcome B
call >> next = call >>= λ done. next

-- `if (!test) abort();`
abbrev pub require : Bool → Outcome (Unit {0})
require true = ok tt
require false = aborted

-- A value whose absence C leaves undefined.
abbrev pub expect {ℓ} : {A : Type ℓ} → Option A → Outcome A
expect none = fault
expect (some a) = ok a

pub >>=-assoc {ℓ κ μ} :
    {A : Type ℓ} {B : Type κ} {C : Type μ} (call : Outcome A) (then_b : A → Outcome B)
    (then_c : B → Outcome C)
    → ((call >>= then_b) >>= then_c) ≡ (call >>= λ a. then_b a >>= then_c)
>>=-assoc (ok a) then_b then_c = refl
>>=-assoc aborted then_b then_c = refl
>>=-assoc fault then_b then_c = refl
>>=-assoc out_of_fuel then_b then_c = refl

-- A call that returns made each of its calls return.
pub >>=-eq-ok {ℓ κ} :
    {A : Type ℓ} {B : Type κ} (call : Outcome A) (next : A → Outcome B) {result : B}
    → (call >>= next) ≡ ok result
    → (value : A) × (call ≡ ok value) × (next value ≡ ok result)
>>=-eq-ok (ok value) next returned = (value, refl, returned)
>>=-eq-ok aborted next returned = cc
>>=-eq-ok fault next returned = cc
>>=-eq-ok out_of_fuel next returned = cc

-- ===== src/Common/Runs.antt =====
-- How a call of the program ends.
use Prim.Native.String.{String}
use mathlib.Core.Path.{◌≡◌, refl, ap}
use mathlib.Core.Bool.{Bool, true, false}
use mathlib.Core.Option.{Option, none, some}

-- `ok`: the call returns. `exit`: `handleErrorAndExit` ended the program with that message.
-- `fault`: an access outside of an object. `hang`: a loop of the code that never ends.
-- `out_of_fuel`: the bound on the recursion's depth was too small.
pub data Outcome {ℓ} (A : Type ℓ) : Type ℓ where
  ok : A → Outcome A
  exit : String → Outcome A
  fault : Outcome A
  hang : Outcome A
  out_of_fuel : Outcome A

infixl 5 ◌>>=◌ ◌>>◌
abbrev pub ◌>>=◌ {κ ℓ} : {X : Type κ} {Y : Type ℓ} → Outcome X → (X → Outcome Y) → Outcome Y
ok x >>= next = next x
exit message >>= next = exit message
fault >>= next = fault
hang >>= next = hang
out_of_fuel >>= next = out_of_fuel

-- An access that must lie inside of its object.
abbrev pub in_bounds : Bool → Outcome (Unit {0})
in_bounds true = ok tt
in_bounds false = fault

abbrev pub or_exit {ℓ} : {A : Type ℓ} → Option A → String → Outcome A
or_exit none m = exit m
or_exit (some a) m = ok a

abbrev pub ◌>>◌ {ℓ} : {Y : Type ℓ} → Outcome (Unit {0}) → Outcome Y → Outcome Y
test >> rest = test >>= λ _. rest

-- Inversion of a bind that returns.
pub >>=-eq-ok {κ ℓ} :
    {X : Type κ} {Y : Type ℓ} (run : Outcome X) (next : X → Outcome Y) {y : Y}
    → (run >>= next) ≡ ok y
    → (x : X) × (run ≡ ok x) × (next x ≡ ok y)
>>=-eq-ok (ok x) next e = (x, refl, e)
>>=-eq-ok (exit message) next e = cc
>>=-eq-ok fault next e = cc
>>=-eq-ok hang next e = cc
>>=-eq-ok out_of_fuel next e = cc

-- A bind whose first call returns.
pub >>=-ok {κ ℓ} :
    {X : Type κ} {Y : Type ℓ} {run : Outcome X} (next : X → Outcome Y) {x : X} {y : Outcome Y}
    → run ≡ ok x
    → next x ≡ y
    → (run >>= next) ≡ y
>>=-ok next e e' = rw (e, e')

pub ok-injective {ℓ} : {A : Type ℓ} {a b : A} → ok a ≡ ok b → a ≡ b
ok-injective h = cc

pub or_exit-eq-ok {ℓ} :
    {A : Type ℓ} (o : Option A) (m : String) {a : A} → or_exit o m ≡ ok a → o ≡ some a
or_exit-eq-ok none m h = cc
or_exit-eq-ok (some b) m h = ap some (ok-injective h)

-- A property of the value, if the call returns one.
abbrev pub AllOk {ℓ} : {A : Type ℓ} → (A → Type 0) → Outcome A → Type 0
AllOk P (ok a) = P a
AllOk P _ = Unit {0}

pub AllOk-elim {ℓ} :
    {A : Type ℓ} (P : A → Type 0) (m : Outcome A) {a : A} → AllOk P m → m ≡ ok a → P a
AllOk-elim P m holds e = rw e at holds

pub AllOk-bind {ℓ κ} :
    {A : Type ℓ} {B : Type κ} (P : B → Type 0) (m : Outcome A) (f : A → Outcome B)
    → ((a : A) → m ≡ ok a → AllOk P (f a))
    → AllOk P (m >>= f)
AllOk-bind P (ok a) f next = next a refl
AllOk-bind P (exit s) f next = tt
AllOk-bind P fault f next = tt
AllOk-bind P hang f next = tt
AllOk-bind P out_of_fuel f next = tt

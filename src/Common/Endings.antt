-- ===== src/Common/Endings.antt =====
-- The ways in which a call ends, to say that one of them does not happen.
use mathlib.Core.Path.{◌≡◌, refl}
use mathlib.Core.Logic.{◌≢◌}
use mathlib.Core.Option.{Option, none, some}
use Prim.Native.String.{String}
use ens_sysres_proj.Common.Runs.{Outcome, ok, exit, fault, hang, out_of_fuel, ◌>>=◌, or_exit}

pub data Ending : Type 0 where
  returned exited faulted hung exhausted : Ending

abbrev pub ending {ℓ} : {A : Type ℓ} → Outcome A → Ending
ending (ok a) = returned
ending (exit m) = exited
ending fault = faulted
ending hang = hung
ending out_of_fuel = exhausted

-- The call does not end in the way `k`.
abbrev pub Avoids {ℓ} : {A : Type ℓ} → Ending → Outcome A → Type 0
Avoids k m = ending m ≢ k

pub bind-Avoids {ℓ κ} :
    {A : Type ℓ} {B : Type κ} {k : Ending} (m : Outcome A) (f : A → Outcome B)
    → Avoids k m
    → ((a : A) → m ≡ ok a → Avoids k (f a))
    → Avoids k (m >>= f)
bind-Avoids (ok a) f e next = next a refl
bind-Avoids (exit s) f e next = e
bind-Avoids fault f e next = e
bind-Avoids hang f e next = e
bind-Avoids out_of_fuel f e next = e

-- The endings that no loop and no failed system call lead to.
pub record IsAbort (k : Ending) : Type 0 where
  pub not_returned : returned ≢ k
  pub not_exited : exited ≢ k
  pub not_hung : hung ≢ k

pub exhausted-IsAbort : IsAbort exhausted
exhausted-IsAbort = record { not_returned = λ c. cc; not_exited = λ c. cc; not_hung = λ c. cc }

pub faulted-IsAbort : IsAbort faulted
faulted-IsAbort = record { not_returned = λ c. cc; not_exited = λ c. cc; not_hung = λ c. cc }

pub or_exit-Avoids {ℓ} :
    {A : Type ℓ} {k : Ending} (o : Option A) (m : String) → IsAbort k → Avoids k (or_exit o m)
or_exit-Avoids none m a = a.not_exited
or_exit-Avoids (some x) m a = a.not_returned

abbrev pub Returns {ℓ} : {A : Type ℓ} → Outcome A → Type 0
Returns m = ending m ≡ returned

pub Returns-ok {ℓ} : {A : Type ℓ} (m : Outcome A) → Returns m → (a : A) × (m ≡ ok a)
Returns-ok (ok a) h = (a, refl)
Returns-ok (exit s) h = cc
Returns-ok fault h = cc
Returns-ok hang h = cc
Returns-ok out_of_fuel h = cc

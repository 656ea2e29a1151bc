-- ===== src/Base/Options.antt =====
-- What holds of the value of an option, where there is one.
use mathlib.Core.Path.{◌≡◌, subst}
use mathlib.Core.Option.{Option, none, some}
use linchpin.Base.Tests.{◌>>=◌}

abbrev Holds {ℓ} : {A : Type ℓ} → (A → Type 0) → Option A → Type 0
Holds P none = Unit
Holds P (some a) = P a

pub record Each {ℓ} {A : Type ℓ} (P : A → Type 0) (o : Option A) : Type 0 where
  pub holds : Holds P o

pub none-Each {ℓ} : {A : Type ℓ} {P : A → Type 0} → Each P none
none-Each = record { holds = tt }

pub some-Each {ℓ} : {A : Type ℓ} {P : A → Type 0} {a : A} → P a → Each P (some a)
some-Each p = record { holds = p }

pub >>=-Each {ℓ κ} :
    {A : Type ℓ} {B : Type κ} {P : A → Type 0} {Q : B → Type 0} {o : Option A} (f : A → Option B)
    → Each P o
    → ((a : A) → P a → Each Q (f a))
    → Each Q (o >>= f)
>>=-Each {o = none} f p rest = record { holds = tt }
>>=-Each {o = some a} f p rest = rest a p.holds

-- A step of whose value nothing has to be known.
pub then-Each {ℓ κ} :
    {A : Type ℓ} {B : Type κ} {Q : B → Type 0} (o : Option A) (f : A → Option B)
    → ((a : A) → Each Q (f a))
    → Each Q (o >>= f)
then-Each none f rest = record { holds = tt }
then-Each (some a) f rest = rest a

pub Each-some {ℓ} :
    {A : Type ℓ} {P : A → Type 0} {o : Option A} {a : A} → Each P o → o ≡ some a → P a
Each-some {P} p is = subst (Holds P) is p.holds

pub mono-Each {ℓ} :
    {A : Type ℓ} {P Q : A → Type 0} {o : Option A} → ((a : A) → P a → Q a) → Each P o → Each Q o
mono-Each {o = none} f p = record { holds = tt }
mono-Each {o = some a} f p = record { holds = f a p.holds }

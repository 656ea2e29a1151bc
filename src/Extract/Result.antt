-- ===== src/Extract/Result.antt =====
-- What a function of src/LinchpinST/src/lpst_run_dispatch_ext37.c gives that returns whether it found
-- something, and a pointer to it.
use linchpin.Base.{◌≡◌, refl, Bool, true, false, Option, none, some}

-- `undefined` is an access outside the RAM banks.
pub data Tried {ℓ} (A : Type ℓ) : Type ℓ where
  found : A → Tried A
  absent : Tried A
  undefined : Tried A

infixl 5 ◌>>=◌ ◌>>◌
unfoldable pub ◌>>=◌ {ℓ κ} : {A : Type ℓ} {B : Type κ} → Tried A → (A → Tried B) → Tried B
found a >>= f = f a
absent >>= f = absent
undefined >>= f = undefined

abbrev pub ◌>>◌ {ℓ} : {B : Type ℓ} → Tried (Unit {0}) → Tried B → Tried B
t >> k = t >>= λ _. k

abbrev pub reading {ℓ} : {A : Type ℓ} → Option A → Tried A
reading none = undefined
reading (some a) = found a

-- `if (!test) return 0;`
abbrev pub require : Bool → Tried (Unit {0})
require true = found tt
require false = absent

-- What holds of that which was found.
abbrev Holds {ℓ} : {A : Type ℓ} → (A → Type 0) → Tried A → Type 0
Holds P (found a) = P a
Holds P absent = Unit
Holds P undefined = Unit

pub record Gives {ℓ} {A : Type ℓ} (P : A → Type 0) (t : Tried A) : Type 0 where
  pub holds : Holds P t

pub found-Gives {ℓ} : {A : Type ℓ} {P : A → Type 0} {a : A} → P a → Gives P (found a)
found-Gives p = record { holds = p }

pub absent-Gives {ℓ} : {A : Type ℓ} {P : A → Type 0} → Gives P absent
absent-Gives = record { holds = tt }

pub >>=-Gives {ℓ κ} :
    {A : Type ℓ} {B : Type κ} {P : A → Type 0} {Q : B → Type 0} {t : Tried A} (f : A → Tried B)
    → Gives P t
    → ((a : A) → P a → Gives Q (f a))
    → Gives Q (t >>= f)
unfolding ◌>>=◌
>>=-Gives {t = found a} f p rest = rest a p.holds
>>=-Gives {t = absent} f p rest = record { holds = tt }
>>=-Gives {t = undefined} f p rest = record { holds = tt }

-- A step of whose value nothing has to be known.
pub then-Gives {ℓ κ} :
    {A : Type ℓ} {B : Type κ} {Q : B → Type 0} (t : Tried A) (f : A → Tried B)
    → ((a : A) → Gives Q (f a))
    → Gives Q (t >>= f)
unfolding ◌>>=◌
then-Gives (found a) f rest = rest a
then-Gives absent f rest = record { holds = tt }
then-Gives undefined f rest = record { holds = tt }

pub require-Gives {ℓ} :
    {B : Type ℓ} {Q : B → Type 0} (b : Bool) (k : Tried B)
    → (b ≡ true → Gives Q k)
    → Gives Q (require b >> k)
unfolding ◌>>=◌
require-Gives true k rest = rest refl
require-Gives false k rest = record { holds = tt }

pub mono-Gives {ℓ} :
    {A : Type ℓ} {P Q : A → Type 0} {t : Tried A} → ((a : A) → P a → Q a) → Gives P t → Gives Q t
mono-Gives {t = found a} f p = record { holds = f a p.holds }
mono-Gives {t = absent} f p = record { holds = tt }
mono-Gives {t = undefined} f p = record { holds = tt }

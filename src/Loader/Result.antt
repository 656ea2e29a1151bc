-- ===== src/Loader/Result.antt =====
-- What a step of the loader of src/LinchpinST/src/lpst_image.c gives: a value, one of the failures
-- of `lpst_result` in src/LinchpinST/include/lpst_image.h, or nothing that C defines. The number
-- that is passed along counts the calls of `malloc` and `calloc`.
use mathlib.Core.Path.{subst}
use linchpin.Base.{ℕ, ◌+◌, ◌≡◌, refl, Bool, true, false}

pub data LoadError : Type 0 where
  err_io err_mme_too_small err_obj_too_short err_module_header_truncated : LoadError
  err_initial_ram_truncated err_entry_out_of_range err_module_span_invalid : LoadError
  err_procedure_out_of_range err_header_parse err_alloc : LoadError

-- `undefined` is a read beyond the end of a buffer.
pub data Outcome {ℓ} (A : Type ℓ) : Type ℓ where
  ok : A → Outcome A
  fails : LoadError → Outcome A
  undefined : Outcome A

abbrev pub Loading {ℓ} : Type ℓ → Type ℓ
Loading A = ℕ → Outcome (A × ℕ)

abbrev pub return {ℓ} : {A : Type ℓ} → A → Loading A
return a n = ok (a, n)

unfoldable pub then_with {ℓ κ} :
    {A : Type ℓ} {B : Type κ} → Outcome (A × ℕ) → (A → Loading B) → Outcome (B × ℕ)
then_with (ok (a, n)) f = f a n
then_with (fails e) f = fails e
then_with undefined f = undefined

infixl 5 ◌>>=◌ ◌>>◌
abbrev pub ◌>>=◌ {ℓ κ} : {A : Type ℓ} {B : Type κ} → Loading A → (A → Loading B) → Loading B
◌>>=◌ m f n = then_with (m n) f

abbrev pub ◌>>◌ {ℓ} : {B : Type ℓ} → Loading (Unit {0}) → Loading B → Loading B
m >> k = m >>= λ _. k

-- `if (!test) return e;`
abbrev pub require : Bool → LoadError → Loading (Unit {0})
require true e n = ok (tt, n)
require false e n = fails e

-- A call of `malloc`, which says of each call in turn whether it succeeds.
abbrev pub allocate : (ℕ → Bool) → Loading Bool
allocate malloc n = ok (malloc n, n + 1)

abbrev pub need_memory : (ℕ → Bool) → Loading (Unit {0})
need_memory malloc = do b ← allocate malloc; require b err_alloc

-- What holds of the value, where there is one.
abbrev Holds {ℓ} : {A : Type ℓ} → (A → Type 0) → Outcome (A × ℕ) → Type 0
Holds P (ok (a, n)) = P a
Holds P (fails e) = Unit
Holds P undefined = Unit

pub record Ensures {ℓ} {A : Type ℓ} (P : A → Type 0) (o : Outcome (A × ℕ)) : Type 0 where
  pub holds : Holds P o

pub then_with-Ensures {ℓ κ} :
    {A : Type ℓ} {B : Type κ} {P : A → Type 0} {Q : B → Type 0} {o : Outcome (A × ℕ)}
    {f : A → Loading B}
    → Ensures P o
    → ((a : A) (n : ℕ) → P a → Ensures Q (f a n))
    → Ensures Q (then_with o f)
unfolding then_with
then_with-Ensures {o = ok (a, n)} p rest = rest a n p.holds
then_with-Ensures {o = fails e} p rest = record { holds = tt }
then_with-Ensures {o = undefined} p rest = record { holds = tt }

pub ok-Ensures {ℓ} : {A : Type ℓ} {P : A → Type 0} {a : A} {n : ℕ} → P a → Ensures P (ok (a, n))
ok-Ensures p = record { holds = p }

abbrev pub Anything {ℓ} : {A : Type ℓ} → A → Type 0
Anything a = Unit

pub always-Ensures {ℓ} : {A : Type ℓ} {o : Outcome (A × ℕ)} → Ensures Anything o
always-Ensures {o = ok (a, n)} = record { holds = tt }
always-Ensures {o = fails e} = record { holds = tt }
always-Ensures {o = undefined} = record { holds = tt }

pub require-Ensures : (b : Bool) (e : LoadError) (n : ℕ) → Ensures (λ _. b ≡ true) (require b e n)
require-Ensures true e n = record { holds = refl }
require-Ensures false e n = record { holds = tt }

-- A run that gave a value gave one with the property.
pub Ensures-ok {ℓ} :
    {A : Type ℓ} {P : A → Type 0} {o : Outcome (A × ℕ)} {a : A} {n : ℕ}
    → Ensures P o
    → o ≡ ok (a, n)
    → P a
Ensures-ok {P} p is = subst (Holds P) is p.holds

pub both-Ensures {ℓ} :
    {A : Type ℓ} {P Q : A → Type 0} {o : Outcome (A × ℕ)}
    → Ensures P o
    → Ensures Q o
    → Ensures (λ a. P a × Q a) o
both-Ensures {o = ok (a, n)} p q = record { holds = (p.holds, q.holds) }
both-Ensures {o = fails e} p q = record { holds = tt }
both-Ensures {o = undefined} p q = record { holds = tt }

pub mono-Ensures {ℓ} :
    {A : Type ℓ} {P Q : A → Type 0} {o : Outcome (A × ℕ)}
    → ((a : A) → P a → Q a)
    → Ensures P o
    → Ensures Q o
mono-Ensures {o = ok (a, n)} f p = record { holds = f a p.holds }
mono-Ensures {o = fails e} f p = record { holds = tt }
mono-Ensures {o = undefined} f p = record { holds = tt }

-- A step of which nothing has to be known.
pub skip-Ensures {ℓ κ} :
    {A : Type ℓ} {B : Type κ} {Q : B → Type 0} (o : Outcome (A × ℕ)) {f : A → Loading B}
    → ((a : A) (n : ℕ) → Ensures Q (f a n))
    → Ensures Q (then_with o f)
skip-Ensures o rest = then_with-Ensures {o = o} always-Ensures (λ a n _. rest a n)

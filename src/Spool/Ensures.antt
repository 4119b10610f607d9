-- ===== src/Spool/Ensures.antt =====
-- What a call that may fail an assertion leaves if it does not.
use mathlib.Core.Option.{some_inj}
use nchan.Prelude.{Bool, Option, assert, false, none, refl, some, subst, true, ◌>>=◌, ◌>>◌, ◌≡◌}

-- Every result that there is has the property.
pub record Ensures {ℓ κ} {A : Type ℓ} (P : A → Type κ) (o : Option A) : Type (ℓ ⊔ κ) where
  pub gives : (a : A) → o ≡ some a → P a

pub some-Ensures {ℓ κ} : {A : Type ℓ} {P : A → Type κ} (a : A) → P a → Ensures P (some a)
some-Ensures {P = P} a h = record { gives = λ b e. subst P (some_inj.0 e) h }

pub none-Ensures {ℓ κ} : {A : Type ℓ} {P : A → Type κ} → Ensures P none
none-Ensures = record { gives = λ b e. cc }

pub weaken-Ensures {ℓ κ κ'} :
    {A : Type ℓ} {P : A → Type κ} {Q : A → Type κ'} {o : Option A}
    → Ensures P o
    → ((a : A) → P a → Q a)
    → Ensures Q o
weaken-Ensures h k = record { gives = λ a e. k a (h.gives a e) }

pub both-Ensures {ℓ κ κ'} :
    {A : Type ℓ} {P : A → Type κ} {Q : A → Type κ'} {o : Option A}
    → Ensures P o
    → Ensures Q o
    → Ensures (λ a. P a × Q a) o
both-Ensures h k = record { gives = λ a e. (h.gives a e, k.gives a e) }

-- A call after a call.
pub after-Ensures {ℓ κ ι ι'} :
    {A : Type ℓ} {B : Type κ} {P : A → Type ι} {Q : B → Type ι'} (o : Option A) {f : A → Option B}
    → Ensures P o
    → ((a : A) → P a → Ensures Q (f a))
    → Ensures Q (o >>= f)
after-Ensures none h k = none-Ensures
after-Ensures (some a) h k = k a (h.gives a refl)

-- The result is the one that the call gives.
pub bind-Ensures {ℓ κ ι} :
    {A : Type ℓ} {B : Type κ} {Q : B → Type ι} (o : Option A) {f : A → Option B}
    → ((a : A) → o ≡ some a → Ensures Q (f a))
    → Ensures Q (o >>= f)
bind-Ensures none k = none-Ensures
bind-Ensures (some a) k = k a refl

-- After an assertion.
pub assert-Ensures {ℓ κ} :
    {A : Type ℓ} {P : A → Type κ} (b : Bool) (o : Option A)
    → (b ≡ true → Ensures P o)
    → Ensures P (assert b >> o)
assert-Ensures true o k = k refl
assert-Ensures false o k = none-Ensures

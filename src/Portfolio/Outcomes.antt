-- ===== src/Portfolio/Outcomes.antt =====
-- The exceptions that engine/src/PortfolioManager.cpp throws, as results. The messages are left out.
use mynyra.Prelude.{◌≡◌, refl, Bool, true, false, Option, none, some}

pub data Exception : Type 0 where
  invalid_argument logic_error overflow_error : Exception

pub data Outcome {ℓ} (A : Type ℓ) : Type ℓ where
  done : A → Outcome A
  thrown : Exception → Outcome A

infixl 5 ◌>>=◌ ◌>>◌
unfoldable pub ◌>>=◌ {ℓ κ} : {A : Type ℓ} {B : Type κ} → Outcome A → (A → Outcome B) → Outcome B
done a >>= f = f a
thrown e >>= f = thrown e

unfoldable pub ◌>>◌ {ℓ} : {B : Type ℓ} → Outcome (Unit {0}) → Outcome B → Outcome B
unfolding ◌>>=◌
m >> k = m >>= λ _. k

-- `if (refused) { throw ...; }`.
unfoldable pub refuse : Bool → Exception → Outcome (Unit {0})
refuse true e = thrown e
refuse false e = done tt

-- `!value.has_value()`, with an exception.
unfoldable pub value_or_throw {ℓ} : {A : Type ℓ} → Option A → Exception → Outcome A
value_or_throw none e = thrown e
value_or_throw (some a) e = done a

abbrev pub require_value {ℓ} : {A : Type ℓ} → Option A → Outcome A
require_value o = value_or_throw o Exception.overflow_error

-- What a successful run says of its first step.
pub bind_done {ℓ κ} :
    {A : Type ℓ} {B : Type κ} (m : Outcome A) (f : A → Outcome B) {b : B}
    → (m >>= f) ≡ done b
    → (a : A) × (m ≡ done a) × (f a ≡ done b)
unfolding ◌>>=◌
bind_done (done a) f h = (a, refl, h)
bind_done (thrown e) f h = cc

pub refuse_done {ℓ} :
    {B : Type ℓ} (b : Bool) (e : Exception) (k : Outcome B) {r : B}
    → (refuse b e >> k) ≡ done r
    → (b ≡ false) × (k ≡ done r)
unfolding ◌>>◌ refuse
refuse_done true e k h = cc
refuse_done false e k h = (refl, h)

pub value_done {ℓ κ} :
    {A : Type ℓ} {B : Type κ} (o : Option A) (e : Exception) (f : A → Outcome B) {b : B}
    → (value_or_throw o e >>= f) ≡ done b
    → (a : A) × (o ≡ some a) × (f a ≡ done b)
unfolding ◌>>=◌ value_or_throw
value_done none e f h = cc
value_done (some a) e f h = (a, refl, h)

pub done_inv {ℓ} : {A : Type ℓ} {a b : A} → done a ≡ done b → a ≡ b
done_inv h = cc

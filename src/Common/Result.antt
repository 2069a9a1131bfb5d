-- ===== src/Common/Result.antt =====
-- The outcome of code that may run into undefined behaviour.
use mathlib.Core.Bool.{Bool, true, false}

-- `fault` stands for undefined behaviour: a read or write out of bounds, a NULL dereference, a
-- double free, or a mutex used in the wrong state.
pub data Run {ℓ} (A : Type ℓ) : Type ℓ where
  ok : A → Run A
  fault : Run A

infixl 5 ◌>>=◌ ◌>>◌
abbrev pub ◌>>=◌ {ℓ κ} : {A : Type ℓ} {B : Type κ} → Run A → (A → Run B) → Run B
ok a >>= f = f a
fault >>= f = fault

abbrev pub ◌>>◌ {ℓ κ} : {A : Type ℓ} {B : Type κ} → Run A → Run B → Run B
m >> k = m >>= λ _. k

-- `a || b` on tests that may fault: `b` is not evaluated when `a` holds.
infixr 30 ◌or_else◌
abbrev pub ◌or_else◌ : Run Bool → Run Bool → Run Bool
a or_else b = a >>= elim [ true ↦ ok true | false ↦ b ]

-- The run ends without a fault, in a result that satisfies `P`.
pub data Returns {ℓ κ} {A : Type ℓ} (P : A → Type κ) : Run A → Type (ℓ ⊔ κ) where
  returns : {a : A} → P a → Returns P (ok a)

pub Returns-map {ℓ κ μ} :
    {A : Type ℓ} {P : A → Type κ} {Q : A → Type μ} {r : Run A}
    → Returns P r
    → ((a : A) → P a → Q a)
    → Returns Q r
Returns-map (returns p) f = returns (f _ p)

pub Returns-then {ℓ κ μ ν} :
    {A : Type ℓ} {B : Type κ} {P : A → Type μ} {Q : B → Type ν} {r : Run A} {f : A → Run B}
    → Returns P r
    → ((a : A) → P a → Returns Q (f a))
    → Returns Q (r >>= f)
Returns-then (returns p) k = k _ p

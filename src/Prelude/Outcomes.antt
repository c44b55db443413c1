-- ===== src/Prelude/Outcomes.antt =====
-- A computation that may panic, as a monad, and the cases of one that returns.
use mathlib.Core.Path.{◌≡◌, refl, subst₂, ap, ◌∙◌}
use native.Mathlib.Omega.{arith}
use mathlib.Core.Option.{Option, none, some}
use hyperswarm_rs.Prelude.Effects.{IoResult, ok, err, Outcome, returns, panics, out_of_fuel}

infixl 5 ◌>>=◌
abbrev pub ◌>>=◌ {ℓ κ} : {A : Type ℓ} {B : Type κ} → Outcome A → (A → Outcome B) → Outcome B
returns a >>= f = f a
panics >>= f = panics
out_of_fuel >>= f = out_of_fuel

-- `Option::unwrap`
abbrev pub unwrap {ℓ} : {A : Type ℓ} → Option A → Outcome A
unwrap none = panics
unwrap (some a) = returns a

-- Inversion of a bind that returns.
pub >>=-eq-returns {ℓ κ} :
    {A : Type ℓ} {B : Type κ} (m : Outcome A) (f : A → Outcome B) {b : B}
    → (m >>= f) ≡ returns b
    → (a : A) × (m ≡ returns a) × (f a ≡ returns b)
>>=-eq-returns (returns a) f h = (a, refl, h)
>>=-eq-returns panics f h = cc
>>=-eq-returns out_of_fuel f h = cc

-- The `?` operator in a body that may also panic.
abbrev pub and_then {ℓ κ} :
    {A : Type ℓ} {B : Type κ} → IoResult A → (A → Outcome (IoResult B)) → Outcome (IoResult B)
and_then (ok a) f = f a
and_then (err e) f = returns (err e)

pub returns-injective {ℓ κ} :
    {A : Type ℓ} {S : Type κ} {a b : A} {s t : S}
    → ◌≡◌ {A = Outcome (A × S)} (returns (a, s)) (returns (b, t))
    → (a ≡ b) × (s ≡ t)
returns-injective e = ground arith

-- What holds of what is returned holds of what that equals.
pub subst_returns {ℓ κ ι} :
    {A : Type ℓ} {S : Type κ} (P : A → S → Type ι) {a b : A} {s t : S}
    → ◌≡◌ {A = Outcome (A × S)} (returns (a, s)) (returns (b, t))
    → P a s
    → P b t
subst_returns P e p = let same = returns-injective e in subst₂ P same.0 same.1 p

-- A chain returns where its parts do.
pub chain_returns {ℓ κ} :
    {Got : Type ℓ} {Made : Type κ} (first : Outcome Got) (rest : Got → Outcome Made) {got : Got}
    {result : Outcome Made}
    → first ≡ returns got
    → rest got ≡ result
    → (first >>= rest) ≡ result
chain_returns first rest e f = ap (λ x. x >>= rest) e ∙ f

pub returns->>= {ℓ κ} :
    {Got : Type ℓ} {Made : Type κ} (first : Outcome Got) (rest : Got → Outcome Made) {got : Got}
    → first ≡ returns got
    → ((made : Made) × (rest got ≡ returns made))
    → (made : Made) × ((first >>= rest) ≡ returns made)
returns->>= first rest e (made, f) = (made, chain_returns first rest e f)

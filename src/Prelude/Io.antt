-- ===== src/Prelude/Io.antt =====
-- `io::Result` as a monad: the `?` operator, and `Option::ok_or`.

use mathlib.Core.Path.{◌≡◌, refl}
use mathlib.Core.Logic.{◌⊎◌, inl, inr}
use mathlib.Core.Option.{Option, none, some}
use hyperswarm_rs.Prelude.Effects.{IoResult, ok, err, IoError}

infixl 5 ◌>>=◌
abbrev pub ◌>>=◌ {ℓ κ} : {A : Type ℓ} {B : Type κ} → IoResult A → (A → IoResult B) → IoResult B
ok a >>= f = f a
err e >>= f = err e

abbrev pub ok_or {ℓ} : {A : Type ℓ} → Option A → IoError → IoResult A
ok_or none e = err e
ok_or (some a) e = ok a

-- A chain that succeeds has a first part that does, and the rest does from there.
pub >>=-eq-ok {ℓ κ} :
    {Got : Type ℓ} {Made : Type κ} (first : IoResult Got) (rest : Got → IoResult Made) {made : Made}
    → (first >>= rest) ≡ ok made
    → (got : Got) × (rest got ≡ ok made) × (first ≡ ok got)
>>=-eq-ok (err e) rest fails = cc
>>=-eq-ok (ok got) rest succeeds = (got, succeeds, refl)

pub IoResult-cases {ℓ} :
    {A : Type ℓ} (x : IoResult A) → ((a : A) × (x ≡ ok a)) ⊎ ((e : IoError) × (x ≡ err e))
IoResult-cases (ok a) = inl (a, refl)
IoResult-cases (err e) = inr (e, refl)

-- ===== src/Base/Outcome.antt =====
-- The outcome of a piece of C code: a result, undefined behaviour or a failed assertion, or a
-- loop that had more rounds to go than the model gave it.
use mathlib.Core.Path.{◌≡◌, refl}
use mathlib.Core.Option.{Option, none, some}

pub data Run {ℓ} (A : Type ℓ) : Type ℓ where
  ok : A → Run A
  fault : Run A
  out_of_fuel : Run A

infixl 5 ◌>>=◌
abbrev pub ◌>>=◌ {ℓ κ} : {A : Type ℓ} {B : Type κ} → Run A → (A → Run B) → Run B
out_of_fuel >>= rest = out_of_fuel
fault >>= rest = fault
ok result >>= rest = rest result

-- A read: of a pointer, or of an array at an index.
abbrev pub read {ℓ} : {A : Type ℓ} → Option A → Run A
read none = fault
read (some a) = ok a

-- Total correctness: there is a result, and it satisfies `P`.
abbrev pub Returns {ℓ κ} : {A : Type ℓ} → (A → Type κ) → Run A → Type (ℓ ⊔ κ)
Returns {A} P r = (a : A) × (r ≡ ok a) × P a

-- A chain that returns has a first part that returns.
pub >>=-eq-ok {ℓ κ} :
    {A : Type ℓ} {B : Type κ} (first : Run A) (rest : A → Run B) {end : B}
    (e : (first >>= rest) ≡ ok end)
    → Returns (λ middle. rest middle ≡ ok end) first
>>=-eq-ok fault rest e = absurd cc
>>=-eq-ok out_of_fuel rest e = absurd cc
>>=-eq-ok (ok middle) rest e = (middle, refl, e)

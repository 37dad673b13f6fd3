-- ===== src/Prelude/Results.antt =====
-- `Result` of Rust, and the iterator adapters over options.

use mathlib.Core.Path.{◌≡◌, refl}
use mathlib.Core.Option.{Option, none, some}
use mathlib.Core.List.{List, [], ◌∷◌}

pub data Result {ℓ κ} (A : Type ℓ) (E : Type κ) : Type (ℓ ⊔ κ) where
  ok : A → Result A E
  err : E → Result A E

-- `?`
infixl 5 ◌>>=◌
abbrev pub ◌>>=◌ {ℓ κ ι} :
    {A : Type ℓ} {B : Type κ} {E : Type ι} → Result A E → (A → Result B E) → Result B E
ok a >>= f = f a
err e >>= f = err e

-- A chain that succeeds succeeded in its first step.
pub >>=-eq-ok {ℓ κ ι} :
    {A : Type ℓ} {B : Type κ} {E : Type ι} (m : Result A E) (f : A → Result B E) (b : B)
    → (m >>= f) ≡ ok b
    → (a : A) × (m ≡ ok a) × (f a ≡ ok b)
>>=-eq-ok (ok a) f b h = (a, refl, h)
>>=-eq-ok (err e) f b h = absurd (cc)

pub ok-Injective {ℓ κ} :
    {A : Type ℓ} {E : Type κ} (a b : A) → ◌≡◌ {A = Result A E} (ok a) (ok b) → a ≡ b
ok-Injective a b h = cc

-- `ok_or(e)`
abbrev pub ok_or {ℓ κ} : {A : Type ℓ} {E : Type κ} → Option A → E → Result A E
ok_or none e = err e
ok_or (some a) e = ok a

-- `map_err(f)`
abbrev pub map_err {ℓ κ ι} :
    {A : Type ℓ} {D : Type κ} {E : Type ι} → (D → E) → Result A D → Result A E
map_err f (ok a) = ok a
map_err f (err d) = err (f d)

abbrev pub push_some : {A : Type 0} → Option A → List A → List A
push_some none as' = as'
push_some (some a) as' = a ∷ as'

module _ {A B : Type 0} where
  -- `iter().filter_map(f)`
  unfoldable pub filter_map : (A → Option B) → List A → List B
  filter_map f [] = []
  filter_map f (a ∷ as') = push_some (f a) (filter_map f as')

  -- `iter().find_map(f)`
  unfoldable pub find_map : (A → Option B) → List A → Option B
  find_map f [] = none
  find_map f (a ∷ as') = let rest = find_map f as' in elim (f a) [ none ↦ rest | some b ↦ some b ]

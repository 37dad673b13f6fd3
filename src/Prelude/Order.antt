-- ===== src/Prelude/Order.antt =====
-- `Ord` of Rust: a comparison that decides equality. `==` is the equality that it decides.
use Prim.Native.Nat.{ℕ, compare, Ordering}
use mathlib.Core.Path.{◌≡◌, refl}
use mathlib.Core.Logic.{◌⊎◌, inl, inr}
use mathlib.Core.Bool.{Bool, true, false}
use native.Mathlib.Omega.{arith}

abbrev pub is_eq : Ordering → Bool
is_eq Ordering.eq = true
is_eq _ = false

abbrev pub is_gt : Ordering → Bool
is_gt Ordering.gt = true
is_gt _ = false

-- `Ordering::then`
abbrev pub then_cmp : Ordering → Ordering → Ordering
then_cmp Ordering.eq o = o
then_cmp Ordering.lt o = Ordering.lt
then_cmp Ordering.gt o = Ordering.gt

-- `Ordering::reverse`
abbrev pub reverse_cmp : Ordering → Ordering
reverse_cmp Ordering.eq = Ordering.eq
reverse_cmp Ordering.lt = Ordering.gt
reverse_cmp Ordering.gt = Ordering.lt

pub record Ord {ℓ} (A : Type ℓ) : Type ℓ where
  pub cmp : A → A → Ordering
  pub cmp_eq : (a b : A) → cmp a b ≡ Ordering.eq → a ≡ b
  pub cmp_refl : (a : A) → cmp a a ≡ Ordering.eq

infix 50 ◌==◌
abbrev pub ◌==◌ {ℓ} : {A : Type ℓ} ⦃o : Ord A⦄ → A → A → Bool
◌==◌ ⦃o⦄ a b = is_eq (o.cmp a b)

is_eq_iff : (o : Ordering) → is_eq o ≡ true → o ≡ Ordering.eq
is_eq_iff o h = ground arith

module _ {ℓ} {A : Type ℓ} ⦃o : Ord A⦄ where
  pub eq_refl : (a : A) → (a == a) ≡ true
  eq_refl a = ground (arith, o.cmp_refl a)

  pub eq_of_== : (a b : A) → (a == b) ≡ true → a ≡ b
  eq_of_== a b h = o.cmp_eq a b (is_eq_iff (o.cmp a b) h)

pub nat_cmp_eq : (a b : ℕ) → compare a b ≡ Ordering.eq → a ≡ b
nat_cmp_eq a b h = ground arith

pub nat_cmp_refl : (a : ℕ) → compare a a ≡ Ordering.eq
nat_cmp_refl a = ground arith

instance abbrev pub nat_ord : Ord ℕ
nat_ord = record { cmp = compare; cmp_eq = nat_cmp_eq; cmp_refl = nat_cmp_refl }

-- The derived order of an enum: its constructors by their place.
abbrev pub by_index {ℓ} :
    {A : Type ℓ} (index : A → ℕ) → ((a b : A) → index a ≡ index b → a ≡ b) → Ord A
by_index index inj = record {
  cmp = λ a b. compare (index a) (index b);
  cmp_eq = λ a b h. inj a b (nat_cmp_eq (index a) (index b) h);
  cmp_refl = λ a. nat_cmp_refl (index a);
}

pub Ordering-cases : (c : Ordering) → (c ≡ Ordering.lt) ⊎ (c ≡ Ordering.eq) ⊎ (c ≡ Ordering.gt)
Ordering-cases Ordering.lt = inl refl
Ordering-cases Ordering.eq = inr (inl refl)
Ordering-cases Ordering.gt = inr (inr refl)

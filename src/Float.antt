-- ===== src/Float.antt =====
-- `f64`, as the program uses it: the type is a parameter with the operations that the source
-- applies, and `IsIeee` has the facts of IEEE 754 that proofs rely on.
pub mod Fixed
use route_d.Prelude.{
  ℕ, ◌≡◌, Bool, true, false, not, ◌||◌, Ordering, if◌then◌else◌, ◌⊎◌, arith, Text, Option,
}

pub record Float (F : Type 0) : Type 0 where
  -- `n as f64`
  pub of_nat : ℕ → F
  -- the literal `m` / 10 ^ `k`
  pub decimal : ℕ → ℕ → F
  -- `f64::INFINITY`, `f64::NEG_INFINITY`, `f64::MIN` and `f64::MAX`
  pub infinity : F
  pub neg_infinity : F
  pub lowest : F
  pub greatest : F
  pub add : F → F → F
  pub sub : F → F → F
  pub mul : F → F → F
  pub div : F → F → F
  -- `a.min(b)`, `a.max(b)`, `a.abs()`, `a.round()`, `a.is_finite()`
  pub least : F → F → F
  pub most : F → F → F
  pub abs : F → F
  pub round : F → F
  pub is_finite : F → Bool
  -- `f64::EPSILON`, `a as u64` and `s.parse::<f64>().ok()`
  pub epsilon : F
  pub to_u64 : F → ℕ
  pub parse : Text → Option F
  -- `a < b` and `a <= b`
  pub lt : F → F → Bool
  pub le : F → F → Bool

module _ {F : Type 0} ⦃f : Float F⦄ where
  -- NaN is the value that is not `<=` itself.
  abbrev pub IsNumber : F → Type 0
  IsNumber a = f.le a a ≡ true

  -- `a.clamp(lo, hi)`
  abbrev pub clamp : F → F → F → F
  clamp lo hi a = if f.lt a lo then lo else if f.lt hi a then hi else a

  -- `a.partial_cmp(&b).unwrap_or(Equal)`
  abbrev pub cmp_or_equal : F → F → Ordering
  cmp_or_equal a b = if f.lt a b then Ordering.lt else if f.lt b a then Ordering.gt else Ordering.eq

-- Comparisons of IEEE 754. They hold of every value, NaN included.
pub record IsIeee (F : Type 0) ⦃f : Float F⦄ : Type 0 where
  pub lt_trans : (a b c : F) → f.lt a b ≡ true → f.lt b c ≡ true → f.lt a c ≡ true
  pub lt_irrefl : (a : F) → f.lt a a ≡ false
  pub lt_number : (a b : F) → f.lt a b ≡ true → (f.le a a ≡ true) × (f.le b b ≡ true)
  -- Away from NaN `<=` is the failure of `>`.
  pub le-eq-not-lt : (a b : F) → f.le a a ≡ true → f.le b b ≡ true → f.le a b ≡ not (f.lt b a)
  pub le_number : (a b : F) → f.le a b ≡ true → (f.le a a ≡ true) × (f.le b b ≡ true)
  -- Away from NaN the order is total: what is below one of two values is below or above the other.
  pub lt_split :
      (a b c : F) → f.le c c ≡ true → f.lt a b ≡ true → (f.lt a c ≡ true) ⊎ (f.lt c b ≡ true)
  pub finite_number : (a : F) → f.is_finite a ≡ true → f.le a a ≡ true
  -- `max` returns one of its arguments, and the other one than `f64::MIN` beside it.
  pub most_either : (a b : F) → (f.most a b ≡ a) ⊎ (f.most a b ≡ b)
  pub most_lowest : (a : F) → f.is_finite a ≡ true → f.most f.lowest a ≡ a
  -- A finite number less itself is 0.
  pub sub_self : (a : F) → f.is_finite a ≡ true → f.lt (f.abs (f.sub a a)) (f.decimal 1 12) ≡ true
  -- The literals 0.0 and 1.0 are finite.
  pub zero_finite : f.is_finite (f.decimal 0 0) ≡ true
  pub one_finite : f.is_finite (f.decimal 1 0) ≡ true

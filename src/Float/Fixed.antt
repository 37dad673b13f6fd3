-- ===== src/Float/Fixed.antt =====
-- Numbers that meet the interface `Float`: integers in units of 10 ^ -12 with a NaN and two
-- infinities. They are for runs and for instances of theorems, and no model of `f64`.
use route_d.Prelude.{
  ℕ, suc, ◌+◌, ◌-◌, ◌*◌, ◌/◌, ◌^◌, refl, Bool, true, false, not, ◌||◌, ltb, leb, if◌then◌else◌,
  arith, ◌==◌, nat_ord, u64_max, Text, Option, none, some, [], ◌∷◌, ◌&&◌,
}
use mathlib.Core.Option
use route_d.Float.{Float, IsIeee}

pub data ℤ : Type 0 where
  pos : ℕ → ℤ
  negsuc : ℕ → ℤ

abbrev pos_part : ℤ → ℕ
pos_part (pos n) = n
pos_part (negsuc n) = 0

abbrev neg_part : ℤ → ℕ
neg_part (pos n) = 0
neg_part (negsuc n) = suc n

-- a - b, as an integer.
abbrev sub_ℕ : ℕ → ℕ → ℤ
sub_ℕ a b = if leb b a then pos (a - b) else negsuc (b - a - 1)

abbrev unit : ℕ
unit = 1_000_000_000_000

pub data Fixed : Type 0 where
  nan neg_inf pos_inf : Fixed
  fin : ℤ → Fixed

-- an integer with the sign of `b - a` as its own
abbrev sign_of : ℕ → ℕ → ℤ → Fixed
sign_of p n z = if p == n then nan else if ltb n p then pos_inf else neg_inf

add : Fixed → Fixed → Fixed
add (fin a) (fin b) = fin (sub_ℕ (pos_part a + pos_part b) (neg_part a + neg_part b))
add nan b = nan
add (fin a) b = b
add a (fin b) = a
add pos_inf pos_inf = pos_inf
add neg_inf neg_inf = neg_inf
add _ _ = nan

neg : Fixed → Fixed
neg (fin a) = fin (sub_ℕ (neg_part a) (pos_part a))
neg pos_inf = neg_inf
neg neg_inf = pos_inf
neg nan = nan

sub : Fixed → Fixed → Fixed
unfolding add neg
sub a b = add a (neg b)

scaled : ℕ → ℕ → ℕ → ℤ
scaled p n by = if leb n p then pos ((p - n) / by) else sub_ℕ 0 ((n - p) / by)

mul : Fixed → Fixed → Fixed
unfolding scaled
mul (fin a) (fin b) = fin (
    scaled (pos_part a * pos_part b + neg_part a * neg_part b)
      (pos_part a * neg_part b + neg_part a * pos_part b) unit)
mul _ _ = nan

div : Fixed → Fixed → Fixed
unfolding scaled
div (fin a) (fin (pos (suc b))) = fin (scaled (pos_part a * unit) (neg_part a * unit) (suc b))
div (fin a) (fin (negsuc b)) = fin (scaled (neg_part a * unit) (pos_part a * unit) (suc b))
div _ _ = nan

lt : Fixed → Fixed → Bool
lt (fin a) (fin b) = ltb (pos_part a + neg_part b) (pos_part b + neg_part a)
lt nan b = false
lt pos_inf b = false
lt neg_inf neg_inf = false
lt neg_inf nan = false
lt neg_inf b = true
lt (fin a) pos_inf = true
lt (fin a) b = false

is_nan : Fixed → Bool
is_nan nan = true
is_nan _ = false

le : Fixed → Fixed → Bool
unfolding lt is_nan
le a b = if is_nan a || is_nan b then false else not (lt b a)

is_finite : Fixed → Bool
is_finite (fin a) = leb (neg_part a) (10 ^ 60)
is_finite _ = false

round : Fixed → Fixed
round (fin (pos n)) = fin (pos ((n + unit / 2) / unit * unit))
round (fin (negsuc n)) = fin (sub_ℕ 0 ((suc n + unit / 2) / unit * unit))
round a = a

cast : Fixed → ℕ
cast (fin (pos n)) = if leb (n / unit) u64_max then n / unit else u64_max
cast pos_inf = u64_max
cast _ = 0

digits : ℕ → Text → Option ℕ
digits n [] = some n
digits n (c ∷ s) =
    let rest = digits (n * 10 + (c - 48)) s in if leb 48 c && leb c 57 then rest else none

-- whole numbers only
parse : Text → Option Fixed
unfolding digits
parse [] = none
parse (c ∷ s) = Option.map (λ n. fin (pos (n * unit))) (digits 0 (c ∷ s))

instance unfoldable pub fixed_float : Float Fixed
unfolding add neg sub mul div lt le is_nan is_finite round cast parse
fixed_float = record {
  of_nat = λ n. fin (pos (n * unit));
  decimal = λ m k. fin (pos (m * unit / 10 ^ k));
  infinity = pos_inf;
  neg_infinity = neg_inf;
  lowest = fin (negsuc (10 ^ 60 - 1));
  greatest = fin (pos (10 ^ 60));
  add = add;
  sub = sub;
  mul = mul;
  div = div;
  least = λ a b. if is_nan a then b else if lt b a then b else a;
  most = λ a b. if is_nan a then b else if lt a b then b else a;
  abs = λ a. if lt a (fin (pos 0)) then neg a else a;
  round = round;
  is_finite = is_finite;
  epsilon = fin (pos 0);
  to_u64 = cast;
  parse = parse;
  lt = lt;
  le = le;
}

-- A decimal of `k` places.
abbrev pub fixed : ℕ → ℕ → Fixed
fixed m k = fin (pos (m * unit / 10 ^ k))

pub Fixed-IsIeee : IsIeee Fixed
unfolding fixed_float
Fixed-IsIeee = record {
  lt_trans = λ a b c. ground arith;
  lt_irrefl = λ a. ground arith;
  lt_number = λ a b. ground arith;
  le-eq-not-lt = λ a b. ground arith;
  le_number = λ a b. ground arith;
  lt_split = λ a b c. ground arith;
  finite_number = λ a. ground arith;
  most_either = λ a b. ground arith;
  most_lowest = λ a. ground arith;
  sub_self = λ a. ground arith;
  zero_finite = refl;
  one_finite = refl;
}

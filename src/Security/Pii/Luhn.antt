-- ===== src/Security/Pii/Luhn.antt =====
-- crates/security/src/pii.rs, `luhn_ok`: the check digit of a payment card.
use route_d.Prelude.{
  ℕ, ◌+◌, ◌%◌, ◌≤◌, ◌≡◌, ◌≢◌, Bool, true, false, Option, some, none, List, [], ◌∷◌, ◌++◌, Text,
  ◌==◌, ◌||◌, if◌then◌else◌, ltb, nat_ord, arith, ap, refl, sym, ◌∙◌,
}
use mathlib.Core.List.{reverse, reverse_aux-append, reverse_aux-eq}
use route_d.Security.Pii.{to_digit, push_some, digits, length, doubled, sum_from, luhn_ok}

push_some-append : (o : Option ℕ) (xs ys : List ℕ) → push_some o (xs ++ ys) ≡ push_some o xs ++ ys
push_some-append none xs ys = refl
push_some-append (some x) xs ys = refl

-- A digit adds a digit, and another digit adds another.
doubled-le : (i d : ℕ) → d ≤ 9 → doubled i d ≤ 9
unfolding doubled
doubled-le i d h = ground arith

doubled-Injective : (i d e : ℕ) → d ≤ 9 → e ≤ 9 → doubled i d ≡ doubled i e → d ≡ e
unfolding doubled
doubled-Injective i d e h k same = ground arith

-- Sums over numbers that differ at one place have different last digits.
sum_from-Injective :
    (i : ℕ) (xs : List ℕ) (d e : ℕ) (ys : List ℕ)
    → d ≤ 9
    → e ≤ 9
    → sum_from i (xs ++ d ∷ ys) % 10 ≡ sum_from i (xs ++ e ∷ ys) % 10
    → d ≡ e
unfolding sum_from
sum_from-Injective i [] d e ys h k same =
    let small = doubled-le i d h in
    let small' = doubled-le i e k in doubled-Injective i d e h k (omega arith)
sum_from-Injective i (x ∷ xs) d e ys h k same =
    sum_from-Injective (1 + i) xs d e ys h k (omega arith)

pub length-append :
    (xs : List ℕ) (d : ℕ) (ys : List ℕ) → length (xs ++ d ∷ ys) ≡ 1 + (length xs + length ys)
unfolding length
length-append [] d ys = omega arith
length-append (x ∷ xs) d ys = let rest = length-append xs d ys in omega arith

pub digits-append :
    (s : Text) (c d : ℕ) (t : Text)
    → to_digit c ≡ some d
    → digits (s ++ c ∷ t) ≡ digits s ++ d ∷ digits t
unfolding digits
digits-append [] c d t e = rw e refl
digits-append (x ∷ s) c d t e =
    ap (push_some (to_digit x)) (digits-append s c d t e)
    ∙ push_some-append (to_digit x) (digits s) (d ∷ digits t)

pub to_digit-le : (c d : ℕ) → to_digit c ≡ some d → d ≤ 9
unfolding to_digit
to_digit-le c d e = ground arith

reverse-middle :
    (xs : List ℕ) (d : ℕ) (ys : List ℕ) → reverse (xs ++ d ∷ ys) ≡ reverse ys ++ d ∷ reverse xs
reverse-middle xs d ys = reverse_aux-append xs (d ∷ ys) [] ∙ reverse_aux-eq ys (d ∷ reverse xs)

-- What `luhn_ok` says of so many digits with such a sum.
abbrev verdict : ℕ → ℕ → Bool
verdict n total = if ltb n 13 || ltb 19 n then false else total % 10 == 0

verdict-one_digit :
    (n total total' : ℕ)
    → total % 10 ≢ total' % 10
    → verdict n total ≡ true
    → verdict n total' ≡ false
verdict-one_digit n total total' differ passes = ground arith

luhn_ok-verdict :
    (s : Text) (c d : ℕ) (t : Text)
    → to_digit c ≡ some d
    → luhn_ok (s ++ c ∷ t)
      ≡ verdict
          (1 + (length (digits s) + length (digits t)))
          (sum_from 0 (reverse (digits t) ++ d ∷ reverse (digits s)))
unfolding luhn_ok
luhn_ok-verdict s c d t e =
    rw
      (
        digits-append s c d t e,
        length-append (digits s) d (digits t),
        reverse-middle (digits s) d (digits t),
      )
      refl

-- A number that passes no longer passes once one of its digits, at any place, is another digit.
pub luhn_ok-one_digit :
    (s t : Text) (c d c' d' : ℕ)
    → to_digit c ≡ some d
    → to_digit c' ≡ some d'
    → d ≢ d'
    → luhn_ok (s ++ c ∷ t) ≡ true
    → luhn_ok (s ++ c' ∷ t) ≡ false
luhn_ok-one_digit s t c d c' d' e e' differ passes =
    luhn_ok-verdict s c' d' t e'
    ∙ verdict-one_digit (1 + (length (digits s) + length (digits t))) _ _
        (λ same. differ (
          sum_from-Injective 0 (reverse (digits t)) d d' (reverse (digits s)) (to_digit-le c d e)
            (to_digit-le c' d' e') same))
        (sym (luhn_ok-verdict s c d t e) ∙ passes)

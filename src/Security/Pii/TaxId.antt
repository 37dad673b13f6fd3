-- ===== src/Security/Pii/TaxId.antt =====
-- crates/security/src/pii.rs, `de_tax_id_ok`: the check digit of a German tax number (ISO 7064,
-- MOD 11,10).
use route_d.Prelude.{
  ℕ, ◌-◌, ◌%◌, ◌≤◌, ◌≡◌, ◌≢◌, Bool, true, false, some, List, [], ◌∷◌, ◌++◌, Text, ◌==◌, nat_ord,
  arith, ap, refl, sym, ◌∙◌, Bool-cases, inl, inr,
}
use route_d.Security.Pii.{
  to_digit, digits, length, front, get_elem?, tax_step, tax_product, matches_check, de_tax_id_ok,
}
use route_d.Security.Pii.Luhn.{length-append, digits-append, to_digit-le}

-- A remainder that the loop keeps.
abbrev Kept : ℕ → Type 0
Kept p = (1 ≤ p) × (p ≤ 10)

tax_step-Kept : (p x : ℕ) → Kept (tax_step p x)
unfolding tax_step
tax_step-Kept p x = (ground arith, ground arith)

tax_step-Injective : (p q x : ℕ) → Kept p → Kept q → tax_step p x ≡ tax_step q x → p ≡ q
unfolding tax_step
tax_step-Injective p q x (h, h') (k, k') same = ground arith

tax_step-Injective_digit : (p x y : ℕ) → x ≤ 9 → y ≤ 9 → tax_step p x ≡ tax_step p y → x ≡ y
unfolding tax_step
tax_step-Injective_digit p x y h k same = ground arith

-- The last digit is the one that the remainder after the digits before it asks for.
abbrev ends_well : ℕ → ℕ → List ℕ → Bool
ends_well n p ds = matches_check ((11 - tax_product p (front n ds)) % 10) (get_elem? n ds)

ends_well-zero : (n p x : ℕ) (xs : List ℕ) → n ≡ 0 → ends_well n p (x ∷ xs) ≡ ((11 - p) % 10 == x)
unfolding front get_elem? tax_product matches_check
ends_well-zero n p x xs e = rw e refl

ends_well-next :
    (n p x : ℕ) (xs : List ℕ)
    → (n == 0) ≡ false
    → ends_well n p (x ∷ xs) ≡ ends_well (n - 1) (tax_step p x) xs
unfolding front get_elem? tax_product
ends_well-next n p x xs e = rw e refl

check_digit-Injective :
    (p q x : ℕ)
    → Kept p
    → Kept q
    → ((11 - p) % 10 == x) ≡ true
    → ((11 - q) % 10 == x) ≡ true
    → p ≡ q
check_digit-Injective p q x (h, h') (k, k') a b = ground arith

same_check : (r d e : ℕ) → (r == d) ≡ true → (r == e) ≡ true → d ≡ e
same_check r d e a b = ground arith

ends_well-Injective :
    (ds : List ℕ) (n p q : ℕ)
    → Kept p
    → Kept q
    → ends_well n p ds ≡ true
    → ends_well n q ds ≡ true
    → p ≡ q
unfolding get_elem? matches_check
ends_well-Injective [] n p q h k a b = ground arith
ends_well-Injective (x ∷ xs) n p q h k a b = elim (Bool-cases (n == 0)) [
  | inl e ↦
      let zero : n ≡ 0 = ground arith in
      check_digit-Injective p q x h k (sym (ends_well-zero n p x xs zero) ∙ a)
        (sym (ends_well-zero n q x xs zero) ∙ b)
  | inr e ↦ tax_step-Injective p q x h k (
      ends_well-Injective xs (n - 1) _ _ (tax_step-Kept p x) (tax_step-Kept q x)
        (sym (ends_well-next n p x xs e) ∙ a) (sym (ends_well-next n q x xs e) ∙ b))
]

ends_well-digit :
    (xs : List ℕ) (d e : ℕ) (ys : List ℕ) (n p : ℕ)
    → Kept p
    → d ≤ 9
    → e ≤ 9
    → length xs ≤ n
    → ends_well n p (xs ++ d ∷ ys) ≡ true
    → ends_well n p (xs ++ e ∷ ys) ≡ true
    → d ≡ e
unfolding length
ends_well-digit [] d e ys n p h hd he short a b = elim (Bool-cases (n == 0)) [
  | inl z ↦
      let zero : n ≡ 0 = ground arith in
      same_check ((11 - p) % 10) d e (sym (ends_well-zero n p d ys zero) ∙ a)
        (sym (ends_well-zero n p e ys zero) ∙ b)
  | inr z ↦ tax_step-Injective_digit p d e hd he (
      ends_well-Injective ys (n - 1) _ _ (tax_step-Kept p d) (tax_step-Kept p e)
        (sym (ends_well-next n p d ys z) ∙ a) (sym (ends_well-next n p e ys z) ∙ b))
]
ends_well-digit (x ∷ xs) d e ys n p h hd he short a b =
    let z : (n == 0) ≡ false = ground arith in
    ends_well-digit xs d e ys (n - 1) (tax_step p x) (tax_step-Kept p x) hd he (omega arith)
      (sym (ends_well-next n p x (xs ++ d ∷ ys) z) ∙ a)
      (sym (ends_well-next n p x (xs ++ e ∷ ys) z) ∙ b)

-- What a passing number fulfils.
de_tax_id_ok-parts :
    (raw : Text)
    → de_tax_id_ok raw ≡ true
    → (length (digits raw) ≡ 11) × (ends_well 10 10 (digits raw) ≡ true)
unfolding de_tax_id_ok
de_tax_id_ok-parts raw e = (ground arith, ground arith)

-- A number that passes no longer passes once one of its digits, at any place, is another digit.
pub de_tax_id_ok-one_digit :
    (s t : Text) (c d c' d' : ℕ)
    → to_digit c ≡ some d
    → to_digit c' ≡ some d'
    → d ≢ d'
    → de_tax_id_ok (s ++ c ∷ t) ≡ true
    → de_tax_id_ok (s ++ c' ∷ t) ≡ false
de_tax_id_ok-one_digit s t c d c' d' e e' differ passes =
    elim (Bool-cases (de_tax_id_ok (s ++ c' ∷ t))) [
      | inl both ↦
          let (long, a) = de_tax_id_ok-parts _ passes in
          let (long', b) = de_tax_id_ok-parts _ both in
          let same = digits-append s c d t e in
          let same' = digits-append s c' d' t e' in
          let total = sym (ap length same ∙ length-append (digits s) d (digits t)) ∙ long in
          absurd (
            differ (
              ends_well-digit (digits s) d d' (digits t) 10 10 (omega arith, omega arith)
                (to_digit-le c d e) (to_digit-le c' d' e') (omega arith)
                (sym (ap (ends_well 10 10) same) ∙ a) (sym (ap (ends_well 10 10) same') ∙ b)))
      | inr fails ↦ fails
    ]

-- ===== src/Security/Pii/Iban.antt =====
-- crates/security/src/pii.rs, `iban_mod97_ok`: the remainder that ISO 7064 asks for.
use route_d.Prelude.{
  ℕ, ◌+◌, ◌*◌, ◌-◌, ◌/◌, ◌%◌, ◌<◌, ◌≡◌, Bool, false, inl, inr, Bool-cases, Option, some, none, List,
  [], ◌∷◌, ◌++◌, Text, ◌==◌, ◌&&◌, ◌||◌, if◌then◌else◌, ltb, leb, nat_ord, arith, ap, refl, sym,
  ◌∙◌, utf8_width, byte_len,
}
use mathlib.Core.Option
use route_d.Security.Pii.{
  iban_value, iban_step, iban_rem, continue_with, split_at, is_remainder_one, rearranged_ok,
  compact, iban_mod97_ok,
}

-- The decimal numeral of the standard: a digit is itself, a letter from `A` to `Z` is 10 to 35.
abbrev written_out : ℕ → List ℕ → List ℕ
written_out v ds = if leb 10 v then v / 10 ∷ v % 10 ∷ ds else v ∷ ds

abbrev with_value : Option ℕ → Option (List ℕ) → Option (List ℕ)
with_value none rest = none
with_value (some v) rest = Option.map (written_out v) rest

abbrev pub numeral : Text → Option (List ℕ)
numeral [] = some []
numeral (c ∷ s) = with_value (iban_value c) (numeral s)

-- The number that a decimal numeral writes.
abbrev pub decimal : ℕ → List ℕ → ℕ
decimal acc [] = acc
decimal acc (d ∷ ds) = decimal (acc * 10 + d) ds

abbrev remainder_of : ℕ → Option (List ℕ) → Option ℕ
remainder_of acc = Option.map λ ds. decimal acc ds % 97

-- What one character does to the exact number.
abbrev extended : ℕ → ℕ → ℕ
extended acc v = if leb 10 v then acc * 100 + v else acc * 10 + v

decimal-written_out :
    (acc v : ℕ) (ds : List ℕ) → decimal acc (written_out v ds) ≡ decimal (extended acc v) ds
decimal-written_out acc v ds = elim (Bool-cases (leb 10 v)) [
  | inl e ↦
      let same : (acc * 10 + v / 10) * 10 + v % 10 ≡ acc * 100 + v = omega arith in
      rw e (ap (λ n. decimal n ds) same)
  | inr e ↦ rw e refl
]

remainder_of-written_out :
    (acc v : ℕ) (o : Option (List ℕ))
    → remainder_of acc (Option.map (written_out v) o) ≡ remainder_of (extended acc v) o
remainder_of-written_out acc v none = refl
remainder_of-written_out acc v (some ds) =
    ap (λ (n : ℕ). some (n % 97)) (decimal-written_out acc v ds)

iban_step-extended : (acc v : ℕ) → iban_step (acc % 97) v ≡ extended acc v % 97
unfolding iban_step
iban_step-extended acc v = ground arith

-- One round of the loop, given that the rounds after it are right.
iban_rem-round :
    (o : Option ℕ) (acc : ℕ) (s : Text)
    → ((acc' : ℕ) → iban_rem (acc' % 97) s ≡ remainder_of acc' (numeral s))
    → continue_with o (λ v. iban_rem (iban_step (acc % 97) v) s)
      ≡ remainder_of acc (with_value o (numeral s))
unfolding continue_with
iban_rem-round none acc s later = refl
iban_rem-round (some v) acc s later =
    ap (λ r. iban_rem r s) (iban_step-extended acc v)
    ∙ later (extended acc v)
    ∙ sym (remainder_of-written_out acc v (numeral s))

-- The remainders that the loop keeps are those of the exact number.
iban_rem-exact : (acc : ℕ) (s : Text) → iban_rem (acc % 97) s ≡ remainder_of acc (numeral s)
unfolding iban_rem
iban_rem-exact acc [] = refl
iban_rem-exact acc (c ∷ s) = iban_rem-round (iban_value c) acc s λ acc'. iban_rem-exact acc' s

-- The number that the standard reads leaves the remainder one.
abbrev pub checks_out : Option (List ℕ) → Bool
checks_out none = false
checks_out (some ds) = decimal 0 ds % 97 == 1

is_remainder_one-exact : (o : Option (List ℕ)) → is_remainder_one (remainder_of 0 o) ≡ checks_out o
unfolding is_remainder_one
is_remainder_one-exact none = refl
is_remainder_one-exact (some ds) = refl

split_at-zero : (s : Text) → split_at 0 s ≡ some ([], s)
unfolding split_at
split_at-zero [] = refl
split_at-zero (c ∷ s) = refl

split_at-ascii :
    (n c : ℕ) (s front rest : Text)
    → c < 128
    → split_at n s ≡ some (front, rest)
    → split_at (1 + n) (c ∷ s) ≡ some (c ∷ front, rest)
unfolding split_at
split_at-ascii n c s front rest h e =
    let width : utf8_width c ≡ 1 = ground arith in
    let less : (1 + n) - 1 ≡ n = omega arith in rw (width, less, e) (ground arith)

split_at-four :
    (a b c d : ℕ) (s : Text)
    → a < 128
    → b < 128
    → c < 128
    → d < 128
    → split_at 4 (a ∷ b ∷ c ∷ d ∷ s) ≡ some (a ∷ b ∷ c ∷ d ∷ [], s)
split_at-four a b c d s ha hb hc hd = split_at-ascii 3 a _ _ _ ha (
    split_at-ascii 2 b _ _ _ hb
      (split_at-ascii 1 c _ _ _ hc (split_at-ascii 0 d s [] s hd (split_at-zero s))))

rearranged_ok-exact :
    (t start rest : Text)
    → split_at 4 t ≡ some (start, rest)
    → rearranged_ok (split_at 4 t) ≡ some (checks_out (numeral (rest ++ start)))
unfolding rearranged_ok
rearranged_ok-exact t start rest e =
    ap rearranged_ok e
    ∙ ap (λ o. some (is_remainder_one o)) (iban_rem-exact 0 (rest ++ start))
    ∙ ap some (is_remainder_one-exact (numeral (rest ++ start)))

in_length :
    (n : ℕ) (r : Option Bool) (b : Bool)
    → r ≡ some b
    → (if ltb n 15 || ltb 34 n then some false else r) ≡ some (leb 15 n && leb n 34 && b)
in_length n r b e = rw e (ground arith)

-- For a text whose first four characters without white space are ASCII, the answer is that the
-- length in bytes without white space is 15 to 34 and that the decimal numeral of the text with
-- those four at its end, each letter from `A` to `Z` written as 10 to 35, exists and leaves the
-- remainder one by 97. The remainders kept by the loop stand for that number however long it is.
pub iban_mod97_ok-decimal :
    (raw : Text) (a b c d : ℕ) (s : Text)
    → compact raw ≡ a ∷ b ∷ c ∷ d ∷ s
    → a < 128
    → b < 128
    → c < 128
    → d < 128
    → iban_mod97_ok raw
      ≡ some (
          leb 15 (byte_len (compact raw))
          && leb (byte_len (compact raw)) 34
          && checks_out (numeral (s ++ a ∷ b ∷ c ∷ d ∷ [])))
unfolding iban_mod97_ok
iban_mod97_ok-decimal raw a b c d s e ha hb hc hd =
    let parts = ap (split_at 4) e ∙ split_at-four a b c d s ha hb hc hd in
    in_length (byte_len (compact raw)) _ _
      (rearranged_ok-exact (compact raw) (a ∷ b ∷ c ∷ d ∷ []) s parts)

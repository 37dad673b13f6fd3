-- ===== src/Security/Pii.antt =====
-- crates/security/src/pii.rs: the checksums that keep numbers which only look like an IBAN, a
-- payment card or a German tax number from being reported. The regular expressions that offer the
-- texts are not modelled; a slice of a text at a byte where no character begins (a panic) gives
-- `none`.
pub mod Iban
pub mod Luhn
pub mod TaxId
use route_d.Prelude.{
  ℕ, ◌+◌, ◌-◌, ◌*◌, ◌%◌, Bool, true, false, not, Option, none, some, List, [], ◌∷◌, ◌++◌, Text,
  ◌==◌, ◌&&◌, ◌||◌, if◌then◌else◌, ltb, leb, nat_ord, is_whitespace, byte_len, filter, any,
  utf8_width,
}
use mathlib.Core.List.{reverse}

-- `c.to_digit(10)`
unfoldable pub to_digit : ℕ → Option ℕ
to_digit c = if leb 48 c && leb c 57 then some (c - 48) else none

abbrev pub push_some : Option ℕ → List ℕ → List ℕ
push_some none ds = ds
push_some (some d) ds = d ∷ ds

-- `raw.chars().filter_map(|c| c.to_digit(10)).collect()`
unfoldable pub digits : Text → List ℕ
digits [] = []
digits (c ∷ s) = push_some (to_digit c) (digits s)

unfoldable pub length : List ℕ → ℕ
length [] = 0
length (x ∷ xs) = 1 + length xs

-- What the digit at a position from the right adds.
unfoldable pub doubled : ℕ → ℕ → ℕ
doubled i d = let x = d * 2 in if i % 2 == 1 then if ltb 9 x then x - 9 else x else d

-- `enumerate().map(...).sum()`, from a position on
unfoldable pub sum_from : ℕ → List ℕ → ℕ
sum_from i [] = 0
sum_from i (d ∷ ds) = doubled i d + sum_from (1 + i) ds

unfoldable pub luhn_ok : Text → Bool
luhn_ok raw =
    let ds = digits raw in
    if ltb (length ds) 13 || ltb 19 (length ds) then false else sum_from 0 (reverse ds) % 10 == 0

-- The value of a character of an IBAN.
unfoldable pub iban_value : ℕ → Option ℕ
iban_value c =
    if leb 48 c && leb c 57
    then some (c - 48)
    else if leb 65 c && leb c 90
    then some ((c - 65) + 10)
    else none

unfoldable pub iban_step : ℕ → ℕ → ℕ
iban_step rem v = if leb 10 v then (rem * 100 + v) % 97 else (rem * 10 + v) % 97

unfoldable pub continue_with : Option ℕ → (ℕ → Option ℕ) → Option ℕ
continue_with none k = none
continue_with (some v) k = k v

-- The loop over the characters; `none` is its early return.
unfoldable pub iban_rem : ℕ → Text → Option ℕ
unfolding continue_with
iban_rem rem [] = some rem
iban_rem rem (c ∷ s) = continue_with (iban_value c) λ v. iban_rem (iban_step rem v) s

onto_left : ℕ → Option (Text × Text) → Option (Text × Text)
onto_left c none = none
onto_left c (some (s, t)) = some (c ∷ s, t)

-- `(&s[..n], &s[n..])`, at a position in bytes
unfoldable pub split_at : ℕ → Text → Option (Text × Text)
unfolding onto_left
split_at n [] = if n == 0 then some ([], []) else none
split_at n (c ∷ s) =
    let rest = split_at (n - utf8_width c) s in
    if n == 0 then some ([], c ∷ s) else if ltb n (utf8_width c) then none else onto_left c rest

unfoldable pub is_remainder_one : Option ℕ → Bool
is_remainder_one none = false
is_remainder_one (some rem) = rem == 1

unfoldable pub rearranged_ok : Option (Text × Text) → Option Bool
rearranged_ok none = none
rearranged_ok (some (start, rest)) = some (is_remainder_one (iban_rem 0 (rest ++ start)))

unfoldable pub compact : Text → Text
compact = filter λ c. not (is_whitespace c)

unfoldable pub iban_mod97_ok : Text → Option Bool
unfolding rearranged_ok
iban_mod97_ok raw =
    let s = compact raw in
    if ltb (byte_len s) 15 || ltb 34 (byte_len s) then some false else rearranged_ok (split_at 4 s)

-- `&d[..n]`
unfoldable pub front : ℕ → List ℕ → List ℕ
front n [] = []
front n (x ∷ xs) = let rest = front (n - 1) xs in if n == 0 then [] else x ∷ rest

-- `d[n]`, `none` out of range
unfoldable pub get_elem? : ℕ → List ℕ → Option ℕ
get_elem? n [] = none
get_elem? n (x ∷ xs) = let rest = get_elem? (n - 1) xs in if n == 0 then some x else rest

-- `counts[x] += 1`
unfoldable pub bump : ℕ → List ℕ → List ℕ
bump x [] = []
bump x (n ∷ ns) = let rest = bump (x - 1) ns in if x == 0 then (n + 1) ∷ ns else n ∷ rest

unfoldable pub count_digits : List ℕ → List ℕ → List ℕ
count_digits counts [] = counts
count_digits counts (x ∷ xs) = count_digits (bump x counts) xs

unfoldable pub counts_ok : List ℕ → Bool
counts_ok counts = any (λ c. c == 0) counts && not (any (λ c. ltb 3 c) counts)

-- One round of the loop over the first ten digits.
unfoldable pub tax_step : ℕ → ℕ → ℕ
tax_step product x = let sum = (x + product) % 10 in ((if sum == 0 then 10 else sum) * 2) % 11

unfoldable pub tax_product : ℕ → List ℕ → ℕ
tax_product product [] = product
tax_product product (x ∷ xs) = tax_product (tax_step product x) xs

-- `check == d[10]`, and `d[0] == 0`; the length has been checked, so neither is out of range
unfoldable pub matches_check : ℕ → Option ℕ → Bool
matches_check check none = false
matches_check check (some d) = check == d

unfoldable pub de_tax_id_ok : Text → Bool
de_tax_id_ok raw =
    let d = digits raw in
    if not (length d == 11) || matches_check 0 (get_elem? 0 d)
    then false
    else if not (counts_ok (count_digits (0 ∷ 0 ∷ 0 ∷ 0 ∷ 0 ∷ 0 ∷ 0 ∷ 0 ∷ 0 ∷ 0 ∷ []) (front 10 d)))
    then false
    else matches_check ((11 - tax_product 10 (front 10 d)) % 10) (get_elem? 10 d)

-- ===== src/Security/Headers/Reading.antt =====
-- The loop of `extract_headers` (crates/security/src/headers.rs), for one field of what it fills.
use route_d.Prelude.{
  ap, ◌≡◌, inl, inr, refl, sym, ◌∙◌, Option, none, some, List, [], ◌∷◌, ◌++◌, Text, text_ord, ◌==◌,
  nat_ord, if◌then◌else◌, Bool-cases, to_ascii_lowercase, eq_ignore_ascii_case, option_list,
}
use route_d.Security.Headers.{
  header_prefix, is_routed_header, Ignored, RequestHeaders, clean, key_of, honour, take_value,
  take_named, take_header, take_headers,
}
use route_d.Security.Headers.Names.{named-prefix, same_name, unprefixed}

-- the clean value of a header that has the name, but for case
abbrev pub offered : Text → Text × Text → Option Text
offered key (name, value) =
    if eq_ignore_ascii_case name (header_prefix ++ key) then clean value else none

-- the clean values of the headers that have the name, in their order
abbrev pub given : Text → List (Text × Text) → List Text
given key [] = []
given key (h ∷ hs) = option_list (offered key h) ++ given key hs

abbrev pub folded : {B : Type 0} → (B → Text → B) → B → List Text → B
folded step b [] = b
folded step b (v ∷ vs) = folded step (step b v) vs

folded-append :
    {B : Type 0} (step : B → Text → B) (b : B) (xs ys : List Text)
    → folded step b (xs ++ ys) ≡ folded step (folded step b xs) ys
folded-append step b [] ys = refl
folded-append step b (x ∷ xs) ys = folded-append step (step b x) xs ys

-- A field that only the headers of one name change, by `step`.
module _ {B : Type 0} (field : RequestHeaders → B) (n : Text) (step : B → Text → B)
    (lowered : to_ascii_lowercase (header_prefix ++ n) ≡ header_prefix ++ n)
    (ignores : (i : List Ignored) (out : RequestHeaders)
      → field (record out { ignored = i }) ≡ field out)
    (honours : (x v name : Text) (out : RequestHeaders)
      → field (honour (key_of x) v name out)
        ≡ (if x == n then step (field out) v else field out)) where
  field-take_value :
      (name key : Text) (o : Option Text) (out : RequestHeaders)
      → field (take_value name o key out)
        ≡ folded step (field out) (option_list (if to_ascii_lowercase key == n then o else none))
  unfolding take_value
  field-take_value name key none out = elim (Bool-cases (to_ascii_lowercase key == n)) [
    | inl b ↦ rw (b, if◌then◌else◌) (ignores _ out)
    | inr b ↦ rw (b, if◌then◌else◌) (ignores _ out)
  ]
  field-take_value name key (some v) out = elim (Bool-cases (to_ascii_lowercase key == n)) [
    | inl b ↦ honours (to_ascii_lowercase key) v name out ∙ rw (b, if◌then◌else◌) refl
    | inr b ↦ honours (to_ascii_lowercase key) v name out ∙ rw (b, if◌then◌else◌) refl
  ]

  field-take_header :
      (h : Text × Text) (out : RequestHeaders)
      → field (take_header h out) ≡ folded step (field out) (option_list (offered n h))
  unfolding take_header take_named
  field-take_header (name, value) out = elim (Bool-cases (is_routed_header name)) [
    | inr b ↦ rw (b, unprefixed n lowered name b, if◌then◌else◌) refl
    | inl b ↦
        let (key, g, l) = named-prefix name b in
        rw (b, g, same_name n lowered name key l, if◌then◌else◌)
          (field-take_value name key (clean value) out)
  ]

  pub field-take_headers :
      (hs : List (Text × Text)) (out : RequestHeaders)
      → field (take_headers hs out) ≡ folded step (field out) (given n hs)
  unfolding take_headers
  field-take_headers [] out = refl
  field-take_headers (h ∷ hs) out =
      field-take_headers hs (take_header h out)
      ∙ ap (λ b. folded step b (given n hs)) (field-take_header h out)
      ∙ sym (folded-append step (field out) (option_list (offered n h)) (given n hs))

-- ===== src/Security/Headers/Names.antt =====
-- Names of headers (crates/security/src/headers.rs): bytes and characters of a name with the prefix.
use route_d.Prelude.{
  ap, ◌≡◌, inl, inr, refl, ◌∙◌, ◌<◌, true, false, some, [], ◌∷◌, ◌++◌, map, Text, text_ord, ◌==◌,
  eq_refl, eq_of_==, nat_ord, Bool-cases, arith, All, lower, lower_width, get_from-cons,
  to_ascii_lowercase, eq_ignore_ascii_case, byte_len, get_from, cmp_text,
}
use route_d.Security.Headers.{header_prefix, begins_ignoring_case, is_routed_header}

get_from_zero : (s : Text) → get_from 0 s ≡ some s
unfolding get_from
get_from_zero [] = refl
get_from_zero (c ∷ s) = refl

begins-lower :
    (p name : Text)
    → All (λ c. c < 128) p
    → begins_ignoring_case p name ≡ true
    → (key : Text) × (get_from (byte_len p) name ≡ some key)
      × (to_ascii_lowercase name ≡ to_ascii_lowercase p ++ to_ascii_lowercase key)
unfolding begins_ignoring_case byte_len to_ascii_lowercase
begins-lower [] [] a h = ([], get_from_zero [], refl)
begins-lower [] (c ∷ cs) a h = (c ∷ cs, get_from_zero (c ∷ cs), refl)
begins-lower (p ∷ ps) [] a h = cc
begins-lower (p ∷ ps) (c ∷ cs) (lo, a) h =
    let same : lower p ≡ lower c = eq_of_== (lower p) (lower c) (ground arith) in
    let (key, g, l) = begins-lower ps cs a (ground arith) in
    (
      key,
      rw (lower_width p p lo refl) (get_from-cons (byte_len ps) c cs (lower_width p c lo same) ∙ g),
      ground arith,
    )

-- A header with the prefix, but for case, always has a rest of its name behind the bytes of the
-- prefix, so no name is malformed; and in lower case the name is the prefix and that rest.
pub named-prefix :
    (name : Text)
    → is_routed_header name ≡ true
    → (key : Text) × (get_from (byte_len header_prefix) name ≡ some key)
      × (to_ascii_lowercase name ≡ header_prefix ++ to_ascii_lowercase key)
unfolding is_routed_header lower to_ascii_lowercase
named-prefix name h =
    begins-lower header_prefix name
      (
        omega arith,
        (
          omega arith,
          (
            omega arith,
            (
              omega arith,
              (omega arith, (omega arith, (omega arith, (omega arith, (omega arith, tt))))),
            ),
          ),
        ),
      )
      h

prefix-begins :
    (p name rest : Text)
    → to_ascii_lowercase name ≡ to_ascii_lowercase p ++ rest
    → begins_ignoring_case p name ≡ true
unfolding begins_ignoring_case to_ascii_lowercase
prefix-begins [] name rest e = refl
prefix-begins (p ∷ ps) [] rest e = cc
prefix-begins (p ∷ ps) (c ∷ cs) rest e =
    let here : lower p ≡ lower c = ground arith in
    let there : map lower cs ≡ map lower ps ++ rest = ground arith in
    ground (arith, eq_refl (lower c), prefix-begins ps cs rest there)

lower_prefix : (s : Text) → header_prefix ++ s ≡ to_ascii_lowercase header_prefix ++ s
unfolding to_ascii_lowercase lower
lower_prefix s = refl

-- A name with the prefix is the one with `n` behind it exactly if the rest of it is `n`, for an
-- `n` in lower case.
module _ (n : Text) (lowered : to_ascii_lowercase (header_prefix ++ n) ≡ header_prefix ++ n) where
  pub same_name :
      (name key : Text)
      → to_ascii_lowercase name ≡ header_prefix ++ to_ascii_lowercase key
      → eq_ignore_ascii_case name (header_prefix ++ n) ≡ (to_ascii_lowercase key == n)
  unfolding eq_ignore_ascii_case cmp_text
  same_name name key e =
      ap (λ x. x == to_ascii_lowercase (header_prefix ++ n)) e
      ∙ ap (λ y. (header_prefix ++ to_ascii_lowercase key) == y) lowered

  pub unprefixed :
      (name : Text)
      → is_routed_header name ≡ false
      → eq_ignore_ascii_case name (header_prefix ++ n) ≡ false
  unfolding eq_ignore_ascii_case is_routed_header
  unprefixed name h = elim (Bool-cases (eq_ignore_ascii_case name (header_prefix ++ n))) [
    | inr b ↦ b
    | inl b ↦
        let same = eq_of_== (to_ascii_lowercase name) _ b ∙ lowered in
        absurd (cc (prefix-begins header_prefix name n (same ∙ lower_prefix n)))
  ]

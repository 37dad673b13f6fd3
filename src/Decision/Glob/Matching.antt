-- ===== src/Decision/Glob/Matching.antt =====
-- What the patterns of crates/decision/src/lib.rs match, independently of the order of its tests.
use route_d.Prelude.{
  ℕ, ◌≡◌, ◌↔◌, ◌⊎◌, inl, inr, refl, sym, subst, true, Option, none, List, [], ◌∷◌, ◌++◌, Text, text,
  text_ord, ◌==◌, eq_refl, eq_of_==, arith, if◌then◌else◌, Bool-cases, Option-cases, strip_suffix,
  strip_suffix_sound, strip_suffix_complete, strip_prefix, strip_prefix_sound,
  strip_prefix_complete, Any-map, starts_with_sound, starts_with_complete, ends_with_sound,
  ends_with_complete, Any, any_sound, any_complete, is_empty, unwrap_or,
}
use route_d.Decision.Glob.{glob_match, glob_match_affix, list_matches}

abbrev star : ℕ
star = b'*'

-- A pattern that ends in a star matches what begins with the rest of it, also if it begins with
-- one; any other pattern that begins with a star matches what ends with the rest of it; and a
-- pattern with no star at either end matches itself alone.
pub data Globs : Text → Text → Type 0 where
  prefix : (pre rest : Text) → Globs (pre ++ star ∷ []) (pre ++ rest)
  suffix :
      (suf rest : Text) (p : Text)
      → p ≡ star ∷ suf
      → strip_suffix star p ≡ none
      → Globs p (rest ++ suf)
  exact : (p : Text) → strip_suffix star p ≡ none → strip_prefix star p ≡ none → Globs p p

Globs-at : (p v q w : Text) → p ≡ q → v ≡ w → Globs q w → Globs p v
Globs-at p v q w e f g = subst (λ x. Globs x v) (sym e) (subst (Globs q) (sym f) g)

affix_sound : (p v : Text) → glob_match_affix p v ≡ true → Globs p v
unfolding glob_match_affix
affix_sound p v h = elim (Option-cases (strip_suffix star p)) [
  | inr (pre, e) ↦
      let (r, q) = starts_with_sound v pre (ground arith) in
      Globs-at p v _ _ (strip_suffix_sound star p pre e) q (prefix pre r)
  | inl e ↦ elim (Option-cases (strip_prefix star p)) [
    | inr (suf, g) ↦
        let (r, q) = ends_with_sound v suf (ground arith) in
        Globs-at p v p _ refl q (suffix suf r p (strip_prefix_sound star p suf g) e)
    | inl g ↦ Globs-at p v p p refl (sym (eq_of_== p v (ground arith))) (exact p e g)
  ]
]

glob_sound : (p v : Text) → glob_match p v ≡ true → Globs p v
unfolding glob_match
glob_sound p v h = elim (Bool-cases (p == text "*")) [
  | inl e ↦ Globs-at p v _ _ (eq_of_== p (text "*") e) refl (prefix [] v)
  | inr e ↦ affix_sound p v (rw (e, if◌then◌else◌) at h)
]

glob_complete : {p v : Text} → Globs p v → glob_match p v ≡ true
unfolding glob_match glob_match_affix
glob_complete (prefix pre rest) =
    ground (arith, strip_suffix_complete star pre, starts_with_complete pre rest)
glob_complete (suffix suf rest p e n) =
    ground (arith, strip_prefix_complete star suf, ends_with_complete rest suf)
glob_complete (exact p n m) = ground (arith, eq_refl p)

-- A pattern matches a value exactly when the relation `Globs` holds: it ends in a star and the
-- value begins with the rest of it; or it only begins with a star and the value ends with the
-- rest; or it has a star at neither end and is the value.
pub glob_match_iff : (p v : Text) → (glob_match p v ≡ true) ↔ Globs p v
glob_match_iff p v = (glob_sound p v, glob_complete)

-- A scope list lets a value pass exactly when it is empty or one of its patterns matches the
-- value, where an absent value is the empty text.
pub list_matches_iff :
    (ps : List Text) (v : Option Text)
    → (list_matches ps v ≡ true) ↔ ((ps ≡ []) ⊎ Any (λ p. Globs p (unwrap_or v [])) ps)
unfolding list_matches is_empty
list_matches_iff [] v = (λ _. inl refl, λ _. refl)
list_matches_iff (p ∷ ps) v = (
  λ h. inr (Any-map _ _ (p ∷ ps) (λ q. glob_sound q (unwrap_or v [])) (any_sound _ (p ∷ ps) h)),
  λ h. any_complete _ (p ∷ ps) (matched h),
)
  where
    matched :
        ((p ∷ ps ≡ []) ⊎ Any (λ q. Globs q (unwrap_or v [])) (p ∷ ps))
        → Any (λ q. glob_match q (unwrap_or v []) ≡ true) (p ∷ ps)
    matched (inl e) = absurd (cc)
    matched (inr m) = Any-map _ _ (p ∷ ps) (λ q g. glob_complete g) m

-- ===== src/Decision/Glob.antt =====
-- crates/decision/src/lib.rs: patterns of names. The child proves what a pattern matches.
pub mod Matching
use route_d.Prelude.{
  Bool, true, ◌≡◌, refl, Option, none, some, List, Text, text, text_ord, ◌==◌, if◌then◌else◌,
  unwrap_or, strip_suffix, strip_prefix, starts_with, ends_with, any, is_empty, [], ◌∷◌, ◌||◌,
  false,
}

-- the tests behind the first one, `pattern == "*"`
glob_match_affix : Text → Text → Bool
glob_match_affix pattern value = elim (strip_suffix b'*' pattern) [
  | some prefix ↦ starts_with value prefix
  | none ↦ elim (strip_prefix b'*' pattern) [
    | some suffix ↦ ends_with value suffix
    | none ↦ pattern == value
  ]
]

unfoldable pub glob_match : Text → Text → Bool
unfolding glob_match_affix
glob_match pattern value = if pattern == text "*" then true else glob_match_affix pattern value

unfoldable pub list_matches : List Text → Option Text → Bool
list_matches patterns value =
    if is_empty patterns
    then true
    else (let v = unwrap_or value [] in any (λ p. glob_match p v) patterns)

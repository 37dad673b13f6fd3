-- ===== src/Inline/Paths.antt =====
-- crates/ingress-inline/src/handlers.rs: the paths that are decided, forwarded and refused.
pub mod Splitting
pub mod Normal
use mathlib.Core.Option
use route_d.Prelude.{
  ℕ, Bool, true, false, not, Option, none, some, List, [], ◌∷◌, ◌++◌, Text, text, text_ord, ◌==◌,
  ◌||◌, if◌then◌else◌, is_empty, any, filter, contains, split, starts_with, to_ascii_lowercase,
}

-- `s.contains(pattern)`
unfoldable pub contains_text : Text → Text → Bool
contains_text [] pattern = starts_with [] pattern
contains_text (c ∷ s) pattern = starts_with (c ∷ s) pattern || contains_text s pattern

abbrev pub is_dots : Text → Bool
is_dots seg = seg == text "." || seg == text ".."

-- the loop over the segments; `none` is its early return
unfoldable pub push_segments : List Text → Text → Option Text
push_segments [] out = some out
push_segments (seg ∷ segs) out =
    let rest = push_segments segs (out ++ 47 ∷ seg) in if is_dots seg then none else rest

unfoldable pub or_root : Text → Text
or_root out = if is_empty out then out ++ 47 ∷ [] else out

-- `raw.split('/').filter(|s| !s.is_empty())`
abbrev pub segments : Text → List Text
segments raw = filter (λ s. not (is_empty s)) (split 47 raw)

-- what hides a dot or a separator: "%2f", "%2e" and the backslash
abbrev pub hidden : List Text
hidden = text "%2f" ∷ text "%2e" ∷ (92 ∷ []) ∷ []

unfoldable pub hides : Text → Bool
hides raw = let lower = to_ascii_lowercase raw in any (contains_text lower) hidden

unfoldable pub normalize_path : Text → Option Text
normalize_path raw =
    if hides raw then none else Option.map or_root (push_segments (segments raw) [])

unfoldable pub passthrough_allowed : Text → Bool → Bool
passthrough_allowed path allow_all =
    allow_all || path == text "/v1" || starts_with path (text "/v1/")

abbrev pub routed_paths : List Text
routed_paths =
    text "/v1/chat/completions"
    ∷ text "/v1/completions"
    ∷ text "/v1/embeddings"
    ∷ text "/v1/messages"
    ∷ text "/v1/responses"
    ∷ []

abbrev pub is_routed_path : Text → Bool
is_routed_path = contains routed_paths

-- ===== src/Inline/Paths/Normal.antt =====
-- crates/ingress-inline/src/handlers.rs, `normalize_path`: what a normal path is.
use mathlib.Core.Option
use route_d.Prelude.{
  ℕ, ◌≡◌, ◌⊎◌, inl, inr, refl, sym, ap, ◌∙◌, subst, Bool, true, false, not, some, List, [], ◌∷◌,
  ◌++◌, Text, text, text_ord, nat_ord, if◌then◌else◌, is_empty, any, filter, All, arith, Bool-cases,
  split, to_ascii_lowercase,
}
use mathlib.Core.List.{append_assoc, append-nil}
use route_d.Inline.Paths.Splitting.{
  Solid, split-Solid, joined, split-joined, contains_text-segments,
}
use route_d.Inline.Paths.{
  contains_text, is_dots, push_segments, or_root, segments, hides, normalize_path,
}

push_segments-joined :
    (segs : List Text) (out p : Text)
    → push_segments segs out ≡ some p
    → (p ≡ out ++ joined segs) × All (λ s. is_dots s ≡ false) segs
unfolding push_segments
push_segments-joined [] out p h = (ground (arith, append-nil out), tt)
push_segments-joined (s ∷ ss) out p h = elim (Bool-cases (is_dots s)) [
  | inl d ↦ absurd (cc (rw d at h))
  | inr d ↦
      let (e, rest) = push_segments-joined ss (out ++ 47 ∷ s) p (rw d at h) in
      (e ∙ append_assoc out (47 ∷ s) (joined ss), (d, rest))
]

push_segments-joined_complete :
    (segs : List Text) (out : Text)
    → All (λ s. is_dots s ≡ false) segs
    → push_segments segs out ≡ some (out ++ joined segs)
unfolding push_segments
push_segments-joined_complete [] out h = ap some (sym (append-nil out))
push_segments-joined_complete (s ∷ ss) out (d, h) =
    rw (d, if◌then◌else◌)
      (push_segments-joined_complete ss (out ++ 47 ∷ s) h
        ∙ ap some (append_assoc out (47 ∷ s) (joined ss)))

filter-all : (p : Text → Bool) (xs : List Text) → All (λ x. p x ≡ true) xs → filter p xs ≡ xs
unfolding filter
filter-all p [] h = refl
filter-all p (x ∷ xs) (e, h) = rw (e, if◌then◌else◌) (ap (◌∷◌ x) (filter-all p xs h))

filter-holds : (p : Text → Bool) (xs : List Text) → All (λ x. p x ≡ true) (filter p xs)
unfolding filter
filter-holds p [] = tt
filter-holds p (x ∷ xs) = elim (Bool-cases (p x)) [
  | inl e ↦ rw (e, if◌then◌else◌) (e, filter-holds p xs)
  | inr e ↦ rw (e, if◌then◌else◌) (filter-holds p xs)
]

filter-All : (P : Text → Type 0) (p : Text → Bool) (xs : List Text) → All P xs → All P (filter p xs)
unfolding filter
filter-All P p [] h = tt
filter-All P p (x ∷ xs) (a, h) = elim (Bool-cases (p x)) [
  | inl e ↦ rw (e, if◌then◌else◌) (a, filter-All P p xs h)
  | inr e ↦ rw (e, if◌then◌else◌) (filter-All P p xs h)
]

-- The path that these segments give, and how it is split again.
abbrev NonEmpty : Text → Type 0
NonEmpty s = not (is_empty s) ≡ true

split-or_root :
    (segs : List Text)
    → All Solid segs
    → All NonEmpty segs
    → (segments (or_root (joined segs)) ≡ segs)
      × ((or_root (joined segs) ≡ text "/") ⊎ (split 47 (or_root (joined segs)) ≡ [] ∷ segs))
unfolding or_root is_empty split filter
split-or_root [] h n = (refl, inl refl)
split-or_root (s ∷ ss) h n = (
  ap (filter (λ t. not (is_empty t))) (split-joined s ss h)
      ∙ filter-all (λ t. not (is_empty t)) (s ∷ ss) n,
  inr (split-joined s ss h),
)

-- `p` is the normal form of the path `raw`.
pub record IsNormalOf (raw p : Text) : Type 0 where
  pub same : segments p ≡ segments raw
  pub plain : All (λ s. is_dots s ≡ false) (segments p)
  pub shown : hides p ≡ false
  pub shape : (p ≡ text "/") ⊎ (split 47 p ≡ [] ∷ segments raw)
  pub stable : normalize_path p ≡ some p

found-segments :
    (b : ℕ) (q x y : Text)
    → Solid (b ∷ q)
    → segments x ≡ segments y
    → contains_text (to_ascii_lowercase x) (b ∷ q) ≡ contains_text (to_ascii_lowercase y) (b ∷ q)
found-segments b q x y h e =
    contains_text-segments b q x h
    ∙ ap (any (λ t. contains_text (to_ascii_lowercase t) (b ∷ q))) e
    ∙ sym (contains_text-segments b q y h)

hides-segments : (x y : Text) → segments x ≡ segments y → hides x ≡ hides y
unfolding hides any
hides-segments x y e =
    rw
      (
        found-segments 37 (50 ∷ 102 ∷ []) x y (refl, (refl, (refl, tt))) e,
        found-segments 37 (50 ∷ 101 ∷ []) x y (refl, (refl, (refl, tt))) e,
        found-segments 92 [] x y (refl, tt) e,
      )
      refl

-- A path that is accepted is brought into its normal form: the same segments, none of them a dot
-- segment, nothing encoded that hides a separator or a dot, one slash before each segment and none
-- behind, and it is its own normal form.
pub normalize_path-IsNormalOf : (raw p : Text) → normalize_path raw ≡ some p → IsNormalOf raw p
unfolding normalize_path
normalize_path-IsNormalOf raw p h = elim (Bool-cases (hides raw)) [
  | inl e ↦ absurd (cc (rw e at h))
  | inr e ↦
      let (q, pushed, rooted) = (Option.map-eq-some_iff _ _).0 (rw (e, if◌then◌else◌) at h) in
      let (whole, plain) = push_segments-joined (segments raw) [] q pushed in
      let solid = filter-All Solid (λ t. not (is_empty t)) (split 47 raw) (split-Solid raw) in
      let full = filter-holds (λ t. not (is_empty t)) (split 47 raw) in
      let (same, shape) = split-or_root (segments raw) solid full in
      let made : or_root (joined (segments raw)) ≡ p = ap or_root (sym whole) ∙ rooted in
      let same' : segments p ≡ segments raw = subst (λ x. segments x ≡ segments raw) made same in
      let shown : hides p ≡ false = hides-segments p raw same' ∙ e in
      record {
        same = same';
        plain = subst (All (λ s. is_dots s ≡ false)) (sym same') plain;
        shown = shown;
        shape = subst (λ x. (x ≡ text "/") ⊎ (split 47 x ≡ [] ∷ segments raw)) made shape;
        stable =
            rw (shown, if◌then◌else◌)
              (ap (λ ss. Option.map or_root (push_segments ss [])) same'
                ∙ ap (Option.map or_root) (push_segments-joined_complete (segments raw) [] plain)
                ∙ ap some made);
      }
]

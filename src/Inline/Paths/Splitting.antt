-- ===== src/Inline/Paths/Splitting.antt =====
-- crates/ingress-inline/src/handlers.rs: the segments of a path, and what is found within them.
use route_d.Prelude.{
  ℕ, ◌≡◌, inl, inr, refl, sym, ap, ◌∙◌, ◌&&◌, false, not, ◌||◌, List, [], ◌∷◌, ◌++◌, map, Text,
  nat_ord, ◌==◌, if◌then◌else◌, is_empty, any, filter, All, arith, Bool-cases, split, onto_first,
  starts_with, to_ascii_lowercase, lower,
}
use mathlib.Core.List.{append-nil}
use route_d.Inline.Paths.{contains_text, segments}

-- A text without a slash.
abbrev pub Solid : Text → Type 0
Solid = All λ c. (c == 47) ≡ false

onto_first-Solid :
    (c : ℕ) (parts : List Text)
    → (c == 47) ≡ false
    → All Solid parts
    → All Solid (onto_first c parts)
onto_first-Solid c [] h a = ((h, tt), tt)
onto_first-Solid c (p ∷ ps) h (a, b) = ((h, a), b)

pub split-Solid : (s : Text) → All Solid (split 47 s)
unfolding split
split-Solid [] = (tt, tt)
split-Solid (c ∷ s) = elim (Bool-cases (c == 47)) [
  | inl e ↦ rw (e, if◌then◌else◌) (tt, split-Solid s)
  | inr e ↦ rw (e, if◌then◌else◌) (onto_first-Solid c (split 47 s) e (split-Solid s))
]

split-alone : (s : Text) → Solid s → split 47 s ≡ s ∷ []
unfolding split
split-alone [] h = refl
split-alone (c ∷ s) (e, h) = rw (split-alone s h, e) refl

split-ahead : (s rest : Text) → Solid s → split 47 (s ++ 47 ∷ rest) ≡ s ∷ split 47 rest
unfolding split
split-ahead [] rest h = refl
split-ahead (c ∷ s) rest (e, h) = rw (split-ahead s rest h, e) refl

-- The path with these segments.
abbrev pub joined : List Text → Text
joined [] = []
joined (s ∷ ss) = 47 ∷ s ++ joined ss

split-after :
    (s : Text) (ss : List Text) → Solid s → All Solid ss → split 47 (s ++ joined ss) ≡ s ∷ ss
split-after s [] h a = ap (split 47) (append-nil s) ∙ split-alone s h
split-after s (t ∷ ss) h (b, a) =
    split-ahead s (t ++ joined ss) h ∙ ap (◌∷◌ s) (split-after t ss b a)

pub split-joined :
    (s : Text) (ss : List Text) → All Solid (s ∷ ss) → split 47 (joined (s ∷ ss)) ≡ [] ∷ s ∷ ss
unfolding split
split-joined s ss (h, a) = ap (◌∷◌ []) (split-after s ss h a)

first_part : List Text → Text
first_part [] = []
first_part (t ∷ ts) = t

first_part-onto_first :
    (c : ℕ) (parts : List Text) → first_part (onto_first c parts) ≡ c ∷ first_part parts
unfolding first_part
first_part-onto_first c [] = refl
first_part-onto_first c (t ∷ ts) = refl

-- A text without a slash that a text begins with stands in the first part.
starts_with-first_part :
    (p s : Text) → Solid p → starts_with s p ≡ starts_with (first_part (split 47 s)) p
unfolding starts_with split first_part
starts_with-first_part [] s h = refl
starts_with-first_part (b ∷ p) [] h = refl
starts_with-first_part (b ∷ p) (c ∷ s) (e, h) = elim (Bool-cases (c == 47)) [
  | inl slash ↦
      let differ : (c == b) ≡ false = ground arith in rw (slash, differ, if◌then◌else◌) refl
  | inr other ↦
      rw (other, if◌then◌else◌, first_part-onto_first c (split 47 s))
        (ap (λ x. (c == b) && x) (starts_with-first_part p s h))
]

any-onto_first :
    (b : ℕ) (p : Text) (c : ℕ) (parts : List Text)
    → any (λ t. contains_text t (b ∷ p)) (onto_first c parts)
      ≡ (starts_with (c ∷ first_part parts) (b ∷ p) || any (λ t. contains_text t (b ∷ p)) parts)
unfolding any contains_text first_part starts_with
any-onto_first b p c [] = ground arith
any-onto_first b p c (t ∷ ts) = ground arith

-- A text without a slash is found in a text exactly if it is found in one of its parts.
pub contains_text-split :
    (b : ℕ) (p s : Text)
    → Solid (b ∷ p)
    → contains_text s (b ∷ p) ≡ any (λ t. contains_text t (b ∷ p)) (split 47 s)
unfolding contains_text any split first_part
contains_text-split b p [] h = ground arith
contains_text-split b p (c ∷ s) h =
    let rest = contains_text-split b p s h in
    elim (Bool-cases (c == 47)) [
      | inl e ↦
          let first : starts_with (c ∷ s) (b ∷ p) ≡ starts_with [] (b ∷ p) =
            rw (e, if◌then◌else◌) at (starts_with-first_part (b ∷ p) (c ∷ s) h) in
          rw (e, first, rest) refl
      | inr e ↦
          let first : starts_with (c ∷ s) (b ∷ p)
              ≡ starts_with (first_part (onto_first c (split 47 s))) (b ∷ p) =
            rw (e, if◌then◌else◌) at (starts_with-first_part (b ∷ p) (c ∷ s) h) in
          rw (e, first, rest, first_part-onto_first c (split 47 s))
            (sym (any-onto_first b p c (split 47 s)))
    ]

map-onto_first :
    (g : ℕ → ℕ) (c : ℕ) (parts : List Text)
    → onto_first (g c) (map (map g) parts) ≡ map (map g) (onto_first c parts)
map-onto_first g c [] = refl
map-onto_first g c (t ∷ ts) = refl

lower-slash : (c : ℕ) → (lower c == 47) ≡ (c == 47)
unfolding lower
lower-slash c = ground arith

pub split-to_ascii_lowercase :
    (s : Text) → split 47 (to_ascii_lowercase s) ≡ map to_ascii_lowercase (split 47 s)
unfolding split to_ascii_lowercase
split-to_ascii_lowercase [] = refl
split-to_ascii_lowercase (c ∷ s) = elim (Bool-cases (c == 47)) [
  | inl e ↦ rw (lower-slash c, e, if◌then◌else◌) (ap (◌∷◌ []) (split-to_ascii_lowercase s))
  | inr e ↦
      rw (lower-slash c, e, if◌then◌else◌)
        (ap (onto_first (lower c)) (split-to_ascii_lowercase s)
          ∙ map-onto_first lower c (split 47 s))
]

any-non_empty :
    (b : ℕ) (p : Text) (ts : List Text)
    → any (λ t. contains_text t (b ∷ p)) (map to_ascii_lowercase ts)
      ≡ any (λ t. contains_text (to_ascii_lowercase t) (b ∷ p)) (filter (λ t. not (is_empty t)) ts)
unfolding any filter is_empty contains_text starts_with to_ascii_lowercase
any-non_empty b p [] = refl
any-non_empty b p ([] ∷ ts) = any-non_empty b p ts
any-non_empty b p ((c ∷ t) ∷ ts) =
    ap (λ x. contains_text (to_ascii_lowercase (c ∷ t)) (b ∷ p) || x) (any-non_empty b p ts)

-- A text without a slash hides in a path exactly if it hides in one of its segments.
pub contains_text-segments :
    (b : ℕ) (p s : Text)
    → Solid (b ∷ p)
    → contains_text (to_ascii_lowercase s) (b ∷ p)
      ≡ any (λ t. contains_text (to_ascii_lowercase t) (b ∷ p)) (segments s)
contains_text-segments b p s h =
    contains_text-split b p (to_ascii_lowercase s) h
    ∙ ap (any (λ t. contains_text t (b ∷ p))) (split-to_ascii_lowercase s)
    ∙ any-non_empty b p (split 47 s)

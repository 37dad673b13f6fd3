-- ===== src/Prelude/Strings.antt =====
-- `str` and `String` as lists of code points. The functions are those of Rust's standard library
-- that the program calls; Rust's order of texts, by bytes of UTF-8, is the order by code points.
use Prim.Native.Nat.{ℕ, compare, Ordering}
use Prim.Native.Char.{code}
use Prim.Native.String.{String}
use mathlib.Core.Path.{◌≡◌, refl, ap}
use mathlib.Core.Logic.{inl, inr}
use mathlib.Core.Bool.{Bool, true, false, ◌&&◌, ◌||◌}
use mathlib.Core.Option
use mathlib.Core.Option.{Option, none, some}
use mathlib.Core.List.{List, [], ◌∷◌, ◌++◌}
use native.Mathlib.Omega.{arith}
use route_d.Prelude.Tests.{if◌then◌else◌, Bool-cases}
use route_d.Prelude.Order.{Ord, ◌==◌, is_gt, is_eq, then_cmp, eq_refl, eq_of_==, nat_ord}

abbrev pub Text : Type 0
Text = List ℕ

abbrev pub text : String → Text
text String.[] = []
text (String.◌∷◌ c s) = code c ∷ text s

unfoldable pub cmp_text : Text → Text → Ordering
cmp_text [] [] = Ordering.eq
cmp_text [] (b ∷ t) = Ordering.lt
cmp_text (a ∷ s) [] = Ordering.gt
cmp_text (a ∷ s) (b ∷ t) = then_cmp (compare a b) (cmp_text s t)

pub cmp_text_eq : (s t : Text) → cmp_text s t ≡ Ordering.eq → s ≡ t
unfolding cmp_text
cmp_text_eq [] [] h = refl
cmp_text_eq [] (b ∷ t) h = cc
cmp_text_eq (a ∷ s) [] h = cc
cmp_text_eq (a ∷ s) (b ∷ t) h = ground (arith, cmp_text_eq s t)

pub cmp_text_refl : (s : Text) → cmp_text s s ≡ Ordering.eq
unfolding cmp_text
cmp_text_refl [] = refl
cmp_text_refl (a ∷ s) = ground (arith, cmp_text_refl s)

instance abbrev pub text_ord : Ord Text
text_ord = record { cmp = cmp_text; cmp_eq = cmp_text_eq; cmp_refl = cmp_text_refl }

-- `value.starts_with(prefix)`
unfoldable pub starts_with : Text → Text → Bool
starts_with value [] = true
starts_with [] (b ∷ p) = false
starts_with (a ∷ v) (b ∷ p) = a == b && starts_with v p

-- `value.ends_with(suffix)`
unfoldable pub ends_with : Text → Text → Bool
ends_with [] suffix = [] == suffix
ends_with (a ∷ v) suffix = (a ∷ v) == suffix || ends_with v suffix

-- `s.strip_prefix(c)` and `s.strip_suffix(c)` for a character
unfoldable pub strip_prefix : ℕ → Text → Option Text
strip_prefix c [] = none
strip_prefix c (a ∷ s) = if a == c then some s else none

unfoldable pub strip_suffix : ℕ → Text → Option Text
strip_suffix c [] = none
strip_suffix c (a ∷ []) = if a == c then some [] else none
strip_suffix c (a ∷ b ∷ s) = Option.map (◌∷◌ a) (strip_suffix c (b ∷ s))

pub starts_with_sound : (v p : Text) → starts_with v p ≡ true → (r : Text) × (v ≡ p ++ r)
unfolding starts_with
starts_with_sound v [] h = (v, refl)
starts_with_sound [] (b ∷ p) h = cc
starts_with_sound (a ∷ v) (b ∷ p) h =
    let (r, e) = starts_with_sound v p (ground arith) in (r, ground arith)

pub starts_with_complete : (p r : Text) → starts_with (p ++ r) p ≡ true
unfolding starts_with
starts_with_complete [] r = refl
starts_with_complete (a ∷ p) r = ground (arith, starts_with_complete p r)

pub ends_with_sound : (v s : Text) → ends_with v s ≡ true → (r : Text) × (v ≡ r ++ s)
unfolding ends_with
ends_with_sound [] s h = ([], eq_of_== [] s h)
ends_with_sound (a ∷ v) s h = elim (Bool-cases ((a ∷ v) == s)) [
  | inl e ↦ ([], eq_of_== (a ∷ v) s e)
  | inr e ↦ let (r, q) = ends_with_sound v s (rw e at h) in (a ∷ r, ap (◌∷◌ a) q)
]

pub ends_with_complete : (r s : Text) → ends_with (r ++ s) s ≡ true
unfolding ends_with
ends_with_complete [] [] = rw (eq_refl {A = Text} [])
ends_with_complete [] (a ∷ s) = rw (eq_refl {A = Text} (a ∷ s))
ends_with_complete (a ∷ r) s = ground (arith, ends_with_complete r s)

pub strip_suffix_sound : (c : ℕ) (s p : Text) → strip_suffix c s ≡ some p → s ≡ p ++ c ∷ []
unfolding strip_suffix
strip_suffix_sound c [] p h = cc
strip_suffix_sound c (a ∷ []) p h = ground arith
strip_suffix_sound c (a ∷ b ∷ s) p h =
    let (q, e, f) = (Option.map-eq-some_iff _ _).0 h in
    rw (← f) (ap (◌∷◌ a) (strip_suffix_sound c (b ∷ s) q e))

pub strip_suffix_complete : (c : ℕ) (p : Text) → strip_suffix c (p ++ c ∷ []) ≡ some p
unfolding strip_suffix
strip_suffix_complete c [] = ground arith
strip_suffix_complete c (a ∷ []) = ground arith
strip_suffix_complete c (a ∷ b ∷ p) = rw (strip_suffix_complete c (b ∷ p))

pub strip_prefix_sound : (c : ℕ) (s r : Text) → strip_prefix c s ≡ some r → s ≡ c ∷ r
unfolding strip_prefix
strip_prefix_sound c [] r h = cc
strip_prefix_sound c (a ∷ s) r h = ground arith

pub strip_prefix_complete : (c : ℕ) (s : Text) → strip_prefix c (c ∷ s) ≡ some s
unfolding strip_prefix
strip_prefix_complete c s = ground arith

pub cmp_text_flip : (s t : Text) → is_gt (cmp_text s t) ≡ true → is_gt (cmp_text t s) ≡ false
unfolding cmp_text
cmp_text_flip [] [] h = refl
cmp_text_flip [] (b ∷ t) h = cc
cmp_text_flip (a ∷ s) [] h = refl
cmp_text_flip (a ∷ s) (b ∷ t) h = ground (arith, cmp_text_flip s t)

pub cmp_text_trans :
    (s t u : Text)
    → is_gt (cmp_text s t) ≡ false
    → is_gt (cmp_text t u) ≡ false
    → is_gt (cmp_text s u) ≡ false
unfolding cmp_text
cmp_text_trans [] t [] h k = refl
cmp_text_trans [] t (c ∷ u) h k = refl
cmp_text_trans (a ∷ s) [] u h k = cc
cmp_text_trans (a ∷ s) (b ∷ t) [] h k = cc
cmp_text_trans (a ∷ s) (b ∷ t) (c ∷ u) h k = ground (arith, cmp_text_trans s t u)

pub cmp_text_lt :
    (s t : Text) → is_gt (cmp_text s t) ≡ false → (s == t) ≡ false → cmp_text s t ≡ Ordering.lt
cmp_text_lt s t h n = strict (cmp_text s t) h n
  where
    strict : (o : Ordering) → is_gt o ≡ false → is_eq o ≡ false → o ≡ Ordering.lt
    strict Ordering.lt h n = refl
    strict Ordering.eq h n = cc
    strict Ordering.gt h n = cc

pub cmp_text_lt_trans :
    (s t u : Text)
    → cmp_text s t ≡ Ordering.lt
    → cmp_text t u ≡ Ordering.lt
    → cmp_text s u ≡ Ordering.lt
unfolding cmp_text
cmp_text_lt_trans [] [] u h k = cc
cmp_text_lt_trans [] (b ∷ t) [] h k = cc
cmp_text_lt_trans [] (b ∷ t) (c ∷ u) h k = refl
cmp_text_lt_trans (a ∷ s) [] u h k = cc
cmp_text_lt_trans (a ∷ s) (b ∷ t) [] h k = cc
cmp_text_lt_trans (a ∷ s) (b ∷ t) (c ∷ u) h k = ground (arith, cmp_text_lt_trans s t u)

-- ===== src/Prelude/Sets.antt =====
-- Facts about sets, for the tests by which the program compares them.
use mathlib.Core.Path.{◌≡◌, refl}
use mathlib.Core.Logic.{◌⊎◌, inl, inr}
use mathlib.Core.Bool.{true, false, not, ◌&&◌}
use mathlib.Core.List.{List, [], ◌∷◌}
use native.Mathlib.Omega.{arith}
use route_d.Prelude.Tests.{Bool-cases}
use route_d.Prelude.Order.{Ord}
use route_d.Prelude.Lists.{
  All, All-map, Elem, any, all, all_sound, all_complete, contains, contains_sound,
  contains_complete, is_empty,
}

module _ {A : Type 0} ⦃o : Ord A⦄ where
  pub allowed_sound :
      (xs : List A) (a : A)
      → (not (is_empty xs) && not (contains xs a)) ≡ false
      → (xs ≡ []) ⊎ Elem a xs
  unfolding is_empty
  allowed_sound [] a h = inl refl
  allowed_sound (x ∷ xs) a h = inr (contains_sound (x ∷ xs) a (ground arith))

  pub allowed_complete :
      (xs : List A) (a : A)
      → (xs ≡ []) ⊎ Elem a xs
      → (not (is_empty xs) && not (contains xs a)) ≡ false
  unfolding is_empty
  allowed_complete [] a h = refl
  allowed_complete (x ∷ xs) a (inl e) = absurd (cc)
  allowed_complete (x ∷ xs) a (inr m) = ground (arith, contains_complete (x ∷ xs) a m)

  pub disjoint_sound :
      (xs ys : List A) → any (λ c. contains ys c) xs ≡ false → All (λ c. ¬ Elem c ys) xs
  unfolding any
  disjoint_sound [] ys h = tt
  disjoint_sound (x ∷ xs) ys h =
      (λ m. cc (rw (contains_complete ys x m) at h), disjoint_sound xs ys (ground arith))

  pub disjoint_complete :
      (xs ys : List A) → All (λ c. ¬ Elem c ys) xs → any (λ c. contains ys c) xs ≡ false
  unfolding any
  disjoint_complete [] ys h = refl
  disjoint_complete (x ∷ xs) ys (n, h) = elim (Bool-cases (contains ys x)) [
    | inl e ↦ absurd (n (contains_sound ys x e))
    | inr e ↦ rw (e, disjoint_complete xs ys h)
  ]

  pub subset_sound : (xs ys : List A) → all (λ c. contains ys c) xs ≡ true → All (λ c. Elem c ys) xs
  subset_sound xs ys h = All-map _ _ xs (λ c. contains_sound ys c) (all_sound _ xs h)

  pub subset_complete :
      (xs ys : List A) → All (λ c. Elem c ys) xs → all (λ c. contains ys c) xs ≡ true
  subset_complete xs ys h = all_complete _ xs (All-map _ _ xs (λ c. contains_complete ys c) h)

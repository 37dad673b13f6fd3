-- ===== src/Prelude/Sort.antt =====
-- `sort_by`, the stable sort of Rust's standard library, as an insertion sort.
use Prim.Native.Nat.{Ordering}
use mathlib.Core.Path.{◌≡◌}
use mathlib.Core.Logic.{inl, inr}
use mathlib.Core.Bool.{true, false}
use mathlib.Core.List.{List, [], ◌∷◌}
use native.Mathlib.Omega.{arith}
use route_d.Prelude.Tests.{if◌then◌else◌, Bool-cases}
use route_d.Prelude.Order.{is_gt}
use route_d.Prelude.Lists.{All, Elem}

module _ {A : Type 0} (cmp : A → A → Ordering) where
  -- An element goes in front of the first one that it is not greater than.
  unfoldable pub insert_sorted : A → List A → List A
  insert_sorted a [] = a ∷ []
  insert_sorted a (x ∷ xs) =
      let rest = insert_sorted a xs in if is_gt (cmp a x) then x ∷ rest else a ∷ x ∷ xs

  unfoldable pub sort_by : List A → List A
  unfolding insert_sorted
  sort_by [] = []
  sort_by (x ∷ xs) = insert_sorted x (sort_by xs)

  insert_sorted-Elem : (a : A) (xs : List A) (b : A) → Elem b (a ∷ xs) → Elem b (insert_sorted a xs)
  unfolding insert_sorted
  insert_sorted-Elem a [] b m = m
  insert_sorted-Elem a (x ∷ xs) b m = ground (arith, insert_sorted-Elem a xs b)

  Elem-insert_sorted : (a : A) (xs : List A) (b : A) → Elem b (insert_sorted a xs) → Elem b (a ∷ xs)
  unfolding insert_sorted
  Elem-insert_sorted a [] b m = m
  Elem-insert_sorted a (x ∷ xs) b m = ground (arith, Elem-insert_sorted a xs b)

  pub sort_by-Elem : (xs : List A) (b : A) → Elem b xs → Elem b (sort_by xs)
  unfolding sort_by
  sort_by-Elem [] b m = m
  sort_by-Elem (x ∷ xs) b (inl e) = insert_sorted-Elem x (sort_by xs) b (inl e)
  sort_by-Elem (x ∷ xs) b (inr m) = insert_sorted-Elem x (sort_by xs) b (inr (sort_by-Elem xs b m))

  pub Elem-sort_by : (xs : List A) (b : A) → Elem b (sort_by xs) → Elem b xs
  unfolding sort_by
  Elem-sort_by [] b m = m
  Elem-sort_by (x ∷ xs) b m = elim (Elem-insert_sorted x (sort_by xs) b m) [
    | inl e ↦ inl e
    | inr r ↦ inr (Elem-sort_by xs b r)
  ]

  insert_sorted-All :
      (P : A → Type 0) (a : A) (ys : List A) → P a → All P ys → All P (insert_sorted a ys)
  unfolding insert_sorted
  insert_sorted-All P a [] p h = (p, tt)
  insert_sorted-All P a (y ∷ ys) p h = elim (Bool-cases (is_gt (cmp a y))) [
    | inl e ↦ rw e (h.0, insert_sorted-All P a ys p h.1)
    | inr e ↦ rw e (p, h)
  ]

  -- What holds of every element holds of the sorted list.
  pub sort_by-All : (P : A → Type 0) (xs : List A) → All P xs → All P (sort_by xs)
  unfolding sort_by
  sort_by-All P [] h = h
  sort_by-All P (x ∷ xs) (p, h) = insert_sorted-All P x (sort_by xs) p (sort_by-All P xs h)

-- Every element stands in `R` to those behind it.
abbrev pub IsOrdered : {A : Type 0} → (A → A → Type 0) → List A → Type 0
IsOrdered R [] = Unit
IsOrdered R (x ∷ xs) = All (R x) xs × IsOrdered R xs

-- A comparison that agrees with a transitive relation sorts by it. `P` is what the elements need
-- for that.
module _ {A : Type 0} (cmp : A → A → Ordering) (P : A → Type 0) (R : A → A → Type 0)
    (le : (a b : A) → P a → P b → is_gt (cmp a b) ≡ false → R a b)
    (ge : (a b : A) → P a → P b → is_gt (cmp a b) ≡ true → R b a)
    (trans : (a b c : A) → P a → P b → P c → R a b → R b c → R a c) where
  below : (a x : A) (xs : List A) → P a → P x → All P xs → R a x → All (R x) xs → All (R a) xs
  below a x [] pa px ps r h = tt
  below a x (y ∷ ys) pa px (py, ps) r (h, hs) =
      (trans a x y pa px py r h, below a x ys pa px ps r hs)

  insert_sorted-IsOrdered :
      (a : A) (xs : List A) → P a → All P xs → IsOrdered R xs → IsOrdered R (insert_sorted cmp a xs)
  unfolding insert_sorted
  insert_sorted-IsOrdered a [] pa ps h = (tt, tt)
  insert_sorted-IsOrdered a (x ∷ xs) pa (px, ps) (hx, h) = elim (Bool-cases (is_gt (cmp a x))) [
    | inl e ↦
        rw e (
          insert_sorted-All cmp (R x) a xs (ge a x pa px e) hx,
          insert_sorted-IsOrdered a xs pa ps h,
        )
    | inr e ↦ rw e ((le a x pa px e, below a x xs pa px ps (le a x pa px e) hx), (hx, h))
  ]

  pub sort_by-IsOrdered : (xs : List A) → All P xs → IsOrdered R (sort_by cmp xs)
  unfolding sort_by
  sort_by-IsOrdered [] h = tt
  sort_by-IsOrdered (x ∷ xs) (p, h) =
      insert_sorted-IsOrdered x (sort_by cmp xs) p (sort_by-All cmp P xs h) (sort_by-IsOrdered xs h)

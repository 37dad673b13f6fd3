-- ===== src/Prelude/Maps.antt =====
-- `BTreeMap` as the list of its entries in key order, and `BTreeSet` as the list of its elements.
use Prim.Native.Nat.{Ordering}
use mathlib.Core.Path.{◌≡◌, refl, subst}
use mathlib.Core.Logic.{◌⊎◌, inl, inr}
use mathlib.Core.Bool.{false}
use mathlib.Core.Option.{Option, none, some}
use mathlib.Core.List.{List, [], ◌∷◌}
use native.Mathlib.Omega.{arith}
use route_d.Prelude.Tests.{if◌then◌else◌, Bool-cases}
use route_d.Prelude.Order.{Ord, ◌==◌, eq_refl, eq_of_==}
use route_d.Prelude.Lists.{Elem, All}

abbrev pub BTreeMap : Type 0 → Type 0 → Type 0
BTreeMap K V = List (K × V)

-- an entry beside the first one of a map, by their order; `rest` has it further down
abbrev place : {A : Type 0} → Ordering → A → A → List A → List A → List A
place Ordering.lt new old m rest = new ∷ old ∷ m
place Ordering.eq new old m rest = new ∷ m
place Ordering.gt new old m rest = old ∷ rest

place-All :
    {A : Type 0} (P : A → Type 0) (c : Ordering) (new old : A) (m rest : List A)
    → P new
    → P old
    → All P m
    → All P rest
    → All P (place c new old m rest)
place-All P Ordering.lt new old m rest p q h r = (p, (q, h))
place-All P Ordering.eq new old m rest p q h r = (p, h)
place-All P Ordering.gt new old m rest p q h r = (q, r)

abbrev pub BTreeSet : Type 0 → Type 0
BTreeSet A = List A

module _ {K V : Type 0} where
  -- `values()`
  unfoldable pub values : BTreeMap K V → List V
  values [] = []
  values ((k, v) ∷ m) = v ∷ values m

module _ {K V : Type 0} ⦃o : Ord K⦄ where
  -- `get(k)`
  unfoldable pub get : BTreeMap K V → K → Option V
  get [] k = none
  get ((j, v) ∷ m) k = if j == k then some v else get m k

  -- `insert(k, v)`
  unfoldable pub insert : BTreeMap K V → K → V → BTreeMap K V
  insert [] k v = (k, v) ∷ []
  insert ((j, w) ∷ m) k v = place (o.cmp k j) (k, v) (j, w) m (insert m k v)

  pub Elem-values_of_get : (m : BTreeMap K V) (k : K) (v : V) → get m k ≡ some v → Elem v (values m)
  unfolding get values
  Elem-values_of_get [] k v h = cc
  Elem-values_of_get ((j, w) ∷ m) k v h = ground (arith, Elem-values_of_get m k v)

  pub get-insert_self : (m : BTreeMap K V) (k : K) (v : V) → get (insert m k v) k ≡ some v
  unfolding get insert
  get-insert_self [] k v = rw eq_refl
  get-insert_self ((j, w) ∷ m) k v =
      ground (arith, eq_refl k, o.cmp_eq k j, o.cmp_eq j k, o.cmp_refl k, get-insert_self m k v)

module _ {A : Type 0} ⦃o : Ord A⦄ where
  -- `BTreeSet::insert`
  unfoldable pub insert_set : BTreeSet A → A → BTreeSet A
  insert_set [] a = a ∷ []
  insert_set (x ∷ xs) a =
      let rest = insert_set xs a in
      elim (o.cmp a x) [ Ordering.lt ↦ a ∷ x ∷ xs | Ordering.eq ↦ x ∷ xs | Ordering.gt ↦ x ∷ rest ]

  -- `collect::<BTreeSet<_>>()`
  unfoldable pub collect_set : List A → BTreeSet A
  unfolding insert_set
  collect_set [] = []
  collect_set (x ∷ xs) = insert_set (collect_set xs) x

  -- What holds of the elements holds after an insertion, and of a collected set.
  pub insert_set-All :
      (P : A → Type 0) (xs : BTreeSet A) (a : A) → P a → All P xs → All P (insert_set xs a)
  unfolding insert_set
  insert_set-All P [] a p h = (p, tt)
  insert_set-All P (x ∷ xs) a p (q, h) = placed (o.cmp a x) (insert_set-All P xs a p h)
    where
      placed :
          (c : Ordering)
          → All P (insert_set xs a)
          → All P (elim c [
            | Ordering.lt ↦ a ∷ x ∷ xs
            | Ordering.eq ↦ x ∷ xs
            | Ordering.gt ↦ x ∷ insert_set xs a
          ])
      placed Ordering.lt r = (p, (q, h))
      placed Ordering.eq r = (q, h)
      placed Ordering.gt r = (q, r)

  pub collect_set-All : (P : A → Type 0) (xs : List A) → All P xs → All P (collect_set xs)
  unfolding collect_set
  collect_set-All P [] h = tt
  collect_set-All P (x ∷ xs) (p, h) = insert_set-All P (collect_set xs) x p (collect_set-All P xs h)

module _ {K V : Type 0} ⦃o : Ord K⦄ where
  get-place :
      (c : Ordering) (k : K) (v : V) (i : K) (w : V) (m rest : BTreeMap K V) (j : K)
      → o.cmp k i ≡ c
      → ((k ≡ j) × (get rest j ≡ some v)) ⊎ (get rest j ≡ get m j)
      → ((k ≡ j) × (get (place c (k, v) (i, w) m rest) j ≡ some v))
        ⊎ (get (place c (k, v) (i, w) m rest) j ≡ get ((i, w) ∷ m) j)
  unfolding get
  get-place Ordering.lt k v i w m rest j e r = elim (Bool-cases (k == j)) [
    | inl b ↦ inl (eq_of_== k j b, rw b)
    | inr b ↦ inr (rw b)
  ]
  get-place Ordering.eq k v i w m rest j e r = elim (Bool-cases (k == j)) [
    | inl b ↦ inl (eq_of_== k j b, rw b)
    | inr b ↦
        let c : (i == j) ≡ false = subst (λ x. (x == j) ≡ false) (o.cmp_eq k i e) b in
        inr (rw (b, c))
  ]
  get-place Ordering.gt k v i w m rest j e r = elim (Bool-cases (i == j)) [
    | inl b ↦ inr (rw b)
    | inr b ↦ rw b r
  ]

  -- A lookup after an insertion.
  pub get-insert :
      (m : BTreeMap K V) (k : K) (v : V) (j : K)
      → ((k ≡ j) × (get (insert m k v) j ≡ some v)) ⊎ (get (insert m k v) j ≡ get m j)
  unfolding insert get
  get-insert [] k v j = elim (Bool-cases (k == j)) [
    | inl b ↦ inl (eq_of_== k j b, rw b)
    | inr b ↦ inr (rw b)
  ]
  get-insert ((i, w) ∷ m) k v j =
      get-place (o.cmp k i) k v i w m (insert m k v) j refl (get-insert m k v j)

  -- What holds of every entry holds after an insertion.
  pub insert-All :
      (P : K × V → Type 0) (m : BTreeMap K V) (k : K) (v : V)
      → P (k, v)
      → All P m
      → All P (insert m k v)
  unfolding insert
  insert-All P [] k v p h = (p, tt)
  insert-All P ((i, w) ∷ m) k v p (q, h) =
      place-All P (o.cmp k i) (k, v) (i, w) m (insert m k v) p q h (insert-All P m k v p h)

  pub get-All :
      (P : K × V → Type 0) (m : BTreeMap K V) (k : K) (v : V)
      → get m k ≡ some v
      → All P m
      → P (k, v)
  unfolding get
  get-All P [] k v e h = cc
  get-All P ((i, w) ∷ m) k v e (p, h) = elim (Bool-cases (i == k)) [
    | inl b ↦
        let same : some w ≡ some v = rw b at e in
        let here : w ≡ v = ground arith in
        subst (λ x. P (x, v)) (eq_of_== i k b) (subst (λ x. P (i, x)) here p)
    | inr b ↦ get-All P m k v (rw b at e) h
  ]

pub values-All :
    {K V : Type 0} (P : V → Type 0) (m : BTreeMap K V) → All (λ e. P e.1) m → All P (values m)
unfolding values
values-All P [] h = tt
values-All P ((k, v) ∷ m) (p, h) = (p, values-All P m h)

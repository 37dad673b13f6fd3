-- ===== src/Prelude/Lists.antt =====
-- Iterators over slices and ordered sets: tests, filters and the predicates that describe them.
use mathlib.Core.Path.{◌≡◌, refl, sym, subst, ap}
use mathlib.Core.Logic.{◌⊎◌, inl, inr}
use mathlib.Core.Bool.{Bool, true, false, ◌&&◌, ◌||◌}
use mathlib.Core.Option.{Option, none, some}
use mathlib.Core.List.{List, [], ◌∷◌, ◌++◌, map}
use native.Mathlib.Omega.{arith}
use route_d.Prelude.Tests.{if◌then◌else◌, Bool-cases}
use route_d.Prelude.Order.{Ord, ◌==◌, eq_refl, eq_of_==}

module _ {A : Type 0} where
  abbrev pub All : (A → Type 0) → List A → Type 0
  All P [] = Unit
  All P (x ∷ xs) = P x × All P xs

  abbrev pub Any : (A → Type 0) → List A → Type 0
  Any P [] = ⊥
  Any P (x ∷ xs) = P x ⊎ Any P xs

  -- `a` is an element.
  abbrev pub Elem : A → List A → Type 0
  Elem a = Any λ x. x ≡ a

  -- `iter().any(p)`
  unfoldable pub any : (A → Bool) → List A → Bool
  any p [] = false
  any p (x ∷ xs) = p x || any p xs

  -- `iter().all(p)`
  unfoldable pub all : (A → Bool) → List A → Bool
  all p [] = true
  all p (x ∷ xs) = p x && all p xs

  -- `iter().find(p)`
  unfoldable pub find : (A → Bool) → List A → Option A
  find p [] = none
  find p (x ∷ xs) = if p x then some x else find p xs

  -- `retain(p)` and `iter().filter(p)`
  unfoldable pub filter : (A → Bool) → List A → List A
  filter p [] = []
  filter p (x ∷ xs) = let rest = filter p xs in if p x then x ∷ rest else rest

  -- `first()`
  unfoldable pub first : List A → Option A
  first [] = none
  first (x ∷ xs) = some x

  -- `is_empty()`
  unfoldable pub is_empty : List A → Bool
  is_empty [] = true
  is_empty (x ∷ xs) = false

  -- `Option::iter`
  abbrev pub option_list : Option A → List A
  option_list none = []
  option_list (some a) = a ∷ []

  pub option_list-Elem : (o : Option A) (a : A) → Elem a (option_list o) → o ≡ some a
  option_list-Elem none a m = absurd m
  option_list-Elem (some b) a (inl e) = ground arith
  option_list-Elem (some b) a (inr m) = absurd m

  pub Elem-option_list : (o : Option A) (a : A) → o ≡ some a → Elem a (option_list o)
  Elem-option_list none a e = cc
  Elem-option_list (some b) a e = inl (ground arith)

  pub any_sound : (p : A → Bool) (xs : List A) → any p xs ≡ true → Any (λ x. p x ≡ true) xs
  unfolding any
  any_sound p [] h = cc
  any_sound p (x ∷ xs) h = elim (Bool-cases (p x)) [
    | inl e ↦ inl e
    | inr e ↦ inr (any_sound p xs (rw e at h))
  ]

  pub any_complete : (p : A → Bool) (xs : List A) → Any (λ x. p x ≡ true) xs → any p xs ≡ true
  unfolding any
  any_complete p [] h = absurd h
  any_complete p (x ∷ xs) (inl e) = rw e
  any_complete p (x ∷ xs) (inr r) = ground (arith, any_complete p xs r)

  pub all_sound : (p : A → Bool) (xs : List A) → all p xs ≡ true → All (λ x. p x ≡ true) xs
  unfolding all
  all_sound p [] h = tt
  all_sound p (x ∷ xs) h = ground (arith, all_sound p xs)

  pub all_complete : (p : A → Bool) (xs : List A) → All (λ x. p x ≡ true) xs → all p xs ≡ true
  unfolding all
  all_complete p [] h = refl
  all_complete p (x ∷ xs) (e, r) = ground (arith, all_complete p xs r)

  -- What `find` returns is an element that passes.
  pub find_sound :
      (p : A → Bool) (xs : List A) (a : A) → find p xs ≡ some a → Elem a xs × (p a ≡ true)
  unfolding find
  find_sound p [] a h = cc
  find_sound p (x ∷ xs) a h = elim (Bool-cases (p x)) [
    | inl e ↦ ground arith
    | inr e ↦ let (m, t) = find_sound p xs a (rw (e, if◌then◌else◌) at h) in (inr m, t)
  ]

  pub find-none : (p : A → Bool) (xs : List A) → find p xs ≡ none → All (λ x. p x ≡ false) xs
  unfolding find
  find-none p [] h = tt
  find-none p (x ∷ xs) h = ground (arith, find-none p xs)

  pub filter_sound :
      (p : A → Bool) (xs : List A) (a : A) → Elem a (filter p xs) → Elem a xs × (p a ≡ true)
  unfolding filter
  filter_sound p [] a h = absurd h
  filter_sound p (x ∷ xs) a h = ground (arith, filter_sound p xs a)

  pub filter_complete :
      (p : A → Bool) (xs : List A) (a : A) → Elem a xs → p a ≡ true → Elem a (filter p xs)
  unfolding filter
  filter_complete p [] a h e = absurd h
  filter_complete p (x ∷ xs) a h e = ground (arith, filter_complete p xs a)

  pub All_elem : (P : A → Type 0) (xs : List A) (a : A) → All P xs → Elem a xs → P a
  All_elem P [] a h m = absurd m
  All_elem P (x ∷ xs) a (p, h) (inl e) = subst P e p
  All_elem P (x ∷ xs) a (p, h) (inr m) = All_elem P xs a h m

  pub All-of_Elem : (P : A → Type 0) (xs : List A) → ((a : A) → Elem a xs → P a) → All P xs
  All-of_Elem P [] h = tt
  All-of_Elem P (x ∷ xs) h = (h x (inl refl), All-of_Elem P xs λ a m. h a (inr m))

  pub Any-of_Elem : (P : A → Type 0) (xs : List A) (a : A) → Elem a xs → P a → Any P xs
  Any-of_Elem P [] a m p = absurd m
  Any-of_Elem P (x ∷ xs) a (inl e) p = inl (subst P (sym e) p)
  Any-of_Elem P (x ∷ xs) a (inr m) p = inr (Any-of_Elem P xs a m p)

  pub Elem-of_Any : (P : A → Type 0) (xs : List A) → Any P xs → (a : A) × Elem a xs × P a
  Elem-of_Any P [] m = absurd m
  Elem-of_Any P (x ∷ xs) (inl p) = (x, inl refl, p)
  Elem-of_Any P (x ∷ xs) (inr m) = let (a, e, p) = Elem-of_Any P xs m in (a, inr e, p)

  pub All-append : (P : A → Type 0) (xs ys : List A) → All P xs → All P ys → All P (xs ++ ys)
  All-append P [] ys h k = k
  All-append P (x ∷ xs) ys (p, h) k = (p, All-append P xs ys h k)

  pub All-append_split : (P : A → Type 0) (xs ys : List A) → All P (xs ++ ys) → All P xs × All P ys
  All-append_split P [] ys h = (tt, h)
  All-append_split P (x ∷ xs) ys (p, h) = let (l, r) = All-append_split P xs ys h in ((p, l), r)

  pub All-map : (P Q : A → Type 0) (xs : List A) → ((a : A) → P a → Q a) → All P xs → All Q xs
  All-map P Q [] f h = tt
  All-map P Q (x ∷ xs) f (p, h) = (f x p, All-map P Q xs f h)

  pub Any-map : (P Q : A → Type 0) (xs : List A) → ((a : A) → P a → Q a) → Any P xs → Any Q xs
  Any-map P Q [] f h = absurd h
  Any-map P Q (x ∷ xs) f (inl p) = inl (f x p)
  Any-map P Q (x ∷ xs) f (inr m) = inr (Any-map P Q xs f m)

  pub Elem-append_left : (xs ys : List A) (a : A) → Elem a xs → Elem a (xs ++ ys)
  Elem-append_left [] ys a m = absurd m
  Elem-append_left (x ∷ xs) ys a (inl e) = inl e
  Elem-append_left (x ∷ xs) ys a (inr m) = inr (Elem-append_left xs ys a m)

  pub Elem-append_right : (xs ys : List A) (a : A) → Elem a ys → Elem a (xs ++ ys)
  Elem-append_right [] ys a m = m
  Elem-append_right (x ∷ xs) ys a m = inr (Elem-append_right xs ys a m)

  pub Elem-append_cases : (xs ys : List A) (a : A) → Elem a (xs ++ ys) → Elem a xs ⊎ Elem a ys
  Elem-append_cases [] ys a m = inr m
  Elem-append_cases (x ∷ xs) ys a (inl e) = inl (inl e)
  Elem-append_cases (x ∷ xs) ys a (inr m) = elim (Elem-append_cases xs ys a m) [
    | inl h ↦ inl (inr h)
    | inr h ↦ inr h
  ]

module _ {A : Type 0} ⦃o : Ord A⦄ where
  -- `BTreeSet::contains` and `Vec::contains`
  unfoldable pub contains : List A → A → Bool
  contains [] a = false
  contains (x ∷ xs) a = x == a || contains xs a

  pub contains_sound : (xs : List A) (a : A) → contains xs a ≡ true → Elem a xs
  unfolding contains
  contains_sound [] a h = cc
  contains_sound (x ∷ xs) a h = elim (Bool-cases (x == a)) [
    | inl e ↦ inl (eq_of_== x a e)
    | inr e ↦ inr (contains_sound xs a (rw e at h))
  ]

  pub contains_complete : (xs : List A) (a : A) → Elem a xs → contains xs a ≡ true
  unfolding contains
  contains_complete [] a m = absurd m
  contains_complete (x ∷ xs) a (inl e) = rw (e, eq_refl a)
  contains_complete (x ∷ xs) a (inr m) = ground (arith, contains_complete xs a m)

pub Elem-of_map :
    {A B : Type 0} (g : A → B) (xs : List A) (b : B)
    → Elem b (map g xs)
    → (a : A) × Elem a xs × (g a ≡ b)
Elem-of_map g [] b m = absurd m
Elem-of_map g (x ∷ xs) b (inl e) = (x, inl refl, e)
Elem-of_map g (x ∷ xs) b (inr m) = let (a, k, e) = Elem-of_map g xs b m in (a, inr k, e)

pub Elem-map : {A B : Type 0} (g : A → B) (xs : List A) (a : A) → Elem a xs → Elem (g a) (map g xs)
Elem-map g [] a m = absurd m
Elem-map g (x ∷ xs) a (inl e) = inl (ap g e)
Elem-map g (x ∷ xs) a (inr m) = inr (Elem-map g xs a m)

pub cons_of_Elem :
    {A : Type 0} (xs : List A) (a : A) → Elem a xs → (y : A) × (ys : List A) × (xs ≡ y ∷ ys)
cons_of_Elem [] a m = absurd m
cons_of_Elem (x ∷ xs) a m = (x, xs, refl)

pub List-cases : {A : Type 0} (xs : List A) → (xs ≡ []) ⊎ ((y : A) × (ys : List A) × (xs ≡ y ∷ ys))
List-cases [] = inl refl
List-cases (x ∷ xs) = inr (x, xs, refl)

pub append_nil : {A : Type 0} (xs : List A) → xs ++ [] ≡ xs
append_nil [] = refl
append_nil (x ∷ xs) = ap (◌∷◌ x) (append_nil xs)

pub append_assoc : {A : Type 0} (xs ys zs : List A) → (xs ++ ys) ++ zs ≡ xs ++ (ys ++ zs)
append_assoc [] ys zs = refl
append_assoc (x ∷ xs) ys zs = ap (◌∷◌ x) (append_assoc xs ys zs)

pub filter-All :
    {A : Type 0} (P : A → Type 0) (p : A → Bool) (xs : List A) → All P xs → All P (filter p xs)
filter-All P p xs h = All-of_Elem P (filter p xs) λ a m. All_elem P xs a h (filter_sound p xs a m).0

-- ===== src/Decision/DataClass/Resolution.antt =====
-- What `resolve_data_class` of crates/decision/src/lib.rs resolves to.
use route_d.Prelude.{
  ℕ, suc, ◌≤◌, ◌≡◌, ◌↔◌, ◌⊎◌, inl, inr, refl, sym, subst, ◌∙◌, true, Option, none, some, List, [],
  ◌∷◌, ◌++◌, Text, text_ord, arith, filter, filter_sound, filter_complete, values, Elem, Any,
  Elem-append_left, Elem-append_right, Elem-append_cases,
}
use route_d.Float.{Float}
use route_d.Snapshot.{CompiledDataClass, Snapshot}
use route_d.Decision.Types.{DecisionInput, Findings, Decision, Note}
use route_d.Decision.DataClass.{
  consider, consider_all, header_value, asks_for, resolve_headers, labelled, pii_hit,
  resolve_data_class,
}

module _ {F : Type 0} where
  -- The rank of a resolved class; nothing is below every class.
  abbrev pub rank_of : Option (CompiledDataClass F) → ℕ
  rank_of none = 0
  rank_of (some dc) = suc dc.rank

  consider_all-append :
      (best : Option (CompiledDataClass F)) (xs ys : List (CompiledDataClass F))
      → consider_all best (xs ++ ys) ≡ consider_all (consider_all best xs) ys
  unfolding consider_all
  consider_all-append best [] ys = refl
  consider_all-append best (x ∷ xs) ys = consider_all-append (consider best x) xs ys

  consider-ge :
      (best : Option (CompiledDataClass F)) (dc : CompiledDataClass F)
      → (rank_of best ≤ rank_of (consider best dc)) × (suc dc.rank ≤ rank_of (consider best dc))
  unfolding consider
  consider-ge none dc = ground arith
  consider-ge (some b) dc = ground arith

  consider_all-ge :
      (best : Option (CompiledDataClass F)) (xs : List (CompiledDataClass F))
      → rank_of best ≤ rank_of (consider_all best xs)
  unfolding consider_all
  consider_all-ge best [] = omega arith
  consider_all-ge best (x ∷ xs) =
      omega (arith, consider-ge best x, consider_all-ge (consider best x) xs)

  pub consider_all-ge-Elem :
      (best : Option (CompiledDataClass F)) (xs : List (CompiledDataClass F))
      (dc : CompiledDataClass F)
      → Elem dc xs
      → suc dc.rank ≤ rank_of (consider_all best xs)
  unfolding consider_all
  consider_all-ge-Elem best [] dc m = absurd m
  consider_all-ge-Elem best (x ∷ xs) dc (inl e) =
      subst (λ y. suc y.rank ≤ rank_of (consider_all (consider best x) xs)) e
        (omega (arith, consider-ge best x, consider_all-ge (consider best x) xs))
  consider_all-ge-Elem best (x ∷ xs) dc (inr m) = consider_all-ge-Elem (consider best x) xs dc m

  consider-cases :
      (best : Option (CompiledDataClass F)) (x : CompiledDataClass F)
      → (consider best x ≡ best) ⊎ (consider best x ≡ some x)
  unfolding consider
  consider-cases none x = inr refl
  consider-cases (some b) x = ground arith

  pub consider_all-Elem :
      (best : Option (CompiledDataClass F)) (xs : List (CompiledDataClass F))
      (dc : CompiledDataClass F)
      → consider_all best xs ≡ some dc
      → (best ≡ some dc) ⊎ Elem dc xs
  unfolding consider_all
  consider_all-Elem best [] dc h = inl h
  consider_all-Elem best (x ∷ xs) dc h = elim (consider_all-Elem (consider best x) xs dc h) [
    | inr m ↦ inr (inr m)
    | inl e ↦ elim (consider-cases best x) [
      | inl c ↦ inl (sym c ∙ e)
      | inr c ↦ inr (inl (ground arith))
    ]
  ]

  -- all classes that header values ask for, in the order in which they are considered
  pub asked_classes : List (CompiledDataClass F) → List Text → List (CompiledDataClass F)
  asked_classes classes [] = []
  asked_classes classes (h ∷ hs) =
      filter (asks_for (header_value h)) classes ++ asked_classes classes hs

  resolve_headers-eq :
      (classes : List (CompiledDataClass F)) (hs : List Text) (best : Option (CompiledDataClass F))
      (notes : List Note)
      → (resolve_headers classes hs best notes).0 ≡ consider_all best (asked_classes classes hs)
  unfolding resolve_headers asked_classes consider_all
  resolve_headers-eq classes [] best notes = refl
  resolve_headers-eq classes (h ∷ hs) best notes =
      resolve_headers-eq classes hs (consider_all best (filter (asks_for (header_value h)) classes))
        _
      ∙ sym (
          consider_all-append best (filter (asks_for (header_value h)) classes)
            (asked_classes classes hs))

  pub asked_classes-Elem :
      (classes : List (CompiledDataClass F)) (hs : List Text) (dc : CompiledDataClass F)
      → Elem dc (asked_classes classes hs)
        ↔ (Elem dc classes × Any (λ h. asks_for (header_value h) dc ≡ true) hs)
  unfolding asked_classes
  asked_classes-Elem classes [] dc = (λ m. absurd m, λ m. absurd m.1)
  asked_classes-Elem classes (h ∷ hs) dc =
      let here = filter (asks_for (header_value h)) classes in
      let ih = asked_classes-Elem classes hs dc in
      (
        λ m. elim (Elem-append_cases here (asked_classes classes hs) dc m) [
          | inl l ↦ let (e, t) = filter_sound _ classes dc l in (e, inl t)
          | inr r ↦ let (e, t) = ih.0 r in (e, inr t)
        ],
        λ (e, a). elim a [
          | inl t ↦
              Elem-append_left here (asked_classes classes hs) dc (filter_complete _ classes dc e t)
          | inr t ↦ Elem-append_right here (asked_classes classes hs) dc (ih.1 (e, t))
        ],
      )

module _ {F : Type 0} ⦃f : Float F⦄ (s : Snapshot F) (input : DecisionInput)
    (findings : Findings F) where
  -- the classes that are considered, in order
  unfoldable pub applicable : List (CompiledDataClass F)
  applicable =
      asked_classes (values s.core.data_classes) input.hints.data_classes
      ++ (labelled s findings ++ filter (pii_hit findings) (values s.core.data_classes))

  pub resolve-eq :
      (d : Decision F) → (resolve_data_class s input findings d).0 ≡ consider_all none applicable
  unfolding resolve_data_class applicable
  resolve-eq d =
      let classes = values s.core.data_classes in
      let asked = asked_classes classes input.hints.data_classes in
      let hit = filter (pii_hit findings) classes in
      rw (
        resolve_headers-eq classes input.hints.data_classes none d.notes,
        consider_all-append none asked (labelled s findings ++ hit),
        consider_all-append (consider_all none asked) (labelled s findings) hit,
      )

  -- Beside its answer it changes the notes of the decision alone.
  pub resolve-notes :
      (d : Decision F)
      → (resolve_data_class s input findings d).1
        ≡ record d { notes = (resolve_data_class s input findings d).1.notes }
  unfolding resolve_data_class
  resolve-notes d = refl

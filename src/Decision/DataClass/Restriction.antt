-- ===== src/Decision/DataClass/Restriction.antt =====
-- `resolve_data_class` of crates/decision/src/lib.rs takes the most restrictive class that
-- applies, and a hint can only restrict further.
use route_d.Prelude.{
  suc, ◌≤◌, ◌≡◌, ◌⊎◌, inl, inr, refl, sym, subst, ◌∙◌, true, Option, none, some, List, Text,
  text_ord, arith, filter, filter_sound, filter_complete, values, get, Elem, Any, Any-of_Elem,
  Elem-of_Any, Elem-append_left, Elem-append_right, Elem-append_cases, any_sound, any_complete,
  and_then, option_list-Elem, Elem-option_list, and_then-eq-some,
}
use route_d.Float.{Float}
use route_d.Snapshot.{CompiledDataClass, Snapshot}
use route_d.Decision.Types.{DecisionInput, Findings, Decision}
use route_d.Decision.DataClass.{
  consider_all, header_value, asks_for, labelled, entity_hit, pii_hit, resolve_data_class,
}
use route_d.Decision.DataClass.Resolution.{
  rank_of, consider_all-Elem, consider_all-ge-Elem, asked_classes, asked_classes-Elem, applicable,
  resolve-eq,
}

-- the input with these header values
abbrev pub with_hints : DecisionInput → List Text → DecisionInput
with_hints input hs = record input { hints = record input.hints { data_classes = hs } }

module _ {F : Type 0} ⦃f : Float F⦄ where
  -- A class applies to a request if it is a class of the snapshot that a header value asks for, or
  -- the one that the sensitivity label names, or one that a detected entity counts for.
  abbrev pub Applies : Snapshot F → DecisionInput → Findings F → CompiledDataClass F → Type 0
  Applies s input findings dc =
      (Elem dc (values s.core.data_classes)
        × Any (λ h. asks_for (header_value h) dc ≡ true) input.hints.data_classes)
      ⊎ ((label : Text) × (findings.inferred_data_class ≡ some label)
          × (get s.core.data_classes label ≡ some dc))
      ⊎ (Elem dc (values s.core.data_classes)
          × Any (λ e. entity_hit findings dc e ≡ true) findings.pii_entities)

  module _ (s : Snapshot F) (input : DecisionInput) (findings : Findings F) where
    Applies-of_Elem :
        (dc : CompiledDataClass F)
        → Elem dc (applicable s input findings)
        → Applies s input findings dc
    unfolding applicable labelled pii_hit
    Applies-of_Elem dc m =
        let classes = values s.core.data_classes in
        let asked = asked_classes classes input.hints.data_classes in
        elim (Elem-append_cases asked _ dc m) [
          | inl h ↦ inl ((asked_classes-Elem classes input.hints.data_classes dc).0 h)
          | inr r ↦ elim (Elem-append_cases (labelled s findings) _ dc r) [
            | inl l ↦ inr (
                inl (
                  and_then-eq-some findings.inferred_data_class (get s.core.data_classes) dc
                    (option_list-Elem _ dc l)))
            | inr p ↦
                let (e, t) = filter_sound (pii_hit findings) classes dc p in
                inr (inr (e, any_sound (entity_hit findings dc) findings.pii_entities t))
          ]
        ]

    Elem-of_Applies :
        (dc : CompiledDataClass F)
        → Applies s input findings dc
        → Elem dc (applicable s input findings)
    unfolding applicable labelled pii_hit
    Elem-of_Applies dc (inl h) =
        Elem-append_left _ _ dc
          ((asked_classes-Elem (values s.core.data_classes) input.hints.data_classes dc).1 h)
    Elem-of_Applies dc (inr (inl (label, e, g))) =
        Elem-append_right (asked_classes (values s.core.data_classes) input.hints.data_classes) _ dc
          (Elem-append_left (labelled s findings)
            (filter (pii_hit findings) (values s.core.data_classes)) dc
            (Elem-option_list (and_then findings.inferred_data_class (get s.core.data_classes)) dc
              (rw e g)))
    Elem-of_Applies dc (inr (inr (m, a))) =
        Elem-append_right (asked_classes (values s.core.data_classes) input.hints.data_classes) _ dc
          (Elem-append_right (labelled s findings) _ dc (
            filter_complete (pii_hit findings) (values s.core.data_classes) dc m
              (any_complete (entity_hit findings dc) findings.pii_entities a)))

    resolved-strictest :
        (d : Decision F) (dc : CompiledDataClass F)
        → (resolve_data_class s input findings d).0 ≡ some dc
        → Applies s input findings dc
          × ((other : CompiledDataClass F) → Applies s input findings other → other.rank ≤ dc.rank)
    resolved-strictest d dc h =
        let e = sym (resolve-eq s input findings d) ∙ h in
        (
          Applies-of_Elem dc (found (consider_all-Elem none (applicable s input findings) dc e)),
          λ other a.
              omega (
                arith,
                at_least other a (consider_all none (applicable s input findings)) refl dc e,
              ),
        )
      where
        found :
            (none ≡ some dc) ⊎ Elem dc (applicable s input findings)
            → Elem dc (applicable s input findings)
        found (inl e) = absurd (cc)
        found (inr m) = m

        at_least :
            (other : CompiledDataClass F)
            → Applies s input findings other
            → (o : Option (CompiledDataClass F))
            → consider_all none (applicable s input findings) ≡ o
            → (c : CompiledDataClass F) → o ≡ some c
            → suc other.rank ≤ suc c.rank
        at_least other a o e c g =
            subst (λ x. suc other.rank ≤ rank_of x) (e ∙ g)
              (consider_all-ge-Elem none (applicable s input findings) other
                (Elem-of_Applies other a))

    -- Where no class is resolved, none applies.
    pub resolve_data_class-none :
        (d : Decision F) (other : CompiledDataClass F)
        → (resolve_data_class s input findings d).0 ≡ none
        → ¬ Applies s input findings other
    resolve_data_class-none d other h a =
        let low =
          consider_all-ge-Elem none (applicable s input findings) other (Elem-of_Applies other a) in
        let e = sym (resolve-eq s input findings d) ∙ h in
        absurd (omega (arith, subst (λ x. suc other.rank ≤ rank_of x) e low))

  -- What a resolution has to be: nothing, if no class applies, and else a class that applies and
  -- that no class that applies outranks.
  abbrev pub IsStrictest :
      Snapshot F → DecisionInput → Findings F → Option (CompiledDataClass F) → Type 0
  IsStrictest s input findings none =
      (other : CompiledDataClass F) → ¬ Applies s input findings other
  IsStrictest s input findings (some dc) =
      Applies s input findings dc
      × ((other : CompiledDataClass F) → Applies s input findings other → other.rank ≤ dc.rank)

  -- The resolved class is a class that applies to the request and that no class that applies to it
  -- outranks; where nothing is resolved, no class applies.
  pub resolve-IsStrictest :
      (s : Snapshot F) (input : DecisionInput) (findings : Findings F) (d : Decision F)
      → IsStrictest s input findings (resolve_data_class s input findings d).0
  resolve-IsStrictest s input findings d = by_cases (resolve_data_class s input findings d).0 refl
    where
      by_cases :
          (o : Option (CompiledDataClass F))
          → (resolve_data_class s input findings d).0 ≡ o
          → IsStrictest s input findings o
      by_cases none e = λ other. resolve_data_class-none s input findings d other e
      by_cases (some dc) e = resolved-strictest s input findings d dc e

  -- More `X-Routed-Data-Class` values, wherever they stand among the others, never lower the rank
  -- of the resolved class: if every value of one list is in another, the other resolves to a class
  -- of at least the rank, whatever the order of both, whatever else the other list says, and whatever
  -- the findings are.
  pub rank_of-with_hints :
      (s : Snapshot F) (input : DecisionInput) (findings : Findings F) (hs hs' : List Text)
      (d e : Decision F)
      → ((h : Text) → Elem h hs → Elem h hs')
      → rank_of (resolve_data_class s (with_hints input hs) findings d).0
        ≤ rank_of (resolve_data_class s (with_hints input hs') findings e).0
  rank_of-with_hints s input findings hs hs' d e more =
      by_cases (resolve_data_class s (with_hints input hs) findings d).0 refl
    where
      still :
          (c : CompiledDataClass F)
          → Applies s (with_hints input hs) findings c
          → Applies s (with_hints input hs') findings c
      still c (inl (m, a)) =
          let (h, k, t) = Elem-of_Any (λ h. asks_for (header_value h) c ≡ true) hs a in
          inl (m, Any-of_Elem (λ h. asks_for (header_value h) c ≡ true) hs' h (more h k) t)
      still c (inr r) = inr r

      by_cases :
          (o : Option (CompiledDataClass F))
          → (resolve_data_class s (with_hints input hs) findings d).0 ≡ o
          → rank_of o ≤ rank_of (resolve_data_class s (with_hints input hs') findings e).0
      by_cases none q = omega arith
      by_cases (some c) q = rw (resolve-eq s (with_hints input hs') findings e) (
          consider_all-ge-Elem none (applicable s (with_hints input hs') findings) c (
            Elem-of_Applies s (with_hints input hs') findings c
              (still c (resolved-strictest s (with_hints input hs) findings d c q).0)))

-- ===== src/Policy/Policies/Resolved.antt =====
-- What the loop over the policies of `compile` (crates/policy/src/lib.rs) keeps.
use route_d.Prelude.{
  ap, ◌≡◌, ◌⊎◌, inl, inr, refl, subst, Bool, true, false, not, Option, none, some, List, [], ◌∷◌,
  ◌++◌, Text, text, text_ord, ◌==◌, ◌&&◌, nat_ord, arith, if◌then◌else◌, Bool-cases, Option-cases,
  is_some, is_empty, unwrap_or, contains, All, All-of_Elem, All-append, BTreeSet, get, values,
  insert_set, insert_set-All, collect_set-All, filter, filter_sound, filter-All, Elem-of_map,
}
use route_d.Api.Resources.{Metadata}
use route_d.Api.Policies.{
  RoutingPolicy, RoutingPolicySpec, Candidates, Objective, ObjectiveWeights, LearnedRouterSettings,
}
use route_d.Float.{Float}
use route_d.Snapshot.{CompiledTier, CompiledPolicy}
use route_d.Policy.Report.{CompileReport, ns_name, require}
use route_d.Policy.Checks.{is_probability}
use route_d.Policy.Tiers.Kept.{require-ok}
use route_d.Policy.Candidates.{
  Compiled, in_ns, selected_tiers, include_tiers, remove_set, exclude_tiers, resolve_candidates,
}
use route_d.Policy.Policies.{
  PolicyState, holds_of, check_numbers, compile_weights, check_router_profile, check_learned_router,
  check_found, check_fallback, compiled_policy, push_policy, add_policy, compile_policy,
  compile_policies,
}

module _ {F : Type 0} ⦃f : Float F⦄ where
  module _ (c : Compiled F) (namespace : Text) where
    -- every name is that of a tier in the namespace
    abbrev AllIn : List Text → Type 0
    AllIn = All (λ n. in_ns c namespace n ≡ true)

    selected_tiers-AllIn : (s : Candidates) → AllIn (selected_tiers c namespace s)
    unfolding selected_tiers
    selected_tiers-AllIn s =
        let inside = filter (λ t. in_ns c namespace t.name) (values c.tiers) in
        collect_set-All (λ n. in_ns c namespace n ≡ true) _
          (All-of_Elem (λ n. in_ns c namespace n ≡ true) _
            λ n m.
              let (t, k, e) = Elem-of_map (λ t. t.name) _ n m in
              subst (λ x. in_ns c namespace x ≡ true) e
                (filter_sound (λ t. in_ns c namespace t.name) (values c.tiers) t
                  (filter_sound _ inside t k).0).1)

    include_tiers-AllIn :
        (pname : Text) (incs : List Text) (st : BTreeSet Text × (Bool × CompileReport F))
        → AllIn st.0
        → AllIn (include_tiers c namespace pname incs st).0
    unfolding include_tiers
    include_tiers-AllIn pname [] st h = h
    include_tiers-AllIn pname (inc ∷ incs) st h =
        include_tiers-AllIn pname incs _ (included (in_ns c namespace inc) refl _)
      where
        included :
            (b : Bool)
            → in_ns c namespace inc ≡ b
            → (o : Bool × CompileReport F)
            → let r : BTreeSet Text × (Bool × CompileReport F) =
                if b then (insert_set st.0 inc, st.1) else (st.0, o) in
              AllIn r.0
        included true e o = insert_set-All (λ n. in_ns c namespace n ≡ true) st.0 inc e h
        included false e o = h

    exclude_tiers-AllIn :
        (pname : Text) (excs : List Text) (cs : BTreeSet Text) (st : Bool × CompileReport F)
        → AllIn cs
        → AllIn (exclude_tiers c namespace pname excs (cs, st)).0
    unfolding exclude_tiers remove_set
    exclude_tiers-AllIn pname [] cs st h = h
    exclude_tiers-AllIn pname (exc ∷ excs) cs st h =
        exclude_tiers-AllIn pname excs _ _
          (filter-All (λ n. in_ns c namespace n ≡ true) (λ x. not (x == exc)) cs h)

    resolve_candidates-AllIn :
        (pname : Text) (s : Candidates) (r : CompileReport F)
        → AllIn (resolve_candidates c namespace pname s r).0
    unfolding resolve_candidates
    resolve_candidates-AllIn pname s r = exclude_tiers-AllIn pname s.exclude _ _ (
        include_tiers-AllIn pname s.include _
          (base (not (is_empty s.include) && is_empty s.tier_selector.match_labels)))
      where
        base : (b : Bool) → AllIn (if b then [] else selected_tiers c namespace s)
        base true = tt
        base false = selected_tiers-AllIn s

    resolve_candidates-some :
        (pname : Text) (s : Candidates) (r : CompileReport F)
        → (resolve_candidates c namespace pname s r).1.0 ≡ true
        → is_empty (resolve_candidates c namespace pname s r).0 ≡ false
    unfolding resolve_candidates
    resolve_candidates-some pname s r h =
        let (some_left, _) = require-ok _ _ _ _ _ _ h in ground arith

    -- The fallback tier, if one is named, is a tier in the namespace.
    abbrev FallbackIn : Option Text → Type 0
    FallbackIn o =
        (o ≡ none)
        ⊎ ((n : Text) × (o ≡ some n)
            × (in_ns c namespace n ≡ true)
            × (is_some (get c.tiers n) ≡ true))

    check_fallback-ok :
        (pname : Text) (respect : Bool) (o : Option Text) (st : Bool × CompileReport F)
        → (check_fallback c pname namespace respect o st).0 ≡ true
        → FallbackIn o × (st.0 ≡ true)
    unfolding check_fallback check_found require
    check_fallback-ok pname respect none st h = (inl refl, h)
    check_fallback-ok pname respect (some ft) (ok, r) h = elim (Bool-cases (in_ns c namespace ft)) [
      | inr b ↦ absurd (cc (rw (b, if◌then◌else◌) at h))
      | inl b ↦ elim (Option-cases (get c.tiers ft)) [
        | inl e ↦ absurd (cc (rw (b, if◌then◌else◌, e) at h))
        | inr (t, e) ↦
            (inr (ft, refl, b, ap is_some e), still respect t (rw (b, if◌then◌else◌, e) at h))
      ]
    ]
      where
        still :
            (respect : Bool) (t : CompiledTier F)
            → (check_found c pname namespace respect ft (some t) (ok, r)).0 ≡ true
            → ok ≡ true
        still true t h = h
        still false t h = h

  check_learned_router-ok :
      (c : Compiled F) (pname : Text) (s : LearnedRouterSettings F) (st : Bool × CompileReport F)
      → (check_learned_router c pname s st).0 ≡ true
      → st.0 ≡ true
  unfolding check_learned_router check_router_profile
  check_learned_router-ok c pname s st h = elim (Bool-cases s.enabled) [
    | inr b ↦ rw (b, if◌then◌else◌) at h
    | inl b ↦
        let (_, k) = require-ok _ _ _ _ _ _ (rw (b, if◌then◌else◌) at h) in profiled s.profile k
  ]
    where
      profiled : (o : Option Text) → (check_router_profile c pname o st).0 ≡ true → st.0 ≡ true
      profiled none k = (require-ok _ _ _ _ _ st k).1
      profiled (some p) k = (require-ok _ _ _ _ _ st k).1

  compile_weights-ok :
      (pname : Text) (o : Objective F) (w : Option (ObjectiveWeights F))
      (st : Bool × CompileReport F)
      → (compile_weights pname o w st).1.0 ≡ true
      → st.0 ≡ true
  unfolding compile_weights
  compile_weights-ok pname o none st h = h
  compile_weights-ok pname o (some w) st h = (require-ok _ _ _ _ _ st h).1

  check_numbers-ok :
      (pname : Text) (s : RoutingPolicySpec F) (st : Bool × CompileReport F)
      → (check_numbers pname s st).0 ≡ true
      → (holds_of s.objective.quality_floor is_probability ≡ true)
        × (holds_of s.hard_constraints.deny_if_risk_score_above is_probability ≡ true)
        × (st.0 ≡ true)
  unfolding check_numbers
  check_numbers-ok pname s st h =
      let (floor, b) = require-ok _ _ _ _ _ _ h in
      let (deny, a) = require-ok _ _ _ _ _ _ b in
      let (_, ok) = require-ok _ _ _ _ _ st a in (floor, deny, ok)

  -- A compiled policy that decisions can rely on: it has candidates, all of them and its fallback
  -- are tiers in its namespace, and its floor and its risk threshold are in 0..=1.
  pub record IsResolved (c : Compiled F) (p : CompiledPolicy F) : Type 0 where
    pub chosen : is_empty p.candidates ≡ false
    pub candidates : All (λ n. in_ns c p.namespace n ≡ true) p.candidates
    pub fallback :
        (p.fallback_tier ≡ none)
        ⊎ ((n : Text) × (p.fallback_tier ≡ some n)
            × (in_ns c p.namespace n ≡ true)
            × (is_some (get c.tiers n) ≡ true))
    pub floor : holds_of p.quality_floor is_probability ≡ true
    pub threshold : holds_of p.deny_if_risk_score_above is_probability ≡ true

  push_policy-Resolved :
      (c : Compiled F) (p : CompiledPolicy F) (ok : Bool) (r : CompileReport F) (st : PolicyState F)
      → (ok ≡ true → IsResolved c p)
      → All (IsResolved c) st.policies
      → All (IsResolved c) (push_policy p (ok, r) st).policies
  unfolding push_policy
  push_policy-Resolved c p true r st a h =
      All-append (IsResolved c) st.policies (p ∷ []) h (a refl, tt)
  push_policy-Resolved c p false r st a h = h

  add_policy-Resolved :
      (c : Compiled F) (pname namespace name : Text) (s : RoutingPolicySpec F) (st : PolicyState F)
      → All (IsResolved c) st.policies
      → All (IsResolved c) (add_policy c pname namespace name s st).policies
  unfolding add_policy compiled_policy
  add_policy-Resolved c pname namespace name s st h =
      push_policy-Resolved c _ _ _ st
        (λ ok.
          let (fallback, d) = check_fallback-ok c namespace pname _ _ _ ok in
          let b = check_learned_router-ok c pname _ _ d in
          let (floor, threshold, a) =
            check_numbers-ok pname s _ (compile_weights-ok pname _ _ _ b) in
          record {
            chosen = resolve_candidates-some c namespace pname s.candidates st.report a;
            candidates = resolve_candidates-AllIn c namespace pname s.candidates st.report;
            fallback = fallback;
            floor = floor;
            threshold = threshold;
          })
        h

  compile_policy-Resolved :
      (c : Compiled F) (meta : Metadata) (name : Option Text) (s : RoutingPolicySpec F)
      (st : PolicyState F)
      → All (IsResolved c) st.policies
      → All (IsResolved c) (compile_policy c meta name s st).policies
  unfolding compile_policy
  compile_policy-Resolved c meta none s st h = h
  compile_policy-Resolved c meta (some name) s st h =
      let namespace = unwrap_or meta.namespace (text "default") in
      elim (Bool-cases (contains st.seen_keys (namespace ++ text "/" ++ name))) [
        | inl b ↦ rw (b, if◌then◌else◌) h
        | inr b ↦ rw (b, if◌then◌else◌) (add_policy-Resolved c (ns_name meta) namespace name s _ h)
      ]

  pub compile_policies-Resolved :
      (c : Compiled F) (ps : List (RoutingPolicy F)) (st : PolicyState F)
      → All (IsResolved c) st.policies
      → All (IsResolved c) (compile_policies c ps st).policies
  unfolding compile_policies
  compile_policies-Resolved c [] st h = h
  compile_policies-Resolved c (p ∷ ps) st h =
      compile_policies-Resolved c ps _
        (compile_policy-Resolved c p.metadata p.metadata.name p.spec st h)

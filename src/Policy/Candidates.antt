-- ===== src/Policy/Candidates.antt =====
-- crates/policy/src/lib.rs, `compile`: the candidate tiers of a policy.
use route_d.Prelude.{
  Bool, true, false, not, none, some, List, [], ◌∷◌, map, Text, text, text_ord, nat_ord, ◌==◌, ◌&&◌,
  if◌then◌else◌, is_empty, BTreeMap, BTreeSet, get, values, insert_set, collect_set, filter, all,
}
use route_d.Api.{capability_ord}
use route_d.Api.Policies.{Candidates}
use route_d.Float.{Float}
use route_d.Snapshot.{CompiledTier, CompiledDataClass, CompiledProfile}
use route_d.Policy.Report.{
  Message, CompileReport, warning, said, not_in_namespace, tier_not_found, push, require,
}

-- what the loop over the policies reads
pub record Compiled (F : Type 0) : Type 0 where
  pub tiers : BTreeMap Text (CompiledTier F)
  pub tier_ns : BTreeMap Text Text
  pub classes : BTreeMap Text (CompiledDataClass F)
  pub profiles : BTreeMap Text (CompiledProfile F)
  pub fx : BTreeMap Text F

-- `candidates.remove(exc)`
unfoldable pub remove_set : BTreeSet Text → Text → BTreeSet Text
remove_set candidates exc = filter (λ c. not (c == exc)) candidates

module _ {F : Type 0} ⦃f : Float F⦄ where
  abbrev pub policy_error :
      Bool → Text → Text → Message F → Bool × CompileReport F → Bool × CompileReport F
  policy_error passes pname = require passes (text "RoutingPolicy") pname

  abbrev pub policy_warning : Bool → Text → Text → Message F → CompileReport F → CompileReport F
  policy_warning passes pname field message r =
      if passes then r else push warning (text "RoutingPolicy") pname field message r

  -- `tier_ns.get(tn).is_some_and(|ns| *ns == namespace)`
  unfoldable pub in_ns : Compiled F → Text → Text → Bool
  in_ns c namespace name = elim (get c.tier_ns name) [ none ↦ false | some ns ↦ ns == namespace ]

  -- `t.labels.get(k) == Some(v)`
  abbrev has_label : CompiledTier F → Text × Text → Bool
  has_label t (k, v) = elim (get t.labels k) [ none ↦ false | some w ↦ w == v ]

  unfoldable pub selected_tiers : Compiled F → Text → Candidates → BTreeSet Text
  selected_tiers c namespace s = collect_set (
      map (λ t. t.name)
        (filter (λ t. all (has_label t) s.tier_selector.match_labels)
          (filter (λ t. in_ns c namespace t.name) (values c.tiers))))

  -- the loop over `include`
  unfoldable pub include_tiers :
      Compiled F
      → Text
      → Text
      → List Text
      → BTreeSet Text × (Bool × CompileReport F)
      → BTreeSet Text × (Bool × CompileReport F)
  include_tiers c namespace pname [] st = st
  include_tiers c namespace pname (inc ∷ incs) (candidates, st) =
      include_tiers c namespace pname incs (
        if in_ns c namespace inc then (insert_set candidates inc, st) else (
          candidates,
          policy_error false pname (text "spec.candidates.include") (not_in_namespace inc namespace)
              st,
        ))

  -- the loop over `exclude`
  unfoldable pub exclude_tiers :
      Compiled F
      → Text
      → Text
      → List Text
      → BTreeSet Text × (Bool × CompileReport F)
      → BTreeSet Text × (Bool × CompileReport F)
  exclude_tiers c namespace pname [] st = st
  exclude_tiers c namespace pname (exc ∷ excs) (candidates, (ok, r)) =
      exclude_tiers c namespace pname excs (
        remove_set candidates exc,
        (
          ok,
          policy_warning (in_ns c namespace exc) pname (text "spec.candidates.exclude")
              (tier_not_found exc) r,
        ),
      )

  -- the candidates of a policy, and whether they are `ok`
  unfoldable pub resolve_candidates :
      Compiled F
      → Text
      → Text
      → Candidates
      → CompileReport F
      → BTreeSet Text × (Bool × CompileReport F)
  resolve_candidates c namespace pname s r =
      let selected = selected_tiers c namespace s in
      let labels_empty = is_empty s.tier_selector.match_labels in
      let r' =
        policy_warning (not (not labels_empty && is_empty s.include && is_empty selected)) pname
          (text "spec.candidates.tierSelector") (said (text "selector matches no tier")) r in
      let base = if not (is_empty s.include) && labels_empty then [] else selected in
      let (candidates, st) =
        exclude_tiers c namespace pname s.exclude
          (include_tiers c namespace pname s.include (base, (true, r'))) in
      (
        candidates,
        policy_error (not (is_empty candidates)) pname (text "spec.candidates")
            (said (text "no candidate tiers resolve")) st,
      )

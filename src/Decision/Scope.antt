-- ===== src/Decision/Scope.antt =====
-- crates/decision/src/lib.rs: which policy governs a request. The child proves what is selected.
pub mod Selection
use route_d.Prelude.{
  Bool, true, false, Option, none, some, List, [], ◌∷◌, ◌++◌, Text, text_ord, ◌==◌, ◌&&◌, ◌||◌,
  find, filter, first, any, if◌then◌else◌,
}
use mathlib.Core.Option
use route_d.Snapshot.{CompiledPolicy, Snapshot}
use route_d.Decision.Types.{
  DecisionInput, Decision, Note, policy_not_overridable, policy_not_matching,
}
use route_d.Decision.Glob.{glob_match, list_matches}

module _ {F : Type 0} where
  unfoldable pub scope_matches : CompiledPolicy F → DecisionInput → Bool
  scope_matches policy input =
      list_matches policy.match_.tenants input.tenant
      && list_matches policy.match_.agents input.agent
      && list_matches policy.match_.paths (some input.path)

  -- the policies of the snapshot in scope, in evaluation order
  unfoldable pub matching_policies : Snapshot F → DecisionInput → List (CompiledPolicy F)
  matching_policies s input = filter (λ p. scope_matches p input) s.core.policies

  abbrev add_note : Decision F → Note → Decision F
  add_note d n = record d { notes = d.notes ++ n ∷ [] }

  -- `Some(p.key) == winner.map(|w| w.key)`
  abbrev is_winner : CompiledPolicy F → Option (CompiledPolicy F) → Bool
  is_winner p none = false
  is_winner p (some w) = p.key == w.key

  abbrev is_named : Text → CompiledPolicy F → Bool
  is_named name p = p.key == name || p.name == name

  abbrev override_policy :
      Text
      → Option (CompiledPolicy F)
      → Option (CompiledPolicy F)
      → Decision F
      → Option (CompiledPolicy F) × Decision F
  override_policy name winner none d = (winner, add_note d (policy_not_matching name))
  override_policy name winner (some p) d =
      if p.overridable || is_winner p winner
      then (some p, d)
      else (winner, add_note d (policy_not_overridable name p.key))

  unfoldable pub select_policy :
      List (CompiledPolicy F) → Option Text → Decision F → Option (CompiledPolicy F) × Decision F
  select_policy matching none d = (first matching, d)
  select_policy matching (some name) d =
      override_policy name (first matching) (find (is_named name) matching) d

  -- `model_aliases.iter().any(…)`
  unfoldable pub is_alias : CompiledPolicy F → Text → Bool
  is_alias policy model = any (λ a. glob_match a model) policy.match_.model_aliases

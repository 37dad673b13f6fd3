-- ===== src/Examples/Engine.antt =====
-- The definitions that a run of `Engine::decide` (crates/decision/src/lib.rs) goes through.
use route_d.Prelude.{
  first, filter, is_empty, any, cmp_text, strip_suffix, starts_with, eq_ignore_ascii_case, lower,
  to_ascii_lowercase, trim, all, contains, find, get, values, insert_sorted, sort_by, ends_with,
  strip_prefix,
}
use route_d.Snapshot.Cost.{div_ceil, estimate_cost, quality_for}
use route_d.Snapshot.Lookup.{tier}
use route_d.Float.Fixed.{fixed_float}
use route_d.Decision.Scope.{select_policy, matching_policies, scope_matches, is_alias}
use route_d.Decision.Glob.{list_matches, glob_match}
use route_d.Decision.Types.{new_decision, is_hard}
use route_d.Decision.Constraints.{
  data_class_violation, hard_constraint_violation, request_fact_violation,
}
use route_d.Decision.DataClass.{
  asks_for, consider, consider_all, entity_hit, header_value, labelled, pii_hit, resolve_data_class,
}
use route_d.Decision.Fallback.{block_fallback, fallback_or_block, fallback_violation, use_fallback}
use route_d.Decision.Round.{micro_to_eur, minmax, norm, round6}
use route_d.Decision.Scoring.{
  apply_floor, by_score, keep_passing, max_cost, parameters_for, predicted_quality, rank_all,
  score_and_select, score_of, scored_tier, select_best,
}
use route_d.Decision.Engine.{
  decide_policy, decide_class, decide_risk, block_on_risk, decide_degraded, decide_survivors,
  degraded_list, prune, risk_needed, round, decide, is_routed,
}

-- named on an `unfolding` line, it makes the runs below this folder compute
unfoldable pub engine : Unit {0}
unfolding first filter is_empty any cmp_text strip_suffix starts_with eq_ignore_ascii_case lower
    to_ascii_lowercase trim all contains find get values insert_sorted sort_by ends_with
    strip_prefix div_ceil estimate_cost quality_for tier fixed_float select_policy matching_policies
    scope_matches is_alias list_matches glob_match new_decision is_hard data_class_violation
    hard_constraint_violation request_fact_violation asks_for consider consider_all entity_hit
    header_value labelled pii_hit resolve_data_class block_fallback fallback_or_block
    fallback_violation use_fallback micro_to_eur minmax norm round6 apply_floor by_score
    keep_passing max_cost parameters_for predicted_quality rank_all score_and_select score_of
    scored_tier select_best decide_policy decide_class decide_risk block_on_risk decide_degraded
    decide_survivors degraded_list prune risk_needed round decide is_routed
engine = tt

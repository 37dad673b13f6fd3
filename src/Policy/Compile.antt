-- ===== src/Policy/Compile.antt =====
-- crates/policy/src/lib.rs: the order of the policies, the warnings on shadowed ones, and `compile`.
-- The content hash and the JSON of a match (serde_json, sha2) are parameters. The child proves what a compiled snapshot is.
pub mod Sound
use route_d.Prelude.{
  ℕ, Bool, true, false, not, ◌⊎◌, inl, inr, Option, none, some, List, [], ◌∷◌, ◌++◌, Text, text,
  if◌then◌else◌, then_cmp, compare, cmp_text, Ordering, sort_by,
}
use mathlib.Core.Option
use route_d.Api.Tiers.{ModelTier}
use route_d.Api.Classes.{DataClass}
use route_d.Api.Policies.{RoutingPolicy}
use route_d.Api.Profiles.{RouterProfile}
use route_d.Float.{Float}
use route_d.Snapshot.{CompiledTier, CompiledPolicy, CompiledMatch, SnapshotCore, Snapshot}
use route_d.Snapshot.Lookup.{from_core}
use route_d.Policy.Report.{CompileReport, warning, same_match, push, has_errors}
use route_d.Policy.Rates.{collect_rates}
use route_d.Policy.Profiles.{compile_profiles}
use route_d.Policy.Classes.{ClassState, compile_classes}
use route_d.Policy.Tiers.{TierState, compile_tiers}
use route_d.Policy.Candidates.{Compiled}
use route_d.Policy.Policies.{PolicyState, compile_policies}

-- `SCHEMA_VERSION` of crates/snapshot/src/lib.rs
abbrev schema_version : ℕ
schema_version = 1

pub record CompileInput (F : Type 0) : Type 0 where
  pub tiers : List (ModelTier F)
  pub data_classes : List (DataClass F)
  pub policies : List (RoutingPolicy F)
  pub profiles : List (RouterProfile F)

-- the key of a group of policies with one priority, namespace and match
pub record GroupKey : Type 0 where
  pub priority : ℕ
  pub namespace : Text
  pub match_json : Text

abbrev cmp_group : GroupKey → GroupKey → Ordering
cmp_group a b =
    then_cmp (compare a.priority b.priority)
      (then_cmp (cmp_text a.namespace b.namespace) (cmp_text a.match_json b.match_json))

-- `groups.entry(key).or_default().push(…)`
unfoldable pub push_group :
    GroupKey → Text → List (GroupKey × List Text) → List (GroupKey × List Text)
push_group k p [] = (k, p ∷ []) ∷ []
push_group k p ((j, ps) ∷ gs) =
    let rest = push_group k p gs in
    elim (cmp_group k j) [
      | Ordering.lt ↦ (k, p ∷ []) ∷ (j, ps) ∷ gs
      | Ordering.eq ↦ (j, ps ++ p ∷ []) ∷ gs
      | Ordering.gt ↦ (j, ps) ∷ rest
    ]

module _ {F : Type 0} where
  -- priority descending, then the key
  unfoldable pub by_priority : CompiledPolicy F → CompiledPolicy F → Ordering
  by_priority a b = then_cmp (compare b.priority a.priority) (cmp_text a.key b.key)

  unfoldable pub group_policies :
      (CompiledMatch → Text)
      → List (CompiledPolicy F)
      → List (GroupKey × List Text)
      → List (GroupKey × List Text)
  group_policies match_json [] gs = gs
  group_policies match_json (p ∷ ps) gs = group_policies match_json ps (
      push_group
        (record {
          priority = p.priority;
          namespace = p.namespace;
          match_json = match_json p.match_;
        })
        p.key gs)

  warn_shadowed : Text → List Text → CompileReport F → CompileReport F
  warn_shadowed winner [] r = r
  warn_shadowed winner (shadowed ∷ rest) r =
      warn_shadowed winner rest
        (push warning (text "RoutingPolicy") shadowed (text "spec.priority") (same_match winner) r)

  unfoldable pub warn_groups : List (GroupKey × List Text) → CompileReport F → CompileReport F
  unfolding warn_shadowed
  warn_groups [] r = r
  warn_groups ((k, []) ∷ gs) r = warn_groups gs r
  warn_groups ((k, winner ∷ rest) ∷ gs) r = warn_groups gs (warn_shadowed winner rest r)

module _ {F : Type 0} ⦃f : Float F⦄ where
  -- the maps that the loops before the policies fill, and the report
  unfoldable pub compile_tables : CompileInput F → Compiled F × CompileReport F
  compile_tables input =
      let (fx, a) = collect_rates input.profiles ([], record { diags = [] }) in
      let (profiles, b) = compile_profiles input.profiles ([], a) in
      let c : ClassState F =
        compile_classes input.data_classes
          (record { classes = []; ranks = []; header_owner = []; report = b }) in
      let t : TierState F =
        compile_tiers input.tiers c.classes fx
          (record { tiers = []; tier_ns = []; report = c.report }) in
      (
        record {
          tiers = t.tiers;
          tier_ns = t.tier_ns;
          classes = c.classes;
          profiles = profiles;
          fx = fx;
        },
        t.report,
      )

  module _ (match_json : CompiledMatch → Text) (compiler_version : Text) where
    -- the core that the loops build, and the report
    unfoldable pub compile_core : CompileInput F → SnapshotCore F × CompileReport F
    compile_core input =
        let (c, r) = compile_tables input in
        let p : PolicyState F =
          compile_policies c input.policies
            (record { policies = []; seen_keys = []; report = r }) in
        let policies = sort_by by_priority p.policies in
        (
          record {
            schema_version = schema_version;
            compiler_version = compiler_version;
            tiers = c.tiers;
            data_classes = c.classes;
            policies = policies;
            profiles = c.profiles;
          },
          warn_groups (group_policies match_json policies []) p.report,
        )

    unfoldable pub compile :
        (SnapshotCore F → Text) → CompileInput F → CompileReport F ⊎ (Snapshot F × CompileReport F)
    compile content_hash input =
        let (core, report) = compile_core input in
        if has_errors report then inl report else inr (from_core content_hash core, report)

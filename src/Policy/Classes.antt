-- ===== src/Policy/Classes.antt =====
-- crates/policy/src/lib.rs, `compile`: the data classes.
use route_d.Prelude.{
  ℕ, Option, none, some, List, [], ◌∷◌, ◌++◌, map, Text, text, text_ord, nat_ord, ◌==◌,
  if◌then◌else◌, is_some, BTreeMap, get, insert, collect_set, to_ascii_lowercase,
}
use route_d.Api.{capability_ord, jurisdiction_ord, operator_control_ord, pii_entity_ord}
use route_d.Api.Classes.{DataClass, DataClassSpec}
use route_d.Float.{Float}
use route_d.Snapshot.{CompiledDataClass}
use route_d.Policy.Report.{
  CompileReport, error, warning, said, rank_shared, header_claimed, push, report_unless, ns_name,
}
use route_d.Policy.Checks.{is_probability}

-- the maps that the loop fills, and the report
pub record ClassState (F : Type 0) : Type 0 where
  pub classes : BTreeMap Text (CompiledDataClass F)
  pub ranks : BTreeMap ℕ Text
  pub header_owner : BTreeMap Text Text
  pub report : CompileReport F

module _ {F : Type 0} ⦃f : Float F⦄ where
  compiled_class : Text → DataClassSpec F → CompiledDataClass F
  compiled_class name s = record {
    name = name;
    rank = s.rank;
    header_values = collect_set (map to_ascii_lowercase s.detection.header_values);
    pii_entities = collect_set s.detection.pii_entities;
    min_confidence = s.detection.min_confidence;
    require_jurisdiction = collect_set s.constraints.require_jurisdiction;
    forbid_cloud_act_exposed = s.constraints.forbid_cloud_act_exposed;
    require_operator_control = collect_set s.constraints.require_operator_control;
    forbid_capabilities = collect_set s.constraints.forbid_capabilities;
    max_retention_days = s.constraints.max_retention_days;
  }

  -- `if let Some(other) = ranks.insert(…)`
  warn_rank : Text → ℕ → Option Text → CompileReport F → CompileReport F
  warn_rank dname rank none r = r
  warn_rank dname rank (some other) r =
      push warning (text "DataClass") dname (text "spec.rank") (rank_shared rank other) r

  -- `if let Some(other) = header_owner.insert(…)`
  check_owner : Text → Text → Text → Option Text → CompileReport F → CompileReport F
  check_owner dname name value none r = r
  check_owner dname name value (some other) r =
      report_unless (other == name) (text "DataClass") dname (text "spec.detection.headerValues")
        (header_claimed value other) r

  claim_values :
      Text
      → Text
      → List Text
      → BTreeMap Text Text × CompileReport F
      → BTreeMap Text Text × CompileReport F
  unfolding check_owner
  claim_values dname name [] st = st
  claim_values dname name (v ∷ vs) (owners, r) =
      claim_values dname name vs (insert owners v name, check_owner dname name v (get owners v) r)

  add_class : Text → Text → DataClassSpec F → ClassState F → ClassState F
  unfolding compiled_class warn_rank claim_values
  add_class dname name s st =
      let r =
        report_unless (is_probability s.detection.min_confidence) (text "DataClass") dname
          (text "spec.detection.minConfidence") (said (text "must be in 0..=1")) st.report in
      let r' = warn_rank dname s.rank (get st.ranks s.rank) r in
      let values =
        map to_ascii_lowercase s.detection.header_values ++ to_ascii_lowercase name ∷ [] in
      let (owners, r'') = claim_values dname name values (st.header_owner, r') in
      record {
        classes = insert st.classes name (compiled_class name s);
        ranks = insert st.ranks s.rank name;
        header_owner = owners;
        report = r'';
      }

  compile_class : Text → Option Text → DataClassSpec F → ClassState F → ClassState F
  unfolding add_class
  compile_class dname none s st = record st {
    report =
        push error (text "DataClass") dname (text "metadata.name") (said (text "missing name"))
          st.report;
  }
  compile_class dname (some name) s st =
      if is_some (get st.classes name)
      then record st {
        report =
            push error (text "DataClass") dname (text "metadata.name")
              (said (text "data class names must be unique within one snapshot")) st.report;
      }
      else add_class dname name s st

  unfoldable pub compile_classes : List (DataClass F) → ClassState F → ClassState F
  unfolding compile_class
  compile_classes [] st = st
  compile_classes (dc ∷ dcs) st =
      compile_classes dcs (compile_class (ns_name dc.metadata) dc.metadata.name dc.spec st)

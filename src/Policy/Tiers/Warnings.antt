-- ===== src/Policy/Tiers/Warnings.antt =====
-- crates/policy/src/lib.rs, `compile`: what it warns of when it accepts a tier.
use mathlib.Core.List.{append_assoc, append-nil}
use mathlib.Core.Option
use route_d.Prelude.{
  ◌≡◌, refl, sym, ap, ◌∙◌, true, Option, none, some, List, [], ◌∷◌, ◌++◌, Text, text, text_ord,
  if◌then◌else◌, and_then, unwrap_or, BTreeMap, get, get-insert_self,
}
use route_d.Api.Resources.{Metadata}
use route_d.Api.Tiers.{ModelTierSpec}
use route_d.Float.{Float}
use route_d.Snapshot.{CompiledTier, CompiledDataClass}
use route_d.Decision.Types.{EliminationReason}
use route_d.Decision.Constraints
use route_d.Policy.Report.{Diag, CompileReport, warning, violates, push, ns_name}
use route_d.Policy.Checks.{data_class_violation}
use route_d.Policy.Checks.Agreement.{in_words, data_class_violation-agrees}
use route_d.Policy.Tiers.{
  TierState, warn_claim, warn_claims, tier_prices, check_tier, compiled_tier, add_tier,
  compile_tier,
}

module _ {F : Type 0} where
  -- The engine eliminates the tier for this class.
  abbrev claim_warning : Text → Text → EliminationReason → Diag F
  claim_warning tname dcn reason = record {
    level = warning;
    kind = text "ModelTier";
    name = tname;
    field = text "spec.sovereignty.allowedDataClasses";
    message = violates dcn (in_words reason);
  }

  abbrev warned : Text → Text → Option EliminationReason → List (Diag F)
  warned tname dcn none = []
  warned tname dcn (some reason) = claim_warning tname dcn reason ∷ []

  -- One warning, in order, for each class that the tier claims and for which the engine eliminates
  -- it, with the engine's reason.
  abbrev pub warnings_of :
      Text → BTreeMap Text (CompiledDataClass F) → CompiledTier F → List Text → List (Diag F)
  warnings_of tname classes t [] = []
  warnings_of tname classes t (dcn ∷ dcns) =
      warned tname dcn (and_then (get classes dcn) (Constraints.data_class_violation t))
      ++ warnings_of tname classes t dcns

module _ {F : Type 0} ⦃f : Float F⦄ where
  warn_claim-warned :
      (tname dcn : Text) (o : Option EliminationReason) (r : CompileReport F)
      → (warn_claim tname dcn (Option.map in_words o) r).diags ≡ r.diags ++ warned tname dcn o
  unfolding warn_claim push
  warn_claim-warned tname dcn none r = sym (append-nil r.diags)
  warn_claim-warned tname dcn (some reason) r = refl

  violation-agrees :
      (t : CompiledTier F) (o : Option (CompiledDataClass F))
      → and_then o (data_class_violation t)
        ≡ Option.map in_words (and_then o (Constraints.data_class_violation t))
  violation-agrees t none = refl
  violation-agrees t (some dc) = data_class_violation-agrees t dc

  warn_claims-warnings :
      (tname : Text) (classes : BTreeMap Text (CompiledDataClass F)) (t : CompiledTier F)
      (dcns : List Text) (r : CompileReport F)
      → (warn_claims tname classes t dcns r).diags ≡ r.diags ++ warnings_of tname classes t dcns
  unfolding warn_claims
  warn_claims-warnings tname classes t [] r = sym (append-nil r.diags)
  warn_claims-warnings tname classes t (dcn ∷ dcns) r =
      let o = and_then (get classes dcn) (Constraints.data_class_violation t) in
      warn_claims-warnings tname classes t dcns _
      ∙ ap (λ ds. ds ++ warnings_of tname classes t dcns)
          (ap (λ w. (warn_claim tname dcn w r).diags) (violation-agrees t (get classes dcn))
            ∙ warn_claim-warned tname dcn o r)
      ∙ append_assoc r.diags (warned tname dcn o) (warnings_of tname classes t dcns)

  -- If the name of a tier is new and the tier passes every check, then it is in the snapshot under
  -- its name, and beside what the checks report the compiler reports exactly one warning, in order,
  -- for each data class that the tier claims and for which the engine eliminates it, with the
  -- engine's reason in words.
  pub compile_tier-warns :
      (meta : Metadata) (name : Text) (s : ModelTierSpec F)
      (classes : BTreeMap Text (CompiledDataClass F)) (fx : BTreeMap Text F) (st : TierState F)
      → get st.tiers name ≡ none
      → (check_tier (ns_name meta) s classes (tier_prices s fx) st.report).0 ≡ true
      → let after = compile_tier meta (some name) s classes fx st in
        (t : CompiledTier F) × (get after.tiers name ≡ some t)
        × (after.report.diags
            ≡ (check_tier (ns_name meta) s classes (tier_prices s fx) st.report).1.diags
              ++ warnings_of (ns_name meta) classes t t.allowed_data_classes)
  unfolding compile_tier add_tier
  compile_tier-warns meta name s classes fx st new passed =
      let t = compiled_tier name s (unwrap_or (tier_prices s fx) (0, 0)) in
      rw (new, passed, if◌then◌else◌)
        (
          t,
          get-insert_self st.tiers name t,
          warn_claims-warnings (ns_name meta) classes t t.allowed_data_classes _,
        )

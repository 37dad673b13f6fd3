-- ===== src/Policy/Profiles.antt =====
-- crates/policy/src/lib.rs, `compile`: the profiles.
use route_d.Prelude.{
  Bool, true, false, not, Option, none, some, List, [], ◌∷◌, ◌++◌, Text, text, text_ord, nat_ord,
  ◌==◌, ◌&&◌, if◌then◌else◌, is_some, and_then, unwrap_or, BTreeMap, get, insert,
}
use mathlib.Core.Option
use route_d.Api.{ArtifactType, onnx}
use route_d.Api.Profiles.{RouterProfile, RouterProfileSpec}
use route_d.Float.{Float}
use route_d.Snapshot.{CompiledProfile}
use route_d.Policy.Report.{CompileReport, error, said, push, report_unless, ns_name}
use route_d.Policy.Checks.{is_probability}

abbrev is_onnx : ArtifactType → Bool
is_onnx onnx = true
is_onnx _ = false

module _ {F : Type 0} ⦃f : Float F⦄ where
  abbrev profile_error : Bool → Text → Text → Text → CompileReport F → CompileReport F
  profile_error passes pname field message =
      report_unless passes (text "RouterProfile") pname field (said message)

  abbrev calibration_of : RouterProfileSpec F → BTreeMap Text F
  calibration_of s = unwrap_or (Option.map (λ l. l.calibration) s.learned_router) []

  check_calibration : Text → BTreeMap Text F → CompileReport F → CompileReport F
  check_calibration pname [] r = r
  check_calibration pname ((k, v) ∷ es) r = check_calibration pname es (
      profile_error (is_some (f.parse k) && is_probability v) pname
        (text "spec.learnedRouter.calibration." ++ k)
        (text "keys must be numeric quality floors and values probabilities in 0..=1") r)

  -- ADR-0016: an ONNX classifier needs both artifacts
  check_classifier : Text → RouterProfileSpec F → CompileReport F → CompileReport F
  check_classifier pname s r =
      if is_onnx s.classifier.type_
      then profile_error (is_some s.classifier.tokenizer_uri) pname
          (text "spec.classifier.tokenizerUri")
          (text "type: onnx requires a tokenizer artifact uri")
          (profile_error (is_some s.classifier.uri) pname (text "spec.classifier.uri")
            (text "type: onnx requires a model artifact uri") r)
      else r

  unfoldable pub check_profile : Text → RouterProfileSpec F → CompileReport F → CompileReport F
  unfolding check_calibration check_classifier
  check_profile pname s r = check_calibration pname (calibration_of s) (
      check_classifier pname s (
        profile_error (not (s.cost_model.default_output_tokens == 0)) pname
          (text "spec.costModel.defaultOutputTokens") (text "must be > 0")
          (profile_error (not (s.classifier.timeout_ms == 0)) pname
            (text "spec.classifier.timeoutMs") (text "must be > 0") r)))

  compiled_profile : Text → RouterProfileSpec F → CompiledProfile F
  compiled_profile name s = record {
    name = name;
    classifier_type = s.classifier.type_;
    classifier_uri = s.classifier.uri;
    classifier_tokenizer_uri = s.classifier.tokenizer_uri;
    classifier_timeout_ms = s.classifier.timeout_ms;
    task_labels = s.classifier.labels.task;
    sensitivity_labels = s.classifier.labels.sensitivity;
    embedder_uri = and_then s.embedder (λ e. e.uri);
    embedder_dimensions = Option.map (λ e. e.dimensions) s.embedder;
    learned_router_uri = and_then s.learned_router (λ l. l.uri);
    calibration = calibration_of s;
    pii_detector_uri = and_then s.security.pii_detector (λ a. a.uri);
    injection_detector_uri = and_then s.security.injection_detector (λ a. a.uri);
    default_output_tokens = s.cost_model.default_output_tokens;
  }

  compile_profile :
      Text
      → Option Text
      → RouterProfileSpec F
      → BTreeMap Text (CompiledProfile F) × CompileReport F
      → BTreeMap Text (CompiledProfile F) × CompileReport F
  unfolding compiled_profile check_profile
  compile_profile pname none s (profiles, r) = (
    profiles,
    push error (text "RouterProfile") pname (text "metadata.name") (said (text "missing name")) r,
  )
  compile_profile pname (some name) s (profiles, r) =
      if is_some (get profiles name)
      then (
        profiles,
        push error (text "RouterProfile") pname (text "metadata.name")
            (said (text "profile names must be unique within one snapshot")) r,
      )
      else (insert profiles name (compiled_profile name s), check_profile pname s r)

  unfoldable pub compile_profiles :
      List (RouterProfile F)
      → BTreeMap Text (CompiledProfile F) × CompileReport F
      → BTreeMap Text (CompiledProfile F) × CompileReport F
  unfolding compile_profile
  compile_profiles [] st = st
  compile_profiles (p ∷ ps) st =
      compile_profiles ps (compile_profile (ns_name p.metadata) p.metadata.name p.spec st)

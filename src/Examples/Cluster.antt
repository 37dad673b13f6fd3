-- ===== src/Examples/Cluster.antt =====
-- The status writes and the lease of the operator (cmd/routed-operator) and the feedback handler
-- (crates/ingress-inline), at concrete objects and bodies.
use route_d.Prelude.{
  ℕ, ◌≡◌, refl, none, some, [], ◌∷◌, Text, text, text_ord, ◌==◌, if◌then◌else◌, ok, err, unwrap_or,
  cmp_text, contains, all, byte_len, nat_ord,
}
use route_d.Float.Fixed.{Fixed}
use route_d.Json.{Value, Fields, Serde, get_key, get_field}
use route_d.Policy.Report.{CompileReport, Message, said, error}
use route_d.Inline.Exchange.{allow}
use route_d.Inline.Feedback.{
  is_decision_id, keep_if, source_of, outcome_of, accepted, read_feedback, feedback_authorised,
  feedback,
}
use route_d.Inline.Feedback.Journaled.{Journals, feedback-Journals}
use route_d.Inline.Handlers.{list_len}
use route_d.Operator.Status.{
  Object, StatusPatch, conditions_of, observed_of, hash_of, object_name, write_plain, write_policy,
  apply,
}
use route_d.Operator.Status.Settles.{IsMergePatch, after, apply-settles}
use route_d.Examples.Wire.{http}

abbrev merged : StatusPatch ℕ → Object ℕ → Object ℕ
merged p o = record o {
  status = some (record {
    conditions = p.condition ∷ [];
    observed_generation = p.observed_generation;
    compiled_hash = unwrap_or p.compiled_hash (hash_of ℕ o.status);
  });
}

merged-IsMergePatch : IsMergePatch ℕ merged
unfolding conditions_of observed_of hash_of object_name
merged-IsMergePatch = record {
  conditions_after = λ p o. refl;
  observed_after = λ p o. refl;
  hash_after = λ p o. refl;
  generation_kept = λ p o. refl;
  name_kept = λ p o. refl;
}

abbrev words : Message Fixed → Text
words (said t) = t
words _ = text "error"

-- one tier has no price
abbrev report : CompileReport Fixed
report = record {
  diags =
      record {
        level = error;
        kind = text "ModelTier";
        name = text "ai/small";
        field = text "spec.cost";
        message = said (text "no price");
      }
      ∷ [];
}

abbrev object : Text → Object ℕ
object name = record {
  namespace = some (text "ai");
  name = name;
  generation = some 2;
  status = none;
}

apply-settles_example :
    apply ℕ words report
      (some (text "sha256:1"))
      (λ o. 9)
      (after ℕ merged merged-IsMergePatch words report
        (some (text "sha256:1"))
        (write_plain ℕ words report (some (text "sha256:1")) (text "ModelTier"))
        (λ o. 4)
        (object (text "small") ∷ object (text "large") ∷ []))
      (after ℕ merged merged-IsMergePatch words report
        (some (text "sha256:1"))
        (write_plain ℕ words report (some (text "sha256:1")) (text "DataClass"))
        (λ o. 4)
        [])
      (after ℕ merged merged-IsMergePatch words report
        (some (text "sha256:1"))
        (write_plain ℕ words report (some (text "sha256:1")) (text "RouterProfile"))
        (λ o. 4)
        [])
      (after ℕ merged merged-IsMergePatch words report
        (some (text "sha256:1"))
        (write_policy ℕ words report (some (text "sha256:1")))
        (λ o. 4)
        (object (text "agents") ∷ []))
    ≡ []
apply-settles_example =
    apply-settles ℕ merged merged-IsMergePatch words report (some (text "sha256:1")) (λ o. 4)
      (λ o. 9) (object (text "small") ∷ object (text "large") ∷ []) [] []
      (object (text "agents") ∷ [])

-- the feedback that the byte 1 stands for
abbrev said_of_decision : Value
said_of_decision = Value.object (
    Fields.field (text "decisionId") (Value.string (text "01ARZ3NDEKTSV4RRFFQ69G5FAV"))
      (Fields.field (text "source") (Value.string (text "robot")) Fields.end))

abbrev feedback_serde : Serde
feedback_serde = record {
  from_slice = λ body. if body == 1 ∷ [] then ok said_of_decision else err (text "expected value");
  to_string = λ v. text "{}";
}

feedback-Journals_example :
    Journals http Fixed
      (λ h. allow)
      []
      (1 ∷ [])
      (feedback http feedback_serde (λ h. allow) (text "2026-01-01T00:00:00Z") [] (1 ∷ []))
feedback-Journals_example =
    feedback-Journals http Fixed feedback_serde (λ h. allow) (text "2026-01-01T00:00:00Z") []
      (1 ∷ [])

feedback_recorded :
    (feedback http {F = Fixed} feedback_serde (λ h. allow) (text "now") [] (1 ∷ [])).1
    ≡ some (record {
      decision_id = text "01ARZ3NDEKTSV4RRFFQ69G5FAV";
      ts = text "now";
      source = text "unknown";
      outcome = Value.null;
    })
unfolding feedback feedback_authorised read_feedback accepted keep_if is_decision_id source_of
    outcome_of get_key get_field cmp_text contains all byte_len list_len
feedback_recorded = refl

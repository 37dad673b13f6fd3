-- ===== src/Inline/Feedback.antt =====
-- crates/ingress-inline/src/handlers.rs, `feedback`: what a caller says of a decision.
pub mod Journaled
use mathlib.Core.Option
use route_d.Prelude.{
  ℕ, ◌*◌, Bool, true, false, not, Option, none, some, List, [], ◌∷◌, Text, text, text_ord, nat_ord,
  ◌==◌, ◌&&◌, ◌||◌, if◌then◌else◌, and_then, unwrap_or, all, contains, ltb, leb, byte_len, Result,
  ok, err,
}
use route_d.Json.{Value, null, get_key, as_str, is_object, Serde}
use route_d.Inline.Http.{Http}
use route_d.Inline.Replies.{
  fixed, plain, Response, application_json, typed, auth_denied, bad_request, too_large,
}
use route_d.Inline.Exchange.{AuthDecision, allow, deny}
use route_d.Inline.Handlers.{list_len}

-- `FeedbackRecord`
pub record FeedbackRecord : Type 0 where
  pub decision_id : Text
  pub ts : Text
  pub source : Text
  pub outcome : Value

abbrev pub is_ascii_alphanumeric : ℕ → Bool
is_ascii_alphanumeric c =
    (leb 48 c && leb c 57) || (leb 65 c && leb c 90) || (leb 97 c && leb c 122)

unfoldable pub is_decision_id : Text → Bool
is_decision_id id = byte_len id == 26 && all is_ascii_alphanumeric id

abbrev pub sources : List Text
sources = text "user" ∷ text "agent" ∷ text "gateway" ∷ []

-- `Option::filter`
unfoldable pub keep_if : {A : Type 0} → (A → Bool) → Option A → Option A
keep_if p none = none
keep_if p (some a) = if p a then some a else none

unfoldable pub source_of : Value → Text
source_of v =
    unwrap_or (keep_if (contains sources) (and_then (get_key v (text "source")) as_str))
      (text "unknown")

unfoldable pub outcome_of : Value → Value
outcome_of v = unwrap_or (keep_if is_object (get_key v (text "outcome"))) null

module _ (x : Http) {F : Type 0} where
  -- the answer, and what is recorded
  unfoldable pub accepted : Text → Value → Option Text → Response x F × Option FeedbackRecord
  accepted ts v none = (bad_request x (fixed (text "feedback requires a ULID decisionId")), none)
  accepted ts v (some id) = (
    typed x 202 application_json (plain (text "{\"status\":\"accepted\"}")),
    some (record { decision_id = id; ts = ts; source = source_of v; outcome = outcome_of v }),
  )

  unfoldable pub read_feedback : Text → Result Value Text → Response x F × Option FeedbackRecord
  read_feedback ts (err e) = (bad_request x (fixed (text "feedback must be JSON")), none)
  read_feedback ts (ok v) =
      accepted ts v (keep_if is_decision_id (and_then (get_key v (text "decisionId")) as_str))

  unfoldable pub feedback_authorised :
      Serde → Text → List ℕ → AuthDecision → Response x F × Option FeedbackRecord
  feedback_authorised serde ts body (deny status reason) = (auth_denied x status reason, none)
  feedback_authorised serde ts body allow =
      if ltb (64 * 1024) (list_len body)
      then (too_large x (64 * 1024), none)
      else read_feedback ts (serde.from_slice body)

  -- `POST /v1/feedback`, at the time `ts`
  unfoldable pub feedback :
      Serde
      → (x.Headers → AuthDecision)
      → Text
      → x.Headers
      → List ℕ
      → Response x F × Option FeedbackRecord
  feedback serde authenticate ts headers body =
      feedback_authorised serde ts body (authenticate headers)

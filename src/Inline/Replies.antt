-- ===== src/Inline/Replies.antt =====
-- crates/ingress-inline/src/errors.rs and headers.rs: the responses of routeD and the headers of a
-- decision. A JSON body is a value with what it is made of; the texts put into messages are values.
use mathlib.Core.Option
use route_d.Prelude.{
  ℕ, Bool, Option, none, some, List, Text, text, text_ord, nat_ord, ◌==◌, if◌then◌else◌, and_then,
  unwrap_or, leb, byte_len, filter_map, collect_set,
}
use route_d.Decision.Types.{
  Decision, Outcome, route, pass_through, block, Reason, EliminationReason,
  deny_if_risk_score_above, data_class_not_allowed, data_class_require_jurisdiction,
  data_class_forbid_cloud_act_exposed, data_class_require_operator_control,
  data_class_forbid_capabilities, require_capabilities, tools_not_supported, context_window,
  max_risk_score, tool_calling_not_allowed, max_cost_per_request, quality_floor,
}
use route_d.Router.Extract.{ParseError}
use route_d.Inline.Http.{Http}

-- `message` of an error.
pub data Words (F : Type 0) : Type 0 where
  fixed : Text → Words F
  exceeds : (limit : ℕ) → Words F
  parse_failed : ParseError → Words F
  cannot_rewrite : Text → Words F
  because : Reason F → Words F

-- `extra` of an error: why a decision blocks.
pub record Blocked : Type 0 where
  pub decision_id : Text
  pub policy : Option Text
  pub reasons : List Text
  pub snapshot_hash : Text

pub data Body (F : Type 0) : Type 0 where
  error : (error_type code : Text) → Words F → Option Blocked → Body F
  decided : Decision F → Body F
  plain : Text → Body F
  upstream : List ℕ → Body F

-- `EliminationReason::to_string`
unfoldable pub reason_text : EliminationReason → Text
reason_text deny_if_risk_score_above = text "hardConstraints.denyIfRiskScoreAbove"
reason_text data_class_not_allowed = text "dataClass.allowedDataClasses"
reason_text data_class_require_jurisdiction = text "dataClass.requireJurisdiction"
reason_text data_class_forbid_cloud_act_exposed = text "dataClass.forbidCloudActExposed"
reason_text data_class_require_operator_control = text "dataClass.requireOperatorControl"
reason_text data_class_forbid_capabilities = text "dataClass.forbidCapabilities"
reason_text require_capabilities = text "hardConstraints.requireCapabilities"
reason_text tools_not_supported = text "capabilities.tools"
reason_text context_window = text "capabilities.contextWindow"
reason_text max_risk_score = text "security.maxRiskScore"
reason_text tool_calling_not_allowed = text "security.toolCallingAllowed"
reason_text max_cost_per_request = text "hardConstraints.maxCostPerRequestEUR"
reason_text quality_floor = text "qualityFloor"

-- `Outcome::to_string`
unfoldable pub outcome_text : Outcome → Text
outcome_text route = text "ROUTE"
outcome_text pass_through = text "PASS_THROUGH"
outcome_text block = text "BLOCK"

-- What is printed into headers: a cost with eight digits, and the base64 of the whole decision and
-- of its compact form.
pub record Printing (F : Type 0) : Type 0 where
  pub cost : F → Text
  pub full : Decision F → Text
  pub compact : Decision F → Text

pub record Response (x : Http) (F : Type 0) : Type 0 where
  pub status : ℕ
  pub headers : x.Headers
  pub body : Body F

abbrev pub content_type : Text
content_type = text "content-type"

abbrev pub application_json : Text
application_json = text "application/json"

module _ (x : Http) where
  -- a response with the one header that says its type
  abbrev pub typed : {F : Type 0} → ℕ → Text → Body F → Response x F
  typed status type body = record {
    status = status;
    headers = x.insert x.none_yet content_type type;
    body = body;
  }

  unfoldable pub error_response :
      {F : Type 0} → ℕ → Text → Text → Words F → Option Blocked → Response x F
  error_response status error_type code message extra =
      typed status application_json (error error_type code message extra)

  unfoldable pub auth_denied : {F : Type 0} → ℕ → Text → Response x F
  unfolding error_response
  auth_denied status reason =
      if status == 403
      then error_response 403 (text "invalid_request_error") (text "forbidden") (fixed reason) none
      else error_response 401 (text "invalid_request_error") (text "unauthorized") (fixed reason)
          none

  unfoldable pub bad_request : {F : Type 0} → Words F → Response x F
  unfolding error_response
  bad_request message =
      error_response 400 (text "invalid_request_error") (text "routed_invalid_request") message none

  unfoldable pub too_large : {F : Type 0} → ℕ → Response x F
  unfolding error_response
  too_large limit =
      error_response 413 (text "invalid_request_error") (text "routed_body_too_large")
        (exceeds limit) none

  unfoldable pub not_ready : {F : Type 0} → Response x F
  unfolding error_response
  not_ready =
      error_response 503 (text "server_error") (text "routed_not_ready")
        (fixed (text "no routing snapshot loaded")) none

  unfoldable pub bad_gateway : {F : Type 0} → Text → Response x F
  unfolding error_response
  bad_gateway message =
      error_response 502 (text "server_error") (text "routed_upstream_error") (fixed message) none

  -- `if let Some(v) = … { headers.insert(NAME, v) }`
  unfoldable pub insert_some : Text → Option Text → x.Headers → x.Headers
  insert_some name none h = h
  insert_some name (some v) h = x.insert h name v

  module _ {F : Type 0} (p : Printing F) where
    unfoldable pub encoded : Decision F → ℕ → Text
    encoded d max = if leb (byte_len (p.full d)) max then p.full d else p.compact d

    unfoldable pub apply : x.Headers → Decision F → Bool → ℕ → x.Headers
    apply headers d explain max =
        let h1 = insert_some (text "x-routed-decision-id") (x.header_value d.id) headers in
        let h2 =
          insert_some (text "x-routed-outcome") (x.header_value (outcome_text d.outcome)) h1 in
        let h3 = insert_some (text "x-routed-tier") (and_then d.selected_tier x.header_value) h2 in
        let h4 =
          insert_some (text "x-routed-data-class") (and_then d.data_class x.header_value) h3 in
        let h5 =
          insert_some (text "x-routed-estimated-cost")
            (and_then d.estimated_cost_eur λ c. x.header_value (p.cost c)) h4 in
        insert_some (text "x-routed-decision")
          (if explain then x.header_value (encoded d max) else none) h5

    -- what a blocked request is answered with
    unfoldable pub block_response : Decision F → Bool → ℕ → Response x F
    unfolding error_response
    block_response d explain hmax =
        let reasons =
          collect_set (filter_map (λ c. Option.map reason_text c.eliminated_by) d.candidates) in
        let resp =
          error_response 403 (text "invalid_request_error") (text "routed_policy_blocked")
            (unwrap_or (Option.map because d.reason) (fixed (text "blocked by routing policy")))
            (some (record {
              decision_id = d.id;
              policy = d.policy;
              reasons = reasons;
              snapshot_hash = d.snapshot_hash;
            })) in
        record resp { headers = apply resp.headers d explain hmax }

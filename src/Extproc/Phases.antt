-- ===== src/Extproc/Phases.antt =====
-- crates/ingress-extproc/src/lib.rs: the two phases of a request, its headers and its body.
pub mod Agrees
use mathlib.Core.Option
use route_d.Prelude.{
  ℕ, Bool, true, false, not, Option, none, some, List, [], ◌∷◌, ◌++◌, Text, text, text_ord, nat_ord,
  ◌==◌, ◌&&◌, ◌||◌, if◌then◌else◌, and_then, first, split, ltb, saturating_add, Result, ok, err,
}
use route_d.Float.{Float}
use route_d.Decision.Types.{Decision}
use route_d.Json.{Serde}
use route_d.Inline.Paths.{normalize_path, is_routed_path}
use route_d.Inline.Rewrite.{IndexMap, RawJson, rewrite_body}
use route_d.Inline.Http.{Http}
use route_d.Inline.Forward.{content_length}
use route_d.Inline.Replies.{
  Printing, Response, too_large, bad_request, cannot_rewrite, block_response,
}
use route_d.Inline.Decide.{Event, AppState, Circumstances, Decided, decide_bytes}
use route_d.Inline.Exchange.{Surroundings}
use route_d.Inline.Handlers.{is_route, is_block, list_len, shown}
use route_d.Extproc.Envoy.{
  Overwrite, HeaderMutation, CommonResponse, HttpHeaders, HttpBody, headers_response, body_response,
  ProcessingResponse, Bytes, plain, routed_header_names, immediate, Split, split_envoy_headers,
}

pub record Pending (x : Http) : Type 0 where
  pub path : Text
  pub headers : x.Headers
  pub body : List ℕ

-- `raw_path.split(['?', '#']).next()`
unfoldable pub before_query : Text → Text
before_query [] = []
before_query (c ∷ cs) = let rest = before_query cs in if c == 63 || c == 35 then [] else c ∷ rest

unfoldable pub or_empty : Option Text → Text
or_empty none = []
or_empty (some path) = path

-- A response, and the decision that is kept for the response headers.
abbrev pub Answered : Type 0 → Type 0
Answered F = ProcessingResponse F × Option (Decision F × Bool)

-- What a phase comes back with: the new pending state, the outcome, and what was counted.
pub record Phase (x : Http) (F : Type 0) : Type 0 where
  pub pending : Option (Pending x)
  pub outcome : Answered F
  pub events : List (Event F)

module _ (x : Http) (b : Bytes) where
  -- Envoy checks the length of a body that it replaces
  unfoldable pub new_length : Surroundings x → Option (List ℕ) → List Overwrite
  new_length o none = []
  new_length o (some bytes) =
      record { key = content_length; raw_value = b.utf8 (o.decimal (list_len bytes)) } ∷ []

module _ (x : Http) (b : Bytes) {F : Type 0} where
  -- the answer to the final chunk of a body that goes on, with the body that replaces it
  unfoldable pub go_on : Surroundings x → List Text → Option (List ℕ) → ProcessingResponse F
  go_on o strip bytes = plain (
      body_response (
        some (record {
          header_mutation =
              some (record { set_headers = new_length x b o bytes; remove_headers = strip });
          body_mutation = bytes;
        })))

  -- `match rewrite_body(…)`
  unfoldable pub rewritten_or_refused :
      Surroundings x → List Text → Decided F → Result (List ℕ) Text → Answered F
  rewritten_or_refused o strip d (ok bytes) =
      (go_on o strip (some bytes), some (d.decision, d.explain))
  rewritten_or_refused o strip d (err e) = (immediate x (bad_request x (cannot_rewrite e)), none)

  module _ (p : Printing F) (im : IndexMap) (j : RawJson im.Map) (o : Surroundings x)
      (state : AppState F) where
    -- the match on the decision
    unfoldable pub mutate : Pending x → Result (Decided F) (Response x F) → Answered F
    mutate q (err resp) = (immediate x resp, none)
    mutate q (ok d) =
        let strip = routed_header_names x q.headers in
        if d.decision.dry_run
        then (immediate x (shown x p state d), none)
        else if is_block d.decision.outcome
        then (
          immediate x (block_response x p d.decision d.explain state.config.decision_header_max),
          none,
        )
        else if is_route d.decision.outcome
        then rewritten_or_refused o strip d (rewrite_body im j q.path q.body d.decision)
        else (go_on o strip none, some (d.decision, d.explain))

    module _ (serde : Serde) ⦃f : Float F⦄ (c : Circumstances F) where
      unfoldable pub decide_pending : Pending x → Option (Answered F) × List (Event F)
      decide_pending q =
          let (r, events) = decide_bytes serde x state c q.path q.headers q.body (text "extproc") in
          (some (mutate q r), events)

      -- The body that is pending is changed; no outcome is a chunk in the middle of a body.
      unfoldable pub on_request_body :
          Pending x → HttpBody → Pending x × Option (Answered F) × List (Event F)
      on_request_body q h =
          if ltb state.config.max_body_bytes (saturating_add (list_len q.body) (list_len h.body))
          then (q, some (immediate x (too_large x state.config.max_body_bytes), none), [])
          else let q' = record q { body = q.body ++ h.body } in
            if not h.end_of_stream
            then (q', none, [])
            else let (out, events) = decide_pending q' in (q', out, events)

      -- what follows the headers of a request that is decided
      unfoldable pub awaiting : Pending x → Phase x F
      awaiting q = record {
        pending = some q;
        outcome = (plain (headers_response none), none);
        events = [];
      }

      -- a request without a body
      unfoldable pub without_body :
          Pending x → Pending x × Option (Answered F) × List (Event F) → Phase x F
      without_body q (q', some out, events) = record {
        pending = none;
        outcome = out;
        events = events;
      }
      without_body q (q', none, events) = record (awaiting q) { events = events }

      unfoldable pub not_ours : List Text → Phase x F
      not_ours strip = record {
        pending = none;
        outcome = (
          record {
            response = headers_response (
                some (record {
                  header_mutation = some (record { set_headers = []; remove_headers = strip });
                  body_mutation = none;
                }));
            skip_rest = true;
          },
          none,
        );
        events = [];
      }

      -- what follows the splitting of the headers
      unfoldable pub on_path : Text → Pending x → Bool → Phase x F
      on_path method q end_of_stream =
          if not (method == text "POST" && is_routed_path q.path)
          then not_ours (routed_header_names x q.headers)
          else if end_of_stream
          then without_body q (on_request_body q (record { body = []; end_of_stream = true }))
          else awaiting q

      unfoldable pub pending_of : Split x → Pending x
      pending_of s = record {
        path = or_empty (normalize_path (before_query s.path));
        headers = s.headers;
        body = [];
      }

      unfoldable pub on_request_headers : HttpHeaders → Phase x F
      on_request_headers h =
          let s = split_envoy_headers x b h.headers in
          on_path s.method (pending_of s) h.end_of_stream

-- ===== src/Extproc/Phases/Agrees.antt =====
-- crates/ingress-extproc: the final chunk of a body is decided as the inline ingress decides it.
use route_d.Prelude.{
  ℕ, ◌≡◌, refl, Bool, true, false, Option, none, some, List, Text, unwrap_or, if◌then◌else◌, Result,
  ok, err,
}
use route_d.Float.{Float}
use route_d.Snapshot.{Snapshot}
use route_d.Snapshot.Holder.{load}
use route_d.Security.Headers.{RequestHeaders}
use route_d.Json.{Serde}
use route_d.Router.Extract.{ParseError, ParsedRequest}
use route_d.Inline.Rewrite.{IndexMap, RawJson, rewrite_body}
use route_d.Inline.Http.{Http}
use route_d.Inline.Replies.{Printing, Response}
use route_d.Inline.Decide.{
  Event, AppState, Circumstances, Decided, decide_parsed, decide_read, decide_loaded, decide_bytes,
}
use route_d.Inline.Exchange.{
  Request, buffered, Sent, Answer, Action, reply, send, Surroundings, forward,
}
use route_d.Inline.Handlers.{
  is_route, is_block, decided_back, out_body, send_decided, act_on, after_decision,
}
use route_d.Extproc.Envoy.{Bytes, routed_header_names, immediate}
use route_d.Extproc.Phases.{Pending, Answered, go_on, rewritten_or_refused, mutate}

module _ (x : Http) (b : Bytes) {F : Type 0} (p : Printing F) (im : IndexMap) (j : RawJson im.Map)
    (o : Surroundings x) (state : AppState F) where
  -- Where the inline ingress sends a request, Envoy is told to go on: without the decision headers
  -- of the client, with the body that would have been sent, and with the decision kept for the
  -- response headers, which the inline ingress sets.
  pub record GoesOn (q : Pending x) (u : Sent x) (k : Answer x → Response x F × List (Event F))
      (out : Answered F) : Type 0 where
    pub d : Decided F
    pub new : Option (List ℕ)
    pub answer : out.0 ≡ go_on x b o (routed_header_names x q.headers) new
    pub kept : out.1 ≡ some (d.decision, d.explain)
    pub carried : u.body ≡ buffered (unwrap_or new q.body)
    pub back : k ≡ decided_back x p state d

  -- Where the inline ingress replies, Envoy is given that reply.
  pub record Replies (r : Response x F) (out : Answered F) : Type 0 where
    pub answer : out.0 ≡ immediate x r
    pub nothing_kept : out.1 ≡ none

  abbrev pub Agrees : Pending x → Action x F → Answered F → Type 0
  Agrees q (reply r events) out = Replies r out
  Agrees q (send u events k) out = GoesOn q u k out

  Agrees-if :
      (q : Pending x) (t : Bool) (a a' : Action x F) (r r' : Answered F)
      → Agrees q a r
      → (t ≡ false → Agrees q a' r')
      → Agrees q (if t then a else a') (if t then r else r')
  Agrees-if q true a a' r r' h k = h
  Agrees-if q false a a' r r' h k = k refl

  module _ (q : Pending x) (req : Request x) (path_and_query : Text) (d : Decided F)
      (events : List (Event F)) where
    rewritten-Agrees :
        (r : Result (List ℕ) Text)
        → Agrees q
            (send_decided x p o state path_and_query req d events r)
            (rewritten_or_refused x b o (routed_header_names x q.headers) d r)
    unfolding send_decided forward rewritten_or_refused
    rewritten-Agrees (err e) = record { answer = refl; nothing_kept = refl }
    rewritten-Agrees (ok bytes) = record {
      d = d;
      new = some bytes;
      answer = refl;
      kept = refl;
      carried = refl;
      back = refl;
    }

    routed-Agrees :
        (t : Bool) (r : Result (List ℕ) Text)
        → Agrees q
            (send_decided x p o state path_and_query req d events (if t then r else ok q.body))
            (if t then rewritten_or_refused x b o (routed_header_names x q.headers) d r else (
              go_on x b o (routed_header_names x q.headers) none,
              some (d.decision, d.explain),
            ))
    unfolding send_decided forward
    routed-Agrees true r = rewritten-Agrees r
    routed-Agrees false r = record {
      d = d;
      new = none;
      answer = refl;
      kept = refl;
      carried = refl;
      back = refl;
    }

  pub mutate-Agrees :
      (q : Pending x) (req : Request x) (path_and_query : Text)
      (r : Result (Decided F) (Response x F)) (events : List (Event F))
      → Agrees q
          (after_decision x p im j o state q.path path_and_query req q.body (r, events))
          (mutate x b p im j o state q r)
  unfolding after_decision act_on mutate out_body
  mutate-Agrees q req path_and_query (err resp) events = record {
    answer = refl;
    nothing_kept = refl;
  }
  mutate-Agrees q req path_and_query (ok d) events =
      Agrees-if q d.decision.dry_run _ _ _ _ (record { answer = refl; nothing_kept = refl })
        (λ wet.
          Agrees-if q (is_block d.decision.outcome) _ _ _ _
            (record { answer = refl; nothing_kept = refl })
            (λ unblocked.
              routed-Agrees q req path_and_query d events (is_route d.decision.outcome)
                (rewrite_body im j q.path q.body d.decision)))

-- The name of the ingress is only recorded: it does not change what is decided.
module _ {F : Type 0} ⦃f : Float F⦄ (serde : Serde) (x : Http) (state : AppState F)
    (c : Circumstances F) (path : Text) (m m' : Text) where
  decide_read-mode :
      (s : Snapshot F) (headers : RequestHeaders) (r : Result ParsedRequest ParseError)
      → (decide_read serde x state c s path headers m r).0
        ≡ (decide_read serde x state c s path headers m' r).0
  unfolding decide_read decide_parsed
  decide_read-mode s headers (ok parsed) = refl
  decide_read-mode s headers (err e) = refl

  decide_loaded-mode :
      (s : Option (Snapshot F)) (headers : x.Headers) (body : List ℕ)
      → (decide_loaded serde x state c s path headers body m).0
        ≡ (decide_loaded serde x state c s path headers body m').0
  unfolding decide_loaded
  decide_loaded-mode none headers body = refl
  decide_loaded-mode (some s) headers body = decide_read-mode s _ _

  pub decide_bytes-mode :
      (headers : x.Headers) (body : List ℕ)
      → (decide_bytes serde x state c path headers body m).0
        ≡ (decide_bytes serde x state c path headers body m').0
  unfolding decide_bytes
  decide_bytes-mode headers body = decide_loaded-mode (load state.snapshot) headers body

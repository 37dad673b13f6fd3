-- ===== src/Inline/Handlers/Sends.antt =====
-- crates/ingress-inline/src/handlers.rs, `proxy`: when a request goes to the upstream, and with
-- which body.
use route_d.Prelude.{
  ℕ, ◌≡◌, ◌⊎◌, refl, subst, Bool, true, false, not, Option, none, some, List, [], ◌++◌, Text, text,
  text_ord, ◌==◌, ◌||◌, if◌then◌else◌, inl, inr, Result, ok, err, arith,
}
use route_d.Float.{Float}
use route_d.Json.{Serde}
use route_d.Inline.Paths.{normalize_path, passthrough_allowed, is_routed_path}
use route_d.Inline.Rewrite.{IndexMap, RawJson}
use route_d.Inline.Http.{Http}
use route_d.Inline.Forward.{outbound}
use route_d.Inline.Replies.{Printing, Response}
use route_d.Inline.Decide.{Event, AppState, Circumstances, Decided, decide_bytes}
use route_d.Inline.Exchange.{
  Request, streamed, buffered, Sent, Answer, Action, reply, send, Surroundings, forward, read_body,
}
use route_d.Inline.Handlers.{
  is_block, query_text, streamed_back, pass_on, decided_back, out_body, send_decided, act_on,
  after_decision, with_body, proxy_path, proxy,
}

module _ (x : Http) {F : Type 0} (p : Printing F) (serde : Serde) (im : IndexMap)
    (j : RawJson im.Map) (o : Surroundings x) (state : AppState F) (c : Circumstances F)
    ⦃f : Float F⦄ (req : Request x) where
  -- The request is no decision request, its path may be forwarded, and it goes as it is.
  pub record IsPassedOn (u : Sent x) (events : List (Event F))
      (k : Answer x → Response x F × List (Event F)) : Type 0 where
    pub path : Text
    pub normal : normalize_path req.path ≡ some path
    pub undecided : (not (req.method == text "POST") || not (is_routed_path path)) ≡ true
    pub allowed : passthrough_allowed path state.config.passthrough_all ≡ true
    pub verbatim : u.body ≡ streamed req.body
    pub silent : events ≡ []
    pub back : k ≡ streamed_back x

  -- The request is a decision request that was decided, and neither is the decision a block nor
  -- was it asked for as a dry run; its body is that of the decision.
  pub record IsDecided (u : Sent x) (events : List (Event F))
      (k : Answer x → Response x F × List (Event F)) : Type 0 where
    pub path : Text
    pub normal : normalize_path req.path ≡ some path
    pub routed : (not (req.method == text "POST") || not (is_routed_path path)) ≡ false
    pub body : List ℕ
    pub read : read_body x {F = F} state.config.max_body_bytes req.body ≡ ok body
    pub d : Decided F
    pub made : decide_bytes serde x state c path req.headers body (text "inline") ≡ (ok d, events)
    pub wet : d.decision.dry_run ≡ false
    pub unblocked : is_block d.decision.outcome ≡ false
    pub out : List ℕ
    pub written : out_body x p im j path body d.decision ≡ ok out
    pub carried : u.body ≡ buffered out
    pub back : k ≡ decided_back x p state d

  -- What holds of a request that is sent, whoever sends it: its method, and headers that went
  -- through the hygiene of `forward`.
  pub record IsForwarded (u : Sent x) : Type 0 where
    pub method : u.method ≡ req.method
    pub len : Option Text
    pub clean : u.headers ≡ outbound x req.headers len o.trace

  abbrev Sends :
      (Sent x → List (Event F) → (Answer x → Response x F × List (Event F)) → Type 0)
      → Action x F
      → Type 0
  Sends P (reply r events) = Unit
  Sends P (send u events k) = IsForwarded u × P u events k

  Sends-if :
      (P : Sent x → List (Event F) → (Answer x → Response x F × List (Event F)) → Type 0) (b : Bool)
      (a a' : Action x F)
      → (b ≡ true → Sends P a)
      → (b ≡ false → Sends P a')
      → Sends P (if b then a else a')
  Sends-if P true a a' h k = h refl
  Sends-if P false a a' h k = k refl

  pass_on-Sends :
      (path : Text)
      → normalize_path req.path ≡ some path
      → (not (req.method == text "POST") || not (is_routed_path path)) ≡ true
      → Sends IsPassedOn (pass_on x o state path (path ++ query_text req.query) req)
  unfolding pass_on forward
  pass_on-Sends path n u =
      Sends-if IsPassedOn (not (passthrough_allowed path state.config.passthrough_all)) _ _
        (λ refused. tt)
        (λ h. (
          record { method = refl; len = _; clean = refl },
          record {
            path = path;
            normal = n;
            undecided = u;
            allowed = ground arith;
            verbatim = refl;
            silent = refl;
            back = refl;
          },
        ))

  module _ (path : Text) (n : normalize_path req.path ≡ some path)
      (u : (not (req.method == text "POST") || not (is_routed_path path)) ≡ false) (body : List ℕ)
      (read : read_body x {F = F} state.config.max_body_bytes req.body ≡ ok body) where
    send_decided-Sends :
        (d : Decided F) (events : List (Event F)) (r : Result (List ℕ) Text)
        → decide_bytes serde x state c path req.headers body (text "inline") ≡ (ok d, events)
        → d.decision.dry_run ≡ false
        → is_block d.decision.outcome ≡ false
        → out_body x p im j path body d.decision ≡ r
        → Sends IsDecided (send_decided x p o state (path ++ query_text req.query) req d events r)
    unfolding send_decided forward
    send_decided-Sends d events (err e) made wet unblocked written = tt
    send_decided-Sends d events (ok out) made wet unblocked written = (
      record { method = refl; len = _; clean = refl },
      record {
        path = path;
        normal = n;
        routed = u;
        body = body;
        read = read;
        d = d;
        made = made;
        wet = wet;
        unblocked = unblocked;
        out = out;
        written = written;
        carried = refl;
        back = refl;
      },
    )

    after_decision-Sends :
        (r : Result (Decided F) (Response x F) × List (Event F))
        → decide_bytes serde x state c path req.headers body (text "inline") ≡ r
        → Sends IsDecided
            (after_decision x p im j o state path (path ++ query_text req.query) req body r)
    unfolding after_decision act_on
    after_decision-Sends (err r, events) made = tt
    after_decision-Sends (ok d, events) made =
        Sends-if IsDecided d.decision.dry_run _ _ (λ wet. tt)
          (λ dry.
            Sends-if IsDecided (is_block d.decision.outcome) _ _ (λ blocked. tt)
              (λ b.
                send_decided-Sends d events (out_body x p im j path body d.decision) made dry b
                  refl))

  with_body-Sends :
      (path : Text)
      → normalize_path req.path ≡ some path
      → (not (req.method == text "POST") || not (is_routed_path path)) ≡ false
      → (r : Result (List ℕ) (Response x F)) → read_body x state.config.max_body_bytes req.body ≡ r
      → Sends IsDecided
          (with_body x p serde im j o state c path (path ++ query_text req.query) req r)
  unfolding with_body
  with_body-Sends path n u (err r) read = tt
  with_body-Sends path n u (ok body) read = after_decision-Sends path n u body read _ refl

  abbrev MaySend : Sent x → List (Event F) → (Answer x → Response x F × List (Event F)) → Type 0
  MaySend u events k = IsPassedOn u events k ⊎ IsDecided u events k

  Sends-mono :
      (P Q : Sent x → List (Event F) → (Answer x → Response x F × List (Event F)) → Type 0)
      (a : Action x F)
      → ((u : Sent x) (events : List (Event F)) (k : Answer x → Response x F × List (Event F))
          → P u events k
          → Q u events k)
      → Sends P a
      → Sends Q a
  Sends-mono P Q (reply r events) h s = tt
  Sends-mono P Q (send u events k) h (f, s) = (f, h u events k s)

  proxy_path-Sends :
      (n : Option Text)
      → normalize_path req.path ≡ n
      → Sends MaySend (proxy_path x p serde im j o state c req n)
  unfolding proxy_path
  proxy_path-Sends none e = tt
  proxy_path-Sends (some path) e =
      Sends-if MaySend (not (req.method == text "POST") || not (is_routed_path path)) _ _
        (λ u. Sends-mono IsPassedOn MaySend _ (λ u events k s. inl s) (pass_on-Sends path e u))
        (λ u.
          Sends-mono IsDecided MaySend _ (λ u events k s. inr s)
            (with_body-Sends path e u (read_body x state.config.max_body_bytes req.body) refl))

  -- If the proxy sends a request to the upstream, then its method is the client's and its headers
  -- have been through `forward`; and either it is not a decision request, its path may be
  -- forwarded and its body streams through as it is, or it was decided, not as a dry run and not
  -- as a block, and its body is the one of that decision. A refused path, a body that could not be
  -- read, a failed decision, a dry run, a block and a body that could not be rewritten send
  -- nothing.
  pub proxy-MaySend :
      (u : Sent x) (events : List (Event F)) (k : Answer x → Response x F × List (Event F))
      → proxy x p serde im j o state c req ≡ send u events k
      → IsForwarded u × (IsPassedOn u events k ⊎ IsDecided u events k)
  unfolding proxy
  proxy-MaySend u events k e =
      subst (Sends MaySend) e (proxy_path-Sends (normalize_path req.path) refl)

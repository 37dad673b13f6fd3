-- ===== src/Inline/Handlers/Spoofing.antt =====
-- crates/ingress-inline: the decision headers are routeD's own, whatever the client and the
-- upstream send.
use route_d.Prelude.{
  ℕ, ◌≡◌, ◌≢◌, ◌⊎◌, inl, inr, refl, sym, ap, ◌∙◌, subst, Bool, true, false, Option, none, some,
  List, [], ◌∷◌, Text, text, text_ord, ◌==◌, if◌then◌else◌, and_then, Bool-cases, All, eq_of_==,
  arith, lower,
}
use route_d.Float.{Float}
use route_d.Json.{Serde}
use route_d.Decision.Types.{Decision}
use route_d.Security.Headers.{is_routed_header, begins_ignoring_case}
use route_d.Inline.Rewrite.{IndexMap, RawJson}
use route_d.Inline.Http.{Http, IsLawful, get_all}
use route_d.Inline.Forward.{content_length, connection_listed, stays_behind, inbound}
use route_d.Inline.Forward.Hygiene.{inbound-absent, outbound-absent}
use route_d.Inline.Replies.{
  Printing, Response, content_type, application_json, error_response, bad_gateway, insert_some,
  encoded, outcome_text, apply,
}
use route_d.Inline.Decide.{Event, AppState, Circumstances, Decided}
use route_d.Inline.Exchange.{
  Request, Sent, Answer, failed, came, send, Surroundings, unbuffered, observe, forwarded,
}
use route_d.Inline.Handlers.{streamed_back, decided_back, proxy}
use route_d.Inline.Handlers.Sends.{IsPassedOn, IsDecided, proxy-MaySend}

-- A name that is no decision header's is another name than one that is.
not_routed-ne :
    (a k : Text) → is_routed_header a ≡ false → is_routed_header k ≡ true → (a == k) ≡ false
not_routed-ne a k h r = elim (Bool-cases (a == k)) [
  | inl e ↦ absurd (cc (sym h ∙ ap is_routed_header (eq_of_== a k e) ∙ r))
  | inr e ↦ e
]

module _ (x : Http) (laws : IsLawful x) where
  insert-other :
      (h : x.Headers) (a v k : Text)
      → is_routed_header a ≡ false
      → is_routed_header k ≡ true
      → get_all x (x.insert h a v) k ≡ get_all x h k
  insert-other h a v k n r = rw (not_routed-ne a k n r) at (laws.get_all-insert h a v k)

  unbuffered-routed :
      (h : x.Headers) (k : Text)
      → is_routed_header k ≡ true
      → get_all x (unbuffered x h) k ≡ get_all x h k
  unfolding unbuffered is_routed_header begins_ignoring_case lower
  unbuffered-routed h k r = if-same _ _ _ (
      insert-other (x.insert h (text "cache-control") (text "no-cache")) (text "x-accel-buffering")
        (text "no") k refl r
      ∙ insert-other h (text "cache-control") (text "no-cache") k refl r)
    where
      if-same :
          (b : Bool) (h' h : x.Headers)
          → get_all x h' k ≡ get_all x h k
          → get_all x (if b then h' else h) k ≡ get_all x h k
      if-same true h' h e = e
      if-same false h' h e = refl

  -- The value that a table of headers has for a name: the first that is there.
  abbrev pub value_in : List (Text × Option Text) → Text → List Text
  value_in [] k = []
  value_in ((name, none) ∷ es) k = value_in es k
  value_in ((name, some v) ∷ es) k = let rest = value_in es k in if name == k then v ∷ [] else rest

  insert_some-value_in :
      (name : Text) (o : Option Text) (h : x.Headers) (k : Text) (es : List (Text × Option Text))
      → get_all x h k ≡ value_in es k
      → get_all x (insert_some x name o h) k ≡ value_in ((name, o) ∷ es) k
  unfolding insert_some
  insert_some-value_in name none h k es e = e
  insert_some-value_in name (some v) h k es e =
      laws.get_all-insert h name v k ∙ ap (λ vs. if name == k then v ∷ [] else vs) e

  -- The headers that a decision is shown by.
  abbrev pub decision_headers :
      {F : Type 0} → Printing F → Decision F → Bool → ℕ → List (Text × Option Text)
  decision_headers p d explain max =
      (text "x-routed-decision", if explain then x.header_value (encoded x p d max) else none)
      ∷ (
        text "x-routed-estimated-cost",
        and_then d.estimated_cost_eur λ c. x.header_value (p.cost c),
      )
      ∷ (text "x-routed-data-class", and_then d.data_class x.header_value)
      ∷ (text "x-routed-tier", and_then d.selected_tier x.header_value)
      ∷ (text "x-routed-outcome", x.header_value (outcome_text d.outcome))
      ∷ (text "x-routed-decision-id", x.header_value d.id)
      ∷ []

  apply-value_in :
      {F : Type 0} (p : Printing F) (d : Decision F) (explain : Bool) (max : ℕ) (h : x.Headers)
      (k : Text)
      → get_all x h k ≡ []
      → get_all x (apply x p h d explain max) k ≡ value_in (decision_headers p d explain max) k
  unfolding apply
  apply-value_in p d explain max h k e = insert_some-value_in _ _ _ k _ (
      insert_some-value_in _ _ _ k _ (
        insert_some-value_in _ _ _ k _ (
          insert_some-value_in _ _ _ k _
            (insert_some-value_in _ _ _ k _ (insert_some-value_in _ _ h k [] e)))))

  stays_behind-routed :
      (listed : List Text) (k : Text) → is_routed_header k ≡ true → stays_behind x listed k ≡ true
  unfolding stays_behind
  stays_behind-routed listed k r = ground arith

  module _ {F : Type 0} (p : Printing F) (serde : Serde) (im : IndexMap) (j : RawJson im.Map)
      (o : Surroundings x) (state : AppState F) (c : Circumstances F) ⦃f : Float F⦄
      (req : Request x) where
    -- The values of a decision header in the response, whatever comes back from the upstream.
    abbrev pub Shows : Text → List Text → (Answer x → Response x F × List (Event F)) → Type 0
    Shows name vs k = (a : Answer x) → get_all x (k a).0.headers name ≡ vs

    -- the value that a decision has for a name, if any
    abbrev pub set_by : Text → Decided F → List Text
    set_by name d =
        value_in (decision_headers p d.decision d.explain state.config.decision_header_max) name

    -- The values of a decision header in the responses to a request that was sent: none, if the
    -- request was passed on undecided, or those that the decision sets that was made about it.
    abbrev pub ShowsOwn :
        Text → Sent x → List (Event F) → (Answer x → Response x F × List (Event F)) → Type 0
    ShowsOwn name u events k =
        (IsPassedOn x p serde im j o state c req u events k × Shows name [] k)
        ⊎ ((w : IsDecided x p serde im j o state c req u events k) × Shows name (set_by name w.d) k)

    bad_gateway-absent :
        (e name : Text)
        → is_routed_header name ≡ true
        → get_all x (bad_gateway x {F = F} e).headers name ≡ []
    unfolding bad_gateway error_response is_routed_header begins_ignoring_case lower
    bad_gateway-absent e name r =
        insert-other x.none_yet content_type application_json name refl r ∙ laws.get_all-none name

    passed_on-Shows : (name : Text) → is_routed_header name ≡ true → Shows name [] (streamed_back x)
    unfolding streamed_back observe forwarded
    passed_on-Shows name r (failed e) = bad_gateway-absent e name r
    passed_on-Shows name r (came status h body) =
        unbuffered-routed (inbound x h) name r ∙ inbound-absent x laws h name r

    decided-Shows :
        (name : Text) (d : Decided F)
        → is_routed_header name ≡ true
        → Shows name (set_by name d) (decided_back x p state d)
    unfolding decided_back observe forwarded
    decided-Shows name d r (failed e) =
        apply-value_in p d.decision d.explain state.config.decision_header_max _ name
          (bad_gateway-absent e name r)
    decided-Shows name d r (came status h body) =
        unbuffered-routed _ name r
        ∙ apply-value_in p d.decision d.explain state.config.decision_header_max (inbound x h) name
            (inbound-absent x laws h name r)

    -- No decision header can be spoofed past the proxy: a request that it sends to the upstream
    -- carries no header that begins like a decision header, unless the tracer sets one; and in the
    -- response that follows, whatever the upstream answers and also if it fails, every such header
    -- has no value if the request was passed on undecided, and else the value that the decision
    -- which was made about the request has for it: its id, outcome, tier, data class, estimated cost
    -- and, if its policy explains, the whole of it, each under its name, and none under any other.
    pub proxy-ShowsOwn :
        (u : Sent x) (events : List (Event F)) (k : Answer x → Response x F × List (Event F))
        (name : Text)
        → proxy x p serde im j o state c req ≡ send u events k
        → is_routed_header name ≡ true
        → All (λ t. x.header_name t.0 ≢ some name) o.trace
        → (get_all x u.headers name ≡ []) × ShowsOwn name u events k
    unfolding is_routed_header begins_ignoring_case lower
    proxy-ShowsOwn u events k name e r untraced =
        let (sent, how) = proxy-MaySend x p serde im j o state c req u events k e in
        (
          ap (λ h. get_all x h name) sent.clean
              ∙ outbound-absent x laws req.headers sent.len o.trace name
                  (stays_behind-routed (connection_listed x req.headers) name r)
                  (not_routed-ne content_length name refl r) untraced,
          elim how [
            | inl s ↦ inl (s, subst (Shows name []) (sym s.back) (passed_on-Shows name r))
            | inr s ↦
                inr
                  (s, subst (Shows name (set_by name s.d)) (sym s.back) (decided-Shows name s.d r))
          ],
        )

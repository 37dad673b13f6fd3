-- ===== src/Inline/Feedback/Journaled.antt =====
-- crates/ingress-inline/src/handlers.rs, `feedback`: what gets into the journal.
use route_d.Prelude.{
  ℕ, ◌*◌, ◌≤◌, ◌≡◌, refl, Bool, true, false, Option, none, some, List, Text, text, text_ord,
  nat_ord, ◌==◌, Bool-cases, inl, inr, ◌⊎◌, contains, ltb, Result, ok, err, arith, and_then,
  unwrap_or, Option-cases, subst,
}
use route_d.Json.{Value, null, get_key, as_str, is_object, Serde}
use route_d.Inline.Http.{Http}
use route_d.Inline.Replies.{Response, auth_denied, error_response, bad_request, too_large}
use route_d.Inline.Exchange.{AuthDecision, allow, deny}
use route_d.Inline.Handlers.{list_len}
use route_d.Inline.Feedback.{
  FeedbackRecord, is_decision_id, sources, keep_if, source_of, outcome_of, accepted, read_feedback,
  feedback_authorised, feedback,
}

-- A record as the journal promises it: a decision id of 26 ASCII letters and digits, a source of the
-- closed vocabulary, and an outcome that is an object or absent.
pub record IsClosed (r : FeedbackRecord) : Type 0 where
  pub id : is_decision_id r.decision_id ≡ true
  pub source : (contains sources r.source ≡ true) ⊎ (r.source ≡ text "unknown")
  pub outcome : (is_object r.outcome ≡ true) ⊎ (r.outcome ≡ null)

pub keep_if-some :
    {A : Type 0} (p : A → Bool) (o : Option A) (a : A) → keep_if p o ≡ some a → p a ≡ true
unfolding keep_if
keep_if-some p none a h = absurd (cc)
keep_if-some p (some b) a h = elim (Bool-cases (p b)) [
  | inl e ↦ let found = rw e at h in let same : b ≡ a = cc in subst (λ c. p c ≡ true) same e
  | inr e ↦ let found = rw e at h in absurd (cc)
]

kept_or :
    {A : Type 0} (p : A → Bool) (o : Option A) (d : A)
    → (p (unwrap_or (keep_if p o) d) ≡ true) ⊎ (unwrap_or (keep_if p o) d ≡ d)
kept_or p o d = elim (Option-cases (keep_if p o)) [
  | inl e ↦ rw e (inr refl)
  | inr (a, e) ↦ rw e (inl (keep_if-some p o a e))
]

accepted-IsClosed :
    (ts : Text) (v : Value) (id : Text)
    → is_decision_id id ≡ true
    → IsClosed (record { decision_id = id; ts = ts; source = source_of v; outcome = outcome_of v })
unfolding source_of outcome_of
accepted-IsClosed ts v id h = record { id = h; source = kept_or _ _ _; outcome = kept_or _ _ _ }

module _ (x : Http) (F : Type 0) where
  -- Where something is recorded, the answer says so, and the request and the record are as they
  -- should be; where nothing is recorded, the answer is another.
  abbrev pub Journals :
      (x.Headers → AuthDecision)
      → x.Headers
      → List ℕ
      → Response x F × Option FeedbackRecord
      → Type 0
  Journals authenticate headers body (resp, none) = (resp.status == 202) ≡ false
  Journals authenticate headers body (resp, some r) =
      (resp.status ≡ 202)
      × IsClosed r
      × (authenticate headers ≡ allow)
      × (list_len body ≤ 64 * 1024)

  module _ (authenticate : x.Headers → AuthDecision) (headers : x.Headers) (body : List ℕ) where
    read-Journals :
        (ts : Text) (r : Result Value Text)
        → authenticate headers ≡ allow
        → list_len body ≤ 64 * 1024
        → Journals authenticate headers body (read_feedback x {F = F} ts r)
    unfolding read_feedback accepted bad_request error_response
    read-Journals ts (err e) a fits = refl
    read-Journals ts (ok v) a fits =
        let id = keep_if is_decision_id (and_then (get_key v (text "decisionId")) as_str) in
        elim (Option-cases id) [
          | inl e ↦ rw e refl
          | inr (i, e) ↦
              rw e (refl, accepted-IsClosed ts v i (keep_if-some is_decision_id _ i e), a, fits)
        ]

    authorised-Journals :
        (serde : Serde) (ts : Text) (d : AuthDecision)
        → authenticate headers ≡ d
        → Journals authenticate headers body (feedback_authorised x {F = F} serde ts body d)
    unfolding feedback_authorised too_large error_response auth_denied
    authorised-Journals serde ts (deny status reason) a = elim (Bool-cases (status == 403)) [
      | inl e ↦ rw e refl
      | inr e ↦ rw e refl
    ]
    authorised-Journals serde ts allow a = elim (Bool-cases (ltb (64 * 1024) (list_len body))) [
      | inl e ↦ rw e refl
      | inr e ↦ rw e (read-Journals ts (serde.from_slice body) a (ground arith))
    ]

  -- Feedback is recorded only of a caller that is let in, with at most 64 KiB, and then with an id
  -- of 26 ASCII letters and digits, a source of the closed vocabulary and an outcome that is an
  -- object or null; the caller is told so exactly if it is recorded.
  pub feedback-Journals :
      (serde : Serde) (authenticate : x.Headers → AuthDecision) (ts : Text) (headers : x.Headers)
      (body : List ℕ)
      → Journals authenticate headers body (feedback x {F = F} serde authenticate ts headers body)
  unfolding feedback
  feedback-Journals serde authenticate ts headers body =
      authorised-Journals authenticate headers body serde ts (authenticate headers) refl

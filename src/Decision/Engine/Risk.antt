-- ===== src/Decision/Engine/Risk.antt =====
-- `Engine::decide` of crates/decision/src/lib.rs, steps 4a and 4b: what a risk score above the
-- threshold of the policy and a classification that is not complete lead to.
use route_d.Prelude.{
  ap, ◌≡◌, ◌⊎◌, inl, inr, refl, ◌∙◌, Bool, true, false, Option, none, some, List, [], ◌∷◌, ◌++◌,
  map, Text, if◌then◌else◌, Bool-cases, is_empty, contains, text_ord,
}
use route_d.Float.{Float}
use route_d.Snapshot.{CompiledDataClass, CompiledPolicy, Snapshot}
use route_d.Decision.Types.{
  block, DecisionContext, DecisionInput, Findings, no_findings, Decision, eliminated,
  deny_if_risk_score_above, risk_exceeds, classification_degraded, new_decision,
}
use route_d.Decision.Round.{round6}
use route_d.Decision.Scope.{matching_policies, select_policy, is_alias}
use route_d.Decision.Scope.Selection.{select_policy-same, select_policy-notes}
use route_d.Decision.DataClass.{resolve_data_class}
use route_d.Decision.DataClass.Resolution.{resolve-notes}
use route_d.Decision.DataClass.Restriction.{IsStrictest, resolve-IsStrictest}
use route_d.Decision.Scoring.{QualityPredictor}
use route_d.Decision.Fallback.Safety.{
  RoutesToFallback, fallback_or_block-cases, fallback_or_block-Keeps,
}
use route_d.Decision.Engine.{
  risk_missing, risk_needed, degraded_list, decide_degraded, block_on_risk, decide_risk,
  decide_class, decide_policy, decide_selected, decide,
}

is_empty-snoc : (xs : List Text) (x : Text) → is_empty (xs ++ x ∷ []) ≡ false
unfolding is_empty
is_empty-snoc [] x = refl
is_empty-snoc (y ∷ ys) x = refl

contains-is_empty : (xs : List Text) (x : Text) → contains xs x ≡ true → is_empty xs ≡ false
unfolding is_empty contains
contains-is_empty [] x h = absurd (cc)
contains-is_empty (y ∷ ys) x h = refl

extended-not_empty :
    (degraded : List Text) (b : Bool)
    → (b ≡ true) ⊎ (is_empty degraded ≡ false)
    → is_empty (if b then degraded ++ risk_missing ∷ [] else degraded) ≡ false
extended-not_empty degraded true h = is_empty-snoc degraded risk_missing
extended-not_empty degraded false (inl e) = absurd (cc)
extended-not_empty degraded false (inr e) = e

module _ {F : Type 0} ⦃f : Float F⦄ where
  -- the policy that governs a request, whatever the decision carries so far
  abbrev pub Governs : Snapshot F → DecisionInput → CompiledPolicy F → Type 0
  Governs s input policy =
      ((select_policy (matching_policies s input) input.hints.policy
          (new_decision {F = F} (record { id = [] }) input no_findings s.hash)).0
        ≡ some policy)
      × (is_alias policy input.requested_model ≡ true)

  -- `r` is a block on the risk score that lists every candidate as eliminated by it.
  pub record IsDenied (policy : CompiledPolicy F) (threshold risk : F) (r : Decision F)
      : Type 0 where
    pub blocked : r.outcome ≡ block
    pub why : r.reason ≡ some (risk_exceeds (round6 risk) threshold)
    pub nothing : r.selected_tier ≡ none
    pub listed :
        r.candidates ≡ map (λ name. eliminated name deny_if_risk_score_above) policy.candidates

  -- the classification is not complete for the policy
  abbrev pub IsIncomplete : Snapshot F → CompiledPolicy F → Findings F → Type 0
  IsIncomplete s policy findings =
      (is_empty findings.degraded ≡ false)
      ⊎ ((findings.risk_score ≡ none) × (risk_needed s policy ≡ true))

  -- `r` routes to the fallback tier, which the strictest data class, the facts of the request and
  -- the risk score allow.
  pub record FallsBack (predictor : QualityPredictor F) (s : Snapshot F) (policy : CompiledPolicy F)
      (input : DecisionInput) (findings : Findings F) (r : Decision F) : Type 0 where
    pub class : Option (CompiledDataClass F)
    pub strictest : IsStrictest s input findings class
    pub marked : r.fallback ≡ true
    pub to : RoutesToFallback predictor s policy input findings class true r

  degraded_list-IsIncomplete :
      (s : Snapshot F) (policy : CompiledPolicy F) (findings : Findings F)
      → IsIncomplete s policy findings
      → is_empty (degraded_list s policy findings findings.degraded) ≡ false
  unfolding degraded_list
  degraded_list-IsIncomplete s policy findings (inl e) =
      extended-not_empty findings.degraded _ (inr e)
  degraded_list-IsIncomplete s policy findings (inr (missing, needed)) =
      elim (Bool-cases (contains findings.degraded risk_missing)) [
        | inl c ↦
            extended-not_empty findings.degraded _
              (inr (contains-is_empty findings.degraded risk_missing c))
        | inr c ↦ extended-not_empty findings.degraded _ (inl (rw (missing, needed, c)))
      ]

  module _ (predictor : QualityPredictor F) (s : Snapshot F) (input : DecisionInput)
      (findings : Findings F) (policy : CompiledPolicy F) where
    over_threshold-IsDenied :
        (data_class : Option (CompiledDataClass F)) (threshold risk : F) (t r : Option F)
        (d : Decision F)
        → t ≡ some threshold
        → r ≡ some risk
        → f.lt threshold risk ≡ true
        → d.candidates ≡ []
        → d.selected_tier ≡ none
        → IsDenied policy threshold risk
            (decide_risk predictor s policy input findings data_class t r d)
    unfolding decide_risk block_on_risk
    over_threshold-IsDenied data_class threshold risk t r d et er h c n =
        rw (et, er, h, if◌then◌else◌)
          (record {
            blocked = refl;
            why = refl;
            nothing = n;
            listed =
                ap
                  (λ cs.
                    cs ++ map (λ name. eliminated name deny_if_risk_score_above) policy.candidates)
                  c;
          })

    class_over_threshold-IsDenied :
        (threshold risk : F) (d : Decision F)
        → policy.deny_if_risk_score_above ≡ some threshold
        → findings.risk_score ≡ some risk
        → f.lt threshold risk ≡ true
        → d.candidates ≡ []
        → d.selected_tier ≡ none
        → IsDenied policy threshold risk (decide_class predictor s input findings policy d)
    unfolding decide_class
    class_over_threshold-IsDenied threshold risk d t r h c n =
        let kept = resolve-notes s input findings d in
        over_threshold-IsDenied (resolve_data_class s input findings d).0 threshold risk
          policy.deny_if_risk_score_above findings.risk_score _ t r h
          (ap (λ x. x.candidates) kept ∙ c) (ap (λ x. x.selected_tier) kept ∙ n)

    -- A request whose risk score is above the threshold of the policy that governs it is blocked
    -- for that reason, whatever else is known of it and even if its classification is degraded:
    -- no tier is selected and every candidate of the policy is listed as eliminated by the rule.
    pub decide-IsDenied :
        (threshold risk : F) (ctx : DecisionContext)
        → Governs s input policy
        → policy.deny_if_risk_score_above ≡ some threshold
        → findings.risk_score ≡ some risk
        → f.lt threshold risk ≡ true
        → IsDenied policy threshold risk (decide predictor s input findings ctx)
    unfolding decide decide_selected decide_policy new_decision
    decide-IsDenied threshold risk ctx (g, a) t r h =
        let d = new_decision ctx input findings s.hash in
        let scratch = new_decision {F = F} (record { id = [] }) input no_findings s.hash in
        let matching = matching_policies s input in
        let hint = input.hints.policy in
        let kept = select_policy-notes matching hint d in
        rw (select_policy-same matching hint d scratch ∙ g, a, if◌then◌else◌)
          (class_over_threshold-IsDenied threshold risk _ t r h (ap (λ x. x.candidates) kept)
            (ap (λ x. x.selected_tier) kept))

    degraded-FallsBack :
        (data_class : Option (CompiledDataClass F)) (d : Decision F)
        → IsStrictest s input findings data_class
        → IsIncomplete s policy findings
        → d.degraded ≡ findings.degraded
        → let r = decide_degraded predictor s policy input findings data_class d in
          FallsBack predictor s policy input findings r ⊎ (r.outcome ≡ block)
    unfolding decide_degraded
    degraded-FallsBack data_class d strictest h e =
        let degraded = degraded_list s policy findings d.degraded in
        let full : is_empty degraded ≡ false =
          ap (λ x. is_empty (degraded_list s policy findings x)) e
          ∙ degraded_list-IsIncomplete s policy findings h in
        let d' : Decision F = record d { degraded = degraded; fallback = true } in
        let kept =
          fallback_or_block-Keeps predictor s policy input findings data_class d'
            classification_degraded true in
        rw (full, if◌then◌else◌)
          (elim (fallback_or_block-cases predictor s policy input findings data_class d'
            classification_degraded true) [
              | inl x ↦
                  inl
                    (record { class = data_class; strictest = strictest; marked = kept.0; to = x })
              | inr b ↦ inr b.blocked
            ])

    incomplete_risk-FallsBack :
        (data_class : Option (CompiledDataClass F)) (threshold risk : Option F) (d : Decision F)
        → IsStrictest s input findings data_class
        → IsIncomplete s policy findings
        → d.degraded ≡ findings.degraded
        → let r = decide_risk predictor s policy input findings data_class threshold risk d in
          FallsBack predictor s policy input findings r ⊎ (r.outcome ≡ block)
    unfolding decide_risk block_on_risk
    incomplete_risk-FallsBack data_class none risk d strictest h e =
        degraded-FallsBack data_class d strictest h e
    incomplete_risk-FallsBack data_class (some threshold) none d strictest h e =
        degraded-FallsBack data_class d strictest h e
    incomplete_risk-FallsBack data_class (some threshold) (some risk) d strictest h e =
        elim (Bool-cases (f.lt threshold risk)) [
          | inl b ↦ rw (b, if◌then◌else◌) (inr refl)
          | inr b ↦ rw (b, if◌then◌else◌) (degraded-FallsBack data_class d strictest h e)
        ]

    incomplete_class-FallsBack :
        (d : Decision F)
        → IsIncomplete s policy findings
        → d.degraded ≡ findings.degraded
        → let r = decide_class predictor s input findings policy d in
          FallsBack predictor s policy input findings r ⊎ (r.outcome ≡ block)
    unfolding decide_class
    incomplete_class-FallsBack d h e =
        incomplete_risk-FallsBack (resolve_data_class s input findings d).0
          policy.deny_if_risk_score_above findings.risk_score _
          (resolve-IsStrictest s input findings d) h
          (ap (λ x. x.degraded) (resolve-notes s input findings d) ∙ e)

    -- Fail safe: if the classification of a request is degraded, or has no risk score although the
    -- policy that governs the request or one of its tiers depends on one, then the request is
    -- blocked, or it goes to the fallback tier of the policy, marked as a fallback, and the
    -- strictest data class that applies, the facts of the request and the risk score allow the
    -- tier.
    pub decide-FallsBack :
        (ctx : DecisionContext)
        → Governs s input policy
        → IsIncomplete s policy findings
        → let r = decide predictor s input findings ctx in
          FallsBack predictor s policy input findings r ⊎ (r.outcome ≡ block)
    unfolding decide decide_selected decide_policy new_decision
    decide-FallsBack ctx (g, a) h =
        let d = new_decision ctx input findings s.hash in
        let scratch = new_decision {F = F} (record { id = [] }) input no_findings s.hash in
        let matching = matching_policies s input in
        let hint = input.hints.policy in
        rw (select_policy-same matching hint d scratch ∙ g, a, if◌then◌else◌)
          (incomplete_class-FallsBack _ h
            (ap (λ x. x.degraded) (select_policy-notes matching hint d)))

-- ===== src/Decision/Constraints/Permits.antt =====
-- The hard constraints of crates/decision/src/lib.rs as conditions, with no order of evaluation.
use route_d.Prelude.{
  ℕ, ◌≤◌, ◌≡◌, ◌↔◌, ◌⊎◌, inl, inr, refl, true, false, not, Option, none, some, [], text_ord, subst,
  arith, ◌&&◌, contains, contains_sound, contains_complete, Elem, All, if◌then◌else◌, Bool-cases,
  or_else-none, saturating_add, allowed_sound, allowed_complete, disjoint_sound, disjoint_complete,
  subset_sound, subset_complete,
}
use route_d.Api.{tools, capability_ord, jurisdiction_ord, operator_control_ord}
use route_d.Float.{Float}
use route_d.Snapshot.{CompiledTier, CompiledDataClass, CompiledPolicy}
use route_d.Snapshot.Cost.{estimate_cost}
use route_d.Decision.Types.{DecisionInput, Findings}
use route_d.Decision.Constraints.{
  data_class_violation, class_check, risk_exceeded, facts_check, cost_check, request_fact_violation,
  hard_constraint_violation,
}

module _ {F : Type 0} where
  -- A tier may serve a data class.
  pub record Allows (dc : CompiledDataClass F) (tier : CompiledTier F) : Type 0 where
    pub listed : Elem dc.name tier.allowed_data_classes
    pub jurisdiction :
        (dc.require_jurisdiction ≡ []) ⊎ Elem tier.jurisdiction dc.require_jurisdiction
    pub cloud_act : (dc.forbid_cloud_act_exposed ≡ false) ⊎ (tier.cloud_act_exposed ≡ false)
    pub operator :
        (dc.require_operator_control ≡ []) ⊎ Elem tier.operator_control dc.require_operator_control
    pub capabilities : All (λ c. ¬ Elem c dc.forbid_capabilities) tier.capabilities

  -- A tier violates nothing of a data class exactly when the class allows it: the tier lists the
  -- class, its jurisdiction and its operator are among those that the class asks for, if it asks,
  -- it is not exposed to the CLOUD Act where the class forbids that, and it offers no capability
  -- that the class forbids.
  pub data_class_violation-none_iff :
      (tier : CompiledTier F) (dc : CompiledDataClass F)
      → (data_class_violation tier dc ≡ none) ↔ Allows dc tier
  unfolding data_class_violation
  data_class_violation-none_iff tier dc = (
    λ h. record {
      listed = contains_sound tier.allowed_data_classes dc.name (ground arith);
      jurisdiction = allowed_sound dc.require_jurisdiction tier.jurisdiction (ground arith);
      cloud_act = ground arith;
      operator = allowed_sound dc.require_operator_control tier.operator_control (ground arith);
      capabilities = disjoint_sound tier.capabilities dc.forbid_capabilities (ground arith);
    },
    λ a. ground (
      arith,
      contains_complete tier.allowed_data_classes dc.name a.listed,
      allowed_complete dc.require_jurisdiction tier.jurisdiction a.jurisdiction,
      allowed_complete dc.require_operator_control tier.operator_control a.operator,
      disjoint_complete tier.capabilities dc.forbid_capabilities a.capabilities,
      a.cloud_act,
    ),
  )

  -- The resolved class, if there is one and the policy respects it, allows the tier.
  abbrev pub ClassAllows : CompiledPolicy F → Option (CompiledDataClass F) → CompiledTier F → Type 0
  ClassAllows policy data_class tier =
      (policy.respect_data_class ≡ false)
      ⊎ (data_class ≡ none)
      ⊎ ((dc : CompiledDataClass F) × (data_class ≡ some dc) × Allows dc tier)

  class_check-none_iff :
      (tier : CompiledTier F) (policy : CompiledPolicy F)
      (data_class : Option (CompiledDataClass F))
      → (class_check tier policy data_class ≡ none) ↔ ClassAllows policy data_class tier
  unfolding class_check
  class_check-none_iff tier policy none = (λ h. inr (inl refl), λ h. refl)
  class_check-none_iff tier policy (some dc) =
      let both = data_class_violation-none_iff tier dc in
      (
        λ h. elim (Bool-cases policy.respect_data_class) [
          | inr e ↦ inl e
          | inl e ↦ inr (inr (dc, refl, both.0 (rw (e, if◌then◌else◌) at h)))
        ],
        λ h. elim h [
          | inl e ↦ rw e
          | inr r ↦ elim r [
            | inl e ↦ absurd (cc)
            | inr p ↦ ground (arith, both.1 (subst (λ c. Allows c tier) (ground arith) p.2))
          ]
        ],
      )

module _ {F : Type 0} ⦃f : Float F⦄ where
  -- A tier meets the facts of a request and the risk score.
  pub record Serves (tier : CompiledTier F) (policy : CompiledPolicy F) (input : DecisionInput)
      (findings : Findings F) (i o : ℕ) : Type 0 where
    pub required : All (λ c. Elem c tier.capabilities) policy.require_capabilities
    pub tooled :
        (input.tools_present ≡ false)
        ⊎ (Elem tools tier.capabilities × (tier.tool_calling_allowed ≡ true))
    pub window : saturating_add i o ≤ tier.context_window
    pub risk :
        (findings.risk_score ≡ none)
        ⊎ ((r : F) × (findings.risk_score ≡ some r) × (f.lt tier.max_risk_score r ≡ false))

  -- The estimated cost is within the cap of the policy, if it has one.
  abbrev pub WithinCap : CompiledTier F → CompiledPolicy F → ℕ → ℕ → Type 0
  WithinCap tier policy i o =
      (policy.max_cost_micro_eur ≡ none)
      ⊎ ((cap : ℕ) × (policy.max_cost_micro_eur ≡ some cap) × (estimate_cost tier i o ≤ cap))

  risk_iff :
      (tier : CompiledTier F) (risk : Option F)
      → (risk_exceeded tier risk ≡ false)
        ↔ ((risk ≡ none) ⊎ ((r : F) × (risk ≡ some r) × (f.lt tier.max_risk_score r ≡ false)))
  unfolding risk_exceeded
  risk_iff tier none = (λ h. inl refl, λ h. refl)
  risk_iff tier (some r) =
      (λ h. inr (r, refl, h), λ h. elim h [ inl e ↦ absurd (cc) | inr p ↦ ground arith ])

  module _ (tier : CompiledTier F) (policy : CompiledPolicy F) (input : DecisionInput)
      (findings : Findings F) (i o : ℕ) where
    facts_check_sound :
        facts_check tier policy input findings i o ≡ none → Serves tier policy input findings i o
    unfolding facts_check
    facts_check_sound h = record {
      required = subset_sound policy.require_capabilities tier.capabilities (ground arith);
      tooled = elim (Bool-cases input.tools_present) [
        | inr e ↦ inl e
        | inl e ↦ inr (contains_sound tier.capabilities tools (ground arith), ground arith)
      ];
      window = ground arith;
      risk = (risk_iff tier findings.risk_score).0 (ground arith);
    }

    facts_check_complete :
        Serves tier policy input findings i o → facts_check tier policy input findings i o ≡ none
    unfolding facts_check
    facts_check_complete s =
        let tool : (input.tools_present && not (contains tier.capabilities tools)) ≡ false =
          elim s.tooled [
            | inl e ↦ rw e
            | inr p ↦ ground (arith, contains_complete tier.capabilities tools p.0)
          ] in
        let call : (input.tools_present && not tier.tool_calling_allowed) ≡ false = elim s.tooled [
          | inl e ↦ rw e
          | inr p ↦ ground arith
        ] in
        ground (
          arith,
          subset_complete policy.require_capabilities tier.capabilities s.required,
          (risk_iff tier findings.risk_score).1 s.risk,
          s.window,
        )

    cost_check-none_iff :
        (cap : Option ℕ)
        → (cost_check tier policy i o cap ≡ none)
          ↔ ((cap ≡ none) ⊎ ((c : ℕ) × (cap ≡ some c) × (estimate_cost tier i o ≤ c)))
    unfolding cost_check
    cost_check-none_iff none = (λ h. inl refl, λ h. refl)
    cost_check-none_iff (some c) = (
      λ h. inr (c, refl, ground arith),
      λ h. elim h [ inl e ↦ absurd (cc) | inr p ↦ ground (arith, p.2) ],
    )

  module _ (tier : CompiledTier F) (policy : CompiledPolicy F) (input : DecisionInput)
      (findings : Findings F) (data_class : Option (CompiledDataClass F)) where
    -- The check of the fallback under degraded classification passes a tier exactly when the
    -- resolved class allows it and it meets the facts of the request; the cost cap is no part.
    pub request_fact_violation-none_iff :
        (request_fact_violation tier policy input findings data_class ≡ none) ↔ (
          ClassAllows policy data_class tier
          × Serves tier policy input findings input.estimated_input_tokens
              input.estimated_output_tokens)
    unfolding request_fact_violation
    request_fact_violation-none_iff =
        let both = or_else-none (class_check tier policy data_class) _ in
        let class = class_check-none_iff tier policy data_class in
        (
          λ h.
              (class.0 (both.0 h).0, facts_check_sound tier policy input findings _ _ (both.0 h).1),
          λ h. both.1 (class.1 h.0, facts_check_complete tier policy input findings _ _ h.1),
        )

    -- A tier violates no hard constraint exactly when the resolved class allows it, it meets the
    -- facts of the request, and its estimated cost is within the cap.
    pub hard_constraint_violation-none_iff :
        (i o : ℕ)
        → (hard_constraint_violation tier policy input findings data_class i o ≡ none) ↔ (
            ClassAllows policy data_class tier
            × Serves tier policy input findings i o
            × WithinCap tier policy i o)
    unfolding hard_constraint_violation
    hard_constraint_violation-none_iff i o =
        let outer = or_else-none (class_check tier policy data_class) _ in
        let inner = or_else-none (facts_check tier policy input findings i o) _ in
        let class = class_check-none_iff tier policy data_class in
        let cost = cost_check-none_iff tier policy input findings i o policy.max_cost_micro_eur in
        (
          λ h.
              let rest = inner.0 (outer.0 h).1 in
              (
                class.0 (outer.0 h).0,
                facts_check_sound tier policy input findings i o rest.0,
                cost.0 rest.1,
              ),
          λ h. outer.1 (
            class.1 h.0,
            inner.1 (facts_check_complete tier policy input findings i o h.1, cost.1 h.2),
          ),
        )

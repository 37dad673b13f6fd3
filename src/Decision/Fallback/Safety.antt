-- ===== src/Decision/Fallback/Safety.antt =====
-- What `fallback_or_block` of crates/decision/src/lib.rs may route to.
use route_d.Prelude.{◌≡◌, ◌⊎◌, inl, inr, refl, sym, ap, ◌∙◌, subst, Bool, Option, none, some, Text}
use route_d.Float.{Float}
use route_d.Snapshot.{CompiledTier, CompiledDataClass, CompiledPolicy, Snapshot}
use route_d.Snapshot.Lookup.{tier}
use route_d.Decision.Types.{route, block, DecisionInput, Findings, Decision, Why, EliminationReason}
use route_d.Decision.Scoring.{QualityPredictor}
use route_d.Decision.Fallback.{
  fallback_violation, block_fallback, use_fallback, judge_fallback, try_fallback, name_fallback,
  fallback_or_block,
}

module _ {F : Type 0} ⦃f : Float F⦄ (predictor : QualityPredictor F) (s : Snapshot F)
    (policy : CompiledPolicy F) (input : DecisionInput) (findings : Findings F)
    (data_class : Option (CompiledDataClass F)) where
  -- `r` routes to the fallback tier of the policy, which passes the check that applies.
  pub record RoutesToFallback (degraded : Bool) (r : Decision F) : Type 0 where
    pub name : Text
    pub t : CompiledTier F
    pub configured : policy.fallback_tier ≡ some name
    pub found : tier s name ≡ some t
    pub passes : fallback_violation policy input findings data_class degraded t ≡ none
    pub routed : r.outcome ≡ route
    pub selected : r.selected_tier ≡ some t.name
    pub model : r.gateway_model ≡ some t.gateway_model

  -- The policy has a fallback tier that is in the snapshot and passes the check that applies.
  pub record HasUsableFallback (degraded : Bool) : Type 0 where
    pub name : Text
    pub t : CompiledTier F
    pub configured : policy.fallback_tier ≡ some name
    pub found : tier s name ≡ some t
    pub passes : fallback_violation policy input findings data_class degraded t ≡ none

  -- `r` blocks, since there is no fallback tier to use.
  pub record BlocksWithoutFallback (degraded : Bool) (r : Decision F) : Type 0 where
    pub blocked : r.outcome ≡ block
    pub unusable : ¬ HasUsableFallback degraded

  module _ (why : Why) (degraded : Bool) where
    abbrev Judged : Decision F → Type 0
    Judged r = RoutesToFallback degraded r ⊎ BlocksWithoutFallback degraded r

    judged :
        (name : Text) (t : CompiledTier F) (d : Decision F)
        → policy.fallback_tier ≡ some name
        → tier s name ≡ some t
        → (v : Option EliminationReason)
        → fallback_violation policy input findings data_class degraded t ≡ v
        → Judged (judge_fallback predictor policy input findings why name t v d)
    unfolding judge_fallback use_fallback block_fallback
    judged name t d e g (some reason) v = inr (record {
      blocked = refl;
      unusable = λ u.
          let named = sym e ∙ u.configured in
          let same_name : name ≡ u.name = cc in
          let looked_up = sym g ∙ ap (tier s) same_name ∙ u.found in
          let same_tier : t ≡ u.t = cc in
          let passed =
            subst (λ t. fallback_violation policy input findings data_class degraded t ≡ none)
              (sym same_tier) u.passes in
          cc;
    })
    judged name t d e g none v = inl (record {
      name = name;
      t = t;
      configured = e;
      found = g;
      passes = v;
      routed = refl;
      selected = refl;
      model = refl;
    })

    tried :
        (name : Text) (d : Decision F)
        → policy.fallback_tier ≡ some name
        → (o : Option (CompiledTier F)) → tier s name ≡ o
        → Judged (try_fallback predictor policy input findings data_class why degraded name o d)
    unfolding try_fallback
    tried name d e none g = inr (record {
      blocked = refl;
      unusable = λ u.
          let named = sym e ∙ u.configured in
          let same_name : name ≡ u.name = cc in
          let missing = sym g ∙ ap (tier s) same_name ∙ u.found in cc;
    })
    tried name d e (some t) g =
        judged name t d e g (fallback_violation policy input findings data_class degraded t) refl

    naming :
        (d : Decision F) (o : Option Text)
        → policy.fallback_tier ≡ o
        → Judged (name_fallback predictor s policy input findings data_class why degraded o d)
    unfolding name_fallback
    naming d none e =
        inr (record { blocked = refl; unusable = λ u. let missing = sym e ∙ u.configured in cc })
    naming d (some name) e = tried name d e (tier s name) refl

  -- The fallback step routes to the fallback tier of the policy if there is one, it is in the
  -- snapshot and it passes the check that applies; in every other case, and in no other, it blocks.
  pub fallback_or_block-cases :
      (d : Decision F) (why : Why) (degraded : Bool)
      → let r = fallback_or_block predictor s policy input findings data_class d why degraded in
        RoutesToFallback degraded r ⊎ BlocksWithoutFallback degraded r
  unfolding fallback_or_block
  fallback_or_block-cases d why degraded = naming why degraded d policy.fallback_tier refl

  -- the fields that the step leaves as they were
  abbrev pub Keeps : Decision F → Decision F → Type 0
  Keeps d r =
      (r.fallback ≡ d.fallback)
      × (r.degraded ≡ d.degraded)
      × (r.policy ≡ d.policy)
      × (r.data_class ≡ d.data_class)

  named-Keeps :
      (d : Decision F) (why : Why) (degraded : Bool) (o : Option Text)
      → Keeps d (name_fallback predictor s policy input findings data_class why degraded o d)
  unfolding name_fallback use_fallback block_fallback
  named-Keeps d why degraded none = (refl, refl, refl, refl)
  named-Keeps d why degraded (some name) = found (tier s name)
    where
      checked :
          (t : CompiledTier F) (v : Option EliminationReason)
          → Keeps d (judge_fallback predictor policy input findings why name t v d)
      checked t none = (refl, refl, refl, refl)
      checked t (some reason) = (refl, refl, refl, refl)

      found :
          (o : Option (CompiledTier F))
          → Keeps d (try_fallback predictor policy input findings data_class why degraded name o d)
      found none = (refl, refl, refl, refl)
      found (some t) = checked t (fallback_violation policy input findings data_class degraded t)

  pub fallback_or_block-Keeps :
      (d : Decision F) (why : Why) (degraded : Bool)
      → Keeps d (fallback_or_block predictor s policy input findings data_class d why degraded)
  unfolding fallback_or_block
  fallback_or_block-Keeps d why degraded = named-Keeps d why degraded policy.fallback_tier

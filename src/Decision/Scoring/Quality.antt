-- ===== src/Decision/Scoring/Quality.antt =====
-- Predicted qualities of crates/decision/src/lib.rs are finite over finite priors.
use route_d.Prelude.{
  ◌≡◌, inl, inr, true, Option, none, some, [], ◌∷◌, Text, arith, if◌then◌else◌, Bool-cases,
  Option-cases, All, get, BTreeMap, text_ord, ◌==◌,
}
use route_d.Float.{Float, IsIeee}
use route_d.Snapshot.{CompiledTier, CompiledPolicy}
use route_d.Snapshot.Cost.{quality_for}
use route_d.Decision.Types.{Findings}
use route_d.Decision.Scoring.{QualityPredictor, predicted, predicted_quality}

module _ {F : Type 0} ⦃f : Float F⦄ where
  -- The quality priors of a tier are finite, as the policy compiler checks.
  pub record HasFiniteQuality (t : CompiledTier F) : Type 0 where
    pub baseline : f.is_finite t.quality_baseline ≡ true
    pub by_task : All (λ e. f.is_finite e.1 ≡ true) t.quality_by_task

  get-finite :
      (m : BTreeMap Text F) (k : Text) (v : F)
      → All (λ e. f.is_finite e.1 ≡ true) m
      → get m k ≡ some v
      → f.is_finite v ≡ true
  unfolding get
  get-finite [] k v h e = cc
  get-finite ((j, w) ∷ m) k v (h, hs) e = elim (Bool-cases (j == k)) [
    | inl b ↦ let same : some w ≡ some v = rw b at e in ground arith
    | inr b ↦ get-finite m k v hs (rw b at e)
  ]

  quality_for-finite :
      (t : CompiledTier F) (task : Option Text)
      → HasFiniteQuality t
      → f.is_finite (quality_for t task) ≡ true
  unfolding quality_for
  quality_for-finite t none h = h.baseline
  quality_for-finite t (some k) h = elim (Option-cases (get t.quality_by_task k)) [
    | inl e ↦ rw e h.baseline
    | inr (v, e) ↦ rw e (get-finite t.quality_by_task k v h.by_task e)
  ]

  module _ (laws : IsIeee F) where
    predicted-finite :
        (policy : CompiledPolicy F) (prior : F) (p : Option (F × F))
        → f.is_finite prior ≡ true
        → f.is_finite (predicted policy prior p) ≡ true
    unfolding predicted
    predicted-finite policy prior none h = h
    predicted-finite policy prior (some (q, conf)) h =
        ground (arith, laws.zero_finite, laws.one_finite)

    pub predicted_quality-finite :
        (predictor : QualityPredictor F) (t : CompiledTier F) (findings : Findings F)
        (policy : CompiledPolicy F)
        → HasFiniteQuality t
        → f.is_finite (predicted_quality predictor t findings policy) ≡ true
    unfolding predicted_quality
    predicted_quality-finite predictor t findings policy h =
        let prior = quality_for-finite t findings.task h in
        elim (Bool-cases policy.learned_router.enabled) [
          | inl e ↦
              rw (e, if◌then◌else◌)
                (predicted-finite policy (quality_for t findings.task)
                  (predictor.predict t findings) prior)
          | inr e ↦ rw (e, if◌then◌else◌) prior
        ]

-- ===== src/Decision/Scoring/Optimal.antt =====
-- The selection of crates/decision/src/lib.rs is the best of the scored tiers.
use route_d.Prelude.{
  ℕ, ◌<◌, ap, ◌≡◌, ◌⊎◌, inl, inr, refl, sym, subst, true, false, some, List, ◌∷◌, map, arith, Elem,
  All, All_elem, All-of_Elem, sort_by, sort_by-IsOrdered, sort_by-Elem, Elem-sort_by, IsOrdered,
  is_gt, cmp_text, cmp_text_refl, cmp_text_flip, cmp_text_trans, Elem-of_map, Elem-map,
  cons_of_Elem,
}
use route_d.Float.{Float, IsIeee, IsNumber}
use route_d.Snapshot.{CompiledTier, CompiledPolicy}
use route_d.Decision.Types.{route, Findings, Decision}
use route_d.Decision.Round.{micro_to_eur}
use route_d.Decision.Scoring.{
  QualityPredictor, Scored, Ranked, by_score, rank_all, scored_tier, apply_floor, select_best,
  score_and_select,
}
use route_d.Decision.Scoring.Floor.{apply_floor-Elem}

module _ {F : Type 0} ⦃f : Float F⦄ where
  -- `a` has the higher score, or `b` has no higher score and `a` costs less, or as much and its
  -- name does not come later.
  abbrev pub Preferred : Ranked F → Ranked F → Type 0
  Preferred a b =
      (f.lt b.score a.score ≡ true)
      ⊎ ((f.lt a.score b.score ≡ false)
          × ((a.item.cost < b.item.cost)
              ⊎ ((a.item.cost ≡ b.item.cost)
                  × (is_gt (cmp_text a.item.tier.name b.item.tier.name) ≡ false))))

  abbrev HasNumber : Ranked F → Type 0
  HasNumber r = IsNumber r.score

  module _ (laws : IsIeee F) where
    by_score-le :
        (a b : Ranked F) → HasNumber a → HasNumber b → is_gt (by_score a b) ≡ false → Preferred a b
    unfolding by_score
    by_score-le a b na nb h = ground arith

    by_score-ge :
        (a b : Ranked F) → HasNumber a → HasNumber b → is_gt (by_score a b) ≡ true → Preferred b a
    unfolding by_score
    by_score-ge a b na nb h = ground (
      arith,
      laws.lt_irrefl a.score,
      laws.lt_trans a.score b.score a.score,
      cmp_text_flip a.item.tier.name b.item.tier.name,
    )

    Preferred-trans :
        (a b c : Ranked F)
        → HasNumber a
        → HasNumber b
        → HasNumber c
        → Preferred a b
        → Preferred b c
        → Preferred a c
    Preferred-trans a b c na nb nc h k = ground (
      arith,
      laws.lt_trans c.score b.score a.score,
      laws.lt_split b.score a.score c.score,
      laws.lt_split c.score b.score a.score,
      laws.lt_split a.score c.score b.score,
      cmp_text_trans a.item.tier.name b.item.tier.name c.item.tier.name,
    )

    Preferred-refl : (a : Ranked F) → Preferred a a
    Preferred-refl a =
        inr (laws.lt_irrefl a.score, inr (refl, ground (arith, cmp_text_refl a.item.tier.name)))

    sorted-Preferred :
        (rs : List (Ranked F)) (best : Ranked F) (rest : List (Ranked F))
        → All HasNumber rs
        → sort_by by_score rs ≡ best ∷ rest
        → All (Preferred best) rs
    sorted-Preferred rs best rest n e =
        let ordered = subst (IsOrdered Preferred) e (
          sort_by-IsOrdered by_score HasNumber Preferred by_score-le by_score-ge Preferred-trans rs
            n) in
        All-of_Elem (Preferred best) rs λ r m.
          elim (subst (Elem r) e (sort_by-Elem by_score rs r m)) [
            | inl same ↦ subst (Preferred best) same (Preferred-refl best)
            | inr later ↦ All_elem (Preferred best) rest r ordered.0 later
          ]

  -- What the decision says once a tier is selected.
  pub record Selects (d : Decision F) (best : Ranked F) : Type 0 where
    pub routed : d.outcome ≡ route
    pub tier : d.selected_tier ≡ some best.item.tier.name
    pub model : d.gateway_model ≡ some best.item.tier.gateway_model
    pub cost : d.estimated_cost_eur ≡ some (micro_to_eur best.item.cost)

  select_best-Selects :
      (policy : CompiledPolicy F) (findings : Findings F) (rs rest : List (Ranked F))
      (best : Ranked F) (d : Decision F)
      → rs ≡ best ∷ rest
      → Selects (select_best policy findings rs d) best
  unfolding select_best
  select_best-Selects policy findings rs rest best d e =
      subst (λ x. Selects (select_best policy findings x d) best) (sym e)
        (record { routed = refl; tier = refl; model = refl; cost = refl })

  module _ (predictor : QualityPredictor F) (policy : CompiledPolicy F)
      (survivors : List (CompiledTier F)) (findings : Findings F) (i o : ℕ) (d : Decision F) where
    -- the survivors with their quality, cost and latency
    abbrev pub scored : List (Scored F)
    scored = map (scored_tier predictor policy findings i o) survivors

    -- those that the quality floor keeps, with their scores
    abbrev pub ranked : List (Ranked F)
    ranked = rank_all policy (apply_floor policy.quality_floor scored d).0

    pub ranked-survivor :
        (r : Ranked F)
        → Elem r ranked
        → Elem r.item (apply_floor policy.quality_floor scored d).0
          × ((t : CompiledTier F) × Elem t survivors
              × (scored_tier predictor policy findings i o t ≡ r.item))
    unfolding rank_all
    ranked-survivor r m =
        let (x, k, e) = Elem-of_map _ (apply_floor policy.quality_floor scored d).0 r m in
        let here =
          subst (λ y. Elem y (apply_floor policy.quality_floor scored d).0) (ap (λ y. y.item) e)
            k in
        (
          here,
          Elem-of_map (scored_tier predictor policy findings i o) survivors r.item
              (apply_floor-Elem policy.quality_floor scored d r.item here),
        )

    ranked-some :
        (x : Scored F)
        → Elem x (apply_floor policy.quality_floor scored d).0
        → (r : Ranked F) × Elem r ranked
    unfolding rank_all
    ranked-some x m = (_, Elem-map _ (apply_floor policy.quality_floor scored d).0 x m)

    -- Where the floor keeps a tier, the decision routes to one of the ranked tiers.
    pub score_and_select-Selects :
        (x : Scored F)
        → Elem x (apply_floor policy.quality_floor scored d).0
        → (best : Ranked F) × (rest : List (Ranked F)) × (sort_by by_score ranked ≡ best ∷ rest)
          × Elem best ranked
          × Selects (score_and_select predictor policy survivors findings i o d) best
    unfolding score_and_select
    score_and_select-Selects x m =
        let (r, k) = ranked-some x m in
        let (best, rest, e) =
          cons_of_Elem (sort_by by_score ranked) r (sort_by-Elem by_score ranked r k) in
        (
          best,
          rest,
          e,
          Elem-sort_by by_score ranked best (subst (Elem best) (sym e) (inl refl)),
          select_best-Selects policy findings (sort_by by_score ranked) rest best _ e,
        )

    -- If the floor keeps a tier and every score is a number, the decision routes to a ranked
    -- survivor that is preferred to every ranked survivor: none has a higher score, none with an
    -- equal score is cheaper, and among those the name comes first.
    pub score_and_select_optimal :
        (laws : IsIeee F) (x : Scored F)
        → Elem x (apply_floor policy.quality_floor scored d).0
        → All (λ r. IsNumber r.score) ranked
        → (best : Ranked F) × Elem best ranked
          × Elem best.item.tier survivors
          × Selects (score_and_select predictor policy survivors findings i o d) best
          × All (Preferred best) ranked
    unfolding scored_tier
    score_and_select_optimal laws x m n =
        let (best, rest, e, k, s) = score_and_select-Selects x m in
        let (t, l, same) = (ranked-survivor best k).1 in
        (
          best,
          k,
          subst (λ y. Elem y survivors) (ap (λ y. y.tier) same) l,
          s,
          sorted-Preferred laws ranked best rest n e,
        )

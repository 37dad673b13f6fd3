-- ===== src/Decision/Engine/Stages.antt =====
-- Facts about the steps of `decide` in crates/decision/src/lib.rs: the pruning loop and the scoring
-- of what survives it.
use route_d.Prelude.{
  ℕ, ap, ◌≡◌, ◌⊎◌, inl, inr, refl, sym, subst, ◌∙◌, Option, none, some, List, [], ◌∷◌, Text,
  Bool-cases, List-cases, Elem, any, Elem-append_cases, sort_by,
}
use route_d.Float.{Float}
use route_d.Snapshot.{CompiledTier, CompiledPolicy, Snapshot}
use route_d.Snapshot.Lookup.{tier}
use route_d.Decision.Types.{route, pass_through, EliminationReason, Findings, Candidate, Decision}
use route_d.Decision.Scoring.{
  QualityPredictor, Scored, by_score, rank_all, scored_tier, apply_floor, meets, select_best,
  score_and_select,
}
use route_d.Decision.Scoring.Optimal.{scored, score_and_select-Selects, ranked-survivor}
use route_d.Decision.Engine.{judge, round, prune}

module _ {F : Type 0} ⦃f : Float F⦄ where
  module _ (s : Snapshot F) (check : CompiledTier F → Option EliminationReason) where
    -- A survivor is a tier of the snapshot under a candidate's name that passes the check.
    abbrev pub Survives : List Text → CompiledTier F → Type 0
    Survives names t = (name : Text) × Elem name names × (tier s name ≡ some t) × (check t ≡ none)

    judge-Elem :
        (u t : CompiledTier F) (name : Text) (v : Option EliminationReason)
        (acc : List (CompiledTier F) × List (Candidate F))
        → check u ≡ v
        → Elem t (judge u name v acc).0
        → Elem t acc.0 ⊎ ((u ≡ t) × (check t ≡ none))
    unfolding judge
    judge-Elem u t name (some r) acc e m = inl m
    judge-Elem u t name none acc e m = elim (Elem-append_cases acc.0 (u ∷ []) t m) [
      | inl l ↦ inl l
      | inr r ↦ elim r [
        | inl same ↦ inr (same, subst (λ x. check x ≡ none) same e)
        | inr bad ↦ absurd bad
      ]
    ]

    round-Elem :
        (name : Text) (o : Option (CompiledTier F))
        (acc : List (CompiledTier F) × List (Candidate F)) (t : CompiledTier F)
        → tier s name ≡ o
        → Elem t (round check name o acc).0
        → Elem t acc.0 ⊎ ((tier s name ≡ some t) × (check t ≡ none))
    unfolding round
    round-Elem name none acc t e m = inl m
    round-Elem name (some u) acc t e m = elim (judge-Elem u t name (check u) acc refl m) [
      | inl l ↦ inl l
      | inr (same, c) ↦ inr (e ∙ ap some same, c)
    ]

    pub prune_sound :
        (names : List Text) (acc : List (CompiledTier F) × List (Candidate F)) (t : CompiledTier F)
        → Elem t (prune s check names acc).0
        → Elem t acc.0 ⊎ Survives names t
    unfolding prune
    prune_sound [] acc t m = inl m
    prune_sound (name ∷ names) acc t m =
        elim (prune_sound names (round check name (tier s name) acc) t m) [
          | inr (n, k, e, c) ↦ inr (n, inr k, e, c)
          | inl k ↦ elim (round-Elem name (tier s name) acc t refl k) [
            | inl old ↦ inl old
            | inr (e, c) ↦ inr (name, inl refl, e, c)
          ]
        ]

  apply_floor-outcome :
      (floor : Option F) (sc : List (Scored F)) (d : Decision F)
      → (apply_floor floor sc d).1.outcome ≡ d.outcome
  unfolding apply_floor
  apply_floor-outcome none sc d = refl
  apply_floor-outcome (some floor) sc d = elim (Bool-cases (any (meets floor) sc)) [
    | inl e ↦ rw e
    | inr e ↦ rw e
  ]

  -- Where the floor keeps nothing, scoring leaves the outcome as it was.
  unselected :
      (predictor : QualityPredictor F) (policy : CompiledPolicy F)
      (survivors : List (CompiledTier F)) (findings : Findings F) (i o : ℕ) (d : Decision F)
      → (apply_floor policy.quality_floor (scored predictor policy survivors findings i o d) d).0
        ≡ []
      → (score_and_select predictor policy survivors findings i o d).outcome ≡ d.outcome
  unfolding score_and_select rank_all sort_by select_best
  unselected predictor policy survivors findings i o d e =
      let sc = scored predictor policy survivors findings i o d in
      let floor = apply_floor policy.quality_floor sc d in
      ap (λ k. (select_best policy findings (sort_by by_score (rank_all policy k)) floor.1).outcome)
        e
      ∙ apply_floor-outcome policy.quality_floor sc d

  -- A decision that scoring routes names a survivor.
  pub score_and_select_sound :
      (predictor : QualityPredictor F) (policy : CompiledPolicy F)
      (survivors : List (CompiledTier F)) (findings : Findings F) (i o : ℕ) (d : Decision F)
      → d.outcome ≡ pass_through
      → (score_and_select predictor policy survivors findings i o d).outcome ≡ route
      → let r = score_and_select predictor policy survivors findings i o d in
        (t : CompiledTier F) × Elem t survivors
        × (r.selected_tier ≡ some t.name)
        × (r.gateway_model ≡ some t.gateway_model)
  unfolding scored_tier
  score_and_select_sound predictor policy survivors findings i o d p h =
      let floor =
        apply_floor policy.quality_floor (scored predictor policy survivors findings i o d) d in
      elim (List-cases floor.0) [
        | inl e ↦ let u = unselected predictor policy survivors findings i o d e in absurd (cc)
        | inr (x, xs, e) ↦
            let (best, rest, q, k, sel) =
              score_and_select-Selects predictor policy survivors findings i o d x
                (subst (Elem x) (sym e) (inl refl)) in
            let (t, m, same) =
              (ranked-survivor predictor policy survivors findings i o d best k).1 in
            let eq : t ≡ best.item.tier = ap (λ y. y.tier) same in
            (
              t,
              m,
              sel.tier ∙ ap (λ y. some y.name) (sym eq),
              sel.model ∙ ap (λ y. some y.gateway_model) (sym eq),
            )
      ]

-- ===== src/Decision/Scoring/Floor.antt =====
-- The quality floor of crates/decision/src/lib.rs: what the loops keep, and that something is kept.
use mathlib.Core.List.{append_assoc, append-nil}
use route_d.Prelude.{
  ap, ◌≡◌, ◌⊎◌, inl, inr, refl, sym, subst, ◌∙◌, Bool, true, not, Option, none, some, List, [], ◌∷◌,
  ◌++◌, map, if◌then◌else◌, Bool-cases, any, any_sound, filter, filter_sound, filter_complete, Elem,
  All, Any, All_elem, Elem-of_Any,
}
use route_d.Float.{Float, IsIeee}
use route_d.Decision.Types.{Candidate, Decision}
use route_d.Decision.Scoring.{
  Scored, floored, keep_passing, meets, is_best, best_quality, apply_floor,
}

module _ {F : Type 0} ⦃f : Float F⦄ where
  -- The loop keeps what passes, in order, and adds a candidate for everything else, in order.
  pub keep_passing-eq :
      (pass : Scored F → Bool) (ss kept : List (Scored F)) (cs : List (Candidate F))
      → keep_passing pass ss kept cs
        ≡ (kept ++ filter pass ss, cs ++ map floored (filter (λ s. not (pass s)) ss))
  unfolding keep_passing filter
  keep_passing-eq pass [] kept cs = λ i. (sym (append-nil kept) i, sym (append-nil cs) i)
  keep_passing-eq pass (s ∷ ss) kept cs = elim (Bool-cases (pass s)) [
    | inl e ↦
        rw (e, keep_passing-eq pass ss (kept ++ s ∷ []) cs)
          (λ i. (
            append_assoc kept (s ∷ []) (filter pass ss) i,
            cs ++ map floored (filter (λ x. not (pass x)) ss),
          ))
    | inr e ↦
        rw (e, keep_passing-eq pass ss kept (cs ++ floored s ∷ []))
          (λ i. (
            kept ++ filter pass ss,
            append_assoc cs (floored s ∷ []) (map floored (filter (λ x. not (pass x)) ss)) i,
          ))
  ]

  -- the two tests by which the floor keeps
  apply_floor-filter :
      (floor : F) (scored : List (Scored F)) (d : Decision F)
      → (apply_floor (some floor) scored d).0
        ≡ filter
            (if any (meets floor) scored
              then meets floor
              else is_best (best_quality f.lowest scored))
            scored
  unfolding apply_floor
  apply_floor-filter floor scored d = elim (Bool-cases (any (meets floor) scored)) [
    | inl e ↦ rw e (ap (λ p. p.0) (keep_passing-eq (meets floor) scored [] d.candidates))
    | inr e ↦ rw e (
        ap (λ p. p.0)
          (keep_passing-eq (is_best (best_quality f.lowest scored)) scored [] d.candidates))
  ]

  pub apply_floor-Elem :
      (floor : Option F) (scored : List (Scored F)) (d : Decision F) (x : Scored F)
      → Elem x (apply_floor floor scored d).0
      → Elem x scored
  unfolding apply_floor
  apply_floor-Elem none scored d x m = m
  apply_floor-Elem (some floor) scored d x m =
      (filter_sound _ scored x (subst (Elem x) (apply_floor-filter floor scored d) m)).0

  -- the two grounds on which a tier stays: it meets the floor, or none does and it is the best
  abbrev pub Stays : F → List (Scored F) → Scored F → Type 0
  Stays floor scored x =
      (meets floor x ≡ true)
      ⊎ ((¬ Any (λ s. meets floor s ≡ true) scored)
          × (is_best (best_quality f.lowest scored) x ≡ true))

  module _ (laws : IsIeee F) where
    best_quality-elem :
        (best : F) (ss : List (Scored F))
        → (best_quality best ss ≡ best) ⊎ Any (λ s. s.quality ≡ best_quality best ss) ss
    unfolding best_quality
    best_quality-elem best [] = inl refl
    best_quality-elem best (s ∷ ss) = elim (best_quality-elem (f.most best s.quality) ss) [
      | inr m ↦ inr (inr m)
      | inl e ↦ elim (laws.most_either best s.quality) [
        | inl l ↦ inl (e ∙ l)
        | inr r ↦ inr (inl (sym (e ∙ r)))
      ]
    ]

    -- the best of some finite qualities is one of them
    best_quality_attained :
        (s : Scored F) (ss : List (Scored F))
        → f.is_finite s.quality ≡ true
        → Any (λ x. x.quality ≡ best_quality f.lowest (s ∷ ss)) (s ∷ ss)
    unfolding best_quality
    best_quality_attained s ss fin = elim (best_quality-elem (f.most f.lowest s.quality) ss) [
      | inr m ↦ inr m
      | inl e ↦ inl (sym (e ∙ laws.most_lowest s.quality fin))
    ]

    -- Of some tiers with finite qualities the floor always keeps one.
    pub apply_floor-some :
        (floor : Option F) (s : Scored F) (ss : List (Scored F)) (d : Decision F)
        → All (λ x. f.is_finite x.quality ≡ true) (s ∷ ss)
        → (x : Scored F) × Elem x (apply_floor floor (s ∷ ss) d).0
    unfolding apply_floor
    apply_floor-some none s ss d fin = (s, inl refl)
    apply_floor-some (some floor) s ss d fin = elim (Bool-cases (any (meets floor) (s ∷ ss))) [
      | inl e ↦
          let (x, m, t) = Elem-of_Any _ (s ∷ ss) (any_sound (meets floor) (s ∷ ss) e) in
          (x, kept e x (filter_complete (meets floor) (s ∷ ss) x m t))
      | inr e ↦
          let (x, m, t) = Elem-of_Any _ (s ∷ ss) (best_quality_attained s ss fin.0) in
          let near =
            subst (λ q. f.lt (f.abs (f.sub x.quality q)) (f.decimal 1 12) ≡ true) t
              (laws.sub_self x.quality (All_elem _ (s ∷ ss) x fin m)) in
          (
            x,
            kept e x (filter_complete (is_best (best_quality f.lowest (s ∷ ss))) (s ∷ ss) x m near),
          )
    ]
      where
        kept :
            {b : Bool}
            → any (meets floor) (s ∷ ss) ≡ b
            → (x : Scored F)
            → Elem x (
                filter
                  (if b then meets floor else is_best (best_quality f.lowest (s ∷ ss)))
                  (s ∷ ss))
            → Elem x (apply_floor (some floor) (s ∷ ss) d).0
        kept e x m =
            subst (Elem x)
              (sym (
                apply_floor-filter floor (s ∷ ss) d
                ∙ ap
                    (λ b.
                      filter (if b then meets floor else is_best (best_quality f.lowest (s ∷ ss)))
                        (s ∷ ss))
                    e))
              m

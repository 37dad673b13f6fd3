-- ===== src/Decision/Round.antt =====
-- crates/decision/src/lib.rs: rounding, money as a float, and the normalisation of a value
-- against a range.
use route_d.Prelude.{not, ◌||◌, List, [], ◌∷◌, if◌then◌else◌}
use route_d.Float.{Float, clamp}
use route_d.Snapshot.{MicroEur}

module _ {F : Type 0} ⦃f : Float F⦄ where
  unfoldable pub round6 : F → F
  round6 v = f.div (f.round (f.mul v (f.decimal 1_000_000 0))) (f.decimal 1_000_000 0)

  unfoldable pub micro_to_eur : MicroEur → F
  micro_to_eur m = f.div (f.of_nat m) (f.decimal 1_000_000 0)

  minmax_from : F → F → List F → F × F
  minmax_from lo hi [] = (lo, hi)
  minmax_from lo hi (v ∷ vs) = minmax_from (f.least lo v) (f.most hi v) vs

  unfoldable pub minmax : List F → F × F
  unfolding minmax_from
  minmax = minmax_from f.infinity f.neg_infinity

  unfoldable pub norm : F → F → F → F
  norm v lo hi =
      if f.le hi lo || not (f.is_finite hi) || not (f.is_finite lo) || not (f.is_finite v)
      then f.decimal 0 0
      else clamp (f.decimal 0 0) (f.decimal 1 0) (f.div (f.sub v lo) (f.sub hi lo))

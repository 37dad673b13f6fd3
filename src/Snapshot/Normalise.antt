-- ===== src/Snapshot/Normalise.antt =====
-- crates/snapshot/src/lib.rs, `impl Weights`.
use route_d.Prelude.{not, ◌||◌, if◌then◌else◌}
use route_d.Api.{
  ObjectiveMode, cost_first_with_quality_floor, quality_first, balanced, latency_first,
}
use route_d.Float.{Float}
use route_d.Snapshot.{Weights}

module _ {F : Type 0} ⦃f : Float F⦄ where
  abbrev weights : F → F → F → Weights F
  weights c q l = record { cost = c; quality = q; latency = l }

  unfoldable pub for_mode : ObjectiveMode → Weights F
  for_mode cost_first_with_quality_floor = weights (f.decimal 6 1) (f.decimal 3 1) (f.decimal 1 1)
  for_mode quality_first = weights (f.decimal 1 1) (f.decimal 8 1) (f.decimal 1 1)
  for_mode balanced = let third = f.div (f.of_nat 1) (f.of_nat 3) in weights third third third
  for_mode latency_first = weights (f.decimal 1 1) (f.decimal 2 1) (f.decimal 7 1)

  unfoldable pub normalised : Weights F → ObjectiveMode → Weights F
  unfolding for_mode
  normalised w mode =
      let sum = f.add (f.add w.cost w.quality) w.latency in
      if f.le sum (f.of_nat 0) || not (f.is_finite sum)
      then for_mode mode
      else weights (f.div w.cost sum) (f.div w.quality sum) (f.div w.latency sum)

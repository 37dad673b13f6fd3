-- ===== src/Examples/Snapshots.antt =====
-- The snapshot and its holder (crates/snapshot/src/lib.rs) at concrete values.
use route_d.Prelude.{
  ℕ, ◌≡◌, ◌≤◌, ◌<◌, ◌+◌, ◌*◌, ◌⊎◌, refl, none, some, [], ◌∷◌, Text, text, arith, u64_max,
}
use route_d.Float.Fixed.{Fixed, fixed_float}
use route_d.Snapshot.{SnapshotCore}
use route_d.Snapshot.Cost.{estimate_cost, exact_price, Fits, estimate_cost_exact}
use route_d.Snapshot.Holder.{
  SnapshotHolder, new_holder, store, stored, created, IsConsistent, Reaches-IsConsistent,
}
use route_d.Snapshot.Holder.Interleaving.{Shared, start, Pending, Step, Reach, IsSafe, Reach-IsSafe}
use route_d.Examples.Engine.{engine}
use route_d.Examples.Data.{eu_small}

-- a hash that tells the number of policies
abbrev hash_of : SnapshotCore Fixed → Text
hash_of c = elim c.policies [ [] ↦ text "none" | p ∷ ps ↦ p.key ]

eu_small-Fits : Fits eu_small 1_001 7
eu_small-Fits = record {
  input = omega arith;
  output = omega arith;
  input_price = omega arith;
  output_price = omega arith;
  total = omega arith;
}

estimate_cost_exact_example :
    let cost = estimate_cost eu_small 1_001 7 in
    (cost ≤ u64_max)
    × ((exact_price eu_small 1_001 7 ≤ cost * 1_000_000) ⊎ (cost ≡ u64_max))
    × (cost * 1_000_000 < exact_price eu_small 1_001 7 + 1_000_000)
estimate_cost_exact_example = estimate_cost_exact eu_small 1_001 7 eu_small-Fits

-- the price of 101.5 micro-EUR is rounded up
small_cost : estimate_cost eu_small 1_001 7 ≡ 102
unfolding engine
small_cost = refl

abbrev loaded : SnapshotHolder ℕ
loaded = record { current = some 1; previous = none; loaded_at = some 100 }

Reaches-IsConsistent_example : IsConsistent {S = ℕ} (store (store new_holder 100 1) 200 2)
Reaches-IsConsistent_example =
    Reaches-IsConsistent (store (store new_holder 100 1) 200 2)
      (stored 200 2 (stored 100 1 created))

-- Two threads store at once, and the first to begin is the last to save what it swapped out.
abbrev after_first : Shared ℕ
after_first = record {
  holder = record { current = some 1; previous = none; loaded_at = none };
  pending = Pending.save none ∷ [];
  given = 1 ∷ [];
}

abbrev after_second : Shared ℕ
after_second = record {
  holder = record { current = some 2; previous = none; loaded_at = none };
  pending = Pending.save (some 1) ∷ Pending.save none ∷ [];
  given = 2 ∷ 1 ∷ [];
}

abbrev after_save : Shared ℕ
after_save = record {
  holder = record { current = some 2; previous = some 1; loaded_at = none };
  pending = Pending.stamp ∷ Pending.save none ∷ [];
  given = 2 ∷ 1 ∷ [];
}

interleaved : Reach after_save
interleaved =
    Reach.next
      (Reach.next (Reach.next Reach.here (Step.begin_store start 1))
        (Step.begin_store after_first 2))
      (Step.end_save after_second (some 1) [] (Pending.save none ∷ []) refl)

Reach-IsSafe_example : IsSafe after_save
Reach-IsSafe_example = Reach-IsSafe after_save interleaved

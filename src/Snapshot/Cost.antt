-- ===== src/Snapshot/Cost.antt =====
-- crates/snapshot/src/lib.rs, `impl CompiledTier`: the quality prior and the cost estimate.
use route_d.Prelude.{
  ℕ, ◌+◌, ◌*◌, ◌/◌, ◌%◌, ◌≤◌, ◌<◌, ◌≡◌, ◌⊎◌, Option, arith, Text, text_ord, get, and_then,
  unwrap_or, ltb, if◌then◌else◌, u64_max, u128_mod, mul_u128, add_u128, to_u64_or_max,
  mul_u128_exact,
}
use route_d.Snapshot.{CompiledTier, MicroEur}

-- `n.div_ceil(d)`
unfoldable pub div_ceil : ℕ → ℕ → ℕ
div_ceil n d = let q = n / d in if ltb 0 (n % d) then q + 1 else q

module _ {F : Type 0} where
  unfoldable pub quality_for : CompiledTier F → Option Text → F
  quality_for t task = unwrap_or (and_then task λ k. get t.quality_by_task k) t.quality_baseline

  unfoldable pub estimate_cost : CompiledTier F → ℕ → ℕ → MicroEur
  unfolding div_ceil
  estimate_cost t input_tokens output_tokens =
      let input = mul_u128 input_tokens t.input_micro_eur_per_million in
      let output = mul_u128 output_tokens t.output_micro_eur_per_million in
      let total = div_ceil (add_u128 input output) 1_000_000 in to_u64_or_max total

  -- The exact price, in millionths of a micro-EUR.
  abbrev pub exact_price : CompiledTier F → ℕ → ℕ → ℕ
  exact_price t i o = i * t.input_micro_eur_per_million + o * t.output_micro_eur_per_million

  -- Token counts and prices that are `u64`, and whose total fits the `u128` of the estimate.
  pub record Fits (t : CompiledTier F) (i o : ℕ) : Type 0 where
    pub input : i ≤ u64_max
    pub output : o ≤ u64_max
    pub input_price : t.input_micro_eur_per_million ≤ u64_max
    pub output_price : t.output_micro_eur_per_million ≤ u64_max
    pub total : exact_price t i o < u128_mod

  -- If the exact price fits, the estimate is a `u64`, and it is the price rounded up to a whole
  -- micro-EUR, or the largest `u64` if the rounded price is larger than that.
  pub estimate_cost_exact :
      (t : CompiledTier F) (i o : ℕ)
      → Fits t i o
      → let cost = estimate_cost t i o in
        (cost ≤ u64_max)
        × ((exact_price t i o ≤ cost * 1_000_000) ⊎ (cost ≡ u64_max))
        × (cost * 1_000_000 < exact_price t i o + 1_000_000)
  unfolding estimate_cost
  estimate_cost_exact t i o f =
      let p = mul_u128_exact i t.input_micro_eur_per_million f.input f.input_price in
      let q = mul_u128_exact o t.output_micro_eur_per_million f.output f.output_price in
      rw (p, q) (ground arith)

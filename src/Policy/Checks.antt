-- ===== src/Policy/Checks.antt =====
-- crates/policy/src/lib.rs: the tests of single values, and of a tier against a data class. The child
-- compares the latter with the engine's.
pub mod Agreement
use route_d.Prelude.{
  ℕ, Bool, true, false, not, Option, none, some, List, Text, text, text_ord, ◌&&◌, ◌||◌, any,
  contains, is_empty, if◌then◌else◌, BTreeMap, get, and_then,
}
use mathlib.Core.Option
use route_d.Api.{Currency, eur, usd, capability_ord, jurisdiction_ord, operator_control_ord}
use route_d.Float.{Float}
use route_d.Snapshot.{CompiledTier, CompiledDataClass, MicroEur}

module _ {F : Type 0} where
  unfoldable pub data_class_violation : CompiledTier F → CompiledDataClass F → Option Text
  data_class_violation tier dc =
      if not (contains tier.allowed_data_classes dc.name)
      then some (text "not in tier.sovereignty.allowedDataClasses")
      else if not (is_empty dc.require_jurisdiction)
          && not (contains dc.require_jurisdiction tier.jurisdiction)
      then some (text "jurisdiction not allowed")
      else if dc.forbid_cloud_act_exposed && tier.cloud_act_exposed
      then some (text "CLOUD Act exposed")
      else if not (is_empty dc.require_operator_control)
          && not (contains dc.require_operator_control tier.operator_control)
      then some (text "operator control not allowed")
      else if any (λ c. contains dc.forbid_capabilities c) tier.capabilities
      then some (text "offers a forbidden capability")
      else none

module _ {F : Type 0} ⦃f : Float F⦄ where
  unfoldable pub within : F → F → F → Bool
  within v lo hi = f.is_finite v && f.le lo v && f.le v hi

  -- a probability, and a number that is not negative
  abbrev pub is_probability : F → Bool
  is_probability v = within v (f.decimal 0 0) (f.decimal 1 0)

  abbrev pub is_amount : F → Bool
  is_amount v = within v (f.decimal 0 0) f.greatest

  rate_of : Currency → BTreeMap Text F → Option F
  rate_of eur fx = some (f.decimal 1 0)
  rate_of usd fx = get fx (text "USD")

  micro_of : F → F → Option MicroEur
  micro_of price rate =
      let micro = f.round (f.mul (f.mul price rate) (f.decimal 1_000_000 0)) in
      if not (f.is_finite micro) || f.lt micro (f.decimal 0 0) then none else some (f.to_u64 micro)

  unfoldable pub to_micro_eur : F → Currency → BTreeMap Text F → Option MicroEur
  unfolding rate_of micro_of
  to_micro_eur price currency fx = and_then (rate_of currency fx) (micro_of price)

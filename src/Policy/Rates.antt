-- ===== src/Policy/Rates.antt =====
-- crates/policy/src/lib.rs, `compile`: the conversion rates of all profiles.
use route_d.Prelude.{
  Bool, not, Option, none, some, List, [], ◌∷◌, ◌++◌, Text, text, text_ord, ◌&&◌, ◌||◌,
  if◌then◌else◌, BTreeMap, get, insert,
}
use route_d.Api.Profiles.{RouterProfile}
use route_d.Float.{Float}
use route_d.Policy.Report.{CompileReport, error, said, conflicting_rate, push, ns_name}
use route_d.Policy.Checks.{is_amount}

module _ {F : Type 0} ⦃f : Float F⦄ where
  -- `a == b` on floats
  abbrev equals : F → F → Bool
  equals a b = f.le a b && f.le b a

  -- `match fx.get(cur)`
  add_rate :
      Text
      → Text
      → F
      → Option F
      → BTreeMap Text F × CompileReport F
      → BTreeMap Text F × CompileReport F
  add_rate pname cur rate none (fx, r) = (insert fx cur rate, r)
  add_rate pname cur rate (some existing) (fx, r) =
      if f.lt f.epsilon (f.abs (f.sub existing rate))
      then (
        fx,
        push error (text "RouterProfile") pname (text "spec.costModel.fxToEUR." ++ cur)
            (conflicting_rate rate existing) r,
      )
      else (insert fx cur rate, r)

  -- one round of the inner loop
  read_rate :
      Text → Text × F → BTreeMap Text F × CompileReport F → BTreeMap Text F × CompileReport F
  unfolding add_rate
  read_rate pname (cur, rate) (fx, r) =
      if not (is_amount rate) || equals rate (f.decimal 0 0)
      then (
        fx,
        push error (text "RouterProfile") pname (text "spec.costModel.fxToEUR." ++ cur)
            (said (text "rate must be a positive number")) r,
      )
      else add_rate pname cur rate (get fx cur) (fx, r)

  read_rates :
      Text → BTreeMap Text F → BTreeMap Text F × CompileReport F → BTreeMap Text F × CompileReport F
  unfolding read_rate
  read_rates pname [] st = st
  read_rates pname (e ∷ es) st = read_rates pname es (read_rate pname e st)

  unfoldable pub collect_rates :
      List (RouterProfile F) → BTreeMap Text F × CompileReport F → BTreeMap Text F × CompileReport F
  unfolding read_rates
  collect_rates [] st = st
  collect_rates (p ∷ ps) st =
      collect_rates ps (read_rates (ns_name p.metadata) p.spec.cost_model.fx_to_eur st)

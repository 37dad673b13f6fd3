-- ===== src/Decision/DataClass.antt =====
-- crates/decision/src/lib.rs: the data class of a request. The child proves what it is.
pub mod Resolution
pub mod Restriction
use route_d.Prelude.{
  ℕ, Bool, true, false, not, Option, none, some, List, [], ◌∷◌, ◌++◌, Text, text_ord, ◌&&◌, ◌||◌,
  any, filter, values, get, contains, if◌then◌else◌, ltb, trim, to_ascii_lowercase,
  eq_ignore_ascii_case, unwrap_or, is_empty, option_list, and_then,
}
use route_d.Api.{PiiEntity, pii_entity_ord}
use route_d.Float.{Float}
use route_d.Snapshot.{CompiledDataClass, Snapshot}
use route_d.Decision.Types.{DecisionInput, Findings, Decision, Note, unknown_data_class}

-- `h.trim().to_ascii_lowercase()`
unfoldable pub header_value : Text → Text
header_value h = to_ascii_lowercase (trim h)

module _ {F : Type 0} where
  -- the closure `consider`
  unfoldable pub consider :
      Option (CompiledDataClass F) → CompiledDataClass F → Option (CompiledDataClass F)
  consider none dc = some dc
  consider (some b) dc = if ltb b.rank dc.rank then some dc else some b

  unfoldable pub consider_all :
      Option (CompiledDataClass F) → List (CompiledDataClass F) → Option (CompiledDataClass F)
  consider_all best [] = best
  consider_all best (dc ∷ dcs) = consider_all (consider best dc) dcs

  -- whether a class is asked for by a header value
  unfoldable pub asks_for : Text → CompiledDataClass F → Bool
  asks_for h dc = eq_ignore_ascii_case dc.name h || contains dc.header_values h

  -- the loop over the explicit header values, with the notes of the decision
  resolve_headers :
      List (CompiledDataClass F)
      → List Text
      → Option (CompiledDataClass F)
      → List Note
      → Option (CompiledDataClass F) × List Note
  resolve_headers classes [] best notes = (best, notes)
  resolve_headers classes (h ∷ hs) best notes =
      let v = header_value h in
      let asked = filter (asks_for v) classes in
      resolve_headers classes hs (consider_all best asked)
        (if is_empty asked then notes ++ unknown_data_class v ∷ [] else notes)

  -- the class that the sensitivity label names
  unfoldable pub labelled : Snapshot F → Findings F → List (CompiledDataClass F)
  labelled s findings =
      option_list (and_then findings.inferred_data_class (get s.core.data_classes))

module _ {F : Type 0} ⦃f : Float F⦄ where
  -- whether an entity of the findings counts for a class
  unfoldable pub entity_hit : Findings F → CompiledDataClass F → PiiEntity → Bool
  entity_hit findings dc e =
      contains dc.pii_entities e
      && f.le dc.min_confidence
          (f.add (unwrap_or (get findings.pii_confidence e) (f.decimal 1 0)) (f.decimal 1 9))

  unfoldable pub pii_hit : Findings F → CompiledDataClass F → Bool
  pii_hit findings dc = any (entity_hit findings dc) findings.pii_entities

  unfoldable pub resolve_data_class :
      Snapshot F
      → DecisionInput
      → Findings F
      → Decision F
      → Option (CompiledDataClass F) × Decision F
  unfolding resolve_headers
  resolve_data_class s input findings d =
      let classes = values s.core.data_classes in
      let (explicit, notes) = resolve_headers classes input.hints.data_classes none d.notes in
      let named = consider_all explicit (labelled s findings) in
      (consider_all named (filter (pii_hit findings) classes), record d { notes = notes })

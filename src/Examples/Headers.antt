-- ===== src/Examples/Headers.antt =====
-- Headers of a request (crates/security/src/headers.rs) at concrete values.
use route_d.Prelude.{
  ◌≡◌, ◌↔◌, refl, true, some, List, [], ◌∷◌, Text, text, first, any, Elem, IsOrdered, get_from,
  byte_len, to_ascii_lowercase, lower, trim, split, sort_by, insert_sorted, cmp_text, is_empty,
  eq_ignore_ascii_case,
}
use route_d.Security.Headers.{
  begins_ignoring_case, is_routed_header, clean, tenant, is_yes, extract_headers, duplicate,
  not_an_input, key_of, set_once, set_slot, push_class, push_classes, set_dry_run, honour,
  take_value, take_named, take_header, take_headers, dedup,
}
use route_d.Security.Headers.Reading.{given}
use route_d.Security.Headers.Slots.{held, slot_name, held-extract_headers}
use route_d.Security.Headers.Classes.{
  Before, listed, extract_headers-dry_run, extract_headers-data_classes,
}

abbrev headers : List (Text × Text)
headers =
    (text "X-Routed-Tenant", text "acme")
    ∷ (text "x-routed-tenant", text "other")
    ∷ (text "X-ROUTED-DATA-CLASS", text "Personal, internal")
    ∷ (text "X-Routed-Data-Class", text "internal, public")
    ∷ (text "X-Routed-Dry-Run", text "TRUE")
    ∷ (text "X-Routed-Tier", text "us-cheap")
    ∷ (text "Content-Type", text "application/json")
    ∷ []

headers_read :
    (let out = extract_headers headers in
      (out.tenant ≡ some (text "acme"))
      × (out.hints.data_classes ≡ text "internal" ∷ text "personal" ∷ text "public" ∷ [])
      × (out.hints.dry_run ≡ true)
      × (out.ignored
          ≡ duplicate (text "x-routed-tenant") ∷ not_an_input (text "X-Routed-Tier") ∷ []))
unfolding extract_headers take_headers take_header take_named take_value honour set_dry_run
    push_classes push_class set_slot set_once key_of clean is_routed_header begins_ignoring_case
    dedup get_from byte_len to_ascii_lowercase lower trim split sort_by insert_sorted cmp_text
    is_empty eq_ignore_ascii_case any
headers_read = (refl, refl, refl, refl)

routed : is_routed_header (text "X-Routed-Tier") ≡ true
unfolding is_routed_header begins_ignoring_case lower
routed = refl

held-extract_headers_example :
    held tenant (extract_headers headers) ≡ first (given (slot_name tenant) headers)
held-extract_headers_example = held-extract_headers tenant headers

extract_headers-dry_run_example :
    (extract_headers headers).hints.dry_run ≡ any is_yes (given (text "dry-run") headers)
extract_headers-dry_run_example = extract_headers-dry_run headers

extract_headers-data_classes_example :
    let classes = (extract_headers headers).hints.data_classes in
    IsOrdered Before classes
    × (Elem (text "public") classes
        ↔ Elem (text "public") (listed (given (text "data-class") headers)))
extract_headers-data_classes_example = extract_headers-data_classes headers (text "public")

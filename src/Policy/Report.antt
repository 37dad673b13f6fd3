-- ===== src/Policy/Report.antt =====
-- crates/policy/src/lib.rs: diagnostics. The texts made with `format!` are values.
use route_d.Prelude.{
  ℕ, Bool, true, false, List, [], ◌∷◌, ◌++◌, Text, text, any, unwrap_or, if◌then◌else◌,
}
use route_d.Api.{Currency}
use route_d.Api.Resources.{Metadata}

pub data Level : Type 0 where
  warning error : Level

-- What a diagnostic says: a fixed text, or one with values in it.
pub data Message (F : Type 0) : Type 0 where
  said : Text → Message F
  conflicting_rate : (rate existing : F) → Message F
  rank_shared : ℕ → (other : Text) → Message F
  header_claimed : (value other : Text) → Message F
  class_not_found : Text → Message F
  no_rate : Currency → Message F
  violates : (class reason : Text) → Message F
  not_in_namespace : (tier namespace : Text) → Message F
  tier_not_found : Text → Message F
  profile_not_found : Text → Message F
  cannot_serve : (tier class reason : Text) → Message F
  same_match : (winner : Text) → Message F

pub record Diag (F : Type 0) : Type 0 where
  pub level : Level
  pub kind : Text
  pub name : Text
  pub field : Text
  pub message : Message F

pub record CompileReport (F : Type 0) : Type 0 where
  pub diags : List (Diag F)

abbrev pub is_error : Level → Bool
is_error error = true
is_error warning = false

module _ {F : Type 0} where
  unfoldable pub has_errors : CompileReport F → Bool
  has_errors r = any (λ d. is_error d.level) r.diags

  unfoldable pub push : Level → Text → Text → Text → Message F → CompileReport F → CompileReport F
  push level kind name field message r =
      let d : Diag F = record {
        level = level;
        kind = kind;
        name = name;
        field = field;
        message = message;
      } in
      record { diags = r.diags ++ d ∷ [] }

  -- `if … { report.error(…) }`
  unfoldable pub report_unless :
      Bool → Text → Text → Text → Message F → CompileReport F → CompileReport F
  report_unless passes kind name field message r =
      if passes then r else push error kind name field message r

  -- one test of a resource: where it fails, an error is reported and the resource is not `ok`
  unfoldable pub require :
      Bool → Text → Text → Text → Message F → Bool × CompileReport F → Bool × CompileReport F
  require passes kind name field message (ok, r) =
      if passes then (ok, r) else (false, push error kind name field message r)

-- `ns_name`
unfoldable pub ns_name : Metadata → Text
ns_name m =
    unwrap_or m.namespace (text "default") ++ text "/" ++ unwrap_or m.name (text "<unnamed>")

-- ===== src/Operator/Status.antt =====
-- cmd/routed-operator/src/status.rs: the Ready condition of every resource after a compile, and
-- which status writes are left out.
pub mod Settles
use mathlib.Core.Option
use route_d.Prelude.{
  ℕ, Bool, true, false, not, Option, none, some, List, [], ◌∷◌, ◌++◌, Text, text, text_ord, nat_ord,
  Ord, ◌==◌, ◌&&◌, ◌||◌, if◌then◌else◌, find, unwrap_or, is_some,
}
use route_d.Policy.Report.{Diag, CompileReport, Message, is_error}

abbrev pub ready : Text
ready = text "Ready"

-- `Desired`: the first error of the object, in the words of its diagnostic
abbrev pub Desired : Type 0
Desired = Option Text

unfoldable pub status_of : Desired → Text
status_of none = text "True"
status_of (some e) = text "False"

unfoldable pub reason_of : Desired → Text
reason_of none = text "Compiled"
reason_of (some e) = text "CompileError"

unfoldable pub message_of : Desired → Text
message_of none = text "compiled into the current snapshot"
message_of (some e) = e

-- `==` on options
unfoldable pub same : {A : Type 0} → ⦃o : Ord A⦄ → Option A → Option A → Bool
same none none = true
same none (some b) = false
same (some a) none = false
same (some a) (some b) = a == b

-- Times are those of the cluster.
module _ (Time : Type 0) where
  -- `Condition`, less its observed generation, which is never set
  pub record Condition : Type 0 where
    pub type : Text
    pub status : Text
    pub reason : Text
    pub message : Text
    pub last_transition_time : Time

  -- the status of a resource; only a policy has a hash
  pub record ObjectStatus : Type 0 where
    pub conditions : List Condition
    pub observed_generation : Option ℕ
    pub compiled_hash : Option Text

  -- what is read of a resource
  pub record Object : Type 0 where
    pub namespace : Option Text
    pub name : Text
    pub generation : Option ℕ
    pub status : Option ObjectStatus

  -- The merge patch of a status; a hash that is absent from it is left alone.
  pub record StatusPatch : Type 0 where
    pub condition : Condition
    pub observed_generation : Option ℕ
    pub compiled_hash : Option (Option Text)

  unfoldable pub find_ready : List Condition → Option Condition
  find_ready conds = find (λ c. c.type == ready) conds

  unfoldable pub says : Desired → Option Condition → Bool
  says desired none = false
  says desired (some c) =
      c.status == status_of desired
      && c.reason == reason_of desired
      && c.message == message_of desired

  unfoldable pub up_to_date : Desired → List Condition → Option ℕ → Option ℕ → Bool
  up_to_date desired conds observed generation =
      same observed generation && says desired (find_ready conds)

  -- the time that is carried over while the status stays
  unfoldable pub carried : Desired → Option Condition → Option Time
  carried desired none = none
  carried desired (some c) =
      if c.status == status_of desired then some c.last_transition_time else none

  unfoldable pub ready_condition : Time → Desired → List Condition → Condition
  ready_condition now desired existing = record {
    type = ready;
    status = status_of desired;
    reason = reason_of desired;
    message = message_of desired;
    last_transition_time = unwrap_or (carried desired (find_ready existing)) now;
  }

  unfoldable pub conditions_of : Option ObjectStatus → List Condition
  conditions_of none = []
  conditions_of (some s) = s.conditions

  unfoldable pub observed_of : Option ObjectStatus → Option ℕ
  observed_of none = none
  observed_of (some s) = s.observed_generation

  unfoldable pub hash_of : Option ObjectStatus → Option Text
  hash_of none = none
  hash_of (some s) = s.compiled_hash

  -- `ns_name` of reconcile.rs
  unfoldable pub object_name : Object → Text
  object_name o = unwrap_or o.namespace (text "default") ++ text "/" ++ o.name

  -- The errors of a compile are read as texts.
  module _ {F : Type 0} (words : Message F → Text) (report : CompileReport F)
      (snapshot_hash : Option Text) where
    unfoldable pub first_error : Text → Text → Desired
    first_error kind name =
        Option.map (λ d. words d.message)
          (find (λ d. is_error d.level && d.kind == kind && d.name == name) report.diags)

    -- `desired` of an object
    abbrev pub desired_of : Text → Object → Desired
    desired_of kind o = first_error kind (object_name o)

    abbrev pub is_current : Text → Object → Bool
    is_current kind o =
        up_to_date (desired_of kind o) (conditions_of o.status) (observed_of o.status) o.generation

    -- the patch that `patch_one` sends
    unfoldable pub patch_one : Text → Time → Object → Option (Option Text) → StatusPatch
    patch_one kind now o extra = record {
      condition = ready_condition now (desired_of kind o) (conditions_of o.status);
      observed_generation = o.generation;
      compiled_hash = extra;
    }

    -- one object of a kind that keeps no hash
    unfoldable pub write_plain : Text → Time → Object → Option StatusPatch
    write_plain kind now o = if is_current kind o then none else some (patch_one kind now o none)

    abbrev pub routing_policy : Text
    routing_policy = text "RoutingPolicy"

    unfoldable pub hash_current : Object → Bool
    hash_current o = is_some (desired_of routing_policy o) || same (hash_of o.status) snapshot_hash

    -- one policy
    unfoldable pub write_policy : Time → Object → Option StatusPatch
    write_policy now o =
        if hash_current o && is_current routing_policy o
        then none
        else some (
            patch_one routing_policy now o
              (if is_some (desired_of routing_policy o) then none else some snapshot_hash))

    -- the loop over the objects of a kind; each is written at its own time
    unfoldable pub writes :
        (Time → Object → Option StatusPatch)
        → (Object → Time)
        → List Object
        → List (Object × StatusPatch)
    writes write clock [] = []
    writes write clock (o ∷ os) =
        let rest = writes write clock os in
        elim (write (clock o) o) [ none ↦ rest | some p ↦ (o, p) ∷ rest ]

    unfoldable pub apply :
        (Object → Time)
        → (tiers data_classes profiles policies : List Object) → List (Object × StatusPatch)
    apply clock tiers data_classes profiles policies =
        writes (write_plain (text "ModelTier")) clock tiers
        ++ writes (write_plain (text "DataClass")) clock data_classes
        ++ writes (write_plain (text "RouterProfile")) clock profiles
        ++ writes write_policy clock policies

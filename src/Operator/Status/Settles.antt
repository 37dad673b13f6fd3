-- ===== src/Operator/Status/Settles.antt =====
-- cmd/routed-operator/src/status.rs: the writes of the operator come to rest.
use route_d.Prelude.{
  ℕ, ◌≡◌, refl, ap, ◌∙◌, true, Option, none, some, List, [], ◌∷◌, Text, text, text_ord, nat_ord,
  Ord, ◌&&◌, ◌||◌, if◌then◌else◌, find, unwrap_or, is_some, map, eq_refl, Bool-cases, inl, inr,
}
use route_d.Policy.Report.{CompileReport, Message}
use route_d.Operator.Status.{
  ready, Desired, status_of, reason_of, message_of, same, Condition, Object, StatusPatch,
  find_ready, says, up_to_date, ready_condition, conditions_of, observed_of, hash_of, object_name,
  desired_of, is_current, patch_one, hash_current, write_plain, write_policy, writes, apply,
}

pub same_refl : {A : Type 0} ⦃o : Ord A⦄ (a : Option A) → same a a ≡ true
unfolding same
same_refl none = refl
same_refl (some a) = eq_refl a

module _ (Time : Type 0) where
  -- What the cluster does with a merge patch of a status, as its documentation says: the list of
  -- conditions is replaced, and a change of the status changes nothing else of the object.
  pub record IsMergePatch (merge : StatusPatch Time → Object Time → Object Time) : Type 0 where
    pub conditions_after :
        (p : StatusPatch Time) (o : Object Time)
        → conditions_of Time (merge p o).status ≡ p.condition ∷ []
    pub observed_after :
        (p : StatusPatch Time) (o : Object Time)
        → observed_of Time (merge p o).status ≡ p.observed_generation
    pub hash_after :
        (p : StatusPatch Time) (o : Object Time)
        → hash_of Time (merge p o).status ≡ unwrap_or p.compiled_hash (hash_of Time o.status)
    pub generation_kept :
        (p : StatusPatch Time) (o : Object Time) → (merge p o).generation ≡ o.generation
    pub name_kept :
        (p : StatusPatch Time) (o : Object Time) → object_name Time (merge p o) ≡ object_name Time o

  ready_condition-up_to_date :
      (now : Time) (desired : Desired) (existing : List (Condition Time)) (g : Option ℕ)
      → up_to_date Time desired (ready_condition Time now desired existing ∷ []) g g ≡ true
  unfolding up_to_date says find_ready find ready_condition
  ready_condition-up_to_date now desired existing g =
      rw
        (
          same_refl g,
          eq_refl ready,
          eq_refl (status_of desired),
          eq_refl (reason_of desired),
          eq_refl (message_of desired),
        )
        refl

  module _ (merge : StatusPatch Time → Object Time → Object Time) (laws : IsMergePatch merge)
      {F : Type 0} (words : Message F → Text) (report : CompileReport F)
      (snapshot_hash : Option Text) where
    -- The object after the write that an attempt makes, if it makes one.
    abbrev pub written : Option (StatusPatch Time) → Object Time → Object Time
    written none o = o
    written (some p) o = merge p o

    abbrev Settling : (Time → Object Time → Option (StatusPatch Time)) → Type 0
    Settling write =
        (now later : Time) (o : Object Time) → write later (written (write now o) o) ≡ none

    abbrev wanted : Text → Object Time → Desired
    wanted = desired_of Time words report snapshot_hash

    merged-is_current :
        (kind : Text) (now : Time) (o : Object Time) (extra : Option (Option Text))
        → is_current Time words report snapshot_hash kind
            (merge (patch_one Time words report snapshot_hash kind now o extra) o)
          ≡ true
    unfolding patch_one
    merged-is_current kind now o extra =
        let p = patch_one Time words report snapshot_hash kind now o extra in
        rw
          (
            laws.name_kept p o,
            laws.conditions_after p o,
            laws.observed_after p o,
            laws.generation_kept p o,
          )
          (ready_condition-up_to_date now (wanted kind o) (conditions_of Time o.status)
            o.generation)

    -- A resource without a hash is written at most once.
    write_plain-settles :
        (kind : Text) → Settling (write_plain Time words report snapshot_hash kind)
    unfolding write_plain
    write_plain-settles kind now later o =
        elim (Bool-cases (is_current Time words report snapshot_hash kind o)) [
          | inl e ↦ rw (e, e) refl
          | inr e ↦ rw (e, merged-is_current kind now o none) refl
        ]

    hash_settles :
        (d : Desired) (old new : Option Text)
        → new ≡ unwrap_or (if is_some d then none else some snapshot_hash) old
        → (is_some d || same new snapshot_hash) ≡ true
    hash_settles none old new e = rw (e, same_refl snapshot_hash) refl
    hash_settles (some w) old new e = refl

    merged-hash_current :
        (now : Time) (o : Object Time) (extra : Option (Option Text))
        → extra ≡ (if is_some (wanted (text "RoutingPolicy") o) then none else some snapshot_hash)
        → hash_current Time words report snapshot_hash
            (merge (patch_one Time words report snapshot_hash (text "RoutingPolicy") now o extra) o)
          ≡ true
    unfolding hash_current patch_one
    merged-hash_current now o extra e =
        let p = patch_one Time words report snapshot_hash (text "RoutingPolicy") now o extra in
        rw (laws.name_kept p o) (
          hash_settles (wanted (text "RoutingPolicy") o) (hash_of Time o.status) _
            (laws.hash_after p o ∙ ap (λ h. unwrap_or h (hash_of Time o.status)) e))

    write_policy-settles : Settling (write_policy Time words report snapshot_hash)
    unfolding write_policy
    write_policy-settles now later o =
        let b =
          hash_current Time words report snapshot_hash o
          && is_current Time words report snapshot_hash (text "RoutingPolicy") o in
        elim (Bool-cases b) [
          | inl e ↦ rw (e, e) refl
          | inr e ↦ rw (e, merged-hash_current now o _ refl, merged-is_current _ now o _) refl
        ]

    -- the objects of a kind after their writes
    abbrev pub after :
        (Time → Object Time → Option (StatusPatch Time))
        → (Object Time → Time)
        → List (Object Time)
        → List (Object Time)
    after write clock = map λ o. written (write (clock o) o) o

    writes-settle :
        (write : Time → Object Time → Option (StatusPatch Time)) (clock later : Object Time → Time)
        (os : List (Object Time))
        → Settling write
        → writes Time words report snapshot_hash write later (after write clock os) ≡ []
    unfolding writes
    writes-settle write clock later [] s = refl
    writes-settle write clock later (o ∷ os) s =
        rw
          (
            s (clock o) (later (written (write (clock o) o) o)) o,
            writes-settle write clock later os s,
          )
          refl

    -- Over the same report and the same snapshot, once the patches of an `apply` are merged, a
    -- second `apply`, whatever the time, writes nothing: the change of a status that its own write
    -- causes leads to no further write, whether the object is in error or not and whatever was
    -- stored before.
    pub apply-settles :
        (clock later : Object Time → Time)
        (tiers data_classes profiles policies : List (Object Time))
        → apply Time words report snapshot_hash later
            (after (write_plain Time words report snapshot_hash (text "ModelTier")) clock tiers)
            (after
              (write_plain Time words report snapshot_hash (text "DataClass"))
              clock
              data_classes)
            (after
              (write_plain Time words report snapshot_hash (text "RouterProfile"))
              clock
              profiles)
            (after (write_policy Time words report snapshot_hash) clock policies)
          ≡ []
    unfolding apply
    apply-settles clock later tiers data_classes profiles policies =
        rw
          (
            writes-settle _ clock later tiers (write_plain-settles (text "ModelTier")),
            writes-settle _ clock later data_classes (write_plain-settles (text "DataClass")),
            writes-settle _ clock later profiles (write_plain-settles (text "RouterProfile")),
            writes-settle _ clock later policies write_policy-settles,
          )
          refl

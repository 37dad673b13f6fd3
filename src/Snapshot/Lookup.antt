-- ===== src/Snapshot/Lookup.antt =====
-- crates/snapshot/src/lib.rs, `impl Snapshot`: construction, the hash check and the lookups. The
-- hash of the canonical JSON (serde_json, sha2 and hex) is the parameter `content_hash`.
use route_d.Prelude.{
  ◌≡◌, sym, ap, subst, ◌↔◌, Bool, true, Option, some, Text, text, text_ord, ◌==◌, eq_refl, eq_of_==,
  get, values, find, find_sound, first, and_then, or_else, Elem,
}
use route_d.Snapshot.{
  CompiledTier, CompiledDataClass, CompiledPolicy, CompiledProfile, SnapshotCore, Snapshot,
}

module _ {F : Type 0} where
  module _ (content_hash : SnapshotCore F → Text) where
    unfoldable pub from_core : SnapshotCore F → Snapshot F
    from_core core = record { hash = content_hash core; core = core }

    unfoldable pub verify : Snapshot F → Bool
    verify s = s.hash == content_hash s.core

    -- A snapshot passes the check exactly when it is the one that `from_core` builds from its core;
    -- so a core changed behind a kept hash passes only with an equal content hash.
    pub verify_iff : (s : Snapshot F) → (verify s ≡ true) ↔ (s ≡ from_core s.core)
    unfolding verify from_core
    verify_iff s = (
      λ h i. record { hash = eq_of_== s.hash (content_hash s.core) h i; core = s.core },
      λ e.
          subst (λ t. (t == content_hash s.core) ≡ true) (sym (ap (λ r. r.hash) e))
            (eq_refl (content_hash s.core)),
    )

  unfoldable pub policy : Snapshot F → Text → Option (CompiledPolicy F)
  policy s key = find (λ p. p.key == key) s.core.policies

  unfoldable pub data_class : Snapshot F → Text → Option (CompiledDataClass F)
  data_class s name = get s.core.data_classes name

  unfoldable pub tier : Snapshot F → Text → Option (CompiledTier F)
  tier s name = get s.core.tiers name

  unfoldable pub profile_for : Snapshot F → CompiledPolicy F → Option (CompiledProfile F)
  profile_for s p =
      or_else
        (or_else (and_then p.learned_router.profile λ n. get s.core.profiles n)
          (get s.core.profiles (text "default")))
        (first (values s.core.profiles))

  -- What `policy` returns is a policy of the snapshot with the key asked for.
  pub policy_sound :
      (s : Snapshot F) (key : Text) (p : CompiledPolicy F)
      → policy s key ≡ some p
      → Elem p s.core.policies × (p.key ≡ key)
  unfolding policy
  policy_sound s key p h =
      let (m, e) = find_sound (λ q. q.key == key) s.core.policies p h in (m, eq_of_== p.key key e)

-- ===== src/Snapshot/Holder.antt =====
-- crates/snapshot/src/lib.rs, `SnapshotHolder`: the hot-swappable pair of generations, run by one
-- thread. `now` is the clock that the method reads. The child has the atomic steps of several
-- threads.
pub mod Interleaving
use mathlib.Core.Option
use route_d.Prelude.{
  ℕ, ◌-◌, ◌≡◌, ◌⊎◌, inl, inr, refl, Bool, true, false, Option, none, some, arith, is_some,
}

-- The fields of the holder, over snapshots `S`.
pub record SnapshotHolder (S : Type 0) : Type 0 where
  pub current : Option S
  pub previous : Option S
  pub loaded_at : Option ℕ

module _ {S : Type 0} where
  abbrev pub new_holder : SnapshotHolder S
  new_holder = record { current = none; previous = none; loaded_at = none }

  unfoldable pub load : SnapshotHolder S → Option S
  load h = h.current

  unfoldable pub store : SnapshotHolder S → ℕ → S → SnapshotHolder S
  store h now s = record { current = some s; previous = h.current; loaded_at = some now }

  unfoldable pub with_snapshot : ℕ → S → SnapshotHolder S
  unfolding store
  with_snapshot now s = store new_holder now s

  unfoldable pub age : SnapshotHolder S → ℕ → Option ℕ
  age h now = Option.map (λ t. now - t) h.loaded_at

  unfoldable pub revert : SnapshotHolder S → SnapshotHolder S × Bool
  revert h = elim h.previous [
    | some prev ↦ (record h { current = some prev; previous = none }, true)
    | none ↦ (record h { previous = none }, false)
  ]

  unfoldable pub is_ready : SnapshotHolder S → Bool
  is_ready h = is_some h.current

  -- A revert right after a store over a loaded snapshot succeeds and brings that snapshot back; a
  -- second revert fails and changes nothing.
  pub revert-store :
      (h : SnapshotHolder S) (now : ℕ) (s old : S)
      → h.current ≡ some old
      → let (once, done) = revert (store h now s) in
        (load once ≡ some old) × (done ≡ true) × (revert once ≡ (once, false))
  unfolding revert store load
  revert-store h now s old e = (ground arith, ground arith, ground arith)

  -- Over an empty holder the first revert after a store already fails, and what was stored stays.
  pub revert-store_empty :
      (h : SnapshotHolder S) (now : ℕ) (s : S)
      → h.current ≡ none
      → let (once, done) = revert (store h now s) in (load once ≡ some s) × (done ≡ false)
  unfolding revert store load
  revert-store_empty h now s e = (ground arith, ground arith)

  -- The states that the methods reach from a new holder.
  pub data Reaches : SnapshotHolder S → Type 0 where
    created : Reaches new_holder
    stored : {h : SnapshotHolder S} (now : ℕ) (s : S) → Reaches h → Reaches (store h now s)
    reverted : {h : SnapshotHolder S} → Reaches h → Reaches (revert h).0

  -- What the methods keep true of a holder.
  pub record IsConsistent (h : SnapshotHolder S) : Type 0 where
    pub timed : is_some h.loaded_at ≡ is_some h.current
    pub behind : (h.previous ≡ none) ⊎ (is_some h.current ≡ true)

  -- A holder that the methods reach has a load time exactly when it has a snapshot, and a previous
  -- generation only if it has a snapshot.
  pub Reaches-IsConsistent : (h : SnapshotHolder S) → Reaches h → IsConsistent h
  unfolding store revert
  Reaches-IsConsistent h created = ground arith
  Reaches-IsConsistent h (stored {h = g} now s r) = ground arith
  Reaches-IsConsistent h (reverted {h = g} r) = ground (arith, Reaches-IsConsistent g r)

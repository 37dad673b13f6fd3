-- ===== src/Snapshot/Holder/Interleaving.antt =====
-- crates/snapshot/src/lib.rs, `SnapshotHolder` used by several threads: `store` and `revert` as the
-- atomic accesses that they make, in any interleaving. A pending access is what a thread has
-- still to do.
use route_d.Prelude.{
  ℕ, ◌≡◌, refl, ◌⊎◌, inl, inr, true, Option, none, some, List, [], ◌∷◌, ◌++◌, is_some, All, Elem,
  All-append, All-append_split, All-map, subst,
}
use route_d.Snapshot.Holder.{SnapshotHolder, new_holder}

-- `store` saves what it swapped out and then takes the time; `revert` puts back what it took.
pub data Pending (S : Type 0) : Type 0 where
  save : Option S → Pending S
  stamp : Pending S
  restore : S → Pending S

-- The shared holder, the accesses that threads still have to make, and every snapshot that `store`
-- was ever given.
pub record Shared (S : Type 0) : Type 0 where
  pub holder : SnapshotHolder S
  pub pending : List (Pending S)
  pub given : List S

module _ {S : Type 0} where
  abbrev pub start : Shared S
  start = record { holder = new_holder; pending = []; given = [] }

  pub data Step : Shared S → Shared S → Type 0 where
    begin_store :
        (c : Shared S) (s : S)
        → Step c (record {
          holder = record c.holder { current = some s };
          pending = save c.holder.current ∷ c.pending;
          given = s ∷ c.given;
        })
    end_save :
        (c : Shared S) (old : Option S) (before after : List (Pending S))
        → c.pending ≡ before ++ save old ∷ after
        → Step c (record c {
          holder = record c.holder { previous = old };
          pending = before ++ stamp ∷ after;
        })
    end_stamp :
        (c : Shared S) (now : ℕ) (before after : List (Pending S))
        → c.pending ≡ before ++ stamp ∷ after
        → Step c (record c {
          holder = record c.holder { loaded_at = some now };
          pending = before ++ after;
        })
    begin_revert :
        (c : Shared S) (prev : S)
        → c.holder.previous ≡ some prev
        → Step c (record c {
          holder = record c.holder { previous = none };
          pending = restore prev ∷ c.pending;
        })
    fail_revert : (c : Shared S) → c.holder.previous ≡ none → Step c c
    end_restore :
        (c : Shared S) (prev : S) (before after : List (Pending S))
        → c.pending ≡ before ++ restore prev ∷ after
        → Step c (record c {
          holder = record c.holder { current = some prev };
          pending = before ++ after;
        })

  pub data Reach : Shared S → Type 0 where
    here : Reach start
    next : {c d : Shared S} → Reach c → Step c d → Reach d

  abbrev pub Known : List S → Option S → Type 0
  Known given none = Unit
  Known given (some s) = Elem s given

  abbrev pub KnownPending : List S → Pending S → Type 0
  KnownPending given (save o) = Known given o
  KnownPending given stamp = Unit
  KnownPending given (restore s) = Elem s given

  -- Only snapshots that were given to `store` are about, and a holder that was stored to is loaded.
  pub record IsSafe (c : Shared S) : Type 0 where
    pub current : Known c.given c.holder.current
    pub previous : Known c.given c.holder.previous
    pub pending : All (KnownPending c.given) c.pending
    pub ready : (c.given ≡ []) ⊎ (is_some c.holder.current ≡ true)

  Known-more : (given : List S) (s : S) (o : Option S) → Known given o → Known (s ∷ given) o
  Known-more given s none h = tt
  Known-more given s (some t) h = inr h

  KnownPending-more :
      (given : List S) (s : S) (p : Pending S) → KnownPending given p → KnownPending (s ∷ given) p
  KnownPending-more given s (save o) h = Known-more given s o h
  KnownPending-more given s stamp h = tt
  KnownPending-more given s (restore t) h = inr h

  -- Taking one pending access out of the list, for what stands in its place.
  module _ (given : List S) (p : Pending S) (ps before after : List (Pending S))
      (at : ps ≡ before ++ p ∷ after) (h : All (KnownPending given) ps) where
    parts :
        All (KnownPending given) before × (KnownPending given p × All (KnownPending given) after)
    parts =
        All-append_split (KnownPending given) before (p ∷ after)
          (subst (All (KnownPending given)) at h)

    without : All (KnownPending given) (before ++ after)
    without = All-append (KnownPending given) before after parts.0 parts.1.1

    replaced :
        (q : Pending S) → KnownPending given q → All (KnownPending given) (before ++ q ∷ after)
    replaced q k = All-append (KnownPending given) before (q ∷ after) parts.0 (k, parts.1.1)

  Known-some : (given : List S) (o : Option S) (s : S) → o ≡ some s → Known given o → Elem s given
  Known-some given o s e k = subst (Known given) e k

  pub Step-IsSafe : (c d : Shared S) → Step c d → IsSafe c → IsSafe d
  Step-IsSafe c d (begin_store _ s) h = record {
    current = inl refl;
    previous = Known-more c.given s c.holder.previous h.previous;
    pending = (
      Known-more c.given s c.holder.current h.current,
      All-map _ _ c.pending (KnownPending-more c.given s) h.pending,
    );
    ready = inr refl;
  }
  Step-IsSafe c d (end_save _ old before after e) h = record {
    current = h.current;
    previous = (parts c.given (save old) c.pending before after e h.pending).1.0;
    pending = replaced c.given (save old) c.pending before after e h.pending stamp tt;
    ready = h.ready;
  }
  Step-IsSafe c d (end_stamp _ now before after e) h = record {
    current = h.current;
    previous = h.previous;
    pending = without c.given stamp c.pending before after e h.pending;
    ready = h.ready;
  }
  Step-IsSafe c d (begin_revert _ prev e) h = record {
    current = h.current;
    previous = tt;
    pending = (Known-some c.given c.holder.previous prev e h.previous, h.pending);
    ready = h.ready;
  }
  Step-IsSafe c d (fail_revert _ e) h = h
  Step-IsSafe c d (end_restore _ prev before after e) h = record {
    current = (parts c.given (restore prev) c.pending before after e h.pending).1.0;
    previous = h.previous;
    pending = without c.given (restore prev) c.pending before after e h.pending;
    ready = inr refl;
  }

  -- Whatever threads call `store` and `revert` at once, a holder that was ever stored to has a
  -- current snapshot, and the current and the previous one are snapshots that `store` was given.
  pub Reach-IsSafe : (c : Shared S) → Reach c → IsSafe c
  Reach-IsSafe c here = record { current = tt; previous = tt; pending = tt; ready = inl refl }
  Reach-IsSafe c (next {c = b} r st) = Step-IsSafe b c st (Reach-IsSafe b r)

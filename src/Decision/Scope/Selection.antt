-- ===== src/Decision/Scope/Selection.antt =====
-- What `select_policy` of crates/decision/src/lib.rs can select.
use route_d.Prelude.{
  ◌≡◌, ◌↔◌, ◌⊎◌, inl, inr, refl, subst, true, Option, none, some, List, [], ◌∷◌, Text, text_ord,
  ◌==◌, eq_of_==, arith, Bool-cases, find, find_sound, first, Elem, ◌||◌,
}
use route_d.Snapshot.{CompiledPolicy}
use route_d.Decision.Types.{Decision}
use route_d.Decision.Scope.{select_policy, is_named, is_winner, override_policy}

module _ {F : Type 0} where
  -- The selected policy is the first in evaluation order, or the one that the hint names and that
  -- lets itself be chosen.
  abbrev pub IsSelected : List (CompiledPolicy F) → Option Text → CompiledPolicy F → Type 0
  IsSelected matching hint p =
      Elem p matching
      × ((first matching ≡ some p)
          ⊎ ((name : Text) × (hint ≡ some name)
              × ((p.key ≡ name) ⊎ (p.name ≡ name))
              × ((p.overridable ≡ true)
                  ⊎ ((w : CompiledPolicy F) × (first matching ≡ some w) × (p.key ≡ w.key)))))

  first-Elem : (ps : List (CompiledPolicy F)) (p : CompiledPolicy F) → first ps ≡ some p → Elem p ps
  unfolding first
  first-Elem [] p h = cc
  first-Elem (q ∷ ps) p h = inl (ground arith)

  named :
      (name : Text) (p : CompiledPolicy F)
      → is_named name p ≡ true
      → (p.key ≡ name) ⊎ (p.name ≡ name)
  named name p h = elim (Bool-cases (p.key == name)) [
    | inl e ↦ inl (eq_of_== p.key name e)
    | inr e ↦ inr (eq_of_== p.name name (rw e at h))
  ]

  won :
      (p : CompiledPolicy F) (o : Option (CompiledPolicy F))
      → is_winner p o ≡ true
      → (w : CompiledPolicy F) × (o ≡ some w) × (p.key ≡ w.key)
  won p none h = absurd (cc)
  won p (some w) h = (w, refl, eq_of_== p.key w.key h)

  override_sound :
      (matching : List (CompiledPolicy F)) (name : Text) (found : Option (CompiledPolicy F))
      (d : Decision F) (p : CompiledPolicy F)
      → find (is_named name) matching ≡ found
      → (override_policy name (first matching) found d).0 ≡ some p
      → IsSelected matching (some name) p
  override_sound matching name none d p e h = (first-Elem matching p h, inl h)
  override_sound matching name (some q) d p e h =
      elim (Bool-cases (q.overridable || is_winner q (first matching))) [
        | inr b ↦ let w : first matching ≡ some p = rw b at h in (first-Elem matching p w, inl w)
        | inl b ↦
            let same : q ≡ p = ground arith in
            subst (IsSelected matching (some name)) same (
              let (m, n) = find_sound (is_named name) matching q e in
              (m, inr (name, refl, named name q n, chosen b)))
      ]
    where
      chosen :
          (q.overridable || is_winner q (first matching)) ≡ true
          → (q.overridable ≡ true)
            ⊎ ((w : CompiledPolicy F) × (first matching ≡ some w) × (q.key ≡ w.key))
      chosen b = elim (Bool-cases q.overridable) [
        | inl o ↦ inl o
        | inr o ↦ inr (won q (first matching) (rw o at b))
      ]

  -- What `select_policy` returns is one of the matching policies: the first of them, or the one
  -- that the hint names if it is overridable or has the key of the first.
  pub select_policy-IsSelected :
      (matching : List (CompiledPolicy F)) (hint : Option Text) (d : Decision F)
      (p : CompiledPolicy F)
      → (select_policy matching hint d).0 ≡ some p
      → IsSelected matching hint p
  unfolding select_policy
  select_policy-IsSelected matching none d p h = (first-Elem matching p h, inl h)
  select_policy-IsSelected matching (some name) d p h =
      override_sound matching name (find (is_named name) matching) d p refl h

  -- No hint selects a policy where none matches, and no hint keeps a request from being governed
  -- where one matches.
  pub select_policy-eq-none_iff :
      (matching : List (CompiledPolicy F)) (hint : Option Text) (d : Decision F)
      → ((select_policy matching hint d).0 ≡ none) ↔ (matching ≡ [])
  unfolding select_policy first find
  select_policy-eq-none_iff [] none d = (λ h. refl, λ h. refl)
  select_policy-eq-none_iff [] (some name) d = (λ h. refl, λ h. refl)
  select_policy-eq-none_iff (q ∷ ps) none d = (λ h. cc, λ h. cc)
  select_policy-eq-none_iff (q ∷ ps) (some name) d =
      (λ h. absurd (overridden (find (is_named name) (q ∷ ps)) h), λ h. cc)
    where
      overridden :
          (o : Option (CompiledPolicy F)) → (override_policy name (some q) o d).0 ≡ none → ⊥
      overridden none h = cc
      overridden (some p) h = elim (Bool-cases (p.overridable || is_winner p (some q))) [
        | inl b ↦ cc (rw b at h)
        | inr b ↦ cc (rw b at h)
      ]

  -- Beside its answer it changes the notes of the decision alone.
  pub select_policy-notes :
      (matching : List (CompiledPolicy F)) (hint : Option Text) (d : Decision F)
      → (select_policy matching hint d).1
        ≡ record d { notes = (select_policy matching hint d).1.notes }
  unfolding select_policy
  select_policy-notes matching none d = refl
  select_policy-notes matching (some name) d = noted (find (is_named name) matching)
    where
      noted :
          (o : Option (CompiledPolicy F))
          → (override_policy name (first matching) o d).1
            ≡ record d { notes = (override_policy name (first matching) o d).1.notes }
      noted none = refl
      noted (some p) = elim (Bool-cases (p.overridable || is_winner p (first matching))) [
        | inl b ↦ rw b
        | inr b ↦ rw b
      ]

  -- The selection does not depend on the decision that collects the notes.
  override_policy-same :
      (name : Text) (winner found : Option (CompiledPolicy F)) (d e : Decision F)
      → (override_policy name winner found d).0 ≡ (override_policy name winner found e).0
  override_policy-same name winner none d e = refl
  override_policy-same name winner (some p) d e = ground arith

  pub select_policy-same :
      (ps : List (CompiledPolicy F)) (hint : Option Text) (d e : Decision F)
      → (select_policy ps hint d).0 ≡ (select_policy ps hint e).0
  unfolding select_policy
  select_policy-same ps none d e = refl
  select_policy-same ps (some name) d e =
      override_policy-same name (first ps) (find (is_named name) ps) d e

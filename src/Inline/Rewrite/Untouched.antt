-- ===== src/Inline/Rewrite/Untouched.antt =====
-- crates/ingress-inline/src/handlers.rs, `rewrite_body`: which fields of a body stay as they are.
use route_d.Prelude.{
  ℕ, ◌≡◌, ◌⊎◌, inl, inr, refl, sym, ap, ◌∙◌, subst, true, false, not, Option, none, some, List, [],
  ◌∷◌, Text, text, text_ord, cmp_text, ◌==◌, ◌&&◌, if◌then◌else◌, is_some, is_empty, contains,
  arith, Bool-cases, ok, ◌>>=◌, >>=-eq-ok, ok-Injective, any,
}
use route_d.Api.{ReasoningLevel}
use route_d.Decision.Types.{Decision}
use route_d.Inline.Rewrite.{
  put, value_of, IndexMap, IsLawful, RawJson, chat_path, responses_path, effort_of, set_model,
  with_effort, set_effort, set_reasoning, limit_key, set_limit, rewritten, write_entries,
  rewrite_body,
}
use route_d.Inline.Rewrite.Entries.{
  Keeps, Keeps-refl, Keeps-trans, others, is_other, others-put, others-without, value_of-put_self,
  value_of-put, value_of-without,
}

module _ (x : IndexMap) (laws : IsLawful x) (j : RawJson x.Map) where
  insert-Keeps :
      (m : x.Map) (k v : Text)
      → is_other k ≡ false
      → (k == text "model") ≡ false
      → Keeps (x.entries m) (x.entries (x.insert m k v))
  insert-Keeps m k v h n = subst (Keeps (x.entries m)) (sym (laws.entries-insert m k v)) (record {
    same = others-put (x.entries m) k v h;
    model = value_of-put (x.entries m) k v (text "model") n;
  })

  remove-Keeps :
      (m : x.Map) (k : Text)
      → is_other k ≡ false
      → (k == text "model") ≡ false
      → Keeps (x.entries m) (x.entries (x.shift_remove m k))
  remove-Keeps m k h n = subst (Keeps (x.entries m)) (sym (laws.entries-remove m k)) (record {
    same = others-without (x.entries m) k h;
    model = value_of-without (x.entries m) k (text "model") n;
  })

  set_effort-Keeps :
      (path : Text) (e : Option Text) (m : x.Map)
      → Keeps (x.entries m) (x.entries (set_effort x j path e m))
  unfolding set_effort with_effort cmp_text contains any
  set_effort-Keeps path (some e) m = elim (Bool-cases (path == chat_path)) [
    | inl a ↦ rw (a, if◌then◌else◌) (insert-Keeps m (text "reasoning_effort") _ refl refl)
    | inr a ↦ elim (Bool-cases (path == responses_path)) [
      | inl b ↦ rw (a, b, if◌then◌else◌) (insert-Keeps m (text "reasoning") _ refl refl)
      | inr b ↦ rw (a, b, if◌then◌else◌) (Keeps-refl (x.entries m))
    ]
  ]
  set_effort-Keeps path none m = elim (Bool-cases (path == chat_path)) [
    | inl a ↦ rw (a, if◌then◌else◌) (remove-Keeps m (text "reasoning_effort") refl refl)
    | inr a ↦ elim (Bool-cases (path == responses_path)) [
      | inl b ↦ rw (a, b, if◌then◌else◌) (remove-Keeps m (text "reasoning") refl refl)
      | inr b ↦ rw (a, b, if◌then◌else◌) (Keeps-refl (x.entries m))
    ]
  ]

  set_reasoning-Keeps :
      (path : Text) (o : Option ReasoningLevel) (m : x.Map)
      → Keeps (x.entries m) (x.entries (set_reasoning x j path o m))
  unfolding set_reasoning
  set_reasoning-Keeps path none m = Keeps-refl (x.entries m)
  set_reasoning-Keeps path (some level) m = set_effort-Keeps path (effort_of level) m

  limit_key-known :
      (path : Text) (m : x.Map)
      → (is_empty (limit_key x j path m) ≡ true)
        ⊎ ((is_other (limit_key x j path m) ≡ false)
            × ((limit_key x j path m == text "model") ≡ false))
  unfolding limit_key contains any cmp_text is_empty
  limit_key-known path m = elim (Bool-cases (path == responses_path)) [
    | inl a ↦ rw (a, if◌then◌else◌) (inr (refl, refl))
    | inr a ↦
        elim (Bool-cases (path == chat_path && is_some (x.get m (text "max_completion_tokens")))) [
          | inl b ↦ rw (a, b, if◌then◌else◌) (inr (refl, refl))
          | inr b ↦ elim (Bool-cases (path == text "/v1/embeddings")) [
            | inl c ↦ rw (a, b, c, if◌then◌else◌) (inl refl)
            | inr c ↦ rw (a, b, c, if◌then◌else◌) (inr (refl, refl))
          ]
        ]
  ]

  set_limit-Keeps :
      (path : Text) (o : Option ℕ) (m : x.Map)
      → Keeps (x.entries m) (x.entries (set_limit x j path o m))
  unfolding set_limit
  set_limit-Keeps path none m = Keeps-refl (x.entries m)
  set_limit-Keeps path (some max) m = elim (limit_key-known path m) [
    | inl e ↦ rw (e, if◌then◌else◌) (Keeps-refl (x.entries m))
    | inr (h, n) ↦ elim (Bool-cases (not (is_empty (limit_key x j path m)))) [
      | inl f ↦ rw (f, if◌then◌else◌) (insert-Keeps m (limit_key x j path m) _ h n)
      | inr f ↦ rw (f, if◌then◌else◌) (Keeps-refl (x.entries m))
    ]
  ]

  -- What the model of a rewritten body is.
  abbrev pub HasModel : Option Text → x.Map → x.Map → Type 0
  HasModel none m m' =
      value_of (x.entries m') (text "model") ≡ value_of (x.entries m) (text "model")
  HasModel (some model) m m' =
      (q : Text) × (j.quote model ≡ ok q) × (value_of (x.entries m') (text "model") ≡ some q)

  set_model-HasModel :
      (o : Option Text) (m m' : x.Map)
      → set_model x j o m ≡ ok m'
      → (others (x.entries m') ≡ others (x.entries m)) × HasModel o m m'
  unfolding set_model cmp_text
  set_model-HasModel none m m' h =
      let e : m ≡ m' = ground arith in
      subst (λ y. (others (x.entries y) ≡ others (x.entries m)) × HasModel none m y) e (refl, refl)
  set_model-HasModel (some model) m m' h =
      let (q, quoted, e) = >>=-eq-ok (j.quote model) (λ q. ok (x.insert m (text "model") q)) m' h in
      let made : put (x.entries m) (text "model") q ≡ x.entries m' =
        sym (laws.entries-insert m (text "model") q) ∙ ap x.entries (ok-Injective _ _ e) in
      (
        ap others (sym made) ∙ others-put (x.entries m) (text "model") q refl,
        (
          q,
          quoted,
          ap (λ es. value_of es (text "model")) (sym made)
              ∙ value_of-put_self (x.entries m) (text "model") q,
        ),
      )

  HasModel-Keeps :
      (o : Option Text) (m m' m'' : x.Map)
      → HasModel o m m'
      → Keeps (x.entries m') (x.entries m'')
      → HasModel o m m''
  HasModel-Keeps none m m' m'' h k = k.model ∙ h
  HasModel-Keeps (some model) m m' m'' (q, quoted, e) k = (q, quoted, k.model ∙ e)

  -- If a body is rewritten, what is written out are the entries of a map in which every field but
  -- the model and the parameters (reasoning_effort, reasoning, max_output_tokens,
  -- max_completion_tokens and max_tokens) stands as in the body, with the same raw text and in the
  -- same order, and the model is the decision's gateway model, quoted, or the one of the body if
  -- the decision has none.
  pub rewrite_body-others :
      {F : Type 0} (path : Text) (body : List ℕ) (d : Decision F) (out : List ℕ)
      → rewrite_body x j path body d ≡ ok out
      → (m m' : x.Map) × (j.from_slice body ≡ ok m)
        × (write_entries x j true (x.entries m') (123 ∷ []) ≡ ok out)
        × (others (x.entries m') ≡ others (x.entries m))
        × HasModel d.gateway_model m m'
  unfolding rewrite_body rewritten
  rewrite_body-others path body d out h =
      let (m, read, h') =
        >>=-eq-ok (j.from_slice body)
          (λ m. rewritten x j path d m >>= λ m'. write_entries x j true (x.entries m') (123 ∷ []))
          out h in
      let (m', made, written) =
        >>=-eq-ok (rewritten x j path d m) (λ m'. write_entries x j true (x.entries m') (123 ∷ []))
          out h' in
      let (m1, model, e) =
        >>=-eq-ok (set_model x j d.gateway_model m)
          (λ m1. ok (
            set_limit x j path d.parameters.max_tokens
              (set_reasoning x j path d.parameters.reasoning m1)))
          m' made in
      let (same, has) = set_model-HasModel d.gateway_model m m1 model in
      let m2 = set_reasoning x j path d.parameters.reasoning m1 in
      let kept : Keeps (x.entries m1) (x.entries m') =
        subst (λ y. Keeps (x.entries m1) (x.entries y)) (ok-Injective _ _ e)
          (Keeps-trans (x.entries m1) (x.entries m2) _
            (set_reasoning-Keeps path d.parameters.reasoning m1)
            (set_limit-Keeps path d.parameters.max_tokens m2)) in
      (m, m', read, written, kept.same ∙ same, HasModel-Keeps d.gateway_model m m1 m' has kept)

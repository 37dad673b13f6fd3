-- ===== src/Inline/Rewrite/Entries.antt =====
-- crates/ingress-inline/src/handlers.rs, `rewrite_body`: the entries of a map when a field of the
-- parameters is set or removed.
use route_d.Prelude.{
  ◌≡◌, inl, inr, refl, sym, ap, ◌∙◌, subst, Bool, false, not, some, List, [], ◌∷◌, Text, text,
  text_ord, ◌==◌, ◌&&◌, if◌then◌else◌, filter, contains, Bool-cases, eq_of_==, eq_refl,
}
use route_d.Inline.Rewrite.{put, without, value_of}

-- The fields that routeD may set or remove besides the model.
abbrev pub parameter_keys : List Text
parameter_keys =
    text "reasoning_effort"
    ∷ text "reasoning"
    ∷ text "max_output_tokens"
    ∷ text "max_completion_tokens"
    ∷ text "max_tokens"
    ∷ []

abbrev pub others : List (Text × Text) → List (Text × Text)
others = filter λ e. not (e.0 == text "model") && not (contains parameter_keys e.0)

-- The other fields, and the value of the model.
pub record Keeps (es es' : List (Text × Text)) : Type 0 where
  pub same : others es' ≡ others es
  pub model : value_of es' (text "model") ≡ value_of es (text "model")

pub Keeps-refl : (es : List (Text × Text)) → Keeps es es
Keeps-refl es = record { same = refl; model = refl }

pub Keeps-trans : (a b c : List (Text × Text)) → Keeps a b → Keeps b c → Keeps a c
Keeps-trans a b c h k = record { same = k.same ∙ h.same; model = k.model ∙ h.model }

abbrev pub is_other : Text → Bool
is_other k = not (k == text "model") && not (contains parameter_keys k)

-- A field that is set or removed is none of the others.
pub others-put :
    (es : List (Text × Text)) (k v : Text) → is_other k ≡ false → others (put es k v) ≡ others es
unfolding filter
others-put [] k v h = rw h refl
others-put ((j, w) ∷ es) k v h = elim (Bool-cases (j == k)) [
  | inl e ↦
      let hidden : is_other j ≡ false = subst (λ x. is_other x ≡ false) (sym (eq_of_== j k e)) h in
      rw (e, if◌then◌else◌) (rw hidden refl)
  | inr e ↦
      rw (e, if◌then◌else◌)
        (ap (λ (r : List (Text × Text)). if is_other j then (j, w) ∷ r else r)
          (others-put es k v h))
]

pub others-without :
    (es : List (Text × Text)) (k : Text) → is_other k ≡ false → others (without es k) ≡ others es
unfolding filter
others-without [] k h = refl
others-without ((j, w) ∷ es) k h = elim (Bool-cases (j == k)) [
  | inl e ↦
      let hidden : is_other j ≡ false = subst (λ x. is_other x ≡ false) (sym (eq_of_== j k e)) h in
      rw (e, if◌then◌else◌) (rw hidden refl)
  | inr e ↦
      rw (e, if◌then◌else◌)
        (ap (λ (r : List (Text × Text)). if is_other j then (j, w) ∷ r else r)
          (others-without es k h))
]

pub value_of-put_self : (es : List (Text × Text)) (k v : Text) → value_of (put es k v) k ≡ some v
value_of-put_self [] k v = rw (eq_refl k)
value_of-put_self ((j, w) ∷ es) k v = elim (Bool-cases (j == k)) [
  | inl e ↦ rw (e, if◌then◌else◌) (rw e refl)
  | inr e ↦ rw (e, if◌then◌else◌) (rw e (value_of-put_self es k v))
]

pub value_of-put :
    (es : List (Text × Text)) (k v j : Text)
    → (k == j) ≡ false
    → value_of (put es k v) j ≡ value_of es j
value_of-put [] k v j h = rw h refl
value_of-put ((i, w) ∷ es) k v j h = elim (Bool-cases (i == k)) [
  | inl e ↦
      let differ : (i == j) ≡ false = subst (λ x. (x == j) ≡ false) (sym (eq_of_== i k e)) h in
      rw (e, if◌then◌else◌) (rw differ refl)
  | inr e ↦ rw (e, if◌then◌else◌) (ap (λ r. if i == j then some w else r) (value_of-put es k v j h))
]

pub value_of-without :
    (es : List (Text × Text)) (k j : Text)
    → (k == j) ≡ false
    → value_of (without es k) j ≡ value_of es j
value_of-without [] k j h = refl
value_of-without ((i, w) ∷ es) k j h = elim (Bool-cases (i == k)) [
  | inl e ↦
      let differ : (i == j) ≡ false = subst (λ x. (x == j) ≡ false) (sym (eq_of_== i k e)) h in
      rw (e, if◌then◌else◌) (rw differ refl)
  | inr e ↦
      rw (e, if◌then◌else◌) (ap (λ r. if i == j then some w else r) (value_of-without es k j h))
]

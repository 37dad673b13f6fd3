-- ===== src/Inline/Forward/Hygiene.antt =====
-- crates/ingress-inline/src/forward.rs: no decision header gets past routeD in either direction.
use route_d.Prelude.{
  ◌≡◌, ◌≢◌, ◌⊎◌, inl, inr, refl, sym, ap, ◌∙◌, subst, Bool, true, false, Option, none, some, List,
  [], ◌∷◌, ◌++◌, map, Text, text_ord, ◌==◌, if◌then◌else◌, filter, contains, All, Bool-cases,
  eq_of_==,
}
use route_d.Security.Headers.{is_routed_header}
use route_d.Inline.Http.{Http, IsLawful, get_all, named}
use route_d.Inline.Forward.{
  hop_by_hop, host, content_length, connection_listed, set_traced, inject, stays_behind, copy,
  set_length, outbound, remove_all, keys, inbound,
}

-- A name that is not among the names of a list of entries has no values.
named-absent :
    (es : List (Text × Text)) (k : Text) → contains (map (λ e. e.0) es) k ≡ false → named es k ≡ []
unfolding contains filter
named-absent [] k h = refl
named-absent ((j, v) ∷ es) k h = elim (Bool-cases (j == k)) [
  | inl e ↦ absurd (cc (rw e at h))
  | inr e ↦ rw (e, if◌then◌else◌) (named-absent es k (rw e at h))
]

contains-filter :
    (p : Text → Bool) (ks : List Text) (k : Text)
    → p k ≡ true
    → contains ks k ≡ true
    → contains (filter p ks) k ≡ true
unfolding contains filter
contains-filter p [] k a h = h
contains-filter p (j ∷ ks) k a h = elim (Bool-cases (j == k)) [
  | inl e ↦
      let here : p j ≡ true = subst (λ y. p y ≡ true) (sym (eq_of_== j k e)) a in
      rw (here, if◌then◌else◌) (rw e refl)
  | inr e ↦
      let rest = contains-filter p ks k a (rw e at h) in
      elim (Bool-cases (p j)) [
        | inl b ↦ rw (b, if◌then◌else◌) (rw e rest)
        | inr b ↦ rw (b, if◌then◌else◌) rest
      ]
]

module _ (x : Http) (laws : IsLawful x) where
  remove_all-absent :
      (ks : List Text) (h : x.Headers) (k : Text)
      → (contains ks k ≡ true) ⊎ (get_all x h k ≡ [])
      → get_all x (remove_all x ks h) k ≡ []
  unfolding remove_all contains
  remove_all-absent [] h k (inl e) = absurd (cc)
  remove_all-absent [] h k (inr e) = e
  remove_all-absent (j ∷ ks) h k p =
      remove_all-absent ks (x.remove h j) k (elim (Bool-cases (j == k)) [
        | inl e ↦ inr (rw e at (laws.get_all-remove h j k))
        | inr e ↦ elim p [
          | inl c ↦ inl (rw e at c)
          | inr a ↦ inr ((rw e at (laws.get_all-remove h j k)) ∙ a)
        ]
      ])

  -- A decision header of the upstream does not come back.
  pub inbound-absent :
      (h : x.Headers) (k : Text) → is_routed_header k ≡ true → get_all x (inbound x h) k ≡ []
  unfolding inbound keys
  inbound-absent h k routed =
      let h' = x.remove (remove_all x (hop_by_hop ++ connection_listed x h) h) host in
      remove_all-absent (filter is_routed_header (keys x h')) h' k
        (elim (Bool-cases (contains (keys x h') k)) [
          | inl e ↦ inl (contains-filter is_routed_header (keys x h') k routed e)
          | inr e ↦ inr (named-absent (x.entries h') k e)
        ])

  copy-absent :
      (listed : List Text) (es : List (Text × Text)) (out : x.Headers) (k : Text)
      → stays_behind x listed k ≡ true
      → get_all x out k ≡ []
      → get_all x (copy x listed es out) k ≡ []
  unfolding copy
  copy-absent listed [] out k s e = e
  copy-absent listed ((name, value) ∷ es) out k s e =
      copy-absent listed es _ k s (elim (Bool-cases (stays_behind x listed name)) [
        | inl b ↦ rw (b, if◌then◌else◌) e
        | inr b ↦ elim (Bool-cases (name == k)) [
          | inl same ↦ absurd (
              cc (
                sym b ∙ subst (λ y. stays_behind x listed y ≡ true) (sym (eq_of_== name k same)) s))
          | inr differ ↦
              rw (b, if◌then◌else◌) ((rw differ at (laws.get_all-append out name value k)) ∙ e)
        ]
      ])

  set_traced-absent :
      (n v : Option Text) (h : x.Headers) (k : Text)
      → n ≢ some k
      → get_all x h k ≡ []
      → get_all x (set_traced x n v h) k ≡ []
  unfolding set_traced
  set_traced-absent none v h k a e = e
  set_traced-absent (some n) none h k a e = e
  set_traced-absent (some n) (some v) h k a e = elim (Bool-cases (n == k)) [
    | inl same ↦ absurd (a (ap some (eq_of_== n k same)))
    | inr differ ↦ (rw differ at (laws.get_all-insert h n v k)) ∙ e
  ]

  set_length-absent :
      (len : Option Text) (h : x.Headers) (k : Text)
      → (content_length == k) ≡ false
      → get_all x h k ≡ []
      → get_all x (set_length x len h) k ≡ []
  unfolding set_length
  set_length-absent none h k c e = e
  set_length-absent (some len) h k c e = (rw c at (laws.get_all-insert h content_length len k)) ∙ e

  inject-absent :
      (trace : List (Text × Text)) (h : x.Headers) (k : Text)
      → All (λ p. x.header_name p.0 ≢ some k) trace
      → get_all x h k ≡ []
      → get_all x (inject x trace h) k ≡ []
  unfolding inject
  inject-absent [] h k a e = e
  inject-absent ((n, v) ∷ ps) h k (a, as') e =
      inject-absent ps _ k as' (set_traced-absent (x.header_name n) (x.header_value v) h k a e)

  -- A header that stays behind, and is neither the length nor set by the tracer, is not sent: the
  -- hop-by-hop headers, those that `Connection` lists, `Host`, and the decision headers.
  pub outbound-absent :
      (h : x.Headers) (len : Option Text) (trace : List (Text × Text)) (k : Text)
      → stays_behind x (connection_listed x h) k ≡ true
      → (content_length == k) ≡ false
      → All (λ p. x.header_name p.0 ≢ some k) trace
      → get_all x (outbound x h len trace) k ≡ []
  unfolding outbound
  outbound-absent h len trace k s c t = inject-absent trace _ k t (
      set_length-absent len _ k c
        (copy-absent (connection_listed x h) (x.entries h) x.none_yet k s (laws.get_all-none k)))

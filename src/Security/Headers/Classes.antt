-- ===== src/Security/Headers/Classes.antt =====
-- The data classes and the dry run that `extract_headers` (crates/security/src/headers.rs) reads.
use route_d.Prelude.{
  ap, ◌≡◌, ◌≢◌, ◌↔◌, inl, inr, refl, sym, subst, ◌∙◌, Bool, true, false, List, [], ◌∷◌, ◌++◌, Text,
  text, text_ord, ◌==◌, eq_refl, eq_of_==, nat_ord, ◌||◌, if◌then◌else◌, Bool-cases, Option-cases,
  arith, All, Elem, lower, to_ascii_lowercase, split, any, option_list, sort_by, sort_by-Elem,
  Elem-sort_by, cmp_text, cmp_text_lt, cmp_text_lt_trans, cmp_text_flip, cmp_text_trans,
  sort_by-IsOrdered, IsOrdered, is_gt, Ordering, All-map, All-of_Elem, append_nil, append_assoc,
}
use mathlib.Core.Option
use route_d.Security.Headers.{
  header_prefix, RequestHeaders, no_headers, clean, Slot, tenant, agent, policy, path, Key, slot,
  data_class, dry_run, other, key_of, set_slot, push_class, push_classes, is_yes, set_dry_run,
  honour, take_headers, dedup_after, dedup, extract_headers,
}
use route_d.Security.Headers.Reading.{given, folded, field-take_headers}

flag-set_slot :
    (k : Slot) (v name : Text) (out : RequestHeaders)
    → (set_slot k v name out).hints.dry_run ≡ out.hints.dry_run
unfolding set_slot
flag-set_slot tenant v name out = refl
flag-set_slot agent v name out = refl
flag-set_slot policy v name out = refl
flag-set_slot path v name out = refl

classes-set_slot :
    (k : Slot) (v name : Text) (out : RequestHeaders)
    → (set_slot k v name out).hints.data_classes ≡ out.hints.data_classes
unfolding set_slot
classes-set_slot tenant v name out = refl
classes-set_slot agent v name out = refl
classes-set_slot policy v name out = refl
classes-set_slot path v name out = refl

-- the effect of one header on the flag, by the arm it takes
flag-honour :
    (a : Key) (x v name : Text) (out : RequestHeaders)
    → (a ≡ dry_run → x ≡ text "dry-run")
    → (x == text "dry-run" ≡ true → a ≡ dry_run)
    → (honour a v name out).hints.dry_run
      ≡ (if x == text "dry-run" then out.hints.dry_run || is_yes v else out.hints.dry_run)
unfolding honour set_dry_run
flag-honour a x v name out n m = elim (Bool-cases (x == text "dry-run")) [
  | inl b ↦ rw (b, m b, if◌then◌else◌) (ground arith)
  | inr b ↦ rw (b, if◌then◌else◌) (elsewhere a (λ e. cc (n e, eq_refl (text "dry-run"), b)))
]
  where
    elsewhere : (a : Key) → a ≢ dry_run → (honour a v name out).hints.dry_run ≡ out.hints.dry_run
    elsewhere (slot k) d = flag-set_slot k v name out
    elsewhere data_class d = refl
    elsewhere dry_run d = absurd (d refl)
    elsewhere other d = refl

classes-honour :
    (a : Key) (x v name : Text) (out : RequestHeaders)
    → (a ≡ data_class → x ≡ text "data-class")
    → (x == text "data-class" ≡ true → a ≡ data_class)
    → (honour a v name out).hints.data_classes ≡ (
        if x == text "data-class"
        then push_classes (split 44 v) out.hints.data_classes
        else out.hints.data_classes)
unfolding honour set_dry_run
classes-honour a x v name out n m = elim (Bool-cases (x == text "data-class")) [
  | inl b ↦ rw (b, m b, if◌then◌else◌) refl
  | inr b ↦ rw (b, if◌then◌else◌) (elsewhere a (λ e. cc (n e, eq_refl (text "data-class"), b)))
]
  where
    elsewhere :
        (a : Key)
        → a ≢ data_class
        → (honour a v name out).hints.data_classes ≡ out.hints.data_classes
    elsewhere (slot k) d = classes-set_slot k v name out
    elsewhere data_class d = absurd (d refl)
    elsewhere dry_run d = ground arith
    elsewhere other d = refl

key_of-eq-dry_run : (x : Text) → key_of x ≡ dry_run → x ≡ text "dry-run"
unfolding key_of
key_of-eq-dry_run x h = ground (arith, eq_of_== x (text "dry-run"))

key_of-eq-data_class : (x : Text) → key_of x ≡ data_class → x ≡ text "data-class"
unfolding key_of
key_of-eq-data_class x h = ground (arith, eq_of_== x (text "data-class"))

key_of_names : (key_of (text "dry-run") ≡ dry_run) × (key_of (text "data-class") ≡ data_class)
unfolding key_of cmp_text
key_of_names = (refl, refl)

lower_names :
    (to_ascii_lowercase (header_prefix ++ text "dry-run") ≡ header_prefix ++ text "dry-run")
    × (to_ascii_lowercase (header_prefix ++ text "data-class") ≡ header_prefix ++ text "data-class")
unfolding to_ascii_lowercase lower
lower_names = (refl, refl)

folded-or : (b : Bool) (vs : List Text) → folded (λ b v. b || is_yes v) b vs ≡ (b || any is_yes vs)
unfolding any
folded-or b [] = ground arith
folded-or b (v ∷ vs) = folded-or (b || is_yes v) vs ∙ ground arith

-- A dry run is asked for exactly when a `dry-run` header, but for case, has a clean value that says
-- so: `true`, but for case, or `1`.
pub extract_headers-dry_run :
    (headers : List (Text × Text))
    → (extract_headers headers).hints.dry_run ≡ any is_yes (given (text "dry-run") headers)
unfolding extract_headers
extract_headers-dry_run headers =
    field-take_headers (λ out. out.hints.dry_run) (text "dry-run") (λ b v. b || is_yes v)
      lower_names.0 (λ i out. refl)
      (λ x v name out.
        flag-honour (key_of x) x v name out (key_of-eq-dry_run x)
          (λ b. ap key_of (eq_of_== x (text "dry-run") b) ∙ key_of_names.0))
      headers no_headers
    ∙ folded-or false (given (text "dry-run") headers)

-- the classes that one value lists between commas
abbrev pub listed_in : List Text → List Text
listed_in [] = []
listed_in (part ∷ parts) =
    option_list (Option.map to_ascii_lowercase (clean part)) ++ listed_in parts

-- the classes that some values list
abbrev pub listed : List Text → List Text
listed [] = []
listed (v ∷ vs) = listed_in (split 44 v) ++ listed vs

push_classes-listed_in :
    (parts classes : List Text) → push_classes parts classes ≡ classes ++ listed_in parts
unfolding push_classes push_class
push_classes-listed_in [] classes = sym (append_nil classes)
push_classes-listed_in (part ∷ parts) classes = elim (Option-cases (clean part)) [
  | inl e ↦ rw e (push_classes-listed_in parts classes)
  | inr (p, e) ↦ rw e (
      push_classes-listed_in parts (classes ++ to_ascii_lowercase p ∷ [])
      ∙ append_assoc classes (to_ascii_lowercase p ∷ []) (listed_in parts))
]

folded-listed :
    (classes vs : List Text)
    → folded (λ cs v. push_classes (split 44 v) cs) classes vs ≡ classes ++ listed vs
folded-listed classes [] = sym (append_nil classes)
folded-listed classes (v ∷ vs) =
    folded-listed (push_classes (split 44 v) classes) vs
    ∙ ap (λ cs. cs ++ listed vs) (push_classes-listed_in (split 44 v) classes)
    ∙ append_assoc classes (listed_in (split 44 v)) (listed vs)

take_headers-classes :
    (headers : List (Text × Text))
    → (take_headers headers no_headers).hints.data_classes
      ≡ listed (given (text "data-class") headers)
take_headers-classes headers =
    field-take_headers (λ out. out.hints.data_classes) (text "data-class")
      (λ cs v. push_classes (split 44 v) cs) lower_names.1 (λ i out. refl)
      (λ x v name out.
        classes-honour (key_of x) x v name out (key_of-eq-data_class x)
          (λ b. ap key_of (eq_of_== x (text "data-class") b) ∙ key_of_names.1))
      headers no_headers
    ∙ folded-listed [] (given (text "data-class") headers)

abbrev pub Before : Text → Text → Type 0
Before s t = cmp_text s t ≡ Ordering.lt

abbrev NotAfter : Text → Text → Type 0
NotAfter s t = is_gt (cmp_text s t) ≡ false

dedup_after-Before :
    (x : Text) (ys : List Text)
    → All (NotAfter x) ys
    → IsOrdered NotAfter ys
    → All (Before x) (dedup_after x ys) × IsOrdered Before (dedup_after x ys)
unfolding dedup_after
dedup_after-Before x [] h o = (tt, tt)
dedup_after-Before x (y ∷ ys) (h, hs) (o, os) =
    let (below, rest) = dedup_after-Before y ys o os in
    elim (Bool-cases (x == y)) [
      | inl e ↦
          rw e (subst (λ z. All (Before z) (dedup_after y ys)) (sym (eq_of_== x y e)) below, rest)
      | inr e ↦
          let less = cmp_text_lt x y h e in
          rw e (
            (
              less,
              All-map (Before y) (Before x) (dedup_after y ys)
                  (λ z l. cmp_text_lt_trans x y z less l) below,
            ),
            (below, rest),
          )
    ]

dedup_after-Elem :
    (x : Text) (ys : List Text) (a : Text) → Elem a (x ∷ ys) ↔ Elem a (x ∷ dedup_after x ys)
unfolding dedup_after
dedup_after-Elem x [] a = (λ m. m, λ m. m)
dedup_after-Elem x (y ∷ ys) a =
    let (into, back) = dedup_after-Elem y ys a in
    elim (Bool-cases (x == y)) [
      | inl e ↦ rw e (
        λ m. elim m [
          | inl p ↦ inl p
          | inr r ↦ elim (into r) [ inl q ↦ inl (eq_of_== x y e ∙ q) | inr t ↦ inr t ]
        ],
        λ m. elim m [ inl p ↦ inl p | inr r ↦ inr (back (inr r)) ],
      )
      | inr e ↦ rw e (
        λ m. elim m [ inl p ↦ inl p | inr r ↦ inr (into r) ],
        λ m. elim m [ inl p ↦ inl p | inr r ↦ inr (back r) ],
      )
    ]

sorted-NotAfter : (xs : List Text) → IsOrdered NotAfter (sort_by cmp_text xs)
sorted-NotAfter xs =
    sort_by-IsOrdered cmp_text (λ _. Unit) NotAfter (λ a b _ _ h. h)
      (λ a b _ _ h. cmp_text_flip a b h) (λ a b c _ _ _ h k. cmp_text_trans a b c h k) xs
      (All-of_Elem (λ _. Unit) xs (λ _ _. tt))

dedup-Before : (xs : List Text) → IsOrdered NotAfter xs → IsOrdered Before (dedup xs)
unfolding dedup
dedup-Before [] o = tt
dedup-Before (x ∷ xs) (h, o) = dedup_after-Before x xs h o

dedup-Elem : (xs : List Text) (a : Text) → Elem a xs ↔ Elem a (dedup xs)
unfolding dedup
dedup-Elem [] a = (λ m. m, λ m. m)
dedup-Elem (x ∷ xs) a = dedup_after-Elem x xs a

-- The data classes are in strict order, so none is there twice, and a class is among them exactly
-- when a `data-class` header, but for case, has a clean value that lists it between commas, clean
-- and in any case.
pub extract_headers-data_classes :
    (headers : List (Text × Text)) (c : Text)
    → let classes = (extract_headers headers).hints.data_classes in
      IsOrdered Before classes
      × (Elem c classes ↔ Elem c (listed (given (text "data-class") headers)))
unfolding extract_headers
extract_headers-data_classes headers c =
    let collected = (take_headers headers no_headers).hints.data_classes in
    let same = take_headers-classes headers in
    let (into, back) = dedup-Elem (sort_by cmp_text collected) c in
    (
      dedup-Before (sort_by cmp_text collected) (sorted-NotAfter collected),
      (
        λ m. subst (Elem c) same (Elem-sort_by cmp_text collected c (back m)),
        λ m. into (sort_by-Elem cmp_text collected c (subst (Elem c) (sym same) m)),
      ),
    )

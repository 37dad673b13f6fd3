-- ===== src/Security/Headers/Slots.antt =====
-- The tenant, agent, policy and path that `extract_headers` (crates/security/src/headers.rs) reads.
use route_d.Prelude.{
  ap, ◌≡◌, inl, inr, refl, ◌∙◌, true, Option, none, some, List, [], ◌∷◌, ◌++◌, Text, text, text_ord,
  ◌==◌, eq_of_==, nat_ord, if◌then◌else◌, Bool-cases, arith, first, or_else, lower,
  to_ascii_lowercase, cmp_text,
}
use route_d.Security.Headers.{
  header_prefix, Ignored, RequestHeaders, no_headers, Slot, tenant, agent, policy, path, Key, slot,
  data_class, dry_run, other, key_of, set_once, set_slot, set_dry_run, honour, take_headers,
  extract_headers,
}
use route_d.Security.Headers.Reading.{given, folded, field-take_headers}

-- the header names of the slots, less the prefix
abbrev pub slot_name : Slot → Text
slot_name tenant = text "tenant"
slot_name agent = text "agent"
slot_name policy = text "policy"
slot_name path = text "path"

-- what a slot holds
abbrev pub held : Slot → RequestHeaders → Option Text
held tenant out = out.tenant
held agent out = out.agent
held policy out = out.hints.policy
held path out = out.path

set_once-or_else :
    (o : Option Text) (v name : Text) (i : List Ignored)
    → (set_once o v name i).0 ≡ or_else o (some v)
unfolding set_once
set_once-or_else none v name i = refl
set_once-or_else (some w) v name i = refl

held-set_slot :
    (k j : Slot) (v name : Text) (out : RequestHeaders)
    → held k (set_slot j v name out)
      ≡ (if slot_name j == slot_name k then or_else (held k out) (some v) else held k out)
unfolding set_slot cmp_text
held-set_slot tenant tenant v name out = set_once-or_else out.tenant v name out.ignored
held-set_slot agent agent v name out = set_once-or_else out.agent v name out.ignored
held-set_slot policy policy v name out = set_once-or_else out.hints.policy v name out.ignored
held-set_slot path path v name out = set_once-or_else out.path v name out.ignored
held-set_slot tenant agent v name out = refl
held-set_slot tenant policy v name out = refl
held-set_slot tenant path v name out = refl
held-set_slot agent tenant v name out = refl
held-set_slot agent policy v name out = refl
held-set_slot agent path v name out = refl
held-set_slot policy tenant v name out = refl
held-set_slot policy agent v name out = refl
held-set_slot policy path v name out = refl
held-set_slot path tenant v name out = refl
held-set_slot path agent v name out = refl
held-set_slot path policy v name out = refl

-- a header that leaves a slot alone and is not of its name
untouched :
    (k : Slot) (x v : Text) (out after : RequestHeaders)
    → held k after ≡ held k out
    → ¬ (x == slot_name k ≡ true)
    → held k after ≡ (if x == slot_name k then or_else (held k out) (some v) else held k out)
untouched k x v out after e n = elim (Bool-cases (x == slot_name k)) [
  | inl b ↦ absurd (n b)
  | inr b ↦ rw b e
]

held-ignored :
    (k : Slot) (i : List Ignored) (out : RequestHeaders)
    → held k (record out { ignored = i }) ≡ held k out
held-ignored tenant i out = refl
held-ignored agent i out = refl
held-ignored policy i out = refl
held-ignored path i out = refl

held-set_dry_run :
    (k : Slot) (v name : Text) (out : RequestHeaders) → held k (set_dry_run v name out) ≡ held k out
unfolding set_dry_run
held-set_dry_run tenant v name out = ground arith
held-set_dry_run agent v name out = ground arith
held-set_dry_run policy v name out = ground arith
held-set_dry_run path v name out = ground arith

-- every other arm leaves the slots
held-honour :
    (k : Slot) (a : Key) (x v name : Text) (out : RequestHeaders)
    → ((j : Slot) → a ≡ slot j → x ≡ slot_name j)
    → (x == slot_name k ≡ true → a ≡ slot k)
    → held k (honour a v name out)
      ≡ (if x == slot_name k then or_else (held k out) (some v) else held k out)
unfolding honour
held-honour k (slot j) x v name out n m = rw (n j refl) (held-set_slot k j v name out)
held-honour k data_class x v name out n m =
    untouched k x v out _ (by_slot k) (λ b. absurd (not_slot (m b)))
  where
    not_slot : data_class ≡ slot k → ⊥
    not_slot e = cc

    by_slot : (j : Slot) → held j (honour data_class v name out) ≡ held j out
    by_slot tenant = refl
    by_slot agent = refl
    by_slot policy = refl
    by_slot path = refl
held-honour k dry_run x v name out n m =
    untouched k x v out _ (held-set_dry_run k v name out) (λ b. absurd (not_slot (m b)))
  where
    not_slot : dry_run ≡ slot k → ⊥
    not_slot e = cc
held-honour k other x v name out n m =
    untouched k x v out _ (held-ignored k _ out) (λ b. absurd (not_slot (m b)))
  where
    not_slot : other ≡ slot k → ⊥
    not_slot e = cc

key_of-eq-slot : (x : Text) (j : Slot) → key_of x ≡ slot j → x ≡ slot_name j
unfolding key_of
key_of-eq-slot x tenant h = ground (arith, eq_of_== x (text "tenant"))
key_of-eq-slot x agent h = ground (arith, eq_of_== x (text "agent"))
key_of-eq-slot x policy h = ground (arith, eq_of_== x (text "policy"))
key_of-eq-slot x path h = ground (arith, eq_of_== x (text "path"))

key_of-slot_name : (k : Slot) → key_of (slot_name k) ≡ slot k
unfolding key_of cmp_text
key_of-slot_name tenant = refl
key_of-slot_name agent = refl
key_of-slot_name policy = refl
key_of-slot_name path = refl

lower-slot_name :
    (k : Slot) → to_ascii_lowercase (header_prefix ++ slot_name k) ≡ header_prefix ++ slot_name k
unfolding to_ascii_lowercase lower
lower-slot_name tenant = refl
lower-slot_name agent = refl
lower-slot_name policy = refl
lower-slot_name path = refl

keep_first : Option Text → Text → Option Text
keep_first o v = or_else o (some v)

folded-keep_first :
    (o : Option Text) (vs : List Text) → folded keep_first o vs ≡ or_else o (first vs)
unfolding keep_first first
folded-keep_first none [] = refl
folded-keep_first (some a) [] = refl
folded-keep_first none (v ∷ vs) = folded-keep_first (some v) vs
folded-keep_first (some a) (v ∷ vs) = folded-keep_first (some a) vs

held-take_headers :
    (k : Slot) (hs : List (Text × Text)) (out : RequestHeaders)
    → held k (take_headers hs out) ≡ or_else (held k out) (first (given (slot_name k) hs))
unfolding keep_first
held-take_headers k hs out =
    field-take_headers (held k) (slot_name k) keep_first (lower-slot_name k) (held-ignored k)
      (λ x v name o.
        held-honour k (key_of x) x v name o (key_of-eq-slot x)
          (λ b. ap key_of (eq_of_== x (slot_name k) b) ∙ key_of-slot_name k))
      hs out
    ∙ folded-keep_first (held k out) (given (slot_name k) hs)

-- The tenant, the agent, the policy hint and the path are the first clean value of a header with
-- the name in question, but for case, and absent if there is none; no other header sets them.
pub held-extract_headers :
    (k : Slot) (headers : List (Text × Text))
    → held k (extract_headers headers) ≡ first (given (slot_name k) headers)
unfolding extract_headers
held-extract_headers tenant headers = held-take_headers tenant headers no_headers
held-extract_headers agent headers = held-take_headers agent headers no_headers
held-extract_headers policy headers = held-take_headers policy headers no_headers
held-extract_headers path headers = held-take_headers path headers no_headers

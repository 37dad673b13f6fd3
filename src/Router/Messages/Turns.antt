-- ===== src/Router/Messages/Turns.antt =====
-- crates/router/src/extract.rs: what the loop over the messages reads of a conversation.
use route_d.Prelude.{
  ℕ, ◌+◌, ◌≡◌, inl, inr, refl, sym, ap, ◌∙◌, Bool, true, false, not, List, [], ◌∷◌, ◌++◌, map, Text,
  text, text_ord, ◌==◌, if◌then◌else◌, is_empty, filter, arith, Bool-cases, eq_of_==, cmp_text,
  subst,
}
use mathlib.Core.List.{append_assoc, append-nil}
use route_d.Json.{Value}
use route_d.Router.Messages.{
  Reading, estimate_tokens, per_message_overhead, role_of, content_of, is_system, is_tool,
  next_turn, sort_by_role, call_tokens, read_message, read_messages,
}

-- The texts of the messages whose role passes a test, in order.
abbrev pub said : (Text → Bool) → List Value → List Text
said p ms = map content_of (filter (λ m. p (role_of m)) ms)

abbrev pub is_user : Text → Bool
is_user role = role == text "user"

is_user-others :
    (role : Text) → is_user role ≡ true → (is_system role ≡ false) × (is_tool role ≡ false)
unfolding cmp_text
is_user-others role h =
    let e = eq_of_== role (text "user") h in
    (subst (λ x. is_system x ≡ false) (sym e) refl, subst (λ x. is_tool x ≡ false) (sym e) refl)

is_system-others : (role : Text) → is_system role ≡ true → is_tool role ≡ false
unfolding cmp_text
is_system-others role h = elim (Bool-cases (role == text "system")) [
  | inl b ↦ let e = eq_of_== role (text "system") b in subst (λ x. is_tool x ≡ false) (sym e) refl
  | inr b ↦
      let e = eq_of_== role (text "developer") (rw b at h) in
      subst (λ x. is_tool x ≡ false) (sym e) refl
]

abbrev pub non_empties : List Text → List Text
non_empties = filter λ t. not (is_empty t)

-- What the loop has read of the user's turns.
abbrev pub turns : Reading → List Text
turns r = r.history ++ non_empties (r.user_text ∷ [])

next_turn-turns : (t : Text) (r : Reading) → turns (next_turn t r) ≡ turns r ++ non_empties (t ∷ [])
unfolding next_turn filter
next_turn-turns t r = elim (Bool-cases (is_empty r.user_text)) [
  | inl e ↦ rw (e, append-nil)
  | inr e ↦ rw e
]

-- A message adds its text to the user's turns if it is theirs, and to the tool outputs if it is a
-- tool's.
sort_by_role-turns :
    (role t : Text) (r : Reading)
    → turns (sort_by_role role t r) ≡ turns r ++ non_empties (if is_user role then t ∷ [] else [])
unfolding sort_by_role filter
sort_by_role-turns role t r = elim (Bool-cases (is_user role)) [
  | inl u ↦ let (a, b) = is_user-others role u in rw (a, b, u, if◌then◌else◌) (next_turn-turns t r)
  | inr u ↦ elim (Bool-cases (is_system role)) [
    | inl a ↦ rw (a, u, if◌then◌else◌, append-nil) refl
    | inr a ↦ elim (Bool-cases (is_tool role)) [
      | inl b ↦ rw (a, b, u, if◌then◌else◌, append-nil) refl
      | inr b ↦ rw (a, b, u, if◌then◌else◌, append-nil) refl
    ]
  ]
]

sort_by_role-tools :
    (role t : Text) (r : Reading)
    → (sort_by_role role t r).tool_outputs ≡ r.tool_outputs ++ (if is_tool role then t ∷ [] else [])
unfolding sort_by_role next_turn
sort_by_role-tools role t r = elim (Bool-cases (is_system role)) [
  | inl a ↦ rw (a, is_system-others role a, append-nil) refl
  | inr a ↦ elim (Bool-cases (is_tool role)) [
    | inl b ↦ rw (a, b, if◌then◌else◌) refl
    | inr b ↦ elim (Bool-cases (is_user role)) [
      | inl u ↦ rw (a, b, u, if◌then◌else◌, append-nil) refl
      | inr u ↦ rw (a, b, u, if◌then◌else◌, append-nil) refl
    ]
  ]
]

-- What the loop adds to the estimate.
abbrev pub conversation_tokens : (Value → Text) → List Value → ℕ
conversation_tokens p [] = 0
conversation_tokens p (m ∷ ms) =
    estimate_tokens (content_of m)
    + per_message_overhead
    + call_tokens p m
    + conversation_tokens p ms

read_message-tokens :
    (p : Value → Text) (m : Value) (r : Reading)
    → (read_message p m r).tokens
      ≡ r.tokens + (estimate_tokens (content_of m) + per_message_overhead + call_tokens p m)
unfolding read_message sort_by_role next_turn
read_message-tokens p m r = ground arith

said-cons :
    (p : Text → Bool) (m : Value) (ms : List Value)
    → said p (m ∷ ms) ≡ (if p (role_of m) then content_of m ∷ [] else []) ++ said p ms
unfolding filter
said-cons p m ms = ground arith

filter-append :
    {A : Type 0} (p : A → Bool) (xs ys : List A) → filter p (xs ++ ys) ≡ filter p xs ++ filter p ys
unfolding filter
filter-append p [] ys = refl
filter-append p (x ∷ xs) ys = ground (arith, filter-append p xs ys)

pub read_messages-turns :
    (p : Value → Text) (ms : List Value) (r : Reading)
    → turns (read_messages p ms r) ≡ turns r ++ non_empties (said is_user ms)
unfolding read_messages read_message filter
read_messages-turns p [] r = sym (append-nil (turns r))
read_messages-turns p (m ∷ ms) r =
    let counted : Reading = record r {
      tokens = r.tokens + (estimate_tokens (content_of m) + per_message_overhead);
    } in
    read_messages-turns p ms (read_message p m r)
    ∙ ap (λ x. x ++ non_empties (said is_user ms))
        (sort_by_role-turns (role_of m) (content_of m) counted)
    ∙ append_assoc (turns r) _ _
    ∙ ap (λ x. turns r ++ x)
        (sym (filter-append (λ t. not (is_empty t)) _ (said is_user ms))
          ∙ ap non_empties (sym (said-cons is_user m ms)))

pub read_messages-tools :
    (p : Value → Text) (ms : List Value) (r : Reading)
    → (read_messages p ms r).tool_outputs ≡ r.tool_outputs ++ said is_tool ms
unfolding read_messages read_message filter
read_messages-tools p [] r = sym (append-nil r.tool_outputs)
read_messages-tools p (m ∷ ms) r =
    let counted : Reading = record r {
      tokens = r.tokens + (estimate_tokens (content_of m) + per_message_overhead);
    } in
    read_messages-tools p ms (read_message p m r)
    ∙ ap (λ x. x ++ said is_tool ms) (sort_by_role-tools (role_of m) (content_of m) counted)
    ∙ append_assoc r.tool_outputs _ _
    ∙ ap (λ x. r.tool_outputs ++ x) (sym (said-cons is_tool m ms))

pub read_messages-tokens :
    (p : Value → Text) (ms : List Value) (r : Reading)
    → (read_messages p ms r).tokens ≡ r.tokens + conversation_tokens p ms
unfolding read_messages
read_messages-tokens p [] r = omega arith
read_messages-tokens p (m ∷ ms) r =
    omega (arith, read_messages-tokens p ms (read_message p m r), read_message-tokens p m r)

-- the last of some texts, or the one before them
abbrev pub last_or : Text → List Text → Text
last_or t [] = t
last_or t (u ∷ us) = last_or u us

sort_by_role-last :
    (role t : Text) (r : Reading)
    → (sort_by_role role t r).user_text ≡ last_or r.user_text (if is_user role then t ∷ [] else [])
unfolding sort_by_role next_turn
sort_by_role-last role t r = elim (Bool-cases (is_user role)) [
  | inl u ↦ let (a, b) = is_user-others role u in rw (a, b, u, if◌then◌else◌) refl
  | inr u ↦ elim (Bool-cases (is_system role)) [
    | inl a ↦ rw (a, u, if◌then◌else◌) refl
    | inr a ↦ elim (Bool-cases (is_tool role)) [
      | inl b ↦ rw (a, b, u, if◌then◌else◌) refl
      | inr b ↦ rw (a, b, u, if◌then◌else◌) refl
    ]
  ]
]

last_or-append : (t : Text) (us vs : List Text) → last_or t (us ++ vs) ≡ last_or (last_or t us) vs
last_or-append t [] vs = refl
last_or-append t (u ∷ us) vs = last_or-append u us vs

pub read_messages-last :
    (p : Value → Text) (ms : List Value) (r : Reading)
    → (read_messages p ms r).user_text ≡ last_or r.user_text (said is_user ms)
unfolding read_messages read_message filter
read_messages-last p [] r = refl
read_messages-last p (m ∷ ms) r =
    let counted : Reading = record r {
      tokens = r.tokens + (estimate_tokens (content_of m) + per_message_overhead);
    } in
    read_messages-last p ms (read_message p m r)
    ∙ ap (λ t. last_or t (said is_user ms)) (sort_by_role-last (role_of m) (content_of m) counted)
    ∙ sym (
        last_or-append r.user_text (if is_user (role_of m) then content_of m ∷ [] else [])
          (said is_user ms))
    ∙ ap (last_or r.user_text) (sym (said-cons is_user m ms))

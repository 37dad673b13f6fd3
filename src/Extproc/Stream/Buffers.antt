-- ===== src/Extproc/Stream/Buffers.antt =====
-- crates/ingress-extproc: the chunks of a body are put together, and are acknowledged one by one.
use mathlib.Core.List.{append_assoc, append-nil}
use route_d.Prelude.{
  ℕ, ◌+◌, ◌≤◌, ◌≡◌, refl, sym, ap, subst, Bool, true, false, Option, none, some, List, [], ◌∷◌,
  ◌++◌, All, ltb, saturating_add, arith,
}
use route_d.Float.{Float}
use route_d.Decision.Types.{Decision}
use route_d.Json.{Serde}
use route_d.Inline.Rewrite.{IndexMap, RawJson}
use route_d.Inline.Http.{Http}
use route_d.Inline.Replies.{Printing}
use route_d.Inline.Decide.{AppState}
use route_d.Inline.Exchange.{Surroundings}
use route_d.Inline.Handlers.{list_len}
use route_d.Extproc.Envoy.{request_body, Bytes}
use route_d.Extproc.Phases.{Pending, on_request_body}
use route_d.Extproc.Stream.{
  Stream, Moment, Inbound, message, Turn, acknowledged, after_body, on_body, handle, stream_loop,
  at,
}

pub list_len-++ : (xs ys : List ℕ) → list_len (xs ++ ys) ≡ list_len xs + list_len ys
unfolding list_len
list_len-++ [] ys = ground arith
list_len-++ (x ∷ xs) ys = grind (arith, list_len-++ xs ys)

pub within-saturating : (a b max : ℕ) → a + b ≤ max → ltb max (saturating_add a b) ≡ false
within-saturating a b max h = ground arith

-- A chunk in the middle of a body, with what it meets, and its place in the whole.
pub record Chunk (F : Type 0) : Type 0 where
  pub bytes : List ℕ
  pub moment : Moment F

module _ {F : Type 0} where
  abbrev pub joined : List (Chunk F) → List ℕ
  joined [] = []
  joined (c ∷ cs) = c.bytes ++ joined cs

  abbrev pub as_message : Bool → Chunk F → Inbound F
  as_message last c =
      message (some (request_body (record { body = c.bytes; end_of_stream = last }))) c.moment

  abbrev pub chunks_then : List (Chunk F) → List (Inbound F) → List (Inbound F)
  chunks_then [] ms = ms
  chunks_then (c ∷ cs) ms = as_message false c ∷ chunks_then cs ms

  abbrev pub acks_then : List (Chunk F) → List (Turn F) → List (Turn F)
  acks_then [] ts = ts
  acks_then (c ∷ cs) ts =
      record { response = acknowledged; events = []; taken = true } ∷ acks_then cs ts

module _ (x : Http) where
  abbrev pub and_bytes : Pending x → List ℕ → Pending x
  and_bytes q bytes = record q { body = q.body ++ bytes }

module _ (x : Http) {F : Type 0} where
  -- a stream that waits for more of the body of `q`
  abbrev pub waiting : Option (Decision F × Bool) → Pending x → Stream x F
  waiting decided q = record { pending = some q; decided = decided }

module _ (x : Http) {F : Type 0} (b : Bytes) (p : Printing F) (im : IndexMap) (j : RawJson im.Map)
    (o : Surroundings x) (serde : Serde) ⦃f : Float F⦄ (state : AppState F) where
  chunk-buffers :
      (q : Pending x) (c : Chunk F)
      → list_len q.body + list_len c.bytes ≤ state.config.max_body_bytes
      → on_request_body x b p im j o
          (at x b p im j o serde state c.moment)
          serde
          c.moment.circumstances
          q
          (record { body = c.bytes; end_of_stream = false })
        ≡ (and_bytes x q c.bytes, none, [])
  unfolding on_request_body
  chunk-buffers q c h = rw (within-saturating _ _ _ h) refl

  chunk_fits :
      (q : Pending x) (c : Chunk F) (cs : List (Chunk F))
      → list_len (q.body ++ (c.bytes ++ joined cs)) ≤ state.config.max_body_bytes
      → list_len q.body + list_len c.bytes ≤ state.config.max_body_bytes
  chunk_fits q c cs h =
      ground (arith, list_len-++ q.body (c.bytes ++ joined cs), list_len-++ c.bytes (joined cs))

  pub stream_loop-buffers :
      (decided : Option (Decision F × Bool)) (q : Pending x) (cs : List (Chunk F))
      (ms : List (Inbound F))
      → All (λ c. c.moment.taken ≡ true) cs
      → list_len (q.body ++ joined cs) ≤ state.config.max_body_bytes
      → stream_loop x b p im j o serde state (waiting x decided q) (chunks_then cs ms)
        ≡ acks_then cs (
            stream_loop x b p im j o serde state (waiting x decided (and_bytes x q (joined cs))) ms)
  unfolding stream_loop handle on_body after_body
  stream_loop-buffers decided q [] ms t h =
      ap
        (λ bs. stream_loop x b p im j o serde state (waiting x decided (record q { body = bs })) ms)
        (sym (append-nil q.body))
  stream_loop-buffers decided q (c ∷ cs) ms (t, ts) h =
      let longer = append_assoc q.body c.bytes (joined cs) in
      let rest =
        stream_loop-buffers decided (and_bytes x q c.bytes) cs ms ts
          (subst (λ bs. list_len bs ≤ state.config.max_body_bytes) (sym longer) h) in
      rw (chunk-buffers q c (chunk_fits q c cs h), t, rest, longer) refl

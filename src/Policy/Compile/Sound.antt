-- ===== src/Policy/Compile/Sound.antt =====
-- What a snapshot that `compile` (crates/policy/src/lib.rs) returns promises to its readers.
use route_d.Prelude.{
  ◌≡◌, ◌<◌, ◌⊎◌, inl, inr, refl, subst, true, false, Option, none, some, Text, text_ord, ◌==◌,
  eq_refl, arith, if◌then◌else◌, Bool-cases, is_some, is_empty, is_gt, All, All-map, All-of_Elem,
  get, values, values-All, cmp_text, cmp_text_flip, cmp_text_trans, sort_by-All, sort_by-IsOrdered,
  IsOrdered,
}
use route_d.Float.{Float, IsIeee}
use route_d.Snapshot.{CompiledPolicy, CompiledMatch, SnapshotCore, Snapshot}
use route_d.Snapshot.Lookup.{from_core, verify}
use route_d.Decision.Types.{DecisionContext, DecisionInput, Findings}
use route_d.Decision.Scoring.{QualityPredictor}
use route_d.Decision.Engine.{decide, is_routed}
use route_d.Decision.Engine.Total.{IsDecided, decide-IsDecided}
use route_d.Policy.Report.{CompileReport, has_errors}
use route_d.Policy.Checks.{is_probability}
use route_d.Policy.Tiers.Kept.{IsUsable, KeepsTiers, compile_tiers-Keeps, no_tiers-Keeps}
use route_d.Policy.Candidates.{Compiled, in_ns}
use route_d.Policy.Policies.{holds_of}
use route_d.Policy.Policies.Resolved.{IsResolved, compile_policies-Resolved}
use route_d.Policy.Compile.{CompileInput, by_priority, compile_tables, compile_core, compile}

inr_fst : {A B C : Type 0} {x y : B × C} → ◌≡◌ {A = A ⊎ (B × C)} (inr x) (inr y) → x.0 ≡ y.0
inr_fst e = cc

module _ {F : Type 0} ⦃f : Float F⦄ where
  -- `a` has the higher priority, or as high a one and a key that does not come later.
  abbrev pub Ahead : CompiledPolicy F → CompiledPolicy F → Type 0
  Ahead a b =
      (b.priority < a.priority)
      ⊎ ((a.priority ≡ b.priority) × (is_gt (cmp_text a.key b.key) ≡ false))

  by_priority-le : (a b : CompiledPolicy F) → is_gt (by_priority a b) ≡ false → Ahead a b
  unfolding by_priority
  by_priority-le a b h = ground arith

  by_priority-ge : (a b : CompiledPolicy F) → is_gt (by_priority a b) ≡ true → Ahead b a
  unfolding by_priority
  by_priority-ge a b h = ground (arith, cmp_text_flip a.key b.key)

  Ahead-trans : (a b c : CompiledPolicy F) → Ahead a b → Ahead b c → Ahead a c
  Ahead-trans a b c h k = ground (arith, cmp_text_trans a.key b.key c.key)

  -- A policy with candidates, all of them and the fallback, if there is one, tiers of the snapshot,
  -- and with the floor and the risk threshold, if there are any, in 0..=1.
  pub record IsBound (s : Snapshot F) (p : CompiledPolicy F) : Type 0 where
    pub chosen : is_empty p.candidates ≡ false
    pub candidates : All (λ n. is_some (get s.core.tiers n) ≡ true) p.candidates
    pub fallback :
        (p.fallback_tier ≡ none)
        ⊎ ((n : Text) × (p.fallback_tier ≡ some n) × (is_some (get s.core.tiers n) ≡ true))
    pub floor : holds_of p.quality_floor is_probability ≡ true
    pub threshold : holds_of p.deny_if_risk_score_above is_probability ≡ true

  in_ns-some :
      (c : Compiled F) (namespace n : Text)
      → in_ns c namespace n ≡ true
      → is_some (get c.tier_ns n) ≡ true
  unfolding in_ns
  in_ns-some c namespace n h = by_owner (get c.tier_ns n) h
    where
      by_owner :
          (o : Option Text)
          → elim o [ none ↦ false | some ns ↦ ns == namespace ] ≡ true
          → is_some o ≡ true
      by_owner none h = cc
      by_owner (some ns) h = refl

  IsResolved-IsBound :
      (c : Compiled F) (s : Snapshot F) (p : CompiledPolicy F)
      → s.core.tiers ≡ c.tiers
      → ((n : Text) → is_some (get c.tier_ns n) ≡ true → is_some (get c.tiers n) ≡ true)
      → IsResolved c p
      → IsBound s p
  IsResolved-IsBound c s p e known r = record {
    chosen = r.chosen;
    candidates =
        rw e
          (All-map _ _ p.candidates (λ n h. known n (in_ns-some c p.namespace n h)) r.candidates);
    fallback = elim r.fallback [ inl h ↦ inl h | inr (n, h, k, g) ↦ inr (n, h, rw e g) ];
    floor = r.floor;
    threshold = r.threshold;
  }

  module _ (content_hash : SnapshotCore F → Text) where
    -- The snapshot is what its hash says, its tiers are usable and filed under their names, its
    -- policies are bound to its tiers and stand in evaluation order.
    pub record IsSound (s : Snapshot F) : Type 0 where
      pub verified : verify content_hash s ≡ true
      pub usable : All IsUsable (values s.core.tiers)
      pub named : All (λ e. e.1.name ≡ e.0) s.core.tiers
      pub bound : All (IsBound s) s.core.policies
      pub ordered : IsOrdered Ahead s.core.policies

  tables-Keeps :
      (input : CompileInput F)
      → let (c, r) = compile_tables input in
        KeepsTiers (record { tiers = c.tiers; tier_ns = c.tier_ns; report = r })
  unfolding compile_tables
  tables-Keeps input = compile_tiers-Keeps input.tiers _ _ _ (no_tiers-Keeps _)

  module _ (match_json : CompiledMatch → Text) (compiler_version : Text)
      (content_hash : SnapshotCore F → Text) (input : CompileInput F) where
    compile_core-IsSound :
        IsSound content_hash
          (from_core content_hash (compile_core match_json compiler_version input).0)
    unfolding compile_core verify from_core
    compile_core-IsSound =
        let (c, r) = compile_tables input in
        let kept = tables-Keeps input in
        record {
          verified = eq_refl (content_hash _);
          usable = values-All IsUsable c.tiers kept.usable;
          named = kept.named;
          bound = sort_by-All by_priority _ _ (
              All-map _ _ _ (λ p. IsResolved-IsBound c _ p refl kept.known)
                (compile_policies-Resolved c input.policies _ tt));
          ordered =
              sort_by-IsOrdered by_priority (λ _. Unit) Ahead (λ a b _ _. by_priority-le a b)
                (λ a b _ _. by_priority-ge a b) (λ a b d _ _ _. Ahead-trans a b d) _
                (All-of_Elem (λ _. Unit) _ (λ _ _. tt));
        }

    -- A snapshot that `compile` returns passes the hash check; its tiers have finite quality priors,
    -- a context window and a risk tolerance in 0..=1, and are filed under their names; each of its
    -- policies has candidates, which are tiers of the snapshot as is its fallback, and its floor and
    -- its threshold in 0..=1; and the policies stand by falling priority and then by key.
    pub compile-IsSound :
        (s : Snapshot F) (report : CompileReport F)
        → compile match_json compiler_version content_hash input ≡ inr (s, report)
        → IsSound content_hash s
    unfolding compile
    compile-IsSound s report h =
        let core = compile_core match_json compiler_version input in
        elim (Bool-cases (has_errors core.1)) [
          | inl b ↦ absurd (cc (rw (b, if◌then◌else◌) at h))
          | inr b ↦
              let same : from_core content_hash core.0 ≡ s = inr_fst (rw (b, if◌then◌else◌) at h) in
              subst (IsSound content_hash) same compile_core-IsSound
        ]

    -- Over a compiled snapshot a request that `is_routed` accepts is routed or blocked.
    pub compiled-IsDecided :
        (laws : IsIeee F) (s : Snapshot F) (report : CompileReport F)
        (predictor : QualityPredictor F) (request : DecisionInput) (findings : Findings F)
        (ctx : DecisionContext)
        → compile match_json compiler_version content_hash input ≡ inr (s, report)
        → is_routed s request ≡ true
        → IsDecided (decide predictor s request findings ctx)
    compiled-IsDecided laws s report predictor request findings ctx h k =
        let sound = compile-IsSound s report h in
        decide-IsDecided laws predictor s
          (All-map IsUsable _ (values s.core.tiers) (λ t u. u.quality) sound.usable) request
          findings ctx k

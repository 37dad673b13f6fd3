-- ===== src/Policy/Tiers/Kept.antt =====
-- What the loop over the tiers of `compile` (crates/policy/src/lib.rs) keeps.
use route_d.Prelude.{
  ℕ, ap, ◌≡◌, ◌≢◌, inl, inr, refl, sym, ◌∙◌, Bool, true, false, Option, none, some, List, [], ◌∷◌,
  Text, text_ord, ◌==◌, nat_ord, arith, if◌then◌else◌, Bool-cases, is_some, All, BTreeMap, get,
  insert, values, get-insert, get-insert_self, All-map, insert-All,
}
use route_d.Api.Resources.{Metadata}
use route_d.Api.Tiers.{ModelTier, ModelTierSpec}
use route_d.Float.{Float}
use route_d.Snapshot.{CompiledTier, CompiledDataClass, MicroEur}
use route_d.Decision.Scoring.Quality.{HasFiniteQuality}
use route_d.Policy.Report.{Message, CompileReport, require, ns_name}
use route_d.Policy.Checks.{is_probability, within}
use route_d.Policy.Tiers.{
  TierState, check_tasks, check_allowed, tier_prices, check_tier, compiled_tier, add_tier,
  compile_tier, compile_tiers,
}

zero_window : (n : ℕ) → n ≡ 0 → (n == 0) ≡ false → ⊥
zero_window n e h = ground arith

module _ {F : Type 0} ⦃f : Float F⦄ where
  -- a resource that is `ok` after a test was `ok` before it and passed it
  pub require-ok :
      (passes : Bool) (kind name field : Text) (message : Message F) (st : Bool × CompileReport F)
      → (require passes kind name field message st).0 ≡ true
      → (passes ≡ true) × (st.0 ≡ true)
  unfolding require
  require-ok true kind name field message (ok, r) h = (refl, h)
  require-ok false kind name field message (ok, r) h = cc

  check_tasks-ok :
      (tname : Text) (es : BTreeMap Text F) (st : Bool × CompileReport F)
      → (check_tasks tname es st).0 ≡ true
      → All (λ e. is_probability e.1 ≡ true) es × (st.0 ≡ true)
  unfolding check_tasks
  check_tasks-ok tname [] st h = (tt, h)
  check_tasks-ok tname ((task, q) ∷ es) st h =
      let (rest, before) = check_tasks-ok tname es _ h in
      let (here, ok) = require-ok _ _ _ _ _ st before in ((here, rest), ok)

  check_allowed-ok :
      (tname : Text) (classes : BTreeMap Text (CompiledDataClass F)) (ds : List Text)
      (st : Bool × CompileReport F)
      → (check_allowed tname classes ds st).0 ≡ true
      → All (λ d. is_some (get classes d) ≡ true) ds × (st.0 ≡ true)
  unfolding check_allowed
  check_allowed-ok tname classes [] st h = (tt, h)
  check_allowed-ok tname classes (d ∷ ds) st h =
      let (rest, before) = check_allowed-ok tname classes ds _ h in
      let (here, ok) = require-ok _ _ _ _ _ st before in ((here, rest), ok)

  -- What the tests ask of a tier's spec, as far as decisions rely on it.
  pub record IsAccepted (s : ModelTierSpec F) (classes : BTreeMap Text (CompiledDataClass F))
      : Type 0 where
    pub window : s.context_window == 0 ≡ false
    pub baseline : is_probability s.quality.baseline ≡ true
    pub tasks : All (λ e. is_probability e.1 ≡ true) s.quality.by_task
    pub risk : is_probability s.security.max_risk_score ≡ true
    pub allowed : All (λ d. is_some (get classes d) ≡ true) s.sovereignty.allowed_data_classes

  check_tier-ok :
      (tname : Text) (s : ModelTierSpec F) (classes : BTreeMap Text (CompiledDataClass F))
      (prices : Option (MicroEur × MicroEur)) (r : CompileReport F)
      → (check_tier tname s classes prices r).0 ≡ true
      → IsAccepted s classes
  unfolding check_tier
  check_tier-ok tname s classes prices r h =
      let (_, i) = require-ok _ _ _ _ _ _ h in
      let (allowed, hh) = check_allowed-ok tname classes _ _ i in
      let (risk, g) = require-ok _ _ _ _ _ _ hh in
      let (tasks, e) = check_tasks-ok tname s.quality.by_task _ g in
      let (baseline, d) = require-ok _ _ _ _ _ _ e in
      let (_, c) = require-ok _ _ _ _ _ _ d in
      let (_, b) = require-ok _ _ _ _ _ _ c in
      let (window, _) = require-ok _ _ _ _ _ _ b in
      record {
        window = ground arith;
        baseline = baseline;
        tasks = tasks;
        risk = risk;
        allowed = allowed;
      }

  probability_finite : (v : F) → is_probability v ≡ true → f.is_finite v ≡ true
  unfolding within
  probability_finite v h = ground arith

  -- A compiled tier that decisions can rely on: finite quality priors, a context window, a risk
  -- tolerance in 0..=1.
  pub record IsUsable (t : CompiledTier F) : Type 0 where
    pub quality : HasFiniteQuality t
    pub window : t.context_window ≢ 0
    pub risk : is_probability t.max_risk_score ≡ true

  compiled_tier-name :
      (name : Text) (s : ModelTierSpec F) (prices : MicroEur × MicroEur)
      → (compiled_tier name s prices).name ≡ name
  unfolding compiled_tier
  compiled_tier-name name s prices = refl

  compiled_tier-IsUsable :
      (name : Text) (s : ModelTierSpec F) (classes : BTreeMap Text (CompiledDataClass F))
      (prices : MicroEur × MicroEur)
      → IsAccepted s classes
      → IsUsable (compiled_tier name s prices)
  unfolding compiled_tier
  compiled_tier-IsUsable name s classes prices a = record {
    quality = record {
      baseline = probability_finite s.quality.baseline a.baseline;
      by_task =
          All-map (λ e. is_probability e.1 ≡ true) (λ e. f.is_finite e.1 ≡ true) s.quality.by_task
            (λ e. probability_finite e.1) a.tasks;
    };
    window = λ e. zero_window s.context_window e a.window;
    risk = a.risk;
  }

  -- What the loop keeps true: every tier is usable and filed under its name, and a tier that has a
  -- namespace is there.
  pub record KeepsTiers (st : TierState F) : Type 0 where
    pub usable : All (λ e. IsUsable e.1) st.tiers
    pub named : All (λ e. e.1.name ≡ e.0) st.tiers
    pub known : (n : Text) → is_some (get st.tier_ns n) ≡ true → is_some (get st.tiers n) ≡ true

  inserted-known :
      (m : BTreeMap Text (CompiledTier F)) (ns : BTreeMap Text Text) (name w : Text)
      (u : CompiledTier F)
      → ((n : Text) → is_some (get ns n) ≡ true → is_some (get m n) ≡ true)
      → (n : Text) → is_some (get (insert ns name w) n) ≡ true
      → is_some (get (insert m name u) n) ≡ true
  inserted-known m ns name w u h n k = elim (get-insert m name u n) [
    | inl (same, found) ↦ rw found
    | inr old ↦ elim (get-insert ns name w n) [
      | inl (same, found) ↦ rw (← same) (ap is_some (get-insert_self m name u))
      | inr o ↦ rw old (h n (ap is_some (sym o) ∙ k))
    ]
  ]

  add_tier-Keeps :
      (meta : Metadata) (name : Text) (s : ModelTierSpec F)
      (classes : BTreeMap Text (CompiledDataClass F)) (prices : MicroEur × MicroEur) (ok : Bool)
      (r : CompileReport F) (st : TierState F)
      → (ok ≡ true → IsAccepted s classes)
      → KeepsTiers st
      → KeepsTiers (add_tier meta name s classes prices (ok, r) st)
  unfolding add_tier
  add_tier-Keeps meta name s classes prices false r st a h = record {
    usable = h.usable;
    named = h.named;
    known = h.known;
  }
  add_tier-Keeps meta name s classes prices true r st a h = record {
    usable =
        insert-All (λ e. IsUsable e.1) st.tiers name (compiled_tier name s prices)
          (compiled_tier-IsUsable name s classes prices (a refl)) h.usable;
    named =
        insert-All (λ e. e.1.name ≡ e.0) st.tiers name (compiled_tier name s prices)
          (compiled_tier-name name s prices) h.named;
    known = inserted-known st.tiers st.tier_ns name _ (compiled_tier name s prices) h.known;
  }

  compile_tier-Keeps :
      (meta : Metadata) (name : Option Text) (s : ModelTierSpec F)
      (classes : BTreeMap Text (CompiledDataClass F)) (fx : BTreeMap Text F) (st : TierState F)
      → KeepsTiers st
      → KeepsTiers (compile_tier meta name s classes fx st)
  unfolding compile_tier
  compile_tier-Keeps meta none s classes fx st h = record {
    usable = h.usable;
    named = h.named;
    known = h.known;
  }
  compile_tier-Keeps meta (some name) s classes fx st h =
      elim (Bool-cases (is_some (get st.tiers name))) [
        | inl b ↦
            rw (b, if◌then◌else◌) (record { usable = h.usable; named = h.named; known = h.known })
        | inr b ↦
            let checked = check_tier (ns_name meta) s classes (tier_prices s fx) st.report in
            rw (b, if◌then◌else◌)
              (add_tier-Keeps meta name s classes _ checked.0 checked.1 st
                (check_tier-ok (ns_name meta) s classes (tier_prices s fx) st.report) h)
      ]

  pub compile_tiers-Keeps :
      (ts : List (ModelTier F)) (classes : BTreeMap Text (CompiledDataClass F))
      (fx : BTreeMap Text F) (st : TierState F)
      → KeepsTiers st
      → KeepsTiers (compile_tiers ts classes fx st)
  unfolding compile_tiers
  compile_tiers-Keeps [] classes fx st h = h
  compile_tiers-Keeps (t ∷ ts) classes fx st h =
      compile_tiers-Keeps ts classes fx _
        (compile_tier-Keeps t.metadata t.metadata.name t.spec classes fx st h)

  pub no_tiers-Keeps :
      (r : CompileReport F) → KeepsTiers (record { tiers = []; tier_ns = []; report = r })
  unfolding values get
  no_tiers-Keeps r = record { usable = tt; named = tt; known = λ n e. cc }

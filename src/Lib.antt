-- ===== src/Lib.antt =====
-- routeD: the core of the model router, modelled and verified.
--
-- routeD sits before an LLM gateway. Kubernetes resources are compiled into an immutable snapshot;
-- an ingress classifies a request and asks the decision engine, which reads the snapshot, the facts
-- of the request and the findings of the classifiers, and answers with a route to one tier, a block,
-- or a pass-through. The engine neither keeps state nor does I/O. The one piece of shared state is
-- the holder of the current snapshot, which readers load while a watcher stores and reverts.
--
-- Which module models what (paths from the root of the repository):
--   Prelude    what the code uses of Rust's standard library: Option, Vec, BTreeMap and BTreeSet as
--              sorted lists, str as a list of code points, sort_by, saturating and wrapping integers
--   Float      f64 as a parameter: a type with the operations that the code applies (Float) and the
--              facts of IEEE 754 that proofs use (IsIeee). Float.Fixed is an instance, for runs
--   Api        the enums of crates/api/src/v1alpha1/common.rs and routingpolicy.rs
--   Snapshot   crates/snapshot/src/lib.rs: CompiledTier to CompiledProfile, SnapshotCore and Snapshot
--              (records with the source's fields); Lookup for the methods of Snapshot; Cost for
--              quality_for and estimate_cost; Normalise for Weights; Holder for SnapshotHolder run by
--              one thread, and Holder.Interleaving for its atomic accesses made by many
--   Decision   crates/decision/src/types.rs (Types) and crates/decision/src/lib.rs: Glob, Scope
--              (scope_matches, select_policy), DataClass (resolve_data_class), Constraints (the hard
--              constraints), Scoring (predicted_quality, score_and_select), Fallback
--              (fallback_or_block), Engine (decide, is_routed). The body of `decide` is cut at its
--              early returns: decide, decide_selected, decide_policy, decide_class, decide_risk,
--              decide_degraded, decide_survivors
--   Policy     crates/policy/src/lib.rs: Report (Diag, CompileReport), Checks (within, to_micro_eur,
--              data_class_violation), and the loops of `compile` in Rates, Profiles, Classes, Tiers,
--              Candidates and Policies; Compile puts them together. Its resources are in the
--              children of Api (crates/api/src/v1alpha1: modeltier.rs, dataclass.rs,
--              routingpolicy.rs, routerprofile.rs)
--   Security   crates/security/src/headers.rs: Headers has is_routed_header, clean, set_once and
--              extract_headers, whose loop body is cut at its `continue`s
--              crates/security/src/pii.rs: Pii has iban_mod97_ok, luhn_ok and de_tax_id_ok with
--              their loops
--   Json       the values of serde_json that a body is parsed into
--   Classify   crates/classify/src/lib.rs: the interface of a classifier
--   Router     crates/router/src: Messages and Extract are extract.rs (estimate_tokens, text_of, the
--              loop over the messages, parse_request, to_input), Pipeline is lib.rs (Pipeline::run,
--              degraded_name)
--   Inline     crates/ingress-inline/src: Paths (normalize_path, passthrough_allowed) and Rewrite
--              (rewrite_body) of handlers.rs, Http (the interface to the crate http), Forward (the
--              headers of forward.rs), Replies (errors.rs, headers.rs, block_response), Decide
--              (pipeline.rs and decide_bytes), Exchange (what a handler gets and gives, read_body,
--              forward, observe), Handlers (proxy, decide, readyz) and Feedback (feedback)
--   Extproc    crates/ingress-extproc/src/lib.rs: Envoy (the messages of Envoy with the fields that the
--              code uses, and the conversion of headers), Phases (on_request_headers,
--              on_request_body) and Stream (stream_loop)
--   Operator   cmd/routed-operator/src: Status is status.rs (what apply writes to the status of every
--              resource), Leader is leader.rs (a tick of the leader election)
--   Examples   runs at concrete values and instances of the theorems
--
-- Conventions. A `&mut Decision` is a decision passed in and returned. `u64` values are natural
-- numbers; where arithmetic can leave the width the bound is written out (saturating_add, the u128
-- products of estimate_cost, which wrap as in a release build). Texts that the engine formats for
-- people are values, one constructor for each `format!` with its arguments (Reason, Note, Message,
-- Ignored). The report of the compiler is passed in and returned. Every
-- function is structurally recursive, so none takes fuel.
--
-- A handler of the ingress replies, or sends one request to the upstream and goes on with what
-- comes back; what it counts and records is a list of events, without the hash of the user text.
--
-- Parameters: the floats, the content hash of a snapshot (serde_json and sha2), the JSON of a
-- policy's match (serde_json), the version of the compiler, and the learned quality predictor. No
-- theorem assumes anything of the last four. The ingress adds the classifier, the parser and printer
-- of JSON, and the crates http and indexmap, whose documented behaviour is in Http.IsLawful and
-- Rewrite.IsLawful. A stream of Envoy is the list of its messages, each with the snapshots that are
-- loaded when it is handled and with whether its answer is taken; bytes and texts are converted by a
-- parameter (Extproc.Envoy.Bytes). The cluster is what a merge patch does to an object
-- (Status.Settles.IsMergePatch).
--
-- Not modelled: serde, JSON schemas and printing; the servers, the rest of the operator and the
-- command line tools, which are I/O around the engine; the regular expressions of the detectors;
-- third-party cryptography and inference.
pub mod Prelude
pub mod Json
pub mod Api
pub mod Float
pub mod Snapshot
pub mod Decision
pub mod Policy
pub mod Security
pub mod Classify
pub mod Router
pub mod Inline
pub mod Extproc
pub mod Operator
pub mod Examples

-- ===== src/Decision.antt =====
-- crates/decision/src: the decision engine. `Types` has the data, `Glob`, `Scope`, `DataClass`,
-- `Constraints`, `Scoring` and `Fallback` the parts of a decision, and `Engine` the whole of it; the
-- modules below each of them prove what it does.
pub mod Types
pub mod Round
pub mod Glob
pub mod Scope
pub mod DataClass
pub mod Constraints
pub mod Scoring
pub mod Fallback
pub mod Engine

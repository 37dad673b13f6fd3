-- ===== src/Policy.antt =====
-- crates/policy/src/lib.rs: the compiler from resources to a snapshot. `Report` has the
-- diagnostics, `Checks` the tests of single values; `Rates`, `Profiles`, `Classes`, `Tiers` and
-- `Policies` are the parts of `compile` in its order, and `Compile` is the whole.
pub mod Report
pub mod Checks
pub mod Rates
pub mod Profiles
pub mod Classes
pub mod Tiers
pub mod Candidates
pub mod Policies
pub mod Compile

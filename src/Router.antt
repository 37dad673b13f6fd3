-- ===== src/Router.antt =====
-- crates/router: from the bytes of a request to its decision.
pub mod Messages
pub mod Extract
pub mod Pipeline

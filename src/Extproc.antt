-- ===== src/Extproc.antt =====
-- crates/ingress-extproc: the ingress behind Envoy, which decides by mutations of what Envoy holds.
pub mod Envoy
pub mod Phases
pub mod Stream

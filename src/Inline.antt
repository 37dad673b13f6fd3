-- ===== src/Inline.antt =====
-- crates/ingress-inline: the ingress that stands in front of the gateway.
pub mod Paths
pub mod Rewrite
pub mod Http
pub mod Forward
pub mod Replies
pub mod Decide
pub mod Exchange
pub mod Handlers
pub mod Feedback

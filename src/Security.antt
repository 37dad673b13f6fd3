-- ===== src/Security.antt =====
-- crates/security/src: what an ingress does to a request before it is decided, and the checksums of
-- the detectors of personal data.
pub mod Headers
pub mod Pii

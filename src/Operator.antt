-- ===== src/Operator.antt =====
-- cmd/routed-operator: what the operator writes to the cluster.
pub mod Status
pub mod Leader

-- ===== src/Operator/Leader/Exclusive.antt =====
-- cmd/routed-operator/src/leader.rs: when a replica leads.
use route_d.Prelude.{ℕ, ◌-◌, ◌≤◌, ◌≡◌, ◌≢◌, Option, some, Text, text_ord, nat_ord, unwrap_or}
use route_d.Operator.Leader.{lease_duration_secs, LeaseSpec, Wish, create, patch, stand_by}

-- The lease says that another replica renewed it, no longer ago than it lasts.
pub record HeldByOther (identity : Text) (now : ℕ) (lease : Option LeaseSpec) : Type 0 where
  pub spec : LeaseSpec
  pub found : lease ≡ some spec
  pub renewed : ℕ
  pub renewal : spec.renew_time ≡ some renewed
  pub fresh : now - renewed ≤ unwrap_or spec.lease_duration_seconds lease_duration_secs
  pub other : spec.holder_identity ≢ some identity

-- The lease in the cluster after a wish that was granted.
abbrev pub lease_after : Wish → Option LeaseSpec → Option LeaseSpec
lease_after (create l) lease = some l
lease_after (patch l) lease = some l
lease_after stand_by lease = lease

-- A replica that leads has the lease, renewed at that tick.
record Holds (identity : Text) (now : ℕ) (lease : Option LeaseSpec) : Type 0 where
  spec : LeaseSpec
  found : lease ≡ some spec
  holder : spec.holder_identity ≡ some identity
  renewal : spec.renew_time ≡ some now
  duration : spec.lease_duration_seconds ≡ some lease_duration_secs

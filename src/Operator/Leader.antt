-- ===== src/Operator/Leader.antt =====
-- cmd/routed-operator/src/leader.rs: the lease that says which replica writes. Times and durations
-- are seconds and not negative; the API of the cluster is what a request to it comes back with.
pub mod Exclusive
use route_d.Prelude.{
  ℕ, ◌+◌, ◌-◌, Bool, true, false, not, Option, none, some, Text, text_ord, nat_ord, ◌==◌, ◌&&◌,
  ◌||◌, if◌then◌else◌, unwrap_or, ltb, Result, ok, err,
}

abbrev pub lease_duration_secs : ℕ
lease_duration_secs = 15

-- `LeaseSpec`; a lease without one has the empty one
pub record LeaseSpec : Type 0 where
  pub holder_identity : Option Text
  pub lease_duration_seconds : Option ℕ
  pub acquire_time : Option ℕ
  pub renew_time : Option ℕ
  pub lease_transitions : Option ℕ

unfoldable pub is_holder : Text → Option Text → Bool
is_holder identity none = false
is_holder identity (some h) = h == identity

unfoldable pub expired : ℕ → Option ℕ → Option ℕ → Bool
expired now duration none = true
expired now duration (some renewed) = ltb (unwrap_or duration lease_duration_secs) (now - renewed)

-- the lease that a replica creates
unfoldable pub new_lease : ℕ → Text → LeaseSpec
new_lease now identity = record {
  holder_identity = some identity;
  lease_duration_seconds = some lease_duration_secs;
  acquire_time = some now;
  renew_time = some now;
  lease_transitions = some 0;
}

-- the lease that it patches
unfoldable pub taken_lease : ℕ → Text → LeaseSpec → LeaseSpec
taken_lease now identity spec =
    let is_me = is_holder identity spec.holder_identity in
    record {
      holder_identity = some identity;
      lease_duration_seconds = some lease_duration_secs;
      acquire_time = some (if is_me then unwrap_or spec.acquire_time now else now);
      renew_time = some now;
      lease_transitions = some (unwrap_or spec.lease_transitions 0 + (if is_me then 0 else 1));
    }

-- What a tick asks of the cluster after it has read the lease.
pub data Wish : Type 0 where
  create : LeaseSpec → Wish
  patch : LeaseSpec → Wish
  stand_by : Wish

unfoldable pub wish : Text → ℕ → Option LeaseSpec → Wish
wish identity now none = create (new_lease now identity)
wish identity now (some spec) =
    if not (is_holder identity spec.holder_identity)
      && not (expired now spec.lease_duration_seconds spec.renew_time)
    then stand_by
    else patch (taken_lease now identity spec)

-- What the requests of a tick come back with: the lease that is read, if it is, and whether the
-- write succeeds.
pub record Cluster : Type 0 where
  pub read : Result (Option LeaseSpec) Text
  pub written : Result ℕ Text

unfoldable pub is_ok : {A E : Type 0} → Result A E → Bool
is_ok (ok a) = true
is_ok (err e) = false

-- the answer to a wish; a lease that could not be created is no error
unfoldable pub granted : Wish → Result ℕ Text → Result Bool Text
granted (create l) w = ok (is_ok w)
granted (patch l) (ok n) = ok true
granted (patch l) (err e) = err e
granted stand_by w = ok false

unfoldable pub tick_read :
    Text → ℕ → Result (Option LeaseSpec) Text → Result ℕ Text → Result Bool Text
tick_read identity now (err e) w = err e
tick_read identity now (ok lease) w = granted (wish identity now lease) w

unfoldable pub tick : Text → ℕ → Cluster → Result Bool Text
tick identity now k = tick_read identity now k.read k.written

-- the flag after a tick
unfoldable pub leading : Result Bool Text → Bool
leading (ok is_leader) = is_leader
leading (err e) = false

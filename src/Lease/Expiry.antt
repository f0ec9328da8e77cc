-- ===== src/Lease/Expiry.antt =====
-- Construction, timers, lazy expiry and `status` of `ControlLeaseManager`
-- (src/browser/control-lease.ts). A run of assignments with no call that may throw between them
-- is one `modify`.
use antigravity_browser.Base.{
  ℕ, ◌-◌, Bool, true, false, not, ◌&&◌, ◌||◌, Option, none, some, map, ltb, ◌==◌, if◌then◌else◌,
}
use antigravity_browser.Lease.Types.{
  no_owner, agent_owner, agent_controlled, inactive, idle, expired, JsValue, invalid_argument,
  Field, LeaseRecord, Manager, Host, ControlLeaseStatus,
}
use antigravity_browser.Lease.Action.{
  Result, ok, err, Action, ◌>>=◌, ◌>>◌, return, get, modify, read_now, finite, with_result,
}
use antigravity_browser.Lease.Checks.{
  is_pending, is_active, is_expired, default_ttl_ms, default_max_ttl_ms, default_token_bytes,
  validate_duration, validate_token_bytes, defaulted, status_unsafe,
}

pub record ManagerOptions : Type 0 where
  pub ttl_ms : JsValue
  pub max_ttl_ms : JsValue
  pub token_bytes : JsValue

abbrev pub fresh : ℕ → ℕ → ℕ → Manager
fresh ttl max_ttl bytes = record {
  ttl_ms = ttl;
  max_ttl_ms = max_ttl;
  token_bytes = bytes;
  control_state = agent_controlled;
  handoff_state = idle;
  owner = agent_owner;
  current_lease = none;
  expiry_timer = none;
  next_generation = 0;
  released_at = none;
  expired_at = none;
  last_issued_at = none;
  last_activated_at = none;
  last_expires_at = none;
  clock_reads = 1;
  tokens_drawn = 0;
}

-- The constructor; its one clock reading is `now 0`.
unfoldable pub create : Host → ManagerOptions → Result Manager
create host o =
    with_result (validate_duration (defaulted o.max_ttl_ms default_max_ttl_ms) Field.max_ttl_ms)
      λ max_ttl.
        with_result (validate_duration (defaulted o.ttl_ms default_ttl_ms) Field.ttl_ms) λ ttl.
          if ltb max_ttl ttl
          then err (invalid_argument Field.ttl_ms)
          else with_result (validate_token_bytes (defaulted o.token_bytes default_token_bytes))
              λ bytes. with_result (finite (host.now 0)) λ _. ok (fresh ttl max_ttl bytes)

unfoldable pub clear_expiry_timer : Manager → Manager
clear_expiry_timer m = record m { expiry_timer = none }

zero_digest : Option LeaseRecord → Option LeaseRecord
zero_digest none = none
zero_digest (some l) = some (record l { digest = map (λ _. 0) l.digest })

unfoldable pub clear_digest : Manager → Manager
unfolding zero_digest
clear_digest m = record m { current_lease = zero_digest m.current_lease }

unfoldable pub schedule_expiry : ℕ → ℕ → Manager → Manager
schedule_expiry g delay m = record m {
  expiry_timer = some (record { generation = g; delay = delay });
}

-- The assignments of `expireLease` before it records the time.
abbrev pub mark_expired : Manager → Manager
mark_expired m = record m { control_state = inactive; owner = no_owner; handoff_state = expired }

-- `expireLease` on the lease that is current.
expire_current : Host → ℕ → LeaseRecord → Action (Unit {0})
unfolding clear_expiry_timer clear_digest schedule_expiry
expire_current host g lease = do
  t ← read_now host
  if ltb t lease.expires_at then modify (schedule_expiry g (lease.expires_at - t)) else do
    modify (λ m. mark_expired (clear_digest (clear_expiry_timer m)))
    now ← read_now host
    modify (λ m. record m { expired_at = some now; released_at = none })

-- `expireLease`; the host calls it too, through the timer.
unfoldable pub expire_lease : Host → ℕ → Action (Unit {0})
unfolding expire_current
expire_lease host g m = elim m.current_lease [
  | none ↦ (ok tt, m)
  | some lease ↦
      if not (lease.generation == g) || is_expired m.handoff_state
      then (ok tt, m)
      else expire_current host g lease m
]

unfoldable pub expire_lease_if_due : Host → LeaseRecord → Action Bool
expire_lease_if_due host lease = do
  t ← read_now host
  if ltb t lease.expires_at
      then return false
      else do expire_lease host lease.generation; return true

unfoldable pub expire_if_due : Host → Action Bool
unfolding expire_lease_if_due
expire_if_due host m = elim m.current_lease [
  | none ↦ (ok false, m)
  | some lease ↦
      if not (is_pending m.handoff_state) && not (is_active m.handoff_state)
      then (ok false, m)
      else expire_lease_if_due host lease m
]

unfoldable pub status : Host → Action ControlLeaseStatus
status host = do expire_if_due host; m ← get; return (status_unsafe m)

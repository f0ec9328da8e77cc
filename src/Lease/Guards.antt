-- ===== src/Lease/Guards.antt =====
-- The write guards of `ControlLeaseManager` and its disposal (src/browser/control-lease.ts).
use antigravity_browser.Base.{Bool, true, false, not, ◌||◌, none, some}
use antigravity_browser.Lease.Types.{
  ControlLeaseActor, JsValue, manual_takeover_active, human_handoff_expired, invalid_state,
  StateReason, invalid_argument, Field, Manager, Host,
}
use antigravity_browser.Lease.Action.{
  Result, ok, err, Action, ◌>>=◌, ◌>>◌, return, throw, throw_if, get, modify, check, read_now,
}
use antigravity_browser.Lease.Checks.{
  is_active, is_expired, is_idle, is_user_controlled, is_agent_controlled, assert_token,
}
use antigravity_browser.Lease.Expiry.{
  expire_if_due, status, clear_expiry_timer, clear_digest, mark_expired,
}
use antigravity_browser.Lease.Handoff.{takeover_blocks}

unfoldable pub assert_agent_control : Host → Action (Unit {0})
assert_agent_control host = do
  expire_if_due host
  m ← get
  throw_if (is_expired m.handoff_state) human_handoff_expired
  throw_if (takeover_blocks m) manual_takeover_active
  throw_if (not (is_idle m.handoff_state) || not (is_agent_controlled m.control_state))
      (invalid_state StateReason.agent_not_active)

unfoldable pub assert_user_control : Host → JsValue → Action (Unit {0})
assert_user_control host token = do
  expire_if_due host
  m ← get
  throw_if (is_expired m.handoff_state) human_handoff_expired
  throw_if (not (is_active m.handoff_state) || not (is_user_controlled m.control_state))
      (invalid_state StateReason.user_not_active)
  check (assert_token host m token)

-- `leaseToken === undefined` is `JsValue.undefined`.
unfoldable pub assert_can_act : Host → ControlLeaseActor → JsValue → Action (Unit {0})
unfolding assert_agent_control assert_user_control
assert_can_act host ControlLeaseActor.agent token = assert_agent_control host
assert_can_act host ControlLeaseActor.user JsValue.undefined =
    throw (invalid_argument Field.lease_token)
assert_can_act host ControlLeaseActor.user token = assert_user_control host token
assert_can_act host ControlLeaseActor.system token =
    throw (invalid_state StateReason.system_cannot_write)

unfoldable pub can_agent_act : Host → Action Bool
unfolding status
can_agent_act host = do s ← status host; return (s.agent_write_allowed)

abbrev pub succeeded : {A : Type 0} → Result A × Manager → Result Bool × Manager
succeeded (ok _, m) = (ok true, m)
succeeded (err _, m) = (ok false, m)

-- The `try` of `canUserAct`.
unfoldable pub can_user_act : Host → JsValue → Action Bool
unfolding assert_user_control
can_user_act host JsValue.undefined m = (ok false, m)
can_user_act host token m = succeeded (assert_user_control host token m)

unfoldable pub is_hard_stop : Host → Action Bool
unfolding status
is_hard_stop host = do s ← status host; return (s.hard_stop)

unfoldable pub dispose : Host → Action (Unit {0})
unfolding clear_digest clear_expiry_timer
dispose host = do
  modify (λ m. mark_expired (record (clear_digest (clear_expiry_timer m)) { current_lease = none }))
  t ← read_now host
  modify (λ m. record m { expired_at = some t })

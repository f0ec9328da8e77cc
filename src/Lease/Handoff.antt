-- ===== src/Lease/Handoff.antt =====
-- The operations of `ControlLeaseManager` that move control between the agent and the user
-- (src/browser/control-lease.ts).
use antigravity_browser.Base.{
  ℕ, suc, ◌+◌, Bool, true, false, not, ◌||◌, Option, none, some, List, ltb, ◌==◌, if◌then◌else◌,
  length, any, Text, is_some,
}
use antigravity_browser.Lease.Types.{
  ControlLeaseActor, no_owner, agent_owner, user_owner, agent_controlled, user_controlled, inactive,
  idle, pending, active, released, JsValue, manual_takeover_active, human_handoff_expired,
  invalid_state, StateReason, invalid_argument, Field, LeaseRecord, Manager, Host, Generated,
  generated_bytes, generated_text, generated_other, source_failed, HandoffRequest, RecoveryRequest,
  Argument, TokenArgument, ControlLeaseStatus, HandoffGrant,
}
use antigravity_browser.Lease.Action.{
  Result, ok, err, Action, ◌>>=◌, ◌>>◌, return, throw_if, get, modify, check, read_now, with_result,
}
use antigravity_browser.Lease.Checks.{
  is_pending, is_active, is_released, is_expired, is_idle, is_user_controlled, is_agent_controlled,
  is_agent, is_user, is_control, validate_duration, defaulted, validate_reason, normalize_actor,
  normalize_token_request, assert_object, assert_user_confirmation, matches_token, assert_token,
  status_unsafe, Claim,
}
use antigravity_browser.Lease.Expiry.{
  expire_if_due, clear_expiry_timer, clear_digest, schedule_expiry,
}

token_value : Host → Generated → Result Text
token_value host source_failed = err (invalid_argument Field.random_token)
token_value host generated_other = err (invalid_argument Field.random_token)
token_value host (generated_bytes bs) = ok (host.base64url bs)
token_value host (generated_text s) = ok s

-- The token and its digest.
unfoldable pub issue_token : Host → Action (Text × List ℕ)
unfolding token_value
issue_token host = do
  m ← get
  modify (λ m. record m { tokens_drawn = suc m.tokens_drawn })
  value ← check (token_value host (host.draw m.tokens_drawn m.token_bytes))
  throw_if (length value == 0 || any is_control value) (invalid_argument Field.random_token)
  return (value, host.sha256 value)

-- The assignments of `requestHandoff`.
unfoldable pub begin_handoff : ℕ → ℕ → List ℕ → Manager → Manager
unfolding schedule_expiry clear_expiry_timer
begin_handoff issued_at ttl digest m =
    let generation = suc m.next_generation in
    schedule_expiry generation ttl (
      clear_expiry_timer (record m {
        next_generation = generation;
        current_lease = some (record {
          generation = generation;
          digest = digest;
          issued_at = issued_at;
          expires_at = issued_at + ttl;
          activated_at = none;
        });
        last_issued_at = some issued_at;
        last_activated_at = none;
        last_expires_at = some (issued_at + ttl);
        control_state = inactive;
        owner = no_owner;
        handoff_state = pending;
        released_at = none;
        expired_at = none;
      }))

abbrev pub takeover_blocks : Manager → Bool
takeover_blocks m = is_active m.handoff_state || is_user_controlled m.control_state

-- The guards of `requestHandoff` on the state.
abbrev pub may_hand_off : Manager → Result (Unit {0})
may_hand_off m =
    if takeover_blocks m
    then err manual_takeover_active
    else if is_pending m.handoff_state
    then err (invalid_state StateReason.already_pending)
    else if is_released m.handoff_state
    then err (invalid_state StateReason.resume_first)
    else ok tt

-- The duration of a handoff, within the hard cap.
unfoldable pub choose_ttl : Manager → JsValue → Result ℕ
choose_ttl m requested = elim (validate_duration (defaulted requested m.ttl_ms) Field.ttl_ms) [
  | err e ↦ err e
  | ok ttl ↦ if ltb m.max_ttl_ms ttl then err (invalid_argument Field.ttl_ms) else ok ttl
]

-- `requestHandoff` from the clock reading on.
unfoldable pub issue_handoff : Host → ℕ → Action HandoffGrant
issue_handoff host ttl = do
  issued_at ← read_now host
  token ← issue_token host
  modify (begin_handoff issued_at ttl token.1)
  m ← get
  return (record { status = status_unsafe m; lease_token = token.0 })

-- The checks of `requestHandoff`, in their order; the answer is the duration.
unfoldable pub handoff_gate : HandoffRequest → Manager → Result ℕ
handoff_gate request m =
    with_result (normalize_actor request.actor ControlLeaseActor.agent) λ actor.
      if not (is_agent actor)
      then err (invalid_state StateReason.only_agent_hands_off)
      else with_result (validate_reason request.reason)
          λ _. with_result (may_hand_off m) λ _. choose_ttl m request.ttl_ms

unfoldable pub request_handoff : Host → Argument HandoffRequest → Action HandoffGrant
request_handoff host options = do
  request ← check (assert_object options Field.handoff_request)
  expire_if_due host
  m ← get
  ttl ← check (handoff_gate request m)
  issue_handoff host ttl

-- The guards of `takeover` before the token check; `ok true` is the safe retry in ACTIVE.
abbrev pub may_take_over : Host → Manager → JsValue → Result Bool
may_take_over host m token =
    if is_expired m.handoff_state
    then err human_handoff_expired
    else if is_idle m.handoff_state
    then err (invalid_state StateReason.none_pending)
    else if is_released m.handoff_state
    then err (invalid_state StateReason.already_released)
    else if is_active m.handoff_state
    then if matches_token host m token then ok true else err manual_takeover_active
    else ok false

unfoldable pub activate_lease : ℕ → Option LeaseRecord → Option LeaseRecord
activate_lease t none = none
activate_lease t (some l) = some (record l { activated_at = some t })

unfoldable pub activate : ℕ → Manager → Manager
unfolding activate_lease
activate t m = record m {
  current_lease = activate_lease t m.current_lease;
  last_activated_at = some t;
  control_state = user_controlled;
  owner = user_owner;
  handoff_state = active;
}

-- `takeover` from the clock reading on.
unfoldable pub activate_lease_now : Host → Action ControlLeaseStatus
unfolding activate
activate_lease_now host = do
  t ← read_now host
  m ← get
  throw_if (not (is_some m.current_lease)) (invalid_state StateReason.lease_unavailable)
  modify (activate t)
  m ← get
  return (status_unsafe m)

-- `takeover` from the token check on.
unfoldable pub claim_lease : Host → JsValue → Action ControlLeaseStatus
unfolding activate_lease_now
claim_lease host token = do m ← get; check (assert_token host m token); activate_lease_now host

-- The checks of `takeover`, in their order; `ok true` asks for no more than the status.
unfoldable pub takeover_gate : Host → Claim → Manager → Result Bool
takeover_gate host request m =
    with_result (normalize_actor request.actor ControlLeaseActor.user) λ actor.
      with_result (assert_user_confirmation request.user_confirmed) λ _.
        if not (is_user actor)
        then err (invalid_state StateReason.only_user_takes_over)
        else may_take_over host m request.lease_token

unfoldable pub takeover : Host → TokenArgument → Action ControlLeaseStatus
takeover host argument = do
  request ← check (normalize_token_request argument)
  expire_if_due host
  m ← get
  retry ← check (takeover_gate host request m)
  if retry then return (status_unsafe m) else claim_lease host request.lease_token

-- The assignments of `release` and of `recoverExpired` before they record the time.
abbrev pub drop_lease : Manager → Manager
drop_lease m = record m {
  current_lease = none;
  control_state = inactive;
  owner = no_owner;
  handoff_state = released;
}

unfoldable pub record_release : Host → Action ControlLeaseStatus
record_release host = do
  t ← read_now host
  modify (λ m. record m { released_at = some t; expired_at = none })
  m ← get
  return (status_unsafe m)

unfoldable pub release : Host → TokenArgument → Action ControlLeaseStatus
unfolding record_release clear_digest clear_expiry_timer
release host argument = do
  request ← check (normalize_token_request argument)
  expire_if_due host
  actor ← check (normalize_actor request.actor ControlLeaseActor.user)
  check (assert_user_confirmation request.user_confirmed)
  throw_if (not (is_user actor)) (invalid_state StateReason.only_user_releases)
  m ← get
  throw_if (is_expired m.handoff_state) human_handoff_expired
  throw_if (not (is_active m.handoff_state)) (invalid_state StateReason.user_not_active)
  check (assert_token host m request.lease_token)
  modify (λ m. drop_lease (clear_digest (clear_expiry_timer m)))
  record_release host

-- The guards of `resume`; `ok true` is the idempotent answer when the agent is in control.
abbrev pub may_resume : Manager → Result Bool
may_resume m =
    if takeover_blocks m
    then err manual_takeover_active
    else if is_expired m.handoff_state
    then err human_handoff_expired
    else if is_pending m.handoff_state
    then err (invalid_state StateReason.not_released)
    else if is_idle m.handoff_state
    then if is_agent_controlled m.control_state
      then ok true
      else err (invalid_state StateReason.agent_unavailable)
    else if not (is_released m.handoff_state)
    then err (invalid_state StateReason.not_resumable)
    else ok false

abbrev pub return_control : Manager → Manager
return_control m = record m {
  control_state = agent_controlled;
  owner = agent_owner;
  handoff_state = idle;
  released_at = none;
  expired_at = none;
}

unfoldable pub resume : Host → Argument JsValue → Action ControlLeaseStatus
resume host options = do
  requester ← check (assert_object options Field.resume_request)
  expire_if_due host
  actor ← check (normalize_actor requester ControlLeaseActor.agent)
  throw_if (not (is_agent actor)) (invalid_state StateReason.only_agent_resumes)
  m ← get
  already ← check (may_resume m)
  modify (λ m. if already then m else return_control m)
  m ← get
  return (status_unsafe m)

unfoldable pub recover_expired : Host → Argument RecoveryRequest → Action ControlLeaseStatus
unfolding record_release
recover_expired host options = do
  request ← check (assert_object options Field.recovery_request)
  expire_if_due host
  actor ← check (normalize_actor request.actor ControlLeaseActor.user)
  check (assert_user_confirmation request.user_confirmed)
  throw_if (not (is_user actor)) (invalid_state StateReason.only_user_recovers)
  m ← get
  throw_if (not (is_expired m.handoff_state)) (invalid_state StateReason.nothing_expired)
  modify drop_lease
  record_release host

-- ===== src/Lease/Trace.antt =====
-- Histories of a manager: the calls of its methods, and the timers that fire.
use antigravity_browser.Base.{
  ℕ, ◌≡◌, Bool, true, false, List, [], ◌∷◌, arith, ◌&&◌, text_eq, ◌||◌, codes,
}
use antigravity_browser.Lease.Types.{
  ControlLeaseActor, HandoffState, pending, active, expired, Manager, Host, JsValue, HandoffRequest,
  RecoveryRequest, Argument, TokenArgument, positional, requested,
}
use antigravity_browser.Lease.Action.{ok}
use antigravity_browser.Lease.Checks.{is_true, confirmation, is_released, is_idle}
use antigravity_browser.Lease.Expiry.{expire_lease, expire_if_due, status, ManagerOptions, create}
use antigravity_browser.Lease.Handoff.{request_handoff, takeover, release, resume, recover_expired}
use antigravity_browser.Lease.Guards.{
  assert_can_act, dispose, assert_agent_control, assert_user_control,
}
use antigravity_browser.Lease.Invariant.{
  Inv, request_handoff-Inv, create-Inv, takeover-Inv, release-Inv, resume-Inv, recover_expired-Inv,
  expire_if_due-Inv, expire_lease-Inv, dispose-Inv,
}

pub data Call : Type 0 where
  hands_off : Argument HandoffRequest → Call
  takes_over : TokenArgument → Call
  releases : TokenArgument → Call
  resumes : Argument JsValue → Call
  recovers : Argument RecoveryRequest → Call
  reads_status : Call
  guards : ControlLeaseActor → JsValue → Call
  fires : ℕ → Call
  disposes : Call

-- The manager after a call, whether the call threw or not.
unfoldable pub step : Host → Manager → Call → Manager
step host m (hands_off o) = (request_handoff host o m).1
step host m (takes_over a) = (takeover host a m).1
step host m (releases a) = (release host a m).1
step host m (resumes a) = (resume host a m).1
step host m (recovers a) = (recover_expired host a m).1
step host m reads_status = (status host m).1
step host m (guards actor token) = (assert_can_act host actor token m).1
step host m (fires g) = (expire_lease host g m).1
step host m disposes = (dispose host m).1

unfoldable pub run : Host → Manager → List Call → Manager
run host m [] = m
run host m (c ∷ cs) = run host (step host m c) cs

-- Who a request says that it comes from: the user, where it says nothing.
abbrev pub names_user : JsValue → Bool
names_user JsValue.undefined = true
names_user (JsValue.text s) = text_eq s (codes "user")
names_user _ = false

-- Does the call say that it comes from the user, and that the user confirms it?
abbrev pub user_confirms : Call → Bool
user_confirms (releases (positional t c)) = is_true (confirmation c)
user_confirms (releases (requested r)) = names_user r.actor && is_true r.user_confirmed
user_confirms (recovers (Argument.given r)) = names_user r.actor && is_true r.user_confirmed
user_confirms _ = false

abbrev pub is_withheld : HandoffState → Bool
is_withheld pending = true
is_withheld active = true
is_withheld expired = true
is_withheld _ = false

-- Does a user who confirms it release control that was withheld by this call, in this state?
abbrev pub gives_back : Host → Manager → Call → Bool
gives_back host m c =
    is_withheld m.handoff_state && user_confirms c && is_released (step host m c).handoff_state

-- Is there such a call in a history?
unfoldable pub gave_back : Host → Manager → List Call → Bool
gave_back host m [] = false
gave_back host m (c ∷ cs) = gives_back host m c || gave_back host (step host m c) cs

-- Does the agent take control back by this call, after a release?
abbrev pub takes_back : Host → Manager → Call → Bool
takes_back host m (resumes (Argument.given JsValue.undefined)) =
    is_released m.handoff_state
    && is_idle (resume host (Argument.given JsValue.undefined) m).1.handoff_state
takes_back host m (resumes (Argument.given (JsValue.text s))) =
    text_eq s (codes "agent")
    && is_released m.handoff_state
    && is_idle (resume host (Argument.given (JsValue.text s)) m).1.handoff_state
takes_back host m _ = false

unfoldable pub took_back : Host → Manager → List Call → Bool
took_back host m [] = false
took_back host m (c ∷ cs) = takes_back host m c || took_back host (step host m c) cs

module _ (host : Host) where
  -- A write guard changes no more than the expiry check that it begins with.
  assert_agent_control-state :
      (m : Manager) → (assert_agent_control host m).1 ≡ (expire_if_due host m).1
  unfolding assert_agent_control
  assert_agent_control-state m = ground arith

  assert_user_control-state :
      (t : JsValue) (m : Manager) → (assert_user_control host t m).1 ≡ (expire_if_due host m).1
  unfolding assert_user_control
  assert_user_control-state t m = ground arith

  pub assert_can_act-state {ℓ} :
      (P : Manager → Type ℓ) (a : ControlLeaseActor) (t : JsValue) (m : Manager)
      → P m
      → P (expire_if_due host m).1
      → P (assert_can_act host a t m).1
  unfolding assert_can_act
  assert_can_act-state P ControlLeaseActor.agent t m h e = rw (assert_agent_control-state m) e
  assert_can_act-state P ControlLeaseActor.user JsValue.undefined m h e = h
  assert_can_act-state P ControlLeaseActor.user t m h e = rw (assert_user_control-state t m) e
  assert_can_act-state P ControlLeaseActor.system t m h e = h

  pub status-state : (m : Manager) → (status host m).1 ≡ (expire_if_due host m).1
  unfolding status
  status-state m = ground arith

  step-Inv : (m : Manager) (c : Call) → Inv m → Inv (step host m c)
  unfolding step status assert_can_act
  step-Inv m (hands_off o) v = request_handoff-Inv host o m v
  step-Inv m (takes_over a) v = takeover-Inv host a m v
  step-Inv m (releases a) v = release-Inv host a m v
  step-Inv m (resumes a) v = resume-Inv host a m v
  step-Inv m (recovers a) v = recover_expired-Inv host a m v
  step-Inv m reads_status v = rw (status-state m) (expire_if_due-Inv host m v)
  step-Inv m (guards actor token) v =
      assert_can_act-state Inv actor token m v (expire_if_due-Inv host m v)
  step-Inv m (fires g) v = expire_lease-Inv host g m v
  step-Inv m disposes v = dispose-Inv host m v

  pub run-Inv : (m : Manager) (cs : List Call) → Inv m → Inv (run host m cs)
  unfolding run
  run-Inv m [] v = v
  run-Inv m (c ∷ cs) v = run-Inv (step host m c) cs (step-Inv m c v)

  -- Whatever is called, and whenever its timers fire, a manager that was constructed keeps its
  -- invariant: control and owner follow the handoff state; a pending or active handoff has a lease
  -- and a timer for that very lease; an expired one has at most an erased digest; no lease outlives
  -- the hard cap.
  pub run-create-Inv :
      (o : ManagerOptions) (m : Manager) (cs : List Call)
      → create host o ≡ ok m
      → Inv (run host m cs)
  run-create-Inv o m cs e = run-Inv m cs (create-Inv host o m e)

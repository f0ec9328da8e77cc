-- ===== src/Lease/Protocol.antt =====
-- The guards against the state: who may write when, what an expiry ends, what a release allows.
use antigravity_browser.Base.{
  ℕ, suc, ◌≤◌, ◌≡◌, ◌↔◌, ◌⊎◌, true, none, some, map, arith, Text, List, false,
}
use antigravity_browser.Lease.Types.{
  Manager, Host, TokenArgument, ControlLeaseStatus, LeaseRecord, released, JsValue, inactive,
  pending, active, invalid_state, human_handoff_expired, expired, StateReason, positional, Argument,
}
use antigravity_browser.Lease.Guards.{assert_agent_control, can_agent_act, assert_user_control}
use antigravity_browser.Lease.Handoff.{release, takeover, takeover_gate, resume}
use antigravity_browser.Lease.Expiry.{
  expire_if_due, expire_lease, status, clear_digest, clear_expiry_timer, schedule_expiry,
}
use antigravity_browser.Lease.Action.{read_now, ok, err}
use antigravity_browser.Lease.Checks.{
  status_unsafe, normalize_token_request, normalize_actor, agent_write_allowed,
}
use antigravity_browser.Lease.Invariant.{Inv, expire_if_due-Inv}
use antigravity_browser.Lease.Trace.{Call, took_back, run}
use antigravity_browser.Lease.Released.{run-IsAway}

module _ (host : Host) where
  -- `assertAgentControl` lets the agent write exactly when `canAgentAct` says that it may.
  pub assert_agent_control-can_agent_act :
      (m : Manager)
      → Inv m
      → ((assert_agent_control host m).0 ≡ ok tt) ↔ ((can_agent_act host m).0 ≡ ok true)
  unfolding assert_agent_control can_agent_act status status_unsafe
  assert_agent_control-can_agent_act m v = ground (arith, expire_if_due-Inv host m v)

  expires_when_due :
      (m : Manager) (l : LeaseRecord) (t₀ t₁ t₂ : ℕ)
      → (m.handoff_state ≡ pending) ⊎ (m.handoff_state ≡ active)
      → m.current_lease ≡ some l
      → host.now m.clock_reads ≡ some t₀
      → host.now (suc m.clock_reads) ≡ some t₁
      → host.now (suc (suc m.clock_reads)) ≡ some t₂
      → l.expires_at ≤ t₀
      → l.expires_at ≤ t₁
      → ((expire_if_due host m).0 ≡ ok true)
        × ((expire_if_due host m).1.handoff_state ≡ expired)
        × ((expire_if_due host m).1.control_state ≡ inactive)
        × ((expire_if_due host m).1.expiry_timer ≡ none)
        × ((expire_if_due host m).1.current_lease
            ≡ some (record l { digest = map (λ _. 0) l.digest }))
  unfolding expire_if_due expire_lease read_now clear_digest clear_expiry_timer schedule_expiry
  expires_when_due m l t₀ t₁ t₂ live held r₀ r₁ r₂ d₀ d₁ = ground arith

  -- Once the clock has passed the deadline of a pending or active lease, a confirmed takeover and
  -- both write guards are refused as expired, the digest is erased and its timer is gone.
  pub deadline_ends_lease :
      (m : Manager) (l : LeaseRecord) (t₀ t₁ t₂ : ℕ) (t : Text) (token : JsValue)
      → (m.handoff_state ≡ pending) ⊎ (m.handoff_state ≡ active)
      → m.current_lease ≡ some l
      → host.now m.clock_reads ≡ some t₀
      → host.now (suc m.clock_reads) ≡ some t₁
      → host.now (suc (suc m.clock_reads)) ≡ some t₂
      → l.expires_at ≤ t₀
      → l.expires_at ≤ t₁
      → ((assert_agent_control host m).0 ≡ err human_handoff_expired)
        × ((assert_user_control host token m).0 ≡ err human_handoff_expired)
        × (((takeover host (positional t (JsValue.bool true)) m).0) ≡ err human_handoff_expired)
        × ((expire_if_due host m).1.current_lease
            ≡ some (record l { digest = map (λ _. 0) l.digest }))
        × ((expire_if_due host m).1.expiry_timer ≡ none)
  unfolding assert_agent_control assert_user_control takeover takeover_gate normalize_token_request
      normalize_actor
  deadline_ends_lease m l t₀ t₁ t₂ t token live held r₀ r₁ r₂ d₀ d₁ =
      ground (arith, expires_when_due m l t₀ t₁ t₂ live held r₀ r₁ r₂ d₀ d₁)

  release_lem :
      (a : TokenArgument) (m m' : Manager) (s : ControlLeaseStatus)
      → release host a m ≡ (ok s, m')
      → (m'.handoff_state ≡ released) × (m'.control_state ≡ inactive) × (m'.current_lease ≡ none)
  unfolding release read_now
  release_lem a m m' s e = ground arith

  released_now :
      (a : TokenArgument) (m m' : Manager) (s : ControlLeaseStatus) (t : Text) (v : JsValue)
      → release host a m ≡ (ok s, m')
      → ((assert_agent_control host m').0 ≡ err (invalid_state StateReason.agent_not_active))
        × ((assert_user_control host v m').0 ≡ err (invalid_state StateReason.user_not_active))
        × ((takeover host (positional t (JsValue.bool true)) m').0
            ≡ err (invalid_state StateReason.already_released))
        × (agent_write_allowed (resume host (Argument.given JsValue.undefined) m').1 ≡ true)
  unfolding assert_agent_control assert_user_control takeover takeover_gate resume
      normalize_token_request normalize_actor expire_if_due
  released_now a m m' s t v e = ground (arith, release_lem a m m' s e)

  -- After a successful release neither write guard passes and no token opens the lease again;
  -- whatever is called from then on and whenever timers fire, the agent may not write before a call
  -- of `resume` by the agent that finds the handoff released and makes it idle; and such a call right
  -- after the release lets the agent write.
  pub release-resume :
      (a : TokenArgument) (m m' : Manager) (s : ControlLeaseStatus) (t : Text) (v : JsValue)
      (cs : List Call)
      → release host a m ≡ (ok s, m')
      → ((assert_agent_control host m').0 ≡ err (invalid_state StateReason.agent_not_active))
        × ((assert_user_control host v m').0 ≡ err (invalid_state StateReason.user_not_active))
        × ((takeover host (positional t (JsValue.bool true)) m').0
            ≡ err (invalid_state StateReason.already_released))
        × ((took_back host m' cs ≡ true) ⊎ (agent_write_allowed (run host m' cs) ≡ false))
        × (agent_write_allowed (resume host (Argument.given JsValue.undefined) m').1 ≡ true)
  release-resume a m m' s t v cs e =
      let (k, l, q, w) = released_now a m m' s t v e in
      (k, l, q, run-IsAway host m' cs (ground (arith, release_lem a m m' s e)), w)

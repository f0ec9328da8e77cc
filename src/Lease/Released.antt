-- ===== src/Lease/Released.antt =====
-- A released handoff: control stays away from the agent until it resumes.
use antigravity_browser.Base.{ℕ, ◌≡◌, ◌⊎◌, inr, true, false, List, [], ◌∷◌, arith}
use antigravity_browser.Lease.Types.{
  Manager, Host, Argument, HandoffRequest, TokenArgument, RecoveryRequest, JsValue,
}
use antigravity_browser.Lease.Action.{read_now, check}
use antigravity_browser.Lease.Checks.{agent_write_allowed, is_idle, normalize_actor}
use antigravity_browser.Lease.Expiry.{expire_if_due}
use antigravity_browser.Lease.Invariant.{bind_keeps}
use antigravity_browser.Lease.Authority.{expire_if_due-state, expire_lease-state}
use antigravity_browser.Lease.Trace.{
  Call, step, run, takes_back, took_back, status-state, assert_can_act-state, hands_off, takes_over,
  releases, resumes, recovers, reads_status, guards, fires, disposes,
}
use antigravity_browser.Lease.Guards.{dispose}
use antigravity_browser.Lease.Handoff.{
  takeover, resume, recover_expired, request_handoff, issue_handoff, release, issue_token,
  begin_handoff, handoff_gate, takeover_gate, claim_lease, activate,
}

module _ (host : Host) where
  -- A handoff is open, or it is released.
  abbrev pub IsAway : Manager → Type 0
  IsAway m = is_idle m.handoff_state ≡ false

  expire_if_due-IsAway : (m : Manager) → IsAway m → IsAway (expire_if_due host m).1
  expire_if_due-IsAway m h = ground (arith, expire_if_due-state host m)

  issue_handoff-IsAway : (t : ℕ) (m : Manager) → IsAway m → IsAway (issue_handoff host t m).1
  unfolding issue_handoff read_now issue_token begin_handoff
  issue_handoff-IsAway t m h = ground arith

  request_handoff-IsAway :
      (o : Argument HandoffRequest) (m : Manager) → IsAway m → IsAway (request_handoff host o m).1
  unfolding request_handoff
  request_handoff-IsAway Argument.not_object m h = h
  request_handoff-IsAway (Argument.given r) m h =
      let h' = expire_if_due-IsAway m h in
      bind_keeps IsAway (expire_if_due host) _ m h' λ _ _.
        bind_keeps IsAway (check (handoff_gate r (expire_if_due host m).1)) (issue_handoff host) _
          h' λ t _. issue_handoff-IsAway t (expire_if_due host m).1 h'

  takeover-IsAway : (a : TokenArgument) (m : Manager) → IsAway m → IsAway (takeover host a m).1
  unfolding takeover takeover_gate claim_lease activate read_now
  takeover-IsAway a m h = ground (arith, expire_if_due-state host m)

  release-IsAway : (a : TokenArgument) (m : Manager) → IsAway m → IsAway (release host a m).1
  unfolding release read_now
  release-IsAway a m h = ground (arith, expire_if_due-state host m)

  recover_expired-IsAway :
      (a : Argument RecoveryRequest) (m : Manager) → IsAway m → IsAway (recover_expired host a m).1
  unfolding recover_expired read_now
  recover_expired-IsAway a m h = ground (arith, expire_if_due-state host m)

  resume-IsAway :
      (a : Argument JsValue) (m : Manager)
      → IsAway m
      → (takes_back host m (resumes a) ≡ true) ⊎ IsAway (resume host a m).1
  unfolding resume normalize_actor
  resume-IsAway (Argument.given JsValue.undefined) m h = ground (arith, expire_if_due-state host m)
  resume-IsAway (Argument.given (JsValue.text s)) m h = ground (arith, expire_if_due-state host m)
  resume-IsAway a m h = ground (arith, expire_if_due-state host m)

  dispose-IsAway : (m : Manager) → IsAway (dispose host m).1
  unfolding dispose read_now
  dispose-IsAway m = ground arith

  step-IsAway :
      (m : Manager) (c : Call) → IsAway m → (takes_back host m c ≡ true) ⊎ IsAway (step host m c)
  unfolding step
  step-IsAway m (hands_off o) h = inr (request_handoff-IsAway o m h)
  step-IsAway m (takes_over a) h = inr (takeover-IsAway a m h)
  step-IsAway m (releases a) h = inr (release-IsAway a m h)
  step-IsAway m (resumes a) h = resume-IsAway a m h
  step-IsAway m (recovers a) h = inr (recover_expired-IsAway a m h)
  step-IsAway m reads_status h = inr (rw (status-state host m) (expire_if_due-IsAway m h))
  step-IsAway m (guards actor token) h =
      inr (assert_can_act-state host IsAway actor token m h (expire_if_due-IsAway m h))
  step-IsAway m (fires g) h = ground (arith, expire_lease-state host g m)
  step-IsAway m disposes h = inr (dispose-IsAway m)

  pub run-IsAway :
      (m : Manager) (cs : List Call)
      → IsAway m
      → (took_back host m cs ≡ true) ⊎ (agent_write_allowed (run host m cs) ≡ false)
  unfolding run took_back
  run-IsAway m [] h = ground (arith, h)
  run-IsAway m (c ∷ cs) h = ground (arith, step-IsAway m c h, run-IsAway (step host m c) cs)

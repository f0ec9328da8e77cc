-- ===== src/Lease/Authority.antt =====
-- Who may take control from whom, over any history of calls and timers.
use antigravity_browser.Base.{ℕ, ◌≡◌, ◌⊎◌, inr, true, List, [], ◌∷◌, arith}
use antigravity_browser.Lease.Types.{
  Manager, Host, expired, Argument, TokenArgument, RecoveryRequest, JsValue, HandoffRequest,
}
use antigravity_browser.Lease.Action.{read_now, check}
use antigravity_browser.Lease.Checks.{agent_write_allowed, normalize_token_request, normalize_actor}
use antigravity_browser.Lease.Expiry.{expire_lease, expire_if_due}
use antigravity_browser.Lease.Invariant.{bind_keeps}
use antigravity_browser.Lease.Trace.{
  Call, hands_off, takes_over, releases, resumes, recovers, reads_status, guards, fires, disposes,
  step, run, gives_back, is_withheld, status-state, assert_can_act-state, gave_back,
}
use antigravity_browser.Lease.Guards.{dispose}
use antigravity_browser.Lease.Handoff.{
  takeover, resume, recover_expired, request_handoff, issue_handoff, release, issue_token,
  begin_handoff, handoff_gate, takeover_gate, claim_lease, activate,
}

module _ (host : Host) where
  -- An expiry check changes no handoff state but from PENDING or ACTIVE to EXPIRED.
  pub expire_lease-state :
      (g : ℕ) (m : Manager)
      → ((expire_lease host g m).1.handoff_state ≡ m.handoff_state)
        ⊎ ((expire_lease host g m).1.handoff_state ≡ expired)
  unfolding expire_lease read_now
  expire_lease-state g m = ground arith

  pub expire_if_due-state :
      (m : Manager)
      → ((expire_if_due host m).1.handoff_state ≡ m.handoff_state)
        ⊎ ((expire_if_due host m).1.handoff_state ≡ expired)
  unfolding expire_if_due read_now
  expire_if_due-state m = grind (arith, expire_lease-state)

  abbrev IsWithheld : Manager → Type 0
  IsWithheld m = is_withheld m.handoff_state ≡ true

  expire_if_due-IsWithheld : (m : Manager) → IsWithheld m → IsWithheld (expire_if_due host m).1
  expire_if_due-IsWithheld m h = ground (arith, expire_if_due-state m)

  issue_handoff-IsWithheld :
      (t : ℕ) (m : Manager) → IsWithheld m → IsWithheld (issue_handoff host t m).1
  unfolding issue_handoff read_now issue_token begin_handoff
  issue_handoff-IsWithheld t m h = ground arith

  request_handoff-IsWithheld :
      (o : Argument HandoffRequest) (m : Manager)
      → IsWithheld m
      → IsWithheld (request_handoff host o m).1
  unfolding request_handoff
  request_handoff-IsWithheld Argument.not_object m h = h
  request_handoff-IsWithheld (Argument.given r) m h =
      let h' = expire_if_due-IsWithheld m h in
      bind_keeps IsWithheld (expire_if_due host) _ m h' λ _ _.
        bind_keeps IsWithheld (check (handoff_gate r (expire_if_due host m).1)) (issue_handoff host)
          _ h' λ t _. issue_handoff-IsWithheld t (expire_if_due host m).1 h'

  takeover-IsWithheld :
      (a : TokenArgument) (m : Manager) → IsWithheld m → IsWithheld (takeover host a m).1
  unfolding takeover takeover_gate claim_lease activate read_now
  takeover-IsWithheld a m h = ground (arith, expire_if_due-state m)

  release-IsWithheld :
      (a : TokenArgument) (m : Manager)
      → IsWithheld m
      → (gives_back host m (releases a) ≡ true) ⊎ IsWithheld (release host a m).1
  unfolding release read_now normalize_token_request normalize_actor step
  release-IsWithheld a m h = ground (arith, expire_if_due-state m)

  resume-IsWithheld :
      (a : Argument JsValue) (m : Manager) → IsWithheld m → IsWithheld (resume host a m).1
  unfolding resume
  resume-IsWithheld a m h = ground (arith, expire_if_due-state m)

  recover_expired-IsWithheld :
      (a : Argument RecoveryRequest) (m : Manager)
      → IsWithheld m
      → (gives_back host m (recovers a) ≡ true) ⊎ IsWithheld (recover_expired host a m).1
  unfolding recover_expired read_now normalize_actor step
  recover_expired-IsWithheld a m h = ground (arith, expire_if_due-state m)

  dispose-IsWithheld : (m : Manager) → IsWithheld (dispose host m).1
  unfolding dispose read_now
  dispose-IsWithheld m = ground arith

  -- Control that is withheld stays so until a user who confirms it gives it back.
  step-IsWithheld :
      (m : Manager) (c : Call)
      → is_withheld m.handoff_state ≡ true
      → (gives_back host m c ≡ true) ⊎ (is_withheld (step host m c).handoff_state ≡ true)
  unfolding step
  step-IsWithheld m (hands_off o) h = inr (request_handoff-IsWithheld o m h)
  step-IsWithheld m (takes_over a) h = inr (takeover-IsWithheld a m h)
  step-IsWithheld m (releases a) h = release-IsWithheld a m h
  step-IsWithheld m (resumes a) h = inr (resume-IsWithheld a m h)
  step-IsWithheld m (recovers a) h = recover_expired-IsWithheld a m h
  step-IsWithheld m reads_status h = inr (rw (status-state host m) (expire_if_due-IsWithheld m h))
  step-IsWithheld m (guards actor token) h =
      inr (assert_can_act-state host IsWithheld actor token m h (expire_if_due-IsWithheld m h))
  step-IsWithheld m (fires g) h = ground (arith, expire_lease-state g m)
  step-IsWithheld m disposes h = inr (dispose-IsWithheld m)

  run-IsWithheld :
      (m : Manager) (cs : List Call)
      → IsWithheld m
      → (gave_back host m cs ≡ true) ⊎ IsWithheld (run host m cs)
  unfolding run gave_back
  run-IsWithheld m [] h = inr h
  run-IsWithheld m (c ∷ cs) h =
      ground (arith, step-IsWithheld m c h, run-IsWithheld (step host m c) cs)

  -- While a handoff is pending, taken over or expired, no history of calls and timers lets the
  -- agent write again unless a call of `release` or `recoverExpired` in it, made as the user (who is
  -- meant where no actor is named) and literally confirmed, released control that was withheld when
  -- it was made.
  pub regained_needs_user :
      (m : Manager) (cs : List Call)
      → is_withheld m.handoff_state ≡ true
      → agent_write_allowed (run host m cs) ≡ true
      → gave_back host m cs ≡ true
  regained_needs_user m cs h w = ground (arith, run-IsWithheld m cs h)

-- ===== src/Lease/Deadline.antt =====
-- Deadlines and the protocol's order: when a grant can be claimed, when a lease expires, which
-- timers matter, and what a release allows.
use antigravity_browser.Base.{
  ℕ, suc, ◌≤◌, ◌<◌, ◌≡◌, refl, Bool, true, false, Option, none, some, arith, ltb, Text,
}
use antigravity_browser.Lease.Types.{
  Manager, Host, TokenArgument, Argument, positional, HandoffRequest, LeaseRecord, JsValue,
  HandoffGrant, pending, active, user_controlled, ControlLeaseStatus,
}
use antigravity_browser.Lease.Expiry.{expire_lease, expire_if_due}
use antigravity_browser.Lease.Handoff.{
  takeover, takeover_gate, claim_lease, request_handoff, activate,
}
use antigravity_browser.Lease.Action.{read_now, ok}
use antigravity_browser.Lease.Checks.{
  normalize_token_request, normalize_actor, assert_token, matches_token_shape, status_unsafe,
}
use antigravity_browser.Lease.Tokens.{matches_lease_complete, request_handoff-inv}

-- Is the time before the deadline that a status shows?
abbrev pub is_before : ℕ → Option ℕ → Bool
is_before t none = false
is_before t (some d) = ltb t d

-- The positional call `takeover(token, true)`.
abbrev pub claim_with : Text → TokenArgument
claim_with t = positional t (JsValue.bool true)

module _ (host : Host) where
  not_due :
      (m : Manager) (l : LeaseRecord) (t : ℕ)
      → m.current_lease ≡ some l
      → host.now m.clock_reads ≡ some t
      → t < l.expires_at
      → m.handoff_state ≡ pending
      → expire_if_due host m ≡ (ok false, record m { clock_reads = suc m.clock_reads })
  unfolding expire_if_due read_now
  not_due m l t held now early live = ground arith

  -- A pending lease can be claimed with a token of its digest.
  claim_pending :
      (m : Manager) (l : LeaseRecord) (token : Text) (t now : ℕ)
      → m.handoff_state ≡ pending
      → m.current_lease ≡ some l
      → host.sha256 token ≡ l.digest
      → matches_token_shape (JsValue.text token) ≡ true
      → host.now m.clock_reads ≡ some t
      → t < l.expires_at
      → host.now (suc m.clock_reads) ≡ some now
      → ((takeover host (claim_with token) m).0
          ≡ ok (status_unsafe (takeover host (claim_with token) m).1))
        × ((takeover host (claim_with token) m).1.handoff_state ≡ active)
        × ((takeover host (claim_with token) m).1.control_state ≡ user_controlled)
  unfolding takeover takeover_gate claim_lease activate normalize_token_request normalize_actor
      assert_token read_now
  claim_pending m l token t now p held digest shape r₁ early r₂ =
      rw (not_due m l t held r₁ early p)
        (ground (arith, matches_lease_complete host l token digest shape))

  shown_deadline :
      (m : Manager) (s : ControlLeaseStatus) (l : LeaseRecord) (t : ℕ)
      → s ≡ status_unsafe m
      → m.current_lease ≡ some l
      → is_before t s.expires_at ≡ true
      → t < l.expires_at
  unfolding status_unsafe
  shown_deadline m s l t e held h = ground arith

  expire_lease-generation :
      (k : ℕ) (m : Manager) → (expire_lease host k m).1.next_generation ≡ m.next_generation
  unfolding expire_lease read_now
  expire_lease-generation k m = ground arith

  expire_if_due-generation :
      (m : Manager) → (expire_if_due host m).1.next_generation ≡ m.next_generation
  unfolding expire_if_due read_now
  expire_if_due-generation m = grind (arith, expire_lease-generation)

  -- The token of a grant opens it: claimed before the deadline, by a user who confirms it, it puts
  -- the user in control.
  pub handoff-takeover :
      (o : Argument HandoffRequest) (m m' : Manager) (g : HandoffGrant) (t now : ℕ)
      → request_handoff host o m ≡ (ok g, m')
      → host.now m'.clock_reads ≡ some t
      → is_before t g.status.expires_at ≡ true
      → host.now (suc m'.clock_reads) ≡ some now
      → ((takeover host (claim_with g.lease_token) m').0
          ≡ ok (status_unsafe (takeover host (claim_with g.lease_token) m').1))
        × ((takeover host (claim_with g.lease_token) m').1.handoff_state ≡ active)
        × ((takeover host (claim_with g.lease_token) m').1.control_state ≡ user_controlled)
  handoff-takeover o m m' g t now e r₁ early r₂ =
      let (r, ttl, given, gate, v) = request_handoff-inv host o m m' g e in
      claim_pending m' _ g.lease_token t now v.pended v.leased refl v.shaped r₁
        (shown_deadline m' g.status _ t v.told v.leased early) r₂

  -- Only the timer of the lease that is current can expire it: one that was set for an earlier
  -- handoff, and fires after a new one was granted, changes nothing.
  pub stale_timer :
      (o : Argument HandoffRequest) (m m' : Manager) (g : HandoffGrant) (old : ℕ)
      → request_handoff host o m ≡ (ok g, m')
      → old ≤ m.next_generation
      → expire_lease host old m' ≡ (ok tt, m')
  unfolding expire_lease
  stale_timer o m m' g old e h =
      let (r, ttl, given, gate, v) = request_handoff-inv host o m m' g e in
      ground (arith, v.leased, expire_if_due-generation m)

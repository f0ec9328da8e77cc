-- ===== src/Lease/Tokens.antt =====
-- The one-time token: what a grant promises, what a takeover proves, what a release ends.
use antigravity_browser.Lease.Types.{
  Manager, Host, HandoffGrant, LeaseRecord, JsValue, pending, Argument, HandoffRequest,
  TokenArgument, ControlLeaseStatus, ControlLeaseActor, active,
}
use antigravity_browser.Lease.Handoff.{
  issue_token, issue_handoff, begin_handoff, request_handoff, handoff_gate, takeover, claim_lease,
  takeover_gate, activate_lease_now,
}
use Prim.Native.Nat.{ℕ, suc}
use antigravity_browser.Lease.Checks.{
  matches_lease, matches_token_shape, Claim, normalize_token_request, normalize_actor,
  matches_token, assert_token, status_unsafe,
}
use antigravity_browser.Lease.Action.{read_now, ok, ok-ne-err, bind-inv, check, return}
use antigravity_browser.Base.{
  ℕ, suc, ◌+◌, ◌≡◌, refl, true, Option, none, some, arith, Text, or_else, text_eq_refl,
  text_eq_sound, Bool, false, if◌then◌else◌,
}
use antigravity_browser.Lease.Expiry.{expire_if_due}

-- The token and the lease match only by the digest.
pub matches_lease_sound :
    (host : Host) (o : Option LeaseRecord) (v : JsValue)
    → matches_lease host o v ≡ true
    → (l : LeaseRecord) × (t : Text) × (o ≡ some l)
      × (v ≡ JsValue.text t)
      × (host.sha256 t ≡ l.digest)
unfolding matches_lease
matches_lease_sound host none v h = cc
matches_lease_sound host (some l) (JsValue.text t) h =
    (l, t, refl, refl, ground (arith, text_eq_sound (host.sha256 t) l.digest))
matches_lease_sound host (some l) JsValue.undefined h = cc
matches_lease_sound host (some l) _ h = cc

pub matches_lease_complete :
    (host : Host) (l : LeaseRecord) (t : Text)
    → host.sha256 t ≡ l.digest
    → matches_token_shape (JsValue.text t) ≡ true
    → matches_lease host (some l) (JsValue.text t) ≡ true
unfolding matches_lease matches_token_shape
matches_lease_complete host l t e s = rw e (ground (arith, text_eq_refl l.digest))

module _ (host : Host) where
  -- What a successful handoff leaves behind.
  pub record Granted (m : Manager) (ttl : ℕ) (g : HandoffGrant) (m' : Manager) : Type 0 where
    pub issued_at : ℕ
    pub read : host.now m.clock_reads ≡ some issued_at
    pub pended : m'.handoff_state ≡ pending
    pub leased :
        m'.current_lease
        ≡ some (record {
          generation = suc m.next_generation;
          digest = host.sha256 g.lease_token;
          issued_at = issued_at;
          expires_at = issued_at + ttl;
          activated_at = none;
        })
    pub told : g.status ≡ status_unsafe m'
    pub shaped : matches_token_shape (JsValue.text g.lease_token) ≡ true

  -- The grant reports the state that it leaves.
  issue_handoff-told :
      (ttl : ℕ) (m m' : Manager) (g : HandoffGrant)
      → issue_handoff host ttl m ≡ (ok g, m')
      → g.status ≡ status_unsafe m'
  unfolding issue_handoff
  issue_handoff-told ttl m m' g e =
      let (t, _, e₁) = bind-inv (read_now host) _ m e in
      let (token, _, e₂) = bind-inv (issue_token host) _ (read_now host m).1 e₁ in
      ground (arith, e₂)

  issue_handoff-Granted :
      (ttl : ℕ) (m m' : Manager) (g : HandoffGrant)
      → issue_handoff host ttl m ≡ (ok g, m')
      → Granted m ttl g m'
  unfolding issue_handoff issue_token read_now begin_handoff matches_token_shape
  issue_handoff-Granted ttl m m' g e = record {
    issued_at = or_else (host.now m.clock_reads) 0;
    read = ground arith;
    pended = ground arith;
    leased = ground arith;
    told = issue_handoff-told ttl m m' g e;
    shaped = ground arith;
  }

  -- The checks of `requestHandoff` passed, in the state that the expiry check left.
  pub request_handoff-inv :
      (o : Argument HandoffRequest) (m m' : Manager) (g : HandoffGrant)
      → request_handoff host o m ≡ (ok g, m')
      → (r : HandoffRequest) × (ttl : ℕ) × (o ≡ Argument.given r)
        × (handoff_gate r (expire_if_due host m).1 ≡ ok ttl)
        × Granted (expire_if_due host m).1 ttl g m'
  unfolding request_handoff
  request_handoff-inv Argument.not_object m m' g e = absurd (ok-ne-err e)
  request_handoff-inv (Argument.given r) m m' g e =
      let (_, _, e₁) = bind-inv (expire_if_due host) _ m e in
      let (ttl, passed, e₂) =
        bind-inv (check (handoff_gate r (expire_if_due host m).1)) (issue_handoff host) _ e₁ in
      (r, ttl, refl, passed, issue_handoff-Granted ttl (expire_if_due host m).1 m' g e₂)

  takeover_gate_lem :
      (c : Claim) (m : Manager) (b : Bool)
      → takeover_gate host c m ≡ ok b
      → (normalize_actor c.actor ControlLeaseActor.user ≡ ok ControlLeaseActor.user)
        × (c.user_confirmed ≡ JsValue.bool true)
        × (b ≡ true → (matches_token host m c.lease_token ≡ true) × (m.handoff_state ≡ active))
  unfolding takeover_gate
  takeover_gate_lem c m b e = ground arith

  assert_token_lem :
      (v : JsValue) (m : Manager) (x : Unit {0})
      → assert_token host m v ≡ ok x
      → matches_token host m v ≡ true
  unfolding assert_token
  assert_token_lem v m x e = ground arith

  activate_lease_now_lem :
      (m m' : Manager) (s : ControlLeaseStatus)
      → activate_lease_now host m ≡ (ok s, m')
      → m'.handoff_state ≡ active
  unfolding activate_lease_now read_now
  activate_lease_now_lem m m' s e = ground arith

  claim_lease_lem :
      (v : JsValue) (m m' : Manager) (s : ControlLeaseStatus)
      → claim_lease host v m ≡ (ok s, m')
      → (matches_token host m v ≡ true) × (m'.handoff_state ≡ active)
  unfolding claim_lease
  claim_lease_lem v m m' s e =
      let (x, checked, e₁) = bind-inv (check (assert_token host m v)) _ m e in
      (assert_token_lem v m x checked, activate_lease_now_lem m m' s e₁)

  after_gate :
      (b : Bool) (v : JsValue) (m m' : Manager) (s : ControlLeaseStatus)
      → (b ≡ true → (matches_token host m v ≡ true) × (m.handoff_state ≡ active))
      → (if b then return (status_unsafe m) else claim_lease host v) m ≡ (ok s, m')
      → (matches_token host m v ≡ true) × (m'.handoff_state ≡ active)
  after_gate true v m m' s h e = ground (arith, h refl)
  after_gate false v m m' s h e = ground (arith, claim_lease_lem v m m' s e)

  -- A takeover that succeeds was confirmed literally by the user, who named a token whose SHA-256
  -- is the digest of the lease then held; it leaves the user in control.
  pub takeover_needs_token :
      (a : TokenArgument) (m m' : Manager) (s : ControlLeaseStatus)
      → takeover host a m ≡ (ok s, m')
      → (c : Claim) × (l : LeaseRecord) × (t : Text) × (normalize_token_request a ≡ ok c)
        × (normalize_actor c.actor ControlLeaseActor.user ≡ ok ControlLeaseActor.user)
        × (c.user_confirmed ≡ JsValue.bool true)
        × ((expire_if_due host m).1.current_lease ≡ some l)
        × (c.lease_token ≡ JsValue.text t)
        × (host.sha256 t ≡ l.digest)
        × (m'.handoff_state ≡ active)
  unfolding takeover
  takeover_needs_token a m m' s e =
      let (c, named, e₁) = bind-inv (check (normalize_token_request a)) _ m e in
      let (_, _, e₂) = bind-inv (expire_if_due host) _ m e₁ in
      let m₁ = (expire_if_due host m).1 in
      let (b, gate, e₃) = bind-inv (check (takeover_gate host c m₁)) _ m₁ e₂ in
      let (actor, confirmed, retried) = takeover_gate_lem c m₁ b gate in
      let (matched, activated) = after_gate b c.lease_token m₁ m' s retried e₃ in
      let (l, t, held, token, digest) =
        matches_lease_sound host m₁.current_lease c.lease_token matched in
      (c, l, t, named, actor, confirmed, held, token, digest, activated)

-- ===== src/Lease/Invariant.antt =====
-- What holds of the manager between two calls.
use antigravity_browser.Base.{
  ℕ, ◌+◌, ◌≤◌, ◌≡◌, refl, Bool, true, false, Option, none, some, List, [], ◌∷◌, map, arith, leb,
  ◌==◌, ◌&&◌, Option-cases, suc, inl, inr,
}
use antigravity_browser.Lease.Types.{
  ControlOwner, agent_owner, user_owner, no_owner, ControlState, agent_controlled, user_controlled,
  inactive, HandoffState, idle, pending, active, released, expired, LeaseRecord, Timer, Manager,
  Host, TokenArgument, Argument, RecoveryRequest, JsValue, HandoffRequest,
}
use antigravity_browser.Lease.Action.{read_now, ok, Action, Result, bind_result, ◌>>=◌, err, check}
use antigravity_browser.Lease.Expiry.{
  clear_expiry_timer, clear_digest, schedule_expiry, expire_lease, expire_lease_if_due,
  expire_if_due, ManagerOptions, create,
}
use antigravity_browser.Lease.Handoff.{
  request_handoff, takeover, release, resume, recover_expired, begin_handoff, issue_token,
  choose_ttl, issue_handoff, handoff_gate, takeover_gate, claim_lease, activate,
}
use antigravity_browser.Lease.Guards.{dispose}

-- Who controls the browser, and who owns it, in each handoff state.
abbrev pub control_of : HandoffState → ControlState
control_of idle = agent_controlled
control_of active = user_controlled
control_of _ = inactive

abbrev pub owner_of : HandoffState → ControlOwner
owner_of idle = agent_owner
owner_of active = user_owner
owner_of _ = no_owner

unfoldable pub all_zero : List ℕ → Bool
all_zero [] = true
all_zero (x ∷ xs) = (x == 0) && all_zero xs

abbrev armed_for : LeaseRecord → Option Timer → Bool
armed_for l none = false
armed_for l (some t) = t.generation == l.generation

-- What the manager may hold in each handoff state: while a handoff is pending or active a lease,
-- and a timer for that very lease; once it has expired at most an erased one; else none.
abbrev pub may_hold : HandoffState → Option LeaseRecord → Option Timer → Bool
may_hold pending (some l) t = armed_for l t
may_hold active (some l) t = armed_for l t
may_hold expired (some l) t = all_zero l.digest
may_hold idle none t = true
may_hold released none t = true
may_hold expired none t = true
may_hold _ _ t = false

-- The lease was issued under the current count, and within the hard cap.
abbrev pub is_bounded : Manager → Option LeaseRecord → Bool
is_bounded m none = true
is_bounded m (some l) =
    leb l.generation m.next_generation && leb l.expires_at (l.issued_at + m.max_ttl_ms)

pub record Inv (m : Manager) : Type 0 where
  pub control : m.control_state ≡ control_of m.handoff_state
  pub owned : m.owner ≡ owner_of m.handoff_state
  pub ttl_fits : m.ttl_ms ≤ m.max_ttl_ms
  pub held : may_hold m.handoff_state m.current_lease m.expiry_timer ≡ true
  pub bounded : is_bounded m m.current_lease ≡ true

all_zero-map : (xs : List ℕ) → all_zero (map (λ _. 0) xs) ≡ true
unfolding all_zero
all_zero-map [] = refl
all_zero-map (x ∷ xs) = all_zero-map xs

digest_of : Option LeaseRecord → List ℕ
digest_of none = []
digest_of (some l) = l.digest

bind_result_keeps {ℓ} :
    {A B : Type 0} (P : Manager → Type ℓ) (r : Result A) (f : A → Action B) (m : Manager)
    → P m
    → ((x : A) → r ≡ ok x → P (f x m).1)
    → P (bind_result r f m).1
bind_result_keeps P (ok x) f m h k = k x refl
bind_result_keeps P (err e) f m h k = h

-- A sequence keeps what its first part and its second, whatever it is given, keep.
pub bind_keeps {ℓ} :
    {A B : Type 0} (P : Manager → Type ℓ) (a : Action A) (f : A → Action B) (m : Manager)
    → P (a m).1
    → ((x : A) → (a m).0 ≡ ok x → P (f x (a m).1).1)
    → P ((a >>= f) m).1
bind_keeps P a f m = bind_result_keeps P (a m).0 f (a m).1

pub handoff_gate-le :
    (r : HandoffRequest) (m : Manager) (n : ℕ) → handoff_gate r m ≡ ok n → n ≤ m.max_ttl_ms
unfolding handoff_gate choose_ttl
handoff_gate-le r m n e = ground arith

module _ (host : Host) where
  pub expire_lease-Inv : (g : ℕ) (m : Manager) → Inv m → Inv (expire_lease host g m).1
  unfolding expire_lease clear_digest clear_expiry_timer schedule_expiry read_now digest_of
  expire_lease-Inv g m v = ground (arith, all_zero-map (digest_of m.current_lease))

  expire_lease_if_due-Inv :
      (l : LeaseRecord) (m : Manager) → Inv m → Inv (expire_lease_if_due host l m).1
  unfolding expire_lease_if_due read_now
  expire_lease_if_due-Inv l m v = ground (
    arith,
    expire_lease-Inv l.generation (record m { clock_reads = suc m.clock_reads })
        (record {
          control = v.control;
          owned = v.owned;
          ttl_fits = v.ttl_fits;
          held = v.held;
          bounded = v.bounded;
        }),
  )

  pub expire_if_due-Inv : (m : Manager) → Inv m → Inv (expire_if_due host m).1
  unfolding expire_if_due
  expire_if_due-Inv m v = elim (Option-cases m.current_lease) [
    | inl e ↦ rw (e, expire_if_due) v
    | inr (l, e) ↦ ground (arith, expire_lease_if_due-Inv l m v)
  ]

  begin_handoff-Inv :
      (t ttl : ℕ) (d : List ℕ) (m : Manager)
      → ttl ≤ m.max_ttl_ms
      → Inv m
      → Inv (begin_handoff t ttl d m)
  unfolding begin_handoff
  begin_handoff-Inv t ttl d m h v = ground arith

  -- The host is asked, and nothing else changes.
  asked : ℕ → ℕ → Manager → Manager
  asked c d m = record m { clock_reads = c; tokens_drawn = d }

  asked-Inv : (c d : ℕ) (m : Manager) → Inv m → Inv (asked c d m)
  unfolding asked
  asked-Inv c d m v = ground arith

  issue_token-asked :
      (m : Manager) → (issue_token host m).1 ≡ asked m.clock_reads (suc m.tokens_drawn) m
  unfolding issue_token asked
  issue_token-asked m = ground arith

  issue_handoff-Inv :
      (ttl : ℕ) (m : Manager) → ttl ≤ m.max_ttl_ms → Inv m → Inv (issue_handoff host ttl m).1
  unfolding issue_handoff read_now asked
  issue_handoff-Inv ttl m h v =
      bind_keeps Inv (read_now host) _ m (asked-Inv (suc m.clock_reads) m.tokens_drawn m v) λ t _.
        bind_keeps Inv (issue_token host) _ (asked (suc m.clock_reads) m.tokens_drawn m)
          (rw (issue_token-asked (asked (suc m.clock_reads) m.tokens_drawn m))
            (asked-Inv (suc m.clock_reads) (suc m.tokens_drawn) m v))
          λ token _. rw (issue_token-asked (asked (suc m.clock_reads) m.tokens_drawn m)) (
            begin_handoff-Inv t ttl token.1 _ h
              (asked-Inv (suc m.clock_reads) (suc m.tokens_drawn) m v))

  pub request_handoff-Inv :
      (o : Argument HandoffRequest) (m : Manager) → Inv m → Inv (request_handoff host o m).1
  unfolding request_handoff
  request_handoff-Inv Argument.not_object m v = v
  request_handoff-Inv (Argument.given r) m v =
      let v' = expire_if_due-Inv m v in
      bind_keeps Inv (expire_if_due host) _ m v' λ _ _.
        bind_keeps Inv (check (handoff_gate r (expire_if_due host m).1)) (issue_handoff host) _ v'
          λ ttl e. issue_handoff-Inv ttl _ (handoff_gate-le r _ ttl e) v'

  pub takeover-Inv : (a : TokenArgument) (m : Manager) → Inv m → Inv (takeover host a m).1
  unfolding takeover takeover_gate claim_lease activate read_now
  takeover-Inv a m v = ground (arith, expire_if_due-Inv m v)

  pub release-Inv : (a : TokenArgument) (m : Manager) → Inv m → Inv (release host a m).1
  unfolding release read_now
  release-Inv a m v = ground (arith, expire_if_due-Inv m v)

  pub resume-Inv : (a : Argument JsValue) (m : Manager) → Inv m → Inv (resume host a m).1
  unfolding resume read_now
  resume-Inv a m v = ground (arith, expire_if_due-Inv m v)

  pub recover_expired-Inv :
      (a : Argument RecoveryRequest) (m : Manager) → Inv m → Inv (recover_expired host a m).1
  unfolding recover_expired read_now
  recover_expired-Inv a m v = ground (arith, expire_if_due-Inv m v)

  pub dispose-Inv : (m : Manager) → Inv m → Inv (dispose host m).1
  unfolding dispose read_now
  dispose-Inv m v = ground arith

  pub create-Inv : (o : ManagerOptions) (m : Manager) → create host o ≡ ok m → Inv m
  unfolding create
  create-Inv o m e = ground arith

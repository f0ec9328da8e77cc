-- ===== src/Lease/Examples.antt =====
-- A manager under a host whose clock stands still, and the theorems at its states.
use antigravity_browser.Base.{ℕ, ◌≡◌, refl, inl, true, none, some, [], ◌∷◌, arith, Text, text_eq}
use antigravity_browser.Lease.Types.{
  Manager, Host, HandoffRequest, Argument, TokenArgument, JsValue, LeaseRecord, HandoffGrant,
  positional, inactive, generated_text, active, user_controlled, user_owner, pending, no_owner,
  released,
}
use antigravity_browser.Lease.Expiry.{fresh, ManagerOptions, expire_lease, create, expire_if_due}
use antigravity_browser.Lease.Handoff.{
  takeover, request_handoff, release, handoff_gate, takeover_gate, choose_ttl, resume, claim_lease,
  issue_handoff, issue_token, begin_handoff,
}
use antigravity_browser.Lease.Trace.{
  run, hands_off, step, takes_over, fires, releases, run-create-Inv, resumes, reads_status,
  gave_back,
}
use antigravity_browser.Lease.Checks.{
  status_unsafe, normalize_token_request, validate_duration, validate_token_bytes, normalize_actor,
  assert_token, matches_lease, matches_token_shape, validate_reason, agent_write_allowed,
}
use antigravity_browser.Lease.Invariant.{Inv, create-Inv}
use antigravity_browser.Lease.Protocol.{deadline_ends_lease, release-resume}
use antigravity_browser.Lease.Tokens.{takeover_needs_token}
use antigravity_browser.Lease.Deadline.{claim_with, stale_timer, handoff-takeover}
use antigravity_browser.Lease.Action.{ok, read_now}
use antigravity_browser.Lease.Authority.{regained_needs_user}

-- SHA-256 and base64url stand for themselves; the source always draws "k7".
abbrev host_at : ℕ → Host
host_at t = record {
  now = λ _. some t;
  draw = λ _ _. generated_text (107 ∷ 55 ∷ []);
  base64url = λ bytes. bytes;
  sha256 = λ s. 115 ∷ s;
}

abbrev host : Host
host = host_at 1000

abbrev defaults : ManagerOptions
defaults = record {
  ttl_ms = JsValue.undefined;
  max_ttl_ms = JsValue.null;
  token_bytes = JsValue.undefined;
}

abbrev started : Manager
started = fresh 300000 3600000 32

abbrev request : Argument HandoffRequest
request = Argument.given (record {
  actor = JsValue.undefined;
  reason = JsValue.undefined;
  ttl_ms = JsValue.natural 5000;
})

abbrev k7 : Text
k7 = 107 ∷ 55 ∷ []

abbrev lease : LeaseRecord
lease = record {
  generation = 1;
  digest = 115 ∷ k7;
  issued_at = 1000;
  expires_at = 6000;
  activated_at = none;
}

abbrev handed : Manager
handed = record started {
  control_state = inactive;
  handoff_state = pending;
  owner = no_owner;
  current_lease = some lease;
  expiry_timer = some (record { generation = 1; delay = 5000 });
  next_generation = 1;
  last_issued_at = some 1000;
  last_expires_at = some 6000;
  clock_reads = 2;
  tokens_drawn = 1;
}

abbrev grant : HandoffGrant
unfolding status_unsafe
grant = record { status = status_unsafe handed; lease_token = k7 }

handed_lem : request_handoff host request started ≡ (ok grant, handed)
unfolding request_handoff handoff_gate choose_ttl issue_handoff issue_token begin_handoff
    expire_if_due normalize_actor validate_reason validate_duration read_now status_unsafe
handed_lem = refl

abbrev taken : Manager
taken = record handed {
  control_state = user_controlled;
  handoff_state = active;
  owner = user_owner;
  current_lease = some (record lease { activated_at = some 1000 });
  last_activated_at = some 1000;
  clock_reads = 4;
}

abbrev by_user : TokenArgument
by_user = positional k7 (JsValue.bool true)

taken_lem : takeover host by_user handed ≡ (ok (status_unsafe taken), taken)
unfolding takeover takeover_gate claim_lease expire_if_due normalize_token_request normalize_actor
    assert_token matches_lease matches_token_shape read_now text_eq
taken_lem = refl

released_lem : ((release host by_user taken).1.handoff_state ≡ released)
unfolding release expire_if_due normalize_token_request normalize_actor assert_token matches_lease
    matches_token_shape read_now text_eq
released_lem = refl

created : create host defaults ≡ ok started
unfolding create validate_duration validate_token_bytes
created = refl

started-Inv : Inv started
started-Inv = create-Inv host defaults started created

run-create-Inv_example :
    Inv
      (run host started (hands_off request ∷ takes_over by_user ∷ fires 1 ∷ releases by_user ∷ []))
run-create-Inv_example = run-create-Inv host defaults started _ created

regained_needs_user_example :
    gave_back host taken (releases by_user ∷ resumes (Argument.given JsValue.undefined) ∷ []) ≡ true
unfolding run step release resume expire_if_due normalize_token_request normalize_actor assert_token
    matches_lease matches_token_shape read_now text_eq
regained_needs_user_example =
    regained_needs_user host taken
      (releases by_user ∷ resumes (Argument.given JsValue.undefined) ∷ []) refl refl

takeover_needs_token_example : taken.handoff_state ≡ active
takeover_needs_token_example = (takeover_needs_token host by_user handed taken _ taken_lem).9

handoff-takeover_example :
    ((takeover host (claim_with k7) handed).0
      ≡ ok (status_unsafe (takeover host (claim_with k7) handed).1))
    × ((takeover host (claim_with k7) handed).1.handoff_state ≡ active)
    × ((takeover host (claim_with k7) handed).1.control_state ≡ user_controlled)
unfolding status_unsafe
handoff-takeover_example =
    handoff-takeover host request started handed grant 1000 1000 handed_lem refl refl refl

stale_timer_example : expire_lease host 0 handed ≡ (ok tt, handed)
stale_timer_example = stale_timer host request started handed grant 0 handed_lem (omega arith)

deadline_ends_lease_example :
    (expire_if_due (host_at 6000) handed).1.current_lease
    ≡ some (record lease { digest = 0 ∷ 0 ∷ 0 ∷ [] })
deadline_ends_lease_example =
    (deadline_ends_lease (host_at 6000) handed lease 6000 6000 6000 k7 JsValue.undefined (inl refl)
      refl refl refl refl (omega arith) (omega arith)).3

release-resume_example :
    agent_write_allowed
      (resume host (Argument.given JsValue.undefined) (release host by_user taken).1).1
    ≡ true
unfolding release expire_if_due normalize_token_request normalize_actor assert_token matches_lease
    matches_token_shape read_now text_eq
release-resume_example =
    (release-resume host by_user taken _ _ k7 JsValue.undefined (reads_status ∷ []) refl).4

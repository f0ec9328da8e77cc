-- ===== src/Lease/Checks.antt =====
-- The argument checks, the token checks and the status of src/browser/control-lease.ts.
use antigravity_browser.Base.{
  ℕ, Bool, true, false, not, ◌&&◌, ◌||◌, Option, none, some, is_some, [], ◌∷◌, ltb, leb, ◌==◌,
  if◌then◌else◌, length, any, Text, text_eq,
}
use antigravity_browser.Lease.Types.{
  ControlLeaseActor, ControlOwner, agent_owner, user_owner, ControlState, agent_controlled,
  user_controlled, HandoffState, idle, pending, active, released, expired, JsValue,
  invalid_argument, Field, LeaseRecord, Manager, Host, Argument, given, not_object, TokenArgument,
  positional, requested, malformed, ControlLeaseStatus,
}
use antigravity_browser.Lease.Action.{Result, ok, err}

abbrev pub is_pending : HandoffState → Bool
is_pending pending = true
is_pending _ = false

abbrev pub is_active : HandoffState → Bool
is_active active = true
is_active _ = false

abbrev pub is_released : HandoffState → Bool
is_released released = true
is_released _ = false

abbrev pub is_expired : HandoffState → Bool
is_expired expired = true
is_expired _ = false

abbrev pub is_idle : HandoffState → Bool
is_idle idle = true
is_idle _ = false

abbrev pub is_user_controlled : ControlState → Bool
is_user_controlled user_controlled = true
is_user_controlled _ = false

abbrev pub is_agent_controlled : ControlState → Bool
is_agent_controlled agent_controlled = true
is_agent_controlled _ = false

abbrev pub is_agent_owner : ControlOwner → Bool
is_agent_owner agent_owner = true
is_agent_owner _ = false

abbrev pub is_user_owner : ControlOwner → Bool
is_user_owner user_owner = true
is_user_owner _ = false

abbrev pub is_agent : ControlLeaseActor → Bool
is_agent ControlLeaseActor.agent = true
is_agent _ = false

abbrev pub is_user : ControlLeaseActor → Bool
is_user ControlLeaseActor.user = true
is_user _ = false

abbrev pub default_ttl_ms : ℕ
default_ttl_ms = 300000

abbrev pub default_max_ttl_ms : ℕ
default_max_ttl_ms = 3600000

abbrev pub default_token_bytes : ℕ
default_token_bytes = 32

abbrev pub max_reason_length : ℕ
max_reason_length = 200

-- [\u0000-\u001f\u007f]
abbrev pub is_control : ℕ → Bool
is_control c = leb c 31 || c == 127

-- [\u0000-\u0008\u000b\u000c\u000e-\u001f\u007f]
abbrev pub is_reason_control : ℕ → Bool
is_reason_control c = leb c 8 || c == 11 || c == 12 || (leb 14 c && leb c 31) || c == 127

unfoldable pub validate_duration : JsValue → Field → Result ℕ
validate_duration (JsValue.natural n) f =
    if (n == 0) || ltb 2147000000 n then err (invalid_argument f) else ok n
validate_duration _ f = err (invalid_argument f)

unfoldable pub validate_token_bytes : JsValue → Result ℕ
validate_token_bytes (JsValue.natural n) =
    if ltb n 16 || ltb 128 n then err (invalid_argument Field.token_bytes) else ok n
validate_token_bytes _ = err (invalid_argument Field.token_bytes)

-- `value ?? fallback`.
abbrev pub defaulted : JsValue → ℕ → JsValue
defaulted JsValue.undefined n = JsValue.natural n
defaulted JsValue.null n = JsValue.natural n
defaulted v n = v

unfoldable pub validate_reason : JsValue → Result (Unit {0})
validate_reason JsValue.undefined = ok tt
validate_reason (JsValue.text s) =
    if ltb max_reason_length (length s) || any is_reason_control s
    then err (invalid_argument Field.reason)
    else ok tt
validate_reason _ = err (invalid_argument Field.reason)

abbrev pub agent_name : Text
agent_name = 97 ∷ 103 ∷ 101 ∷ 110 ∷ 116 ∷ []

abbrev pub user_name : Text
user_name = 117 ∷ 115 ∷ 101 ∷ 114 ∷ []

abbrev pub system_name : Text
system_name = 115 ∷ 121 ∷ 115 ∷ 116 ∷ 101 ∷ 109 ∷ []

unfoldable pub normalize_actor : JsValue → ControlLeaseActor → Result ControlLeaseActor
normalize_actor JsValue.undefined fallback = ok fallback
normalize_actor (JsValue.text s) fallback =
    if text_eq s agent_name
    then ok ControlLeaseActor.agent
    else if text_eq s user_name
    then ok ControlLeaseActor.user
    else if text_eq s system_name
    then ok ControlLeaseActor.system
    else err (invalid_argument Field.actor)
normalize_actor _ fallback = err (invalid_argument Field.actor)

abbrev pub confirmation : JsValue → JsValue
confirmation JsValue.undefined = JsValue.bool false
confirmation JsValue.null = JsValue.bool false
confirmation v = v

-- A `TokenRequest` whose `lease_token` key is there.
pub record Claim : Type 0 where
  pub actor : JsValue
  pub lease_token : JsValue
  pub user_confirmed : JsValue

unfoldable pub normalize_token_request : TokenArgument → Result Claim
normalize_token_request (positional token confirmed) = ok (record {
  actor = JsValue.undefined;
  lease_token = JsValue.text token;
  user_confirmed = confirmation confirmed;
})
normalize_token_request malformed = err (invalid_argument Field.request)
normalize_token_request (requested r) = elim r.lease_token [
  | none ↦ err (invalid_argument Field.lease_token)
  | some token ↦
      ok (record { actor = r.actor; lease_token = token; user_confirmed = r.user_confirmed })
]

abbrev pub assert_object {ℓ} : {A : Type ℓ} → Argument A → Field → Result A
assert_object (given a) f = ok a
assert_object not_object f = err (invalid_argument f)

abbrev pub is_true : JsValue → Bool
is_true (JsValue.bool true) = true
is_true _ = false

abbrev pub assert_user_confirmation : JsValue → Result (Unit {0})
assert_user_confirmation v =
    if is_true v then ok tt else err (invalid_argument Field.user_confirmed)

unfoldable pub matches_token_shape : JsValue → Bool
matches_token_shape (JsValue.text s) = not (length s == 0) && not (any is_control s)
matches_token_shape _ = false

-- SHA-256 of the candidate against the digest of the lease, after the lengths.
unfoldable pub matches_lease : Host → Option LeaseRecord → JsValue → Bool
matches_lease host (some lease) (JsValue.text s) =
    not (length s == 0)
    && (length (host.sha256 s) == length lease.digest)
    && text_eq (host.sha256 s) lease.digest
matches_lease host (some lease) _ = false
matches_lease host none v = false

abbrev pub matches_token : Host → Manager → JsValue → Bool
matches_token host m v = matches_lease host m.current_lease v

unfoldable pub assert_token : Host → Manager → JsValue → Result (Unit {0})
assert_token host m v =
    if not (matches_token_shape v)
    then err (invalid_argument Field.lease_token)
    else if not (matches_token host m v)
    then err (invalid_argument Field.lease_token)
    else ok tt

abbrev pub agent_write_allowed : Manager → Bool
agent_write_allowed m =
    is_agent_controlled m.control_state && is_idle m.handoff_state && is_agent_owner m.owner

-- The timestamp that the status shows: the lease's while there is one, the retained one after an
-- expiry that dropped it.
abbrev pub shown : Manager → (LeaseRecord → Option ℕ) → Option ℕ → Option ℕ
shown m field retained = elim m.current_lease [
  | some lease ↦ field lease
  | none ↦ if is_expired m.handoff_state then retained else none
]

unfoldable pub status_unsafe : Manager → ControlLeaseStatus
status_unsafe m = record {
  state = m.control_state;
  control_state = m.control_state;
  owner = m.owner;
  handoff_state = m.handoff_state;
  lease_state = m.handoff_state;
  phase = m.handoff_state;
  hard_stop = not (agent_write_allowed m);
  agent_write_allowed = agent_write_allowed m;
  user_control_active =
      is_user_controlled m.control_state && is_active m.handoff_state && is_user_owner m.owner;
  lease_active =
      is_some m.current_lease && (is_pending m.handoff_state || is_active m.handoff_state);
  has_active_lease =
      is_some m.current_lease && (is_pending m.handoff_state || is_active m.handoff_state);
  issued_at = shown m (λ l. some l.issued_at) m.last_issued_at;
  activated_at = shown m (λ l. l.activated_at) m.last_activated_at;
  expires_at = shown m (λ l. some l.expires_at) m.last_expires_at;
  released_at = m.released_at;
  expired_at = m.expired_at;
}

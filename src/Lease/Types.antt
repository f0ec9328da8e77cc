-- ===== src/Lease/Types.antt =====
-- The vocabulary and the state of src/browser/control-lease.ts, and what its host provides.
-- A millisecond time and a duration are native numbers; the wall clock, the timers, the random
-- source, SHA-256 and base64url are not code of the repository, so they are the record `Host`.
use antigravity_browser.Base.{ℕ, Bool, Option, List, Text}

pub data ControlLeaseActor : Type 0 where
  agent user system : ControlLeaseActor

pub data ControlOwner : Type 0 where
  agent_owner user_owner no_owner : ControlOwner

pub data ControlState : Type 0 where
  agent_controlled user_controlled inactive : ControlState

pub data HandoffState : Type 0 where
  idle pending active released expired user_active : HandoffState

-- A value that arrives from outside the type system: the code checks its run-time type.
pub data JsValue : Type 0 where
  undefined null : JsValue
  bool : Bool → JsValue
  text : Text → JsValue
  natural : ℕ → JsValue
  -- a negative, fractional or non-finite number
  other_number : JsValue
  object : JsValue

-- The messages of `invalidState`.
pub data StateReason : Type 0 where
  only_agent_hands_off already_pending resume_first : StateReason
  only_user_takes_over none_pending already_released lease_unavailable : StateReason
  only_user_releases user_not_active only_agent_resumes not_released : StateReason
  agent_unavailable not_resumable only_user_recovers nothing_expired : StateReason
  agent_not_active system_cannot_write : StateReason

-- The `field` of `invalidArgument`.
pub data Field : Type 0 where
  ttl_ms max_ttl_ms token_bytes clock random_token reason actor : Field
  lease_token user_confirmed request handoff_request resume_request recovery_request : Field

pub data ControlLeaseError : Type 0 where
  manual_takeover_active human_handoff_expired : ControlLeaseError
  invalid_state : StateReason → ControlLeaseError
  invalid_argument : Field → ControlLeaseError

pub record LeaseRecord : Type 0 where
  pub generation : ℕ
  pub digest : List ℕ
  pub issued_at : ℕ
  pub expires_at : ℕ
  pub activated_at : Option ℕ

-- A scheduled callback: `expireLease(generation)` after `delay`.
pub record Timer : Type 0 where
  pub generation : ℕ
  pub delay : ℕ

-- The private fields of the manager. `clock_reads` and `tokens_drawn` count the calls of the
-- host's clock and random source, whose answers may differ from call to call.
pub record Manager : Type 0 where
  pub ttl_ms : ℕ
  pub max_ttl_ms : ℕ
  pub token_bytes : ℕ
  pub control_state : ControlState
  pub handoff_state : HandoffState
  pub owner : ControlOwner
  pub current_lease : Option LeaseRecord
  pub expiry_timer : Option Timer
  pub next_generation : ℕ
  pub released_at : Option ℕ
  pub expired_at : Option ℕ
  pub last_issued_at : Option ℕ
  pub last_activated_at : Option ℕ
  pub last_expires_at : Option ℕ
  pub clock_reads : ℕ
  pub tokens_drawn : ℕ

-- What an injected random source may do.
pub data Generated : Type 0 where
  generated_bytes : List ℕ → Generated
  generated_text : Text → Generated
  generated_other : Generated
  source_failed : Generated

-- `now n` is the n-th reading of the clock, `none` where it is not a finite number.
pub record Host : Type 0 where
  pub now : ℕ → Option ℕ
  pub draw : ℕ → ℕ → Generated
  pub base64url : List ℕ → Text
  pub sha256 : Text → List ℕ

pub record HandoffRequest : Type 0 where
  pub actor : JsValue
  pub reason : JsValue
  pub ttl_ms : JsValue

-- The request object of `takeover` and `release`; `lease_token` is `none` if the key is absent.
pub record TokenRequest : Type 0 where
  pub actor : JsValue
  pub lease_token : Option JsValue
  pub user_confirmed : JsValue

pub record RecoveryRequest : Type 0 where
  pub actor : JsValue
  pub user_confirmed : JsValue

-- An argument that must be an object.
pub data Argument {ℓ} (A : Type ℓ) : Type ℓ where
  given : A → Argument A
  not_object : Argument A

-- `takeover(request)` or `takeover(leaseToken, userConfirmed)`.
pub data TokenArgument : Type 0 where
  positional : Text → JsValue → TokenArgument
  requested : TokenRequest → TokenArgument
  malformed : TokenArgument

pub record ControlLeaseStatus : Type 0 where
  pub state : ControlState
  pub control_state : ControlState
  pub owner : ControlOwner
  pub handoff_state : HandoffState
  pub lease_state : HandoffState
  pub phase : HandoffState
  pub hard_stop : Bool
  pub agent_write_allowed : Bool
  pub user_control_active : Bool
  pub lease_active : Bool
  pub has_active_lease : Bool
  pub issued_at : Option ℕ
  pub activated_at : Option ℕ
  pub expires_at : Option ℕ
  pub released_at : Option ℕ
  pub expired_at : Option ℕ

pub record HandoffGrant : Type 0 where
  pub status : ControlLeaseStatus
  pub open status use *
  pub lease_token : Text

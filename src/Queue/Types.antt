-- ===== src/Queue/Types.antt =====
-- The records of src/distributed/types.ts and the state of `MemoryQueueAdapter`
-- (src/distributed/queue-adapter.ts). Times are milliseconds; a result, an error message and an
-- extraction schema, which the queue only carries, are texts.
use antigravity_browser.Base.{ℕ, Bool, ◌≡◌, refl, ◌⊎◌, inl, inr, Option, List, Text, Dict}

pub data TaskPriority : Type 0 where
  low normal high critical : TaskPriority

pub data TaskExecutionMode : Type 0 where
  fetch browser : TaskExecutionMode

pub data TaskState : Type 0 where
  pending running completed failed retrying cancelled : TaskState

pub data TaskPhase : Type 0 where
  in_queue in_progress in_retry done broken withdrawn : TaskPhase

pub record TaskEvent : Type 0 where
  pub at : ℕ
  pub state : TaskState
  pub phase : TaskPhase
  pub message : Text
  pub worker_id : Option Text

pub record TaskRecord : Type 0 where
  pub id : Text
  pub tenant_id : Text
  pub project_id : Option Text
  pub run_id : Option Text
  pub url : Text
  pub mode : TaskExecutionMode
  pub priority : TaskPriority
  pub state : TaskState
  pub retries : ℕ
  pub max_retries : ℕ
  pub worker_id : Option Text
  pub lease_id : Option Text
  pub session_id : Option Text
  pub extraction_schema : Option Text
  pub timeout_ms : ℕ
  pub created_at : ℕ
  pub started_at : Option ℕ
  pub completed_at : Option ℕ
  pub outcome : Option Text
  pub error : Option Text
  pub error_code : Option Text
  pub duration_ms : Option ℕ
  pub events : Option (List TaskEvent)

pub record TaskListFilter : Type 0 where
  pub project_id : Option Text
  pub run_id : Option Text
  pub state : Option TaskState
  pub mode : Option TaskExecutionMode
  pub priority : Option TaskPriority
  pub created_after : Option ℕ
  pub created_before : Option ℕ

pub record WorkerNodeInfo : Type 0 where
  pub worker_id : Text
  pub tenant_id : Text
  pub hostname : Text
  pub capacity : ℕ
  pub active_tasks : ℕ
  pub healthy : Bool
  pub last_heartbeat : ℕ

pub record ClusterStatus : Type 0 where
  pub total_workers : ℕ
  pub healthy_workers : ℕ
  pub total_capacity : ℕ
  pub active_tasks : ℕ
  pub queued_tasks : ℕ
  pub completed_tasks : ℕ
  pub failed_tasks : ℕ

-- The private maps and the queue of keys.
pub record Adapter : Type 0 where
  pub tasks : Dict TaskRecord
  pub pending_queue : List Text
  pub workers : Dict WorkerNodeInfo
  pub seen_urls : Dict ℕ

-- Reasons in the details of an `INVALID_ARGUMENT` or `POLICY_DENIED`.
pub data Reason : Type 0 where
  invalid_task_id invalid_project_id invalid_run_id invalid_max_retries invalid_timeout : Reason
  invalid_task_mode invalid_task_priority : Reason
  missing_url_policy policy_threw : Reason
  batch_size duplicate_task_id duplicate_url_in_batch duplicate_url url_not_allowed : Reason

pub data TaskError : Type 0 where
  invalid_tenant lease_lost task_not_found task_running not_retryable : TaskError
  rejected : Reason → TaskError

pub data Result {ℓ} (A : Type ℓ) : Type ℓ where
  ok : A → Result A
  err : TaskError → Result A

-- An operation on the shared adapter: what it changed before it threw stays.
abbrev pub Action : Type 0 → Type 0
Action A = Adapter → Result A × Adapter

abbrev pub bind_result : {A B : Type 0} → Result A → (A → Action B) → Action B
bind_result (ok a) f q = f a q
bind_result (err e) f q = (err e, q)

infixl 5 ◌>>=◌ ◌>>◌
abbrev pub ◌>>=◌ : {A B : Type 0} → Action A → (A → Action B) → Action B
◌>>=◌ a f q = bind_result (a q).0 f (a q).1

abbrev pub ◌>>◌ : {A B : Type 0} → Action A → Action B → Action B
◌>>◌ a b = a >>= λ _. b

abbrev pub return : {A : Type 0} → A → Action A
return a q = (ok a, q)

abbrev pub check : {A : Type 0} → Result A → Action A
check r q = (r, q)

abbrev pub get : Action Adapter
get q = (ok q, q)

abbrev pub modify : (Adapter → Adapter) → Action (Unit {0})
modify f q = (ok tt, f q)

pub Result-cases :
    {A : Type 0} (r : Result A) → ((a : A) × (r ≡ ok a)) ⊎ ((e : TaskError) × (r ≡ err e))
Result-cases (ok a) = inl (a, refl)
Result-cases (err e) = inr (e, refl)

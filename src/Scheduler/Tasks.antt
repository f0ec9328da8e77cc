-- ===== src/Scheduler/Tasks.antt =====
-- The checks and the records of `DistributedMasterScheduler` (src/distributed/scheduler.ts). A
-- number that a caller gives stands by its floor; a generated task id is an argument.
use antigravity_browser.Base.{
  Amount, floor_of, below_zero, not_finite, ℕ, ◌-◌, min, max, Bool, true, not, ◌&&◌, ◌||◌, Option,
  none, some, List, [], ◌∷◌, ◌++◌, leb, ◌==◌, if◌then◌else◌, length, drop, Text, or_else,
}
use antigravity_browser.Queue.Types.{
  TaskRecord, TaskState, ok, err, Result, invalid_project_id, rejected, TaskPhase,
  TaskExecutionMode, in_queue, Reason, invalid_task_id, invalid_timeout, invalid_task_mode,
  invalid_task_priority, TaskPriority, invalid_run_id, TaskEvent, invalid_max_retries,
}
use antigravity_browser.Tenant.{is_tenant_id, is_alphanumeric}

pub record TaskDefinition : Type 0 where
  pub task_id : Option Text
  pub project_id : Option Text
  pub run_id : Option Text
  pub url : Text
  -- `some none` is a value that is none of the modes, or none of the priorities.
  pub mode : Option (Option TaskExecutionMode)
  pub priority : Option (Option TaskPriority)
  pub extraction_schema : Option Text
  pub max_retries : Option Amount
  pub timeout_ms : Option Amount

-- What `assertAllowed` of the server's URL policy may answer.
pub data Decision : Type 0 where
  denies allows throws : Decision
  allows_as : Text → Decision

-- [A-Za-z0-9_-]
abbrev is_id_char : ℕ → Bool
is_id_char c = is_alphanumeric c || c == 95 || c == 45

unfoldable pub all_id_chars : Text → Bool
all_id_chars [] = true
all_id_chars (c ∷ cs) = is_id_char c && all_id_chars cs

-- /^[A-Za-z0-9_-]{1,128}$/; `generated` is the id drawn where none is given.
unfoldable pub task_id : Option Text → Text → Result Text
task_id none generated = ok generated
task_id (some v) generated =
    if not (length v == 0) && leb (length v) 128 && all_id_chars v
    then ok v
    else err (rejected invalid_task_id)

-- /^[A-Za-z0-9][A-Za-z0-9._-]{0,63}$/, the pattern of a tenant id.
unfoldable pub task_label : Option Text → Reason → Result (Option Text)
task_label none reason = ok none
task_label (some v) reason = if is_tenant_id v then ok (some v) else err (rejected reason)

unfoldable pub task_mode : Option (Option TaskExecutionMode) → Result TaskExecutionMode
task_mode none = ok TaskExecutionMode.fetch
task_mode (some none) = err (rejected invalid_task_mode)
task_mode (some (some mode)) = ok mode

unfoldable pub task_priority : Option (Option TaskPriority) → Result TaskPriority
task_priority none = ok TaskPriority.normal
task_priority (some none) = err (rejected invalid_task_priority)
task_priority (some (some priority)) = ok priority

unfoldable pub max_retries : Option Amount → Result ℕ
max_retries none = ok 3
max_retries (some not_finite) = err (rejected invalid_max_retries)
max_retries (some below_zero) = ok 0
max_retries (some (floor_of n)) = ok (max 0 (min 10 n))

unfoldable pub timeout_ms : Option Amount → Result ℕ
timeout_ms none = ok 30000
timeout_ms (some not_finite) = err (rejected invalid_timeout)
timeout_ms (some below_zero) = ok 1000
timeout_ms (some (floor_of n)) = ok (max 1000 (min 120000 n))

-- A definition that has been checked.
pub record NormalizedTask : Type 0 where
  pub id : Text
  pub project_id : Option Text
  pub run_id : Option Text
  pub mode : TaskExecutionMode
  pub priority : TaskPriority
  pub max_retries : ℕ
  pub timeout_ms : ℕ

abbrev pub then_check : {A B : Type 0} → Result A → (A → Result B) → Result B
then_check (ok a) f = f a
then_check (err e) f = err e

unfoldable pub normalize_task : TaskDefinition → Text → Result NormalizedTask
normalize_task def generated = then_check (task_id def.task_id generated) λ id.
    then_check (task_label def.project_id invalid_project_id) λ project.
      then_check (task_label def.run_id invalid_run_id) λ run.
        then_check (task_mode def.mode) λ mode. then_check (task_priority def.priority) λ priority.
          then_check (max_retries def.max_retries) λ retries.
            then_check (timeout_ms def.timeout_ms) λ timeout. ok (record {
              id = id;
              project_id = project;
              run_id = run;
              mode = mode;
              priority = priority;
              max_retries = retries;
              timeout_ms = timeout;
            })

-- "任务已排队", "任务已由操作员取消" and "任务已重新排队".
abbrev queued_message : Text
queued_message = 20219 ∷ 21153 ∷ 24050 ∷ 25490 ∷ 38431 ∷ []

abbrev pub cancelled_message : Text
cancelled_message = 20219 ∷ 21153 ∷ 24050 ∷ 30001 ∷ 25805 ∷ 20316 ∷ 21592 ∷ 21462 ∷ 28040 ∷ []

abbrev pub retrying_message : Text
retrying_message = 20219 ∷ 21153 ∷ 24050 ∷ 37325 ∷ 26032 ∷ 25490 ∷ 38431 ∷ []

-- The record of a new task.
unfoldable pub new_record : NormalizedTask → TaskDefinition → Text → Text → ℕ → TaskRecord
new_record n def tenant url now = record {
  id = n.id;
  tenant_id = tenant;
  project_id = n.project_id;
  run_id = n.run_id;
  url = url;
  mode = n.mode;
  priority = n.priority;
  state = TaskState.pending;
  retries = 0;
  max_retries = n.max_retries;
  worker_id = none;
  lease_id = none;
  session_id = none;
  extraction_schema = def.extraction_schema;
  timeout_ms = n.timeout_ms;
  created_at = now;
  started_at = none;
  completed_at = none;
  outcome = none;
  error = none;
  error_code = none;
  duration_ms = none;
  events = some (
      record {
        at = now;
        state = TaskState.pending;
        phase = in_queue;
        message = queued_message;
        worker_id = none;
      }
      ∷ []);
}

-- `.slice(-n)`.
unfoldable pub slice_last {ℓ} : {A : Type ℓ} → ℕ → List A → List A
slice_last n xs = drop (length xs - n) xs

abbrev state_of : TaskPhase → TaskState
state_of TaskPhase.in_queue = TaskState.pending
state_of TaskPhase.in_progress = TaskState.running
state_of TaskPhase.in_retry = TaskState.retrying
state_of TaskPhase.done = TaskState.completed
state_of TaskPhase.broken = TaskState.failed
state_of TaskPhase.withdrawn = TaskState.cancelled

-- `task.workerId ? { workerId } : {}`.
abbrev truthy : Option Text → Option Text
truthy none = none
truthy (some []) = none
truthy (some (c ∷ s)) = some (c ∷ s)

unfoldable pub append_task_event : TaskRecord → TaskPhase → Text → ℕ → List TaskEvent
unfolding slice_last
append_task_event task phase message now = slice_last 50 (
    or_else task.events []
    ++ (record {
      at = now;
      state = state_of phase;
      phase = phase;
      message = message;
      worker_id = truthy task.worker_id;
    }
        ∷ []))

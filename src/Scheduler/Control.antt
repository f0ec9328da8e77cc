-- ===== src/Scheduler/Control.antt =====
-- `cancelTask`, `retryTask` and `getClusterStatus` over the memory queue
-- (src/distributed/scheduler.ts); the time is an argument.
use antigravity_browser.Base.{
  ℕ, ◌+◌, Bool, not, ◌&&◌, Option, none, some, List, [], ◌∷◌, ltb, if◌then◌else◌, length, Text,
}
use antigravity_browser.Queue.Types.{
  TaskRecord, TaskState, ok, err, Action, Result, return, check, ◌>>◌, ◌>>=◌, WorkerNodeInfo,
  task_not_found, ClusterStatus, task_running, withdrawn, not_retryable, in_retry,
}
use antigravity_browser.Scheduler.Tasks.{append_task_event, retrying_message, cancelled_message}
use antigravity_browser.Queue.Adapter.{get_task, enqueue_task, update_task, is_runnable}
use antigravity_browser.Queue.Claims.{keep, state_eq, list_workers, list_tasks}

abbrev found : Option TaskRecord → Result TaskRecord
found none = err task_not_found
found (some t) = ok t

unfoldable pub cancelled_record : TaskRecord → ℕ → TaskRecord
cancelled_record t now = record t {
  state = TaskState.cancelled;
  completed_at = some now;
  events = some (append_task_event t withdrawn cancelled_message now);
}

-- `cancelTask` of a task that was found.
unfoldable pub cancel_found : TaskRecord → ℕ → Action TaskRecord
cancel_found t now =
    if state_eq t.state TaskState.running
    then check (err task_running)
    else if state_eq t.state TaskState.cancelled
    then return t
    else (do update_task (cancelled_record t now); return (cancelled_record t now))

unfoldable pub cancel_task : Text → Option Text → ℕ → Action TaskRecord
cancel_task id tenant now = do o ← get_task id tenant; t ← check (found o); cancel_found t now

unfoldable pub retried_record : TaskRecord → ℕ → TaskRecord
retried_record t now = record t {
  state = TaskState.retrying;
  retries = 0;
  completed_at = none;
  error = none;
  error_code = none;
  events = some (append_task_event t in_retry retrying_message now);
}

-- `retryTask` of a task that was found.
unfoldable pub retry_found : TaskRecord → ℕ → Action TaskRecord
retry_found t now =
    if not (state_eq t.state TaskState.failed) && not (state_eq t.state TaskState.cancelled)
    then check (err not_retryable)
    else (do enqueue_task (retried_record t now); return (retried_record t now))

unfoldable pub retry_task : Text → Option Text → ℕ → Action TaskRecord
retry_task id tenant now = do o ← get_task id tenant; t ← check (found o); retry_found t now

-- `now - lastHeartbeat < 60_000`, on naturals.
abbrev is_fresh : ℕ → WorkerNodeInfo → Bool
is_fresh now w = w.healthy && ltb now (w.last_heartbeat + 60000)

unfoldable pub sum_by {ℓ} : {A : Type ℓ} → (A → ℕ) → List A → ℕ
sum_by f [] = 0
sum_by f (x ∷ xs) = f x + sum_by f xs

abbrev count_state : TaskState → List TaskRecord → ℕ
count_state s ts = length (keep (λ t. state_eq t.state s) ts)

unfoldable pub get_cluster_status : Option Text → ℕ → Action ClusterStatus
get_cluster_status tenant now = do
  workers ← list_workers tenant
  tasks ← list_tasks 500 tenant none
  return (record {
    total_workers = length workers;
    healthy_workers = length (keep (is_fresh now) workers);
    total_capacity = sum_by (λ w. w.capacity) (keep (is_fresh now) workers);
    active_tasks = sum_by (λ w. w.active_tasks) (keep (is_fresh now) workers);
    queued_tasks = length (keep (λ t. is_runnable t.state) tasks);
    completed_tasks = count_state TaskState.completed tasks;
    failed_tasks = count_state TaskState.failed tasks;
  })

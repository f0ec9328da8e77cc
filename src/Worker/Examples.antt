-- ===== src/Worker/Examples.antt =====
-- A task with one retry left that fails twice.
use antigravity_browser.Base.{◌≡◌, none, some, [], ◌∷◌, arith, codes}
use antigravity_browser.Worker.Settle.{Messages, settled}
use antigravity_browser.Worker.Attempts.{
  Failure, after_failures, redelivered, one_failure, failing_task_ends,
}
use antigravity_browser.Queue.Types.{TaskRecord, TaskExecutionMode, TaskPriority, TaskState}

abbrev texts : Messages
texts = record {
  running_text = codes "running";
  completed_text = codes "completed";
  retrying_text = λ n. codes "retrying";
  failed_text = codes "failed";
}

abbrev task : TaskRecord
task = record {
  id = codes "task_1";
  tenant_id = codes "acme";
  project_id = none;
  run_id = none;
  url = codes "https://www.example.org/";
  mode = TaskExecutionMode.fetch;
  priority = TaskPriority.normal;
  state = TaskState.pending;
  retries = 1;
  max_retries = 2;
  worker_id = none;
  lease_id = none;
  session_id = none;
  extraction_schema = none;
  timeout_ms = 30000;
  created_at = 1;
  started_at = none;
  completed_at = none;
  outcome = none;
  error = none;
  error_code = none;
  duration_ms = none;
  events = none;
}

abbrev refused : Failure
refused = record {
  worker = codes "w";
  lease = codes "l";
  start = 10;
  now = 20;
  message = codes "HTTP 503: Unavailable";
  code = none;
}

failing_task_ends_example :
    (u : TaskRecord) × (after_failures texts (refused ∷ []) task ≡ some u)
    × (u.retries ≡ 2)
    × ((one_failure texts refused u).0.state ≡ TaskState.failed)
    × (redelivered (one_failure texts refused u) ≡ none)
    × ((one_failure texts refused u).1 ≡ settled)
failing_task_ends_example = failing_task_ends texts (refused ∷ []) refused task (omega arith)

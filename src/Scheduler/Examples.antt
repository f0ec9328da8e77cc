-- ===== src/Scheduler/Examples.antt =====
-- Submissions to a queue that holds one record, a cancellation, and the theorems at them.
use antigravity_browser.Base.{
  starts_with, Amount, ◌≡◌, refl, ◌≢◌, false, Option, none, some, List, [], ◌∷◌, any, Text, text_eq,
  insert, delete, lookup,
}
use antigravity_browser.Queue.Types.{
  Adapter, TaskRecord, TaskState, ok, err, Result, lease_lost, TaskExecutionMode, TaskPriority,
}
use antigravity_browser.Scheduler.Tasks.{
  NormalizedTask, Decision, new_record, TaskDefinition, normalize_task, task_id, all_id_chars,
  task_mode, task_priority, task_label, max_retries, timeout_ms, append_task_event, slice_last,
}
use antigravity_browser.Scheduler.Accepted.{Submitted, submit_task-Submitted}
use antigravity_browser.Queue.Adapter.{
  dequeue_task, checked_tenant, empty, leased, enqueue_key, enqueue_task, includes, owns_lease,
  remove_pending_key, store_task, update_task, get_task, hand_out, take_runnable,
}
use antigravity_browser.Queue.History.{Call, run, step}
use antigravity_browser.Scheduler.Submit.{
  submit_task, assert_task_url, commit, claim_or_reject, compensated,
}
use antigravity_browser.Scheduler.Control.{cancelled_record, cancel_task, cancel_found}
use antigravity_browser.Scheduler.Lifecycle.{writes, cancel_task-dequeue_task}
use antigravity_browser.Queue.Fencing.{key_of}
use antigravity_browser.Scheduler.Outcomes.{Untouched, submit_task_refused}
use antigravity_browser.Tenant.{normalize_tenant_id, is_tenant_id, all_label, task_key}
use antigravity_browser.Queue.Claims.{
  claim_urls, any_claimed, is_claimed, claim_checked, delete_claims, release_urls, set_claims,
}

abbrev acme : Text
acme = 97 ∷ []

abbrev page : Text
page = 117 ∷ []

-- A policy that allows every URL.
abbrev lenient : Option (Text → Decision)
lenient = some (λ _. Decision.allows)

abbrev definition_of : Text → TaskDefinition
definition_of id = record {
  task_id = some id;
  project_id = none;
  run_id = none;
  url = page;
  mode = none;
  priority = none;
  extraction_schema = none;
  max_retries = some (Amount.floor_of 40);
  timeout_ms = none;
}

abbrev first : Text
first = 116 ∷ []

abbrev submission : Adapter → Result TaskRecord × Adapter
submission = submit_task lenient (definition_of first) (some acme) [] 1000

abbrev normal : NormalizedTask
normal = record {
  id = first;
  project_id = none;
  run_id = none;
  mode = TaskExecutionMode.fetch;
  priority = TaskPriority.normal;
  max_retries = 10;
  timeout_ms = 30000;
}

abbrev answered : TaskRecord
answered = new_record normal (definition_of first) acme page 1000

abbrev after : Adapter
after = (submission empty).1

submitted : submission empty ≡ (ok answered, after)
unfolding submit_task checked_tenant normalize_tenant_id is_tenant_id all_label normalize_task
    task_mode task_priority task_id all_id_chars task_label max_retries timeout_ms assert_task_url
    commit claim_or_reject claim_urls any_claimed is_claimed delete insert lookup text_eq
    enqueue_key enqueue_task includes owns_lease remove_pending_key store_task claim_checked
    delete_claims release_urls set_claims compensated new_record task_key
submitted = refl

acme_checked : checked_tenant (some acme) ≡ ok acme
unfolding checked_tenant antigravity_browser.Tenant.normalize_tenant_id
    antigravity_browser.Tenant.is_tenant_id antigravity_browser.Tenant.all_label
acme_checked = refl

submit_task-Submitted_example :
    Submitted lenient (definition_of first) acme 1000 empty after answered
submit_task-Submitted_example =
    submit_task-Submitted lenient (definition_of first) (some acme) acme [] 1000 empty after
      answered acme_checked submitted

-- A record of the same id, leased to a worker: to queue it again is refused.
abbrev busy : Adapter
busy = record empty {
  tasks = insert (key_of answered) (leased (119 ∷ []) (108 ∷ []) 500 answered) [];
}

fenced_off : (submission busy).0 ≡ err lease_lost
unfolding submit_task checked_tenant normalize_tenant_id is_tenant_id all_label normalize_task
    task_mode task_priority task_id all_id_chars task_label max_retries timeout_ms assert_task_url
    commit claim_or_reject claim_urls any_claimed is_claimed delete insert lookup text_eq
    enqueue_key enqueue_task includes owns_lease remove_pending_key store_task claim_checked
    delete_claims release_urls set_claims compensated new_record task_key
fenced_off = refl

submit_task_refused_example : Untouched acme 1000 busy (submission busy).1
submit_task_refused_example =
    submit_task_refused lenient (definition_of first) (some acme) [] 1000 busy acme lease_lost
      acme_checked fenced_off

-- The task is queued, cancelled, and another takes its place.
abbrev queued : List Call
queued = Call.enqueues answered ∷ []

abbrev withdrawn_task : TaskRecord
withdrawn_task = cancelled_record answered 1500

abbrev withdrawn_queue : Adapter
withdrawn_queue = (cancel_task first (some acme) 1500 (run empty queued)).1

cancelled :
    cancel_task first (some acme) 1500 (run empty queued) ≡ (ok withdrawn_task, withdrawn_queue)
unfolding submit_task checked_tenant normalize_tenant_id is_tenant_id all_label normalize_task
    task_mode task_priority task_id all_id_chars task_label max_retries timeout_ms assert_task_url
    commit claim_or_reject claim_urls any_claimed is_claimed delete insert lookup text_eq
    enqueue_key enqueue_task includes owns_lease remove_pending_key store_task claim_checked
    delete_claims release_urls set_claims compensated new_record task_key run step cancel_task
    cancel_found cancelled_record update_task get_task append_task_event slice_last dequeue_task
    hand_out take_runnable starts_with
cancelled = refl

abbrev second : TaskRecord
second = record answered { id = 50 ∷ [] }

abbrev queues_second : List Call
queues_second = Call.enqueues second ∷ []

second_quiet : any (writes (key_of withdrawn_task)) queues_second ≡ false
unfolding text_eq antigravity_browser.Tenant.task_key new_record cancelled_record
second_quiet = refl

abbrev last_queue : Adapter
last_queue =
    (dequeue_task (119 ∷ []) (some acme) 2000 (108 ∷ []) (run withdrawn_queue queues_second)).1

abbrev second_handed : TaskRecord
second_handed = leased (119 ∷ []) (108 ∷ []) 2000 second

handed :
    dequeue_task (119 ∷ []) (some acme) 2000 (108 ∷ []) (run withdrawn_queue queues_second)
    ≡ (ok (some second_handed), last_queue)
unfolding submit_task checked_tenant normalize_tenant_id is_tenant_id all_label normalize_task
    task_mode task_priority task_id all_id_chars task_label max_retries timeout_ms assert_task_url
    commit claim_or_reject claim_urls any_claimed is_claimed delete insert lookup text_eq
    enqueue_key enqueue_task includes owns_lease remove_pending_key store_task claim_checked
    delete_claims release_urls set_claims compensated new_record task_key run step cancel_task
    cancel_found cancelled_record update_task get_task append_task_event slice_last dequeue_task
    hand_out take_runnable starts_with
handed = refl

cancel_task-dequeue_task_example :
    (withdrawn_task.state ≡ TaskState.cancelled) × (key_of second_handed ≢ key_of withdrawn_task)
cancel_task-dequeue_task_example =
    cancel_task-dequeue_task queued first (some acme) 1500 withdrawn_queue withdrawn_task
      queues_second (119 ∷ []) (some acme) 2000 (108 ∷ []) last_queue second_handed cancelled
      second_quiet handed

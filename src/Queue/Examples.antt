-- ===== src/Queue/Examples.antt =====
-- A queue of one task that two workers ask for, and the theorems at its states.
use antigravity_browser.Base.{
  starts_with, ◌≡◌, refl, ◌≢◌, true, false, none, some, List, [], ◌∷◌, arith, if◌then◌else◌, any,
  Text, text_eq, lookup, insert,
}
use antigravity_browser.Queue.Types.{
  Adapter, TaskRecord, TaskState, ok, err, lease_lost, TaskExecutionMode, TaskPriority,
}
use antigravity_browser.Queue.Adapter.{
  leased, includes, dequeue_task, update_task, checked_tenant, empty, enqueue_task, store_task,
  enqueue_key, owns_lease, hand_out, take_runnable,
}
use antigravity_browser.Queue.History.{run, Call, Inv, step, run-empty-Inv}
use antigravity_browser.Queue.Claims.{claim_urls, release_urls, any_claimed, is_claimed}
use antigravity_browser.Queue.Fencing.{requeues, key_of}
use antigravity_browser.Tenant.{is_tenant_id, task_key, normalize_tenant_id, all_label}
use antigravity_browser.Queue.Leases.{handed_out_once, stale_write_refused, holder_writes}
use antigravity_browser.Queue.Urls.{claim_exclusive, claim-release}

abbrev acme : Text
acme = 97 ∷ []

abbrev page : Text
page = 117 ∷ []

abbrev task : TaskRecord
task = record {
  id = 116 ∷ [];
  tenant_id = acme;
  project_id = none;
  run_id = none;
  url = page;
  mode = TaskExecutionMode.fetch;
  priority = TaskPriority.normal;
  state = TaskState.pending;
  retries = 0;
  max_retries = 3;
  worker_id = none;
  lease_id = none;
  session_id = none;
  extraction_schema = none;
  timeout_ms = 30000;
  created_at = 1000;
  started_at = none;
  completed_at = none;
  outcome = none;
  error = none;
  error_code = none;
  duration_ms = none;
  events = none;
}

abbrev worker : Text
worker = 119 ∷ []

abbrev lease : Text
lease = 108 ∷ []

abbrev queued : List Call
queued = Call.enqueues task ∷ []

-- The queue after the worker was handed the task.
abbrev handed_queue : Adapter
handed_queue = (dequeue_task worker (some acme) 2000 lease (run empty queued)).1

abbrev handed_task : TaskRecord
handed_task = leased worker lease 2000 task

handed :
    dequeue_task worker (some acme) 2000 lease (run empty queued)
    ≡ (ok (some handed_task), handed_queue)
unfolding run step enqueue_task store_task enqueue_key includes owns_lease checked_tenant
    dequeue_task hand_out take_runnable is_tenant_id task_key normalize_tenant_id starts_with lookup
    insert all_label text_eq
handed = refl

run-empty-Inv_example : Inv (run empty queued)
run-empty-Inv_example = run-empty-Inv queued

abbrev rival : Text
rival = 114 ∷ []

abbrev rival_lease : Text
rival_lease = 109 ∷ []

-- Meanwhile a rival finds the queue empty, and the worker beats.
abbrev meanwhile : List Call
meanwhile =
    Call.dequeues rival (some acme) 2500 rival_lease
    ∷ Call.claims (page ∷ []) 60 (some acme) 2600
    ∷ []

abbrev rival_write : TaskRecord
rival_write = leased rival rival_lease 2500 task

abbrev finished : TaskRecord
finished = record handed_task { state = TaskState.completed; completed_at = some 3000 }

tenant_ok : is_tenant_id acme ≡ true
unfolding is_tenant_id all_label
tenant_ok = refl

quiet : any (requeues (key_of handed_task)) meanwhile ≡ false
quiet = refl

stale_write_refused_example :
    update_task rival_write (run handed_queue meanwhile)
    ≡ (err lease_lost, run handed_queue meanwhile)
unfolding text_eq
stale_write_refused_example =
    stale_write_refused queued worker (some acme) 2000 lease handed_queue handed_task meanwhile
      handed quiet rival_write refl tenant_ok refl

holder_writes_example :
    ((update_task finished (run handed_queue meanwhile)).0 ≡ ok tt)
    × (lookup (key_of handed_task) (update_task finished (run handed_queue meanwhile)).1.tasks
        ≡ some finished)
unfolding text_eq
holder_writes_example =
    holder_writes queued worker (some acme) 2000 lease handed_queue handed_task meanwhile handed
      quiet finished refl tenant_ok refl

-- A second task, queued after the first was handed out, goes to the rival.
abbrev second : TaskRecord
second = record task { id = 50 ∷ []; url = 118 ∷ [] }

abbrev queues_second : List Call
queues_second = Call.enqueues second ∷ []

abbrev second_queue : Adapter
second_queue = (dequeue_task rival (some acme) 2500 rival_lease (run handed_queue queues_second)).1

abbrev second_handed : TaskRecord
second_handed = leased rival rival_lease 2500 second

handed_second :
    dequeue_task rival (some acme) 2500 rival_lease (run handed_queue queues_second)
    ≡ (ok (some second_handed), second_queue)
unfolding run step enqueue_task store_task enqueue_key includes owns_lease checked_tenant
    dequeue_task hand_out take_runnable is_tenant_id task_key normalize_tenant_id starts_with lookup
    insert all_label text_eq
handed_second = refl

second_quiet : any (requeues (key_of handed_task)) queues_second ≡ false
unfolding task_key text_eq
second_quiet = refl

handed_out_once_example : key_of second_handed ≢ key_of handed_task
handed_out_once_example =
    handed_out_once queued worker (some acme) 2000 lease handed_queue handed_task queues_second
      handed second_quiet rival (some acme) 2500 rival_lease second_queue second_handed
      handed_second

abbrev claimed_queue : Adapter
claimed_queue = (claim_urls (page ∷ []) 60 (some acme) 1000 empty).1

claimed : claim_urls (page ∷ []) 60 (some acme) 1000 empty ≡ (ok true, claimed_queue)
unfolding claim_urls checked_tenant normalize_tenant_id is_tenant_id any_claimed is_claimed lookup
    all_label
claimed = refl

named : includes page (page ∷ []) ≡ true
unfolding includes text_eq
named = refl

claim_exclusive_example :
    claim_urls (page ∷ []) 60 (some acme) 50000 claimed_queue ≡ (ok false, claimed_queue)
claim_exclusive_example =
    claim_exclusive (page ∷ []) (page ∷ []) 60 60 (some acme) 1000 50000 empty claimed_queue page
      claimed named named (ground arith) (ground arith)

was_refused : (claim_urls (page ∷ []) 60 (some acme) 50000 claimed_queue).0 ≢ ok true
was_refused e = ground (arith, e, claim_exclusive_example)

acme_checked : checked_tenant (some acme) ≡ ok acme
unfolding checked_tenant normalize_tenant_id is_tenant_id all_label
acme_checked = refl

claim-release_example :
    ((release_urls (page ∷ []) (some acme) claimed_queue).0 ≡ ok tt)
    × (lookup (task_key acme page) (release_urls (page ∷ []) (some acme) claimed_queue).1.seen_urls
        ≡ (if includes page (page ∷ []) then none else lookup (task_key acme page) empty.seen_urls))
claim-release_example =
    claim-release (page ∷ []) 60 (some acme) acme 1000 empty claimed_queue page acme_checked claimed

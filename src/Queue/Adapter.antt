-- ===== src/Queue/Adapter.antt =====
-- The task operations of `MemoryQueueAdapter` (src/distributed/queue-adapter.ts). The time and the
-- fresh lease id that an operation draws are its arguments.
use antigravity_browser.Base.{
  starts_with, ℕ, Bool, true, false, ◌&&◌, ◌||◌, Option, none, some, List, [], ◌∷◌, ◌++◌,
  if◌then◌else◌, Text, text_eq, insert, Dict, lookup,
}
use antigravity_browser.Queue.Types.{
  Adapter, TaskRecord, TaskState, ok, err, Action, lease_lost, invalid_tenant, Result, return, ◌>>◌,
  ◌>>=◌, check, modify, get,
}
use antigravity_browser.Tenant.{task_key, normalize_tenant_id}

abbrev pub empty : Adapter
empty = record { tasks = []; pending_queue = []; workers = []; seen_urls = [] }

abbrev pub option_eq : Option Text → Option Text → Bool
option_eq none none = true
option_eq (some a) (some b) = text_eq a b
option_eq _ _ = false

-- PENDING or RETRYING.
abbrev pub is_runnable : TaskState → Bool
is_runnable TaskState.pending = true
is_runnable TaskState.retrying = true
is_runnable _ = false

abbrev pub is_running : TaskState → Bool
is_running TaskState.running = true
is_running _ = false

-- `includes`.
unfoldable pub includes : Text → List Text → Bool
includes k [] = false
includes k (j ∷ q) = text_eq j k || includes k q

-- `removePendingKey`: every occurrence.
unfoldable pub remove_pending_key : Text → List Text → List Text
remove_pending_key k [] = []
remove_pending_key k (j ∷ q) =
    if text_eq j k then remove_pending_key k q else j ∷ remove_pending_key k q

-- Does an update by `incoming` respect the lease of `existing`?
unfoldable pub owns_lease : Option TaskRecord → TaskRecord → Bool
owns_lease none incoming = true
owns_lease (some existing) incoming = elim existing.lease_id [
  | none ↦ true
  | some lease ↦
      option_eq incoming.lease_id (some lease) && option_eq incoming.worker_id existing.worker_id
]

-- `normalizeTenantId`, throwing.
unfoldable pub checked_tenant : Option Text → Result Text
checked_tenant v = elim (normalize_tenant_id v) [ none ↦ err invalid_tenant | some t ↦ ok t ]

unfoldable pub enqueue_key : TaskState → Text → List Text → List Text
enqueue_key s k q =
    if is_runnable s then if includes k q then q else q ++ (k ∷ []) else remove_pending_key k q

-- `assertLeaseOwnership`, and the write that follows it.
unfoldable pub store_task : TaskRecord → Action (Unit {0})
store_task task q =
    let key = task_key task.tenant_id task.id in
    if owns_lease (lookup key q.tasks) task
    then (ok tt, record q { tasks = insert key task q.tasks })
    else (err lease_lost, q)

unfoldable pub enqueue_task : TaskRecord → Action (Unit {0})
enqueue_task task = do
  tenant ← check (checked_tenant (some task.tenant_id))
  store_task task
  modify (λ q. record q {
    pending_queue = enqueue_key task.state (task_key task.tenant_id task.id) q.pending_queue;
  })

unfoldable pub enqueue_batch : List TaskRecord → Action (Unit {0})
enqueue_batch [] = return tt
enqueue_batch (t ∷ ts) = enqueue_task t >> enqueue_batch ts

unfoldable pub update_task : TaskRecord → Action (Unit {0})
update_task task = do tenant ← check (checked_tenant (some task.tenant_id)); store_task task

-- The record that a worker is handed.
abbrev pub leased : Text → Text → ℕ → TaskRecord → TaskRecord
leased worker lease now task = record task {
  state = TaskState.running;
  started_at = some now;
  worker_id = some worker;
  lease_id = some lease;
}

-- A task that is there and may be run.
abbrev pub runnable : Option TaskRecord → Option TaskRecord
runnable none = none
runnable (some t) = if is_runnable t.state then some t else none

-- The search of `dequeueTask`: the first key of the tenant whose task may be run, and the queue
-- without it and without the keys of the tenant that were skipped on the way.
unfoldable pub take_runnable :
    Text → Dict TaskRecord → List Text → Option (Text × TaskRecord) × List Text
take_runnable prefix tasks [] = (none, [])
take_runnable prefix tasks (k ∷ q) =
    let rest = take_runnable prefix tasks q in
    if starts_with prefix k
    then elim (runnable (lookup k tasks)) [ none ↦ rest | some t ↦ (some (k, t), q) ]
    else (rest.0, k ∷ rest.1)

-- What `dequeueTask` does with the answer of the search.
unfoldable pub hand_out :
    Text → ℕ → Text → Option (Text × TaskRecord) × List Text → Action (Option TaskRecord)
hand_out worker now lease (none, rest) q = (ok none, record q { pending_queue = rest })
hand_out worker now lease (some (k, t), rest) q = (
  ok (some (leased worker lease now t)),
  record q { pending_queue = rest; tasks = insert k (leased worker lease now t) q.tasks },
)

unfoldable pub dequeue_task : Text → Option Text → ℕ → Text → Action (Option TaskRecord)
unfolding hand_out
dequeue_task worker tenant now lease = do
  id ← check (checked_tenant tenant)
  q ← get
  hand_out worker now lease (take_runnable (task_key id []) q.tasks q.pending_queue)

-- A falsy text: absent or empty.
abbrev pub is_falsy : Option Text → Bool
is_falsy none = true
is_falsy (some []) = true
is_falsy (some (c ∷ s)) = false

abbrev pub holds_lease : Option TaskRecord → TaskRecord → Bool
holds_lease none task = false
holds_lease (some e) task =
    is_running e.state && option_eq e.worker_id task.worker_id && option_eq e.lease_id task.lease_id

unfoldable pub renew_task_lease : TaskRecord → Action Bool
renew_task_lease task =
    if is_falsy task.lease_id || is_falsy task.worker_id then return false else do
      tenant ← check (checked_tenant (some task.tenant_id))
      q ← get
      return (holds_lease (lookup (task_key tenant task.id) q.tasks) task)

unfoldable pub get_task : Text → Option Text → Action (Option TaskRecord)
get_task id tenant = do
  t ← check (checked_tenant tenant)
  q ← get
  return (lookup (task_key t id) q.tasks)

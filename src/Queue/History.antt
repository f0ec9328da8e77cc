-- ===== src/Queue/History.antt =====
-- Histories of the memory queue: any interleaving of the calls of its clients.
use antigravity_browser.Base.{
  ℕ, ◌≡◌, refl, inl, inr, Bool, true, ◌&&◌, Option, none, some, List, [], ◌∷◌, arith, Text, text_eq,
  Dict, insert, lookup, text_eq_iff, text_eq_refl,
}
use antigravity_browser.Queue.Types.{
  Adapter, TaskRecord, TaskState, bind_result, WorkerNodeInfo, Result-cases,
}
use antigravity_browser.Tenant.{task_key, is_tenant_id, normalize_tenant_id}
use antigravity_browser.Queue.Adapter.{
  store_task, enqueue_task, enqueue_key, enqueue_batch, update_task, hand_out, checked_tenant,
  dequeue_task, take_runnable, empty,
}
use antigravity_browser.Queue.Pending.{
  is_distinct, is_distinct-append, is_distinct-take, is_distinct-remove, take_runnable_found,
}
use antigravity_browser.Queue.Claims.{
  claim_urls, release_urls, mark_url_seen, is_url_seen, update_worker_heartbeat, close,
}

pub data Call : Type 0 where
  enqueues : TaskRecord → Call
  enqueues_batch : List TaskRecord → Call
  dequeues : Text → Option Text → ℕ → Text → Call
  updates : TaskRecord → Call
  claims : List Text → ℕ → Option Text → ℕ → Call
  releases : List Text → Option Text → Call
  marks : Text → ℕ → Option Text → ℕ → Call
  looks_up : Text → Option Text → ℕ → Call
  beats : WorkerNodeInfo → ℕ → Call
  closes : Call

unfoldable pub step : Adapter → Call → Adapter
step q (enqueues t) = (enqueue_task t q).1
step q (enqueues_batch ts) = (enqueue_batch ts q).1
step q (dequeues w tenant now lease) = (dequeue_task w tenant now lease q).1
step q (updates t) = (update_task t q).1
step q (claims us ttl tenant now) = (claim_urls us ttl tenant now q).1
step q (releases us tenant) = (release_urls us tenant q).1
step q (marks u ttl tenant now) = (mark_url_seen u ttl tenant now q).1
step q (looks_up u tenant now) = (is_url_seen u tenant now q).1
step q (beats w now) = (update_worker_heartbeat w now q).1
step q closes = (close q).1

unfoldable pub run : Adapter → List Call → Adapter
run q [] = q
run q (c ∷ cs) = run (step q c) cs

-- Every record is stored under the key of its own tenant and id.
unfoldable pub is_keyed : Dict TaskRecord → Bool
is_keyed [] = true
is_keyed ((k, t) ∷ m) =
    text_eq k (task_key t.tenant_id t.id) && is_tenant_id t.tenant_id && is_keyed m

pub record Inv (q : Adapter) : Type 0 where
  pub distinct : is_distinct q.pending_queue ≡ true
  pub keyed : is_keyed q.tasks ≡ true

is_keyed-insert :
    (k : Text) (t : TaskRecord) (m : Dict TaskRecord)
    → text_eq k (task_key t.tenant_id t.id) ≡ true
    → is_tenant_id t.tenant_id ≡ true
    → is_keyed m ≡ true
    → is_keyed (insert k t m) ≡ true
unfolding is_keyed insert
is_keyed-insert k t [] h v d = ground arith
is_keyed-insert k t ((j, u) ∷ m) h v d = ground (arith, text_eq_iff j k, is_keyed-insert k t m)

pub is_keyed-lookup :
    (k : Text) (t : TaskRecord) (m : Dict TaskRecord)
    → is_keyed m ≡ true
    → lookup k m ≡ some t
    → (k ≡ task_key t.tenant_id t.id) × (is_tenant_id t.tenant_id ≡ true)
unfolding is_keyed lookup
is_keyed-lookup k t [] d e = ground arith
is_keyed-lookup k t ((j, u) ∷ m) d e =
    ground
      (arith, text_eq_iff j k, text_eq_iff j (task_key u.tenant_id u.id), is_keyed-lookup k t m)

is_distinct-enqueue :
    (s : TaskState) (k : Text) (q : List Text)
    → is_distinct q ≡ true
    → is_distinct (enqueue_key s k q) ≡ true
unfolding enqueue_key
is_distinct-enqueue s k q d = ground (arith, is_distinct-append k q, is_distinct-remove k q)

store_task-Inv :
    (t : TaskRecord) (q : Adapter)
    → is_tenant_id t.tenant_id ≡ true
    → Inv q
    → Inv (store_task t q).1
unfolding store_task
store_task-Inv t q h v = ground (
  arith,
  is_keyed-insert (task_key t.tenant_id t.id) t q.tasks,
  text_eq_refl (task_key t.tenant_id t.id),
)

pub update_task-Inv : (t : TaskRecord) (q : Adapter) → Inv q → Inv (update_task t q).1
unfolding update_task store_task checked_tenant normalize_tenant_id
update_task-Inv t q v = ground (
  arith,
  is_keyed-insert (task_key t.tenant_id t.id) t q.tasks,
  text_eq_refl (task_key t.tenant_id t.id),
)

enqueue_task-Inv : (t : TaskRecord) (q : Adapter) → Inv q → Inv (enqueue_task t q).1
unfolding enqueue_task store_task checked_tenant normalize_tenant_id
enqueue_task-Inv t q v = ground (
  arith,
  is_keyed-insert (task_key t.tenant_id t.id) t q.tasks,
  text_eq_refl (task_key t.tenant_id t.id),
  is_distinct-enqueue t.state (task_key t.tenant_id t.id) q.pending_queue,
)

enqueue_batch-Inv : (ts : List TaskRecord) (q : Adapter) → Inv q → Inv (enqueue_batch ts q).1
unfolding enqueue_batch
enqueue_batch-Inv [] q v = v
enqueue_batch-Inv (t ∷ ts) q v =
    ground (arith, enqueue_task-Inv t q v, enqueue_batch-Inv ts (enqueue_task t q).1)

hand_out-Inv :
    (w lease prefix : Text) (now : ℕ) (a : Option (Text × TaskRecord) × List Text) (q : Adapter)
    → is_distinct q.pending_queue ≡ true
    → a ≡ take_runnable prefix q.tasks q.pending_queue
    → Inv q
    → Inv (hand_out w now lease a q).1
unfolding hand_out
hand_out-Inv w lease prefix now (none, rest) q d e v =
    ground (arith, is_distinct-take prefix q.tasks q.pending_queue d)
hand_out-Inv w lease prefix now (some (k, t), rest) q d e v =
    let found = take_runnable_found prefix q.tasks q.pending_queue k t d (ground arith) in
    let (key, valid) = is_keyed-lookup k t q.tasks v.keyed found.2 in
    record {
      distinct = ground (arith, is_distinct-take prefix q.tasks q.pending_queue d);
      keyed = is_keyed-insert k _ q.tasks ((text_eq_iff _ _).1 key) valid v.keyed;
    }

pub dequeue_task-Inv :
    (w : Text) (tenant : Option Text) (now : ℕ) (lease : Text) (q : Adapter)
    → Inv q
    → Inv (dequeue_task w tenant now lease q).1
unfolding dequeue_task
dequeue_task-Inv w tenant now lease q v = elim (Result-cases (checked_tenant tenant)) [
  | inl (id, e) ↦
      rw (e, bind_result) (hand_out-Inv w lease (task_key id []) now _ q v.distinct refl v)
  | inr (x, e) ↦ rw (e, bind_result) v
]

-- The other calls leave the records and the queue of keys alone.
keeps_tasks :
    (q r : Adapter) → r.tasks ≡ q.tasks → r.pending_queue ≡ q.pending_queue → Inv q → Inv r
keeps_tasks q r t p v = record { distinct = rw p v.distinct; keyed = rw t v.keyed }

empty-Inv : Inv empty
unfolding is_distinct is_keyed
empty-Inv = record { distinct = refl; keyed = refl }

step-Inv : (q : Adapter) (c : Call) → Inv q → Inv (step q c)
unfolding step claim_urls release_urls mark_url_seen is_url_seen update_worker_heartbeat close
step-Inv q (enqueues t) v = enqueue_task-Inv t q v
step-Inv q (enqueues_batch ts) v = enqueue_batch-Inv ts q v
step-Inv q (dequeues w tenant now lease) v = dequeue_task-Inv w tenant now lease q v
step-Inv q (updates t) v = update_task-Inv t q v
step-Inv q (claims us ttl tenant now) v = keeps_tasks q _ (ground arith) (ground arith) v
step-Inv q (releases us tenant) v = keeps_tasks q _ (ground arith) (ground arith) v
step-Inv q (marks u ttl tenant now) v = keeps_tasks q _ (ground arith) (ground arith) v
step-Inv q (looks_up u tenant now) v = keeps_tasks q _ (ground arith) (ground arith) v
step-Inv q (beats w now) v = keeps_tasks q _ (ground arith) (ground arith) v
step-Inv q closes v = empty-Inv

pub run-Inv : (q : Adapter) (cs : List Call) → Inv q → Inv (run q cs)
unfolding run
run-Inv q [] v = v
run-Inv q (c ∷ cs) v = run-Inv (step q c) cs (step-Inv q c v)

-- After any history of calls no key stands in the queue twice, and every record stands under the
-- key of its own tenant and id, the tenant well formed.
pub run-empty-Inv : (cs : List Call) → Inv (run empty cs)
run-empty-Inv cs = run-Inv empty cs empty-Inv

-- ===== src/Queue/Fencing.antt =====
-- The fencing tokens of the queue: who may write a task that a worker was handed.
use antigravity_browser.Base.{
  ℕ, ◌≡◌, refl, ◌↔◌, inl, inr, Bool, true, false, ◌&&◌, ◌||◌, Option, none, some, List, [], ◌∷◌,
  arith, any, Text, text_eq, lookup, lookup-insert, text_eq_iff, Dict,
}
use antigravity_browser.Queue.Types.{Adapter, TaskRecord, TaskState, bind_result, Result-cases}
use antigravity_browser.Tenant.{task_key}
use antigravity_browser.Queue.History.{
  Call, step, run, enqueues, enqueues_batch, dequeues, updates, claims, releases, marks, looks_up,
  beats, closes,
}
use antigravity_browser.Queue.Adapter.{
  is_runnable, option_eq, owns_lease, store_task, includes, enqueue_task, enqueue_key, update_task,
  hand_out, enqueue_batch, take_runnable, dequeue_task, leased, checked_tenant,
}
use antigravity_browser.Queue.Pending.{includes-append, includes-remove, includes-take}
use antigravity_browser.Queue.Claims.{
  claim_urls, release_urls, mark_url_seen, is_url_seen, update_worker_heartbeat,
}

abbrev pub key_of : TaskRecord → Text
key_of t = task_key t.tenant_id t.id

-- Does the record carry this worker's name and this lease?
abbrev pub is_held : Option TaskRecord → Text → Text → Bool
is_held none w l = false
is_held (some t) w l = option_eq t.worker_id (some w) && option_eq t.lease_id (some l)

-- The task of key `k` is leased, and waits for nobody.
pub record Fenced (k w l : Text) (q : Adapter) : Type 0 where
  pub held : is_held (lookup k q.tasks) w l ≡ true
  pub off_queue : includes k q.pending_queue ≡ false

-- Does the call put the task back into the queue, or forget everything?
abbrev pub requeues_any : Text → List TaskRecord → Bool
requeues_any k [] = false
requeues_any k (t ∷ ts) = (is_runnable t.state && text_eq (key_of t) k) || requeues_any k ts

abbrev pub requeues : Text → Call → Bool
requeues k (enqueues t) = is_runnable t.state && text_eq (key_of t) k
requeues k (enqueues_batch ts) = requeues_any k ts
requeues k closes = true
requeues k _ = false

pub option_eq_iff : (a b : Option Text) → (option_eq a b ≡ true) ↔ (a ≡ b)
option_eq_iff none none = (λ _. refl, λ _. refl)
option_eq_iff none (some b) = ground arith
option_eq_iff (some a) none = ground arith
option_eq_iff (some a) (some b) = ground (arith, text_eq_iff a b)

pub held_lem :
    (t : TaskRecord) (w l : Text)
    → is_held (some t) w l ≡ true
    → (t.worker_id ≡ some w) × (t.lease_id ≡ some l)
held_lem t w l h =
    ground (arith, option_eq_iff t.worker_id (some w), option_eq_iff t.lease_id (some l))

-- A write that the lease check lets pass leaves the lease as it was.
owns_lease-held :
    (o : Option TaskRecord) (t : TaskRecord) (w l : Text)
    → owns_lease o t ≡ true
    → is_held o w l ≡ true
    → is_held (some t) w l ≡ true
unfolding owns_lease
owns_lease-held none t w l h e = cc
owns_lease-held (some x) t w l h e =
    let (worker, lease) = held_lem x w l e in ground (arith, worker, lease)

-- Against a record that is leased, the lease check is the comparison with that lease.
pub owns_lease-is_held :
    (o : Option TaskRecord) (t : TaskRecord) (w l : Text)
    → is_held o w l ≡ true
    → owns_lease o t ≡ is_held (some t) w l
unfolding owns_lease
owns_lease-is_held none t w l h = cc
owns_lease-is_held (some x) t w l h =
    let (worker, lease) = held_lem x w l h in ground (arith, worker, lease)

store_task-held :
    (t : TaskRecord) (q : Adapter) (k w l : Text)
    → is_held (lookup k q.tasks) w l ≡ true
    → is_held (lookup k (store_task t q).1.tasks) w l ≡ true
unfolding store_task
store_task-held t q k w l h = ground (
  arith,
  lookup-insert (key_of t) k t q.tasks,
  text_eq_iff (key_of t) k,
  owns_lease-held (lookup k q.tasks) t w l,
)

store_task-queue :
    (t : TaskRecord) (q : Adapter) → (store_task t q).1.pending_queue ≡ q.pending_queue
unfolding store_task
store_task-queue t q = ground arith

update_task-Fenced :
    (t : TaskRecord) (q : Adapter) (k w l : Text)
    → Fenced k w l q
    → Fenced k w l (update_task t q).1
unfolding update_task
update_task-Fenced t q k w l f =
    ground (arith, store_task-held t q k w l f.held, store_task-queue t q)

enqueue_key-off :
    (s : TaskState) (j k : Text) (q : List Text)
    → (is_runnable s && text_eq j k) ≡ false
    → includes k q ≡ false
    → includes k (enqueue_key s j q) ≡ false
unfolding enqueue_key
enqueue_key-off s j k q h o =
    ground (arith, includes-append k j q, includes-remove k j q, text_eq_iff j k)

enqueue_task-Fenced :
    (t : TaskRecord) (q : Adapter) (k w l : Text)
    → (is_runnable t.state && text_eq (key_of t) k) ≡ false
    → Fenced k w l q
    → Fenced k w l (enqueue_task t q).1
unfolding enqueue_task
enqueue_task-Fenced t q k w l h f = ground (
  arith,
  store_task-held t q k w l f.held,
  store_task-queue t q,
  enqueue_key-off t.state (key_of t) k q.pending_queue h f.off_queue,
)

enqueue_batch-Fenced :
    (ts : List TaskRecord) (q : Adapter) (k w l : Text)
    → requeues_any k ts ≡ false
    → Fenced k w l q
    → Fenced k w l (enqueue_batch ts q).1
unfolding enqueue_batch
enqueue_batch-Fenced [] q k w l h f = f
enqueue_batch-Fenced (t ∷ ts) q k w l h f = ground (
  arith,
  enqueue_task-Fenced t q k w l (ground arith) f,
  enqueue_batch-Fenced ts (enqueue_task t q).1 k w l,
)

-- The search never finds a key that is not in the queue.
take_runnable-off :
    (prefix : Text) (tasks : Dict TaskRecord) (q : List Text) (k j : Text) (t : TaskRecord)
    → includes k q ≡ false
    → (take_runnable prefix tasks q).0 ≡ some (j, t)
    → text_eq j k ≡ false
unfolding take_runnable includes
take_runnable-off prefix tasks [] k j t o e = ground arith
take_runnable-off prefix tasks (i ∷ q) k j t o e =
    ground (arith, take_runnable-off prefix tasks q k j t)

take_runnable-rest_off :
    (prefix : Text) (tasks : Dict TaskRecord) (q : List Text) (k : Text)
    → includes k q ≡ false
    → includes k (take_runnable prefix tasks q).1 ≡ false
take_runnable-rest_off prefix tasks q k o = ground (arith, includes-take k prefix tasks q)

hand_out-Fenced :
    (v lease prefix : Text) (now : ℕ) (a : Option (Text × TaskRecord) × List Text) (q : Adapter)
    (k w l : Text)
    → a ≡ take_runnable prefix q.tasks q.pending_queue
    → Fenced k w l q
    → Fenced k w l (hand_out v now lease a q).1
unfolding hand_out
hand_out-Fenced v lease prefix now (none, rest) q k w l e f =
    ground (arith, take_runnable-rest_off prefix q.tasks q.pending_queue k f.off_queue)
hand_out-Fenced v lease prefix now (some (j, t), rest) q k w l e f = ground (
  arith,
  take_runnable-rest_off prefix q.tasks q.pending_queue k f.off_queue,
  take_runnable-off prefix q.tasks q.pending_queue k j t f.off_queue,
  lookup-insert j k (leased v lease now t) q.tasks,
)

dequeue_task-Fenced :
    (v : Text) (tenant : Option Text) (now : ℕ) (lease : Text) (q : Adapter) (k w l : Text)
    → Fenced k w l q
    → Fenced k w l (dequeue_task v tenant now lease q).1
unfolding dequeue_task
dequeue_task-Fenced v tenant now lease q k w l f = elim (Result-cases (checked_tenant tenant)) [
  | inl (id, e) ↦
      rw (e, bind_result) (hand_out-Fenced v lease (task_key id []) now _ q k w l refl f)
  | inr (x, e) ↦ rw (e, bind_result) f
]

keeps_fence :
    (q r : Adapter) (k w l : Text)
    → r.tasks ≡ q.tasks
    → r.pending_queue ≡ q.pending_queue
    → Fenced k w l q
    → Fenced k w l r
keeps_fence q r k w l t p f = record { held = rw t f.held; off_queue = rw p f.off_queue }

step-Fenced :
    (q : Adapter) (c : Call) (k w l : Text)
    → requeues k c ≡ false
    → Fenced k w l q
    → Fenced k w l (step q c)
unfolding step claim_urls release_urls mark_url_seen is_url_seen update_worker_heartbeat
step-Fenced q (enqueues t) k w l h f = enqueue_task-Fenced t q k w l h f
step-Fenced q (enqueues_batch ts) k w l h f = enqueue_batch-Fenced ts q k w l h f
step-Fenced q (dequeues v tenant now lease) k w l h f =
    dequeue_task-Fenced v tenant now lease q k w l f
step-Fenced q (updates t) k w l h f = update_task-Fenced t q k w l f
step-Fenced q (claims us ttl tenant now) k w l h f =
    keeps_fence q _ k w l (ground arith) (ground arith) f
step-Fenced q (releases us tenant) k w l h f = keeps_fence q _ k w l (ground arith) (ground arith) f
step-Fenced q (marks u ttl tenant now) k w l h f =
    keeps_fence q _ k w l (ground arith) (ground arith) f
step-Fenced q (looks_up u tenant now) k w l h f =
    keeps_fence q _ k w l (ground arith) (ground arith) f
step-Fenced q (beats v now) k w l h f = keeps_fence q _ k w l (ground arith) (ground arith) f
step-Fenced q closes k w l h f = cc

pub run-Fenced :
    (q : Adapter) (cs : List Call) (k w l : Text)
    → any (requeues k) cs ≡ false
    → Fenced k w l q
    → Fenced k w l (run q cs)
unfolding run
run-Fenced q [] k w l h f = f
run-Fenced q (c ∷ cs) k w l h f =
    run-Fenced (step q c) cs k w l (ground arith) (step-Fenced q c k w l (ground arith) f)

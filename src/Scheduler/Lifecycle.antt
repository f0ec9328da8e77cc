-- ===== src/Scheduler/Lifecycle.antt =====
-- Cancelling and retrying.
use antigravity_browser.Base.{
  ℕ, ◌≡◌, refl, ◌∙◌, inl, inr, Bool, true, false, ◌||◌, Option, none, some, List, [], ◌∷◌, arith,
  any, Text, text_eq, lookup, lookup-insert, Dict, text_eq_refl, text_eq_iff, Option-cases, ◌≢◌,
}
use antigravity_browser.Queue.Types.{Adapter, TaskRecord, TaskState, ok, bind_result, Result-cases}
use antigravity_browser.Queue.History.{
  run, step, Call, enqueues, enqueues_batch, dequeues, updates, claims, releases, marks, looks_up,
  beats, closes, Inv, is_keyed-lookup, update_task-Inv, run-empty-Inv, run-Inv,
}
use antigravity_browser.Tenant.{task_key}
use antigravity_browser.Scheduler.Control.{cancel_found, cancelled_record, cancel_task}
use antigravity_browser.Queue.Adapter.{
  update_task, store_task, hand_out, enqueue_batch, is_runnable, enqueue_task, take_runnable,
  dequeue_task, leased, checked_tenant, get_task, empty,
}
use antigravity_browser.Queue.Fencing.{key_of}
use antigravity_browser.Queue.Claims.{
  claim_urls, release_urls, mark_url_seen, is_url_seen, update_worker_heartbeat,
}
use antigravity_browser.Queue.Leases.{dequeue_task-HandedOut}

-- Does the call write the record of key `k`, or forget everything?
abbrev pub writes_any : Text → List TaskRecord → Bool
writes_any k [] = false
writes_any k (t ∷ ts) = text_eq (key_of t) k || writes_any k ts

abbrev pub writes : Text → Call → Bool
writes k (enqueues t) = text_eq (key_of t) k
writes k (enqueues_batch ts) = writes_any k ts
writes k (updates t) = text_eq (key_of t) k
writes k closes = true
writes k _ = false

store_task-other :
    (t : TaskRecord) (q : Adapter) (k : Text)
    → text_eq (key_of t) k ≡ false
    → lookup k (store_task t q).1.tasks ≡ lookup k q.tasks
unfolding store_task
store_task-other t q k h = ground (arith, lookup-insert (key_of t) k t q.tasks)

enqueue_task-other :
    (t : TaskRecord) (q : Adapter) (k : Text)
    → text_eq (key_of t) k ≡ false
    → lookup k (enqueue_task t q).1.tasks ≡ lookup k q.tasks
unfolding enqueue_task
enqueue_task-other t q k h = ground (arith, store_task-other t q k h)

enqueue_batch-other :
    (ts : List TaskRecord) (q : Adapter) (k : Text)
    → writes_any k ts ≡ false
    → lookup k (enqueue_batch ts q).1.tasks ≡ lookup k q.tasks
unfolding enqueue_batch
enqueue_batch-other [] q k h = refl
enqueue_batch-other (t ∷ ts) q k h =
    ground (
      arith,
      enqueue_task-other t q k (ground arith),
      enqueue_batch-other ts (enqueue_task t q).1 k,
    )

-- The search only finds tasks that may be run.
take_runnable_may_run :
    (prefix : Text) (tasks : Dict TaskRecord) (q : List Text) (k : Text) (t : TaskRecord)
    → (take_runnable prefix tasks q).0 ≡ some (k, t)
    → (lookup k tasks ≡ some t) × (is_runnable t.state ≡ true)
unfolding take_runnable
take_runnable_may_run prefix tasks [] k t e = ground arith
take_runnable_may_run prefix tasks (j ∷ q) k t e =
    ground (arith, take_runnable_may_run prefix tasks q k t)

hand_out-stays :
    (w l prefix : Text) (now : ℕ) (a : Option (Text × TaskRecord) × List Text) (q : Adapter)
    (k : Text) (t : TaskRecord)
    → a ≡ take_runnable prefix q.tasks q.pending_queue
    → is_runnable t.state ≡ false
    → lookup k q.tasks ≡ some t
    → lookup k (hand_out w now l a q).1.tasks ≡ some t
unfolding hand_out
hand_out-stays w l prefix now (none, rest) q k t e n h = h
hand_out-stays w l prefix now (some (j, u), rest) q k t e n h = ground (
  arith,
  take_runnable_may_run prefix q.tasks q.pending_queue j u,
  lookup-insert j k (leased w l now u) q.tasks,
  text_eq_iff j k,
)

dequeue_task-stays :
    (w : Text) (tenant : Option Text) (now : ℕ) (l : Text) (q : Adapter) (k : Text) (t : TaskRecord)
    → is_runnable t.state ≡ false
    → lookup k q.tasks ≡ some t
    → lookup k (dequeue_task w tenant now l q).1.tasks ≡ some t
unfolding dequeue_task
dequeue_task-stays w tenant now l q k t n h = elim (Result-cases (checked_tenant tenant)) [
  | inl (id, e) ↦ rw (e, bind_result) (hand_out-stays w l (task_key id []) now _ q k t refl n h)
  | inr (x, e) ↦ rw (e, bind_result) h
]

step-stays :
    (q : Adapter) (c : Call) (k : Text) (t : TaskRecord)
    → writes k c ≡ false
    → is_runnable t.state ≡ false
    → lookup k q.tasks ≡ some t
    → lookup k (step q c).tasks ≡ some t
unfolding step claim_urls release_urls mark_url_seen is_url_seen update_worker_heartbeat update_task
step-stays q (enqueues u) k t w n h = enqueue_task-other u q k w ∙ h
step-stays q (enqueues_batch us) k t w n h = enqueue_batch-other us q k w ∙ h
step-stays q (dequeues v tenant now l) k t w n h = dequeue_task-stays v tenant now l q k t n h
step-stays q (updates u) k t w n h = ground (arith, store_task-other u q k w)
step-stays q (claims us ttl tenant now) k t w n h = ground arith
step-stays q (releases us tenant) k t w n h = ground arith
step-stays q (marks u ttl tenant now) k t w n h = ground arith
step-stays q (looks_up u tenant now) k t w n h = ground arith
step-stays q (beats v now) k t w n h = ground arith
step-stays q closes k t w n h = cc

run-stays :
    (q : Adapter) (cs : List Call) (k : Text) (t : TaskRecord)
    → any (writes k) cs ≡ false
    → is_runnable t.state ≡ false
    → lookup k q.tasks ≡ some t
    → lookup k (run q cs).tasks ≡ some t
unfolding run
run-stays q [] k t w n h = h
run-stays q (c ∷ cs) k t w n h =
    run-stays (step q c) cs k t (ground arith) n (step-stays q c k t (ground arith) n h)

cancel_found_lem :
    (u t : TaskRecord) (now : ℕ) (q q' : Adapter)
    → lookup (key_of u) q.tasks ≡ some u
    → cancel_found u now q ≡ (ok t, q')
    → (lookup (key_of t) q'.tasks ≡ some t) × (t.state ≡ TaskState.cancelled)
unfolding cancel_found cancelled_record update_task store_task
cancel_found_lem u t now q q' h e = ground (
  arith,
  lookup-insert (key_of u) (key_of u) (cancelled_record u now) q.tasks,
  text_eq_refl (key_of u),
)

get_task-cases :
    (i : Text) (tenant : Option Text) (q : Adapter) (u : TaskRecord)
    → Inv q
    → (get_task i tenant q).0 ≡ ok (some u)
    → (lookup (key_of u) q.tasks ≡ some u) × ((get_task i tenant q).1 ≡ q)
unfolding get_task
get_task-cases i tenant q u v e = elim (Result-cases (checked_tenant tenant)) [
  | inl (id, c) ↦
      let h = is_keyed-lookup (task_key id i) u q.tasks v.keyed (ground (arith, c)) in
      ground (arith, c, h)
  | inr (x, c) ↦ absurd (ground (arith, c))
]

cancel_task_found :
    (i : Text) (tenant : Option Text) (now : ℕ) (q q' : Adapter) (t : TaskRecord)
    → cancel_task i tenant now q ≡ (ok t, q')
    → (u : TaskRecord) × ((get_task i tenant q).0 ≡ ok (some u))
      × (cancel_found u now q ≡ (ok t, q'))
unfolding cancel_task get_task
cancel_task_found i tenant now q q' t e = elim (Result-cases (checked_tenant tenant)) [
  | inl (id, c) ↦ elim (Option-cases (lookup (task_key id i) q.tasks)) [
    | inl o ↦ absurd (ground (arith, c, o))
    | inr (u, o) ↦ (u, ground (arith, c, o), ground (arith, c, o))
  ]
  | inr (x, c) ↦ absurd (ground (arith, c))
]

cancel_found-Inv :
    (u t : TaskRecord) (now : ℕ) (q q' : Adapter)
    → Inv q
    → cancel_found u now q ≡ (ok t, q')
    → Inv q'
unfolding cancel_found
cancel_found-Inv u t now q q' v e = ground (arith, update_task-Inv (cancelled_record u now) q v)

-- A task that `cancelTask` has cancelled is never handed out, whatever the clients do, until it is
-- written or queued again: not even if its key still stands in the queue.
pub cancel_task-dequeue_task :
    (cs : List Call) (i : Text) (tenant : Option Text) (now : ℕ) (q' : Adapter) (t : TaskRecord)
    (ds : List Call) (w : Text) (tenant' : Option Text) (now' : ℕ) (l : Text) (r : Adapter)
    (t' : TaskRecord)
    → cancel_task i tenant now (run empty cs) ≡ (ok t, q')
    → any (writes (key_of t)) ds ≡ false
    → dequeue_task w tenant' now' l (run q' ds) ≡ (ok (some t'), r)
    → (t.state ≡ TaskState.cancelled) × (key_of t' ≢ key_of t)
cancel_task-dequeue_task cs i tenant now q' t ds w tenant' now' l r t' e h d =
    let v = run-empty-Inv cs in
    let (u, got, c) = cancel_task_found i tenant now (run empty cs) q' t e in
    let (stored, cancelled) =
      cancel_found_lem u t now (run empty cs) q' (get_task-cases i tenant (run empty cs) u v got).0
        c in
    let stays = run-stays q' ds (key_of t) t h (ground (arith, cancelled)) stored in
    let out =
      dequeue_task-HandedOut w tenant' now' l (run q' ds) r t'
        (run-Inv q' ds (cancel_found-Inv u t now (run empty cs) q' v c)) d in
    (cancelled, λ same. ground (arith, cancelled, stays, same, out.handed, out.stored, out.may_run))

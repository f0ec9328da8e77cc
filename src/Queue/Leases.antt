-- ===== src/Queue/Leases.antt =====
-- What a worker that is handed a task may rely on.
use antigravity_browser.Base.{
  starts_with, ℕ, ◌≡◌, refl, subst, ◌≢◌, inl, inr, true, false, Option, none, some, List, [], arith,
  Text, lookup, lookup-insert, text_eq_refl, text_eq_iff, any, ap,
}
use antigravity_browser.Queue.Types.{
  Adapter, TaskRecord, ok, bind_result, Result-cases, err, lease_lost, Result,
}
use antigravity_browser.Tenant.{task_key, is_tenant_id, normalize_tenant_id, starts_with-task_key}
use antigravity_browser.Queue.History.{
  Inv, Call, run, is_keyed-lookup, run-empty-Inv, run-Inv, dequeue_task-Inv,
}
use antigravity_browser.Queue.Adapter.{
  checked_tenant, hand_out, take_runnable, is_runnable, includes, leased, dequeue_task, empty,
  update_task, store_task,
}
use antigravity_browser.Queue.Fencing.{
  key_of, Fenced, requeues, run-Fenced, is_held, owns_lease-is_held,
}
use antigravity_browser.Queue.Pending.{take_runnable_found}

-- The outcome of a dequeue that found a task: what stood in the queue before, and what stands now.
pub record HandedOut (w : Text) (tenant : Option Text) (now : ℕ) (l : Text) (q q' : Adapter)
    (t : TaskRecord) : Type 0 where
  pub waiting : TaskRecord
  pub stored : lookup (key_of waiting) q.tasks ≡ some waiting
  pub may_run : is_runnable waiting.state ≡ true
  pub queued : includes (key_of waiting) q.pending_queue ≡ true
  pub own_tenant : normalize_tenant_id tenant ≡ some waiting.tenant_id
  pub handed : t ≡ leased w l now waiting
  pub now_stored : lookup (key_of waiting) q'.tasks ≡ some t
  pub unqueued : includes (key_of waiting) q'.pending_queue ≡ false
  pub others : (k : Text) → k ≢ key_of waiting → lookup k q'.tasks ≡ lookup k q.tasks

checked_tenant_lem :
    (tenant : Option Text) (id : Text)
    → checked_tenant tenant ≡ ok id
    → (normalize_tenant_id tenant ≡ some id) × (is_tenant_id id ≡ true)
unfolding checked_tenant normalize_tenant_id
checked_tenant_lem tenant id e = ground arith

hand_out-HandedOut :
    (w l id : Text) (tenant : Option Text) (now : ℕ) (a : Option (Text × TaskRecord) × List Text)
    (q q' : Adapter) (t : TaskRecord)
    → Inv q
    → normalize_tenant_id tenant ≡ some id
    → is_tenant_id id ≡ true
    → a ≡ take_runnable (task_key id []) q.tasks q.pending_queue
    → hand_out w now l a q ≡ (ok (some t), q')
    → HandedOut w tenant now l q q' t
unfolding hand_out
hand_out-HandedOut w l id tenant now (none, rest) q q' t v n h e f = absurd (ground arith)
hand_out-HandedOut w l id tenant now (some (k, u), rest) q q' t v n h e f =
    let found =
      take_runnable_found (task_key id []) q.tasks q.pending_queue k u v.distinct (ground arith) in
    let (key, valid) = is_keyed-lookup k u q.tasks v.keyed found.2 in
    let same =
      starts_with-task_key id u.tenant_id u.id h valid
        (subst (λ (x : Text). starts_with (task_key id []) x ≡ true) key found.4) in
    record {
      waiting = u;
      stored = rw (← key) found.2;
      may_run = found.3;
      queued = rw (← key) found.0;
      own_tenant = ground (arith, same);
      handed = ground arith;
      now_stored =
          rw (← key) (ground (arith, lookup-insert k k (leased w l now u) q.tasks, text_eq_refl k));
      unqueued = rw (← key) (ground (arith, found.1));
      others = λ j ne.
          ground (arith, lookup-insert k j (leased w l now u) q.tasks, text_eq_iff k j, key, ne);
    }

pub dequeue_task-HandedOut :
    (w : Text) (tenant : Option Text) (now : ℕ) (l : Text) (q q' : Adapter) (t : TaskRecord)
    → Inv q
    → dequeue_task w tenant now l q ≡ (ok (some t), q')
    → HandedOut w tenant now l q q' t
unfolding dequeue_task
dequeue_task-HandedOut w tenant now l q q' t v e = elim (Result-cases (checked_tenant tenant)) [
  | inl (id, c) ↦
      let (n, h) = checked_tenant_lem tenant id c in
      hand_out-HandedOut w l id tenant now _ q q' t v n h refl (rw (c, bind_result) at e)
  | inr (x, c) ↦ absurd (ground (arith, c))
]

-- In the states that a history reaches, a task that is handed out was waiting in the queue, of the
-- tenant that asks, PENDING or RETRYING; it is RUNNING now, under the caller's name and the fresh
-- lease; its key is off the queue and no other task has changed.
pub dequeue_task_lem :
    (cs : List Call) (w : Text) (tenant : Option Text) (now : ℕ) (l : Text) (q' : Adapter)
    (t : TaskRecord)
    → dequeue_task w tenant now l (run empty cs) ≡ (ok (some t), q')
    → HandedOut w tenant now l (run empty cs) q' t
dequeue_task_lem cs w tenant now l q' t e =
    dequeue_task-HandedOut w tenant now l (run empty cs) q' t (run-empty-Inv cs) e

HandedOut-Fenced :
    (w : Text) (tenant : Option Text) (now : ℕ) (l : Text) (q q' : Adapter) (t : TaskRecord)
    → HandedOut w tenant now l q q' t
    → Fenced (key_of t) w l q'
HandedOut-Fenced w tenant now l q q' t h = record {
  held = rw (h.handed) (ground (arith, h.now_stored, h.handed, text_eq_refl w, text_eq_refl l));
  off_queue = ground (arith, h.handed, h.unqueued);
}

module _ (cs : List Call) (w : Text) (tenant : Option Text) (now : ℕ) (l : Text) (q' : Adapter)
    (t : TaskRecord) (ds : List Call)
    (handed : dequeue_task w tenant now l (run empty cs) ≡ (ok (some t), q'))
    (kept : any (requeues (key_of t)) ds ≡ false) where
  fenced : Fenced (key_of t) w l (run q' ds)
  fenced =
      run-Fenced q' ds (key_of t) w l kept
        (HandedOut-Fenced w tenant now l _ q' t (dequeue_task_lem cs w tenant now l q' t handed))

  reached : Inv (run q' ds)
  reached = run-Inv q' ds (
      subst Inv (ap (λ (p : Result (Option TaskRecord) × Adapter). p.1) handed)
        (dequeue_task-Inv w tenant now l (run empty cs) (run-empty-Inv cs)))

  -- Until the task is queued again or the queue closed, whatever the clients do, a write of it by a
  -- record of a valid tenant under another lease or another worker's name is refused as a lost
  -- lease and changes nothing.
  pub stale_write_refused :
      (u : TaskRecord)
      → key_of u ≡ key_of t
      → is_tenant_id u.tenant_id ≡ true
      → is_held (some u) w l ≡ false
      → update_task u (run q' ds) ≡ (err lease_lost, run q' ds)
  unfolding update_task store_task checked_tenant normalize_tenant_id
  stale_write_refused u same valid stale =
      ground
        (arith, same, owns_lease-is_held (lookup (key_of t) (run q' ds).tasks) u w l fenced.held)

  -- Until the task is queued again or the queue closed, the worker that holds the lease writes the
  -- task: the record stored is the one it sends.
  pub holder_writes :
      (u : TaskRecord)
      → key_of u ≡ key_of t
      → is_tenant_id u.tenant_id ≡ true
      → is_held (some u) w l ≡ true
      → ((update_task u (run q' ds)).0 ≡ ok tt)
        × (lookup (key_of t) (update_task u (run q' ds)).1.tasks ≡ some u)
  unfolding update_task store_task checked_tenant normalize_tenant_id
  holder_writes u same valid own = ground (
    arith,
    same,
    owns_lease-is_held (lookup (key_of t) (run q' ds).tasks) u w l fenced.held,
    lookup-insert (key_of t) (key_of t) u (run q' ds).tasks,
    text_eq_refl (key_of t),
  )

  -- Nobody is handed the task a second time before it is queued again or the queue closed.
  pub handed_out_once :
      (w' : Text) (tenant' : Option Text) (now' : ℕ) (l' : Text) (r : Adapter) (t' : TaskRecord)
      → dequeue_task w' tenant' now' l' (run q' ds) ≡ (ok (some t'), r)
      → key_of t' ≢ key_of t
  handed_out_once w' tenant' now' l' r t' e same =
      let h = dequeue_task-HandedOut w' tenant' now' l' (run q' ds) r t' reached e in
      ground (arith, same, h.handed, h.queued, fenced.off_queue)

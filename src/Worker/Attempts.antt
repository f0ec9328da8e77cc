-- ===== src/Worker/Attempts.antt =====
-- How often `WorkerDaemon` (src/distributed/worker-daemon.ts) executes a task that fails every time.
use antigravity_browser.Base.{
  ℕ, suc, ◌+◌, ◌≤◌, ◌<◌, ◌≡◌, refl, ◌∙◌, true, Option, none, some, List, [], ◌∷◌, arith, length,
  Text, lt→ltb,
}
use antigravity_browser.Worker.Settle.{
  Recovery, Messages, settle, Next, retry_task, recover, flushed, threw, stored, begin_task,
  requeue_now, fail_task, settled, enqueue,
}
use antigravity_browser.Queue.Types.{TaskRecord, TaskState}
use antigravity_browser.Queue.Adapter.{leased}

-- An execution that throws: who has the task, when, and the error.
pub record Failure : Type 0 where
  pub worker : Text
  pub lease : Text
  pub start : ℕ
  pub now : ℕ
  pub message : Text
  pub code : Option Text

-- The task as the queue holds it afterwards, where it is queued again: the worker gives a task back
-- only through `requeueTask` or a recovery that enqueues.
abbrev pub redelivered : TaskRecord × Next → Option TaskRecord
redelivered (t, recover Recovery.enqueue delay) = some (flushed enqueue t)
redelivered (t, requeue_now) = some (flushed enqueue t)
redelivered (t, recover Recovery.persist delay) = none
redelivered (t, settled) = none

module _ (texts : Messages) where
  -- The task is leased to the worker, and the execution throws; the status is stored.
  unfoldable pub one_failure : Failure → TaskRecord → TaskRecord × Next
  one_failure f t =
      settle texts f.start f.now true (threw f.message f.code) stored
        (begin_task texts f.start (leased f.worker f.lease f.start t))

  -- `none` where the task was not queued again before one of the executions.
  unfoldable pub after_failures : List Failure → TaskRecord → Option TaskRecord
  unfolding one_failure
  after_failures [] t = some t
  after_failures (f ∷ fs) t = elim (redelivered (one_failure f t)) [
    | none ↦ none
    | some u ↦ after_failures fs u
  ]

  retried :
      (f : Failure) (t : TaskRecord)
      → t.retries < t.max_retries
      → (u : TaskRecord) × (redelivered (one_failure f t) ≡ some u)
        × (u.retries ≡ suc t.retries)
        × (u.max_retries ≡ t.max_retries)
  unfolding one_failure settle retry_task flushed begin_task
  retried f t h = rw (lt→ltb t.retries t.max_retries h) (_, refl, refl, refl)

  given_up :
      (f : Failure) (t : TaskRecord)
      → t.max_retries ≤ t.retries
      → ((one_failure f t).0.state ≡ TaskState.failed)
        × (redelivered (one_failure f t) ≡ none)
        × ((one_failure f t).1 ≡ settled)
  unfolding one_failure settle fail_task begin_task
  given_up f t h = (ground (arith, h), ground (arith, h), ground (arith, h))

  counted :
      (fs : List Failure) (t : TaskRecord)
      → t.retries + length fs ≤ t.max_retries
      → (u : TaskRecord) × (after_failures fs t ≡ some u)
        × (u.retries ≡ t.retries + length fs)
        × (u.max_retries ≡ t.max_retries)
  unfolding after_failures
  counted [] t h = (t, refl, omega arith, refl)
  counted (f ∷ fs) t h =
      let (u, e, r, m) = retried f t (omega (arith, h)) in
      let (v, d, q, n) = counted fs u (omega (arith, h, r, m)) in
      (v, ground (arith, e, d), omega (arith, q, r), n ∙ m)

  -- A task that fails every time is executed as often as it has retries left, and once more: it is
  -- queued again after each of as many failures as it had retries left, has then used them all, and
  -- after one more failure it is FAILED, is not queued again and nothing is left to do. The worker
  -- runs and its writes are stored.
  pub failing_task_ends :
      (fs : List Failure) (last : Failure) (t : TaskRecord)
      → t.retries + length fs ≡ t.max_retries
      → (u : TaskRecord) × (after_failures fs t ≡ some u)
        × (u.retries ≡ t.max_retries)
        × ((one_failure last u).0.state ≡ TaskState.failed)
        × (redelivered (one_failure last u) ≡ none)
        × ((one_failure last u).1 ≡ settled)
  failing_task_ends fs last t h =
      let (u, e, r, m) = counted fs t (omega (arith, h)) in
      let (s, q, n) = given_up last u (omega (arith, h, r, m)) in
      (u, e, omega (arith, r, h), s, q, n)

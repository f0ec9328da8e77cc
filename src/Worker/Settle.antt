-- ===== src/Worker/Settle.antt =====
-- What `WorkerDaemon` (src/distributed/worker-daemon.ts) does with a task that it executed: the end of
-- `executeTask`, and the recovery of writes and retries. What the execution gave and what the adapter
-- answered are arguments, and so is the error, sanitised by `safeTaskError` and `taskErrorCode`.
use Prim.Native.Nat.{◌^◌}
use antigravity_browser.Base.{
  ℕ, suc, ◌-◌, ◌*◌, min, max, Bool, Option, some, ltb, if◌then◌else◌, Text,
}
use antigravity_browser.Queue.Types.{
  in_progress, in_retry, done, broken, completed, failed, retrying, pending, TaskRecord,
}
use antigravity_browser.Scheduler.Tasks.{append_task_event}

pub data Execution : Type 0 where
  returned : Text → Execution
  threw : Text → Option Text → Execution

-- How the adapter answers a write.
pub data Write : Type 0 where
  stored lease_lost unavailable : Write

-- `RecoveryWork['kind']`.
pub data Recovery : Type 0 where
  persist enqueue : Recovery

-- What is left to do: nothing, a recovery after a delay, or an enqueue at once.
pub data Next : Type 0 where
  settled requeue_now : Next
  recover : Recovery → ℕ → Next

abbrev pub queue_recovery_delay_ms : ℕ
queue_recovery_delay_ms = 1000

-- `任务执行完成`, `任务执行失败` and the like are texts that the model does not read.
pub record Messages : Type 0 where
  pub running_text : Text
  pub completed_text : Text
  pub retrying_text : ℕ → Text
  pub failed_text : Text

unfoldable pub begin_task : Messages → ℕ → TaskRecord → TaskRecord
begin_task texts now t = record t {
  events = some (append_task_event t in_progress texts.running_text now);
}

-- The delay of a retry, where its status was stored: the backoff, at most ten seconds.
unfoldable pub retry_delay : Write → ℕ → ℕ
retry_delay stored retries = min 10000 (1000 * 2 ^ retries)
retry_delay _ retries = queue_recovery_delay_ms

unfoldable pub complete_task : Messages → ℕ → ℕ → Text → TaskRecord → TaskRecord
complete_task texts start now result t = record t {
  events = some (append_task_event t done texts.completed_text now);
  state = completed;
  completed_at = some now;
  duration_ms = some (now - start);
  outcome = some result;
}

unfoldable pub retry_task : Messages → ℕ → Text → Option Text → TaskRecord → TaskRecord
retry_task texts now message code t =
    let u = record t {
      error_code = code;
      retries = suc t.retries;
      state = retrying;
      error = some message;
    } in
    record u { events = some (append_task_event u in_retry (texts.retrying_text u.retries) now) }

unfoldable pub fail_task : Messages → ℕ → ℕ → Text → Option Text → TaskRecord → TaskRecord
fail_task texts start now message code t =
    let u = record t {
      error_code = code;
      state = failed;
      completed_at = some now;
      duration_ms = some (now - start);
      error = some message;
    } in
    record u { events = some (append_task_event u broken texts.failed_text now) }

-- After a write that only the durable record still needs.
abbrev persist_next : Write → Next
persist_next unavailable = recover persist queue_recovery_delay_ms
persist_next _ = settled

abbrev retry_next : Bool → Write → ℕ → Next
retry_next is_running lease_lost retries = settled
retry_next is_running written retries =
    if is_running then recover enqueue (retry_delay written retries) else requeue_now

-- The end of `executeTask`, with the answer to its write.
unfoldable pub settle : Messages → ℕ → ℕ → Bool → Execution → Write → TaskRecord → TaskRecord × Next
unfolding complete_task retry_task fail_task retry_delay
settle texts start now is_running (returned result) written t =
    (complete_task texts start now result t, persist_next written)
settle texts start now is_running (threw message code) written t =
    if ltb t.retries t.max_retries
    then (retry_task texts now message code t, retry_next is_running written (suc t.retries))
    else (fail_task texts start now message code t, persist_next written)

-- `scheduleRecovery` while the worker runs: the delay of the timer.
abbrev pub timer_delay : ℕ → ℕ
timer_delay delay = max queue_recovery_delay_ms delay

-- `flushRecovery` and `requeueTask`: the task as it is written or queued.
unfoldable pub flushed : Recovery → TaskRecord → TaskRecord
flushed enqueue t = record t { state = pending }
flushed persist t = t

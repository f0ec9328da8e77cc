-- ===== src/Workflow/Runner.antt =====
-- The executor of each adapter (`executeWorkflow`, src/browser/workflow.ts), and the facade that adds one last snapshot to a workflow that stopped (`WorkflowRunner`,
-- src/browser/workflow-runner.ts). What the adapter gives within some time is a parameter, `none` for
-- nothing, a failure or a late answer.
use antigravity_browser.Base.{
  ℕ, ◌-◌, ◌≤◌, ◌<◌, min, ◌≡◌, Option, none, some, [], arith, if◌then◌else◌, Text, text_eq, or_else,
  ◌==◌,
}
use antigravity_browser.Base.{codes, Dict}
use antigravity_browser.Workflow.Types.{WorkflowLimits, WorkflowError}
use antigravity_browser.Workflow.Json.{
  Num, whole, Json, object, array, number, Fields, bare, field, get, whole_of,
}
use antigravity_browser.Workflow.Limits.{RequestedLimits, clamp_limit, resolve_workflow_limits}
use antigravity_browser.Workflow.Status.{StopReason, or_option}
use antigravity_browser.Workflow.Result.{WorkflowResult, finished, stopped}
use antigravity_browser.Workflow.Execute.{Session}
use antigravity_browser.Workflow.Cache.{
  CacheEntry, RunOptions, Reply, throws, replayed, executed, Host, run, clear_cache,
}

-- `undefined` gives the limit.
unfoldable pub snapshot_limit : Option Num → WorkflowLimits → ℕ
unfolding clamp_limit
snapshot_limit none limits = limits.max_snapshot_bytes
snapshot_limit (some n) limits =
    clamp_limit n 500 limits.max_snapshot_bytes limits.max_snapshot_bytes

-- The executor, with the limits in force.
pub record WorkflowRunner : Type 0 where
  pub limits : WorkflowLimits
  pub max_snapshot_bytes : ℕ
  pub cache : Dict CacheEntry

unfoldable pub create_runner : Option RequestedLimits → Option Num → WorkflowRunner
unfolding snapshot_limit resolve_workflow_limits
create_runner asked max_snapshot_bytes =
    let limits = resolve_workflow_limits asked in
    record {
      limits = limits;
      max_snapshot_bytes = snapshot_limit max_snapshot_bytes limits;
      cache = [];
    }

-- In place, or at the end.
unfoldable pub set_field : Text → Json → Fields → Fields
set_field k v bare = field k v bare
set_field k v (field j w fs) = if text_eq j k then field j v fs else field j w (set_field k v fs)

abbrev with_stop_on : Option Json → Fields → Fields
with_stop_on none fs = fs
with_stop_on (some v) fs = set_field (codes "stopOn") v fs

-- A list of steps, or a definition. What is neither has no steps, and is refused by the executor.
unfoldable pub definition_of : Option Json → Json → Json
unfolding set_field
definition_of stop_on (array vs) =
    object (with_stop_on stop_on (field (codes "steps") (array vs) bare))
definition_of stop_on (object fs) = object (with_stop_on stop_on fs)
definition_of stop_on v = object (with_stop_on stop_on bare)

pub record RunnerResult : Type 0 where
  pub result : WorkflowResult
  pub snapshot : Option Json
  pub stopped_reason : Option StopReason

pub data RunnerReply : Type 0 where
  rejects : WorkflowError → RunnerReply
  returns : RunnerResult → RunnerReply
  -- The bound of the result ran out of fuel.
  unfinished : RunnerReply

abbrev number_of : Option Num → Option ℕ
number_of none = none
number_of (some n) = whole_of n

abbrev duration_field : Option Json → Option ℕ
duration_field (some (number n)) = whole_of n
duration_field _ = none

-- What is left of the time when the run is over.
unfoldable pub time_left : WorkflowRunner → RunOptions → Json → ℕ → ℕ → ℕ
unfolding get
time_left r o v started_at now =
    let budget =
      or_else
        (or_option (number_of o.max_duration_ms) (duration_field (get (codes "maxDurationMs") v)))
        r.limits.max_duration_ms in
    min r.limits.max_duration_ms budget - (now - started_at)

module _ (observe : ℕ → ℕ → Option Json) where
  -- The most bytes of the snapshot, and the time for it.
  unfoldable pub with_snapshot : WorkflowRunner → ℕ → WorkflowResult → RunnerResult
  with_snapshot r left result = elim result.status [
    | finished ↦ record { result = result; snapshot = none; stopped_reason = none }
    | stopped ↦ record {
      result = result;
      snapshot = observe r.max_snapshot_bytes left;
      stopped_reason = some result.stop_reason;
    }
  ]

  abbrev settled : WorkflowRunner → ℕ → Option WorkflowResult → RunnerReply
  settled r left none = unfinished
  settled r left (some result) = returns (with_snapshot r left result)

  unfoldable pub runner_reply : WorkflowRunner → ℕ → Reply → RunnerReply
  unfolding with_snapshot
  runner_reply r left (throws e) = rejects e
  runner_reply r left (replayed result) = settled r left result
  runner_reply r left (executed x) = settled r left x.result

  -- The clock at the start, in the executor, and at its end.
  unfoldable pub run_workflow :
      Host
      → WorkflowRunner
      → ℕ
      → ℕ
      → ℕ
      → Option Json
      → Json
      → RunOptions
      → Session
      → RunnerReply × WorkflowRunner
  unfolding runner_reply time_left definition_of run
  run_workflow h r started_at now ended_at stop_on v o w =
      let definition = definition_of stop_on v in
      let (reply, cache) = run h r.limits now definition o w r.cache in
      (
        runner_reply r (time_left r o definition started_at ended_at) reply,
        record r { cache = cache },
      )

unfoldable pub clear_runner : WorkflowRunner → WorkflowRunner
unfolding clear_cache
clear_runner r = record r { cache = clear_cache r.cache }

-- `EXECUTOR_BY_ADAPTER`: the memory of the executor of each adapter, by the adapter's identity.
abbrev pub Executors : Type 0
Executors = ℕ → Option (Dict CacheEntry)

-- The limits are the default ones.
unfoldable pub execute_workflow :
    Host → ℕ → ℕ → Json → RunOptions → Session → Executors → Reply × Executors
unfolding run resolve_workflow_limits
execute_workflow h adapter now v o w executors =
    let (reply, cache) =
      run h (resolve_workflow_limits none) now v o w (or_else (executors adapter) []) in
    (reply, λ a. if a == adapter then some cache else executors a)

-- A limit below 500 bytes is exceeded if a size is asked for.
small_limit_exceeded :
    (n k : ℕ) (limits : WorkflowLimits)
    → n ≤ 1000
    → limits.max_snapshot_bytes ≡ k
    → k < 500
    → k < snapshot_limit (some (whole n)) limits
unfolding snapshot_limit clamp_limit
small_limit_exceeded n k limits small e low = ground arith

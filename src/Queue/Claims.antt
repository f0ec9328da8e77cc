-- ===== src/Queue/Claims.antt =====
-- The URL claims, the lists and the heartbeats of `MemoryQueueAdapter`
-- (src/distributed/queue-adapter.ts). The time is an argument; a TTL of 0 stands for any that is
-- not positive.
use antigravity_browser.Base.{
  ℕ, ◌+◌, ◌*◌, Bool, true, false, ◌&&◌, ◌||◌, Option, none, some, List, [], ◌∷◌, ltb, leb, ◌==◌,
  if◌then◌else◌, take, Text, text_eq, Dict, delete, values, insert, lookup,
}
use antigravity_browser.Queue.Types.{
  Adapter, TaskRecord, TaskState, Action, return, check, get, modify, ◌>>◌, ◌>>=◌,
  TaskExecutionMode, TaskPriority, TaskListFilter, WorkerNodeInfo,
}
use antigravity_browser.Tenant.{task_key}
use antigravity_browser.Queue.Adapter.{empty, checked_tenant, option_eq}

abbrev pub default_claim_ttl : ℕ
default_claim_ttl = 2592000

-- Is there a claim that has not run out?
unfoldable pub is_claimed : Dict ℕ → Text → ℕ → Bool
is_claimed seen key now = elim (lookup key seen) [ none ↦ false | some t ↦ ltb now t ]

unfoldable pub is_url_seen : Text → Option Text → ℕ → Action Bool
is_url_seen url tenant now = do
  id ← check (checked_tenant tenant)
  q ← get
  modify (λ q.
      if is_claimed q.seen_urls (task_key id url) now
      then q
      else record q { seen_urls = delete (task_key id url) q.seen_urls })
  return (is_claimed q.seen_urls (task_key id url) now)

-- The first loop of `claimUrls`.
unfoldable pub any_claimed : Dict ℕ → Text → List Text → ℕ → Bool
any_claimed seen tenant [] now = false
any_claimed seen tenant (u ∷ us) now =
    is_claimed seen (task_key tenant u) now || any_claimed seen tenant us now

-- Its second loop.
unfoldable pub set_claims : Text → List Text → ℕ → Dict ℕ → Dict ℕ
set_claims tenant [] t seen = seen
set_claims tenant (u ∷ us) t seen = set_claims tenant us t (insert (task_key tenant u) t seen)

abbrev pub is_empty {ℓ} : {A : Type ℓ} → List A → Bool
is_empty [] = true
is_empty (x ∷ xs) = false

-- `claimUrls` for a tenant that has been checked.
unfoldable pub claim_checked : List Text → ℕ → Text → ℕ → Adapter → Bool × Adapter
claim_checked urls ttl id now q =
    if any_claimed q.seen_urls id urls now
    then (false, q)
    else (true, record q { seen_urls = set_claims id urls (now + ttl * 1000) q.seen_urls })

unfoldable pub claim_urls : List Text → ℕ → Option Text → ℕ → Action Bool
unfolding claim_checked
claim_urls urls ttl tenant now = if is_empty urls || ttl == 0 then return false else do
  id ← check (checked_tenant tenant)
  q ← get
  modify (λ q. (claim_checked urls ttl id now q).1)
  return (claim_checked urls ttl id now q).0

unfoldable pub claim_url : Text → ℕ → Option Text → ℕ → Action Bool
unfolding claim_urls
claim_url url ttl tenant now = claim_urls (url ∷ []) ttl tenant now

unfoldable pub delete_claims : Text → List Text → Dict ℕ → Dict ℕ
delete_claims tenant [] seen = seen
delete_claims tenant (u ∷ us) seen = delete_claims tenant us (delete (task_key tenant u) seen)

unfoldable pub release_urls : List Text → Option Text → Action (Unit {0})
release_urls urls tenant = if is_empty urls then return tt else do
  id ← check (checked_tenant tenant)
  modify (λ q. record q { seen_urls = delete_claims id urls q.seen_urls })

unfoldable pub mark_url_seen : Text → ℕ → Option Text → ℕ → Action (Unit {0})
mark_url_seen url ttl tenant now = if ttl == 0 then return tt else do
  id ← check (checked_tenant tenant)
  modify (λ q. record q { seen_urls = insert (task_key id url) (now + ttl * 1000) q.seen_urls })

abbrev state_code : TaskState → ℕ
state_code TaskState.pending = 0
state_code TaskState.running = 1
state_code TaskState.completed = 2
state_code TaskState.failed = 3
state_code TaskState.retrying = 4
state_code TaskState.cancelled = 5

abbrev pub state_eq : TaskState → TaskState → Bool
state_eq a b = state_code a == state_code b

abbrev mode_code : TaskExecutionMode → ℕ
mode_code TaskExecutionMode.fetch = 0
mode_code TaskExecutionMode.browser = 1

abbrev priority_code : TaskPriority → ℕ
priority_code TaskPriority.low = 0
priority_code TaskPriority.normal = 1
priority_code TaskPriority.high = 2
priority_code TaskPriority.critical = 3

-- `wanted === undefined || test(wanted)`.
abbrev admits {ℓ} : {A : Type ℓ} → Option A → (A → Bool) → Bool
admits none test = true
admits (some a) test = test a

unfoldable pub matches_task_filter : TaskRecord → TaskListFilter → Bool
matches_task_filter t f =
    admits f.project_id (λ p. option_eq t.project_id (some p))
    && admits f.run_id (λ r. option_eq t.run_id (some r))
    && admits f.state (λ s. state_eq t.state s)
    && admits f.mode (λ m. mode_code t.mode == mode_code m)
    && admits f.priority (λ p. priority_code t.priority == priority_code p)
    && admits f.created_after (λ a. leb a t.created_at)
    && admits f.created_before (λ b. leb t.created_at b)

unfoldable pub keep {ℓ} : {A : Type ℓ} → (A → Bool) → List A → List A
keep p [] = []
keep p (x ∷ xs) = if p x then x ∷ keep p xs else keep p xs

unfoldable pub list_tasks : ℕ → Option Text → Option TaskListFilter → Action (List TaskRecord)
list_tasks limit tenant filter = do
  id ← check (checked_tenant tenant)
  q ← get
  return (
      take limit (
        keep (λ t. admits filter (matches_task_filter t))
          (keep (λ t. text_eq t.tenant_id id) (values q.tasks))))

unfoldable pub update_worker_heartbeat : WorkerNodeInfo → ℕ → Action (Unit {0})
update_worker_heartbeat worker now = do
  id ← check (checked_tenant (some worker.tenant_id))
  modify (λ q. record q {
    workers =
        insert (task_key id worker.worker_id)
          (record worker { tenant_id = id; last_heartbeat = now }) q.workers;
  })

unfoldable pub list_workers : Option Text → Action (List WorkerNodeInfo)
list_workers tenant = do
  id ← check (checked_tenant tenant)
  q ← get
  return (keep (λ w. text_eq w.tenant_id id) (values q.workers))

unfoldable pub close : Action (Unit {0})
close = modify (λ _. empty)

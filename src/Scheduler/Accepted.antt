-- ===== src/Scheduler/Accepted.antt =====
-- What a submission that succeeds leaves behind: a queued record and a claim.
use antigravity_browser.Base.{
  refl, ℕ, ◌≤◌, ◌≡◌, inl, inr, true, false, Option, some, [], ◌∷◌, arith, Text, lookup, List,
  text_eq_refl, lookup-insert, ◌+◌, ◌*◌,
}
use antigravity_browser.Queue.Types.{Adapter, TaskRecord, ok, Result-cases, TaskState}
use antigravity_browser.Tenant.{task_key}
use antigravity_browser.Queue.Claims.{is_claimed, claim_urls, default_claim_ttl, any_claimed}
use antigravity_browser.Queue.Adapter.{
  checked_tenant, enqueue_task, store_task, includes, is_runnable, enqueue_key,
}
use antigravity_browser.Queue.Urls.{claim_urls_inv, claimed_after}
use antigravity_browser.Scheduler.Submit.{
  compensated, claim_or_reject, commit, submit_task, assert_task_url,
}
use antigravity_browser.Scheduler.Tasks.{
  Decision, TaskDefinition, normalize_task, task_mode, task_priority, max_retries, timeout_ms,
  NormalizedTask, new_record,
}
use antigravity_browser.Queue.Fencing.{key_of}
use antigravity_browser.Queue.Pending.{includes-append}
use antigravity_browser.Scheduler.Outcomes.{claim_urls-cases, checked_tenant-again}

-- What a submission has done when it answers `r`.
pub record Submitted (policy : Option (Text → Decision)) (def : TaskDefinition) (id : Text)
    (now : ℕ) (q q' : Adapter) (r : TaskRecord) : Type 0 where
  pub approved : assert_task_url policy def.url ≡ ok r.url
  pub own_tenant : r.tenant_id ≡ id
  pub waiting : (r.state ≡ TaskState.pending) × (r.retries ≡ 0)
  pub bounded : (r.max_retries ≤ 10) × (1000 ≤ r.timeout_ms) × (r.timeout_ms ≤ 120000)
  pub stored : lookup (key_of r) q'.tasks ≡ some r
  pub queued : includes (key_of r) q'.pending_queue ≡ true
  pub was_free : is_claimed q.seen_urls (task_key id r.url) now ≡ false
  pub now_claimed : is_claimed q'.seen_urls (task_key id r.url) now ≡ true

normalize_task-bounds :
    (def : TaskDefinition) (generated : Text) (n : NormalizedTask)
    → normalize_task def generated ≡ ok n
    → (n.max_retries ≤ 10) × (1000 ≤ n.timeout_ms) × (n.timeout_ms ≤ 120000)
unfolding normalize_task task_mode task_priority max_retries timeout_ms
normalize_task-bounds def generated n e = ground arith

commit_inv :
    (url id : Text) (now : ℕ) (r r' : TaskRecord) (q q' : Adapter)
    → checked_tenant (some id) ≡ ok id
    → commit url id now r q ≡ (ok r', q')
    → (q1 : Adapter) × (claim_urls (url ∷ []) default_claim_ttl (some id) now q ≡ (ok true, q1))
      × (r' ≡ r)
      × (enqueue_task r q1 ≡ (ok tt, q'))
unfolding commit claim_or_reject compensated
commit_inv url id now r r' q q' c e = elim (claim_urls-cases url id now q c) [
  | inl (q1, o) ↦ elim (Result-cases (enqueue_task r q1).0) [
    | inl (x, k) ↦ (q1, o, ground (arith, o, k), ground (arith, o, k))
    | inr (x, k) ↦ absurd (ground (arith, o, k))
  ]
  | inr o ↦ absurd (ground (arith, o))
]

includes-enqueue_key :
    (s : TaskState) (k : Text) (q : List Text)
    → is_runnable s ≡ true
    → includes k (enqueue_key s k q) ≡ true
unfolding enqueue_key
includes-enqueue_key s k q h = ground (arith, includes-append k k q, text_eq_refl k)

enqueue_task-stored :
    (r : TaskRecord) (q q' : Adapter)
    → is_runnable r.state ≡ true
    → enqueue_task r q ≡ (ok tt, q')
    → (lookup (key_of r) q'.tasks ≡ some r)
      × (includes (key_of r) q'.pending_queue ≡ true)
      × (q'.seen_urls ≡ q.seen_urls)
unfolding enqueue_task store_task
enqueue_task-stored r q q' h e = ground (
  arith,
  lookup-insert (key_of r) (key_of r) r q.tasks,
  text_eq_refl (key_of r),
  includes-enqueue_key r.state (key_of r) q.pending_queue h,
)

submit_task_inv :
    (policy : Option (Text → Decision)) (def : TaskDefinition) (tenant : Option Text)
    (generated : Text) (now : ℕ) (q q' : Adapter) (r : TaskRecord)
    → submit_task policy def tenant generated now q ≡ (ok r, q')
    → (id : Text) × (n : NormalizedTask) × (url : Text) × (checked_tenant tenant ≡ ok id)
      × (normalize_task def generated ≡ ok n)
      × (assert_task_url policy def.url ≡ ok url)
      × (commit url id now (new_record n def id url now) q ≡ (ok r, q'))
unfolding submit_task
submit_task_inv policy def tenant generated now q q' r e =
    elim (Result-cases (checked_tenant tenant)) [
      | inl (id, c) ↦ elim (Result-cases (normalize_task def generated)) [
        | inl (n, o) ↦ elim (Result-cases (assert_task_url policy def.url)) [
          | inl (url, p) ↦ (id, n, url, c, o, p, rw (submit_task, c, o, p) at e)
          | inr (x, p) ↦ absurd (ground (arith, c, o, p))
        ]
        | inr (x, o) ↦ absurd (ground (arith, c, o))
      ]
      | inr (x, c) ↦ absurd (ground (arith, c))
    ]

-- A submission that succeeds answers a PENDING record of the tenant with bounded retries and
-- timeout, for the URL that the policy approved; the record is stored and its key queued, and the
-- URL, which had no claim, has one.
pub submit_task-Submitted :
    (policy : Option (Text → Decision)) (def : TaskDefinition) (tenant : Option Text) (id : Text)
    (generated : Text) (now : ℕ) (q q' : Adapter) (r : TaskRecord)
    → checked_tenant tenant ≡ ok id
    → submit_task policy def tenant generated now q ≡ (ok r, q')
    → Submitted policy def id now q q' r
unfolding new_record any_claimed includes
submit_task-Submitted policy def tenant id generated now q q' r c e =
    let (id', n, url, c', o, p, done) = submit_task_inv policy def tenant generated now q q' r e in
    let bounds = normalize_task-bounds def generated n o in
    let (q1, claimed, same, queued) =
      commit_inv url id' now (new_record n def id' url now) r q q'
        (checked_tenant-again tenant id' c') done in
    let (i, c2, free, set) =
      claim_urls_inv (url ∷ []) default_claim_ttl (some id') now q q1 claimed in
    let kept = enqueue_task-stored (new_record n def id' url now) q1 q' refl queued in
    let own = claimed_after i (url ∷ []) (now + default_claim_ttl * 1000) now q.seen_urls url in
    let again = checked_tenant-again tenant id' c' in
    record {
      approved = ground (arith, same, p);
      own_tenant = ground (arith, same, c, c');
      waiting = ground (arith, same);
      bounded = ground (arith, same, bounds);
      stored = ground (arith, same, kept);
      queued = ground (arith, same, kept);
      was_free = ground (arith, same, c, c', c2, again, free);
      now_claimed = ground (arith, same, c, c', c2, again, kept, set, own, text_eq_refl url);
    }

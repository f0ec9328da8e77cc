-- ===== src/Scheduler/Outcomes.antt =====
-- What a submission that fails leaves behind: nothing.
use antigravity_browser.Base.{
  ℕ, ◌≤◌, ◌≡◌, ap, ◌⊎◌, inl, inr, true, false, Option, some, [], ◌∷◌, arith, Text, Bool-cases, Dict,
  text_eq_iff,
}
use antigravity_browser.Queue.Types.{Adapter, TaskRecord, ok, err, TaskError, Result-cases}
use antigravity_browser.Tenant.{task_key, normalize_tenant_id}
use antigravity_browser.Queue.Claims.{
  is_claimed, claim_urls, default_claim_ttl, release_urls, any_claimed, claim_checked,
}
use antigravity_browser.Queue.Adapter.{checked_tenant, enqueue_task, store_task, includes}
use antigravity_browser.Queue.Urls.{claim-release, claim_urls_inv}
use antigravity_browser.Scheduler.Submit.{
  compensated, claim_or_reject, commit, submit_task, assert_task_url,
}
use antigravity_browser.Scheduler.Tasks.{Decision, TaskDefinition, normalize_task}

-- Nothing that a later call can see has changed for the tenant: not the records, not the queue, and
-- no URL is claimed or free that was not.
pub record Untouched (id : Text) (now : ℕ) (q q' : Adapter) : Type 0 where
  pub tasks : q'.tasks ≡ q.tasks
  pub queue : q'.pending_queue ≡ q.pending_queue
  pub claims :
      (u : Text) (later : ℕ)
      → now ≤ later
      → is_claimed q'.seen_urls (task_key id u) later ≡ is_claimed q.seen_urls (task_key id u) later

Untouched-refl : (id : Text) (now : ℕ) (q q' : Adapter) → q' ≡ q → Untouched id now q q'
Untouched-refl id now q q' e = record {
  tasks = ap (λ (a : Adapter). a.tasks) e;
  queue = ap (λ (a : Adapter). a.pending_queue) e;
  claims = λ u later h. ap (λ (a : Adapter). is_claimed a.seen_urls (task_key id u) later) e;
}

enqueue_task_refused :
    (t : TaskRecord) (q : Adapter) (e : TaskError)
    → (enqueue_task t q).0 ≡ err e
    → (enqueue_task t q).1 ≡ q
unfolding enqueue_task store_task
enqueue_task_refused t q e h = ground arith

-- A claim that ran out stays so.
unclaimed_later :
    (seen : Dict ℕ) (key : Text) (now later : ℕ)
    → is_claimed seen key now ≡ false
    → now ≤ later
    → is_claimed seen key later ≡ false
unfolding is_claimed
unclaimed_later seen key now later h le = ground arith

released_claim :
    (url id u : Text) (now later : ℕ) (q q' : Adapter)
    → checked_tenant (some id) ≡ ok id
    → claim_urls (url ∷ []) default_claim_ttl (some id) now q ≡ (ok true, q')
    → now ≤ later
    → is_claimed (release_urls (url ∷ []) (some id) q').1.seen_urls (task_key id u) later
      ≡ is_claimed q.seen_urls (task_key id u) later
unfolding is_claimed any_claimed includes
released_claim url id u now later q q' c e h =
    let released = claim-release (url ∷ []) default_claim_ttl (some id) id now q q' u c e in
    let (i, c', free, _) = claim_urls_inv (url ∷ []) default_claim_ttl (some id) now q q' e in
    ground (
      arith,
      released.1,
      c,
      c',
      free,
      text_eq_iff url u,
      unclaimed_later q.seen_urls (task_key id u) now later,
    )

released_Untouched :
    (url id : Text) (now : ℕ) (q q' : Adapter)
    → checked_tenant (some id) ≡ ok id
    → claim_urls (url ∷ []) default_claim_ttl (some id) now q ≡ (ok true, q')
    → Untouched id now q (release_urls (url ∷ []) (some id) q').1
unfolding claim_urls release_urls
released_Untouched url id now q q' c e = record {
  tasks = ground (arith, c);
  queue = ground (arith, c);
  claims = λ u later h. released_claim url id u now later q q' c e h;
}

compensated_refused :
    (url id : Text) (now : ℕ) (r : TaskRecord) (q q' : Adapter) (e : TaskError)
    → checked_tenant (some id) ≡ ok id
    → claim_urls (url ∷ []) default_claim_ttl (some id) now q ≡ (ok true, q')
    → (compensated (url ∷ []) id (enqueue_task r) q').0 ≡ err e
    → Untouched id now q (compensated (url ∷ []) id (enqueue_task r) q').1
unfolding compensated
compensated_refused url id now r q q' e c claimed h = elim (Result-cases (enqueue_task r q').0) [
  | inl (x, o) ↦ absurd (ground (arith, o))
  | inr (x, o) ↦
      rw (compensated, o, enqueue_task_refused r q' x o)
        (released_Untouched url id now q q' c claimed)
]

pub claim_urls-cases :
    (url id : Text) (now : ℕ) (q : Adapter)
    → checked_tenant (some id) ≡ ok id
    → ((q' : Adapter) × (claim_urls (url ∷ []) default_claim_ttl (some id) now q ≡ (ok true, q')))
      ⊎ (claim_urls (url ∷ []) default_claim_ttl (some id) now q ≡ (ok false, q))
unfolding claim_urls claim_checked
claim_urls-cases url id now q c = elim (Bool-cases (any_claimed q.seen_urls id (url ∷ []) now)) [
  | inl h ↦ inr (ground (arith, c, h))
  | inr h ↦ inl ((claim_urls (url ∷ []) default_claim_ttl (some id) now q).1, ground (arith, c, h))
]

commit_refused :
    (url id : Text) (now : ℕ) (r : TaskRecord) (q : Adapter) (e : TaskError)
    → checked_tenant (some id) ≡ ok id
    → (commit url id now r q).0 ≡ err e
    → Untouched id now q (commit url id now r q).1
unfolding commit claim_or_reject
commit_refused url id now r q e c h = elim (claim_urls-cases url id now q c) [
  | inl (q', o) ↦ elim (Result-cases (compensated (url ∷ []) id (enqueue_task r) q').0) [
    | inl (x, k) ↦ absurd (ground (arith, o, k))
    | inr (x, k) ↦
        rw (commit, claim_or_reject, o, k) (compensated_refused url id now r q q' x c o k)
  ]
  | inr o ↦ Untouched-refl id now q _ (ground (arith, o))
]

pub checked_tenant-again :
    (tenant : Option Text) (id : Text)
    → checked_tenant tenant ≡ ok id
    → checked_tenant (some id) ≡ ok id
unfolding checked_tenant normalize_tenant_id
checked_tenant-again tenant id e = ground arith

-- A submission that fails, whatever the reason, leaves the tenant's records, the queue and the URL
-- claims as they were: a claim that it took is given back.
pub submit_task_refused :
    (policy : Option (Text → Decision)) (def : TaskDefinition) (tenant : Option Text)
    (generated : Text) (now : ℕ) (q : Adapter) (id : Text) (e : TaskError)
    → checked_tenant tenant ≡ ok id
    → (submit_task policy def tenant generated now q).0 ≡ err e
    → Untouched id now q (submit_task policy def tenant generated now q).1
unfolding submit_task
submit_task_refused policy def tenant generated now q id e c h =
    elim (Result-cases (normalize_task def generated)) [
      | inl (n, o) ↦ elim (Result-cases (assert_task_url policy def.url)) [
        | inl (url, p) ↦
            let again = checked_tenant-again tenant id c in
            rw (submit_task, c, o, p)
              (commit_refused url id now _ q e again (rw (submit_task, c, o, p) at h))
        | inr (x, p) ↦ Untouched-refl id now q _ (ground (arith, c, o, p))
      ]
      | inr (x, o) ↦ Untouched-refl id now q _ (ground (arith, c, o))
    ]

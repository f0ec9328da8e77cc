-- ===== src/Scheduler/Submit.antt =====
-- `submitTask` and `submitBatch` over the memory queue (src/distributed/scheduler.ts). The URL
-- policy is a parameter; URLs of a batch are put to it in order; time and generated ids are
-- arguments.
use antigravity_browser.Base.{
  ℕ, ◌||◌, Option, none, some, List, [], ◌∷◌, ltb, if◌then◌else◌, length, Text,
}
use antigravity_browser.Queue.Types.{
  TaskRecord, ok, err, Action, Result, return, check, ◌>>◌, ◌>>=◌, Reason, rejected, duplicate_url,
  batch_size, missing_url_policy, duplicate_task_id, duplicate_url_in_batch, url_not_allowed,
  policy_threw,
}
use antigravity_browser.Scheduler.Tasks.{
  NormalizedTask, TaskDefinition, Decision, new_record, then_check, normalize_task,
}
use antigravity_browser.Queue.Claims.{claim_urls, release_urls, default_claim_ttl}
use antigravity_browser.Queue.Adapter.{checked_tenant, enqueue_task, enqueue_batch}
use antigravity_browser.Queue.Pending.{is_distinct}

-- `assertTaskUrl`; `none` is a scheduler with no policy.
unfoldable pub assert_task_url : Option (Text → Decision) → Text → Result Text
assert_task_url none url = err (rejected missing_url_policy)
assert_task_url (some policy) url = elim (policy url) [
  | Decision.denies ↦ err (rejected url_not_allowed)
  | Decision.throws ↦ err (rejected policy_threw)
  | Decision.allows ↦ ok url
  | Decision.allows_as u ↦ ok u
]

unfoldable pub claim_or_reject : List Text → Text → ℕ → Action (Unit {0})
claim_or_reject urls tenant now = do
  claimed ← claim_urls urls default_claim_ttl (some tenant) now
  check (if claimed then ok tt else err (rejected duplicate_url))

-- The `try` round the enqueue: on an error the claims are released and the error goes on.
unfoldable pub compensated : List Text → Text → Action (Unit {0}) → Action (Unit {0})
compensated urls tenant enqueue q = elim (enqueue q).0 [
  | ok _ ↦ (ok tt, (enqueue q).1)
  | err e ↦ (err e, (release_urls urls (some tenant) (enqueue q).1).1)
]

-- The claim and the enqueue of `submitTask`.
unfoldable pub commit : Text → Text → ℕ → TaskRecord → Action TaskRecord
commit url id now r = do
  claim_or_reject (url ∷ []) id now
  compensated (url ∷ []) id (enqueue_task r)
  return r

unfoldable pub submit_task :
    Option (Text → Decision) → TaskDefinition → Option Text → Text → ℕ → Action TaskRecord
submit_task policy def tenant generated now = do
  id ← check (checked_tenant tenant)
  n ← check (normalize_task def generated)
  url ← check (assert_task_url policy def.url)
  commit url id now (new_record n def id url now)

-- The checks of each definition of a batch, with the id drawn for it.
unfoldable pub normalize_all :
    List (TaskDefinition × Text) → Result (List (NormalizedTask × TaskDefinition))
normalize_all [] = ok []
normalize_all ((d, g) ∷ ds) =
    then_check (normalize_task d g) λ n. then_check (normalize_all ds) λ ns. ok ((n, d) ∷ ns)

unfoldable pub approve_all :
    Option (Text → Decision) → List (NormalizedTask × TaskDefinition) → Result (List Text)
approve_all policy [] = ok []
approve_all policy ((n, d) ∷ ds) =
    then_check (assert_task_url policy d.url)
      λ u. then_check (approve_all policy ds) λ us. ok (u ∷ us)

abbrev ids_of : List (NormalizedTask × TaskDefinition) → List Text
ids_of [] = []
ids_of ((n, d) ∷ ns) = n.id ∷ ids_of ns

-- The records of a batch, each with the URL approved for it.
unfoldable pub new_records :
    List (NormalizedTask × TaskDefinition) → List Text → Text → ℕ → List TaskRecord
new_records ((n, d) ∷ ns) (u ∷ us) tenant now =
    new_record n d tenant u now ∷ new_records ns us tenant now
new_records _ _ tenant now = []

abbrev distinct_or : List Text → Reason → Result (Unit {0})
distinct_or xs reason = if is_distinct xs then ok tt else err (rejected reason)

unfoldable pub submit_batch :
    Option (Text → Decision)
    → List (TaskDefinition × Text)
    → Option Text
    → ℕ
    → Action (List TaskRecord)
submit_batch policy defs tenant now = do
  id ← check (checked_tenant tenant)
  check (if ltb (length defs) 1 || ltb 500 (length defs) then err (rejected batch_size) else ok tt)
  ns ← check (normalize_all defs)
  check (distinct_or (ids_of ns) duplicate_task_id)
  urls ← check (approve_all policy ns)
  check (distinct_or urls duplicate_url_in_batch)
  claim_or_reject urls id now
  compensated urls id (enqueue_batch (new_records ns urls id now))
  return (new_records ns urls id now)

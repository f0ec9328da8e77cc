-- ===== src/Workflow/Remembered.antt =====
-- An action id is remembered (`WorkflowExecutor.run`, src/browser/workflow.ts).
use antigravity_browser.Base.{
  ℕ, suc, ◌+◌, ◌≤◌, ◌<◌, ◌≡◌, refl, inl, inr, none, some, List, [], ◌∷◌, arith, if◌then◌else◌,
  length, Text, text_eq, Bool-cases, Option-cases,
}
use antigravity_browser.Base.{Dict, lookup}
use antigravity_browser.Workflow.Types.{WorkflowLimits, action_id_conflict}
use antigravity_browser.Workflow.Json.{Json}
use antigravity_browser.Workflow.Checks.{accepted, All}
use antigravity_browser.Workflow.Execute.{Session, run_uncached}
use antigravity_browser.Workflow.Cache.{
  CacheEntry, RunOptions, throws, replayed, executed, Host, Prepared, prune_cache, fingerprint,
  entry_of, prepare, run_once, run_prepared, run, workflow_cache_ttl_ms,
}
use antigravity_browser.Workflow.Kept.{
  IsKept, IsKept-lookup, prune_cache-IsKept, insert-IsKept, insert-new, drop_oldest-IsKept,
  IsKept-weaken, prepare-cases,
}

module _ (h : Host) (limits : WorkflowLimits) where
  run_once-IsKept :
      (now : ℕ) (k id : Text) (e : CacheEntry) (n : ℕ) (p : Prepared) (w : Session)
      (m : Dict CacheEntry)
      → n ≤ 254
      → IsKept k e n m
      → IsKept k e (suc n) (run_once h limits now id p w m).1
  unfolding run_once
  run_once-IsKept now k id e n p w m l q = elim (Option-cases (lookup id m)) [
    | inr (d, o) ↦ elim (Bool-cases (text_eq d.fingerprint (fingerprint h limits p.request))) [
      | inl same ↦ rw (run_once, o, same) (IsKept-weaken k e n m q)
      | inr other ↦ rw (run_once, o, other) (IsKept-weaken k e n m q)
    ]
    | inl o ↦
        rw (run_once, o)
          (drop_oldest-IsKept k e (suc n) _ (omega (arith, l)) (insert-IsKept k id e _ n m o q))
  ]

  run-IsKept :
      (now : ℕ) (k : Text) (e : CacheEntry) (n : ℕ) (v : Json) (o : RunOptions) (w : Session)
      (m : Dict CacheEntry)
      → n ≤ 254
      → now < e.expires_at
      → IsKept k e n m
      → IsKept k e (suc n) (run h limits now v o w m).1
  unfolding run run_prepared
  run-IsKept now k e n v o w m l alive q = elim (prepare-cases (prepare h limits v o)) [
    | inr (x, c) ↦ rw (run, c) (IsKept-weaken k e n m q)
    | inl (p, c) ↦
        let pruned = prune_cache-IsKept now k e n m alive q in
        elim (Option-cases p.action_id) [
          | inl none_given ↦ rw (run, c, run_prepared, none_given) (IsKept-weaken k e n _ pruned)
          | inr (id, given) ↦
              rw (run, c, run_prepared, given) (run_once-IsKept now k id e n p w _ l pruned)
        ]
  ]

-- A call of the executor.
pub record Call : Type 0 where
  pub at : ℕ
  pub value : Json
  pub options : RunOptions
  pub session : Session

unfoldable pub run_all : Host → WorkflowLimits → List Call → Dict CacheEntry → Dict CacheEntry
unfolding run
run_all h limits [] m = m
run_all h limits (c ∷ cs) m =
    run_all h limits cs (run h limits c.at c.value c.options c.session m).1

abbrev pub AllBefore : ℕ → List Call → Type 0
AllBefore t = All (λ c. c.at < t)

run_all-IsKept :
    (h : Host) (limits : WorkflowLimits) (k : Text) (e : CacheEntry) (n : ℕ) (cs : List Call)
    (m : Dict CacheEntry)
    → n + length cs ≤ 255
    → AllBefore e.expires_at cs
    → IsKept k e n m
    → (r : ℕ) × IsKept k e r (run_all h limits cs m)
unfolding run_all All
run_all-IsKept h limits k e n [] m l b q = (n, q)
run_all-IsKept h limits k e n (c ∷ cs) m l b q =
    let kept =
      run-IsKept h limits c.at k e n c.value c.options c.session m (omega (arith, l)) b.0 q in
    run_all-IsKept h limits k e (suc n) cs _ (omega (arith, l)) b.1 kept

module _ (h : Host) (limits : WorkflowLimits) where
  run-executed :
      (now : ℕ) (v : Json) (o : RunOptions) (w : Session) (m : Dict CacheEntry) (p : Prepared)
      (id : Text)
      → prepare h limits v o ≡ accepted p
      → p.action_id ≡ some id
      → lookup id (prune_cache now m) ≡ none
      → let x = run_uncached h.parse_url h.measures p.job w in
        ((run h limits now v o w m).0 ≡ executed x)
        × IsKept id (entry_of h limits now p x) 0 (run h limits now v o w m).1
  unfolding run run_prepared run_once
  run-executed now v o w m p id prepared given new =
      rw (run, prepared, run_prepared, given, run_once, new)
        (refl, drop_oldest-IsKept id _ 0 _ (omega arith) (insert-new id _ (prune_cache now m) new))

  run-kept :
      (t : ℕ) (v : Json) (o : RunOptions) (w : Session) (m : Dict CacheEntry) (p : Prepared)
      (id : Text) (e : CacheEntry) (n : ℕ)
      → prepare h limits v o ≡ accepted p
      → p.action_id ≡ some id
      → t < e.expires_at
      → IsKept id e n m
      → (run h limits t v o w m).0 ≡ (
          if text_eq e.fingerprint (fingerprint h limits p.request)
          then replayed e.result
          else throws action_id_conflict)
  unfolding run run_prepared run_once
  run-kept t v o w m p id e n prepared given soon q =
      let found = IsKept-lookup id e n _ (prune_cache-IsKept t id e n m soon q) in
      elim (Bool-cases (text_eq e.fingerprint (fingerprint h limits p.request))) [
        | inl same ↦ rw (run, prepared, run_prepared, given, run_once, found, same) refl
        | inr other ↦ rw (run, prepared, run_prepared, given, run_once, found, other) refl
      ]

-- A workflow that runs under an action id that is not in the memory is executed, and for ten minutes
-- and over up to 255 further calls of the executor, whatever they are, the id is not executed again: a
-- call with it whose request has the same fingerprint gets the result of that execution, and one with
-- another fingerprint is refused as a conflict.
pub run_remembers :
    (h : Host) (limits : WorkflowLimits) (now : ℕ) (v v' : Json) (o o' : RunOptions)
    (w w' : Session) (m : Dict CacheEntry) (p p' : Prepared) (id : Text) (cs : List Call) (t : ℕ)
    → prepare h limits v o ≡ accepted p
    → p.action_id ≡ some id
    → lookup id (prune_cache now m) ≡ none
    → length cs ≤ 255
    → AllBefore (now + workflow_cache_ttl_ms) cs
    → prepare h limits v' o' ≡ accepted p'
    → p'.action_id ≡ some id
    → t < now + workflow_cache_ttl_ms
    → let x = run_uncached h.parse_url h.measures p.job w in
      ((run h limits now v o w m).0 ≡ executed x)
      × ((run h limits t v' o' w' (run_all h limits cs (run h limits now v o w m).1)).0 ≡ (
          if text_eq (fingerprint h limits p.request) (fingerprint h limits p'.request)
          then replayed x.result
          else throws action_id_conflict))
run_remembers h limits now v v' o o' w w' m p p' id cs t prepared given new few early again same_id
      soon =
    let (ran, stored) = run-executed h limits now v o w m p id prepared given new in
    let e = entry_of h limits now p (run_uncached h.parse_url h.measures p.job w) in
    let (n, kept) = run_all-IsKept h limits id e 0 cs _ (omega (arith, few)) early stored in
    (ran, run-kept h limits t v' o' w' _ p' id e n again same_id soon kept)

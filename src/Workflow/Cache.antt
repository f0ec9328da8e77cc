-- ===== src/Workflow/Cache.antt =====
-- The executor and its memory of action ids (`WorkflowExecutor.run`, `clearCache`, `pruneCache`,
-- src/browser/workflow.ts). A run is remembered in the step in which it starts, so its result stands
-- in the memory at once; who repeats it waits for that result. SHA-256 is a parameter.
use antigravity_browser.Base.{
  ℕ, ◌+◌, Option, none, some, [], ◌∷◌, ltb, leb, if◌then◌else◌, length, Text, text_eq, or_else,
}
use antigravity_browser.Base.{Dict, lookup, insert}
use antigravity_browser.Workflow.Types.{
  WorkflowLimits, Workflow, UrlParts, WorkflowError, action_id_conflict,
}
use antigravity_browser.Workflow.Json.{Num, Json, number}
use antigravity_browser.Workflow.Checks.{Checked, accepted, refused, ◌>>=◌, ◌>>◌, optional}
use antigravity_browser.Workflow.Fields.{in_range, optional_revision, optional_tab_id}
use antigravity_browser.Workflow.Limits.{min_workflow_result_bytes}
use antigravity_browser.Workflow.Normalize.{normalize_workflow, check_uuid}
use antigravity_browser.Workflow.Status.{or_option}
use antigravity_browser.Workflow.Result.{WorkflowResult, Measures}
use antigravity_browser.Workflow.StableJson.{stable_json}
use antigravity_browser.Workflow.Fingerprint.{Request, request_json}
use antigravity_browser.Workflow.Execute.{Session, Execution, Job, run_uncached}

abbrev pub workflow_cache_ttl_ms : ℕ
workflow_cache_ttl_ms = 600000

abbrev pub max_workflow_cache_entries : ℕ
max_workflow_cache_entries = 256

pub record CacheEntry : Type 0 where
  pub fingerprint : Text
  pub expires_at : ℕ
  pub result : Option WorkflowResult

-- `WorkflowExecutionOptions`, without the signal, which the session has.
pub record RunOptions : Type 0 where
  pub action_id : Option Text
  pub expected_tab_id : Option Text
  pub expected_page_revision : Option Num
  pub max_duration_ms : Option Num
  pub max_result_bytes : Option Num

pub data Reply : Type 0 where
  throws : WorkflowError → Reply
  replayed : Option WorkflowResult → Reply
  executed : Execution → Reply

-- What the library code gives: URLs, sizes and cuts, numbers that are not whole, and the digest.
pub record Host : Type 0 where
  pub parse_url : Text → Option UrlParts
  pub measures : Measures
  pub other_number : Num → Text
  pub sha256 : Text → Text

pub record Prepared : Type 0 where
  pub job : Job
  pub action_id : Option Text
  pub request : Request

-- The entries that have not expired.
unfoldable pub prune_cache : ℕ → Dict CacheEntry → Dict CacheEntry
prune_cache now [] = []
prune_cache now ((k, e) ∷ m) =
    if leb e.expires_at now then prune_cache now m else (k, e) ∷ prune_cache now m

-- The oldest go while there are too many.
unfoldable pub drop_oldest : Dict CacheEntry → Dict CacheEntry
drop_oldest [] = []
drop_oldest (x ∷ m) =
    let rest = drop_oldest m in
    if ltb max_workflow_cache_entries (length (x ∷ m)) then rest else x ∷ m

abbrev as_json : Option Num → Option Json
as_json none = none
as_json (some n) = some (number n)

abbrev text_json : Option Text → Option Json
text_json none = none
text_json (some s) = some (Json.string s)

unfoldable pub clear_cache : Dict CacheEntry → Dict CacheEntry
clear_cache m = []

module _ (h : Host) (limits : WorkflowLimits) where
  abbrev prepared : Workflow → Option Text → Option ℕ → Option Text → ℕ → ℕ → Prepared
  prepared w action revision tab duration bytes = record {
    job = record {
      workflow = w;
      guards = record {
        action_id = action;
        expected_page_revision = revision;
        expected_tab_id = tab;
      };
      max_duration_ms = duration;
      max_result_bytes = bytes;
    };
    action_id = action;
    request = record {
      steps = w.steps;
      expected_page_revision = revision;
      expected_tab_id = tab;
      max_duration_ms = duration;
      max_result_bytes = bytes;
      stop_on = w.stop_on;
    };
  }

  -- The limits are resolved.
  unfoldable pub prepare : Json → RunOptions → Checked Prepared
  unfolding normalize_workflow
  prepare v o = do
    w ←
        normalize_workflow h.parse_url limits
          (record { max_duration_ms = o.max_duration_ms; max_result_bytes = o.max_result_bytes }) v
    check_uuid o.action_id
    revision ← optional_revision (as_json o.expected_page_revision)
    tab ← optional_tab_id (text_json o.expected_tab_id)
    duration ← optional (in_range 1 limits.max_duration_ms) (as_json o.max_duration_ms)
    bytes ←
        optional (in_range min_workflow_result_bytes limits.max_result_bytes)
          (as_json o.max_result_bytes)
    accepted (
        prepared w (or_option o.action_id w.action_id) (or_option revision w.expected_page_revision)
          (or_option tab w.expected_tab_id) (or_else duration w.max_duration_ms)
          (or_else bytes w.max_result_bytes))

  unfoldable pub fingerprint : Request → Text
  unfolding request_json stable_json
  fingerprint r = h.sha256 (stable_json h.other_number (request_json r))

  abbrev pub entry_of : ℕ → Prepared → Execution → CacheEntry
  entry_of now p x = record {
    fingerprint = fingerprint p.request;
    expires_at = now + workflow_cache_ttl_ms;
    result = x.result;
  }

  -- Under an action id, in the pruned memory.
  unfoldable pub run_once :
      ℕ → Text → Prepared → Session → Dict CacheEntry → Reply × Dict CacheEntry
  unfolding run_uncached fingerprint drop_oldest
  run_once now id p w cache =
      let x = run_uncached h.parse_url h.measures p.job w in
      elim (lookup id cache) [
        | some e ↦
            if text_eq e.fingerprint (fingerprint p.request)
            then (replayed e.result, cache)
            else (throws action_id_conflict, cache)
        | none ↦ (executed x, drop_oldest (insert id (entry_of now p x) cache))
      ]

  unfoldable pub run_prepared : ℕ → Prepared → Session → Dict CacheEntry → Reply × Dict CacheEntry
  unfolding run_once prune_cache run_uncached
  run_prepared now p w cache = elim p.action_id [
    | none ↦ (executed (run_uncached h.parse_url h.measures p.job w), prune_cache now cache)
    | some id ↦ run_once now id p w (prune_cache now cache)
  ]

  unfoldable pub run : ℕ → Json → RunOptions → Session → Dict CacheEntry → Reply × Dict CacheEntry
  unfolding run_prepared prepare
  run now v o w cache = elim (prepare v o) [
    | refused e ↦ (throws e, cache)
    | accepted p ↦ run_prepared now p w cache
  ]

-- ===== src/Workflow/Examples.antt =====
-- The theorems of the workflow engine at concrete inputs, and runs of its code (src/browser/workflow.ts).
use antigravity_browser.Base.{
  ℕ, zero, suc, ◌+◌, ◌-◌, ◌*◌, ◌/◌, ◌%◌, ◌≤◌, ◌<◌, min, max, ◌≡◌, refl, sym, ap, ◌∙◌, subst, ◌≢◌,
  ◌↔◌, ◌⊎◌, inl, inr, Bool, true, false, not, ◌&&◌, ◌||◌, Option, none, some, List, [], ◌∷◌, ◌++◌,
  map, arith, ltb, leb, ◌==◌, if◌then◌else◌, length, any, take, drop, Text, text_eq, is_some,
  or_else, Bool-cases, Option-cases, length-take,
}
use antigravity_browser.Base.{codes, lookup}
use antigravity_browser.Workflow.Types.{Workflow, click, scroll, opaque, down, UrlParts}
use antigravity_browser.Workflow.Json.{
  Json, string, array, object, number, whole, Items, end, item, Fields, bare, field, Num,
}
use antigravity_browser.Workflow.Checks.{Checked, accepted, All}
use antigravity_browser.Workflow.Limits.{resolve_workflow_limits, WithinCeilings}
use antigravity_browser.Workflow.Normalize.{normalize_workflow, ValidationOptions}
use antigravity_browser.Workflow.Within.{WorkflowWithin, StepWithin}
use antigravity_browser.Workflow.Json.{null}
use antigravity_browser.Workflow.Status.{completed, is_challenged}
use antigravity_browser.Workflow.Summary.{captured, SnapshotSummary}
use antigravity_browser.Workflow.Run.{
  Turn, resolved, StepGuards, observed, StepReport, success, Event, called,
}
use antigravity_browser.Workflow.Result.{WorkflowResult, finished, Measures, measured, bound_result}
use antigravity_browser.Workflow.Execute.{Session, Job, settings_of, run_uncached}
use antigravity_browser.Workflow.Fits.{Fits, verdict, bound_result-Fits}
use antigravity_browser.Workflow.Types.{action_id_conflict}
use antigravity_browser.Workflow.Result.{ResultStatus}
use antigravity_browser.Workflow.Cache.{
  Host, RunOptions, Prepared, replayed, executed, throws, prepare, run, prune_cache, fingerprint,
}
use antigravity_browser.Workflow.Remembered.{Call, run_all, run_remembers}
use antigravity_browser.Workflow.Bounded.{normalize_workflow-WorkflowWithin}
use antigravity_browser.Workflow.Writes.{GuardedOnce, write_guards}
use antigravity_browser.Workflow.Runs.{
  initial_of, after_first, run_uncached-GuardedOnce, run_uncached-IsQuiet,
}
use antigravity_browser.Workflow.Loop.{run_steps}
use antigravity_browser.Workflow.Shrink.{weight, weight_summary, weight_error, Cuts}
use antigravity_browser.Workflow.Quiet.{IsQuiet}
use antigravity_browser.Workflow.Stops.{Timeline, run_steps-Timeline}

abbrev no_url : Text → Option UrlParts
no_url s = none

abbrev down_step : Json
down_step = object (
    field (codes "op") (string (codes "scroll"))
      (field (codes "direction") (string (codes "down")) bare))

abbrev click_step : Json
click_step = object (
    field (codes "op") (string (codes "click"))
      (field (codes "target") (string (codes "ref_a")) bare))

abbrev sample_id : Text
sample_id = codes "00000000-0000-1000-8000-000000000000"

abbrev sample : Json
sample = object (
    field (codes "steps") (array (item down_step (item click_step end)))
      (field (codes "actionId") (string sample_id) bare))

abbrev no_options : ValidationOptions
no_options = record { max_duration_ms = none; max_result_bytes = none }

abbrev sample_workflow : Workflow
sample_workflow = record {
  steps = scroll down 1 none ∷ click (opaque (codes "ref_a")) none ∷ [];
  action_id = some sample_id;
  expected_page_revision = none;
  expected_tab_id = none;
  max_duration_ms = 120000;
  max_result_bytes = 262144;
  stop_on = [];
}

sample_accepted :
    normalize_workflow no_url (resolve_workflow_limits none) no_options sample
    ≡ accepted sample_workflow
unfolding antigravity_browser.Workflow.Normalize.normalize_workflow
    antigravity_browser.Workflow.Checks.◌>>=◌ antigravity_browser.Workflow.Checks.require
    antigravity_browser.Workflow.Fields.only_keys antigravity_browser.Workflow.Json.keys_of
    antigravity_browser.Workflow.Json.field_of
    antigravity_browser.Workflow.Limits.resolve_workflow_limits
    antigravity_browser.Workflow.Limits.clamp_limit
    antigravity_browser.Workflow.Limits.default_workflow_limits
    antigravity_browser.Workflow.Json.items_of antigravity_browser.Workflow.Fields.optional_string
    antigravity_browser.Workflow.Checks.optional antigravity_browser.Workflow.Normalize.check_uuid
    antigravity_browser.Workflow.Normalize.uuid_from
    antigravity_browser.Workflow.Fields.optional_tab_id
    antigravity_browser.Workflow.Checks.check_all
    antigravity_browser.Workflow.Fields.bounded_integer
    antigravity_browser.Workflow.Fields.bounded_text
    antigravity_browser.Workflow.Fields.is_opaque_ref antigravity_browser.Workflow.Fields.named
    antigravity_browser.Workflow.Fields.opaque_ref
    antigravity_browser.Workflow.Fields.validate_target
    antigravity_browser.Workflow.Normalize.distinct antigravity_browser.Workflow.Normalize.has
    antigravity_browser.Workflow.Normalize.stop_on_of
    antigravity_browser.Workflow.Steps.normalize_click
    antigravity_browser.Workflow.Steps.normalize_scroll
    antigravity_browser.Workflow.Steps.normalize_step
    antigravity_browser.Workflow.Choices.scroll_amount antigravity_browser.Base.member
    antigravity_browser.Base.text_eq antigravity_browser.Automation.get_automation_policy
    antigravity_browser.Base.starts_with
sample_accepted = refl

normalize_workflow-WorkflowWithin_example :
    WithinCeilings (resolve_workflow_limits none)
    × WorkflowWithin (resolve_workflow_limits none) sample_workflow
normalize_workflow-WorkflowWithin_example =
    normalize_workflow-WorkflowWithin no_url none no_options sample sample_workflow sample_accepted

-- A session in which the first status after a step shows a person in control.
abbrev quiet_turn : Turn
quiet_turn = record {
  checked_at = 10;
  started_at = 10;
  called_at = 10;
  aborted = false;
  answers = λ i. resolved null;
  overdue = false;
  status = record {
    at = 20;
    aborted = false;
    answer = some (object (field (codes "state") (string (codes "HUMAN_TAKEOVER")) bare));
  };
  ended_at = 20;
}

abbrev sample_session : Session
sample_session = record {
  started_at = 0;
  initial = record { at = 0; aborted = false; answer = none };
  turns = λ i. quiet_turn;
  finished_at = 30;
}

abbrev sample_guards : StepGuards
sample_guards = record {
  action_id = some sample_id;
  expected_page_revision = some 3;
  expected_tab_id = none;
}

abbrev sample_job : Job
sample_job = record {
  workflow = record sample_workflow { max_duration_ms = 1000; max_result_bytes = 1000 };
  guards = sample_guards;
  max_duration_ms = 1000;
  max_result_bytes = 1000;
}

-- Every step counts ten bytes, every code unit one, and the first bytes decode to that many code
-- units and a replacement character.
abbrev sample_measures : Measures
sample_measures = record {
  size = λ r. 100 + 10 * length r.steps;
  byte_length = length;
  decode_prefix = λ s n. take n s ++ (65533 ∷ []);
}

run_uncached-IsQuiet_example :
    (is_challenged (initial_of sample_job sample_session) ≡ true
      → (run_uncached no_url sample_measures sample_job sample_session).events
        ≡ observed (initial_of sample_job sample_session) ∷ [])
    × IsQuiet (after_first (run_uncached no_url sample_measures sample_job sample_session).events)
run_uncached-IsQuiet_example = run_uncached-IsQuiet no_url sample_measures sample_job sample_session

-- A session that a person has already taken over.
abbrev taken_over : Session
taken_over = record sample_session { initial = quiet_turn.status }

abbrev is_call : Event → Bool
is_call (called c) = true
is_call (observed s) = false

-- It gets a call all the same.
taken_over_at_start :
    any is_call (run_uncached no_url sample_measures sample_job taken_over).events ≡ true
unfolding run_uncached antigravity_browser.Workflow.Json.field_of text_eq
    antigravity_browser.Workflow.Loop.next_of antigravity_browser.Workflow.Status.status_stop_reason
taken_over_at_start = refl

sample_within : All (StepWithin (resolve_workflow_limits none)) sample_workflow.steps
sample_within = normalize_workflow-WorkflowWithin_example.1.steps

run_uncached-GuardedOnce_example :
    GuardedOnce sample_guards
      (write_guards (run_uncached no_url sample_measures sample_job sample_session).events)
run_uncached-GuardedOnce_example =
    run_uncached-GuardedOnce no_url sample_measures (resolve_workflow_limits none) sample_job
      sample_session sample_within

run_steps-Timeline_example :
    let p =
      run_steps no_url sample_measures.byte_length
        (settings_of sample_job 0)
        0
        none
        sample_workflow.steps
        sample_session.turns in
    Timeline 0 sample_workflow.steps p.reports p.reason
run_steps-Timeline_example =
    run_steps-Timeline no_url sample_measures.byte_length (settings_of sample_job 0) 0 none
      sample_workflow.steps sample_session.turns

abbrev wide : SnapshotSummary
wide = record {
  tab_id = none;
  snapshot_id = some (codes "s1");
  page_revision = some 4;
  format = none;
  content = some (codes "a long text of the page that does not fit");
  content_bytes = some 41;
  truncated = none;
}

abbrev wide_report : ℕ → StepReport
wide_report i = record {
  index = i;
  step = scroll down 1 none;
  status = success;
  elapsed_ms = 5;
  page_revision = some 4;
  summary = some (captured wide);
  error = none;
}

abbrev wide_result : WorkflowResult
wide_result = record {
  ok = true;
  status = finished;
  stop_reason = completed;
  steps = wide_report 0 ∷ wide_report 1 ∷ [];
  completed_steps = some 2;
  elapsed_ms = some 12;
  result_bytes = 0;
  truncated = some false;
}

length-append_le : (a b : Text) → length a ≤ length (a ++ b)
length-append_le [] b = omega arith
length-append_le (c ∷ a) b = ground (arith, length-append_le a b)

sample_measures-Cuts : Cuts sample_measures
sample_measures-Cuts =
    (λ s n. (take n s, 1, refl, omega (arith, length-take n s)), λ a b. length-append_le a b)

bound_result-Fits_example :
    (out : WorkflowResult) × (bound_result sample_measures 20 110 wide_result ≡ some out)
    × (verdict out ≡ verdict wide_result)
    × Fits sample_measures 110 wide_result out
    × ((measured sample_measures wide_result).1 ≤ 110 → out.steps ≡ wide_result.steps)
unfolding weight weight_summary weight_error
bound_result-Fits_example =
    bound_result-Fits sample_measures 20 110 wide_result sample_measures-Cuts (omega arith)

abbrev outline : Option WorkflowResult → Option (Bool × ResultStatus × Option ℕ × ℕ)
outline none = none
outline (some r) = some (r.ok, r.status, r.completed_steps, length r.steps)

-- Where the second report is dropped, the result counts one completed step and still says that the
-- workflow of two steps is completed.
counts_what_is_left :
    outline (bound_result sample_measures 20 110 wide_result) ≡ some (true, finished, some 1, 1)
unfolding bound_result antigravity_browser.Workflow.Result.without_replacements
counts_what_is_left = refl

abbrev sample_host : Host
sample_host = record {
  parse_url = no_url;
  measures = sample_measures;
  other_number = λ n. [];
  sha256 = λ s. s;
}

abbrev run_options : RunOptions
run_options = record {
  action_id = none;
  expected_tab_id = none;
  expected_page_revision = some (whole 3);
  max_duration_ms = some (whole 1000);
  max_result_bytes = some (whole 1000);
}

abbrev sample_prepared : Prepared
sample_prepared = record {
  job = sample_job;
  action_id = some sample_id;
  request = record {
    steps = sample_workflow.steps;
    expected_page_revision = some 3;
    expected_tab_id = none;
    max_duration_ms = 1000;
    max_result_bytes = 1000;
    stop_on = [];
  };
}

sample_prepares :
    prepare sample_host (resolve_workflow_limits none) sample run_options ≡ accepted sample_prepared
unfolding antigravity_browser.Workflow.Cache.prepare
    antigravity_browser.Workflow.Normalize.normalize_workflow
    antigravity_browser.Workflow.Checks.◌>>=◌ antigravity_browser.Workflow.Checks.require
    antigravity_browser.Workflow.Fields.only_keys antigravity_browser.Workflow.Json.keys_of
    antigravity_browser.Workflow.Json.field_of
    antigravity_browser.Workflow.Limits.resolve_workflow_limits
    antigravity_browser.Workflow.Limits.clamp_limit
    antigravity_browser.Workflow.Limits.default_workflow_limits
    antigravity_browser.Workflow.Json.items_of antigravity_browser.Workflow.Fields.optional_string
    antigravity_browser.Workflow.Checks.optional antigravity_browser.Workflow.Normalize.check_uuid
    antigravity_browser.Workflow.Normalize.uuid_from
    antigravity_browser.Workflow.Fields.optional_tab_id
    antigravity_browser.Workflow.Checks.check_all
    antigravity_browser.Workflow.Fields.bounded_integer
    antigravity_browser.Workflow.Fields.bounded_text
    antigravity_browser.Workflow.Fields.is_opaque_ref antigravity_browser.Workflow.Fields.named
    antigravity_browser.Workflow.Fields.opaque_ref
    antigravity_browser.Workflow.Fields.validate_target
    antigravity_browser.Workflow.Normalize.distinct antigravity_browser.Workflow.Normalize.has
    antigravity_browser.Workflow.Normalize.stop_on_of
    antigravity_browser.Workflow.Steps.normalize_click
    antigravity_browser.Workflow.Steps.normalize_scroll
    antigravity_browser.Workflow.Steps.normalize_step
    antigravity_browser.Workflow.Choices.scroll_amount antigravity_browser.Base.member
    antigravity_browser.Base.text_eq antigravity_browser.Automation.get_automation_policy
    antigravity_browser.Base.starts_with
sample_prepares = refl

abbrev other_call : Call
other_call = record { at = 7; value = sample; options = run_options; session = sample_session }

-- The same workflow again, after another call.
run_remembers_example :
    let l = resolve_workflow_limits none in
    let x = run_uncached no_url sample_measures sample_job sample_session in
    let first = run sample_host l 5 sample run_options sample_session [] in
    (first.0 ≡ executed x)
    × ((run sample_host l 9 sample run_options sample_session
          (run_all sample_host l (other_call ∷ []) first.1)).0
        ≡ (if text_eq
              (fingerprint sample_host l sample_prepared.request)
              (fingerprint sample_host l sample_prepared.request)
            then replayed x.result
            else throws action_id_conflict))
unfolding prune_cache lookup All
run_remembers_example =
    run_remembers sample_host (resolve_workflow_limits none) 5 sample sample run_options run_options
      sample_session sample_session [] sample_prepared sample_prepared sample_id (other_call ∷ []) 9
      sample_prepares refl refl (omega arith) (omega arith, tt) sample_prepares refl (omega arith)

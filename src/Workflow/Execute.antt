-- ===== src/Workflow/Execute.antt =====
-- A whole run (`runUncached`, src/browser/workflow.ts): what refuses it at the start, the steps, and
-- the bounded result.
use antigravity_browser.Base.{
  ℕ, suc, ◌+◌, ◌-◌, ◌/◌, Bool, true, false, not, ◌&&◌, Option, none, some, List, [], ◌∷◌, ◌==◌,
  if◌then◌else◌, length, Text, text_eq,
}
use antigravity_browser.Workflow.Types.{WorkflowStep, Workflow, UrlParts}
use antigravity_browser.Workflow.Status.{
  StopReason, completed, challenged, revision_mismatched, NormalizedStatus, revision_of,
  is_challenged, differ,
}
use antigravity_browser.Workflow.Run.{
  StepGuards, Event, observed, StatusReading, Turn, StepReport, read_status,
}
use antigravity_browser.Workflow.Loop.{Settings, first_write_from, run_steps}
use antigravity_browser.Workflow.Result.{
  WorkflowResult, finished, stopped, count_success, Measures, bound_result,
}
use antigravity_browser.Workflow.Shrink.{weight}

-- What a run meets: the clock at its start and its end, the status at the start, and the turns.
pub record Session : Type 0 where
  pub started_at : ℕ
  pub initial : StatusReading
  pub turns : ℕ → Turn
  pub finished_at : ℕ

pub record Execution : Type 0 where
  pub result : Option WorkflowResult
  pub events : List Event

-- A workflow with what the options of the run make of it.
pub record Job : Type 0 where
  pub workflow : Workflow
  pub guards : StepGuards
  pub max_duration_ms : ℕ
  pub max_result_bytes : ℕ

abbrev pub tab_of : Option NormalizedStatus → Option Text
tab_of none = none
tab_of (some s) = s.tab_id

-- Both are known and differ.
abbrev pub other_text : Option Text → Option Text → Bool
other_text (some s) (some t) = not (text_eq s t)
other_text _ _ = false

-- The reason not to start.
unfoldable pub refusal : StepGuards → Option NormalizedStatus → Option StopReason
refusal g initial =
    if other_text g.expected_tab_id (tab_of initial)
    then some revision_mismatched
    else if differ g.expected_page_revision (revision_of initial)
    then some revision_mismatched
    else if is_challenged initial
    then some challenged
    else none

abbrev is_completed : StopReason → Bool
is_completed completed = true
is_completed _ = false

unfoldable pub result_of : ℕ → List WorkflowStep → List StepReport → StopReason → WorkflowResult
unfolding count_success
result_of elapsed steps reports reason =
    let whole = is_completed reason && length reports == length steps in
    record {
      ok = whole;
      status = if whole then finished else stopped;
      stop_reason = reason;
      steps = reports;
      completed_steps = some (count_success reports);
      elapsed_ms = some elapsed;
      result_bytes = 0;
      truncated = some false;
    }

abbrev pub settings_of : Job → ℕ → Settings
settings_of job started_at = record {
  deadline = started_at + job.max_duration_ms;
  guards = job.guards;
  first_write = first_write_from 0 job.workflow.steps;
  stop_on = job.workflow.stop_on;
}

module _ (parse_url : Text → Option UrlParts) (m : Measures) where
  -- On enough fuel.
  unfoldable pub bounded : ℕ → WorkflowResult → Option WorkflowResult
  unfolding bound_result weight
  bounded max_bytes r = bound_result m (suc (weight m (max_bytes / 4) r.steps)) max_bytes r

  unfoldable pub run_uncached : Job → Session → Execution
  unfolding bounded result_of run_steps refusal read_status
  run_uncached job w =
      let s = settings_of job w.started_at in
      let initial = read_status s.deadline w.initial in
      let elapsed = w.finished_at - w.started_at in
      let steps = job.workflow.steps in
      let p = run_steps parse_url m.byte_length s 0 initial steps w.turns in
      elim (refusal job.guards initial) [
        | some reason ↦ record {
          result = bounded job.max_result_bytes (result_of elapsed [] [] reason);
          events = observed initial ∷ [];
        }
        | none ↦ record {
          result = bounded job.max_result_bytes (result_of elapsed steps p.reports p.reason);
          events = observed initial ∷ p.events;
        }
      ]

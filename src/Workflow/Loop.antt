-- ===== src/Workflow/Loop.antt =====
-- The steps one after the other (`runUncached`, src/browser/workflow.ts).
use antigravity_browser.Base.{
  ℕ, suc, ◌-◌, Bool, false, ◌&&◌, Option, none, some, List, [], ◌∷◌, ◌++◌, leb, ◌==◌, if◌then◌else◌,
  Text,
}
use antigravity_browser.Workflow.Types.{WorkflowStep, WorkflowStopTrigger, navigation, UrlParts}
use antigravity_browser.Workflow.Json.{Json}
use antigravity_browser.Workflow.Normalize.{has}
use antigravity_browser.Workflow.Status.{
  StopReason, completed, navigated, interrupted, timed_out, NormalizedStatus, status_stop_reason,
  raw_stop_reason, navigation_detected, result_revision, or_option, revision_of,
}
use antigravity_browser.Workflow.Failures.{
  ClassifiedFailure, RevisionDetails, classify_failure, error_summary,
}
use antigravity_browser.Workflow.Summary.{safe_step_summary}
use antigravity_browser.Workflow.Run.{
  StepGuards, AdapterCall, Event, called, observed, Answer, resolved, rejected, Turn, StepStatus,
  success, error, interruption, StepReport, is_write_step, no_guards, invoke, with_deadline,
  read_status,
}

-- What stays the same throughout a run.
pub record Settings : Type 0 where
  pub deadline : ℕ
  pub guards : StepGuards
  pub first_write : Option ℕ
  pub stop_on : List WorkflowStopTrigger

-- After a step: the status for the next one, or the reason to stop.
pub data Next : Type 0 where
  goes_on : Option NormalizedStatus → Next
  stops : StopReason → Next

pub record Outcome : Type 0 where
  pub report : StepReport
  pub events : List Event
  pub next : Next

pub record Progress : Type 0 where
  pub reports : List StepReport
  pub reason : StopReason
  pub events : List Event

abbrev pub all_called : List AdapterCall → List Event → List Event
all_called [] rest = rest
all_called (c ∷ cs) rest = called c ∷ all_called cs rest

abbrev is_index : ℕ → Option ℕ → Bool
is_index i none = false
is_index i (some j) = i == j

abbrev pub guards_at : Settings → ℕ → StepGuards
guards_at s i = if is_index i s.first_write then s.guards else no_guards

-- The first index from `i` of a write.
unfoldable pub first_write_from : ℕ → List WorkflowStep → Option ℕ
first_write_from i [] = none
first_write_from i (s ∷ ss) = if is_write_step s then some i else first_write_from (suc i) ss

abbrev pub runtime_stop :
    Option NormalizedStatus
    → Option NormalizedStatus
    → Json
    → List WorkflowStopTrigger
    → Option StopReason
runtime_stop before after raw stop_on =
    or_option (status_stop_reason before after stop_on) (raw_stop_reason raw stop_on)

unfoldable pub next_of :
    Option NormalizedStatus → Option NormalizedStatus → Json → List WorkflowStopTrigger → Next
next_of before after raw stop_on = elim (runtime_stop before after raw stop_on) [
  | some reason ↦ stops reason
  | none ↦
      if has navigation stop_on && navigation_detected before after raw
      then stops navigated
      else goes_on (or_option after before)
]

abbrev actual_revision : Option RevisionDetails → Option ℕ
actual_revision none = none
actual_revision (some d) = d.actual_page_revision

abbrev pub failure_status : StopReason → StepStatus
failure_status interrupted = interruption
failure_status _ = error

module _ (parse_url : Text → Option UrlParts) (byte_length : Text → ℕ) (s : Settings) where
  abbrev success_report : ℕ → WorkflowStep → Turn → Json → Option NormalizedStatus → StepReport
  success_report i step t raw after =
      let revision = or_option (revision_of after) (result_revision raw) in
      record {
        index = i;
        step = step;
        status = success;
        elapsed_ms = t.ended_at - t.started_at;
        page_revision = revision;
        summary = some (safe_step_summary parse_url byte_length step raw revision);
        error = none;
      }

  abbrev failure_report : ℕ → WorkflowStep → Turn → ClassifiedFailure → StepReport
  failure_report i step t f = record {
    index = i;
    step = step;
    status = failure_status f.reason;
    elapsed_ms = t.ended_at - t.started_at;
    page_revision = actual_revision f.details;
    summary = none;
    error = some (error_summary f);
  }

  -- What follows the calls of a step.
  unfoldable pub after_step :
      ℕ → Option NormalizedStatus → WorkflowStep → Turn → Answer × List AdapterCall → Outcome
  unfolding read_status safe_step_summary error_summary result_revision
  after_step i before step t (resolved raw, calls) =
      let after = read_status s.deadline t.status in
      record {
        report = success_report i step t raw after;
        events = all_called calls (observed after ∷ []);
        next = next_of before after raw s.stop_on;
      }
  after_step i before step t (rejected e, calls) = record {
    report = failure_report i step t (classify_failure e);
    events = all_called calls [];
    next = stops (classify_failure e).reason;
  }

  unfoldable pub attempt : ℕ → WorkflowStep → Turn → Answer × List AdapterCall
  unfolding with_deadline invoke
  attempt i step t =
      with_deadline s.deadline t.called_at t.aborted t.overdue
        (invoke step (guards_at s i) t.answers)

  unfoldable pub run_step : ℕ → Option NormalizedStatus → WorkflowStep → Turn → Outcome
  unfolding after_step attempt
  run_step i before step t = after_step i before step t (attempt i step t)

  abbrev pub idle : StopReason → Progress
  idle reason = record { reports = []; reason = reason; events = [] }

  -- With the step before the rest.
  abbrev pub extend : Outcome → Progress → Progress
  extend o rest = record {
    reports = o.report ∷ rest.reports;
    reason = rest.reason;
    events = o.events ++ rest.events;
  }

  abbrev pub next_status : Next → Option NormalizedStatus
  next_status (goes_on status) = status
  next_status (stops reason) = none

  unfoldable pub run_steps : ℕ → Option NormalizedStatus → List WorkflowStep → (ℕ → Turn) → Progress
  unfolding run_step
  run_steps i before [] turns = idle completed
  run_steps i before (step ∷ steps) turns =
      let o = run_step i before step (turns i) in
      let rest = run_steps (suc i) (next_status o.next) steps turns in
      if leb s.deadline (turns i).checked_at
      then idle timed_out
      else elim o.next [ goes_on status ↦ extend o rest | stops reason ↦ extend o (idle reason) ]

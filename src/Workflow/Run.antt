-- ===== src/Workflow/Run.antt =====
-- A run of an accepted workflow (`invoke`, `readStatus`, `withDeadline`, `runUncached`,
-- src/browser/workflow.ts). What the adapter and the clock answer is an argument, given for every
-- step; what the executor does to the adapter is recorded as events.
use antigravity_browser.Base.{
  ℕ, suc, Bool, true, false, ◌||◌, Option, none, some, List, [], ◌∷◌, leb, ◌==◌, if◌then◌else◌,
  Text,
}
use antigravity_browser.Workflow.Types.{
  WorkflowStep, open_url, click, type_text, select, scroll, wait, snapshot, WaitUntil, Target,
  opaque, by_ref, Direction, SelectChoice, of_value, one, several, WaitOptions, SnapshotOptions,
  SnapshotFormat, structured, compact,
}
use antigravity_browser.Workflow.Json.{Json, null}
use antigravity_browser.Workflow.Status.{NormalizedStatus, normalize_status, or_option}
use antigravity_browser.Workflow.Failures.{ErrorSummary, timeout_error}
use antigravity_browser.Workflow.Summary.{StepSummary}

-- The preconditions that go with the first write.
pub record StepGuards : Type 0 where
  pub action_id : Option Text
  pub expected_page_revision : Option ℕ
  pub expected_tab_id : Option Text

-- A call of the adapter, without its abort signal.
pub data AdapterCall : Type 0 where
  to_open : Text → Option WaitUntil → Option ℕ → StepGuards → AdapterCall
  to_click : Target → Option ℕ → StepGuards → AdapterCall
  to_type :
      Target → Text → Option Bool → Option Bool → Option Bool → Option ℕ → StepGuards → AdapterCall
  to_select : Target → SelectChoice → Option ℕ → StepGuards → AdapterCall
  to_scroll : Direction → ℕ → Option Target → StepGuards → AdapterCall
  to_wait : WaitOptions → AdapterCall
  to_snapshot : SnapshotOptions → AdapterCall

pub data Event : Type 0 where
  called : AdapterCall → Event
  observed : Option NormalizedStatus → Event

pub data Answer : Type 0 where
  resolved : Json → Answer
  rejected : Json → Answer

-- A reading of the status: the clock before it, whether the caller has aborted, and the answer,
-- `none` if there is no status method or it fails or the deadline comes first.
pub record StatusReading : Type 0 where
  pub at : ℕ
  pub aborted : Bool
  pub answer : Option Json

-- What a step meets: the clock at its readings, whether the caller has aborted, what the calls
-- answer one after the other, whether the deadline comes before the last of them, and the status.
pub record Turn : Type 0 where
  pub checked_at : ℕ
  pub started_at : ℕ
  pub called_at : ℕ
  pub aborted : Bool
  pub answers : ℕ → Answer
  pub overdue : Bool
  pub status : StatusReading
  pub ended_at : ℕ

-- `interruption` is `interrupted` in the code.
pub data StepStatus : Type 0 where
  success error interruption : StepStatus

pub record StepReport : Type 0 where
  pub index : ℕ
  pub step : WorkflowStep
  pub status : StepStatus
  pub elapsed_ms : ℕ
  pub page_revision : Option ℕ
  pub summary : Option StepSummary
  pub error : Option ErrorSummary

abbrev pub is_success : StepStatus → Bool
is_success success = true
is_success _ = false

abbrev pub is_write_step : WorkflowStep → Bool
is_write_step (wait o) = false
is_write_step (snapshot o) = false
is_write_step _ = true

abbrev pub adapter_target : Target → Target
adapter_target (by_ref s) = opaque s
adapter_target target = target

abbrev pub no_guards : StepGuards
no_guards = record { action_id = none; expected_page_revision = none; expected_tab_id = none }

abbrev format_of : SnapshotOptions → Option SnapshotFormat
format_of o =
    or_option o.format
      (elim o.is_compact [ none ↦ none | some b ↦ some (if b then compact else structured) ])

abbrev for_adapter : WaitOptions → WaitOptions
for_adapter o = record o {
  target = elim o.target [ none ↦ none | some t ↦ some (adapter_target t) ];
}

-- The calls that select one value after the other, the first with the guards, until one is rejected.
unfoldable pub select_values :
    Target
    → Option ℕ
    → StepGuards
    → (ℕ → Answer)
    → ℕ
    → Answer
    → List Text
    → Answer × List AdapterCall
select_values target t guards answers i result [] = (result, [])
select_values target t guards answers i result (v ∷ vs) =
    let call = to_select target (of_value v) t (if i == 0 then guards else no_guards) in
    let rest = select_values target t guards answers (suc i) (answers i) vs in
    elim (answers i) [ rejected e ↦ (rejected e, call ∷ []) | resolved r ↦ (rest.0, call ∷ rest.1) ]

-- What a step answers and the calls it makes. Calls that it makes after the deadline are among them.
unfoldable pub invoke : WorkflowStep → StepGuards → (ℕ → Answer) → Answer × List AdapterCall
unfolding select_values
invoke (open_url url w t) guards answers = (answers 0, to_open url w t guards ∷ [])
invoke (click target t) guards answers = (answers 0, to_click (adapter_target target) t guards ∷ [])
invoke (type_text target s o t) guards answers = (
  answers 0,
  to_type (adapter_target target) s (or_option o.clear_first o.clear) o.submit o.sensitive t guards
      ∷ [],
)
invoke (select target (several vs) t) guards answers =
    select_values (adapter_target target) t guards answers 0 (resolved null) vs
invoke (select target (one choice) t) guards answers =
    (answers 0, to_select (adapter_target target) choice t guards ∷ [])
invoke (scroll direction amount target) guards answers = (
  answers 0,
  to_scroll direction amount (elim target [ none ↦ none | some g ↦ some (adapter_target g) ]) guards
      ∷ [],
)
invoke (wait o) guards answers = (answers 0, to_wait (for_adapter o) ∷ [])
invoke (snapshot o) guards answers =
    (answers 0, to_snapshot (record o { is_compact = none; format = format_of o }) ∷ [])

-- The operation under the deadline: not started when the time is over or the caller has aborted.
unfoldable pub with_deadline :
    ℕ → ℕ → Bool → Bool → Answer × List AdapterCall → Answer × List AdapterCall
with_deadline deadline now aborted overdue operation =
    if leb deadline now || aborted
    then (rejected timeout_error, [])
    else if overdue
    then (rejected timeout_error, operation.1)
    else operation

unfoldable pub read_status : ℕ → StatusReading → Option NormalizedStatus
unfolding normalize_status
read_status deadline s =
    if leb deadline s.at || s.aborted
    then none
    else elim s.answer [ none ↦ none | some v ↦ some (normalize_status v) ]

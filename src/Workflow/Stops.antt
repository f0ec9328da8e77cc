-- ===== src/Workflow/Stops.antt =====
-- When a run stops, and what it has done by then (`runUncached`, src/browser/workflow.ts).
use antigravity_browser.Base.{
  ℕ, suc, ◌≡◌, refl, ap, ◌∙◌, ◌≢◌, ◌⊎◌, inl, inr, Bool, true, false, Option, none, some, List, [],
  ◌∷◌, arith, leb, if◌then◌else◌, Text, or_else, Bool-cases, codes,
}
use antigravity_browser.Workflow.Types.{WorkflowStep, WorkflowStopTrigger, UrlParts}
use antigravity_browser.Workflow.Json.{Json, text_of, get, or_null}
use antigravity_browser.Workflow.Normalize.{has}
use antigravity_browser.Workflow.Status.{
  StopReason, completed, timed_out, NormalizedStatus, status_stop_reason, raw_stop_reason,
  interrupt_stop, last, nested_stop, normalize_status, says_challenge, is_blocked, says_interrupt,
}
use antigravity_browser.Workflow.Failures.{classify_failure, failure_reason}
use antigravity_browser.Workflow.Run.{
  AdapterCall, Answer, resolved, rejected, Turn, StepReport, is_success, read_status,
}
use antigravity_browser.Workflow.Loop.{
  Settings, Next, goes_on, stops, Outcome, runtime_stop, after_step, attempt, run_step, run_steps,
  next_of,
}
use antigravity_browser.Workflow.Rounds.{run_late, Next-cases, run_goes_on, run_stops}

-- The reports are of the first steps, in order. All but the last are of successes, the run is complete
-- only where every step has one, and it is over without a report only for lack of time.
unfoldable pub Timeline : ℕ → List WorkflowStep → List StepReport → StopReason → Type 0
Timeline i steps [] reason = ((steps ≡ []) × (reason ≡ completed)) ⊎ (reason ≡ timed_out)
Timeline i [] (r ∷ rs) reason = ⊥
Timeline i (step ∷ steps) (r ∷ rs) reason =
    (r.index ≡ i)
    × (r.step ≡ step)
    × (((is_success r.status ≡ true) × Timeline (suc i) steps rs reason)
        ⊎ ((rs ≡ []) × (reason ≢ completed)))

failure_reason-incomplete : (code : Text) → failure_reason code ≢ completed
unfolding failure_reason
failure_reason-incomplete code = ground arith

interrupt_stop-incomplete :
    (type : Option Text) (stop_on : List WorkflowStopTrigger)
    → interrupt_stop type stop_on ≢ some completed
unfolding interrupt_stop has
interrupt_stop-incomplete type stop_on = ground arith

status_stop_reason-incomplete :
    (before after : Option NormalizedStatus) (stop_on : List WorkflowStopTrigger)
    → status_stop_reason before after stop_on ≢ some completed
unfolding status_stop_reason
status_stop_reason-incomplete before none stop_on = ground arith
status_stop_reason-incomplete before (some a) stop_on =
    ground (arith, interrupt_stop-incomplete (last a.recent_interrupt_types) stop_on)

nested_stop-incomplete :
    (v : Json) (s : NormalizedStatus) (stop_on : List WorkflowStopTrigger)
    → nested_stop v s stop_on ≢ some completed
unfolding nested_stop
nested_stop-incomplete v s stop_on =
    ground (arith, interrupt_stop-incomplete (last s.recent_interrupt_types) stop_on)

either-incomplete :
    (b : Bool) (x y : Option StopReason)
    → x ≢ some completed
    → y ≢ some completed
    → (if b then x else y) ≢ some completed
either-incomplete true x y p q = p
either-incomplete false x y p q = q

raw_stop_reason-incomplete :
    (v : Json) (stop_on : List WorkflowStopTrigger) → raw_stop_reason v stop_on ≢ some completed
unfolding raw_stop_reason
raw_stop_reason-incomplete v stop_on =
    let type = text_of (get (codes "interruptType") v) in
    either-incomplete (says_challenge v) _ _ (ground arith) (
      either-incomplete (is_blocked type) _ _ (interrupt_stop-incomplete type stop_on) (
        either-incomplete (says_interrupt v) _ _ (ground arith)
          (nested_stop-incomplete v (normalize_status (or_null (get (codes "status") v))) stop_on)))

runtime_stop-incomplete :
    (before after : Option NormalizedStatus) (v : Json) (stop_on : List WorkflowStopTrigger)
    → runtime_stop before after v stop_on ≢ some completed
runtime_stop-incomplete before after v stop_on = ground (
  arith,
  status_stop_reason-incomplete before after stop_on,
  raw_stop_reason-incomplete v stop_on,
)

next_of-incomplete :
    (before after : Option NormalizedStatus) (v : Json) (stop_on : List WorkflowStopTrigger)
    → next_of before after v stop_on ≢ stops completed
unfolding next_of
next_of-incomplete before after v stop_on =
    ground (arith, runtime_stop-incomplete before after v stop_on)

abbrev reason_of : Next → StopReason
reason_of (goes_on o) = completed
reason_of (stops r) = r

module _ (parse_url : Text → Option UrlParts) (byte_length : Text → ℕ) (s : Settings) where
  abbrev after :
      ℕ → Option NormalizedStatus → WorkflowStep → Turn → Answer × List AdapterCall → Outcome
  after = after_step parse_url byte_length s

  after_step-report :
      (i : ℕ) (before : Option NormalizedStatus) (step : WorkflowStep) (t : Turn)
      (p : Answer × List AdapterCall)
      → ((after i before step t p).report.index ≡ i)
        × ((after i before step t p).report.step ≡ step)
  unfolding after_step
  after_step-report i before step t (resolved v, calls) = (refl, refl)
  after_step-report i before step t (rejected e, calls) = (refl, refl)

  after_step-goes_on :
      (i : ℕ) (before : Option NormalizedStatus) (step : WorkflowStep) (t : Turn)
      (p : Answer × List AdapterCall) (status : Option NormalizedStatus)
      → (after i before step t p).next ≡ goes_on status
      → is_success (after i before step t p).report.status ≡ true
  unfolding after_step
  after_step-goes_on i before step t (resolved v, calls) status e = refl
  after_step-goes_on i before step t (rejected v, calls) status e = ground arith

  after_step-stops :
      (i : ℕ) (before : Option NormalizedStatus) (step : WorkflowStep) (t : Turn)
      (p : Answer × List AdapterCall) (reason : StopReason)
      → (after i before step t p).next ≡ stops reason
      → reason ≢ completed
  unfolding after_step classify_failure
  after_step-stops i before step t (resolved v, calls) reason e c =
      next_of-incomplete before (read_status s.deadline t.status) v s.stop_on (e ∙ ap stops c)
  after_step-stops i before step t (rejected v, calls) reason e c =
      failure_reason-incomplete (or_else (text_of (get (codes "code") v)) (codes "INTERNAL"))
        (ap reason_of e ∙ c)

  -- From any step and status on, the reports are of the steps from there, in order, one for each that
  -- was started, and all but the last are of successes. The run counts as completed only if every step
  -- has the report of a success; where no report is of a last step it is over for lack of time.
  pub run_steps-Timeline :
      (i : ℕ) (before : Option NormalizedStatus) (steps : List WorkflowStep) (turns : ℕ → Turn)
      → Timeline i steps
          (run_steps parse_url byte_length s i before steps turns).reports
          (run_steps parse_url byte_length s i before steps turns).reason
  unfolding Timeline run_step run_steps
  run_steps-Timeline i before [] turns = inl (refl, refl)
  run_steps-Timeline i before (step ∷ steps) turns =
      let p = attempt parse_url byte_length s i step (turns i) in
      let (index, same) = after_step-report i before step (turns i) p in
      elim (Bool-cases (leb s.deadline (turns i).checked_at)) [
        | inl late ↦ rw (run_late parse_url byte_length s i before step steps turns late) (inr refl)
        | inr early ↦ elim (Next-cases (after i before step (turns i) p).next) [
          | inl (o, e) ↦
              rw (run_goes_on parse_url byte_length s i before step steps turns o early e) (
                index,
                same,
                inl (
                  after_step-goes_on i before step (turns i) p o e,
                  run_steps-Timeline (suc i) o steps turns,
                ),
              )
          | inr (reason, e) ↦
              rw (run_stops parse_url byte_length s i before step steps turns reason early e)
                (index, same, inr (refl, after_step-stops i before step (turns i) p reason e))
        ]
      ]

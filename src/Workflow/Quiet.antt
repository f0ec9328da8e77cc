-- ===== src/Workflow/Quiet.antt =====
-- Nothing is done after a status that calls for a person (`statusStopReason`, `runUncached`,
-- src/browser/workflow.ts).
use antigravity_browser.Base.{
  ℕ, suc, ◌≡◌, refl, inl, inr, Bool, true, false, ◌||◌, Option, none, some, List, [], ◌∷◌, ◌++◌,
  arith, leb, Text, Bool-cases, Option-cases,
}
use antigravity_browser.Base.{codes}
use antigravity_browser.Workflow.Types.{WorkflowStep, WorkflowStopTrigger, UrlParts}
use antigravity_browser.Workflow.Json.{Json}
use antigravity_browser.Workflow.Status.{
  NormalizedStatus, status_stop_reason, is_challenged, is_text,
}
use antigravity_browser.Workflow.Run.{
  AdapterCall, Event, called, observed, Answer, resolved, rejected, Turn, read_status,
}
use antigravity_browser.Workflow.Loop.{
  Settings, goes_on, all_called, next_of, after_step, attempt, run_step, run_steps,
}
use antigravity_browser.Workflow.Rounds.{Next-cases, run_late, run_goes_on, run_stops}

-- A challenge, a person in control, or an error.
abbrev pub needs_person : Option NormalizedStatus → Bool
needs_person none = false
needs_person (some s) =
    s.challenge_detected
    || is_text (codes "HUMAN_TAKEOVER") s.state
    || is_text (codes "ERROR") s.state

-- Where a status calls for a person, it is the last event.
unfoldable pub IsQuiet : List Event → Type 0
IsQuiet [] = Unit {0}
IsQuiet (called c ∷ events) = IsQuiet events
IsQuiet (observed o ∷ events) = (needs_person o ≡ true → events ≡ []) × IsQuiet events

status_stop_reason-none :
    (before after : Option NormalizedStatus) (stop_on : List WorkflowStopTrigger)
    → is_challenged before ≡ false
    → status_stop_reason before after stop_on ≡ none
    → needs_person after ≡ false
unfolding status_stop_reason
status_stop_reason-none before none stop_on h e = refl
status_stop_reason-none before (some a) stop_on h e = ground (arith, h)

calm :
    (before after o : Option NormalizedStatus) (v : Json) (stop_on : List WorkflowStopTrigger)
    → is_challenged before ≡ false
    → needs_person after ≡ false
    → next_of before after v stop_on ≡ goes_on o
    → is_challenged o ≡ false
unfolding next_of
calm before none o v stop_on h safe e = ground (arith, h, e)
calm before (some a) o v stop_on h safe e = ground (arith, safe, e)

next_of-goes_on :
    (before after o : Option NormalizedStatus) (v : Json) (stop_on : List WorkflowStopTrigger)
    → is_challenged before ≡ false
    → next_of before after v stop_on ≡ goes_on o
    → (needs_person after ≡ false) × (is_challenged o ≡ false)
unfolding next_of
next_of-goes_on before after o v stop_on h e =
    elim (Option-cases (status_stop_reason before after stop_on)) [
      | inr (reason, k) ↦ ground (arith, k, e)
      | inl k ↦
          let safe = status_stop_reason-none before after stop_on h k in
          (safe, calm before after o v stop_on h safe e)
    ]

all_called-IsQuiet :
    (cs : List AdapterCall) (es fs : List Event)
    → IsQuiet (es ++ fs)
    → IsQuiet (all_called cs es ++ fs)
unfolding IsQuiet
all_called-IsQuiet [] es fs q = q
all_called-IsQuiet (c ∷ cs) es fs q = all_called-IsQuiet cs es fs q

module _ (parse_url : Text → Option UrlParts) (byte_length : Text → ℕ) (s : Settings) where
  after_step-last :
      (i : ℕ) (before : Option NormalizedStatus) (step : WorkflowStep) (t : Turn)
      (p : Answer × List AdapterCall)
      → IsQuiet ((after_step parse_url byte_length s i before step t p).events ++ [])
  unfolding after_step IsQuiet
  after_step-last i before step t (resolved v, calls) =
      all_called-IsQuiet calls (observed (read_status s.deadline t.status) ∷ []) []
        ((λ d. refl), tt)
  after_step-last i before step t (rejected v, calls) = all_called-IsQuiet calls [] [] tt

  after_step-calm :
      (i : ℕ) (before : Option NormalizedStatus) (step : WorkflowStep) (t : Turn)
      (p : Answer × List AdapterCall) (o : Option NormalizedStatus)
      → is_challenged before ≡ false
      → (after_step parse_url byte_length s i before step t p).next ≡ goes_on o
      → is_challenged o ≡ false
  unfolding after_step
  after_step-calm i before step t (resolved v, calls) o h e =
      (next_of-goes_on before (read_status s.deadline t.status) o v s.stop_on h e).1
  after_step-calm i before step t (rejected v, calls) o h e = ground (arith, e)

  after_step-rest :
      (i : ℕ) (before : Option NormalizedStatus) (step : WorkflowStep) (t : Turn)
      (p : Answer × List AdapterCall) (o : Option NormalizedStatus) (events : List Event)
      → is_challenged before ≡ false
      → (after_step parse_url byte_length s i before step t p).next ≡ goes_on o
      → IsQuiet events
      → IsQuiet ((after_step parse_url byte_length s i before step t p).events ++ events)
  unfolding after_step IsQuiet
  after_step-rest i before step t (resolved v, calls) o events h e q =
      let after = read_status s.deadline t.status in
      let (safe, calm) = next_of-goes_on before after o v s.stop_on h e in
      all_called-IsQuiet calls (observed after ∷ []) events ((λ d. ground (arith, safe, d)), q)
  after_step-rest i before step t (rejected v, calls) o events h e q = ground (arith, e)

  pub run_steps-IsQuiet :
      (i : ℕ) (before : Option NormalizedStatus) (steps : List WorkflowStep) (turns : ℕ → Turn)
      → is_challenged before ≡ false
      → IsQuiet (run_steps parse_url byte_length s i before steps turns).events
  unfolding run_steps run_step IsQuiet
  run_steps-IsQuiet i before [] turns h = tt
  run_steps-IsQuiet i before (step ∷ steps) turns h =
      let p = attempt parse_url byte_length s i step (turns i) in
      elim (Bool-cases (leb s.deadline (turns i).checked_at)) [
        | inl late ↦ rw (run_late parse_url byte_length s i before step steps turns late) tt
        | inr early ↦
            elim (Next-cases (after_step parse_url byte_length s i before step (turns i) p).next) [
              | inl (o, e) ↦
                  let later =
                    run_steps-IsQuiet (suc i) o steps turns
                      (after_step-calm i before step (turns i) p o h e) in
                  rw (run_goes_on parse_url byte_length s i before step steps turns o early e)
                    (after_step-rest i before step (turns i) p o _ h e later)
              | inr (reason, e) ↦
                  rw (run_stops parse_url byte_length s i before step steps turns reason early e)
                    (after_step-last i before step (turns i) p)
            ]
      ]

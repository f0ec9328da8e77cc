-- ===== src/Workflow/Guarded.antt =====
-- The preconditions of a workflow go with its first write alone (`firstWriteIndex`, `guards`,
-- `invoke`, src/browser/workflow.ts).
use antigravity_browser.Base.{
  ℕ, suc, ◌<◌, ◌≡◌, refl, sym, ap, ◌∙◌, subst, inl, inr, true, false, Option, some, List, [], ◌∷◌,
  ◌++◌, arith, leb, Text, Bool-cases,
}
use antigravity_browser.Workflow.Types.{WorkflowStep, UrlParts, WorkflowLimits}
use antigravity_browser.Workflow.Json.{Json}
use antigravity_browser.Workflow.Checks.{All}
use antigravity_browser.Workflow.Status.{NormalizedStatus}
use antigravity_browser.Workflow.Run.{
  StepGuards, AdapterCall, Event, observed, Answer, resolved, rejected, Turn, is_write_step,
  no_guards, invoke, read_status,
}
use antigravity_browser.Workflow.Loop.{
  Settings, goes_on, guards_at, first_write_from, after_step, attempt, run_step, run_steps,
}
use antigravity_browser.Workflow.Rounds.{Next-cases, run_late, run_goes_on, run_stops}
use antigravity_browser.Workflow.Within.{StepWithin}
use antigravity_browser.Workflow.Writes.{
  guards_of, calls_of, AllPlain, GuardedOnce, invoke-GuardedOnce, invoke-reads, invoke-writes,
  plain_once, All-append, GuardedOnce-append, nothing, GuardedOnce-alone, guards_of-append,
  calls_of-all_called, with_deadline-resolved, with_deadline-calls, write_guards,
}

module _ (parse_url : Text → Option UrlParts) (byte_length : Text → ℕ) (s : Settings) where
  after_step-calls :
      (i : ℕ) (before : Option NormalizedStatus) (step : WorkflowStep) (t : Turn)
      (p : Answer × List AdapterCall) (fs : List Event)
      → write_guards ((after_step parse_url byte_length s i before step t p).events ++ fs)
        ≡ guards_of p.1 ++ write_guards fs
  unfolding after_step calls_of
  after_step-calls i before step t (resolved v, calls) fs =
      ap guards_of (calls_of-all_called calls (observed (read_status s.deadline t.status) ∷ []) fs)
      ∙ guards_of-append calls (calls_of fs)
  after_step-calls i before step t (rejected v, calls) fs =
      ap guards_of (calls_of-all_called calls [] fs) ∙ guards_of-append calls (calls_of fs)

  after_step-resolved :
      (i : ℕ) (before : Option NormalizedStatus) (step : WorkflowStep) (t : Turn)
      (p : Answer × List AdapterCall) (o : Option NormalizedStatus)
      → (after_step parse_url byte_length s i before step t p).next ≡ goes_on o
      → (v : Json) × (p.0 ≡ resolved v)
  unfolding after_step
  after_step-resolved i before step t (resolved v, calls) o e = (v, refl)
  after_step-resolved i before step t (rejected v, calls) o e = absurd (ground (arith, e))

  -- A step that goes on has made its calls.
  after_step-made :
      (i : ℕ) (before : Option NormalizedStatus) (step : WorkflowStep) (t : Turn)
      (o : Option NormalizedStatus)
      → (run_step parse_url byte_length s i before step t).next ≡ goes_on o
      → (attempt parse_url byte_length s i step t).1 ≡ (invoke step (guards_at s i) t.answers).1
  unfolding run_step attempt
  after_step-made i before step t o e =
      let p = attempt parse_url byte_length s i step t in
      let (v, h) = after_step-resolved i before step t p o e in
      with_deadline-resolved s.deadline t.called_at t.aborted t.overdue _ v h

  attempt-GuardedOnce :
      (i : ℕ) (step : WorkflowStep) (t : Turn)
      → GuardedOnce (guards_at s i) (guards_of (attempt parse_url byte_length s i step t).1)
  unfolding attempt GuardedOnce guards_of
  attempt-GuardedOnce i step t =
      let op = invoke step (guards_at s i) t.answers in
      elim (with_deadline-calls s.deadline t.called_at t.aborted t.overdue op) [
        | inl none_made ↦ rw none_made tt
        | inr made ↦ rw made (invoke-GuardedOnce step (guards_at s i) t.answers)
      ]

  -- After the first write no call has guards.
  run_steps-AllPlain :
      (i j : ℕ) (before : Option NormalizedStatus) (steps : List WorkflowStep) (turns : ℕ → Turn)
      → s.first_write ≡ some j
      → j < i
      → AllPlain (write_guards (run_steps parse_url byte_length s i before steps turns).events)
  unfolding run_steps guards_of calls_of All run_step
  run_steps-AllPlain i j before [] turns f h = tt
  run_steps-AllPlain i j before (step ∷ steps) turns f h =
      let p = attempt parse_url byte_length s i step (turns i) in
      let plain : guards_at s i ≡ no_guards = ground (arith, f, h) in
      let mine : AllPlain (guards_of p.1) =
        plain_once (guards_of p.1) (
          subst (λ g. GuardedOnce g (guards_of p.1)) plain
            (attempt-GuardedOnce i step (turns i))) in
      elim (Bool-cases (leb s.deadline (turns i).checked_at)) [
        | inl late ↦ rw (run_late parse_url byte_length s i before step steps turns late) tt
        | inr early ↦
            elim (Next-cases (after_step parse_url byte_length s i before step (turns i) p).next) [
              | inl (o, e) ↦
                  let later = run_steps-AllPlain (suc i) j o steps turns f (omega (arith, h)) in
                  rw
                    (
                      run_goes_on parse_url byte_length s i before step steps turns o early e,
                      after_step-calls i before step (turns i) p
                          (run_steps parse_url byte_length s (suc i) o steps turns).events,
                    )
                    (All-append (guards_of p.1) _ mine later)
              | inr (reason, e) ↦
                  rw
                    (
                      run_stops parse_url byte_length s i before step steps turns reason early e,
                      after_step-calls i before step (turns i) p [],
                    )
                    (All-append (guards_of p.1) [] mine tt)
            ]
      ]

  attempt-reads :
      (i : ℕ) (step : WorkflowStep) (t : Turn)
      → is_write_step step ≡ false
      → guards_of (attempt parse_url byte_length s i step t).1 ≡ []
  unfolding attempt guards_of
  attempt-reads i step t h =
      let op = invoke step (guards_at s i) t.answers in
      elim (with_deadline-calls s.deadline t.called_at t.aborted t.overdue op) [
        | inl none_made ↦ rw none_made refl
        | inr made ↦ rw made (invoke-reads step (guards_at s i) t.answers h)
      ]

  module _ (l : WorkflowLimits) where
    first_guards :
        (i : ℕ) (step : WorkflowStep) (steps : List WorkflowStep)
        → s.first_write ≡ first_write_from i (step ∷ steps)
        → is_write_step step ≡ true
        → (s.first_write ≡ some i) × (guards_at s i ≡ s.guards)
    unfolding first_write_from
    first_guards i step steps f h = ground (arith, f, h)

    -- What the calls of a step leave for the later ones.
    joined :
        (i : ℕ) (step : WorkflowStep) (steps : List WorkflowStep) (t : Turn)
        (later : List StepGuards) (before o : Option NormalizedStatus)
        → s.first_write ≡ first_write_from i (step ∷ steps)
        → StepWithin l step
        → (run_step parse_url byte_length s i before step t).next ≡ goes_on o
        → (s.first_write ≡ some i → AllPlain later)
        → (s.first_write ≡ first_write_from (suc i) steps → GuardedOnce s.guards later)
        → GuardedOnce s.guards (guards_of (attempt parse_url byte_length s i step t).1 ++ later)
    unfolding first_write_from
    joined i step steps t later before o f v e plain once = elim (Bool-cases (is_write_step step)) [
      | inl write ↦
          let (here, same) = first_guards i step steps f write in
          let mine =
            subst (λ g. GuardedOnce g (guards_of (attempt parse_url byte_length s i step t).1)) same
              (attempt-GuardedOnce i step t) in
          GuardedOnce-append s.guards _ later mine (plain here) (λ n.
            invoke-writes l step (guards_at s i) t.answers v write
              (ap guards_of (sym (after_step-made i before step t o e)) ∙ n))
      | inr read ↦ rw (attempt-reads i step t read) (once (f ∙ rw read refl))
    ]

    ended :
        (i : ℕ) (step : WorkflowStep) (steps : List WorkflowStep) (t : Turn)
        → s.first_write ≡ first_write_from i (step ∷ steps)
        → GuardedOnce s.guards (guards_of (attempt parse_url byte_length s i step t).1 ++ [])
    ended i step steps t f = elim (Bool-cases (is_write_step step)) [
      | inl write ↦
          let (here, same) = first_guards i step steps f write in
          GuardedOnce-alone s.guards _ (
            subst (λ g. GuardedOnce g (guards_of (attempt parse_url byte_length s i step t).1)) same
              (attempt-GuardedOnce i step t))
      | inr read ↦
          rw (attempt-reads i step t read) (GuardedOnce-alone s.guards [] (nothing s.guards))
    ]

    pub run_steps-GuardedOnce :
        (i : ℕ) (before : Option NormalizedStatus) (steps : List WorkflowStep) (turns : ℕ → Turn)
        → s.first_write ≡ first_write_from i steps
        → All (StepWithin l) steps
        → GuardedOnce s.guards
            (write_guards (run_steps parse_url byte_length s i before steps turns).events)
    unfolding run_steps guards_of calls_of GuardedOnce All run_step first_write_from
    run_steps-GuardedOnce i before [] turns f v = tt
    run_steps-GuardedOnce i before (step ∷ steps) turns f v =
        let p = attempt parse_url byte_length s i step (turns i) in
        elim (Bool-cases (leb s.deadline (turns i).checked_at)) [
          | inl late ↦ rw (run_late parse_url byte_length s i before step steps turns late) tt
          | inr early ↦
              elim (Next-cases
                (after_step parse_url byte_length s i before step (turns i) p).next) [
                  | inl (o, e) ↦
                      rw
                        (
                          run_goes_on parse_url byte_length s i before step steps turns o early e,
                          after_step-calls i before step (turns i) p
                              (run_steps parse_url byte_length s (suc i) o steps turns).events,
                        )
                        (joined i step steps (turns i) _ before o f v.0 e
                          (λ here. run_steps-AllPlain (suc i) i o steps turns here (omega arith))
                          (λ later. run_steps-GuardedOnce (suc i) o steps turns later v.1))
                  | inr (reason, e) ↦
                      rw
                        (
                          run_stops parse_url byte_length s i before step steps turns reason early
                              e,
                          after_step-calls i before step (turns i) p [],
                        )
                        (ended i step steps (turns i) f)
                ]
        ]

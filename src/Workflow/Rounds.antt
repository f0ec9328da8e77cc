-- ===== src/Workflow/Rounds.antt =====
-- One round of the loop over the steps, by how it ends (`runUncached`, src/browser/workflow.ts).
use antigravity_browser.Base.{
  ℕ, suc, ◌≡◌, refl, ap, ◌⊎◌, inl, inr, true, false, Option, List, ◌∷◌, leb, Text,
}
use antigravity_browser.Workflow.Types.{WorkflowStep, UrlParts}
use antigravity_browser.Workflow.Status.{StopReason, timed_out, NormalizedStatus}
use antigravity_browser.Workflow.Run.{Turn}
use antigravity_browser.Workflow.Loop.{
  Settings, Next, goes_on, stops, Progress, run_step, idle, extend, next_status, run_steps,
}

pub Next-cases :
    (n : Next)
    → ((o : Option NormalizedStatus) × (n ≡ goes_on o)) ⊎ ((r : StopReason) × (n ≡ stops r))
Next-cases (goes_on o) = inl (o, refl)
Next-cases (stops r) = inr (r, refl)

module _ (parse_url : Text → Option UrlParts) (byte_length : Text → ℕ) (s : Settings) where
  abbrev run : ℕ → Option NormalizedStatus → List WorkflowStep → (ℕ → Turn) → Progress
  run = run_steps parse_url byte_length s

  pub run_late :
      (i : ℕ) (before : Option NormalizedStatus) (step : WorkflowStep) (steps : List WorkflowStep)
      (turns : ℕ → Turn)
      → leb s.deadline (turns i).checked_at ≡ true
      → run i before (step ∷ steps) turns ≡ idle parse_url byte_length s timed_out
  unfolding run_steps
  run_late i before step steps turns h = rw h refl

  pub run_goes_on :
      (i : ℕ) (before : Option NormalizedStatus) (step : WorkflowStep) (steps : List WorkflowStep)
      (turns : ℕ → Turn) (status : Option NormalizedStatus)
      → leb s.deadline (turns i).checked_at ≡ false
      → (run_step parse_url byte_length s i before step (turns i)).next ≡ goes_on status
      → run i before (step ∷ steps) turns
        ≡ extend parse_url byte_length s
            (run_step parse_url byte_length s i before step (turns i))
            (run (suc i) status steps turns)
  unfolding run_steps
  run_goes_on i before step steps turns status h e =
      rw (h, e)
        (ap
          (λ n.
            extend parse_url byte_length s
              (run_step parse_url byte_length s i before step (turns i))
              (run (suc i) (next_status parse_url byte_length s n) steps turns))
          e)

  pub run_stops :
      (i : ℕ) (before : Option NormalizedStatus) (step : WorkflowStep) (steps : List WorkflowStep)
      (turns : ℕ → Turn) (reason : StopReason)
      → leb s.deadline (turns i).checked_at ≡ false
      → (run_step parse_url byte_length s i before step (turns i)).next ≡ stops reason
      → run i before (step ∷ steps) turns
        ≡ extend parse_url byte_length s
            (run_step parse_url byte_length s i before step (turns i))
            (idle parse_url byte_length s reason)
  unfolding run_steps
  run_stops i before step steps turns reason h e = rw (h, e) refl

-- ===== src/Workflow/Runs.antt =====
-- What holds of a whole run (`runUncached`, src/browser/workflow.ts).
use antigravity_browser.Base.{
  ◌≡◌, refl, inl, inr, true, false, Option, none, List, [], ◌∷◌, arith, Text, Option-cases,
}
use antigravity_browser.Workflow.Types.{WorkflowLimits, UrlParts}
use antigravity_browser.Workflow.Checks.{All}
use antigravity_browser.Workflow.Status.{NormalizedStatus, is_challenged}
use antigravity_browser.Workflow.Run.{Event, observed, read_status}
use antigravity_browser.Workflow.Result.{Measures}
use antigravity_browser.Workflow.Within.{StepWithin}
use antigravity_browser.Workflow.Quiet.{IsQuiet, run_steps-IsQuiet}
use antigravity_browser.Workflow.Writes.{GuardedOnce, guards_of, calls_of, write_guards}
use antigravity_browser.Workflow.Guarded.{run_steps-GuardedOnce}
use antigravity_browser.Workflow.Execute.{Job, Session, refusal, settings_of, run_uncached}

abbrev pub initial_of : Job → Session → Option NormalizedStatus
initial_of job w = read_status (settings_of job w.started_at).deadline w.initial

-- What comes after the first reading of the status.
abbrev pub after_first : List Event → List Event
after_first [] = []
after_first (e ∷ events) = events

refusal-challenged :
    (job : Job) (initial : Option NormalizedStatus)
    → refusal job.guards initial ≡ none
    → is_challenged initial ≡ false
unfolding refusal
refusal-challenged job initial n = ground (arith, n)

-- A session whose first status shows a challenge gets no call at all; a person in control or an error
-- in that first status does not keep the run from starting. Once a later status, one that is read
-- after a step, shows a challenge, a person in control or an error, the run makes no further call and
-- reads no further status, whatever the triggers of the workflow are.
pub run_uncached-IsQuiet :
    (parse_url : Text → Option UrlParts) (m : Measures) (job : Job) (w : Session)
    → (is_challenged (initial_of job w) ≡ true
        → (run_uncached parse_url m job w).events ≡ observed (initial_of job w) ∷ [])
      × IsQuiet (after_first (run_uncached parse_url m job w).events)
unfolding run_uncached IsQuiet
run_uncached-IsQuiet parse_url m job w =
    elim (Option-cases (refusal job.guards (initial_of job w))) [
      | inr (reason, h) ↦ ((λ c. rw (run_uncached, h) refl), rw (run_uncached, h) tt)
      | inl h ↦
          let calm = refusal-challenged job (initial_of job w) h in
          (
            (λ c. absurd (ground (arith, calm, c))),
            rw (run_uncached, h)
                (run_steps-IsQuiet parse_url m.byte_length (settings_of job w.started_at) 0
                  (initial_of job w) job.workflow.steps w.turns calm),
          )
    ]

-- The action id, the expected revision and the expected tab of a run whose steps are accepted go with
-- the first call that writes, and with no other: a selection of several values sends them once.
pub run_uncached-GuardedOnce :
    (parse_url : Text → Option UrlParts) (m : Measures) (l : WorkflowLimits) (job : Job)
    (w : Session)
    → All (StepWithin l) job.workflow.steps
    → GuardedOnce job.guards (write_guards (run_uncached parse_url m job w).events)
unfolding run_uncached calls_of guards_of GuardedOnce
run_uncached-GuardedOnce parse_url m l job w v =
    elim (Option-cases (refusal job.guards (initial_of job w))) [
      | inr (reason, h) ↦ rw (run_uncached, h) tt
      | inl h ↦
          rw (run_uncached, h)
            (run_steps-GuardedOnce parse_url m.byte_length (settings_of job w.started_at) l 0
              (initial_of job w) job.workflow.steps w.turns refl v)
    ]

-- ===== src/Workflow/Within.antt =====
-- What it is for a step and a workflow to be within the limits (src/browser/workflow.ts).
use antigravity_browser.Base.{
  ℕ, ◌+◌, ◌≤◌, ◌≡◌, refl, true, not, ◌&&◌, ◌||◌, Option, none, some, List, arith, ltb, leb, length,
  Text, is_some,
}
use antigravity_browser.Workflow.Types.{
  WorkflowLimits, WaitOptions, SnapshotOptions, WorkflowStep, open_url, click, type_text, select,
  scroll, wait, snapshot, Workflow,
}
use antigravity_browser.Workflow.Json.{
  Json, null, string, array, object, number, flag, max_safe_integer,
}
use antigravity_browser.Workflow.Checks.{
  Ensures, it_holds, not_accepted, Given, All, Ensures-optional, Ensures-if, Ensures-unless,
  Ensures-weaken, require-Ensures,
}
use antigravity_browser.Workflow.Fields.{is_opaque_ref, optional_timeout, validate_target, required}
use antigravity_browser.Workflow.Choices.{flags_agree, typed_text}
use antigravity_browser.Workflow.Normalize.{within_steps, is_uuid, check_uuid}
use antigravity_browser.Workflow.Accepted.{
  Sized, Between, TargetWithin, SelectionWithin, count_given, in_range-Ensures, required-Ensures,
  validate_target-Ensures,
}

abbrev pub Timeout : Option ℕ → Type 0
Timeout = Given (Between 1 300000)

-- A duration, a condition or a target.
pub record WaitWithin (o : WaitOptions) : Type 0 where
  pub alone : count_given o.duration_ms + count_given o.condition + count_given o.target ≡ 1
  pub duration : Given (Between 1 10000) o.duration_ms
  pub condition : Given (λ c. is_opaque_ref c.ref ≡ true) o.condition
  pub target : Given TargetWithin o.target
  pub patience : Given (Between 1 10000) o.timeout_ms

pub record SnapshotWithin (l : WorkflowLimits) (o : SnapshotOptions) : Type 0 where
  pub nodes : Given (Between 1 2000) o.max_nodes
  pub chars : Given (Between 100 50000) o.max_chars
  pub bytes : Given (Between 100 l.max_snapshot_bytes) o.max_bytes

unfoldable pub StepWithin : WorkflowLimits → WorkflowStep → Type 0
StepWithin l (open_url u w t) = Sized 2048 u × Timeout t
StepWithin l (click target t) = TargetWithin target × Timeout t
StepWithin l (type_text target s o t) =
    TargetWithin target
    × (length s ≤ 10000)
    × (flags_agree o.clear o.clear_first ≡ true)
    × Timeout t
StepWithin l (select target chosen t) = TargetWithin target × SelectionWithin chosen × Timeout t
StepWithin l (scroll d n target) = Between 1 l.max_scroll_amount n × Given TargetWithin target
StepWithin l (wait o) = WaitWithin o
StepWithin l (snapshot o) = SnapshotWithin l o

pub record WorkflowWithin (l : WorkflowLimits) (w : Workflow) : Type 0 where
  pub count : Between 1 l.max_steps (length w.steps)
  pub steps : All (StepWithin l) w.steps
  pub duration : Between 1 l.max_duration_ms w.max_duration_ms
  pub result : Between 100 l.max_result_bytes w.max_result_bytes
  pub action : Given (λ s. is_uuid s ≡ true) w.action_id
  pub revision : Given (λ n. n ≤ max_safe_integer) w.expected_page_revision

pub optional_timeout-Ensures : (o : Option Json) → Ensures Timeout (optional_timeout o)
optional_timeout-Ensures o = Ensures-optional _ o (in_range-Ensures 1 300000)

pub target-Ensures : (o : Option Json) → Ensures TargetWithin (required validate_target o)
target-Ensures o = required-Ensures validate_target o validate_target-Ensures

pub typed_text-Ensures : (v : Json) → Ensures (λ s. length s ≤ 10000) (typed_text v)
typed_text-Ensures (string s) = Ensures-if _ _ s (λ e. ground (arith, e))
typed_text-Ensures null = not_accepted
typed_text-Ensures (flag x) = not_accepted
typed_text-Ensures (number k) = not_accepted
typed_text-Ensures (array vs) = not_accepted
typed_text-Ensures (object fs) = not_accepted

pub fewer : {n m : ℕ} (a : ℕ) (o : Option ℕ) → n ≤ m → Given (Between a n) o → Given (Between a m) o
unfolding Given
fewer a none h g = tt
fewer a (some k) h g = (g.0, omega (arith, h, g.1))

-- Some, not the first with another, and not both others.
pub wait_alone :
    {A B C : Type 0} (a : Option A) (b : Option B) (c : Option C)
    → (is_some a || is_some b || is_some c) ≡ true
    → not (is_some a && (is_some b || is_some c)) ≡ true
    → not (is_some b && is_some c) ≡ true
    → count_given a + count_given b + count_given c ≡ 1
wait_alone none none none p q r = cc
wait_alone none none (some c) p q r = refl
wait_alone none (some b) none p q r = refl
wait_alone none (some b) (some c) p q r = cc
wait_alone (some a) none none p q r = refl
wait_alone (some a) none (some c) p q r = cc
wait_alone (some a) (some b) none p q r = cc
wait_alone (some a) (some b) (some c) p q r = cc

pub within_steps-Ensures :
    (n : ℕ) (vs : List Json) → Ensures (λ u. Between 1 n (length vs)) (within_steps n vs)
within_steps-Ensures n vs = Ensures-unless _ (ltb n (length vs)) _ (λ few.
    Ensures-weaken _ (require-Ensures (leb 1 (length vs))) (λ u full. ground (arith, few, full)))

pub uuid-Ensures : (o : Option Text) → Ensures (λ u. Given (λ s. is_uuid s ≡ true) o) (check_uuid o)
unfolding check_uuid Given
uuid-Ensures none = it_holds tt
uuid-Ensures (some s) = require-Ensures (is_uuid s)

pub at_most :
    (o : Option ℕ) → Given (Between 0 max_safe_integer) o → Given (λ n. n ≤ max_safe_integer) o
unfolding Given
at_most none g = tt
at_most (some n) g = g.1

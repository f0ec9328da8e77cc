-- ===== src/Workflow/Limits.antt =====
-- The limits of a workflow (`clampLimit`, `resolveWorkflowLimits`, `workflowLimitsForPolicy`,
-- src/browser/workflow.ts).
use antigravity_browser.Base.{ℕ, ◌≤◌, min, max, Option, some, arith, if◌then◌else◌, or_else}
use antigravity_browser.Workflow.Types.{WorkflowLimits}
use antigravity_browser.Workflow.Json.{Num, whole, negative_whole, is_safe}
use antigravity_browser.Automation.{
  AutomationPolicyLimits, hard_automation_limits, get_automation_policy, standard,
}

abbrev pub min_workflow_result_bytes : ℕ
min_workflow_result_bytes = 100

-- The limits a caller asks for, each a number of any kind.
pub record RequestedLimits : Type 0 where
  pub max_steps : Num
  pub max_duration_ms : Num
  pub max_result_bytes : Num
  pub max_snapshot_bytes : Num
  pub max_scroll_amount : Num

-- The bounds are not negative.
unfoldable pub clamp_limit : Num → ℕ → ℕ → ℕ → ℕ
clamp_limit (whole n) minimum maximum fallback =
    if is_safe n then max minimum (min maximum n) else fallback
clamp_limit (negative_whole n) minimum maximum fallback = if is_safe n then minimum else fallback
clamp_limit _ minimum maximum fallback = fallback

unfoldable pub default_workflow_limits : WorkflowLimits
unfolding get_automation_policy
default_workflow_limits = record {
  max_steps = (get_automation_policy standard).max_workflow_steps;
  max_duration_ms = (get_automation_policy standard).max_workflow_duration_ms;
  max_result_bytes = (get_automation_policy standard).max_workflow_result_bytes;
  max_snapshot_bytes = (get_automation_policy standard).snapshot_max_snapshot_bytes;
  max_scroll_amount = (get_automation_policy standard).max_scroll_amount;
}

abbrev pub requested : WorkflowLimits → RequestedLimits
requested l = record {
  max_steps = whole l.max_steps;
  max_duration_ms = whole l.max_duration_ms;
  max_result_bytes = whole l.max_result_bytes;
  max_snapshot_bytes = whole l.max_snapshot_bytes;
  max_scroll_amount = whole l.max_scroll_amount;
}

unfoldable pub resolve_workflow_limits : Option RequestedLimits → WorkflowLimits
resolve_workflow_limits limits =
    let r = or_else limits (requested default_workflow_limits) in
    let hard = hard_automation_limits in
    let usual = default_workflow_limits in
    record {
      max_steps = clamp_limit r.max_steps 1 hard.max_workflow_steps usual.max_steps;
      max_duration_ms =
          clamp_limit r.max_duration_ms 1 hard.max_workflow_duration_ms usual.max_duration_ms;
      max_result_bytes =
          clamp_limit r.max_result_bytes min_workflow_result_bytes hard.max_workflow_result_bytes
            usual.max_result_bytes;
      max_snapshot_bytes =
          clamp_limit r.max_snapshot_bytes 100 hard.snapshot_max_snapshot_bytes
            usual.max_snapshot_bytes;
      max_scroll_amount =
          clamp_limit r.max_scroll_amount 1 hard.max_scroll_amount usual.max_scroll_amount;
    }

unfoldable pub workflow_limits_for_policy : AutomationPolicyLimits → WorkflowLimits
unfolding resolve_workflow_limits
workflow_limits_for_policy p = resolve_workflow_limits (
    some (record {
      max_steps = whole p.max_workflow_steps;
      max_duration_ms = whole p.max_workflow_duration_ms;
      max_result_bytes = whole p.max_workflow_result_bytes;
      max_snapshot_bytes = whole p.snapshot_max_snapshot_bytes;
      max_scroll_amount = whole p.max_scroll_amount;
    }))

-- Within the hard ceilings, and with room for at least one step and the smallest result.
pub record WithinCeilings (l : WorkflowLimits) : Type 0 where
  pub steps : (1 ≤ l.max_steps) × (l.max_steps ≤ 100)
  pub duration : (1 ≤ l.max_duration_ms) × (l.max_duration_ms ≤ 300000)
  pub result : (100 ≤ l.max_result_bytes) × (l.max_result_bytes ≤ 1048576)
  pub snapshot : (100 ≤ l.max_snapshot_bytes) × (l.max_snapshot_bytes ≤ 4194304)
  pub scroll : (1 ≤ l.max_scroll_amount) × (l.max_scroll_amount ≤ 20)

clamp_limit_bounds :
    (v : Num) (a b d : ℕ) → a ≤ d → d ≤ b → (a ≤ clamp_limit v a b d) × (clamp_limit v a b d ≤ b)
unfolding clamp_limit
clamp_limit_bounds (whole n) a b d h k = ground arith
clamp_limit_bounds (negative_whole n) a b d h k = ground arith
clamp_limit_bounds (Num.fraction n) a b d h k = (h, k)
clamp_limit_bounds Num.negative_fraction a b d h k = (h, k)
clamp_limit_bounds Num.infinite a b d h k = (h, k)
clamp_limit_bounds Num.nan a b d h k = (h, k)

-- Whatever limits are asked for, those in force are within the hard ceilings.
pub resolve_workflow_limits-WithinCeilings :
    (o : Option RequestedLimits) → WithinCeilings (resolve_workflow_limits o)
unfolding resolve_workflow_limits default_workflow_limits get_automation_policy
resolve_workflow_limits-WithinCeilings o =
    let r = or_else o (requested default_workflow_limits) in
    record {
      steps = clamp_limit_bounds r.max_steps 1 100 50 (omega arith) (omega arith);
      duration = clamp_limit_bounds r.max_duration_ms 1 300000 120000 (omega arith) (omega arith);
      result = clamp_limit_bounds r.max_result_bytes 100 1048576 262144 (omega arith) (omega arith);
      snapshot =
          clamp_limit_bounds r.max_snapshot_bytes 100 4194304 524288 (omega arith) (omega arith);
      scroll = clamp_limit_bounds r.max_scroll_amount 1 20 10 (omega arith) (omega arith);
    }

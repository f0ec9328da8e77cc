-- ===== src/Automation.antt =====
-- The resource ceilings of the automation policies (src/browser/automation-policy.ts).
use antigravity_browser.Base.{
  ℕ, ◌≤◌, ◌≡◌, refl, Bool, true, false, ◌&&◌, ◌||◌, Option, none, some, [], ◌∷◌, ◌++◌, arith, leb,
  ◌==◌, if◌then◌else◌, Text, text_eq, is_blank, trim_end, trim_start,
}
mod Examples

pub data AutomationPolicyName : Type 0 where
  strict standard trusted_local : AutomationPolicyName

pub record AutomationPolicyLimits : Type 0 where
  pub max_tabs : ℕ
  pub max_workflow_steps : ℕ
  pub max_workflow_duration_ms : ℕ
  pub max_workflow_result_bytes : ℕ
  pub max_scroll_amount : ℕ
  pub snapshot_max_snapshots : ℕ
  pub snapshot_ttl_ms : ℕ
  pub snapshot_max_bytes : ℕ
  pub snapshot_max_snapshot_bytes : ℕ
  pub session_ttl_ms : ℕ
  pub workspace_ttl_ms : ℕ

abbrev pub hard_automation_limits : AutomationPolicyLimits
hard_automation_limits = record {
  max_tabs = 32;
  max_workflow_steps = 100;
  max_workflow_duration_ms = 300000;
  max_workflow_result_bytes = 1048576;
  max_scroll_amount = 20;
  snapshot_max_snapshots = 256;
  snapshot_ttl_ms = 86400000;
  snapshot_max_bytes = 16777216;
  snapshot_max_snapshot_bytes = 4194304;
  session_ttl_ms = 86400000;
  workspace_ttl_ms = 604800000;
}

unfoldable pub get_automation_policy : AutomationPolicyName → AutomationPolicyLimits
get_automation_policy strict = record {
  max_tabs = 5;
  max_workflow_steps = 10;
  max_workflow_duration_ms = 30000;
  max_workflow_result_bytes = 64000;
  max_scroll_amount = 3;
  snapshot_max_snapshots = 32;
  snapshot_ttl_ms = 600000;
  snapshot_max_bytes = 2097152;
  snapshot_max_snapshot_bytes = 262144;
  session_ttl_ms = 1800000;
  workspace_ttl_ms = 86400000;
}
get_automation_policy standard = record {
  max_tabs = 12;
  max_workflow_steps = 50;
  max_workflow_duration_ms = 120000;
  max_workflow_result_bytes = 262144;
  max_scroll_amount = 10;
  snapshot_max_snapshots = 64;
  snapshot_ttl_ms = 1800000;
  snapshot_max_bytes = 4194304;
  snapshot_max_snapshot_bytes = 524288;
  session_ttl_ms = 7200000;
  workspace_ttl_ms = 604800000;
}
get_automation_policy trusted_local = record {
  max_tabs = 20;
  max_workflow_steps = 100;
  max_workflow_duration_ms = 300000;
  max_workflow_result_bytes = 1048576;
  max_scroll_amount = 20;
  snapshot_max_snapshots = 256;
  snapshot_ttl_ms = 86400000;
  snapshot_max_bytes = 16777216;
  snapshot_max_snapshot_bytes = 1048576;
  session_ttl_ms = 86400000;
  workspace_ttl_ms = 604800000;
}

unfoldable pub name_of : AutomationPolicyName → Text
name_of strict = 115 ∷ 116 ∷ 114 ∷ 105 ∷ 99 ∷ 116 ∷ []
name_of standard = 115 ∷ 116 ∷ 97 ∷ 110 ∷ 100 ∷ 97 ∷ 114 ∷ 100 ∷ []
name_of trusted_local =
    116 ∷ 114 ∷ 117 ∷ 115 ∷ 116 ∷ 101 ∷ 100 ∷ 45 ∷ 108 ∷ 111 ∷ 99 ∷ 97 ∷ 108 ∷ []

unfoldable pub find_name : Text → Option AutomationPolicyName
unfolding name_of
find_name s =
    if text_eq s (name_of strict)
    then some strict
    else if text_eq s (name_of standard)
    then some standard
    else if text_eq s (name_of trusted_local)
    then some trusted_local
    else none

-- `none` where it throws.
unfoldable pub parse_automation_policy : Option Text → Option AutomationPolicyName
unfolding find_name
parse_automation_policy none = some standard
parse_automation_policy (some v) =
    let s = trim_end (trim_start v) in if is_blank s then some standard else find_name s

-- Every limit of the one is at most that of the other.
pub record Within (a b : AutomationPolicyLimits) : Type 0 where
  pub tabs : a.max_tabs ≤ b.max_tabs
  pub workflows :
      (a.max_workflow_steps ≤ b.max_workflow_steps)
      × (a.max_workflow_duration_ms ≤ b.max_workflow_duration_ms)
      × (a.max_workflow_result_bytes ≤ b.max_workflow_result_bytes)
  pub scrolling : a.max_scroll_amount ≤ b.max_scroll_amount
  pub snapshots :
      (a.snapshot_max_snapshots ≤ b.snapshot_max_snapshots)
      × (a.snapshot_ttl_ms ≤ b.snapshot_ttl_ms)
      × (a.snapshot_max_bytes ≤ b.snapshot_max_bytes)
      × (a.snapshot_max_snapshot_bytes ≤ b.snapshot_max_snapshot_bytes)
  pub lifetimes : (a.session_ttl_ms ≤ b.session_ttl_ms) × (a.workspace_ttl_ms ≤ b.workspace_ttl_ms)

-- Whatever text the policy is read from, if it is accepted its limits are within the hard ones, and
-- they are at least those of the strict policy and at most those of the trusted local one.
pub parse_automation_policy-limits :
    (v : Option Text) (p : AutomationPolicyName)
    → parse_automation_policy v ≡ some p
    → Within (get_automation_policy p) hard_automation_limits
      × Within (get_automation_policy strict) (get_automation_policy p)
      × Within (get_automation_policy p) (get_automation_policy trusted_local)
unfolding get_automation_policy
parse_automation_policy-limits v strict e = ground arith
parse_automation_policy-limits v standard e = ground arith
parse_automation_policy-limits v trusted_local e = ground arith

trim_start-spaces : (pad s : Text) → trim_start pad ≡ [] → trim_start (pad ++ s) ≡ trim_start s
unfolding trim_start
trim_start-spaces [] s h = refl
trim_start-spaces (c ∷ cs) s h = ground (arith, trim_start-spaces cs s)

trim_end-pad : (s pad : Text) → trim_end pad ≡ [] → trim_end (s ++ pad) ≡ trim_end s
unfolding trim_end
trim_end-pad [] pad h = h
trim_end-pad (c ∷ s) pad h = rw (trim_end-pad s pad h) refl

starts_solid : (p : AutomationPolicyName) (s : Text) → trim_start (name_of p ++ s) ≡ name_of p ++ s
unfolding name_of trim_start
starts_solid strict s = refl
starts_solid standard s = refl
starts_solid trusted_local s = refl

ends_solid : (p : AutomationPolicyName) → trim_end (name_of p) ≡ name_of p
unfolding name_of trim_end
ends_solid strict = refl
ends_solid standard = refl
ends_solid trusted_local = refl

trimmed :
    (before after : Text) (p : AutomationPolicyName)
    → trim_start before ≡ []
    → trim_end after ≡ []
    → trim_end (trim_start (before ++ (name_of p ++ after))) ≡ name_of p
trimmed before after p b a =
    rw
      (
        trim_start-spaces before (name_of p ++ after) b,
        starts_solid p after,
        trim_end-pad (name_of p) after a,
      )
      (ends_solid p)

finds_name :
    (p : AutomationPolicyName)
    → (if is_blank (name_of p) then some standard else find_name (name_of p)) ≡ some p
unfolding name_of find_name text_eq
finds_name strict = refl
finds_name standard = refl
finds_name trusted_local = refl

-- A policy's name is read back, whatever white space stands round it.
pub parse_automation_policy-name_of :
    (before after : Text) (p : AutomationPolicyName)
    → trim_start before ≡ []
    → trim_end after ≡ []
    → parse_automation_policy (some (before ++ (name_of p ++ after))) ≡ some p
unfolding parse_automation_policy
parse_automation_policy-name_of before after p b a = rw (trimmed before after p b a) (finds_name p)

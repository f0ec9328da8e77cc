-- ===== src/Workflow/Types.antt =====
-- The data of the workflow engine (src/browser/workflow.ts): limits, targets, steps, the workflow as
-- it is accepted, and the outcome of a check.
use antigravity_browser.Base.{ℕ, Bool, Option, List, Text}

pub record WorkflowLimits : Type 0 where
  pub max_steps : ℕ
  pub max_duration_ms : ℕ
  pub max_result_bytes : ℕ
  pub max_snapshot_bytes : ℕ
  pub max_scroll_amount : ℕ

pub data WorkflowStopTrigger : Type 0 where
  navigation challenge dialog download interrupt revision_mismatch error ambiguity timeout :
      WorkflowStopTrigger

pub data Direction : Type 0 where
  up down left right : Direction

pub data WaitUntil : Type 0 where
  dom_content_loaded load : WaitUntil

pub data WaitState : Type 0 where
  visible hidden enabled : WaitState

pub data SnapshotFormat : Type 0 where
  structured compact : SnapshotFormat

-- `WorkflowTarget`: a reference as a text, or an object with one strategy.
pub data Target : Type 0 where
  opaque : Text → Target
  by_role : Text → Text → Option Bool → Target
  by_label : Text → Option Bool → Target
  by_test_id : Text → Target
  by_ref : Text → Target

pub data SelectChoice : Type 0 where
  plain : Text → SelectChoice
  of_value : Text → SelectChoice
  of_label : Text → SelectChoice

-- The choice, or the values, of a select step: an accepted step has one of them.
pub data Selection : Type 0 where
  one : SelectChoice → Selection
  several : List Text → Selection

pub record WaitCondition : Type 0 where
  pub ref : Text
  pub state : WaitState

pub record TypeOptions : Type 0 where
  pub clear : Option Bool
  pub clear_first : Option Bool
  pub submit : Option Bool
  pub sensitive : Option Bool

pub record SnapshotOptions : Type 0 where
  pub max_nodes : Option ℕ
  pub max_chars : Option ℕ
  pub max_bytes : Option ℕ
  pub include_text : Option Bool
  pub is_compact : Option Bool
  pub format : Option SnapshotFormat

pub record WaitOptions : Type 0 where
  pub duration_ms : Option ℕ
  pub condition : Option WaitCondition
  pub target : Option Target
  pub timeout_ms : Option ℕ

pub data WorkflowStep : Type 0 where
  open_url : Text → Option WaitUntil → Option ℕ → WorkflowStep
  click : Target → Option ℕ → WorkflowStep
  type_text : Target → Text → TypeOptions → Option ℕ → WorkflowStep
  select : Target → Selection → Option ℕ → WorkflowStep
  scroll : Direction → ℕ → Option Target → WorkflowStep
  wait : WaitOptions → WorkflowStep
  snapshot : SnapshotOptions → WorkflowStep

-- `NormalizedWorkflow`.
pub record Workflow : Type 0 where
  pub steps : List WorkflowStep
  pub action_id : Option Text
  pub expected_page_revision : Option ℕ
  pub expected_tab_id : Option Text
  pub max_duration_ms : ℕ
  pub max_result_bytes : ℕ
  pub stop_on : List WorkflowStopTrigger

-- A URL as `new URL` takes it apart.
pub record UrlParts : Type 0 where
  pub protocol : Text
  pub username : Text
  pub password : Text
  pub origin : Text
  pub pathname : Text

pub data WorkflowError : Type 0 where
  invalid_workflow step_limit_exceeded action_id_conflict : WorkflowError

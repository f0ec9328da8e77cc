-- ===== src/Workflow/Fingerprint.antt =====
-- The request that an action id stands for, as JSON (`run`, `fingerprint`, src/browser/workflow.ts).
use antigravity_browser.Base.{ℕ, Option, none, some, List, [], ◌∷◌, if◌then◌else◌, Text}
use Prim.Native.String.{String}
use antigravity_browser.Base.{codes}
use antigravity_browser.Workflow.Json.{
  whole, Json, flag, number, string, array, object, Items, end, item, Fields, bare, field,
}
use antigravity_browser.Workflow.Types.{
  WorkflowStopTrigger, navigation, challenge, dialog, download, interrupt, revision_mismatch, error,
  ambiguity, timeout, Direction, up, down, left, right, WaitUntil, dom_content_loaded, load,
  WaitState, visible, hidden, enabled, SnapshotFormat, structured, compact, Target, opaque, by_role,
  by_label, by_test_id, by_ref, SelectChoice, plain, of_value, of_label, Selection, one, several,
  WaitCondition, WorkflowStep, open_url, click, type_text, select, scroll, wait, snapshot,
}
use antigravity_browser.Workflow.Normalize.{has}

-- The request that is compared.
pub record Request : Type 0 where
  pub steps : List WorkflowStep
  pub expected_page_revision : Option ℕ
  pub expected_tab_id : Option Text
  pub max_duration_ms : ℕ
  pub max_result_bytes : ℕ
  pub stop_on : List WorkflowStopTrigger

-- `...(value !== undefined ? { key: value } : {})`.
abbrev maybe : {A : Type 0} → String → (A → Json) → Option A → Fields → Fields
maybe k f none rest = rest
maybe k f (some a) rest = field (codes k) (f a) rest

abbrev must : String → Json → Fields → Fields
must k v rest = field (codes k) v rest

abbrev of_nat : ℕ → Json
of_nat n = number (whole n)

abbrev word : String → Json
word s = string (codes s)

unfoldable pub items_from : {A : Type 0} → (A → Json) → List A → Items
items_from f [] = end
items_from f (a ∷ rest) = item (f a) (items_from f rest)

unfoldable pub target_json : Target → Json
target_json (opaque s) = string s
target_json (by_role r n e) =
    object (must "role" (string r) (must "name" (string n) (maybe "exact" flag e bare)))
target_json (by_label l e) = object (must "label" (string l) (maybe "exact" flag e bare))
target_json (by_test_id s) = object (must "testId" (string s) bare)
target_json (by_ref s) = object (must "ref" (string s) bare)

abbrev choice_json : SelectChoice → Json
choice_json (plain s) = string s
choice_json (of_value s) = object (must "value" (string s) bare)
choice_json (of_label s) = object (must "label" (string s) bare)

abbrev selection_field : Selection → Fields → Fields
selection_field (one c) rest = must "choice" (choice_json c) rest
selection_field (several vs) rest = must "values" (array (items_from string vs)) rest

abbrev direction_json : Direction → Json
direction_json up = word "up"
direction_json down = word "down"
direction_json left = word "left"
direction_json right = word "right"

abbrev until_json : WaitUntil → Json
until_json dom_content_loaded = word "domcontentloaded"
until_json load = word "load"

abbrev state_json : WaitState → Json
state_json visible = word "visible"
state_json hidden = word "hidden"
state_json enabled = word "enabled"

abbrev format_json : SnapshotFormat → Json
format_json structured = word "structured"
format_json compact = word "compact"

abbrev condition_json : WaitCondition → Json
condition_json c = object (must "ref" (string c.ref) (must "state" (state_json c.state) bare))

unfoldable pub step_json : WorkflowStep → Json
unfolding target_json items_from
step_json (open_url url w t) = object (
    must "op" (word "open")
      (must "url" (string url) (maybe "waitUntil" until_json w (maybe "timeoutMs" of_nat t bare))))
step_json (click target t) = object (
    must "op" (word "click") (must "target" (target_json target) (maybe "timeoutMs" of_nat t bare)))
step_json (type_text target s o t) = object (
    must "op" (word "type") (
      must "target" (target_json target) (
        must "text" (string s) (
          maybe "clear" flag o.clear (
            maybe "clearFirst" flag o.clear_first (
              maybe "submit" flag o.submit
                (maybe "sensitive" flag o.sensitive (maybe "timeoutMs" of_nat t bare))))))))
step_json (select target chosen t) = object (
    must "op" (word "select") (
      must "target" (target_json target)
        (selection_field chosen (maybe "timeoutMs" of_nat t bare))))
step_json (scroll d n target) = object (
    must "op" (word "scroll") (
      must "direction" (direction_json d)
        (must "amount" (of_nat n) (maybe "target" target_json target bare))))
step_json (wait o) = object (
    must "op" (word "wait") (
      maybe "durationMs" of_nat o.duration_ms (
        maybe "condition" condition_json o.condition
          (maybe "target" target_json o.target (maybe "timeoutMs" of_nat o.timeout_ms bare)))))
step_json (snapshot o) = object (
    must "op" (word "snapshot") (
      maybe "maxNodes" of_nat o.max_nodes (
        maybe "maxChars" of_nat o.max_chars (
          maybe "maxBytes" of_nat o.max_bytes (
            maybe "includeText" flag o.include_text
              (maybe "compact" flag o.is_compact (maybe "format" format_json o.format bare)))))))

abbrev trigger_json : WorkflowStopTrigger → Json
trigger_json navigation = word "navigation"
trigger_json challenge = word "challenge"
trigger_json dialog = word "dialog"
trigger_json download = word "download"
trigger_json interrupt = word "interrupt"
trigger_json revision_mismatch = word "revision_mismatch"
trigger_json error = word "error"
trigger_json ambiguity = word "ambiguity"
trigger_json timeout = word "timeout"

abbrev alphabetical : List WorkflowStopTrigger
alphabetical =
    ambiguity ∷ challenge ∷ dialog ∷ download ∷ error ∷ interrupt ∷ navigation ∷ revision_mismatch
    ∷ timeout ∷ []

unfoldable pub among :
    List WorkflowStopTrigger → List WorkflowStopTrigger → List WorkflowStopTrigger
unfolding has
among chosen [] = []
among chosen (t ∷ ts) = if has t chosen then t ∷ among chosen ts else among chosen ts

-- `[...stopOn].sort()`.
abbrev sort_triggers : List WorkflowStopTrigger → List WorkflowStopTrigger
sort_triggers ts = among ts alphabetical

unfoldable pub request_json : Request → Json
unfolding step_json among items_from
request_json r = object (
    must "steps" (array (items_from step_json r.steps)) (
      maybe "expectedPageRevision" of_nat r.expected_page_revision (
        maybe "expectedTabId" string r.expected_tab_id (
          must "maxDurationMs" (of_nat r.max_duration_ms) (
            must "maxResultBytes" (of_nat r.max_result_bytes)
              (must "stopOn" (array (items_from trigger_json (sort_triggers r.stop_on))) bare))))))

-- ===== src/Workflow/Normalize.antt =====
-- The validation of a whole workflow (`normalizeWorkflow`, src/browser/workflow.ts).
use antigravity_browser.Base.{
  ℕ, suc, Bool, ◌&&◌, ◌||◌, Option, none, some, List, [], ◌∷◌, ◌++◌, ltb, leb, ◌==◌, if◌then◌else◌,
  length, any, Text,
}
use antigravity_browser.Base.{codes}
use antigravity_browser.Workflow.Types.{
  WorkflowLimits, WorkflowStopTrigger, navigation, challenge, dialog, download, interrupt,
  revision_mismatch, error, ambiguity, timeout, Workflow, UrlParts, step_limit_exceeded,
}
use antigravity_browser.Workflow.Json.{Json, null, string, array, number, Num, whole, items_of}
use antigravity_browser.Workflow.Checks.{
  Checked, accepted, refused, ◌>>=◌, ◌>>◌, require, check_all,
}
use antigravity_browser.Workflow.Fields.{
  fail, record_of, key, assert_keys, or_fail, in_range, optional_string, optional_revision,
  optional_tab_id, named, required,
}
use antigravity_browser.Workflow.Limits.{min_workflow_result_bytes}
use antigravity_browser.Workflow.Steps.{normalize_step}

abbrev pub stop_triggers : List (Text × WorkflowStopTrigger)
stop_triggers =
    (codes "navigation", navigation)
    ∷ (codes "challenge", challenge)
    ∷ (codes "dialog", dialog)
    ∷ (codes "download", download)
    ∷ (codes "interrupt", interrupt)
    ∷ (codes "revision_mismatch", revision_mismatch)
    ∷ (codes "error", error)
    ∷ (codes "ambiguity", ambiguity)
    ∷ (codes "timeout", timeout)
    ∷ []

abbrev pub rank : WorkflowStopTrigger → ℕ
rank navigation = 0
rank challenge = 1
rank dialog = 2
rank download = 3
rank interrupt = 4
rank revision_mismatch = 5
rank error = 6
rank ambiguity = 7
rank timeout = 8

-- `stopOn.has(trigger)`.
unfoldable pub has : WorkflowStopTrigger → List WorkflowStopTrigger → Bool
has t triggers = any (λ u. rank u == rank t) triggers

abbrev trigger_of : Json → Checked WorkflowStopTrigger
trigger_of (string s) = or_fail (named stop_triggers s)
trigger_of _ = fail

-- `Set.add`, one after the other: the first of each stays.
unfoldable pub distinct :
    List WorkflowStopTrigger → List WorkflowStopTrigger → List WorkflowStopTrigger
unfolding has
distinct seen [] = seen
distinct seen (t ∷ ts) = if has t seen then distinct seen ts else distinct (seen ++ (t ∷ [])) ts

abbrev pub items_or_fail : Json → Checked (List Json)
items_or_fail (array vs) = accepted (items_of vs)
items_or_fail _ = fail

unfoldable pub stop_on_of : Option Json → Checked (List WorkflowStopTrigger)
unfolding distinct
stop_on_of none = accepted []
stop_on_of (some v) = do
  vs ← items_or_fail v
  triggers ← check_all trigger_of vs
  accepted (distinct [] triggers)

-- Hexadecimal digits, and the places of a UUID.
abbrev is_hex : ℕ → Bool
is_hex c = (leb 48 c && leb c 57) || (leb 97 c && leb c 102) || (leb 65 c && leb c 70)

abbrev uuid_place : ℕ → ℕ → Bool
uuid_place i c =
    if i == 8 || i == 13 || i == 18 || i == 23
    then c == 45
    else if i == 14
    then leb 49 c && leb c 56
    else if i == 19
    then c == 56 || c == 57 || c == 97 || c == 98 || c == 65 || c == 66
    else is_hex c

unfoldable pub uuid_from : ℕ → Text → Bool
uuid_from i [] = i == 36
uuid_from i (c ∷ s) = uuid_place i c && ltb i 36 && uuid_from (suc i) s

-- `ACTION_ID_PATTERN`.
abbrev pub is_uuid : Text → Bool
is_uuid s = uuid_from 0 s

unfoldable pub check_uuid : Option Text → Checked (Unit {0})
check_uuid none = accepted tt
check_uuid (some s) = require (is_uuid s)

-- `a ?? b`: `null` counts as missing.
abbrev pub or_next : Option Json → Json → Json
or_next none d = d
or_next (some null) d = d
or_next (some v) d = v

abbrev pub or_number : Option Num → ℕ → Json
or_number none n = number (whole n)
or_number (some v) n = number v

-- The options of a caller beside the limits.
pub record ValidationOptions : Type 0 where
  pub max_duration_ms : Option Num
  pub max_result_bytes : Option Num

abbrev workflow_keys : List Text
workflow_keys =
    codes "steps"
    ∷ codes "actionId"
    ∷ codes "expectedPageRevision"
    ∷ codes "expectedTabId"
    ∷ codes "maxDurationMs"
    ∷ codes "maxResultBytes"
    ∷ codes "stopOn"
    ∷ []

abbrev pub within_steps : ℕ → List Json → Checked (Unit {0})
within_steps most vs =
    if ltb most (length vs) then refused step_limit_exceeded else require (leb 1 (length vs))

module _ (parse_url : Text → Option UrlParts) (limits : WorkflowLimits) where
  -- The limits are resolved.
  unfoldable pub normalize_workflow : ValidationOptions → Json → Checked Workflow
  normalize_workflow o v = do
    fs ← record_of v
    assert_keys fs workflow_keys
    raw ← required items_or_fail (key "steps" fs)
    within_steps limits.max_steps raw
    action_id ← optional_string (key "actionId" fs)
    check_uuid action_id
    revision ← optional_revision (key "expectedPageRevision" fs)
    tab_id ← optional_tab_id (key "expectedTabId" fs)
    duration ←
        in_range 1 limits.max_duration_ms
          (or_next (key "maxDurationMs" fs) (or_number o.max_duration_ms limits.max_duration_ms))
    result_bytes ←
        in_range min_workflow_result_bytes limits.max_result_bytes
          (or_next (key "maxResultBytes" fs) (or_number o.max_result_bytes limits.max_result_bytes))
    triggers ← stop_on_of (key "stopOn" fs)
    steps ← check_all (normalize_step parse_url limits) raw
    accepted (record {
      steps = steps;
      action_id = action_id;
      expected_page_revision = revision;
      expected_tab_id = tab_id;
      max_duration_ms = duration;
      max_result_bytes = result_bytes;
      stop_on = triggers;
    })

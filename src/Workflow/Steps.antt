-- ===== src/Workflow/Steps.antt =====
-- The validation of a step (`normalizeStep`, `validateUrl`, src/browser/workflow.ts). What `new URL`
-- makes of a text is a parameter.
use antigravity_browser.Base.{min, not, ◌&&◌, ◌||◌, Option, List, [], ◌∷◌, Text, is_some}
use antigravity_browser.Base.{codes}
use antigravity_browser.Workflow.Types.{
  WorkflowLimits, TypeOptions, WorkflowStep, open_url, click, type_text, select, scroll, wait,
  snapshot, UrlParts,
}
use antigravity_browser.Workflow.Json.{Json, Fields}
use antigravity_browser.Workflow.Checks.{Checked, accepted, ◌>>=◌, ◌>>◌, require, optional}
use antigravity_browser.Workflow.Fields.{
  record_of, key, assert_keys, or_fail, validate_wait_duration, optional_timeout,
  optional_bounded_integer, bounded_text, optional_flag, optional_enum, required, validate_target,
  validate_condition,
}
use antigravity_browser.Workflow.Choices.{
  WorkflowOperation, operations, wait_untils, directions, formats, typed_text, flags_agree,
  plain_url, asks_compact, selection, wait_duration, scroll_amount, opens, clicks, types, selects,
  scrolls, waits, takes_snapshot,
}

module _ (parse_url : Text → Option UrlParts) (limits : WorkflowLimits) where
  unfoldable pub validate_url : Json → Checked Text
  validate_url v = do url ← bounded_text 2048 v; require (plain_url (parse_url url)); accepted url

  unfoldable pub normalize_open : Fields → Checked WorkflowStep
  unfolding validate_url
  normalize_open fs = do
    assert_keys fs (codes "op" ∷ codes "url" ∷ codes "waitUntil" ∷ codes "timeoutMs" ∷ [])
    wait_until ← optional_enum wait_untils (key "waitUntil" fs)
    timeout_ms ← optional_timeout (key "timeoutMs" fs)
    url ← required validate_url (key "url" fs)
    accepted (open_url url wait_until timeout_ms)

  unfoldable pub normalize_click : Fields → Checked WorkflowStep
  normalize_click fs = do
    assert_keys fs (codes "op" ∷ codes "target" ∷ codes "timeoutMs" ∷ [])
    timeout_ms ← optional_timeout (key "timeoutMs" fs)
    target ← required validate_target (key "target" fs)
    accepted (click target timeout_ms)

  abbrev type_keys : List Text
  type_keys =
      codes "op"
      ∷ codes "target"
      ∷ codes "text"
      ∷ codes "clear"
      ∷ codes "clearFirst"
      ∷ codes "submit"
      ∷ codes "sensitive"
      ∷ codes "timeoutMs"
      ∷ []

  unfoldable pub normalize_type : Fields → Checked WorkflowStep
  normalize_type fs = do
    assert_keys fs type_keys
    text ← required typed_text (key "text" fs)
    clear ← optional_flag (key "clear" fs)
    clear_first ← optional_flag (key "clearFirst" fs)
    require (flags_agree clear clear_first)
    submit ← optional_flag (key "submit" fs)
    sensitive ← optional_flag (key "sensitive" fs)
    timeout_ms ← optional_timeout (key "timeoutMs" fs)
    target ← required validate_target (key "target" fs)
    let options : TypeOptions = record {
      clear = clear;
      clear_first = clear_first;
      submit = submit;
      sensitive = sensitive;
    }
    accepted (type_text target text options timeout_ms)

  abbrev select_keys : List Text
  select_keys =
      codes "op"
      ∷ codes "target"
      ∷ codes "value"
      ∷ codes "label"
      ∷ codes "choice"
      ∷ codes "values"
      ∷ codes "timeoutMs"
      ∷ []

  unfoldable pub normalize_select : Fields → Checked WorkflowStep
  normalize_select fs = do
    assert_keys fs select_keys
    chosen ← selection (key "values" fs) (key "choice" fs) (key "value" fs) (key "label" fs)
    timeout_ms ← optional_timeout (key "timeoutMs" fs)
    target ← required validate_target (key "target" fs)
    accepted (select target chosen timeout_ms)

  unfoldable pub normalize_scroll : Fields → Checked WorkflowStep
  normalize_scroll fs = do
    assert_keys fs (codes "op" ∷ codes "direction" ∷ codes "amount" ∷ codes "target" ∷ [])
    given ← optional_enum directions (key "direction" fs)
    direction ← or_fail given
    amount ← scroll_amount limits.max_scroll_amount (key "amount" fs)
    target ← optional validate_target (key "target" fs)
    accepted (scroll direction amount target)

  abbrev wait_keys : List Text
  wait_keys =
      codes "op"
      ∷ codes "milliseconds"
      ∷ codes "durationMs"
      ∷ codes "condition"
      ∷ codes "target"
      ∷ codes "timeoutMs"
      ∷ []

  unfoldable pub normalize_wait : Fields → Checked WorkflowStep
  normalize_wait fs = do
    assert_keys fs wait_keys
    duration_ms ← wait_duration (key "milliseconds" fs) (key "durationMs" fs)
    condition ← optional validate_condition (key "condition" fs)
    target ← optional validate_target (key "target" fs)
    require (is_some duration_ms || is_some condition || is_some target)
    require (not (is_some duration_ms && (is_some condition || is_some target)))
    require (not (is_some condition && is_some target))
    timeout_ms ← optional validate_wait_duration (key "timeoutMs" fs)
    accepted (
        wait (record {
          duration_ms = duration_ms;
          condition = condition;
          target = target;
          timeout_ms = timeout_ms;
        }))

  abbrev snapshot_keys : List Text
  snapshot_keys =
      codes "op"
      ∷ codes "maxNodes"
      ∷ codes "maxChars"
      ∷ codes "maxBytes"
      ∷ codes "includeText"
      ∷ codes "compact"
      ∷ codes "format"
      ∷ []

  unfoldable pub normalize_snapshot : Fields → Checked WorkflowStep
  normalize_snapshot fs = do
    assert_keys fs snapshot_keys
    max_nodes ← optional_bounded_integer 1 2000 (key "maxNodes" fs)
    max_chars ← optional_bounded_integer 100 50000 (key "maxChars" fs)
    max_bytes ←
        optional_bounded_integer 100 (min 4194304 limits.max_snapshot_bytes) (key "maxBytes" fs)
    include_text ← optional_flag (key "includeText" fs)
    is_compact ← optional_flag (key "compact" fs)
    format ← optional_enum formats (key "format" fs)
    require (flags_agree is_compact (asks_compact format))
    accepted (
        snapshot (record {
          max_nodes = max_nodes;
          max_chars = max_chars;
          max_bytes = max_bytes;
          include_text = include_text;
          is_compact = is_compact;
          format = format;
        }))

  abbrev pub normalize_fields : Fields → WorkflowOperation → Checked WorkflowStep
  normalize_fields fs opens = normalize_open fs
  normalize_fields fs clicks = normalize_click fs
  normalize_fields fs types = normalize_type fs
  normalize_fields fs selects = normalize_select fs
  normalize_fields fs scrolls = normalize_scroll fs
  normalize_fields fs waits = normalize_wait fs
  normalize_fields fs takes_snapshot = normalize_snapshot fs

  unfoldable pub normalize_step : Json → Checked WorkflowStep
  normalize_step v = do
    fs ← record_of v
    named_op ← optional_enum operations (key "op" fs)
    op ← or_fail named_op
    normalize_fields fs op

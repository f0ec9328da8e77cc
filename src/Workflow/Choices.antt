-- ===== src/Workflow/Choices.antt =====
-- The parts of a step: its operation, its selection, its duration and its amount (`normalizeStep`,
-- src/browser/workflow.ts).
use antigravity_browser.Base.{
  ℕ, Bool, true, false, not, ◌&&◌, ◌||◌, Option, none, some, List, [], ◌∷◌, leb, if◌then◌else◌,
  length, Text, text_eq, is_some,
}
use antigravity_browser.Base.{codes, is_blank}
use antigravity_browser.Workflow.Types.{
  Direction, up, down, left, right, WaitUntil, dom_content_loaded, load, SnapshotFormat, structured,
  compact, Selection, one, several, UrlParts,
}
use antigravity_browser.Workflow.Json.{Json, string, array, items_of}
use antigravity_browser.Workflow.Checks.{
  Checked, accepted, ◌>>=◌, ◌>>◌, require, optional, check_all,
}
use antigravity_browser.Workflow.Fields.{
  fail, in_range, validate_wait_duration, bounded_text, choice_by, validate_choice,
}

-- In the code `open`, `click`, `type`, `select`, `scroll`, `wait` and `snapshot`.
pub data WorkflowOperation : Type 0 where
  opens clicks types selects scrolls waits takes_snapshot : WorkflowOperation

abbrev pub operations : List (Text × WorkflowOperation)
operations =
    (codes "open", opens)
    ∷ (codes "click", clicks)
    ∷ (codes "type", types)
    ∷ (codes "select", selects)
    ∷ (codes "scroll", scrolls)
    ∷ (codes "wait", waits)
    ∷ (codes "snapshot", takes_snapshot)
    ∷ []

abbrev pub wait_untils : List (Text × WaitUntil)
wait_untils = (codes "domcontentloaded", dom_content_loaded) ∷ (codes "load", load) ∷ []

abbrev pub directions : List (Text × Direction)
directions =
    (codes "up", up) ∷ (codes "down", down) ∷ (codes "left", left) ∷ (codes "right", right) ∷ []

abbrev pub formats : List (Text × SnapshotFormat)
formats = (codes "structured", structured) ∷ (codes "compact", compact) ∷ []

abbrev pub max_text_chars : ℕ
max_text_chars = 10000

abbrev pub typed_text : Json → Checked Text
typed_text (string s) = if leb (length s) max_text_chars then accepted s else fail
typed_text _ = fail

-- Two flags that are both given are the same.
abbrev pub flags_agree : Option Bool → Option Bool → Bool
flags_agree (some a) (some b) = if a then b else not b
flags_agree _ _ = true

abbrev pub is_http : UrlParts → Bool
is_http u = text_eq u.protocol (codes "http:") || text_eq u.protocol (codes "https:")

abbrev pub plain_url : Option UrlParts → Bool
plain_url none = false
plain_url (some u) = is_http u && is_blank u.username && is_blank u.password

abbrev pub asks_compact : Option SnapshotFormat → Option Bool
asks_compact none = none
asks_compact (some structured) = some false
asks_compact (some compact) = some true

abbrev pub values_of : Json → Checked (List Json)
values_of (array vs) = accepted (items_of vs)
values_of _ = fail

-- `values` alone, `choice` alone, or exactly one of `value` and `label`.
unfoldable pub selection : Option Json → Option Json → Option Json → Option Json → Checked Selection
selection (some v) choice value label = do
  require (not (is_some value || is_some label || is_some choice))
  vs ← values_of v
  require (leb 1 (length vs) && leb (length vs) 32)
  texts ← check_all (bounded_text 200) vs
  accepted (several texts)
selection none (some c) value label = do
  require (not (is_some value || is_some label))
  choice ← validate_choice c
  accepted (one choice)
selection none none value label = do choice ← choice_by value label; accepted (one choice)

-- `milliseconds` or `durationMs`, not both.
unfoldable pub wait_duration : Option Json → Option Json → Checked (Option ℕ)
wait_duration (some a) (some b) = fail
wait_duration (some a) none = optional validate_wait_duration (some a)
wait_duration none b = optional validate_wait_duration b

unfoldable pub scroll_amount : ℕ → Option Json → Checked ℕ
scroll_amount most none = accepted 1
scroll_amount most (some v) = in_range 1 most v

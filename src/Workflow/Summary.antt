-- ===== src/Workflow/Summary.antt =====
-- What a step reports of its result (`safeOpaque` to `safeStepSummary`, src/browser/workflow.ts):
-- cleaned and bounded copies of known fields. What `new URL` makes of a text, and the bytes of a text
-- in UTF-8, are parameters.
use antigravity_browser.Base.{
  ℕ, zero, min, Bool, true, false, ◌&&◌, ◌||◌, Option, none, some, List, [], ◌∷◌, ◌++◌, leb, ◌==◌,
  if◌then◌else◌, length, take, Text, or_else,
}
use antigravity_browser.Base.{codes, trim}
use antigravity_browser.Workflow.Types.{
  WorkflowStep, open_url, click, type_text, select, scroll, wait, snapshot, Target, opaque, by_ref,
  Direction, SnapshotFormat, UrlParts,
}
use antigravity_browser.Workflow.Json.{
  Json, null, flag, number, string, array, object, whole, fraction, nan, get, text_of, flag_of,
  is_record,
}
use antigravity_browser.Workflow.Fields.{is_control, named}
use antigravity_browser.Workflow.Choices.{directions, formats, is_http}
use antigravity_browser.Workflow.Status.{
  safe_revision, result_revision, or_option, remove, not_blank, safe_opaque,
}
use antigravity_browser.Targets.Reading.{collapse}

pub record SnapshotSummary : Type 0 where
  pub tab_id : Option Text
  pub snapshot_id : Option Text
  pub page_revision : Option ℕ
  pub format : Option SnapshotFormat
  pub content : Option Text
  pub content_bytes : Option ℕ
  pub truncated : Option Bool

pub data StepSummary : Type 0 where
  opened : Option Text → Option Text → Option ℕ → StepSummary
  clicked : Option Text → Option ℕ → StepSummary
  typed : Option Text → ℕ → Option ℕ → StepSummary
  selected : Option Text → Option ℕ → StepSummary
  scrolled : Direction → ℕ → Option ℕ → StepSummary
  waited : Option ℕ → Option Bool → Option ℕ → StepSummary
  captured : SnapshotSummary → StepSummary

-- `replace(/[\u0000-\u001f\u007f]+/gu, ' ')`: a control character after another goes.
unfoldable pub blank_controls : Bool → Text → Text
blank_controls after_control [] = []
blank_controls after_control (c ∷ s) =
    let in_run = blank_controls true s in
    let outside = blank_controls false s in
    if is_control c then (if after_control then in_run else 32 ∷ in_run) else c ∷ outside

unfoldable pub safe_title : Option Json → Option Text
unfolding collapse blank_controls
safe_title v = elim (text_of v) [
  | none ↦ none
  | some s ↦ not_blank (take 500 (trim (collapse false (blank_controls false s))))
]

abbrev pub max_content_chars : ℕ
max_content_chars = 4194304

-- Control characters but the tab and the ends of lines.
abbrev is_unsafe : ℕ → Bool
is_unsafe c = leb c 8 || c == 11 || c == 12 || (leb 14 c && leb c 31) || c == 127

unfoldable pub safe_content : Option Json → Option Text
unfolding remove
safe_content v = elim (text_of v) [
  | none ↦ none
  | some s ↦ some (take max_content_chars (remove is_unsafe s))
]

abbrev pub target_ref : Target → Option Text
target_ref (opaque s) = some s
target_ref (by_ref s) = some s
target_ref _ = none

-- `value.ref ?? …`: `null` counts as missing.
abbrev ref_or : Option Json → Target → Option Json
ref_or none target = elim (target_ref target) [ none ↦ none | some s ↦ some (string s) ]
ref_or (some null) target = elim (target_ref target) [ none ↦ none | some s ↦ some (string s) ]
ref_or (some v) target = some v

abbrev safe_ref : Json → Target → Option Text
safe_ref raw target = safe_opaque (ref_or (get (codes "ref") raw) target) 100

abbrev one_to_three : Option Json → Option ℕ
one_to_three (some (number (whole n))) = if leb 1 n && leb n 3 then some n else none
one_to_three _ = none

abbrev named_text : {A : Type 0} → List (Text × A) → Option Json → Option A
named_text names (some (string s)) = named names s
named_text names _ = none

-- `Math.floor` of a finite number from 0.
abbrev waited_ms : Option Json → Option ℕ
waited_ms (some (number (whole n))) = some (min 10000 n)
waited_ms (some (number (fraction n))) = some (min 10000 n)
waited_ms _ = none

abbrev is_truthy : Option Json → Bool
is_truthy none = false
is_truthy (some null) = false
is_truthy (some (flag b)) = b
is_truthy (some (number (whole zero))) = false
is_truthy (some (number nan)) = false
is_truthy (some (number _)) = true
is_truthy (some (string [])) = false
is_truthy (some (string (c ∷ s))) = true
is_truthy (some (array vs)) = true
is_truthy (some (object fs)) = true

abbrev truncated_of : Option Json → Option Bool
truncated_of none = none
truncated_of (some v) = if is_record v then some (is_truthy (get (codes "content") v)) else none

module _ (parse_url : Text → Option UrlParts) (byte_length : Text → ℕ) where
  abbrev shown_url : Option UrlParts → Option Text
  shown_url none = none
  shown_url (some u) = if is_http u then some (take 2048 (u.origin ++ u.pathname)) else none

  -- Without query and fragment.
  unfoldable pub safe_url : Option Text → Option Text
  safe_url none = none
  safe_url (some s) = shown_url (parse_url s)

  abbrev content_bytes_of : Option Json → Option Text → Option ℕ
  content_bytes_of v content = elim (safe_revision v) [
    | some n ↦ some (min 4194304 n)
    | none ↦ elim content [ none ↦ none | some s ↦ some (byte_length s) ]
  ]

  unfoldable pub snapshot_summary : Json → Option ℕ → SnapshotSummary
  unfolding safe_opaque safe_content safe_revision named get
  snapshot_summary raw revision =
      let content = safe_content (get (codes "content") raw) in
      record {
        tab_id = safe_opaque (get (codes "tabId") raw) 100;
        snapshot_id = safe_opaque (get (codes "snapshotId") raw) 128;
        page_revision = revision;
        format = named_text formats (get (codes "format") raw);
        content = content;
        content_bytes = content_bytes_of (get (codes "contentBytes") raw) content;
        truncated = truncated_of (get (codes "truncated") raw);
      }

  unfoldable pub summary_of : WorkflowStep → Json → Option ℕ → StepSummary
  unfolding safe_url safe_title safe_opaque safe_revision snapshot_summary named get
  summary_of (open_url url w t) raw r =
      opened (or_option (safe_url (text_of (get (codes "url") raw))) (safe_url (some url)))
        (safe_title (get (codes "title") raw)) r
  summary_of (click target t) raw r = clicked (safe_ref raw target) r
  summary_of (type_text target s o t) raw r =
      typed (safe_ref raw target) (or_else (safe_revision (get (codes "length") raw)) (length s)) r
  summary_of (select target chosen t) raw r = selected (safe_ref raw target) r
  summary_of (scroll direction amount target) raw r =
      scrolled (or_else (named_text directions (get (codes "direction") raw)) direction)
        (or_else (one_to_three (get (codes "amount") raw)) amount) r
  summary_of (wait o) raw r =
      waited (waited_ms (get (codes "waitedMs") raw)) (flag_of (get (codes "conditionMet") raw)) r
  summary_of (snapshot o) raw r = captured (snapshot_summary raw r)

  unfoldable pub safe_step_summary : WorkflowStep → Json → Option ℕ → StepSummary
  unfolding summary_of result_revision
  safe_step_summary step raw revision =
      summary_of step raw (or_option revision (result_revision raw))

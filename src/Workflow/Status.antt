-- ===== src/Workflow/Status.antt =====
-- The status of a session as the executor reads it, and when it stops a workflow (`normalizeStatus`,
-- `statusStopReason`, `rawStopReason`, `navigationDetected`, src/browser/workflow.ts).
use antigravity_browser.Base.{
  ℕ, Bool, true, false, not, ◌&&◌, ◌||◌, Option, none, some, List, [], ◌∷◌, ltb, ◌==◌,
  if◌then◌else◌, take, Text, text_eq, is_some,
}
use antigravity_browser.Base.{codes, is_blank}
use antigravity_browser.Workflow.Types.{WorkflowStopTrigger, dialog, download, interrupt}
use antigravity_browser.Workflow.Json.{
  Json, array, number, whole_of, items_of, get, or_null, text_of, is_true,
}
use antigravity_browser.Workflow.Normalize.{has}
use antigravity_browser.Workflow.Fields.{is_control}

-- In the code `completed`, `navigation`, `challenge`, `interrupt`, `revision_mismatch`, `error` and
-- `timeout`; the triggers have some of these names.
pub data StopReason : Type 0 where
  completed navigated challenged interrupted revision_mismatched failed timed_out : StopReason

pub record NormalizedStatus : Type 0 where
  pub state : Option Text
  pub tab_id : Option Text
  pub page_revision : Option ℕ
  pub challenge_detected : Bool
  pub latest_interrupt_sequence : Option ℕ
  pub recent_interrupt_types : List Text
  pub interrupt_total : Option ℕ

-- `a ?? b`.
abbrev pub or_option : {A : Type 0} → Option A → Option A → Option A
or_option none b = b
or_option (some a) b = some a

unfoldable pub safe_revision : Option Json → Option ℕ
safe_revision (some (number n)) = whole_of n
safe_revision _ = none

unfoldable pub result_revision : Json → Option ℕ
unfolding safe_revision get
result_revision v = or_option (safe_revision (get (codes "pageRevision") v)) (
    or_option (safe_revision (get (codes "pageGeneration") v))
      (safe_revision (get (codes "generation") v)))

unfoldable pub remove : (ℕ → Bool) → Text → Text
remove p [] = []
remove p (c ∷ s) = if p c then remove p s else c ∷ remove p s

abbrev pub not_blank : Text → Option Text
not_blank s = if is_blank s then none else some s

unfoldable pub safe_opaque : Option Json → ℕ → Option Text
unfolding remove
safe_opaque v most = elim (text_of v) [
  | none ↦ none
  | some s ↦ not_blank (take most (remove is_control s))
]

unfoldable pub interrupt_types : List Json → List Text
unfolding get
interrupt_types [] = []
interrupt_types (v ∷ vs) = elim (text_of (get (codes "type") v)) [
  | none ↦ interrupt_types vs
  | some s ↦ s ∷ interrupt_types vs
]

abbrev recent_types : Option Json → List Text
unfolding interrupt_types
recent_types (some (array vs)) = interrupt_types (items_of vs)
recent_types _ = []

abbrev pub is_text : Text → Option Text → Bool
is_text s none = false
is_text s (some t) = text_eq s t

unfoldable pub normalize_status : Json → NormalizedStatus
unfolding safe_opaque safe_revision recent_types get
normalize_status v =
    let challenge = or_null (get (codes "challenge") v) in
    let interrupts = or_null (get (codes "interrupts") v) in
    let state = text_of (get (codes "state") v) in
    record {
      state = state;
      tab_id = safe_opaque (get (codes "tabId") v) 100;
      page_revision =
          or_option (safe_revision (get (codes "pageRevision") v))
            (safe_revision (get (codes "pageGeneration") v));
      challenge_detected =
          is_true (get (codes "detected") challenge) || is_text (codes "PAUSED_CHALLENGE") state;
      latest_interrupt_sequence = safe_revision (get (codes "latestSequence") interrupts);
      recent_interrupt_types = recent_types (get (codes "recent") interrupts);
      interrupt_total = safe_revision (get (codes "total") interrupts);
    }

-- `at(-1)`.
abbrev pub last : List Text → Option Text
last [] = none
last (s ∷ []) = some s
last (s ∷ t ∷ ts) = last (t ∷ ts)

-- Both are known and the second is greater.
abbrev pub grew : Option ℕ → Option ℕ → Bool
grew (some a) (some b) = ltb a b
grew _ _ = false

abbrev no_triggers : List WorkflowStopTrigger → Bool
no_triggers [] = true
no_triggers (t ∷ ts) = false

abbrev stop_if : Bool → Option StopReason
stop_if b = if b then some interrupted else none

-- What an interrupt of a type does: a blocked dialog or download is a stop only if it is asked for,
-- or nothing is.
unfoldable pub interrupt_stop : Option Text → List WorkflowStopTrigger → Option StopReason
unfolding has
interrupt_stop type stop_on =
    if is_text (codes "DIALOG_BLOCKED") type
    then stop_if (no_triggers stop_on || has dialog stop_on || has interrupt stop_on)
    else if is_text (codes "DOWNLOAD_BLOCKED") type
    then stop_if (no_triggers stop_on || has download stop_on || has interrupt stop_on)
    else some interrupted

abbrev pub is_challenged : Option NormalizedStatus → Bool
is_challenged none = false
is_challenged (some s) = s.challenge_detected

abbrev pub sequence_of : Option NormalizedStatus → Option ℕ
sequence_of none = none
sequence_of (some s) = s.latest_interrupt_sequence

abbrev pub total_of : Option NormalizedStatus → Option ℕ
total_of none = none
total_of (some s) = s.interrupt_total

abbrev pub revision_of : Option NormalizedStatus → Option ℕ
revision_of none = none
revision_of (some s) = s.page_revision

unfoldable pub status_stop_reason :
    Option NormalizedStatus → Option NormalizedStatus → List WorkflowStopTrigger → Option StopReason
unfolding interrupt_stop
status_stop_reason before none stop_on = none
status_stop_reason before (some after) stop_on =
    if after.challenge_detected && not (is_challenged before)
    then some challenged
    else if is_text (codes "HUMAN_TAKEOVER") after.state || is_text (codes "ERROR") after.state
    then some interrupted
    else if grew (sequence_of before) after.latest_interrupt_sequence
        || grew (total_of before) after.interrupt_total
    then interrupt_stop (last after.recent_interrupt_types) stop_on
    else none

-- A projection of interrupts counts only beside an explicit marker.
unfoldable pub nested_stop : Json → NormalizedStatus → List WorkflowStopTrigger → Option StopReason
unfolding interrupt_stop get
nested_stop v s stop_on =
    if s.challenge_detected
    then some challenged
    else if (is_some s.latest_interrupt_sequence || is_some s.interrupt_total)
        && (is_true (get (codes "blocked") v) || is_true (get (codes "interrupted") v))
    then interrupt_stop (last s.recent_interrupt_types) stop_on
    else none

abbrev pub is_blocked : Option Text → Bool
is_blocked type = is_text (codes "DIALOG_BLOCKED") type || is_text (codes "DOWNLOAD_BLOCKED") type

abbrev pub says_challenge : Json → Bool
says_challenge v =
    is_true (get (codes "challenge") v) || is_true (get (codes "challengeDetected") v)

abbrev pub says_interrupt : Json → Bool
says_interrupt v =
    is_some (text_of (get (codes "interruptType") v))
    || is_true (get (codes "interrupted") v)
    || is_some (get (codes "interrupt") v)

unfoldable pub raw_stop_reason : Json → List WorkflowStopTrigger → Option StopReason
unfolding interrupt_stop nested_stop normalize_status get
raw_stop_reason v stop_on =
    let type = text_of (get (codes "interruptType") v) in
    if says_challenge v
    then some challenged
    else if is_blocked type
    then interrupt_stop type stop_on
    else if says_interrupt v
    then some interrupted
    else nested_stop v (normalize_status (or_null (get (codes "status") v))) stop_on

-- Both are known and differ.
abbrev pub differ : Option ℕ → Option ℕ → Bool
differ (some a) (some b) = not (a == b)
differ _ _ = false

unfoldable pub navigation_detected : Option NormalizedStatus → Option NormalizedStatus → Json → Bool
unfolding result_revision
navigation_detected before after raw =
    differ (revision_of before) (or_option (revision_of after) (result_revision raw))

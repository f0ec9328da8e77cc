-- ===== src/Workflow/Failures.antt =====
-- How a failed step is classified and reported (`isInterruptCode`, `classifyFailure`,
-- `safeErrorMessage`, `errorSummary`, src/browser/workflow.ts). An error is the JSON of its fields.
use antigravity_browser.Base.{
  ℕ, ◌+◌, Bool, ◌&&◌, ◌||◌, Option, none, some, List, [], ◌∷◌, map, leb, ◌==◌, if◌then◌else◌, any,
  Text, text_eq, or_else,
}
use antigravity_browser.Base.{codes, starts_with, lookup}
use antigravity_browser.Workflow.Json.{
  Json, string, object, field, bare, get, or_null, text_of, is_true,
}
use antigravity_browser.Workflow.Status.{
  StopReason, challenged, interrupted, revision_mismatched, failed, timed_out, safe_revision,
}

pub record RevisionDetails : Type 0 where
  pub expected_page_revision : Option ℕ
  pub actual_page_revision : Option ℕ

pub record ClassifiedFailure : Type 0 where
  pub code : Text
  pub reason : StopReason
  pub retryable : Bool
  pub details : Option RevisionDetails

-- `WorkflowTimeoutError`.
abbrev pub timeout_error : Json
timeout_error = object (field (codes "code") (string (codes "WORKFLOW_TIMEOUT")) bare)

-- Case folding of `/iu` on the letters of the patterns: with the long s and the Kelvin sign.
abbrev fold : ℕ → ℕ
fold c =
    if leb 65 c && leb c 90 then c + 32 else if c == 383 then 115 else if c == 8490 then 107 else c

unfoldable pub contains : Text → Text → Bool
contains part [] = starts_with part []
contains part (c ∷ s) = starts_with part (c ∷ s) || contains part s

abbrev matches : Text → Text → Bool
matches part s = contains (map fold part) (map fold s)

unfoldable pub is_interrupt_code : Text → Bool
unfolding contains
is_interrupt_code code =
    any (λ part. matches part code)
      (codes "POPUP"
        ∷ codes "DIALOG"
        ∷ codes "DOWNLOAD"
        ∷ codes "INTERRUPT"
        ∷ codes "PAGE_CRASHED"
        ∷ codes "CONTEXT_CLOSED"
        ∷ [])

abbrev mismatch : Text
mismatch = codes "PAGE_REVISION_MISMATCH"

-- The revisions, if one is known.
abbrev details_of : Option ℕ → Option ℕ → Option RevisionDetails
details_of none none = none
details_of e a = some (record { expected_page_revision = e; actual_page_revision = a })

unfoldable pub failure_details : Text → Json → Option RevisionDetails
unfolding safe_revision get
failure_details code details =
    if text_eq code mismatch
    then details_of (safe_revision (get (codes "expectedPageRevision") details))
        (safe_revision (get (codes "actualPageRevision") details))
    else none

abbrev is_timeout : Text → Bool
is_timeout code = text_eq code (codes "WORKFLOW_TIMEOUT") || text_eq code (codes "ACTION_TIMEOUT")

unfoldable pub failure_reason : Text → StopReason
unfolding is_interrupt_code contains
failure_reason code =
    if is_timeout code
    then timed_out
    else if text_eq code (codes "SESSION_PAUSED_CHALLENGE") || matches (codes "challenge") code
    then challenged
    else if text_eq code mismatch
    then revision_mismatched
    else if is_interrupt_code code
    then interrupted
    else failed

unfoldable pub classify_failure : Json → ClassifiedFailure
unfolding failure_reason failure_details get
classify_failure error =
    let code = or_else (text_of (get (codes "code") error)) (codes "INTERNAL") in
    record {
      code = code;
      reason = failure_reason code;
      retryable =
          is_timeout code || text_eq code mismatch || is_true (get (codes "retryable") error);
      details = failure_details code (or_null (get (codes "details") error));
    }

abbrev messages : List (Text × Text)
messages =
    (codes "SESSION_PAUSED_CHALLENGE", codes "Automation paused for human challenge handling.")
    ∷ (mismatch, codes "The page changed; obtain a fresh snapshot.")
    ∷ (codes "WORKFLOW_TIMEOUT", codes "The workflow deadline was exceeded.")
    ∷ (codes "ACTION_TIMEOUT", codes "The workflow deadline was exceeded.")
    ∷ (codes "TARGET_AMBIGUOUS", codes "The target was ambiguous.")
    ∷ (codes "TARGET_NOT_FOUND", codes "The target was not found.")
    ∷ (codes "NAVIGATION_DENIED", codes "Navigation was denied by policy.")
    ∷ (codes "PRIVATE_NETWORK_DENIED", codes "Navigation was denied by policy.")
    ∷ []

unfoldable pub safe_error_message : Text → Text
safe_error_message code = or_else (lookup code messages) (codes "The workflow step failed.")

pub record ErrorSummary : Type 0 where
  pub code : Text
  pub retryable : Bool
  pub message : Option Text
  pub details : Option RevisionDetails

unfoldable pub error_summary : ClassifiedFailure → ErrorSummary
unfolding safe_error_message
error_summary f = record {
  code = f.code;
  retryable = f.retryable;
  message = some (safe_error_message f.code);
  details = f.details;
}

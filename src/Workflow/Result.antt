-- ===== src/Workflow/Result.antt =====
-- The result of a workflow and how it is made to fit (`measuredResultBytes`, `shortenContent`,
-- `removeOptionalFields`, `boundResult`, src/browser/workflow.ts). The bytes of a result as JSON, the
-- bytes of a text in UTF-8, and the decoded text of its first so many bytes are parameters.
use antigravity_browser.Base.{
  ℕ, zero, suc, ◌/◌, Bool, true, not, ◌&&◌, Option, none, some, List, [], ◌∷◌, ltb, leb, ◌==◌,
  if◌then◌else◌, length, Text, is_some,
}
use antigravity_browser.Base.{is_blank}
use antigravity_browser.Workflow.Status.{StopReason, or_option}
use antigravity_browser.Workflow.Failures.{ErrorSummary}
use antigravity_browser.Workflow.Summary.{StepSummary, opened, captured, SnapshotSummary}
use antigravity_browser.Workflow.Run.{StepReport, is_success}

-- `finished` is `completed` in the code.
pub data ResultStatus : Type 0 where
  finished stopped : ResultStatus

-- The last fallback has no count, no time and no mark.
pub record WorkflowResult : Type 0 where
  pub ok : Bool
  pub status : ResultStatus
  pub stop_reason : StopReason
  pub steps : List StepReport
  pub completed_steps : Option ℕ
  pub elapsed_ms : Option ℕ
  pub result_bytes : ℕ
  pub truncated : Option Bool

-- `steps.filter((step) => step.status === 'success').length`.
unfoldable pub count_success : List StepReport → ℕ
count_success [] = 0
count_success (r ∷ rs) = if is_success r.status then suc (count_success rs) else count_success rs

pub record Measures : Type 0 where
  pub size : WorkflowResult → ℕ
  pub byte_length : Text → ℕ
  -- `Buffer.from(text, 'utf8').subarray(0, n).toString('utf8')`.
  pub decode_prefix : Text → ℕ → Text

-- `replace(/\uFFFD+$/u, '')`.
unfoldable pub without_replacements : Text → Text
without_replacements [] = []
without_replacements (c ∷ s) =
    let rest = without_replacements s in if c == 65533 && is_blank rest then [] else c ∷ rest

module _ (m : Measures) where
  -- From a count, with so many attempts left: the result as it is left, and its size.
  unfoldable pub measure_from : ℕ → ℕ → WorkflowResult → WorkflowResult × ℕ
  measure_from zero count r =
      let r' : WorkflowResult = record r { result_bytes = count } in (r', m.size r')
  measure_from (suc n) count r =
      let r' : WorkflowResult = record r { result_bytes = count } in
      let again = measure_from n (m.size r') r in
      if m.size r' == count then (r', m.size r') else again

  unfoldable pub measured : WorkflowResult → WorkflowResult × ℕ
  unfolding measure_from
  measured r = measure_from 8 0 r

  -- Is it longer than the bytes?
  abbrev pub is_over : ℕ → Text → Bool
  is_over target s = not (is_blank s) && ltb target (m.byte_length s)

  abbrev pub cut : Text → ℕ → Text
  cut s n = without_replacements (m.decode_prefix s n)

  abbrev cut_content : ℕ → SnapshotSummary → Text → SnapshotSummary
  cut_content target c s = record c {
    content = some (cut s target);
    content_bytes = some (m.byte_length (cut s target));
    truncated = some true;
  }

  abbrev shorten_captured : ℕ → SnapshotSummary → Option Text → Option SnapshotSummary
  shorten_captured target c none = none
  shorten_captured target c (some s) =
      if is_over target s then some (cut_content target c s) else none

  abbrev pub shorten_summary : ℕ → Option StepSummary → Option StepSummary
  shorten_summary target (some (captured c)) = elim (shorten_captured target c c.content) [
    | none ↦ none
    | some d ↦ some (captured d)
  ]
  shorten_summary target _ = none

  -- The first content that is too long, cut.
  unfoldable pub shorten_content : ℕ → List StepReport → Option (List StepReport)
  shorten_content target [] = none
  shorten_content target (r ∷ rs) =
      let later = shorten_content target rs in
      elim (shorten_summary target r.summary) [
        | some s ↦ some (record r { summary = some s } ∷ rs)
        | none ↦ elim later [ none ↦ none | some rs' ↦ some (r ∷ rs') ]
      ]

  abbrev strip_captured : SnapshotSummary → Option SnapshotSummary
  strip_captured c =
      if is_some c.content
      then some (record c { content = none; content_bytes = none; truncated = some true })
      else if is_some c.snapshot_id
      then some (record c { snapshot_id = none })
      else none

  abbrev strip_opened : Option Text → Option Text → Option ℕ → Option StepSummary
  strip_opened url (some title) r = some (opened url none r)
  strip_opened (some url) none r = some (opened none none r)
  strip_opened none none r = none

  -- An optional field of a summary, removed.
  unfoldable pub strip_summary : Option StepSummary → Option StepSummary
  strip_summary (some (captured c)) = elim (strip_captured c) [
    | none ↦ none
    | some d ↦ some (captured d)
  ]
  strip_summary (some (opened url title r)) = strip_opened url title r
  strip_summary _ = none

  unfoldable pub strip_error : Option ErrorSummary → Option ErrorSummary
  strip_error none = none
  strip_error (some e) = if is_some e.message then some (record e { message = none }) else none

  unfoldable pub strip_report : StepReport → Option StepReport
  unfolding strip_summary strip_error
  strip_report r = elim (strip_summary r.summary) [
    | some s ↦ some (record r { summary = some s })
    | none ↦ elim (strip_error r.error) [
      | some e ↦ some (record r { error = some e })
      | none ↦ none
    ]
  ]

  -- The first optional field, removed.
  unfoldable pub remove_optional_fields : List StepReport → Option (List StepReport)
  unfolding strip_report
  remove_optional_fields [] = none
  remove_optional_fields (r ∷ rs) =
      let later = remove_optional_fields rs in
      elim (strip_report r) [
        | some r' ↦ some (r' ∷ rs)
        | none ↦ elim later [ none ↦ none | some rs' ↦ some (r ∷ rs') ]
      ]

  -- Without the last one, if there is another.
  unfoldable pub pop_last : List StepReport → List StepReport
  pop_last [] = []
  pop_last (r ∷ []) = []
  pop_last (r ∷ s ∷ rs) = r ∷ pop_last (s ∷ rs)

  unfoldable pub drop_step : WorkflowResult → Option WorkflowResult
  unfolding pop_last count_success
  drop_step r =
      if ltb 1 (length r.steps)
      then some (record r {
        steps = pop_last r.steps;
        completed_steps = some (count_success (pop_last r.steps));
        truncated = some true;
      })
      else none

  -- One round of the loop: `none` where nothing is left to take away.
  unfoldable pub shrink : ℕ → WorkflowResult → Option WorkflowResult
  unfolding shorten_content remove_optional_fields drop_step
  shrink max_bytes r =
      elim (or_option (shorten_content (max_bytes / 4) r.steps) (remove_optional_fields r.steps)) [
        | some steps ↦ some (record r { steps = steps; truncated = some true })
        | none ↦ drop_step r
      ]

  -- `while (bytes > maxBytes)`, on fuel.
  unfoldable pub bound_loop : ℕ → ℕ → WorkflowResult × ℕ → Option (WorkflowResult × ℕ)
  unfolding shrink measured
  bound_loop zero max_bytes now = none
  bound_loop (suc f) max_bytes now =
      if leb now.1 max_bytes then some now else elim (shrink max_bytes now.0) [
        | none ↦ some now
        | some r ↦ bound_loop f max_bytes (measured r)
      ]

  abbrev pub fallback : WorkflowResult → WorkflowResult
  fallback r = record {
    ok = r.ok;
    status = r.status;
    stop_reason = r.stop_reason;
    steps = [];
    completed_steps = none;
    elapsed_ms = none;
    result_bytes = 0;
    truncated = none;
  }

  unfoldable pub finish : ℕ → WorkflowResult × ℕ → WorkflowResult
  unfolding measured
  finish max_bytes now =
      if ltb max_bytes now.1
      then (measured (fallback now.0)).0
      else (measured (record now.0 { result_bytes = now.1 })).0

  unfoldable pub bound_result : ℕ → ℕ → WorkflowResult → Option WorkflowResult
  unfolding bound_loop finish measured
  bound_result fuel max_bytes r = elim (bound_loop fuel max_bytes (measured r)) [
    | none ↦ none
    | some now ↦ some (finish max_bytes now)
  ]

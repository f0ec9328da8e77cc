-- ===== src/Workflow/Shrink.antt =====
-- The loop that makes a result fit ends, and what it makes fits (`boundResult`,
-- src/browser/workflow.ts).
use antigravity_browser.Base.{
  zero, refl, subst, ◌++◌, ◌==◌, ◌&&◌, is_blank, Bool-cases, ℕ, suc, ◌+◌, ◌/◌, ◌≤◌, ◌<◌, ◌≡◌, inl,
  inr, Option, none, some, List, [], ◌∷◌, arith, if◌then◌else◌, length, Text, Option-cases,
}
use antigravity_browser.Workflow.Failures.{ErrorSummary}
use antigravity_browser.Workflow.Summary.{
  StepSummary, opened, clicked, typed, selected, scrolled, waited, captured,
}
use antigravity_browser.Workflow.Run.{StepReport}
use antigravity_browser.Workflow.Result.{
  cut, without_replacements, WorkflowResult, Measures, is_over, shorten_summary, shorten_content,
  strip_summary, strip_error, strip_report, remove_optional_fields, pop_last, drop_step, shrink,
}

-- So many replacement characters.
abbrev pub replacements : ℕ → Text
replacements zero = []
replacements (suc k) = 65533 ∷ replacements k

-- How Node.js decodes the first bytes of a text: the characters that they hold in full, which have no
-- more bytes than that, and replacement characters for what is left of them; and a text has no fewer
-- bytes than its beginning.
abbrev pub Cuts : Measures → Type 0
Cuts m =
    ((s : Text) (n : ℕ)
      → (t : Text) × (k : ℕ) × (m.decode_prefix s n ≡ t ++ replacements k) × (m.byte_length t ≤ n))
    × ((a b : Text) → m.byte_length a ≤ m.byte_length (a ++ b))

without_replacements-replacements : (k : ℕ) → without_replacements (replacements k) ≡ []
unfolding without_replacements
without_replacements-replacements zero = refl
without_replacements-replacements (suc k) = ground (arith, without_replacements-replacements k)

without_replacements-append :
    (t : Text) (k : ℕ) → without_replacements (t ++ replacements k) ≡ without_replacements t
unfolding without_replacements
without_replacements-append [] k = without_replacements-replacements k
without_replacements-append (c ∷ t) k = ground (arith, without_replacements-append t k)

without_replacements-prefix : (t : Text) → (r : Text) × (without_replacements t ++ r ≡ t)
unfolding without_replacements
without_replacements-prefix [] = ([], refl)
without_replacements-prefix (c ∷ t) =
    let (r, e) = without_replacements-prefix t in
    elim (Bool-cases (c == 65533 && is_blank (without_replacements t))) [
      | inl b ↦ (c ∷ t, ground (arith, b))
      | inr b ↦ (r, ground (arith, b, e))
    ]

-- The cut of a text to so many bytes has at most so many.
pub cut-byte_length : (m : Measures) → Cuts m → (s : Text) (n : ℕ) → m.byte_length (cut m s n) ≤ n
cut-byte_length m (decodes, longer) s n =
    let (t, k, e, h) = decodes s n in
    let (r, q) = without_replacements-prefix t in
    let same : cut m s n ≡ without_replacements t = rw e (without_replacements-append t k) in
    let more : m.byte_length (without_replacements t) ≤ m.byte_length t =
      subst (λ w. m.byte_length (without_replacements t) ≤ m.byte_length w) q
        (longer (without_replacements t) r) in
    rw same (omega (arith, h, more))

abbrev count : {A : Type 0} → Option A → ℕ
count none = 0
count (some a) = 1

module _ (m : Measures) where
  abbrev over : ℕ → Option Text → ℕ
  over target none = 0
  over target (some s) = if is_over m target s then 1 else 0

  -- What can still be taken from a summary.
  unfoldable pub weight_summary : ℕ → Option StepSummary → ℕ
  weight_summary target (some (captured c)) =
      over target c.content + count c.content + count c.snapshot_id
  weight_summary target (some (opened url title r)) = count url + count title
  weight_summary target _ = 0

  unfoldable pub weight_error : Option ErrorSummary → ℕ
  weight_error none = 0
  weight_error (some e) = count e.message

  -- An upper bound on the rounds of the loop.
  unfoldable pub weight : ℕ → List StepReport → ℕ
  unfolding weight_summary weight_error
  weight target [] = 0
  weight target (r ∷ rs) =
      suc (weight_summary target r.summary + weight_error r.error + weight target rs)

  strip_summary-lt :
      (target : ℕ) (o : Option StepSummary) (s : StepSummary)
      → strip_summary m o ≡ some s
      → weight_summary target (some s) < weight_summary target o
  unfolding weight_summary strip_summary
  strip_summary-lt target none s e = ground arith
  strip_summary-lt target (some (captured c)) s e = ground arith
  strip_summary-lt target (some (opened (some u) (some t) r)) s e = ground arith
  strip_summary-lt target (some (opened none (some t) r)) s e = ground arith
  strip_summary-lt target (some (opened (some u) none r)) s e = ground arith
  strip_summary-lt target (some (opened none none r)) s e = ground arith
  strip_summary-lt target (some (clicked a r)) s e = ground arith
  strip_summary-lt target (some (typed a n r)) s e = ground arith
  strip_summary-lt target (some (selected a r)) s e = ground arith
  strip_summary-lt target (some (scrolled d n r)) s e = ground arith
  strip_summary-lt target (some (waited n b r)) s e = ground arith

  strip_error-lt :
      (o : Option ErrorSummary) (e : ErrorSummary)
      → strip_error m o ≡ some e
      → weight_error (some e) < weight_error o
  unfolding weight_error strip_error
  strip_error-lt o e h = ground arith

  strip_report-lt :
      (target : ℕ) (r r' : StepReport)
      → strip_report m r ≡ some r'
      → weight target (r' ∷ []) < weight target (r ∷ [])
  unfolding weight strip_report
  strip_report-lt target r r' e = elim (Option-cases (strip_summary m r.summary)) [
    | inl n ↦ elim (Option-cases (strip_error m r.error)) [
      | inl k ↦ ground (arith, n, k)
      | inr (x, k) ↦ ground (arith, n, k, strip_error-lt r.error x k)
    ]
    | inr (s, h) ↦ ground (arith, h, strip_summary-lt target r.summary s h)
  ]

  remove_optional_fields-lt :
      (target : ℕ) (rs rs' : List StepReport)
      → remove_optional_fields m rs ≡ some rs'
      → weight target rs' < weight target rs
  unfolding weight remove_optional_fields
  remove_optional_fields-lt target [] rs' e = ground arith
  remove_optional_fields-lt target (r ∷ rs) rs' e = elim (Option-cases (strip_report m r)) [
    | inl n ↦ elim (Option-cases (remove_optional_fields m rs)) [
      | inl k ↦ ground (arith, n, k)
      | inr (x, k) ↦ ground (arith, n, k, remove_optional_fields-lt target rs x k)
    ]
    | inr (x, h) ↦ ground (arith, h, strip_report-lt target r x h)
  ]

  pop_last-lt :
      (target : ℕ) (rs : List StepReport)
      → 1 ≤ length rs
      → weight target (pop_last m rs) < weight target rs
  unfolding weight pop_last
  pop_last-lt target [] h = ground arith
  pop_last-lt target (r ∷ []) h = ground arith
  pop_last-lt target (r ∷ s ∷ rs) h = ground (arith, pop_last-lt target (s ∷ rs))

  drop_step-lt :
      (target : ℕ) (r r' : WorkflowResult)
      → drop_step m r ≡ some r'
      → weight target r'.steps < weight target r.steps
  unfolding drop_step
  drop_step-lt target r r' e = ground (arith, pop_last-lt target r.steps)

  module _ (cuts : Cuts m) where
    shorten_summary-lt :
        (target : ℕ) (o : Option StepSummary) (s : StepSummary)
        → shorten_summary m target o ≡ some s
        → weight_summary target (some s) < weight_summary target o
    unfolding weight_summary
    shorten_summary-lt target none s e = ground arith
    shorten_summary-lt target (some (opened u t r)) s e = ground arith
    shorten_summary-lt target (some (clicked a r)) s e = ground arith
    shorten_summary-lt target (some (typed a n r)) s e = ground arith
    shorten_summary-lt target (some (selected a r)) s e = ground arith
    shorten_summary-lt target (some (scrolled d n r)) s e = ground arith
    shorten_summary-lt target (some (waited n b r)) s e = ground arith
    shorten_summary-lt target (some (captured c)) s e = elim (Option-cases c.content) [
      | inl n ↦ ground (arith, n)
      | inr (t, h) ↦ ground (arith, h, cut-byte_length m cuts t target)
    ]

    shorten_content-lt :
        (target : ℕ) (rs rs' : List StepReport)
        → shorten_content m target rs ≡ some rs'
        → weight target rs' < weight target rs
    unfolding weight shorten_content
    shorten_content-lt target [] rs' e = ground arith
    shorten_content-lt target (r ∷ rs) rs' e =
        elim (Option-cases (shorten_summary m target r.summary)) [
          | inl n ↦ elim (Option-cases (shorten_content m target rs)) [
            | inl k ↦ ground (arith, n, k)
            | inr (x, k) ↦ ground (arith, n, k, shorten_content-lt target rs x k)
          ]
          | inr (x, h) ↦ ground (arith, h, shorten_summary-lt target r.summary x h)
        ]

    pub shrink-lt :
        (max_bytes : ℕ) (r r' : WorkflowResult)
        → shrink m max_bytes r ≡ some r'
        → weight (max_bytes / 4) r'.steps < weight (max_bytes / 4) r.steps
    unfolding shrink
    shrink-lt max_bytes r r' e =
        let target = max_bytes / 4 in
        elim (Option-cases (shorten_content m target r.steps)) [
          | inr (x, h) ↦ ground (arith, h, shorten_content-lt target r.steps x h)
          | inl n ↦ elim (Option-cases (remove_optional_fields m r.steps)) [
            | inr (x, h) ↦ ground (arith, n, h, remove_optional_fields-lt target r.steps x h)
            | inl k ↦ ground (arith, n, k, drop_step-lt target r r')
          ]
        ]

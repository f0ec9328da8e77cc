-- ===== src/Workflow/Fits.antt =====
-- A result that is made to fit keeps its verdict (`boundResult`, src/browser/workflow.ts).
use antigravity_browser.Base.{
  ℕ, zero, suc, ◌/◌, ◌≡◌, refl, inl, inr, Bool, some, arith, ◌==◌, Bool-cases, Option-cases, ◌≤◌,
  ◌⊎◌, none, ◌<◌, leb, ◌∙◌, ltb, true, false, ap, [],
}
use antigravity_browser.Workflow.Status.{StopReason, or_option}
use antigravity_browser.Workflow.Result.{
  WorkflowResult, ResultStatus, Measures, measure_from, shorten_content, remove_optional_fields,
  drop_step, shrink, measured, bound_loop, finish, fallback, bound_result,
}
use antigravity_browser.Workflow.Shrink.{Cuts, weight, shrink-lt}

-- What the caller goes by.
abbrev pub Verdict : Type 0
Verdict = Bool × ResultStatus × StopReason

abbrev pub verdict : WorkflowResult → Verdict
verdict r = (r.ok, r.status, r.stop_reason)

-- The fallback, by its verdict.
abbrev pub bare : Verdict → ℕ → WorkflowResult
bare v k = record {
  ok = v.0;
  status = v.1;
  stop_reason = v.2;
  steps = [];
  completed_steps = none;
  elapsed_ms = none;
  result_bytes = k;
  truncated = none;
}

module _ (m : Measures) where
  sized : WorkflowResult → ℕ → WorkflowResult × ℕ
  sized r k = let r' : WorkflowResult = record r { result_bytes = k } in (r', m.size r')

  measure_from-sized : (n c : ℕ) (r : WorkflowResult) → (k : ℕ) × (measure_from m n c r ≡ sized r k)
  unfolding measure_from sized
  measure_from-sized zero c r = (c, refl)
  measure_from-sized (suc n) c r =
      let r' : WorkflowResult = record r { result_bytes = c } in
      elim (Bool-cases (m.size r' == c)) [
        | inl h ↦ (c, rw h refl)
        | inr h ↦ rw h (measure_from-sized n (m.size r') r)
      ]

  -- The count that stood there before does not matter.
  measure_from_again :
      (n c x : ℕ) (r : WorkflowResult)
      → measure_from m n c (record r { result_bytes = x }) ≡ measure_from m n c r
  unfolding measure_from
  measure_from_again zero c x r = refl
  measure_from_again (suc n) c x r =
      let r' : WorkflowResult = record r { result_bytes = c } in
      rw (measure_from_again n (m.size r') x r) refl

  measured-again :
      (x : ℕ) (r : WorkflowResult) → measured m (record r { result_bytes = x }) ≡ measured m r
  unfolding measured
  measured-again x r = measure_from_again 8 0 x r

  measured-sized : (r : WorkflowResult) → (k : ℕ) × (measured m r ≡ sized r k)
  unfolding measured
  measured-sized r = measure_from-sized 8 0 r

  shrink-verdict :
      (max_bytes : ℕ) (r r' : WorkflowResult)
      → shrink m max_bytes r ≡ some r'
      → verdict r' ≡ verdict r
  unfolding shrink drop_step
  shrink-verdict max_bytes r r' e =
      elim (Option-cases (
        or_option (shorten_content m (max_bytes / 4) r.steps) (remove_optional_fields m r.steps))) [
          | inl n ↦ ground (arith, n)
          | inr (x, h) ↦ ground (arith, h)
        ]

  measured-steps :
      (r : WorkflowResult)
      → ((measured m r).0.steps ≡ r.steps)
        × (verdict (measured m r).0 ≡ verdict r)
        × ((measured m r).1 ≡ m.size (measured m r).0)
  unfolding sized
  measured-steps r = let (k, e) = measured-sized r in rw e (refl, refl, refl)

  module _ (cuts : Cuts m) where
    bound_loop_ends :
        (f max_bytes : ℕ) (r : WorkflowResult)
        → weight m (max_bytes / 4) r.steps < f
        → (r' : WorkflowResult) × (bound_loop m f max_bytes (measured m r) ≡ some (measured m r'))
          × ((measured m r).1 ≤ max_bytes → r' ≡ r)
          × (verdict r' ≡ verdict r)
    unfolding bound_loop
    bound_loop_ends zero max_bytes r h = ground arith
    bound_loop_ends (suc f) max_bytes r h =
        let same = measured-steps r in
        elim (Bool-cases (leb (measured m r).1 max_bytes)) [
          | inl fits ↦ (r, rw fits refl, λ small. refl, refl)
          | inr over ↦ elim (Option-cases (shrink m max_bytes (measured m r).0)) [
            | inl n ↦ (r, rw (over, n) refl, λ small. refl, refl)
            | inr (s, e) ↦
                let shorter = shrink-lt m cuts max_bytes (measured m r).0 s e in
                let (r', ends, whole, kept) =
                  bound_loop_ends f max_bytes s (ground (arith, same.0)) in
                (
                  r',
                  rw (over, e) ends,
                  λ small. ground (arith, over, small),
                  kept ∙ shrink-verdict max_bytes (measured m r).0 s e ∙ same.1,
                )
          ]
        ]

  finish_fits :
      (max_bytes : ℕ) (r : WorkflowResult)
      → (measured m r).1 ≤ max_bytes
      → finish m max_bytes (measured m r) ≡ (measured m r).0
  unfolding finish sized
  finish_fits max_bytes r h =
      let (k, e) = measured-sized r in
      let small : ltb max_bytes (measured m r).1 ≡ false = ground (arith, h) in
      rw small (
        rw e (rw (measured-again (m.size (sized r k).0) (sized r k).0, measured-again k r, e) refl))

  finish-bare :
      (max_bytes : ℕ) (now : WorkflowResult × ℕ)
      → max_bytes < now.1
      → (k : ℕ) × (finish m max_bytes now ≡ bare (verdict now.0) k)
  unfolding finish sized
  finish-bare max_bytes now h =
      let (k, e) = measured-sized (fallback m now.0) in
      let large : ltb max_bytes now.1 ≡ true = ground (arith, h) in (k, rw (large, e) refl)

  -- Within the bytes, or the bare verdict.
  unfoldable pub Fits : ℕ → WorkflowResult → WorkflowResult → Type 0
  Fits max_bytes r out = (m.size out ≤ max_bytes) ⊎ ((k : ℕ) × (out ≡ bare (verdict r) k))

  finish-Fits :
      (max_bytes : ℕ) (r s : WorkflowResult)
      → verdict s ≡ verdict r
      → (verdict (finish m max_bytes (measured m s)) ≡ verdict r)
        × Fits max_bytes r (finish m max_bytes (measured m s))
  unfolding Fits
  finish-Fits max_bytes r s e =
      let same = measured-steps s in
      elim (Bool-cases (leb (measured m s).1 max_bytes)) [
        | inl h ↦
            rw (finish_fits max_bytes s (ground (arith, h)))
              (same.1 ∙ e, inl (ground (arith, h, same.2)))
        | inr h ↦
            let (k, b) = finish-bare max_bytes (measured m s) (ground (arith, h)) in
            (ap verdict b ∙ same.1 ∙ e, inr (k, b ∙ ap (λ v. bare v k) (same.1 ∙ e)))
      ]

-- The loop that bounds a result ends: with more fuel than there are steps, contents to shorten and
-- optional fields, where the cut of a text to a number of bytes has no more bytes, there is a result.
-- It has the verdict it was made with, and it is within the bytes or is the bare verdict without
-- steps; a result that is within the bytes at once keeps all its steps.
pub bound_result-Fits :
    (m : Measures) (fuel max_bytes : ℕ) (r : WorkflowResult)
    → Cuts m
    → weight m (max_bytes / 4) r.steps < fuel
    → (out : WorkflowResult) × (bound_result m fuel max_bytes r ≡ some out)
      × (verdict out ≡ verdict r)
      × Fits m max_bytes r out
      × ((measured m r).1 ≤ max_bytes → out.steps ≡ r.steps)
unfolding bound_result
bound_result-Fits m fuel max_bytes r cuts h =
    let (r', ends, whole, kept) = bound_loop_ends m cuts fuel max_bytes r h in
    let (same, fits) = finish-Fits m max_bytes r r' kept in
    (
      finish m max_bytes (measured m r'),
      rw (bound_result, ends) refl,
      same,
      fits,
      λ small.
          ap (λ q. (finish m max_bytes (measured m q)).steps) (whole small)
          ∙ ap (λ q. q.steps) (finish_fits m max_bytes r small)
          ∙ (measured-steps m r).0,
    )

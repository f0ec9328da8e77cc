-- ===== src/Workflow/Bounded.antt =====
-- Every accepted step and workflow is within its limits (`normalizeStep`, `normalizeWorkflow`,
-- src/browser/workflow.ts).
use antigravity_browser.Base.{◌≡◌, Option, arith, Text}
use antigravity_browser.Workflow.Types.{
  WorkflowLimits, TypeOptions, open_url, click, type_text, select, scroll, Workflow, UrlParts,
}
use antigravity_browser.Workflow.Json.{Json, Fields, max_safe_integer}
use antigravity_browser.Workflow.Checks.{
  accepted, Ensures, it_holds, Ensures-bind, Ensures-after, Ensures-require, Ensures-optional,
  Ensures-check_all, Ensures-accepted, Ensures-both, check_all-length,
}
use antigravity_browser.Workflow.Fields.{key}
use antigravity_browser.Workflow.Limits.{
  WithinCeilings, resolve_workflow_limits, RequestedLimits, resolve_workflow_limits-WithinCeilings,
}
use antigravity_browser.Workflow.Steps.{
  normalize_step, normalize_fields, normalize_open, normalize_click, normalize_type,
  normalize_select, normalize_scroll, normalize_wait, normalize_snapshot, validate_url,
}
use antigravity_browser.Workflow.Choices.{
  WorkflowOperation, opens, clicks, types, selects, scrolls, waits, takes_snapshot, typed_text,
}
use antigravity_browser.Workflow.Normalize.{normalize_workflow, ValidationOptions}
use antigravity_browser.Workflow.Accepted.{
  Sized, in_range-Ensures, bounded_text-Ensures, required-Ensures, validate_target-Ensures,
  validate_condition-Ensures, selection-Ensures, wait_duration-Ensures, scroll_amount-Ensures,
}
use antigravity_browser.Workflow.Within.{
  StepWithin, WorkflowWithin, optional_timeout-Ensures, target-Ensures, typed_text-Ensures, fewer,
  wait_alone, within_steps-Ensures, uuid-Ensures, at_most,
}

module _ (parse_url : Text → Option UrlParts) (l : WorkflowLimits) where
  validate_url-Ensures : (v : Json) → Ensures (Sized 2048) (validate_url parse_url l v)
  unfolding validate_url
  validate_url-Ensures v =
      Ensures-bind _ _ (bounded_text-Ensures 2048 v) (λ u p. Ensures-after _ _ (λ w. it_holds p))

  open-Ensures : (fs : Fields) → Ensures (StepWithin l) (normalize_open parse_url l fs)
  unfolding normalize_open StepWithin
  open-Ensures fs = Ensures-after _ _ (λ u. Ensures-after _ _ (λ w.
      Ensures-bind _ _ (optional_timeout-Ensures _) (λ t p.
        Ensures-bind _ _ (required-Ensures (validate_url parse_url l) _ validate_url-Ensures)
          (λ url q. it_holds {a = open_url url w t} (q, p)))))

  click-Ensures : (fs : Fields) → Ensures (StepWithin l) (normalize_click parse_url l fs)
  unfolding normalize_click StepWithin
  click-Ensures fs = Ensures-after _ _ (λ u.
      Ensures-bind _ _ (optional_timeout-Ensures _)
        (λ t p. Ensures-bind _ _ (target-Ensures _) (λ g q. it_holds {a = click g t} (q, p))))

  type-Ensures : (fs : Fields) → Ensures (StepWithin l) (normalize_type parse_url l fs)
  unfolding normalize_type StepWithin
  type-Ensures fs = Ensures-after _ _ (λ u.
      Ensures-bind _ _ (required-Ensures typed_text (key "text" fs) typed_text-Ensures) (λ s n.
        Ensures-after _ _ (λ clear. Ensures-after _ _ (λ first. Ensures-require _ _ (λ agree.
          Ensures-after _ _ (λ submit. Ensures-after _ _ (λ secret.
            Ensures-bind _ _ (optional_timeout-Ensures _) (λ t p.
              Ensures-bind _ _ (target-Ensures _) (λ g q.
                let o : TypeOptions = record {
                  clear = clear;
                  clear_first = first;
                  submit = submit;
                  sensitive = secret;
                } in
                it_holds {a = type_text g s o t} (q, n, agree, p))))))))))

  select-Ensures : (fs : Fields) → Ensures (StepWithin l) (normalize_select parse_url l fs)
  unfolding normalize_select StepWithin
  select-Ensures fs = Ensures-after _ _ (λ u. Ensures-bind _ _ (selection-Ensures _ _ _ _) (λ c n.
      Ensures-bind _ _ (optional_timeout-Ensures _) (λ t p.
        Ensures-bind _ _ (target-Ensures _) (λ g q. it_holds {a = select g c t} (q, n, p)))))

  snapshot-Ensures : (fs : Fields) → Ensures (StepWithin l) (normalize_snapshot parse_url l fs)
  unfolding normalize_snapshot StepWithin
  snapshot-Ensures fs = Ensures-after _ _ (λ u.
      Ensures-bind _ _ (Ensures-optional _ _ (in_range-Ensures 1 2000)) (λ nodes n.
        Ensures-bind _ _ (Ensures-optional _ _ (in_range-Ensures 100 50000)) (λ chars c.
          Ensures-bind _ _ (Ensures-optional _ _ (in_range-Ensures 100 _)) (λ bytes b.
            Ensures-after _ _ (λ text. Ensures-after _ _ (λ small. Ensures-after _ _ (λ f.
              Ensures-after _ _ (λ agree.
                it_holds
                  (record { nodes = n; chars = c; bytes = fewer 100 bytes (omega arith) b })))))))))

  wait-Ensures : (fs : Fields) → Ensures (StepWithin l) (normalize_wait parse_url l fs)
  unfolding normalize_wait StepWithin
  wait-Ensures fs = Ensures-after _ _ (λ u. Ensures-bind _ _ (wait_duration-Ensures _ _) (λ a p.
      Ensures-bind _ _ (Ensures-optional _ _ validate_condition-Ensures) (λ b q.
        Ensures-bind _ _ (Ensures-optional _ _ validate_target-Ensures) (λ c r.
          Ensures-require _ _ (λ x. Ensures-require _ _ (λ y. Ensures-require _ _ (λ z.
            Ensures-bind _ _ (Ensures-optional _ _ (in_range-Ensures 1 10000)) (λ t s.
              it_holds (record {
                alone = wait_alone a b c x y z;
                duration = p;
                condition = q;
                target = r;
                patience = s;
              })))))))))

  module _ (limits : WithinCeilings l) where
    scroll-Ensures : (fs : Fields) → Ensures (StepWithin l) (normalize_scroll parse_url l fs)
    unfolding normalize_scroll StepWithin
    scroll-Ensures fs = Ensures-after _ _ (λ u. Ensures-after _ _ (λ given. Ensures-after _ _ (λ d.
        Ensures-bind _ _ (scroll_amount-Ensures _ _ limits.scroll.0) (λ n p.
          Ensures-bind _ _ (Ensures-optional _ _ validate_target-Ensures)
            (λ g q. it_holds {a = scroll d n g} (p, q))))))

    fields-Ensures :
        (fs : Fields) (op : WorkflowOperation)
        → Ensures (StepWithin l) (normalize_fields parse_url l fs op)
    fields-Ensures fs opens = open-Ensures fs
    fields-Ensures fs clicks = click-Ensures fs
    fields-Ensures fs types = type-Ensures fs
    fields-Ensures fs selects = select-Ensures fs
    fields-Ensures fs scrolls = scroll-Ensures fs
    fields-Ensures fs waits = wait-Ensures fs
    fields-Ensures fs takes_snapshot = snapshot-Ensures fs

    step-Ensures : (v : Json) → Ensures (StepWithin l) (normalize_step parse_url l v)
    unfolding normalize_step
    step-Ensures v =
        Ensures-after _ _ (λ fs. Ensures-after _ _ (λ n. Ensures-after _ _ (fields-Ensures fs)))

    workflow-Ensures :
        (o : ValidationOptions) (v : Json)
        → Ensures (WorkflowWithin l) (normalize_workflow parse_url l o v)
    unfolding normalize_workflow
    workflow-Ensures o v = Ensures-after _ _ (λ fs. Ensures-after _ _ (λ u.
        Ensures-after _ _ (λ raw. Ensures-bind _ _ (within_steps-Ensures l.max_steps raw) (λ x few.
          Ensures-after _ _ (λ action. Ensures-bind _ _ (uuid-Ensures action) (λ y uuid.
            Ensures-bind _ _ (Ensures-optional _ _ (in_range-Ensures 0 max_safe_integer))
              (λ revision r. Ensures-after _ _ (λ tab.
                Ensures-bind _ _ (in_range-Ensures 1 _ _) (λ d n.
                  Ensures-bind _ _ (in_range-Ensures 100 _ _) (λ b m. Ensures-after _ _ (λ triggers.
                    Ensures-bind _ _
                      (Ensures-both _ (check_all-length _ raw)
                        (Ensures-check_all _ raw step-Ensures))
                      (λ steps p. it_holds (record {
                        count = ground (arith, few, p.0);
                        steps = p.1;
                        duration = n;
                        result = m;
                        action = uuid;
                        revision = at_most revision r;
                      })))))))))))))

-- A workflow that is accepted, under whatever limits were asked for, has from one to the allowed
-- number of steps, each within its bounds and with one target, one selection and one thing to wait
-- for, and it asks for no more time and no larger result than the limits in force, which are within
-- the hard ceilings.
pub normalize_workflow-WorkflowWithin :
    (parse_url : Text → Option UrlParts) (asked : Option RequestedLimits) (o : ValidationOptions)
    (v : Json) (w : Workflow)
    → normalize_workflow parse_url (resolve_workflow_limits asked) o v ≡ accepted w
    → WithinCeilings (resolve_workflow_limits asked)
      × WorkflowWithin (resolve_workflow_limits asked) w
normalize_workflow-WorkflowWithin parse_url asked o v w e =
    let limits = resolve_workflow_limits-WithinCeilings asked in
    (limits, Ensures-accepted _ w (workflow-Ensures parse_url _ limits o v) e)

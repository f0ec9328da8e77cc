-- ===== src/Workflow/Writes.antt =====
-- The guards of the calls that a step makes (`invoke`, `adapterTarget`, src/browser/workflow.ts).
use antigravity_browser.Base.{
  ℕ, suc, ◌≡◌, refl, ap, ◌≢◌, ◌⊎◌, inl, inr, Bool, true, false, Option, List, [], ◌∷◌, ◌++◌, arith,
  Text,
}
use antigravity_browser.Workflow.Types.{
  WorkflowStep, open_url, click, type_text, select, scroll, wait, snapshot, Target, one, several,
  WorkflowLimits,
}
use antigravity_browser.Workflow.Json.{null, Json}
use antigravity_browser.Workflow.Checks.{All}
use antigravity_browser.Workflow.Run.{
  StepGuards, AdapterCall, to_open, to_click, to_type, to_select, to_scroll, to_wait, to_snapshot,
  Event, called, observed, Answer, resolved, rejected, is_write_step, no_guards, adapter_target,
  select_values, invoke, with_deadline,
}
use antigravity_browser.Workflow.Loop.{all_called}
use antigravity_browser.Workflow.Within.{StepWithin}
use antigravity_browser.Workflow.Accepted.{SelectionWithin}

-- The guards of the calls that write, in order.
unfoldable pub guards_of : List AdapterCall → List StepGuards
guards_of [] = []
guards_of (to_open u w t g ∷ cs) = g ∷ guards_of cs
guards_of (to_click a t g ∷ cs) = g ∷ guards_of cs
guards_of (to_type a s f u v t g ∷ cs) = g ∷ guards_of cs
guards_of (to_select a c t g ∷ cs) = g ∷ guards_of cs
guards_of (to_scroll d n a g ∷ cs) = g ∷ guards_of cs
guards_of (to_wait o ∷ cs) = guards_of cs
guards_of (to_snapshot o ∷ cs) = guards_of cs

unfoldable pub calls_of : List Event → List AdapterCall
calls_of [] = []
calls_of (called c ∷ es) = c ∷ calls_of es
calls_of (observed o ∷ es) = calls_of es

abbrev pub AllPlain : List StepGuards → Type 0
AllPlain = All (λ g. g ≡ no_guards)

-- The first has the guards, the others have none.
unfoldable pub GuardedOnce : StepGuards → List StepGuards → Type 0
GuardedOnce g [] = Unit {0}
GuardedOnce g (x ∷ xs) = (x ≡ g) × AllPlain xs

pub Answer-cases : (a : Answer) → ((v : Json) × (a ≡ resolved v)) ⊎ ((e : Json) × (a ≡ rejected e))
Answer-cases (resolved v) = inl (v, refl)
Answer-cases (rejected e) = inr (e, refl)

pub select_values-AllPlain :
    (target : Target) (t : Option ℕ) (g : StepGuards) (answers : ℕ → Answer) (i : ℕ) (r : Answer)
    (vs : List Text)
    → AllPlain (guards_of (select_values target t g answers (suc i) r vs).1)
unfolding select_values guards_of All
select_values-AllPlain target t g answers i r [] = tt
select_values-AllPlain target t g answers i r (v ∷ vs) = elim (Answer-cases (answers (suc i))) [
  | inr (e, h) ↦ rw (select_values, h) (ground arith, tt)
  | inl (x, h) ↦
      rw (select_values, h)
        (ground arith, select_values-AllPlain target t g answers (suc i) (answers (suc i)) vs)
]

pub select_values-GuardedOnce :
    (target : Target) (t : Option ℕ) (g : StepGuards) (answers : ℕ → Answer) (r : Answer)
    (vs : List Text)
    → GuardedOnce g (guards_of (select_values target t g answers 0 r vs).1)
unfolding select_values guards_of GuardedOnce All
select_values-GuardedOnce target t g answers r [] = tt
select_values-GuardedOnce target t g answers r (v ∷ vs) = elim (Answer-cases (answers 0)) [
  | inr (e, h) ↦ rw (select_values, h) (refl, tt)
  | inl (x, h) ↦
      rw (select_values, h) (refl, select_values-AllPlain target t g answers 0 (answers 0) vs)
]

pub invoke-GuardedOnce :
    (step : WorkflowStep) (g : StepGuards) (answers : ℕ → Answer)
    → GuardedOnce g (guards_of (invoke step g answers).1)
unfolding invoke guards_of GuardedOnce All
invoke-GuardedOnce (open_url u w t) g answers = (refl, tt)
invoke-GuardedOnce (click a t) g answers = (refl, tt)
invoke-GuardedOnce (type_text a s o t) g answers = (refl, tt)
invoke-GuardedOnce (select a (one c) t) g answers = (refl, tt)
invoke-GuardedOnce (select a (several vs) t) g answers =
    select_values-GuardedOnce (adapter_target a) t g answers (resolved null) vs
invoke-GuardedOnce (scroll d n a) g answers = (refl, tt)
invoke-GuardedOnce (wait o) g answers = tt
invoke-GuardedOnce (snapshot o) g answers = tt

-- A step that does not write calls nothing with guards.
pub invoke-reads :
    (step : WorkflowStep) (g : StepGuards) (answers : ℕ → Answer)
    → is_write_step step ≡ false
    → guards_of (invoke step g answers).1 ≡ []
unfolding invoke guards_of
invoke-reads (wait o) g answers h = refl
invoke-reads (snapshot o) g answers h = refl
invoke-reads (open_url u w t) g answers h = cc
invoke-reads (click a t) g answers h = cc
invoke-reads (type_text a s o t) g answers h = cc
invoke-reads (select a c t) g answers h = cc
invoke-reads (scroll d n a) g answers h = cc

-- An accepted step that writes calls the adapter.
pub invoke-writes :
    (l : WorkflowLimits) (step : WorkflowStep) (g : StepGuards) (answers : ℕ → Answer)
    → StepWithin l step
    → is_write_step step ≡ true
    → guards_of (invoke step g answers).1 ≢ []
unfolding invoke guards_of StepWithin SelectionWithin
invoke-writes l (wait o) g answers v h = cc
invoke-writes l (snapshot o) g answers v h = cc
invoke-writes l (open_url u w t) g answers v h = λ e. ground (arith, e)
invoke-writes l (click a t) g answers v h = λ e. ground (arith, e)
invoke-writes l (type_text a s o t) g answers v h = λ e. ground (arith, e)
invoke-writes l (scroll d n a) g answers v h = λ e. ground (arith, e)
invoke-writes l (select a (one c) t) g answers v h = λ e. ground (arith, e)
invoke-writes l (select a (several []) t) g answers v h = absurd (ground (arith, v.1.0.0))
invoke-writes l (select a (several (s ∷ vs)) t) g answers v h = elim (Answer-cases (answers 0)) [
  | inr (e, k) ↦ rw (select_values, k) (λ e. ground (arith, e))
  | inl (x, k) ↦ rw (select_values, k) (λ e. ground (arith, e))
]

pub plain_once : (xs : List StepGuards) → GuardedOnce no_guards xs → AllPlain xs
unfolding GuardedOnce All
plain_once [] q = tt
plain_once (x ∷ xs) q = q

pub All-append : (xs ys : List StepGuards) → AllPlain xs → AllPlain ys → AllPlain (xs ++ ys)
unfolding All
All-append [] ys p q = q
All-append (x ∷ xs) ys p q = (p.0, All-append xs ys p.1 q)

pub GuardedOnce-append :
    (g : StepGuards) (xs ys : List StepGuards)
    → GuardedOnce g xs
    → AllPlain ys
    → xs ≢ []
    → GuardedOnce g (xs ++ ys)
unfolding GuardedOnce
GuardedOnce-append g [] ys p q n = elim (n refl) [ ]
GuardedOnce-append g (x ∷ xs) ys p q n = (p.0, All-append xs ys p.1 q)

pub nothing : (g : StepGuards) → GuardedOnce g []
unfolding GuardedOnce
nothing g = tt

pub no_plain : AllPlain []
unfolding All
no_plain = tt

pub GuardedOnce-alone :
    (g : StepGuards) (xs : List StepGuards) → GuardedOnce g xs → GuardedOnce g (xs ++ [])
unfolding GuardedOnce
GuardedOnce-alone g [] p = tt
GuardedOnce-alone g (x ∷ xs) p = (p.0, All-append xs [] p.1 no_plain)

pub guards_of-append :
    (cs ds : List AdapterCall) → guards_of (cs ++ ds) ≡ guards_of cs ++ guards_of ds
unfolding guards_of
guards_of-append [] ds = refl
guards_of-append (to_open u w t g ∷ cs) ds = ap (λ xs. g ∷ xs) (guards_of-append cs ds)
guards_of-append (to_click a t g ∷ cs) ds = ap (λ xs. g ∷ xs) (guards_of-append cs ds)
guards_of-append (to_type a s f u v t g ∷ cs) ds = ap (λ xs. g ∷ xs) (guards_of-append cs ds)
guards_of-append (to_select a c t g ∷ cs) ds = ap (λ xs. g ∷ xs) (guards_of-append cs ds)
guards_of-append (to_scroll d n a g ∷ cs) ds = ap (λ xs. g ∷ xs) (guards_of-append cs ds)
guards_of-append (to_wait o ∷ cs) ds = guards_of-append cs ds
guards_of-append (to_snapshot o ∷ cs) ds = guards_of-append cs ds

pub calls_of-all_called :
    (cs : List AdapterCall) (es fs : List Event)
    → calls_of (all_called cs es ++ fs) ≡ cs ++ calls_of (es ++ fs)
unfolding calls_of
calls_of-all_called [] es fs = refl
calls_of-all_called (c ∷ cs) es fs = ap (λ xs. c ∷ xs) (calls_of-all_called cs es fs)

pub with_deadline-resolved :
    (d n : ℕ) (a o : Bool) (op : Answer × List AdapterCall) (v : Json)
    → (with_deadline d n a o op).0 ≡ resolved v
    → (with_deadline d n a o op).1 ≡ op.1
unfolding with_deadline
with_deadline-resolved d n a o op v e = ground (arith, e)

pub with_deadline-calls :
    (d n : ℕ) (a o : Bool) (op : Answer × List AdapterCall)
    → ((with_deadline d n a o op).1 ≡ []) ⊎ ((with_deadline d n a o op).1 ≡ op.1)
unfolding with_deadline
with_deadline-calls d n a o op = ground arith

abbrev pub write_guards : List Event → List StepGuards
write_guards es = guards_of (calls_of es)

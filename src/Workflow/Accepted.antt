-- ===== src/Workflow/Accepted.antt =====
-- What an accepted workflow satisfies (`normalizeWorkflow`, src/browser/workflow.ts).
use antigravity_browser.Base.{
  ℕ, ◌≤◌, ◌≡◌, refl, Bool, true, false, Option, none, some, [], ◌∷◌, arith, if◌then◌else◌, length,
  Text, is_some,
}
use antigravity_browser.Workflow.Types.{
  Target, opaque, by_role, by_label, by_test_id, by_ref, SelectChoice, plain, of_value, of_label,
  Selection, one, several,
}
use antigravity_browser.Workflow.Json.{
  Num, Json, null, string, array, object, number, flag, Fields, whole, fraction, negative_whole,
  negative_fraction, infinite,
}
use antigravity_browser.Workflow.Checks.{
  Checked, Ensures, it_holds, not_accepted, Given, All, Ensures-bind, Ensures-after,
  Ensures-require, Ensures-optional, Ensures-check_all, Ensures-if, Ensures-split, Ensures-both,
  check_all-length,
}
use antigravity_browser.Workflow.Fields.{
  key, or_fail, in_range, bounded_integer, bounded_text, is_opaque_ref, opaque_ref, required,
  choice_by, target_by, validate_target, validate_choice, validate_condition, choice_of_record,
  target_of_record, has_role, role_target, label_target, test_id_target, ref_target,
}
use antigravity_browser.Workflow.Choices.{scroll_amount, wait_duration, selection}

-- A text that is not empty and has at most so many code units.
abbrev pub Sized : ℕ → Text → Type 0
Sized n s = (1 ≤ length s) × (length s ≤ n)

abbrev pub Between : ℕ → ℕ → ℕ → Type 0
Between a b n = (a ≤ n) × (n ≤ b)

unfoldable pub TargetWithin : Target → Type 0
TargetWithin (opaque s) = is_opaque_ref s ≡ true
TargetWithin (by_role r n e) = Sized 64 r × Sized 500 n
TargetWithin (by_label l e) = Sized 500 l
TargetWithin (by_test_id s) = Sized 128 s
TargetWithin (by_ref s) = is_opaque_ref s ≡ true

unfoldable pub ChoiceWithin : SelectChoice → Type 0
ChoiceWithin (plain s) = Sized 1000 s
ChoiceWithin (of_value s) = Sized 1000 s
ChoiceWithin (of_label s) = Sized 1000 s

unfoldable pub SelectionWithin : Selection → Type 0
SelectionWithin (one c) = ChoiceWithin c
SelectionWithin (several vs) = Between 1 32 (length vs) × All (Sized 200) vs

abbrev pub count_given : {A : Type 0} → Option A → ℕ
count_given none = 0
count_given (some a) = 1

range_if :
    {P : ℕ → Type 0} (b : Bool) (n : ℕ)
    → (b ≡ true → P n)
    → Ensures P (or_fail (if b then some n else none))
range_if true n p = it_holds (p refl)
range_if false n p = not_accepted

pub in_range-Ensures : (a b : ℕ) (v : Json) → Ensures (Between a b) (in_range a b v)
unfolding bounded_integer
in_range-Ensures a b (number (whole n)) = range_if _ n (λ e. ground (arith, e))
in_range-Ensures a b (number (fraction n)) = not_accepted
in_range-Ensures a b (number (negative_whole n)) = not_accepted
in_range-Ensures a b (number negative_fraction) = not_accepted
in_range-Ensures a b (number infinite) = not_accepted
in_range-Ensures a b (number Num.nan) = not_accepted
in_range-Ensures a b null = not_accepted
in_range-Ensures a b (flag x) = not_accepted
in_range-Ensures a b (string s) = not_accepted
in_range-Ensures a b (array vs) = not_accepted
in_range-Ensures a b (object fs) = not_accepted

pub bounded_text-Ensures : (n : ℕ) (v : Json) → Ensures (Sized n) (bounded_text n v)
unfolding bounded_text
bounded_text-Ensures n (string []) = not_accepted
bounded_text-Ensures n (string (c ∷ s)) = Ensures-if _ _ (c ∷ s) (λ e. ground (arith, e))
bounded_text-Ensures n null = not_accepted
bounded_text-Ensures n (flag x) = not_accepted
bounded_text-Ensures n (number k) = not_accepted
bounded_text-Ensures n (array vs) = not_accepted
bounded_text-Ensures n (object fs) = not_accepted

opaque_ref-Ensures : (v : Json) → Ensures (λ s. is_opaque_ref s ≡ true) (opaque_ref v)
unfolding opaque_ref
opaque_ref-Ensures (string s) = Ensures-if _ _ s (λ e. e)
opaque_ref-Ensures null = not_accepted
opaque_ref-Ensures (flag x) = not_accepted
opaque_ref-Ensures (number k) = not_accepted
opaque_ref-Ensures (array vs) = not_accepted
opaque_ref-Ensures (object fs) = not_accepted

pub required-Ensures :
    {A : Type 0} {P : A → Type 0} (f : Json → Checked A) (o : Option Json)
    → ((v : Json) → Ensures P (f v))
    → Ensures P (required f o)
required-Ensures f none h = not_accepted
required-Ensures f (some v) h = h v

ref-Ensures : (o : Option Json) → Ensures (λ s. is_opaque_ref s ≡ true) (required opaque_ref o)
ref-Ensures o = required-Ensures opaque_ref o opaque_ref-Ensures

text-Ensures : (n : ℕ) (o : Option Json) → Ensures (Sized n) (required (bounded_text n) o)
text-Ensures n o = required-Ensures (bounded_text n) o (bounded_text-Ensures n)

target_by-Ensures : (fs : Fields) → Ensures TargetWithin (target_by fs)
unfolding target_by TargetWithin
target_by-Ensures fs =
    Ensures-split (has_role fs) (role_target fs) _
      (Ensures-bind _ _ (text-Ensures 64 _) (λ role r.
        Ensures-bind _ _ (text-Ensures 500 _)
          (λ name n. Ensures-after _ _ (λ exact. it_holds {a = by_role role name exact} (r, n)))))
      (Ensures-split (is_some (key "label" fs)) (label_target fs) _
        (Ensures-bind _ _ (text-Ensures 500 _) (λ label l. Ensures-after _ _ (λ exact. it_holds l)))
        (Ensures-split (is_some (key "testId" fs)) (test_id_target fs) (ref_target fs)
          (Ensures-bind _ _ (text-Ensures 128 _) (λ id i. Ensures-after _ _ (λ u. it_holds i)))
          (Ensures-after _ _ (λ u. Ensures-bind _ _ (ref-Ensures _) (λ ref r. it_holds r)))))

target_of_record-Ensures : (v : Json) → Ensures TargetWithin (target_of_record v)
target_of_record-Ensures v =
    Ensures-after _ _ (λ fs. Ensures-after _ _ (λ u. Ensures-after _ _ (λ w. target_by-Ensures fs)))

pub validate_target-Ensures : (v : Json) → Ensures TargetWithin (validate_target v)
unfolding validate_target TargetWithin
validate_target-Ensures (string s) =
    Ensures-bind _ _ (opaque_ref-Ensures (string s)) (λ r p. it_holds p)
validate_target-Ensures (object fs) = target_of_record-Ensures (object fs)
validate_target-Ensures null = target_of_record-Ensures null
validate_target-Ensures (flag x) = target_of_record-Ensures (flag x)
validate_target-Ensures (number k) = target_of_record-Ensures (number k)
validate_target-Ensures (array vs) = target_of_record-Ensures (array vs)

choice_by-Ensures : (v l : Option Json) → Ensures ChoiceWithin (choice_by v l)
unfolding ChoiceWithin
choice_by-Ensures (some v) none = Ensures-bind _ _ (bounded_text-Ensures 1000 v) (λ t p. it_holds p)
choice_by-Ensures none (some l) = Ensures-bind _ _ (bounded_text-Ensures 1000 l) (λ t p. it_holds p)
choice_by-Ensures none none = not_accepted
choice_by-Ensures (some v) (some l) = not_accepted

choice_of_record-Ensures : (v : Json) → Ensures ChoiceWithin (choice_of_record v)
choice_of_record-Ensures v =
    Ensures-after _ _ (λ fs. Ensures-after _ _ (λ u. choice_by-Ensures _ _))

validate_choice-Ensures : (v : Json) → Ensures ChoiceWithin (validate_choice v)
unfolding validate_choice ChoiceWithin
validate_choice-Ensures (string s) =
    Ensures-bind _ _ (bounded_text-Ensures 1000 (string s)) (λ r p. it_holds p)
validate_choice-Ensures (object fs) = choice_of_record-Ensures (object fs)
validate_choice-Ensures null = choice_of_record-Ensures null
validate_choice-Ensures (flag x) = choice_of_record-Ensures (flag x)
validate_choice-Ensures (number k) = choice_of_record-Ensures (number k)
validate_choice-Ensures (array vs) = choice_of_record-Ensures (array vs)

pub validate_condition-Ensures :
    (v : Json) → Ensures (λ c. is_opaque_ref c.ref ≡ true) (validate_condition v)
unfolding validate_condition
validate_condition-Ensures v = Ensures-after _ _ (λ fs. Ensures-after _ _ (λ u.
    Ensures-bind _ _ (ref-Ensures _)
      (λ ref r. Ensures-after _ _ (λ state. Ensures-after _ _ (λ needed. it_holds r)))))

-- Exactly one is given.
pub selection-Ensures : (v c a b : Option Json) → Ensures SelectionWithin (selection v c a b)
unfolding selection SelectionWithin
selection-Ensures (some v) c a b = Ensures-after _ _ (λ u. Ensures-after _ _ (λ vs.
    Ensures-require _ _ (λ n.
      Ensures-bind _ _
        (Ensures-both _ (check_all-length _ vs) (Ensures-check_all _ vs (bounded_text-Ensures 200)))
        (λ ts p. it_holds {a = several ts} (ground (arith, p.0), p.1)))))
selection-Ensures none (some c) a b =
    Ensures-after _ _ (λ u. Ensures-bind _ _ (validate_choice-Ensures c) (λ d p. it_holds p))
selection-Ensures none none a b = Ensures-bind _ _ (choice_by-Ensures a b) (λ d p. it_holds p)

pub wait_duration-Ensures :
    (a b : Option Json) → Ensures (Given (Between 1 10000)) (wait_duration a b)
unfolding wait_duration
wait_duration-Ensures (some a) (some b) = not_accepted
wait_duration-Ensures (some a) none = Ensures-optional _ (some a) (in_range-Ensures 1 10000)
wait_duration-Ensures none b = Ensures-optional _ b (in_range-Ensures 1 10000)

pub scroll_amount-Ensures :
    (n : ℕ) (o : Option Json) → 1 ≤ n → Ensures (Between 1 n) (scroll_amount n o)
unfolding scroll_amount
scroll_amount-Ensures n none h = it_holds {a = 1} (omega arith, h)
scroll_amount-Ensures n (some v) h = in_range-Ensures 1 n v

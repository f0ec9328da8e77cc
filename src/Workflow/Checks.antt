-- ===== src/Workflow/Checks.antt =====
-- Checks that throw: the outcome of a validator of src/browser/workflow.ts, its chains, and what an
-- accepted value is known to satisfy.
use antigravity_browser.Base.{
  ◌≡◌, refl, ap, subst, Bool, true, false, Option, none, some, List, [], ◌∷◌, if◌then◌else◌, length,
  suc,
}
use antigravity_browser.Workflow.Types.{WorkflowError, invalid_workflow}

pub data Checked {ℓ} (A : Type ℓ) : Type ℓ where
  accepted : A → Checked A
  refused : WorkflowError → Checked A

infixl 5 ◌>>=◌ ◌>>◌
unfoldable pub ◌>>=◌ {ℓ κ} : {A : Type ℓ} {B : Type κ} → Checked A → (A → Checked B) → Checked B
accepted a >>= f = f a
refused e >>= f = refused e

abbrev pub ◌>>◌ {ℓ} : {B : Type ℓ} → Checked (Unit {0}) → Checked B → Checked B
m >> k = m >>= λ _. k

-- `if (!condition) fail(...)`.
unfoldable pub require : Bool → Checked (Unit {0})
require true = accepted tt
require false = refused invalid_workflow

-- `value === undefined ? undefined : check(value)`.
unfoldable pub optional {ℓ κ} :
    {A : Type ℓ} {B : Type κ} → (A → Checked B) → Option A → Checked (Option B)
unfolding ◌>>=◌
optional f none = accepted none
optional f (some a) = f a >>= λ b. accepted (some b)

-- `array.map(check)`.
unfoldable pub check_all {ℓ κ} :
    {A : Type ℓ} {B : Type κ} → (A → Checked B) → List A → Checked (List B)
unfolding ◌>>=◌
check_all f [] = accepted []
check_all f (a ∷ as1) = f a >>= λ b. check_all f as1 >>= λ bs. accepted (b ∷ bs)

-- Whatever the check accepts has the property.
pub data Ensures {ℓ} {A : Type ℓ} (P : A → Type 0) : Checked A → Type ℓ where
  it_holds : {a : A} → P a → Ensures P (accepted a)
  not_accepted : {e : WorkflowError} → Ensures P (refused e)

unfoldable pub Given {ℓ} : {A : Type ℓ} → (A → Type 0) → Option A → Type 0
Given P none = Unit {0}
Given P (some a) = P a

unfoldable pub All {ℓ} : {A : Type ℓ} → (A → Type 0) → List A → Type 0
All P [] = Unit {0}
All P (a ∷ rest) = P a × All P rest

pub Ensures-bind {ℓ κ} :
    {A : Type ℓ} {B : Type κ} {P : A → Type 0} {Q : B → Type 0} (m : Checked A) (f : A → Checked B)
    → Ensures P m
    → ((a : A) → P a → Ensures Q (f a))
    → Ensures Q (m >>= f)
unfolding ◌>>=◌
Ensures-bind (accepted a) f (it_holds p) k = k a p
Ensures-bind (refused e) f not_accepted k = not_accepted

-- The result of the first check does not matter.
pub Ensures-after {ℓ κ} :
    {A : Type ℓ} {B : Type κ} {Q : B → Type 0} (m : Checked A) (f : A → Checked B)
    → ((a : A) → Ensures Q (f a))
    → Ensures Q (m >>= f)
unfolding ◌>>=◌
Ensures-after (accepted a) f k = k a
Ensures-after (refused e) f k = not_accepted

pub Ensures-require {κ} :
    {B : Type κ} {Q : B → Type 0} (b : Bool) (f : Unit {0} → Checked B)
    → (b ≡ true → Ensures Q (f tt))
    → Ensures Q (require b >>= f)
unfolding ◌>>=◌ require
Ensures-require true f k = k refl
Ensures-require false f k = not_accepted

pub Ensures-optional {ℓ κ} :
    {A : Type ℓ} {B : Type κ} {P : B → Type 0} (f : A → Checked B) (o : Option A)
    → ((a : A) → Ensures P (f a))
    → Ensures (Given P) (optional f o)
unfolding optional Given
Ensures-optional f none h = it_holds tt
Ensures-optional f (some a) h = Ensures-bind (f a) _ (h a) (λ b p. it_holds p)

pub Ensures-check_all {ℓ κ} :
    {A : Type ℓ} {B : Type κ} {P : B → Type 0} (f : A → Checked B) (xs : List A)
    → ((a : A) → Ensures P (f a))
    → Ensures (All P) (check_all f xs)
unfolding check_all All
Ensures-check_all f [] h = it_holds tt
Ensures-check_all f (a ∷ xs) h =
    Ensures-bind (f a) _ (h a) (λ b p.
      Ensures-bind (check_all f xs) _ (Ensures-check_all f xs h) (λ bs ps. it_holds (p, ps)))

pub require-Ensures : (b : Bool) → Ensures (λ u. b ≡ true) (require b)
unfolding require
require-Ensures true = it_holds refl
require-Ensures false = not_accepted

-- Either outcome of a test, with the test known.
pub Ensures-unless {ℓ} :
    {A : Type ℓ} {P : A → Type 0} (e : WorkflowError) (b : Bool) (m : Checked A)
    → (b ≡ false → Ensures P m)
    → Ensures P (if b then refused e else m)
Ensures-unless e true m p = not_accepted
Ensures-unless e false m p = p refl

-- A check that is a test.
pub Ensures-if {ℓ} :
    {A : Type ℓ} {P : A → Type 0} (e : WorkflowError) (b : Bool) (a : A)
    → (b ≡ true → P a)
    → Ensures P (if b then accepted a else refused e)
Ensures-if e true a p = it_holds (p refl)
Ensures-if e false a p = not_accepted

pub Ensures-split {ℓ} :
    {A : Type ℓ} {P : A → Type 0} (b : Bool) (x y : Checked A)
    → Ensures P x
    → Ensures P y
    → Ensures P (if b then x else y)
Ensures-split true x y p q = p
Ensures-split false x y p q = q

pub Ensures-both {ℓ} :
    {A : Type ℓ} {P Q : A → Type 0} (m : Checked A)
    → Ensures P m
    → Ensures Q m
    → Ensures (λ a. P a × Q a) m
Ensures-both (accepted a) (it_holds p) (it_holds q) = it_holds (p, q)
Ensures-both (refused e) not_accepted not_accepted = not_accepted

pub check_all-length {ℓ κ} :
    {A : Type ℓ} {B : Type κ} (f : A → Checked B) (xs : List A)
    → Ensures (λ ys. length ys ≡ length xs) (check_all f xs)
unfolding check_all
check_all-length f [] = it_holds refl
check_all-length f (a ∷ xs) =
    Ensures-after (f a) _
      (λ b. Ensures-bind (check_all f xs) _ (check_all-length f xs) (λ bs e. it_holds (ap suc e)))

pub Ensures-weaken {ℓ} :
    {A : Type ℓ} {P Q : A → Type 0} (m : Checked A)
    → Ensures P m
    → ((a : A) → P a → Q a)
    → Ensures Q m
Ensures-weaken (accepted a) (it_holds p) k = it_holds (k a p)
Ensures-weaken (refused e) not_accepted k = not_accepted

abbrev value_or {ℓ} : {A : Type ℓ} → A → Checked A → A
value_or d (accepted a) = a
value_or d (refused e) = d

pub Ensures-accepted {ℓ} :
    {A : Type ℓ} {P : A → Type 0} (m : Checked A) (a : A) → Ensures P m → m ≡ accepted a → P a
Ensures-accepted {P = P} (accepted b) a (it_holds p) e = subst P (ap (value_or b) e) p
Ensures-accepted (refused c) a not_accepted e = cc

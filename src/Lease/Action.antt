-- ===== src/Lease/Action.antt =====
-- The monad of the manager's methods: the manager is mutated in place, so a method that throws
-- keeps what it had changed before.
use antigravity_browser.Base.{ℕ, suc, ◌≡◌, refl, ap, Bool, true, false, Option, none, some}
use antigravity_browser.Lease.Types.{Manager, Host, ControlLeaseError, invalid_argument, clock}

pub data Result {ℓ} (A : Type ℓ) : Type ℓ where
  ok : A → Result A
  err : ControlLeaseError → Result A

abbrev pub Action : Type 0 → Type 0
Action A = Manager → Result A × Manager

abbrev pub bind_result : {A B : Type 0} → Result A → (A → Action B) → Action B
bind_result (ok a) f m = f a m
bind_result (err e) f m = (err e, m)

infixl 5 ◌>>=◌ ◌>>◌
abbrev pub ◌>>=◌ : {A B : Type 0} → Action A → (A → Action B) → Action B
◌>>=◌ a f m = bind_result (a m).0 f (a m).1

abbrev pub ◌>>◌ : {A B : Type 0} → Action A → Action B → Action B
◌>>◌ a b = a >>= λ _. b

abbrev pub return : {A : Type 0} → A → Action A
return a m = (ok a, m)

abbrev pub throw : {A : Type 0} → ControlLeaseError → Action A
throw e m = (err e, m)

-- `if (b) throw e`.
abbrev pub throw_if : Bool → ControlLeaseError → Action (Unit {0})
throw_if true e m = (err e, m)
throw_if false e m = (ok tt, m)

abbrev pub get : Action Manager
get m = (ok m, m)

abbrev pub modify : (Manager → Manager) → Action (Unit {0})
modify f m = (ok tt, f m)

-- A check that reads no state.
abbrev pub check : {A : Type 0} → Result A → Action A
check r m = (r, m)

abbrev pub finite : Option ℕ → Result ℕ
finite none = err (invalid_argument clock)
finite (some t) = ok t

-- The next check on a result.
abbrev pub with_result : {A B : Type 0} → Result A → (A → Result B) → Result B
with_result (ok a) f = f a
with_result (err e) f = err e

-- `readNow`.
unfoldable pub read_now : Host → Action ℕ
read_now host m = (finite (host.now m.clock_reads), record m { clock_reads = suc m.clock_reads })

pub ok-ne-err :
    {B : Type 0} {e : ControlLeaseError} {m m' : Manager} {b : B}
    → ◌≡◌ {A = Result B × Manager} (err e, m) (ok b, m')
    → ⊥
ok-ne-err h = cc (ap (λ (p : Result _ × Manager). p.0) h)

bind_result-inv :
    {A B : Type 0} (r : Result A) (f : A → Action B) (m : Manager) {b : B} {m' : Manager}
    → bind_result r f m ≡ (ok b, m')
    → (x : A) × (r ≡ ok x) × (f x m ≡ (ok b, m'))
bind_result-inv (ok x) f m h = (x, refl, h)
bind_result-inv (err e) f m h = absurd (ok-ne-err h)

-- A sequence that succeeds went through its first part.
pub bind-inv :
    {A B : Type 0} (a : Action A) (f : A → Action B) (m : Manager) {b : B} {m' : Manager}
    → (a >>= f) m ≡ (ok b, m')
    → (x : A) × ((a m).0 ≡ ok x) × (f x (a m).1 ≡ (ok b, m'))
bind-inv a f m = bind_result-inv (a m).0 f (a m).1

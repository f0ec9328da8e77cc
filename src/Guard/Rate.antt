-- ===== src/Guard/Rate.antt =====
-- The rate that the guard admits, over any sequence of calls.
use antigravity_browser.Base.{
  ℕ, ◌+◌, ◌-◌, ◌*◌, ◌≤◌, ◌≡◌, Bool, true, false, ◌&&◌, List, [], ◌∷◌, arith, leb, if◌then◌else◌,
  ◌||◌,
}
use antigravity_browser.Guard.Calls.{
  RuntimeGuard, RuntimeCallContext, Verdict, refill, spend, before_call, whole, create,
  GuardOptions, admitted, bounded_number,
}

abbrev pub is_admitted : Verdict → Bool
is_admitted Verdict.admitted = true
is_admitted _ = false

-- The guard after a sequence of calls, each with its time.
unfoldable pub after_calls : List (RuntimeCallContext × ℕ) → RuntimeGuard → RuntimeGuard
after_calls [] g = g
after_calls ((c, t) ∷ cs) g = after_calls cs (before_call c t g).1

-- How many of them it admits.
unfoldable pub admissions : List (RuntimeCallContext × ℕ) → RuntimeGuard → ℕ
admissions [] g = 0
admissions ((c, t) ∷ cs) g =
    (if is_admitted (before_call c t g).0 then 1 else 0) + admissions cs (before_call c t g).1

-- The times never go back, from `t` on, nor past `end`.
unfoldable pub runs_forward : ℕ → List (RuntimeCallContext × ℕ) → ℕ → Bool
runs_forward t [] end = leb t end
runs_forward t ((c, u) ∷ cs) end = leb t u && runs_forward u cs end

-- One call: what is spent was in the bucket or has been refilled meanwhile.
before_call-tokens :
    (c : RuntimeCallContext) (t : ℕ) (g : RuntimeGuard)
    → g.last_refill_ms ≤ t
    → ((if is_admitted (before_call c t g).0 then 1 else 0) * whole + (before_call c t g).1.tokens
        ≤ g.tokens + ((before_call c t g).1.last_refill_ms - g.last_refill_ms) * g.rate_per_second)
      × (g.last_refill_ms ≤ (before_call c t g).1.last_refill_ms)
      × ((before_call c t g).1.last_refill_ms ≤ t)
      × ((before_call c t g).1.rate_per_second ≡ g.rate_per_second)
unfolding before_call spend refill
before_call-tokens c t g h = ground arith

interval : (rate a b c : ℕ) → a ≤ b → b ≤ c → (b - a) * rate + (c - b) * rate ≡ (c - a) * rate
interval rate a b c h k = grind arith

runs_forward_end :
    (t : ℕ) (cs : List (RuntimeCallContext × ℕ)) (end : ℕ) → runs_forward t cs end ≡ true → t ≤ end
unfolding runs_forward
runs_forward_end t [] end f = ground arith
runs_forward_end t ((c, u) ∷ cs) end f = ground (arith, runs_forward_end u cs end)

admissions_bounded :
    (cs : List (RuntimeCallContext × ℕ)) (g : RuntimeGuard) (t end : ℕ)
    → g.last_refill_ms ≤ t
    → runs_forward t cs end ≡ true
    → admissions cs g * whole ≤ g.tokens + (end - g.last_refill_ms) * g.rate_per_second
unfolding admissions runs_forward
admissions_bounded [] g t end h f = ground arith
admissions_bounded ((c, u) ∷ cs) g t end h f =
    let one = before_call-tokens c u g (ground arith) in
    let later = admissions_bounded cs (before_call c u g).1 u end one.2 (ground arith) in
    let until = runs_forward_end u cs end (ground arith) in
    let parts =
      interval g.rate_per_second g.last_refill_ms (before_call c u g).1.last_refill_ms end one.1
        (ground arith) in
    ground (arith, one, later, parts)

create-limits :
    (o : GuardOptions) (start : ℕ)
    → (1 ≤ (create o start).rate_per_second)
      × ((create o start).rate_per_second ≤ 10000)
      × (whole ≤ (create o start).capacity)
      × ((create o start).capacity ≤ 10000 * whole)
unfolding create bounded_number
create-limits o start = ground arith

-- A token bucket: while the clock does not go back, the guard admits no more calls between its
-- construction and a later time than its burst and its rate over that time, and whatever the
-- options these are at most 10,000 calls and 1,000 calls per second.
pub admissions-create :
    (o : GuardOptions) (cs : List (RuntimeCallContext × ℕ)) (start end : ℕ)
    → runs_forward start cs end ≡ true
    → (admissions cs (create o start) * whole
        ≤ (create o start).capacity + (end - start) * (create o start).rate_per_second)
      × ((create o start).capacity ≤ 10000 * whole)
      × ((create o start).rate_per_second ≤ 10000)
unfolding create
admissions-create o cs start end f =
    let limits = create-limits o start in
    (admissions_bounded cs (create o start) start end (ground arith) f, limits.3, limits.1)

abbrev pub is_blocked : RuntimeCallContext → Bool
is_blocked c = c.write && (c.paused_challenge || c.user_controlled)

-- A write while the session is paused on a challenge or the user is in control is refused, whatever
-- the bucket holds, and costs no token.
pub blocked_write :
    (c : RuntimeCallContext) (now : ℕ) (g : RuntimeGuard)
    → is_blocked c ≡ true
    → (is_admitted (before_call c now g).0 ≡ false) × ((before_call c now g).1 ≡ g)
unfolding before_call
blocked_write c now g b = ground arith

-- ===== src/Guard/Metrics.antt =====
-- The metrics of the guard, over any sequence of finished calls.
use antigravity_browser.Base.{
  some, none, Option, max, suc, not_finite, below_zero, floor_of, ℕ, ◌+◌, ◌*◌, ◌≤◌, ◌≡◌, Bool, true,
  false, ◌&&◌, List, [], ◌∷◌, arith, if◌then◌else◌, Text, text_eq, or_else, lookup, Amount,
  lookup-insert, text_eq_iff, Option, suc, max,
}
use antigravity_browser.Guard.Calls.{
  Metric, RuntimeGuard, GuardOptions, create, record_call, add_call, bounded_duration, no_calls,
  snapshot, unless_nan,
}

-- A finished call: the tool, whether it succeeded, how long it took.
pub record Finished : Type 0 where
  pub tool : Text
  pub success : Bool
  pub duration : Option Amount

unfoldable pub record_all : List Finished → RuntimeGuard → RuntimeGuard
record_all [] g = g
record_all (f ∷ fs) g = record_all fs (record_call f.tool f.success f.duration g)

unfoldable pub count_tool : Text → List Finished → ℕ
count_tool k [] = 0
count_tool k (f ∷ fs) = (if text_eq f.tool k then 1 else 0) + count_tool k fs

unfoldable pub count_success : Text → List Finished → ℕ
count_success k [] = 0
count_success k (f ∷ fs) = (if f.success && text_eq f.tool k then 1 else 0) + count_success k fs

abbrev pub metric_of : Text → RuntimeGuard → Metric
metric_of k g = or_else (lookup k (snapshot g)) no_calls

-- The sum and the longest of the durations of so many calls; nothing is said of NaN.
abbrev pub IsWithinDays : ℕ → Option ℕ → Option ℕ → Type 0
IsWithinDays calls (some total) (some longest) =
    (longest ≤ total) × (longest ≤ 86400000) × (total ≤ calls * 86400000)
IsWithinDays calls _ _ = Unit {0}

pub record Sound (m : Metric) : Type 0 where
  pub split : m.calls ≡ m.successes + m.failures
  pub durations : IsWithinDays m.calls m.total_duration_ms m.max_duration_ms

later-IsWithinDays :
    (calls : ℕ) (total longest : Option ℕ) (duration : Option Amount)
    → IsWithinDays calls total longest
    → IsWithinDays
        (suc calls)
        (unless_nan (λ a b. a + b) total (bounded_duration duration))
        (unless_nan (λ a b. max a b) longest (bounded_duration duration))
unfolding bounded_duration
later-IsWithinDays calls (some t) (some x) none w = tt
later-IsWithinDays calls (some t) (some x) (some not_finite) w = ground (arith, w)
later-IsWithinDays calls (some t) (some x) (some below_zero) w = ground (arith, w)
later-IsWithinDays calls (some t) (some x) (some (floor_of n)) w = ground (arith, w)
later-IsWithinDays calls none x d w = tt
later-IsWithinDays calls (some t) none d w = ground arith

metric_of-record_call :
    (k tool : Text) (success : Bool) (duration : Option Amount) (g : RuntimeGuard)
    → metric_of k (record_call tool success duration g)
      ≡ (if text_eq tool k then add_call success duration (metric_of k g) else metric_of k g)
unfolding record_call snapshot
metric_of-record_call k tool success duration g = ground (
  arith,
  lookup-insert tool k (add_call success duration (or_else (lookup tool g.metrics) no_calls))
      g.metrics,
  text_eq_iff tool k,
)

add_call-Sound :
    (success : Bool) (duration : Option Amount) (m : Metric)
    → Sound m
    → Sound (add_call success duration m)
unfolding add_call
add_call-Sound success duration m s = record {
  split = ground (arith, s.split);
  durations = later-IsWithinDays m.calls m.total_duration_ms m.max_duration_ms duration s.durations;
}

next_added :
    (success same : Bool) (duration : Option Amount) (m : Metric)
    → Sound m
    → ((if same then add_call success duration m else m).calls ≡ m.calls + (if same then 1 else 0))
      × ((if same then add_call success duration m else m).successes
          ≡ m.successes + (if success && same then 1 else 0))
      × Sound (if same then add_call success duration m else m)
unfolding add_call
next_added success false duration m s = ground (arith, s)
next_added success true duration m s = ground (arith, add_call-Sound success duration m s)

next_metric :
    (k : Text) (f : Finished) (g : RuntimeGuard)
    → Sound (metric_of k g)
    → ((metric_of k (record_call f.tool f.success f.duration g)).calls
        ≡ (metric_of k g).calls + (if text_eq f.tool k then 1 else 0))
      × ((metric_of k (record_call f.tool f.success f.duration g)).successes
          ≡ (metric_of k g).successes + (if f.success && text_eq f.tool k then 1 else 0))
      × Sound (metric_of k (record_call f.tool f.success f.duration g))
next_metric k f g s =
    rw (metric_of-record_call k f.tool f.success f.duration g)
      (next_added f.success (text_eq f.tool k) f.duration (metric_of k g) s)

counted :
    (k : Text) (fs : List Finished) (g : RuntimeGuard)
    → Sound (metric_of k g)
    → ((metric_of k (record_all fs g)).calls ≡ (metric_of k g).calls + count_tool k fs)
      × ((metric_of k (record_all fs g)).successes ≡ (metric_of k g).successes + count_success k fs)
      × Sound (metric_of k (record_all fs g))
unfolding record_all count_tool count_success
counted k [] g s = ground arith
counted k (f ∷ fs) g s =
    let next = next_metric k f g s in
    let rest = counted k fs (record_call f.tool f.success f.duration g) next.2 in
    (ground (arith, next.0, rest.0), ground (arith, next.1, rest.1), rest.2)

-- What the snapshot shows of a tool after any finished calls: as many calls and successes as there
-- were, the rest as failures, and durations that are NaN or bounded by a day per call.
pub metric_of-record_all :
    (o : GuardOptions) (start : ℕ) (k : Text) (fs : List Finished)
    → ((metric_of k (record_all fs (create o start))).calls ≡ count_tool k fs)
      × ((metric_of k (record_all fs (create o start))).successes ≡ count_success k fs)
      × Sound (metric_of k (record_all fs (create o start)))
unfolding create snapshot lookup
metric_of-record_all o start k fs =
    let all = counted k fs (create o start) (ground arith) in
    (ground (arith, all.0), ground (arith, all.1), all.2)

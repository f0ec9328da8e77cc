-- ===== src/Guard/Examples.antt =====
-- A guard of two calls and one per second, and the theorems at it.
use antigravity_browser.Base.{
  ℕ, ◌+◌, ◌-◌, ◌*◌, ◌≤◌, ◌≡◌, refl, true, false, none, some, List, [], ◌∷◌, Text,
}
use antigravity_browser.Base.{floor_of, not_finite}
use antigravity_browser.Guard.Calls.{RuntimeCallContext, GuardOptions, create, whole}
use antigravity_browser.Guard.Rate.{admissions, runs_forward, is_blocked, admissions-create}
use antigravity_browser.Guard.Metrics.{Finished}

abbrev options : GuardOptions
options = record { rate_per_second = some (floor_of 10); burst = some (floor_of 20000) }

abbrev reading : RuntimeCallContext
reading = record {
  tool_name = none;
  write = false;
  user_controlled = true;
  paused_challenge = false;
}

abbrev writing : RuntimeCallContext
writing = record {
  tool_name = none;
  write = true;
  user_controlled = true;
  paused_challenge = false;
}

abbrev burst : List (RuntimeCallContext × ℕ)
burst = (reading, 0) ∷ (reading, 1) ∷ (writing, 2) ∷ (reading, 3) ∷ []

forward : runs_forward 0 burst 2000 ≡ true
unfolding runs_forward
forward = refl

admissions-create_example :
    (admissions burst (create options 0) * whole
      ≤ (create options 0).capacity + (2000 - 0) * (create options 0).rate_per_second)
    × ((create options 0).capacity ≤ 10000 * whole)
    × ((create options 0).rate_per_second ≤ 10000)
admissions-create_example = admissions-create options burst 0 2000 forward

abbrev polls : List (RuntimeCallContext × ℕ)
polls = (reading, 4) ∷ (writing, 500) ∷ []

blocked : is_blocked writing ≡ true
blocked = refl

abbrev tool : Text
tool = 116 ∷ []

abbrev finished : List Finished
finished =
    record { tool = tool; success = true; duration = some (floor_of 12) }
    ∷ record { tool = tool; success = false; duration = some not_finite }
    ∷ []

-- ===== src/Automation/Examples.antt =====
-- The name of the strict policy between spaces, and the theorems at it.
use antigravity_browser.Base.{trim_start, trim_end, ◌≡◌, refl, some, [], ◌∷◌, ◌++◌, Text}
use antigravity_browser.Automation.{
  AutomationPolicyName, parse_automation_policy, name_of, parse_automation_policy-name_of,
}

abbrev spaces : Text
spaces = 32 ∷ 9 ∷ []

before_blank : trim_start spaces ≡ []
unfolding trim_start
before_blank = refl

after_blank : trim_end spaces ≡ []
unfolding trim_end
after_blank = refl

strict_read :
    parse_automation_policy (some (spaces ++ (name_of AutomationPolicyName.strict ++ spaces)))
    ≡ some AutomationPolicyName.strict
strict_read =
    parse_automation_policy-name_of spaces spaces AutomationPolicyName.strict before_blank
      after_blank

-- ===== src/Workflow/Fields.antt =====
-- The validators of single fields (`validateTarget` to `assertKeys`, src/browser/workflow.ts). A key
-- that is missing is `none`; the value of an object's key is never `undefined`.
use antigravity_browser.Base.{
  ℕ, ◌+◌, Bool, true, false, not, ◌&&◌, ◌||◌, Option, none, some, List, [], ◌∷◌, ltb, leb, ◌==◌,
  if◌then◌else◌, length, any, drop, Text, text_eq, is_some,
}
use antigravity_browser.Base.{codes, starts_with, member, is_blank}
use antigravity_browser.Workflow.Types.{
  invalid_workflow, Target, opaque, by_role, by_label, by_test_id, by_ref, SelectChoice, plain,
  of_value, of_label, WaitState, visible, hidden, enabled, WaitCondition,
}
use antigravity_browser.Workflow.Json.{
  whole, max_safe_integer, is_safe, Json, object, string, number, flag, field_of, keys_of, Fields,
}
use antigravity_browser.Workflow.Checks.{Checked, accepted, refused, ◌>>=◌, ◌>>◌, require, optional}
use Prim.Native.String.{String}

abbrev pub fail : {A : Type 0} → Checked A
fail = refused invalid_workflow

abbrev pub record_of : Json → Checked Fields
record_of (object fs) = accepted fs
record_of _ = fail

abbrev pub key : String → Fields → Option Json
key k fs = field_of (codes k) fs

-- Is every key an allowed one?
unfoldable pub only_keys : List Text → List Text → Bool
only_keys allowed [] = true
only_keys allowed (k ∷ ks) = member k allowed && only_keys allowed ks

abbrev pub assert_keys : Fields → List Text → Checked (Unit {0})
assert_keys fs allowed = require (only_keys allowed (keys_of fs))

-- `none` where it gives the fallback, -1.
unfoldable pub bounded_integer : Json → ℕ → ℕ → Option ℕ
bounded_integer (number (whole n)) minimum maximum =
    if is_safe n && leb minimum n && leb n maximum then some n else none
bounded_integer _ minimum maximum = none

abbrev pub or_fail : {A : Type 0} → Option A → Checked A
or_fail none = fail
or_fail (some a) = accepted a

abbrev pub in_range : ℕ → ℕ → Json → Checked ℕ
in_range minimum maximum v = or_fail (bounded_integer v minimum maximum)

abbrev pub max_wait_duration_ms : ℕ
max_wait_duration_ms = 10000

abbrev pub max_action_timeout_ms : ℕ
max_action_timeout_ms = 300000

abbrev pub validate_wait_duration : Json → Checked ℕ
validate_wait_duration = in_range 1 max_wait_duration_ms

abbrev pub optional_timeout : Option Json → Checked (Option ℕ)
optional_timeout = optional (in_range 1 max_action_timeout_ms)

abbrev pub optional_bounded_integer : ℕ → ℕ → Option Json → Checked (Option ℕ)
optional_bounded_integer minimum maximum = optional (in_range minimum maximum)

abbrev pub optional_revision : Option Json → Checked (Option ℕ)
optional_revision = optional (in_range 0 max_safe_integer)

-- A text that is not empty and has at most so many code units.
unfoldable pub bounded_text : ℕ → Json → Checked Text
bounded_text n (string s) = if not (is_blank s) && leb (length s) n then accepted s else fail
bounded_text n _ = fail

-- A text that is not empty.
abbrev filled : Json → Checked Text
filled (string s) = if is_blank s then fail else accepted s
filled _ = fail

unfoldable pub optional_string : Option Json → Checked (Option Text)
optional_string = optional filled

abbrev pub is_control : ℕ → Bool
is_control c = leb c 31 || c == 127

abbrev opaque_tab : Json → Checked Text
opaque_tab v = filled v >>= λ s. if ltb 100 (length s) || any is_control s then fail else accepted s

unfoldable pub optional_tab_id : Option Json → Checked (Option Text)
optional_tab_id = optional opaque_tab

abbrev boolean : Json → Checked Bool
boolean (flag b) = accepted b
boolean _ = fail

abbrev pub optional_flag : Option Json → Checked (Option Bool)
optional_flag = optional boolean

-- The member of an enumeration that a text names.
unfoldable pub named {ℓ} : {A : Type ℓ} → List (Text × A) → Text → Option A
named [] s = none
named ((k, a) ∷ rest) s = if text_eq k s then some a else named rest s

abbrev one_of : {A : Type 0} → List (Text × A) → Json → Checked A
one_of names (string s) = or_fail (named names s)
one_of names _ = fail

abbrev pub optional_enum : {A : Type 0} → List (Text × A) → Option Json → Checked (Option A)
optional_enum names = optional (one_of names)

-- `[A-Za-z0-9_-]`.
abbrev is_ref_char : ℕ → Bool
is_ref_char c =
    (leb 65 c && leb c 90)
    || (leb 97 c && leb c 122)
    || (leb 48 c && leb c 57)
    || c == 95
    || c == 45

abbrev every : (ℕ → Bool) → Text → Bool
every p s = not (any (λ c. not (p c)) s)

-- `OPAQUE_REF_PATTERN`, with the bound on the length.
unfoldable pub is_opaque_ref : Text → Bool
is_opaque_ref s =
    starts_with (codes "ref_") s
    && every is_ref_char (drop 4 s)
    && leb 1 (length (drop 4 s))
    && leb (length (drop 4 s)) 96
    && leb (length s) 100

unfoldable pub opaque_ref : Json → Checked Text
opaque_ref (string s) = if is_opaque_ref s then accepted s else fail
opaque_ref _ = fail

abbrev count_if : Bool → ℕ
count_if true = 1
count_if false = 0

abbrev pub required : {A : Type 0} → (Json → Checked A) → Option Json → Checked A
required check none = fail
required check (some v) = check v

abbrev pub role_target : Fields → Checked Target
role_target fs = do
  role ← required (bounded_text 64) (key "role" fs)
  name ← required (bounded_text 500) (key "name" fs)
  exact ← optional_flag (key "exact" fs)
  accepted (by_role role name exact)

abbrev pub label_target : Fields → Checked Target
label_target fs = do
  label ← required (bounded_text 500) (key "label" fs)
  exact ← optional_flag (key "exact" fs)
  accepted (by_label label exact)

abbrev pub test_id_target : Fields → Checked Target
test_id_target fs = do
  test_id ← required (bounded_text 128) (key "testId" fs)
  require (not (is_some (key "exact" fs)))
  accepted (by_test_id test_id)

abbrev pub ref_target : Fields → Checked Target
ref_target fs = do
  require (not (is_some (key "exact" fs)))
  ref ← required opaque_ref (key "ref" fs)
  accepted (by_ref ref)

abbrev pub has_role : Fields → Bool
has_role fs = is_some (key "role" fs) || is_some (key "name" fs)

-- A target with a role or a name, a label, a test id or a reference.
unfoldable pub target_by : Fields → Checked Target
target_by fs =
    if has_role fs
    then role_target fs
    else if is_some (key "label" fs)
    then label_target fs
    else if is_some (key "testId" fs)
    then test_id_target fs
    else ref_target fs

abbrev target_keys : List Text
target_keys =
    codes "role" ∷ codes "name" ∷ codes "exact" ∷ codes "label" ∷ codes "testId" ∷ codes "ref" ∷ []

unfoldable pub strategies : Fields → ℕ
strategies fs =
    count_if (has_role fs)
    + count_if (is_some (key "label" fs))
    + count_if (is_some (key "testId" fs))
    + count_if (is_some (key "ref" fs))

abbrev pub target_of_record : Json → Checked Target
target_of_record v = do
  fs ← record_of v
  assert_keys fs target_keys
  require (strategies fs == 1)
  target_by fs

unfoldable pub validate_target : Json → Checked Target
unfolding opaque_ref
validate_target (string s) = do ref ← opaque_ref (string s); accepted (opaque ref)
validate_target v = target_of_record v

-- Exactly one of a value and a label.
abbrev pub choice_by : Option Json → Option Json → Checked SelectChoice
choice_by (some value) none = do text ← bounded_text 1000 value; accepted (of_value text)
choice_by none (some label) = do text ← bounded_text 1000 label; accepted (of_label text)
choice_by _ _ = fail

abbrev wait_states : List (Text × WaitState)
wait_states =
    (codes "visible", visible) ∷ (codes "hidden", hidden) ∷ (codes "enabled", enabled) ∷ []

abbrev pub choice_of_record : Json → Checked SelectChoice
choice_of_record v = do
  fs ← record_of v
  assert_keys fs (codes "value" ∷ codes "label" ∷ [])
  choice_by (key "value" fs) (key "label" fs)

unfoldable pub validate_choice : Json → Checked SelectChoice
validate_choice (string s) = do text ← bounded_text 1000 (string s); accepted (plain text)
validate_choice v = choice_of_record v

unfoldable pub validate_condition : Json → Checked WaitCondition
validate_condition v = do
  fs ← record_of v
  assert_keys fs (codes "ref" ∷ codes "state" ∷ [])
  ref ← required opaque_ref (key "ref" fs)
  state ← optional_enum wait_states (key "state" fs)
  needed ← or_fail state
  accepted (record { ref = ref; state = needed })

-- ===== src/Workflow/Json.antt =====
-- JSON that is not trusted: the values the validators of src/browser/workflow.ts read, with the tests
-- of `typeof`, `Number.isSafeInteger` and `rawRecord`.
use antigravity_browser.Base.{
  ℕ, Bool, true, false, Option, none, some, List, [], ◌∷◌, leb, if◌then◌else◌, Text, text_eq,
}

-- A number: a whole one from 0, a positive one that is not whole by its floor, a negative one, an
-- infinite one, or none.
pub data Num : Type 0 where
  whole : ℕ → Num
  fraction : ℕ → Num
  negative_whole : ℕ → Num
  negative_fraction : Num
  infinite : Num
  nan : Num

mutual
  pub data Json : Type 0 where
    null : Json
    flag : Bool → Json
    number : Num → Json
    string : Text → Json
    array : Items → Json
    object : Fields → Json

  pub data Items : Type 0 where
    end : Items
    item : Json → Items → Items

  pub data Fields : Type 0 where
    bare : Fields
    field : Text → Json → Fields → Fields

-- 2^53 - 1.
abbrev pub max_safe_integer : ℕ
max_safe_integer = 9007199254740991

abbrev pub is_safe : ℕ → Bool
is_safe n = leb n max_safe_integer

-- The value at a key, `none` for `undefined`. The keys of an object are distinct.
unfoldable pub field_of : Text → Fields → Option Json
field_of k bare = none
field_of k (field j v rest) = if text_eq j k then some v else field_of k rest

unfoldable pub keys_of : Fields → List Text
keys_of bare = []
keys_of (field j v rest) = j ∷ keys_of rest

unfoldable pub items_of : Items → List Json
items_of end = []
items_of (item v rest) = v ∷ items_of rest

-- `rawRecord(value)[key]`.
unfoldable pub get : Text → Json → Option Json
get k (object fs) = field_of k fs
get k _ = none

-- `rawRecord(rawRecord(value)[key])`: no fields where there is none.
abbrev pub or_null : Option Json → Json
or_null none = null
or_null (some v) = v

abbrev pub text_of : Option Json → Option Text
text_of (some (string s)) = some s
text_of _ = none

abbrev pub flag_of : Option Json → Option Bool
flag_of (some (flag b)) = some b
flag_of _ = none

abbrev pub whole_of : Num → Option ℕ
whole_of (whole n) = if is_safe n then some n else none
whole_of _ = none

-- `value === true`.
abbrev pub is_true : Option Json → Bool
is_true (some (flag b)) = b
is_true _ = false

abbrev pub is_record : Json → Bool
is_record (object fs) = true
is_record (array vs) = true
is_record _ = false

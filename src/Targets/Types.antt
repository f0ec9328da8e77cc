-- ===== src/Targets/Types.antt =====
-- The data of `TargetRegistry` (src/browser/target-registry.ts, src/browser/semantic-snapshot.ts). A
-- locator of the page adapter is a number: its identity.
use antigravity_browser.Base.{ℕ, Bool, Option, List, Text, Amount, Dict}

pub record SemanticTarget : Type 0 where
  pub role : Option Text
  pub name : Option Text
  pub exact : Option Bool
  pub label : Option Text
  pub test_id : Option Text
  pub selector : Option Text
  -- Every key of the object.
  pub keys : List Text

pub record SemanticTargetMetadata : Type 0 where
  pub role : Text
  pub name : Text
  pub tag : Text
  pub type : Option Text
  pub test_id : Option Text
  pub frame_id : Option Text
  pub visible : Option Bool
  pub enabled : Option Bool
  pub editable : Option Bool
  pub checked : Option Bool
  pub required : Option Bool
  -- Does it have the value `<redacted>`?
  pub value : Bool
  pub text : Option Text

-- `Partial<SemanticTargetMetadata>`, the keys that are compared.
pub record Expected : Type 0 where
  pub role : Option Text
  pub name : Option Text
  pub tag : Option Text
  pub type : Option Text
  pub frame_id : Option Text

-- A size in parts of a pixel, 0 where it is not positive.
pub record BoundingBox : Type 0 where
  pub width : ℕ
  pub height : ℕ

-- What a locator answers: a method that is missing is `none`, one that fails gives what its `catch`
-- gives. A locator answers the same throughout a call.
pub record Reading : Type 0 where
  pub count : ℕ
  pub attribute : Text → Option Text
  pub text : Text
  pub is_visible : Option Bool
  pub is_enabled : Option Bool
  pub is_editable : Option Bool
  pub is_checked : Option Bool
  pub bounding_box : Option (Option BoundingBox)

-- A page adapter: the methods it has.
pub record Page : Type 0 where
  pub locator : Text → ℕ
  pub get_by_role : Option (Text → Option Text → Option Bool → ℕ)
  pub get_by_label : Option (Text → Bool → ℕ)
  pub get_by_test_id : Option (Text → ℕ)

pub record TargetRecord : Type 0 where
  pub ref : Text
  pub target : SemanticTarget
  pub metadata : SemanticTargetMetadata
  pub locator : ℕ
  pub generation : ℕ
  pub frame_generation : ℕ
  pub frame_id : Text
  pub created_at : ℕ

pub record TargetResolution : Type 0 where
  pub ref : Text
  pub locator : ℕ
  pub metadata : SemanticTargetMetadata
  pub generation : ℕ
  pub frame_generation : ℕ
  pub frame_id : Text
  pub bounding_box : Option BoundingBox

-- A limit as it is passed: left out, NaN, or another number.
pub data GivenLimit : Type 0 where
  absent not_a_number : GivenLimit
  given : Amount → GivenLimit

-- A limit as it is kept: NaN stays NaN, which no number reaches.
pub data Limit : Type 0 where
  at_most : ℕ → Limit
  unbounded : Limit

pub record RegistryOptions : Type 0 where
  pub generation : Option ℕ
  pub frame_generation : Option ℕ
  pub max_refs : GivenLimit
  pub ref_ttl_ms : GivenLimit

pub record TargetRegistry : Type 0 where
  pub max_refs : Limit
  pub ref_ttl_ms : Limit
  pub records : Dict TargetRecord
  pub sequence : ℕ
  pub current_generation : ℕ
  pub current_frame_generation : ℕ

pub data TargetRegistryError : Type 0 where
  invalid_target target_not_found target_not_actionable stale_target : TargetRegistryError
  target_ambiguous : ℕ → TargetRegistryError

pub data Result {ℓ} (A : Type ℓ) : Type ℓ where
  ok : A → Result A
  err : TargetRegistryError → Result A

-- ===== src/Targets/Semantics.antt =====
-- The semantics of an element, read and compared (`readMetadata`, `metadataMatches`,
-- `assertActionable`, `semanticTargetFromMetadata`, src/browser/target-registry.ts;
-- `redactControlValue`, src/browser/semantic-snapshot.ts).
use antigravity_browser.Base.{
  Bool, true, false, not, ◌&&◌, ◌||◌, Option, none, some, List, [], ◌∷◌, ltb, if◌then◌else◌, take,
  Text, text_eq, is_some, or_else, codes, member, to_lower, is_blank,
}
use antigravity_browser.Targets.Types.{
  BoundingBox, Reading, SemanticTargetMetadata, SemanticTarget, Expected,
}
use antigravity_browser.Targets.Reading.{infer_role, clean_name}

abbrev lower_type : Option Text → Text
lower_type none = []
lower_type (some s) = to_lower s

unfoldable pub redact_control_value : SemanticTargetMetadata → SemanticTargetMetadata
redact_control_value m =
    let type = lower_type m.type in
    record m {
      value =
          text_eq type (codes "password")
          || text_eq type (codes "hidden")
          || text_eq type (codes "secret")
          || m.value;
    }

-- The first that is not empty.
unfoldable pub first_given : List (Option Text) → Option Text
first_given [] = none
first_given (none ∷ ss) = first_given ss
first_given (some s ∷ ss) = let rest = first_given ss in if is_blank s then rest else some s

abbrev fallback_text :
    (SemanticTargetMetadata → Option Text) → Option SemanticTargetMetadata → Option Text
fallback_text field none = none
fallback_text field (some m) = field m

abbrev fallback_flag : (SemanticTargetMetadata → Bool) → Option SemanticTargetMetadata → Bool
fallback_flag field none = false
fallback_flag field (some m) = field m

-- A field that is left out where its text is empty.
abbrev unless_blank : Text → Option Text
unless_blank s = if is_blank s then none else some s

-- A test id, cleaned, or that of the fallback where the element gives none.
abbrev test_id_or : Option Text → Option Text → Option Text
test_id_or none other = first_given (other ∷ [])
test_id_or (some s) other =
    if is_blank s then first_given (other ∷ []) else some (clean_name (some s))

abbrev first_attribute : Option Text → Option Text → Option Text
first_attribute none other = other
first_attribute (some s) other = some s

abbrev read_tag : Reading → Option SemanticTargetMetadata → Text
read_tag r fallback =
    or_else
      (first_given (
        some (clean_name (r.attribute (codes "data-semantic-tag")))
        ∷ fallback_text (λ m. some m.tag) fallback
        ∷ []))
      (codes "unknown")

abbrev read_role : Reading → Text → Text → Option SemanticTargetMetadata → Text
read_role r tag type fallback =
    or_else
      (first_given (
        some (
          infer_role (to_lower tag) (to_lower type)
            (first_given (r.attribute (codes "role") ∷ r.attribute (codes "data-role") ∷ [])))
        ∷ fallback_text (λ m. some m.role) fallback
        ∷ []))
      (codes "generic")

abbrev is_form_control : Text → Bool
is_form_control tag = member tag (codes "input" ∷ codes "textarea" ∷ codes "select" ∷ [])

-- The accessible name: a live text goes before the fallback, except for the controls of a form.
abbrev read_name : Reading → Text → Text → Option SemanticTargetMetadata → Text
read_name r tag content fallback = clean_name (
    first_given (
      r.attribute (codes "aria-label")
      ∷ (if is_form_control (to_lower tag) then none else some content)
      ∷ fallback_text (λ m. some m.name) fallback
      ∷ r.attribute (codes "title")
      ∷ r.attribute (codes "placeholder")
      ∷ r.attribute (codes "name")
      ∷ []))

abbrev is_required : Option SemanticTargetMetadata → Bool
is_required none = false
is_required (some m) = or_else m.required false

unfoldable pub read_metadata : Reading → Option SemanticTargetMetadata → SemanticTargetMetadata
unfolding first_given redact_control_value
read_metadata r fallback =
    let type = clean_name (r.attribute (codes "type")) in
    let tag = read_tag r fallback in
    let content = clean_name (some r.text) in
    redact_control_value (record {
      role = read_role r tag type fallback;
      name = read_name r tag content fallback;
      tag = tag;
      type = first_given (some type ∷ fallback_text (λ m. m.type) fallback ∷ []);
      test_id =
          test_id_or
            (first_attribute (r.attribute (codes "data-testid"))
              (r.attribute (codes "data-test-id")))
            (fallback_text (λ m. m.test_id) fallback);
      frame_id = first_given (fallback_text (λ m. m.frame_id) fallback ∷ []);
      visible = r.is_visible;
      enabled = r.is_enabled;
      editable = r.is_editable;
      checked = r.is_checked;
      required =
          if is_some (r.attribute (codes "required")) || is_required fallback
          then some true
          else none;
      value = fallback_flag (λ m. m.value) fallback;
      text =
          if member (to_lower type) (codes "password" ∷ codes "hidden" ∷ [])
          then none
          else unless_blank (take 500 content);
    })

abbrev is_vague : Text → Bool
is_vague s = text_eq s (codes "unknown") || text_eq s (codes "generic") || is_blank s

abbrev same_option : Text → Option Text → Bool
same_option s none = false
same_option s (some t) = text_eq t s

-- One key: an expectation that is absent holds, and one that says nothing, where that is allowed.
abbrev pub key_matches : Bool → Option Text → Option Text → Bool
key_matches allow_unknown current none = true
key_matches allow_unknown current (some s) = same_option s current || (allow_unknown && is_vague s)

unfoldable pub metadata_matches : Bool → SemanticTargetMetadata → Expected → Bool
metadata_matches allow_unknown m e =
    key_matches allow_unknown (some m.role) e.role
    && key_matches allow_unknown (some m.name) e.name
    && key_matches allow_unknown (some m.tag) e.tag
    && key_matches allow_unknown m.type e.type
    && key_matches allow_unknown m.frame_id e.frame_id

-- All that a record knows, as an expectation.
abbrev pub expects : SemanticTargetMetadata → Expected
expects m = record {
  role = some m.role;
  name = some m.name;
  tag = some m.tag;
  type = m.type;
  frame_id = m.frame_id;
}

abbrev has_area : Option (Option BoundingBox) → Bool
has_area none = true
has_area (some none) = false
has_area (some (some box)) = ltb 0 box.width && ltb 0 box.height

-- `assertActionable`: may the element be acted on?
unfoldable pub is_actionable : Reading → SemanticTargetMetadata → Bool
is_actionable r m =
    or_else r.is_visible true
    && or_else r.is_enabled true
    && has_area r.bounding_box
    && not (text_eq (lower_type m.type) (codes "hidden"))

abbrev pub plain_target : SemanticTarget
plain_target = record {
  role = none;
  name = none;
  exact = none;
  label = none;
  test_id = none;
  selector = none;
  keys = [];
}

unfoldable pub semantic_target_from_metadata : SemanticTargetMetadata → SemanticTarget
semantic_target_from_metadata m =
    if not (is_blank (or_else m.test_id []))
    then record plain_target { test_id = m.test_id; keys = codes "testId" ∷ [] }
    else if not (is_blank m.role) && not (is_blank m.name)
    then record plain_target {
      role = some m.role;
      name = some m.name;
      exact = some true;
      keys = codes "role" ∷ codes "name" ∷ codes "exact" ∷ [];
    }
    else if not (is_blank m.role)
    then record plain_target { role = some m.role; keys = codes "role" ∷ [] }
    else if not (is_blank m.name)
    then record plain_target {
      role = some (codes "generic");
      name = some m.name;
      exact = some true;
      keys = codes "role" ∷ codes "name" ∷ codes "exact" ∷ [];
    }
    else record plain_target {
      role = some (codes "generic");
      exact = some true;
      keys = codes "role" ∷ codes "exact" ∷ [];
    }

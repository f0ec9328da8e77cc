-- ===== src/Targets/Examples.antt =====
-- A registry with a button in it, and the theorems at it.
use antigravity_browser.Base.{
  ℕ, zero, suc, ◌+◌, ◌-◌, ◌*◌, ◌/◌, ◌%◌, ◌≤◌, ◌<◌, min, max, ◌≡◌, refl, sym, ap, ◌∙◌, subst, ◌≢◌,
  ◌↔◌, ◌⊎◌, inl, inr, Bool, true, false, not, ◌&&◌, ◌||◌, Option, none, some, List, [], ◌∷◌, ◌++◌,
  map, arith, ltb, leb, ◌==◌, if◌then◌else◌, length, any, take, drop, Text, text_eq, is_some,
  or_else, Bool-cases, Option-cases, codes,
}
use antigravity_browser.Base.{floor_of}
use antigravity_browser.Targets.History.{
  advances, clears, Call, registers, run, prunes, stale_after_advance,
}
use antigravity_browser.Targets.Types.{
  GivenLimit, at_most, Reading, TargetResolution, RegistryOptions, TargetRegistry, SemanticTarget,
  SemanticTargetMetadata, ok, err, target_not_found,
}
use antigravity_browser.Targets.Registry.{
  resolve, Context, register, ResolveOptions, create, advance_generation, prune_expired, new_record,
}
use antigravity_browser.Targets.Bounds.{created-Bounded, distinct, create-Bounded}
use antigravity_browser.Targets.Semantics.{
  semantic_target_from_metadata, read_metadata, plain_target,
}
use antigravity_browser.Targets.Resolved.{Confirmed, resolved_as_registered, IsWithin}
use antigravity_browser.Targets.Refs.{read_base36, to_base36, read_base36-to_base36}

abbrev options : RegistryOptions
options = record {
  generation = none;
  frame_generation = none;
  max_refs = GivenLimit.given (floor_of 2);
  ref_ttl_ms = GivenLimit.absent;
}

abbrev metadata : SemanticTargetMetadata
metadata = record {
  role = codes "button";
  name = codes "Buy";
  tag = codes "button";
  type = none;
  test_id = none;
  frame_id = none;
  visible = some true;
  enabled = some true;
  editable = none;
  checked = none;
  required = none;
  value = false;
  text = none;
}

abbrev target : SemanticTarget
target = record plain_target {
  role = some (codes "button");
  name = some (codes "Buy");
  keys = codes "role" ∷ codes "name" ∷ [];
}

abbrev context : Context
context = record { generation = none; frame_generation = none; frame_id = none }

abbrev suffix : Text
suffix = codes "0123456789abcdef"

abbrev first_ref : Text
first_ref = codes "ref_1_0123456789abcdef"

abbrev reading : Reading
reading = record {
  count = 1;
  attribute =
      λ name. if text_eq name (codes "data-semantic-tag") then some (codes "button") else none;
  text = codes " Buy ";
  is_visible = some true;
  is_enabled = some true;
  is_editable = none;
  is_checked = none;
  bounding_box = none;
}

abbrev resolving : ResolveOptions
resolving = record {
  page = none;
  generation = none;
  frame_generation = none;
  expected = none;
  require_actionable = true;
}

abbrev registered : TargetRegistry
registered = (register target 7 metadata context suffix 1000 (create options)).1

abbrev others : List Call
others = registers target 8 metadata context suffix 2000 ∷ prunes 3000 ∷ []

issued :
    register target 7 metadata context suffix 1000 (create options) ≡ (ok first_ref, registered)
unfolding register antigravity_browser.Targets.Reading.validate_semantic_target
    antigravity_browser.Base.member text_eq antigravity_browser.Targets.Refs.opaque_ref
    prune_expired create antigravity_browser.Targets.Refs.base36_digit
issued = refl

created-Bounded_example :
    (n : ℕ) × ((run (create options) (advances ∷ others)).max_refs ≡ at_most n)
    × (1 ≤ n)
    × (n ≤ 10000)
    × (length (run (create options) (advances ∷ others)).records ≤ n)
    × (distinct (run (create options) (advances ∷ others)).records ≡ true)
created-Bounded_example = created-Bounded options (advances ∷ others) refl

stale_after_advance_example :
    (resolve first_ref resolving
      (λ l. reading)
      5000
      (run (advance_generation (run registered others)) others)).0
    ≡ err target_not_found
stale_after_advance_example =
    stale_after_advance target 7 metadata context suffix 1000 (create options) registered first_ref
      others others resolving (λ l. reading) 5000 issued

abbrev stored : SemanticTargetMetadata
stored = record metadata { frame_id = some (codes "main") }

abbrev resolution : TargetResolution
resolution = record {
  ref = first_ref;
  locator = 7;
  metadata = record stored { text = some (codes "Buy") };
  generation = 0;
  frame_generation = 0;
  frame_id = codes "main";
  bounding_box = none;
}

resolved :
    resolve first_ref resolving (λ l. reading) 5000 (run registered others)
    ≡ (ok resolution, prune_expired 5000 (run registered others))
unfolding antigravity_browser.Base.lookup antigravity_browser.Base.member
    antigravity_browser.Base.text_eq antigravity_browser.Base.insert
    antigravity_browser.Base.to_lower antigravity_browser.Base.trim_end
    antigravity_browser.Base.trim_start antigravity_browser.Targets.Registry.resolve
    antigravity_browser.Targets.Registry.prune_expired antigravity_browser.Targets.Registry.register
    antigravity_browser.Targets.Registry.make_room antigravity_browser.Targets.Registry.create
    antigravity_browser.Targets.Registry.check_element
    antigravity_browser.Targets.Registry.bounded_option antigravity_browser.Targets.Registry.keep
    antigravity_browser.Targets.Reading.validate_semantic_target
    antigravity_browser.Targets.Reading.infer_role antigravity_browser.Targets.Reading.clean_name
    antigravity_browser.Targets.Reading.collapse antigravity_browser.Targets.Refs.opaque_ref
    antigravity_browser.Targets.Refs.base36_digit antigravity_browser.Targets.Refs.to_base36
    antigravity_browser.Targets.Semantics.metadata_matches
    antigravity_browser.Targets.Semantics.read_metadata
    antigravity_browser.Targets.Semantics.first_given
    antigravity_browser.Targets.Semantics.is_actionable
    antigravity_browser.Targets.Semantics.redact_control_value
    antigravity_browser.Targets.History.run antigravity_browser.Targets.History.step
resolved = refl

resolved_as_registered_example :
    (resolution.locator ≡ 7)
    × IsWithin (5000 - 1000) (run registered others).ref_ttl_ms
    × Confirmed resolving
        (new_record target 7 metadata context first_ref 1000 (create options))
        reading
        (run registered others).current_generation
        (run registered others).current_frame_generation
unfolding run
resolved_as_registered_example =
    resolved_as_registered target 7 metadata context suffix 1000 (create options) registered
      (prune_expired 5000 (run registered others)) first_ref others resolving (λ l. reading) 5000
      resolution (create-Bounded options) issued refl resolved

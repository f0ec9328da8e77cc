-- ===== src/Targets/Registry.antt =====
-- The operations of `TargetRegistry` (src/browser/target-registry.ts). The time, the random bytes and
-- what the page answers are arguments; `resolve` changes the registry only before its first `await`.
use antigravity_browser.Base.{floor_of, not_finite, below_zero}
use antigravity_browser.Base.{
  ℕ, suc, ◌-◌, min, max, Bool, true, false, not, ◌&&◌, ◌||◌, Option, none, some, [], ◌∷◌, ltb, leb,
  ◌==◌, if◌then◌else◌, length, Text, or_else, Dict, floor_of, lookup, codes, insert,
}
use antigravity_browser.Targets.Types.{
  GivenLimit, absent, not_a_number, given, Limit, at_most, unbounded, Page, RegistryOptions,
  TargetRegistry, BoundingBox, SemanticTarget, Expected, TargetRecord, Reading,
  SemanticTargetMetadata, Result, ok, TargetResolution, err, target_not_found, stale_target,
  target_ambiguous, target_not_actionable,
}
use antigravity_browser.Targets.Reading.{validate_semantic_target, locator_for_target}
use antigravity_browser.Targets.Semantics.{
  metadata_matches, read_metadata, redact_control_value, expects, is_actionable,
}
use antigravity_browser.Targets.Refs.{opaque_ref}

unfoldable pub bounded_option : GivenLimit → ℕ → ℕ → ℕ → Limit
bounded_option absent minimum maximum fallback = at_most (max minimum (min maximum fallback))
bounded_option not_a_number minimum maximum fallback = unbounded
bounded_option (given not_finite) minimum maximum fallback = at_most (max minimum maximum)
bounded_option (given below_zero) minimum maximum fallback = at_most (max minimum (min maximum 0))
bounded_option (given (floor_of n)) minimum maximum fallback = at_most (max minimum (min maximum n))

-- `>=` and `<` against a limit, which NaN makes false.
abbrev pub reaches : ℕ → Limit → Bool
reaches n (at_most limit) = leb limit n
reaches n unbounded = false

abbrev pub exceeds : ℕ → Limit → Bool
exceeds n (at_most limit) = ltb limit n
exceeds n unbounded = false

-- The constructor; `not_finite` is positive infinity.
unfoldable pub create : RegistryOptions → TargetRegistry
unfolding bounded_option
create o = record {
  max_refs = bounded_option o.max_refs 1 10000 2000;
  ref_ttl_ms = bounded_option o.ref_ttl_ms 100 3600000 120000;
  records = [];
  sequence = 0;
  current_generation = or_else o.generation 0;
  current_frame_generation = or_else o.frame_generation 0;
}

-- The records that pass a test.
unfoldable pub keep : (TargetRecord → Bool) → Dict TargetRecord → Dict TargetRecord
keep p [] = []
keep p ((ref, r) ∷ m) = let rest = keep p m in if p r then (ref, r) ∷ rest else rest

unfoldable pub prune_expired : ℕ → TargetRegistry → TargetRegistry
unfolding keep
prune_expired now g = record g {
  records = keep (λ r. not (exceeds (now - r.created_at) g.ref_ttl_ms)) g.records;
}

-- `none` is not a non-negative integer, and throws.
unfoldable pub set_generation : Option ℕ → ℕ → TargetRegistry → Option TargetRegistry
set_generation none frame_generation g = none
set_generation (some generation) frame_generation g = some (record g {
  current_generation = generation;
  current_frame_generation = frame_generation;
  records = [];
})

unfoldable pub advance_generation : TargetRegistry → TargetRegistry
unfolding set_generation
advance_generation g = or_else (set_generation (some (suc g.current_generation)) 0 g) g

abbrev agrees : Option ℕ → ℕ → Bool
agrees none n = true
agrees (some m) n = n == m

unfoldable pub invalidate : Option ℕ → Option ℕ → TargetRegistry → TargetRegistry
invalidate none none g = record g { records = [] }
invalidate generation frame_generation g = record g {
  records =
      keep (λ r. agrees generation r.generation && agrees frame_generation r.frame_generation)
        g.records;
}

unfoldable pub clear : TargetRegistry → TargetRegistry
clear g = record g { records = [] }

-- The loop that deletes the oldest while there are too many.
unfoldable pub make_room : Limit → Dict TargetRecord → Dict TargetRecord
make_room limit [] = []
make_room limit ((ref, r) ∷ m) =
    let rest = make_room limit m in
    if reaches (length ((ref, r) ∷ m)) limit then rest else (ref, r) ∷ m

pub record Context : Type 0 where
  pub generation : Option ℕ
  pub frame_generation : Option ℕ
  pub frame_id : Option Text

abbrev pub new_record :
    SemanticTarget → ℕ → SemanticTargetMetadata → Context → Text → ℕ → TargetRegistry → TargetRecord
new_record t locator m c ref now g =
    let frame_id = or_else c.frame_id (or_else m.frame_id (codes "main")) in
    record {
      ref = ref;
      target = t;
      metadata = redact_control_value (record m { frame_id = some frame_id });
      locator = locator;
      generation = or_else c.generation g.current_generation;
      frame_generation = or_else c.frame_generation g.current_frame_generation;
      frame_id = frame_id;
      created_at = now;
    }

abbrev pub add_record :
    SemanticTarget
    → ℕ
    → SemanticTargetMetadata
    → Context
    → Text
    → ℕ
    → TargetRegistry
    → Text × TargetRegistry
add_record t locator m c suffix now g =
    let ref = opaque_ref (suc g.sequence) suffix in
    let room = make_room g.max_refs g.records in
    (
      ref,
      record g {
        sequence = suc g.sequence;
        records = insert ref (new_record t locator m c ref now g) room;
      },
    )

-- The reference that is issued, and the registry; the registry is as it was where the target is not
-- valid.
unfoldable pub register :
    SemanticTarget
    → ℕ
    → SemanticTargetMetadata
    → Context
    → Text
    → ℕ
    → TargetRegistry
    → Result Text × TargetRegistry
register t locator m c suffix now g = elim (validate_semantic_target t) [
  | err e ↦ (err e, g)
  | ok u ↦ let (ref, h) = add_record t locator m c suffix now (prune_expired now g) in (ok ref, h)
]

unfoldable pub get_record : Text → ℕ → TargetRegistry → Option TargetRecord × TargetRegistry
get_record ref now g = (lookup ref (prune_expired now g).records, prune_expired now g)

pub record ResolveOptions : Type 0 where
  pub page : Option Page
  pub generation : Option ℕ
  pub frame_generation : Option ℕ
  pub expected : Option Expected
  pub require_actionable : Bool

-- The locator of the record, or one that is made anew on a page.
abbrev pub current_locator : Option Page → TargetRecord → Result ℕ
current_locator none r = ok r.locator
current_locator (some page) r = locator_for_target page r.target

abbrev pub meets : Option Expected → SemanticTargetMetadata → Bool
meets none m = true
meets (some e) m = metadata_matches false m e

abbrev box_of : Option (Option BoundingBox) → Option BoundingBox
box_of none = none
box_of (some box) = box

-- From the count of the matches on.
unfoldable pub check_element : ResolveOptions → TargetRecord → ℕ → Reading → Result TargetResolution
check_element o r locator reading =
    let current = read_metadata reading (some r.metadata) in
    if reading.count == 0
    then err target_not_found
    else if not (reading.count == 1)
    then err (target_ambiguous reading.count)
    else if not (metadata_matches true current (expects r.metadata))
    then err stale_target
    else if not (meets o.expected current)
    then err stale_target
    else if o.require_actionable && not (is_actionable reading current)
    then err target_not_actionable
    else ok (record {
      ref = r.ref;
      locator = locator;
      metadata = redact_control_value current;
      generation = r.generation;
      frame_generation = r.frame_generation;
      frame_id = r.frame_id;
      bounding_box = box_of reading.bounding_box;
    })

abbrev pub resolve_record :
    ResolveOptions → (ℕ → Reading) → TargetRegistry → TargetRecord → Result TargetResolution
resolve_record o read g r =
    if not (r.generation == or_else o.generation g.current_generation)
      || not (r.frame_generation == or_else o.frame_generation g.current_frame_generation)
    then err stale_target
    else elim (current_locator o.page r) [
      | err e ↦ err e
      | ok locator ↦ check_element o r locator (read locator)
    ]

-- `read` is what each locator answers.
unfoldable pub resolve :
    Text
    → ResolveOptions
    → (ℕ → Reading)
    → ℕ
    → TargetRegistry
    → Result TargetResolution × TargetRegistry
resolve ref o read now g =
    let h = prune_expired now g in
    (
      elim (lookup ref h.records) [
        | none ↦ err target_not_found
        | some r ↦ resolve_record o read h r
      ],
      h,
    )

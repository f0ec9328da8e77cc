-- ===== src/Targets/Reading.antt =====
-- Targets, and what a locator says of an element (`validateSemanticTarget`, `locatorForTarget`,
-- `readMetadata`, `metadataMatches`, `assertActionable`, src/browser/target-registry.ts;
-- `redactControlValue`, src/browser/semantic-snapshot.ts).
use antigravity_browser.Base.{
  ℕ, ◌+◌, Bool, true, false, not, ◌||◌, Option, none, some, List, [], ◌∷◌, ltb, ◌==◌, if◌then◌else◌,
  length, any, take, Text, text_eq, or_else, trim, is_blank, is_space, codes, member, lookup,
}
use antigravity_browser.Targets.Types.{SemanticTarget, Page, Result, ok, err, invalid_target}

abbrev pub forbidden_keys : List Text
forbidden_keys =
    codes "css"
    ∷ codes "cssSelector"
    ∷ codes "xpath"
    ∷ codes "path"
    ∷ codes "coordinates"
    ∷ codes "coordinate"
    ∷ codes "x"
    ∷ codes "y"
    ∷ codes "script"
    ∷ codes "expression"
    ∷ []

abbrev is_given : Option Text → Bool
is_given none = false
is_given (some s) = not (is_blank s)

abbrev too_long : ℕ → Option Text → Bool
too_long n none = false
too_long n (some s) = ltb n (length s)

abbrev one_if : Bool → ℕ
one_if true = 1
one_if false = 0

-- How many of the strategies are given.
abbrev strategies : SemanticTarget → ℕ
strategies t =
    one_if (is_given t.role)
    + one_if (is_given t.label)
    + one_if (is_given t.test_id)
    + one_if (is_given t.selector)

abbrev blank_selector : Option Text → Bool
blank_selector none = false
blank_selector (some s) = is_blank (trim s)

-- The fields have their types.
unfoldable pub validate_semantic_target : SemanticTarget → Result (Unit {0})
validate_semantic_target t =
    if any (λ k. member k forbidden_keys) t.keys
    then err invalid_target
    else if not (strategies t == 1)
    then err invalid_target
    else if any (too_long 200) (t.role ∷ t.name ∷ t.label ∷ t.test_id ∷ [])
    then err invalid_target
    else if too_long 2048 t.selector || blank_selector t.selector
    then err invalid_target
    else ok tt

abbrev by_role : SemanticTarget → Text → Option (Text → Option Text → Option Bool → ℕ) → Result ℕ
by_role t role none = err invalid_target
by_role t role (some get) = ok (get role t.name t.exact)

abbrev by_label : SemanticTarget → Text → Option (Text → Bool → ℕ) → Result ℕ
by_label t label none = err invalid_target
by_label t label (some get) = ok (get label (or_else t.exact true))

abbrev by_test_id : Text → Option (Text → ℕ) → Result ℕ
by_test_id test_id none = err invalid_target
by_test_id test_id (some get) = ok (get test_id)

-- The first strategy that is given.
unfoldable pub strategy_locator : Page → SemanticTarget → Result ℕ
strategy_locator page t =
    if is_given t.role
    then by_role t (or_else t.role []) page.get_by_role
    else if is_given t.label
    then by_label t (or_else t.label []) page.get_by_label
    else if is_given t.test_id
    then by_test_id (or_else t.test_id []) page.get_by_test_id
    else if is_given t.selector
    then ok (page.locator (or_else t.selector []))
    else err invalid_target

unfoldable pub locator_for_target : Page → SemanticTarget → Result ℕ
unfolding validate_semantic_target strategy_locator
locator_for_target page t = elim (validate_semantic_target t) [
  | err e ↦ err e
  | ok u ↦ strategy_locator page t
]

-- `replace(/\s+/g, ' ')`: a run of white space after white space goes.
unfoldable pub collapse : Bool → Text → Text
collapse after_space [] = []
collapse after_space (c ∷ s) =
    let in_run = collapse true s in
    let in_word = collapse false s in
    if is_space c then (if after_space then in_run else 32 ∷ in_run) else c ∷ in_word

unfoldable pub clean_name : Option Text → Text
unfolding collapse
clean_name s = take 200 (trim (collapse false (or_else s [])))

abbrev pub input_roles : List (Text × Text)
input_roles =
    (codes "button", codes "button")
    ∷ (codes "checkbox", codes "checkbox")
    ∷ (codes "email", codes "textbox")
    ∷ (codes "number", codes "spinbutton")
    ∷ (codes "radio", codes "radio")
    ∷ (codes "range", codes "slider")
    ∷ (codes "reset", codes "button")
    ∷ (codes "search", codes "searchbox")
    ∷ (codes "submit", codes "button")
    ∷ (codes "tel", codes "textbox")
    ∷ (codes "text", codes "textbox")
    ∷ (codes "url", codes "textbox")
    ∷ []

abbrev pub role_tags : List (Text × Text)
role_tags =
    (codes "button", codes "button")
    ∷ (codes "a", codes "link")
    ∷ (codes "textarea", codes "textbox")
    ∷ (codes "select", codes "combobox")
    ∷ []

unfoldable pub infer_role : Text → Text → Option Text → Text
infer_role tag type explicit =
    if is_given explicit
    then or_else explicit []
    else if text_eq tag (codes "input")
    then or_else (lookup type input_roles) (codes "textbox")
    else or_else (lookup tag role_tags)
        (if text_eq tag (codes "div") || is_blank tag then codes "generic" else tag)

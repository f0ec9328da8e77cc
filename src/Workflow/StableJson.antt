-- ===== src/Workflow/StableJson.antt =====
-- The canonical text of JSON (`stableJson`, src/browser/workflow.ts), with what `JSON.stringify` makes
-- of strings and whole numbers. The text of a number that is not whole is a parameter.
use antigravity_browser.Base.{
  ℕ, zero, suc, ◌+◌, ◌/◌, ◌%◌, Bool, true, false, ◌&&◌, ◌||◌, List, [], ◌∷◌, ◌++◌, map, ltb, leb,
  ◌==◌, if◌then◌else◌, Text,
}
use antigravity_browser.Base.{codes}
use antigravity_browser.Workflow.Json.{
  Num, whole, Json, null, flag, number, string, array, object, Items, end, item, Fields, bare,
  field,
}

-- Decimal digits; the fuel is the number itself.
unfoldable pub digits_from : ℕ → ℕ → Text → Text
digits_from zero n acc = (48 + n % 10) ∷ acc
digits_from (suc f) n acc =
    let rest = digits_from f (n / 10) ((48 + n % 10) ∷ acc) in
    if ltb n 10 then (48 + n % 10) ∷ acc else rest

abbrev pub hex : ℕ → ℕ
hex n = if ltb n 10 then 48 + n else 87 + n

abbrev pub u_escape : ℕ → Text
u_escape c = 92 ∷ 117 ∷ hex (c / 4096) ∷ hex (c / 256 % 16) ∷ hex (c / 16 % 16) ∷ hex (c % 16) ∷ []

abbrev pub escape : ℕ → Text
escape c =
    if c == 34 || c == 92
    then 92 ∷ c ∷ []
    else if c == 8
    then codes "\\b"
    else if c == 9
    then codes "\\t"
    else if c == 10
    then codes "\\n"
    else if c == 12
    then codes "\\f"
    else if c == 13
    then codes "\\r"
    else if ltb c 32
    then u_escape c
    else c ∷ []

abbrev pub starts_low : Text → Bool
starts_low [] = false
starts_low (c ∷ s) = leb 56320 c && leb c 57343

-- A surrogate stays if it is one of a pair.
unfoldable pub quote_from : Bool → Text → Text
quote_from after_high [] = 34 ∷ []
quote_from after_high (c ∷ s) =
    let pairs = leb 55296 c && leb c 56319 && starts_low s in
    let rest = quote_from pairs s in
    if pairs || after_high
    then c ∷ rest
    else (if leb 55296 c && leb c 57343 then u_escape c else escape c) ++ rest

abbrev pub quote : Text → Text
quote s = 34 ∷ quote_from false s

-- The order of `sort()`: by code units.
unfoldable pub before_text : Text → Text → Bool
before_text [] t = true
before_text (c ∷ s) [] = false
before_text (c ∷ s) (d ∷ t) = ltb c d || (c == d && before_text s t)

unfoldable pub place : Text × Text → List (Text × Text) → List (Text × Text)
unfolding before_text
place x [] = x ∷ []
place x (y ∷ ys) = if before_text x.0 y.0 then x ∷ y ∷ ys else y ∷ place x ys

unfoldable pub sort_fields : List (Text × Text) → List (Text × Text)
unfolding place
sort_fields [] = []
sort_fields (x ∷ xs) = place x (sort_fields xs)

-- `join(',')`.
unfoldable pub join : List Text → Text
join [] = []
join (s ∷ []) = s
join (s ∷ t ∷ ts) = s ++ (44 ∷ join (t ∷ ts))

abbrev pub colon : Text × Text → Text
colon p = quote p.0 ++ (58 ∷ p.1)

module _ (other_number : Num → Text) where
  abbrev number_text : Num → Text
  number_text (whole n) = digits_from n n []
  number_text n = other_number n

  unfoldable mutual
    pub stable_json : Json → Text
    stable_json null = codes "null"
    stable_json (flag true) = codes "true"
    stable_json (flag false) = codes "false"
    stable_json (number n) = number_text n
    stable_json (string s) = quote s
    stable_json (array vs) = 91 ∷ (join (item_texts vs) ++ (93 ∷ []))
    stable_json (object fs) = 123 ∷ (join (map colon (sort_fields (field_texts fs))) ++ (125 ∷ []))

    pub item_texts : Items → List Text
    item_texts end = []
    item_texts (item v vs) = stable_json v ∷ item_texts vs

    pub field_texts : Fields → List (Text × Text)
    field_texts bare = []
    field_texts (field k v fs) = (k, stable_json v) ∷ field_texts fs

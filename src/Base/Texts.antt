-- ===== src/Base/Texts.antt =====
-- Texts: case, prefixes and suffixes, white space, parts between separators, decimal and hexadecimal
-- numbers.
use mathlib.Core.Path.{◌≡◌, refl}
use mathlib.Core.List.{◌++◌}
use native.Mathlib.Omega.{arith}
use Prim.Native.Nat.{ℕ, ◌+◌, ◌-◌, ◌*◌, ◌/◌, ◌%◌}
use Prim.Native.Char.{code}
use Prim.Native.String.{String}
use mathlib.Core.Bool.{Bool, true, false, ◌&&◌, ◌||◌}
use mathlib.Core.List.{List, [], ◌∷◌, map}
use antigravity_browser.Base.Tests.{leb, ltb, ◌==◌, if◌then◌else◌}
use antigravity_browser.Base.Lists.{Text, text_eq}

-- A literal, by its code units; the literals here are ASCII.
abbrev pub codes : String → Text
codes String.[] = []
codes (String.◌∷◌ c s) = code c ∷ codes s

abbrev pub is_blank : Text → Bool
is_blank [] = true
is_blank (c ∷ cs) = false

-- The white space and the line ends that `trim` takes off.
abbrev pub is_space : ℕ → Bool
is_space c =
    (leb 9 c && leb c 13)
    || c == 32
    || c == 160
    || c == 5760
    || (leb 8192 c && leb c 8202)
    || c == 8232
    || c == 8233
    || c == 8239
    || c == 8287
    || c == 12288
    || c == 65279

unfoldable pub trim_start : Text → Text
trim_start [] = []
trim_start (c ∷ cs) = if is_space c then trim_start cs else c ∷ cs

unfoldable pub trim_end : Text → Text
trim_end [] = []
trim_end (c ∷ cs) = let rest = trim_end cs in if is_space c && is_blank rest then [] else c ∷ rest

abbrev pub trim : Text → Text
trim s = trim_end (trim_start s)

-- A-Z to a-z.
abbrev pub lower_char : ℕ → ℕ
lower_char c = if leb 65 c && leb c 90 then c + 32 else c

unfoldable pub to_lower : Text → Text
to_lower s = map lower_char s

unfoldable pub starts_with : Text → Text → Bool
starts_with [] s = true
starts_with (p ∷ ps) [] = false
starts_with (p ∷ ps) (c ∷ cs) = (p == c) && starts_with ps cs

unfoldable pub ends_with : Text → Text → Bool
ends_with suffix [] = is_blank suffix
ends_with suffix (c ∷ cs) = text_eq (c ∷ cs) suffix || ends_with suffix cs

-- Does the code unit stand in the text?
unfoldable pub has_char : ℕ → Text → Bool
has_char c [] = false
has_char c (d ∷ s) = d == c || has_char c s

unfoldable pub member : Text → List Text → Bool
member s [] = false
member s (t ∷ ts) = text_eq t s || member s ts

-- Puts a code unit before the first of the parts.
abbrev pub onto_first : ℕ → List Text → List Text
onto_first c [] = (c ∷ []) ∷ []
onto_first c (p ∷ ps) = (c ∷ p) ∷ ps

-- `split` at a code unit: always at least one part.
unfoldable pub split_on : ℕ → Text → List Text
split_on d [] = [] ∷ []
split_on d (c ∷ s) = let parts = split_on d s in if c == d then [] ∷ parts else onto_first c parts

-- The number that decimal digits stand for, after those that were read.
unfoldable pub read_decimal : ℕ → Text → ℕ
read_decimal acc [] = acc
read_decimal acc (c ∷ s) = read_decimal (acc * 10 + (c - 48)) s

-- A number below 1,000 in decimal.
unfoldable pub show_decimal : ℕ → Text
show_decimal n =
    if ltb n 10
    then (48 + n) ∷ []
    else if ltb n 100
    then (48 + n / 10) ∷ (48 + n % 10) ∷ []
    else (48 + n / 100) ∷ (48 + n / 10 % 10) ∷ (48 + n % 10) ∷ []

pub split_on-part :
    (d : ℕ) (s t : Text) → has_char d s ≡ false → split_on d (s ++ (d ∷ t)) ≡ s ∷ split_on d t
unfolding split_on has_char
split_on-part d [] t h = ground arith
split_on-part d (c ∷ s) t h = ground (arith, split_on-part d s t)

pub split_on-last : (d : ℕ) (s : Text) → has_char d s ≡ false → split_on d s ≡ s ∷ []
unfolding split_on has_char
split_on-last d [] h = refl
split_on-last d (c ∷ s) h = ground (arith, split_on-last d s)

pub has_char-append : (d : ℕ) (s t : Text) → has_char d (s ++ t) ≡ (has_char d s || has_char d t)
unfolding has_char
has_char-append d [] t = refl
has_char-append d (c ∷ s) t = ground (arith, has_char-append d s t)

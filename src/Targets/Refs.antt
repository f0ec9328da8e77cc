-- ===== src/Targets/Refs.antt =====
-- The references that the registry issues (`opaqueRef`, src/browser/target-registry.ts).
use antigravity_browser.Base.{
  ℕ, zero, suc, ◌+◌, ◌-◌, ◌*◌, ◌/◌, ◌%◌, ◌<◌, ◌≡◌, refl, sym, ap, ◌∙◌, false, [], ◌∷◌, ◌++◌, arith,
  ltb, if◌then◌else◌, drop, Text, has_char, split_on-part, has_char-append, split_on,
}

unfoldable pub base36_digit : ℕ → ℕ
base36_digit n = if ltb n 10 then 48 + n else 87 + n

-- `counter.toString(36)`, with fuel above the number.
unfoldable pub to_base36 : ℕ → ℕ → Text
to_base36 zero n = []
to_base36 (suc fuel) n =
    let rest = to_base36 fuel (n / 36) in
    if ltb n 36 then base36_digit n ∷ [] else rest ++ (base36_digit (n % 36) ∷ [])

-- The random bytes in hexadecimal are an argument.
unfoldable pub opaque_ref : ℕ → Text → Text
unfolding to_base36
opaque_ref counter suffix =
    114 ∷ 101 ∷ 102 ∷ 95 ∷ (to_base36 (suc counter) counter ++ (95 ∷ suffix))

-- The number that digits stand for.
unfoldable pub read_base36 : ℕ → Text → ℕ
read_base36 acc [] = acc
read_base36 acc (c ∷ s) = read_base36 (acc * 36 + (if ltb c 58 then c - 48 else c - 87)) s

read_base36-append :
    (acc : ℕ) (s t : Text) → read_base36 acc (s ++ t) ≡ read_base36 (read_base36 acc s) t
unfolding read_base36
read_base36-append acc [] t = refl
read_base36-append acc (c ∷ s) t =
    read_base36-append (acc * 36 + (if ltb c 58 then c - 48 else c - 87)) s t

read_base36-base36_digit :
    (acc n : ℕ) → n < 36 → read_base36 acc (base36_digit n ∷ []) ≡ acc * 36 + n
unfolding read_base36 base36_digit
read_base36-base36_digit acc n h = ground arith

-- Enough fuel gives every digit: the number is read back.
pub read_base36-to_base36 : (fuel n : ℕ) → n < fuel → read_base36 0 (to_base36 fuel n) ≡ n
unfolding to_base36
read_base36-to_base36 zero n h = absurd (omega (arith, h))
read_base36-to_base36 (suc fuel) n h = ground (
  arith,
  h,
  read_base36-base36_digit 0 n,
  read_base36-append 0 (to_base36 fuel (n / 36)) (base36_digit (n % 36) ∷ []),
  read_base36-base36_digit (read_base36 0 (to_base36 fuel (n / 36))) (n % 36),
  read_base36-to_base36 fuel (n / 36),
)

has_char-base36_digit : (n : ℕ) → n < 36 → has_char 95 (base36_digit n ∷ []) ≡ false
unfolding has_char base36_digit
has_char-base36_digit n h = ground arith

has_char-to_base36 : (fuel n : ℕ) → has_char 95 (to_base36 fuel n) ≡ false
unfolding to_base36 has_char
has_char-to_base36 zero n = refl
has_char-to_base36 (suc fuel) n = ground (
  arith,
  has_char-base36_digit n,
  has_char-append 95 (to_base36 fuel (n / 36)) (base36_digit (n % 36) ∷ []),
  has_char-base36_digit (n % 36),
  has_char-to_base36 fuel (n / 36),
)

-- Texts that agree up to a separator that neither first part holds have the same first part.
first_part :
    (d : ℕ) (s t u v : Text)
    → has_char d s ≡ false
    → has_char d t ≡ false
    → s ++ (d ∷ u) ≡ t ++ (d ∷ v)
    → s ≡ t
first_part d s t u v h k e = ground (
  arith,
  split_on-part d s u h,
  split_on-part d t v k,
  ap (split_on d) {x = s ++ (d ∷ u)} {y = t ++ (d ∷ v)} e,
)

-- References of two counters differ, whatever was drawn for them.
pub opaque_ref_injective : (j k : ℕ) (b c : Text) → opaque_ref j b ≡ opaque_ref k c → j ≡ k
unfolding opaque_ref
opaque_ref_injective j k b c e =
    sym (read_base36-to_base36 (suc j) j (omega arith))
    ∙ ap (read_base36 0) (
        first_part 95 (to_base36 (suc j) j) (to_base36 (suc k) k) b c (has_char-to_base36 (suc j) j)
          (has_char-to_base36 (suc k) k) (ap (drop 4) e))
    ∙ read_base36-to_base36 (suc k) k (omega arith)

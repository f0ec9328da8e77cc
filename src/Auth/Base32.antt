-- ===== src/Auth/Base32.antt =====
-- The secret of a one-time password (`base32ToBuffer`, src/auth/totp.ts), and the encoding that it
-- reads. A bit is 0 or 1.
use antigravity_browser.Base.{
  ℕ, ◌+◌, ◌-◌, ◌*◌, ◌/◌, ◌%◌, ◌<◌, ◌≡◌, refl, Bool, false, not, ◌&&◌, ◌||◌, Option, none, some,
  List, [], ◌∷◌, arith, ltb, leb, ◌==◌, if◌then◌else◌, any, Text, is_space,
}

-- `toUpperCase` of an ASCII character.
abbrev upper_char : ℕ → ℕ
upper_char c = if leb 97 c && leb c 122 then c - 32 else c

-- The characters that are taken out: white space, `=` and `-`.
abbrev is_filler : ℕ → Bool
is_filler c = is_space c || c == 61 || c == 45

-- The place in `BASE32_CHARS`.
unfoldable pub base32_value : ℕ → Option ℕ
base32_value c =
    if leb 65 c && leb c 90
    then some (c - 65)
    else if leb 50 c && leb c 55
    then some (c - 24)
    else none

-- `toString(2).padStart(5, '0')` of a number below 32, before the bits that follow.
unfoldable pub onto_five_bits : ℕ → List ℕ → List ℕ
onto_five_bits n bits = n / 16 % 2 ∷ n / 8 % 2 ∷ n / 4 % 2 ∷ n / 2 % 2 ∷ n % 2 ∷ bits

unfoldable pub base32_bits : Text → List ℕ
unfolding base32_value onto_five_bits
base32_bits [] = []
base32_bits (c ∷ s) =
    let rest = base32_bits s in
    if is_filler (upper_char c)
    then rest
    else elim (base32_value (upper_char c)) [ none ↦ rest | some n ↦ onto_five_bits n rest ]

-- The bytes of the bits, eight by eight; what is left at the end is dropped.
unfoldable pub bytes_of : List ℕ → List ℕ
bytes_of (a ∷ b ∷ c ∷ d ∷ e ∷ f ∷ g ∷ h ∷ bits) =
    (((((((a * 2 + b) * 2 + c) * 2 + d) * 2 + e) * 2 + f) * 2 + g) * 2 + h) ∷ bytes_of bits
bytes_of _ = []

unfoldable pub base32_to_buffer : Text → List ℕ
unfolding base32_bits bytes_of
base32_to_buffer base32 = bytes_of (base32_bits base32)

-- The reference: the encoding of RFC 4648, without padding.
abbrev pub base32_char : ℕ → ℕ
base32_char n = if ltb n 26 then 65 + n else 24 + n

unfoldable pub eight_bits : List ℕ → List ℕ
eight_bits [] = []
eight_bits (n ∷ bytes) =
    n / 128 % 2
    ∷ n / 64 % 2
    ∷ n / 32 % 2
    ∷ n / 16 % 2
    ∷ n / 8 % 2
    ∷ n / 4 % 2
    ∷ n / 2 % 2
    ∷ n % 2
    ∷ eight_bits bytes

abbrev pub five : ℕ → ℕ → ℕ → ℕ → ℕ → ℕ
five a b c d e = (((a * 2 + b) * 2 + c) * 2 + d) * 2 + e

-- A character for five bits, the last ones filled up with zeros.
unfoldable pub base32_chars : List ℕ → Text
base32_chars [] = []
base32_chars (a ∷ []) = base32_char (five a 0 0 0 0) ∷ []
base32_chars (a ∷ b ∷ []) = base32_char (five a b 0 0 0) ∷ []
base32_chars (a ∷ b ∷ c ∷ []) = base32_char (five a b c 0 0) ∷ []
base32_chars (a ∷ b ∷ c ∷ d ∷ []) = base32_char (five a b c d 0) ∷ []
base32_chars (a ∷ b ∷ c ∷ d ∷ e ∷ bits) = base32_char (five a b c d e) ∷ base32_chars bits

unfoldable pub base32_of : List ℕ → Text
unfolding base32_chars eight_bits
base32_of bytes = base32_chars (eight_bits bytes)

-- Every bit is below 2, every byte below 256.
abbrev pub below : ℕ → List ℕ → Bool
below n xs = not (any (λ x. leb n x) xs)

base32_value-char : (n : ℕ) → n < 32 → base32_value (upper_char (base32_char n)) ≡ some n
unfolding base32_value
base32_value-char n h = ground arith

filler-char : (n : ℕ) → n < 32 → is_filler (upper_char (base32_char n)) ≡ false
filler-char n h = ground arith

pub base32_bits-char :
    (n : ℕ) (s : Text) → n < 32 → base32_bits (base32_char n ∷ s) ≡ onto_five_bits n (base32_bits s)
unfolding base32_bits
base32_bits-char n s h = rw (filler-char n h, base32_value-char n h) refl

pub onto_five_bits-five :
    (a b c d e : ℕ) (bits : List ℕ)
    → a < 2
    → b < 2
    → c < 2
    → d < 2
    → e < 2
    → onto_five_bits (five a b c d e) bits ≡ a ∷ b ∷ c ∷ d ∷ e ∷ bits
unfolding onto_five_bits
onto_five_bits-five a b c d e bits ha hb hc hd he = ground arith

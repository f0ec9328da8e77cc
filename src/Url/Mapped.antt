-- ===== src/Url/Mapped.antt =====
-- IPv6 addresses that hold an IPv4 address (`parseIpv6`, `isIpv4Mapped`,
-- src/policy/url-policy.ts).
use antigravity_browser.Base.{
  ℕ, ◌+◌, ◌*◌, ◌/◌, ◌%◌, ◌<◌, ◌≡◌, refl, ap, ◌∙◌, inl, inr, Bool, true, false, not, ◌&&◌, none,
  some, [], ◌∷◌, ◌++◌, arith, ltb, ◌==◌, length, Text, Bool-cases, ltb→lt, is_blank, has_char,
  show_decimal,
}
use antigravity_browser.Url.Ipv6.{
  show_hex, read_hex, hex_value, parse_hextet, hex_digit, at_last_colon, split_pairs,
}

hex_value-hex_digit : (n : ℕ) → n < 16 → hex_value (hex_digit n) ≡ some n
unfolding hex_value hex_digit
hex_value-hex_digit n h = ground arith

read_hex-hex_digit :
    (acc n : ℕ) (s : Text) → n < 16 → read_hex acc (hex_digit n ∷ s) ≡ read_hex (acc * 16 + n) s
unfolding read_hex
read_hex-hex_digit acc n s h = ground (arith, hex_value-hex_digit n h)

read_two :
    (a b : ℕ) → a < 16 → b < 16 → read_hex 0 (hex_digit a ∷ hex_digit b ∷ []) ≡ some (a * 16 + b)
unfolding read_hex
read_two a b h k =
    read_hex-hex_digit 0 a (hex_digit b ∷ []) h
    ∙ read_hex-hex_digit (0 * 16 + a) b [] k
    ∙ ap some (omega arith)

read_three :
    (a b c : ℕ)
    → a < 16
    → b < 16
    → c < 16
    → read_hex 0 (hex_digit a ∷ hex_digit b ∷ hex_digit c ∷ []) ≡ some ((a * 16 + b) * 16 + c)
unfolding read_hex
read_three a b c h k l =
    read_hex-hex_digit 0 a (hex_digit b ∷ hex_digit c ∷ []) h
    ∙ read_hex-hex_digit (0 * 16 + a) b (hex_digit c ∷ []) k
    ∙ read_hex-hex_digit ((0 * 16 + a) * 16 + b) c [] l
    ∙ ap some (omega arith)

read_four :
    (a b c d : ℕ)
    → a < 16
    → b < 16
    → c < 16
    → d < 16
    → read_hex 0 (hex_digit a ∷ hex_digit b ∷ hex_digit c ∷ hex_digit d ∷ [])
      ≡ some (((a * 16 + b) * 16 + c) * 16 + d)
unfolding read_hex
read_four a b c d h k l m =
    read_hex-hex_digit 0 a (hex_digit b ∷ hex_digit c ∷ hex_digit d ∷ []) h
    ∙ read_hex-hex_digit (0 * 16 + a) b (hex_digit c ∷ hex_digit d ∷ []) k
    ∙ read_hex-hex_digit ((0 * 16 + a) * 16 + b) c (hex_digit d ∷ []) l
    ∙ read_hex-hex_digit (((0 * 16 + a) * 16 + b) * 16 + c) d [] m
    ∙ ap some (omega arith)

pub read_hex-show_hex : (n : ℕ) → n < 65536 → read_hex 0 (show_hex n) ≡ some n
unfolding show_hex read_hex
read_hex-show_hex n h = elim (Bool-cases (ltb n 16)) [
  | inl x ↦ rw x (read_hex-hex_digit 0 n [] (ltb→lt n 16 x) ∙ ap some (omega arith))
  | inr x ↦ elim (Bool-cases (ltb n 256)) [
    | inl y ↦
        rw (x, y) (read_two (n / 16) (n % 16) (ground arith) (omega arith) ∙ ap some (omega arith))
    | inr y ↦ elim (Bool-cases (ltb n 4096)) [
      | inl z ↦
          rw (x, y, z)
            (read_three (n / 256) (n / 16 % 16) (n % 16) (ground arith) (omega arith) (omega arith)
              ∙ ap some (omega arith))
      | inr z ↦
          rw (x, y, z)
            (read_four (n / 4096) (n / 256 % 16) (n / 16 % 16) (n % 16) (omega arith) (omega arith)
                (omega arith) (omega arith)
              ∙ ap some (omega arith))
    ]
  ]
]

pub length-show_hex :
    (n : ℕ) → (is_blank (show_hex n) ≡ false) × (ltb 4 (length (show_hex n)) ≡ false)
unfolding show_hex
length-show_hex n = ground arith

-- A group that is written in hexadecimal is read back.
pub parse_hextet-show_hex : (n : ℕ) → n < 65536 → parse_hextet (show_hex n) ≡ some n
unfolding parse_hextet
parse_hextet-show_hex n h = let (b, l) = length-show_hex n in rw (b, l) (read_hex-show_hex n h)

at_last_colon-last : (t : Text) → has_char 58 t ≡ false → at_last_colon t ≡ none
unfolding at_last_colon has_char
at_last_colon-last [] h = refl
at_last_colon-last (c ∷ t) h = ground (arith, at_last_colon-last t)

pub at_last_colon-append :
    (s t : Text) → has_char 58 t ≡ false → at_last_colon (s ++ (58 ∷ t)) ≡ some (s, t)
unfolding at_last_colon
at_last_colon-append [] t h = rw (at_last_colon-last t h) refl
at_last_colon-append (c ∷ s) t h = rw (at_last_colon-append s t h) refl

pub colon-show_decimal : (n : ℕ) → n < 1000 → has_char 58 (show_decimal n) ≡ false
unfolding has_char show_decimal
colon-show_decimal n h = ground arith

pub colon-show_hex : (n : ℕ) → n < 65536 → has_char 58 (show_hex n) ≡ false
unfolding has_char show_hex hex_digit
colon-show_hex n h = ground arith

-- No two colons side by side.
unfoldable pub no_pair : Text → Bool
no_pair [] = true
no_pair (c ∷ []) = true
no_pair (c ∷ d ∷ s) = not (c == 58 && d == 58) && no_pair (d ∷ s)

pub split_pairs-whole : (s : Text) → no_pair s ≡ true → split_pairs s ≡ s ∷ []
unfolding no_pair split_pairs
split_pairs-whole [] h = refl
split_pairs-whole (c ∷ []) h = refl
split_pairs-whole (c ∷ d ∷ s) h = ground (arith, h, split_pairs-whole (d ∷ s))

no_pair-single : (t : Text) → has_char 58 t ≡ false → no_pair t ≡ true
unfolding no_pair has_char
no_pair-single [] h = refl
no_pair-single (c ∷ []) h = refl
no_pair-single (c ∷ d ∷ t) h = ground (arith, h, no_pair-single (d ∷ t))

pub no_pair-colon :
    (t : Text) → is_blank t ≡ false → has_char 58 t ≡ false → no_pair (58 ∷ t) ≡ true
unfolding no_pair has_char
no_pair-colon [] b h = ground (arith, b)
no_pair-colon (c ∷ t) b h = ground (arith, h, no_pair-single (c ∷ t))

pub no_pair-append :
    (s t : Text) → has_char 58 s ≡ false → no_pair (58 ∷ t) ≡ true → no_pair (s ++ (58 ∷ t)) ≡ true
unfolding no_pair has_char
no_pair-append [] t h k = k
no_pair-append (c ∷ []) t h k = ground (arith, h, k)
no_pair-append (c ∷ d ∷ s) t h k = ground (arith, h, no_pair-append (d ∷ s) t)

pub no_pair-colon_append :
    (t s : Text)
    → is_blank t ≡ false
    → has_char 58 t ≡ false
    → no_pair (t ++ s) ≡ true
    → no_pair (58 ∷ (t ++ s)) ≡ true
unfolding no_pair has_char
no_pair-colon_append [] s b h k = ground (arith, b)
no_pair-colon_append (c ∷ t) s b h k = ground (arith, h, k)

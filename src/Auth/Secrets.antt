-- ===== src/Auth/Secrets.antt =====
-- A secret that is written in base 32 is read back (`base32ToBuffer`, src/auth/totp.ts).
use antigravity_browser.Base.{
  ℕ, zero, suc, ◌<◌, ◌≡◌, refl, ap, ◌∙◌, true, List, [], ◌∷◌, ◌++◌, arith, Text,
}
use antigravity_browser.Auth.Base32.{
  base32_chars, base32_bits, base32_to_buffer, bytes_of, eight_bits, below, base32_of, base32_char,
  five, base32_bits-char, onto_five_bits-five,
}

-- What was filled up is read as zeros.
unfoldable zero_bits : ℕ → List ℕ
zero_bits zero = []
zero_bits (suc k) = 0 ∷ zero_bits k

char-five :
    (a b c d e : ℕ) (s : Text)
    → a < 2
    → b < 2
    → c < 2
    → d < 2
    → e < 2
    → base32_bits (base32_char (five a b c d e) ∷ s) ≡ a ∷ b ∷ c ∷ d ∷ e ∷ base32_bits s
char-five a b c d e s ha hb hc hd he =
    base32_bits-char (five a b c d e) s (omega (arith, ha, hb, hc, hd, he))
    ∙ onto_five_bits-five a b c d e (base32_bits s) ha hb hc hd he

bits_are_read :
    (bits : List ℕ)
    → below 2 bits ≡ true
    → (k : ℕ) × (k < 8) × (base32_bits (base32_chars bits) ≡ bits ++ zero_bits k)
unfolding base32_chars base32_bits zero_bits
bits_are_read [] h = (0, omega arith, refl)
bits_are_read (a ∷ []) h = (
  4,
  omega arith,
  char-five a 0 0 0 0 [] (ground (arith, h)) (omega arith) (omega arith) (omega arith)
      (omega arith),
)
bits_are_read (a ∷ b ∷ []) h = (
  3,
  omega arith,
  char-five a b 0 0 0 [] (ground (arith, h)) (ground (arith, h)) (omega arith) (omega arith)
      (omega arith),
)
bits_are_read (a ∷ b ∷ c ∷ []) h = (
  2,
  omega arith,
  char-five a b c 0 0 [] (ground (arith, h)) (ground (arith, h)) (ground (arith, h)) (omega arith)
      (omega arith),
)
bits_are_read (a ∷ b ∷ c ∷ d ∷ []) h = (
  1,
  omega arith,
  char-five a b c d 0 [] (ground (arith, h)) (ground (arith, h)) (ground (arith, h))
      (ground (arith, h)) (omega arith),
)
bits_are_read (a ∷ b ∷ c ∷ d ∷ e ∷ bits) h =
    let (k, l, q) = bits_are_read bits (ground (arith, h)) in
    (
      k,
      l,
      char-five a b c d e (base32_chars bits) (ground (arith, h)) (ground (arith, h))
            (ground (arith, h)) (ground (arith, h)) (ground (arith, h))
          ∙ ap (λ r. a ∷ b ∷ c ∷ d ∷ e ∷ r) q,
    )

below-eight_bits : (bytes : List ℕ) → below 2 (eight_bits bytes) ≡ true
unfolding eight_bits
below-eight_bits [] = refl
below-eight_bits (n ∷ bytes) = ground (arith, below-eight_bits bytes)

bytes_of-zero_bits : (k : ℕ) → k < 8 → bytes_of (zero_bits k) ≡ []
unfolding bytes_of zero_bits
bytes_of-zero_bits zero h = refl
bytes_of-zero_bits (suc zero) h = refl
bytes_of-zero_bits (suc (suc zero)) h = refl
bytes_of-zero_bits (suc (suc (suc zero))) h = refl
bytes_of-zero_bits (suc (suc (suc (suc zero)))) h = refl
bytes_of-zero_bits (suc (suc (suc (suc (suc zero))))) h = refl
bytes_of-zero_bits (suc (suc (suc (suc (suc (suc zero)))))) h = refl
bytes_of-zero_bits (suc (suc (suc (suc (suc (suc (suc zero))))))) h = refl
bytes_of-zero_bits (suc (suc (suc (suc (suc (suc (suc (suc k)))))))) h = absurd (omega (arith, h))

bytes_of-eight_bits :
    (bytes : List ℕ) (k : ℕ)
    → below 256 bytes ≡ true
    → k < 8
    → bytes_of (eight_bits bytes ++ zero_bits k) ≡ bytes
unfolding bytes_of eight_bits
bytes_of-eight_bits [] k h l = bytes_of-zero_bits k l
bytes_of-eight_bits (n ∷ bytes) k h l = ground (arith, h, l, bytes_of-eight_bits bytes k)

-- The bytes of a secret, written in base 32 as RFC 4648 says, are read back from the text, whatever
-- their number.
pub base32_to_buffer-base32_of :
    (bytes : List ℕ) → below 256 bytes ≡ true → base32_to_buffer (base32_of bytes) ≡ bytes
unfolding base32_to_buffer base32_of
base32_to_buffer-base32_of bytes h =
    let (k, l, q) = bits_are_read (eight_bits bytes) (below-eight_bits bytes) in
    ap bytes_of q ∙ bytes_of-eight_bits bytes k h l

-- ===== src/Url/Wildcards.antt =====
-- What a wildcard of a host rule matches (`matchesHost`, src/policy/url-policy.ts).
use antigravity_browser.Base.{
  ℕ, suc, ◌+◌, ◌≤◌, ◌≡◌, refl, ap, ◌↔◌, inl, inr, true, false, not, ◌&&◌, List, [], ◌∷◌, ◌++◌,
  arith, ◌==◌, if◌then◌else◌, length, Text, text_eq, Bool-cases, has_char, onto_first, split_on,
  ends_with, text_eq_refl, text_eq_sound, starts_with, text_eq_iff, length-append,
}
use antigravity_browser.Url.Hosts.{matches_pattern}

-- How often a code unit stands in a text.
unfoldable count : ℕ → Text → ℕ
count d [] = 0
count d (c ∷ s) = if c == d then suc (count d s) else count d s

count-append : (d : ℕ) (s t : Text) → count d (s ++ t) ≡ count d s + count d t
unfolding count
count-append d [] t = ground arith
count-append d (c ∷ s) t = ground (arith, count-append d s t)

length-onto_first : (c : ℕ) (ps : List Text) → 1 ≤ length ps → length (onto_first c ps) ≡ length ps
length-onto_first c [] h = omega (arith, h)
length-onto_first c (p ∷ ps) h = refl

length-split_on : (d : ℕ) (s : Text) → length (split_on d s) ≡ suc (count d s)
unfolding split_on count
length-split_on d [] = refl
length-split_on d (c ∷ s) = ground (arith, length-split_on d s, length-onto_first c (split_on d s))

has_char-count : (d : ℕ) (s : Text) → (has_char d s ≡ false) ↔ (count d s ≡ 0)
unfolding has_char count
has_char-count d [] = ground arith
has_char-count d (c ∷ s) = ground (arith, has_char-count d s)

ends_with-prefix : (t s : Text) → ends_with t s ≡ true → (r : Text) × (s ≡ r ++ t)
unfolding ends_with
ends_with-prefix [] [] h = ([], refl)
ends_with-prefix (x ∷ t) [] h = absurd (ground (arith, h))
ends_with-prefix t (c ∷ s) h = elim (Bool-cases (text_eq (c ∷ s) t)) [
  | inl e ↦ ([], text_eq_sound (c ∷ s) t e)
  | inr n ↦ let (r, q) = ends_with-prefix t s (ground (arith, h, n)) in (c ∷ r, ap (λ l. c ∷ l) q)
]

ends_with_append : (r t : Text) → ends_with t (r ++ t) ≡ true
unfolding ends_with
ends_with_append [] [] = refl
ends_with_append [] (x ∷ t) = ground (arith, text_eq_refl (x ∷ t))
ends_with_append (c ∷ r) t = ground (arith, ends_with_append r t)

matches-wildcard :
    (candidate suffix : Text)
    → matches_pattern candidate (42 ∷ 46 ∷ suffix) ≡ (
        not (text_eq candidate suffix)
        && ends_with (46 ∷ suffix) candidate
        && (length (split_on 46 candidate) == suc (length (split_on 46 suffix))))
unfolding matches_pattern starts_with
matches-wildcard candidate suffix = refl

count-below : (r suffix : Text) → count 46 (r ++ (46 ∷ suffix)) ≡ suc (count 46 r + count 46 suffix)
unfolding count
count-below r suffix = ground (arith, count-append 46 r (46 ∷ suffix))

prefix_is_label :
    (candidate suffix r : Text)
    → candidate ≡ r ++ (46 ∷ suffix)
    → (length (split_on 46 candidate) == suc (length (split_on 46 suffix))) ≡ true
    → has_char 46 r ≡ false
prefix_is_label candidate suffix r q h = ground (
  arith,
  q,
  h,
  length-split_on 46 candidate,
  length-split_on 46 suffix,
  count-below r suffix,
  has_char-count 46 r,
)

label-matches :
    (r suffix : Text)
    → has_char 46 r ≡ false
    → matches_pattern (r ++ (46 ∷ suffix)) (42 ∷ 46 ∷ suffix) ≡ true
label-matches r suffix n = ground (
  arith,
  matches-wildcard (r ++ (46 ∷ suffix)) suffix,
  ends_with_append r (46 ∷ suffix),
  length-split_on 46 (r ++ (46 ∷ suffix)),
  length-split_on 46 suffix,
  count-below r suffix,
  has_char-count 46 r,
  text_eq_iff (r ++ (46 ∷ suffix)) suffix,
  length-append r (46 ∷ suffix),
  ap length {x = r ++ (46 ∷ suffix)} {y = suffix},
)

-- A host matches `*.suffix` exactly when it is one label, which has no dot, followed by the suffix:
-- neither the suffix itself nor a host that is further below it.
pub wildcard_is_one_label :
    (candidate suffix : Text)
    → (matches_pattern candidate (42 ∷ 46 ∷ suffix) ≡ true)
      ↔ ((label : Text) × (has_char 46 label ≡ false) × (candidate ≡ label ++ (46 ∷ suffix)))
wildcard_is_one_label candidate suffix = (
  λ h.
      let (r, q) =
        ends_with-prefix (46 ∷ suffix) candidate
          (ground (arith, matches-wildcard candidate suffix, h)) in
      (
        r,
        prefix_is_label candidate suffix r q (ground (arith, matches-wildcard candidate suffix, h)),
        q,
      ),
  λ (r, n, q). rw q (label-matches r suffix n),
)

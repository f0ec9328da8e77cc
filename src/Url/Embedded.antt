-- ===== src/Url/Embedded.antt =====
-- The spelling `::ffff:a.b.c.d` of an IPv4 address (`parseIpv6` and `classifyAddress`,
-- src/policy/url-policy.ts).
use antigravity_browser.Base.{
  ℕ, ◌+◌, ◌*◌, ◌/◌, ◌%◌, ◌<◌, ◌≡◌, refl, ap, ◌∙◌, true, false, some, List, [], ◌∷◌, ◌++◌, arith,
  Text, is_some, split_on, has_char, show_decimal, starts_with, to_lower, split_on-part,
  has_char-append, split_on-last,
}
use antigravity_browser.Url.Ipv4.{dotted, classify_ipv4, octets}
use antigravity_browser.Url.Ipv6.{
  parse_ipv6, parse_hextets, show_hex, zeros, split_pairs, join_halves, Net, hextets_of,
  is_ipv4_mapped, at_last_colon, classify_address, unbracket, parse_hextet, read_hex,
  Classification, hex_value, high_low, without_ipv4,
}
use antigravity_browser.Url.Mapped.{
  no_pair, split_pairs-whole, no_pair-append, colon-show_hex, no_pair-colon, length-show_hex,
  no_pair-colon_append, at_last_colon-append, colon-show_decimal, parse_hextet-show_hex,
}
use antigravity_browser.Url.Blocks.{octets-dotted, is_protected, value, classify_ipv4-is_protected}
use antigravity_browser.Url.Addresses.{to_lower-dotted}

-- `::ffff:a.b.c.d`.
abbrev pub embedded : ℕ → ℕ → ℕ → ℕ → Text
embedded a b c d = 58 ∷ 58 ∷ 102 ∷ 102 ∷ 102 ∷ 102 ∷ 58 ∷ dotted a b c d

abbrev groups_of : ℕ → ℕ → List ℕ
groups_of high low = 0 ∷ 0 ∷ 0 ∷ 0 ∷ 0 ∷ 65535 ∷ high ∷ low ∷ []

-- What is left after the compression, the IPv4 address in hextets.
abbrev tail : ℕ → ℕ → Text
tail high low = 102 ∷ 102 ∷ 102 ∷ 102 ∷ 58 ∷ (show_hex high ++ (58 ∷ show_hex low))

parse_hextets-cons :
    (p : Text) (n : ℕ) (ps : List Text) (ns : List ℕ)
    → parse_hextet p ≡ some n
    → parse_hextets ps ≡ some ns
    → parse_hextets (p ∷ ps) ≡ some (n ∷ ns)
unfolding parse_hextets
parse_hextets-cons p n ps ns h k = ground (arith, h, k)

without_ipv4-embedded :
    (net : Net) (u x y v : Text)
    → has_char 46 u ≡ true
    → at_last_colon u ≡ some (x, y)
    → net.is_ip y ≡ 4
    → high_low x (octets y) ≡ some v
    → without_ipv4 net u ≡ some v
unfolding without_ipv4
without_ipv4-embedded net u x y v h k i j = ground (arith, h, k, i, j)

parse_ipv6-ipv4 :
    (net : Net) (t v : Text)
    → without_ipv4 net (to_lower (unbracket t)) ≡ some v
    → parse_ipv6 net t ≡ join_halves (split_pairs v)
unfolding parse_ipv6 without_ipv4
parse_ipv6-ipv4 net t v h = ground (arith, h)

classify_address-mapped :
    (net : Net) (t m : Text) (gs : List ℕ)
    → net.is_ip (to_lower (unbracket t)) ≡ 6
    → parse_ipv6 net (to_lower (unbracket t)) ≡ some gs
    → is_ipv4_mapped gs ≡ some m
    → (k : Classification) × (classify_address net t ≡ some k) × (k.reason ≡ classify_ipv4 m)
unfolding classify_address
classify_address-mapped net t m gs i h k = (
  record { reason = classify_ipv4 m; version = 6; address = to_lower (unbracket t) },
  rw (i, h, k) refl,
  refl,
)

dotted-of : (w x y z a b c d : ℕ) → w ≡ a → x ≡ b → y ≡ c → z ≡ d → dotted w x y z ≡ dotted a b c d
dotted-of w x y z a b c d h i j k = rw (h, i, j, k) refl

module _ (high low : ℕ) (hh : high < 65536) (hl : low < 65536) where
  no_pair-groups : no_pair (show_hex high ++ (58 ∷ show_hex low)) ≡ true
  no_pair-groups =
      no_pair-append (show_hex high) (show_hex low) (colon-show_hex high hh)
        (no_pair-colon (show_hex low) (length-show_hex low).0 (colon-show_hex low hl))

  no_pair-tail : no_pair (tail high low) ≡ true
  unfolding no_pair
  no_pair-tail =
      no_pair-colon_append (show_hex high) (58 ∷ show_hex low) (length-show_hex high).0
        (colon-show_hex high hh) no_pair-groups

  split_pairs-tail : split_pairs (58 ∷ 58 ∷ tail high low) ≡ [] ∷ tail high low ∷ []
  unfolding split_pairs
  split_pairs-tail = ap (λ l. [] ∷ l) (split_pairs-whole (tail high low) no_pair-tail)

  split_on-tail :
      split_on 58 (tail high low) ≡ (102 ∷ 102 ∷ 102 ∷ 102 ∷ []) ∷ show_hex high ∷ show_hex low ∷ []
  unfolding split_on
  split_on-tail =
      rw
        (
          split_on-part 58 (show_hex high) (show_hex low) (colon-show_hex high hh),
          split_on-last 58 (show_hex low) (colon-show_hex low hl),
        )
        refl

  hextets_of-tail : hextets_of (tail high low) ≡ some (65535 ∷ high ∷ low ∷ [])
  unfolding parse_hextets parse_hextet read_hex hex_value
  hextets_of-tail =
      ap parse_hextets split_on-tail
      ∙ parse_hextets-cons (102 ∷ 102 ∷ 102 ∷ 102 ∷ []) 65535 (show_hex high ∷ show_hex low ∷ [])
          (high ∷ low ∷ []) refl
          (parse_hextets-cons (show_hex high) high (show_hex low ∷ []) (low ∷ [])
            (parse_hextet-show_hex high hh)
            (parse_hextets-cons (show_hex low) low [] [] (parse_hextet-show_hex low hl) refl))

  join_halves-tail : join_halves ([] ∷ tail high low ∷ []) ≡ some (groups_of high low)
  unfolding zeros
  join_halves-tail = rw hextets_of-tail refl

module _ (a b c d : ℕ) (ha : a < 256) (hb : b < 256) (hc : c < 256) (hd : d < 256) where
  colon-dotted : has_char 58 (dotted a b c d) ≡ false
  unfolding dotted has_char
  colon-dotted = ground (
    arith,
    has_char-append 58 (show_decimal a)
        (46 ∷ (show_decimal b ++ (46 ∷ (show_decimal c ++ (46 ∷ show_decimal d))))),
    has_char-append 58 (show_decimal b) (46 ∷ (show_decimal c ++ (46 ∷ show_decimal d))),
    has_char-append 58 (show_decimal c) (46 ∷ show_decimal d),
    colon-show_decimal a (omega (arith, ha)),
    colon-show_decimal b (omega (arith, hb)),
    colon-show_decimal c (omega (arith, hc)),
    colon-show_decimal d (omega (arith, hd)),
  )

  dot-embedded : has_char 46 (embedded a b c d) ≡ true
  unfolding dotted has_char
  dot-embedded = ground (
    arith,
    has_char-append 46 (show_decimal a)
        (46 ∷ (show_decimal b ++ (46 ∷ (show_decimal c ++ (46 ∷ show_decimal d))))),
  )

  canonical-embedded : to_lower (unbracket (embedded a b c d)) ≡ embedded a b c d
  unfolding unbracket starts_with to_lower
  canonical-embedded =
      ap (λ t. 58 ∷ 58 ∷ 102 ∷ 102 ∷ 102 ∷ 102 ∷ 58 ∷ t) (to_lower-dotted a b c d ha hb hc hd)

  colon_in-embedded :
      at_last_colon (embedded a b c d) ≡ some (58 ∷ 58 ∷ 102 ∷ 102 ∷ 102 ∷ 102 ∷ [], dotted a b c d)
  colon_in-embedded =
      at_last_colon-append (58 ∷ 58 ∷ 102 ∷ 102 ∷ 102 ∷ 102 ∷ []) (dotted a b c d) colon-dotted

  parse_ipv6-embedded :
      (net : Net)
      → net.is_ip (dotted a b c d) ≡ 4
      → parse_ipv6 net (embedded a b c d) ≡ some (groups_of (a * 256 + b) (c * 256 + d))
  parse_ipv6-embedded net v =
      let high = a * 256 + b in
      let low = c * 256 + d in
      parse_ipv6-ipv4 net (embedded a b c d) (58 ∷ 58 ∷ tail high low) (
        rw canonical-embedded (
          without_ipv4-embedded net (embedded a b c d) (58 ∷ 58 ∷ 102 ∷ 102 ∷ 102 ∷ 102 ∷ [])
            (dotted a b c d) (58 ∷ 58 ∷ tail high low) dot-embedded colon_in-embedded v
            (rw (octets-dotted a b c d ha hb hc hd) refl)))
      ∙ ap join_halves (split_pairs-tail high low (omega arith) (omega arith))
      ∙ join_halves-tail high low (omega arith) (omega arith)

  is_ipv4_mapped-groups_of :
      is_ipv4_mapped (groups_of (a * 256 + b) (c * 256 + d)) ≡ some (dotted a b c d)
  unfolding is_ipv4_mapped
  is_ipv4_mapped-groups_of = ap some (
      dotted-of ((a * 256 + b) / 256) ((a * 256 + b) % 256) ((c * 256 + d) / 256)
        ((c * 256 + d) % 256) a b c d (omega arith) (omega arith) (omega arith) (omega arith))

  -- An IPv4 address that is written as `::ffff:a.b.c.d` is denied exactly when it lies in a protected
  -- block: the spelling goes round no test, and its parse never throws. `isIP` knows both spellings.
  pub embedded-is_protected :
      (net : Net)
      → net.is_ip (dotted a b c d) ≡ 4
      → net.is_ip (embedded a b c d) ≡ 6
      → (k : Classification) × (classify_address net (embedded a b c d) ≡ some k)
        × (is_some k.reason ≡ is_protected (value a b c d))
  embedded-is_protected net v w =
      let (k, e, r) =
        classify_address-mapped net (embedded a b c d) (dotted a b c d)
          (groups_of (a * 256 + b) (c * 256 + d)) (rw canonical-embedded w)
          (rw canonical-embedded (parse_ipv6-embedded net v)) is_ipv4_mapped-groups_of in
      (k, e, ap is_some r ∙ classify_ipv4-is_protected a b c d ha hb hc hd)

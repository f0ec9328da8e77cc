-- ===== src/Url/Ipv6.antt =====
-- IPv6 addresses and the classification of address literals (`classifyAddress`, `parseIpv6`,
-- src/policy/url-policy.ts). What node:net and the URL parser do is the record `Net`.
use Prim.Native.Nat.{◌^◌}
use antigravity_browser.Base.{
  ℕ, zero, suc, ◌+◌, ◌-◌, ◌*◌, ◌/◌, ◌%◌, min, Bool, true, false, not, ◌&&◌, ◌||◌, Option, none,
  some, List, [], ◌∷◌, ◌++◌, ltb, leb, ◌==◌, if◌then◌else◌, length, any, take, drop, Text, codes,
  split_on, starts_with, is_blank, onto_first, to_lower, has_char, member, ends_with,
}
use antigravity_browser.Url.Ipv4.{Reason, dotted, classify_ipv4, octets, metadata}

-- The protocol, the user, the password and the host of a URL that was parsed.
pub record ParsedUrl : Type 0 where
  pub protocol : Text
  pub username : Text
  pub password : Text
  pub hostname : Text

-- `isIP` (4, 6 or 0), `new URL`, the hostname of `http://[address]`, and `domainToASCII`.
pub record Net : Type 0 where
  pub is_ip : Text → ℕ
  pub parse_url : Text → Option ParsedUrl
  pub ipv6_host : Text → Text
  pub domain_to_ascii : Text → Text

-- `slice(1, -1)`.
abbrev pub inner : Text → Text
inner s = take (length s - 2) (drop 1 s)

unfoldable pub unbracket : Text → Text
unbracket s = if starts_with (91 ∷ []) s && ends_with (93 ∷ []) s then inner s else s

-- 0-9, a-f, A-F.
unfoldable pub hex_value : ℕ → Option ℕ
hex_value c =
    if leb 48 c && leb c 57
    then some (c - 48)
    else if leb 97 c && leb c 102
    then some (c - 87)
    else if leb 65 c && leb c 70
    then some (c - 55)
    else none

unfoldable pub read_hex : ℕ → Text → Option ℕ
read_hex acc [] = some acc
read_hex acc (c ∷ s) = elim (hex_value c) [ none ↦ none | some d ↦ read_hex (acc * 16 + d) s ]

-- One to four hexadecimal digits; `none` is a throw.
unfoldable pub parse_hextet : Text → Option ℕ
unfolding read_hex
parse_hextet s = if is_blank s || ltb 4 (length s) then none else read_hex 0 s

unfoldable pub hex_digit : ℕ → ℕ
hex_digit n = if ltb n 10 then 48 + n else 87 + n

-- `toString(16)` below 65,536.
unfoldable pub show_hex : ℕ → Text
show_hex n =
    if ltb n 16
    then hex_digit n ∷ []
    else if ltb n 256
    then hex_digit (n / 16) ∷ hex_digit (n % 16) ∷ []
    else if ltb n 4096
    then hex_digit (n / 256) ∷ hex_digit (n / 16 % 16) ∷ hex_digit (n % 16) ∷ []
    else hex_digit (n / 4096)
      ∷ hex_digit (n / 256 % 16)
      ∷ hex_digit (n / 16 % 16)
      ∷ hex_digit (n % 16)
      ∷ []

unfoldable pub parse_hextets : List Text → Option (List ℕ)
unfolding parse_hextet
parse_hextets [] = some []
parse_hextets (p ∷ ps) = elim (parse_hextet p) [
  | none ↦ none
  | some n ↦ elim (parse_hextets ps) [ none ↦ none | some ns ↦ some (n ∷ ns) ]
]

-- `split('::')`.
unfoldable pub split_pairs : Text → List Text
split_pairs [] = [] ∷ []
split_pairs (c ∷ []) = (c ∷ []) ∷ []
split_pairs (c ∷ d ∷ s) = elim (c == 58 && d == 58) [
  | true ↦ [] ∷ split_pairs s
  | false ↦ onto_first c (split_pairs (d ∷ s))
]

-- The text before the last colon and the one after it.
unfoldable pub at_last_colon : Text → Option (Text × Text)
at_last_colon [] = none
at_last_colon (c ∷ s) = elim (at_last_colon s) [
  | some (before, after) ↦ some (c ∷ before, after)
  | none ↦ if c == 58 then some ([], s) else none
]

abbrev pub high_low : Text → List ℕ → Option Text
high_low before (a ∷ b ∷ c ∷ d ∷ []) =
    some (before ++ (58 ∷ (show_hex (a * 256 + b) ++ (58 ∷ show_hex (c * 256 + d)))))
high_low before _ = none

-- The address with an embedded IPv4 address written in hextets.
unfoldable pub without_ipv4 : Net → Text → Option Text
unfolding at_last_colon show_hex
without_ipv4 net s = if not (has_char 46 s) then some s else elim (at_last_colon s) [
  | none ↦ none
  | some (before, after) ↦ if net.is_ip after == 4 then high_low before (octets after) else none
]

unfoldable pub zeros : ℕ → List ℕ
zeros zero = []
zeros (suc n) = 0 ∷ zeros n

abbrev pub hextets_of : Text → Option (List ℕ)
hextets_of [] = some []
hextets_of (c ∷ s) = parse_hextets (split_on 58 (c ∷ s))

-- The groups left and right of a compression, the zeros between them.
abbrev pub fill : ℕ → Option (List ℕ) → Option (List ℕ) → Option (List ℕ)
fill least (some left) (some right) =
    if ltb 8 (length left + length right + least)
    then none
    else some (left ++ (zeros (8 - (length left + length right)) ++ right))
fill least _ _ = none

abbrev pub join_halves : List Text → Option (List ℕ)
join_halves (first ∷ []) = fill 0 (hextets_of first) (some [])
join_halves (first ∷ second ∷ []) = fill 1 (hextets_of first) (hextets_of second)
join_halves _ = none

unfoldable pub parse_ipv6 : Net → Text → Option (List ℕ)
unfolding without_ipv4 split_pairs zeros parse_hextets
parse_ipv6 net address = elim (without_ipv4 net (to_lower (unbracket address))) [
  | none ↦ none
  | some s ↦ join_halves (split_pairs s)
]

-- The dotted address of `::ffff:a.b.c.d`.
unfoldable pub is_ipv4_mapped : List ℕ → Option Text
is_ipv4_mapped (a ∷ b ∷ c ∷ d ∷ e ∷ f ∷ g ∷ h ∷ []) =
    if a == 0 && b == 0 && c == 0 && d == 0 && e == 0 && f == 65535
    then some (dotted (g / 256) (g % 256) (h / 256) (h % 256))
    else none
is_ipv4_mapped _ = none

abbrev first_or_zero : List ℕ → ℕ
first_or_zero [] = 0
first_or_zero (n ∷ ns) = n

-- The groups, masked to the bits that are left, against the prefix; a group that is missing is -1,
-- which no prefix here matches.
unfoldable pub has_ipv6_prefix : List ℕ → List ℕ → ℕ → Bool
has_ipv6_prefix [] prefix bits = bits == 0
has_ipv6_prefix (g ∷ gs) prefix bits =
    let rest = has_ipv6_prefix gs (drop 1 prefix) (bits - 16) in
    let unit = 2 ^ (16 - min bits 16) in
    bits == 0 || (g / unit == first_or_zero prefix / unit && rest)

-- `fd00:ec2::254` and `fe80::a9fe:a9fe`.
abbrev pub metadata_ipv6 : List Text
metadata_ipv6 = codes "fd00:ec2::254" ∷ codes "fe80::a9fe:a9fe" ∷ []

-- The tests on the eight groups, in their order.
unfoldable pub classify_groups : Bool → List ℕ → Option Reason
classify_groups is_metadata gs =
    if is_metadata
    then some metadata
    else if not (any (λ g. not (g == 0)) gs)
    then some Reason.reserved
    else if not (any (λ g. not (g == 0)) (take 7 gs)) && not (any (λ g. not (g == 1)) (drop 7 gs))
    then some Reason.loopback
    else if has_ipv6_prefix gs (64512 ∷ []) 7
    then some Reason.private
    else if has_ipv6_prefix gs (65152 ∷ []) 10
    then some Reason.link_local
    else if has_ipv6_prefix gs (65280 ∷ []) 8
    then some Reason.multicast
    else if has_ipv6_prefix gs (8193 ∷ 3512 ∷ []) 32
    then some Reason.reserved
    else if has_ipv6_prefix gs (8193 ∷ 0 ∷ []) 32
    then some Reason.reserved
    else if has_ipv6_prefix gs (8193 ∷ 2 ∷ 0 ∷ []) 48
    then some Reason.reserved
    else if has_ipv6_prefix gs (256 ∷ 0 ∷ []) 32
    then some Reason.reserved
    else if has_ipv6_prefix gs (0 ∷ 0 ∷ 0 ∷ 0 ∷ 0 ∷ 0 ∷ []) 96
    then some Reason.reserved
    else none

-- A classification: the reason to block, if there is one, and the address.
pub record Classification : Type 0 where
  pub reason : Option Reason
  pub version : ℕ
  pub address : Text

unfoldable pub canonical_ipv6 : Net → Text → Text
canonical_ipv6 net address = to_lower (inner (net.ipv6_host address))

-- `none` where the parser of IPv6 throws.
unfoldable pub classify_address : Net → Text → Option Classification
classify_address net address =
    let s = to_lower (unbracket address) in
    let groups = parse_ipv6 net s in
    if net.is_ip s == 4
    then some (record { reason = classify_ipv4 s; version = 4; address = s })
    else if net.is_ip s == 6
    then elim groups [
      | none ↦ none
      | some gs ↦ elim (is_ipv4_mapped gs) [
        | some mapped ↦ some (record { reason = classify_ipv4 mapped; version = 6; address = s })
        | none ↦ some (record {
          reason = classify_groups (member (canonical_ipv6 net s) metadata_ipv6) gs;
          version = 6;
          address = s;
        })
      ]
    ]
    else some (record { reason = some Reason.reserved; version = 4; address = s })

-- ===== src/Url/Hosts.antt =====
-- Host names: their canonical form, the host rules and the names that are protected
-- (`normalizeHostPattern`, `normalizeHost`, src/config.ts; `matchesHost`, `canonicalUrlHost` and
-- `classifyHostname`, src/policy/url-policy.ts).
use antigravity_browser.Base.{
  ℕ, suc, Bool, false, not, ◌&&◌, ◌||◌, Option, none, some, List, [], ◌∷◌, ◌++◌, ltb, leb, ◌==◌,
  if◌then◌else◌, length, any, drop, Text, text_eq, starts_with, is_blank, codes, split_on, to_lower,
  ends_with, trim, has_char, member,
}
use antigravity_browser.Url.Ipv6.{canonical_ipv6, Net, inner, unbracket}
use antigravity_browser.Url.Ipv4.{Reason, metadata}

-- `replace(/\.$/, '')`.
abbrev pub without_dot : Text → Text
without_dot [] = []
without_dot (c ∷ []) = if c == 46 then [] else c ∷ []
without_dot (c ∷ d ∷ s) = c ∷ without_dot (d ∷ s)

-- `domainToASCII(host).toLowerCase()` without a trailing dot.
abbrev to_ascii : Net → Text → Text
to_ascii net host = without_dot (to_lower (net.domain_to_ascii host))

unfoldable pub canonical_url_host : Net → Text → Text
unfolding canonical_ipv6
canonical_url_host net raw_host =
    let host = without_dot (to_lower (unbracket raw_host)) in
    if is_blank host
    then []
    else if net.is_ip host == 6
    then 91 ∷ (canonical_ipv6 net host ++ (93 ∷ []))
    else if net.is_ip host == 4
    then host
    else to_ascii net host

abbrev is_word : ℕ → Bool
is_word c = (leb 97 c && leb c 122) || (leb 48 c && leb c 57)

abbrev ends_word : Text → Bool
ends_word [] = false
ends_word (c ∷ []) = is_word c
ends_word (c ∷ d ∷ s) = ends_word (d ∷ s)

-- The expression `HOST_LABEL`: letters and digits, hyphens inside, at most 63 characters.
unfoldable pub is_host_label : Text → Bool
is_host_label [] = false
is_host_label (c ∷ s) =
    is_word c
    && ends_word (c ∷ s)
    && not (any (λ d. not (is_word d || d == 45)) s)
    && leb (length (c ∷ s)) 63

-- The expression `IPV6_BRACKET`.
abbrev is_bracketed : Text → Bool
is_bracketed s =
    starts_with (91 ∷ []) s
    && ends_with (93 ∷ []) s
    && ltb 2 (length s)
    && not (has_char 91 (inner s))
    && not (has_char 93 (inner s))

-- Two dots would be an empty label.
abbrev is_hostname : Text → Bool
is_hostname ascii =
    not (is_blank ascii)
    && leb (length ascii) 253
    && not (any (λ l. not (is_host_label l)) (split_on 46 ascii))

-- `none` is a configuration error.
unfoldable pub normalize_host : Net → Text → Option Text
unfolding is_host_label
normalize_host net raw =
    let value = trim raw in
    let ascii = to_ascii net value in
    if is_blank value || has_char 47 value || has_char 63 value || has_char 35 value
    then none
    else if has_char 58 value
        && not (is_bracketed value)
        && not (net.is_ip value == 4)
        && not (net.is_ip value == 6)
    then none
    else if is_bracketed value
    then (if net.is_ip (inner value) == 6
        then some (to_lower (net.ipv6_host (inner value)))
        else none)
    else if net.is_ip value == 6
    then some (to_lower (net.ipv6_host value))
    else if net.is_ip value == 4
    then some value
    else if is_hostname ascii
    then some ascii
    else none

unfoldable pub is_ip_literal_rule : Net → Text → Bool
is_ip_literal_rule net value =
    if starts_with (91 ∷ []) value && ends_with (93 ∷ []) value
    then net.is_ip (inner value) == 6
    else net.is_ip value == 4 || net.is_ip value == 6

abbrev star_dot : Text
star_dot = 42 ∷ 46 ∷ []

-- The base of a wildcard.
abbrev wildcard : Net → Option Text → Option Text
wildcard net none = none
wildcard net (some base) =
    if is_ip_literal_rule net base
    then none
    else if ltb (length (split_on 46 base)) 2
    then none
    else some (42 ∷ 46 ∷ base)

unfoldable pub normalize_host_pattern : Net → Text → Option Text
unfolding normalize_host is_ip_literal_rule
normalize_host_pattern net raw =
    let value = trim raw in
    if is_blank value
    then none
    else if text_eq value (42 ∷ [])
    then none
    else if starts_with star_dot value
    then wildcard net (normalize_host net (drop 2 value))
    else if has_char 42 value
    then none
    else normalize_host net value

-- One compiled rule: an exact host or a suffix with one more label.
unfoldable pub matches_pattern : Text → Text → Bool
matches_pattern candidate pattern =
    let suffix = drop 2 pattern in
    if starts_with star_dot pattern
    then not (text_eq candidate suffix)
      && ends_with (46 ∷ suffix) candidate
      && (length (split_on 46 candidate) == suc (length (split_on 46 suffix)))
    else text_eq candidate pattern

-- The rules, normalized; `none` is the configuration error of the first that is not one.
unfoldable pub normalize_all : Net → List Text → Option (List Text)
normalize_all net [] = some []
normalize_all net (p ∷ ps) = elim (normalize_host_pattern net p) [
  | none ↦ none
  | some q ↦ elim (normalize_all net ps) [ none ↦ none | some qs ↦ some (q ∷ qs) ]
]

abbrev pub matches_any : Text → Option (List Text) → Option Bool
matches_any candidate none = none
matches_any candidate (some patterns) = some (any (matches_pattern candidate) patterns)

unfoldable pub matches_host : Net → Text → List Text → Option Bool
unfolding canonical_url_host normalize_all matches_pattern
matches_host net host patterns =
    let candidate = canonical_url_host net host in
    if is_blank candidate then some false else matches_any candidate (normalize_all net patterns)

abbrev pub metadata_hostnames : List Text
metadata_hostnames =
    codes "metadata"
    ∷ codes "metadata.google.internal"
    ∷ codes "metadata.google"
    ∷ codes "instance-data.ec2.internal"
    ∷ codes "metadata.azure.internal"
    ∷ []

abbrev pub hostname_blocklist : List Text
hostname_blocklist = codes "localhost" ∷ codes "localhost.localdomain" ∷ codes "ip6-localhost" ∷ []

unfoldable pub classify_hostname : Text → Option Reason
classify_hostname host =
    let name = without_dot (to_lower (unbracket host)) in
    if member name metadata_hostnames
      || ends_with (codes ".metadata.google.internal") name
      || ends_with (codes ".instance-data.ec2.internal") name
      || ends_with (codes ".metadata.azure.internal") name
    then some metadata
    else if member name hostname_blocklist || ends_with (codes ".localhost") name
    then some Reason.loopback
    else none

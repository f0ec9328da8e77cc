-- ===== src/Url/Resolve.antt =====
-- The operations of `UrlPolicy` (src/policy/url-policy.ts): `resolveAllowed` up to the DNS query and
-- after it, and `clearDnsCache`.
use antigravity_browser.Url.Policy.{not_a_purpose, fails, not_an_array, answers, denied}
use antigravity_browser.Base.{
  ℕ, ◌+◌, ◌⊎◌, inl, inr, Bool, not, ◌&&◌, ◌||◌, Option, none, some, List, [], ◌∷◌, ltb, leb, ◌==◌,
  if◌then◌else◌, length, any, Text, text_eq, Dict, codes, is_blank, trim, to_lower, insert, lookup,
}
use antigravity_browser.Url.Ipv6.{Net, ParsedUrl, canonical_ipv6, classify_address, unbracket}
use antigravity_browser.Url.Policy.{
  UrlPurposeInput, UrlPolicy, UrlPurpose, Cached, Lookup, Outcome, named, DnsAnswer, refused,
  UrlError, looks_up, dns_resolution_failed, invalid_url, invalid_purpose, object,
  invalid_host_rule, dns_invalid_address, navigation, unclassified, domain_not_allowed,
  dns_invalid_address_list, approved, resource, answers, scheme_not_allowed, userinfo_not_allowed,
  is_metadata, dns_resolution_empty, private_network_denied, missing_host,
}
use antigravity_browser.Url.Hosts.{canonical_url_host, classify_hostname, matches_host}

-- `none` is refused.
abbrev pub purpose_of : UrlPurposeInput → Option UrlPurpose
purpose_of (named purpose) = some purpose
purpose_of (object none) = some navigation
purpose_of (object (some is_resource)) = some (if is_resource then resource else navigation)
purpose_of not_a_purpose = none

abbrev pub https : Text
https = codes "https:"

abbrev pub http : Text
http = codes "http:"

abbrev pub is_control : ℕ → Bool
is_control c = leb c 31 || c == 127

unfoldable pub scheme_allowed : UrlPolicy → ParsedUrl → Bool
scheme_allowed p url =
    text_eq (to_lower url.protocol) https || (text_eq (to_lower url.protocol) http && p.allow_http)

-- The length, blanks around the text and control characters in it.
unfoldable pub is_plain : Text → Bool
is_plain raw_url =
    not (is_blank raw_url)
    && leb (length raw_url) 2048
    && text_eq (trim raw_url) raw_url
    && not (any is_control raw_url)

abbrev pub hosts_for : UrlPolicy → UrlPurpose → List Text
hosts_for p navigation = p.allowed_hosts
hosts_for p resource = p.resource_hosts

-- A name: protected ones, then the cache, then a query.
unfoldable pub check_name : UrlPolicy → UrlPurpose → ParsedUrl → Text → ℕ → Outcome
check_name p purpose url host now =
    let query = looks_up (record { url = url; host = host; purpose = purpose; now = now }) in
    let reply = if p.has_resolver then query else elim (lookup host p.safe_dns_cache) [
      | none ↦ query
      | some c ↦
          if ltb now c.expires_at
          then approved (record { url = url; addresses = c.addresses })
          else query
    ] in
    elim (classify_hostname host) [
      | none ↦ reply
      | some reason ↦
          if is_metadata (some reason) || not p.allow_private_network
          then refused (private_network_denied reason purpose host)
          else reply
    ]

-- An address literal.
unfoldable pub check_literal : Net → UrlPolicy → UrlPurpose → ParsedUrl → Text → Outcome
check_literal net p purpose url host = elim (classify_address net (unbracket host)) [
  | none ↦ refused unclassified
  | some c ↦ elim (denied net p c) [
    | some reason ↦ refused (private_network_denied reason purpose host)
    | none ↦ approved (record { url = url; addresses = unbracket host ∷ [] })
  ]
]

abbrev pub check_host : Net → UrlPolicy → UrlPurpose → ParsedUrl → Text → ℕ → Option Bool → Outcome
check_host net p purpose url host now none = refused invalid_host_rule
check_host net p purpose url host now (some matches) =
    if not matches
    then refused (domain_not_allowed purpose host)
    else if net.is_ip (unbracket host) == 0
    then check_name p purpose url host now
    else check_literal net p purpose url host

abbrev pub check_parsed : Net → UrlPolicy → UrlPurpose → Option ParsedUrl → ℕ → Outcome
check_parsed net p purpose none now = refused (invalid_url purpose)
check_parsed net p purpose (some url) now =
    let host = canonical_url_host net url.hostname in
    if not (scheme_allowed p url)
    then refused (scheme_not_allowed purpose)
    else if not (is_blank url.username && is_blank url.password)
    then refused (userinfo_not_allowed purpose)
    else if is_blank host
    then refused (missing_host purpose)
    else check_host net p purpose url host now (matches_host net host (hosts_for p purpose))

-- `resolveAllowed` until it returns, throws or queries DNS.
unfoldable pub check_url : Net → UrlPolicy → UrlPurposeInput → Text → ℕ → Outcome
unfolding scheme_allowed is_plain check_name check_literal
check_url net p input raw_url now = elim (purpose_of input) [
  | none ↦ refused invalid_purpose
  | some purpose ↦
      if not (is_plain raw_url)
      then refused (invalid_url purpose)
      else check_parsed net p purpose (net.parse_url raw_url) now
]

unfoldable pub canonical_address : Net → Text → Text
canonical_address net address =
    if net.is_ip address == 6 then canonical_ipv6 net address else address

-- One answer: the address to connect to, or the error.
abbrev pub check_answer : Net → UrlPolicy → Lookup → Option Text → Text ⊎ UrlError
check_answer net p l none = inr (dns_invalid_address l.purpose l.host)
check_answer net p l (some address) =
    if net.is_ip (unbracket address) == 0
    then inr (dns_invalid_address l.purpose l.host)
    else elim (classify_address net (unbracket address)) [
      | none ↦ inr unclassified
      | some c ↦ elim (denied net p c) [
        | some reason ↦ inr (private_network_denied reason l.purpose l.host)
        | none ↦ inl (canonical_address net (unbracket address))
      ]
    ]

-- The loop over the answers; the first error stops it.
unfoldable pub check_answers : Net → UrlPolicy → Lookup → List (Option Text) → List Text ⊎ UrlError
unfolding canonical_address
check_answers net p l [] = inl []
check_answers net p l (entry ∷ entries) = elim (check_answer net p l entry) [
  | inr e ↦ inr e
  | inl address ↦ elim (check_answers net p l entries) [
    | inr e ↦ inr e
    | inl addresses ↦ inl (address ∷ addresses)
  ]
]

-- The cache with room for one more.
abbrev pub evict : Dict Cached → Dict Cached
evict [] = []
evict ((host, c) ∷ m) = if leb 500 (length ((host, c) ∷ m)) then m else (host, c) ∷ m

abbrev pub entry_of : Lookup → List Text → Cached
entry_of l addresses = record { addresses = addresses; expires_at = l.now + 30000 }

unfoldable pub remember : UrlPolicy → Lookup → List Text → UrlPolicy
remember p l addresses =
    if p.has_resolver
    then p
    else record p { safe_dns_cache = insert l.host (entry_of l addresses) (evict p.safe_dns_cache) }

-- `resolveAllowed` after the query.
unfoldable pub take_answers : Net → UrlPolicy → Lookup → DnsAnswer → Outcome × UrlPolicy
unfolding check_answers remember
take_answers net p l fails = (refused (dns_resolution_failed l.purpose l.host), p)
take_answers net p l not_an_array = (refused (dns_invalid_address_list l.purpose l.host), p)
take_answers net p l (answers []) = (refused (dns_resolution_empty l.purpose l.host), p)
take_answers net p l (answers (entry ∷ entries)) = elim (check_answers net p l (entry ∷ entries)) [
  | inr e ↦ (refused e, p)
  | inl addresses ↦
      (approved (record { url = l.url; addresses = addresses }), remember p l addresses)
]

unfoldable pub clear_dns_cache : UrlPolicy → UrlPolicy
clear_dns_cache p = record p { safe_dns_cache = [] }

-- ===== src/Url/Examples.antt =====
-- Concrete inputs for the theorems on src/policy/url-policy.ts.
use antigravity_browser.Base.{
  ℕ, zero, suc, ◌+◌, ◌-◌, ◌*◌, ◌/◌, ◌%◌, ◌≤◌, ◌<◌, min, max, ◌≡◌, refl, sym, ap, ◌∙◌, subst, ◌≢◌,
  ◌↔◌, ◌⊎◌, inl, inr, Bool, true, false, not, ◌&&◌, ◌||◌, Option, none, some, List, [], ◌∷◌, ◌++◌,
  map, arith, ltb, leb, ◌==◌, if◌then◌else◌, length, any, take, drop, Text, text_eq, is_some,
  or_else, Bool-cases, Option-cases, codes, member, text_eq_sound, has_char,
}
use antigravity_browser.Url.Policy.{
  create, named, answers, ResolvedDestination, UrlPolicyOptions, UrlPolicy, Lookup, DnsAnswer,
  UrlPurpose, looks_up, approved,
}
use antigravity_browser.Url.Ipv6.{Net, canonical_ipv6, ParsedUrl, Classification, classify_address}
use antigravity_browser.Url.Resolve.{check_url, purpose_of}
use antigravity_browser.Url.Hosts.{normalize_all, matches_pattern}
use antigravity_browser.Url.History.{run, answered}
use antigravity_browser.Url.Ipv4.{metadata_ipv4, classify_ipv4, dotted}
use antigravity_browser.Url.Blocks.{is_protected, value, classify_ipv4-is_protected}
use antigravity_browser.Url.Wildcards.{wildcard_is_one_label}
use antigravity_browser.Url.Embedded.{embedded, embedded-is_protected}
use antigravity_browser.Url.Addresses.{approved_addresses_are_public}
use antigravity_browser.Url.Metadata.{metadata_is_never_approved}
use antigravity_browser.Url.Ipv6.{unbracket, parse_ipv6}
use antigravity_browser.Base.{to_lower}
use antigravity_browser.Url.Allowed.{Allowed, check_url-Allowed, url_of}

abbrev public_address : Text
public_address = codes "93.184.216.34"

abbrev public_ipv6 : Text
public_ipv6 = codes "2606:4700::1"

abbrev host : Text
host = codes "www.example.org"

abbrev page : Text
page = codes "https://www.example.org/"

abbrev url : ParsedUrl
url = record {
  protocol = codes "https:";
  username = [];
  password = [];
  hostname = codes "www.example.org";
}

abbrev net : Net
net = record {
  is_ip = λ s.
      if text_eq s public_address
        || text_eq s (codes "169.254.169.254")
        || text_eq s (codes "10.0.0.1")
      then 4
      else if text_eq s public_ipv6 || text_eq s (codes "::ffff:10.0.0.1")
      then 6
      else 0;
  parse_url = λ s. if text_eq s page then some url else none;
  ipv6_host = λ s. 91 ∷ (s ++ (93 ∷ []));
  domain_to_ascii = λ s. s;
}

abbrev options : UrlPolicyOptions
options = record {
  allowed_hosts = codes "*.example.org" ∷ [];
  resource_hosts = [];
  allow_http = none;
  allow_private_network = none;
  allow_synthetic_tunnel = none;
  has_resolver = false;
}

abbrev policy : UrlPolicy
policy = record {
  allowed_hosts = codes "*.example.org" ∷ [];
  resource_hosts = codes "*.example.org" ∷ [];
  allow_http = false;
  allow_private_network = false;
  allow_synthetic_tunnel = false;
  has_resolver = false;
  safe_dns_cache = [];
}

abbrev query : Lookup
query = record { url = url; host = host; purpose = UrlPurpose.navigation; now = 1000 }

abbrev answer : DnsAnswer
answer = answers (some public_address ∷ [])

abbrev destination : ResolvedDestination
destination = record { url = url; addresses = public_address ∷ [] }

created : create net options ≡ some policy
unfolding create normalize_all antigravity_browser.Url.Hosts.normalize_host_pattern
    antigravity_browser.Base.trim_end antigravity_browser.Base.trim_start text_eq
    antigravity_browser.Base.starts_with has_char antigravity_browser.Base.to_lower
    antigravity_browser.Base.split_on
created = refl

asks : check_url net policy (named UrlPurpose.navigation) page 1000 ≡ looks_up query
unfolding check_url text_eq antigravity_browser.Base.trim_end antigravity_browser.Base.trim_start
    antigravity_browser.Base.to_lower antigravity_browser.Url.Hosts.canonical_url_host
    antigravity_browser.Url.Ipv6.unbracket antigravity_browser.Base.starts_with
    antigravity_browser.Url.Hosts.matches_host antigravity_browser.Url.Hosts.normalize_host_pattern
    has_char antigravity_browser.Base.split_on antigravity_browser.Base.ends_with
    antigravity_browser.Url.Hosts.classify_hostname member antigravity_browser.Base.lookup
asks = refl

from_cache :
    check_url net
      (run net policy (answered query answer ∷ []))
      (named UrlPurpose.navigation)
      page
      2000
    ≡ approved destination
unfolding antigravity_browser.Base.text_eq antigravity_browser.Base.trim_end
    antigravity_browser.Base.trim_start antigravity_browser.Base.to_lower
    antigravity_browser.Base.starts_with antigravity_browser.Base.split_on
    antigravity_browser.Base.member antigravity_browser.Base.read_decimal
    antigravity_browser.Base.insert antigravity_browser.Base.lookup
    antigravity_browser.Base.ends_with antigravity_browser.Base.has_char
    antigravity_browser.Base.show_decimal antigravity_browser.Url.Hosts.normalize_host_pattern
    antigravity_browser.Url.Hosts.canonical_url_host antigravity_browser.Url.Hosts.matches_host
    antigravity_browser.Url.Hosts.classify_hostname antigravity_browser.Url.Hosts.matches_pattern
    antigravity_browser.Url.Hosts.normalize_all antigravity_browser.Url.Hosts.is_host_label
    antigravity_browser.Url.Resolve.take_answers antigravity_browser.Url.Resolve.check_answers
    antigravity_browser.Url.Resolve.check_name antigravity_browser.Url.Resolve.canonical_address
    antigravity_browser.Url.Resolve.remember antigravity_browser.Url.Resolve.is_plain
    antigravity_browser.Url.Resolve.scheme_allowed antigravity_browser.Url.Resolve.check_url
    antigravity_browser.Url.Policy.is_private_exception
    antigravity_browser.Url.Policy.is_synthetic_tunnel_address
    antigravity_browser.Url.Ipv4.classify_ipv4 antigravity_browser.Url.Ipv4.classify_octets
    antigravity_browser.Url.Ipv4.octets antigravity_browser.Url.Ipv4.metadata_ipv4
    antigravity_browser.Url.Ipv4.dotted antigravity_browser.Url.Ipv6.classify_address
    antigravity_browser.Url.Ipv6.unbracket antigravity_browser.Url.History.step
    antigravity_browser.Url.History.run
from_cache = refl

ipv6-cases : (s : Text) → net.is_ip s ≡ 6 → (s ≡ public_ipv6) ⊎ (s ≡ codes "::ffff:10.0.0.1")
ipv6-cases s h = elim (Bool-cases (text_eq s public_ipv6)) [
  | inl t ↦ inl (text_eq_sound s public_ipv6 t)
  | inr f ↦ elim (Bool-cases (text_eq s (codes "::ffff:10.0.0.1"))) [
    | inl t ↦ inr (text_eq_sound s (codes "::ffff:10.0.0.1") t)
    | inr g ↦ absurd (ground (arith, h, f, g))
  ]
]

ipv6_stays : (s : Text) → net.is_ip s ≡ 6 → net.is_ip (canonical_ipv6 net s) ≡ 6
unfolding canonical_ipv6 text_eq antigravity_browser.Base.to_lower
ipv6_stays s h = elim (ipv6-cases s h) [ inl t ↦ rw t refl | inr t ↦ rw t refl ]

ipv6_lowers :
    (s : Text)
    → net.is_ip s ≡ 6
    → (net.is_ip (to_lower (unbracket s)) ≡ 6)
      × (canonical_ipv6 net (to_lower (unbracket s)) ≡ canonical_ipv6 net s)
unfolding canonical_ipv6 text_eq to_lower unbracket antigravity_browser.Base.starts_with
ipv6_lowers s h = elim (ipv6-cases s h) [ inl t ↦ rw t (refl, refl) | inr t ↦ rw t (refl, refl) ]

ipv6_groups :
    (s : Text) → net.is_ip s ≡ 6 → parse_ipv6 net (canonical_ipv6 net s) ≡ parse_ipv6 net s
unfolding canonical_ipv6 to_lower
ipv6_groups s h = elim (ipv6-cases s h) [ inl t ↦ rw t refl | inr t ↦ rw t refl ]

approved_addresses_are_public_example : is_protected (value 93 184 216 34) ≡ false
unfolding member text_eq dotted antigravity_browser.Base.show_decimal
approved_addresses_are_public_example =
    approved_addresses_are_public net options policy (answered query answer ∷ []) destination 93 184
      216 34 (omega arith) (omega arith) (omega arith) (omega arith) ipv6_stays refl created refl
      refl (inl (named UrlPurpose.navigation, page, 2000, from_cache)) refl

metadata_is_never_approved_example : member (codes "169.254.169.254") destination.addresses ≡ false
unfolding member text_eq
metadata_is_never_approved_example =
    metadata_is_never_approved net options policy (answered query answer ∷ []) destination
      (codes "169.254.169.254") ipv6_stays ipv6_lowers ipv6_groups created
      (inl (named UrlPurpose.navigation, page, 2000, from_cache)) (inl (refl, refl))

classify_ipv4-is_protected_example :
    is_some (classify_ipv4 (dotted 100 64 0 1)) ≡ is_protected (value 100 64 0 1)
classify_ipv4-is_protected_example =
    classify_ipv4-is_protected 100 64 0 1 (omega arith) (omega arith) (omega arith) (omega arith)

embedded-is_protected_example :
    (k : Classification) × (classify_address net (embedded 10 0 0 1) ≡ some k)
    × (is_some k.reason ≡ is_protected (value 10 0 0 1))
unfolding text_eq dotted antigravity_browser.Base.show_decimal
embedded-is_protected_example =
    embedded-is_protected 10 0 0 1 (omega arith) (omega arith) (omega arith) (omega arith) net refl
      refl

wildcard_is_one_label_example :
    (matches_pattern (codes "a.b.example.org") (codes "*.example.org") ≡ true) ↔ (
      (label : Text) × (has_char 46 label ≡ false)
      × (codes "a.b.example.org" ≡ label ++ (46 ∷ codes "example.org")))
wildcard_is_one_label_example =
    wildcard_is_one_label (codes "a.b.example.org") (codes "example.org")

check_url-Allowed_example :
    (purpose : UrlPurpose) × (purpose_of (named UrlPurpose.navigation) ≡ some purpose)
    × (net.parse_url page ≡ some url)
    × Allowed net options purpose page url
check_url-Allowed_example =
    check_url-Allowed net options policy created (named UrlPurpose.navigation) page 1000 url
      (ap url_of asks)

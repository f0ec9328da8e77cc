-- ===== src/Url/Policy.antt =====
-- `UrlPolicy` (src/policy/url-policy.ts). `resolveAllowed` is cut at its only `await`: `check_url`
-- runs up to the DNS query, `take_answers` after it, so that other calls may run between the two. The
-- answers of DNS and the time are arguments.
use antigravity_browser.Base.{
  ℕ, zero, suc, Bool, true, false, not, ◌&&◌, Option, none, some, List, [], ◌∷◌, leb, ◌==◌,
  if◌then◌else◌, Text, or_else, read_decimal, Dict, split_on,
}
use antigravity_browser.Url.Ipv6.{Net, ParsedUrl, Classification, unbracket}
use antigravity_browser.Url.Ipv4.{Reason}
use antigravity_browser.Url.Hosts.{normalize_all}

pub data UrlPurpose : Type 0 where
  navigation resource : UrlPurpose

-- A purpose as it is passed: a string, an object with its field `resource`, or something else.
pub data UrlPurposeInput : Type 0 where
  named : UrlPurpose → UrlPurposeInput
  object : Option Bool → UrlPurposeInput
  not_a_purpose : UrlPurposeInput

pub data UrlError : Type 0 where
  invalid_purpose unclassified : UrlError
  invalid_url scheme_not_allowed userinfo_not_allowed missing_host : UrlPurpose → UrlError
  domain_not_allowed : UrlPurpose → Text → UrlError
  private_network_denied : Reason → UrlPurpose → Text → UrlError
  dns_resolution_failed dns_invalid_address_list : UrlPurpose → Text → UrlError
  dns_resolution_empty dns_invalid_address : UrlPurpose → Text → UrlError
  invalid_host_rule : UrlError

pub record Cached : Type 0 where
  pub addresses : List Text
  pub expires_at : ℕ

pub record UrlPolicy : Type 0 where
  pub allowed_hosts : List Text
  pub resource_hosts : List Text
  pub allow_http : Bool
  pub allow_private_network : Bool
  pub allow_synthetic_tunnel : Bool
  pub has_resolver : Bool
  pub safe_dns_cache : Dict Cached

pub record UrlPolicyOptions : Type 0 where
  pub allowed_hosts : List Text
  pub resource_hosts : List Text
  pub allow_http : Option Bool
  pub allow_private_network : Option Bool
  pub allow_synthetic_tunnel : Option Bool
  pub has_resolver : Bool

pub record ResolvedDestination : Type 0 where
  pub url : ParsedUrl
  pub addresses : List Text

-- A call that waits for the answers of DNS.
pub record Lookup : Type 0 where
  pub url : ParsedUrl
  pub host : Text
  pub purpose : UrlPurpose
  pub now : ℕ

pub data Outcome : Type 0 where
  approved : ResolvedDestination → Outcome
  refused : UrlError → Outcome
  looks_up : Lookup → Outcome

-- What a resolver gives: a rejection, something that is no array, or entries, `none` for one that is
-- not text.
pub data DnsAnswer : Type 0 where
  fails not_an_array : DnsAnswer
  answers : List (Option Text) → DnsAnswer

abbrev pub build : UrlPolicyOptions → Option (List Text) → Option (List Text) → Option UrlPolicy
build o (some allowed) (some resources) = some (record {
  allowed_hosts = allowed;
  resource_hosts = resources;
  allow_http = or_else o.allow_http false;
  allow_private_network = or_else o.allow_private_network false;
  allow_synthetic_tunnel = or_else o.allow_synthetic_tunnel false;
  has_resolver = o.has_resolver;
  safe_dns_cache = [];
})
build o _ _ = none

abbrev pub resources_of : List Text → Option (List Text) → Option (List Text)
resources_of [] allowed = allowed
resources_of (r ∷ rs) allowed = some (r ∷ rs)

abbrev pub normalize_some : Net → Option (List Text) → Option (List Text)
normalize_some net none = none
normalize_some net (some ps) = normalize_all net ps

-- The constructor.
unfoldable pub create : Net → UrlPolicyOptions → Option UrlPolicy
create net o =
    let allowed = normalize_all net o.allowed_hosts in
    build o allowed (normalize_some net (resources_of o.resource_hosts allowed))

abbrev number_at : ℕ → List Text → ℕ
number_at zero (s ∷ ss) = read_decimal 0 s
number_at (suc n) (s ∷ ss) = number_at n ss
number_at n [] = 0

unfoldable pub is_synthetic_tunnel_address : Net → Text → Bool
is_synthetic_tunnel_address net address =
    let parts = split_on 46 (unbracket address) in
    let first = number_at 0 parts in
    let second = number_at 1 parts in
    net.is_ip (unbracket address) == 4 && first == 198 && leb 18 second && leb second 19

-- The two reasons that exceptions ask for.
abbrev pub is_metadata : Option Reason → Bool
is_metadata (some Reason.metadata) = true
is_metadata _ = false

abbrev pub is_reserved : Option Reason → Bool
is_reserved (some Reason.reserved) = true
is_reserved _ = false

unfoldable pub is_private_exception : Net → UrlPolicy → Classification → Bool
unfolding is_synthetic_tunnel_address
is_private_exception net p c =
    if p.allow_synthetic_tunnel && is_synthetic_tunnel_address net c.address
    then is_reserved c.reason
    else p.allow_private_network && not (is_metadata c.reason)

-- Blocked, and no exception: the reason of the error.
abbrev pub denied : Net → UrlPolicy → Classification → Option Reason
denied net p c = if is_private_exception net p c then none else c.reason

-- ===== src/Url/Allowed.antt =====
-- Which URLs get past `resolveAllowed` (src/policy/url-policy.ts).
use antigravity_browser.Base.{
  ℕ, ◌≡◌, refl, ap, subst, inl, inr, Bool, true, false, Option, none, some, [], ◌∷◌, arith, ◌==◌,
  Text, Bool-cases, Option-cases, is_blank, lookup, length, List, to_lower, ◌≤◌, codes, ◌⊎◌,
  text_eq, text_eq_sound, or_else, ◌∙◌,
}
use antigravity_browser.Url.Ipv6.{Net, ParsedUrl, unbracket, classify_address}
use antigravity_browser.Url.Policy.{
  Outcome, UrlPolicy, UrlPurpose, approved, looks_up, refused, denied, UrlPurposeInput,
  UrlPolicyOptions, create, build, normalize_some, resources_of,
}
use antigravity_browser.Url.Resolve.{
  check_name, scheme_allowed, check_literal, check_host, hosts_for, check_url, check_parsed,
  purpose_of, is_plain,
}
use antigravity_browser.Url.Hosts.{matches_host, canonical_url_host, normalize_all}

-- The URL of a call that was not refused.
abbrev pub url_of : Outcome → Option ParsedUrl
url_of (approved d) = some d.url
url_of (looks_up l) = some l.url
url_of (refused e) = none

module _ (net : Net) (p : UrlPolicy) (purpose : UrlPurpose) where
  -- The tests that a URL passed.
  record Passed (u : ParsedUrl) : Type 0 where
    pub scheme : scheme_allowed p u ≡ true
    pub no_username : u.username ≡ []
    pub no_password : u.password ≡ []
    pub rule :
        matches_host net (canonical_url_host net u.hostname) (hosts_for p purpose) ≡ some true

  is_blank-empty : (s : Text) → is_blank s ≡ true → s ≡ []
  is_blank-empty [] h = refl
  is_blank-empty (c ∷ s) h = absurd (ground (arith, h))

  name-url_of :
      (url u : ParsedUrl) (host : Text) (now : ℕ)
      → url_of (check_name p purpose url host now) ≡ some u
      → url ≡ u
  unfolding check_name
  name-url_of url u host now e = elim (Option-cases (lookup host p.safe_dns_cache)) [
    | inl n ↦ ground (arith, n, e)
    | inr (c, n) ↦ ground (arith, n, e)
  ]

  literal-url_of :
      (url u : ParsedUrl) (host : Text)
      → url_of (check_literal net p purpose url host) ≡ some u
      → url ≡ u
  unfolding check_literal
  literal-url_of url u host e = elim (Option-cases (classify_address net (unbracket host))) [
    | inl n ↦ absurd (ground (arith, n, e))
    | inr (c, n) ↦ elim (Option-cases (denied net p c)) [
      | inl d ↦ ground (arith, n, d, e)
      | inr (r, d) ↦ absurd (ground (arith, n, d, e))
    ]
  ]

  host-url_of :
      (url u : ParsedUrl) (host : Text) (now : ℕ) (m : Option Bool)
      → url_of (check_host net p purpose url host now m) ≡ some u
      → (url ≡ u) × (m ≡ some true)
  host-url_of url u host now none e = absurd (ground (arith, e))
  host-url_of url u host now (some false) e = absurd (ground (arith, e))
  host-url_of url u host now (some true) e = elim (Bool-cases (net.is_ip (unbracket host) == 0)) [
    | inl t ↦ (name-url_of url u host now (ground (arith, t, e)), refl)
    | inr f ↦ (literal-url_of url u host (ground (arith, f, e)), refl)
  ]

  parsed-Passed :
      (parsed : Option ParsedUrl) (u : ParsedUrl) (now : ℕ)
      → url_of (check_parsed net p purpose parsed now) ≡ some u
      → (parsed ≡ some u) × Passed u
  parsed-Passed none u now e = absurd (ground (arith, e))
  parsed-Passed (some url) u now e =
      let host = canonical_url_host net url.hostname in
      let (q, m) =
        host-url_of url u host now (matches_host net host (hosts_for p purpose))
          (ground (arith, e)) in
      (
        ap some q,
        subst Passed q (record {
          scheme = ground (arith, e);
          no_username = is_blank-empty url.username (ground (arith, e));
          no_password = is_blank-empty url.password (ground (arith, e));
          rule = m;
        }),
      )

-- The host rules of a configuration for a purpose, normalized: resources have the rules of
-- navigation, normalized once more, where they have none of their own.
abbrev rules_of_resources : Net → List Text → List Text → Option (List Text)
rules_of_resources net allowed [] = normalize_some net (normalize_all net allowed)
rules_of_resources net allowed (r ∷ rs) = normalize_all net (r ∷ rs)

abbrev pub rules_for : Net → UrlPolicyOptions → UrlPurpose → Option (List Text)
rules_for net o UrlPurpose.navigation = normalize_all net o.allowed_hosts
rules_for net o UrlPurpose.resource = rules_of_resources net o.allowed_hosts o.resource_hosts

module _ (net : Net) (o : UrlPolicyOptions) (purpose : UrlPurpose) where
  -- What a URL has to have, by the configuration.
  pub record Allowed (raw_url : Text) (u : ParsedUrl) : Type 0 where
    pub short : length raw_url ≤ 2048
    pub scheme :
        (to_lower u.protocol ≡ codes "https:")
        ⊎ ((to_lower u.protocol ≡ codes "http:") × (o.allow_http ≡ some true))
    pub no_username : u.username ≡ []
    pub no_password : u.password ≡ []
    pub rule :
        (hosts : List Text) × (rules_for net o purpose ≡ some hosts)
        × (matches_host net (canonical_url_host net u.hostname) hosts ≡ some true)

built :
    (o : UrlPolicyOptions) (a b : Option (List Text)) (p : UrlPolicy)
    → build o a b ≡ some p
    → (a ≡ some p.allowed_hosts)
      × (b ≡ some p.resource_hosts)
      × (p.allow_http ≡ or_else o.allow_http false)
built o none b p e = absurd (ground (arith, e))
built o (some a) none p e = absurd (ground (arith, e))
built o (some a) (some b) p e = (ground (arith, e), ground (arith, e), ground (arith, e))

given_true : (b : Option Bool) → or_else b false ≡ true → b ≡ some true
given_true none h = absurd (ground (arith, h))
given_true (some b) h = ap some h

resource_rules :
    (net : Net) (resources allowed : List Text)
    → rules_of_resources net allowed resources
      ≡ normalize_some net (resources_of resources (normalize_all net allowed))
resource_rules net [] allowed = refl
resource_rules net (r ∷ rs) allowed = refl

module _ (net : Net) (o : UrlPolicyOptions) (p : UrlPolicy) (c : create net o ≡ some p) where
  created-http : p.allow_http ≡ true → o.allow_http ≡ some true
  unfolding create
  created-http h =
      let (a, b, k) = built o (normalize_all net o.allowed_hosts) _ p c in
      given_true o.allow_http (ground (arith, k, h))

  created-rules : (purpose : UrlPurpose) → rules_for net o purpose ≡ some (hosts_for p purpose)
  unfolding create
  created-rules UrlPurpose.navigation = (built o (normalize_all net o.allowed_hosts) _ p c).0
  created-rules UrlPurpose.resource =
      resource_rules net o.resource_hosts o.allowed_hosts
      ∙ (built o (normalize_all net o.allowed_hosts) _ p c).1

  scheme-config :
      (u : ParsedUrl)
      → scheme_allowed p u ≡ true
      → (to_lower u.protocol ≡ codes "https:")
        ⊎ ((to_lower u.protocol ≡ codes "http:") × (o.allow_http ≡ some true))
  unfolding scheme_allowed
  scheme-config u h = elim (Bool-cases (text_eq (to_lower u.protocol) (codes "https:"))) [
    | inl t ↦ inl (text_eq_sound _ _ t)
    | inr f ↦ inr (text_eq_sound _ _ (ground (arith, f, h)), created-http (ground (arith, f, h)))
  ]

  -- A URL is approved, or DNS is asked for it, by the policy of a configuration only when the text is
  -- its URL for a valid purpose and has at most 2,048 characters, the scheme is https, or http where
  -- the configuration allows it, it has no user and no password, and its host matches a rule that the
  -- configuration gives for that purpose.
  pub check_url-Allowed :
      (input : UrlPurposeInput) (raw_url : Text) (now : ℕ) (u : ParsedUrl)
      → url_of (check_url net p input raw_url now) ≡ some u
      → (purpose : UrlPurpose) × (purpose_of input ≡ some purpose)
        × (net.parse_url raw_url ≡ some u)
        × Allowed net o purpose raw_url u
  unfolding check_url is_plain
  check_url-Allowed input raw_url now u e = elim (Option-cases (purpose_of input)) [
    | inl n ↦ absurd (ground (arith, n, e))
    | inr (purpose, k) ↦
        let (q, a) =
          parsed-Passed net p purpose (net.parse_url raw_url) u now (ground (arith, k, e)) in
        (
          purpose,
          k,
          q,
          record {
            short = ground (arith, k, e);
            scheme = scheme-config u a.scheme;
            no_username = a.no_username;
            no_password = a.no_password;
            rule = (hosts_for p purpose, created-rules purpose, a.rule);
          },
        )
  ]

-- ===== src/Url/Approval.antt =====
-- What the addresses that `UrlPolicy` (src/policy/url-policy.ts) approves went through, over any
-- history of calls, with the queries of other calls in between.
use mathlib.Core.Sum.{inl-injective}
use mathlib.Core.Option.{some-injective}
use antigravity_browser.Base.{
  ℕ, ◌≡◌, refl, subst, ◌⊎◌, inl, inr, Bool, true, false, Option, none, some, List, [], ◌∷◌, arith,
  leb, ◌==◌, if◌then◌else◌, length, Text, text_eq, Bool-cases, Option-cases, lookup, Dict, insert,
  sum-cases,
}
use antigravity_browser.Url.Ipv6.{Net, Classification, classify_address, unbracket, ParsedUrl}
use antigravity_browser.Url.Policy.{
  fails, not_an_array, answers, Lookup, UrlPolicy, DnsAnswer, Cached, denied, ResolvedDestination,
  UrlError, UrlPurpose, UrlPurposeInput, approved, answers,
}
use antigravity_browser.Url.Resolve.{
  take_answers, canonical_address, check_answer, check_answers, evict, check_url, check_name,
  check_literal, check_parsed, check_host, purpose_of, hosts_for,
}
use antigravity_browser.Url.Hosts.{canonical_url_host, matches_host}

-- An address that a classification let through, in the canonical form or as it was.
abbrev pub Vetted : Net → UrlPolicy → Text → Type 0
Vetted net p a =
    (s : Text) × (c : Classification) × ((a ≡ s) ⊎ (a ≡ canonical_address net s))
    × (classify_address net s ≡ some c)
    × (denied net p c ≡ none)

-- Each of a list.
abbrev pub AllVetted : Net → UrlPolicy → List Text → Type 0
AllVetted net p [] = Unit {0}
AllVetted net p (a ∷ rest) = Vetted net p a × AllVetted net p rest

-- Each that a cache holds.
abbrev pub CacheVetted : Net → UrlPolicy → Dict Cached → Type 0
CacheVetted net p [] = Unit {0}
CacheVetted net p ((host, c) ∷ m) = AllVetted net p c.addresses × CacheVetted net p m

module _ (net : Net) (p : UrlPolicy) where
  lookup-AllVetted :
      (host : Text) (m : Dict Cached) (c : Cached)
      → CacheVetted net p m
      → lookup host m ≡ some c
      → AllVetted net p c.addresses
  unfolding lookup
  lookup-AllVetted host [] c v e = cc
  lookup-AllVetted host ((h, d) ∷ m) c (v, w) e = elim (Bool-cases (text_eq h host)) [
    | inl t ↦
        subst (λ k. AllVetted net p k.addresses)
          (some-injective d c (subst (λ b. (if b then some d else lookup host m) ≡ some c) t e)) v
    | inr f ↦
        lookup-AllVetted host m c w
          (subst (λ b. (if b then some d else lookup host m) ≡ some c) f e)
  ]

  pub insert-CacheVetted :
      (host : Text) (m : Dict Cached) (c : Cached)
      → AllVetted net p c.addresses
      → CacheVetted net p m
      → CacheVetted net p (insert host c m)
  unfolding insert
  insert-CacheVetted host [] c v w = (v, w)
  insert-CacheVetted host ((h, d) ∷ m) c v (x, w) = elim (Bool-cases (text_eq h host)) [
    | inl t ↦ rw t (v, w)
    | inr f ↦ rw f (x, insert-CacheVetted host m c v w)
  ]

  pub evict-CacheVetted : (m : Dict Cached) → CacheVetted net p m → CacheVetted net p (evict m)
  evict-CacheVetted [] w = w
  evict-CacheVetted ((h, d) ∷ m) (x, w) = elim (Bool-cases (leb 500 (length ((h, d) ∷ m)))) [
    | inl t ↦ rw t w
    | inr f ↦ rw f (x, w)
  ]

  answer-Vetted :
      (l : Lookup) (entry : Option Text) (a : Text)
      → check_answer net p l entry ≡ inl a
      → Vetted net p a
  answer-Vetted l none a e = cc
  answer-Vetted l (some s) a e = elim (Option-cases (classify_address net (unbracket s))) [
    | inl n ↦ absurd (ground (arith, n, e))
    | inr (c, k) ↦ elim (Option-cases (denied net p c)) [
      | inl d ↦ (unbracket s, c, inr (ground (arith, k, d, e)), k, d)
      | inr (r, d) ↦ absurd (ground (arith, k, d, e))
    ]
  ]

  pub answers-AllVetted :
      (l : Lookup) (entries : List (Option Text)) (addresses : List Text)
      → check_answers net p l entries ≡ inl addresses
      → AllVetted net p addresses
  unfolding check_answers
  answers-AllVetted l [] addresses e = subst (AllVetted net p) (inl-injective [] addresses e) tt
  answers-AllVetted l (x ∷ xs) addresses e = elim (sum-cases (check_answer net p l x)) [
    | inr (f, k) ↦ absurd (ground (arith, k, e))
    | inl (a, k) ↦ elim (sum-cases (check_answers net p l xs)) [
      | inr (f, q) ↦ absurd (ground (arith, k, q, e))
      | inl (rest, q) ↦
          subst (AllVetted net p)
            (inl-injective {B = UrlError} (a ∷ rest) addresses (ground (arith, k, q, e)))
            (answer-Vetted l x a k, answers-AllVetted l xs rest q)
    ]
  ]

  -- The cache answers, not DNS.
  name-AllVetted :
      (purpose : UrlPurpose) (url : ParsedUrl) (host : Text) (now : ℕ) (d : ResolvedDestination)
      → CacheVetted net p p.safe_dns_cache
      → check_name p purpose url host now ≡ approved d
      → AllVetted net p d.addresses
  unfolding check_name
  name-AllVetted purpose url host now d w e = elim (Option-cases (lookup host p.safe_dns_cache)) [
    | inl n ↦ absurd (ground (arith, n, e))
    | inr (c, k) ↦
        subst (AllVetted net p) (ground (arith, k, e))
          (lookup-AllVetted host p.safe_dns_cache c w k)
  ]

  literal-AllVetted :
      (purpose : UrlPurpose) (url : ParsedUrl) (host : Text) (d : ResolvedDestination)
      → check_literal net p purpose url host ≡ approved d
      → AllVetted net p d.addresses
  unfolding check_literal
  literal-AllVetted purpose url host d e =
      elim (Option-cases (classify_address net (unbracket host))) [
        | inl n ↦ absurd (ground (arith, n, e))
        | inr (c, k) ↦ elim (Option-cases (denied net p c)) [
          | inl q ↦
              subst (AllVetted net p) {x = unbracket host ∷ []} (ground (arith, k, q, e))
                ((unbracket host, c, inl refl, k, q), tt)
          | inr (r, q) ↦ absurd (ground (arith, k, q, e))
        ]
      ]

  host-AllVetted :
      (purpose : UrlPurpose) (url : ParsedUrl) (host : Text) (now : ℕ) (m : Option Bool)
      (d : ResolvedDestination)
      → CacheVetted net p p.safe_dns_cache
      → check_host net p purpose url host now m ≡ approved d
      → AllVetted net p d.addresses
  host-AllVetted purpose url host now none d w e = cc
  host-AllVetted purpose url host now (some false) d w e = cc
  host-AllVetted purpose url host now (some true) d w e =
      elim (Bool-cases (net.is_ip (unbracket host) == 0)) [
        | inl t ↦ name-AllVetted purpose url host now d w (ground (arith, t, e))
        | inr f ↦ literal-AllVetted purpose url host d (ground (arith, f, e))
      ]

  parsed-AllVetted :
      (purpose : UrlPurpose) (parsed : Option ParsedUrl) (now : ℕ) (d : ResolvedDestination)
      → CacheVetted net p p.safe_dns_cache
      → check_parsed net p purpose parsed now ≡ approved d
      → AllVetted net p d.addresses
  parsed-AllVetted purpose none now d w e = cc
  parsed-AllVetted purpose (some url) now d w e =
      let host = canonical_url_host net url.hostname in
      host-AllVetted purpose url host now (matches_host net host (hosts_for p purpose)) d w
        (ground (arith, e))

  pub url-AllVetted :
      (input : UrlPurposeInput) (raw_url : Text) (now : ℕ) (d : ResolvedDestination)
      → CacheVetted net p p.safe_dns_cache
      → check_url net p input raw_url now ≡ approved d
      → AllVetted net p d.addresses
  unfolding check_url
  url-AllVetted input raw_url now d w e = elim (Option-cases (purpose_of input)) [
    | inl n ↦ absurd (ground (arith, n, e))
    | inr (purpose, k) ↦
        parsed-AllVetted purpose (net.parse_url raw_url) now d w (ground (arith, k, e))
  ]

  pub taken-AllVetted :
      (l : Lookup) (a : DnsAnswer) (d : ResolvedDestination) (q : UrlPolicy)
      → take_answers net p l a ≡ (approved d, q)
      → AllVetted net p d.addresses
  unfolding take_answers
  taken-AllVetted l fails d q e = absurd (ground (arith, e))
  taken-AllVetted l not_an_array d q e = absurd (ground (arith, e))
  taken-AllVetted l (answers []) d q e = absurd (ground (arith, e))
  taken-AllVetted l (answers (x ∷ xs)) d q e = elim (sum-cases (check_answers net p l (x ∷ xs))) [
    | inl (rest, k) ↦
        subst (AllVetted net p) (ground (arith, k, e)) (answers-AllVetted l (x ∷ xs) rest k)
    | inr (f, k) ↦ absurd (ground (arith, k, e))
  ]

-- ===== src/Url/History.antt =====
-- The cache of `UrlPolicy` (src/policy/url-policy.ts) over any history of calls, with the queries of
-- other calls in between, and what holds of an approved destination.
use antigravity_browser.Base.{
  ℕ, ◌≡◌, refl, ◌∙◌, sym, subst, inl, inr, Option, none, some, List, [], ◌∷◌, arith, Text,
  Bool-cases, ◌⊎◌, sum-cases,
}
use antigravity_browser.Url.Policy.{
  fails, not_an_array, answers, create, Lookup, UrlPolicyOptions, DnsAnswer, UrlPolicy,
  is_private_exception, UrlPurposeInput, ResolvedDestination, approved, build, normalize_some,
  resources_of,
}
use antigravity_browser.Url.Ipv6.{Net}
use antigravity_browser.Url.Resolve.{
  remember, take_answers, clear_dns_cache, check_answers, evict, entry_of, check_url,
}
use antigravity_browser.Url.Approval.{
  CacheVetted, AllVetted, insert-CacheVetted, answers-AllVetted, evict-CacheVetted, url-AllVetted,
  taken-AllVetted,
}
use antigravity_browser.Url.Hosts.{normalize_all}

-- What may happen to a policy: answers come for a query, or the cache is cleared.
pub data Event : Type 0 where
  answered : Lookup → DnsAnswer → Event
  cleared : Event

unfoldable pub step : Net → UrlPolicy → Event → UrlPolicy
step net p (answered l a) = (take_answers net p l a).1
step net p cleared = clear_dns_cache p

unfoldable pub run : Net → UrlPolicy → List Event → UrlPolicy
unfolding step
run net p [] = p
run net p (e ∷ es) = run net (step net p e) es

-- What the cache holds was let through.
abbrev CacheInv : Net → UrlPolicy → Type 0
CacheInv net p = CacheVetted net p p.safe_dns_cache

module _ (net : Net) where
  remember-CacheInv :
      (p : UrlPolicy) (l : Lookup) (addresses : List Text)
      → AllVetted net p addresses
      → CacheInv net p
      → CacheInv net (remember p l addresses)
  unfolding remember is_private_exception
  remember-CacheInv p l addresses v w = elim (Bool-cases p.has_resolver) [
    | inl t ↦ rw t w
    | inr f ↦ rw f (
        insert-CacheVetted net p l.host (evict p.safe_dns_cache) (entry_of l addresses) v
          (evict-CacheVetted net p p.safe_dns_cache w))
  ]

  taken-CacheInv :
      (p : UrlPolicy) (l : Lookup) (a : DnsAnswer)
      → CacheInv net p
      → CacheInv net (take_answers net p l a).1
  unfolding take_answers
  taken-CacheInv p l fails w = w
  taken-CacheInv p l not_an_array w = w
  taken-CacheInv p l (answers []) w = w
  taken-CacheInv p l (answers (x ∷ xs)) w = elim (sum-cases (check_answers net p l (x ∷ xs))) [
    | inl (rest, k) ↦
        subst (CacheInv net) {x = remember p l rest} (ground (arith, k))
          (remember-CacheInv p l rest (answers-AllVetted net p l (x ∷ xs) rest k) w)
    | inr (f, k) ↦ subst (CacheInv net) {x = p} (ground (arith, k)) w
  ]

  run-CacheInv : (p : UrlPolicy) (es : List Event) → CacheInv net p → CacheInv net (run net p es)
  unfolding run step clear_dns_cache
  run-CacheInv p [] w = w
  run-CacheInv p (answered l a ∷ es) w =
      run-CacheInv (step net p (answered l a)) es (taken-CacheInv p l a w)
  run-CacheInv p (cleared ∷ es) w = run-CacheInv (clear_dns_cache p) es tt

  build-empty :
      (o : UrlPolicyOptions) (a b : Option (List Text)) (p : UrlPolicy)
      → build o a b ≡ some p
      → p.safe_dns_cache ≡ []
  build-empty o none b p e = absurd (ground (arith, e))
  build-empty o (some a) none p e = absurd (ground (arith, e))
  build-empty o (some a) (some b) p e = ground (arith, e)

  create-CacheInv : (o : UrlPolicyOptions) (p : UrlPolicy) → create net o ≡ some p → CacheInv net p
  unfolding create
  create-CacheInv o p e =
      let allowed = normalize_all net o.allowed_hosts in
      let resources = normalize_some net (resources_of o.resource_hosts allowed) in
      subst (CacheVetted net p) (sym (build-empty o allowed resources p e)) tt

  -- An approval: at once, from a literal or the cache, or by the answers to a query.
  abbrev pub Approves : UrlPolicy → ResolvedDestination → Type 0
  Approves p d =
      ((input : UrlPurposeInput) × (raw_url : Text) × (now : ℕ) × (check_url net p input raw_url now
          ≡ approved d))
      ⊎ ((l : Lookup) × (a : DnsAnswer) × (q : UrlPolicy) × (take_answers net p l a
            ≡ (approved d, q)))

  -- Whatever happened since the policy was created, each address that it approves is one that a
  -- classification let through under the settings of the policy.
  pub approved-AllVetted :
      (o : UrlPolicyOptions) (p : UrlPolicy) (es : List Event) (d : ResolvedDestination)
      → create net o ≡ some p
      → Approves (run net p es) d
      → AllVetted net (run net p es) d.addresses
  approved-AllVetted o p es d c (inl (input, raw_url, now, e)) =
      url-AllVetted net (run net p es) input raw_url now d
        (run-CacheInv p es (create-CacheInv o p c)) e
  approved-AllVetted o p es d c (inr (l, a, q, e)) = taken-AllVetted net (run net p es) l a d q e

  abbrev SameSettings : UrlPolicy → UrlPolicy → Type 0
  SameSettings q p =
      (q.allow_private_network ≡ p.allow_private_network)
      × (q.allow_synthetic_tunnel ≡ p.allow_synthetic_tunnel)

  taken-settings :
      (p : UrlPolicy) (l : Lookup) (a : DnsAnswer) → SameSettings (take_answers net p l a).1 p
  unfolding take_answers remember
  taken-settings p l fails = (refl, refl)
  taken-settings p l not_an_array = (refl, refl)
  taken-settings p l (answers []) = (refl, refl)
  taken-settings p l (answers (x ∷ xs)) = elim (sum-cases (check_answers net p l (x ∷ xs))) [
    | inl (rest, k) ↦ (ground (arith, k), ground (arith, k))
    | inr (f, k) ↦ (ground (arith, k), ground (arith, k))
  ]

  -- No event changes the settings.
  pub run-settings : (p : UrlPolicy) (es : List Event) → SameSettings (run net p es) p
  unfolding run step clear_dns_cache
  run-settings p [] = (refl, refl)
  run-settings p (answered l a ∷ es) =
      let (h, k) = run-settings (step net p (answered l a)) es in
      let (i, j) = taken-settings p l a in (h ∙ i, k ∙ j)
  run-settings p (cleared ∷ es) = run-settings (clear_dns_cache p) es

-- ===== src/Queue/Urls.antt =====
-- The claims of URLs: exclusive until they run out, all or nothing, and undone by a release.
use antigravity_browser.Base.{
  ℕ, ◌+◌, ◌*◌, ◌<◌, ◌≡◌, refl, sym, subst, ◌≢◌, inl, inr, true, false, Option, none, some, List, [],
  ◌∷◌, arith, if◌then◌else◌, Text, Dict, lookup, insert, lookup-insert, delete, text_eq_iff,
  lookup-delete,
}
use antigravity_browser.Queue.Types.{Adapter, ok, Result-cases}
use antigravity_browser.Tenant.{task_key, text_eq-task_key}
use antigravity_browser.Queue.Claims.{
  set_claims, delete_claims, any_claimed, claim_urls, is_claimed, release_urls,
}
use antigravity_browser.Queue.Adapter.{includes, checked_tenant}

-- Claiming sets the deadline of exactly the keys that are named.
lookup-set_claims :
    (id : Text) (us : List Text) (t : ℕ) (seen : Dict ℕ) (u : Text)
    → lookup (task_key id u) (set_claims id us t seen)
      ≡ (if includes u us then some t else lookup (task_key id u) seen)
unfolding set_claims includes
lookup-set_claims id [] t seen u = refl
lookup-set_claims id (v ∷ us) t seen u = ground (
  arith,
  lookup-set_claims id us t (insert (task_key id v) t seen) u,
  lookup-insert (task_key id v) (task_key id u) t seen,
  text_eq-task_key id v u,
)

-- A release drops exactly the keys that are named.
lookup-delete_claims :
    (id : Text) (us : List Text) (seen : Dict ℕ) (u : Text)
    → lookup (task_key id u) (delete_claims id us seen)
      ≡ (if includes u us then none else lookup (task_key id u) seen)
unfolding delete_claims includes
lookup-delete_claims id [] seen u = refl
lookup-delete_claims id (v ∷ us) seen u = ground (
  arith,
  lookup-delete_claims id us (delete (task_key id v) seen) u,
  lookup-delete (task_key id v) (task_key id u) seen,
  text_eq-task_key id v u,
)

pub any_claimed_lem :
    (seen : Dict ℕ) (id : Text) (us : List Text) (now : ℕ) (u : Text)
    → includes u us ≡ true
    → is_claimed seen (task_key id u) now ≡ true
    → any_claimed seen id us now ≡ true
unfolding any_claimed includes
any_claimed_lem seen id [] now u h c = cc
any_claimed_lem seen id (v ∷ us) now u h c =
    ground (arith, any_claimed_lem seen id us now u, text_eq_iff v u)

pub claim_urls_inv :
    (us : List Text) (ttl : ℕ) (tenant : Option Text) (now : ℕ) (q q' : Adapter)
    → claim_urls us ttl tenant now q ≡ (ok true, q')
    → (id : Text) × (checked_tenant tenant ≡ ok id)
      × (any_claimed q.seen_urls id us now ≡ false)
      × (q' ≡ record q { seen_urls = set_claims id us (now + ttl * 1000) q.seen_urls })
unfolding claim_urls
claim_urls_inv us ttl tenant now q q' e = elim (Result-cases (checked_tenant tenant)) [
  | inl (id, c) ↦ (id, c, ground (arith, c), ground (arith, c))
  | inr (x, c) ↦ absurd (ground (arith, c))
]

pub claimed_after :
    (id : Text) (us : List Text) (t now : ℕ) (seen : Dict ℕ) (u : Text)
    → includes u us ≡ true
    → now < t
    → is_claimed (set_claims id us t seen) (task_key id u) now ≡ true
unfolding is_claimed
claimed_after id us t now seen u h early = ground (arith, lookup-set_claims id us t seen u)

-- A claim that succeeds is exclusive: right after it, and until it runs out, a claim of the tenant
-- with a positive TTL that names one of its URLs is refused and changes nothing.
pub claim_exclusive :
    (us vs : List Text) (ttl ttl' : ℕ) (tenant : Option Text) (now now' : ℕ) (q q' : Adapter)
    (u : Text)
    → claim_urls us ttl tenant now q ≡ (ok true, q')
    → includes u us ≡ true
    → includes u vs ≡ true
    → now' < now + ttl * 1000
    → 0 < ttl'
    → claim_urls vs ttl' tenant now' q' ≡ (ok false, q')
unfolding claim_urls includes
claim_exclusive us vs ttl ttl' tenant now now' q q' u e h k early pos =
    let (id, c, _, set) = claim_urls_inv us ttl tenant now q q' e in
    let named = any_claimed_lem q'.seen_urls id vs now' u k (
      subst (λ (r : Adapter). is_claimed r.seen_urls (task_key id u) now' ≡ true) (sym set)
        (claimed_after id us _ now' q.seen_urls u h early)) in
    ground (arith, c, named)

-- A claim that is refused, or that throws, changes nothing.
pub claim_urls_refused :
    (us : List Text) (ttl : ℕ) (tenant : Option Text) (now : ℕ) (q : Adapter)
    → (claim_urls us ttl tenant now q).0 ≢ ok true
    → (claim_urls us ttl tenant now q).1 ≡ q
unfolding claim_urls
claim_urls_refused us ttl tenant now q h = ground arith

-- The compensation of a claim: after `releaseUrls` of the same batch none of its URLs has a claim
-- left, and the entry of every other URL of the tenant is the one from before the claim.
pub claim-release :
    (us : List Text) (ttl : ℕ) (tenant : Option Text) (id : Text) (now : ℕ) (q q' : Adapter)
    (u : Text)
    → checked_tenant tenant ≡ ok id
    → claim_urls us ttl tenant now q ≡ (ok true, q')
    → ((release_urls us tenant q').0 ≡ ok tt)
      × (lookup (task_key id u) (release_urls us tenant q').1.seen_urls
          ≡ (if includes u us then none else lookup (task_key id u) q.seen_urls))
unfolding claim_urls release_urls
claim-release us ttl tenant id now q q' u c e = ground (
  arith,
  c,
  lookup-delete_claims id us (set_claims id us (now + ttl * 1000) q.seen_urls) u,
  lookup-set_claims id us (now + ttl * 1000) q.seen_urls u,
)

-- ===== src/Url/Metadata.antt =====
-- The addresses of the metadata services, which `UrlPolicy` (src/policy/url-policy.ts) never approves.
use antigravity_browser.Base.{
  ℕ, zero, suc, ◌+◌, ◌-◌, ◌*◌, ◌/◌, ◌%◌, ◌≤◌, ◌<◌, min, max, ◌≡◌, refl, sym, ap, ◌∙◌, subst, ◌≢◌,
  ◌↔◌, ◌⊎◌, inl, inr, Bool, true, false, not, ◌&&◌, ◌||◌, Option, none, some, List, [], ◌∷◌, ◌++◌,
  map, arith, ltb, leb, ◌==◌, if◌then◌else◌, length, any, take, drop, Text, text_eq, is_some,
  or_else, Bool-cases, Option-cases, codes,
}
use antigravity_browser.Base.{to_lower, member, text_eq_sound}
use antigravity_browser.Url.Ipv4.{classify_ipv4, Reason}
use antigravity_browser.Url.Ipv6.{
  classify_groups, unbracket, classify_address, Net, Classification, canonical_ipv6, parse_ipv6,
  is_ipv4_mapped, metadata_ipv6,
}
use antigravity_browser.Url.Policy.{
  is_private_exception, UrlPolicyOptions, UrlPolicy, denied, is_metadata, ResolvedDestination,
  create, is_synthetic_tunnel_address, is_reserved,
}
use antigravity_browser.Url.Resolve.{canonical_address}
use antigravity_browser.Url.History.{Event, Approves, run, approved-AllVetted}
use antigravity_browser.Url.Approval.{Vetted}
use antigravity_browser.Url.Addresses.{member-Vetted}

spared-metadata :
    (tunnel other : Bool) (o : Option Reason)
    → (if (if tunnel then is_reserved o else other && not (is_metadata o)) then none else o) ≡ none
    → is_metadata o ≡ false
spared-metadata tunnel other none e = refl
spared-metadata tunnel other (some Reason.metadata) e = ground arith
spared-metadata tunnel other (some Reason.reserved) e = refl
spared-metadata tunnel other (some Reason.loopback) e = refl
spared-metadata tunnel other (some Reason.private) e = refl
spared-metadata tunnel other (some Reason.link_local) e = refl
spared-metadata tunnel other (some Reason.multicast) e = refl

denied-metadata :
    (net : Net) (p : UrlPolicy) (k : Classification)
    → denied net p k ≡ none
    → is_metadata k.reason ≡ false
unfolding is_private_exception
denied-metadata net p k e =
    spared-metadata (p.allow_synthetic_tunnel && is_synthetic_tunnel_address net k.address)
      p.allow_private_network k.reason e

-- AWS, its containers and its pods, Alibaba Cloud, Azure.
abbrev pub metadata_services : List Text
metadata_services =
    codes "169.254.169.254"
    ∷ codes "169.254.170.2"
    ∷ codes "169.254.170.23"
    ∷ codes "100.100.100.200"
    ∷ codes "168.63.129.16"
    ∷ []

-- AWS, and the link-local form of its IPv4 address.
abbrev pub metadata_services_v6 : List Text
metadata_services_v6 = codes "fd00:ec2::254" ∷ codes "fe80::a9fe:a9fe" ∷ []

abbrev Each : (Text → Type 0) → List Text → Type 0
Each P [] = Unit {0}
Each P (x ∷ xs) = P x × Each P xs

member-Each : (P : Text → Type 0) (x : Text) (xs : List Text) → Each P xs → member x xs ≡ true → P x
unfolding member
member-Each P x [] v m = absurd (ground (arith, m))
member-Each P x (y ∷ ys) (v, w) m = elim (Bool-cases (text_eq y x)) [
  | inl t ↦ subst P (text_eq_sound y x t) v
  | inr f ↦ member-Each P x ys w (ground (arith, m, f))
]

abbrev IsKnown : Text → Type 0
IsKnown v = (to_lower (unbracket v) ≡ v) × (classify_ipv4 v ≡ some Reason.metadata)

abbrev IsKnown6 : Net → Text → Type 0
IsKnown6 net v =
    (to_lower (unbracket v) ≡ v)
    × (member v metadata_ipv6 ≡ true)
    × ((gs : List ℕ) × (parse_ipv6 net v ≡ some gs) × (is_ipv4_mapped gs ≡ none))

known : Each IsKnown metadata_services
unfolding to_lower unbracket classify_ipv4 antigravity_browser.Base.starts_with
    antigravity_browser.Base.split_on antigravity_browser.Url.Ipv4.classify_octets member text_eq
    antigravity_browser.Base.show_decimal
known = ((refl, refl), ((refl, refl), ((refl, refl), ((refl, refl), ((refl, refl), tt)))))

known6 : (net : Net) → Each (IsKnown6 net) metadata_services_v6
unfolding to_lower unbracket parse_ipv6 antigravity_browser.Base.starts_with member text_eq
    antigravity_browser.Base.has_char antigravity_browser.Base.split_on
    antigravity_browser.Url.Ipv6.hex_value is_ipv4_mapped
known6 net = ((refl, refl, (_, refl, refl)), ((refl, refl, (_, refl, refl)), tt))

module _ (net : Net) (p : UrlPolicy) (v : Text) where
  reason-known :
      (c : Classification)
      → net.is_ip v ≡ 4
      → IsKnown v
      → classify_address net v ≡ some c
      → c.reason ≡ some Reason.metadata
  unfolding classify_address
  reason-known c i (l, k) e = ground (arith, i, l, k, e)

  -- What is not IPv6 is approved as it was.
  IsKnown-Vetted :
      ((s : Text) → net.is_ip s ≡ 6 → net.is_ip (canonical_ipv6 net s) ≡ 6)
      → net.is_ip v ≡ 4
      → IsKnown v
      → Vetted net p v
      → true ≡ false
  unfolding canonical_address
  IsKnown-Vetted stays i k (s, c, inl q, e, n) =
      ground (arith, reason-known c i k (rw q e), denied-metadata net p c n)
  IsKnown-Vetted stays i k (s, c, inr q, e, n) = elim (Bool-cases (net.is_ip s == 6)) [
    | inl t ↦ absurd (ground (arith, t, q, i, stays s))
    | inr f ↦
        ground (arith, reason-known c i k (ground (arith, f, q, e)), denied-metadata net p c n)
  ]

  reason-known6 :
      (s : Text) (c : Classification)
      → net.is_ip (to_lower (unbracket s)) ≡ 6
      → canonical_ipv6 net (to_lower (unbracket s)) ≡ v
      → parse_ipv6 net (to_lower (unbracket s)) ≡ parse_ipv6 net v
      → IsKnown6 net v
      → classify_address net s ≡ some c
      → c.reason ≡ some Reason.metadata
  unfolding classify_address classify_groups
  reason-known6 s c i h g (l, m, (gs, k, o)) e = ground (arith, i, h, g, m, k, o, e)

  IsKnown6-Vetted :
      ((s : Text)
        → net.is_ip s ≡ 6
        → (net.is_ip (to_lower (unbracket s)) ≡ 6)
          × (canonical_ipv6 net (to_lower (unbracket s)) ≡ canonical_ipv6 net s))
      → ((s : Text) → net.is_ip s ≡ 6 → parse_ipv6 net (canonical_ipv6 net s) ≡ parse_ipv6 net s)
      → net.is_ip v ≡ 6
      → canonical_ipv6 net v ≡ v
      → IsKnown6 net v
      → Vetted net p v
      → true ≡ false
  unfolding canonical_address
  IsKnown6-Vetted lowers groups i h k (s, c, inl q, e, n) = ground (
    arith,
    reason-known6 v c (ground (arith, k.0, i)) (ground (arith, k.0, h)) (ground (arith, k.0)) k
        (rw q e),
    denied-metadata net p c n,
  )
  IsKnown6-Vetted lowers groups i h k (s, c, inr q, e, n) = elim (Bool-cases (net.is_ip s == 6)) [
    | inl t ↦
        let (x, y) = lowers s (ground (arith, t)) in
        let z = groups (to_lower (unbracket s)) x in
        ground (
          arith,
          reason-known6 s c x (ground (arith, t, q, y)) (ground (arith, t, q, y, z)) k e,
          denied-metadata net p c n,
        )
    | inr f ↦
        let same : v ≡ s = ground (arith, f, q) in
        ground (
          arith,
          reason-known6 v c (ground (arith, k.0, i)) (ground (arith, k.0, h)) (ground (arith, k.0))
              k (rw same e),
          denied-metadata net p c n,
        )
  ]

not_member : (b : Bool) → (b ≡ true → true ≡ false) → b ≡ false
not_member true h = h refl
not_member false h = refl

-- Whatever the exceptions that a policy makes and whatever happened to it, it approves none of these
-- addresses of metadata services: 169.254.169.254, 169.254.170.2, 169.254.170.23, 100.100.100.200,
-- 168.63.129.16, fd00:ec2::254 and fe80::a9fe:a9fe. `isIP` knows the address; the URL parser writes
-- an IPv6 address as one, in one way however it is spelled, and keeps its groups.
pub metadata_is_never_approved :
    (net : Net) (o : UrlPolicyOptions) (p : UrlPolicy) (es : List Event) (r : ResolvedDestination)
    (service : Text)
    → ((s : Text) → net.is_ip s ≡ 6 → net.is_ip (canonical_ipv6 net s) ≡ 6)
    → ((s : Text)
        → net.is_ip s ≡ 6
        → (net.is_ip (to_lower (unbracket s)) ≡ 6)
          × (canonical_ipv6 net (to_lower (unbracket s)) ≡ canonical_ipv6 net s))
    → ((s : Text) → net.is_ip s ≡ 6 → parse_ipv6 net (canonical_ipv6 net s) ≡ parse_ipv6 net s)
    → create net o ≡ some p
    → Approves net (run net p es) r
    → ((member service metadata_services ≡ true) × (net.is_ip service ≡ 4))
      ⊎ ((member service metadata_services_v6 ≡ true)
          × (net.is_ip service ≡ 6)
          × (canonical_ipv6 net service ≡ service))
    → member service r.addresses ≡ false
metadata_is_never_approved net o p es r service stays lowers groups q w (inl (m, i)) =
    not_member (member service r.addresses) λ t.
      IsKnown-Vetted net (run net p es) service stays i
        (member-Each IsKnown service metadata_services known m)
        (member-Vetted net (run net p es) service r.addresses (approved-AllVetted net o p es r q w)
          t)
metadata_is_never_approved net o p es r service stays lowers groups q w (inr (m, i, h)) =
    not_member (member service r.addresses) λ t.
      IsKnown6-Vetted net (run net p es) service lowers groups i h
        (member-Each (IsKnown6 net) service metadata_services_v6 (known6 net) m)
        (member-Vetted net (run net p es) service r.addresses (approved-AllVetted net o p es r q w)
          t)

-- ===== src/Url/Addresses.antt =====
-- What the IPv4 addresses are that `UrlPolicy` (src/policy/url-policy.ts) approves.
use antigravity_browser.Base.{
  ℕ, ◌<◌, ◌≡◌, refl, ap, ◌∙◌, subst, inl, inr, true, false, none, some, List, [], ◌∷◌, ◌++◌, arith,
  ◌==◌, Text, text_eq, Bool-cases, to_lower, lower_char, show_decimal, starts_with, member,
  text_eq_sound,
}
use antigravity_browser.Url.Ipv4.{dotted, classify_ipv4}
use antigravity_browser.Url.Ipv6.{unbracket, classify_address, Net, Classification, canonical_ipv6}
use antigravity_browser.Url.Policy.{
  is_private_exception, UrlPolicyOptions, UrlPolicy, denied, ResolvedDestination, create,
}
use antigravity_browser.Url.Resolve.{canonical_address}
use antigravity_browser.Url.History.{Event, Approves, run, run-settings, approved-AllVetted}
use antigravity_browser.Url.Approval.{AllVetted, Vetted}
use antigravity_browser.Url.Blocks.{is_protected, value, classify_ipv4-is_protected}

pub to_lower-append : (s t : Text) → to_lower (s ++ t) ≡ to_lower s ++ to_lower t
unfolding to_lower
to_lower-append [] t = refl
to_lower-append (c ∷ s) t = ap (λ r. lower_char c ∷ r) (to_lower-append s t)

to_lower-show_decimal : (n : ℕ) → n < 1000 → to_lower (show_decimal n) ≡ show_decimal n
unfolding to_lower show_decimal
to_lower-show_decimal n h = ground arith

unbracket-show_decimal :
    (n : ℕ) (s : Text) → n < 1000 → unbracket (show_decimal n ++ s) ≡ show_decimal n ++ s
unfolding unbracket show_decimal starts_with
unbracket-show_decimal n s h = ground arith

module _ (a b c d : ℕ) (ha : a < 256) (hb : b < 256) (hc : c < 256) (hd : d < 256) where
  pub unbracket-dotted : unbracket (dotted a b c d) ≡ dotted a b c d
  unfolding dotted
  unbracket-dotted = unbracket-show_decimal a _ (omega (arith, ha))

  pub to_lower-dotted : to_lower (dotted a b c d) ≡ dotted a b c d
  unfolding dotted to_lower
  to_lower-dotted = ground (
    arith,
    to_lower-append (show_decimal a)
        (46 ∷ (show_decimal b ++ (46 ∷ (show_decimal c ++ (46 ∷ show_decimal d))))),
    to_lower-append (show_decimal b) (46 ∷ (show_decimal c ++ (46 ∷ show_decimal d))),
    to_lower-append (show_decimal c) (46 ∷ show_decimal d),
    to_lower-show_decimal a (omega (arith, ha)),
    to_lower-show_decimal b (omega (arith, hb)),
    to_lower-show_decimal c (omega (arith, hc)),
    to_lower-show_decimal d (omega (arith, hd)),
  )

  classify_address-dotted :
      (net : Net)
      → net.is_ip (dotted a b c d) ≡ 4
      → (k : Classification) → classify_address net (dotted a b c d) ≡ some k
      → k.reason ≡ classify_ipv4 (dotted a b c d)
  unfolding classify_address
  classify_address-dotted net v k e = ground (arith, unbracket-dotted, to_lower-dotted)

  -- What was let through is the address itself.
  Vetted-dotted :
      (net : Net) (p : UrlPolicy)
      → ((s : Text) → net.is_ip s ≡ 6 → net.is_ip (canonical_ipv6 net s) ≡ 6)
      → net.is_ip (dotted a b c d) ≡ 4
      → Vetted net p (dotted a b c d)
      → (k : Classification) × (k.reason ≡ classify_ipv4 (dotted a b c d)) × (denied net p k ≡ none)
  unfolding canonical_address
  Vetted-dotted net p h v (s, k, inl q, e, n) = (k, classify_address-dotted net v k (rw q e), n)
  Vetted-dotted net p h v (s, k, inr q, e, n) = elim (Bool-cases (net.is_ip s == 6)) [
    | inl t ↦ absurd (ground (arith, t, q, v, h s))
    | inr f ↦ (k, classify_address-dotted net v k (ground (arith, f, q, e)), n)
  ]

pub member-Vetted :
    (net : Net) (p : UrlPolicy) (x : Text) (xs : List Text)
    → AllVetted net p xs
    → member x xs ≡ true
    → Vetted net p x
unfolding member
member-Vetted net p x [] v m = absurd (ground (arith, m))
member-Vetted net p x (y ∷ ys) (v, w) m = elim (Bool-cases (text_eq y x)) [
  | inl t ↦ subst (Vetted net p) (text_eq_sound y x t) v
  | inr f ↦ member-Vetted net p x ys w (ground (arith, m, f))
]

denied-strict :
    (net : Net) (p : UrlPolicy) (k : Classification)
    → p.allow_private_network ≡ false
    → p.allow_synthetic_tunnel ≡ false
    → denied net p k ≡ none
    → k.reason ≡ none
unfolding is_private_exception
denied-strict net p k a b e = ground (arith, a, b, e)

module _ (net : Net) (o : UrlPolicyOptions) (p : UrlPolicy) (es : List Event)
    (r : ResolvedDestination) (a b c d : ℕ) where
  -- However a policy without exceptions came to its state, an IPv4 address that it approves lies in no
  -- protected block. The URL parser writes IPv6 addresses as such.
  pub approved_addresses_are_public :
      a < 256
      → b < 256
      → c < 256
      → d < 256
      → ((s : Text) → net.is_ip s ≡ 6 → net.is_ip (canonical_ipv6 net s) ≡ 6)
      → net.is_ip (dotted a b c d) ≡ 4
      → create net o ≡ some p
      → p.allow_private_network ≡ false
      → p.allow_synthetic_tunnel ≡ false
      → Approves net (run net p es) r
      → member (dotted a b c d) r.addresses ≡ true
      → is_protected (value a b c d) ≡ false
  approved_addresses_are_public ha hb hc hd h v q f g w m =
      let (i, j) = run-settings net p es in
      let (k, x, n) = Vetted-dotted a b c d ha hb hc hd net (run net p es) h v (
        member-Vetted net (run net p es) (dotted a b c d) r.addresses
          (approved-AllVetted net o p es r q w) m) in
      ground (
        arith,
        classify_ipv4-is_protected a b c d,
        x,
        denied-strict net (run net p es) k (i ∙ f) (j ∙ g) n,
      )

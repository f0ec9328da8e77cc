-- ===== src/Url/Blocks.antt =====
-- The classification of IPv4 addresses against the blocks of the address space.
use antigravity_browser.Base.{
  refl, ℕ, ◌+◌, ◌*◌, ◌/◌, ◌<◌, ◌≡◌, Bool, ◌&&◌, ◌||◌, List, [], ◌∷◌, arith, leb, ◌==◌, any,
  read_decimal, has_char, text_eq, is_some, show_decimal, member, ◌++◌, text_eq_iff, false, ◌∙◌,
  sym, ap, true, Option, if◌then◌else◌, some, none, split_on-part, split_on-last,
}
use antigravity_browser.Url.Ipv4.{
  classify_octets, metadata_ipv4, octets, dotted, classify_ipv4, Reason,
}

abbrev pub value : ℕ → ℕ → ℕ → ℕ → ℕ
value a b c d = ((a * 256 + b) * 256 + c) * 256 + d

-- A block by an address in it and its size.
abbrev in_block : ℕ → ℕ × ℕ → Bool
in_block v (base, size) = v / size == base / size

-- The blocks that are not of the public Internet, as the registries list them, and the address of
-- Azure's platform.
abbrev pub protected_blocks : List (ℕ × ℕ)
protected_blocks =
    (value 127 0 0 0, 16777216)
    ∷ (value 10 0 0 0, 16777216)
    ∷ (value 172 16 0 0, 1048576)
    ∷ (value 192 168 0 0, 65536)
    ∷ (value 169 254 0 0, 65536)
    ∷ (value 224 0 0 0, 268435456)
    ∷ (value 240 0 0 0, 268435456)
    ∷ (value 0 0 0 0, 16777216)
    ∷ (value 100 64 0 0, 4194304)
    ∷ (value 192 0 0 0, 256)
    ∷ (value 192 0 2 0, 256)
    ∷ (value 192 88 99 0, 256)
    ∷ (value 198 18 0 0, 131072)
    ∷ (value 198 51 100 0, 256)
    ∷ (value 203 0 113 0, 256)
    ∷ (value 168 63 129 16, 1)
    ∷ []

unfoldable pub is_protected : ℕ → Bool
is_protected v = any (in_block v) protected_blocks

module _ (a b c d : ℕ) (ha : a < 256) (hb : b < 256) (hc : c < 256) (hd : d < 256) where
  block_8 : (x : ℕ) → (value a b c d / 16777216 == x) ≡ (a == x)
  block_8 x = ground arith

  block_16 : (x y : ℕ) → y < 256 → (value a b c d / 65536 == x * 256 + y) ≡ (a == x && b == y)
  block_16 x y h = ground arith

  block_24 :
      (x y z : ℕ)
      → y < 256
      → z < 256
      → (value a b c d / 256 == (x * 256 + y) * 256 + z) ≡ (a == x && b == y && c == z)
  block_24 x y z h k = ground arith

  block_10 : (value a b c d / 4194304 == 401) ≡ (a == 100 && leb 64 b && leb b 127)
  block_10 = ground arith

  block_12 : (value a b c d / 1048576 == 2753) ≡ (a == 172 && leb 16 b && leb b 31)
  block_12 = ground arith

  block_15 : (value a b c d / 131072 == 25353) ≡ (a == 198 && leb 18 b && leb b 19)
  block_15 = ground arith

  block_32 : (value a b c d / 1 == 2822734096) ≡ (a == 168 && b == 63 && c == 129 && d == 16)
  block_32 = ground arith

  block_4 : (value a b c d / 268435456 == 14 || value a b c d / 268435456 == 15) ≡ leb 224 a
  block_4 = ground arith

show_decimal-has_char : (n : ℕ) → n < 1000 → has_char 46 (show_decimal n) ≡ false
unfolding has_char show_decimal
show_decimal-has_char n h = ground arith

read-show_decimal : (n : ℕ) → n < 1000 → read_decimal 0 (show_decimal n) ≡ n
unfolding read_decimal show_decimal
read-show_decimal n h = ground arith

pub octets-dotted :
    (a b c d : ℕ)
    → a < 256
    → b < 256
    → c < 256
    → d < 256
    → octets (dotted a b c d) ≡ a ∷ b ∷ c ∷ d ∷ []
unfolding octets dotted
octets-dotted a b c d ha hb hc hd = ground (
  arith,
  split_on-part 46 (show_decimal a)
      (show_decimal b ++ (46 ∷ (show_decimal c ++ (46 ∷ show_decimal d))))
      (show_decimal-has_char a (omega arith)),
  split_on-part 46 (show_decimal b) (show_decimal c ++ (46 ∷ show_decimal d))
      (show_decimal-has_char b (omega arith)),
  split_on-part 46 (show_decimal c) (show_decimal d) (show_decimal-has_char c (omega arith)),
  split_on-last 46 (show_decimal d) (show_decimal-has_char d (omega arith)),
  read-show_decimal a,
  read-show_decimal b,
  read-show_decimal c,
  read-show_decimal d,
)

-- Two dotted addresses are the same text exactly when their octets agree.
text_eq-dotted :
    (a b c d w x y z : ℕ)
    → a < 256
    → b < 256
    → c < 256
    → d < 256
    → w < 256
    → x < 256
    → y < 256
    → z < 256
    → text_eq (dotted w x y z) (dotted a b c d) ≡ (a == w && b == x && c == y && d == z)
text_eq-dotted a b c d w x y z ha hb hc hd hw hx hy hz =
    let l = octets-dotted a b c d ha hb hc hd in
    let r = octets-dotted w x y z hw hx hy hz in
    ground (arith, l, r, text_eq_iff (dotted w x y z) (dotted a b c d))

is_metadata : ℕ → ℕ → ℕ → ℕ → Bool
is_metadata a b c d =
    (a == 169 && b == 254 && c == 169 && d == 254)
    || (a == 169 && b == 254 && c == 170 && d == 2)
    || (a == 169 && b == 254 && c == 170 && d == 23)
    || (a == 100 && b == 100 && c == 100 && d == 200)
    || (a == 168 && b == 63 && c == 129 && d == 16)

-- The tests on the octets for an address in a block that is not public.
outside_public : ℕ → ℕ → ℕ → ℕ → Bool
outside_public a b c d =
    a == 127
    || (a == 10
        || ((a == 172 && leb 16 b && leb b 31)
            || ((a == 192 && b == 168)
                || ((a == 169 && b == 254)
                    || (leb 224 a
                        || (a == 0
                            || ((a == 100 && leb 64 b && leb b 127)
                                || ((a == 192 && b == 0 && c == 0)
                                    || ((a == 192 && b == 0 && c == 2)
                                        || ((a == 192 && b == 88 && c == 99)
                                            || ((a == 198 && leb 18 b && leb b 19)
                                                || ((a == 198 && b == 51 && c == 100)
                                                    || (a == 203 && b == 0 && c == 113)))))))))))))

is_azure : ℕ → ℕ → ℕ → ℕ → Bool
is_azure a b c d = a == 168 && b == 63 && c == 129 && d == 16

-- The last test of the code on the whole number.
is_broadcast : ℕ → ℕ → ℕ → ℕ → Bool
is_broadcast a b c d = ((a * 256 + b) * 256 + c) * 256 + d == 4294967295

is_some-if {ℓ} :
    {A : Type ℓ} (p : Bool) (x : A) (q : Option A)
    → is_some (if p then some x else q) ≡ (p || is_some q)
is_some-if true x q = refl
is_some-if false x q = refl

or-false : (p : Bool) → (p || false) ≡ p
or-false true = refl
or-false false = refl

or-is_some-none : (p : Bool) → (p || is_some {A = Reason} none) ≡ p
or-is_some-none true = refl
or-is_some-none false = refl

or_assoc : (p q r : Bool) → ((p || q) || r) ≡ (p || (q || r))
or_assoc true q r = refl
or_assoc false q r = refl

module _ (a b c d : ℕ) (ha : a < 256) (hb : b < 256) (hc : c < 256) (hd : d < 256) where
  member-metadata_ipv4 : member (dotted a b c d) metadata_ipv4 ≡ is_metadata a b c d
  unfolding metadata_ipv4 member is_metadata
  member-metadata_ipv4 = ground (
    arith,
    text_eq-dotted a b c d 169 254 169 254 ha hb hc hd (omega arith) (omega arith) (omega arith)
        (omega arith),
    text_eq-dotted a b c d 169 254 170 2 ha hb hc hd (omega arith) (omega arith) (omega arith)
        (omega arith),
    text_eq-dotted a b c d 169 254 170 23 ha hb hc hd (omega arith) (omega arith) (omega arith)
        (omega arith),
    text_eq-dotted a b c d 100 100 100 200 ha hb hc hd (omega arith) (omega arith) (omega arith)
        (omega arith),
    text_eq-dotted a b c d 168 63 129 16 ha hb hc hd (omega arith) (omega arith) (omega arith)
        (omega arith),
  )

  two_blocks :
      (r : Bool)
      → (value a b c d / 268435456 == 14 || (value a b c d / 268435456 == 15 || r))
        ≡ (leb 224 a || r)
  two_blocks r = sym (or_assoc _ _ r) ∙ ap (λ (x : Bool). x || r) (block_4 a b c d ha hb hc hd)

  is_protected_lem : is_protected (value a b c d) ≡ (outside_public a b c d || is_azure a b c d)
  unfolding is_protected outside_public is_azure
  is_protected_lem =
      rw
        (
          block_8 a b c d ha hb hc hd 0,
          block_8 a b c d ha hb hc hd 10,
          block_8 a b c d ha hb hc hd 127,
          block_16 a b c d ha hb hc hd 169 254 (omega arith),
          block_16 a b c d ha hb hc hd 192 168 (omega arith),
          block_24 a b c d ha hb hc hd 192 0 0 (omega arith) (omega arith),
          block_24 a b c d ha hb hc hd 192 0 2 (omega arith) (omega arith),
          block_24 a b c d ha hb hc hd 192 88 99 (omega arith) (omega arith),
          block_24 a b c d ha hb hc hd 198 51 100 (omega arith) (omega arith),
          block_24 a b c d ha hb hc hd 203 0 113 (omega arith) (omega arith),
          block_10 a b c d ha hb hc hd,
          block_12 a b c d ha hb hc hd,
          block_15 a b c d ha hb hc hd,
          block_32 a b c d ha hb hc hd,
        )
        (simp (or_assoc, two_blocks, or-false))

  classify_octets_chain :
      is_some (classify_octets (is_metadata a b c d) a b c d)
      ≡ (is_metadata a b c d || (outside_public a b c d || is_broadcast a b c d))
  unfolding classify_octets outside_public is_broadcast
  classify_octets_chain = simp (is_some-if, or_assoc, or-is_some-none)

  metadata_outside :
      is_metadata a b c d ≡ true → (outside_public a b c d || is_azure a b c d) ≡ true
  unfolding is_metadata outside_public is_azure
  metadata_outside h = ground arith

  azure_metadata : is_azure a b c d ≡ true → is_metadata a b c d ≡ true
  unfolding is_metadata is_azure
  azure_metadata h = ground arith

  broadcast_outside : is_broadcast a b c d ≡ true → outside_public a b c d ≡ true
  unfolding is_broadcast outside_public
  broadcast_outside h = ground arith

  classify_octets_lem :
      is_some (classify_octets (is_metadata a b c d) a b c d)
      ≡ (outside_public a b c d || is_azure a b c d)
  classify_octets_lem =
      ground (arith, classify_octets_chain, metadata_outside, azure_metadata, broadcast_outside)

-- The tests of `classifyIpv4` on text and octets against the registries' blocks on numbers: for every
-- address, written in dotted notation, it gives a reason to deny exactly when the address lies in a
-- protected block.
pub classify_ipv4-is_protected :
    (a b c d : ℕ)
    → a < 256
    → b < 256
    → c < 256
    → d < 256
    → is_some (classify_ipv4 (dotted a b c d)) ≡ is_protected (value a b c d)
unfolding classify_ipv4
classify_ipv4-is_protected a b c d ha hb hc hd =
    rw (octets-dotted a b c d ha hb hc hd, member-metadata_ipv4 a b c d ha hb hc hd)
      (classify_octets_lem a b c d ha hb hc hd ∙ sym (is_protected_lem a b c d ha hb hc hd))

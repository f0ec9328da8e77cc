-- ===== src/Url/Ipv4.antt =====
-- The classification of IPv4 addresses (`classifyIpv4`, src/policy/url-policy.ts).
use antigravity_browser.Base.{
  ℕ, ◌+◌, ◌*◌, Bool, ◌&&◌, ◌||◌, Option, none, some, List, [], ◌∷◌, ◌++◌, map, leb, ◌==◌,
  if◌then◌else◌, Text, member, read_decimal, show_decimal, split_on,
}

pub data Reason : Type 0 where
  loopback private link_local multicast reserved metadata : Reason

-- Four numbers in dotted notation.
unfoldable pub dotted : ℕ → ℕ → ℕ → ℕ → Text
dotted a b c d =
    show_decimal a ++ (46 ∷ (show_decimal b ++ (46 ∷ (show_decimal c ++ (46 ∷ show_decimal d)))))

-- The metadata services of AWS (169.254.169.254, 169.254.170.2, 169.254.170.23), Alibaba Cloud and
-- Azure.
unfoldable pub metadata_ipv4 : List Text
unfolding dotted
metadata_ipv4 =
    dotted 169 254 169 254
    ∷ dotted 169 254 170 2
    ∷ dotted 169 254 170 23
    ∷ dotted 100 100 100 200
    ∷ dotted 168 63 129 16
    ∷ []

-- The tests on the octets, in their order; `ffffffff` is the last.
unfoldable pub classify_octets : Bool → ℕ → ℕ → ℕ → ℕ → Option Reason
classify_octets is_metadata a b c d =
    if is_metadata
    then some metadata
    else if a == 127
    then some loopback
    else if a == 10 || (a == 172 && leb 16 b && leb b 31) || (a == 192 && b == 168)
    then some private
    else if a == 169 && b == 254
    then some link_local
    else if leb 224 a
    then some (if leb 240 a then reserved else multicast)
    else if a == 0
    then some reserved
    else if a == 100 && leb 64 b && leb b 127
    then some reserved
    else if a == 192 && b == 0 && c == 0
    then some reserved
    else if a == 192 && b == 0 && c == 2
    then some reserved
    else if a == 192 && b == 88 && c == 99
    then some reserved
    else if a == 198 && leb 18 b && leb b 19
    then some reserved
    else if a == 198 && b == 51 && c == 100
    then some reserved
    else if a == 203 && b == 0 && c == 113
    then some reserved
    else if ((a * 256 + b) * 256 + c) * 256 + d == 4294967295
    then some reserved
    else none

-- `address.split('.').map(Number)`.
unfoldable pub octets : Text → List ℕ
octets address = map (read_decimal 0) (split_on 46 address)

-- The octets of an address that `isIP` takes for IPv4 are four.
abbrev classify_parts : Bool → List ℕ → Option Reason
classify_parts is_metadata (a ∷ b ∷ c ∷ d ∷ []) = classify_octets is_metadata a b c d
classify_parts is_metadata _ = none

unfoldable pub classify_ipv4 : Text → Option Reason
unfolding metadata_ipv4 octets
classify_ipv4 address = classify_parts (member address metadata_ipv4) (octets address)

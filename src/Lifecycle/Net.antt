-- ===== src/Lifecycle/Net.antt =====
-- IPv4 addresses and networks as service.go reads, prints and compares them: an address is its
-- 32-bit number. A text with a colon, an IPv6 address, counts as no address.
use Prim.Native.Char.{code}
use bap_web.Prelude.{
  ℕ, ◌+◌, ◌-◌, ◌*◌, ◌/◌, ◌%◌, ◌^◌, String, Bool, false, ◌&&◌, not, Option, none, some, List, [],
  ◌∷◌, leb, ◌==◌, ◌=?◌, any, if◌then◌else◌,
}
use bap_web.Text.{split, concat, itoa}

-- The number that decimal digits stand for, after those that are read.
unfoldable pub digits : ℕ → String → Option ℕ
digits acc String.[] = some acc
digits acc (String.◌∷◌ c s) =
    let rest = digits (10 * acc + (code c - 48)) s in
    if leb 48 (code c) && leb (code c) 57 then rest else none

-- A number of one digit or more.
unfoldable pub number : String → Option ℕ
unfolding digits
number s = if s =? "" then none else digits 0 s

abbrev starts_with_zero : String → Bool
starts_with_zero String.[] = false
starts_with_zero (String.◌∷◌ c String.[]) = false
starts_with_zero (String.◌∷◌ c _) = code c == 48

-- One part of an address: up to 255, without leading zeros.
unfoldable pub octet : String → Option ℕ
unfolding number
octet s = elim (number s) [
  | none ↦ none
  | some n ↦ if leb n 255 && not (starts_with_zero s) then some n else none
]

abbrev quad : Option ℕ → Option ℕ → Option ℕ → Option ℕ → Option ℕ
quad (some a) (some b) (some c) (some d) = some (((a * 256 + b) * 256 + c) * 256 + d)
quad _ _ _ _ = none

abbrev address_of : List String → Option ℕ
address_of (a ∷ b ∷ c ∷ d ∷ []) = quad (octet a) (octet b) (octet c) (octet d)
address_of _ = none

-- `net.ParseIP(s).To4()`
unfoldable pub parse_ip : String → Option ℕ
unfolding octet
parse_ip s = address_of (split 46 s)

-- `uint32ToIP(v).String()`
unfoldable pub ip_text : ℕ → String
ip_text v = concat (
    itoa (v / 2 ^ 24 % 256)
    ∷ "."
    ∷ itoa (v / 2 ^ 16 % 256)
    ∷ "."
    ∷ itoa (v / 2 ^ 8 % 256)
    ∷ "."
    ∷ itoa (v % 256)
    ∷ [])

-- A `net.IPNet` of IPv4 with the mask of `net.CIDRMask(ones, 32)`.
pub record IpNet : Type 0 where
  pub base : ℕ
  pub ones : ℕ

-- How many addresses a prefix of that length leaves.
abbrev pub span : ℕ → ℕ
span ones = 2 ^ (32 - ones)

-- The address with the bits behind the prefix cleared.
abbrev pub masked : ℕ → ℕ → ℕ
masked ip ones = ip / span ones * span ones

abbrev net_of : Option ℕ → Option ℕ → Option (ℕ × IpNet)
net_of (some ip) (some ones) =
    if leb ones 32 then some (ip, record { base = masked ip ones; ones = ones }) else none
net_of _ _ = none

abbrev cidr_of : List String → Option (ℕ × IpNet)
cidr_of (ip ∷ mask ∷ []) = net_of (parse_ip ip) (number mask)
cidr_of _ = none

-- `net.ParseCIDR`: the address, and the network that it lies in.
unfoldable pub parse_cidr : String → Option (ℕ × IpNet)
unfolding number
parse_cidr s = cidr_of (split 47 s)

-- `IPNet.String`
unfoldable pub cidr_text : IpNet → String
cidr_text n = concat (ip_text n.base ∷ "/" ∷ itoa n.ones ∷ [])

-- `IPNet.Contains`
abbrev pub net_contains : IpNet → ℕ → Bool
net_contains n ip = masked ip n.ones == n.base

-- `ipNetRange`: the first and the last address, in 64 bits. No network of the model is nil or has
-- a mask of another length.
abbrev pub ip_net_range : IpNet → ℕ × ℕ
ip_net_range n = (n.base, n.base + span n.ones - 1)

-- `cidrOverlaps`
unfoldable pub cidr_overlaps : IpNet → IpNet → Bool
cidr_overlaps a b =
    let (a_start, a_end) = ip_net_range a in
    let (b_start, b_end) = ip_net_range b in leb a_start b_end && leb b_start a_end

-- `cidrOverlapsAny`
abbrev pub cidr_overlaps_any : IpNet → List IpNet → Bool
cidr_overlaps_any candidate existing = any (cidr_overlaps candidate) existing

-- `uint32(1) << uint32(32-ones)`: 0 for a prefix of no bits.
abbrev pub size32 : ℕ → ℕ
size32 ones = span ones % 2 ^ 32

-- `uint32` sums.
infixl 60 ◌+32◌
abbrev pub ◌+32◌ : ℕ → ℕ → ℕ
a +32 b = (a + b) % 2 ^ 32

abbrev last_of : ℕ → ℕ → ℕ
last_of start size = (start + size + (2 ^ 32 - 1)) % 2 ^ 32

abbrev within : Option (ℕ × IpNet) → IpNet → Bool
within none child = false
within (some (_, parent)) child =
    net_contains parent child.base && net_contains parent (last_of child.base (size32 child.ones))

-- `cidrWithin`
unfoldable pub cidr_within : String → IpNet → Bool
cidr_within parent child = within (parse_cidr parent) child

abbrev prefix_of : Option (ℕ × IpNet) → String
prefix_of none = "24"
prefix_of (some (_, n)) = itoa n.ones

-- `cidrPrefix`
unfoldable pub cidr_prefix : String → String
cidr_prefix cidr = prefix_of (parse_cidr cidr)

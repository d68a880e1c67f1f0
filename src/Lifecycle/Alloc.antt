-- ===== src/Lifecycle/Alloc.antt =====
-- What a new virtual machine or network is given: a port of the host and addresses.
pub mod Ports
pub mod Blocks
pub mod Networks
use Prim.Native.Char.{code}
use Prim.Native.String
use bap_web.Prelude.{
  ℕ, zero, suc, ◌+◌, ◌-◌, ◌/◌, ◌%◌, ◌^◌, ℤ, pos, is_zero, pos_part, ltb_ℤ, String, Bool, true,
  false, ◌&&◌, ◌||◌, not, Option, none, some, List, [], ◌∷◌, ◌++◌, any, ltb, leb, ◌==◌, ◌=?◌,
  if◌then◌else◌,
}
use bap_web.Text.{concat, trim_space, itoa, split}
use bap_web.Model.{Network}
use bap_web.Config.{Config}
use bap_web.Errors.{Error, invalid, conflict, not_found, unprocessable}
use bap_web.Store.Vms.{used_ssh_ports, used_ingress_host_ports, used_guest_ips}
use bap_web.Store.Networks.{list_networks, get_network}
use bap_web.World.{M, Action, pure, raise, or_raise, try, perform, refuse_if, ◌>>=◌, ◌>>◌}
use bap_web.Lifecycle.Names.{succeeded}
use bap_web.Lifecycle.Net.{
  IpNet, number, parse_ip, ip_text, parse_cidr, cidr_text, net_contains, cidr_overlaps_any,
  cidr_within, size32, ◌+32◌,
}
use bap_web.Lifecycle.Overlap.{
  NetworkConflict, find_cidr_overlap, conflict_error, invalid_cidr, ensure_shared_network_usable,
}

abbrev unsigned : String → String
unsigned String.[] = ""
unsigned (String.◌∷◌ c s) = if code c == 43 then s else String.◌∷◌ c s

abbrev in_int64 : Option ℕ → Option ℕ
in_int64 none = none
in_int64 (some n) = if ltb n (2 ^ 63) then some n else none

-- `strconv.Atoi` of a text without "-".
unfoldable pub atoi : String → Option ℕ
atoi s = in_int64 (number (unsigned s))

abbrev ordered : Option ℕ → Option ℕ → Option (ℕ × ℕ)
ordered (some a) (some b) = if ltb b a then none else some (a, b)
ordered _ _ = none

abbrev range_of : List String → Option (ℕ × ℕ)
range_of (a ∷ b ∷ []) = ordered (atoi a) (atoi b)
range_of _ = none

-- `parseRange`: `none` where it returns an error. The text of that error is written below as the one
-- of a wrong form, also where it is that of `strconv`.
unfoldable pub parse_range : String → Option (ℕ × ℕ)
unfolding atoi
parse_range s = range_of (split 45 s)

-- `portOpen`: whether the port cannot be listened on.
unfoldable pub port_open : ℕ → M Bool
port_open port = do r ← try (perform (Action.listen port)); pure (not (succeeded r))

-- The first port from `p` on that is not used and can be listened on.
unfoldable pub first_port : ℕ → ℕ → List ℕ → M ℕ
first_port zero p used = raise (conflict "no free SSH ports in range")
first_port (suc n) p used =
    if any (λ u. u == p) used
    then first_port n (suc p) used
    else do taken ← port_open p; if taken then first_port n (suc p) used else pure p

-- A port that was asked for.
unfoldable pub asked_port : ℕ → ℕ → List ℕ → ℤ → M ℕ
asked_port start end used requested = do
  refuse_if (ltb_ℤ requested (pos start) || ltb_ℤ (pos end) requested) (
      invalid "SSH port is outside the configured range"
        (("ssh_port", concat ("must be between " ∷ itoa start ∷ " and " ∷ itoa end ∷ [])) ∷ []))
  let p = pos_part requested
  refuse_if (any (λ u. u == p) used) (conflict "ssh_port already in use")
  taken ← port_open p
  refuse_if taken (conflict "ssh_port already in use")
  pure p

-- `allocatePort`
unfoldable pub allocate_port : Config → ℤ → M ℕ
allocate_port cfg requested = do
  range ←
      or_raise (parse_range cfg.network.ssh_port_range)
        (Error.plain (concat ("invalid range \"" ∷ cfg.network.ssh_port_range ∷ "\"" ∷ [])))
  ssh ← used_ssh_ports
  ingress ← used_ingress_host_ports
  if is_zero requested
      then first_port (suc range.1 - range.0) range.0 (ssh ++ ingress)
      else asked_port range.0 range.1 (ssh ++ ingress) requested

abbrev pub nets_of : List Network → List IpNet
nets_of [] = []
nets_of (n ∷ ns) = elim (parse_cidr n.cidr) [ none ↦ nets_of ns | some p ↦ p.1 ∷ nets_of ns ]

-- `sharedNetworkCIDRs`
unfoldable pub shared_network_cidrs : M (List IpNet)
shared_network_cidrs = do networks ← list_networks; pure (nets_of networks)

-- The addresses of host and guest, and the length of their prefix.
pub record Addresses : Type 0 where
  pub host_ip : String
  pub guest_ip : String
  pub cidr : ℕ

abbrev pub is_used : String → List String → Bool
is_used ip used = any (λ u. u =? ip) used

-- The loop of `allocateP2P` from an offset on; `offset+3` and the addresses are `uint32` sums.
unfoldable pub p2p_from : ℕ → ℕ → ℕ → ℕ → List String → List IpNet → Option Addresses
p2p_from zero start size offset used shared = none
p2p_from (suc n) start size offset used shared =
    let rest = p2p_from n start size (offset +32 4) used shared in
    if not (ltb (offset +32 3) size)
    then none
    else if not (is_used (ip_text (start +32 offset +32 2)) used)
        && not (cidr_overlaps_any (record { base = start +32 offset; ones = 30 }) shared)
    then some (record {
      host_ip = ip_text (start +32 offset +32 1);
      guest_ip = ip_text (start +32 offset +32 2);
      cidr = 30;
    })
    else rest

-- `allocateP2P`: a network of four addresses inside the configured range. As the offset grows by
-- four, a quarter of the size and one is enough for the loop.
unfoldable pub allocate_p2p : Config → M Addresses
allocate_p2p cfg = do
  used ← used_guest_ips
  parsed ←
      or_raise (parse_cidr cfg.network.vm_cidr) (Error.plain (invalid_cidr cfg.network.vm_cidr))
  let n = parsed.1
  refuse_if (ltb 30 n.ones) (Error.plain "vm_cidr must be an IPv4 CIDR with room for /30 networks")
  shared ← shared_network_cidrs
  or_raise (p2p_from (suc (size32 n.ones / 4)) n.base (size32 n.ones) 0 used shared)
      (Error.plain "no free /30 networks")

-- The loop of `allocateShared`: the first free address but the gateway's.
unfoldable pub shared_from : ℕ → ℕ → ℕ → ℕ → String → List String → Option String
shared_from zero start size offset gateway used = none
shared_from (suc n) start size offset gateway used =
    let rest = shared_from n start size (offset +32 1) gateway used in
    if not (ltb (offset +32 1) size)
    then none
    else if not (ip_text (start +32 offset) =? gateway)
        && not (is_used (ip_text (start +32 offset)) used)
    then some (ip_text (start +32 offset))
    else rest

abbrev inside : IpNet → Option ℕ → Option ℕ
inside n none = none
inside n (some ip) = if net_contains n ip then some ip else none

-- `allocateShared`
unfoldable pub allocate_shared : Network → M Addresses
allocate_shared network = do
  used ← used_guest_ips
  parsed ← or_raise (parse_cidr network.cidr) (Error.plain (invalid_cidr network.cidr))
  let n = parsed.1
  refuse_if (ltb 30 n.ones) (Error.plain "shared network must be an IPv4 CIDR larger than /30")
  gateway ←
      or_raise (inside n (parse_ip network.gateway_ip))
        (Error.plain "network gateway_ip is invalid")
  guest ←
      or_raise (shared_from (size32 n.ones) n.base (size32 n.ones) 1 (ip_text gateway) used)
        (Error.plain "no free IPs in shared network")
  pure (record { host_ip = ip_text gateway; guest_ip = guest; cidr = n.ones })

-- `allocateNetwork`
unfoldable pub allocate_network : Config → String → String → M Addresses
allocate_network cfg mode network_id =
    if mode =? "routed_ptp"
    then allocate_p2p cfg
    else if mode =? "shared_bridge"
    then (do
      refuse_if (network_id =? "") (
          unprocessable "Select a shared network when using shared_bridge mode."
            (("network_id", "required for shared_bridge") ∷ []))
      found ← get_network network_id
      network ← or_raise found (not_found "network_id does not exist")
      ensure_shared_network_usable network
      allocate_shared network)
    else raise (Error.plain (concat ("unsupported network mode \"" ∷ mode ∷ "\"" ∷ [])))

abbrev pub overlap_error : IpNet → Option NetworkConflict → M (Unit {0})
overlap_error n none = pure tt
overlap_error n (some c) = raise (
    conflict_error
      (concat (
        "Shared network CIDR "
        ∷ cidr_text n
        ∷ " overlaps "
        ∷ c.subject_name
        ∷ " "
        ∷ c.subject_cidr
        ∷ []))
      "cidr")

-- The gateway that was asked for, or else the first address behind the network's own.
abbrev pub gateway_for : IpNet → Option ℕ → ℕ
gateway_for n none = n.base +32 1
gateway_for n (some ip) = ip

-- `gatewayValue == start+size-1`, in `uint32`.
abbrev pub is_last : IpNet → ℕ → Bool
is_last n ip = ip == (n.base + size32 n.ones + (2 ^ 32 - 1)) % 2 ^ 32

-- `validateSharedNetwork`: the network and the gateway.
unfoldable pub validate_shared_network : Config → String → String → M (IpNet × ℕ)
validate_shared_network cfg cidr gateway_ip = do
  let text = trim_space cidr
  parsed ←
      or_raise (parse_cidr text)
        (invalid "Shared network CIDR is invalid" (("cidr", invalid_cidr text) ∷ []))
  let n = parsed.1
  refuse_if (ltb 30 n.ones) (
      invalid "Shared network CIDR is invalid"
        (("cidr", "must be an IPv4 CIDR with at least two usable host addresses") ∷ []))
  refuse_if (not (cidr_within cfg.network.vm_cidr n)) (
      invalid "Shared network CIDR is outside the configured VM range"
        (("cidr", concat ("must be inside configured vm_cidr " ∷ cfg.network.vm_cidr ∷ [])) ∷ []))
  found ← find_cidr_overlap n ""
  overlap_error n found
  let gateway = gateway_for n (parse_ip (trim_space gateway_ip))
  refuse_if (not (net_contains n gateway) || gateway == n.base || is_last n gateway) (
      invalid "Shared network gateway_ip is invalid"
        (("gateway_ip", "must be a usable IP inside the shared network") ∷ []))
  pure (n, gateway)

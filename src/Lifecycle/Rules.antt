-- ===== src/Lifecycle/Rules.antt =====
-- Networks, port forwards and egress policies as requests create and remove them.
pub mod Ingress
pub mod Policies
use Prim.Native.Char.{code}
use Prim.Native.String
use bap_web.Prelude.{
  ℕ, zero, suc, ◌-◌, ◌≤◌, ◌^◌, ℤ, pos, negsuc, pos_part, ltb_ℤ, String, Bool, true, false, ◌&&◌,
  ◌||◌, not, Option, none, some, List, [], ◌∷◌, ◌++◌, any, ltb, leb, ◌==◌, ◌=?◌, if◌then◌else◌,
}
use bap_web.Text.{concat, join, trim_space, to_lower, itoa, has_prefix, byte_len}
use bap_web.Model.{Vm, Network, IngressRule, EgressPolicy, is_up}
use bap_web.Config.{Config}
use bap_web.Errors.{Error, message, invalid, conflict, not_found}
use bap_web.Store.Vms.{get_vm, update_vm, used_ssh_ports}
use bap_web.Store.Networks.{
  create_network, get_network, delete_network, create_ingress_rule, delete_ingress_rule,
  create_egress_policy, get_egress_policy, delete_egress_policy,
}
use bap_web.World.{
  M, Result, ok, err, pure, raise, or_raise, when, refuse_if, random_hex, time_now, ◌>>=◌, ◌>>◌,
}
use bap_web.Lifecycle.Names.{bridge_name}
use bap_web.Lifecycle.Cleanup.{cleanup_bridge}
use bap_web.Lifecycle.Firewall.{apply_nft, split_csv, returned}
use bap_web.Lifecycle.Net.{parse_ip, ip_text, parse_cidr, cidr_text, number}
use bap_web.Lifecycle.Alloc.{validate_shared_network, port_open, atoi}
use bap_web.Lifecycle.Vms.{the_vm}

abbrev pub is_alphanumeric : ℕ → Bool
is_alphanumeric c = leb 48 c && leb c 57 || leb 65 c && leb c 90 || leb 97 c && leb c 122

-- Letters, digits and "-" only.
unfoldable name_rest : String → Bool
name_rest String.[] = true
name_rest (String.◌∷◌ c s) = (is_alphanumeric (code c) || code c == 45) && name_rest s

-- `nameRe`: ^[a-zA-Z0-9][a-zA-Z0-9-]{0,31}$
unfoldable pub matches_name : String → Bool
unfolding name_rest
matches_name String.[] = false
matches_name (String.◌∷◌ c s) = is_alphanumeric (code c) && name_rest s && leb (byte_len s) 31

abbrev pub name_pattern : String
name_pattern = "must match ^[a-zA-Z0-9][a-zA-Z0-9-]{0,31}$"

-- `CreateNetwork`
unfoldable pub create_shared_network : Config → String → String → String → M Network
create_shared_network cfg name cidr gateway_ip = do
  let text = trim_space name
  refuse_if (not (matches_name text))
      (invalid "Network name is invalid" (("name", name_pattern) ∷ []))
  valid ← validate_shared_network cfg cidr gateway_ip
  now ← time_now
  id ← random_hex 8
  let network : Network = record {
    id = id;
    name = text;
    cidr = cidr_text valid.0;
    gateway_ip = ip_text valid.1;
    created_at = now;
    updated_at = now;
  }
  create_network network
  pure network

-- `DeleteNetwork`
unfoldable pub delete_shared_network : String → M (Unit {0})
delete_shared_network id = do
  found ← get_network id
  network ← or_raise found (not_found "network not found")
  delete_network id
  cleanup_bridge (bridge_name network.id)

-- A whole number of decimal digits with an optional sign, as `strconv.Atoi` reads it.
abbrev signed : String → Option ℤ
signed String.[] = none
signed (String.◌∷◌ c s) =
    if code c == 45
    then (elim (number s) [
      | none ↦ none
      | some zero ↦ some (pos 0)
      | some (suc n) ↦ if ltb n (2 ^ 63) then some (negsuc n) else none
    ])
    else (elim (atoi (String.◌∷◌ c s)) [ none ↦ none | some n ↦ some (pos n) ])

abbrev numeric_error : String → Error
numeric_error part =
    Error.plain (concat ("strconv.Atoi: parsing \"" ∷ part ∷ "\": invalid syntax" ∷ []))

-- The ports of a list that is read, each once, in order; `seen` are those before.
unfoldable pub ports_of : List ℕ → List String → Result (List ℕ)
ports_of seen [] = ok []
ports_of seen (part ∷ parts) = elim (signed part) [
  | none ↦ err (numeric_error part)
  | some (negsuc n) ↦ err (Error.plain (concat ("port -" ∷ itoa (suc n) ∷ " outside 1-65535" ∷ [])))
  | some (pos p) ↦
      if ltb p 1 || ltb 65535 p
      then err (Error.plain (concat ("port " ∷ itoa p ∷ " outside 1-65535" ∷ [])))
      else if any (λ q. q == p) seen
      then ports_of seen parts
      else (elim (ports_of (p ∷ seen) parts) [ ok ps ↦ ok (p ∷ ps) | err e ↦ err e ])
]

texts : List ℕ → List String
texts [] = []
texts (p ∷ ps) = itoa p ∷ texts ps

-- `normalizePorts`
unfoldable pub normalize_ports : String → Result String
unfolding texts
normalize_ports s = elim (ports_of [] (split_csv s)) [
  | ok ps ↦ ok (join "," (texts ps))
  | err e ↦ err e
]

-- A range, or a single address as a range of its own.
abbrev one_cidr : String → Option String
one_cidr part = elim (parse_cidr part) [
  | some p ↦ some (cidr_text p.1)
  | none ↦ elim (parse_ip part) [ some ip ↦ some (concat (ip_text ip ∷ "/32" ∷ [])) | none ↦ none ]
]

unfoldable pub cidrs_of : List String → List String → Result (List String)
cidrs_of seen [] = ok []
cidrs_of seen (part ∷ parts) = elim (one_cidr part) [
  | none ↦ err (Error.plain (concat ("invalid cidr \"" ∷ part ∷ "\"" ∷ [])))
  | some c ↦
      if any (λ d. d =? c) seen
      then cidrs_of seen parts
      else (elim (cidrs_of (c ∷ seen) parts) [ ok cs ↦ ok (c ∷ cs) | err e ↦ err e ])
]

-- `normalizeCIDRs`
unfoldable pub normalize_cidrs : String → Result String
normalize_cidrs s = elim (cidrs_of [] (split_csv s)) [ ok cs ↦ ok (join "," cs) | err e ↦ err e ]

abbrev prefixed : String → Result String → M String
prefixed label (ok s) = pure s
prefixed label (err e) = raise (Error.plain (concat (label ∷ ": " ∷ message e ∷ [])))

-- What a policy allows: ports of TCP and of UDP, and ranges of addresses.
pub record Allowed : Type 0 where
  pub tcp_ports : String
  pub udp_ports : String
  pub cidrs : String

abbrev nothing : Allowed
nothing = record { tcp_ports = ""; udp_ports = ""; cidrs = "" }

-- `validateEgressPolicy`
unfoldable pub validate_egress_policy : String → String → String → String → M Allowed
validate_egress_policy mode tcp_ports udp_ports cidrs =
    if mode =? "allow_all" || mode =? "deny_all"
    then pure nothing
    else if not (mode =? "restricted")
    then raise (Error.plain "mode must be allow_all, deny_all, or restricted")
    else do
      tcp ← prefixed "tcp_ports" (normalize_ports tcp_ports)
      udp ← prefixed "udp_ports" (normalize_ports udp_ports)
      ranges ← returned (normalize_cidrs cidrs)
      refuse_if (tcp =? "" && udp =? "" && ranges =? "")
          (Error.plain "restricted policies require at least one allowed port or CIDR")
      pure (record { tcp_ports = tcp; udp_ports = udp; cidrs = ranges })

-- `CreateEgressPolicy`
unfoldable pub create_policy : String → String → String → String → String → M EgressPolicy
create_policy name mode tcp_ports udp_ports cidrs = do
  let text = trim_space name
  refuse_if (not (matches_name text))
      (invalid "Egress policy name is invalid" (("name", name_pattern) ∷ []))
  let kind = trim_space mode
  allowed ← validate_egress_policy kind tcp_ports udp_ports cidrs
  now ← time_now
  id ← random_hex 8
  let policy : EgressPolicy = record {
    id = id;
    name = text;
    mode = kind;
    tcp_ports = allowed.tcp_ports;
    udp_ports = allowed.udp_ports;
    cidrs = allowed.cidrs;
    created_at = now;
    updated_at = now;
  }
  create_egress_policy policy
  pure policy

-- The mode and the policy that `SetVMEgressPolicy` writes.
unfoldable pub egress_choice : String → String → M (String × String)
egress_choice mode policy_id =
    if policy_id =? ""
    then (do
      let text = trim_space mode
      let chosen = if text =? "" then "allow_all" else text
      refuse_if (not (chosen =? "allow_all") && not (chosen =? "deny_all")) (
          invalid "Egress mode is invalid"
            (("egress_mode", "must be allow_all or deny_all when no policy is selected") ∷ []))
      pure (chosen, ""))
    else do
      found ← get_egress_policy policy_id
      p ← or_raise found (not_found "egress policy not found")
      pure (p.mode, p.id)

-- `SetVMEgressPolicy`
unfoldable pub set_vm_egress_policy : Config → String → String → String → M (Option Vm)
set_vm_egress_policy cfg id mode policy_id = do
  vm ← the_vm id
  chosen ← egress_choice mode policy_id
  update_vm (record vm { egress_mode = chosen.0; egress_policy_id = chosen.1 })
  when (is_up vm.state) (apply_nft cfg)
  get_vm id

unfoldable pub is_port : ℤ → Bool
is_port p = not (ltb_ℤ p (pos 1)) && not (ltb_ℤ (pos 65535) p)

-- The checks of `AddIngressRule`, and the rule that it makes.
unfoldable pub new_rule : Vm → String → ℤ → ℤ → String → M IngressRule
new_rule vm protocol host_port guest_port description = do
  let kind = to_lower (trim_space protocol)
  refuse_if (not (kind =? "tcp") && not (kind =? "udp"))
      (invalid "Ingress rule is invalid" (("protocol", "must be tcp or udp") ∷ []))
  refuse_if (not (is_port host_port) || not (is_port guest_port)) (
      invalid "Ingress rule is invalid" (
        ("host_port", "must be between 1 and 65535")
        ∷ ("guest_port", "must be between 1 and 65535")
        ∷ []))
  let port = pos_part host_port
  ssh ← used_ssh_ports
  refuse_if (any (λ u. u == port) ssh) (conflict "host_port already in use")
  taken ← port_open port
  refuse_if taken (conflict "host_port already in use")
  id ← random_hex 8
  now ← time_now
  pure (record {
    id = id;
    vm_id = vm.id;
    protocol = kind;
    host_port = port;
    guest_port = pos_part guest_port;
    description = trim_space description;
    created_at = now;
  })

-- `AddIngressRule`
unfoldable pub add_ingress_rule : Config → String → String → ℤ → ℤ → String → M IngressRule
add_ingress_rule cfg vm_id protocol host_port guest_port description = do
  vm ← the_vm vm_id
  rule ← new_rule vm protocol host_port guest_port description
  create_ingress_rule rule
  when (is_up vm.state) (apply_nft cfg)
  pure rule

-- `DeleteIngressRule`
unfoldable pub remove_ingress_rule : Config → String → String → M (Unit {0})
remove_ingress_rule cfg vm_id rule_id = do
  vm ← the_vm vm_id
  delete_ingress_rule vm_id rule_id
  when (is_up vm.state) (apply_nft cfg)

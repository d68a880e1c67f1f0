-- ===== src/Lifecycle/Firewall.antt =====
-- The rules of the firewall, written anew from the database at each change.
use bap_web.Prelude.{
  String, ◌||◌, not, Option, none, some, List, [], ◌∷◌, ◌++◌, map, find, ◌=?◌, if◌then◌else◌,
}
use bap_web.Text.{concat, contains, trim_space, split, itoa, fields}
use bap_web.Model.{Vm, Network, IngressRule, is_up}
use bap_web.Config.{Config}
use bap_web.Errors.{Error, message}
use bap_web.Store.Vms.{list_vms}
use bap_web.Store.Networks.{get_network, get_egress_policy, list_ingress_rules}
use bap_web.World.{
  M, Result, ok, err, pure, raise, or_raise, try, attempt, output_of, when, ◌>>=◌, ◌>>◌,
}
use bap_web.Lifecycle.Names.{run, run_shell, bridge_name, succeeded}

trimmed : List String → List String
trimmed [] = []
trimmed (p ∷ ps) = let rest = trimmed ps in if trim_space p =? "" then rest else trim_space p ∷ rest

-- `splitCSV`
unfoldable pub split_csv : String → List String
unfolding trimmed
split_csv s = trimmed (split 44 s)

after_dev : List String → Option String
after_dev [] = none
after_dev (f ∷ []) = none
after_dev (f ∷ g ∷ fs) = let rest = after_dev (g ∷ fs) in if f =? "dev" then some g else rest

-- `defaultIF`
unfoldable pub default_if : M String
unfolding after_dev
default_if = do
  out ← output_of ("ip" ∷ "route" ∷ "show" ∷ "default" ∷ [])
  or_raise (after_dev (fields out)) (Error.plain "default route interface not found")

abbrev rule_for : Vm → String → List String → String
rule_for vm lan rest =
    concat (
      "nft add rule ip bap_web forward ip saddr " ∷ vm.guest_ip ∷ " oifname \"" ∷ lan ∷ "\" "
      ∷ rest)

abbrev allow_port : Vm → String → String → String → String
allow_port vm lan protocol port = rule_for vm lan (protocol ∷ " dport " ∷ port ∷ " accept" ∷ [])

-- What a mode lets out: the ports and ranges count in the mode "restricted" only.
abbrev pub egress_rules : Vm → String → String → String → String → String → Result (List String)
egress_rules vm lan mode tcp_ports udp_ports cidrs =
    if mode =? "allow_all" || mode =? ""
    then ok (rule_for vm lan ("accept" ∷ []) ∷ [])
    else if mode =? "deny_all"
    then ok (rule_for vm lan ("drop" ∷ []) ∷ [])
    else if mode =? "restricted"
    then ok (
        map (allow_port vm lan "tcp") (split_csv tcp_ports)
        ++ map (allow_port vm lan "udp") (split_csv udp_ports)
        ++ map (λ cidr. rule_for vm lan ("ip daddr " ∷ cidr ∷ " accept" ∷ [])) (split_csv cidrs)
        ++ rule_for vm lan ("drop" ∷ []) ∷ [])
    else err (Error.plain (concat ("unsupported egress mode \"" ∷ mode ∷ "\"" ∷ [])))

abbrev pub returned : {A : Type 0} → Result A → M A
returned (ok a) = pure a
returned (err e) = raise e

-- `egressNFTRules`
unfoldable pub egress_nft_rules : Vm → String → M (List String)
egress_nft_rules vm lan =
    if vm.egress_policy_id =? "" then returned (egress_rules vm lan vm.egress_mode "" "" "") else do
      found ← get_egress_policy vm.egress_policy_id
      p ← or_raise found (Error.plain (concat ("egress policy not found for VM " ∷ vm.name ∷ [])))
      returned (egress_rules vm lan p.mode p.tcp_ports p.udp_ports p.cidrs)

abbrev table_chains : List String
table_chains =
    "add chain ip bap_web input { type filter hook input priority -100; policy accept; }"
    ∷ "add chain ip bap_web prerouting { type nat hook prerouting priority dstnat; policy accept; }"
    ∷ "add chain ip bap_web postrouting { type nat hook postrouting priority srcnat; policy accept; }"
    ∷ "add chain ip bap_web forward { type filter hook forward priority filter; policy accept; }"
    ∷ []

-- The commands one after another, up to the first that fails.
unfoldable pub run_all : List String → M (Unit {0})
run_all [] = pure tt
run_all (c ∷ cs) = do run_shell c; run_all cs

-- The rules that do not depend on ports or policies.
abbrev base_rules : Config → String → String → Vm → List String
base_rules cfg lan net_dev vm =
    concat (
      "nft add rule ip bap_web input iifname \""
      ∷ net_dev
      ∷ "\" ip saddr "
      ∷ vm.guest_ip
      ∷ " ip daddr "
      ∷ vm.host_ip
      ∷ " tcp dport "
      ∷ itoa cfg.server.metadata_port
      ∷ " accept"
      ∷ [])
    ∷ concat (
        "nft add rule ip bap_web prerouting iifname \""
        ∷ lan
        ∷ "\" tcp dport "
        ∷ itoa vm.ssh_port
        ∷ " dnat to "
        ∷ vm.guest_ip
        ∷ ":22"
        ∷ [])
    ∷ concat (
        "nft add rule ip bap_web forward iifname \"" ∷ lan ∷ "\" oifname \"" ∷ net_dev
        ∷ "\" tcp dport 22 ip daddr " ∷ vm.guest_ip ∷ " accept" ∷ [])
    ∷ concat (
        "nft add rule ip bap_web postrouting ip saddr " ∷ vm.guest_ip ∷ " oifname \"" ∷ lan
        ∷ "\" masquerade" ∷ [])
    ∷ []

abbrev protected_cidrs : List String → List String
protected_cidrs [] = "127.0.0.0/8" ∷ "169.254.169.254/32" ∷ []
protected_cidrs (c ∷ cs) = c ∷ cs

abbrev protect : Vm → String → String
protect vm cidr =
    concat (
      "nft add rule ip bap_web forward ip saddr " ∷ vm.guest_ip ∷ " ip daddr " ∷ cidr ∷ " drop"
      ∷ [])

-- The rules for the ports that are forwarded to the virtual machine.
abbrev pub ingress_nft_rules : String → String → Vm → List IngressRule → List String
ingress_nft_rules lan net_dev vm [] = []
ingress_nft_rules lan net_dev vm (r ∷ rs) =
    concat (
      "nft add rule ip bap_web prerouting iifname \""
      ∷ lan
      ∷ "\" "
      ∷ r.protocol
      ∷ " dport "
      ∷ itoa r.host_port
      ∷ " dnat to "
      ∷ vm.guest_ip
      ∷ ":"
      ∷ itoa r.guest_port
      ∷ [])
    ∷ concat (
        "nft add rule ip bap_web forward iifname \""
        ∷ lan
        ∷ "\" oifname \""
        ∷ net_dev
        ∷ "\" "
        ∷ r.protocol
        ∷ " dport "
        ∷ itoa r.guest_port
        ∷ " ip daddr "
        ∷ vm.guest_ip
        ∷ " accept"
        ∷ [])
    ∷ ingress_nft_rules lan net_dev vm rs

-- All that one virtual machine contributes, once its interface is known.
unfoldable pub vm_rules : Config → String → String → Vm → M (Unit {0})
vm_rules cfg lan net_dev vm = do
  ingress ← list_ingress_rules vm.id
  egress ← egress_nft_rules vm lan
  run_all (
      base_rules cfg lan net_dev vm
      ++ map (protect vm) (protected_cidrs cfg.network.protected_host_cidrs)
      ++ ingress_nft_rules lan net_dev vm ingress
      ++ egress)

-- Traffic from an interface must carry an address that belongs there.
abbrev guard : String → String → String
guard net_dev source = concat (
    "nft add rule ip bap_web forward iifname \"" ∷ net_dev ∷ "\" ip saddr != " ∷ source ∷ " drop"
    ∷ [])

abbrev pub Met : Type 0
Met = List (String × Network)

abbrev pub meet : Met → Vm → Option (String × Network) → M (Network × Met)
meet seen vm (some p) = pure (p.1, seen)
meet seen vm none = do
  found ← get_network vm.network_id
  n ← or_raise found (Error.plain (concat ("network not found for VM " ∷ vm.name ∷ [])))
  run_shell (guard (bridge_name n.id) n.cidr)
  pure (n, (vm.network_id, n) ∷ seen)

-- The shared network of a virtual machine: it is read and guarded when it is met first.
unfoldable pub shared_network : Met → Vm → M (Network × Met)
shared_network seen vm = meet seen vm (find (λ p. p.0 =? vm.network_id) seen)

-- The loop of `applyNFT` over the virtual machines, with the shared networks that it has met.
unfoldable pub nft_vms : Config → String → Met → List Vm → M (Unit {0})
nft_vms cfg lan seen [] = pure tt
nft_vms cfg lan seen (vm ∷ vms) =
    if not (is_up vm.state)
    then nft_vms cfg lan seen vms
    else if vm.network_mode =? "shared_bridge"
    then (do
      met ← shared_network seen vm
      vm_rules cfg lan (bridge_name met.0.id) vm
      nft_vms cfg lan met.1 vms)
    else do
      run_shell (guard vm.tap_name vm.guest_ip)
      vm_rules cfg lan vm.tap_name vm
      nft_vms cfg lan seen vms

abbrev rich_rule : Config → Vm → String
rich_rule cfg vm = concat (
    "rule family=\"ipv4\" source address=\""
    ∷ vm.guest_ip
    ∷ "\" destination address=\""
    ∷ vm.host_ip
    ∷ "\" port port=\""
    ∷ itoa cfg.server.metadata_port
    ∷ "\" protocol=\"tcp\" accept"
    ∷ [])

-- An error that is tolerated where its text contains a phrase.
abbrev pub unless_says : String → Result (Unit {0}) → M (Unit {0})
unless_says phrase (ok _) = pure tt
unless_says phrase (err e) = if contains (message e) phrase then pure tt else raise e

unfoldable pub rich_rules : Config → List Vm → M (Unit {0})
rich_rules cfg [] = pure tt
rich_rules cfg (vm ∷ vms) = if not (is_up vm.state) then rich_rules cfg vms else do
  r ← try (run ("firewall-cmd" ∷ "--add-rich-rule" ∷ rich_rule cfg vm ∷ []))
  unless_says "ALREADY_ENABLED" r
  rich_rules cfg vms

-- `applyFirewalldMetadata`
unfoldable pub apply_firewalld_metadata : Config → List Vm → M (Unit {0})
unfolding rich_rules
apply_firewalld_metadata cfg vms = do
  state ← try (run ("firewall-cmd" ∷ "--state" ∷ []))
  when (succeeded state) (rich_rules cfg vms)

-- `applyNFT`
unfoldable pub apply_nft : Config → M (Unit {0})
apply_nft cfg = do
  vms ← list_vms
  attempt (run ("nft" ∷ "delete" ∷ "table" ∷ "ip" ∷ "bap_web" ∷ []))
  run ("nft" ∷ "add" ∷ "table" ∷ "ip" ∷ "bap_web" ∷ [])
  run_all (map (λ c. concat ("nft '" ∷ c ∷ "'" ∷ [])) table_chains)
  run_shell "nft add rule ip bap_web forward ct state established,related accept"
  lan ← default_if
  nft_vms cfg lan [] vms
  apply_firewalld_metadata cfg vms

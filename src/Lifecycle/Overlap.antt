-- ===== src/Lifecycle/Overlap.antt =====
-- The ranges of addresses in use, and the search for one that a new range overlaps.
pub mod Shared
pub mod Search
use bap_web.Prelude.{
  ℕ, zero, String, Bool, true, false, ◌&&◌, ◌||◌, not, Option, none, some, List, [], ◌∷◌, ◌++◌, ltb,
  leb, ◌=?◌, if◌then◌else◌,
}
use bap_web.Text.{concat}
use bap_web.Model.{Vm, Network}
use bap_web.Errors.{Error, conflict_fields, invalid, not_found, Fields}
use bap_web.Store.Vms.{list_vms}
use bap_web.Store.Networks.{list_networks, get_network}
use bap_web.World.{M, pure, raise, or_raise, ◌>>=◌, ◌>>◌}
use bap_web.Lifecycle.Net.{IpNet, parse_ip, parse_cidr, cidr_text, cidr_overlaps, masked}

-- `networkCIDROwner`
pub record NetworkCidrOwner : Type 0 where
  pub kind : String
  pub id : String
  pub name : String
  pub cidr : String
  pub ipnet : IpNet

-- `displayName`
abbrev pub display_name : NetworkCidrOwner → String
display_name o =
    if not (o.name =? "")
    then concat (o.kind ∷ " " ∷ o.name ∷ [])
    else if not (o.id =? "")
    then concat (o.kind ∷ " " ∷ o.id ∷ [])
    else o.kind

-- `NetworkConflict`
pub record NetworkConflict : Type 0 where
  pub subject_type : String
  pub subject_id : String
  pub subject_name : String
  pub subject_cidr : String
  pub conflicting_type : String
  pub conflicting_id : String
  pub conflicting_name : String
  pub conflicting_cidr : String
  pub message : String

-- `networkConflict`
unfoldable pub network_conflict : NetworkCidrOwner → NetworkCidrOwner → NetworkConflict
network_conflict a b = record {
  subject_type = a.kind;
  subject_id = a.id;
  subject_name = display_name a;
  subject_cidr = a.cidr;
  conflicting_type = b.kind;
  conflicting_id = b.id;
  conflicting_name = display_name b;
  conflicting_cidr = b.cidr;
  message =
      concat (display_name a ∷ " " ∷ a.cidr ∷ " overlaps " ∷ display_name b ∷ " " ∷ b.cidr ∷ []);
}

abbrev routed_net : Option ℕ → ℕ → Option IpNet
routed_net none cidr = none
routed_net (some ip) cidr = some (record { base = masked ip cidr; ones = cidr })

-- `vmRoutedCIDR`: the network of a virtual machine that is not on a bridge.
unfoldable pub vm_routed_cidr : Vm → Option IpNet
vm_routed_cidr vm =
    if not (vm.network_mode =? "") && not (vm.network_mode =? "routed_ptp")
    then none
    else if vm.host_ip =? "" || leb vm.cidr 0 || ltb 32 vm.cidr
    then none
    else routed_net (parse_ip vm.host_ip) vm.cidr

abbrev pub network_owner : Network → Option (ℕ × IpNet) → List NetworkCidrOwner
network_owner n none = []
network_owner n (some (_, net)) =
    (record { kind = "network"; id = n.id; name = n.name; cidr = cidr_text net; ipnet = net }) ∷ []

abbrev pub vm_owner : Vm → Option IpNet → List NetworkCidrOwner
vm_owner vm none = []
vm_owner vm (some net) =
    (record { kind = "VM"; id = vm.id; name = vm.name; cidr = cidr_text net; ipnet = net }) ∷ []

abbrev pub owners_of_networks : List Network → List NetworkCidrOwner
owners_of_networks [] = []
owners_of_networks (n ∷ ns) = network_owner n (parse_cidr n.cidr) ++ owners_of_networks ns

abbrev pub owners_of_vms : List Vm → List NetworkCidrOwner
owners_of_vms [] = []
owners_of_vms (vm ∷ vms) = vm_owner vm (vm_routed_cidr vm) ++ owners_of_vms vms

-- `networkCIDROwners`
unfoldable pub network_cidr_owners : M (List NetworkCidrOwner)
network_cidr_owners = do
  networks ← list_networks
  vms ← list_vms
  pure (owners_of_networks networks ++ owners_of_vms vms)

abbrev conflicts_with : NetworkCidrOwner → List NetworkCidrOwner → List NetworkConflict
conflicts_with o [] = []
conflicts_with o (p ∷ ps) =
    let rest = conflicts_with o ps in
    if cidr_overlaps o.ipnet p.ipnet then network_conflict o p ∷ rest else rest

abbrev pub all_conflicts : List NetworkCidrOwner → List NetworkConflict
all_conflicts [] = []
all_conflicts (o ∷ os) = conflicts_with o os ++ all_conflicts os

-- `NetworkConflicts`
unfoldable pub network_conflicts : M (List NetworkConflict)
network_conflicts = do owners ← network_cidr_owners; pure (all_conflicts owners)

abbrev pub candidate_owner : IpNet → NetworkCidrOwner
candidate_owner n = record { kind = "CIDR"; id = ""; name = ""; cidr = cidr_text n; ipnet = n }

-- The first owner, other than the one to ignore, whose network overlaps the candidate.
unfoldable pub first_overlap : IpNet → String → List NetworkCidrOwner → Option NetworkConflict
first_overlap candidate ignore_id [] = none
first_overlap candidate ignore_id (o ∷ os) =
    let rest = first_overlap candidate ignore_id os in
    if not (o.id =? "") && o.id =? ignore_id
    then rest
    else if cidr_overlaps candidate o.ipnet
    then some (network_conflict o (candidate_owner candidate))
    else rest

-- `findCIDROverlap`
unfoldable pub find_cidr_overlap : IpNet → String → M (Option NetworkConflict)
find_cidr_overlap candidate ignore_id = do
  owners ← network_cidr_owners
  pure (first_overlap candidate ignore_id owners)

-- `conflictError`
abbrev pub conflict_error : String → String → Error
conflict_error text field = conflict_fields text (if field =? "" then [] else (field, text) ∷ [])

abbrev pub shared_conflict : Network → Option NetworkConflict → M (Unit {0})
shared_conflict n none = pure tt
shared_conflict n (some c) = raise (
    conflict_fields
      (concat (
        "Shared network " ∷ n.name ∷ " is unusable because " ∷ n.cidr ∷ " overlaps "
        ∷ c.subject_name ∷ " " ∷ c.subject_cidr ∷ []))
      (("network_id", "select a non-overlapping shared network")
        ∷ ("cidr", concat ("overlaps " ∷ c.subject_name ∷ " " ∷ c.subject_cidr ∷ []))
        ∷ []))

-- What `net.ParseCIDR` says of a text that it does not read.
abbrev pub invalid_cidr : String → String
invalid_cidr cidr = concat ("invalid CIDR address: " ∷ cidr ∷ [])

-- `ensureSharedNetworkUsable`
unfoldable pub ensure_shared_network_usable : Network → M (Unit {0})
ensure_shared_network_usable n = do
  parsed ←
      or_raise (parse_cidr n.cidr)
        (invalid "Shared network CIDR is invalid" (("cidr", invalid_cidr n.cidr) ∷ []))
  found ← find_cidr_overlap parsed.1 n.id
  shared_conflict n found

abbrev pub routed_conflict : IpNet → Option NetworkConflict → M (Unit {0})
routed_conflict n none = pure tt
routed_conflict n (some c) = raise (
    conflict_error
      (concat
        ("VM network " ∷ cidr_text n ∷ " overlaps " ∷ c.subject_name ∷ " " ∷ c.subject_cidr ∷ []))
      "network")

abbrev pub routed_usable : Vm → Option IpNet → M (Unit {0})
routed_usable vm none = pure tt
routed_usable vm (some n) = do found ← find_cidr_overlap n vm.id; routed_conflict n found

-- `ensureVMNetworkUsable`
unfoldable pub ensure_vm_network_usable : Vm → M (Unit {0})
ensure_vm_network_usable vm =
    if vm.network_mode =? "shared_bridge"
    then (do
      found ← get_network vm.network_id
      network ← or_raise found (not_found "network_id does not exist")
      ensure_shared_network_usable network)
    else if vm.network_mode =? "routed_ptp" || vm.network_mode =? ""
    then routed_usable vm (vm_routed_cidr vm)
    else pure tt

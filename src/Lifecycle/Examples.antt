-- ===== src/Lifecycle/Examples.antt =====
-- Runs of the lifecycle service at small databases, and the theorems at them.
use bap_web.Prelude.{
  keep, ℕ, suc, ◌-◌, pos, true, none, some, List, [], ◌∷◌, map, any, ◌≡◌, ◌⊎◌, ◌↔◌, refl, arith,
  All, find,
}
use bap_web.Model.{VmState, IngressRule}
use bap_web.Store.Table.{delete, update, order_by}
use bap_web.Store.Vms.{has_id, list_vms, get_vm, update_vm, refuse_clash}
use bap_web.World.{
  World, Env, ok, Result, ◌>>=◌, attempt, quiet, when, refuse_if, statement, perform, output_of,
  time_now, modify,
}
use bap_web.Lifecycle.Vms.{
  start_vm, stop_vm, the_vm, settle, kill_vm, fail_vm, launch, bring_up, process_running,
  already_running, ensure_tap_name,
}
use bap_web.Lifecycle.Boot.{
  clear_jail, start_jailer, mount_jail, boot, boot_args_for_vm, start_firecracker, ensure_bridge,
  setup_tap,
}
use bap_web.Lifecycle.Firewall.{
  apply_nft, apply_firewalld_metadata, default_if, egress_nft_rules, nft_vms, rich_rules, run_all,
  shared_network, split_csv, vm_rules,
}
use bap_web.Lifecycle.Names.{bridge_name, dir, tap_name_for_id, valid_if_name, cleanup_ok, report}
use bap_web.Lifecycle.Cleanup.{
  cleanup_vm_runtime, cleanup_tap, delete_tap_device, delete_attempts, delete_link,
}
use bap_web.Lifecycle.Net.{
  IpNet, size32, cidr_overlaps, cidr_prefix, cidr_text, digits, ip_text, number, octet, parse_ip,
  parse_cidr,
}
use bap_web.Lifecycle.Overlap.{
  ensure_vm_network_usable, ensure_shared_network_usable, network_conflict, network_cidr_owners,
  find_cidr_overlap, first_overlap, vm_routed_cidr,
}
use bap_web.Store.Assets.{get_kernel}
use bap_web.Store.Networks.{get_egress_policy, get_network, list_networks, list_ingress_rules}
use bap_web.Text.{
  byte_prefix, byte_len, concat, contains, contains_any, fields, has_prefix, itoa, join, split,
  split_from, trim_space, to_lower,
}
use bap_web.Lifecycle.Overlap.Shared.{In, cidr_overlaps-shared}
use bap_web.Lifecycle.Alloc.{allocate_port, allocate_p2p, parse_range, Addresses, nets_of}
use bap_web.Lifecycle.Alloc.Ports.{allocate_port-Free, Free, ports_in_use}
use bap_web.Lifecycle.Overlap.Search.{NetworkApart, VmApart, find_cidr_overlap-Apart}
use bap_web.Lifecycle.Alloc.{validate_shared_network}
use bap_web.Lifecycle.Alloc.Networks.{Usable, validate_shared_network-Usable}
use bap_web.Lifecycle.Alloc.Blocks.{allocate_p2p-free, FreeBlock}
use bap_web.Lifecycle.Rules.{add_ingress_rule, ports_of, new_rule, is_port}
use bap_web.Store.Networks.{create_ingress_rule}
use bap_web.Lifecycle.Alloc.{port_open}
use bap_web.World.{random_hex}
use bap_web.Store.Vms.{used_ssh_ports}
use bap_web.Lifecycle.Rules.Ingress.{Added, add_ingress_rule-Added}
use bap_web.Lifecycle.Rules.Policies.{NewPorts, ports_of-NewPorts}
use bap_web.Lifecycle.Vms.Calls.{VmCall, operate, operate_all}
use bap_web.Lifecycle.Vms.Trouble.{Trouble}
use bap_web.Errors.{Error}
use bap_web.Lifecycle.Vms.Bounds.{InBounds, operate_all-bounds}
use bap_web.Lifecycle.Vms.Frame.{operate-others}
use bap_web.Lifecycle.Vms.Outcome.{Runs, start_vm-running}
use bap_web.Lifecycle.Vms.Failure.{Shows, stop_vm-stopped}
use bap_web.Lifecycle.Fixtures.{calm, site, web, small}

starts : (start_vm site "v1" small).0 ≡ ok tt
unfolding start_vm stop_vm the_vm settle kill_vm fail_vm launch bring_up process_running
    already_running ensure_tap_name clear_jail start_jailer mount_jail boot boot_args_for_vm
    start_firecracker ensure_bridge setup_tap apply_nft apply_firewalld_metadata default_if
    egress_nft_rules nft_vms rich_rules run_all shared_network split_csv vm_rules bridge_name dir
    tap_name_for_id valid_if_name cleanup_ok report cleanup_vm_runtime cleanup_tap delete_tap_device
    delete_attempts delete_link cidr_overlaps cidr_prefix cidr_text digits ip_text number octet
    parse_ip parse_cidr ensure_vm_network_usable ensure_shared_network_usable network_conflict
    network_cidr_owners find_cidr_overlap first_overlap vm_routed_cidr get_kernel get_egress_policy
    get_network list_networks list_ingress_rules list_vms get_vm update_vm refuse_clash has_id
    update delete order_by byte_prefix byte_len concat contains contains_any fields has_prefix itoa
    join split split_from trim_space to_lower ◌>>=◌ attempt quiet when refuse_if statement perform
    output_of time_now modify any find keep
starts = refl

start_vm-running_example : Runs (start_vm site "v1" small).1.db "v1"
start_vm-running_example = start_vm-running site small "v1" starts

stops : (stop_vm site "v1" small).0 ≡ ok tt
unfolding start_vm stop_vm the_vm settle kill_vm fail_vm launch bring_up process_running
    already_running ensure_tap_name clear_jail start_jailer mount_jail boot boot_args_for_vm
    start_firecracker ensure_bridge setup_tap apply_nft apply_firewalld_metadata default_if
    egress_nft_rules nft_vms rich_rules run_all shared_network split_csv vm_rules bridge_name dir
    tap_name_for_id valid_if_name cleanup_ok report cleanup_vm_runtime cleanup_tap delete_tap_device
    delete_attempts delete_link cidr_overlaps cidr_prefix cidr_text digits ip_text number octet
    parse_ip parse_cidr ensure_vm_network_usable ensure_shared_network_usable network_conflict
    network_cidr_owners find_cidr_overlap first_overlap vm_routed_cidr get_kernel get_egress_policy
    get_network list_networks list_ingress_rules list_vms get_vm update_vm refuse_clash has_id
    update delete order_by byte_prefix byte_len concat contains contains_any fields has_prefix itoa
    join split split_from trim_space to_lower ◌>>=◌ attempt quiet when refuse_if statement perform
    output_of time_now modify any find keep
stops = refl

stop_vm-stopped_example : Shows (stop_vm site "v1" small).1.db "v1" VmState.stopped ""
stop_vm-stopped_example = stop_vm-stopped site small "v1" stops

abbrev calls : List VmCall
calls = VmCall.start "v1" ∷ VmCall.resize "v1" (pos 64) (pos 256) true ∷ []

bounded : InBounds web
bounded = record {
  vcpus_least = omega arith;
  vcpus_most = omega arith;
  mem_least = omega arith;
  mem_most = omega arith;
}

operate_all-bounds_example : All InBounds (operate_all site calls small).1.db.vms
operate_all-bounds_example = operate_all-bounds site calls small (bounded, tt)

-- The database answers and every command fails.
abbrev broken : World
broken = record small { env = record calm { outcome = λ n a. some (Error.plain "no host") } }

abbrev no_tap : Error
no_tap = Error.plain "no host"

operate-others_example :
    delete (has_id "v1") (operate site (VmCall.remove "v1") small).1.db.vms
    ≡ delete (has_id "v1") small.db.vms
operate-others_example = operate-others site (VmCall.remove "v1") small

gives-port : (allocate_port site (pos 0) small).0 ≡ ok 2201
unfolding allocate_port bap_web.World.◌>>=◌ parse_range bap_web.Text.split
    bap_web.Lifecycle.Net.number bap_web.Store.Vms.used_ssh_ports bap_web.World.statement
    bap_web.Store.Vms.used_ingress_host_ports bap_web.Lifecycle.Alloc.first_port any
    bap_web.Lifecycle.Alloc.port_open bap_web.World.perform
gives-port = refl

allocate_port-Free_example :
    (start : ℕ) × (end : ℕ) × (parse_range "2200-2210" ≡ some (start, end))
    × Free start (suc end - start) (ports_in_use small) 2201
    × ((pos 0 ≡ pos 0) ⊎ (pos 0 ≡ pos 2201))
allocate_port-Free_example = allocate_port-Free site (pos 0) small 2201 gives-port

abbrev next_block : Addresses
next_block = record { host_ip = "172.30.0.5"; guest_ip = "172.30.0.6"; cidr = 30 }

gives-block : (allocate_p2p site small).0 ≡ ok next_block
unfolding allocate_p2p bap_web.World.◌>>=◌ bap_web.Store.Vms.used_guest_ips bap_web.World.statement
    parse_cidr bap_web.Text.split bap_web.Lifecycle.Net.parse_ip bap_web.World.refuse_if
    bap_web.Lifecycle.Alloc.shared_network_cidrs bap_web.Store.Networks.list_networks
    bap_web.Lifecycle.Alloc.p2p_from any bap_web.Lifecycle.Net.ip_text bap_web.Text.concat
    bap_web.Text.itoa bap_web.Store.Table.order_by
gives-block = refl

allocate_p2p-free_example :
    (p : ℕ × IpNet) × (parse_cidr "172.30.0.0/24" ≡ some p)
    × (o : ℕ) × FreeBlock p.1.base
        (size32 p.1.ones)
        o
        (map (λ r. r.guest_ip) small.db.vms)
        (nets_of small.db.networks)
        next_block
allocate_p2p-free_example = allocate_p2p-free site small next_block gives-block

abbrev forward : IngressRule
forward = record {
  id = "ab";
  vm_id = "v1";
  protocol = "tcp";
  host_port = 8080;
  guest_port = 80;
  description = "site";
  created_at = 4;
}

adds : (add_ingress_rule site "v1" "TCP " (pos 8080) (pos 80) " site" small).0 ≡ ok forward
unfolding add_ingress_rule new_rule is_port used_ssh_ports port_open create_ingress_rule the_vm
    get_vm ◌>>=◌ statement perform refuse_if refuse_clash when random_hex time_now modify find any
    to_lower trim_space has_id
adds = refl

add_ingress_rule-Added_example :
    Added small (add_ingress_rule site "v1" "TCP " (pos 8080) (pos 80) " site" small).1 "v1" forward
add_ingress_rule-Added_example =
    add_ingress_rule-Added site small "v1" "TCP " (pos 8080) (pos 80) " site" forward adds

reads-ports : ports_of [] ("80" ∷ "443" ∷ "80" ∷ []) ≡ ok (80 ∷ 443 ∷ [])
unfolding ports_of bap_web.Lifecycle.Alloc.atoi bap_web.Lifecycle.Net.number any
reads-ports = refl

ports_of-NewPorts_example : NewPorts [] (80 ∷ 443 ∷ [])
ports_of-NewPorts_example =
    ports_of-NewPorts [] ("80" ∷ "443" ∷ "80" ∷ []) (80 ∷ 443 ∷ []) reads-ports

abbrev wide : IpNet
wide = record { base = 256; ones = 24 }

abbrev narrow : IpNet
narrow = record { base = 260; ones = 30 }

cidr_overlaps-shared_example :
    (cidr_overlaps wide narrow ≡ true) ↔ ((ip : ℕ) × In wide ip × In narrow ip)
cidr_overlaps-shared_example = cidr_overlaps-shared wide narrow

valid-network :
    (validate_shared_network site "172.30.0.64/26" "" small).0
    ≡ ok (record { base = 2887647296; ones = 26 }, 2887647297)
unfolding validate_shared_network ◌>>=◌ parse_cidr split trim_space parse_ip refuse_if
    bap_web.Lifecycle.Net.cidr_within find_cidr_overlap network_cidr_owners list_networks statement
    list_vms first_overlap order_by vm_routed_cidr cidr_overlaps
valid-network = refl

validate_shared_network-Usable_example :
    Usable site small
      (parse_ip (trim_space ""))
      (record { base = 2887647296; ones = 26 })
      2887647297
validate_shared_network-Usable_example =
    validate_shared_network-Usable site small "172.30.0.64/26" ""
      (record { base = 2887647296; ones = 26 }) 2887647297 valid-network

no-overlap : (find_cidr_overlap (record { base = 2887647296; ones = 26 }) "" small).0 ≡ ok none
unfolding find_cidr_overlap ◌>>=◌ network_cidr_owners list_networks statement list_vms first_overlap
    order_by vm_routed_cidr parse_ip split cidr_overlaps
no-overlap = refl

find_cidr_overlap-Apart_example :
    All (NetworkApart (record { base = 2887647296; ones = 26 }) "") small.db.networks
    × All (VmApart (record { base = 2887647296; ones = 26 }) "") small.db.vms
find_cidr_overlap-Apart_example =
    find_cidr_overlap-Apart (record { base = 2887647296; ones = 26 }) "" small no-overlap

-- ===== src/Lifecycle/Quiet.antt =====
-- What the host does for a virtual machine writes nothing to the database.
use bap_web.Prelude.{ℕ, zero, suc, String, Option, none, some, List, [], ◌∷◌}
use bap_web.Model.{Vm, Network}
use bap_web.Config.{Config}
use bap_web.Errors.{Error}
use bap_web.Store.Db.{Db}
use bap_web.Store.Keeps.{query_rules}
use bap_web.Store.Assets.{get_kernel}
use bap_web.World.{Env, M, Result, ok, err}
use bap_web.World.Keeps.{Keeps, Keeps-bind, Keeps-try, Keeps-perform}
use bap_web.Lifecycle.Names.{report}
use bap_web.Lifecycle.Cleanup.{
  delete_link, link_delete_result, delete_round, delete_attempts, delete_tap_device, cleanup_tap,
  cleanup_bridge, cleanup_vm_runtime,
}
use bap_web.Lifecycle.Overlap.{
  network_cidr_owners, find_cidr_overlap, shared_conflict, ensure_shared_network_usable,
  routed_conflict, routed_usable, ensure_vm_network_usable, NetworkConflict,
}
use bap_web.Lifecycle.Net.{IpNet}
use bap_web.Lifecycle.Firewall.{
  default_if, egress_nft_rules, returned, run_all, vm_rules, Met, meet, shared_network, nft_vms,
  unless_says, rich_rules, apply_firewalld_metadata, apply_nft,
}
use bap_web.Lifecycle.Boot.{
  ensure_bridge, setup_tap, boot_args_for_vm, clear_jail, start_jailer, mount_jail, boot,
  start_firecracker,
}

module _ {P : Env → Db → Type 0} where
  Keeps-report : (es : List String) → Keeps P (report es)
  unfolding report
  Keeps-report [] = search query_rules
  Keeps-report (e ∷ es) = search query_rules

  Keeps-link_delete_result :
      (last : Error) (r : Result (Unit {0})) → Keeps P (link_delete_result last r)
  Keeps-link_delete_result last (ok _) = search query_rules
  Keeps-link_delete_result last (err e) = search query_rules

  Keeps-delete_link : (name : String) (last : Error) → Keeps P (delete_link name last)
  unfolding delete_link
  Keeps-delete_link name last = search (query_rules, Keeps-link_delete_result)

  Keeps-delete_round :
      (next : Error → M (Unit {0})) (name : String) (r : Result (Unit {0}))
      → ((e : Error) → Keeps P (next e))
      → Keeps P (delete_round next name r)
  Keeps-delete_round next name (ok _) k = search query_rules
  Keeps-delete_round next name (err e) k = search (query_rules, Keeps-delete_link, k) depth 14

  Keeps-delete_attempts :
      (n : ℕ) (name : String) (last : Error) → Keeps P (delete_attempts n name last)
  unfolding delete_attempts
  Keeps-delete_attempts zero name last = Keeps-delete_link name last
  Keeps-delete_attempts (suc n) name last =
      Keeps-bind _ _ (Keeps-try _ (Keeps-perform _))
        λ r. Keeps-delete_round _ name r (Keeps-delete_attempts n name)

  pub Keeps-cleanup_tap : (name : String) → Keeps P (cleanup_tap name)
  unfolding cleanup_tap delete_tap_device
  Keeps-cleanup_tap name = search (query_rules, Keeps-delete_attempts, Keeps-report) depth 14

  pub Keeps-cleanup_bridge : (name : String) → Keeps P (cleanup_bridge name)
  unfolding cleanup_bridge
  Keeps-cleanup_bridge name = search (query_rules, Keeps-report) depth 14

  pub Keeps-cleanup_vm_runtime : (cfg : Config) (vm : Vm) → Keeps P (cleanup_vm_runtime cfg vm)
  unfolding cleanup_vm_runtime
  Keeps-cleanup_vm_runtime cfg vm = search (query_rules, Keeps-cleanup_tap, Keeps-report) depth 14

  Keeps-find_cidr_overlap : (n : IpNet) (id : String) → Keeps P (find_cidr_overlap n id)
  unfolding find_cidr_overlap network_cidr_owners
  Keeps-find_cidr_overlap n id = search query_rules

  Keeps-shared_conflict : (n : Network) (c : Option NetworkConflict) → Keeps P (shared_conflict n c)
  Keeps-shared_conflict n none = search query_rules
  Keeps-shared_conflict n (some c) = search query_rules

  pub Keeps-ensure_shared_network_usable : (n : Network) → Keeps P (ensure_shared_network_usable n)
  unfolding ensure_shared_network_usable
  Keeps-ensure_shared_network_usable n =
      search (query_rules, Keeps-find_cidr_overlap, Keeps-shared_conflict)

  Keeps-routed_conflict : (n : IpNet) (c : Option NetworkConflict) → Keeps P (routed_conflict n c)
  Keeps-routed_conflict n none = search query_rules
  Keeps-routed_conflict n (some c) = search query_rules

  Keeps-routed_usable : (vm : Vm) (n : Option IpNet) → Keeps P (routed_usable vm n)
  Keeps-routed_usable vm none = search query_rules
  Keeps-routed_usable vm (some n) =
      search (query_rules, Keeps-find_cidr_overlap, Keeps-routed_conflict)

  pub Keeps-ensure_vm_network_usable : (vm : Vm) → Keeps P (ensure_vm_network_usable vm)
  unfolding ensure_vm_network_usable
  Keeps-ensure_vm_network_usable vm =
      search (query_rules, Keeps-ensure_shared_network_usable, Keeps-routed_usable) depth 10

  pub Keeps-returned : {A : Type 0} (r : Result A) → Keeps P (returned r)
  Keeps-returned (ok a) = search query_rules
  Keeps-returned (err e) = search query_rules

  Keeps-run_all : (cs : List String) → Keeps P (run_all cs)
  unfolding run_all
  Keeps-run_all [] = search query_rules
  Keeps-run_all (c ∷ cs) = Keeps-bind _ _ (Keeps-perform _) λ _. Keeps-run_all cs

  Keeps-vm_rules : (cfg : Config) (lan dev : String) (vm : Vm) → Keeps P (vm_rules cfg lan dev vm)
  unfolding vm_rules egress_nft_rules
  Keeps-vm_rules cfg lan dev vm = search (query_rules, Keeps-returned, Keeps-run_all) depth 14

  Keeps-meet : (seen : Met) (vm : Vm) (p : Option (String × Network)) → Keeps P (meet seen vm p)
  Keeps-meet seen vm none = search query_rules depth 14
  Keeps-meet seen vm (some p) = search query_rules

  Keeps-shared_network : (seen : Met) (vm : Vm) → Keeps P (shared_network seen vm)
  unfolding shared_network
  Keeps-shared_network seen vm = Keeps-meet seen vm _

  Keeps-nft_vms :
      (cfg : Config) (lan : String) (seen : Met) (vms : List Vm)
      → Keeps P (nft_vms cfg lan seen vms)
  unfolding nft_vms
  Keeps-nft_vms cfg lan seen [] = search query_rules
  Keeps-nft_vms cfg lan seen (vm ∷ vms) =
      search
        (
          query_rules,
          Keeps-shared_network,
          Keeps-vm_rules,
          λ (s : Met). Keeps-nft_vms cfg lan s vms,
        )
        depth 14

  Keeps-unless_says : (phrase : String) (r : Result (Unit {0})) → Keeps P (unless_says phrase r)
  Keeps-unless_says phrase (ok _) = search query_rules
  Keeps-unless_says phrase (err e) = search query_rules

  Keeps-rich_rules : (cfg : Config) (vms : List Vm) → Keeps P (rich_rules cfg vms)
  unfolding rich_rules
  Keeps-rich_rules cfg [] = search query_rules
  Keeps-rich_rules cfg (vm ∷ vms) =
      let rest : Keeps P (rich_rules cfg vms) = Keeps-rich_rules cfg vms in
      search (query_rules, Keeps-unless_says) depth 14

  pub Keeps-apply_nft : (cfg : Config) → Keeps P (apply_nft cfg)
  unfolding apply_nft default_if apply_firewalld_metadata
  Keeps-apply_nft cfg =
      search (query_rules, Keeps-run_all, Keeps-nft_vms, Keeps-rich_rules) depth 20

  pub Keeps-setup_tap : (vm : Vm) → Keeps P (setup_tap vm)
  unfolding setup_tap ensure_bridge
  Keeps-setup_tap vm = search (query_rules, Keeps-unless_says) depth 24

  Keeps-boot_args_for_vm : (vm : Vm) → Keeps P (boot_args_for_vm vm)
  unfolding boot_args_for_vm get_kernel
  Keeps-boot_args_for_vm vm = search query_rules

  pub Keeps-start_firecracker : (cfg : Config) (vm : Vm) → Keeps P (start_firecracker cfg vm)
  unfolding start_firecracker clear_jail start_jailer mount_jail boot
  Keeps-start_firecracker cfg vm = search (query_rules, Keeps-boot_args_for_vm) depth 30

pub ruleset host_rules = (
  query_rules, Keeps-cleanup_vm_runtime, Keeps-ensure_vm_network_usable, Keeps-returned,
  Keeps-apply_nft, Keeps-setup_tap, Keeps-start_firecracker,
)

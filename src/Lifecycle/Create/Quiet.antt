-- ===== src/Lifecycle/Create/Quiet.antt =====
-- What `CreateVM` does before its row is written changes nothing in the database.
use bap_web.Prelude.{ℕ, zero, suc, ℤ, String, Bool, Option, none, some, List}
use bap_web.Model.{Vm, Network, BaseImage}
use bap_web.Config.{Config}
use bap_web.Errors.{Error}
use bap_web.Store.Db.{Db}
use bap_web.Store.Keeps.{query_rules}
use bap_web.Store.Assets.{get_kernel, default_kernel, get_base_image, default_base_image}
use bap_web.World.{Env, Result, ok, err}
use bap_web.World.Keeps.{Keeps}
use bap_web.Lifecycle.Quiet.{Keeps-returned, Keeps-ensure_shared_network_usable}
use bap_web.Lifecycle.Alloc.{
  allocate_port, first_port, asked_port, port_open, allocate_network, allocate_p2p, allocate_shared,
  shared_network_cidrs,
}
use bap_web.Lifecycle.Create.{CreateRequest, egress_mode_for, primary_key_for, check_request}
use bap_web.Lifecycle.Create.Resolve.{
  stated, requested_base_image, require_file, resolve_kernel_for_vm, image_size,
  resolve_base_image_for_vm,
}
use bap_web.Lifecycle.Create.Disk.{
  grow_rootfs, grow_found, resize_found, copy_rootfs, prepare_rootfs_image, resize_mounted_rootfs,
  include_drop_ins, write_guest_ssh_key_support, write_guest_files, fill_rootfs, mounted,
  unmount_left, prepare_rootfs,
}

module _ {P : Env → Db → Type 0} where
  Keeps-get_base_image : (id : String) → Keeps P (get_base_image id)
  unfolding get_base_image
  Keeps-get_base_image id = search query_rules

  Keeps-grow : (o : Option BaseImage) (file : String) → Keeps P (grow_found file o)
  Keeps-grow none file = search query_rules
  Keeps-grow (some i) file = search query_rules

  Keeps-grow_rootfs : (vm : Vm) → Keeps P (grow_rootfs vm)
  unfolding grow_rootfs
  Keeps-grow_rootfs vm = search (query_rules, Keeps-get_base_image, Keeps-grow)

  Keeps-copy_rootfs : (vm : Vm) (r : Result (Option ℕ)) → Keeps P (copy_rootfs vm r)
  unfolding copy_rootfs
  Keeps-copy_rootfs vm (ok none) = search query_rules
  Keeps-copy_rootfs vm (ok (some n)) = search query_rules
  Keeps-copy_rootfs vm (err e) = search query_rules

  Keeps-prepare_rootfs_image : (vm : Vm) → Keeps P (prepare_rootfs_image vm)
  unfolding prepare_rootfs_image
  Keeps-prepare_rootfs_image vm =
      search (query_rules, Keeps-copy_rootfs, Keeps-grow_rootfs) depth 20

  Keeps-resized : (o : Option BaseImage) (root : String) → Keeps P (resize_found root o)
  Keeps-resized none root = search query_rules
  Keeps-resized (some i) root = search query_rules

  Keeps-resize_mounted_rootfs : (vm : Vm) (root : String) → Keeps P (resize_mounted_rootfs vm root)
  unfolding resize_mounted_rootfs
  Keeps-resize_mounted_rootfs vm root = search (query_rules, Keeps-get_base_image, Keeps-resized)

  Keeps-include_drop_ins : (file : String) (r : Result String) → Keeps P (include_drop_ins file r)
  Keeps-include_drop_ins file (ok text) = search query_rules
  Keeps-include_drop_ins file (err e) = search query_rules

  Keeps-write_guest_ssh_key_support :
      (root : String) (vm : Vm) (port : ℕ) → Keeps P (write_guest_ssh_key_support root vm port)
  unfolding write_guest_ssh_key_support
  Keeps-write_guest_ssh_key_support root vm port =
      search (query_rules, Keeps-include_drop_ins) depth 24

  Keeps-write_guest_files :
      (root : String) (vm : Vm) (port : ℕ) → Keeps P (write_guest_files root vm port)
  unfolding write_guest_files
  Keeps-write_guest_files root vm port =
      search (query_rules, Keeps-returned, Keeps-write_guest_ssh_key_support) depth 24

  Keeps-fill_rootfs : (cfg : Config) (vm : Vm) (root : String) → Keeps P (fill_rootfs cfg vm root)
  unfolding fill_rootfs
  Keeps-fill_rootfs cfg vm root =
      search (query_rules, Keeps-returned, Keeps-resize_mounted_rootfs, Keeps-write_guest_files)
        depth 24

  Keeps-unmount_left : (root : String) (r : Result String) → Keeps P (unmount_left root r)
  Keeps-unmount_left root (ok _) = search query_rules
  Keeps-unmount_left root (err _) = search query_rules

  Keeps-mounted :
      (cfg : Config) (vm : Vm) (root : String) (r : Result (Unit {0}))
      → Keeps P (mounted cfg vm root r)
  Keeps-mounted cfg vm root (err e) = search query_rules
  Keeps-mounted cfg vm root (ok _) =
      search (query_rules, Keeps-returned, Keeps-fill_rootfs, Keeps-unmount_left) depth 16

  pub Keeps-prepare_rootfs : (cfg : Config) (vm : Vm) → Keeps P (prepare_rootfs cfg vm)
  unfolding prepare_rootfs
  Keeps-prepare_rootfs cfg vm =
      search (query_rules, Keeps-prepare_rootfs_image, Keeps-mounted) depth 16

  Keeps-get_kernel : (id : String) → Keeps P (get_kernel id)
  unfolding get_kernel
  Keeps-get_kernel id = search query_rules

  Keeps-default_kernel : Keeps P default_kernel
  unfolding default_kernel
  Keeps-default_kernel = search query_rules

  Keeps-default_base_image : Keeps P default_base_image
  unfolding default_base_image
  Keeps-default_base_image = search query_rules

  Keeps-stated : (failure : String → Error) (r : Result (Unit {0})) → Keeps P (stated failure r)
  Keeps-stated failure (ok _) = search query_rules
  Keeps-stated failure (err e) = search query_rules

  pub Keeps-requested_base_image : (id : String) → Keeps P (requested_base_image id)
  Keeps-requested_base_image id =
      search (query_rules, Keeps-get_base_image, Keeps-default_base_image)

  pub Keeps-require_file :
      (file : String) (failure : String → Error) → Keeps P (require_file file failure)
  unfolding require_file
  Keeps-require_file file failure = search (query_rules, Keeps-stated)

  pub Keeps-resolve_kernel_for_vm :
      (id : String) (pending : Bool) → Keeps P (resolve_kernel_for_vm id pending)
  unfolding resolve_kernel_for_vm
  Keeps-resolve_kernel_for_vm id pending =
      search (query_rules, Keeps-get_kernel, Keeps-default_kernel, Keeps-require_file) depth 12

  Keeps-image_size : (file : String) → Keeps P (image_size file)
  unfolding image_size
  Keeps-image_size file = search query_rules

  pub Keeps-resolve_base_image_for_vm :
      (cfg : Config) (id : String) (requested : ℤ)
      → Keeps P (resolve_base_image_for_vm cfg id requested)
  unfolding resolve_base_image_for_vm
  Keeps-resolve_base_image_for_vm cfg id requested =
      search
        (
          query_rules, Keeps-get_base_image, Keeps-default_base_image, Keeps-require_file,
          Keeps-image_size,
        )
        depth 16

  Keeps-egress_mode_for : (req : CreateRequest) (mode : String) → Keeps P (egress_mode_for req mode)
  unfolding egress_mode_for
  Keeps-egress_mode_for req mode = search query_rules

  pub Keeps-primary_key_for : (req : CreateRequest) → Keeps P (primary_key_for req)
  unfolding primary_key_for
  Keeps-primary_key_for req = search query_rules

  pub Keeps-check_request : (cfg : Config) (req : CreateRequest) → Keeps P (check_request cfg req)
  unfolding check_request
  Keeps-check_request cfg req = search (query_rules, Keeps-returned, Keeps-egress_mode_for) depth 20

  Keeps-port_open : (p : ℕ) → Keeps P (port_open p)
  unfolding port_open
  Keeps-port_open p = search query_rules

  Keeps-first_port : (n p : ℕ) (used : List ℕ) → Keeps P (first_port n p used)
  unfolding first_port
  Keeps-first_port zero p used = search query_rules
  Keeps-first_port (suc n) p used =
      let later : Keeps P (first_port n (suc p) used) = Keeps-first_port n (suc p) used in
      search (query_rules, Keeps-port_open)

  Keeps-asked_port :
      (start end : ℕ) (used : List ℕ) (requested : ℤ)
      → Keeps P (asked_port start end used requested)
  unfolding asked_port
  Keeps-asked_port start end used requested = search (query_rules, Keeps-port_open)

  pub Keeps-allocate_port : (cfg : Config) (requested : ℤ) → Keeps P (allocate_port cfg requested)
  unfolding allocate_port
  Keeps-allocate_port cfg requested = search (query_rules, Keeps-first_port, Keeps-asked_port)

  Keeps-shared_network_cidrs : Keeps P shared_network_cidrs
  unfolding shared_network_cidrs
  Keeps-shared_network_cidrs = search query_rules

  Keeps-allocate_p2p : (cfg : Config) → Keeps P (allocate_p2p cfg)
  unfolding allocate_p2p
  Keeps-allocate_p2p cfg = search (query_rules, Keeps-shared_network_cidrs)

  Keeps-allocate_shared : (n : Network) → Keeps P (allocate_shared n)
  unfolding allocate_shared
  Keeps-allocate_shared n = search query_rules depth 12

  pub Keeps-allocate_network :
      (cfg : Config) (mode id : String) → Keeps P (allocate_network cfg mode id)
  unfolding allocate_network
  Keeps-allocate_network cfg mode id =
      search
        (query_rules, Keeps-allocate_p2p, Keeps-allocate_shared, Keeps-ensure_shared_network_usable)
        depth 12

-- ===== src/Lifecycle/Create/Examples.antt =====
-- A machine that is made in a database with a kernel, an image and a key, and the theorems at it.
use bap_web.Prelude.{
  ℕ, ℤ, pos, String, Bool, true, false, Option, none, some, List, [], ◌∷◌, ◌≡◌, refl,
}
use bap_web.Model.{Vm}
use bap_web.World.{World, Result, ok}
use bap_web.Lifecycle.Fixtures.{linux, debian, stocked, site, web}
use bap_web.Lifecycle.Create.{CreateRequest, create_machine}
use bap_web.Lifecycle.Create.Resolve.{resolve_kernel_for_vm, resolve_base_image_for_vm}
use bap_web.Lifecycle.Create.Choice.{
  KernelChosen, ImageChosen, resolve_kernel_for_vm-Chosen, resolve_base_image_for_vm-Chosen,
}
use bap_web.Lifecycle.Create.Made.{Created, create_machine-Created}

abbrev wanted : CreateRequest
wanted = record {
  name = " db ";
  vcpu_count = pos 4;
  mem_mib = pos 2048;
  ssh_port = pos 0;
  dev_user = "";
  ssh_key_id = "";
  extra_authorized_keys = "ssh-ed25519 AAAA";
  repo_url = "";
  git_ref = "";
  egress_mode = "";
  egress_policy_id = "";
  network_mode = "";
  network_id = "";
  base_image_id = "i1";
  rootfs_size_mib = pos 4096;
  kernel_id = "";
  allow_pending_kernel = false;
}

boots : (resolve_kernel_for_vm "" false stocked).0 ≡ ok linux
unfolding resolve_kernel_for_vm bap_web.World.◌>>=◌ bap_web.Store.Assets.default_kernel
    bap_web.World.statement bap_web.Store.Table.order_by bap_web.Prelude.keep
    bap_web.World.refuse_if bap_web.Lifecycle.Create.Resolve.require_file bap_web.World.perform
boots = refl

resolve_kernel_for_vm-Chosen_example : KernelChosen stocked.db "" false linux
resolve_kernel_for_vm-Chosen_example = resolve_kernel_for_vm-Chosen "" false stocked linux boots

fits : (resolve_base_image_for_vm site "i1" (pos 4096) stocked).0 ≡ ok (debian, pos 4096)
unfolding resolve_base_image_for_vm bap_web.World.◌>>=◌ bap_web.Store.Assets.get_base_image
    bap_web.World.statement bap_web.Prelude.find bap_web.World.refuse_if
    bap_web.Lifecycle.Create.Resolve.require_file bap_web.World.perform
fits = refl

resolve_base_image_for_vm-Chosen_example :
    ImageChosen site stocked.env stocked.db "i1" debian (pos 4096)
resolve_base_image_for_vm-Chosen_example =
    resolve_base_image_for_vm-Chosen site "i1" (pos 4096) stocked debian (pos 4096) fits

-- The machine that is made.
abbrev made : Vm
made = record web {
  id = "ab";
  name = "db";
  vcpu_count = pos 4;
  mem_mib = pos 2048;
  ssh_port = 2201;
  tap_name = "tap-ab";
  host_ip = "172.30.0.5";
  guest_ip = "172.30.0.6";
  kernel_path = "/kernels/k1";
  kernel_id = "k1";
  rootfs_path = "/images/db/rootfs.ext4";
  base_rootfs_path = "/base/i1";
  base_image_id = "i1";
  rootfs_size_mib = pos 4096;
  extra_authorized_keys = "ssh-ed25519 AAAA";
  git_ref = "HEAD";
  created_at = 11;
  updated_at = 11;
}

makes : (create_machine site wanted stocked).0 ≡ ok made
unfolding create_machine bap_web.World.◌>>=◌ bap_web.Lifecycle.Create.check_request
    bap_web.World.refuse_if bap_web.Lifecycle.Rules.matches_name bap_web.Text.trim_space
    bap_web.Text.byte_len bap_web.Lifecycle.Create.Disk.normalize_dev_user
    bap_web.Lifecycle.Create.Disk.matches_dev_user bap_web.Lifecycle.Create.egress_mode_for
    bap_web.Store.Vms.get_vm_by_name bap_web.World.statement bap_web.Prelude.find
    resolve_kernel_for_vm bap_web.Store.Assets.default_kernel bap_web.Store.Table.order_by
    bap_web.Prelude.keep bap_web.Lifecycle.Create.Resolve.require_file bap_web.World.perform
    resolve_base_image_for_vm bap_web.Store.Assets.get_base_image
    bap_web.Lifecycle.Create.primary_key_for bap_web.Lifecycle.Alloc.allocate_port
    bap_web.Lifecycle.Alloc.parse_range bap_web.Text.split bap_web.Lifecycle.Net.number
    bap_web.Store.Vms.used_ssh_ports bap_web.Store.Vms.used_ingress_host_ports
    bap_web.Lifecycle.Alloc.first_port bap_web.Prelude.any bap_web.Lifecycle.Alloc.port_open
    bap_web.World.random_hex bap_web.Lifecycle.Alloc.allocate_network
    bap_web.Lifecycle.Alloc.allocate_p2p bap_web.Store.Vms.used_guest_ips
    bap_web.Lifecycle.Net.parse_cidr bap_web.Lifecycle.Net.parse_ip bap_web.Lifecycle.Net.octet
    bap_web.Lifecycle.Net.digits bap_web.Lifecycle.Alloc.shared_network_cidrs
    bap_web.Store.Networks.list_networks bap_web.Lifecycle.Alloc.p2p_from
    bap_web.Lifecycle.Net.ip_text bap_web.Text.itoa bap_web.Text.concat bap_web.World.time_now
    bap_web.Lifecycle.Names.tap_name_for_id bap_web.Text.byte_prefix bap_web.Text.join
    bap_web.Lifecycle.Create.Disk.prepare_rootfs bap_web.Lifecycle.Create.Disk.prepare_rootfs_image
    bap_web.Lifecycle.Create.Disk.copy_rootfs bap_web.Lifecycle.Create.Disk.grow_rootfs
    bap_web.World.quiet bap_web.World.size_of bap_web.World.try bap_web.World.read_file
    bap_web.Lifecycle.Create.Disk.fill_rootfs bap_web.Lifecycle.Create.Disk.resize_mounted_rootfs
    bap_web.Lifecycle.Create.Disk.write_guest_files
    bap_web.Lifecycle.Create.Disk.write_guest_ssh_key_support bap_web.World.when
    bap_web.World.attempt bap_web.Store.Vms.create_vm bap_web.Store.Vms.has_id
    bap_web.Store.Vms.vms_clash bap_web.Store.Vms.refuse_clash bap_web.World.modify
    bap_web.Store.Access.touch_ssh_key bap_web.Text.contains bap_web.Lifecycle.Names.dir
makes = refl

create_machine-Created_example :
    Created site wanted stocked (create_machine site wanted stocked).1 made
create_machine-Created_example = create_machine-Created site wanted stocked made makes

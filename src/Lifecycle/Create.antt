-- ===== src/Lifecycle/Create.antt =====
-- internal/lifecycle/service.go, kernels.go and images.go: `CreateVM`, with the choice of its kernel
-- and its base image.
pub mod Resolve
pub mod Disk
pub mod Quiet
pub mod Choice
pub mod User
pub mod Made
pub mod Measured
mod Examples
use Prim.Native.Char.{code}
use Prim.Native.String
use bap_web.Prelude.{
  ℕ, zero, suc, ◌+◌, ◌/◌, ℤ, pos, negsuc, is_zero, ltb_ℤ, leb_ℤ, String, Bool, true, false, not,
  ◌&&◌, ◌||◌, Option, none, some, List, [], ◌∷◌, leb, ◌==◌, ◌=?◌, if◌then◌else◌,
}
use bap_web.Text.{concat, trim_space, decimal}
use bap_web.Model.{Vm, VmState, Kernel, BaseImage, EgressPolicy, SshKey}
use bap_web.Config.{Config}
use bap_web.Errors.{Error, message, invalid, not_found, conflict, unprocessable}
use bap_web.Store.Vms.{get_vm_by_name, create_vm}
use bap_web.Store.Networks.{get_egress_policy}
use bap_web.Store.Access.{get_ssh_key, touch_ssh_key}
use bap_web.Store.Assets.{get_kernel, default_kernel, get_base_image, default_base_image}
use bap_web.World.{
  M, World, Result, ok, err, Action, pure, raise, or_raise, try, attempt, when, refuse_if, perform,
  size_of, time_now, random_hex, ◌>>=◌, ◌>>◌,
}
use bap_web.Lifecycle.Names.{tap_name_for_id, path}
use bap_web.Lifecycle.Alloc.{allocate_port, allocate_network}
use bap_web.Lifecycle.Rules.{matches_name, name_pattern}
use bap_web.Lifecycle.Create.Disk.{prepare_rootfs, normalize_dev_user, dev_user_of}
use bap_web.Lifecycle.Create.Resolve.{
  stated, require_file, may_boot, requested_kernel, resolve_kernel_for_vm, requested_base_image,
  image_size, chosen_size, resolve_base_image_for_vm,
}

pub record CreateRequest : Type 0 where
  pub name : String
  pub vcpu_count : ℤ
  pub mem_mib : ℤ
  pub ssh_port : ℤ
  pub dev_user : String
  pub ssh_key_id : String
  pub extra_authorized_keys : String
  pub repo_url : String
  pub git_ref : String
  pub egress_mode : String
  pub egress_policy_id : String
  pub network_mode : String
  pub network_id : String
  pub base_image_id : String
  pub rootfs_size_mib : ℤ
  pub kernel_id : String
  pub allow_pending_kernel : Bool

abbrev pub or_default : String → String → String
or_default value fallback = if value =? "" then fallback else value

abbrev pub known_network_mode : String → Bool
known_network_mode mode = mode =? "routed_ptp" || mode =? "shared_bridge"

-- The egress mode of a new machine: that of its policy, if it has one.
unfoldable pub egress_mode_for : CreateRequest → String → M String
egress_mode_for req mode =
    if not (req.egress_policy_id =? "")
    then (do
      found ← get_egress_policy req.egress_policy_id
      policy ← or_raise found (not_found "egress_policy_id does not exist")
      pure policy.mode)
    else do
      refuse_if (not (mode =? "allow_all" || mode =? "deny_all")) (
          invalid "Egress mode is invalid"
            (("egress_mode", "must be allow_all or deny_all unless egress_policy_id is set") ∷ []))
      pure mode

-- The public key that a new machine gets of its SSH key.
unfoldable pub primary_key_for : CreateRequest → M String
primary_key_for req =
    if not (req.ssh_key_id =? "")
    then (do
      found ← get_ssh_key req.ssh_key_id
      key ← or_raise found (not_found "ssh_key_id does not exist")
      pure key.public_key)
    else do
      refuse_if (trim_space req.extra_authorized_keys =? "") (
          unprocessable "Select an SSH key or paste at least one authorized public key." (
            (
              "ssh_key_id",
              "select a reusable SSH key or leave blank only when extra_authorized_keys is set",
            )
            ∷ ("extra_authorized_keys", "required when no SSH key is selected")
            ∷ []))
      pure ""

abbrev pub rootfs_name : BaseImage → String
rootfs_name image = if image.filesystem =? "xfs" then "rootfs.xfs" else "rootfs.ext4"

-- The part of `CreateVM` that checks what it was asked for: the name, and the egress mode.
unfoldable pub check_request : Config → CreateRequest → M (String × String × String × String)
check_request cfg req = do
  let name = trim_space req.name
  refuse_if (not (matches_name name)) (invalid "VM name is invalid" (("name", name_pattern) ∷ []))
  refuse_if (leb_ℤ req.vcpu_count (pos 0) || ltb_ℤ (pos 32) req.vcpu_count)
      (invalid "VM resource request is invalid" (("vcpu_count", "must be between 1 and 32") ∷ []))
  refuse_if (ltb_ℤ req.mem_mib (pos 128) || ltb_ℤ (pos 262144) req.mem_mib) (
      invalid "VM resource request is invalid" (("mem_mib", "must be between 128 and 262144") ∷ []))
  dev_user ← dev_user_of (normalize_dev_user req.dev_user)
  let network_mode = or_default req.network_mode cfg.network.default_network_mode
  refuse_if (not (known_network_mode network_mode)) (
      invalid "Network mode is invalid"
        (("network_mode", "must be routed_ptp or shared_bridge") ∷ []))
  egress_mode ← egress_mode_for req (or_default req.egress_mode "allow_all")
  existing ← get_vm_by_name name
  refuse_if (elim existing [ none ↦ false | some _ ↦ true ]) (conflict "VM name already exists")
  pure (name, dev_user, network_mode, egress_mode)

-- `CreateVM`
unfoldable pub create_machine : Config → CreateRequest → M Vm
create_machine cfg req = do
  checked ← check_request cfg req
  let (name, dev_user, network_mode, egress_mode) = checked
  kernel ← resolve_kernel_for_vm req.kernel_id req.allow_pending_kernel
  chosen ← resolve_base_image_for_vm cfg req.base_image_id req.rootfs_size_mib
  let (image, size) = chosen
  primary_key ← primary_key_for req
  port ← allocate_port cfg req.ssh_port
  id ← random_hex 8
  addresses ← allocate_network cfg network_mode req.network_id
  now ← time_now
  let vm : Vm = record {
    id = id;
    name = name;
    state = VmState.stopped;
    vcpu_count = req.vcpu_count;
    mem_mib = req.mem_mib;
    ssh_port = port;
    tap_name = tap_name_for_id id;
    host_ip = addresses.host_ip;
    guest_ip = addresses.guest_ip;
    cidr = addresses.cidr;
    kernel_path = kernel.path;
    kernel_id = kernel.id;
    rootfs_path = path (cfg.paths.image_dir ∷ name ∷ rootfs_name image ∷ []);
    base_rootfs_path = image.path;
    base_image_id = image.id;
    rootfs_size_mib = size;
    dev_user = dev_user;
    ssh_key_id = req.ssh_key_id;
    managed_ssh_public_key = primary_key;
    managed_ssh_private_key_path = "";
    extra_authorized_keys = trim_space req.extra_authorized_keys;
    repo_url = trim_space req.repo_url;
    git_ref = or_default req.git_ref "HEAD";
    egress_mode = egress_mode;
    egress_policy_id = req.egress_policy_id;
    network_mode = network_mode;
    network_id = req.network_id;
    last_error = "";
    created_at = now;
    updated_at = now;
    last_started_at = none;
    last_stopped_at = none;
  }
  user ← prepare_rootfs cfg vm
  let made : Vm = record vm { dev_user = user }
  create_vm made
  when (not (req.ssh_key_id =? "")) (attempt (touch_ssh_key req.ssh_key_id))
  pure made

-- ===== src/Lifecycle/Boot.antt =====
-- What the host does to start a virtual machine: its interface, and Firecracker in its jail.
use bap_web.Prelude.{
  String, true, false, not, Option, none, some, List, [], ◌∷◌, ◌=?◌, if◌then◌else◌,
}
use bap_web.Text.{concat, trim_space, itoa}
use bap_web.Model.{Vm, Network, Kernel}
use bap_web.Config.{Config}
use bap_web.Errors.{Error}
use bap_web.Store.Networks.{get_network}
use bap_web.Store.Assets.{get_kernel}
use bap_web.World.{
  M, Action, Json, pure, or_raise, try, attempt, quiet, perform, when, refuse_if, ◌>>=◌, ◌>>◌,
}
use bap_web.Lifecycle.Names.{
  run, bridge_name, valid_if_name, succeeded, path, dir, chroot_root, jail_dir, socket_path,
  process_pattern,
}
use bap_web.Lifecycle.Net.{cidr_prefix}
use bap_web.Lifecycle.Firewall.{unless_says}

-- `ensureBridge`
unfoldable pub ensure_bridge : Network → M (Unit {0})
ensure_bridge n = do
  let bridge = bridge_name n.id
  shown ← try (run ("ip" ∷ "link" ∷ "show" ∷ "dev" ∷ bridge ∷ []))
  when (not (succeeded shown)) (run ("ip" ∷ "link" ∷ "add" ∷ bridge ∷ "type" ∷ "bridge" ∷ []))
  attempt (
      run (
        "ip"
        ∷ "addr"
        ∷ "add"
        ∷ concat (n.gateway_ip ∷ "/" ∷ cidr_prefix n.cidr ∷ [])
        ∷ "dev"
        ∷ bridge
        ∷ []))
  run ("ip" ∷ "link" ∷ "set" ∷ bridge ∷ "up" ∷ [])

-- `setupTap`
unfoldable pub setup_tap : Vm → M (Unit {0})
setup_tap vm = do
  refuse_if (not (valid_if_name vm.tap_name)) (
      Error.plain (
        concat (
          "tap_name \"" ∷ vm.tap_name ∷ "\" is invalid; Linux interface names must be 1-15 bytes"
          ∷ [])))
  added ← try (run ("ip" ∷ "tuntap" ∷ "add" ∷ "dev" ∷ vm.tap_name ∷ "mode" ∷ "tap" ∷ []))
  unless_says "File exists" added
  attempt (run ("ip" ∷ "addr" ∷ "flush" ∷ "dev" ∷ vm.tap_name ∷ []))
  if vm.network_mode =? "shared_bridge"
      then (do
        found ← get_network vm.network_id
        n ← or_raise found (Error.plain "network not found")
        ensure_bridge n
        run ("ip" ∷ "link" ∷ "set" ∷ vm.tap_name ∷ "master" ∷ bridge_name n.id ∷ []))
      else run (
          "ip"
          ∷ "addr"
          ∷ "add"
          ∷ concat (vm.host_ip ∷ "/" ∷ itoa vm.cidr ∷ [])
          ∷ "dev"
          ∷ vm.tap_name
          ∷ [])
  run ("ip" ∷ "link" ∷ "set" ∷ vm.tap_name ∷ "up" ∷ [])

-- `firecrackerPut`: the answer of the socket, an error unless its status is 200 or 204.
abbrev pub firecracker_put : Config → Vm → String → List (String × Json) → M (Unit {0})
firecracker_put cfg vm p body = perform (Action.put (socket_path cfg vm) p body)

abbrev default_kernel_boot_args : String
default_kernel_boot_args =
    "console=ttyS0 reboot=k panic=1 pci=off root=/dev/vda rw clocksource=tsc tsc=reliable"

abbrev args_of : Option Kernel → String
args_of none = default_kernel_boot_args
args_of (some k) = if trim_space k.boot_args =? "" then default_kernel_boot_args else k.boot_args

-- `bootArgsForVM`
unfoldable pub boot_args_for_vm : Vm → M String
boot_args_for_vm vm =
    if vm.kernel_id =? ""
    then pure default_kernel_boot_args
    else do kernel ← quiet (get_kernel vm.kernel_id); pure (args_of kernel)

-- Processes and mounts of an earlier run are removed.
unfoldable pub clear_jail : Config → Vm → M (Unit {0})
clear_jail cfg vm = do
  attempt (run ("pkill" ∷ "-9" ∷ "-f" ∷ process_pattern "firecracker" vm ∷ []))
  attempt (run ("pkill" ∷ "-9" ∷ "-f" ∷ process_pattern "jailer" vm ∷ []))
  attempt (run ("umount" ∷ path (chroot_root cfg vm ∷ "var/lib/microvms/kernels" ∷ []) ∷ []))
  attempt (run ("umount" ∷ path (chroot_root cfg vm ∷ "var/lib/microvms" ∷ vm.name ∷ []) ∷ []))
  attempt (perform (Action.remove_all (jail_dir cfg vm)))

-- The jailer is started, and its socket awaited.
unfoldable pub start_jailer : Config → Vm → M (Unit {0})
start_jailer cfg vm = do
  perform (Action.mkdir_all cfg.paths.log_dir)
  perform (Action.create (path (cfg.paths.log_dir ∷ concat (vm.name ∷ ".log" ∷ []) ∷ [])))
  perform (
      Action.start (
        cfg.paths.jailer_bin ∷ "--id" ∷ vm.name ∷ "--exec-file" ∷ cfg.paths.firecracker_bin
        ∷ "--uid" ∷ "0" ∷ "--gid" ∷ "0" ∷ "--chroot-base-dir" ∷ cfg.paths.jailer_base_dir ∷ "--"
        ∷ "--api-sock" ∷ "/firecracker.socket" ∷ "--log-path" ∷ "/firecracker.log" ∷ "--level"
        ∷ "Debug" ∷ []))
  perform (Action.stat_socket (socket_path cfg vm))

-- Kernels and disk are mounted into the jail.
unfoldable pub mount_jail : Config → Vm → M (Unit {0})
mount_jail cfg vm = do
  let kernels = path (chroot_root cfg vm ∷ "var/lib/microvms/kernels" ∷ [])
  let disk = path (chroot_root cfg vm ∷ "var/lib/microvms" ∷ vm.name ∷ [])
  perform (Action.mkdir_all kernels)
  perform (Action.mkdir_all disk)
  run ("mount" ∷ "--bind" ∷ cfg.paths.kernel_dir ∷ kernels ∷ [])
  run ("mount" ∷ "--bind" ∷ dir vm.rootfs_path ∷ disk ∷ [])

-- Firecracker is told what to run, and then to run it.
unfoldable pub boot : Config → Vm → M (Unit {0})
boot cfg vm = do
  firecracker_put cfg vm "/machine-config" (
      ("vcpu_count", Json.number vm.vcpu_count)
      ∷ ("mem_size_mib", Json.number vm.mem_mib)
      ∷ ("smt", Json.boolean false)
      ∷ [])
  args ← boot_args_for_vm vm
  firecracker_put cfg vm "/boot-source"
      (("kernel_image_path", Json.text vm.kernel_path) ∷ ("boot_args", Json.text args) ∷ [])
  firecracker_put cfg vm "/drives/rootfs" (
      ("drive_id", Json.text "rootfs")
      ∷ ("path_on_host", Json.text vm.rootfs_path)
      ∷ ("is_root_device", Json.boolean true)
      ∷ ("is_read_only", Json.boolean false)
      ∷ [])
  firecracker_put cfg vm "/network-interfaces/eth0"
      (("iface_id", Json.text "eth0") ∷ ("host_dev_name", Json.text vm.tap_name) ∷ [])
  firecracker_put cfg vm "/actions" (("action_type", Json.text "InstanceStart") ∷ [])

-- `startFirecracker`
unfoldable pub start_firecracker : Config → Vm → M (Unit {0})
start_firecracker cfg vm = do clear_jail cfg vm; start_jailer cfg vm; mount_jail cfg vm; boot cfg vm

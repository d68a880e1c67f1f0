-- ===== src/Lifecycle/Cleanup.antt =====
-- What is removed from the host when a virtual machine stops or a network goes. Waiting, and the
-- cancellation of a request while it waits, are left out.
use bap_web.Prelude.{ℕ, zero, suc, String, List, [], ◌∷◌, ◌++◌, ◌=?◌, not, if◌then◌else◌}
use bap_web.Text.{contains, concat}
use bap_web.Model.{Vm}
use bap_web.Config.{Config}
use bap_web.Errors.{Error, message}
use bap_web.World.{M, Result, ok, err, raise, pure, try, attempt, perform, ◌>>=◌, ◌>>◌, Action}
use bap_web.Lifecycle.Names.{run, cleanup_ok, report, path, chroot_root, jail_dir}

-- `ignore` of the cleanup functions: what remains to be reported of a command.
abbrev pub noted : String → Result (Unit {0}) → List String
noted label (ok _) = []
noted label (err e) = if cleanup_ok (err e) then [] else concat (label ∷ ": " ∷ message e ∷ []) ∷ []

abbrev pub link_delete_result : Error → Result (Unit {0}) → M (Unit {0})
link_delete_result last (ok _) = pure tt
link_delete_result last (err e) =
    if cleanup_ok (err e)
    then pure tt
    else raise (Error.plain (concat (message last ∷ "; fallback link delete: " ∷ message e ∷ [])))

-- The other way to delete the device, after the last error of the first.
unfoldable pub delete_link : String → Error → M (Unit {0})
delete_link name last = do
  r ← try (run ("ip" ∷ "link" ∷ "delete" ∷ name ∷ []))
  link_delete_result last r

-- One round of `deleteTapDevice`, once its command is answered; `next` are the rounds that remain.
abbrev pub delete_round : (Error → M (Unit {0})) → String → Result (Unit {0}) → M (Unit {0})
delete_round next name (ok _) = pure tt
delete_round next name (err e) =
    if cleanup_ok (err e)
    then pure tt
    else if not (contains (message e) "Device or resource busy")
    then delete_link name e
    else do
      attempt (run ("ip" ∷ "link" ∷ "set" ∷ "dev" ∷ name ∷ "nomaster" ∷ []))
      attempt (run ("ip" ∷ "link" ∷ "set" ∷ name ∷ "down" ∷ []))
      next e

-- The rounds of `deleteTapDevice` that remain, after the last error.
unfoldable pub delete_attempts : ℕ → String → Error → M (Unit {0})
delete_attempts zero name last = delete_link name last
delete_attempts (suc n) name last = do
  r ← try (run ("ip" ∷ "tuntap" ∷ "del" ∷ "dev" ∷ name ∷ "mode" ∷ "tap" ∷ []))
  delete_round (delete_attempts n name) name r

-- `deleteTapDevice`: eight attempts. The first one replaces the error given here.
unfoldable pub delete_tap_device : String → M (Unit {0})
unfolding delete_attempts
delete_tap_device name = delete_attempts 8 name (Error.plain "")

-- `cleanupTap`
unfoldable pub cleanup_tap : String → M (Unit {0})
cleanup_tap name = do
  detach ← try (run ("ip" ∷ "link" ∷ "set" ∷ "dev" ∷ name ∷ "nomaster" ∷ []))
  flush ← try (run ("ip" ∷ "addr" ∷ "flush" ∷ "dev" ∷ name ∷ []))
  down ← try (run ("ip" ∷ "link" ∷ "set" ∷ name ∷ "down" ∷ []))
  deleted ← try (delete_tap_device name)
  report
      (noted "detach" detach ++ noted "flush" flush ++ noted "down" down ++ noted "delete" deleted)

-- `cleanupBridge`
unfoldable pub cleanup_bridge : String → M (Unit {0})
cleanup_bridge name = do
  flush ← try (run ("ip" ∷ "addr" ∷ "flush" ∷ "dev" ∷ name ∷ []))
  down ← try (run ("ip" ∷ "link" ∷ "set" ∷ name ∷ "down" ∷ []))
  deleted ← try (run ("ip" ∷ "link" ∷ "del" ∷ name ∷ "type" ∷ "bridge" ∷ []))
  report (noted "flush" flush ++ noted "down" down ++ noted "delete" deleted)

-- `os.RemoveAll` reports every error.
abbrev pub kept : Result (Unit {0}) → List String
kept (ok _) = []
kept (err e) = concat ("remove jailer dir: " ∷ message e ∷ []) ∷ []

-- `cleanupVMRuntime`
unfoldable pub cleanup_vm_runtime : Config → Vm → M (Unit {0})
cleanup_vm_runtime cfg vm = do
  let root = chroot_root cfg vm
  kernels ← try (run ("umount" ∷ path (root ∷ "var/lib/microvms/kernels" ∷ []) ∷ []))
  rootfs ← try (run ("umount" ∷ path (root ∷ "var/lib/microvms" ∷ vm.name ∷ []) ∷ []))
  removed ← try (perform (Action.remove_all (jail_dir cfg vm)))
  tap ← try (if vm.tap_name =? "" then pure tt else cleanup_tap vm.tap_name)
  report (
      noted "unmount kernels" kernels
      ++ noted "unmount rootfs" rootfs
      ++ kept removed
      ++ noted "cleanup tap" tap)

-- ===== src/Lifecycle/Vms.antt =====
-- The operations on virtual machines: start, stop, delete, restart, change of resources, and the
-- reconciliation at the start of the server.
pub mod Rows
pub mod Calls
pub mod Bounds
pub mod Frame
pub mod Unique
pub mod Outcome
pub mod Failure
pub mod Trouble
use bap_web.Prelude.{
  ℕ, ℤ, pos, negsuc, String, Bool, true, false, ◌&&◌, ◌||◌, not, Option, none, some, List, [], ◌∷◌,
  ltb_ℤ, leb_ℤ, ◌=?◌, if◌then◌else◌,
}
use bap_web.Text.{concat}
use bap_web.Model.{Vm, VmState, is_running, is_up}
use bap_web.Config.{Config}
use bap_web.Errors.{Error, message, invalid, not_found, unprocessable}
use bap_web.Store.Vms.{list_vms, get_vm, update_vm, delete_vm}
use bap_web.World.{
  M, Action, Json, Result, ok, err, pure, raise, or_raise, try, attempt, perform, when, refuse_if,
  time_now, ◌>>=◌, ◌>>◌,
}
use bap_web.Lifecycle.Names.{run, valid_if_name, tap_name_for_id, dir, process_pattern, succeeded}
use bap_web.Lifecycle.Cleanup.{cleanup_vm_runtime}
use bap_web.Lifecycle.Overlap.{ensure_vm_network_usable}
use bap_web.Lifecycle.Firewall.{apply_nft, returned}
use bap_web.Lifecycle.Boot.{setup_tap, start_firecracker, firecracker_put}

-- `GetVM`, with the error where there is none.
unfoldable pub the_vm : String → M Vm
the_vm id = do found ← get_vm id; or_raise found (not_found "VM not found")

-- `ensureTapName`: the record, with a name that Linux accepts.
unfoldable pub ensure_tap_name : Vm → M Vm
ensure_tap_name vm = if valid_if_name vm.tap_name then pure vm else do
  refuse_if (is_up vm.state)
      (Error.plain (concat ("running VM has invalid tap_name \"" ∷ vm.tap_name ∷ "\"" ∷ [])))
  let named : Vm = record vm { tap_name = tap_name_for_id vm.id }
  update_vm named
  pure named

-- `processRunning`
unfoldable pub process_running : Vm → M Bool
process_running vm = do
  r ← try (run ("pgrep" ∷ "-f" ∷ process_pattern "firecracker" vm ∷ []))
  pure (succeeded r)

-- `vm.State == model.VMRunning && s.processRunning(ctx, vm)`
unfoldable pub already_running : Vm → M Bool
already_running vm = if is_running vm.state then process_running vm else pure false

-- `failVM`: the error goes into the row and on to the caller.
unfoldable pub fail_vm : Vm → Error → M (Unit {0})
fail_vm vm e = do
  now ← time_now
  attempt
      (update_vm (record vm { state = VmState.error; last_error = message e; updated_at = now }))
  raise e

-- The steps on the host, each of which may fail.
unfoldable pub launch : Config → Vm → M (Unit {0})
launch cfg vm = do setup_tap vm; apply_nft cfg; start_firecracker cfg vm

abbrev pub launched : Vm → ℕ → Result (Unit {0}) → M (Unit {0})
launched vm started (err e) = fail_vm vm e
launched vm started (ok _) = do
  now ← time_now
  update_vm
      (record vm { state = VmState.running; last_started_at = some started; updated_at = now })

-- `StartVM` of a machine that does not run.
unfoldable pub bring_up : Config → Vm → M (Unit {0})
bring_up cfg vm = do
  now ← time_now
  let starting : Vm = record vm { state = VmState.starting; last_error = ""; updated_at = now }
  update_vm starting
  r ← try (launch cfg starting)
  launched starting now r

-- `StartVM`
unfoldable pub start_vm : Config → String → M (Unit {0})
start_vm cfg id = do
  found ← the_vm id
  vm ← ensure_tap_name found
  ensure_vm_network_usable vm
  runs ← already_running vm
  if runs then pure tt else bring_up cfg vm

-- `lifecycleErrorString`
abbrev pub lifecycle_error_string : Result (Unit {0}) → String
lifecycle_error_string (ok _) = ""
lifecycle_error_string (err e) = message e

-- The guest is asked to shut down, and its processes are killed.
unfoldable pub kill_vm : Config → Vm → M (Unit {0})
kill_vm cfg vm = do
  attempt (firecracker_put cfg vm "/actions" (("action_type", Json.text "SendCtrlAltDel") ∷ []))
  attempt (run ("pkill" ∷ "-9" ∷ "-f" ∷ process_pattern "firecracker" vm ∷ []))
  attempt (run ("pkill" ∷ "-9" ∷ "-f" ∷ process_pattern "jailer" vm ∷ []))

-- The end of `StopVM`: the row is written, and the firewall follows it.
unfoldable pub settle : Config → Vm → Result (Unit {0}) → M (Unit {0})
settle cfg row cleanup = do update_vm row; apply_nft cfg; returned cleanup

-- `StopVM` without its wait.
unfoldable pub stop_vm : Config → String → M (Unit {0})
stop_vm cfg id = do
  vm ← the_vm id
  attempt (update_vm (record vm { state = VmState.stopping }))
  kill_vm cfg vm
  cleanup ← try (cleanup_vm_runtime cfg vm)
  now ← time_now
  settle cfg
      (record vm {
        state = VmState.stopped;
        last_stopped_at = some now;
        updated_at = now;
        last_error = lifecycle_error_string cleanup;
      })
      cleanup

-- The files of a virtual machine; what cannot be removed stays.
unfoldable pub remove_files : Vm → M (Unit {0})
remove_files vm = do
  when (not (vm.rootfs_path =? "")) (do
    attempt (perform (Action.remove vm.rootfs_path))
    attempt (perform (Action.remove (dir vm.rootfs_path))))
  when (not (vm.managed_ssh_private_key_path =? "")) (do
    attempt (perform (Action.remove vm.managed_ssh_private_key_path))
    attempt (perform (Action.remove (concat (vm.managed_ssh_private_key_path ∷ ".pub" ∷ [])))))

-- `DeleteVM`
unfoldable pub delete_machine : Config → String → M (Unit {0})
delete_machine cfg id = do vm ← the_vm id; stop_vm cfg id; remove_files vm; delete_vm id

abbrev pub or_current : ℤ → ℤ → ℤ
or_current asked current = if leb_ℤ asked (pos 0) then current else asked

-- The checks of `UpdateResources`.
unfoldable pub check_resources : Vm → ℤ → ℤ → Bool → M (Unit {0})
check_resources vm vcpus mem restart = do
  refuse_if (leb_ℤ vcpus (pos 0) || ltb_ℤ (pos 32) vcpus)
      (invalid "VM resource request is invalid" (("vcpu_count", "must be between 1 and 32") ∷ []))
  refuse_if (ltb_ℤ mem (pos 128) || ltb_ℤ (pos 262144) mem) (
      invalid "VM resource request is invalid" (("mem_mib", "must be between 128 and 262144") ∷ []))
  refuse_if (is_up vm.state && not restart) (
      unprocessable "VM must be stopped to update resources, or restart must be true"
        (("restart", "select restart to update a running VM") ∷ []))

-- The row to write: that of the machine once it has stopped.
unfoldable pub rested : Config → String → Vm → M Vm
rested cfg id vm = if is_up vm.state then (do stop_vm cfg id; the_vm id) else pure vm

-- `UpdateResources`: a number that is not positive leaves what there is.
unfoldable pub update_resources : Config → String → ℤ → ℤ → Bool → M (Option Vm)
update_resources cfg id vcpu_count mem_mib restart = do
  vm ← the_vm id
  let vcpus = or_current vcpu_count vm.vcpu_count
  let mem = or_current mem_mib vm.mem_mib
  check_resources vm vcpus mem restart
  row ← rested cfg id vm
  update_vm (record row { vcpu_count = vcpus; mem_mib = mem })
  when (is_up vm.state) (start_vm cfg id)
  get_vm id

abbrev pub runs_now : Option Vm → Bool
runs_now none = false
runs_now (some vm) = is_running vm.state

unfoldable pub stop_and_start : Config → String → M (Option Vm)
stop_and_start cfg id = do stop_vm cfg id; start_vm cfg id; get_vm id

-- `RestartVM`
unfoldable pub restart_vm : Config → String → ℤ → ℤ → M (Option Vm)
restart_vm cfg id vcpu_count mem_mib =
    if ltb_ℤ (pos 0) vcpu_count || ltb_ℤ (pos 0) mem_mib
    then (do
      vm ← update_resources cfg id vcpu_count mem_mib true
      if runs_now vm then pure vm else stop_and_start cfg id)
    else stop_and_start cfg id

abbrev pub reconciled_error : Result (Unit {0}) → String
reconciled_error (ok _) = "reconciled: Firecracker process not running"
reconciled_error (err e) =
    concat ("reconciled: Firecracker process not running; cleanup: " ∷ message e ∷ [])

-- A machine whose process is gone is stopped.
unfoldable pub reconcile_vm : Config → Vm → M (Unit {0})
reconcile_vm cfg vm = do
  now ← time_now
  cleanup ← try (cleanup_vm_runtime cfg vm)
  update_vm (record vm {
    state = VmState.stopped;
    last_stopped_at = some now;
    updated_at = now;
    last_error = reconciled_error cleanup;
  })

-- The states in which a process is expected.
abbrev pub is_active : VmState → Bool
is_active VmState.stopping = true
is_active s = is_up s

-- The loop of `Reconcile`: whether there was a machine with a process to expect.
unfoldable pub reconcile_all : Config → List Vm → M Bool
reconcile_all cfg [] = pure false
reconcile_all cfg (vm ∷ vms) = if not (is_active vm.state) then reconcile_all cfg vms else do
  runs ← process_running vm
  when (not runs) (reconcile_vm cfg vm)
  reconcile_all cfg vms
  pure true

-- `Reconcile`
unfoldable pub reconcile : Config → M (Unit {0})
reconcile cfg = do
  vms ← list_vms
  has_running ← reconcile_all cfg vms
  when has_running (apply_nft cfg)

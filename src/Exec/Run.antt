-- ===== src/Exec/Run.antt =====
-- `ExecuteVMCommand` of internal/lifecycle/service.go: a command in a running machine.
use bap_web.Prelude.{ℕ, ℤ, pos, negsuc, String, Bool, true, false, not, ◌||◌, List, [], ◌∷◌}
use bap_web.Model.{Vm, VmState, is_running}
use bap_web.Errors.{not_found, unprocessable}
use bap_web.Store.Vms.{get_vm}
use bap_web.World.{
  M, Result, ok, err, GuestExit, pure, raise, or_raise, refuse_if, run_in_guest, time_now, ◌>>=◌,
  ◌>>◌,
}
use bap_web.Exec.Buffer.{new, write_all}
use bap_web.Exec.Request.{ExecRequest, normalize_exec_request}
use bap_web.Exec.Shell.{build_remote_exec_command}

abbrev pub max_exec_output_bytes : ℕ
max_exec_output_bytes = 1048576

-- `VMExecResult`
pub record ExecResult : Type 0 where
  pub stdout : List ℕ
  pub stderr : List ℕ
  pub exit_code : ℤ
  pub started_at : ℕ
  pub finished_at : ℕ
  pub timed_out : Bool
  pub truncated : Bool

-- `exitCode`
abbrev pub exit_code_of : GuestExit → Bool → ℤ
exit_code_of e true = negsuc 0
exit_code_of GuestExit.clean false = pos 0
exit_code_of (GuestExit.status n) false = n
exit_code_of GuestExit.broken false = negsuc 0

-- `executeVMCommand`, after `sshClientForVM` and `NewSession`: these and the run are one call.
unfoldable pub execute_vm_command : Vm → ExecRequest → M ExecResult
execute_vm_command vm req = do
  started ← time_now
  done ← run_in_guest vm.dev_user vm.guest_ip (build_remote_exec_command req)
  let stdout = write_all (new max_exec_output_bytes) done.stdout_writes
  let stderr = write_all (new max_exec_output_bytes) done.stderr_writes
  finished ← time_now
  pure (record {
    stdout = stdout.buf;
    stderr = stderr.buf;
    exit_code = exit_code_of done.exit done.timed_out;
    started_at = started;
    finished_at = finished;
    timed_out = done.timed_out;
    truncated = stdout.truncated || stderr.truncated;
  })

abbrev pub returned_request : Result ExecRequest → M ExecRequest
returned_request (ok r) = pure r
returned_request (err e) = raise e

abbrev pub state_text : VmState → String
state_text VmState.stopped = "stopped"
state_text VmState.running = "running"
state_text VmState.starting = "starting"
state_text VmState.stopping = "stopping"
state_text VmState.error = "error"

-- A machine that may run a command.
unfoldable pub running_vm : String → M Vm
running_vm vm_id = do
  found ← get_vm vm_id
  vm ← or_raise found (not_found "VM not found")
  refuse_if (not (is_running vm.state))
      (unprocessable "VM must be running to execute commands" (("state", state_text vm.state) ∷ []))
  pure vm

-- `ExecuteVMCommand`
unfoldable pub execute_command : String → ExecRequest → M ExecResult
execute_command vm_id request = do
  req ← returned_request (normalize_exec_request request)
  vm ← running_vm vm_id
  execute_vm_command vm req

-- ===== src/Exec/Jobs.antt =====
-- `ExecuteVMCommand`, `StartVMExecJob`, `CancelVMExecJob` and `runVMExecJob` of
-- internal/lifecycle/service.go. The goroutine of a job and the calls that cancel it take turns: each
-- is cut where another may come between, at its statements on the job's row.
pub mod Outcome
pub mod Race
use Prim.Native.String
use bap_web.Prelude.{
  ℕ, zero, suc, ℤ, pos, negsuc, is_zero, String, Bool, true, false, not, ◌||◌, List, [], ◌∷◌,
  Option, none, some, ◌=?◌, if◌then◌else◌,
}
use bap_web.Text.{concat, decimal}
use bap_web.Model.{Vm, VmState, is_running, VmExecJob}
use bap_web.Config.{Config}
use bap_web.Errors.{Error, message, not_found, unprocessable}
use bap_web.Store.Vms.{get_vm}
use bap_web.Store.Jobs.{create_vm_exec_job, update_vm_exec_job, get_vm_exec_job}
use bap_web.World.{
  M, World, Result, ok, err, Action, GuestExit, GuestRun, pure, raise, or_raise, try, attempt,
  quiet, refuse_if, perform, run_in_guest, time_now, random_hex, ◌>>=◌, ◌>>◌,
}
use bap_web.Exec.Buffer.{new, write_all}
use bap_web.Exec.Request.{ExecRequest, normalize_exec_request}
use bap_web.Exec.Shell.{build_remote_exec_command}
use bap_web.Exec.Json.{json_map}
use bap_web.Lifecycle.Names.{dir, path}
use bap_web.Exec.Run.{
  max_exec_output_bytes, ExecResult, exit_code_of, execute_vm_command, returned_request, running_vm,
  execute_command, state_text,
}

-- `StartVMExecJob`: the row of the job, and the request that its goroutine gets.
unfoldable pub start_vm_exec_job :
    Config → String → ExecRequest → String → M (VmExecJob × ExecRequest)
start_vm_exec_job cfg vm_id request actor = do
  req ← returned_request (normalize_exec_request request)
  vm ← running_vm vm_id
  now ← time_now
  id ← random_hex 8
  log ← random_hex 8
  let job : VmExecJob = record {
    id = id;
    vm_id = vm.id;
    status = "queued";
    command = req.command;
    cwd = req.cwd;
    env_json = json_map req.env;
    pty = req.pty;
    timeout_seconds = req.timeout_seconds;
    stdout = [];
    stderr = [];
    exit_code = negsuc 0;
    timed_out = false;
    truncated = false;
    log_path = path (cfg.paths.log_dir ∷ concat ("vm-exec-" ∷ log ∷ ".log" ∷ []) ∷ []);
    error = "";
    created_by = actor;
    created_at = now;
    started_at = none;
    completed_at = none;
  }
  create_vm_exec_job job
  pure (job, req)

-- The statuses that `CancelVMExecJob` leaves as they are.
abbrev pub is_final : String → Bool
is_final status = status =? "succeeded" || status =? "failed" || status =? "canceled"

-- `CancelVMExecJob` up to its write: the job as it was read, and whether it is to be written.
unfoldable pub ask_cancel : String → String → M VmExecJob
ask_cancel vm_id id = do
  found ← get_vm_exec_job vm_id id
  or_raise found (not_found "exec job not found")

-- The write of `CancelVMExecJob`, of all columns as they were read.
unfoldable pub confirm_cancel : VmExecJob → M VmExecJob
confirm_cancel job = do
  now ← time_now
  let job' : VmExecJob = record job {
    status = "canceled";
    error = "canceled";
    completed_at = some now;
  }
  update_vm_exec_job job'
  pure job'

-- `CancelVMExecJob`. What it asks of the context of the goroutine is left to the environment: a
-- context that is done is one reason for which a statement or a run may fail or time out.
unfoldable pub cancel_vm_exec_job : String → String → M VmExecJob
cancel_vm_exec_job vm_id id = do
  job ← ask_cancel vm_id id
  if is_final job.status then pure job else confirm_cancel job

-- `writeVMExecJobLog`, without the text of the log.
unfoldable pub write_vm_exec_job_log : VmExecJob → M (Unit {0})
write_vm_exec_job_log job =
    if job.log_path =? ""
    then pure tt
    else attempt
        (do perform (Action.mkdir_all (dir job.log_path)); perform (Action.create job.log_path))

-- The job as `runVMExecJob` writes it at the end.
abbrev pub settled_job : VmExecJob → Result ExecResult → ℕ → VmExecJob
settled_job job (err e) completed = record job {
  completed_at = some completed;
  status = "failed";
  error = message e;
}
settled_job job (ok r) completed =
    let filled : VmExecJob = record job {
      stdout = r.stdout;
      stderr = r.stderr;
      exit_code = r.exit_code;
      timed_out = r.timed_out;
      truncated = r.truncated;
      completed_at = some completed;
    } in
    if r.timed_out
    then record filled { status = "failed"; error = "command timed out" }
    else if not (is_zero r.exit_code)
    then record filled {
      status = "failed";
      error = concat ("command exited with status " ∷ decimal r.exit_code ∷ []);
    }
    else record filled { status = "succeeded"; error = "" }

-- Where `runVMExecJob` stands between two of its statements on the job's row.
pub data Runner : Type 0 where
  ready : Runner
  loaded : VmExecJob → Runner
  announced : VmExecJob → Runner
  executed : VmExecJob → Result ExecResult → ℕ → Runner
  settled : VmExecJob → Runner
  ended : Runner

abbrev pub is_canceled : Option VmExecJob → Bool
is_canceled none = false
is_canceled (some j) = j.status =? "canceled"

-- The job that the goroutine reads at first.
abbrev pub load : Option VmExecJob → M Runner
load none = pure ended
load (some job) =
    if job.status =? "canceled" then write_vm_exec_job_log job >> pure ended else pure (loaded job)

-- The job that it reads at the end; an error of the statement counts as a missing row.
abbrev pub settle : VmExecJob → Result ExecResult → ℕ → Option VmExecJob → M Runner
settle job r completed none = pure (settled (settled_job job r completed))
settle job r completed (some latest) =
    if latest.status =? "canceled"
    then write_vm_exec_job_log latest >> pure ended
    else pure (settled (settled_job job r completed))

-- One part of `runVMExecJob`.
unfoldable pub advance : String → String → ExecRequest → Runner → M Runner
advance vm_id id req ready = do found ← quiet (get_vm_exec_job vm_id id); load found
advance vm_id id req (loaded job) = do
  started ← time_now
  let job' : VmExecJob = record job { status = "running"; started_at = some started }
  attempt (update_vm_exec_job job')
  pure (announced job')
advance vm_id id req (announced job) = do
  r ← try (execute_command vm_id req)
  completed ← time_now
  pure (executed job r completed)
advance vm_id id req (executed job r completed) = do
  latest ← quiet (get_vm_exec_job vm_id id)
  settle job r completed latest
advance vm_id id req (settled job) = do
  attempt (update_vm_exec_job job)
  write_vm_exec_job_log job
  pure ended
advance vm_id id req ended = pure ended

-- The parts from one on, as many as the fuel lets; five are enough.
unfoldable pub run_from : ℕ → String → String → ExecRequest → Runner → M Runner
run_from zero vm_id id req r = pure r
run_from (suc n) vm_id id req r = do next ← advance vm_id id req r; run_from n vm_id id req next

-- `runVMExecJob` with nothing between its parts.
unfoldable pub run_vm_exec_job : String → String → ExecRequest → M Runner
run_vm_exec_job vm_id id req = run_from 5 vm_id id req ready

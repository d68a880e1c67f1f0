-- ===== src/Exec/Examples.antt =====
-- Runs of commands in the guest, and the theorems at them.
use bap_web.Prelude.{
  ℕ, pos, negsuc, String, Bool, true, false, none, some, Option, List, [], ◌∷◌, ◌++◌, take, length,
  ltb, ◌≡◌, refl, arith, inl, inr, find,
}
use bap_web.Model.{VmExecJob}
use bap_web.Errors.{Error}
use bap_web.Store.Db.{empty}
use bap_web.Store.Table.{order_by}
use bap_web.World.{World, Env, Result, ok, err}
use bap_web.Exec.Buffer.{new, write_all, written, write_all-Holds}
use bap_web.Exec.Request.{ExecRequest, normalize_exec_request}
use bap_web.Exec.Request.Checks.{Normal, normalize_exec_request-Normal}
use bap_web.Exec.Shell.{build_remote_exec_command, name_before}
use bap_web.Exec.Shell.Reader.{tokens, word}
use bap_web.Exec.Shell.Line.{build_remote_exec_command-tokens, change_dir, environment}
use bap_web.Exec.Jobs.{Runner, ready, loaded, announced, executed, advance, run_vm_exec_job}
use bap_web.Exec.Run.{execute_command}
use bap_web.Exec.Jobs.Outcome.{run_vm_exec_job-Done, Done, ran}
use bap_web.Exec.Jobs.Race.{Sys, here, next, go, row_of}
use bap_web.Exec.Jobs.Race.Honest.{Honest}
use bap_web.Exec.Jobs.Race.Reached.{reach-Honest}
use bap_web.Exec.Jobs.Race.Moves.{started_job}
use bap_web.Exec.Jobs.Race.Cancel.{canceled-stays, loaded-overwrites, RowCanceled}

abbrev chunks : List (List ℕ)
chunks = (1 ∷ 2 ∷ []) ∷ (3 ∷ 4 ∷ []) ∷ []

write_all-Holds_example :
    ((write_all (new 3) chunks).buf ≡ take 3 (written chunks))
    × ((write_all (new 3) chunks).truncated ≡ ltb 3 (length (written chunks)))
write_all-Holds_example = write_all-Holds 3 chunks (omega arith)

abbrev greet : ExecRequest
greet = record {
  command = "echo \"$NAME\" > it's";
  timeout_seconds = pos 0;
  cwd = "/srv/my app";
  env = ("NAME", "o'neil; rm -rf /") ∷ [];
  stdin = "";
  pty = false;
}

abbrev tidy : ExecRequest
tidy = record greet { timeout_seconds = pos 60 }

tidied : normalize_exec_request greet ≡ ok tidy
unfolding normalize_exec_request bap_web.Text.trim_space bap_web.Text.contains_any
    bap_web.Prelude.any bap_web.Text.byte_len bap_web.Exec.Request.check_env
    bap_web.Exec.Request.is_env_name
tidied = refl

normalize_exec_request-Normal_example : Normal tidy
normalize_exec_request-Normal_example = normalize_exec_request-Normal greet tidy tidied

build_remote_exec_command-tokens_example :
    tokens (build_remote_exec_command greet)
    ≡ some (
        change_dir greet.cwd
        ++ (environment (order_by name_before greet.env)
            ++ word "sh" ∷ word "-lc" ∷ word greet.command ∷ []))
build_remote_exec_command-tokens_example =
    build_remote_exec_command-tokens greet
      (normalize_exec_request-Normal greet tidy tidied).env_fits

abbrev host : Env
host = record {
  clock = λ n. n;
  sql = λ n. none;
  outcome = λ n a. none;
  output = λ n words. ok "";
  guest = λ n user ip command. err (Error.plain "no route to host");
  file_size = λ n path. ok (some 1048576);
  file_text = λ n path. ok "";
  hex = λ n bytes. "ab";
  created_before = λ a b. false;
  sha256_hex = λ s. s;
  parse_time = λ s. none;
}

abbrev queued : VmExecJob
queued = record {
  id = "j1";
  vm_id = "v1";
  status = "queued";
  command = "ls";
  cwd = "";
  env_json = "{}";
  pty = false;
  timeout_seconds = pos 60;
  stdout = [];
  stderr = [];
  exit_code = negsuc 0;
  timed_out = false;
  truncated = false;
  log_path = "/log/j1.log";
  error = "";
  created_by = "ann";
  created_at = 0;
  started_at = none;
  completed_at = none;
}

abbrev canceled : VmExecJob
canceled = record queued { status = "canceled"; error = "canceled"; completed_at = some 7 }

abbrev holding : VmExecJob → World
holding job = record {
  env = host;
  step = 0;
  db = record empty { vm_exec_jobs = job ∷ [] };
  performed = [];
}

abbrev at : Runner → VmExecJob → Sys
at r job = record { world = holding job; runner = r; cancels = [] }

queued_there : row_of "v1" "j1" (holding queued).db ≡ some queued
unfolding find
queued_there = refl

canceled_there : row_of "v1" "j1" (holding canceled).db ≡ some canceled
unfolding find
canceled_there = refl

run_vm_exec_job-Done_example :
    Done "v1" "j1"
      (ran "v1" "j1" greet queued (holding queued))
      queued
      (run_vm_exec_job "v1" "j1" greet (holding queued)).1
run_vm_exec_job-Done_example =
    run_vm_exec_job-Done "v1" "j1" greet queued (holding queued) (refl, refl) (λ n. refl)
      queued_there refl

loads : (advance "v1" "j1" greet ready (holding queued)).0 ≡ ok (loaded queued)
unfolding advance bap_web.World.◌>>=◌ bap_web.World.quiet bap_web.Store.Jobs.get_vm_exec_job
    bap_web.World.statement find
loads = refl

abbrev first_read : Sys
first_read = record {
  world = (advance "v1" "j1" greet ready (holding queued)).1;
  runner = loaded queued;
  cancels = [];
}

reach-Honest_example : Honest queued (row_of "v1" "j1" first_read.world.db)
reach-Honest_example =
    reach-Honest false "v1" "j1" greet queued (holding queued) first_read refl refl
      (record { status = inl refl; unsettled = refl }) queued_there
      (next here (go (at ready queued) (loaded queued) loads))

canceled_row : RowCanceled (row_of "v1" "j1" (holding canceled).db)
unfolding find
canceled_row = refl

executes :
    (advance "v1" "j1" greet (announced queued) (holding canceled)).0
    ≡ ok (executed queued (execute_command "v1" greet (holding canceled)).0 1)
unfolding advance bap_web.World.◌>>=◌ bap_web.World.time_now execute_command normalize_exec_request
    bap_web.Text.trim_space bap_web.Text.contains_any bap_web.Prelude.any bap_web.Text.byte_len
    bap_web.Exec.Request.check_env bap_web.Exec.Request.is_env_name bap_web.Exec.Run.running_vm
    bap_web.Store.Vms.get_vm bap_web.World.statement find
executes = refl

abbrev after_run : Sys
after_run = record {
  world = (advance "v1" "j1" greet (announced queued) (holding canceled)).1;
  runner = executed queued (execute_command "v1" greet (holding canceled)).0 1;
  cancels = [];
}

canceled-stays_example : RowCanceled (row_of "v1" "j1" after_run.world.db)
canceled-stays_example =
    canceled-stays "v1" "j1" greet (at (announced queued) canceled) after_run (λ n. refl)
      canceled_row tt tt (next here (go (at (announced queued) canceled) after_run.runner executes))

loaded-overwrites_example :
    row_of "v1" "j1" (advance "v1" "j1" greet (loaded queued) (holding canceled)).1.db
    ≡ some (started_job queued 0)
loaded-overwrites_example =
    loaded-overwrites "v1" "j1" greet queued canceled (holding canceled) (λ n. refl) (refl, refl)
      canceled_there refl

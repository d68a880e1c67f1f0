-- ===== src/Exec/Jobs/Race/Moves.antt =====
-- What each part of the goroutine and of a call that cancels comes to.
use bap_web.Prelude.{
  ℕ, suc, String, false, Option, none, some, ◌≡◌, ◌⊎◌, inl, inr, refl, sym, ap, ◌∙◌, arith, find,
  ◌=?◌, Bool-cases,
}
use bap_web.Model.{VmExecJob}
use bap_web.Store.Jobs.{is_job, update_vm_exec_job, get_vm_exec_job}
use bap_web.World.{
  World, Result, ok, err, continue, pure, attempt, quiet, try, statement, modify, time_now, ◌>>=◌,
}
use bap_web.Exec.Request.{ExecRequest}
use bap_web.Exec.Jobs.{
  ready, loaded, announced, executed, settled, ended, advance, ask_cancel, confirm_cancel, settle,
  settled_job, write_vm_exec_job_log,
}
use bap_web.Exec.Run.{execute_command, ExecResult}
use bap_web.Exec.Jobs.Race.Parts.{
  Untouched, updated-row, present, untouched, quiet-read, load-result, Stored, update-Stored,
  update-env, Keeps-ready, Keeps-announced, Keeps-executed, Keeps-write_log,
}
use mathlib.Core.Path.{subst}

-- The first part reads: it goes on with the row, unless that says that the job is canceled.
pub advance-ready :
    (vm_id id : String) (req : ExecRequest) (w : World)
    → Untouched w (advance vm_id id req ready w).1
      × (((advance vm_id id req ready w).0 ≡ ok ended)
          ⊎ ((job : VmExecJob) × (find (is_job vm_id id) w.db.vm_exec_jobs ≡ some job)
              × ((job.status =? "canceled") ≡ false)
              × ((advance vm_id id req ready w).0 ≡ ok (loaded job))))
unfolding advance ◌>>=◌
advance-ready vm_id id req w =
    let q = quiet (get_vm_exec_job vm_id id) in
    (
      untouched (advance vm_id id req ready) w (Keeps-ready vm_id id req),
      elim (quiet-read vm_id id w) [
        | inl gone ↦ inl (rw gone refl)
        | inr found ↦ rw found (load-result (find (is_job vm_id id) w.db.vm_exec_jobs) (q w).1)
      ],
    )

-- The job as the goroutine announces it.
abbrev pub started_job : VmExecJob → ℕ → VmExecJob
started_job job t = record job { status = "running"; started_at = some t }

-- The second part writes that the job runs.
pub advance-loaded :
    (vm_id id : String) (req : ExecRequest) (job : VmExecJob) (w : World)
    → job.vm_id ≡ vm_id
    → job.id ≡ id
    → let w' = (advance vm_id id req (loaded job) w).1 in
      (w'.env ≡ w.env)
      × Stored vm_id id (started_job job (w.env.clock w.step)) w w'
      × ((advance vm_id id req (loaded job) w).0
          ≡ ok (announced (started_job job (w.env.clock w.step))))
unfolding advance ◌>>=◌ time_now attempt
advance-loaded vm_id id req job w v i =
    let job' = started_job job (w.env.clock w.step) in
    let w1 = (time_now w).1 in (update-env job' w1, update-Stored vm_id id job' w1 v i, refl)

-- The third part runs the command.
pub advance-announced :
    (vm_id id : String) (req : ExecRequest) (job : VmExecJob) (w : World)
    → Untouched w (advance vm_id id req (announced job) w).1
      × ((t : ℕ) × ((advance vm_id id req (announced job) w).0
            ≡ ok (executed job (execute_command vm_id req w).0 t)))
unfolding advance ◌>>=◌ time_now try
advance-announced vm_id id req job w = (
  untouched (advance vm_id id req (announced job)) w (Keeps-announced vm_id id req job),
  (_, refl),
)

settle-result :
    (job : VmExecJob) (r : Result ExecResult) (t : ℕ) (o : Option VmExecJob) (w : World)
    → ((settle job r t o w).0 ≡ ok ended)
      ⊎ ((settle job r t o w).0 ≡ ok (settled (settled_job job r t)))
unfolding write_vm_exec_job_log attempt ◌>>=◌
settle-result job r t none w = inr refl
settle-result job r t (some latest) w = elim (Bool-cases (latest.status =? "canceled")) [
  | inl stop ↦ inl (ground arith)
  | inr on ↦ inr (ground arith)
]

-- The fourth part reads the row again.
pub advance-executed :
    (vm_id id : String) (req : ExecRequest) (job : VmExecJob) (r : Result ExecResult) (t : ℕ)
    (w : World)
    → Untouched w (advance vm_id id req (executed job r t) w).1
      × (((advance vm_id id req (executed job r t) w).0 ≡ ok ended)
          ⊎ ((advance vm_id id req (executed job r t) w).0 ≡ ok (settled (settled_job job r t))))
unfolding advance ◌>>=◌
advance-executed vm_id id req job r t w =
    let q = quiet (get_vm_exec_job vm_id id) in
    (
      untouched (advance vm_id id req (executed job r t)) w (Keeps-executed vm_id id req job r t),
      elim (quiet-read vm_id id w) [
        | inl gone ↦ rw gone (settle-result job r t none (q w).1)
        | inr found ↦
            rw found (settle-result job r t (find (is_job vm_id id) w.db.vm_exec_jobs) (q w).1)
      ],
    )

log-Untouched : (job : VmExecJob) (w : World) → Untouched w (write_vm_exec_job_log job w).1
log-Untouched job w = untouched (write_vm_exec_job_log job) w (Keeps-write_log job)

log-result : (job : VmExecJob) (w : World) → (write_vm_exec_job_log job w).0 ≡ ok tt
unfolding write_vm_exec_job_log attempt ◌>>=◌
log-result job w = ground arith

-- The last part writes the outcome.
pub advance-settled :
    (vm_id id : String) (req : ExecRequest) (job : VmExecJob) (w : World)
    → job.vm_id ≡ vm_id
    → job.id ≡ id
    → let w' = (advance vm_id id req (settled job) w).1 in
      (w'.env ≡ w.env)
      × Stored vm_id id job w w'
      × ((advance vm_id id req (settled job) w).0 ≡ ok ended)
unfolding advance ◌>>=◌ attempt
advance-settled vm_id id req job w v i =
    let w1 = (update_vm_exec_job job w).1 in
    let (env, db) = log-Untouched job w1 in
    rw (log-result job w1) (
      env ∙ update-env job w,
      subst (λ d. Stored vm_id id job w (record w { db = d })) (sym db)
          (update-Stored vm_id id job w v i),
      refl,
    )

pure_after :
    (r : Result (Unit {0})) (job : VmExecJob) (w : World) → (continue r (λ _. pure job) w).1 ≡ w
unfolding ◌>>=◌
pure_after (ok _) job w = refl
pure_after (err e) job w = refl

-- A call that cancels reads the row.
pub ask_cancel-reads :
    (vm_id id : String) (w : World) (job : VmExecJob)
    → (ask_cancel vm_id id w).0 ≡ ok job
    → Untouched w (ask_cancel vm_id id w).1 × (find (is_job vm_id id) w.db.vm_exec_jobs ≡ some job)
unfolding ask_cancel get_vm_exec_job ◌>>=◌ statement
ask_cancel-reads vm_id id w job h = ((ground arith, ground arith), ground arith)

-- The job as a call that cancels writes it.
abbrev pub canceled_job : VmExecJob → ℕ → VmExecJob
canceled_job job t = record job { status = "canceled"; error = "canceled"; completed_at = some t }

pub confirm_cancel-writes :
    (vm_id id : String) (job : VmExecJob) (w : World)
    → job.vm_id ≡ vm_id
    → job.id ≡ id
    → ((confirm_cancel job w).1.env ≡ w.env)
      × Stored vm_id id (canceled_job job (w.env.clock w.step)) w (confirm_cancel job w).1
unfolding confirm_cancel ◌>>=◌ time_now
confirm_cancel-writes vm_id id job w v i =
    let job' = canceled_job job (w.env.clock w.step) in
    let w1 = (time_now w).1 in
    let u = update_vm_exec_job job' in
    subst (λ (x : World). (x.env ≡ w.env) × Stored vm_id id job' w x)
      (sym (pure_after (u w1).0 job' (u w1).1))
      (update-env job' w1, update-Stored vm_id id job' w1 v i)

pub ended-stays :
    (vm_id id : String) (req : ExecRequest) (w : World)
    → ((advance vm_id id req ended w).0 ≡ ok ended) × ((advance vm_id id req ended w).1 ≡ w)
unfolding advance ◌>>=◌
ended-stays vm_id id req w = (refl, refl)

-- The last part always ends the goroutine.
pub settled-ends :
    (vm_id id : String) (req : ExecRequest) (job : VmExecJob) (w : World)
    → (advance vm_id id req (settled job) w).0 ≡ ok ended
unfolding advance ◌>>=◌ attempt
settled-ends vm_id id req job w = rw (log-result job (update_vm_exec_job job w).1) refl

-- Where the database answers, an update of a row that is there writes it.
pub update-row :
    (vm_id id : String) (job c : VmExecJob) (w : World)
    → w.env.sql w.step ≡ none
    → job.vm_id ≡ vm_id
    → job.id ≡ id
    → find (is_job vm_id id) w.db.vm_exec_jobs ≡ some c
    → find (is_job vm_id id) (update_vm_exec_job job w).1.db.vm_exec_jobs ≡ some job
unfolding update_vm_exec_job ◌>>=◌ statement modify
update-row vm_id id job c w answers v i there = rw answers (
    updated-row vm_id id job w.db.vm_exec_jobs v i
    ∙ rw (present vm_id id w.db.vm_exec_jobs c there) refl)

pub loaded-goes :
    (vm_id id : String) (req : ExecRequest) (job : VmExecJob) (w : World)
    → (advance vm_id id req (loaded job) w).0
      ≡ ok (announced (started_job job (w.env.clock w.step)))
unfolding advance ◌>>=◌ time_now attempt
loaded-goes vm_id id req job w = refl

pub loaded-writes :
    (vm_id id : String) (req : ExecRequest) (job c : VmExecJob) (w : World)
    → w.env.sql (suc w.step) ≡ none
    → job.vm_id ≡ vm_id
    → job.id ≡ id
    → find (is_job vm_id id) w.db.vm_exec_jobs ≡ some c
    → find (is_job vm_id id) (advance vm_id id req (loaded job) w).1.db.vm_exec_jobs
      ≡ some (started_job job (w.env.clock w.step))
unfolding advance ◌>>=◌ time_now attempt
loaded-writes vm_id id req job c w answers v i there =
    update-row vm_id id (started_job job (w.env.clock w.step)) c (time_now w).1 answers v i there

pub settled-writes :
    (vm_id id : String) (req : ExecRequest) (job c : VmExecJob) (w : World)
    → w.env.sql w.step ≡ none
    → job.vm_id ≡ vm_id
    → job.id ≡ id
    → find (is_job vm_id id) w.db.vm_exec_jobs ≡ some c
    → find (is_job vm_id id) (advance vm_id id req (settled job) w).1.db.vm_exec_jobs ≡ some job
unfolding advance ◌>>=◌ attempt
settled-writes vm_id id req job c w answers v i there =
    let w1 = (update_vm_exec_job job w).1 in
    rw (log-result job w1) (
      ap (λ d. find (is_job vm_id id) d.vm_exec_jobs) (log-Untouched job w1).1
      ∙ update-row vm_id id job c w answers v i there)

-- ===== src/Exec/Jobs/Outcome.antt =====
-- The run of a job with nothing between its parts.
use mathlib.Core.Path.{subst}
use bap_web.Prelude.{
  ℕ, suc, ℤ, pos, is_zero, String, true, false, not, some, [], ◌∷◌, ◌≡◌, ◌≢◌, ◌⊎◌, inl, inr, refl,
  sym, ap, ◌∙◌, ◌=?◌, Bool-cases,
}
use bap_web.Text.{concat, decimal}
use bap_web.Errors.{message}
use bap_web.Model.{VmExecJob}
use bap_web.World.{World, Result, ok, err, ◌>>=◌}
use bap_web.Exec.Request.{ExecRequest}
use bap_web.Exec.Jobs.Race.{row_of}
use bap_web.Exec.Jobs.Race.Honest.{SameJob, Complete, is_zero-pos, settled_job-Complete}
use bap_web.Exec.Jobs.Race.Cancel.{Answers, IsJob, ready-goes, executed-goes}
use bap_web.Exec.Jobs.{
  Runner, ready, loaded, announced, executed, settled, ended, advance, run_from, run_vm_exec_job,
  settled_job,
}
use bap_web.Exec.Run.{ExecResult, execute_command}
use bap_web.Exec.Jobs.Race.Moves.{
  loaded-goes, loaded-writes, settled-writes, advance-loaded, advance-ready, advance-announced,
  advance-executed, settled-ends, started_job,
}

module _ (vm_id id : String) (req : ExecRequest) where
  -- One part, then the rest.
  step_on :
      (n : ℕ) (r r' : Runner) (w : World)
      → (advance vm_id id req r w).0 ≡ ok r'
      → run_from (suc n) vm_id id req r w ≡ run_from n vm_id id req r' (advance vm_id id req r w).1
  unfolding run_from ◌>>=◌
  step_on n r r' w e = rw e refl

-- The row has what the command printed and how it ended.
abbrev pub Output : ExecResult → VmExecJob → Type 0
Output x job =
    (job.stdout ≡ x.stdout)
    × (job.stderr ≡ x.stderr)
    × (job.exit_code ≡ x.exit_code)
    × (job.timed_out ≡ x.timed_out)
    × (job.truncated ≡ x.truncated)

-- What the row says of the end that the command had.
abbrev pub Verdict : ExecResult → VmExecJob → Type 0
Verdict x job =
    ((x.timed_out ≡ true) × (job.status ≡ "failed") × (job.error ≡ "command timed out"))
    ⊎ ((x.timed_out ≡ false)
        × (x.exit_code ≡ pos 0)
        × (job.status ≡ "succeeded")
        × (job.error ≡ ""))
    ⊎ ((x.timed_out ≡ false)
        × (x.exit_code ≢ pos 0)
        × (job.status ≡ "failed")
        × (job.error ≡ concat ("command exited with status " ∷ decimal x.exit_code ∷ [])))

-- The row tells what `ExecuteVMCommand` returned.
abbrev pub Tells : Result ExecResult → VmExecJob → Type 0
Tells (err e) job = (job.status ≡ "failed") × (job.error ≡ message e)
Tells (ok x) job = Output x job × Verdict x job

not_zero : (n : ℤ) → not (is_zero n) ≡ true → n ≢ pos 0
not_zero n h e = let h' = rw e at h in cc

settled_job-Tells :
    (job : VmExecJob) (r : Result ExecResult) (t : ℕ) → Tells r (settled_job job r t)
settled_job-Tells job (err e) t = (refl, refl)
settled_job-Tells job (ok r) t = elim (Bool-cases r.timed_out) [
  | inl late ↦ rw late ((refl, refl, refl, refl, refl), inl (refl, refl, refl))
  | inr in_time ↦ elim (Bool-cases (not (is_zero r.exit_code))) [
    | inl bad ↦
        rw (in_time, bad)
          ((refl, refl, refl, refl, refl), inr (inr (refl, not_zero r.exit_code bad, refl, refl)))
    | inr good ↦
        rw (in_time, good)
          (
            (refl, refl, refl, refl, refl),
            inr (inl (refl, is_zero-pos r.exit_code good, refl, refl)),
          )
  ]
]

-- What the command returned that the goroutine ran once it had announced its job.
abbrev pub ran_from : String → String → ExecRequest → VmExecJob → World → Result ExecResult
ran_from vm_id id req first w =
    (execute_command vm_id req (advance vm_id id req (loaded first) w).1).0

abbrev pub ran : String → String → ExecRequest → VmExecJob → World → Result ExecResult
ran vm_id id req first w = ran_from vm_id id req first (advance vm_id id req ready w).1

-- What the row says after a run that nothing comes between, with what the command returned.
pub record Done (vm_id id : String) (r : Result ExecResult) (first : VmExecJob) (w : World)
    : Type 0 where
  pub job : VmExecJob
  pub found : row_of vm_id id w.db ≡ some job
  pub same : SameJob job first
  pub tells : Tells r job
  pub complete : Complete job

module _ (vm_id id : String) (req : ExecRequest) (first : VmExecJob)
    (own : IsJob vm_id id first) where
  -- The remaining parts bring the row to an outcome.
  Finishes : Result ExecResult → ℕ → Runner → World → Type 0
  Finishes x n r w = Done vm_id id x first (run_from n vm_id id req r w).1

  after :
      (x : Result ExecResult) (n : ℕ) (r r' : Runner) (w : World)
      → (advance vm_id id req r w).0 ≡ ok r'
      → Finishes x n r' (advance vm_id id req r w).1
      → Finishes x (suc n) r w
  unfolding Finishes
  after x n r r' w e h =
      subst (λ (y : Result Runner × World). Done vm_id id x first y.1)
        (sym (step_on vm_id id req n r r' w e)) h

  settled-Finishes :
      (w : World) (c job : VmExecJob) (x : Result ExecResult)
      → Answers w.env
      → row_of vm_id id w.db ≡ some c
      → SameJob job first
      → Tells x job
      → Complete job
      → Finishes x 1 (settled job) w
  unfolding Finishes run_from ◌>>=◌
  settled-Finishes w c job x answers there same tells complete =
      after x 0 (settled job) ended w (settled-ends vm_id id req job w) (record {
        job = job;
        found =
            settled-writes vm_id id req job c w (answers w.step)
              (ap (λ (x : VmExecJob). x.vm_id) same ∙ own.0)
              (ap (λ (x : VmExecJob). x.id) same ∙ own.1) there;
        same = same;
        tells = tells;
        complete = complete;
      })

  executed-Finishes :
      (w : World) (c job : VmExecJob) (r : Result ExecResult) (t : ℕ)
      → Answers w.env
      → row_of vm_id id w.db ≡ some c
      → (c.status =? "canceled") ≡ false
      → SameJob job first
      → Finishes r 2 (executed job r t) w
  executed-Finishes w c job r t answers there on same =
      let (env, db) = (advance-executed vm_id id req job r t w).0 in
      let w' = (advance vm_id id req (executed job r t) w).1 in
      let (own', complete) = settled_job-Complete first job r t same in
      after r 1 (executed job r t) (settled (settled_job job r t)) w
        (executed-goes vm_id id req job c r t w answers there on)
        (settled-Finishes w' c (settled_job job r t) r (subst Answers (sym env) answers)
          (ap (row_of vm_id id) db ∙ there) own' (settled_job-Tells job r t) complete)

  announced-Finishes :
      (w : World) (job : VmExecJob)
      → Answers w.env
      → row_of vm_id id w.db ≡ some job
      → (job.status =? "canceled") ≡ false
      → SameJob job first
      → Finishes (execute_command vm_id req w).0 3 (announced job) w
  announced-Finishes w job answers there on same =
      let ((env, db), (t, goes)) = advance-announced vm_id id req job w in
      let r = (execute_command vm_id req w).0 in
      let w' = (advance vm_id id req (announced job) w).1 in
      after r 2 (announced job) (executed job r t) w goes (
        executed-Finishes w' job job r t (subst Answers (sym env) answers)
          (ap (row_of vm_id id) db ∙ there) on same)

  loaded-Finishes :
      (w : World)
      → Answers w.env
      → row_of vm_id id w.db ≡ some first
      → Finishes (ran_from vm_id id req first w) 4 (loaded first) w
  loaded-Finishes w answers there =
      let job = started_job first (w.env.clock w.step) in
      let (env, _, _) = advance-loaded vm_id id req first w own.0 own.1 in
      let w' = (advance vm_id id req (loaded first) w).1 in
      after (ran_from vm_id id req first w) 3 (loaded first) (announced job) w
        (loaded-goes vm_id id req first w)
        (announced-Finishes w' job (subst Answers (sym env) answers)
          (loaded-writes vm_id id req first first w (answers (suc w.step)) own.0 own.1 there) refl
          refl)

-- Where the database answers every statement and nothing comes between its parts, the run of a job
-- that is there and is not canceled leaves a row for the same command with the time of its end. The
-- row tells what `ExecuteVMCommand` returned: where that is a result, its output and exit code, and
-- that the job succeeded exactly if the command exited with zero in time, and why it failed if not;
-- where it is an error, that the job failed, with the error's text.
pub run_vm_exec_job-Done :
    (vm_id id : String) (req : ExecRequest) (first : VmExecJob) (w : World)
    → IsJob vm_id id first
    → Answers w.env
    → row_of vm_id id w.db ≡ some first
    → (first.status =? "canceled") ≡ false
    → Done vm_id id (ran vm_id id req first w) first (run_vm_exec_job vm_id id req w).1
unfolding run_vm_exec_job Finishes
run_vm_exec_job-Done vm_id id req first w own answers there on =
    let (env, db) = (advance-ready vm_id id req w).0 in
    let w' = (advance vm_id id req ready w).1 in
    after vm_id id req first own (ran vm_id id req first w) 4 ready (loaded first) w
      (ready-goes vm_id id req first w answers there on)
      (loaded-Finishes vm_id id req first own w' (subst Answers (sym env) answers)
        (ap (row_of vm_id id) db ∙ there))

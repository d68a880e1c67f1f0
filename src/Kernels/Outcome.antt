-- ===== src/Kernels/Outcome.antt =====
-- What the job that tests a kernel comes to.
use mathlib.Core.Path.{subst}
use bap_web.Prelude.{
  ℕ, suc, String, Option, none, some, find, ◌=?◌, ◌≡◌, ◌≢◌, refl, sym, arith, eq_iff,
}
use bap_web.Model.{Kernel, KernelTestJob}
use bap_web.Config.{Config}
use bap_web.Errors.{Error, message}
use bap_web.Store.Db.{Db}
use bap_web.Store.Assets.{get_kernel, update_kernel_test_job, get_kernel_test_job}
use bap_web.World.{World, M, Result, ok, err, statement, try, attempt, quiet, time_now, ◌>>=◌}
use bap_web.SshKeys.{Crypto}
use bap_web.Kernels.{set_found, set_tested, tested}
use bap_web.Kernels.Smoke.{execute_kernel_test, test_ended, test_loaded, run_kernel_test}
use bap_web.Kernels.Frame.{Tests, set_tested-Tests}
use bap_web.Kernels.Rows.{row, There, found-id, written, execute-Tests, execute-Returns}

set_found-ok :
    (change : Kernel → Kernel) (o : Option Kernel) (w : World) → (set_found change o w).0 ≡ ok tt
unfolding ◌>>=◌ attempt
set_found-ok change none w = refl
set_found-ok change (some k) w = refl

-- A quiet query does not fail.
quiet-ok : {A : Type 0} (m : M (Option A)) (w : World) → (o : Option A) × ((quiet m w).0 ≡ ok o)
unfolding quiet
quiet-ok {A = A} m w =
    elim ((m w).0)
      as (λ (r : Result (Option A)).
        (o : Option A) × (elim r [ ok p ↦ ok p | err e ↦ ok none ] ≡ ok o)) [
          | ok o ↦ (o, refl)
          | err e ↦ (none, refl)
        ]

set_tested-ok :
    (id : String) (change : Kernel → Kernel) (w : World) → (set_tested id change w).0 ≡ ok tt
unfolding set_tested ◌>>=◌
set_tested-ok id change w =
    let (o, e) = quiet-ok (get_kernel id) w in
    rw e (set_found-ok change o (quiet (get_kernel id) w).1)

-- The row tells what the test returned.
abbrev pub Tells : Result KernelTestJob → KernelTestJob → Type 0
Tells (ok seen) job =
    (job.status ≡ "succeeded") × (job.uname_result ≡ seen.uname_result) × (job.error ≡ seen.error)
Tells (err e) job = (job.status ≡ "failed") × (job.error ≡ message e)

-- A test that has come to its end, with what it returned.
pub record Done (r : Result KernelTestJob) (d : Db) (id : String) : Type 0 where
  pub job : KernelTestJob
  pub there : find (λ j. j.id =? id) d.kernel_test_jobs ≡ some job
  pub tells : Tells r job
  pub ended : job.completed_at ≢ none

failed-Done :
    (job : KernelTestJob) (e : Error) (w : World)
    → job.completed_at ≢ none
    → Tests (There job.id) w.env w.db
    → Done (err e) (tested job (some e) w).1.db job.id
unfolding ◌>>=◌ attempt
failed-Done job e w completed h =
    let change : Kernel → Kernel = λ k. record k { status = "failed" } in
    let before = (set_tested-Tests (There job.id) job.kernel_id change).at w h in
    let last : KernelTestJob = record job { status = "failed"; error = message e } in
    rw (set_tested-ok job.kernel_id change w) (record {
      job = last;
      there = (written last (set_tested job.kernel_id change w).1 before).1;
      tells = (refl, refl);
      ended = completed;
    })

succeeded-Done :
    (job : KernelTestJob) (w : World)
    → job.completed_at ≢ none
    → Tests (There job.id) w.env w.db
    → Done (ok job) (tested job none w).1.db job.id
unfolding ◌>>=◌ attempt
succeeded-Done job w completed h =
    let change : Kernel → Kernel =
      λ k. record k { status = "active"; last_tested_at = job.completed_at } in
    let last : KernelTestJob = record job { status = "succeeded" } in
    let after =
      (set_tested-Tests (λ ts. row job.id ts ≡ some last) job.kernel_id change).at
        (update_kernel_test_job last w).1 (written last w h) in
    record { job = last; there = after.1; tells = (refl, refl, refl); ended = completed }

some≢none : {A : Type 0} (a : A) → some a ≢ none
some≢none a e = cc

test_ended-Done :
    (job : KernelTestJob) (completed : ℕ) (r : Result KernelTestJob) (w : World)
    → ((j : KernelTestJob) → r ≡ ok j → j.id ≡ job.id)
    → Tests (There job.id) w.env w.db
    → Done r (test_ended job completed r w).1.db job.id
test_ended-Done job completed (err e) w same h =
    failed-Done (record job { completed_at = some completed }) e w (some≢none completed) h
test_ended-Done job completed (ok seen) w same h =
    let id = same seen refl in
    let last = record seen { completed_at = some completed } in
    let done =
      succeeded-Done last w (some≢none completed)
        (subst (λ i. Tests (There i) w.env w.db) (sym id) h) in
    subst (λ i. Done (ok seen) (test_ended job completed (ok seen) w).1.db i) id
      (record { job = done.job; there = done.there; tells = done.tells; ended = done.ended })

-- What the test returns that begins in a world, once the row of its job says that it runs.
abbrev pub test_of : Crypto → Config → KernelTestJob → World → Result KernelTestJob
test_of crypto cfg job w =
    let running : KernelTestJob = record job {
      status = "running";
      started_at = some (w.env.clock w.step);
    } in
    (execute_kernel_test crypto cfg running
      (update_kernel_test_job running (record w { step = suc w.step })).1).0

test_loaded-Done :
    (crypto : Crypto) (cfg : Config) (job : KernelTestJob) (w : World)
    → Tests (There job.id) w.env w.db
    → Done (test_of crypto cfg job w) (test_loaded crypto cfg (some job) w).1.db job.id
unfolding ◌>>=◌ attempt try time_now
test_loaded-Done crypto cfg job w h =
    let w1 : World = record w { step = suc w.step } in
    let running : KernelTestJob = record job {
      status = "running";
      started_at = some (w.env.clock w.step);
    } in
    let (answers, there) = written running w1 h in
    let w2 = (update_kernel_test_job running w1).1 in
    let h3 = (execute-Tests crypto cfg running).at w2 (answers, (running, there)) in
    let w3 = (execute_kernel_test crypto cfg running w2).1 in
    test_ended-Done running (w3.env.clock w3.step) (execute_kernel_test crypto cfg running w2).0
      (record w3 { step = suc w3.step }) ((execute-Returns crypto cfg running).from w2) h3

loaded :
    (id : String) (job : KernelTestJob) (w : World)
    → w.env.sql w.step ≡ none
    → find (λ j. j.id =? id) w.db.kernel_test_jobs ≡ some job
    → quiet (get_kernel_test_job id) w ≡ (ok (some job), record w { step = suc w.step })
unfolding ◌>>=◌ quiet get_kernel_test_job statement
loaded id job w answers there = ground arith

-- Where the database answers every statement, the test of a kernel comes to an end, whatever becomes
-- of the machine, the log-in and the deletion. Where `executeKernelTest` returned a job, the row of
-- the job that was there says that it succeeded, with what the guest answered; where it returned an
-- error, that it failed, with the error's text. In both cases it says when it ended.
pub run_kernel_test-Done :
    (crypto : Crypto) (cfg : Config) (id : String) (job : KernelTestJob) (w : World)
    → ((n : ℕ) → w.env.sql n ≡ none)
    → find (λ j. j.id =? id) w.db.kernel_test_jobs ≡ some job
    → Done
        (test_of crypto cfg job (record w { step = suc w.step }))
        (run_kernel_test crypto cfg id w).1.db
        id
unfolding run_kernel_test ◌>>=◌
run_kernel_test-Done crypto cfg id job w answers there =
    let same : job.id ≡ id = (eq_iff job.id id).0 (found-id id w.db.kernel_test_jobs job there) in
    let there' : row job.id w.db.kernel_test_jobs ≡ some job =
      subst (λ i. row i w.db.kernel_test_jobs ≡ some job) (sym same) there in
    rw (loaded id job w (answers w.step) there) (
      subst
        (Done (test_of crypto cfg job (record w { step = suc w.step }))
          (test_loaded crypto cfg (some job) (record w { step = suc w.step })).1.db)
        same
        (test_loaded-Done crypto cfg job (record w { step = suc w.step }) (answers, (job, there'))))

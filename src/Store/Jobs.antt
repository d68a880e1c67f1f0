-- ===== src/Store/Jobs.antt =====
-- internal/store/store.go: the table `vm_exec_jobs`.
use bap_web.Prelude.{
  String, Bool, ◌&&◌, Option, none, some, List, [], ◌∷◌, ◌++◌, any, find, keep, take, ◌=?◌,
  if◌then◌else◌,
}
use bap_web.Model.{VmExecJob}
use bap_web.Store.Table.{update, order_by}
use bap_web.Store.Vms.{refuse_clash}
use bap_web.World.{M, gets, ◌>>=◌, ◌>>◌, statement, modify}

abbrev pub is_job : String → String → VmExecJob → Bool
is_job vm_id id j = j.vm_id =? vm_id && j.id =? id

unfoldable pub create_vm_exec_job : VmExecJob → M (Unit {0})
create_vm_exec_job job = do
  statement
  jobs ← gets (λ w. w.db.vm_exec_jobs)
  refuse_clash (if any (λ j. j.id =? job.id) jobs then some "vm_exec_jobs.id" else none)
  modify (λ d. record d { vm_exec_jobs = d.vm_exec_jobs ++ job ∷ [] })

unfoldable pub update_vm_exec_job : VmExecJob → M (Unit {0})
update_vm_exec_job job = do
  statement
  modify (λ d. record d { vm_exec_jobs = update (λ j. j.id =? job.id) (λ _. job) d.vm_exec_jobs })

unfoldable pub get_vm_exec_job : String → String → M (Option VmExecJob)
get_vm_exec_job vm_id id = do statement; gets (λ w. find (is_job vm_id id) w.db.vm_exec_jobs)

-- The latest fifty, the newest first.
unfoldable pub list_vm_exec_jobs : String → M (List VmExecJob)
list_vm_exec_jobs vm_id = do
  statement
  gets (λ w. take 50 (
      order_by (λ a b. w.env.created_before b.created_at a.created_at)
        (keep (λ j. j.vm_id =? vm_id) w.db.vm_exec_jobs)))

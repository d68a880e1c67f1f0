-- ===== src/Exec/Jobs/Race/Parts.antt =====
-- What each part does to the row of the job.
use bap_web.Prelude.{
  ℕ, String, true, false, List, [], ◌∷◌, Option, none, some, ◌≡◌, ◌⊎◌, inl, inr, refl, ap, ◌∙◌,
  arith, any, find, ◌=?◌, eq_iff, Bool-cases, if◌then◌else◌,
}
use bap_web.Model.{VmExecJob}
use bap_web.Store.Db.{Db}
use bap_web.Store.Table.{update}
use bap_web.Store.Keeps.{query_rules}
use bap_web.Store.Jobs.{is_job, update_vm_exec_job, get_vm_exec_job}
use bap_web.World.{Env, World, M, Result, ok, err, attempt, quiet, statement, modify, ◌>>=◌}
use bap_web.World.Keeps.{Keeps}
use bap_web.Exec.Request.{ExecRequest}
use bap_web.Exec.Jobs.{
  ready, loaded, announced, executed, ended, advance, load, settle, write_vm_exec_job_log,
}
use bap_web.Exec.Run.{execute_command, execute_vm_command, running_vm, returned_request, ExecResult}

-- The rows after an update of a row that the goroutine or a call holds.
pub updated-row :
    (vm_id id : String) (job : VmExecJob) (rows : List VmExecJob)
    → job.vm_id ≡ vm_id
    → job.id ≡ id
    → find (is_job vm_id id) (update (λ j. j.id =? job.id) (λ _. job) rows)
      ≡ (if any (λ j. j.id =? id) rows then some job else none)
unfolding find update any
updated-row vm_id id job [] v i = refl
updated-row vm_id id job (r ∷ rows) v i = ground (
  arith,
  updated-row vm_id id job rows v i,
  eq_iff r.id job.id,
  eq_iff r.id id,
  eq_iff job.id id,
  eq_iff job.vm_id vm_id,
)

module _ {P : Env → Db → Type 0} where
  pub Keeps-write_log : (job : VmExecJob) → Keeps P (write_vm_exec_job_log job)
  unfolding write_vm_exec_job_log
  Keeps-write_log job = search query_rules

  Keeps-returned_request : (r : Result ExecRequest) → Keeps P (returned_request r)
  Keeps-returned_request (ok r) = search query_rules
  Keeps-returned_request (err e) = search query_rules

  pub Keeps-execute_command :
      (vm_id : String) (req : ExecRequest) → Keeps P (execute_command vm_id req)
  unfolding execute_command execute_vm_command running_vm
  Keeps-execute_command vm_id req = search (query_rules, Keeps-returned_request) depth 20

  Keeps-load : (o : Option VmExecJob) → Keeps P (load o)
  Keeps-load none = search query_rules
  Keeps-load (some job) = search (query_rules, Keeps-write_log)

  Keeps-settle :
      (job : VmExecJob) (r : Result ExecResult) (t : ℕ) (o : Option VmExecJob)
      → Keeps P (settle job r t o)
  Keeps-settle job r t none = search query_rules
  Keeps-settle job r t (some latest) = search (query_rules, Keeps-write_log)

  pub Keeps-get_vm_exec_job : (vm_id id : String) → Keeps P (get_vm_exec_job vm_id id)
  unfolding get_vm_exec_job
  Keeps-get_vm_exec_job vm_id id = search query_rules

  pub Keeps-ready : (vm_id id : String) (req : ExecRequest) → Keeps P (advance vm_id id req ready)
  unfolding advance
  Keeps-ready vm_id id req = search (query_rules, Keeps-get_vm_exec_job, Keeps-load) depth 12

  pub Keeps-announced :
      (vm_id id : String) (req : ExecRequest) (job : VmExecJob)
      → Keeps P (advance vm_id id req (announced job))
  unfolding advance
  Keeps-announced vm_id id req job = search (query_rules, Keeps-execute_command) depth 12

  pub Keeps-executed :
      (vm_id id : String) (req : ExecRequest) (job : VmExecJob) (r : Result ExecResult) (t : ℕ)
      → Keeps P (advance vm_id id req (executed job r t))
  unfolding advance
  Keeps-executed vm_id id req job r t =
      search (query_rules, Keeps-get_vm_exec_job, Keeps-settle) depth 12

-- A part that only reads leaves all as it was, the environment too.
abbrev pub Untouched : World → World → Type 0
Untouched w w' = (w'.env ≡ w.env) × (w'.db ≡ w.db)

abbrev pub AsWas : World → Env → Db → Type 0
AsWas w env d = (env ≡ w.env) × (d ≡ w.db)

pub untouched : {A : Type 0} (m : M A) (w : World) → Keeps (AsWas w) m → Untouched w (m w).1
untouched m w k = k.at w (refl, refl)

pub quiet-read :
    (vm_id id : String) (w : World)
    → ((quiet (get_vm_exec_job vm_id id) w).0 ≡ ok none)
      ⊎ ((quiet (get_vm_exec_job vm_id id) w).0 ≡ ok (find (is_job vm_id id) w.db.vm_exec_jobs))
unfolding quiet get_vm_exec_job ◌>>=◌ statement
quiet-read vm_id id w = ground arith

pub load-result :
    (o : Option VmExecJob) (w : World)
    → ((load o w).0 ≡ ok ended)
      ⊎ ((job : VmExecJob) × (o ≡ some job)
          × ((job.status =? "canceled") ≡ false)
          × ((load o w).0 ≡ ok (loaded job)))
unfolding write_vm_exec_job_log attempt ◌>>=◌
load-result none w = inl refl
load-result (some job) w = elim (Bool-cases (job.status =? "canceled")) [
  | inl stop ↦ inl (ground arith)
  | inr on ↦ inr (job, refl, on, ground arith)
]

-- An update of the row, whose error is dropped: the row is as it was, it is the job, or
-- there was none.
abbrev pub Stored : String → String → VmExecJob → World → World → Type 0
Stored vm_id id job w w' =
    (find (is_job vm_id id) w'.db.vm_exec_jobs ≡ find (is_job vm_id id) w.db.vm_exec_jobs)
    ⊎ (find (is_job vm_id id) w'.db.vm_exec_jobs ≡ some job)
    ⊎ ((find (is_job vm_id id) w'.db.vm_exec_jobs ≡ none)
        × (find (is_job vm_id id) w.db.vm_exec_jobs ≡ none))

absent :
    (vm_id id : String) (rows : List VmExecJob)
    → any (λ j. j.id =? id) rows ≡ false
    → find (is_job vm_id id) rows ≡ none
unfolding find any
absent vm_id id [] h = refl
absent vm_id id (r ∷ rows) h = ground (arith, absent vm_id id rows)

if-cases :
    (vm_id id : String) (job : VmExecJob) (rows : List VmExecJob) (o : Option VmExecJob)
    → o ≡ (if any (λ j. j.id =? id) rows then some job else none)
    → (o ≡ some job) ⊎ ((o ≡ none) × (find (is_job vm_id id) rows ≡ none))
if-cases vm_id id job rows o e = elim (Bool-cases (any (λ j. j.id =? id) rows)) [
  | inl there ↦ inl (rw there at e)
  | inr missing ↦ inr (rw missing at e, absent vm_id id rows missing)
]

update-either :
    (job : VmExecJob) (w : World)
    → ((update_vm_exec_job job w).1.db.vm_exec_jobs ≡ w.db.vm_exec_jobs)
      ⊎ ((update_vm_exec_job job w).1.db.vm_exec_jobs
          ≡ update (λ j. j.id =? job.id) (λ _. job) w.db.vm_exec_jobs)
unfolding update_vm_exec_job ◌>>=◌ statement modify
update-either job w = ground arith

pub update-Stored :
    (vm_id id : String) (job : VmExecJob) (w : World)
    → job.vm_id ≡ vm_id
    → job.id ≡ id
    → Stored vm_id id job w (update_vm_exec_job job w).1
update-Stored vm_id id job w v i = elim (update-either job w) [
  | inl same ↦ inl (ap (find (is_job vm_id id)) same)
  | inr wrote ↦ inr (
      if-cases vm_id id job w.db.vm_exec_jobs _
        (ap (find (is_job vm_id id)) wrote ∙ updated-row vm_id id job w.db.vm_exec_jobs v i))
]

pub update-env : (job : VmExecJob) (w : World) → (update_vm_exec_job job w).1.env ≡ w.env
unfolding update_vm_exec_job ◌>>=◌ statement modify
update-env job w = ground arith

pub present :
    (vm_id id : String) (rows : List VmExecJob) (c : VmExecJob)
    → find (is_job vm_id id) rows ≡ some c
    → any (λ j. j.id =? id) rows ≡ true
unfolding find any
present vm_id id [] c h = cc
present vm_id id (r ∷ rows) c h = ground (arith, present vm_id id rows c)

-- ===== src/Exec/Jobs/Race.antt =====
-- The goroutine of one job and any number of calls that cancel it, in any order.
pub mod Parts
pub mod Moves
pub mod Honest
pub mod Reached
pub mod Cancel
use bap_web.Prelude.{
  String, Bool, true, false, List, [], ◌∷◌, ◌++◌, Option, none, some, ◌≡◌, ◌⊎◌, find,
}
use bap_web.Model.{VmExecJob}
use bap_web.Store.Db.{Db}
use bap_web.Store.Jobs.{is_job}
use bap_web.World.{World, Result, ok, err}
use bap_web.Exec.Request.{ExecRequest}
use bap_web.Exec.Jobs.{Runner, advance, ask_cancel, confirm_cancel, is_final}

-- The goroutine, and the jobs as the calls in progress have read them.
pub record Sys : Type 0 where
  pub world : World
  pub runner : Runner
  pub cancels : List VmExecJob

abbrev pub row_of : String → String → Db → Option VmExecJob
row_of vm_id id d = find (is_job vm_id id) d.vm_exec_jobs

-- `removals` says whether the row may be removed meanwhile, as `DeleteVM` does.
module _ (removals : Bool) (vm_id id : String) (req : ExecRequest) where
  -- One part of the goroutine or of a call that cancels, or a change by others, which leaves the row
  -- as it is, or removes it.
  pub data Step : Sys → Sys → Type 0 where
    go :
        (s : Sys) (r : Runner)
        → (advance vm_id id req s.runner s.world).0 ≡ ok r
        → Step s (record s { world = (advance vm_id id req s.runner s.world).1; runner = r })
    ask :
        (s : Sys) (job : VmExecJob)
        → (ask_cancel vm_id id s.world).0 ≡ ok job
        → is_final job.status ≡ false
        → Step s (record s { world = (ask_cancel vm_id id s.world).1; cancels = job ∷ s.cancels })
    confirm :
        (s : Sys) (before after : List VmExecJob) (job : VmExecJob)
        → s.cancels ≡ before ++ job ∷ after
        → Step s (record s { world = (confirm_cancel job s.world).1; cancels = before ++ after })
    others :
        (s : Sys) (w : World)
        → w.env ≡ s.world.env
        → row_of vm_id id w.db ≡ row_of vm_id id s.world.db
        → Step s (record s { world = w })
    removed :
        (s : Sys) (w : World)
        → removals ≡ true
        → w.env ≡ s.world.env
        → row_of vm_id id w.db ≡ none
        → Step s (record s { world = w })

  pub data Reach (s : Sys) : Sys → Type 0 where
    here : Reach s s
    next : {t u : Sys} → Reach s t → Step t u → Reach s u

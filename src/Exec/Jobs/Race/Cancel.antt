-- ===== src/Exec/Jobs/Race/Cancel.antt =====
-- When a cancellation holds, and when it is lost.
use mathlib.Core.Path.{subst}
use bap_web.Prelude.{
  ℕ, suc, String, true, false, List, Option, none, some, ◌≡◌, inl, inr, refl, sym, ap, ◌∙◌, arith,
  All, All-append, ◌=?◌,
}
use bap_web.Model.{VmExecJob}
use bap_web.World.{Env, World, Result, ok, quiet, attempt, statement, ◌>>=◌}
use bap_web.World.Keeps.{ok-injective}
use bap_web.Store.Jobs.{get_vm_exec_job}
use bap_web.Exec.Request.{ExecRequest}
use bap_web.Exec.Jobs.{
  Runner, ready, loaded, announced, executed, settled, ended, settled_job, advance, confirm_cancel,
  is_final, load, settle, write_vm_exec_job_log,
}
use bap_web.Exec.Run.{ExecResult}
use bap_web.Exec.Jobs.Race.{Sys, Step, go, ask, confirm, others, removed, Reach, here, next, row_of}
use bap_web.Exec.Jobs.Race.Honest.{All-middle}
use bap_web.Exec.Jobs.Race.Parts.{Stored}
use bap_web.Exec.Jobs.Race.Moves.{
  advance-ready, advance-announced, ended-stays, ask_cancel-reads, confirm_cancel-writes,
  canceled_job, advance-executed, loaded-writes, started_job,
}

-- The database answers every statement.
abbrev pub Answers : Env → Type 0
Answers env = (n : ℕ) → env.sql n ≡ none

-- The goroutine is not about to write the row.
abbrev pub Idle : Runner → Type 0
Idle (loaded job) = ⊥
Idle (settled job) = ⊥
Idle _ = Unit

abbrev pub IsJob : String → String → VmExecJob → Type 0
IsJob vm_id id j = (j.vm_id ≡ vm_id) × (j.id ≡ id)

abbrev pub RowCanceled : Option VmExecJob → Type 0
RowCanceled none = ⊥
RowCanceled (some j) = j.status ≡ "canceled"

pub quiet-Answers :
    (vm_id id : String) (w : World)
    → Answers w.env
    → (quiet (get_vm_exec_job vm_id id) w).0 ≡ ok (row_of vm_id id w.db)
unfolding quiet get_vm_exec_job ◌>>=◌ statement
quiet-Answers vm_id id w answers = ground (arith, answers w.step)

load-canceled : (o : Option VmExecJob) (w : World) → RowCanceled o → (load o w).0 ≡ ok ended
unfolding write_vm_exec_job_log attempt ◌>>=◌
load-canceled none w h = absurd h
load-canceled (some j) w h =
    let stop : (j.status =? "canceled") ≡ true = ap (λ s. s =? "canceled") h in ground arith

settle-canceled :
    (job : VmExecJob) (r : Result ExecResult) (t : ℕ) (o : Option VmExecJob) (w : World)
    → RowCanceled o
    → (settle job r t o w).0 ≡ ok ended
unfolding write_vm_exec_job_log attempt ◌>>=◌
settle-canceled job r t none w h = absurd h
settle-canceled job r t (some j) w h =
    let stop : (j.status =? "canceled") ≡ true = ap (λ s. s =? "canceled") h in ground arith

-- Where the row is canceled, both reads of the goroutine end it.
ready-ends :
    (vm_id id : String) (req : ExecRequest) (w : World)
    → Answers w.env
    → RowCanceled (row_of vm_id id w.db)
    → (advance vm_id id req ready w).0 ≡ ok ended
unfolding advance ◌>>=◌
ready-ends vm_id id req w answers h =
    rw (quiet-Answers vm_id id w answers) (load-canceled (row_of vm_id id w.db) _ h)

executed-ends :
    (vm_id id : String) (req : ExecRequest) (job : VmExecJob) (r : Result ExecResult) (t : ℕ)
    (w : World)
    → Answers w.env
    → RowCanceled (row_of vm_id id w.db)
    → (advance vm_id id req (executed job r t) w).0 ≡ ok ended
unfolding advance ◌>>=◌
executed-ends vm_id id req job r t w answers h =
    rw (quiet-Answers vm_id id w answers) (settle-canceled job r t (row_of vm_id id w.db) _ h)

final-row : (job : VmExecJob) → is_final job.status ≡ false → RowCanceled (some job) → ⊥
final-row job h e = let k : true ≡ false = sym (ap is_final e) ∙ h in cc

-- Where it is not canceled, they go on.
pub ready-goes :
    (vm_id id : String) (req : ExecRequest) (c : VmExecJob) (w : World)
    → Answers w.env
    → row_of vm_id id w.db ≡ some c
    → (c.status =? "canceled") ≡ false
    → (advance vm_id id req ready w).0 ≡ ok (loaded c)
unfolding advance ◌>>=◌
ready-goes vm_id id req c w answers there on = rw (quiet-Answers vm_id id w answers, there, on) refl

pub executed-goes :
    (vm_id id : String) (req : ExecRequest) (job c : VmExecJob) (r : Result ExecResult) (t : ℕ)
    (w : World)
    → Answers w.env
    → row_of vm_id id w.db ≡ some c
    → (c.status =? "canceled") ≡ false
    → (advance vm_id id req (executed job r t) w).0 ≡ ok (settled (settled_job job r t))
unfolding advance ◌>>=◌
executed-goes vm_id id req job c r t w answers there on =
    rw (quiet-Answers vm_id id w answers, there, on) refl

module _ (vm_id id : String) (req : ExecRequest) where
  record Stays (s : Sys) : Type 0 where
    answers : Answers s.world.env
    row : RowCanceled (row_of vm_id id s.world.db)
    idle : Idle s.runner
    asked : All (IsJob vm_id id) s.cancels

  read_on :
      (w w' : World) (cs : List VmExecJob) (result : Result Runner) (known r : Runner)
      → (w'.env ≡ w.env) × (w'.db ≡ w.db)
      → result ≡ ok known
      → result ≡ ok r
      → Idle known
      → Answers w.env
      → RowCanceled (row_of vm_id id w.db)
      → All (IsJob vm_id id) cs
      → Stays (record { world = w'; runner = r; cancels = cs })
  read_on w w' cs result known r (env, db) same e idle answers row asked = record {
    answers = subst Answers (sym env) answers;
    row = subst RowCanceled (sym (ap (row_of vm_id id) db)) row;
    idle = subst Idle (ok-injective (sym same ∙ e)) idle;
    asked = asked;
  }

  go_from :
      (w : World) (cs : List VmExecJob) (before r : Runner)
      → (advance vm_id id req before w).0 ≡ ok r
      → Idle before
      → Answers w.env
      → RowCanceled (row_of vm_id id w.db)
      → All (IsJob vm_id id) cs
      → Stays (record { world = (advance vm_id id req before w).1; runner = r; cancels = cs })
  go_from w cs ready r e idle answers row asked =
      read_on w _ cs _ ended r (advance-ready vm_id id req w).0
        (ready-ends vm_id id req w answers row) e tt answers row asked
  go_from w cs (loaded job) r e idle answers row asked = absurd idle
  go_from w cs (announced job) r e idle answers row asked =
      let (same_world, (t, same)) = advance-announced vm_id id req job w in
      read_on w _ cs _ (executed job _ t) r same_world same e tt answers row asked
  go_from w cs (executed job x t) r e idle answers row asked =
      read_on w _ cs _ ended r (advance-executed vm_id id req job x t w).0
        (executed-ends vm_id id req job x t w answers row) e tt answers row asked
  go_from w cs (settled job) r e idle answers row asked = absurd idle
  go_from w cs ended r e idle answers row asked =
      let (same, w') = ended-stays vm_id id req w in
      read_on w _ cs _ ended r (ap (λ (x : World). x.env) w', ap (λ (x : World). x.db) w') same e tt
        answers row asked

  held_row-RowCanceled :
      (job : VmExecJob) (t : ℕ) (w w' : World)
      → RowCanceled (row_of vm_id id w.db)
      → Stored vm_id id (canceled_job job t) w w'
      → RowCanceled (row_of vm_id id w'.db)
  held_row-RowCanceled job t w w' old (inl same) = subst RowCanceled (sym same) old
  held_row-RowCanceled job t w w' old (inr (inl wrote)) = subst RowCanceled (sym wrote) refl
  held_row-RowCanceled job t w w' old (inr (inr (_, missing))) =
      absurd (subst RowCanceled missing old)

  Step-Stays : {s t : Sys} → Step false vm_id id req s t → Stays s → Stays t
  Step-Stays (go s r e) i = go_from s.world s.cancels s.runner r e i.idle i.answers i.row i.asked
  Step-Stays (ask s job e unfinished) i =
      let (same_world, found) = ask_cancel-reads vm_id id s.world job e in
      absurd (final-row job unfinished (subst RowCanceled found i.row))
  Step-Stays (confirm s before after job e) i =
      let (left, own, right) =
        All-middle (IsJob vm_id id) before after job (subst (All (IsJob vm_id id)) e i.asked) in
      let (env, stored) = confirm_cancel-writes vm_id id job s.world own.0 own.1 in
      let t = s.world.env.clock s.world.step in
      record {
        answers = subst Answers (sym env) i.answers;
        row = held_row-RowCanceled job t s.world (confirm_cancel job s.world).1 i.row stored;
        idle = i.idle;
        asked = All-append (IsJob vm_id id) before after left right;
      }
  Step-Stays (others s w env same) i = record {
    answers = subst Answers (sym env) i.answers;
    row = subst RowCanceled (sym same) i.row;
    idle = i.idle;
    asked = i.asked;
  }
  Step-Stays (removed s w may env gone) i = cc

  Reach-Stays : {s t : Sys} → Reach false vm_id id req s t → Stays s → Stays t
  Reach-Stays here i = i
  Reach-Stays (next r st) i = Step-Stays st (Reach-Stays r i)

-- Where the database answers every statement and nobody removes the row, a job that is canceled while
-- its goroutine is not just about to write the row stays canceled, whatever comes after.
pub canceled-stays :
    (vm_id id : String) (req : ExecRequest) (s t : Sys)
    → Answers s.world.env
    → RowCanceled (row_of vm_id id s.world.db)
    → Idle s.runner
    → All (IsJob vm_id id) s.cancels
    → Reach false vm_id id req s t
    → RowCanceled (row_of vm_id id t.world.db)
canceled-stays vm_id id req s t answers row idle asked r =
    (Reach-Stays vm_id id req r
      (record { answers = answers; row = row; idle = idle; asked = asked })).row

-- A cancellation that is written after the goroutine has read the job for the first time, and before
-- it says that the job runs, is lost: where the database answers, the row then says `running`, and
-- the error and the time of the cancellation are gone.
pub loaded-overwrites :
    (vm_id id : String) (req : ExecRequest) (job c : VmExecJob) (w : World)
    → Answers w.env
    → IsJob vm_id id job
    → row_of vm_id id w.db ≡ some c
    → RowCanceled (some c)
    → row_of vm_id id (advance vm_id id req (loaded job) w).1.db
      ≡ some (started_job job (w.env.clock w.step))
loaded-overwrites vm_id id req job c w answers own there canceled =
    loaded-writes vm_id id req job c w (answers (suc w.step)) own.0 own.1 there

-- ===== src/Exec/Jobs/Race/Reached.antt =====
-- What the row of a job says at every point that can be reached.
use mathlib.Core.Path.{subst}
use bap_web.Prelude.{
  ℕ, String, Bool, List, [], Option, some, ◌≡◌, inl, inr, refl, sym, ap, ◌∙◌, All, All-append,
}
use bap_web.Model.{VmExecJob}
use bap_web.World.{World, Result, ok}
use bap_web.World.Keeps.{ok-injective}
use bap_web.Exec.Request.{ExecRequest}
use bap_web.Exec.Jobs.{
  Runner, ready, loaded, announced, executed, settled, ended, advance, confirm_cancel, settled_job,
}
use bap_web.Exec.Jobs.Race.{Sys, Step, go, ask, confirm, others, removed, Reach, here, next, row_of}
use bap_web.Exec.Jobs.Race.Parts.{Stored}
use bap_web.Exec.Jobs.Race.Moves.{
  ended-stays, advance-ready, advance-loaded, advance-announced, advance-executed, advance-settled,
  ask_cancel-reads, confirm_cancel-writes, started_job, canceled_job,
}
use bap_web.Exec.Jobs.Race.Honest.{
  SameJob, Pending, HonestJob, Honest, Waiting, Startable, Holds, settled_job-Honest, open-Pending,
  uncanceled-Pending, canceled_job-Honest, started_job-Waiting, All-middle,
}

module _ (vm_id id : String) (req : ExecRequest) (first : VmExecJob) where
  -- What holds between two parts.
  record Inv (s : Sys) : Type 0 where
    row : Honest first (row_of vm_id id s.world.db)
    held : Holds first s.runner (row_of vm_id id s.world.db)
    asked : All (Waiting first) s.cancels

  module _ (own_vm : first.vm_id ≡ vm_id) (own_id : first.id ≡ id) where
    of_vm : (j : VmExecJob) → SameJob j first → j.vm_id ≡ vm_id
    of_vm j same = ap (λ (x : VmExecJob). x.vm_id) same ∙ own_vm

    of_id : (j : VmExecJob) → SameJob j first → j.id ≡ id
    of_id j same = ap (λ (x : VmExecJob). x.id) same ∙ own_id

    held_row-Honest :
        (job : VmExecJob) (w w' : World)
        → HonestJob first job
        → Honest first (row_of vm_id id w.db)
        → Stored vm_id id job w w'
        → Honest first (row_of vm_id id w'.db)
    held_row-Honest job w w' h old (inl same) = subst (Honest first) (sym same) old
    held_row-Honest job w w' h old (inr (inl wrote)) = subst (Honest first) (sym wrote) h
    held_row-Honest job w w' h old (inr (inr (gone, _))) = subst (Honest first) (sym gone) tt

    -- A part that leaves the row as it was, and one that writes it.
    read_on :
        (w w' : World) (cs : List VmExecJob) (result : Result Runner) (known r : Runner)
        → w'.db ≡ w.db
        → result ≡ ok known
        → result ≡ ok r
        → Honest first (row_of vm_id id w.db)
        → Holds first known (row_of vm_id id w.db)
        → All (Waiting first) cs
        → Inv (record { world = w'; runner = r; cancels = cs })
    read_on w w' cs result known r db same e row held asked =
        let now : known ≡ r = ok-injective (sym same ∙ e) in
        let kept = sym (ap (row_of vm_id id) db) in
        record {
          row = subst (Honest first) kept row;
          held =
              subst (λ x. Holds first x (row_of vm_id id w'.db)) now
                (subst (Holds first known) kept held);
          asked = asked;
        }

    write_on :
        (w w' : World) (cs : List VmExecJob) (result : Result Runner) (job : VmExecJob)
        (known r : Runner)
        → result ≡ ok known
        → result ≡ ok r
        → Honest first (row_of vm_id id w.db)
        → HonestJob first job
        → Holds first known (row_of vm_id id w'.db)
        → All (Waiting first) cs
        → Stored vm_id id job w w'
        → Inv (record { world = w'; runner = r; cancels = cs })
    write_on w w' cs result job known r same e row h held asked stored =
        let now : known ≡ r = ok-injective (sym same ∙ e) in
        record {
          row = held_row-Honest job w w' h row stored;
          held = subst (λ x. Holds first x (row_of vm_id id w'.db)) now held;
          asked = asked;
        }

    Next : World → List VmExecJob → Runner → Runner → Type 0
    Next w cs before r =
        Inv (record { world = (advance vm_id id req before w).1; runner = r; cancels = cs })

    go_from :
        (w : World) (cs : List VmExecJob) (before r : Runner)
        → (advance vm_id id req before w).0 ≡ ok r
        → Honest first (row_of vm_id id w.db)
        → Holds first before (row_of vm_id id w.db)
        → All (Waiting first) cs
        → Next w cs before r
    unfolding Next
    go_from w cs ready r e row held asked =
        let ((_, db), cases) = advance-ready vm_id id req w in
        elim cases [
          | inl stop ↦ read_on w _ cs _ ended r db stop e row tt asked
          | inr (job, found, on, same) ↦
              let (own, _) = subst (Honest first) found row in
              let p = uncanceled-Pending job on (subst Startable found held) in
              read_on w _ cs _ (loaded job) r db same e row (own, p) asked
        ]
    go_from w cs (loaded job) r e row held asked =
        let (_, stored, same) =
          advance-loaded vm_id id req job w (of_vm job held.0) (of_id job held.0) in
        let waits = started_job-Waiting first job (w.env.clock w.step) held in
        let job' = started_job job (w.env.clock w.step) in
        write_on w _ cs _ job' (announced job') r same e row (waits.0, inl waits.1) waits asked
          stored
    go_from w cs (announced job) r e row held asked =
        let ((_, db), (t, same)) = advance-announced vm_id id req job w in
        read_on w _ cs _ (executed job _ t) r db same e row held asked
    go_from w cs (executed job x t) r e row held asked =
        let ((_, db), cases) = advance-executed vm_id id req job x t w in
        elim cases [
          | inl stop ↦ read_on w _ cs _ ended r db stop e row tt asked
          | inr same ↦
              read_on w _ cs _ (settled (settled_job job x t)) r db same e row
                (settled_job-Honest first job x t held.0) asked
        ]
    go_from w cs (settled job) r e row held asked =
        let (_, stored, same) =
          advance-settled vm_id id req job w (of_vm job held.0) (of_id job held.0) in
        write_on w _ cs _ job ended r same e row held tt asked stored
    go_from w cs ended r e row held asked =
        let (same, w') = ended-stays vm_id id req w in
        read_on w _ cs _ ended r (ap (λ (x : World). x.db) w') same e row tt asked

    go-Inv :
        (s : Sys) (r : Runner)
        → (advance vm_id id req s.runner s.world).0 ≡ ok r
        → Inv s
        → Inv (record s { world = (advance vm_id id req s.runner s.world).1; runner = r })
    unfolding Next
    go-Inv s r e i = go_from s.world s.cancels s.runner r e i.row i.held i.asked

    held_if :
        (r : Runner) (o o' : Option VmExecJob)
        → (Startable o → Startable o')
        → Holds first r o
        → Holds first r o'
    held_if ready o o' h k = h k
    held_if (loaded job) o o' h k = k
    held_if (announced job) o o' h k = k
    held_if (executed job x t) o o' h k = k
    held_if (settled job) o o' h k = k
    held_if ended o o' h k = k

    held_row-Startable :
        (job : VmExecJob) (t : ℕ) (w w' : World)
        → Startable (row_of vm_id id w.db)
        → Stored vm_id id (canceled_job job t) w w'
        → Startable (row_of vm_id id w'.db)
    held_row-Startable job t w w' old (inl same) = subst Startable (sym same) old
    held_row-Startable job t w w' old (inr (inl wrote)) = subst Startable (sym wrote) (inr refl)
    held_row-Startable job t w w' old (inr (inr (gone, _))) = subst Startable (sym gone) tt

    Step-Inv : {removals : Bool} {s t : Sys} → Step removals vm_id id req s t → Inv s → Inv t
    Step-Inv (go s r e) i = go-Inv s r e i
    Step-Inv (ask s job e unfinished) i =
        let ((_, db), found) = ask_cancel-reads vm_id id s.world job e in
        let kept = sym (ap (row_of vm_id id) db) in
        let (own, status) = subst (Honest first) found i.row in
        record {
          row = subst (Honest first) kept i.row;
          held = subst (Holds first s.runner) kept i.held;
          asked = ((own, open-Pending job unfinished status), i.asked);
        }
    Step-Inv (confirm s before after job e) i =
        let (left, waits, right) =
          All-middle (Waiting first) before after job (subst (All (Waiting first)) e i.asked) in
        let (_, stored) =
          confirm_cancel-writes vm_id id job s.world (of_vm job waits.0) (of_id job waits.0) in
        let t = s.world.env.clock s.world.step in
        let w' = (confirm_cancel job s.world).1 in
        record {
          row =
              held_row-Honest (canceled_job job t) s.world w'
                (canceled_job-Honest first job t waits.0) i.row stored;
          held =
              held_if s.runner (row_of vm_id id s.world.db) (row_of vm_id id w'.db)
                (λ h. held_row-Startable job t s.world w' h stored) i.held;
          asked = All-append (Waiting first) before after left right;
        }
    Step-Inv (others s w env same) i = record {
      row = subst (Honest first) (sym same) i.row;
      held = subst (Holds first s.runner) (sym same) i.held;
      asked = i.asked;
    }
    Step-Inv (removed s w may env gone) i = record {
      row = subst (Honest first) (sym gone) tt;
      held =
          held_if s.runner (row_of vm_id id s.world.db) (row_of vm_id id w.db)
            (λ _. subst Startable (sym gone) tt) i.held;
      asked = i.asked;
    }

    Reach-Inv : {removals : Bool} {s t : Sys} → Reach removals vm_id id req s t → Inv s → Inv t
    Reach-Inv here i = i
    Reach-Inv (next r st) i = Step-Inv st (Reach-Inv r i)

-- A job begins as `queued`. Then whatever order the parts of its goroutine, any calls that cancel it
-- and changes by others have, its row, if it is there, is for the same command, has the time of its
-- end exactly if it has an outcome, and says that the job succeeded only with exit status 0, no error
-- and in time.
pub reach-Honest :
    (removals : Bool) (vm_id id : String) (req : ExecRequest) (first : VmExecJob) (w : World)
    (t : Sys)
    → first.vm_id ≡ vm_id
    → first.id ≡ id
    → Pending first
    → row_of vm_id id w.db ≡ some first
    → Reach removals vm_id id req (record { world = w; runner = ready; cancels = [] }) t
    → Honest first (row_of vm_id id t.world.db)
reach-Honest removals vm_id id req first w t own_vm own_id pending found r =
    let start : Inv vm_id id req first (record { world = w; runner = ready; cancels = [] }) =
      record {
        row = subst (Honest first) (sym found) (refl, inl pending);
        held = subst Startable (sym found) (inl pending);
        asked = tt;
      } in
    (Reach-Inv vm_id id req first own_vm own_id r start).row

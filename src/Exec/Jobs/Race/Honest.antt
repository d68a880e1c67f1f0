-- ===== src/Exec/Jobs/Race/Honest.antt =====
-- What the row of a job says, whatever order its parts and the calls that cancel it have.
use bap_web.Prelude.{
  ℕ, is_zero, negsuc, ℤ, pos, String, true, false, List, [], ◌∷◌, ◌++◌, Option, none, some, ◌≡◌,
  ◌⊎◌, inl, inr, refl, sym, ap, ◌∙◌, arith, All, is_some, ◌=?◌, not, Bool-cases,
}
use bap_web.Model.{VmExecJob}
use bap_web.World.{Result, ok, err}
use bap_web.Exec.Jobs.{
  Runner, ready, loaded, announced, executed, settled, ended, settled_job, is_final,
}
use bap_web.Exec.Run.{ExecResult}
use bap_web.Exec.Jobs.Race.Moves.{started_job, canceled_job}

-- The job without the columns that the goroutine and the calls write.
abbrev pub request_of : VmExecJob → VmExecJob
request_of j = record j {
  status = "";
  stdout = [];
  stderr = [];
  exit_code = pos 0;
  timed_out = false;
  truncated = false;
  error = "";
  started_at = none;
  completed_at = none;
}

abbrev pub SameJob : VmExecJob → VmExecJob → Type 0
SameJob a b = request_of a ≡ request_of b

-- A job without an outcome.
pub record Pending (j : VmExecJob) : Type 0 where
  pub status : (j.status ≡ "queued") ⊎ (j.status ≡ "running")
  pub unsettled : j.completed_at ≡ none

abbrev pub Succeeded : VmExecJob → Type 0
Succeeded j =
    (j.status ≡ "succeeded") × (j.exit_code ≡ pos 0) × (j.timed_out ≡ false) × (j.error ≡ "")

abbrev pub Canceled : VmExecJob → Type 0
Canceled j = (j.status ≡ "canceled") × (j.error ≡ "canceled")

-- A job with an outcome, and its time.
pub record Complete (j : VmExecJob) : Type 0 where
  pub status : Succeeded j ⊎ (j.status ≡ "failed") ⊎ Canceled j
  pub closed : is_some j.completed_at ≡ true

abbrev pub HonestJob : VmExecJob → VmExecJob → Type 0
HonestJob first j = SameJob j first × (Pending j ⊎ Complete j)

abbrev pub Honest : VmExecJob → Option VmExecJob → Type 0
Honest first none = Unit
Honest first (some j) = HonestJob first j

abbrev pub Waiting : VmExecJob → VmExecJob → Type 0
Waiting first j = SameJob j first × Pending j

abbrev pub Startable : Option VmExecJob → Type 0
Startable none = Unit
Startable (some j) = Pending j ⊎ (j.status ≡ "canceled")

-- What the goroutine holds.
abbrev pub Holds : VmExecJob → Runner → Option VmExecJob → Type 0
Holds first ready row = Startable row
Holds first (loaded job) row = Waiting first job
Holds first (announced job) row = Waiting first job
Holds first (executed job r t) row = Waiting first job
Holds first (settled job) row = HonestJob first job
Holds first ended row = Unit

pub is_zero-pos : (n : ℤ) → not (is_zero n) ≡ false → n ≡ pos 0
is_zero-pos (pos n) h = ground arith
is_zero-pos (negsuc n) h = cc

-- What the goroutine writes at the end has an outcome.
pub settled_job-Complete :
    (first job : VmExecJob) (r : Result ExecResult) (t : ℕ)
    → SameJob job first
    → SameJob (settled_job job r t) first × Complete (settled_job job r t)
settled_job-Complete first job (err e) t same =
    (same, record { status = inr (inl refl); closed = refl })
settled_job-Complete first job (ok r) t same = elim (Bool-cases r.timed_out) [
  | inl late ↦ rw late (same, record { status = inr (inl refl); closed = refl })
  | inr in_time ↦ elim (Bool-cases (not (is_zero r.exit_code))) [
    | inl bad ↦ rw (in_time, bad) (same, record { status = inr (inl refl); closed = refl })
    | inr good ↦
        rw (in_time, good)
          (
            same,
            record { status = inl (refl, is_zero-pos r.exit_code good, refl, refl); closed = refl },
          )
  ]
]

pub settled_job-Honest :
    (first job : VmExecJob) (r : Result ExecResult) (t : ℕ)
    → SameJob job first
    → HonestJob first (settled_job job r t)
settled_job-Honest first job r t same =
    let (own, complete) = settled_job-Complete first job r t same in (own, inr complete)

contradiction : {A : Type 0} → true ≡ false → A
contradiction e = cc

final_status : (s t : String) → s ≡ t → is_final t ≡ true → is_final s ≡ true
final_status s t e h = ap is_final e ∙ h

Complete-is_final : (j : VmExecJob) → Complete j → is_final j.status ≡ true
Complete-is_final j c = elim c.status [
  | inl (e, _, _, _) ↦ final_status j.status "succeeded" e refl
  | inr (inl e) ↦ final_status j.status "failed" e refl
  | inr (inr (e, _)) ↦ final_status j.status "canceled" e refl
]

pub open-Pending : (j : VmExecJob) → is_final j.status ≡ false → Pending j ⊎ Complete j → Pending j
open-Pending j h (inl p) = p
open-Pending j h (inr c) = contradiction (sym (Complete-is_final j c) ∙ h)

pub uncanceled-Pending :
    (j : VmExecJob) → (j.status =? "canceled") ≡ false → Startable (some j) → Pending j
uncanceled-Pending j h (inl p) = p
uncanceled-Pending j h (inr e) = contradiction (sym (ap (λ s. s =? "canceled") e) ∙ h)

pub canceled_job-Honest :
    (first job : VmExecJob) (t : ℕ) → SameJob job first → HonestJob first (canceled_job job t)
canceled_job-Honest first job t same =
    (same, inr (record { status = inr (inr (refl, refl)); closed = refl }))

pub started_job-Waiting :
    (first job : VmExecJob) (t : ℕ) → Waiting first job → Waiting first (started_job job t)
started_job-Waiting first job t (same, p) =
    (same, record { status = inr refl; unsettled = p.unsettled })

pub All-middle :
    {A : Type 0} (P : A → Type 0) (xs ys : List A) (x : A)
    → All P (xs ++ x ∷ ys)
    → All P xs × P x × All P ys
All-middle P [] ys x h = (tt, h.0, h.1)
All-middle P (z ∷ zs) ys x (h, hs) = let (a, b, c) = All-middle P zs ys x hs in ((h, a), b, c)

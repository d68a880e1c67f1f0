-- ===== src/Kernels/Statuses.antt =====
-- The statuses of kernels.
use bap_web.Prelude.{
  String, Bool, true, false, not, ◌&&◌, Option, none, some, List, [], ◌∷◌, ◌=?◌, ◌≡◌, refl, arith,
  All, Bool-cases, inl, inr,
}
use bap_web.Text.{trim_space}
use bap_web.Model.{Kernel, KernelTestJob}
use bap_web.Config.{Config}
use bap_web.Errors.{Error}
use bap_web.Store.Db.{Db}
use bap_web.Store.Table.Laws.{All-find, All-update, All-delete}
use bap_web.Store.Assets.{
  get_kernel, update_kernel, delete_kernel, delete_kernel_at, update_kernel_test_job,
  default_base_image, create_kernel_test_job,
}
use bap_web.Store.Keeps.{query_rules, Keeps-refuse_clash}
use bap_web.World.{World, Env, M, pure, or_raise, attempt, statement, refuse_if, ◌>>=◌, ◌>>◌}
use bap_web.World.Keeps.{
  Keeps, Gives, Keeps-after, Keeps-attempt, Keeps-quiet, Keeps-pure, Keeps-or_raise,
  Keeps-refuse_if, Keeps-modify, Keeps-bind, Keeps-gets, Keeps-time_now, Keeps-statement,
}
use bap_web.World.Steps.{or_raise-read}
use bap_web.Kernels.{
  KernelUpdate, valid_kernel_status, given, updated_kernel, change_kernel, remove_kernel,
  start_kernel_test, set_found, set_tested, tested,
}

-- The statuses that a kernel may have.
abbrev pub Valid : Kernel → Type 0
Valid k = valid_kernel_status k.status ≡ true

abbrev AllValid : Env → Db → Type 0
AllValid env d = All Valid d.kernels

update_kernel-Valid : (k : Kernel) → Valid k → Keeps AllValid (update_kernel k)
unfolding update_kernel
update_kernel-Valid k valid = Keeps-bind _ _ Keeps-time_now λ now.
    Keeps-bind _ _ Keeps-statement λ _. Keeps-bind _ _ (Keeps-gets _) λ rows.
      Keeps-bind _ _ (Keeps-refuse_clash _)
        λ _. Keeps-modify _ λ env d h. All-update Valid _ _ d.kernels (λ r _. valid) h

abbrev Found : Option Kernel → Type 0
Found o = (k : Kernel) → o ≡ some k → Valid k

get_kernel-Gives : (id : String) → Gives AllValid Found (get_kernel id)
unfolding get_kernel ◌>>=◌ statement
get_kernel-Gives id = record {
  gives = λ w h o e k same. All-find Valid (λ r. r.id =? id) w.db.kernels k h (ground arith);
}

Keeps-get_kernel : {P : Env → Db → Type 0} (id : String) → Keeps P (get_kernel id)
unfolding get_kernel
Keeps-get_kernel id = search query_rules

or_raise-Gives : (o : Option Kernel) (e : Error) → Found o → Gives AllValid Valid (or_raise o e)
or_raise-Gives o e valid = record { gives = λ w h k same. valid k (or_raise-read o e w k same).0 }

-- What follows a refusal may rely on its test.
refused-Keeps :
    {A : Type 0} {P : Env → Db → Type 0} (b : Bool) (e : Error) (n : Unit {0} → M A)
    → (b ≡ false → Keeps P (n tt))
    → Keeps P (refuse_if b e >>= n)
unfolding ◌>>=◌ refuse_if
refused-Keeps true e n k = record { at = λ w h. h }
refused-Keeps false e n k = record { at = λ w h. (k refl).at w h }

not-not : (b : Bool) → not b ≡ false → b ≡ true
not-not true h = refl
not-not false h = cc

given-Valid :
    (text old : String)
    → valid_kernel_status old ≡ true
    → (not (trim_space text =? "") && not (valid_kernel_status (trim_space text))) ≡ false
    → valid_kernel_status (given text old) ≡ true
given-Valid text old valid h = elim (Bool-cases (trim_space text =? "")) [
  | inl empty ↦ rw empty valid
  | inr there ↦ let h' = rw there at h in rw there (not-not _ h')
]

change_kernel-Keeps : (id : String) (req : KernelUpdate) → Keeps AllValid (change_kernel id req)
unfolding change_kernel
change_kernel-Keeps id req =
    Keeps-after _ _ (Keeps-get_kernel id) (get_kernel-Gives id) λ found there.
      Keeps-after _ _ (Keeps-or_raise found _) (or_raise-Gives found _ there) λ k valid.
        refused-Keeps _ _ _ λ name. refused-Keeps _ _ _ λ status.
          Keeps-bind _ _
            (update_kernel-Valid (updated_kernel k req)
              (given-Valid req.status k.status valid status))
            λ _. Keeps-get_kernel id

deleted-Keeps : (id : String) (o : Option Kernel) → Keeps AllValid (delete_kernel_at id o)
deleted-Keeps id none = search query_rules
deleted-Keeps id (some k) = Keeps-bind _ _ Keeps-statement λ _.
    Keeps-bind _ _ (Keeps-gets _) λ used. Keeps-bind _ _ (Keeps-refuse_if _ _) λ _.
      Keeps-bind _ _ Keeps-statement λ _. Keeps-bind _ _ (Keeps-modify _ λ env d h. h) λ _.
        Keeps-bind _ _ Keeps-statement λ _. Keeps-modify _ λ env d h. All-delete Valid _ d.kernels h

delete_kernel-Keeps : (id : String) → Keeps AllValid (delete_kernel id)
unfolding delete_kernel
delete_kernel-Keeps id = search (query_rules, deleted-Keeps)

remove_kernel-Keeps : (id : String) → Keeps AllValid (remove_kernel id)
unfolding remove_kernel
remove_kernel-Keeps id = search (query_rules, delete_kernel-Keeps, Keeps-get_kernel)

create_kernel_test_job-Keeps : (job : KernelTestJob) → Keeps AllValid (create_kernel_test_job job)
unfolding create_kernel_test_job
create_kernel_test_job-Keeps job = Keeps-bind _ _ Keeps-statement λ _.
    Keeps-bind _ _ (Keeps-gets _)
      λ jobs. Keeps-bind _ _ (Keeps-refuse_clash _) λ _. Keeps-modify _ λ env d h. h

Keeps-default_base_image : Keeps AllValid default_base_image
unfolding default_base_image
Keeps-default_base_image = search query_rules

start_kernel_test-Keeps :
    (cfg : Config) (id actor : String) → Keeps AllValid (start_kernel_test cfg id actor)
unfolding start_kernel_test
start_kernel_test-Keeps cfg id actor =
    search (query_rules, create_kernel_test_job-Keeps, Keeps-get_kernel, Keeps-default_base_image)
      depth 16

update_kernel_test_job-Keeps : (job : KernelTestJob) → Keeps AllValid (update_kernel_test_job job)
unfolding update_kernel_test_job
update_kernel_test_job-Keeps job = Keeps-bind _ _ Keeps-statement λ _. Keeps-modify _ λ env d h. h

found-Keeps :
    (change : Kernel → Kernel) (o : Option Kernel)
    → ((k : Kernel) → Valid (change k))
    → Keeps AllValid (set_found change o)
found-Keeps change none valid = search query_rules
found-Keeps change (some k) valid = Keeps-attempt _ (update_kernel-Valid (change k) (valid k))

set_tested-Keeps :
    (id : String) (change : Kernel → Kernel)
    → ((k : Kernel) → Valid (change k))
    → Keeps AllValid (set_tested id change)
unfolding set_tested
set_tested-Keeps id change valid =
    Keeps-bind _ _ (Keeps-quiet _ (Keeps-get_kernel id)) λ found. found-Keeps change found valid

tested-Keeps : (job : KernelTestJob) (o : Option Error) → Keeps AllValid (tested job o)
tested-Keeps job (some e) =
    Keeps-bind _ _ (set_tested-Keeps job.kernel_id _ λ k. refl)
      λ _. Keeps-attempt _ (update_kernel_test_job-Keeps _)
tested-Keeps job none =
    Keeps-bind _ _ (Keeps-attempt _ (update_kernel_test_job-Keeps _))
      λ _. set_tested-Keeps job.kernel_id _ λ k. refl

-- The calls that change kernels, and the end of a test with what it returned.
pub data KernelCall : Type 0 where
  change : String → KernelUpdate → KernelCall
  remove : String → KernelCall
  test : Config → String → String → KernelCall
  finish : KernelTestJob → Option Error → KernelCall

abbrev pub call_kernel : KernelCall → M (Unit {0})
call_kernel (change id req) = change_kernel id req >> pure tt
call_kernel (remove id) = remove_kernel id
call_kernel (test cfg id actor) = start_kernel_test cfg id actor >> pure tt
call_kernel (finish job outcome) = tested job outcome

-- Calls one after another; the error of one does not stop the next.
unfoldable pub call_kernels : List KernelCall → M (Unit {0})
call_kernels [] = pure tt
call_kernels (c ∷ cs) = attempt (call_kernel c) >> call_kernels cs

call_kernel-Keeps : (c : KernelCall) → Keeps AllValid (call_kernel c)
call_kernel-Keeps (change id req) = Keeps-bind _ _ (change_kernel-Keeps id req) λ _. Keeps-pure tt
call_kernel-Keeps (remove id) = remove_kernel-Keeps id
call_kernel-Keeps (test cfg id actor) =
    Keeps-bind _ _ (start_kernel_test-Keeps cfg id actor) λ _. Keeps-pure tt
call_kernel-Keeps (finish job outcome) = tested-Keeps job outcome

call_kernels-Keeps : (cs : List KernelCall) → Keeps AllValid (call_kernels cs)
unfolding call_kernels
call_kernels-Keeps [] = Keeps-pure tt
call_kernels-Keeps (c ∷ cs) =
    Keeps-bind _ _ (Keeps-attempt _ (call_kernel-Keeps c)) λ _. call_kernels-Keeps cs

-- If every kernel is pending, active, failed or archived, then this stays so through any sequence of
-- changes, removals, starts and ends of tests, whatever they ask for and whether they succeed or
-- fail.
pub call_kernels-Valid :
    (cs : List KernelCall) (w : World)
    → All Valid w.db.kernels
    → All Valid (call_kernels cs w).1.db.kernels
call_kernels-Valid cs w h = (call_kernels-Keeps cs).at w h

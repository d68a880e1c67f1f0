-- ===== src/Kernels/Rows.antt =====
-- The row of a test, as its parts keep and write it.
use bap_web.Prelude.{
  String, true, Option, some, List, [], ◌∷◌, find, ◌=?◌, ◌≡◌, inl, inr, refl, sym, ◌∙◌, ap,
  Bool-cases, eq_iff, some-injective,
}
use bap_web.Model.{Vm, KernelTestJob}
use bap_web.Config.{Config}
use bap_web.Store.Table.{update}
use bap_web.Store.Table.Laws.{find-update}
use bap_web.Store.Assets.{update_kernel_test_job}
use bap_web.Store.Keeps.{query_rules}
use bap_web.World.{World, statement, modify, ◌>>=◌}
use bap_web.World.Keeps.{Keeps, Keeps-bind, Keeps-attempt, Keeps-try, Keeps-pure, Keeps-perform}
use bap_web.World.Returns.{Returns, Returns-bind, Returns-last, Returns-pure, Returns-try}
use bap_web.Lifecycle.Create.User.{Returns-returned}
use bap_web.SshKeys.{Crypto, GeneratedKey}
use bap_web.Lifecycle.Quiet.{Keeps-returned}
use bap_web.Lifecycle.Vms.Rows.{start_vm-Keeps, delete_machine-Keeps}
use bap_web.Lifecycle.Vms.{delete_machine}
use bap_web.Kernels.Output.{clean_kernel_test_output}
use bap_web.Kernels.Smoke.{log_in, execute_kernel_test}
use bap_web.Kernels.Frame.{
  Tests, delete_vm-Tests, row_law, create_machine-Tests, generate-Tests, Keeps-get_kernel,
  Keeps-get_base_image, wait-Tests,
}

-- The row of a test.
abbrev pub row : String → List KernelTestJob → Option KernelTestJob
row id ts = find (λ j. j.id =? id) ts

abbrev pub There : String → List KernelTestJob → Type 0
There id ts = (j : KernelTestJob) × (row id ts ≡ some j)

pub found-id :
    (id : String) (ts : List KernelTestJob) (j : KernelTestJob)
    → row id ts ≡ some j
    → (j.id =? id) ≡ true
unfolding find
found-id id [] j h = cc
found-id id (t ∷ ts) j h = elim (Bool-cases (t.id =? id)) [
  | inl hit ↦
      let h' = rw hit at h in ap (λ (x : KernelTestJob). x.id =? id) (sym (some-injective h')) ∙ hit
  | inr miss ↦ let h' = rw miss at h in found-id id ts j h'
]

-- A row that is written is found afterwards.
pub update-row :
    (job : KernelTestJob) (ts : List KernelTestJob)
    → There job.id ts
    → row job.id (update (λ j. j.id =? job.id) (λ _. job) ts) ≡ some job
update-row job ts (j, there) =
    let own : (job.id =? job.id) ≡ true = (eq_iff job.id job.id).1 refl in
    let hit = found-id job.id ts j there in
    find-update (λ j. j.id =? job.id) (λ j. j.id =? job.id) (λ _. job) ts (λ r hit. own ∙ sym hit)
    ∙ rw (there, hit) refl

-- A write of a test, where the database answers.
pub written :
    (job : KernelTestJob) (w : World)
    → Tests (There job.id) w.env w.db
    → Tests
        (λ ts. row job.id ts ≡ some job)
        (update_kernel_test_job job w).1.env
        (update_kernel_test_job job w).1.db
unfolding update_kernel_test_job ◌>>=◌ statement modify
written job w (answers, there) =
    rw (answers w.step) (answers, update-row job w.db.kernel_test_jobs there)

pub update-There : (job : KernelTestJob) → Keeps (Tests (There job.id)) (update_kernel_test_job job)
update-There job = record {
  at = λ w h. let (answers, there) = written job w h in (answers, (job, there));
}

pub log_in-Tests :
    (cfg : Config) (job : KernelTestJob) (key : GeneratedKey) (vm : Vm)
    → Keeps (Tests (There job.id)) (log_in cfg job key vm)
unfolding log_in
log_in-Tests cfg job key vm =
    Keeps-bind _ _ (start_vm-Keeps cfg vm.id (row_law (There job.id) vm.id)) λ _.
      Keeps-bind _ _ (Keeps-perform _) λ _.
        Keeps-bind _ _ (Keeps-try _ (wait-Tests (There job.id) _ vm)) λ out.
          Keeps-bind _ _
            (Keeps-try _ (
              Keeps-bind _ _ (Keeps-returned out) λ text.
                Keeps-bind _ _
                  (Keeps-attempt _
                    (update-There (record job { uname_result = clean_kernel_test_output text })))
                  λ _. Keeps-pure _))
            λ r. Keeps-bind _ _ (Keeps-attempt _ (Keeps-perform _)) λ _. Keeps-returned r

pub log_in-Returns :
    (cfg : Config) (job : KernelTestJob) (key : GeneratedKey) (vm : Vm)
    → Returns (λ j. j.id ≡ job.id) (log_in cfg job key vm)
unfolding log_in
log_in-Returns cfg job key vm = Returns-last _ _ λ _. Returns-last _ _ λ _. Returns-last _ _ λ out.
    Returns-bind _ _
      (Returns-try _ (Returns-last _ _ λ text. Returns-last _ _ λ _. Returns-pure _ refl))
      λ r q. Returns-last _ _ λ _. Returns-returned r q

pub execute-Tests :
    (crypto : Crypto) (cfg : Config) (job : KernelTestJob)
    → Keeps (Tests (There job.id)) (execute_kernel_test crypto cfg job)
unfolding execute_kernel_test
execute-Tests crypto cfg job =
    let T = There job.id in
    let deletes : (vm : Vm) → Keeps (Tests T) (delete_machine cfg vm.id) =
      λ vm. delete_machine-Keeps cfg vm.id (row_law T vm.id) (delete_vm-Tests T vm.id) in
    search
      (
        query_rules,
        Keeps-get_kernel T,
        Keeps-get_base_image T,
        generate-Tests T,
        create_machine-Tests T,
        log_in-Tests,
        deletes,
        Keeps-returned,
      )
      depth 24

pub execute-Returns :
    (crypto : Crypto) (cfg : Config) (job : KernelTestJob)
    → Returns (λ j. j.id ≡ job.id) (execute_kernel_test crypto cfg job)
unfolding execute_kernel_test
execute-Returns crypto cfg job = Returns-last _ _ λ _. Returns-last _ _ λ _.
    Returns-last _ _ λ found. Returns-last _ _ λ kernel. Returns-last _ _ λ there.
      Returns-last _ _ λ image. Returns-last _ _ λ key. Returns-last _ _ λ vm.
        Returns-bind _ _ (Returns-try _ (log_in-Returns cfg job key vm))
          λ r q. Returns-last _ _ λ _. Returns-returned r q

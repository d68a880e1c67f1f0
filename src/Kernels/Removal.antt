-- ===== src/Kernels/Removal.antt =====
-- What the removal of a kernel leaves.
use bap_web.Prelude.{
  String, Bool, false, not, ◌&&◌, ◌||◌, Option, some, List, [], ◌∷◌, any, ◌=?◌, ◌≡◌, refl, sym, ◌∙◌,
  ap, arith, ltb, Bool-cases, inl, inr, find, keep,
}
use bap_web.Model.{Vm, Kernel}
use bap_web.Store.Db.{Db}
use bap_web.Store.Table.{delete, count}
use bap_web.Store.Assets.{get_kernel, delete_kernel}
use bap_web.Store.Keeps.{query_rules}
use bap_web.World.{World, Env, Action, ok, statement, modify, refuse_if, when, perform, ◌>>=◌, ◌>>◌}
use bap_web.World.Keeps.{Keeps, Keeps-when, Keeps-perform, Keeps-or_raise}
use bap_web.World.Steps.{bind-eq-ok, or_raise-read}
use bap_web.World.Returns.{Ends, Ends-read}
use bap_web.Lifecycle.Names.{dir}
use bap_web.Kernels.{remove_kernel}

count-none : (p : Vm → Bool) (rs : List Vm) → ltb 0 (count p rs) ≡ false → any p rs ≡ false
unfolding count any keep
count-none p [] h = refl
count-none p (r ∷ rs) h = elim (Bool-cases (p r)) [
  | inl hit ↦ let h' = rw hit at h in absurd (ground arith)
  | inr miss ↦ let h' = rw miss at h in rw miss (count-none p rs h')
]

abbrev uses : String → Kernel → Vm → Bool
uses id k r = r.kernel_id =? id || r.kernel_path =? k.path

-- What the removal of a kernel leaves.
pub record Removed (d e : Db) (id : String) : Type 0 where
  pub kernel : Kernel
  pub there : find (λ r. r.id =? id) d.kernels ≡ some kernel
  pub unused : any (uses id kernel) d.vms ≡ false
  pub kernels : e.kernels ≡ delete (λ r. r.id =? id) d.kernels
  pub tests : e.kernel_test_jobs ≡ delete (λ j. j.kernel_id =? id) d.kernel_test_jobs
  pub machines : e.vms ≡ d.vms

delete_kernel-row :
    (id : String) (k : Kernel) (w : World)
    → find (λ r. r.id =? id) w.db.kernels ≡ some k
    → (delete_kernel id w).0 ≡ ok tt
    → (ltb 0 (count (uses id k) w.db.vms) ≡ false)
      × ((delete_kernel id w).1.db ≡ record w.db {
        kernel_test_jobs = delete (λ j. j.kernel_id =? id) w.db.kernel_test_jobs;
        kernels = delete (λ r. r.id =? id) w.db.kernels;
      })
unfolding delete_kernel ◌>>=◌ statement refuse_if modify
delete_kernel-row id k w there h = (ground arith, ground arith)

get_kernel-found :
    (id : String) (w : World) (o : Option Kernel)
    → (get_kernel id w).0 ≡ ok o
    → find (λ r. r.id =? id) w.db.kernels ≡ o
unfolding get_kernel ◌>>=◌ statement
get_kernel-found id w o h = ground arith

-- The tail of the removal, which starts from the row that was read.
remove_found-Removed :
    (id : String) (k : Kernel) (w v : World)
    → v.db ≡ w.db
    → find (λ r. r.id =? id) w.db.kernels ≡ some k
    → Ends
        (λ _ u. Removed w.db u.db id)
        (delete_kernel id
          >> when
              (not (k.source_type =? "configured") && not (k.path =? ""))
              (perform (Action.remove_all (dir k.path))))
        v
remove_found-Removed id k w v same there = record {
  ends = λ u h.
      let (_, e, first, _) = bind-eq-ok (delete_kernel id) _ v h in
      let (unused, wrote) =
        delete_kernel-row id k v (ap (λ d. find (λ r. r.id =? id) d.kernels) same ∙ there) e in
      let v1 = (delete_kernel id v).1 in
      let rest = (Keeps-when {P = λ _ d. d ≡ v1.db} _ _ (Keeps-perform _)).at v1 refl in
      let end = ap (λ x. x.1.db) first ∙ rest ∙ wrote in
      record {
        kernel = k;
        there = there;
        unused =
            count-none (uses id k) w.db.vms
              (ap (λ d. ltb 0 (count (uses id k) d.vms)) (sym same) ∙ unused);
        kernels = ap (λ d. d.kernels) end ∙ ap (λ d. delete (λ r. r.id =? id) d.kernels) same;
        tests =
            ap (λ d. d.kernel_test_jobs) end
            ∙ ap (λ d. delete (λ j. j.kernel_id =? id) d.kernel_test_jobs) same;
        machines = ap (λ d. d.vms) end ∙ ap (λ d. d.vms) same;
      };
}

Keeps-get_kernel : {P : Env → Db → Type 0} (id : String) → Keeps P (get_kernel id)
unfolding get_kernel
Keeps-get_kernel id = search query_rules

remove_kernel-Ends :
    (id : String) (w : World) → Ends (λ _ v. Removed w.db v.db id) (remove_kernel id) w
unfolding remove_kernel
remove_kernel-Ends id w = Ends-read _ _ w (Keeps-get_kernel id) refl λ found w1 e1 d1.
    Ends-read _ _ w1 (Keeps-or_raise found _) d1 λ k w2 e2 d2.
      remove_found-Removed id k w w2 d2
        (get_kernel-found id w found e1 ∙ (or_raise-read found _ w1 k e2).0)

-- A kernel that is removed was there, and no machine uses it, neither by its id nor by its path. Its
-- row and the rows of its tests are gone, and every other kernel, test and machine is as it was.
pub remove_kernel-Removed :
    (id : String) (w : World)
    → (remove_kernel id w).0 ≡ ok tt
    → Removed w.db (remove_kernel id w).1.db id
remove_kernel-Removed id w h = (remove_kernel-Ends id w).ends tt h

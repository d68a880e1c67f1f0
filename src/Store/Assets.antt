-- ===== src/Store/Assets.antt =====
-- internal/store/store.go: base images, kernels and the jobs that test a kernel.
use bap_web.Prelude.{
  String, ◌||◌, ◌&&◌, Option, none, some, List, [], ◌∷◌, ◌++◌, any, find, keep, take, ltb, ◌=?◌,
  if◌then◌else◌,
}
use bap_web.Text.{concat, itoa}
use bap_web.Errors.{Error}
use bap_web.Model.{BaseImage, Kernel, KernelTestJob}
use bap_web.Store.Table.{update, delete, count, order_by}
use bap_web.Store.Vms.{refuse_clash}
use bap_web.World.{M, gets, pure, refuse_if, ◌>>=◌, ◌>>◌, statement, time_now, modify}

abbrev pub first_of : {A : Type 0} → List A → Option A
first_of [] = none
first_of (x ∷ xs) = some x

unfoldable pub list_kernels : M (List Kernel)
list_kernels = do
  statement
  gets (λ w. order_by (λ a b. w.env.created_before b.created_at a.created_at) w.db.kernels)

unfoldable pub get_kernel : String → M (Option Kernel)
get_kernel id = do statement; gets (λ w. find (λ r. r.id =? id) w.db.kernels)

unfoldable pub get_kernel_by_path : String → M (Option Kernel)
get_kernel_by_path path = do statement; gets (λ w. find (λ r. r.path =? path) w.db.kernels)

-- The oldest active kernel.
unfoldable pub default_kernel : M (Option Kernel)
default_kernel = do
  statement
  gets (λ w. first_of (
      order_by (λ a b. w.env.created_before a.created_at b.created_at)
        (keep (λ r. r.status =? "active") w.db.kernels)))

-- The UNIQUE columns of the table `kernels`, against the other rows.
unfoldable pub kernels_clash : Kernel → List Kernel → Option String
kernels_clash k others =
    if any (λ r. r.name =? k.name) others
    then some "kernels.name"
    else if any (λ r. r.path =? k.path) others
    then some "kernels.path"
    else none

unfoldable pub create_kernel : Kernel → M (Unit {0})
unfolding kernels_clash
create_kernel k = do
  statement
  rows ← gets (λ w. w.db.kernels)
  refuse_clash (if any (λ r. r.id =? k.id) rows then some "kernels.id" else kernels_clash k rows)
  modify (λ d. record d { kernels = d.kernels ++ k ∷ [] })

unfoldable pub update_kernel : Kernel → M (Unit {0})
unfolding kernels_clash
update_kernel k = do
  now ← time_now
  let row = record k { updated_at = now }
  statement
  rows ← gets (λ w. w.db.kernels)
  refuse_clash (
      if any (λ r. r.id =? k.id) rows
      then kernels_clash row (delete (λ r. r.id =? k.id) rows)
      else none)
  modify (λ d. record d { kernels = update (λ r. r.id =? k.id) (λ _. row) d.kernels })

-- `DeleteKernel` of a row with this path.
abbrev pub delete_kernel_at : String → Option Kernel → M (Unit {0})
delete_kernel_at id none = pure tt
delete_kernel_at id (some k) = do
  statement
  used ← gets (λ w. count (λ r. r.kernel_id =? id || r.kernel_path =? k.path) w.db.vms)
  refuse_if (ltb 0 used)
      (Error.plain (concat ("kernel is assigned to " ∷ itoa used ∷ " VM(s)" ∷ [])))
  statement
  modify (λ d. record d { kernel_test_jobs = delete (λ j. j.kernel_id =? id) d.kernel_test_jobs })
  statement
  modify (λ d. record d { kernels = delete (λ r. r.id =? id) d.kernels })

unfoldable pub delete_kernel : String → M (Unit {0})
delete_kernel id = do
  statement
  row ← gets (λ w. find (λ r. r.id =? id) w.db.kernels)
  delete_kernel_at id row

unfoldable pub backfill_vm_kernel_id : String → String → M (Unit {0})
backfill_vm_kernel_id kernel_id kernel_path =
    if kernel_id =? "" || kernel_path =? "" then pure tt else do
      statement
      modify (λ d. record d {
        vms =
            update (λ r. r.kernel_id =? "" && r.kernel_path =? kernel_path)
              (λ r. record r { kernel_id = kernel_id }) d.vms;
      })

unfoldable pub create_kernel_test_job : KernelTestJob → M (Unit {0})
create_kernel_test_job job = do
  statement
  jobs ← gets (λ w. w.db.kernel_test_jobs)
  refuse_clash (if any (λ j. j.id =? job.id) jobs then some "kernel_test_jobs.id" else none)
  modify (λ d. record d { kernel_test_jobs = d.kernel_test_jobs ++ job ∷ [] })

unfoldable pub update_kernel_test_job : KernelTestJob → M (Unit {0})
update_kernel_test_job job = do
  statement
  modify (λ d. record d {
    kernel_test_jobs = update (λ j. j.id =? job.id) (λ _. job) d.kernel_test_jobs;
  })

unfoldable pub get_kernel_test_job : String → M (Option KernelTestJob)
get_kernel_test_job id = do statement; gets (λ w. find (λ j. j.id =? id) w.db.kernel_test_jobs)

-- The latest fifty, the newest first.
unfoldable pub list_kernel_test_jobs : M (List KernelTestJob)
list_kernel_test_jobs = do
  statement
  gets (λ w.
      take 50
        (order_by (λ a b. w.env.created_before b.created_at a.created_at) w.db.kernel_test_jobs))

unfoldable pub list_base_images : M (List BaseImage)
list_base_images = do
  statement
  gets (λ w. order_by (λ a b. w.env.created_before b.created_at a.created_at) w.db.base_images)

unfoldable pub get_base_image : String → M (Option BaseImage)
get_base_image id = do statement; gets (λ w. find (λ r. r.id =? id) w.db.base_images)

unfoldable pub get_base_image_by_path : String → M (Option BaseImage)
get_base_image_by_path path = do statement; gets (λ w. find (λ r. r.path =? path) w.db.base_images)

-- The oldest active image.
unfoldable pub default_base_image : M (Option BaseImage)
default_base_image = do
  statement
  gets (λ w. first_of (
      order_by (λ a b. w.env.created_before a.created_at b.created_at)
        (keep (λ r. r.status =? "active") w.db.base_images)))

-- The UNIQUE columns of the table `base_images`, against the other rows.
unfoldable pub images_clash : BaseImage → List BaseImage → Option String
images_clash i others =
    if any (λ r. r.name =? i.name) others
    then some "base_images.name"
    else if any (λ r. r.path =? i.path) others
    then some "base_images.path"
    else none

unfoldable pub create_base_image : BaseImage → M (Unit {0})
unfolding images_clash
create_base_image i = do
  statement
  rows ← gets (λ w. w.db.base_images)
  refuse_clash (if any (λ r. r.id =? i.id) rows then some "base_images.id" else images_clash i rows)
  modify (λ d. record d { base_images = d.base_images ++ i ∷ [] })

unfoldable pub update_base_image : BaseImage → M (Unit {0})
unfolding images_clash
update_base_image i = do
  now ← time_now
  let row = record i { updated_at = now }
  statement
  rows ← gets (λ w. w.db.base_images)
  refuse_clash (
      if any (λ r. r.id =? i.id) rows
      then images_clash row (delete (λ r. r.id =? i.id) rows)
      else none)
  modify (λ d. record d { base_images = update (λ r. r.id =? i.id) (λ _. row) d.base_images })

unfoldable pub delete_base_image : String → M (Unit {0})
delete_base_image id = do
  statement
  used ← gets (λ w. count (λ r. r.base_image_id =? id) w.db.vms)
  refuse_if (ltb 0 used)
      (Error.plain (concat ("base image is assigned to " ∷ itoa used ∷ " VM(s)" ∷ [])))
  statement
  modify (λ d. record d { base_images = delete (λ r. r.id =? id) d.base_images })

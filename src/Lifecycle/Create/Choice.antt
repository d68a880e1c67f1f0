-- ===== src/Lifecycle/Create/Choice.antt =====
-- The kernel and the base image of a new machine.
use mathlib.Core.Path.{subst}
use mathlib.Core.List.{Mem, mem-cons_self, mem-cons_of_mem}
use bap_web.Prelude.{
  leb_ℤ, pos, All, ℤ, ◌≤ℤ◌, String, Bool, true, not, some, List, [], ◌∷◌, find, keep,
  some-injective, false, ◌=?◌, ◌≡◌, ◌⊎◌, inl, inr, arith, ap, eq_iff, Bool-cases,
}
use bap_web.Model.{Kernel, BaseImage}
use bap_web.Config.{Config}
use bap_web.Store.Db.{Db}
use bap_web.Store.Assets.{get_kernel, default_kernel, get_base_image, default_base_image, first_of}
use bap_web.Store.Table.{order_by}
use bap_web.Store.Table.Order.{order_by-All}
use bap_web.World.{Env, World, ok, refuse_if, try, perform, size_of, statement, ◌>>=◌}
use bap_web.Lifecycle.Create.Resolve.{
  may_boot, requested_kernel, require_file, resolve_kernel_for_vm, image_size, requested_base_image,
  resolve_base_image_for_vm,
}
use bap_web.Lifecycle.Create.Measured.{Measured, image-Measured}

-- A kernel that a new machine may have: the one that was asked for, or an active one.
pub record KernelChosen (d : Db) (id : String) (pending : Bool) (k : Kernel) : Type 0 where
  pub boots : may_boot pending k.status ≡ true
  pub named : (id ≡ "") ⊎ (find (λ r. r.id =? id) d.kernels ≡ some k)
  pub known : Mem k d.kernels

module _ {R : Type 0} where
  -- Rows of the rest of a table are rows of the table.
  All-later : (rs xs : List R) (r : R) → All (λ x. Mem x rs) xs → All (λ x. Mem x (r ∷ rs)) xs
  All-later rs [] r h = tt
  All-later rs (x ∷ xs) r (h, hs) = (mem-cons_of_mem r h, All-later rs xs r hs)

  All-Mem : (rs : List R) → All (λ x. Mem x rs) rs
  All-Mem [] = tt
  All-Mem (r ∷ rs) = (mem-cons_self, All-later rs rs r (All-Mem rs))

  All-keep : (P : R → Type 0) (p : R → Bool) (rs : List R) → All P rs → All P (keep p rs)
  unfolding keep
  All-keep P p [] h = tt
  All-keep P p (r ∷ rs) (h, hs) = elim (Bool-cases (p r)) [
    | inl kept ↦ rw kept (h, All-keep P p rs hs)
    | inr lost ↦ rw lost (All-keep P p rs hs)
  ]

  All-first : (P : R → Type 0) (xs : List R) (x : R) → All P xs → first_of xs ≡ some x → P x
  All-first P [] x h e = cc
  All-first P (y ∷ ys) x (h, _) e = subst P (some-injective e) h

  -- A row that was found is a row of the table.
  All-find :
      (P : R → Type 0) (p : R → Bool) (rs : List R) (x : R) → All P rs → find p rs ≡ some x → P x
  unfolding find
  All-find P p [] x h e = cc
  All-find P p (r ∷ rs) x (h, hs) e = elim (Bool-cases (p r)) [
    | inl hit ↦ let e' = rw hit at e in subst P (some-injective e') h
    | inr miss ↦ let e' = rw miss at e in All-find P p rs x hs e'
  ]

kernel-boots :
    (id : String) (pending : Bool) (w : World) (k : Kernel)
    → (resolve_kernel_for_vm id pending w).0 ≡ ok k
    → may_boot pending k.status ≡ true
unfolding resolve_kernel_for_vm ◌>>=◌ refuse_if require_file try perform get_kernel default_kernel
    statement
kernel-boots id pending w k h = ground arith

-- The row that the choice read.
kernel-found :
    (id : String) (pending : Bool) (w : World) (k : Kernel)
    → (resolve_kernel_for_vm id pending w).0 ≡ ok k
    → (requested_kernel id w).0 ≡ ok (some k)
unfolding resolve_kernel_for_vm ◌>>=◌ refuse_if require_file try perform get_kernel default_kernel
    statement
kernel-found id pending w k h = ground arith

named-kernel :
    (id : String) (w : World) (k : Kernel)
    → (get_kernel id w).0 ≡ ok (some k)
    → find (λ r. r.id =? id) w.db.kernels ≡ some k
unfolding get_kernel ◌>>=◌ statement
named-kernel id w k h = ground arith

first-kernel : (w : World) (k : Kernel) → (default_kernel w).0 ≡ ok (some k) → Mem k w.db.kernels
unfolding default_kernel ◌>>=◌ statement
first-kernel w k h =
    let before : Kernel → Kernel → Bool = λ a b. w.env.created_before a.created_at b.created_at in
    let active : Kernel → Bool = λ r. r.status =? "active" in
    let P : Kernel → Type 0 = λ x. Mem x w.db.kernels in
    let kept = All-keep P active w.db.kernels (All-Mem w.db.kernels) in
    All-first P (order_by before (keep active w.db.kernels)) k
      (order_by-All P before (keep active w.db.kernels) kept) (ground arith)

-- The kernel of a new machine is a row of the database, and the row with the id if one was asked
-- for. It is active, or pending or failed where the request allows that.
pub resolve_kernel_for_vm-Chosen :
    (id : String) (pending : Bool) (w : World) (k : Kernel)
    → (resolve_kernel_for_vm id pending w).0 ≡ ok k
    → KernelChosen w.db id pending k
resolve_kernel_for_vm-Chosen id pending w k h = elim (Bool-cases (id =? "")) [
  | inl default ↦
      let row = kernel-found id pending w k h in
      let read = rw default at row in
      record {
        boots = kernel-boots id pending w k h;
        named = inl ((eq_iff id "").0 default);
        known = first-kernel w k read;
      }
  | inr asked ↦
      let row = kernel-found id pending w k h in
      let read = rw asked at row in
      let found = named-kernel id w k read in
      record {
        boots = kernel-boots id pending w k h;
        named = inr found;
        known =
            All-find (λ x. Mem x w.db.kernels) (λ r. r.id =? id) w.db.kernels k
              (All-Mem w.db.kernels) found;
      }
]

-- A base image that a new machine may have, and the size of its disk in MiB.
pub record ImageChosen (cfg : Config) (env : Env) (d : Db) (id : String) (image : BaseImage)
    (size : ℤ) : Type 0 where
  pub active : image.status ≡ "active"
  pub named : (id ≡ "") ⊎ (find (λ r. r.id =? id) d.base_images ≡ some image)
  pub least : image.virtual_size_mib ≤ℤ size
  pub measured : (leb_ℤ image.virtual_size_mib (pos 0) ≡ false) ⊎ Measured env image.path size
  pub most : size ≤ℤ cfg.images.max_vm_rootfs_mib

image-active :
    (cfg : Config) (id : String) (requested : ℤ) (w : World) (image : BaseImage) (size : ℤ)
    → (resolve_base_image_for_vm cfg id requested w).0 ≡ ok (image, size)
    → ((image.status =? "active") ≡ true)
      × (image.virtual_size_mib ≤ℤ size)
      × (size ≤ℤ cfg.images.max_vm_rootfs_mib)
unfolding resolve_base_image_for_vm ◌>>=◌ refuse_if require_file try perform get_base_image
    default_base_image statement image_size size_of
image-active cfg id requested w image size h = ground arith

image-found :
    (cfg : Config) (id : String) (requested : ℤ) (w : World) (image : BaseImage) (size : ℤ)
    → (resolve_base_image_for_vm cfg id requested w).0 ≡ ok (image, size)
    → (requested_base_image id w).0 ≡ ok (some image)
unfolding resolve_base_image_for_vm ◌>>=◌ refuse_if require_file try perform get_base_image
    default_base_image statement image_size size_of
image-found cfg id requested w image size h = ground arith

named-image :
    (id : String) (w : World) (i : BaseImage)
    → not (id =? "") ≡ true
    → (requested_base_image id w).0 ≡ ok (some i)
    → find (λ r. r.id =? id) w.db.base_images ≡ some i
unfolding get_base_image ◌>>=◌ statement
named-image id w i asked h = ground arith

-- The base image of a new machine is active, and the row with the id if one was asked for. The disk
-- is neither smaller than the image's recorded size nor larger than the configured limit. An image
-- without a recorded size has a file, and the disk is not smaller than that file, in MiB rounded up.
pub resolve_base_image_for_vm-Chosen :
    (cfg : Config) (id : String) (requested : ℤ) (w : World) (image : BaseImage) (size : ℤ)
    → (resolve_base_image_for_vm cfg id requested w).0 ≡ ok (image, size)
    → ImageChosen cfg w.env w.db id image size
resolve_base_image_for_vm-Chosen cfg id requested w image size h =
    let (active, least, most) = image-active cfg id requested w image size h in
    record {
      active = (eq_iff image.status "active").0 active;
      named = elim (Bool-cases (id =? "")) [
        | inl default ↦ inl ((eq_iff id "").0 default)
        | inr asked ↦
            inr
              (named-image id w image (ap not asked) (image-found cfg id requested w image size h))
      ];
      least = least;
      measured = elim (Bool-cases (leb_ℤ image.virtual_size_mib (pos 0))) [
        | inl unknown ↦ inr (image-Measured cfg id requested w image size h unknown)
        | inr known ↦ inl known
      ];
      most = most;
    }

-- ===== src/Lifecycle/Create/Measured.antt =====
-- What `imageSizes` of internal/lifecycle/images.go finds for an image without a recorded size.
use mathlib.Core.Path.{subst}
use bap_web.Prelude.{
  ℕ, ◌+◌, ◌/◌, ℤ, pos, ◌≤ℤ◌, ltb_ℤ, leb_ℤ, String, true, Option, none, some, ◌≡◌, ap, ◌∙◌, refl,
  arith, if◌then◌else◌,
}
use bap_web.Model.{BaseImage}
use bap_web.Config.{Config}
use bap_web.Errors.{Error}
use bap_web.Store.Db.{Db}
use bap_web.World.{Env, World, Result, ok, err, pure, or_raise, refuse_if, size_of, ◌>>=◌, ◌>>◌}
use bap_web.World.Steps.{bind-eq-ok, or_raise-read, refuse_if-read}
use bap_web.Lifecycle.Create.Resolve.{
  require_file, image_size, chosen_size, requested_base_image, resolve_base_image_for_vm,
}
use bap_web.Lifecycle.Create.Quiet.{Keeps-requested_base_image, Keeps-require_file}

-- What a measured file is like: it was there, and is not larger than the size, in MiB.
abbrev pub Measured : Env → String → ℤ → Type 0
Measured env file size =
    (n : ℕ) × (bytes : ℕ) × (env.file_size n file ≡ ok (some bytes))
    × (pos ((bytes + 1048575) / 1048576) ≤ℤ size)

sized-Measured :
    (file : String) (base size : ℤ) (w : World) (r : Result (Option ℕ))
    → w.env.file_size w.step file ≡ r
    → (image_size file w).0 ≡ ok base
    → base ≤ℤ size
    → Measured w.env file size
unfolding image_size size_of ◌>>=◌
sized-Measured file base size w (ok (some bytes)) seen h most = (w.step, bytes, seen, ground arith)
sized-Measured file base size w (ok none) seen h most = absurd (ground arith)
sized-Measured file base size w (err e) seen h most = absurd (ground arith)

-- The last checks of the size.
checked :
    (image image' : BaseImage) (base size size' limit : ℤ) (small large : Error) (w : World)
    → ((do
      refuse_if (ltb_ℤ size' base) small
      refuse_if (ltb_ℤ limit size') large
      pure {A = BaseImage × ℤ} (image', size'))
        w).0
      ≡ ok (image, size)
    → (image' ≡ image) × (base ≤ℤ size)
unfolding ◌>>=◌ refuse_if
checked image image' base size size' limit small large w h = (ground arith, ground arith)

picked-Measured :
    (i image : BaseImage) (base size : ℤ) (w v : World)
    → i ≡ image
    → v.env ≡ w.env
    → leb_ℤ image.virtual_size_mib (pos 0) ≡ true
    → ((if leb_ℤ i.virtual_size_mib (pos 0) then image_size i.path else pure i.virtual_size_mib)
        v).0
      ≡ ok base
    → base ≤ℤ size
    → Measured w.env image.path size
picked-Measured i image base size w v same env unknown e most =
    let unset : leb_ℤ i.virtual_size_mib (pos 0) ≡ true =
      ap (λ (x : BaseImage). leb_ℤ x.virtual_size_mib (pos 0)) same ∙ unknown in
    let sized = rw unset at e in
    subst (λ (x : BaseImage). Measured w.env x.path size) same
      (subst (λ x. Measured x i.path size) env
        (sized-Measured i.path base size v (v.env.file_size v.step i.path) refl sized most))

-- An image without a recorded size has a file, which is measured.
pub image-Measured :
    (cfg : Config) (id : String) (requested : ℤ) (w : World) (image : BaseImage) (size : ℤ)
    → (resolve_base_image_for_vm cfg id requested w).0 ≡ ok (image, size)
    → leb_ℤ image.virtual_size_mib (pos 0) ≡ true
    → Measured w.env image.path size
unfolding resolve_base_image_for_vm
image-Measured cfg id requested w image size h unknown =
    let same : Env → Db → Type 0 = λ env _. env ≡ w.env in
    let (o, _, _, k1) = bind-eq-ok (requested_base_image id) _ w h in
    let w1 = (requested_base_image id w).1 in
    let env1 = (Keeps-requested_base_image {P = same} id).at w refl in
    let (i, e2, _, k2) = bind-eq-ok (or_raise o _) _ w1 k1 in
    let (_, s2) = or_raise-read o _ w1 i e2 in
    let (_, e3, _, k3) = bind-eq-ok (refuse_if _ _) _ w1 (rw s2 at k2) in
    let s3 = refuse_if-read _ _ w1 e3 in
    let (_, e4, _, k4) = bind-eq-ok (require_file i.path _) _ w1 (rw s3 at k3) in
    let w4 = (require_file i.path _ w1).1 in
    let env4 = (Keeps-require_file {P = same} i.path _).at w1 env1 in
    let (base, e5, _, k5) =
      bind-eq-ok
        (if leb_ℤ i.virtual_size_mib (pos 0) then image_size i.path else pure i.virtual_size_mib) _
        w4 k4 in
    let (same_image, most) =
      checked image i base size (chosen_size requested base) cfg.images.max_vm_rootfs_mib _ _ _
        k5 in
    picked-Measured i image base size w w4 same_image env4 unknown e5 most

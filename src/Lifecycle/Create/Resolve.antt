-- ===== src/Lifecycle/Create/Resolve.antt =====
-- `resolveKernelForVM` of internal/lifecycle/kernels.go and `resolveBaseImageForVM` of
-- internal/lifecycle/images.go: what a new machine is made of.
use bap_web.Prelude.{
  ◌+◌, ◌/◌, ℤ, pos, is_zero, ltb_ℤ, leb_ℤ, String, Bool, not, ◌&&◌, ◌||◌, Option, [], ◌∷◌, ◌=?◌,
  if◌then◌else◌,
}
use bap_web.Text.{concat, decimal}
use bap_web.Model.{Kernel, BaseImage}
use bap_web.Config.{Config}
use bap_web.Errors.{Error, message, invalid, not_found, unprocessable}
use bap_web.Store.Assets.{get_kernel, default_kernel, get_base_image, default_base_image}
use bap_web.World.{
  M, Result, ok, err, Action, pure, raise, or_raise, try, refuse_if, perform, size_of, ◌>>=◌, ◌>>◌,
}

abbrev pub stated : (String → Error) → Result (Unit {0}) → M (Unit {0})
stated failure (ok _) = pure tt
stated failure (err e) = raise (failure (message e))

-- `requireFile`, with the error that is made of it.
unfoldable pub require_file : String → (String → Error) → M (Unit {0})
require_file file failure = do r ← try (perform (Action.stat file)); stated failure r

-- The statuses of a kernel that a new machine may have.
abbrev pub may_boot : Bool → String → Bool
may_boot allow_pending status =
    status =? "active" || allow_pending && (status =? "pending" || status =? "failed")

abbrev pub requested_kernel : String → M (Option Kernel)
requested_kernel id = if not (id =? "") then get_kernel id else default_kernel

-- `resolveKernelForVM`
unfoldable pub resolve_kernel_for_vm : String → Bool → M Kernel
resolve_kernel_for_vm id allow_pending = do
  found ← requested_kernel id
  kernel ← or_raise found (not_found "kernel not found")
  refuse_if (not (may_boot allow_pending kernel.status))
      (unprocessable "Kernel is not active" (("kernel_id", "select an active tested kernel") ∷ []))
  require_file kernel.path (λ text. invalid "Kernel file is unavailable" (("kernel_id", text) ∷ []))
  pure kernel

abbrev pub requested_base_image : String → M (Option BaseImage)
requested_base_image id = if not (id =? "") then get_base_image id else default_base_image

-- `imageSizes`, of which the caller uses the size in MiB, rounded up.
unfoldable pub image_size : String → M ℤ
image_size file = do
  found ← size_of file
  bytes ←
      or_raise found (Error.plain (concat ("stat " ∷ file ∷ ": no such file or directory" ∷ [])))
  pure (pos ((bytes + 1048575) / 1048576))

-- The size of a machine's disk, in MiB.
abbrev pub chosen_size : ℤ → ℤ → ℤ
chosen_size requested base = if is_zero requested then base else requested

-- `resolveBaseImageForVM`
unfoldable pub resolve_base_image_for_vm : Config → String → ℤ → M (BaseImage × ℤ)
resolve_base_image_for_vm cfg id requested = do
  found ← requested_base_image id
  image ← or_raise found (not_found "base image not found")
  refuse_if (not (image.status =? "active")) (
      unprocessable "Base image is not active"
        (("base_image_id", "select an active base image") ∷ []))
  require_file image.path
      (λ text. invalid "Base image file is unavailable" (("base_image_id", text) ∷ []))
  base ←
      (if leb_ℤ image.virtual_size_mib (pos 0)
        then image_size image.path
        else pure image.virtual_size_mib)
  let size = chosen_size requested base
  refuse_if (ltb_ℤ size base) (
      invalid "VM rootfs size is too small" (
        (
          "rootfs_size_mib",
          concat ("must be at least selected base image size " ∷ decimal base ∷ " MiB" ∷ []),
        )
        ∷ []))
  refuse_if (ltb_ℤ cfg.images.max_vm_rootfs_mib size) (
      invalid "VM rootfs size is too large" (
        (
          "rootfs_size_mib",
          concat ("must be at most " ∷ decimal cfg.images.max_vm_rootfs_mib ∷ " MiB" ∷ []),
        )
        ∷ []))
  pure (image, size)

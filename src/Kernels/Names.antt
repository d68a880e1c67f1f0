-- ===== src/Kernels/Names.antt =====
-- The names of files and directories in internal/lifecycle/kernels.go: `sanitizePathPart`,
-- `cleanKernelFilename` and `kernelCIName`, and the prefixes of the object store.
use Prim.Native.Char.{code}
use Prim.Native.String
use bap_web.Prelude.{ℕ, String, Bool, not, ◌&&◌, ◌||◌, [], ◌∷◌, leb, ◌==◌, ◌=?◌, if◌then◌else◌}
use bap_web.Text.{
  concat, trim_space, has_prefix, has_suffix, contains, trim_suffix, trim_prefix, replace_char,
}
use bap_web.Errors.{invalid}
use bap_web.World.{Result, ok, err}

-- The characters that a part of a path keeps: letters, digits, "-", "_" and ".".
unfoldable pub is_plain : ℕ → Bool
is_plain c =
    leb 97 c && leb c 122
    || leb 65 c && leb c 90
    || leb 48 c && leb c 57
    || c == 45
    || c == 95
    || c == 46

-- "." and "-", which a part of a path neither begins nor ends with.
unfoldable pub is_edge : ℕ → Bool
is_edge c = c == 46 || c == 45

-- The loop of `sanitizePathPart`.
unfoldable pub plain_text : String → String
unfolding is_plain
plain_text String.[] = ""
plain_text (String.◌∷◌ c s) =
    let rest = plain_text s in if is_plain (code c) then String.◌∷◌ c rest else String.◌∷◌ "-" rest

unfoldable pub trim_start : String → String
unfolding is_edge
trim_start String.[] = ""
trim_start (String.◌∷◌ c s) =
    let rest = trim_start s in if is_edge (code c) then rest else String.◌∷◌ c s

unfoldable pub trim_end : String → String
unfolding is_edge
trim_end String.[] = ""
trim_end (String.◌∷◌ c s) =
    let rest = trim_end s in if rest =? "" && is_edge (code c) then "" else String.◌∷◌ c rest

abbrev pub or_kernel : String → String
or_kernel s = if s =? "" then "kernel" else s

-- `sanitizePathPart`
unfoldable pub sanitize_path_part : String → String
sanitize_path_part value =
    or_kernel (trim_end (trim_start (plain_text (or_kernel (trim_space value)))))

-- The text behind the last slash.
unfoldable pub after_slash : String → String
after_slash String.[] = ""
after_slash (String.◌∷◌ c s) =
    let rest = after_slash s in
    if contains s "/" then rest else if code c == 47 then s else String.◌∷◌ c s

unfoldable pub drop_slashes : String → String
drop_slashes String.[] = ""
drop_slashes (String.◌∷◌ c s) =
    let rest = drop_slashes s in if rest =? "" && code c == 47 then "" else String.◌∷◌ c rest

-- `filepath.Base`
unfoldable pub base_name : String → String
unfolding after_slash drop_slashes
base_name path =
    let short = drop_slashes path in
    if path =? "" then "." else if short =? "" then "/" else after_slash short

-- `cleanKernelFilename`
unfoldable pub clean_kernel_filename : String → String
clean_kernel_filename name =
    let base = base_name (trim_space name) in
    if base =? "." || base =? "/" || base =? "" then "" else sanitize_path_part base

-- `kernelCIName`
unfoldable pub kernel_ci_name : String → String
kernel_ci_name version =
    let short = trim_suffix version "-no-acpi" in
    concat ("fc-" ∷ replace_char 46 "-" short ∷ trim_prefix version short ∷ [])

-- `inferKernelVersion`
unfoldable pub infer_kernel_version : String → String
infer_kernel_version path =
    let base = trim_suffix (trim_prefix (base_name path) "vmlinux-") ".bin" in
    if base =? "" || base =? base_name path then "" else base

-- `normalizeFirecrackerCIPrefix`
unfoldable pub normalize_ci_prefix : String → Result String
normalize_ci_prefix text =
    let prefix = trim_space text in
    if prefix =? ""
    then ok ""
    else if not (has_prefix prefix "firecracker-ci/") || contains prefix ".."
    then err
        (invalid "CI prefix is invalid" (("ci_prefix", "must be a firecracker-ci prefix") ∷ []))
    else ok (if has_suffix prefix "/" then prefix else String.◌++◌ prefix "/")

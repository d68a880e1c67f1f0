-- ===== src/Lifecycle/Create/Disk.antt =====
-- `prepareRootFS` and what it calls: the disk of a new machine, mounted, filled and unmounted.
use Prim.Native.Char.{code}
use bap_web.Prelude.{
  ℕ, ◌*◌, ℤ, pos, negsuc, ltb_ℤ, leb_ℤ, String, Bool, true, false, not, ◌&&◌, ◌||◌, Option, none,
  some, [], ◌∷◌, leb, ◌==◌, ◌=?◌, if◌then◌else◌,
}
use bap_web.Text.{concat, trim_space, itoa, byte_len, contains}
use bap_web.Model.{Vm, BaseImage}
use bap_web.Config.{Config}
use bap_web.Errors.{Error, invalid}
use bap_web.Store.Assets.{get_base_image}
use bap_web.World.{
  M, Result, ok, err, Action, pure, raise, try, attempt, quiet, when, perform, size_of, read_file,
  ◌>>=◌, ◌>>◌,
}
use bap_web.Lifecycle.Names.{run, path, dir}
use bap_web.Lifecycle.Firewall.{returned}
use bap_web.Exec.Shell.{shell_quote, shell_env}

abbrev pub is_user_start : ℕ → Bool
is_user_start c = leb 97 c && leb c 122 || c == 95

unfoldable pub user_rest : String → Bool
user_rest String.[] = true
user_rest (String.◌∷◌ c s) =
    (is_user_start (code c) || leb 48 (code c) && leb (code c) 57 || code c == 45) && user_rest s

-- `devUserRe`: ^[a-z_][a-z0-9_-]{0,31}$
unfoldable pub matches_dev_user : String → Bool
unfolding user_rest
matches_dev_user String.[] = false
matches_dev_user (String.◌∷◌ c s) = is_user_start (code c) && user_rest s && leb (byte_len s) 31

abbrev dev_user_error : Error
dev_user_error =
    invalid "VM dev_user is invalid"
      (("dev_user", "must be a Linux username matching ^[a-z_][a-z0-9_-]{0,31}$") ∷ [])

-- `normalizeDevUser`
unfoldable pub normalize_dev_user : String → Result String
normalize_dev_user user =
    let text = trim_space user in
    let name = if text =? "" then "dev" else text in
    if matches_dev_user name then ok name else err dev_user_error

abbrev pub dev_user_of : Result String → M String
dev_user_of r = returned r

abbrev pub grow_found : String → Option BaseImage → M (Unit {0})
grow_found file none = pure tt
grow_found file (some image) =
    if image.filesystem =? "ext4" then run ("resize2fs" ∷ file ∷ []) else pure tt

-- Growing the file system of a disk that became larger.
unfoldable pub grow_rootfs : Vm → M (Unit {0})
grow_rootfs vm = do found ← quiet (get_base_image vm.base_image_id); grow_found vm.rootfs_path found

abbrev size_or_zero : Result (Option ℕ) → ℕ
size_or_zero (ok (some n)) = n
size_or_zero _ = 0

-- The copy of the base image, unless the disk is there already: then its size.
unfoldable pub copy_rootfs : Vm → Result (Option ℕ) → M ℕ
copy_rootfs vm (ok none) = do
  run ("cp" ∷ "--reflink=auto" ∷ "--sparse=always" ∷ vm.base_rootfs_path ∷ vm.rootfs_path ∷ [])
  pure 0
copy_rootfs vm (ok (some n)) = do again ← try (size_of vm.rootfs_path); pure (size_or_zero again)
copy_rootfs vm (err e) = pure 0

abbrev mib : ℤ → ℤ
mib (pos n) = pos (n * 1048576)
mib (negsuc n) = negsuc n

-- `prepareRootFSImage`
unfoldable pub prepare_rootfs_image : Vm → M (Unit {0})
prepare_rootfs_image vm = do
  perform (Action.mkdir_all (dir vm.rootfs_path))
  there ← try (size_of vm.rootfs_path)
  copied ← copy_rootfs vm there
  when (ltb_ℤ (pos 0) vm.rootfs_size_mib) (do
    measured ← (if copied == 0 then try (size_of vm.rootfs_path) else pure (ok (some copied)))
    perform (Action.truncate vm.rootfs_path (mib vm.rootfs_size_mib))
    when
        (ltb_ℤ (pos (size_or_zero measured)) (mib vm.rootfs_size_mib)
          && not (vm.base_image_id =? ""))
        (grow_rootfs vm))

abbrev pub resize_found : String → Option BaseImage → M (Unit {0})
resize_found root none = pure tt
resize_found root (some image) =
    if image.filesystem =? "xfs" then run ("xfs_growfs" ∷ root ∷ []) else pure tt

-- `resizeMountedRootFS`
unfoldable pub resize_mounted_rootfs : Vm → String → M (Unit {0})
resize_mounted_rootfs vm root =
    if leb_ℤ vm.rootfs_size_mib (pos 0) || vm.base_image_id =? ""
    then pure tt
    else do found ← quiet (get_base_image vm.base_image_id); resize_found root found

abbrev pub authorized_keys_script : String
authorized_keys_script = concat (
    "#!/usr/bin/env bash\nset -euo pipefail\nuser=\"${1:-}\"\n"
    ∷ "[[ -f /etc/bap-web/vm.env ]] || exit 0\nsource /etc/bap-web/vm.env\n"
    ∷ "[[ -n \"${VM_ID:-}\" && -n \"${BAP_WEB_AUTHORIZED_KEYS_URL:-}\" ]] || exit 0\n"
    ∷ "curl -fsS --max-time 3 --get \\\n  --data-urlencode \"vm_id=${VM_ID}\" \\\n"
    ∷ "  --data-urlencode \"user=${user}\" \\\n"
    ∷ "  \"${BAP_WEB_AUTHORIZED_KEYS_URL}\" 2>/dev/null || true\n" ∷ [])

abbrev pub authorized_keys_drop_in : String
authorized_keys_drop_in =
    "AuthorizedKeysCommand /usr/local/sbin/bap-web-authorized-keys %u\nAuthorizedKeysCommandUser nobody\n"

abbrev vm_env : Vm → ℕ → String
vm_env vm port = concat (
    "VM_ID="
    ∷ shell_env vm.id
    ∷ "\nDEV_USER="
    ∷ shell_env vm.dev_user
    ∷ "\nBAP_WEB_AUTHORIZED_KEYS_URL=http://"
    ∷ shell_env vm.host_ip
    ∷ ":"
    ∷ itoa port
    ∷ "/metadata/v1/authorized-keys\n"
    ∷ [])

abbrev include_line : String
include_line = "Include /etc/ssh/sshd_config.d/*.conf"

-- The daemon's configuration gets the line that includes the drop-ins, if it is there without it.
abbrev pub include_drop_ins : String → Result String → M (Unit {0})
include_drop_ins file (err e) = pure tt
include_drop_ins file (ok text) =
    if contains text include_line
    then pure tt
    else perform (Action.append file (concat ("\n" ∷ include_line ∷ "\n" ∷ [])))

-- `writeGuestSSHKeySupport`
unfoldable pub write_guest_ssh_key_support : String → Vm → ℕ → M (Unit {0})
write_guest_ssh_key_support root vm port = do
  perform (Action.mkdir_all (path (root ∷ "etc/bap-web" ∷ [])))
  perform (Action.write (path (root ∷ "etc/bap-web/vm.env" ∷ [])) (vm_env vm port))
  perform (Action.mkdir_all (path (root ∷ "usr/local/sbin" ∷ [])))
  perform (
      Action.write (path (root ∷ "usr/local/sbin/bap-web-authorized-keys" ∷ []))
        authorized_keys_script)
  perform (Action.mkdir_all (path (root ∷ "etc/ssh/sshd_config.d" ∷ [])))
  perform (
      Action.write (path (root ∷ "etc/ssh/sshd_config.d/90-bap-web-authorized-keys.conf" ∷ []))
        authorized_keys_drop_in)
  let config = path (root ∷ "etc/ssh/sshd_config" ∷ [])
  text ← try (read_file config)
  include_drop_ins config text

abbrev all_keys : Vm → String
all_keys vm = trim_space (concat (vm.managed_ssh_public_key ∷ "\n" ∷ vm.extra_authorized_keys ∷ []))

abbrev project_env : Vm → String
project_env vm = concat (
    "DEV_USER='"
    ∷ shell_quote vm.dev_user
    ∷ "'\nPROJECT='"
    ∷ shell_quote vm.name
    ∷ "'\nWORK_DIR=/work\nREPO_URL='"
    ∷ shell_quote vm.repo_url
    ∷ "'\nGIT_REF='"
    ∷ shell_quote vm.git_ref
    ∷ "'\nDEV_SSH_KEY='"
    ∷ shell_quote (all_keys vm)
    ∷ "'\n"
    ∷ [])

abbrev connection : Vm → String
connection vm = concat (
    "[connection]\nid=eth0\ntype=ethernet\ninterface-name=eth0\n\n[ipv4]\nmethod=manual\naddresses="
    ∷ vm.guest_ip
    ∷ "/"
    ∷ itoa vm.cidr
    ∷ "\ngateway="
    ∷ vm.host_ip
    ∷ "\ndns=1.1.1.1;\n\n[ipv6]\nmethod=disabled\n"
    ∷ [])

-- `writeGuestFiles`, with the user that it puts into the machine. The directory of `guestSSHDir` lies
-- under the root, since a user has no slash and no dot.
unfoldable pub write_guest_files : String → Vm → ℕ → M String
write_guest_files root vm port = do
  user ← dev_user_of (normalize_dev_user vm.dev_user)
  let named : Vm = record vm { dev_user = user }
  perform (Action.write (path (root ∷ "etc/project.env" ∷ [])) (project_env named))
  write_guest_ssh_key_support root named port
  perform (Action.mkdir_all (path (root ∷ "etc/NetworkManager/system-connections" ∷ [])))
  perform (
      Action.write (path (root ∷ "etc/NetworkManager/system-connections/eth0.nmconnection" ∷ []))
        (connection named))
  let ssh_dir = path (root ∷ "home" ∷ user ∷ ".ssh" ∷ [])
  perform (Action.mkdir_all ssh_dir)
  when (not (all_keys named =? "")) (
      perform (
        Action.write (path (ssh_dir ∷ "authorized_keys" ∷ []))
          (concat (all_keys named ∷ "\n" ∷ []))))
  pure user

-- What is done while the disk is mounted.
unfoldable pub fill_rootfs : Config → Vm → String → M String
fill_rootfs cfg vm root = do
  resize_mounted_rootfs vm root
  user ← write_guest_files root vm cfg.server.metadata_port
  run ("mount" ∷ "--bind" ∷ "/dev" ∷ path (root ∷ "dev" ∷ []) ∷ [])
  owner ← dev_user_of (normalize_dev_user user)
  attempt (
      run (
        "chroot"
        ∷ root
        ∷ "chown"
        ∷ "-R"
        ∷ concat (owner ∷ ":" ∷ owner ∷ [])
        ∷ path ("/home" ∷ owner ∷ ".ssh" ∷ [])
        ∷ []))
  attempt (run ("umount" ∷ path (root ∷ "dev" ∷ []) ∷ []))
  run ("umount" ∷ root ∷ [])
  pure user

-- What the deferred function does where the disk is still mounted.
abbrev pub unmount_left : String → Result String → M (Unit {0})
unmount_left root (ok _) = pure tt
unmount_left root (err _) = do
  attempt (run ("umount" ∷ path (root ∷ "dev" ∷ []) ∷ []))
  attempt (run ("umount" ∷ root ∷ []))

-- The disk is mounted, filled and unmounted, also where something fails.
abbrev pub mounted : Config → Vm → String → Result (Unit {0}) → M String
mounted cfg vm root (err e) = do attempt (perform (Action.remove_all root)); raise e
mounted cfg vm root (ok _) = do
  r ← try (fill_rootfs cfg vm root)
  unmount_left root r
  attempt (perform (Action.remove_all root))
  returned r

-- `prepareRootFS`, with the user that it puts into the machine.
unfoldable pub prepare_rootfs : Config → Vm → M String
prepare_rootfs cfg vm = do
  prepare_rootfs_image vm
  let root = path ("/mnt" ∷ concat ("bap-web-" ∷ vm.id ∷ []) ∷ [])
  perform (Action.mkdir_all root)
  there ← try (run ("mount" ∷ "-o" ∷ "loop" ∷ vm.rootfs_path ∷ root ∷ []))
  mounted cfg vm root there

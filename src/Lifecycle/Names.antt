-- ===== src/Lifecycle/Names.antt =====
-- The names that the host knows a virtual machine by: interfaces, directories, sockets.
use bap_web.Prelude.{ℕ, String, Bool, true, false, ◌&&◌, not, List, [], ◌∷◌, ltb, leb, any}
use bap_web.Text.{split, join, concat, byte_len, byte_prefix, contains_any, contains, to_lower}
use bap_web.Model.{Vm}
use bap_web.Config.{Config}
use bap_web.Errors.{Error, message}
use bap_web.World.{M, Result, ok, err, raise, pure, perform, Action}

abbrev pub max_linux_if_name_len : ℕ
max_linux_if_name_len = 15

-- `tapNameForID`: the prefix leaves eleven bytes for the id.
unfoldable pub tap_name_for_id : String → String
tap_name_for_id id = concat ("tap-" ∷ byte_prefix 11 id ∷ [])

-- `validIFName`: no slash, space, tab or line end, and a length that Linux allows.
unfoldable pub valid_if_name : String → Bool
valid_if_name name =
    ltb 0 (byte_len name)
    && leb (byte_len name) max_linux_if_name_len
    && not (contains_any name (47 ∷ 32 ∷ 9 ∷ 10 ∷ 13 ∷ []))

-- `bridgeName`
unfoldable pub bridge_name : String → String
bridge_name id = byte_prefix 15 (concat ("br-bap-" ∷ to_lower id ∷ []))

-- `filepath.Join` of clean parts.
abbrev pub path : List String → String
path parts = join "/" parts

abbrev pub jail_dir : Config → Vm → String
jail_dir cfg vm = path (cfg.paths.jailer_base_dir ∷ "firecracker" ∷ vm.name ∷ [])

-- `chrootRoot`
abbrev pub chroot_root : Config → Vm → String
chroot_root cfg vm = path (cfg.paths.jailer_base_dir ∷ "firecracker" ∷ vm.name ∷ "root" ∷ [])

-- `socketPath`
abbrev pub socket_path : Config → Vm → String
socket_path cfg vm = path (chroot_root cfg vm ∷ "firecracker.socket" ∷ [])

but_last : List String → List String
but_last [] = []
but_last (s ∷ []) = []
but_last (s ∷ t ∷ ss) = s ∷ but_last (t ∷ ss)

-- `filepath.Dir` of a clean path of two parts or more.
unfoldable pub dir : String → String
unfolding but_last
dir p = path (but_last (split 47 p))

-- The pattern by which `pgrep` and `pkill` find the processes of a virtual machine.
abbrev pub process_pattern : String → Vm → String
process_pattern program vm = concat (program ∷ ".*--id.*" ∷ vm.name ∷ [])

-- `run`
abbrev pub run : List String → M (Unit {0})
run words = perform (Action.run words)

-- `runShell`
abbrev pub run_shell : String → M (Unit {0})
run_shell command = perform (Action.shell command)

abbrev pub succeeded : Result (Unit {0}) → Bool
succeeded (ok _) = true
succeeded (err _) = false

-- What a command says when there is nothing left to clean up.
abbrev pub gone_messages : List String
gone_messages =
    "Cannot find device" ∷ "No such device" ∷ "does not exist" ∷ "not found" ∷ "not mounted"
    ∷ "not a mountpoint" ∷ "no mount point specified" ∷ "Invalid argument" ∷ []

-- `cleanupOK`
unfoldable pub cleanup_ok : Result (Unit {0}) → Bool
cleanup_ok (ok _) = true
cleanup_ok (err e) = any (contains (message e)) gone_messages

-- `errors.New(strings.Join(errs, "; "))` where there are errors.
unfoldable pub report : List String → M (Unit {0})
report [] = pure tt
report (e ∷ es) = raise (Error.plain (join "; " (e ∷ es)))

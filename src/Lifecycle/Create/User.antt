-- ===== src/Lifecycle/Create/User.antt =====
-- The user of a new virtual machine.
use bap_web.Prelude.{ℕ, String, true, ◌≡◌, arith}
use bap_web.Model.{Vm}
use bap_web.Config.{Config}
use bap_web.World.{World, Result, ok, err, ◌>>=◌}
use bap_web.World.Returns.{
  Returns, Returns-bind, Returns-last, Returns-pure, Returns-raise, Returns-try,
}
use bap_web.Lifecycle.Firewall.{returned}
use bap_web.Lifecycle.Create.Disk.{
  matches_dev_user, normalize_dev_user, write_guest_files, fill_rootfs, mounted, prepare_rootfs,
}

pub Returns-returned :
    {A : Type 0} {Q : A → Type 0} (r : Result A)
    → ((a : A) → r ≡ ok a → Q a)
    → Returns Q (returned r)
unfolding ◌>>=◌
Returns-returned (ok a) q = record { from = λ w b h. q b h }
Returns-returned (err e) q = record { from = λ w b h. cc }

abbrev IsUser : String → Type 0
IsUser user = matches_dev_user user ≡ true

normalize_dev_user-IsUser : (text user : String) → normalize_dev_user text ≡ ok user → IsUser user
unfolding normalize_dev_user
normalize_dev_user-IsUser text user h = ground arith

write_guest_files-IsUser :
    (root : String) (vm : Vm) (port : ℕ) → Returns IsUser (write_guest_files root vm port)
unfolding write_guest_files
write_guest_files-IsUser root vm port =
    Returns-bind _ _ (Returns-returned _ (normalize_dev_user-IsUser vm.dev_user))
      λ user q. search (Returns-last, Returns-pure, q) depth 14

fill_rootfs-IsUser :
    (cfg : Config) (vm : Vm) (root : String) → Returns IsUser (fill_rootfs cfg vm root)
unfolding fill_rootfs
fill_rootfs-IsUser cfg vm root = Returns-last _ _ λ _.
    Returns-bind _ _ (write_guest_files-IsUser root vm cfg.server.metadata_port)
      λ user q. search (Returns-last, Returns-pure, q) depth 14

mounted-IsUser :
    (cfg : Config) (vm : Vm) (root : String) (r : Result (Unit {0}))
    → Returns IsUser (mounted cfg vm root r)
mounted-IsUser cfg vm root (err e) = Returns-last _ _ λ _. Returns-raise e
mounted-IsUser cfg vm root (ok _) =
    Returns-bind _ _ (Returns-try _ (fill_rootfs-IsUser cfg vm root))
      λ r q. Returns-last _ _ λ _. Returns-last _ _ λ _. Returns-returned r q

prepare_rootfs-Returns : (cfg : Config) (vm : Vm) → Returns IsUser (prepare_rootfs cfg vm)
unfolding prepare_rootfs
prepare_rootfs-Returns cfg vm =
    Returns-last _ _
      λ _. Returns-last _ _ λ _. Returns-last _ _ λ there. mounted-IsUser cfg vm _ there

-- The user of a new machine has a name that may stand in a command.
pub prepare_rootfs-user :
    (cfg : Config) (vm : Vm) (w : World) (user : String)
    → (prepare_rootfs cfg vm w).0 ≡ ok user
    → matches_dev_user user ≡ true
prepare_rootfs-user cfg vm w user h = (prepare_rootfs-Returns cfg vm).from w user h

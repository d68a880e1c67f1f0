-- ===== src/Lifecycle/Create/Made.antt =====
-- The virtual machine that `CreateVM` makes.
use mathlib.Core.Path.{subst}
use bap_web.Prelude.{
  ℕ, suc, ◌-◌, ℤ, pos, String, true, false, not, ◌||◌, leb_ℤ, ltb_ℤ, none, some, List, [], ◌∷◌,
  ◌++◌, map, any, ◌=?◌, ◌≡◌, ◌⊎◌, refl, sym, ◌∙◌, ap, arith, All,
}
use bap_web.Text.{trim_space}
use bap_web.Model.{Vm, VmState, Kernel, BaseImage}
use bap_web.Config.{Config}
use bap_web.Store.Db.{Db}
use bap_web.Store.Vms.{has_id, vms_clash, refuse_clash, create_vm}
use bap_web.Store.Access.{touch_ssh_key}
use bap_web.World.{Env, World, M, ok, pure, when, attempt, time_now, statement, modify, ◌>>=◌, ◌>>◌}
use bap_web.World.Keeps.{Keeps-random_hex, Keeps-time_now}
use bap_web.World.Returns.{Returns, Returns-last, Returns-pure, Returns-refuse_if, Ends, Ends-still}
use bap_web.Lifecycle.Rules.{matches_name}
use bap_web.Lifecycle.Alloc.{parse_range}
use bap_web.Lifecycle.Alloc.Ports.{Free, allocate_port-Free}
use bap_web.Lifecycle.Vms.Rows.{Within}
use bap_web.Lifecycle.Vms.Unique.{Apart, clash-All, any-none, is-not, All-map, All-zip}
use bap_web.Lifecycle.Create.{CreateRequest, check_request, create_machine}
use bap_web.Lifecycle.Create.Disk.{matches_dev_user}
use bap_web.Lifecycle.Create.Quiet.{
  Keeps-check_request, Keeps-resolve_kernel_for_vm, Keeps-resolve_base_image_for_vm,
  Keeps-primary_key_for, Keeps-allocate_port, Keeps-allocate_network, Keeps-prepare_rootfs,
}
use bap_web.Lifecycle.Create.User.{prepare_rootfs-user}
use bap_web.Lifecycle.Create.Choice.{
  KernelChosen, ImageChosen, resolve_kernel_for_vm-Chosen, resolve_base_image_for_vm-Chosen,
}

-- What the checks establish of a request.
record Checked (req : CreateRequest) (name : String) : Type 0 where
  named : name ≡ trim_space req.name
  allowed : matches_name name ≡ true
  within : Within req.vcpu_count req.mem_mib

request_within :
    (vcpus mem : ℤ)
    → (leb_ℤ vcpus (pos 0) || ltb_ℤ (pos 32) vcpus) ≡ false
    → (ltb_ℤ mem (pos 128) || ltb_ℤ (pos 262144) mem) ≡ false
    → Within vcpus mem
request_within vcpus mem c m = record {
  vcpus_least = ground arith;
  vcpus_most = ground arith;
  mem_least = ground arith;
  mem_most = ground arith;
}

check_request-Checked :
    (cfg : Config) (req : CreateRequest) → Returns (λ c. Checked req c.0) (check_request cfg req)
unfolding check_request
check_request-Checked cfg req = Returns-refuse_if _ _ _ λ name. Returns-refuse_if _ _ _ λ vcpus.
    Returns-refuse_if _ _ _ λ mem.
      let checked : Checked req (trim_space req.name) = record {
        named = refl;
        allowed = ground arith;
        within = request_within req.vcpu_count req.mem_mib vcpus mem;
      } in
      search (Returns-last, Returns-pure, checked) depth 14

-- The last steps of `CreateVM`, which write the row.
abbrev write_machine : CreateRequest → Vm → M Vm
write_machine req made = do
  create_vm made
  when (not (req.ssh_key_id =? "")) (attempt (touch_ssh_key req.ssh_key_id))
  pure made

write_machine-same :
    (req : CreateRequest) (made : Vm) → Returns (λ r. made ≡ r) (write_machine req made)
write_machine-same req made = Returns-last _ _ λ _. Returns-last _ _ λ _. Returns-pure made refl

write_machine-stores :
    (req : CreateRequest) (made vm : Vm) (w : World)
    → (write_machine req made w).0 ≡ ok vm
    → (made ≡ vm)
      × ((write_machine req made w).1.db.vms ≡ w.db.vms ++ made ∷ [])
      × (vms_clash made w.db.vms ≡ none)
      × (any (has_id made.id) w.db.vms ≡ false)
unfolding create_vm ◌>>=◌ statement refuse_clash modify when attempt touch_ssh_key time_now
write_machine-stores req made vm w h =
    ((write_machine-same req made).from w vm h, ground arith, ground arith, ground arith)

-- The port of a machine, in terms of the database before.
abbrev pub PortChosen : Config → ℤ → Db → ℕ → Type 0
PortChosen cfg requested d port =
    (start : ℕ) × (end : ℕ) × (parse_range cfg.network.ssh_port_range ≡ some (start, end))
    × Free start (suc end - start)
        (map (λ r. r.ssh_port) d.vms ++ map (λ r. r.host_port) d.ingress_rules) port
    × ((requested ≡ pos 0) ⊎ (requested ≡ pos port))

-- A machine that fits its request, its kernel and its image in a database.
pub record Fit (cfg : Config) (req : CreateRequest) (env : Env) (d : Db) (kernel : Kernel)
    (image : BaseImage) (vm : Vm) : Type 0 where
  pub stopped : vm.state ≡ VmState.stopped
  pub named : (vm.name ≡ trim_space req.name) × (matches_name vm.name ≡ true)
  pub within : Within vm.vcpu_count vm.mem_mib
  pub user : matches_dev_user vm.dev_user ≡ true
  pub kernel_id : vm.kernel_id ≡ kernel.id
  pub boots : KernelChosen d req.kernel_id req.allow_pending_kernel kernel
  pub image_id : vm.base_image_id ≡ image.id
  pub disk : ImageChosen cfg env d req.base_image_id image vm.rootfs_size_mib
  pub port : PortChosen cfg req.ssh_port d vm.ssh_port

-- What is true of a machine that was made, in terms of the database before and after.
pub record Created (cfg : Config) (req : CreateRequest) (w v : World) (vm : Vm) : Type 0 where
  pub kernel : Kernel
  pub image : BaseImage
  pub fit : Fit cfg req w.env w.db kernel image vm
  pub alone : All (Apart vm) w.db.vms
  pub stored : v.db.vms ≡ w.db.vms ++ vm ∷ []

-- A new row is apart from the others where the UNIQUE columns let it through.
new_row-Apart :
    (vm : Vm) (rs : List Vm)
    → any (has_id vm.id) rs ≡ false
    → vms_clash vm rs ≡ none
    → All (Apart vm) rs
new_row-Apart vm rs id clash =
    All-zip _ _ rs (All-map rs (λ r e s. is-not vm.id r e (sym s)) (any-none (has_id vm.id) rs id))
      (clash-All vm rs clash)

written-Created :
    (cfg : Config) (req : CreateRequest) (w v : World) (kernel : Kernel) (image : BaseImage)
    (made : Vm)
    → v.db ≡ w.db
    → Fit cfg req w.env w.db kernel image made
    → Ends (λ vm u. Created cfg req w u vm) (write_machine req made) v
written-Created cfg req w v kernel image made same fit = record {
  ends = λ vm h.
      let (is, wrote, clash, id) = write_machine-stores req made vm v h in
      subst (Created cfg req w (write_machine req made v).1) is (record {
        kernel = kernel;
        image = image;
        fit = fit;
        alone = new_row-Apart made w.db.vms (rw same at id) (rw same at clash);
        stored = wrote ∙ ap (λ d. d.vms ++ made ∷ []) same;
      });
}

create_machine-Ends :
    (cfg : Config) (req : CreateRequest) (w : World)
    → Ends (λ vm v. Created cfg req w v vm) (create_machine cfg req) w
unfolding create_machine
create_machine-Ends cfg req w =
    Ends-still _ _ w (Keeps-check_request cfg req) (refl, refl)
      λ c w1 e1 d1.
        Ends-still _ _ w1 (Keeps-resolve_kernel_for_vm req.kernel_id req.allow_pending_kernel) d1
          λ kernel w2 e2 d2.
            Ends-still _ _ w2
              (Keeps-resolve_base_image_for_vm cfg req.base_image_id req.rootfs_size_mib) d2
              λ chosen w3 e3 d3. Ends-still _ _ w3 (Keeps-primary_key_for req) d3 λ key w4 e4 d4.
                Ends-still _ _ w4 (Keeps-allocate_port cfg req.ssh_port) d4 λ port w5 e5 d5.
                  Ends-still _ _ w5 (Keeps-random_hex 8) d5 λ id w6 e6 d6.
                    Ends-still _ _ w6 (Keeps-allocate_network cfg _ req.network_id) d6
                      λ addresses w7 e7 d7. Ends-still _ _ w7 Keeps-time_now d7 λ now w8 e8 d8.
                        Ends-still _ _ w8 (Keeps-prepare_rootfs cfg _) d8 λ user w9 e9 d9.
                          let checked = (check_request-Checked cfg req).from w c e1 in
                          written-Created cfg req w w9 kernel chosen.0 _ d9.1 (record {
                            stopped = refl;
                            named = (checked.named, checked.allowed);
                            within = checked.within;
                            user = prepare_rootfs-user cfg _ w8 user e9;
                            kernel_id = refl;
                            boots =
                                subst
                                  (λ d.
                                    KernelChosen d req.kernel_id req.allow_pending_kernel kernel)
                                  d1.1
                                  (resolve_kernel_for_vm-Chosen req.kernel_id
                                    req.allow_pending_kernel w1 kernel e2);
                            image_id = refl;
                            disk =
                                subst
                                  (λ e. ImageChosen cfg e w.db req.base_image_id chosen.0 chosen.1)
                                  d2.0
                                  (subst
                                    (λ d.
                                      ImageChosen cfg w2.env d req.base_image_id chosen.0 chosen.1)
                                    d2.1
                                    (resolve_base_image_for_vm-Chosen cfg req.base_image_id
                                      req.rootfs_size_mib w2 chosen.0 chosen.1 e3));
                            port =
                                subst (λ d. PortChosen cfg req.ssh_port d port) d4.1
                                  (allocate_port-Free cfg req.ssh_port w4 port e5);
                          })

-- A machine that `CreateVM` makes is stopped. Its name is the one that was asked for without spaces
-- at its ends and has the form of a name, and its user has the form of a Linux user. It has 1 to 32
-- processors and 128 to 262144 MiB. Its kernel is one that it may have, its base image is active,
-- and its disk is neither smaller than the image, recorded or else measured, nor larger than the
-- limit. Its SSH port is free in
-- the configured range. No other machine has its id, name, port, interface or address, and its row
-- is all that the table of machines gains.
pub create_machine-Created :
    (cfg : Config) (req : CreateRequest) (w : World) (vm : Vm)
    → (create_machine cfg req w).0 ≡ ok vm
    → Created cfg req w (create_machine cfg req w).1 vm
create_machine-Created cfg req w vm h = (create_machine-Ends cfg req w).ends vm h

-- ===== src/Lifecycle/Overlap/Search.antt =====
-- What a search of the database for an overlap tells of its rows.
use bap_web.Prelude.{
  some-injective, String, false, Option, none, some, List, [], ◌∷◌, ◌++◌, ◌≡◌, ◌≢◌, ◌⊎◌, sym, ℕ,
  suc, arith, All,
}
use mathlib.Core.Path.{subst}
use bap_web.Model.{Vm, Network}
use bap_web.Store.Table.{order_by}
use bap_web.Store.Table.Order.{All-order_by}
use bap_web.Store.Vms.{list_vms}
use bap_web.Store.Networks.{list_networks}
use bap_web.World.{World, ok, pure, ◌>>=◌, statement}
use bap_web.World.Steps.{bind-eq-ok}
use bap_web.World.Keeps.{ok-injective}
use bap_web.Lifecycle.Net.{IpNet, parse_cidr, cidr_overlaps}
use bap_web.Lifecycle.Overlap.{
  NetworkCidrOwner, owners_of_networks, owners_of_vms, network_cidr_owners, vm_routed_cidr,
  first_overlap, find_cidr_overlap, network_owner, vm_owner,
}
use bap_web.Lifecycle.Overlap.Shared.{Clear, first_overlap-Clear}

-- The row with this id is the one to ignore, or its network does not overlap.
abbrev pub Ignored : String → String → Type 0
Ignored ignore_id id = (id ≢ "") × (id ≡ ignore_id)

abbrev pub NetworkApart : IpNet → String → Network → Type 0
NetworkApart n ignore_id r =
    (p : ℕ × IpNet)
    → parse_cidr r.cidr ≡ some p
    → Ignored ignore_id r.id ⊎ (cidr_overlaps n p.1 ≡ false)

abbrev pub VmApart : IpNet → String → Vm → Type 0
VmApart n ignore_id r =
    (m : IpNet) → vm_routed_cidr r ≡ some m → Ignored ignore_id r.id ⊎ (cidr_overlaps n m ≡ false)

module _ (n : IpNet) (ignore_id : String) where
  All-split :
      (xs ys : List NetworkCidrOwner)
      → All (Clear n ignore_id) (xs ++ ys)
      → All (Clear n ignore_id) xs × All (Clear n ignore_id) ys
  All-split [] ys h = (tt, h)
  All-split (x ∷ xs) ys (h, hs) = let (a, b) = All-split xs ys hs in ((h, a), b)

  network-apart :
      (r : Network) (o : Option (ℕ × IpNet))
      → All (Clear n ignore_id) (network_owner r o)
      → (p : ℕ × IpNet) → o ≡ some p
      → Ignored ignore_id r.id ⊎ (cidr_overlaps n p.1 ≡ false)
  network-apart r none h p e = cc
  network-apart r (some q) (h, _) p e =
      subst (λ (x : ℕ × IpNet). Ignored ignore_id r.id ⊎ (cidr_overlaps n x.1 ≡ false))
        (some-injective e) h

  vm-apart :
      (r : Vm) (o : Option IpNet)
      → All (Clear n ignore_id) (vm_owner r o)
      → (m : IpNet) → o ≡ some m
      → Ignored ignore_id r.id ⊎ (cidr_overlaps n m ≡ false)
  vm-apart r none h m e = cc
  vm-apart r (some q) (h, _) m e =
      subst (λ x. Ignored ignore_id r.id ⊎ (cidr_overlaps n x ≡ false)) (some-injective e) h

  networks-apart :
      (rs : List Network)
      → All (Clear n ignore_id) (owners_of_networks rs)
      → All (NetworkApart n ignore_id) rs
  networks-apart [] h = tt
  networks-apart (r ∷ rs) h =
      let (own, rest) = All-split (network_owner r (parse_cidr r.cidr)) (owners_of_networks rs) h in
      (network-apart r (parse_cidr r.cidr) own, networks-apart rs rest)

  vms-apart :
      (rs : List Vm) → All (Clear n ignore_id) (owners_of_vms rs) → All (VmApart n ignore_id) rs
  vms-apart [] h = tt
  vms-apart (r ∷ rs) h =
      let (own, rest) = All-split (vm_owner r (vm_routed_cidr r)) (owners_of_vms rs) h in
      (vm-apart r (vm_routed_cidr r) own, vms-apart rs rest)

pub pure-read : {A : Type 0} (a b : A) (w : World) → (pure a w).0 ≡ ok b → a ≡ b
unfolding ◌>>=◌
pure-read a b w h = ok-injective h

networks-read :
    (w : World) (rs : List Network)
    → (list_networks w).0 ≡ ok rs
    → (rs ≡ order_by (λ a b. w.env.created_before b.created_at a.created_at) w.db.networks)
      × ((list_networks w).1 ≡ record w { step = suc w.step })
unfolding list_networks ◌>>=◌ statement
networks-read w rs h = (ground arith, ground arith)

vms-read :
    (w : World) (rs : List Vm)
    → (list_vms w).0 ≡ ok rs
    → rs ≡ order_by (λ a b. w.env.created_before b.created_at a.created_at) w.db.vms
unfolding list_vms ◌>>=◌ statement
vms-read w rs h = ground arith

owners-read :
    (w : World) (os : List NetworkCidrOwner)
    → (network_cidr_owners w).0 ≡ ok os
    → owners_of_networks (
          order_by
            (λ (a b : Network). w.env.created_before b.created_at a.created_at)
            w.db.networks)
        ++ owners_of_vms
            (order_by (λ (a b : Vm). w.env.created_before b.created_at a.created_at) w.db.vms)
      ≡ os
unfolding network_cidr_owners
owners-read w os h =
    let (nets, e1, _, k1) = bind-eq-ok list_networks _ w h in
    let (is_nets, next) = networks-read w nets e1 in
    let w1 : World = record w { step = suc w.step } in
    let (vms, e2, _, k2) = bind-eq-ok list_vms _ w1 (rw next at k1) in
    let is_vms = vms-read w1 vms e2 in
    let sorted : List Network =
      order_by (λ a b. w.env.created_before b.created_at a.created_at) w.db.networks in
    subst (λ vs. owners_of_networks sorted ++ owners_of_vms vs ≡ os) is_vms
      (subst (λ ns. owners_of_networks ns ++ owners_of_vms vms ≡ os) is_nets
        (pure-read (owners_of_networks nets ++ owners_of_vms vms) os (list_vms w1).1 k2))

-- If a search of the database reports no conflict, then no network and no machine of it, but the
-- one to ignore, has a range that overlaps the candidate.
pub find_cidr_overlap-Apart :
    (n : IpNet) (ignore_id : String) (w : World)
    → (find_cidr_overlap n ignore_id w).0 ≡ ok none
    → All (NetworkApart n ignore_id) w.db.networks × All (VmApart n ignore_id) w.db.vms
unfolding find_cidr_overlap
find_cidr_overlap-Apart n ignore_id w h =
    let (os, e, _, k) = bind-eq-ok network_cidr_owners _ w h in
    let clear =
      first_overlap-Clear n ignore_id os
        (pure-read (first_overlap n ignore_id os) none (network_cidr_owners w).1 k) in
    let (nets, vms) =
      All-split n ignore_id _ _
        (subst (All (Clear n ignore_id)) (sym (owners-read w os e)) clear) in
    (
      All-order_by _ _ _ (networks-apart n ignore_id _ nets),
      All-order_by _ _ _ (vms-apart n ignore_id _ vms),
    )

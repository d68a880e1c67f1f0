-- ===== src/Lifecycle/Alloc/Networks.antt =====
-- A shared network that passes the checks.
use mathlib.Core.Path.{subst}
use bap_web.Prelude.{
  ℕ, ◌+◌, ◌-◌, ◌%◌, ◌^◌, ◌≤◌, ◌⊎◌, inl, inr, String, Bool, true, false, ◌||◌, not, Option, none,
  some, ◌≡◌, ◌≢◌, refl, arith, All, ltb, ap, ◌∙◌, ◌==◌,
}
use bap_web.Text.{trim_space}
use bap_web.Config.{Config}
use bap_web.World.{World, ok, or_raise, refuse_if, ◌>>=◌}
use bap_web.World.Steps.{bind-eq-ok, or_raise-read, refuse_if-read, refuse_if-passed}
use bap_web.Lifecycle.Net.{
  IpNet, span, size32, ◌+32◌, parse_ip, parse_cidr, net_contains, cidr_within,
}
use bap_web.Lifecycle.Overlap.{NetworkConflict, find_cidr_overlap}
use bap_web.Lifecycle.Overlap.Search.{pure-read, NetworkApart, VmApart, find_cidr_overlap-Apart}
use bap_web.Lifecycle.Alloc.{gateway_for, is_last, overlap_error, validate_shared_network}

-- What the checks establish of a network and its gateway.
pub record Usable (cfg : Config) (w : World) (asked : Option ℕ) (n : IpNet) (gateway : ℕ)
    : Type 0 where
  pub room : n.ones ≤ 30
  pub within : cidr_within cfg.network.vm_cidr n ≡ true
  pub networks : All (NetworkApart n "") w.db.networks
  pub vms : All (VmApart n "") w.db.vms
  pub gateway_inside : net_contains n gateway ≡ true
  pub gateway_above : gateway ≢ n.base
  pub gateway_below : gateway ≢ (n.base + span n.ones + (2 ^ 32 - 1)) % 2 ^ 32
  pub gateway_given : ((asked ≡ none) × (gateway ≡ n.base +32 1)) ⊎ (asked ≡ some gateway)

overlap-none :
    (n : IpNet) (c : Option NetworkConflict) (w : World)
    → (overlap_error n c w).0 ≡ ok tt
    → (c ≡ none) × ((overlap_error n c w).1 ≡ w)
unfolding ◌>>=◌
overlap-none n none w h = (refl, refl)
overlap-none n (some c) w h = cc

last-span :
    (base size : ℕ)
    → (base + size + (2 ^ 32 - 1)) % 2 ^ 32 ≡ (base + size % 2 ^ 32 + (2 ^ 32 - 1)) % 2 ^ 32
last-span base size = omega arith

last_test :
    (n : IpNet) (g : ℕ)
    → g ≡ (n.base + size32 n.ones + (2 ^ 32 - 1)) % 2 ^ 32
    → (not (net_contains n g) || g == n.base || is_last n g) ≡ false
    → ⊥
last_test n g e h = ground arith

gateway-facts :
    (n : IpNet) (g : ℕ)
    → (not (net_contains n g) || g == n.base || is_last n g) ≡ false
    → (net_contains n g ≡ true)
      × (g ≢ n.base)
      × (g ≢ (n.base + span n.ones + (2 ^ 32 - 1)) % 2 ^ 32)
gateway-facts n g h =
    let last = last-span n.base (span n.ones) in
    (ground arith, (λ e. ground arith), λ e. last_test n g (e ∙ last) h)

-- The gateway that was asked for is the one that is taken, where it can be read.
gateway-given :
    (n : IpNet) (asked : Option ℕ)
    → ((asked ≡ none) × (gateway_for n asked ≡ n.base +32 1)) ⊎ (asked ≡ some (gateway_for n asked))
gateway-given n none = inl (refl, refl)
gateway-given n (some ip) = inr refl

at-most : (k : ℕ) → ltb 30 k ≡ false → k ≤ 30
at-most k h = ground arith

not-not : (b : Bool) → not b ≡ false → b ≡ true
not-not true h = refl
not-not false h = cc

-- A shared network that passes the checks has room for two hosts, lies in the configured range, and
-- overlaps neither a network of the database nor the block of a machine. Its gateway is the address
-- that was given, or the network's first address where none was given or what was given cannot be
-- read; it lies inside, and is neither the network's own address nor its last one.
pub validate_shared_network-Usable :
    (cfg : Config) (w : World) (cidr gateway_ip : String) (n : IpNet) (gateway : ℕ)
    → (validate_shared_network cfg cidr gateway_ip w).0 ≡ ok (n, gateway)
    → Usable cfg w (parse_ip (trim_space gateway_ip)) n gateway
unfolding validate_shared_network
validate_shared_network-Usable cfg w cidr gateway_ip n gateway h =
    let text = trim_space cidr in
    let (p, e1, _, k1) = bind-eq-ok (or_raise (parse_cidr text) _) _ w h in
    let (_, same1) = or_raise-read (parse_cidr text) _ w p e1 in
    let m = p.1 in
    let (_, e2, _, k2) = bind-eq-ok (refuse_if (ltb 30 m.ones) _) _ w (rw same1 at k1) in
    let same2 = refuse_if-read (ltb 30 m.ones) _ w e2 in
    let inside = not (cidr_within cfg.network.vm_cidr m) in
    let (_, e3, _, k3) = bind-eq-ok (refuse_if inside _) _ w (rw same2 at k2) in
    let same3 = refuse_if-read inside _ w e3 in
    let (c, e4, _, k4) = bind-eq-ok (find_cidr_overlap m "") _ w (rw same3 at k3) in
    let w4 = (find_cidr_overlap m "" w).1 in
    let (_, e5, _, k5) = bind-eq-ok (overlap_error m c) _ w4 k4 in
    let (clear, same5) = overlap-none m c w4 e5 in
    let g = gateway_for m (parse_ip (trim_space gateway_ip)) in
    let test = not (net_contains m g) || g == m.base || is_last m g in
    let (_, e6, _, k6) = bind-eq-ok (refuse_if test _) _ w4 (rw same5 at k5) in
    let (apart, vms) = find_cidr_overlap-Apart m "" w (e4 ∙ ap ok clear) in
    let asked = parse_ip (trim_space gateway_ip) in
    let (contains, above, below) = gateway-facts m g (refuse_if-passed test _ _ e6) in
    let usable : Usable cfg w asked m g = record {
      room = at-most m.ones (refuse_if-passed _ _ _ e2);
      within = not-not _ (refuse_if-passed inside _ _ e3);
      networks = apart;
      vms = vms;
      gateway_inside = contains;
      gateway_above = above;
      gateway_below = below;
      gateway_given = gateway-given m asked;
    } in
    subst (λ (x : IpNet × ℕ). Usable cfg w asked x.0 x.1) (pure-read (m, g) (n, gateway) _ k6)
      usable

-- ===== src/Lifecycle/Alloc/Blocks.antt =====
-- The addresses that a new virtual machine is given.
use bap_web.Prelude.{
  ℕ, zero, suc, ◌+◌, ◌%◌, ◌^◌, ◌<◌, String, Bool, true, false, none, some, List, [], ◌∷◌, any, map,
  Option-cases, ltb, ◌≡◌, refl, sym, ap, ◌∙◌, arith, Bool-cases, inl, inr,
}
use bap_web.Model.{Network}
use bap_web.Config.{Config}
use bap_web.Store.Table.{order_by}
use bap_web.Store.Table.Order.{any-order_by}
use bap_web.Store.Vms.{used_guest_ips}
use bap_web.Store.Networks.{list_networks}
use bap_web.World.{World, ok, or_raise, refuse_if, ◌>>=◌, statement}
use bap_web.World.Steps.{bind-eq-ok, or_raise-read, refuse_if-read}
use bap_web.Lifecycle.Net.{
  size32, parse_cidr, cidr_overlaps, IpNet, ip_text, cidr_overlaps_any, ◌+32◌,
}
use bap_web.Lifecycle.Alloc.{
  Addresses, is_used, p2p_from, nets_of, shared_network_cidrs, allocate_p2p,
}

abbrev pub block : ℕ → ℕ → IpNet
block start offset = record { base = start +32 offset; ones = 30 }

-- The block at an offset can be given away.
pub record FreeBlock (start size offset : ℕ) (used : List String) (shared : List IpNet)
    (a : Addresses) : Type 0 where
  pub inside : offset + 3 < size
  pub aligned : offset % 4 ≡ 0
  pub host : a.host_ip ≡ ip_text (start +32 offset +32 1)
  pub guest : a.guest_ip ≡ ip_text (start +32 offset +32 2)
  pub cidr : a.cidr ≡ 30
  pub unused : is_used a.guest_ip used ≡ false
  pub apart : cidr_overlaps_any (block start offset) shared ≡ false

next-aligned : (offset : ℕ) → offset % 4 ≡ 0 → (offset +32 4) % 4 ≡ 0
next-aligned offset h = omega arith

next-below : (offset : ℕ) → (offset +32 4) < 2 ^ 32
next-below offset = omega arith

-- The last address of an aligned block does not wrap.
last-unwrapped : (offset : ℕ) → offset % 4 ≡ 0 → offset < 2 ^ 32 → offset +32 3 ≡ offset + 3
last-unwrapped offset h b = omega arith

block-inside :
    (offset size : ℕ)
    → offset +32 3 ≡ offset + 3
    → ltb (offset +32 3) size ≡ true
    → offset + 3 < size
block-inside offset size whole h = let h' = rw whole at h in ground arith

-- From an offset that is a multiple of four, what the search gives is such a block inside the range
-- whose guest no machine has, and which overlaps no shared network.
pub p2p_from-free :
    (n start size offset : ℕ) (used : List String) (shared : List IpNet) (a : Addresses)
    → offset % 4 ≡ 0
    → offset < 2 ^ 32
    → p2p_from n start size offset used shared ≡ some a
    → (o : ℕ) × FreeBlock start size o used shared a
unfolding p2p_from
p2p_from-free zero start size offset used shared a four below h = cc
p2p_from-free (suc n) start size offset used shared a four below h =
    let whole = last-unwrapped offset four below in
    let four' = next-aligned offset four in
    let below' = next-below offset in
    elim (Bool-cases (ltb (offset +32 3) size)) [
      | inr past ↦ absurd (ground arith)
      | inl inside ↦ elim (Bool-cases (is_used (ip_text (start +32 offset +32 2)) used)) [
        | inl taken ↦
            p2p_from-free n start size (offset +32 4) used shared a four' below' (ground arith)
        | inr unused ↦ elim (Bool-cases (cidr_overlaps_any (block start offset) shared)) [
          | inl overlaps ↦
              p2p_from-free n start size (offset +32 4) used shared a four' below' (ground arith)
          | inr apart ↦ (
            offset,
            record {
              inside = block-inside offset size whole inside;
              aligned = four;
              host = ground arith;
              guest = ground arith;
              cidr = ground arith;
              unused = ground arith;
              apart = apart;
            },
          )
        ]
      ]
    ]

-- The shared network's range overlaps the candidate.
abbrev hits : IpNet → Network → Bool
hits candidate n = elim (parse_cidr n.cidr) [ none ↦ false | some p ↦ cidr_overlaps candidate p.1 ]

any-nets_of : (c : IpNet) (ns : List Network) → cidr_overlaps_any c (nets_of ns) ≡ any (hits c) ns
unfolding any
any-nets_of c [] = refl
any-nets_of c (n ∷ ns) = elim (Option-cases (parse_cidr n.cidr)) [
  | inl unread ↦ ground (arith, any-nets_of c ns)
  | inr (p, read) ↦ ground (arith, any-nets_of c ns)
]

guests-read :
    (w : World) (ps : List String)
    → (used_guest_ips w).0 ≡ ok ps
    → (ps ≡ map (λ r. r.guest_ip) w.db.vms)
      × ((used_guest_ips w).1.db ≡ w.db)
      × ((used_guest_ips w).1.env ≡ w.env)
unfolding used_guest_ips ◌>>=◌ statement
guests-read w ps h = ground arith

nets-read :
    (w : World) (ns : List IpNet)
    → (shared_network_cidrs w).0 ≡ ok ns
    → ns ≡ nets_of (order_by (λ a b. w.env.created_before b.created_at a.created_at) w.db.networks)
unfolding shared_network_cidrs ◌>>=◌ list_networks statement
nets-read w ns h = ground arith

any-nets-order :
    (c : IpNet) (before : Network → Network → Bool) (ns : List Network)
    → cidr_overlaps_any c (nets_of (order_by before ns)) ≡ cidr_overlaps_any c (nets_of ns)
any-nets-order c before ns =
    any-nets_of c (order_by before ns) ∙ any-order_by (hits c) before ns ∙ sym (any-nets_of c ns)

-- A point-to-point network that is given to a new machine is a block of four addresses, which begins
-- at a multiple of four from the start of the configured range and ends inside it. No machine has its guest's address, and no shared network of the database
-- overlaps it.
pub allocate_p2p-free :
    (cfg : Config) (w : World) (a : Addresses)
    → (allocate_p2p cfg w).0 ≡ ok a
    → (p : ℕ × IpNet) × (parse_cidr cfg.network.vm_cidr ≡ some p)
      × (o : ℕ) × FreeBlock p.1.base
          (size32 p.1.ones)
          o
          (map (λ r. r.guest_ip) w.db.vms)
          (nets_of w.db.networks)
          a
unfolding allocate_p2p
allocate_p2p-free cfg w a h =
    let (used, e1, _, k1) = bind-eq-ok used_guest_ips _ w h in
    let (is_used, kept, env) = guests-read w used e1 in
    let w1 = (used_guest_ips w).1 in
    let (p, e2, _, k2) = bind-eq-ok (or_raise (parse_cidr cfg.network.vm_cidr) _) _ w1 k1 in
    let (parsed, same) = or_raise-read (parse_cidr cfg.network.vm_cidr) _ w1 p e2 in
    let (_, e3, _, k3) = bind-eq-ok (refuse_if _ _) _ w1 (rw same at k2) in
    let same3 = refuse_if-read _ _ w1 e3 in
    let (shared, e4, _, k4) = bind-eq-ok shared_network_cidrs _ w1 (rw same3 at k3) in
    let is_shared = nets-read w1 shared e4 in
    let (found, _) = or_raise-read _ _ _ a k4 in
    let (o, b) =
      p2p_from-free _ p.1.base (size32 p.1.ones) 0 used shared a refl (omega arith) found in
    (
      p,
      parsed,
      o,
      record {
        inside = b.inside;
        aligned = b.aligned;
        host = b.host;
        guest = b.guest;
        cidr = b.cidr;
        unused = rw is_used at b.unused;
        apart =
            sym (any-nets-order (block p.1.base o) _ w.db.networks)
            ∙ ap
                (λ d. cidr_overlaps_any (block p.1.base o) (
                  nets_of (
                    order_by (λ (a b : Network). w1.env.created_before b.created_at a.created_at)
                      d.networks)))
                (sym kept)
            ∙ ap (cidr_overlaps_any (block p.1.base o)) (sym is_shared)
            ∙ b.apart;
      },
    )

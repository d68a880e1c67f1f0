-- ===== src/Lifecycle/Alloc/Ports.antt =====
-- The SSH port that a new virtual machine is given.
use mathlib.Core.Path.{subst}
use bap_web.Prelude.{
  ℕ, zero, suc, ◌+◌, ◌-◌, ◌≤◌, ◌<◌, ℤ, pos, is_zero, negsuc, String, Bool, true, false, Option,
  none, some, List, [], ◌∷◌, ◌++◌, map, any, ◌==◌, ◌≡◌, ◌⊎◌, refl, arith, Bool-cases, inl, inr,
  if◌then◌else◌,
}
use bap_web.Config.{Config}
use bap_web.Store.Vms.{used_ssh_ports, used_ingress_host_ports}
use bap_web.World.{World, pure, or_raise, perform, ok, ◌>>=◌, statement, refuse_if}
use bap_web.Text.{split}
use bap_web.World.Steps.{bind-eq-ok, or_raise-read}
use bap_web.Lifecycle.Alloc.{
  parse_range, range_of, ordered, atoi, port_open, first_port, asked_port, allocate_port,
}

-- Whether a port is in a list of those in use.
abbrev pub in_use : ℕ → List ℕ → Bool
in_use p used = any (λ u. u == p) used

-- The ports in the database: for SSH, and those that are forwarded.
abbrev pub ports_in_use : World → List ℕ
ports_in_use w = map (λ r. r.ssh_port) w.db.vms ++ map (λ r. r.host_port) w.db.ingress_rules

-- A port in the range that no row uses.
abbrev pub Free : ℕ → ℕ → List ℕ → ℕ → Type 0
Free p n used q = (p ≤ q) × (q < p + n) × (in_use q used ≡ false)

probed :
    (n p q : ℕ) (used : List ℕ) (w : World) (taken : Bool)
    → in_use p used ≡ false
    → ((first_port n (suc p) used w).0 ≡ ok q → Free (suc p) n used q)
    → ((if taken then first_port n (suc p) used else pure p) w).0 ≡ ok q
    → Free p (suc n) used q
unfolding ◌>>=◌
probed n p q used w true free rest h = let (a, b, c) = rest h in (ground arith, ground arith, c)
probed n p q used w false free rest h = (ground arith, ground arith, ground arith)

first_port-Free :
    (n p q : ℕ) (used : List ℕ) (w : World) → (first_port n p used w).0 ≡ ok q → Free p n used q
unfolding first_port
first_port-Free zero p q used w h = absurd (unfold ◌>>=◌ in cc)
first_port-Free (suc n) p q used w h = elim (Bool-cases (in_use p used)) [
  | inl taken ↦
      let (a, b, c) = first_port-Free n (suc p) q used w (rw taken at h) in
      (ground arith, ground arith, c)
  | inr free ↦
      let (taken, _, _, k) = bind-eq-ok (port_open p) _ w (rw free at h) in
      let w' = (port_open p w).1 in
      probed n p q used w' taken free (first_port-Free n (suc p) q used w') k
]

asked_port-Free :
    (start end q : ℕ) (used : List ℕ) (requested : ℤ) (w : World)
    → start ≤ end
    → (asked_port start end used requested w).0 ≡ ok q
    → (requested ≡ pos q) × Free start (suc end - start) used q
unfolding asked_port ◌>>=◌ refuse_if port_open perform
asked_port-Free start end q used (pos n) w le h = ground arith
asked_port-Free start end q used (negsuc n) w le h = ground arith

ordered-range : (parts : List String) (a b : ℕ) → range_of parts ≡ some (a, b) → a ≤ b
ordered-range [] a b h = cc
ordered-range (x ∷ []) a b h = cc
ordered-range (x ∷ y ∷ z ∷ zs) a b h = cc
ordered-range (x ∷ y ∷ []) a b h = is-ordered (atoi x) (atoi y) h
  where
    is-ordered : (m n : Option ℕ) → ordered m n ≡ some (a, b) → a ≤ b
    is-ordered none none h = cc
    is-ordered none (some n) h = cc
    is-ordered (some m) none h = cc
    is-ordered (some m) (some n) h = ground arith

parse_range-ordered : (s : String) (a b : ℕ) → parse_range s ≡ some (a, b) → a ≤ b
unfolding parse_range
parse_range-ordered s a b h = ordered-range (split 45 s) a b h

ssh-read :
    (w : World) (ps : List ℕ)
    → (used_ssh_ports w).0 ≡ ok ps
    → (ps ≡ map (λ r. r.ssh_port) w.db.vms) × ((used_ssh_ports w).1.db ≡ w.db)
unfolding used_ssh_ports ◌>>=◌ statement
ssh-read w ps h = ground arith

ingress-read :
    (w : World) (ps : List ℕ)
    → (used_ingress_host_ports w).0 ≡ ok ps
    → ps ≡ map (λ r. r.host_port) w.db.ingress_rules
unfolding used_ingress_host_ports ◌>>=◌ statement
ingress-read w ps h = ground arith

is_zero-zero : (r : ℤ) → is_zero r ≡ true → r ≡ pos 0
is_zero-zero (pos n) h = ground arith
is_zero-zero (negsuc n) h = cc

chosen-Free :
    (start end q : ℕ) (used : List ℕ) (requested : ℤ) (w : World) (any_port : Bool)
    → start ≤ end
    → (any_port ≡ true → requested ≡ pos 0)
    → ((if any_port
          then first_port (suc end - start) start used
          else asked_port start end used requested)
        w).0
      ≡ ok q
    → Free start (suc end - start) used q × ((requested ≡ pos 0) ⊎ (requested ≡ pos q))
chosen-Free start end q used requested w true le z h =
    (first_port-Free _ start q used w h, inl (z refl))
chosen-Free start end q used requested w false le z h =
    let (same, free) = asked_port-Free start end q used requested w le h in (free, inr same)

-- A port that is given to a new machine lies in the configured range, no machine has it for SSH,
-- and no forward uses it. A port that was asked for is given as it was.
pub allocate_port-Free :
    (cfg : Config) (requested : ℤ) (w : World) (q : ℕ)
    → (allocate_port cfg requested w).0 ≡ ok q
    → (start : ℕ) × (end : ℕ) × (parse_range cfg.network.ssh_port_range ≡ some (start, end))
      × Free start (suc end - start) (ports_in_use w) q
      × ((requested ≡ pos 0) ⊎ (requested ≡ pos q))
unfolding allocate_port
allocate_port-Free cfg requested w q h =
    let ((start, end), e1, _, k1) =
      bind-eq-ok (or_raise (parse_range cfg.network.ssh_port_range) _) _ w h in
    let (range, same) =
      or_raise-read (parse_range cfg.network.ssh_port_range) _ w (start, end) e1 in
    let k1' = rw same at k1 in
    let (ssh, e2, _, k2) = bind-eq-ok used_ssh_ports _ w k1' in
    let (is_ssh, kept) = ssh-read w ssh e2 in
    let w2 = (used_ssh_ports w).1 in
    let (ingress, e3, _, k3) = bind-eq-ok used_ingress_host_ports _ w2 k2 in
    let is_ingress = ingress-read w2 ingress e3 in
    let (free, asked) =
      chosen-Free start end q (ssh ++ ingress) requested (used_ingress_host_ports w2).1
        (is_zero requested) (parse_range-ordered cfg.network.ssh_port_range start end range)
        (is_zero-zero requested) k3 in
    (
      start,
      end,
      range,
      subst (λ ps. Free start (suc end - start) ps q) (rw (is_ssh, is_ingress, kept) refl) free,
      asked,
    )

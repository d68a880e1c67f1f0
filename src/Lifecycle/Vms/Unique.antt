-- ===== src/Lifecycle/Vms/Unique.antt =====
-- What the UNIQUE columns of the table of machines mean: a row that they let through shares no id,
-- name, SSH port, interface or address with another.
use mathlib.Core.Bool.{false≢true}
use bap_web.Prelude.{
  String, Bool, false, none, List, [], ◌∷◌, ◌≡◌, ◌≢◌, sym, ◌∙◌, ◌=?◌, any, All, arith, eq_iff,
}
use bap_web.Model.{Vm}
use bap_web.Store.Vms.{has_id, vms_clash}

-- The columns that no two rows share, but for the id.
abbrev pub OtherColumns : Vm → Vm → Type 0
OtherColumns a b =
    (a.name ≢ b.name)
    × (a.ssh_port ≢ b.ssh_port)
    × (a.tap_name ≢ b.tap_name)
    × (a.guest_ip ≢ b.guest_ip)

abbrev pub Apart : Vm → Vm → Type 0
Apart a b = (a.id ≢ b.id) × OtherColumns a b

text-differs : (s t : String) → (s =? t) ≡ false → s ≢ t
text-differs s t h e = false≢true (sym h ∙ (eq_iff s t).1 e)

clash-none :
    (row r : Vm) (rs : List Vm)
    → vms_clash row (r ∷ rs) ≡ none
    → OtherColumns row r × (vms_clash row rs ≡ none)
unfolding vms_clash any
clash-none row r rs h = (
  (
    (λ e. text-differs r.name row.name (ground arith) (sym e)),
    (λ e. ground arith),
    (λ e. text-differs r.tap_name row.tap_name (ground arith) (sym e)),
    λ e. text-differs r.guest_ip row.guest_ip (ground arith) (sym e),
  ),
  ground arith,
)

pub clash-All : (row : Vm) (rs : List Vm) → vms_clash row rs ≡ none → All (OtherColumns row) rs
clash-All row [] h = tt
clash-All row (r ∷ rs) h = let (own, rest) = clash-none row r rs h in (own, clash-All row rs rest)

pub any-none : (q : Vm → Bool) (rs : List Vm) → any q rs ≡ false → All (λ x. q x ≡ false) rs
unfolding any
any-none q [] h = tt
any-none q (r ∷ rs) h = (ground arith, any-none q rs (ground arith))

pub is-not : (k : String) (r : Vm) → has_id k r ≡ false → r.id ≢ k
unfolding has_id
is-not k r h = text-differs r.id k h

pub All-map : {P Q : Vm → Type 0} (rs : List Vm) → ((x : Vm) → P x → Q x) → All P rs → All Q rs
All-map [] f _ = tt
All-map (r ∷ rs) f (h, hs) = (f r h, All-map rs f hs)

pub All-zip : (P Q : Vm → Type 0) (rs : List Vm) → All P rs → All Q rs → All (λ x. P x × Q x) rs
All-zip P Q [] _ _ = tt
All-zip P Q (r ∷ rs) (p, ps) (q, qs) = ((p, q), All-zip P Q rs ps qs)

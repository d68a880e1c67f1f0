-- ===== src/Lifecycle/Overlap/Shared.antt =====
-- What the overlap test means: an address that lies in both networks.
use bap_web.Prelude.{
  ℕ, ◌+◌, ◌-◌, ◌^◌, ◌≤◌, ◌<◌, String, true, false, none, List, [], ◌∷◌, leb, ◌≡◌, ◌≢◌, ◌↔◌, ◌⊎◌,
  inl, inr, arith, All, eq_iff, zero, suc, Bool-cases,
}
use bap_web.Lifecycle.Net.{IpNet, span, cidr_overlaps}
use bap_web.Lifecycle.Overlap.{NetworkCidrOwner, first_overlap}

-- The address lies in the network's range.
abbrev pub In : IpNet → ℕ → Type 0
In n ip = (n.base ≤ ip) × (ip < n.base + span n.ones)

two_pow-pos : (k : ℕ) → 1 ≤ 2 ^ k
two_pow-pos zero = omega arith
two_pow-pos (suc k) = let h = two_pow-pos k in omega arith

-- Two networks overlap exactly if an address lies in both.
pub cidr_overlaps-shared :
    (a b : IpNet) → (cidr_overlaps a b ≡ true) ↔ ((ip : ℕ) × In a ip × In b ip)
unfolding cidr_overlaps
cidr_overlaps-shared a b =
    let sa = two_pow-pos (32 - a.ones) in
    let sb = two_pow-pos (32 - b.ones) in
    (
      (λ h. elim (Bool-cases (leb a.base b.base)) [
        | inl below ↦ (b.base, (ground arith, ground arith), (ground arith, ground arith))
        | inr above ↦ (a.base, (ground arith, ground arith), (ground arith, ground arith))
      ]),
      λ (ip, (a1, a2), (b1, b2)). ground arith,
    )

-- No owner but the one to ignore has a network that overlaps.
abbrev pub Clear : IpNet → String → NetworkCidrOwner → Type 0
Clear candidate ignore_id o =
    ((o.id ≢ "") × (o.id ≡ ignore_id)) ⊎ (cidr_overlaps candidate o.ipnet ≡ false)

first_overlap-owner :
    (candidate : IpNet) (ignore_id : String) (o : NetworkCidrOwner) (os : List NetworkCidrOwner)
    → first_overlap candidate ignore_id (o ∷ os) ≡ none
    → Clear candidate ignore_id o × (first_overlap candidate ignore_id os ≡ none)
unfolding first_overlap
first_overlap-owner candidate ignore_id o os h =
    elim (Bool-cases (cidr_overlaps candidate o.ipnet)) [
      | inl overlaps ↦ (
        inl ((λ e. ground (arith, eq_iff o.id "")), ground (arith, eq_iff o.id ignore_id)),
        ground arith,
      )
      | inr apart ↦ (inr apart, ground arith)
    ]

-- The search reports no conflict only if no owner, but the one to ignore, overlaps.
pub first_overlap-Clear :
    (candidate : IpNet) (ignore_id : String) (os : List NetworkCidrOwner)
    → first_overlap candidate ignore_id os ≡ none
    → All (Clear candidate ignore_id) os
first_overlap-Clear candidate ignore_id [] h = tt
first_overlap-Clear candidate ignore_id (o ∷ os) h =
    let (clear, rest) = first_overlap-owner candidate ignore_id o os h in
    (clear, first_overlap-Clear candidate ignore_id os rest)

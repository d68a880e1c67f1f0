-- ===== src/Lifecycle/Rules/Policies.antt =====
-- The lists of ports that an egress policy allows.
use mathlib.Core.Path.{subst}
use bap_web.Prelude.{
  ℕ, ◌≤◌, pos, negsuc, String, true, false, some, List, [], ◌∷◌, any, ltb, ◌==◌, ◌≡◌, ◌⊎◌, refl,
  arith, Bool-cases, Option-cases, inl, inr,
}
use bap_web.World.{Result, ok, err}
use bap_web.World.Keeps.{ok-injective}
use bap_web.Lifecycle.Rules.{ports_of, signed}

-- A port number, and not one of those before.
abbrev pub NewPort : List ℕ → ℕ → Type 0
NewPort seen p = (1 ≤ p) × (p ≤ 65535) × (any (λ q. q == p) seen ≡ false)

-- The ports are port numbers, each once, and none of those before.
abbrev pub NewPorts : List ℕ → List ℕ → Type 0
NewPorts seen [] = Unit {0}
NewPorts seen (p ∷ ps) = NewPort seen p × NewPorts (p ∷ seen) ps

-- A port that is read goes in front of the others.
abbrev in_front : ℕ → Result (List ℕ) → Result (List ℕ)
in_front p (ok ps) = ok (p ∷ ps)
in_front p (err e) = err e

ports_of-step :
    (seen : List ℕ) (part : String) (parts : List String) (p : ℕ) (ps : List ℕ)
    → signed part ≡ some (pos p)
    → ports_of seen (part ∷ parts) ≡ ok ps
    → ((any (λ q. q == p) seen ≡ true) × (ports_of seen parts ≡ ok ps))
      ⊎ (NewPort seen p × (in_front p (ports_of (p ∷ seen) parts) ≡ ok ps))
unfolding ports_of
ports_of-step seen part parts p ps read h = elim (Bool-cases (ltb p 1)) [
  | inl low ↦ absurd (ground arith)
  | inr least ↦ elim (Bool-cases (ltb 65535 p)) [
    | inl high ↦ absurd (ground arith)
    | inr most ↦ elim (Bool-cases (any (λ q. q == p) seen)) [
      | inl old ↦ inl (old, ground arith)
      | inr new ↦ inr ((ground arith, ground arith, new), ground arith)
    ]
  ]
]

in_front-ok :
    (p : ℕ) (r : Result (List ℕ)) (ps : List ℕ)
    → in_front p r ≡ ok ps
    → (qs : List ℕ) × (r ≡ ok qs) × (p ∷ qs ≡ ps)
in_front-ok p (ok qs) ps h = (qs, refl, ok-injective h)
in_front-ok p (err e) ps h = cc

ports_of-read :
    (seen : List ℕ) (part : String) (parts : List String) (ps : List ℕ)
    → ports_of seen (part ∷ parts) ≡ ok ps
    → (p : ℕ) × (signed part ≡ some (pos p))
unfolding ports_of
ports_of-read seen part parts ps h = elim (Option-cases (signed part)) [
  | inl unread ↦ absurd (ground arith)
  | inr (pos p, read) ↦ (p, read)
  | inr (negsuc n, read) ↦ absurd (ground arith)
]

-- The ports that are read of a list of texts are port numbers, each once. Those that came before,
-- in `seen`, are left out.
pub ports_of-NewPorts :
    (seen : List ℕ) (parts : List String) (ps : List ℕ)
    → ports_of seen parts ≡ ok ps
    → NewPorts seen ps
unfolding ports_of
ports_of-NewPorts seen [] ps h = subst (NewPorts seen) (ok-injective h) tt
ports_of-NewPorts seen (part ∷ parts) ps h =
    let (p, read) = ports_of-read seen part parts ps h in
    elim (ports_of-step seen part parts p ps read h) [
      | inl (old, rest) ↦ ports_of-NewPorts seen parts ps rest
      | inr (new, rest) ↦
          let (qs, tail, same) = in_front-ok p (ports_of (p ∷ seen) parts) ps rest in
          subst (NewPorts seen) same (new, ports_of-NewPorts (p ∷ seen) parts qs tail)
    ]

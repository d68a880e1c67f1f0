-- ===== src/Kernels/Safe.antt =====
-- The parts of paths that names become.
use Prim.Native.Char.{Char, code}
use bap_web.Prelude.{
  String, Bool, true, false, ◌&&◌, ◌≡◌, ◌≢◌, inl, inr, refl, arith, ◌=?◌, eq_iff, if◌then◌else◌,
  Bool-cases,
}
use bap_web.Text.{trim_space}
use bap_web.Kernels.Names.{
  is_plain, is_edge, plain_text, trim_start, trim_end, or_kernel, sanitize_path_part,
}

-- Every character may stand in a part of a path.
abbrev all_plain : String → Bool
all_plain String.[] = true
all_plain (String.◌∷◌ c s) = is_plain (code c) && all_plain s

abbrev starts_at_edge : String → Bool
starts_at_edge String.[] = false
starts_at_edge (String.◌∷◌ c s) = is_edge (code c)

abbrev ends_at_edge : String → Bool
ends_at_edge String.[] = false
ends_at_edge (String.◌∷◌ c s) = if s =? "" then is_edge (code c) else ends_at_edge s

-- A name inside a directory: not empty, without a slash, and not "." or "..".
pub record IsPart (s : String) : Type 0 where
  pub plain : all_plain s ≡ true
  pub starts : starts_at_edge s ≡ false
  pub ends : ends_at_edge s ≡ false
  pub there : s ≢ ""

both : {a b : Bool} → a ≡ true → b ≡ true → (a && b) ≡ true
both h k = rw (h, k) refl

first-plain : (c : Char) (s : String) → all_plain (String.◌∷◌ c s) ≡ true → is_plain (code c) ≡ true
first-plain c s h = ground arith

rest-plain : (c : Char) (s : String) → all_plain (String.◌∷◌ c s) ≡ true → all_plain s ≡ true
rest-plain c s h = ground arith

-- The end of a text is dropped, or its first character stays.
dropped_end :
    (c : Char) (s : String) (P : String → Type 0)
    → P ""
    → P (String.◌∷◌ c (trim_end s))
    → P (trim_end (String.◌∷◌ c s))
unfolding trim_end
dropped_end c s P h k = elim (Bool-cases (trim_end s =? "" && is_edge (code c))) [
  | inl drop ↦ rw drop h
  | inr stay ↦ rw stay k
]

plain_text-plain : (s : String) → all_plain (plain_text s) ≡ true
unfolding plain_text
plain_text-plain String.[] = refl
plain_text-plain (String.◌∷◌ c s) = elim (Bool-cases (is_plain (code c))) [
  | inl plain ↦ rw plain (both plain (plain_text-plain s))
  | inr other ↦ rw other (unfold is_plain in plain_text-plain s)
]

trim_start-plain : (s : String) → all_plain s ≡ true → all_plain (trim_start s) ≡ true
unfolding trim_start
trim_start-plain String.[] h = refl
trim_start-plain (String.◌∷◌ c s) h = elim (Bool-cases (is_edge (code c))) [
  | inl edge ↦ rw edge (trim_start-plain s (rest-plain c s h))
  | inr other ↦ rw other h
]

trim_start-starts : (s : String) → starts_at_edge (trim_start s) ≡ false
unfolding trim_start
trim_start-starts String.[] = refl
trim_start-starts (String.◌∷◌ c s) = elim (Bool-cases (is_edge (code c))) [
  | inl edge ↦ rw edge (trim_start-starts s)
  | inr other ↦ rw other (rw other refl)
]

trim_end-plain : (s : String) → all_plain s ≡ true → all_plain (trim_end s) ≡ true
unfolding trim_end
trim_end-plain String.[] h = refl
trim_end-plain (String.◌∷◌ c s) h =
    dropped_end c s (λ t. all_plain t ≡ true) refl
      (both (first-plain c s h) (trim_end-plain s (rest-plain c s h)))

trim_end-starts : (s : String) → starts_at_edge s ≡ false → starts_at_edge (trim_end s) ≡ false
unfolding trim_end
trim_end-starts String.[] h = refl
trim_end-starts (String.◌∷◌ c s) h = dropped_end c s (λ t. starts_at_edge t ≡ false) refl h

trim_end-ends : (s : String) → ends_at_edge (trim_end s) ≡ false
unfolding trim_end
trim_end-ends String.[] = refl
trim_end-ends (String.◌∷◌ c s) = elim (Bool-cases (trim_end s =? "")) [
  | inl empty ↦ elim (Bool-cases (is_edge (code c))) [
    | inl edge ↦ rw (empty, edge) refl
    | inr other ↦ rw (empty, other) (rw (empty) other)
  ]
  | inr full ↦ rw full (rw full (trim_end-ends s))
]

or_kernel-Part :
    (s : String)
    → all_plain s ≡ true
    → starts_at_edge s ≡ false
    → ends_at_edge s ≡ false
    → IsPart (or_kernel s)
unfolding is_plain is_edge
or_kernel-Part s p b e = elim (Bool-cases (s =? "")) [
  | inl empty ↦ rw empty (record { plain = refl; starts = refl; ends = refl; there = λ h. cc })
  | inr full ↦
      rw full (record { plain = p; starts = b; ends = e; there = λ h. ground (arith, eq_iff s "") })
]

-- Whatever the text, `sanitizePathPart` makes of it a name inside a directory: it is not empty, has
-- only letters, digits, "-", "_" and ".", and neither begins nor ends with "-" or ".", so that it is
-- no way out of the directory.
pub sanitize_path_part-IsPart : (value : String) → IsPart (sanitize_path_part value)
unfolding sanitize_path_part
sanitize_path_part-IsPart value =
    let marked = plain_text (or_kernel (trim_space value)) in
    let plain = trim_start-plain marked (plain_text-plain (or_kernel (trim_space value))) in
    or_kernel-Part (trim_end (trim_start marked)) (trim_end-plain (trim_start marked) plain)
      (trim_end-starts (trim_start marked) (trim_start-starts marked))
      (trim_end-ends (trim_start marked))

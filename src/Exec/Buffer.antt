-- ===== src/Exec/Buffer.antt =====
-- `limitedBuffer` of internal/lifecycle/service.go: output of a command up to a limit. A byte is
-- its number.
use bap_web.Prelude.{
  ℕ, zero, suc, ◌+◌, ◌-◌, ◌≤◌, ◌<◌, Bool, true, false, List, [], ◌∷◌, ◌++◌, ◌≡◌, refl, sym, ap, ◌∙◌,
  arith, length, take, ltb, ◌==◌, if◌then◌else◌, All,
}
use mathlib.Core.Path.{subst}
use native.Mathlib.Decide.{dec_lt}
use mathlib.Core.List.{append_assoc, append-nil}

pub record LimitedBuffer : Type 0 where
  pub limit : ℕ
  pub buf : List ℕ
  pub truncated : Bool

abbrev pub new : ℕ → LimitedBuffer
new limit = record { limit = limit; buf = []; truncated = false }

-- `Write`: `remaining` is negative or zero where `limit - len` is zero on ℕ.
unfoldable pub write : LimitedBuffer → List ℕ → LimitedBuffer
write b p =
    let remaining = b.limit - length b.buf in
    if remaining == 0
    then record b { truncated = true }
    else if ltb remaining (length p)
    then record b { buf = b.buf ++ take remaining p; truncated = true }
    else record b { buf = b.buf ++ p }

-- The writes that a command makes, one after another.
unfoldable pub write_all : LimitedBuffer → List (List ℕ) → LimitedBuffer
write_all b [] = b
write_all b (p ∷ ps) = write_all (write b p) ps

-- All that was written.
abbrev pub written : List (List ℕ) → List ℕ
written [] = []
written (p ∷ ps) = p ++ written ps

abbrev pub NonEmpty : List ℕ → Type 0
NonEmpty p = 0 < length p

-- What a buffer says of all bytes that were written to it.
pub record Holds (b : LimitedBuffer) (all : List ℕ) : Type 0 where
  pub kept : b.buf ≡ take b.limit all
  pub told : b.truncated ≡ ltb b.limit (length all)

module _ {A : Type 0} where
  length-take-le : (n : ℕ) (xs : List A) → length (take n xs) ≤ n
  length-take-le zero xs = omega arith
  length-take-le (suc n) [] = omega arith
  length-take-le (suc n) (x ∷ xs) = omega (arith, length-take-le n xs)

  take-short :
      (n : ℕ) (xs ys : List A) → length xs ≤ n → take n (xs ++ ys) ≡ xs ++ take (n - length xs) ys
  take-short n [] ys h = ap (λ k. take k ys) (omega arith)
  take-short zero (x ∷ xs) ys h = absurd (omega arith)
  take-short (suc n) (x ∷ xs) ys h =
      ap (λ zs. x ∷ zs) (take-short n xs ys (omega arith) ∙ ap (λ k. xs ++ take k ys) (omega arith))

  take-long : (n : ℕ) (xs ys : List A) → n ≤ length xs → take n (xs ++ ys) ≡ take n xs
  take-long zero xs ys h = refl
  take-long (suc n) [] ys h = absurd (omega arith)
  take-long (suc n) (x ∷ xs) ys h = ap (λ zs. x ∷ zs) (take-long n xs ys (omega arith))

  take-none : (n : ℕ) → take {A = A} n [] ≡ []
  take-none zero = refl
  take-none (suc n) = refl

  length-join : (xs ys : List A) → length (xs ++ ys) ≡ length xs + length ys
  length-join [] ys = omega arith
  length-join (x ∷ xs) ys = omega (arith, length-join xs ys)

  take-all : (n : ℕ) (xs : List A) → length xs ≤ n → take n xs ≡ xs
  take-all zero [] h = refl
  take-all zero (x ∷ xs) h = absurd (omega arith)
  take-all (suc n) [] h = refl
  take-all (suc n) (x ∷ xs) h = ap (λ zs. x ∷ zs) (take-all n xs (omega arith))

  length-take : (n : ℕ) (xs : List A) → n ≤ length xs → length (take n xs) ≡ n
  length-take zero xs h = refl
  length-take (suc n) [] h = absurd (omega arith)
  length-take (suc n) (x ∷ xs) h = omega (arith, length-take n xs (omega arith))

full-Holds :
    (b : LimitedBuffer) (all p : List ℕ)
    → Holds b all
    → NonEmpty p
    → b.limit ≤ length all
    → Holds (write b p) (all ++ p)
unfolding write
full-Holds b all p h some_bytes full =
    let at_limit : length b.buf ≡ b.limit = ap length h.kept ∙ length-take b.limit all full in
    let longer = length-join all p in
    let none_left : b.limit - length b.buf ≡ 0 = omega arith in
    rw none_left
      (record { kept = h.kept ∙ sym (take-long b.limit all p full); told = ground (arith, longer) })

write_over :
    (b : LimitedBuffer) (p : List ℕ) (k : ℕ)
    → b.limit - length b.buf ≡ suc k
    → suc k < length p
    → write b p ≡ record b { buf = b.buf ++ take (suc k) p; truncated = true }
unfolding write
write_over b p k e over = rw e (ground arith)

write_fits :
    (b : LimitedBuffer) (p : List ℕ) (k : ℕ)
    → b.limit - length b.buf ≡ suc k
    → length p ≤ suc k
    → write b p ≡ record b { buf = b.buf ++ p }
unfolding write
write_fits b p k e fits = rw e (ground arith)

open-Holds :
    (b : LimitedBuffer) (all p : List ℕ)
    → Holds b all
    → length all < b.limit
    → Holds (write b p) (all ++ p)
open-Holds b all p h room =
    let same : b.buf ≡ all = h.kept ∙ take-all b.limit all (omega arith) in
    let k = b.limit - length all - 1 in
    let left : b.limit - length b.buf ≡ suc k = omega (arith, ap length same) in
    let longer = length-join all p in
    let cut = take-short b.limit all p (omega arith) in
    elim (dec_lt (suc k) (length p)) [
      | yes over ↦ rw (write_over b p k left over) (record {
        kept =
            ap (λ xs. xs ++ take (suc k) p) same
            ∙ ap (λ n. all ++ take n p) {x = suc k} {y = b.limit - length all} (omega arith)
            ∙ sym cut;
        told = ground (arith, longer);
      })
      | no fits ↦ rw (write_fits b p k left (omega arith)) (record {
        kept =
            ap (λ xs. xs ++ p) same ∙ sym (cut ∙ ap (λ xs. all ++ xs) (take-all _ p (omega arith)));
        told = h.told ∙ ground (arith, longer);
      })
    ]

write-limit : (b : LimitedBuffer) (p : List ℕ) → (write b p).limit ≡ b.limit
unfolding write
write-limit b p = ground arith

write-Holds :
    (b : LimitedBuffer) (all p : List ℕ) → Holds b all → NonEmpty p → Holds (write b p) (all ++ p)
write-Holds b all p h some_bytes = elim (dec_lt (length all) b.limit) [
  | yes room ↦ open-Holds b all p h room
  | no full ↦ full-Holds b all p h some_bytes (omega arith)
]

write_all-from :
    (ps : List (List ℕ)) (b : LimitedBuffer) (all : List ℕ)
    → Holds b all
    → All NonEmpty ps
    → Holds (write_all b ps) (all ++ written ps)
unfolding write_all
write_all-from [] b all h _ = subst (Holds b) (sym (append-nil all)) h
write_all-from (p ∷ ps) b all h (q, qs) =
    subst (Holds (write_all (write b p) ps)) (append_assoc all p (written ps))
      (write_all-from ps (write b p) (all ++ p) (write-Holds b all p h q) qs)

write_all-limit : (ps : List (List ℕ)) (b : LimitedBuffer) → (write_all b ps).limit ≡ b.limit
unfolding write_all
write_all-limit [] b = refl
write_all-limit (p ∷ ps) b = write_all-limit ps (write b p) ∙ write-limit b p

-- However a command's output is cut into writes, none of them empty, the buffer holds the first bytes
-- of it up to the limit, and it says that it is truncated exactly if there was more.
pub write_all-Holds :
    (limit : ℕ) (ps : List (List ℕ))
    → All NonEmpty ps
    → ((write_all (new limit) ps).buf ≡ take limit (written ps))
      × ((write_all (new limit) ps).truncated ≡ ltb limit (length (written ps)))
write_all-Holds limit ps some_bytes =
    let same : (write_all (new limit) ps).limit ≡ limit = write_all-limit ps (new limit) in
    let h =
      write_all-from ps (new limit) []
        (record { kept = sym (take-none limit); told = ground arith }) some_bytes in
    (
      h.kept ∙ ap (λ n. take n (written ps)) same,
      h.told ∙ ap (λ n. ltb n (length (written ps))) same,
    )

-- ===== src/Store/Table/Order.antt =====
-- ORDER BY moves rows and changes none.
use bap_web.Prelude.{Bool, ◌||◌, List, [], ◌∷◌, ◌≡◌, refl, arith, any, All, Bool-cases, inl, inr}
use bap_web.Store.Table.{insert_by, order_by}

module _ {R : Type 0} where
  any-insert_by :
      (q : R → Bool) (before : R → R → Bool) (r : R) (xs : List R)
      → any q (insert_by before r xs) ≡ (q r || any q xs)
  unfolding insert_by any
  any-insert_by q before r [] = refl
  any-insert_by q before r (x ∷ xs) = elim (Bool-cases (before x r)) [
    | inl first ↦ ground (arith, any-insert_by q before r xs)
    | inr last ↦ ground arith
  ]

  -- Whether some row passes a test does not depend on the order.
  pub any-order_by :
      (q : R → Bool) (before : R → R → Bool) (rs : List R) → any q (order_by before rs) ≡ any q rs
  unfolding order_by any
  any-order_by q before [] = refl
  any-order_by q before (r ∷ rs) =
      ground (arith, any-insert_by q before r (order_by before rs), any-order_by q before rs)

  All-insert_by :
      (P : R → Type 0) (before : R → R → Bool) (r : R) (xs : List R)
      → All P (insert_by before r xs)
      → P r × All P xs
  unfolding insert_by
  All-insert_by P before r [] h = h
  All-insert_by P before r (x ∷ xs) h = elim (Bool-cases (before x r)) [
    | inl first ↦
        let h' = rw first at h in let (p, ps) = All-insert_by P before r xs h'.1 in (p, (h'.0, ps))
    | inr last ↦ let h' = rw last at h in h'
  ]

  -- What all rows have in one order, they have in any.
  pub All-order_by :
      (P : R → Type 0) (before : R → R → Bool) (rs : List R) → All P (order_by before rs) → All P rs
  unfolding order_by
  All-order_by P before [] h = tt
  All-order_by P before (r ∷ rs) h =
      let (p, ps) = All-insert_by P before r (order_by before rs) h in
      (p, All-order_by P before rs ps)

  insert_by-All :
      (P : R → Type 0) (before : R → R → Bool) (r : R) (xs : List R)
      → P r
      → All P xs
      → All P (insert_by before r xs)
  unfolding insert_by
  insert_by-All P before r [] p h = (p, tt)
  insert_by-All P before r (x ∷ xs) p (h, hs) = elim (Bool-cases (before x r)) [
    | inl first ↦ rw first (h, insert_by-All P before r xs p hs)
    | inr last ↦ rw last (p, (h, hs))
  ]

  pub order_by-All :
      (P : R → Type 0) (before : R → R → Bool) (rs : List R) → All P rs → All P (order_by before rs)
  unfolding order_by
  order_by-All P before [] h = tt
  order_by-All P before (r ∷ rs) (h, hs) =
      insert_by-All P before r (order_by before rs) h (order_by-All P before rs hs)

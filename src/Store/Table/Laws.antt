-- ===== src/Store/Table/Laws.antt =====
-- What the statements do to properties of a table's rows.
use mathlib.Core.Path.{subst}
use mathlib.Core.Option
use bap_web.Prelude.{
  find, some, true, false, if◌then◌else◌, Bool, ◌||◌, List, [], ◌∷◌, ◌++◌, ◌≡◌, refl, arith, any,
  All, Bool-cases, inl, inr,
}
use bap_web.Store.Table.{update, delete}

module _ {R : Type 0} where
  -- An update that keeps a property of each row keeps it of all.
  pub All-update :
      (P : R → Type 0) (p : R → Bool) (f : R → R) (rs : List R)
      → ((r : R) → P r → P (f r))
      → All P rs
      → All P (update p f rs)
  unfolding update
  All-update P p f [] step _ = tt
  All-update P p f (r ∷ rs) step (h, hs) = elim (Bool-cases (p r)) [
    | inl hit ↦ (rw hit (step r h), All-update P p f rs step hs)
    | inr miss ↦ (rw miss h, All-update P p f rs step hs)
  ]

  pub All-delete : (P : R → Type 0) (p : R → Bool) (rs : List R) → All P rs → All P (delete p rs)
  unfolding delete
  All-delete P p [] _ = tt
  All-delete P p (r ∷ rs) (h, hs) = elim (Bool-cases (p r)) [
    | inl hit ↦ rw hit (All-delete P p rs hs)
    | inr miss ↦ rw miss (h, All-delete P p rs hs)
  ]

  -- An update that leaves a test of each row leaves whether some row passes.
  pub any-update :
      (q p : R → Bool) (f : R → R) (rs : List R)
      → ((r : R) → q (f r) ≡ q r)
      → any q (update p f rs) ≡ any q rs
  unfolding update any
  any-update q p f [] same = refl
  any-update q p f (r ∷ rs) same = ground (arith, same r, any-update q p f rs same)

  -- What is found has what all rows have.
  pub All-find :
      (P : R → Type 0) (q : R → Bool) (rs : List R) (r : R) → All P rs → find q rs ≡ some r → P r
  unfolding find
  All-find P q [] r _ e = cc
  All-find P q (x ∷ xs) r (h, hs) e = elim (Bool-cases (q x)) [
    | inl hit ↦ subst P (ground arith) h
    | inr miss ↦ All-find P q xs r hs (ground arith)
  ]

  -- An update of rows that a deletion would take leaves the same others.
  pub delete-update :
      (p : R → Bool) (f : R → R) (rs : List R)
      → ((r : R) → p (f r) ≡ true)
      → delete p (update p f rs) ≡ delete p rs
  unfolding delete update
  delete-update p f [] same = refl
  delete-update p f (r ∷ rs) same = elim (Bool-cases (p r)) [
    | inl hit ↦ ground (arith, same r, delete-update p f rs same)
    | inr miss ↦ ground (arith, delete-update p f rs same)
  ]

  pub delete-delete : (p : R → Bool) (rs : List R) → delete p (delete p rs) ≡ delete p rs
  unfolding delete
  delete-delete p [] = refl
  delete-delete p (r ∷ rs) = elim (Bool-cases (p r)) [
    | inl hit ↦ ground (arith, delete-delete p rs)
    | inr miss ↦ ground (arith, delete-delete p rs)
  ]

  -- What an update leaves for a search by a test that it does not touch.
  pub find-update :
      (q p : R → Bool) (f : R → R) (rs : List R)
      → ((r : R) → p r ≡ true → q (f r) ≡ q r)
      → find q (update p f rs) ≡ Option.map (λ r. if p r then f r else r) (find q rs)
  unfolding update find
  find-update q p f [] same = refl
  find-update q p f (r ∷ rs) same = elim (Bool-cases (p r)) [
    | inl hit ↦ ground (arith, same r hit, find-update q p f rs same)
    | inr miss ↦ ground (arith, find-update q p f rs same)
  ]

  pub find-append :
      (q : R → Bool) (xs ys : List R) (r : R) → find q xs ≡ some r → find q (xs ++ ys) ≡ some r
  unfolding find
  find-append q [] ys r h = cc
  find-append q (x ∷ xs) ys r h = ground (arith, find-append q xs ys r)

  -- A search that no older row answers finds the new one.
  pub find-new :
      (q : R → Bool) (xs : List R) (r : R)
      → any q xs ≡ false
      → q r ≡ true
      → find q (xs ++ r ∷ []) ≡ some r
  unfolding find any
  find-new q [] r new hit = ground arith
  find-new q (x ∷ xs) r new hit = ground (arith, find-new q xs r)

  pub any-append : (q : R → Bool) (xs ys : List R) → any q (xs ++ ys) ≡ (any q xs || any q ys)
  unfolding any
  any-append q [] ys = refl
  any-append q (x ∷ xs) ys = ground (arith, any-append q xs ys)

-- ===== src/Store/Table.antt =====
-- What the SQL statements of store.go do to a table: a list of rows in the order of insertion.
pub mod Laws
pub mod Order
use bap_web.Prelude.{ℕ, Bool, List, [], ◌∷◌, length, keep, if◌then◌else◌}

module _ {R : Type 0} where
  -- `UPDATE … WHERE p`
  unfoldable pub update : (R → Bool) → (R → R) → List R → List R
  update p f [] = []
  update p f (r ∷ rs) = (if p r then f r else r) ∷ update p f rs

  -- `DELETE … WHERE p` keeps the rows that do not pass.
  unfoldable pub delete : (R → Bool) → List R → List R
  delete p [] = []
  delete p (r ∷ rs) = let rest = delete p rs in if p r then rest else r ∷ rest

  -- `SELECT COUNT(*) … WHERE p`
  unfoldable pub count : (R → Bool) → List R → ℕ
  count p rs = length (keep p rs)

  -- A row put in front of the first that does not come before it.
  insert_by : (R → R → Bool) → R → List R → List R
  insert_by before r [] = r ∷ []
  insert_by before r (x ∷ xs) = if before x r then x ∷ insert_by before r xs else r ∷ x ∷ xs

  -- `ORDER BY`
  unfoldable pub order_by : (R → R → Bool) → List R → List R
  unfolding insert_by
  order_by before [] = []
  order_by before (r ∷ rs) = insert_by before r (order_by before rs)

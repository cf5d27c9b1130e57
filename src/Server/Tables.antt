-- ===== src/Server/Tables.antt =====
-- Rows of a table, in the order of their insertion, and the statements of server/db.py on them.
pub mod Keys
use crypto_project.Base.{
  ℕ, Bool, true, false, List, [], ◌∷◌, ◌++◌, Option, none, some, ltb, if◌then◌else◌,
}

module _ {R : Type 0} where
  unfoldable pub any : (R → Bool) → List R → Bool
  any test [] = false
  any test (x ∷ xs) = let rest = any test xs in if test x then true else rest

  -- SELECT, and `fetchone`.
  unfoldable pub find : (R → Bool) → List R → Option R
  find test [] = none
  find test (x ∷ xs) = let rest = find test xs in if test x then some x else rest

  -- SELECT, and `fetchall`.
  unfoldable pub find_all : (R → Bool) → List R → List R
  find_all test [] = []
  find_all test (x ∷ xs) = let rest = find_all test xs in if test x then x ∷ rest else rest

  -- UPDATE ... WHERE
  unfoldable pub update_where : (R → Bool) → (R → R) → List R → List R
  update_where test f [] = []
  update_where test f (x ∷ xs) =
      let rest = update_where test f xs in if test x then f x ∷ rest else x ∷ rest

  -- The rows that a replacing INSERT leaves.
  unfoldable pub remove_where : (R → Bool) → List R → List R
  remove_where test [] = []
  remove_where test (x ∷ xs) = let rest = remove_where test xs in if test x then rest else x ∷ rest

  -- ORDER BY a number: rows of the same number stay in the order of insertion.
  unfoldable pub insert_by : (R → ℕ) → R → List R → List R
  insert_by time x [] = x ∷ []
  insert_by time x (y ∷ ys) =
      let rest = insert_by time x ys in if ltb (time y) (time x) then y ∷ rest else x ∷ (y ∷ ys)

  unfoldable pub order_by : (R → ℕ) → List R → List R
  order_by time [] = []
  order_by time (x ∷ xs) = insert_by time x (order_by time xs)

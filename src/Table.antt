-- ===== src/Table.antt =====
-- Tables as lists of rows, in the order in which the server returns them, and the four kinds of
-- statement that the repositories send.
pub mod Laws
pub mod Unique
use masterfabric_backend.Prelude.{ℕ, Bool, leb, Option, none, some, List, [], ◌∷◌, if◌then◌else◌}

module _ {A : Type 0} where
  -- `SELECT … WHERE`, read by `QueryRow`: the first row.
  unfoldable pub find : (A → Bool) → List A → Option A
  find p [] = none
  find p (x ∷ xs) = if p x then some x else find p xs

  -- `SELECT … WHERE`, read by `Query`.
  unfoldable pub select : (A → Bool) → List A → List A
  select p [] = []
  select p (x ∷ xs) = let rest = select p xs in if p x then x ∷ rest else rest

  -- `UPDATE … WHERE`.
  unfoldable pub update : (A → Bool) → (A → A) → List A → List A
  update p f [] = []
  update p f (x ∷ xs) = (if p x then f x else x) ∷ update p f xs

-- `ORDER BY created_at DESC`, by insertion; rows of one instant keep their order.
module _ {A : Type 0} (created_at : A → ℕ) where
  unfoldable pub insert_newest : A → List A → List A
  insert_newest x [] = x ∷ []
  insert_newest x (y ∷ rows) =
      if leb (created_at y) (created_at x) then x ∷ y ∷ rows else y ∷ insert_newest x rows

  unfoldable pub newest_first : List A → List A
  unfolding insert_newest
  newest_first [] = []
  newest_first (x ∷ rows) = insert_newest x (newest_first rows)

-- ===== src/Table.antt =====
-- Database tables (backend/app/models, backend/app/services): a table is the list of its rows in
-- the order of insertion. A query reads the first row that its WHERE clause accepts; the unit of
-- work writes a changed row back by its primary key.
pub mod Laws
pub mod Only
use mad_devs_transport_shari.Prelude.{
  ℕ, ◌+◌, ◌≤◌, Bool, Option, none, some, List, [], ◌∷◌, if◌then◌else◌, ◌==◌, bit,
}

module _ {ℓ} {A : Type ℓ} where
  -- `session.scalar(select(A).where(test))`
  unfoldable pub scalar : (A → Bool) → List A → Option A
  scalar test [] = none
  scalar test (x ∷ xs) = if test x then some x else scalar test xs

  -- How many rows a WHERE clause accepts: a unique index on it says at most one.
  unfoldable pub count : (A → Bool) → List A → ℕ
  count test [] = 0
  count test (x ∷ xs) = bit (test x) + count test xs

module _ {ℓ} {A : Type ℓ} (key : A → ℕ) where
  -- `session.get(A, id)`
  abbrev pub get : ℕ → List A → Option A
  get i = scalar λ x. key x == i

  -- The flush of one changed row: `UPDATE ... WHERE id = ...`.
  unfoldable pub put : A → List A → List A
  put row [] = []
  put row (x ∷ xs) = (if key x == key row then row else x) ∷ put row xs

  -- The primary key is unique.
  abbrev pub IsKeyed : List A → Type 0
  IsKeyed xs = (i : ℕ) → count (λ x. key x == i) xs ≤ 1

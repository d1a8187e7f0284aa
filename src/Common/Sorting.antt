-- ===== src/Common/Sorting.antt =====
-- The sort by a key gives the rows in the order of the key, and all of them.
use Prim.Native.Nat.{ℕ, ◌≤◌}
use mathlib.Core.List.{List, [], ◌∷◌}
use native.Mathlib.Omega.{arith}
use welogical_vehicle_tracki.Common.Lists.{All, insert_by, sort_by}

module _ {ℓ} {A : Type ℓ} (key : A → ℕ) where
  -- In order of the key, from `low` on.
  abbrev pub SortedFrom : ℕ → List A → Type 0
  SortedFrom low [] = Unit
  SortedFrom low (x ∷ xs) = (low ≤ key x) × SortedFrom (key x) xs

  insert_by-SortedFrom :
      (low : ℕ) (x : A) (xs : List A)
      → low ≤ key x
      → SortedFrom low xs
      → SortedFrom low (insert_by key x xs)
  unfolding insert_by
  insert_by-SortedFrom low x [] le h = ground arith
  insert_by-SortedFrom low x (y ∷ ys) le h = ground (arith, insert_by-SortedFrom (key y) x ys)

  pub sort_by-SortedFrom : (xs : List A) → SortedFrom 0 (sort_by key xs)
  unfolding sort_by
  sort_by-SortedFrom [] = tt
  sort_by-SortedFrom (x ∷ xs) =
      insert_by-SortedFrom 0 x (sort_by key xs) (omega arith) (sort_by-SortedFrom xs)

  insert_by-All :
      (P : A → Type 0) (x : A) (xs : List A) → P x → All P xs → All P (insert_by key x xs)
  unfolding insert_by
  insert_by-All P x [] p h = (p, tt)
  insert_by-All P x (y ∷ ys) p h = ground (arith, insert_by-All P x ys)

  pub sort_by-All : (P : A → Type 0) (xs : List A) → All P xs → All P (sort_by key xs)
  unfolding sort_by
  sort_by-All P [] h = tt
  sort_by-All P (x ∷ xs) h = insert_by-All P x (sort_by key xs) h.0 (sort_by-All P xs h.1)

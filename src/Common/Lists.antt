-- ===== src/Common/Lists.antt =====
-- Lists as the program reads its tables: length, a predicate at every element, the first row of a
-- query, the rows of a query, an update of one row, and a stable sort by a key.
use Prim.Native.Nat.{ℕ, suc, ◌+◌}
use mathlib.Core.Path.{◌≡◌, refl}
use mathlib.Core.Bool.{Bool}
use mathlib.Core.Option.{Option, none, some}
use mathlib.Core.List.{List, [], ◌∷◌, ◌++◌}
use native.Mathlib.Omega.{arith}
use welogical_vehicle_tracki.Common.Tests.{if◌then◌else◌, leb, ltb}

abbrev pub greater : ℕ → Option ℕ → ℕ
greater n none = n
greater n (some m) = if ltb n m then m else n

module _ {ℓ} {A : Type ℓ} where
  abbrev pub length : List A → ℕ
  length [] = 0
  length (x ∷ xs) = suc (length xs)

  abbrev pub All {κ} : (A → Type κ) → List A → Type κ
  All P [] = Unit
  All P (x ∷ xs) = P x × All P xs

  -- The rows that pass a test, in order.
  abbrev pub select : (A → Bool) → List A → List A
  select p [] = []
  select p (x ∷ xs) = let rest = select p xs in if p x then x ∷ rest else rest

  -- `.limit(1)`, `.first()`: the first row that passes a test.
  abbrev pub find? : (A → Bool) → List A → Option A
  find? p [] = none
  find? p (x ∷ xs) = let rest = find? p xs in if p x then some x else rest

  -- The row that `find?` returns, changed in place.
  abbrev pub update_first : (A → Bool) → (A → A) → List A → List A
  update_first p f [] = []
  update_first p f (x ∷ xs) = let rest = update_first p f xs in if p x then f x ∷ xs else x ∷ rest

  -- How many rows pass a test.
  abbrev pub count_if : (A → Bool) → List A → ℕ
  count_if p [] = 0
  count_if p (x ∷ xs) = let rest = count_if p xs in if p x then suc rest else rest

  -- A stable insertion by a key, and the sort that it makes: `.order_by(key.asc())`.
  unfoldable pub insert_by : (A → ℕ) → A → List A → List A
  insert_by key x [] = x ∷ []
  insert_by key x (y ∷ ys) =
      let rest = insert_by key x ys in if leb (key x) (key y) then x ∷ y ∷ ys else y ∷ rest

  unfoldable pub sort_by : (A → ℕ) → List A → List A
  unfolding insert_by
  sort_by key [] = []
  sort_by key (x ∷ xs) = insert_by key x (sort_by key xs)

  -- The first row with the greatest key: `.order_by(key.desc()).limit(1)`.
  abbrev pub later : (A → ℕ) → A → Option A → Option A
  later key x none = some x
  later key x (some y) = if ltb (key x) (key y) then some y else some x

  unfoldable pub latest : (A → ℕ) → List A → Option A
  latest key [] = none
  latest key (x ∷ xs) = later key x (latest key xs)

  -- The first row with the least key: `.order_by(asc(key)).limit(1)`.
  abbrev pub sooner : (A → ℕ) → A → Option A → Option A
  sooner key x none = some x
  sooner key x (some y) = if ltb (key y) (key x) then some y else some x

  unfoldable pub earliest : (A → ℕ) → List A → Option A
  earliest key [] = none
  earliest key (x ∷ xs) = sooner key x (earliest key xs)

  pub All-append {κ} : (P : A → Type κ) (xs ys : List A) → All P xs → All P ys → All P (xs ++ ys)
  All-append P [] ys hx hy = hy
  All-append P (x ∷ xs) ys hx hy = (hx.0, All-append P xs ys hx.1 hy)

  pub length-append : (xs ys : List A) → length (xs ++ ys) ≡ length xs + length ys
  length-append [] ys = omega arith
  length-append (x ∷ xs) ys = omega (arith, length-append xs ys)

  pub count_if-append :
      (p : A → Bool) (xs ys : List A) → count_if p (xs ++ ys) ≡ count_if p xs + count_if p ys
  count_if-append p [] ys = omega arith
  count_if-append p (x ∷ xs) ys = ground (arith, count_if-append p xs ys)

  -- The greatest key, which is the key of the first row of `.order_by(key.desc())`.
  unfoldable pub greatest : (A → ℕ) → List A → Option ℕ
  greatest key [] = none
  greatest key (x ∷ xs) = some (greater (key x) (greatest key xs))

  pub greatest-append :
      (key : A → ℕ) (xs : List A) (x : A)
      → greatest key (xs ++ (x ∷ [])) ≡ some (greater (key x) (greatest key xs))
  unfolding greatest
  greatest-append key [] x = refl
  greatest-append key (y ∷ ys) x = ground (arith, greatest-append key ys x)

-- ===== src/Common/Queries.antt =====
-- Laws of the queries and of the updates in place.
use Prim.Native.Nat.{ℕ, suc, ◌≤◌}
use mathlib.Core.Option
use mathlib.Core.Path.{◌≡◌, refl}
use mathlib.Core.Bool.{Bool, true, false}
use mathlib.Core.Option.{none, some}
use mathlib.Core.List.{List, [], ◌∷◌, ◌++◌}
use mathlib.Core.Option.{some-injective}
use mathlib.Core.Path.{subst}
use mathlib.Core.Logic.{inl, inr}
use native.Mathlib.Omega.{arith}
use welogical_vehicle_tracki.Common.Tests.{Bool-cases, ◌==◌, if◌then◌else◌}
use welogical_vehicle_tracki.Common.Lists.{All, select, find?, update_first, count_if}

module _ {ℓ} {A : Type ℓ} where
  pub find?-sound : (p : A → Bool) (xs : List A) (x : A) → find? p xs ≡ some x → p x ≡ true
  find?-sound p [] x h = cc
  find?-sound p (y ∷ ys) x h = ground (arith, find?-sound p ys x)

  pub find?-All :
      (P : A → Type 0) (p : A → Bool) (xs : List A) (x : A) → All P xs → find? p xs ≡ some x → P x
  find?-All P p [] x all h = cc
  find?-All P p (y ∷ ys) x all h = elim (Bool-cases (p y)) [
    | inl e ↦ let found : some y ≡ some x = rw e at h in subst P (some-injective y x found) all.0
    | inr e ↦ find?-All P p ys x all.1 (rw e at h)
  ]

  pub select-All : (p : A → Bool) (xs : List A) → All (λ x. p x ≡ true) (select p xs)
  select-All p [] = tt
  select-All p (x ∷ xs) = ground (arith, select-All p xs)

  pub select-append :
      (p : A → Bool) (xs ys : List A) → select p (xs ++ ys) ≡ select p xs ++ select p ys
  select-append p [] ys = refl
  select-append p (x ∷ xs) ys = ground (arith, select-append p xs ys)

  pub count_if-none : (p : A → Bool) (xs : List A) → find? p xs ≡ none → count_if p xs ≡ 0
  count_if-none p [] h = refl
  count_if-none p (x ∷ xs) h = ground (arith, count_if-none p xs)

  pub count_if-update_first-le :
      (p q : A → Bool) (f : A → A) (xs : List A)
      → ((x : A) → p x ≡ true → q (f x) ≡ true → q x ≡ true)
      → count_if q (update_first p f xs) ≤ count_if q xs
  count_if-update_first-le p q f [] h = omega arith
  count_if-update_first-le p q f (x ∷ xs) h =
      ground (arith, h x, count_if-update_first-le p q f xs h)

  pub count_if-update_first :
      (p : A → Bool) (f : A → A) (xs : List A) (y : A)
      → ((x : A) → p (f x) ≡ false)
      → find? p xs ≡ some y
      → count_if p xs ≡ suc (count_if p (update_first p f xs))
  count_if-update_first p f [] z h e = cc
  count_if-update_first p f (x ∷ xs) z h e = ground (arith, h x, count_if-update_first p f xs z h)

  pub update_first-All :
      (P : A → Type 0) (p : A → Bool) (f : A → A) (xs : List A)
      → ((x : A) → P x → P (f x))
      → All P xs
      → All P (update_first p f xs)
  update_first-All P p f [] h all = tt
  update_first-All P p f (x ∷ xs) h all = ground (arith, h x, update_first-All P p f xs h)

  -- An update keeps out of a query that its rows are not in, before and after.
  pub select-update_first :
      (p q : A → Bool) (f : A → A) (xs : List A)
      → ((x : A) → p x ≡ true → (q x ≡ false) × (q (f x) ≡ false))
      → select q (update_first p f xs) ≡ select q xs
  select-update_first p q f [] h = refl
  select-update_first p q f (x ∷ xs) h = ground (arith, h x, select-update_first p q f xs h)

  -- An update that takes the only row out of a query leaves the query empty.
  pub count_if-update_first_only :
      (p : A → Bool) (f : A → A) (xs : List A)
      → ((x : A) → p (f x) ≡ false)
      → count_if p xs ≤ 1
      → count_if p (update_first p f xs) ≡ 0
  count_if-update_first_only p f [] h le = refl
  count_if-update_first_only p f (x ∷ xs) h le =
      ground (arith, h x, count_if-update_first_only p f xs h)

  -- The rows of one query pass the test of every query that it implies.
  pub find?-select :
      (p q : A → Bool) (xs : List A)
      → ((x : A) → p x ≡ true → q x ≡ true)
      → find? p (select q xs) ≡ find? p xs
  find?-select p q [] h = refl
  find?-select p q (x ∷ xs) h = ground (arith, h x, find?-select p q xs h)

  pub select-update_first_inside :
      (p q : A → Bool) (f : A → A) (xs : List A)
      → ((x : A) → p x ≡ true → (q x ≡ true) × (q (f x) ≡ true))
      → select q (update_first p f xs) ≡ update_first p f (select q xs)
  select-update_first_inside p q f [] h = refl
  select-update_first_inside p q f (x ∷ xs) h =
      ground (arith, h x, select-update_first_inside p q f xs h)

  -- The row that is written is the row that was found.
  pub update_first-found :
      (p : A → Bool) (f : A → A) (xs : List A) (x : A)
      → find? p xs ≡ some x
      → update_first p (λ _. f x) xs ≡ update_first p f xs
  update_first-found p f [] x e = refl
  update_first-found p f (y ∷ ys) x e = ground (arith, update_first-found p f ys x)

  -- What a query of the complement has left is nothing.
  pub select-complement :
      (p q : A → Bool) (xs : List A)
      → ((x : A) → q x ≡ true → p x ≡ false)
      → select p (select q xs) ≡ []
  select-complement p q [] h = refl
  select-complement p q (x ∷ xs) h = ground (arith, h x, select-complement p q xs h)

  pub select-select_self : (q : A → Bool) (xs : List A) → select q (select q xs) ≡ select q xs
  select-select_self q [] = refl
  select-select_self q (x ∷ xs) = ground (arith, select-select_self q xs)

  pub All-select : (P : A → Type 0) (p : A → Bool) (xs : List A) → All P xs → All P (select p xs)
  All-select P p [] h = tt
  All-select P p (x ∷ xs) h = ground (arith, All-select P p xs)

  pub count_if-select-le : (p q : A → Bool) (xs : List A) → count_if p (select q xs) ≤ count_if p xs
  count_if-select-le p q [] = omega arith
  count_if-select-le p q (x ∷ xs) = ground (arith, count_if-select-le p q xs)

  -- A row that is written under its key, looked up by a key.
  pub find?-update_first :
      (key : A → ℕ) (f : A → A) (k j : ℕ) (xs : List A)
      → ((x : A) → key (f x) ≡ key x)
      → find? (λ x. key x == j) (update_first (λ x. key x == k) f xs)
        ≡ (if j == k then Option.map f (find? (λ x. key x == j) xs) else find? (λ x. key x == j) xs)
  find?-update_first key f k j [] same = ground arith
  find?-update_first key f k j (x ∷ xs) same =
      ground (arith, same x, find?-update_first key f k j xs same)

  -- An update of a row that passes the test, where two properties hold of every row.
  pub update_first-All_where :
      (P Q : A → Type 0) (p : A → Bool) (f : A → A) (xs : List A)
      → ((x : A) → p x ≡ true → P x → Q x → P (f x))
      → All P xs
      → All Q xs
      → All P (update_first p f xs)
  update_first-All_where P Q p f [] h all also = tt
  update_first-All_where P Q p f (x ∷ xs) h all also =
      ground (arith, h x, update_first-All_where P Q p f xs h)

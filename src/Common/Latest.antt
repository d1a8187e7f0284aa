-- ===== src/Common/Latest.antt =====
-- Laws of the query for the row with the greatest key: `.order_by(key.desc()).first()`.
use Prim.Native.Nat.{ℕ, ◌≤◌}
use mathlib.Core.Path.{◌≡◌, refl, subst}
use mathlib.Core.Logic.{inl, inr, ◌≢◌, ◌⊎◌}
use mathlib.Core.Bool.{Bool, true}
use mathlib.Core.Option.{Option, none, some, some-injective}
use mathlib.Core.List.{List, [], ◌∷◌}
use native.Mathlib.Omega.{arith}
use welogical_vehicle_tracki.Common.Tests.{ltb, Bool-cases, Option-cases}
use welogical_vehicle_tracki.Common.Lists.{All, select, latest, later, earliest, sooner}

module _ {A : Type 0} where
  -- Some row satisfies `P`.
  abbrev pub Has : (A → Type 0) → List A → Type 0
  Has P [] = ⊥
  Has P (x ∷ xs) = P x ⊎ Has P xs

  later-some : (key : A → ℕ) (x : A) (o : Option A) → later key x o ≢ none
  later-some key x none h = cc
  later-some key x (some y) h = ground arith

  pub Has-map : (P Q : A → Type 0) (xs : List A) → ((x : A) → P x → Q x) → Has P xs → Has Q xs
  Has-map P Q [] f h = h
  Has-map P Q (x ∷ xs) f (inl p) = inl (f x p)
  Has-map P Q (x ∷ xs) f (inr h) = inr (Has-map P Q xs f h)

  -- The rows that pass a test are rows.
  pub Has-select :
      (P : A → Type 0) (p : A → Bool) (xs : List A)
      → Has P (select p xs)
      → Has (λ x. (p x ≡ true) × P x) xs
  Has-select P p [] h = absurd h
  Has-select P p (x ∷ xs) h = elim (Bool-cases (p x)) [
    | inl e ↦
        let h' : P x ⊎ Has P (select p xs) = rw e at h in
        elim h' [ inl q ↦ inl (e, q) | inr r ↦ inr (Has-select P p xs r) ]
    | inr e ↦ inr (Has-select P p xs (rw e at h))
  ]

  pub latest-none : (key : A → ℕ) (xs : List A) → latest key xs ≡ none → xs ≡ []
  unfolding latest
  latest-none key [] h = refl
  latest-none key (x ∷ xs) h = elim (Option-cases (latest key xs)) [
    | inl e ↦ absurd (later-some key x none (rw e at h))
    | inr (y, e) ↦ absurd (later-some key x (some y) (rw e at h))
  ]

  All-le :
      (key : A → ℕ) (m n : ℕ) (xs : List A)
      → m ≤ n
      → All (λ x. key x ≤ m) xs
      → All (λ x. key x ≤ n) xs
  All-le key m n [] le h = tt
  All-le key m n (x ∷ xs) le h = ground (arith, All-le key m n xs)

  -- The row is in the table, and no other has a greater key.
  abbrev pub IsLatest : (A → ℕ) → List A → A → Type 0
  IsLatest key xs a = Has (λ x. x ≡ a) xs × All (λ x. key x ≤ key a) xs

  pub latest-Has : (key : A → ℕ) (xs : List A) (a : A) → latest key xs ≡ some a → IsLatest key xs a
  unfolding latest
  latest-Has key [] a h = cc
  latest-Has key (x ∷ xs) a h = elim (Option-cases (latest key xs)) [
    | inl e ↦
        let same : x ≡ a = some-injective x a (rw e at h) in
        let nothing : xs ≡ [] = latest-none key xs e in
        (inl same, rw (nothing, same) (omega arith, tt))
    | inr (y, e) ↦ elim (Bool-cases (ltb (key x) (key y))) [
      | inl t ↦
          let same : y ≡ a = some-injective y a (rw (e, t) at h) in
          let (has, all) = latest-Has key xs y e in
          subst (IsLatest key (x ∷ xs)) same (inr has, (ground arith, all))
      | inr f ↦
          let same : x ≡ a = some-injective x a (rw (e, f) at h) in
          subst (IsLatest key (x ∷ xs)) same (
            inl refl,
            (omega arith, All-le key (key y) (key x) xs (ground arith) (latest-Has key xs y e).1),
          )
    ]
  ]

  sooner-some : (key : A → ℕ) (x : A) (o : Option A) → sooner key x o ≢ none
  sooner-some key x none h = cc
  sooner-some key x (some y) h = ground arith

  pub earliest-none : (key : A → ℕ) (xs : List A) → earliest key xs ≡ none → xs ≡ []
  unfolding earliest
  earliest-none key [] h = refl
  earliest-none key (x ∷ xs) h = elim (Option-cases (earliest key xs)) [
    | inl e ↦ absurd (sooner-some key x none (rw e at h))
    | inr (y, e) ↦ absurd (sooner-some key x (some y) (rw e at h))
  ]

  All-ge :
      (key : A → ℕ) (m n : ℕ) (xs : List A)
      → n ≤ m
      → All (λ x. m ≤ key x) xs
      → All (λ x. n ≤ key x) xs
  All-ge key m n [] le h = tt
  All-ge key m n (x ∷ xs) le h = ground (arith, All-ge key m n xs)

  -- The row is in the table, and no other has a smaller key.
  abbrev pub IsEarliest : (A → ℕ) → List A → A → Type 0
  IsEarliest key xs a = Has (λ x. x ≡ a) xs × All (λ x. key a ≤ key x) xs

  pub earliest-Has :
      (key : A → ℕ) (xs : List A) (a : A) → earliest key xs ≡ some a → IsEarliest key xs a
  unfolding earliest
  earliest-Has key [] a h = cc
  earliest-Has key (x ∷ xs) a h = elim (Option-cases (earliest key xs)) [
    | inl e ↦
        let same : x ≡ a = some-injective x a (rw e at h) in
        let nothing : xs ≡ [] = earliest-none key xs e in
        (inl same, rw (nothing, same) (omega arith, tt))
    | inr (y, e) ↦ elim (Bool-cases (ltb (key y) (key x))) [
      | inl t ↦
          let same : y ≡ a = some-injective y a (rw (e, t) at h) in
          let (has, all) = earliest-Has key xs y e in
          subst (IsEarliest key (x ∷ xs)) same (inr has, (ground arith, all))
      | inr f ↦
          let same : x ≡ a = some-injective x a (rw (e, f) at h) in
          subst (IsEarliest key (x ∷ xs)) same (
            inl refl,
            (omega arith, All-ge key (key y) (key x) xs (ground arith) (earliest-Has key xs y e).1),
          )
    ]
  ]

-- ===== src/Trip/Sampled.antt =====
-- What the down-sampler of app/services/trip_replay.py keeps of a trip, and how much.
use mathlib.Core.Bool.{false≢true}
use native.Mathlib.Nat.{
  lt-div-mul-add, lt_of_mul-lt-mul_right, mul-le-mul_right, mul-le-mul_left, le-div_iff_mul-le,
}
use welogical_vehicle_tracki.Common.{
  ℕ, zero, suc, ◌+◌, ◌-◌, ◌*◌, ◌/◌, ◌≤◌, ◌<◌, ◌≡◌, refl, sym, ◌∙◌, ap, ◌⊎◌, inl, inr, false, List,
  [], ◌∷◌, ◌++◌, arith, leb, ◌==◌, ==→eq, ==_refl, leb→lt, length, length-append, ℤ, pos, negsuc,
  ok, Bool-cases,
}
use welogical_vehicle_tracki.Models.{Location}
use welogical_vehicle_tracki.Trip.Downsample.{
  every, last_of, step_of, with_last, decimate, simple_skipping_downsampler,
}

module _ {ℓ} {A : Type ℓ} where
  -- The first list is picked from the second, in order.
  pub data IsPicked : List A → List A → Type ℓ where
    none_picked : IsPicked [] []
    keep : {x : A} {xs ys : List A} → IsPicked xs ys → IsPicked (x ∷ xs) (x ∷ ys)
    drop : {x : A} {xs ys : List A} → IsPicked xs ys → IsPicked xs (x ∷ ys)

  IsPicked-all : (xs : List A) → IsPicked xs xs
  IsPicked-all [] = none_picked
  IsPicked-all (x ∷ xs) = keep (IsPicked-all xs)

  last_of-append : (x : A) (xs : List A) (l : A) → last_of x (xs ++ (l ∷ [])) ≡ l
  unfolding last_of
  last_of-append x [] l = refl
  last_of-append x (y ∷ ys) l = last_of-append y ys l

  every-IsPicked : (step skip : ℕ) (xs : List A) → IsPicked (every step skip xs) xs
  unfolding every
  every-IsPicked step skip [] = none_picked
  every-IsPicked step zero (x ∷ xs) = keep (every-IsPicked step (step - 1) xs)
  every-IsPicked step (suc skip) (x ∷ xs) = drop (every-IsPicked step skip xs)

  -- The samples end with the last point, or it can follow them.
  abbrev Ends : List A → A → List A → Type ℓ
  Ends samples l points =
      ((front : List A) × (samples ≡ front ++ (l ∷ []))) ⊎ IsPicked (samples ++ (l ∷ [])) points

  every-Ends :
      (step skip : ℕ) (x : A) (xs : List A)
      → Ends (every step skip (x ∷ xs)) (last_of x xs) (x ∷ xs)
  unfolding every last_of
  every-Ends step zero x [] = inl ([], refl)
  every-Ends step (suc skip) x [] = inr (keep none_picked)
  every-Ends step zero x (y ∷ ys) = elim (every-Ends step (step - 1) y ys) [
    | inl (front, e) ↦ inl (x ∷ front, ap (λ l. x ∷ l) e)
    | inr p ↦ inr (keep p)
  ]
  every-Ends step (suc skip) x (y ∷ ys) = elim (every-Ends step skip y ys) [
    | inl (front, e) ↦ inl (front, e)
    | inr p ↦ inr (drop p)
  ]

  every_none : (step skip : ℕ) (xs : List A) → length xs ≤ skip → length (every step skip xs) ≡ 0
  unfolding every
  every_none step skip [] h = refl
  every_none step zero (x ∷ xs) h = omega arith
  every_none step (suc skip) (x ∷ xs) h = every_none step skip xs (omega arith)

  -- Each sample but the first takes a whole step.
  length-every :
      (step skip : ℕ) (xs : List A)
      → 1 ≤ step
      → skip < length xs
      → length (every step skip xs) * step + skip < length xs + step
  unfolding every
  length-every step skip [] some_step h = omega arith
  length-every step zero (x ∷ xs) some_step h = elim (Bool-cases (leb (length xs) (step - 1))) [
    | inl e ↦ rw (every_none step (step - 1) xs (ground arith)) (omega arith)
    | inr e ↦ omega (arith, length-every step (step - 1) xs some_step (ground arith))
  ]
  length-every step (suc skip) (x ∷ xs) some_step h =
      omega (arith, length-every step skip xs some_step (omega arith))

-- The step is at least the quotient, where the multiplier is positive.
step_of-le : (q m : ℕ) → 1 ≤ q → 1 ≤ m → q ≤ step_of q (pos m)
step_of-le q m hq hm = ground (arith, mul-le-mul_left q hm)

step_of_positive : (q : ℕ) (m : ℤ) → 1 ≤ step_of q m
step_of_positive q (pos m) = ground arith
step_of_positive q (negsuc m) = omega arith

ne_zero : (n : ℕ) → 1 ≤ n → (n == 0) ≡ false
ne_zero n h = ground arith

-- How many whole steps there are in a total.
few_steps :
    (taken step q total target : ℕ)
    → 1 ≤ q
    → q ≤ step
    → taken * step < total + step
    → total < q * target + target
    → taken ≤ 2 * target
few_steps zero step q total target hq hs h close = omega arith
few_steps (suc n) step q total target hq hs h close =
    lt_of_mul-lt-mul_right q (omega (arith, mul-le-mul_left n hs, mul-le-mul_right target hq))

module _ {F : Type 0} where
  -- A sample of the points `x ∷ xs`: picked in order, from the first of them to one with the id of
  -- the last.
  pub record IsSample (x : Location F) (xs out : List (Location F)) : Type 0 where
    pub picked : IsPicked out (x ∷ xs)
    pub rest : List (Location F)
    pub from_first : out ≡ x ∷ rest
    pub to_last : (last_of x rest).id ≡ (last_of x xs).id

  -- Samples that do not have the last id do not end with the last point.
  Ends-IsPicked :
      (x : Location F) (samples : List (Location F)) (l : Location F) (points : List (Location F))
      → ((last_of x samples).id == l.id) ≡ false
      → Ends (x ∷ samples) l points
      → IsPicked ((x ∷ samples) ++ (l ∷ [])) points
  unfolding last_of
  Ends-IsPicked x samples l points differ (inr p) = p
  Ends-IsPicked x samples l points differ (inl (front, e)) =
      let same : last_of x samples ≡ l = ap (last_of x) e ∙ last_of-append x front l in
      absurd (false≢true (sym differ ∙ rw same (==_refl l.id)))

  decimate-IsSample :
      (x : Location F) (xs : List (Location F)) (step : ℕ) → IsSample x xs (decimate (x ∷ xs) step)
  unfolding every
  decimate-IsSample x xs step =
      let samples = every step (step - 1) xs in
      let l = last_of x xs in
      elim (Bool-cases ((last_of x samples).id == l.id)) [
        | inl e ↦ rw e record {
          picked = keep (every-IsPicked step (step - 1) xs);
          rest = samples;
          from_first = refl;
          to_last = ==→eq _ _ e;
        }
        | inr e ↦ rw e record {
          picked = Ends-IsPicked x samples l (x ∷ xs) e (every-Ends step 0 x xs);
          rest = samples ++ (l ∷ []);
          from_first = refl;
          to_last = ap (λ (p : Location F). p.id) (last_of-append x samples l);
        }
      ]

  with_last-length :
      (samples : List (Location F)) (l : Location F)
      → length (with_last samples l) ≤ length samples + 1
  with_last-length [] l = omega arith
  with_last-length (x ∷ samples) l = ground (arith, length-append (x ∷ samples) (l ∷ []))

  -- At most twice the target is sampled, and the last point.
  length-decimate :
      (x : Location F) (xs : List (Location F)) (target m : ℕ)
      → 1 ≤ target
      → target < length (x ∷ xs)
      → 1 ≤ m
      → length (decimate (x ∷ xs) (step_of (length (x ∷ xs) / target) (pos m))) ≤ 2 * target + 1
  length-decimate x xs target m some_target more some_multiplier =
      let total = length (x ∷ xs) in
      let q = total / target in
      let step = step_of q (pos m) in
      let taken = length (every step 0 (x ∷ xs)) in
      let one_each : 1 ≤ q = (le-div_iff_mul-le some_target).1 (omega arith) in
      let steps : q ≤ step = step_of-le q m one_each some_multiplier in
      let whole : taken * step < total + step =
        omega (arith, length-every step 0 (x ∷ xs) (step_of_positive q (pos m)) (omega arith)) in
      let close : total < q * target + target = lt-div-mul-add some_target in
      omega (
        arith,
        few_steps taken step q total target one_each steps whole close,
        with_last-length (every step 0 (x ∷ xs)) (last_of x xs),
      )

  -- For a trip of at least one point, a target of at least one and a positive multiplier, the
  -- down-sampler returns points picked in order from the trip's, from its first to one with the id of
  -- its last; they are all the points where these are at most the target, and at most twice the
  -- target and one otherwise.
  pub downsampler-IsSample :
      (x : Location F) (xs : List (Location F)) (target m : ℕ)
      → 1 ≤ target
      → 1 ≤ m
      → (out : List (Location F)) × (simple_skipping_downsampler (x ∷ xs) target (pos m) ≡ ok out)
        × IsSample x xs out
        × ((target < length (x ∷ xs)) ⊎ (out ≡ x ∷ xs))
        × (length out ≤ 2 * target + 1)
  unfolding simple_skipping_downsampler
  downsampler-IsSample x xs target m some_target some_multiplier =
      elim (Bool-cases (leb (length (x ∷ xs)) target)) [
        | inl e ↦ (
          x ∷ xs,
          rw e,
          record { picked = IsPicked-all (x ∷ xs); rest = xs; from_first = refl; to_last = refl },
          inr refl,
          ground arith,
        )
        | inr e ↦ (
          decimate (x ∷ xs) (step_of (length (x ∷ xs) / target) (pos m)),
          rw (e, ne_zero target some_target),
          decimate-IsSample x xs (step_of (length (x ∷ xs) / target) (pos m)),
          inl (leb→lt _ _ e),
          length-decimate x xs target m some_target (leb→lt _ _ e) some_multiplier,
        )
      ]

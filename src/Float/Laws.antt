-- ===== src/Float/Laws.antt =====
-- What the proofs use of floats: documented behaviour of IEEE arithmetic and of `math`, without NaN.
use welogical_vehicle_tracki.Common.{ℕ, ◌≡◌, ◌⊎◌, true, arith, ◌≤◌, ◌*◌, ◌^◌}
use welogical_vehicle_tracki.Float.{Float, Trig, fmax, fmin}

module _ (F : Type 0) ⦃fl : Float F⦄ where
  open fl use {decimal, add, sub, mul, div, neg, le}

  pub record IsOrdered : Type 0 where
    pub le_refl : (a : F) → le a a ≡ true
    pub le_trans : (a b c : F) → le a b ≡ true → le b c ≡ true → le a c ≡ true
    pub le_total : (a b : F) → (le a b ≡ true) ⊎ (le b a ≡ true)
    -- Literals are read in order.
    pub decimal_mono :
        (m k n j : ℕ) → m * 10 ^ j ≤ n * 10 ^ k → le (decimal m k) (decimal n j) ≡ true
    -- A sum with a summand that is not negative, a product of two such factors.
    pub add_grows : (a b : F) → le (decimal 0 0) b ≡ true → le a (add a b) ≡ true
    pub mul_nonneg :
        (a b : F)
        → le (decimal 0 0) a ≡ true
        → le (decimal 0 0) b ≡ true
        → le (decimal 0 0) (mul a b) ≡ true

  -- A difference with a subtrahend that is not negative.
  pub record IsGraded : Type 0 where
    pub sub_shrinks : (a b : F) → le (decimal 0 0) b ≡ true → le (sub a b) a ≡ true

  pub record IsTrig ⦃tr : Trig F⦄ : Type 0 where
    pub sqrt_nonneg : (a : F) → le (decimal 0 0) (tr.sqrt a) ≡ true
    pub asin_nonneg : (a : F) → le (decimal 0 0) a ≡ true → le (decimal 0 0) (tr.asin a) ≡ true

module _ {F : Type 0} ⦃fl : Float F⦄ where
  open fl use {le}

  abbrev pub Within : F → F → F → Type 0
  Within low high x = (le low x ≡ true) × (le x high ≡ true)

module _ {F : Type 0} ⦃fl : Float F⦄ (o : IsOrdered F) where
  open fl use {le}
  open o use {le_refl, le_trans, le_total}

  pub fmax-left : (a b : F) → le a (fmax a b) ≡ true
  fmax-left a b = ground (arith, le_refl a, le_total a b)

  pub fmax-right : (a b : F) → le b (fmax a b) ≡ true
  fmax-right a b = ground (arith, le_refl b, le_total a b)

  pub fmin-left : (a b : F) → le (fmin a b) a ≡ true
  fmin-left a b = ground (arith, le_refl a, le_total a b)

  pub fmin-right : (a b : F) → le (fmin a b) b ≡ true
  fmin-right a b = ground (arith, le_refl b, le_total a b)

  -- The two functions keep within bounds that both arguments keep.
  pub fmax-least : (a b c : F) → le a c ≡ true → le b c ≡ true → le (fmax a b) c ≡ true
  fmax-least a b c h k = ground arith

  pub fmin-greatest : (a b c : F) → le c a ≡ true → le c b ≡ true → le c (fmin a b) ≡ true
  fmin-greatest a b c h k = ground arith

  pub clamp-Within :
      (low high x : F) → le low high ≡ true → Within low high (fmax low (fmin high x))
  clamp-Within low high x h =
      (fmax-left low (fmin high x), fmax-least low (fmin high x) high h (fmin-left high x))

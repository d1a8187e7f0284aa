-- ===== src/Float/Fixed.antt =====
-- A concrete `Float`: integers that count millionths. It meets the laws, and the tests and examples
-- run on it. The functions of `math` are the coarsest that meet theirs.
use native.Mathlib.Nat.{
  le_of_mul-le-mul_right, mul-le-mul_right, le-div_iff_mul-le, div-mul-le_self, one-le-pow,
}
use welogical_vehicle_tracki.Common.{
  ◌<◌, ℕ, ◌+◌, ◌-◌, ◌*◌, ◌/◌, ◌^◌, ◌≤◌, ◌≡◌, Bool, true, ◌⊎◌, arith, leb, if◌then◌else◌, ℤ, pos,
  negsuc, pos_part, neg_part,
}
use welogical_vehicle_tracki.Float.{Float, Trig}
use welogical_vehicle_tracki.Float.Laws.{IsOrdered, IsGraded, IsTrig}

abbrev sub_ℕ : ℕ → ℕ → ℤ
sub_ℕ a b = if leb b a then pos (a - b) else negsuc (b - a - 1)

abbrev add_ℤ : ℤ → ℤ → ℤ
add_ℤ a b = sub_ℕ (pos_part a + pos_part b) (neg_part a + neg_part b)

abbrev neg_ℤ : ℤ → ℤ
neg_ℤ a = sub_ℕ (neg_part a) (pos_part a)

abbrev le_ℤ : ℤ → ℤ → Bool
le_ℤ a b = leb (pos_part a + neg_part b) (pos_part b + neg_part a)

-- The size of `a`, and a number with the sign of a product.
abbrev size : ℤ → ℕ
size a = pos_part a + neg_part a

abbrev signed : ℤ → ℤ → ℕ → ℤ
signed (pos _) (pos _) n = pos n
signed (negsuc _) (negsuc _) n = pos n
signed _ _ n = neg_ℤ (pos n)

abbrev one : ℕ
one = 1000000

abbrev trunc_ℤ : ℤ → ℤ
trunc_ℤ a = signed a (pos 1) (size a / one)

instance abbrev pub fixed_float : Float ℤ
fixed_float = record {
  decimal = λ n k. pos (n * one / 10 ^ k);
  neg = neg_ℤ;
  add = add_ℤ;
  sub = λ a b. add_ℤ a (neg_ℤ b);
  mul = λ a b. signed a b (size a * size b / one);
  div = λ a b. signed a b (size a * one / size b);
  le = le_ℤ;
  trunc = trunc_ℤ;
  fixed = λ n x. "x";
  str_float = λ x. "x";
  str_int = λ z. "n";
}

instance abbrev pub fixed_trig : Trig ℤ
fixed_trig = record {
  radians = λ x. x;
  sin = λ x. x;
  cos = λ x. pos one;
  asin = λ x. x;
  sqrt = λ x. pos (size x);
}

le_ℤ_refl : (a : ℤ) → le_ℤ a a ≡ true
le_ℤ_refl a = ground arith

le_ℤ_trans : (a b c : ℤ) → le_ℤ a b ≡ true → le_ℤ b c ≡ true → le_ℤ a c ≡ true
le_ℤ_trans a b c h k = ground arith

le_ℤ_total : (a b : ℤ) → (le_ℤ a b ≡ true) ⊎ (le_ℤ b a ≡ true)
le_ℤ_total a b = ground arith

add_ℤ_grows : (a b : ℤ) → le_ℤ (pos 0) b ≡ true → le_ℤ a (add_ℤ a b) ≡ true
add_ℤ_grows a b h = ground arith

-- Both products over the common denominator.
scaled_le : (m n k j q : ℕ) → 0 < k → q * k ≤ m * one → m * j ≤ n * k → q * j ≤ n * one
scaled_le m n k j q p h e =
    le_of_mul-le-mul_right {k = k} (omega (arith, mul-le-mul_right j h, mul-le-mul_right one e)) p

decimal_le : (m k n j : ℕ) → m * 10 ^ j ≤ n * 10 ^ k → m * one / 10 ^ k ≤ n * one / 10 ^ j
decimal_le m k n j h = (le-div_iff_mul-le (one-le-pow j 10 (omega arith))).1 (
    scaled_le m n (10 ^ k) (10 ^ j) (m * one / 10 ^ k) (one-le-pow k 10 (omega arith))
      (div-mul-le_self (m * one) (10 ^ k)) h)

signed_nonneg :
    (a b : ℤ) (n : ℕ)
    → le_ℤ (pos 0) a ≡ true
    → le_ℤ (pos 0) b ≡ true
    → le_ℤ (pos 0) (signed a b n) ≡ true
signed_nonneg (pos a) (pos b) n h k = ground arith
signed_nonneg (negsuc a) (negsuc b) n h k = ground arith
signed_nonneg (pos a) (negsuc b) n h k = ground arith
signed_nonneg (negsuc a) (pos b) n h k = ground arith

pub fixed-IsOrdered : IsOrdered ℤ
fixed-IsOrdered = record {
  le_refl = le_ℤ_refl;
  le_trans = le_ℤ_trans;
  le_total = le_ℤ_total;
  decimal_mono = λ m k n j h. ground (arith, decimal_le m k n j h);
  add_grows = λ a b h. add_ℤ_grows a b (ground arith);
  mul_nonneg = λ a b h k. signed_nonneg a b (size a * size b / one) h k;
}

pub fixed-IsTrig : IsTrig ℤ
fixed-IsTrig = record { sqrt_nonneg = λ a. ground arith; asin_nonneg = λ a h. h }

sub_ℤ_shrinks : (a b : ℤ) → le_ℤ (pos 0) b ≡ true → le_ℤ (add_ℤ a (neg_ℤ b)) a ≡ true
sub_ℤ_shrinks a b h = ground arith

pub fixed-IsGraded : IsGraded ℤ
fixed-IsGraded = record { sub_shrinks = λ a b h. sub_ℤ_shrinks a b (ground arith) }

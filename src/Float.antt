-- ===== src/Float.antt =====
-- Python's `float` and the functions of `math` that the program calls, as an interface: the program
-- implements neither. NaN does not occur in the model, so `a < b` is the negation of `b <= a`.
pub mod Laws
pub mod Fixed
use welogical_vehicle_tracki.Common.{
  ℕ, ◌-◌, String, Bool, not, ◌&&◌, ℤ, pos, negsuc, suc, leb, if◌then◌else◌,
}

pub record Float (F : Type 0) : Type 0 where
  -- the literal n · 10⁻ᵏ, rounded to the nearest float
  pub decimal : ℕ → ℕ → F
  pub neg : F → F
  pub add : F → F → F
  pub sub : F → F → F
  pub mul : F → F → F
  pub div : F → F → F
  -- `a <= b`
  pub le : F → F → Bool
  -- `int(x)`
  pub trunc : F → ℤ
  -- `f"{x:.nf}"`
  pub fixed : ℕ → F → String
  -- `str(x)` of a float and of an integer
  pub str_float : F → String
  pub str_int : ℤ → String

pub record Trig (F : Type 0) : Type 0 where
  pub radians : F → F
  pub sin : F → F
  pub cos : F → F
  pub asin : F → F
  pub sqrt : F → F

module _ {F : Type 0} ⦃fl : Float F⦄ where
  open fl use {decimal, neg, le}

  abbrev pub lit : ℕ → F
  lit n = decimal n 0

  -- `a < b`
  abbrev pub lt : F → F → Bool
  lt a b = not (le b a)

  abbrev pub eqf : F → F → Bool
  eqf a b = le a b && le b a

  -- `max(a, b)` and `min(a, b)` keep their first argument unless the second is beyond it.
  abbrev pub fmax : F → F → F
  fmax a b = if lt a b then b else a

  abbrev pub fmin : F → F → F
  fmin a b = if lt b a then b else a

  abbrev pub fabs : F → F
  fabs a = if lt a (lit 0) then neg a else a

  abbrev pub of_int : ℤ → F
  of_int (pos n) = lit n
  of_int (negsuc n) = neg (lit (suc n))

  -- `(later - earlier).total_seconds()`, of two times in microseconds.
  abbrev pub total_seconds : ℕ → ℕ → F
  total_seconds later earlier =
      if leb earlier later then decimal (later - earlier) 6 else neg (decimal (earlier - later) 6)

-- ===== src/Json.antt =====
-- The dynamic values of a JSON column (`extra_data` in app/models/location.py), with the lookups and
-- the comparisons that Python makes on them; a lookup or an order on the wrong type raises.
use welogical_vehicle_tracki.Common.{
  String, Bool, true, false, ℤ, pos, str_eq, eqb_ℤ, if◌then◌else◌, Result, ok, err, attribute_error,
  type_error, ℕ,
}
use welogical_vehicle_tracki.Float.{Float, lit, of_int, eqf}

mutual
  pub data Json (F : Type 0) : Type 0 where
    null : Json F
    bool : Bool → Json F
    int : ℤ → Json F
    num : F → Json F
    str : String → Json F
    arr : Items F → Json F
    obj : Dict F → Json F

  pub data Items (F : Type 0) : Type 0 where
    nil : Items F
    cons : Json F → Items F → Items F

  pub data Dict (F : Type 0) : Type 0 where
    empty : Dict F
    entry : String → Json F → Dict F → Dict F

module _ {F : Type 0} where
  -- `d.get(key, default)`; a key that stands twice has its first value.
  unfoldable pub get_or : String → Json F → Dict F → Json F
  get_or key default empty = default
  get_or key default (entry k v d) =
      let rest = get_or key default d in if str_eq k key then v else rest

  -- `key in d`
  unfoldable pub contains : String → Dict F → Bool
  contains key empty = false
  contains key (entry k v d) = let rest = contains key d in if str_eq k key then true else rest

  -- `x.get(key)`, where `x` may be no dictionary
  abbrev pub get : String → Json F → Result (Json F)
  get key (obj d) = ok (get_or key null d)
  get key _ = err attribute_error

  -- `d.get(outer, {}).get(inner)`
  abbrev pub get_in : String → String → Dict F → Result (Json F)
  get_in outer inner d = get inner (get_or outer (obj empty) d)

  abbrev pub is_null : Json F → Bool
  is_null null = true
  is_null _ = false

  -- `x == text`
  abbrev pub is_str : String → Json F → Bool
  is_str text (str s) = str_eq s text
  is_str text _ = false

  -- `bool(d)`: an empty dictionary is false
  abbrev pub is_filled : Dict F → Bool
  is_filled empty = false
  is_filled _ = true

module _ {F : Type 0} ⦃fl : Float F⦄ where
  abbrev pub of_bool : Bool → F
  of_bool true = lit 1
  of_bool false = lit 0

  -- The number that an arithmetic operation or an order reads.
  abbrev pub number : Json F → Result F
  number (bool b) = ok (of_bool b)
  number (int z) = ok (of_int z)
  number (num x) = ok x
  number _ = err type_error

  -- `x == n`
  unfoldable pub is_int : ℕ → Json F → Bool
  is_int n (bool b) = eqf (of_bool b) (lit n)
  is_int n (int z) = eqb_ℤ z (pos n)
  is_int n (num x) = eqf x (lit n)
  is_int n _ = false

-- ===== src/Fleet/Registered.antt =====
-- The licence and the phone number of a driver are unique among those that `create_driver` of
-- app/crud/driver.py stores.
use welogical_vehicle_tracki.Common.{
  ◌≤◌, ◌≡◌, refl, String, false, Option, none, some, List, [], ◌∷◌, ◌++◌, str_eq, eq_iff, arith,
  inl, inr, Bool-cases, count_if, find?, count_if-append, count_if-none, Result, ok, ◌>>◌, raise_if,
  value_error, raise_if-ok, >>=-eq-ok, ok-injective, subst,
}
use welogical_vehicle_tracki.Models.{Driver, Database, insert}
use welogical_vehicle_tracki.Fleet.Drivers.{
  DriverCreate, has_license, has_phone, is_some, driver_row, create_driver,
}

abbrev pub IsUnique : List Driver → Type 0
IsUnique rows =
    ((n : String) → count_if (has_license n) rows ≤ 1)
    × ((n : String) → count_if (has_phone n) rows ≤ 1)

-- A key that no row has is the key of one row after it is added.
added_once :
    (key : Driver → String) (rows : List Driver) (d : Driver)
    → find? (λ x. str_eq (key x) (key d)) rows ≡ none
    → ((n : String) → count_if (λ x. str_eq (key x) n) rows ≤ 1)
    → (n : String) → count_if (λ x. str_eq (key x) n) (rows ++ (d ∷ [])) ≤ 1
added_once key rows d absent one n = elim (Bool-cases (str_eq (key d) n)) [
  | inl e ↦ ground (
    arith,
    count_if-append (λ x. str_eq (key x) n) rows (d ∷ []),
    count_if-none (λ x. str_eq (key x) n) rows
        (subst (λ k. find? (λ x. str_eq (key x) k) rows ≡ none) ((eq_iff (key d) n).0 e) absent),
  )
  | inr e ↦ ground (arith, one n, count_if-append (λ x. str_eq (key x) n) rows (d ∷ []))
]

absent_of : {A : Type 0} (o : Option A) → is_some o ≡ false → o ≡ none
absent_of none h = refl
absent_of (some a) h = cc

module _ {F : Type 0} where
  -- A driver that is registered has a licence and a phone number that no driver had, and is stored
  -- under them; so that both stay unique.
  pub create_driver-IsUnique :
      (driver_in : DriverCreate) (d : Driver) (db db' : Database F)
      → create_driver driver_in db ≡ ok (d, db')
      → IsUnique db.drivers.rows
      → IsUnique db'.drivers.rows
        × (db'.drivers.rows ≡ db.drivers.rows ++ (d ∷ []))
        × (d.license_number ≡ driver_in.license_number)
        × (d.phone_number ≡ driver_in.phone_number)
  unfolding create_driver
  create_driver-IsUnique driver_in d db db' h (license, phone) =
      let row = driver_row db.drivers.next_id driver_in in
      let out : Driver × Database F = (row, record db { drivers = insert row db.drivers }) in
      let known = is_some (find? (has_license driver_in.license_number) db.drivers.rows) in
      let called = is_some (find? (has_phone driver_in.phone_number) db.drivers.rows) in
      let rest : Result (Driver × Database F) = raise_if called value_error >> ok out in
      let (u, new, h1) = >>=-eq-ok (raise_if known value_error) (λ _. rest) (d, db') h in
      let (w, free, h2) = >>=-eq-ok (raise_if called value_error) (λ _. ok out) (d, db') h1 in
      let e = ok-injective out (d, db') h2 in
      subst
        (λ o.
          IsUnique o.1.drivers.rows
          × (o.1.drivers.rows ≡ db.drivers.rows ++ (o.0 ∷ []))
          × (o.0.license_number ≡ driver_in.license_number)
          × (o.0.phone_number ≡ driver_in.phone_number))
        e
        (
          (
            added_once (λ (x : Driver). x.license_number) db.drivers.rows row
                (absent_of _ (raise_if-ok known value_error u new)) license,
            added_once (λ (x : Driver). x.phone_number) db.drivers.rows row
                (absent_of _ (raise_if-ok called value_error w free)) phone,
          ),
          refl,
          refl,
          refl,
        )

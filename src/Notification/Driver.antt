-- ===== src/Notification/Driver.antt =====
-- The driver that a notification names (`_resolve_driver_id` of
-- app/services/notifications/manager.py).
use welogical_vehicle_tracki.Common.{
  ℕ, ◌≤◌, ◌≡◌, true, false, Option, none, some, List, [], ◌∷◌, arith, select, latest, All, Has,
  latest-Has, latest-none, Has-select, Option-cases, Has-map, ap, subst, sym, inl, inr,
}
use welogical_vehicle_tracki.Models.{DateTime, DriverAssignment}
use welogical_vehicle_tracki.Notification.{resolve_driver_id, covers}

-- The driver of the vehicle at the time: of the assignment that covers the time and, of all that do,
-- is the latest; no driver only if no assignment covers it.
abbrev pub IsDriver : List DriverAssignment → ℕ → DateTime → Option ℕ → Type 0
IsDriver rows v t none = All (λ a. covers v t a ≡ false) rows
IsDriver rows v t (some d) =
    Has
      (λ a.
        (a.driver_id ≡ d)
        × (covers v t a ≡ true)
        × All (λ b. covers v t b ≡ true → b.assigned_at ≤ a.assigned_at) rows)
      rows

none_covers :
    (v : ℕ) (t : DateTime) (rows : List DriverAssignment)
    → select (covers v t) rows ≡ []
    → All (λ a. covers v t a ≡ false) rows
none_covers v t [] h = tt
none_covers v t (a ∷ rows) h = ground (arith, none_covers v t rows)

earlier_ones :
    (v : ℕ) (t m : DateTime) (rows : List DriverAssignment)
    → All (λ b. b.assigned_at ≤ m) (select (covers v t) rows)
    → All (λ b. covers v t b ≡ true → b.assigned_at ≤ m) rows
earlier_ones v t m [] h = tt
earlier_ones v t m (a ∷ rows) h = ground (arith, earlier_ones v t m rows)

-- The driver of a notification is the one whose assignment to the vehicle covers the time and is the
-- latest of those that do, and there is none only if no assignment covers the time.
pub resolve_driver_id-IsDriver :
    (rows : List DriverAssignment) (v : ℕ) (t : DateTime)
    → IsDriver rows v t (resolve_driver_id rows v t)
unfolding resolve_driver_id
resolve_driver_id-IsDriver rows v t =
    let found = latest (λ (a : DriverAssignment). a.assigned_at) (select (covers v t) rows) in
    elim (Option-cases found) [
      | inl e ↦ rw e (
          none_covers v t rows
            (latest-none (λ (a : DriverAssignment). a.assigned_at) (select (covers v t) rows) e))
      | inr (a, e) ↦
          let (has, all) =
            latest-Has (λ (b : DriverAssignment). b.assigned_at) (select (covers v t) rows) a e in
          let among = earlier_ones v t a.assigned_at rows all in
          rw e (
            Has-map _ _ rows
              (λ x (cov, same). (
                ap (λ (b : DriverAssignment). b.driver_id) same,
                cov,
                subst
                    (λ (b : DriverAssignment).
                      All (λ c. covers v t c ≡ true → c.assigned_at ≤ b.assigned_at) rows)
                    (sym same) among,
              ))
              (Has-select (λ x. x ≡ a) (covers v t) rows has))
    ]

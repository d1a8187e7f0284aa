-- ===== src/Fleet/Exclusive.antt =====
-- Assignments are exclusive (app/crud/driver.py): a vehicle has at most one driver at a time and a
-- driver at most one vehicle.
use welogical_vehicle_tracki.Common.{
  ℕ, ◌≤◌, ◌≡◌, refl, Bool, true, false, not, Option, some, List, [], ◌∷◌, ◌++◌, ◌==◌, ==→eq,
  ==_refl, arith, inl, inr, Bool-cases, count_if, find?, select, update_first, count_if-append,
  count_if-update_first-le, count_if-select-le, Result, ok, ◌>>=◌, >>=-eq-ok, value_error, raise_if,
  ◌>>◌, ok-injective, ap, sym, subst, ◌∙◌,
}
use welogical_vehicle_tracki.Models.{DateTime, Driver, Vehicle, DriverAssignment, Database}
use welogical_vehicle_tracki.Fleet.Drivers.{delete_driver, dismiss, get_driver, found_or}
use welogical_vehicle_tracki.Fleet.Assignments.{
  is_locked, is_active_status, is_open_of, is_open_by, release, update_all, new_assignment, assign,
  create_assignment, release_assignment, get_active_assignment_by_vehicle,
  get_active_assignment_by_driver,
}

abbrev pub IsExclusive : List DriverAssignment → Type 0
IsExclusive rows =
    ((v : ℕ) → count_if (is_open_of v) rows ≤ 1) × ((d : ℕ) → count_if (is_open_by d) rows ≤ 1)

module _ {A : Type 0} (p q : A → Bool) (f : A → A) where
  -- A change of all rows of a query, which never brings a row into another.
  count-update_all-le :
      (xs : List A) → ((x : A) → q (f x) ≡ false) → count_if q (update_all p f xs) ≤ count_if q xs
  unfolding update_all
  count-update_all-le [] h = omega arith
  count-update_all-le (x ∷ xs) h = ground (arith, h x, count-update_all-le xs h)

  -- A query whose rows are all changed is empty.
  count-update_all-none :
      (xs : List A)
      → ((x : A) → q (f x) ≡ false)
      → ((x : A) → q x ≡ true → p x ≡ true)
      → count_if q (update_all p f xs) ≡ 0
  unfolding update_all
  count-update_all-none [] h i = refl
  count-update_all-none (x ∷ xs) h i = ground (arith, h x, i x, count-update_all-none xs h i)

released_of : (v : ℕ) (now : DateTime) (a : DriverAssignment) → is_open_of v (release now a) ≡ false
released_of v now a = ground arith

released_by : (d : ℕ) (now : DateTime) (a : DriverAssignment) → is_open_by d (release now a) ≡ false
released_by d now a = ground arith

-- The rows after the two closing steps.
abbrev closed : ℕ → ℕ → DateTime → List DriverAssignment → List DriverAssignment
closed v d now rows =
    update_all (is_open_by d) (release now) (update_all (is_open_of v) (release now) rows)

closed-none_of :
    (v d : ℕ) (now : DateTime) (rows : List DriverAssignment)
    → count_if (is_open_of v) (closed v d now rows) ≡ 0
closed-none_of v d now rows = omega (
  arith,
  count-update_all-le (is_open_by d) (is_open_of v) (release now)
      (update_all (is_open_of v) (release now) rows) (released_of v now),
  count-update_all-none (is_open_of v) (is_open_of v) (release now) rows (released_of v now)
      (λ x h. h),
)

closed-none_by :
    (v d : ℕ) (now : DateTime) (rows : List DriverAssignment)
    → count_if (is_open_by d) (closed v d now rows) ≡ 0
closed-none_by v d now rows =
    count-update_all-none (is_open_by d) (is_open_by d) (release now)
      (update_all (is_open_of v) (release now) rows) (released_by d now) (λ x h. h)

closed-le :
    (v d : ℕ) (now : DateTime) (q : DriverAssignment → Bool) (rows : List DriverAssignment)
    → ((x : DriverAssignment) → q (release now x) ≡ false)
    → count_if q (closed v d now rows) ≤ count_if q rows
closed-le v d now q rows h = omega (
  arith,
  count-update_all-le (is_open_by d) q (release now) (update_all (is_open_of v) (release now) rows)
      h,
  count-update_all-le (is_open_of v) q (release now) rows h,
)

assign-IsExclusive :
    (v d id : ℕ) (now : DateTime) (rows : List DriverAssignment)
    → IsExclusive rows
    → IsExclusive (closed v d now rows ++ (new_assignment id v d now ∷ []))
assign-IsExclusive v d id now rows (of, by) = (
  λ w. elim (Bool-cases (v == w)) [
    | inl e ↦ ground (
      arith,
      ==→eq v w,
      closed-none_of v d now rows,
      count_if-append (is_open_of w) (closed v d now rows) (new_assignment id v d now ∷ []),
    )
    | inr e ↦ ground (
      arith,
      of w,
      closed-le v d now (is_open_of w) rows (released_of w now),
      count_if-append (is_open_of w) (closed v d now rows) (new_assignment id v d now ∷ []),
    )
  ],
  λ w. elim (Bool-cases (d == w)) [
    | inl e ↦ ground (
      arith,
      ==→eq d w,
      closed-none_by v d now rows,
      count_if-append (is_open_by w) (closed v d now rows) (new_assignment id v d now ∷ []),
    )
    | inr e ↦ ground (
      arith,
      by w,
      closed-le v d now (is_open_by w) rows (released_by w now),
      count_if-append (is_open_by w) (closed v d now rows) (new_assignment id v d now ∷ []),
    )
  ],
)

find-snoc :
    (p : DriverAssignment → Bool) (rows : List DriverAssignment) (a : DriverAssignment)
    → count_if p rows ≡ 0
    → p a ≡ true
    → find? p (rows ++ (a ∷ [])) ≡ some a
find-snoc p [] a h m = ground arith
find-snoc p (x ∷ rows) a h m = ground (arith, find-snoc p rows a)

module _ {F : Type 0} where
  -- What an accepted assignment has done: it returned the assigned database.
  create_assignment-assign :
      (v d : ℕ) (now : DateTime) (db db' : Database F) (a : Option DriverAssignment)
      → create_assignment v d now db ≡ ok (a, db')
      → (db' ≡ assign v d now db) × (a ≡ get_active_assignment_by_vehicle db' v)
  unfolding create_assignment
  create_assignment-assign v d now db db' a h =
      let out : Option DriverAssignment × Database F =
        (get_active_assignment_by_vehicle (assign v d now db) v, assign v d now db) in
      let last : Driver → Result (Option DriverAssignment × Database F) =
        λ driver. raise_if (not (is_active_status driver.status)) value_error >> ok out in
      let next : Vehicle → Result (Option DriverAssignment × Database F) =
        λ vehicle. raise_if (is_locked vehicle) value_error >> (get_driver d db >>= last) in
      let (vehicle, _, h1) =
        >>=-eq-ok (found_or "Vehicle" (find? (λ (x : Vehicle). x.id == v) db.vehicles.rows)) next
          (a, db') h in
      let (_, _, h2) =
        >>=-eq-ok (raise_if (is_locked vehicle) value_error) (λ _. get_driver d db >>= last)
          (a, db') h1 in
      let (driver, _, h3) = >>=-eq-ok (get_driver d db) last (a, db') h2 in
      let (_, _, h4) =
        >>=-eq-ok (raise_if (not (is_active_status driver.status)) value_error) (λ _. ok out)
          (a, db') h3 in
      let e = ok-injective out (a, db') h4 in
      let same : assign v d now db ≡ db' = ap (λ p. p.1) e in
      (sym same, subst (λ x. a ≡ get_active_assignment_by_vehicle x v) same (sym (ap (λ p. p.0) e)))

  -- An assignment that is accepted is the active one of its vehicle and of its driver, and is
  -- returned.
  pub create_assignment-active :
      (v d : ℕ) (now : DateTime) (db db' : Database F) (a : Option DriverAssignment)
      → create_assignment v d now db ≡ ok (a, db')
      → (let new = some (new_assignment db.driver_assignments.next_id v d now) in
          (a ≡ new)
          × (get_active_assignment_by_vehicle db' v ≡ new)
          × (get_active_assignment_by_driver db' d ≡ new))
  unfolding assign
  create_assignment-active v d now db db' a h =
      let (same, returned) = create_assignment-assign v d now db db' a h in
      let new = new_assignment db.driver_assignments.next_id v d now in
      let rows = closed v d now db.driver_assignments.rows in
      let of : find? (is_open_of v) (rows ++ (new ∷ [])) ≡ some new =
        find-snoc (is_open_of v) rows new (closed-none_of v d now db.driver_assignments.rows)
          (ground (arith, ==_refl v)) in
      let by : find? (is_open_by d) (rows ++ (new ∷ [])) ≡ some new =
        find-snoc (is_open_by d) rows new (closed-none_by v d now db.driver_assignments.rows)
          (ground (arith, ==_refl d)) in
      (returned ∙ (rw same of), rw same of, rw same by)

release-IsExclusive :
    (p : DriverAssignment → Bool) (now : DateTime) (rows : List DriverAssignment)
    → IsExclusive rows
    → IsExclusive (update_first p (release now) rows)
release-IsExclusive p now rows (of, by) = (
  λ v. omega (
    arith,
    of v,
    count_if-update_first-le p (is_open_of v) (release now) rows
        (λ x m h. ground (arith, released_of v now x)),
  ),
  λ d. omega (
    arith,
    by d,
    count_if-update_first-le p (is_open_by d) (release now) rows
        (λ x m h. ground (arith, released_by d now x)),
  ),
)

select-IsExclusive :
    (p : DriverAssignment → Bool) (rows : List DriverAssignment)
    → IsExclusive rows
    → IsExclusive (select p rows)
select-IsExclusive p rows (of, by) = (
  λ v. omega (arith, of v, count_if-select-le (is_open_of v) p rows),
  λ d. omega (arith, by d, count_if-select-le (is_open_by d) p rows),
)

-- An operation on the assignments that returns.
pub data Change {F : Type 0} : Database F → Database F → Type 0 where
  assigned :
      (v d : ℕ) (now : DateTime) (a : Option DriverAssignment) (db db' : Database F)
      → create_assignment v d now db ≡ ok (a, db')
      → Change db db'
  released : (v : ℕ) (now : DateTime) (db : Database F) → Change db (release_assignment v now db).1
  dismissed :
      (d : ℕ) (x : Driver) (db db' : Database F) → delete_driver d db ≡ ok (x, db') → Change db db'

module _ {F : Type 0} where
  abbrev pub Exclusive : Database F → Type 0
  Exclusive db = IsExclusive db.driver_assignments.rows

  -- However drivers are assigned, released and deleted, a vehicle has at most one active assignment
  -- and a driver at most one.
  pub Change-IsExclusive : (a b : Database F) → Change a b → Exclusive a → Exclusive b
  unfolding assign release_assignment delete_driver
  Change-IsExclusive _ _ (assigned v d now x db db' h) r =
      rw (create_assignment-assign v d now db db' x h).0
        (assign-IsExclusive v d db.driver_assignments.next_id now db.driver_assignments.rows r)
  Change-IsExclusive _ _ (released v now db) r =
      release-IsExclusive (is_open_of v) now db.driver_assignments.rows r
  Change-IsExclusive _ _ (dismissed d x db db' h) r =
      let rest : Driver → Result (Driver × Database F) = λ y. ok (y, dismiss d db) in
      let (y, _, e) = >>=-eq-ok (get_driver d db) rest (x, db') h in
      let same : dismiss d db ≡ db' = ap (λ p. p.1) (ok-injective (y, dismiss d db) (x, db') e) in
      subst Exclusive same (select-IsExclusive _ db.driver_assignments.rows r)

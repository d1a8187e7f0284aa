-- ===== src/Fleet/Transitions.antt =====
-- The life of a planned route (`update_route_status` of app/crud/planned_route.py) as a step relation
-- on its status.
use mathlib.Core.Option
use mathlib.Core.Bool.{false≢true}
use welogical_vehicle_tracki.Common.{
  ℕ, ◌≡◌, refl, String, Bool, true, false, not, ◌&&◌, Option, none, some, List, [], ◌∷◌, ◌==◌,
  ==→eq, str_eq, eq_iff, if◌then◌else◌, arith, inl, inr, Bool-cases, find?, update_first, Result,
  ok, ◌>>◌, raise_if, value_error, raise_if-ok, >>=-eq-ok, ok-injective, ap, subst, sym, ◌⊎◌, ◌∙◌,
}
use welogical_vehicle_tracki.Models.{PlannedRoute, Database}
use welogical_vehicle_tracki.Fleet.Drivers.{found_or}
use welogical_vehicle_tracki.Fleet.Routes.{
  among, statuses, valid_transitions, is_route, with_status, set_route, get_route,
  update_route_status,
}

pub data Move : String → String → Type 0 where
  stay : (s : String) → among s statuses ≡ true → Move s s
  assigned : Move "Pending" "Assigned"
  started : Move "Assigned" "Running"
  withdrawn : Move "Assigned" "Pending"
  finished : Move "Running" "Completed"
  interrupted : Move "Running" "Assigned"

pub among-cons :
    (t a : String) (rest : List String)
    → among t (a ∷ rest) ≡ true
    → (a ≡ t) ⊎ (among t rest ≡ true)
unfolding among
among-cons t a rest h = elim (Bool-cases (str_eq a t)) [
  | inl e ↦ inl ((eq_iff a t).0 e)
  | inr e ↦ inr (rw e at h)
]

moved : (s t a b : String) → s ≡ a → b ≡ t → Move a b → Move s t
moved s t a b p q m = subst (λ x. Move x t) (sym p) (subst (Move a) q m)

pub to_one : (t a : String) → among t (a ∷ []) ≡ true → a ≡ t
unfolding among
to_one t a h = elim (among-cons t a [] h) [ inl e ↦ e | inr f ↦ cc ]

Move-valid : (s t : String) → among t (valid_transitions s) ≡ true → Move s t
unfolding among
Move-valid s t h = elim (Bool-cases (str_eq s "Pending")) [
  | inl p ↦
      moved s t "Pending" "Assigned" ((eq_iff s "Pending").0 p) (to_one t "Assigned" (rw p at h))
        assigned
  | inr p' ↦ elim (Bool-cases (str_eq s "Assigned")) [
    | inl a ↦ elim (among-cons t "Running" ("Pending" ∷ []) (rw (p', a) at h)) [
      | inl q ↦ moved s t "Assigned" "Running" ((eq_iff s "Assigned").0 a) q started
      | inr r ↦
          moved s t "Assigned" "Pending" ((eq_iff s "Assigned").0 a) (to_one t "Pending" r)
            withdrawn
    ]
    | inr a' ↦ elim (Bool-cases (str_eq s "Running")) [
      | inl r ↦ elim (among-cons t "Completed" ("Assigned" ∷ []) (rw (p', a', r) at h)) [
        | inl q ↦ moved s t "Running" "Completed" ((eq_iff s "Running").0 r) q finished
        | inr w ↦
            moved s t "Running" "Assigned" ((eq_iff s "Running").0 r) (to_one t "Assigned" w)
              interrupted
      ]
      | inr r' ↦ absurd (false≢true (rw (p', a', r') at h))
    ]
  ]
]

-- What the code checks of a status.
abbrev refused : String → String → Bool
refused s t = not (str_eq s t) && not (among t (valid_transitions s))

Move-accepted : (s t : String) → among t statuses ≡ true → refused s t ≡ false → Move s t
Move-accepted s t known h = elim (Bool-cases (str_eq s t)) [
  | inl e ↦ subst (λ x. Move x t) (sym ((eq_iff s t).0 e)) (stay t known)
  | inr d ↦ Move-valid s t (ground arith)
]

accepted-Move : (s t : String) → Move s t → (among t statuses ≡ true) × (refused s t ≡ false)
unfolding among
accepted-Move _ _ (stay s known) = (known, ground (arith, eq_iff s s))
accepted-Move _ _ assigned = (refl, refl)
accepted-Move _ _ started = (refl, refl)
accepted-Move _ _ withdrawn = (refl, refl)
accepted-Move _ _ finished = (refl, refl)
accepted-Move _ _ interrupted = (refl, refl)

is_true : (b : Bool) → not b ≡ false → b ≡ true
is_true true h = refl
is_true false h = cc

module _ {F : Type 0} where
  -- The route after a change of its status, and the others.
  pub get-set_route :
      (k route_id : ℕ) (status : String) (db : Database F)
      → get_route (set_route route_id (with_status status) db) k ≡ (
          if k == route_id
          then Option.map (with_status status) (get_route db k)
          else get_route db k)
  get-set_route k route_id status db = found db.planned_routes.rows
    where
      found :
          (rows : List (PlannedRoute F))
          → find? (is_route k) (update_first (is_route route_id) (with_status status) rows) ≡ (
              if k == route_id
              then Option.map (with_status status) (find? (is_route k) rows)
              else find? (is_route k) rows)
      found [] = ground arith
      found (r ∷ rows) = ground (arith, found rows)

  found :
      (o : Option (PlannedRoute F)) (r : PlannedRoute F)
      → found_or "PlannedRoute" o ≡ ok r
      → o ≡ some r
  found none r h = cc
  found (some x) r h = ap some (ok-injective x r h)

  abbrev written : ℕ → String → Database F → PlannedRoute F → PlannedRoute F × Database F
  written route_id status db old =
      (with_status status old, set_route route_id (with_status status) db)

  abbrev checked : ℕ → String → Database F → PlannedRoute F → Result (PlannedRoute F × Database F)
  checked route_id status db old =
      raise_if (not (among status statuses)) value_error
      >> (raise_if (refused old.status status) value_error >> ok (written route_id status db old))

  at_route :
      (k route_id : ℕ) (status : String) (db : Database F) (old : PlannedRoute F)
      → get_route db route_id ≡ some old
      → (if k == route_id then Option.map (with_status status) (get_route db k) else get_route db k)
        ≡ (if k == route_id then some (with_status status old) else get_route db k)
  at_route k route_id status db old e = elim (Bool-cases (k == route_id)) [
    | inl same ↦ rw same (rw (==→eq k route_id same, e) refl)
    | inr other ↦ rw other refl
  ]

  -- An update of a status that is accepted is a move of the route's status; it writes the new status
  -- to that route, which it returns, and leaves every other route.
  pub update_route_status-Move :
      (route_id : ℕ) (status : String) (route : PlannedRoute F) (db db' : Database F)
      → update_route_status route_id status db ≡ ok (route, db')
      → (old : PlannedRoute F) × (get_route db route_id ≡ some old)
        × Move old.status status
        × (route ≡ with_status status old)
        × ((k : ℕ) → get_route db' k ≡ (if k == route_id then some route else get_route db k))
  unfolding update_route_status
  update_route_status-Move route_id status route db db' h =
      let (old, e, h1) =
        >>=-eq-ok (found_or "PlannedRoute" (get_route db route_id)) (checked route_id status db)
          (route, db') h in
      let (u, known, h2) =
        >>=-eq-ok (raise_if (not (among status statuses)) value_error)
          (λ _.
            raise_if (refused old.status status) value_error >> ok (written route_id status db old))
          (route, db') h1 in
      let (w, free, h3) =
        >>=-eq-ok (raise_if (refused old.status status) value_error)
          (λ _. ok (written route_id status db old)) (route, db') h2 in
      let same = ok-injective (written route_id status db old) (route, db') h3 in
      let there = found (get_route db route_id) old e in
      let move =
        Move-accepted old.status status
          (is_true (among status statuses)
            (raise_if-ok (not (among status statuses)) value_error u known))
          (raise_if-ok (refused old.status status) value_error w free) in
      (
        old,
        there,
        move,
        sym (ap (λ p. p.0) same),
        subst
            (λ p. (k : ℕ) → get_route p.1 k ≡ (if k == route_id then some p.0 else get_route db k))
            same
            (λ k. get-set_route k route_id status db ∙ at_route k route_id status db old there),
      )

  -- Every move is accepted.
  pub update_route_status-accepts :
      (route_id : ℕ) (status : String) (old : PlannedRoute F) (db : Database F)
      → get_route db route_id ≡ some old
      → Move old.status status
      → update_route_status route_id status db
        ≡ ok (with_status status old, set_route route_id (with_status status) db)
  unfolding update_route_status
  update_route_status-accepts route_id status old db e m =
      let (known, free) = accepted-Move old.status status m in rw (e, known, free) refl

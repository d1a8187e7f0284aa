-- ===== src/Fleet/Life.antt =====
-- What becomes of a planned route (app/crud/planned_route.py) along a sequence of updates of statuses,
-- and of the assignments of a vehicle to routes.
use mathlib.Core.Bool.{false≢true}
use mathlib.Core.Option.{some-injective}
use welogical_vehicle_tracki.Common.{
  ℕ, ◌≡◌, refl, String, true, false, some, [], ◌∷◌, ◌==◌, ==_refl, ==→eq, str_eq, eq_iff, inl, inr,
  Bool-cases, ok, ap, subst, sym, ◌∙◌, ◌≢◌,
}
use welogical_vehicle_tracki.Models.{PlannedRoute, Database}
use welogical_vehicle_tracki.Fleet.Routes.{
  among, statuses, with_status, set_route, get_route, update_route_status,
}
use welogical_vehicle_tracki.Fleet.Transitions.{
  Move, stay, assigned, started, withdrawn, finished, interrupted, update_route_status-Move,
  update_route_status-accepts, get-set_route, to_one, among-cons,
}

-- Accepted updates of the statuses of any routes.
pub data Updates {F : Type 0} : Database F → Database F → Type 0 where
  done : (db : Database F) → Updates db db
  next :
      (route_id : ℕ) (status : String) (route : PlannedRoute F) (a b c : Database F)
      → update_route_status route_id status a ≡ ok (route, b)
      → Updates b c
      → Updates a c

distinct : (a b : String) → str_eq a b ≡ false → a ≢ b
distinct a b d e = false≢true (sym d ∙ (eq_iff a b).1 e)

-- No move leads out of the status of a completed route.
Completed-Move : (s t : String) → Move s t → s ≡ "Completed" → t ≡ "Completed"
Completed-Move _ _ (stay s known) e = e
Completed-Move _ _ assigned e = absurd (distinct "Pending" "Completed" refl e)
Completed-Move _ _ started e = absurd (distinct "Assigned" "Completed" refl e)
Completed-Move _ _ withdrawn e = absurd (distinct "Assigned" "Completed" refl e)
Completed-Move _ _ finished e = refl
Completed-Move _ _ interrupted e = absurd (distinct "Running" "Completed" refl e)

module _ {F : Type 0} where
  abbrev pub IsCompleted : ℕ → Database F → Type 0
  IsCompleted k db = (r : PlannedRoute F) × (get_route db k ≡ some r) × (r.status ≡ "Completed")

  update-IsCompleted :
      (k route_id : ℕ) (status : String) (route : PlannedRoute F) (a b : Database F)
      → update_route_status route_id status a ≡ ok (route, b)
      → IsCompleted k a
      → IsCompleted k b
  update-IsCompleted k route_id status route a b h (r, there, e) =
      let (old, was, move, now, after) = update_route_status-Move route_id status route a b h in
      elim (Bool-cases (k == route_id)) [
        | inl same ↦
            let before : get_route a k ≡ some old = rw (==→eq k route_id same) was in
            let old_is : old ≡ r = some-injective old r (sym before ∙ there) in
            (
              route,
              after k ∙ rw same refl,
              rw now (Completed-Move old.status status move (rw old_is e)),
            )
        | inr other ↦ (r, after k ∙ rw other there, e)
      ]

  -- A completed route stays completed, whatever updates of statuses are accepted.
  pub Updates-IsCompleted :
      (k : ℕ) (a b : Database F) → Updates a b → IsCompleted k a → IsCompleted k b
  Updates-IsCompleted k a b (done db) h = h
  Updates-IsCompleted k a c (next route_id status route x b y e rest) h =
      Updates-IsCompleted k b c rest (update-IsCompleted k route_id status route a b e h)

  pub after_update :
      (k : ℕ) (status : String) (db : Database F) (r : PlannedRoute F)
      → get_route db k ≡ some r
      → get_route (set_route k (with_status status) db) k ≡ some (with_status status r)
  after_update k status db r e = get-set_route k k status db ∙ rw (==_refl k, e) refl

  -- One accepted update, and what follows it.
  advance :
      (k : ℕ) (status : String) (a : Database F) (r : PlannedRoute F) (to : Database F → Type 0)
      → get_route a k ≡ some r
      → Move r.status status
      → ((b : Database F)
          → get_route b k ≡ some (with_status status r)
          → (c : Database F) × Updates b c × to c)
      → (c : Database F) × Updates a c × to c
  advance k status a r to e m rest =
      let b = set_route k (with_status status) a in
      let (c, updates, reached) = rest b (after_update k status a r e) in
      (
        c,
        next k status (with_status status r) a b c (update_route_status-accepts k status r a e m)
            updates,
        reached,
      )

  -- The route is the same, but completed.
  abbrev pub Finishes : ℕ → PlannedRoute F → Database F → Type 0
  Finishes k r a =
      (b : Database F) × Updates a b × (get_route b k ≡ some (with_status "Completed" r))

  completes_done :
      (k : ℕ) (a : Database F) (r : PlannedRoute F)
      → get_route a k ≡ some r
      → r.status ≡ "Completed"
      → Finishes k r a
  completes_done k a r e s = (a, done a, e ∙ ap some (ap (λ t. with_status t r) s))

  completes_running :
      (k : ℕ) (a : Database F) (r : PlannedRoute F)
      → get_route a k ≡ some r
      → r.status ≡ "Running"
      → Finishes k r a
  completes_running k a r e s =
      advance k "Completed" a r (λ b. get_route b k ≡ some (with_status "Completed" r)) e
        (subst (λ t. Move t "Completed") (sym s) finished) (λ b there. (b, done b, there))

  completes_assigned :
      (k : ℕ) (a : Database F) (r : PlannedRoute F)
      → get_route a k ≡ some r
      → r.status ≡ "Assigned"
      → Finishes k r a
  completes_assigned k a r e s =
      advance k "Running" a r (λ b. get_route b k ≡ some (with_status "Completed" r)) e
        (subst (λ t. Move t "Running") (sym s) started)
        (λ b there. completes_running k b (with_status "Running" r) there refl)

  completes_pending :
      (k : ℕ) (a : Database F) (r : PlannedRoute F)
      → get_route a k ≡ some r
      → r.status ≡ "Pending"
      → Finishes k r a
  completes_pending k a r e s =
      advance k "Assigned" a r (λ b. get_route b k ≡ some (with_status "Completed" r)) e
        (subst (λ t. Move t "Assigned") (sym s) assigned)
        (λ b there. completes_assigned k b (with_status "Assigned" r) there refl)

  -- From each of the four statuses a route can be brought to completion by accepted updates, which
  -- change nothing of it but the status.
  pub Updates-Finishes :
      (k : ℕ) (a : Database F) (r : PlannedRoute F)
      → get_route a k ≡ some r
      → among r.status statuses ≡ true
      → Finishes k r a
  Updates-Finishes k a r e known =
      elim (among-cons r.status "Pending" ("Assigned" ∷ "Running" ∷ "Completed" ∷ []) known) [
        | inl p ↦ completes_pending k a r e (sym p)
        | inr h ↦ elim (among-cons r.status "Assigned" ("Running" ∷ "Completed" ∷ []) h) [
          | inl p ↦ completes_assigned k a r e (sym p)
          | inr h' ↦ elim (among-cons r.status "Running" ("Completed" ∷ []) h') [
            | inl p ↦ completes_running k a r e (sym p)
            | inr h'' ↦ completes_done k a r e (sym (to_one r.status "Completed" h''))
          ]
        ]
      ]

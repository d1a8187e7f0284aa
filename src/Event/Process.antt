-- ===== src/Event/Process.antt =====
-- The run of all rules by `EventEngine.process_telemetry` (app/services/event_engine.py): what it
-- stores, and that a packet that is processed again stores nothing.
use welogical_vehicle_tracki.Common.{◌≡◌, refl, ◌∙◌, ap, Option, List, [], ◌∷◌, All}
use welogical_vehicle_tracki.Float.{Float}
use welogical_vehicle_tracki.Models.{Location, Event, Table, Database}
use welogical_vehicle_tracki.Event.Result.{Rule}
use welogical_vehicle_tracki.Event.Rules.{evaluate}
use welogical_vehicle_tracki.Event.Engine.{
  default_rules, record_result, run_rules, process_telemetry,
}
use welogical_vehicle_tracki.Event.Retry.{
  IsPast, Settled, record-Settled, record-IsPast, record-keeps, record-Covers, Covers,
  Settled-record,
}

module _ {F : Type 0} ⦃fl : Float F⦄ (prev : Option (Location F)) (curr : Location F) where
  -- The events are in the past of the packet, and the stored ones are among them.
  abbrev Ready : List Event → Table Event × List Event → Type 0
  Ready rows s = IsPast curr.vehicle_id curr.timestamp s.0.rows × Covers rows curr s.0

  -- A rule has nothing to add.
  abbrev IsDone : Table Event × List Event → Rule → Type 0
  IsDone s r = Settled curr s.0 (evaluate r prev curr)

  run-keeps :
      (rows : List Event) (rules : List Rule) (s : Table Event × List Event) (r : Rule)
      → IsDone s r
      → IsDone (run_rules rows rules prev curr s) r
  unfolding run_rules
  run-keeps rows [] s r h = h
  run-keeps rows (x ∷ rules) s r h =
      run-keeps rows rules (record_result rows curr (evaluate x prev curr) s) r
        (record-keeps rows curr (evaluate x prev curr) (evaluate r prev curr) s.0 s.1 h)

  run-IsDone :
      (rows : List Event) (rules : List Rule) (s : Table Event × List Event)
      → Ready rows s
      → All (IsDone (run_rules rows rules prev curr s)) rules
  unfolding run_rules
  run-IsDone rows [] s ready = tt
  run-IsDone rows (x ∷ rules) s (past, covers) =
      let out = evaluate x prev curr in
      let next = record_result rows curr out s in
      (
        run-keeps rows rules next x (record-Settled rows curr out s.0 s.1 past covers),
        run-IsDone rows rules next
            (record-IsPast rows curr out s.0 s.1 past, record-Covers rows curr out s.0 s.1 covers),
      )

  done-run :
      (stored : Table Event) (rules : List Rule) (s : Table Event × List Event)
      → All (λ r. Settled curr stored (evaluate r prev curr)) rules
      → run_rules stored.rows rules prev curr s ≡ s
  unfolding run_rules
  done-run stored [] s h = refl
  done-run stored (x ∷ rules) s h =
      ap (run_rules stored.rows rules prev curr)
        (Settled-record curr (evaluate x prev curr) stored s h.0)
      ∙ done-run stored rules s h.1

-- When no event of the vehicle is later than the packet, processing the packet again, with the same
-- previous location, creates no event and leaves the database as the first time left it.
pub process_telemetry_again :
    {F : Type 0} ⦃fl : Float F⦄ (db : Database F) (prev : Option (Location F)) (curr : Location F)
    → IsPast curr.vehicle_id curr.timestamp db.events.rows
    → process_telemetry (process_telemetry db prev curr).1 prev curr
      ≡ ([], (process_telemetry db prev curr).1)
unfolding process_telemetry
process_telemetry_again db prev curr past =
    let s = run_rules db.events.rows default_rules prev curr (db.events, []) in
    rw
      (done-run prev curr s.0 default_rules (s.0, [])
        (run-IsDone prev curr db.events.rows default_rules (db.events, []) (past, λ _ h. h)))
      refl

-- ===== src/Lib.antt =====
-- The Vehicle Tracking System: the backend in app/ receives packets of vehicle trackers, stores
-- their locations, derives trips and events from them, and serves them to a dashboard. This library
-- models what the backend does with packets, drivers, routes, commands and listeners, and the physics
-- of its simulator, and states what makes it correct.
--
-- The parts and their files. A packet becomes a row of the table of locations; for each, the trip
-- engine and the event engine read and write the tables of trips and events. They meet only in the
-- database, which is the state that every operation takes and returns.
--
-- - Common: lists, queries, sorting, integers and results that may be an exception.
-- - Float: Python's `float` and the functions of `math` that the program calls, as an interface with
--   the laws in Float/Laws and an instance on millionths in Float/Fixed, for examples.
-- - Json: the dynamic values of a JSON column and the lookups that may raise.
-- - Models: the rows of app/models/*.py and the database, a table for each.
-- - Settings: the thresholds of app/config.py, a parameter of the model.
-- - Geo: app/utils/geo.py.
-- - Trip/Engine: app/services/trip_engine.py. `evaluate_coordinate_for_trip` keeps its name;
--   `evaluate` is its body once the arguments are there, `evaluate_active` and `evaluate_idle` are
--   its two branches, `extend` and `end_trip` its steps 3 and 4, `start_new_trip` is
--   `_start_new_trip`. There every write is stored at once, which is what one call and the commit
--   after it come to. Trip/Session is the same function, `evaluate_in`, in a session of
--   app/database.py, whose queries do not see what is not flushed (`autoflush=False`): the database
--   as stored, and the active trip as it is in memory. Trip/Rebuild has `rebuild_vehicle_trips` with
--   `replay` for its loop, in one session. The proofs are in Trip/Invariant, Trip/Change, Trip/Frame,
--   Trip/Timeline and Trip/Started, in Trip/Open, Trip/Carried and Trip/Once for sessions, and below
--   Trip/Rebuild.
-- - Event/Engine: the class `EventEngine` of app/services/event_engine.py; Event/Rules has one
--   function `*_rule` for each rule class and Event/Readings the functions `_get_*`. The proofs are
--   in Event/Retry, Event/Process and Event/Spacing.
-- - Trip/Score: app/services/trip_scoring.py. Trip/Downsample: the down-sampler of
--   app/services/trip_replay.py, with proofs in Trip/Sampled. Trip/Summary: `calculate_trip_summary`
--   of app/services/trip_analytics.py, its loop as a fold of `stop_step`, `overspeed_step`,
--   `idle_step` and `interval_step`, with proofs in Trip/Stops and Trip/Overspeeds.
-- - Packet: app/schemas/vts.py. Packet/Validator: app/services/packet_validator.py, with the proof
--   in Packet/Accepted. Event/Trigger and Event/Decoder: app/services/event_decoder.py, with
--   `fire` for a call of `trigger_system_event` whose result is not read; the proofs are in
--   Event/Fired and Event/Decoded.
-- - Command: the requests of app/routers/device_command.py, by the names of their handlers, on a
--   state of the database and the messages that are broadcast. The proofs are in Command/Laws.
--
-- - Notification: app/services/notifications; the nine rule classes are the constructors in
--   Notification/Rules, `alert` is the body of the loop of `evaluate_event`. The proofs are in
--   Notification/Laws, Notification/Recent, Notification/Again and Notification/Driver.
-- - WebSocket: app/services/websocket_manager.py by the names of its methods, and `handle_message`
--   for the loop of app/routers/websocket.py. A dictionary of sets is a list of pairs here: the proofs
--   in WebSocket/Broadcast are on lists without repetition, which WebSocket/Laws shows all that are
--   reached to be.
-- - Fleet: app/crud/driver.py in Fleet/Drivers and Fleet/Assignments, app/crud/planned_route.py in
--   Fleet/Routes, by the names of their functions. `assign` is steps 3 to 5 of `create_assignment`
--   and `hand_out` what `assign_route_to_vehicle` does with a route that exists. The proofs are in
--   Fleet/Exclusive, Fleet/Registered, Fleet/Transitions, Fleet/Life and Fleet/Assigned.
-- - Pipeline: app/services/telemetry_pipeline.py, `accept_for` being its steps 4 to 6, with
--   Packet/Dump for `model_dump` of app/schemas/vts.py. Pipeline/Context,
--   Pipeline/Processor and Pipeline/Progress: app/services/packet_processor.py,
--   with `record_packet` for its steps 1 to 4, `advance_trip` for step 5 and `update_route_progress`
--   for step 5.5, in one session that `committed` stores; here the engines meet. The proofs are in Pipeline/Delivery, Pipeline/Outcomes,
--   Pipeline/Resent, Pipeline/Frame, Pipeline/Sound and Pipeline/Stored.
-- - Simulator: app/services/simulator/physics, a file for the profiles, the engine, the motion, the
--   supply of power and fuel, and the drive (gears, revolutions, inputs, running times, codes of
--   events). An `update` method is the function `update_*`, with the draws of the random generator
--   as arguments. The proofs are in Simulator/Stops, Simulator/Limits, Simulator/Speed and
--   Simulator/Updates.
--
-- Conventions. A time is a number of microseconds, and the model compares times as integers where
-- the source compares `total_seconds()` with a whole number of seconds. A query with no order gives
-- the rows in the order of insertion. NaN does not occur. Logging is left out. Loops are structural
-- recursion on lists, so that no fuel is needed.
--
-- Not modelled: `handle_command_execution`, which parses numbers from strings, the
-- positions of simulated vehicles, their communication, and the daily summaries.
--
-- Nor are the other HTTP routers, schemas and start-up (glue over libraries), migrations, reports and
-- exports (formatting), the providers of routes (an external service), the dashboard (TypeScript).
pub mod Common
pub mod Float
pub mod Json
pub mod Models
pub mod Settings
pub mod Geo
pub mod Trip
pub mod Event
pub mod Command
pub mod Packet
pub mod Notification
pub mod WebSocket
pub mod Fleet
pub mod Pipeline
pub mod Simulator

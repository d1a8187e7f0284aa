-- ===== src/Event.antt =====
-- Events raised from telemetry: app/services/event_engine.py and app/services/event_decoder.py.
pub mod Readings
pub mod Result
pub mod Rules
pub mod Engine
pub mod Retry
pub mod Process
pub mod Spacing
pub mod Trigger
pub mod Decoder
pub mod Fired
pub mod Decoded
mod Tests

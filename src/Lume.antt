-- ===== src/Lume.antt =====
-- src/modes/lume_mode.cpp (the receive path and the tick with no pairing window open) and
-- src/transport/quality.cpp. A method takes the state and returns it with the calls that it makes, in
-- order.
pub mod Types
pub mod Quality
pub mod Blank
pub mod FanOut
pub mod Receive
pub mod Ticking
pub mod Runs
pub mod Core
pub mod Edges
pub mod Ring
pub mod Window
pub mod Once
pub mod Relay
pub mod Matching
pub mod Unmarked
pub mod Phases
pub mod Fallback

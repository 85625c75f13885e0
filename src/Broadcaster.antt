-- ===== src/Broadcaster.antt =====
-- src/dal/drivers/espnow_broadcast_driver.cpp (the device build): how a Director's frames get on the
-- air. A method takes the state and returns it with the calls that it makes, in order; one that answers
-- returns its answer too.
pub mod Types
pub mod Air
pub mod Senders
pub mod Ticks
pub mod Startup
pub mod Runs
pub mod Gate
pub mod Steady
pub mod Listening
pub mod Settling
pub mod Copies
pub mod Airtime

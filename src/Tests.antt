-- ===== src/Tests.antt =====
-- Runs of the development on concrete inputs.
mod Data
mod Frames
mod Channel
mod Machines
mod Mapper
mod Repeaters
mod Registers
mod Settings
mod Broadcasts
mod Lumes

-- ===== src/Tests.antt =====
-- Concrete runs of the theorems, on small machines and samples.
mod Machine
mod Controls
mod Frames
mod Records
mod Locks
mod Polls
mod Pulses
mod Heartbeats
mod Sessions
mod Schedules
mod Captures
mod Documents
mod Cleanings

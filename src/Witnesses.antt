-- ===== src/Witnesses.antt =====
-- Runs of the theorems at concrete inputs.
mod Text
mod Pipes
mod Events
mod Locks
mod Checkers
mod Pausing
mod Sizing
mod Buffers
mod Sessions
mod Sleeping
mod Clearing
mod Forwarding

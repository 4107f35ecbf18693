-- ===== src/Examples.antt =====
-- Runs of the program at small inputs, with whole units for a `double`.
mod Scheduling
mod Placing
mod Shapers
mod Admitting
mod Compacting
mod Tracing
mod Serving
mod Rejecting
mod Clearing

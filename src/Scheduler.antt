-- ===== src/Scheduler.antt =====
-- The storage scheduler of NFSEnforcer: src/NFSEnforcer/scheduler.hpp and scheduler.cpp.
-- The mutex makes each public method one step, so a method is a function on the scheduler's state.
pub mod Types
pub mod Tokens
pub mod Choice
pub mod Dispatch
pub mod Methods
pub mod Accounting

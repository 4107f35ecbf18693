-- ===== src/Network/Shapers.antt =====
-- WorkloadCompactor::calcShaperParameters.
pub mod Groups
pub mod Ranks
pub mod Program
pub mod Assign

-- ===== src/Enforcer.antt =====
-- The server around the storage scheduler: src/NFSEnforcer/NFSEnforcer.cpp.
pub mod Procedures
pub mod Jobs
pub mod Service

-- ===== src/Shaping.antt =====
-- NetEnforcer: how src/NetEnforcer/NetEnforcer.cpp drives the kernel's traffic control.
pub mod Handles
pub mod Commands
pub mod Clients

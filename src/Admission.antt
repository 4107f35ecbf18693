-- ===== src/Admission.antt =====
-- The admission controller: src/AdmissionController/AdmissionController.cpp.
pub mod Checks
pub mod Affected
pub mod Overload
pub mod Server
pub mod Kept
pub mod Verdicts
pub mod Ready
pub mod Decided
pub mod Undone
pub mod Rejected
pub mod Queues
pub mod Requests
pub mod Messages

-- ===== src/Placement.antt =====
-- PlacementController: where workloads go, and the queue of servers that its workers try.
pub mod WorkQueue
pub mod Machines
pub mod Place

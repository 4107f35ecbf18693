-- ===== src/Network.antt =====
-- The network calculus library: src/DNC-Library. The tables of flows, clients and queues of class NC,
-- with the data that its derived classes DNC and WorkloadCompactor add.
pub mod Types
pub mod Registry
pub mod Curves
pub mod Latency
pub mod Compactor
pub mod Solver
pub mod Shapers
pub mod Outline
pub mod Sound

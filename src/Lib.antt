-- ===== src/Lib.antt =====
-- WorkloadCompactor: placement, admission control and enforcement of workloads with latency goals on
-- shared storage and networks.
--
-- The parts and how they interact. The placement controller (src/PlacementController) picks a client
-- VM and tries the servers in order, asking admission controllers (src/AdmissionController) whether a
-- workload fits there. These keep a registry of clients, flows and queues and compute worst-case
-- latencies by network calculus (src/DNC-Library). An admitted workload's priority and rate limits go
-- to the enforcers: src/NFSEnforcer schedules storage requests, and src/NetEnforcer configures the
-- kernel's traffic control.
--
-- The files:
-- - Base: numbers, lists, `std::map` as an association list (Base/Table), `int` as an integer,
--   `unsigned int` and `uint64_t` with their wrap-around, and `double` as a record of operations.
-- - Scheduler: class Scheduler of src/NFSEnforcer/scheduler.cpp. Types has Job, Client and the state;
--   Tokens is UpdateTokens and the client's part of RemoveJob; Choice is CompareClient and
--   FindBestClient; Dispatch is ScheduleJob; Methods is the other methods. Choice/Order is about
--   the order of clients, and Accounting about the counters in every interleaving of the methods.
-- - Placement: src/PlacementController/PlacementController.cpp. WorkQueue is nextWork, workComplete
--   and the wait of placeClient, as steps of concurrent workers; Machines is the four requests on
--   VMs; Place is clientServerPlacement, placeClient, removeClient and the loops of the requests over
--   them. WorkQueue/FirstFit, WorkQueue/Progress, Place/Exclusive and Place/Requests have the
--   proofs.
-- - Network: Types and Registry are class NC (src/DNC-Library/NC.cpp), Curves and Latency class DNC
--   (src/DNC-Library/DNC.cpp), and Compactor class WorkloadCompactor, with Shapers for its
--   calcShaperParameters: Groups partitions the clients, Ranks orders their SLOs and paths, Program
--   builds the linear program, and Assign solves it and sets the flows. Solver is Solver.hpp and
--   SolverGLPK.cpp. Registry/Visits is about a flow's entries in its queues, Groups/Reached describes
--   the clients of the groups without the worklist (Claims, Visits, Sweeps, Closed and Deleted have the
--   proofs), Ranks/Ascending and Assign/Priorities are about the priorities, Program/Overflow
--   about the room in the rows, and Compactor/Deleted about a queue that is deleted too early. Outline
--   is what stays of a network while latencies are computed; its children follow a client from addClient
--   to delClient (Registry/Entries and Registry/Counts do so for the queues). Sound is about the tables
--   of a network at all times.
-- - Traces: Estimators is src/Estimator, Reader is src/TraceCommon, and Arrivals the arrival curve of a
--   trace in src/DNC-Library/DNC.cpp. Reader/Whole, Arrivals/Bursts, Arrivals/Pruned and
--   Arrivals/Rising have the proofs.
-- - Enforcer: src/NFSEnforcer/NFSEnforcer.cpp. Procedures is the table of InitJob, Jobs is InitJob, RunJob
--   and the transports, Service the requests of the storage program. Jobs/Replies, Jobs/Pool and Service/Updates
--   have the proofs.
-- - Admission: src/AdmissionController/AdmissionController.cpp. Checks is the checks of a request,
--   Affected is markAffectedFlows, Overload is checkOverload, and Server is checkLatency and the
--   requests. Checks/Unused and Checks/FlowNames are about the names that the checks let through, Kept is
--   about what checkLatency changes, Ready, Queues and Requests about every
--   sequence of requests, and Undone
--   and Rejected about requests that are rejected. Messages is what AddClients and DelClient send to the
--   enforcers, with setFlowParameters of src/DNC-Library/NCConfig.cpp and the arguments that
--   src/prot/net_clnt.cpp and storage_clnt.cpp build; Messages/Received and Messages/Cleared follow them
--   to the network enforcers of Shaping, Messages/Served and Messages/Reset to the storage enforcers of
--   Scheduler.
-- - Shaping: src/NetEnforcer/NetEnforcer.cpp. Handles numbers the disciplines and classes, Commands
--   has the `tc` commands as values, and Clients is updateClient, getOccupancy and the requests.
-- - Examples: runs at small inputs.
--
-- Conventions. `none` stands for an assertion that fails, a null pointer or an exit. Clock readings,
-- the answers of the NFS server and the kernel's counters are arguments. An operation of C++ that
-- reads a member of a JSON document reads a field of a record.
--
-- Fuel. `latency_loop` is given the number of points of both curves, one for each round; `drain`, the
-- inner loop of the groups, one more than the queues that it can visit, and `gather`, the outer loop,
-- one more than the affected queues; `merge_close` one more than the points of the curve; `read_all` one
-- more than the requests that are left. `arrival_curve_at`, `mark_affected_flows` and `descending`, whose
-- number of rounds depends on the arithmetic of `double`, take their fuel from the caller, and answer
-- `none` without enough of it.
--
-- Not modelled: sockets, RPC, XDR and the threads' polling loops, the JSON library, the GLPK library (a
-- parameter), the writing of files, the resolver of addresses (a
-- parameter), the documents that src/DNC-Library/NCConfig.cpp generates, and the messages of
-- the placement controller.
pub mod Base
pub mod Scheduler
pub mod Placement
pub mod Network
pub mod Traces
pub mod Enforcer
pub mod Admission
pub mod Shaping
pub mod Examples

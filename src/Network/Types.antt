-- ===== src/Network/Types.antt =====
-- The data of src/DNC-Library/NC.hpp and DNC.hpp, and what the code reads of a JSON description. The
-- parser is a library: a description is a record of what its accessors return.
use workload_compactor.Base.{ℕ, Bool, Option, List, String}
use workload_compactor.Base.Table.{Table}

pub record PointSlope (W : Type 0) : Type 0 where
  pub x : W
  pub y : W
  pub slope : W

abbrev pub Curve : Type 0 → Type 0
Curve W = List (PointSlope W)

pub record SimpleArrivalCurve (W : Type 0) : Type 0 where
  pub r : W
  pub b : W

-- `R` and `T` of the source.
pub record SimpleServiceCurve (W : Type 0) : Type 0 where
  pub service_rate : W
  pub delay : W

-- A flow with its `DNCFlow` part.
pub record Flow (W : Type 0) : Type 0 where
  pub flow_id : ℕ
  pub name : String
  pub client_id : ℕ
  pub queue_ids : List ℕ
  pub priority : ℕ
  pub latency : W
  pub ignore_latency : Bool
  pub arrival_curve : Curve W
  pub shaper_curve : SimpleArrivalCurve W

pub record Client (W : Type 0) : Type 0 where
  pub client_id : ℕ
  pub name : String
  pub flow_ids : List ℕ
  pub slo : W
  pub slo_percentile : W
  pub latency : W
  pub ignore_latency : Bool

pub record FlowIndex : Type 0 where
  pub flow_id : ℕ
  pub index : ℕ

pub record Queue (W : Type 0) : Type 0 where
  pub queue_id : ℕ
  pub name : String
  pub flows : List FlowIndex
  pub bandwidth : W

-- The tables of NC, and the affected queues of WorkloadCompactor, a set.
pub record Network (W : Type 0) : Type 0 where
  pub flow_ids : Table String ℕ
  pub client_ids : Table String ℕ
  pub queue_ids : Table String ℕ
  pub flows : Table ℕ (Flow W)
  pub clients : Table ℕ (Client W)
  pub queues : Table ℕ (Queue W)
  pub next_flow_id : ℕ
  pub next_client_id : ℕ
  pub next_queue_id : ℕ
  pub affected_queue_ids : Table ℕ (Unit {0})

-- A member that should be an array: `isMember` and `isArray`.
pub data Member (A : Type 0) : Type 0 where
  absent : Member A
  other : Member A
  array : List A → Member A

-- What a flow's description says of its enforcer, and its rate limits, pairs of a rate and a burst.
pub record Enforcing (W : Type 0) : Type 0 where
  pub enforcer_type : Option String
  pub enforcer_addr : Option String
  pub dst_addr : Option String
  pub src_addr : Option String
  pub client_addr : Option String
  pub rate_limiters : List (W × W)

pub record FlowInfo (W : Type 0) : Type 0 where
  pub name : Option String
  pub queues : Member String
  pub priority : Option ℕ
  pub arrival_info : Option (Curve W)
  pub enforcing : Enforcing W

pub record ClientInfo (W : Type 0) : Type 0 where
  pub name : Option String
  pub slo : Option W
  pub slo_percentile : Option W
  pub closed_loop : Option Bool
  pub best_effort : Option Bool
  pub admitted : Option Bool
  pub flows : Member (FlowInfo W)

pub record QueueInfo (W : Type 0) : Type 0 where
  pub name : Option String
  pub bandwidth : Option W

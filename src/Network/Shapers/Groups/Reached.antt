-- ===== src/Network/Shapers/Groups/Reached.antt =====
-- The clients whose shapers calcShaperParameters has to set, without the code's worklist: those that
-- share a queue with a client that is reached already.
use workload_compactor.Base.{ℕ, ◌≡◌, some, nat_key, Elem}
use workload_compactor.Base.Table.{lookup}
use workload_compactor.Network.Types.{Flow, Client, FlowIndex, Queue, Network}

module _ {W : Type 0} (s : Network W) where
  -- The queue is there.
  abbrev pub Known : ℕ → Type 0
  Known q = (queue : Queue W) × (lookup q s.queues ≡ some queue)

  -- The flow at a queue's index belongs to a client.
  abbrev pub Owned : FlowIndex → Client W → Type 0
  Owned fi c =
      (f : Flow W) × (lookup fi.flow_id s.flows ≡ some f) × (lookup f.client_id s.clients ≡ some c)

  -- A flow of the client passes through the queue.
  abbrev pub Serves : ℕ → Client W → Type 0
  Serves q c =
      (queue : Queue W) × (fi : FlowIndex) × (lookup q s.queues ≡ some queue)
      × Elem fi queue.flows
      × Owned fi c

  -- A flow of the client is routed through the queue.
  abbrev pub Uses : Client W → ℕ → Type 0
  Uses c r =
      (i : ℕ) × (f : Flow W) × Elem i c.flow_ids × (lookup i s.flows ≡ some f) × Elem r f.queue_ids

  -- The queues at which something changes: the affected ones, and with a queue all that its clients use.
  pub data Stirred : ℕ → Type 0 where
    affected : (q : ℕ) → lookup q s.affected_queue_ids ≡ some tt → Stirred q
    shared :
        (q : ℕ) (c : Client W) (r : ℕ) → Stirred q → Serves q c → Uses c r → Known r → Stirred r

  abbrev pub Reached : ℕ → Type 0
  Reached i = (q : ℕ) × (c : Client W) × Stirred q × Serves q c × (c.client_id ≡ i)

  -- What the pointers of NC rely on: ids in the tables of queues, flows and clients are found.
  pub record IsLinked : Type 0 where
    pub queues_found : (q : ℕ) → lookup q s.affected_queue_ids ≡ some tt → Known q
    pub clients_found :
        (q : ℕ) (queue : Queue W) (fi : FlowIndex)
        → lookup q s.queues ≡ some queue
        → Elem fi queue.flows
        → (c : Client W) × Owned fi c
    pub flows_found :
        (j : ℕ) (c : Client W) (i : ℕ)
        → lookup j s.clients ≡ some c
        → Elem i c.flow_ids
        → (f : Flow W) × (lookup i s.flows ≡ some f)

-- ===== src/Network/Registry.antt =====
-- Class NC: adding and deleting clients, flows and queues. `none` is a null pointer dereference or a
-- failed assertion.
use workload_compactor.Base.{
  ◌>>=◌, value_or, Bool, ◌≡◌, refl, ℕ, ◌+◌, false, ◌||◌, if◌then◌else◌, List, [], ◌∷◌, ◌++◌, map,
  Option, none, some, String, ◌==◌, Double, nat_key, string_key, is_empty, ◌%◌, ◌^◌,
}
use workload_compactor.Base.Table.{Table, lookup, insert, erase, adjust}
use workload_compactor.Network.Types.{
  PointSlope, SimpleArrivalCurve, Flow, Client, FlowIndex, Queue, Network, Member, absent, other,
  array, FlowInfo, ClientInfo, QueueInfo,
}
pub mod Visits
pub mod Entries
pub mod Counts

-- `unsigned int`.
abbrev pub next_id : ℕ → ℕ
next_id n = (n + 1) % 2 ^ 32

-- The accessors' values for a member that is missing.
abbrev pub text_of : Option String → String
text_of none = ""
text_of (some s) = s

abbrev pub elements : {A : Type 0} → Member A → List A
elements absent = []
elements other = []
elements (array xs) = xs

-- getQueueIdByName and its companions: the invalid id, 0, for an unknown name.
unfoldable pub id_by_name : String → Table String ℕ → ℕ
id_by_name name ids = value_or 0 (lookup name ids)

-- The erasure of the first entry of a flow.
unfoldable pub drop_first : ℕ → List FlowIndex → List FlowIndex
drop_first flow_id [] = []
drop_first flow_id (fi ∷ fis) = if fi.flow_id == flow_id then fis else fi ∷ drop_first flow_id fis

module _ {W : Type 0} where
  unfoldable pub push_flow : ℕ → ℕ → Queue W → Queue W
  push_flow flow_id index q = record q {
    flows = q.flows ++ (record { flow_id = flow_id; index = index } ∷ []);
  }

  unfoldable pub drop_flow : ℕ → Queue W → Queue W
  unfolding drop_first
  drop_flow flow_id q = record q { flows = drop_first flow_id q.flows }

  -- The loop of `initFlow` over the names of a flow's queues.
  unfoldable pub enter_queues :
      Table String ℕ → ℕ → ℕ → List String → Table ℕ (Queue W) → Option (Table ℕ (Queue W))
  enter_queues ids flow_id index [] qs = some qs
  enter_queues ids flow_id index (n ∷ ns) qs =
      let rest =
        enter_queues ids flow_id (index + 1) ns
          (adjust (id_by_name n ids) (push_flow flow_id index) qs) in
      elim (lookup (id_by_name n ids) qs) [ none ↦ none | some q ↦ rest ]

  -- The loop of `delClient` over a flow's queues.
  unfoldable pub leave_queues : ℕ → List ℕ → Table ℕ (Queue W) → Option (Table ℕ (Queue W))
  leave_queues flow_id [] qs = some qs
  leave_queues flow_id (i ∷ is) qs =
      let rest = leave_queues flow_id is (adjust i (drop_flow flow_id) qs) in
      elim (lookup i qs) [ none ↦ none | some q ↦ rest ]

  unfoldable pub push_flow_id : ℕ → Client W → Client W
  push_flow_id flow_id c = record c { flow_ids = c.flow_ids ++ (flow_id ∷ []) }

  -- `delClient`, for one flow of the client.
  unfoldable pub del_flow : ℕ → Network W → Option (Network W)
  unfolding leave_queues
  del_flow flow_id s = do
    f ← lookup flow_id s.flows
    qs ← leave_queues flow_id f.queue_ids s.queues
    some (record s {
      queues = qs;
      flow_ids = erase f.name s.flow_ids;
      flows = erase flow_id s.flows;
    })

  unfoldable pub del_flows : List ℕ → Network W → Option (Network W)
  del_flows [] s = some s
  del_flows (f ∷ fs) s = let rest = del_flows fs in del_flow f s >>= rest

  -- NC::delClient.
  unfoldable pub del_client : ℕ → Network W → Option (Network W)
  unfolding del_flows
  del_client client_id s = do
    c ← lookup client_id s.clients
    t ← del_flows c.flow_ids s
    some (record t { client_ids = erase c.name t.client_ids; clients = erase client_id t.clients })

  -- NC::delQueue, with its assertion that no flow uses the queue.
  unfoldable pub del_queue : ℕ → Network W → Option (Network W)
  del_queue queue_id s = do
    q ← lookup queue_id s.queues
    if is_empty q.flows
        then some
            (record s { queue_ids = erase q.name s.queue_ids; queues = erase queue_id s.queues })
        else none

  unfoldable pub set_flow_priority : ℕ → ℕ → Network W → Option (Network W)
  set_flow_priority flow_id priority s = do
    f ← lookup flow_id s.flows
    some (record s { flows = adjust flow_id (λ g. record g { priority = priority }) s.flows })

module _ {W : Type 0} ⦃d : Double W⦄ where
  -- NC::NC.
  unfoldable pub new_network : Network W
  new_network = record {
    flow_ids = [];
    client_ids = [];
    queue_ids = [];
    flows = [];
    clients = [];
    queues = [];
    next_flow_id = 1;
    next_client_id = 1;
    next_queue_id = 1;
    affected_queue_ids = [];
  }

  unfoldable pub zero_arrival_curve : SimpleArrivalCurve W
  zero_arrival_curve = record { r = d.nought; b = d.nought }

  abbrev pub initial_point : PointSlope W
  initial_point = record { x = d.nought; y = d.nought; slope = d.infinity }

  -- The flow that NC::initFlow and DNC::initFlow fill in.
  unfoldable pub flow_of : Table String ℕ → FlowInfo W → ℕ → Client W → Flow W
  unfolding zero_arrival_curve id_by_name
  flow_of ids info flow_id c = record {
    flow_id = flow_id;
    name = text_of info.name;
    client_id = c.client_id;
    queue_ids = map (λ n. id_by_name n ids) (elements info.queues);
    priority = value_or 1 info.priority;
    latency = d.nought;
    ignore_latency = c.ignore_latency;
    arrival_curve = initial_point ∷ value_or [] info.arrival_info;
    shaper_curve = zero_arrival_curve;
  }

  unfoldable pub init_flow : FlowInfo W → ℕ → Network W → Option (Network W)
  unfolding flow_of enter_queues push_flow_id
  init_flow info client_id s = do
    c ← lookup client_id s.clients
    qs ← enter_queues s.queue_ids s.next_flow_id 0 (elements info.queues) s.queues
    some (record s {
      next_flow_id = next_id s.next_flow_id;
      flows = insert s.next_flow_id (flow_of s.queue_ids info s.next_flow_id c) s.flows;
      flow_ids = insert (text_of info.name) s.next_flow_id s.flow_ids;
      clients = adjust client_id (push_flow_id s.next_flow_id) s.clients;
      queues = qs;
    })

  unfoldable pub init_flows : List (FlowInfo W) → ℕ → Network W → Option (Network W)
  init_flows [] client_id s = some s
  init_flows (i ∷ is) client_id s =
      let rest = init_flows is client_id in init_flow i client_id s >>= rest

  -- The percentile 99.9 that stands for a missing one is a constant of the arithmetic.
  unfoldable pub client_of : W → ClientInfo W → ℕ → Client W
  client_of default_percentile info client_id = record {
    client_id = client_id;
    name = text_of info.name;
    flow_ids = [];
    slo = value_or d.nought info.slo;
    slo_percentile = value_or default_percentile info.slo_percentile;
    latency = d.nought;
    ignore_latency = value_or false info.closed_loop || value_or false info.best_effort;
  }

  unfoldable pub init_client : W → ClientInfo W → Network W → Network W
  unfolding client_of
  init_client default_percentile info s = record s {
    next_client_id = next_id s.next_client_id;
    clients =
        insert s.next_client_id (client_of default_percentile info s.next_client_id) s.clients;
    client_ids = insert (text_of info.name) s.next_client_id s.client_ids;
  }

  -- NC::addClient: the new client's id and the network.
  unfoldable pub add_client : W → ClientInfo W → Network W → Option (ℕ × Network W)
  unfolding init_flows init_client
  add_client default_percentile info s = do
    t ← init_flows (elements info.flows) s.next_client_id (init_client default_percentile info s)
    some (s.next_client_id, t)

  -- NC::addQueue.
  unfoldable pub add_queue : QueueInfo W → Network W → ℕ × Network W
  add_queue info s = (
    s.next_queue_id,
    record s {
      next_queue_id = next_id s.next_queue_id;
      queues =
          insert s.next_queue_id
            (record {
              queue_id = s.next_queue_id;
              name = text_of info.name;
              flows = [];
              bandwidth = value_or d.nought info.bandwidth;
            })
            s.queues;
      queue_ids = insert (text_of info.name) s.next_queue_id s.queue_ids;
    },
  )

-- ===== src/Examples/Clearing.antt =====
-- A client with two flows, one of them limited by a network and one by a storage enforcer, is removed.
use workload_compactor.Base.{
  pos, ℕ, ◌≡◌, refl, List, [], ◌∷◌, none, some, false, String, units, All, nat_key, string_key,
  if◌then◌else◌,
}
use workload_compactor.Base.Table.{lookup}
use workload_compactor.Network.Types.{Flow, array, FlowInfo, ClientInfo}
use workload_compactor.Network.Registry.{id_by_name}
use workload_compactor.Shaping.Clients.{addr_key, Enforcer}
use workload_compactor.Admission.Server.{Controller}
use workload_compactor.Admission.Messages.{
  Message, update_net, update_storage, update_nfs_enforcer_client, storage_addresses,
  storage_client, set_flow_parameters, net_addresses, client_update, update_net_enforcer_client,
  update_flow, update_flows, del_client_messages,
}
use workload_compactor.Scheduler.Types.{Scheduler}
use workload_compactor.Scheduler.Methods.{new_scheduler}
use workload_compactor.Admission.Messages.Served.{serve_storage, IsReset}
use workload_compactor.Admission.Messages.Reset.{del_client_messages-IsReset}
use workload_compactor.Admission.Messages.Received.{IsCleared}
use workload_compactor.Admission.Messages.Cleared.{serve, del_client_messages-IsCleared}

abbrev limited_flow : FlowInfo ℕ
limited_flow = record {
  name = some "f";
  queues = array ("disk" ∷ []);
  priority = none;
  arrival_info = none;
  enforcing = record {
    enforcer_type = some "network";
    enforcer_addr = some "host";
    dst_addr = some "there";
    src_addr = some "here";
    client_addr = none;
    rate_limiters = [];
  };
}

abbrev stored_flow : FlowInfo ℕ
stored_flow = record limited_flow {
  enforcing = record limited_flow.enforcing {
    enforcer_type = some "storage";
    enforcer_addr = some "disk";
    client_addr = some "here";
  };
}

abbrev limited : ClientInfo ℕ
limited = record {
  name = some "c";
  slo = some 1;
  slo_percentile = none;
  closed_loop = none;
  best_effort = none;
  admitted = none;
  flows = array (limited_flow ∷ stored_flow ∷ []);
}

abbrev shaped : Flow ℕ
shaped = record {
  flow_id = 1;
  name = "f";
  client_id = 1;
  queue_ids = 1 ∷ [];
  priority = 3;
  latency = 0;
  ignore_latency = false;
  arrival_curve = [];
  shaper_curve = record { r = 20; b = 5 };
}

abbrev controller : Controller ℕ
controller = record {
  network = record {
    flow_ids = ("f", 1) ∷ [];
    client_ids = ("c", 1) ∷ [];
    queue_ids = [];
    flows = (1, shaped) ∷ [];
    clients = [];
    queues = [];
    next_flow_id = 2;
    next_client_id = 2;
    next_queue_id = 1;
    affected_queue_ids = [];
  };
  store = (1, limited) ∷ [];
}

abbrev resolve : String → ℕ
resolve a = if string_key.beq a "there" then 1 else 2

abbrev updates : List (Message ℕ)
updates =
    update_net "host" (record { client = (1, 2); priority = 3; rate_limits = (20, 5) ∷ [] })
    ∷ update_storage "disk" (record {
      s_addr = 2;
      priority = 3;
      rate_limit_rates = 20 ∷ [];
      rate_limit_bursts = 5 ∷ [];
    })
    ∷ []

-- The enforcer has the client already.
abbrev enforcers : String → Enforcer ℕ
enforcers h = record {
  clients =
      (
        (1, 2),
        record {
          id = 0;
          priority = 3;
          rate_limit_length = 1;
          rate = 20;
          last_sent_bytes_time = 5;
          max_sent_bytes = 0;
          prev_sent_bytes = 0;
          sent_bytes = 0;
        },
      )
      ∷ [];
  next_id = 1;
}

abbrev nothing_sent : ℕ → ℕ → ℕ
nothing_sent handle minor = 0

sent : update_flows resolve controller.network (limited_flow ∷ stored_flow ∷ []) ≡ some updates
unfolding update_flows update_flow update_net_enforcer_client set_flow_parameters net_addresses
    client_update update_nfs_enforcer_client storage_addresses storage_client lookup id_by_name
sent = refl

del_client_messages-IsCleared_example :
    (removals : List (Message ℕ)) × (del_client_messages resolve "c" controller ≡ some removals)
    × All
        (IsCleared (λ h. serve 7 1000 (λ n. n) (λ n. n) nothing_sent h removals (enforcers h)))
        updates
unfolding lookup id_by_name
del_client_messages-IsCleared_example =
    del_client_messages-IsCleared 7 1000 (λ n. n) (λ n. n) nothing_sent resolve "c" controller
      limited controller.network updates refl refl sent enforcers (λ h. (refl, tt))

abbrev schedulers : String → Scheduler ℕ
schedulers h = new_scheduler (1 ∷ []) (pos 9) (pos 9) (pos 2) (pos 2)

del_client_messages-IsReset_example :
    (removals : List (Message ℕ)) × (del_client_messages resolve "c" controller ≡ some removals)
    × (after : String → Scheduler ℕ) × ((h : String)
        → serve_storage 5 h removals (schedulers h) ≡ some (after h))
    × All (IsReset after) updates
unfolding lookup id_by_name
del_client_messages-IsReset_example =
    del_client_messages-IsReset 5 resolve "c" controller limited controller.network updates refl
      refl sent schedulers

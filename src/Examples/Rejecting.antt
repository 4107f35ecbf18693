-- ===== src/Examples/Rejecting.antt =====
-- A request that the admission controller rejects: its flow bursts ten units at a disk that serves one
-- unit at a time, within a limit of one.
use workload_compactor.Base.{
  ℕ, ◌≡◌, refl, [], ◌∷◌, none, some, true, false, units, nat_key, string_key, arith,
}
use workload_compactor.Network.Types.{
  Network, Flow, Client, Queue, array, FlowInfo, ClientInfo, QueueInfo,
}
use workload_compactor.Network.Solver.{Glpk}
use workload_compactor.Network.Registry.{
  new_network, add_queue, initial_point, zero_arrival_curve, id_by_name, push_flow, drop_flow,
  del_flow, del_client, set_flow_priority, init_flow, add_client,
}
use workload_compactor.Network.Compactor.{
  mark_client, add_workload, del_workload, workload_flow_latency, calc_client_latency,
}
use workload_compactor.Network.Latency.{flow_at, queue_at, calc_flow_latency}
use workload_compactor.Network.Curves.{
  constant_service_curve, aggregate_arrival_curve, dnc_latency_bound, latency_at_arrival,
  latency_at_service, larger, calc_shaper_latency,
}
use workload_compactor.Network.Shapers.Groups.{
  claim_queue, claim_queues, join_group, pop_pending, ids_of, first_sweep, claim_flows, visit_flows,
  drain_next, drain, gather, client_groups,
}
use workload_compactor.Network.Shapers.Ranks.{
  insert_slo, rank_from, rank, scaled_slo, collect_slos, front, add_stage, add_path, add_stages,
  client_path, collect_paths,
}
use workload_compactor.Network.Shapers.Program.{
  place_on, append_at, append_all, empty_rows, empty_level, add_to_path, add_to_paths,
  add_to_levels, add_segments, add_arrival_curve, add_flow, add_flows, add_clients, new_build,
}
use workload_compactor.Network.Shapers.Assign.{
  set_shaper, solved_curve, assign_flows, assign_clients, conclude_group, optimise_group,
  optimise_groups, calc_shaper_parameters,
}
use workload_compactor.Network.Solver.{new_problem, init, append, add_variable, values_of, solve}
use workload_compactor.Admission.Server.{
  Controller, add_all, all_admitted, check_latency, decide, add_queue_svc, add_clients_svc,
}
use workload_compactor.Admission.Checks.{
  success, check_flow_info, check_client_info, check_client_infos,
}
use workload_compactor.Base.Table.{lookup, place, insert, erase, adjust}
use workload_compactor.Network.Outline.{outline, plain_flow, plain_client}
use workload_compactor.Base.Table.Without.{map_values}
use workload_compactor.Network.Registry.Entries.{entries}
use workload_compactor.Network.Outline.Restored.{IsRestored, del_workload-add_workload}
use workload_compactor.Admission.Kept.{check_latency-outline}
use workload_compactor.Network.Sound.{IsSound}
use workload_compactor.Network.Sound.Queues.{HasQueues}
use workload_compactor.Admission.Ready.{IsReady, new_controller}
use workload_compactor.Admission.Requests.{Reach-IsReady, next, here, adds_queue, adds_clients}
use workload_compactor.Admission.Rejected.{
  IsUndone, Rejects, decide-Rejects, add_clients_svc-rejected,
}

abbrev solves : Glpk ℕ
solves = record {
  is_finite = λ x. true;
  interior = λ p. record { returned = true; optimal = true; values = λ v. v };
  simplex = λ p. record { returned = false; optimal = false; values = λ v. v };
  exact = λ p. record { returned = false; optimal = false; values = λ v. v };
}

abbrev disk : Queue ℕ
disk = record { queue_id = 1; name = "disk"; flows = []; bandwidth = 1 }

abbrev idle : Controller ℕ
idle = record {
  network = record {
    flow_ids = [];
    client_ids = [];
    queue_ids = ("disk", 1) ∷ [];
    flows = [];
    clients = [];
    queues = (1, disk) ∷ [];
    next_flow_id = 1;
    next_client_id = 1;
    next_queue_id = 2;
    affected_queue_ids = [];
  };
  store = [];
}

abbrev bursty : FlowInfo ℕ
bursty = record {
  name = some "f";
  queues = array ("disk" ∷ []);
  priority = none;
  arrival_info = some (record { x = 0; y = 10; slope = 0 } ∷ []);
  enforcing = record {
    enforcer_type = none;
    enforcer_addr = none;
    dst_addr = none;
    src_addr = none;
    client_addr = none;
    rate_limiters = [];
  };
}

abbrev hasty : ClientInfo ℕ
hasty = record {
  name = some "c";
  slo = some 1;
  slo_percentile = none;
  closed_loop = none;
  best_effort = none;
  admitted = none;
  flows = array (bursty ∷ []);
}

abbrev tried : Controller ℕ
tried = record {
  network = record idle.network {
    next_flow_id = 2;
    next_client_id = 2;
    affected_queue_ids = (1, tt) ∷ [];
  };
  store = [];
}

-- The client and its flow are added; the flow is then given a shaper curve and a latency.
abbrev added_flow : Flow ℕ
added_flow = record {
  flow_id = 1;
  name = "f";
  client_id = 1;
  queue_ids = 1 ∷ [];
  priority = 1;
  latency = 0;
  ignore_latency = false;
  arrival_curve = initial_point ∷ record { x = 0; y = 10; slope = 0 } ∷ [];
  shaper_curve = record { r = 0; b = 0 };
}

abbrev added_client : Client ℕ
added_client = record {
  client_id = 1;
  name = "c";
  flow_ids = 1 ∷ [];
  slo = 1;
  slo_percentile = 99;
  latency = 0;
  ignore_latency = false;
}

abbrev busy : Controller ℕ
busy = record {
  network = record tried.network {
    flow_ids = ("f", 1) ∷ [];
    client_ids = ("c", 1) ∷ [];
    flows = (1, added_flow) ∷ [];
    clients = (1, added_client) ∷ [];
    queues = (1, record disk { flows = record { flow_id = 1; index = 0 } ∷ [] }) ∷ [];
  };
  store = (1, hasty) ∷ [];
}

abbrev measured : Network ℕ
measured = record busy.network {
  flows =
      (1, record added_flow { priority = 0; latency = 10; shaper_curve = record { r = 1; b = 2 } })
      ∷ [];
  clients = (1, record added_client { latency = 10 }) ∷ [];
  affected_queue_ids = [];
}

runs :
    (add_workload 99 hasty idle.network ≡ some (1, busy.network))
    × (add_all solves 1 99 100 1 5 (hasty ∷ []) idle ≡ some (1 ∷ [], busy))
    × (check_latency solves 1 99 100 1 5 (1 ∷ []) busy.network ≡ some (false, measured))
    × (add_clients_svc solves 1 99 100 1 5 (some (array (hasty ∷ []))) false idle
        ≡ some (record { status = success; admitted = false }, tried))
unfolding push_flow drop_flow del_flow del_client set_flow_priority init_flow add_client mark_client
    add_workload del_workload workload_flow_latency calc_client_latency flow_at queue_at
    calc_flow_latency constant_service_curve aggregate_arrival_curve dnc_latency_bound
    latency_at_arrival latency_at_service larger calc_shaper_latency claim_queue claim_queues
    join_group pop_pending ids_of first_sweep claim_flows visit_flows drain_next drain gather
    client_groups insert_slo rank_from rank scaled_slo collect_slos front add_stage add_path
    add_stages client_path collect_paths place_on append_at append_all empty_rows empty_level
    add_to_path add_to_paths add_to_levels add_segments add_arrival_curve add_flow add_flows
    add_clients new_build set_shaper solved_curve assign_flows assign_clients conclude_group
    optimise_group optimise_groups calc_shaper_parameters new_problem init append add_variable
    values_of solve add_clients_svc check_flow_info check_client_info check_client_infos lookup
    place insert erase adjust all_admitted
runs = (refl, refl, refl, refl)

passes : check_client_infos 100 idle.network (array (hasty ∷ [])) ≡ success
unfolding check_client_infos check_client_info check_flow_info lookup id_by_name
passes = refl

idle-IsSound : IsSound idle.network
unfolding lookup entries
idle-IsSound = record {
  numbered = record {
    flows = λ k h. refl;
    clients = λ k h. refl;
    entries = λ k h. (omega arith, tt);
  };
  flows_distinct = tt;
  clients_distinct = tt;
  queues_distinct = (refl, tt);
  flow_names_distinct = tt;
  client_names_distinct = tt;
  flows_named = tt;
  clients_named = tt;
  flow_id_valid = omega arith;
  client_id_valid = omega arith;
}

idle-IsReady : IsReady idle
unfolding lookup
idle-IsReady = record { sound = idle-IsSound; stored = λ k h. refl; store_distinct = tt }

add_clients_svc-rejected_example : IsUndone idle tried
add_clients_svc-rejected_example =
    add_clients_svc-rejected solves 1 99 100 1 5 (some (array (hasty ∷ []))) false idle tried
      (record { status = success; admitted = false }) idle-IsReady (omega arith, omega arith) runs.3
      refl

decide-Rejects_example :
    Rejects solves 1 99 100 1 5 idle (decide solves 1 99 100 1 5 (hasty ∷ []) idle)
unfolding all_admitted
decide-Rejects_example =
    decide-Rejects solves 1 99 100 1 5 idle idle-IsReady (array (hasty ∷ [])) passes
      (omega arith, omega arith) (1 ∷ []) busy measured runs.1 refl runs.2

del_workload-add_workload_example :
    (u : Network ℕ) × (del_workload 1 measured ≡ some u) × IsRestored idle.network u
unfolding outline map_values plain_flow plain_client lookup zero_arrival_curve
del_workload-add_workload_example =
    del_workload-add_workload 99 hasty idle.network busy.network measured 1 idle-IsSound refl
      (refl, tt, tt) (omega arith) (omega arith) runs.0 refl

check_latency-outline_example : outline measured ≡ outline busy.network
check_latency-outline_example =
    check_latency-outline solves 1 99 100 1 5 (1 ∷ []) busy.network (false, measured) runs.2

abbrev disk_info : QueueInfo ℕ
disk_info = record { name = some "disk"; bandwidth = some 1 }

-- The disk is added first, and then the request is rejected.
Reach-IsReady_example : IsReady tried × HasQueues tried.network
unfolding new_network add_queue_svc add_queue lookup insert place id_by_name
Reach-IsReady_example = Reach-IsReady solves 1 99 100 1 5 (
    next (next here (adds_queue (some disk_info) (new_controller new_network) (omega arith))) (
      adds_clients (some (array (hasty ∷ []))) false idle tried
        (record { status = success; admitted = false }) runs.3 (omega arith, omega arith)))

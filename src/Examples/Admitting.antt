-- ===== src/Examples/Admitting.antt =====
-- The registry of src/DNC-Library/NC.cpp and the checks of
-- src/AdmissionController/AdmissionController.cpp, on one queue and one client.
use workload_compactor.Base.{
  ℕ, ◌≡◌, refl, List, [], ◌∷◌, map, none, some, String, units, nat_key, string_key,
}
use workload_compactor.Base.Table.{Table, lookup, adjust}
use workload_compactor.Network.Types.{Queue, array, ClientInfo}
use workload_compactor.Network.Registry.{
  id_by_name, push_flow, leave_queues, enter_queues, new_network,
}
use workload_compactor.Network.Registry.Visits.{visits, IsAbsent, leave_queues-enter_queues}
use workload_compactor.Admission.Checks.{check_client_infos, check_client_info}
use workload_compactor.Admission.Checks.Unused.{HasUnused, check_client_infos-HasUnused}

abbrev disk : Queue ℕ
disk = record { queue_id = 1; name = "disk"; flows = []; bandwidth = 100 }

abbrev ids : Table String ℕ
ids = ("disk", 1) ∷ []

-- The flow visits the queue twice.
abbrev entered : Table ℕ (Queue ℕ)
entered = (1, push_flow 9 1 (push_flow 9 0 disk)) ∷ []

leave_queues-enter_queues_example :
    leave_queues 9 (map (λ n. id_by_name n ids) ("disk" ∷ "disk" ∷ [])) entered
    ≡ some ((1, disk) ∷ [])
unfolding IsAbsent visits enter_queues lookup adjust id_by_name
leave_queues-enter_queues_example =
    leave_queues-enter_queues ids 9 0 ("disk" ∷ "disk" ∷ []) ((1, disk) ∷ []) entered (refl, tt)
      refl

abbrev one_client : ClientInfo ℕ
one_client = record {
  name = some "c";
  slo = some 5;
  slo_percentile = none;
  closed_loop = none;
  best_effort = none;
  admitted = none;
  flows = array [];
}

check_client_infos-HasUnused_example :
    (names : List String) × HasUnused new_network [] (one_client ∷ []) names
unfolding check_client_infos check_client_info id_by_name lookup new_network
check_client_infos-HasUnused_example =
    check_client_infos-HasUnused 100 new_network (one_client ∷ []) refl

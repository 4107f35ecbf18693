-- ===== src/Placement/Machines.antt =====
-- The machines of PlacementController: the globals of src/PlacementController/PlacementController.cpp,
-- and the requests that add and delete VMs. The messages to the admission controllers about queues
-- are left out: no later decision of the controller reads an answer to them.
use workload_compactor.Base.{
  Bool, true, false, ◌&&◌, ◌||◌, not, if◌then◌else◌, List, [], ◌∷◌, none, some, String, string_key,
  is_empty,
}
use workload_compactor.Base.Table.{Table, lookup, insert, erase}

-- `set<string>`.
abbrev pub Vms : Type 0
Vms = Table String (Unit {0})

pub record WorkloadInfo : Type 0 where
  pub name : String
  pub client_host : String
  pub client_vm : String
  pub server_host : String
  pub server_vm : String

pub record Machines : Type 0 where
  pub servers : Table String Vms
  pub clients : Table String Vms
  pub server_client_grouping : Table String String
  pub workloads : List WorkloadInfo

-- The statuses of PlacementController_prot.x.
pub data Status : Type 0 where
  success : Status
  missing_argument : Status
  invalid_argument : Status
  client_vm_already_exists : Status
  server_vm_already_exists : Status
  client_vm_nonexistent : Status
  server_vm_nonexistent : Status
  server_vm_in_use : Status

abbrev pub str_eq : String → String → Bool
str_eq a b = string_key.beq a b

-- `set<string>::find`.
abbrev pub has_vm : String → Vms → Bool
has_vm vm vms = elim (lookup vm vms) [ none ↦ false | some u ↦ true ]

-- `m[host]`: the empty set where the host is missing.
abbrev pub vms_at : String → Table String Vms → Vms
vms_at host m = elim (lookup host m) [ none ↦ [] | some vms ↦ vms ]

-- The loops over `g_workloads`.
unfoldable pub client_vm_in_use : String → String → List WorkloadInfo → Bool
client_vm_in_use host vm [] = false
client_vm_in_use host vm (w ∷ ws) =
    str_eq w.client_host host && str_eq w.client_vm vm || client_vm_in_use host vm ws

unfoldable pub client_host_in_use : String → List WorkloadInfo → Bool
client_host_in_use host [] = false
client_host_in_use host (w ∷ ws) = str_eq w.client_host host || client_host_in_use host ws

unfoldable pub server_vm_in_use_by : String → String → List WorkloadInfo → Bool
server_vm_in_use_by host vm [] = false
server_vm_in_use_by host vm (w ∷ ws) =
    str_eq w.server_host host && str_eq w.server_vm vm || server_vm_in_use_by host vm ws

-- AddClientVM RPC.
unfoldable pub add_client_vm_svc : String → String → Machines → Status × Machines
unfolding client_vm_in_use
add_client_vm_svc host vm s =
    let vms : Vms = vms_at host s.clients in
    if has_vm vm vms
    then (client_vm_already_exists, record s { clients = insert host vms s.clients })
    else if client_vm_in_use host vm s.workloads
    then (client_vm_already_exists, record s { clients = insert host vms s.clients })
    else (success, record s { clients = insert host (insert vm tt vms) s.clients })

-- DelClientVM RPC.
unfoldable pub del_client_vm_svc : String → String → Machines → Status × Machines
unfolding client_host_in_use
del_client_vm_svc host vm s = elim (lookup host s.clients) [
  | none ↦ (client_vm_nonexistent, s)
  | some vms ↦
      if has_vm vm vms
      then (
        success,
        record s {
          clients =
              if is_empty (erase vm vms) && not (client_host_in_use host s.workloads)
              then erase host s.clients
              else insert host (erase vm vms) s.clients;
        },
      )
      else (client_vm_nonexistent, s)
]

-- AddServerVM RPC.
unfoldable pub add_server_vm_svc : String → String → Machines → Status × Machines
add_server_vm_svc host vm s =
    let vms : Vms = vms_at host s.servers in
    if has_vm vm vms
    then (server_vm_already_exists, record s { servers = insert host vms s.servers })
    else (success, record s { servers = insert host (insert vm tt vms) s.servers })

-- DelServerVM RPC.
unfoldable pub del_server_vm_svc : String → String → Machines → Status × Machines
unfolding server_vm_in_use_by
del_server_vm_svc host vm s = elim (lookup host s.servers) [
  | none ↦ (server_vm_nonexistent, s)
  | some vms ↦
      if has_vm vm vms
      then if server_vm_in_use_by host vm s.workloads then (server_vm_in_use, s) else (
        success,
        record s {
          servers =
              if is_empty (erase vm vms)
              then erase host s.servers
              else insert host (erase vm vms) s.servers;
        },
      )
      else (server_vm_nonexistent, s)
]

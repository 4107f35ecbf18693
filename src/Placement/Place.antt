-- ===== src/Placement/Place.antt =====
-- Placing and removing workloads: `clientServerPlacement`, `placeClient`, `removeClient` and the
-- requests over them. `none` is `exit(-1)`, when the client machines run out.
use workload_compactor.Base.{
  ◌>>=◌, ℕ, zero, suc, Bool, true, false, ◌&&◌, if◌then◌else◌, List, [], ◌∷◌, ◌++◌, Option, none,
  some, String, Key, string_key, ltb, length, get_elem?, is_empty, map,
}
use workload_compactor.Base.Table.{Table, lookup, insert, erase}
use workload_compactor.Placement.Machines.{Vms, WorkloadInfo, Machines, str_eq, vms_at}
pub mod Holders
pub mod Free
pub mod Exclusive
pub mod Requests

abbrev pub Placed : Type 0
Placed = String × String

-- `*(clientVMs.begin())` of a set that is not empty.
abbrev pub first_vm : String → Vms → Option Placed
first_vm host [] = none
first_vm host ((vm, u) ∷ vms) = some (host, vm)

-- `g_clients[host]`, which adds the host where it is missing.
abbrev pub touch : String → Machines → Machines
touch host s = record s { clients = insert host (vms_at host s.clients) s.clients }

-- The search among the workloads that share the server, from which each tried host is in the map.
unfoldable pub shared_client : String → List WorkloadInfo → Machines → Option Placed × Machines
shared_client server_host [] s = (none, s)
shared_client server_host (w ∷ ws) s =
    let rest = shared_client server_host ws in
    if str_eq w.server_host server_host
    then elim (first_vm w.client_host (vms_at w.client_host s.clients)) [
      | some placed ↦ (some placed, touch w.client_host s)
      | none ↦ rest (touch w.client_host s)
    ]
    else rest s

-- The first of the hosts with the most available VMs.
unfoldable pub roomiest : ℕ → Option Placed → Table String Vms → Option Placed
roomiest most best [] = best
roomiest most best ((host, vms) ∷ m) =
    let better = roomiest (length vms) (first_vm host vms) m in
    let same = roomiest most best m in if ltb most (length vms) then better else same

abbrev pub or_none : Machines → Option Placed → Option (Placed × Machines)
or_none s none = none
or_none s (some placed) = some (placed, s)

-- What was found among the workloads, or else the host with the most room.
abbrev pub or_roomiest : Option Placed × Machines → Option (Placed × Machines)
or_roomiest (some placed, s) = some (placed, s)
or_roomiest (none, s) = or_none s (roomiest 0 none s.clients)

abbrev pub among_workloads : String → Machines → Option (Placed × Machines)
among_workloads server_host s = or_roomiest (shared_client server_host s.workloads s)

-- What was found at the host of the grouping, or else elsewhere.
abbrev pub or_elsewhere : String → Option Placed → Machines → Option (Placed × Machines)
or_elsewhere server_host (some placed) s = some (placed, s)
or_elsewhere server_host none s = among_workloads server_host s

abbrev pub at_grouping : String → Option String → Machines → Option (Placed × Machines)
at_grouping server_host none s = among_workloads server_host s
at_grouping server_host (some host) s =
    or_elsewhere server_host (first_vm host (vms_at host s.clients)) (touch host s)

-- clientServerPlacement.
unfoldable pub client_server_placement : String → Machines → Option (Placed × Machines)
unfolding shared_client roomiest
client_server_placement server_host s =
    at_grouping server_host (lookup server_host s.server_client_grouping) s

abbrev pair_all : String → Vms → List Placed
pair_all host [] = []
pair_all host ((vm, u) ∷ vms) = (host, vm) ∷ pair_all host vms

-- The work queue of a workload that is not admitted yet, in first fit order.
unfoldable pub work_queue : Table String Vms → List Placed
work_queue [] = []
work_queue ((host, vms) ∷ m) = pair_all host vms ++ work_queue m

-- The end of `placeClient`, on the server that was found.
unfoldable pub settle : String → Placed → Placed → Machines → Machines
settle name server client s = record s {
  server_client_grouping = insert server.0 client.0 s.server_client_grouping;
  clients = insert client.0 (erase client.1 (vms_at client.0 s.clients)) s.clients;
  workloads =
      s.workloads
      ++ (record {
        name = name;
        client_host = client.0;
        client_vm = client.1;
        server_host = server.0;
        server_vm = server.1;
      }
          ∷ []);
}

abbrev pub settle_with : String → Placed → Option (Placed × Machines) → Option (Bool × Machines)
settle_with name server none = none
settle_with name server (some (client, s)) = some (true, settle name server client s)

unfoldable pub settle_at : String → Option Placed → Machines → Option (Bool × Machines)
unfolding client_server_placement settle
settle_at name none s = some (false, s)
settle_at name (some server) s = settle_with name server (client_server_placement server.0 s)

-- A workload to place: the server of one that is admitted already.
pub record Workload : Type 0 where
  pub name : String
  pub admitted_at : Option Placed

-- What the workers come to at a work queue (`Placement.WorkQueue`): the number of servers that they take
-- from its front, and the best index.
pub record Search : Type 0 where
  pub taken : ℕ
  pub best : ℕ

-- The placement that a worker computes for each server that it takes, before it asks for admission.
unfoldable pub try_servers : ℕ → List Placed → Machines → Option Machines
unfolding client_server_placement
try_servers zero queue s = some s
try_servers (suc n) [] s = some s
try_servers (suc n) (server ∷ queue) s =
    client_server_placement server.0 s >>= λ r. try_servers n queue r.1

unfoldable pub place_client :
    (List Placed → Search) → Workload → Machines → Option (Bool × Machines)
unfolding work_queue settle_at try_servers
place_client search w s = elim w.admitted_at [
  | some server ↦ settle_at w.name (some server) s
  | none ↦
      let queue = work_queue s.servers in
      let found = search queue in
      try_servers found.taken queue s >>= λ t. settle_at w.name (get_elem? queue found.best) t
]

abbrev pub release_vm : WorkloadInfo → Machines → Machines
release_vm w s = record s {
  server_client_grouping = erase w.server_host s.server_client_grouping;
  clients = insert w.client_host (insert w.client_vm tt (vms_at w.client_host s.clients)) s.clients;
}

unfoldable pub drop_workload : String → List WorkloadInfo → List WorkloadInfo
drop_workload name [] = []
drop_workload name (w ∷ ws) = if str_eq w.name name then ws else w ∷ drop_workload name ws

unfoldable pub find_workload : String → List WorkloadInfo → Option WorkloadInfo
find_workload name [] = none
find_workload name (w ∷ ws) = if str_eq w.name name then some w else find_workload name ws

-- removeClient: the first workload of that name, if there is one.
unfoldable pub remove_client : String → Machines → Machines
unfolding find_workload drop_workload
remove_client name s = elim (find_workload name s.workloads) [
  | none ↦ s
  | some w ↦ record (release_vm w s) { workloads = drop_workload name s.workloads }
]

-- The loop of the DelClients RPC, and the loop that reverts prior placements.
unfoldable pub remove_clients : List String → Machines → Machines
unfolding remove_client
remove_clients [] s = s
remove_clients (n ∷ ns) s = remove_clients ns (remove_client n s)

-- The loop of the AddClients RPC, with the names placed so far; `searches` has what the workers come to
-- at each round.
unfoldable pub add_clients :
    (ℕ → List Placed → Search) → List String → List Workload → Machines → Option (Bool × Machines)
unfolding place_client remove_clients
add_clients searches placed [] s = some (true, s)
add_clients searches placed (w ∷ ws) s =
    let rest = add_clients (λ n. searches (suc n)) (placed ++ (w.name ∷ [])) ws in
    elim (place_client (searches 0) w s) [
      | none ↦ none
      | some r ↦ if r.0 then rest r.1 else some (false, remove_clients placed r.1)
    ]

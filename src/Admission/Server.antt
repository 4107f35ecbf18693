-- ===== src/Admission/Server.antt =====
-- The requests of the admission controller. `none` is a null pointer dereference in the library; the
-- messages to the enforcers of a flow, which no later decision reads, are under Messages.
use workload_compactor.Base.{
  ◌>>=◌, value_or, ℕ, Bool, true, false, ◌&&◌, not, if◌then◌else◌, List, [], ◌∷◌, Option, none,
  some, String, Double, nat_key, string_key, ◌==◌, is_empty,
}
use workload_compactor.Base.Table.{Table, lookup, insert, erase}
use workload_compactor.Network.Types.{FlowIndex, Network, ClientInfo, QueueInfo, Member}
use workload_compactor.Network.Registry.{id_by_name, elements, add_queue, del_queue}
use workload_compactor.Network.Compactor.{
  insert_all, add_workload, del_workload, calc_client_latency,
}
use workload_compactor.Network.Solver.{Glpk}
use workload_compactor.Admission.Checks.{
  Status, success, missing_argument, invalid_argument, queue_name_in_use, client_name_nonexistent,
  queue_name_nonexistent, queue_has_active_flows, check_client_infos,
}
use workload_compactor.Admission.Affected.{mark_flow_ids, clients_of}
use workload_compactor.Admission.Overload.{check_overload}

-- The globals `nc` and `clientInfoStore`.
pub record Controller (W : Type 0) : Type 0 where
  pub network : Network W
  pub store : Table ℕ (ClientInfo W)

pub record Reply : Type 0 where
  pub status : Status
  pub admitted : Bool

module _ {W : Type 0} ⦃d : Double W⦄ where
  -- AddQueue RPC.
  unfoldable pub add_queue_svc : Option (QueueInfo W) → Controller W → Status × Controller W
  add_queue_svc none c = (invalid_argument, c)
  add_queue_svc (some info) c = elim info.name [
    | none ↦ (missing_argument, c)
    | some n ↦
        if not (id_by_name n c.network.queue_ids == 0)
        then (queue_name_in_use, c)
        else (elim info.bandwidth [
          | none ↦ (missing_argument, c)
          | some bandwidth ↦
              if d.le bandwidth d.nought
              then (invalid_argument, c)
              else (success, record c { network = (add_queue info c.network).1 })
        ])
  ]

  -- DelQueue RPC.
  unfoldable pub del_queue_svc : String → Controller W → Option (Status × Controller W)
  del_queue_svc name c =
      let i = id_by_name name c.network.queue_ids in
      if i == 0
      then some (queue_name_nonexistent, c)
      else (lookup i c.network.queues >>= λ q.
          if is_empty q.flows
          then (del_queue i c.network >>= λ s. some (success, record c { network = s }))
          else some (queue_has_active_flows, c))

  -- DelClient RPC; a client with no stored description fails an assertion.
  unfoldable pub del_client_svc : String → Controller W → Option (Status × Controller W)
  del_client_svc name c =
      let i = id_by_name name c.network.client_ids in
      if i == 0
      then some (client_name_nonexistent, c)
      else (lookup i c.store >>= λ info. del_workload i c.network >>= λ s.
          some (success, record { network = s; store = erase i c.store }))

-- The parameters are the linear program's library, the constants 0.999, 99.9, 100 and 0.999999 of the
-- arithmetic, and the fuel for markAffectedFlows.
module _ {W : Type 0} ⦃d : Double W⦄ (glpk : Glpk W)
    (margin default_percentile hundred near_one : W) (fuel : ℕ) where
  unfoldable pub meets_slo : ℕ → Network W → Option (Bool × Network W)
  meets_slo i s = do
    (latency, t) ← calc_client_latency glpk margin i s
    c ← lookup i t.clients
    some (not (d.lt c.slo c.latency), t)

  -- The first loop of checkLatency, over the added clients.
  unfoldable pub check_added :
      List ℕ → List FlowIndex → Network W → Option (Bool × List FlowIndex × Network W)
  unfolding meets_slo
  check_added [] marked s = some (true, marked, s)
  check_added (i ∷ is) marked s =
      let rest = check_added is in
      meets_slo i s >>= λ r.
      if r.0
      then (lookup i r.1.clients >>= λ c.
          mark_flow_ids fuel r.1 c.flow_ids marked >>= λ m. rest m r.1)
      else some (false, marked, r.1)

  -- The second, over the other clients that the added ones affect.
  unfoldable pub check_affected :
      Table ℕ (Unit {0}) → Table ℕ (Unit {0}) → Network W → Option (Bool × Network W)
  unfolding meets_slo
  check_affected added [] s = some (true, s)
  check_affected added ((i, u) ∷ is) s =
      let rest = check_affected added is in
      elim (lookup i added) [
        | some v ↦ rest s
        | none ↦ meets_slo i s >>= λ r. if r.0 then rest r.1 else some (false, r.1)
      ]

  unfoldable pub check_latency : List ℕ → Network W → Option (Bool × Network W)
  unfolding check_added check_affected
  check_latency ids s = do
    (fits, marked, t) ← check_added ids [] s
    if fits
        then (clients_of t marked [] >>= λ affected. check_affected (insert_all ids []) affected t)
        else some (false, t)

  -- The clients are added one by one, and each description is stored.
  unfoldable pub add_all : List (ClientInfo W) → Controller W → Option (List ℕ × Controller W)
  add_all [] c = some ([], c)
  add_all (i ∷ is) c =
      let rest = add_all is in
      add_workload default_percentile i c.network >>= λ r.
      rest (record { network = r.1; store = insert r.0 i c.store }) >>= λ t. some (r.0 ∷ t.0, t.1)

  unfoldable pub del_all : List ℕ → Controller W → Option (Controller W)
  del_all [] c = some c
  del_all (i ∷ is) c =
      let rest = del_all is in
      del_workload i c.network >>= λ s. rest (record { network = s; store = erase i c.store })

  unfoldable pub all_admitted : List (ClientInfo W) → Bool
  all_admitted [] = true
  all_admitted (i ∷ is) = value_or false i.admitted && all_admitted is

  -- AddClients RPC, from the additions on.
  unfoldable pub decide : List (ClientInfo W) → Controller W → Option (Reply × Controller W)
  unfolding add_all del_all all_admitted check_latency
  decide infos c = do
    (ids, t) ← add_all infos c
    (admitted, s) ←
        (if all_admitted infos then some (true, t.network) else check_latency ids t.network)
    if admitted
        then some (record { status = success; admitted = true }, record t { network = s })
        else (del_all ids (record t { network = s }) >>= λ u.
            some (record { status = success; admitted = false }, u))

  unfoldable pub overload_gate : Bool → List (ClientInfo W) → Network W → Option Bool
  unfolding check_overload
  overload_gate fast infos s = if fast then check_overload near_one infos s else some false

  -- AddClients RPC; the description is `none` where it cannot be parsed.
  unfoldable pub add_clients_svc :
      Option (Member (ClientInfo W)) → Bool → Controller W → Option (Reply × Controller W)
  unfolding decide overload_gate
  add_clients_svc none fast c = some (record { status = invalid_argument; admitted = false }, c)
  add_clients_svc (some infos) fast c = elim (check_client_infos hundred c.network infos) [
    | success ↦ overload_gate fast (elements infos) c.network >>= λ overloaded.
        if overloaded
        then some (record { status = success; admitted = false }, c)
        else decide (elements infos) c
    | failed ↦ some (record { status = failed; admitted = false }, c)
  ]

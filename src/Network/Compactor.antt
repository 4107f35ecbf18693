-- ===== src/Network/Compactor.antt =====
-- Class WorkloadCompactor: the queues that a new or a deleted workload affects, whose rate limits are
-- optimised again before the next latency is computed, and NC::calcClientLatency over it.
use workload_compactor.Base.{
  ◌>>=◌, ℕ, if◌then◌else◌, List, [], ◌∷◌, Option, none, some, Double, nat_key, is_empty,
}
use workload_compactor.Base.Table.{Table, lookup, insert, adjust}
use workload_compactor.Network.Types.{Flow, Client, Network, ClientInfo}
use workload_compactor.Network.Registry.{add_client, del_client}
use workload_compactor.Network.Latency.{aggregate, calc_flow_latency}
use workload_compactor.Network.Solver.{Glpk}
use workload_compactor.Network.Shapers.Assign.{calc_shaper_parameters}
pub mod Deleted

-- A set of queue ids.
unfoldable pub insert_all : List ℕ → Table ℕ (Unit {0}) → Table ℕ (Unit {0})
insert_all [] set = set
insert_all (i ∷ is) set = insert_all is (insert i tt set)

module _ {W : Type 0} where
  unfoldable pub mark_flows : List ℕ → Network W → Option (Network W)
  unfolding insert_all
  mark_flows [] s = some s
  mark_flows (f ∷ fs) s =
      let rest = λ (g : Flow W).
        mark_flows fs
          (record s { affected_queue_ids = insert_all g.queue_ids s.affected_queue_ids }) in
      elim (lookup f s.flows) [ none ↦ none | some g ↦ rest g ]

  unfoldable pub mark_client : ℕ → Network W → Option (Network W)
  unfolding mark_flows
  mark_client client_id s = lookup client_id s.clients >>= λ c. mark_flows c.flow_ids s

module _ {W : Type 0} ⦃d : Double W⦄ where
  unfoldable pub add_workload : W → ClientInfo W → Network W → Option (ℕ × Network W)
  add_workload default_percentile info s = do
    (client_id, t) ← add_client default_percentile info s
    u ← mark_client client_id t
    some (client_id, u)

  unfoldable pub del_workload : ℕ → Network W → Option (Network W)
  del_workload client_id s = mark_client client_id s >>= del_client client_id

-- The library that solves the linear programs, and the constant 0.999.
module _ {W : Type 0} ⦃d : Double W⦄ (glpk : Glpk W) (margin : W) where
  unfoldable pub refresh_shapers : Network W → Option (Network W)
  refresh_shapers s =
      if is_empty s.affected_queue_ids
      then some s
      else (calc_shaper_parameters glpk margin s >>= λ r.
          some (record r.1 { affected_queue_ids = [] }))

  -- WorkloadCompactor::calcFlowLatency.
  unfoldable pub workload_flow_latency : ℕ → Network W → Option (W × Network W)
  unfolding refresh_shapers
  workload_flow_latency flow_id s = refresh_shapers s >>= calc_flow_latency aggregate 0 flow_id

  unfoldable pub flows_latency : List ℕ → W → Network W → Option (W × Network W)
  flows_latency [] total s = some (total, s)
  flows_latency (f ∷ fs) total s =
      let rest = flows_latency fs in workload_flow_latency f s >>= λ r. rest (d.add total r.0) r.1

  -- NC::calcClientLatency.
  unfoldable pub calc_client_latency : ℕ → Network W → Option (W × Network W)
  unfolding flows_latency
  calc_client_latency client_id s = do
    c ← lookup client_id s.clients
    (total, t) ← flows_latency c.flow_ids d.nought s
    some (
      total,
      record t { clients = adjust client_id (λ e. record e { latency = total }) t.clients },
    )

  unfoldable pub calc_latencies : List (ℕ × Client W) → Network W → Option (Network W)
  calc_latencies [] s = some s
  calc_latencies ((i, c) ∷ cs) s =
      let rest = calc_latencies cs in calc_client_latency i s >>= λ r. rest r.1

  -- NC::calcAllLatency; the loop's iterator is not disturbed, since no client comes or goes.
  unfoldable pub calc_all_latency : Network W → Option (Network W)
  unfolding calc_latencies
  calc_all_latency s = calc_latencies s.clients s

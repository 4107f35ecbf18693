-- ===== src/Admission/Affected.antt =====
-- The flows and clients that new flows affect: markAffectedFlows and its use in checkLatency, of
-- src/AdmissionController/AdmissionController.cpp.
use workload_compactor.Base.{
  ◌>>=◌, ℕ, zero, suc, Bool, false, ◌&&◌, ◌||◌, if◌then◌else◌, List, [], ◌∷◌, ◌++◌, Option, none,
  some, nat_key, string_key, ◌==◌, ltb,
}
use workload_compactor.Base.Table.{Table, lookup, insert}
use workload_compactor.Network.Types.{FlowIndex, Network}

-- `affectedFlows.find(fi)`.
unfoldable pub is_marked : FlowIndex → List FlowIndex → Bool
is_marked fi [] = false
is_marked fi (g ∷ gs) = g.flow_id == fi.flow_id && g.index == fi.index || is_marked fi gs

unfoldable pub mark_each :
    (FlowIndex → ℕ → List FlowIndex → Option (List FlowIndex))
    → ℕ
    → List FlowIndex
    → List FlowIndex
    → Option (List FlowIndex)
mark_each mark priority [] marked = some marked
mark_each mark priority (fi ∷ fis) marked =
    let rest = mark_each mark priority fis in mark fi priority marked >>= rest

module _ {W : Type 0} where
  -- The entries of the queues that a flow visits from an index on.
  unfoldable pub entries_from : Network W → List ℕ → ℕ → Option (List FlowIndex)
  entries_from s [] index = some []
  entries_from s (i ∷ is) (suc index) = entries_from s is index
  entries_from s (i ∷ is) zero =
      let rest = entries_from s is zero in
      lookup i s.queues >>= λ q. rest >>= λ more. some (q.flows ++ more)

  -- markAffectedFlows. Each call that goes deeper has marked a new entry, so the fuel is the number
  -- of entries of all queues and one more.
  unfoldable pub mark_affected_flows :
      ℕ → Network W → FlowIndex → ℕ → List FlowIndex → Option (List FlowIndex)
  unfolding is_marked entries_from mark_each
  mark_affected_flows zero s fi priority marked = none
  mark_affected_flows (suc fuel) s fi priority marked = do
    f ← lookup fi.flow_id s.flows
    if ltb f.priority priority
        then some marked
        else if is_marked fi marked
        then some marked
        else (entries_from s f.queue_ids fi.index >>= λ entries.
            mark_each (mark_affected_flows fuel s) f.priority entries (fi ∷ marked))

  unfoldable pub mark_flow_ids : ℕ → Network W → List ℕ → List FlowIndex → Option (List FlowIndex)
  unfolding mark_affected_flows
  mark_flow_ids fuel s [] marked = some marked
  mark_flow_ids fuel s (f ∷ fs) marked =
      let rest = mark_flow_ids fuel s fs in
      mark_affected_flows fuel s (record { flow_id = f; index = 0 }) 0 marked >>= rest

  -- The clients of the affected flows, a set.
  unfoldable pub clients_of :
      Network W → List FlowIndex → Table ℕ (Unit {0}) → Option (Table ℕ (Unit {0}))
  clients_of s [] ids = some ids
  clients_of s (fi ∷ fis) ids =
      let rest = clients_of s fis in
      lookup fi.flow_id s.flows >>= λ f. rest (insert f.client_id tt ids)

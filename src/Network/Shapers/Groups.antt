-- ===== src/Network/Shapers/Groups.antt =====
-- The first part of WorkloadCompactor::calcShaperParameters: the clients that share queues with an
-- affected queue, in groups. `none` is a null pointer dereference, or the fuel's end.
use workload_compactor.Base.{
  ◌>>=◌, ℕ, zero, suc, ◌+◌, List, [], ◌∷◌, Option, none, some, nat_key, length,
}
use workload_compactor.Base.Table.{Table, lookup, insert, erase}
use workload_compactor.Base.Table.Sets.{Set}
use workload_compactor.Network.Types.{Flow, Client, FlowIndex, Queue, Network}
pub mod Reached
pub mod Claims
pub mod Visits
pub mod Sweeps
pub mod Closed
pub mod Deleted

-- The variables of the loop; `pending` holds the back of the vector first.
pub record Sweep : Type 0 where
  pub remaining : Set
  pub affected : Set
  pub pending : List ℕ
  pub group : Set

unfoldable pub claim_queue : ℕ → Sweep → Sweep
claim_queue q w = elim (lookup q w.remaining) [
  | none ↦ w
  | some u ↦ record w {
    remaining = erase q w.remaining;
    affected = erase q w.affected;
    pending = q ∷ w.pending;
  }
]

unfoldable pub claim_queues : List ℕ → Sweep → Sweep
claim_queues [] w = w
claim_queues (q ∷ qs) w = claim_queues qs (claim_queue q w)

-- `clientGroup.insert`.
unfoldable pub join_group : ℕ → Sweep → Sweep
join_group client_id w = record w { group = insert client_id tt w.group }

unfoldable pub pop_pending : List ℕ → Sweep → Sweep
pop_pending qs w = record w { pending = qs }

-- The keys of a map.
unfoldable pub ids_of : {V : Type 0} → Table ℕ V → Set
ids_of [] = []
ids_of ((i, v) ∷ m) = (i, tt) ∷ ids_of m

unfoldable pub first_sweep : ℕ → Set → Set → Sweep
first_sweep q remaining affected = record {
  remaining = erase q remaining;
  affected = affected;
  pending = q ∷ [];
  group = [];
}

module _ {W : Type 0} where
  -- The loop over a client's flows.
  unfoldable pub claim_flows : Network W → List ℕ → Sweep → Option Sweep
  claim_flows s [] w = some w
  claim_flows s (f ∷ fs) w = lookup f s.flows >>= λ g. claim_flows s fs (claim_queues g.queue_ids w)

  -- The loop over a queue's flows.
  unfoldable pub visit_flows : Network W → List FlowIndex → Sweep → Option Sweep
  visit_flows s [] w = some w
  visit_flows s (fi ∷ fis) w = lookup fi.flow_id s.flows >>= λ f.
      lookup f.client_id s.clients >>= λ c.
      claim_flows s c.flow_ids (join_group c.client_id w) >>= visit_flows s fis

  -- The inner loop, given the rest of its runs.
  unfoldable pub drain_next : Network W → (Sweep → Option Sweep) → List ℕ → Sweep → Option Sweep
  drain_next s rest [] w = some w
  drain_next s rest (q ∷ qs) w =
      lookup q s.queues >>= λ queue. visit_flows s queue.flows (pop_pending qs w) >>= rest

  unfoldable pub drain : ℕ → Network W → Sweep → Option Sweep
  drain zero s w = none
  drain (suc n) s w = let rest = drain n s in drain_next s rest w.pending w

  -- The outer loop.
  unfoldable pub gather : ℕ → Network W → Set → Set → Option (List Set)
  gather zero s remaining affected = none
  gather (suc n) s remaining [] = some []
  gather (suc n) s remaining ((q, u) ∷ affected) =
      let rest = gather n s in
      drain (suc (suc (length s.queues))) s (first_sweep q remaining affected) >>= λ w.
      rest w.remaining w.affected >>= λ groups. some (w.group ∷ groups)

  unfoldable pub client_groups : Network W → Option (List Set)
  client_groups s =
      gather (suc (length s.affected_queue_ids)) s (ids_of s.queues) s.affected_queue_ids

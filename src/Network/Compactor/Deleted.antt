-- ===== src/Network/Compactor/Deleted.antt =====
-- A queue that is deleted between a change of its workloads and the next latency.
use workload_compactor.Base.{
  bind-some, guard-some, ℕ, ◌≡◌, refl, sym, subst, true, false, [], ◌∷◌, none, some, nat_key,
  is_empty, Double,
}
use workload_compactor.Base.Table.{lookup}
use workload_compactor.Base.Table.Distinct.{IsDistinct, lookup-erase}
use workload_compactor.Base.Table.Sets.{Set, contains}
use workload_compactor.Network.Types.{Network}
use workload_compactor.Network.Registry.{del_queue}
use workload_compactor.Network.Solver.{Glpk}
use workload_compactor.Network.Shapers.Groups.Deleted.{client_groups-deleted}
use workload_compactor.Network.Shapers.Assign.{calc_shaper_parameters}
use workload_compactor.Network.Compactor.{refresh_shapers, workload_flow_latency}

occupied : (q : ℕ) (set : Set) → contains q set ≡ true → is_empty set ≡ false
unfolding lookup
occupied q [] h = cc
occupied q (e ∷ es) h = refl

module _ {W : Type 0} where
  del_queue-gone :
      (q : ℕ) (s t : Network W)
      → del_queue q s ≡ some t
      → IsDistinct s.queues
      → (lookup q t.queues ≡ none) × (t.affected_queue_ids ≡ s.affected_queue_ids)
  unfolding del_queue
  del_queue-gone q s t e d =
      let (queue, at, rest) = bind-some (lookup q s.queues) _ t e in
      let same = guard-some (is_empty queue.flows) _ t rest in
      (
        subst (λ (u : Network W). lookup q u.queues ≡ none) same (lookup-erase q s.queues d),
        subst (λ (u : Network W). u.affected_queue_ids ≡ s.affected_queue_ids) same refl,
      )

module _ {W : Type 0} ⦃d : Double W⦄ (glpk : Glpk W) (margin : W) where
  -- A queue that is deleted while it is affected, as it is after the deletion of its last client: every
  -- latency that is computed next fails, at the null pointer that `getQueue` returns.
  pub del_queue-workload_flow_latency :
      (q i : ℕ) (s t : Network W)
      → IsDistinct s.queues
      → contains q s.affected_queue_ids ≡ true
      → del_queue q s ≡ some t
      → workload_flow_latency glpk margin i t ≡ none
  unfolding workload_flow_latency refresh_shapers calc_shaper_parameters
  del_queue-workload_flow_latency q i s t distinct h e =
      let (gone, same) = del_queue-gone q s t e distinct in
      let stays = subst (λ (a : Set). contains q a ≡ true) (sym same) h in
      rw (occupied q t.affected_queue_ids stays, client_groups-deleted t q gone stays) refl

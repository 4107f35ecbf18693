-- ===== src/Admission/Requests.antt =====
-- Sequences of requests to an admission controller.
use workload_compactor.Base.{
  ℕ, ◌+◌, ◌^◌, ◌<◌, ◌≡◌, refl, ap, subst, Bool, false, Option, inl, inr, none, some, String,
  nat_key, string_key, arith, Double,
}
use workload_compactor.Base.Table.{lookup}
use workload_compactor.Network.Types.{Member, ClientInfo, QueueInfo}
use workload_compactor.Network.Solver.{Glpk}
use workload_compactor.Network.Registry.{elements, new_network}
use workload_compactor.Admission.Checks.{Status, check_client_infos}
use workload_compactor.Admission.Verdicts.{checked_first, gated, requested}
use workload_compactor.Admission.Ready.{
  IsReady, HasRoom, new_controller, add_queue_svc-IsReady, del_queue_svc-IsReady,
  del_client_svc-IsReady,
}
use workload_compactor.Admission.Decided.{decide-IsReady}
use workload_compactor.Network.Sound.Queues.{HasQueues, SameQueues-HasQueues}
use workload_compactor.Admission.Queues.{
  add_queue_svc-HasQueues, del_queue_svc-HasQueues, del_client_svc-Keeps, add_clients_svc-Keeps,
}
use workload_compactor.Admission.Server.{
  Controller, Reply, add_queue_svc, del_queue_svc, del_client_svc, decide, overload_gate,
  add_clients_svc,
}

module _ {W : Type 0} ⦃d : Double W⦄ (glpk : Glpk W) (margin percentile hundred near_one : W)
    (fuel : ℕ) where
  add_clients_svc-IsReady :
      (infos : Option (Member (ClientInfo W))) (fast : Bool) (c u : Controller W) (r : Reply)
      → add_clients_svc glpk margin percentile hundred near_one fuel infos fast c ≡ some (r, u)
      → HasRoom c (requested infos)
      → IsReady c
      → IsReady u
  unfolding add_clients_svc
  add_clients_svc-IsReady none fast c u r e room h = let same : c ≡ u = cc in subst IsReady same h
  add_clients_svc-IsReady (some infos) fast c u r e room h =
      elim (checked_first (check_client_infos hundred c.network infos) _
        (λ failed. (record { status = failed; admitted = false }, c)) (r, u) e) [
          | inl (passes, x) ↦
              elim (gated
                (overload_gate glpk margin percentile hundred near_one fuel fast (elements infos)
                  c.network)
                (decide glpk margin percentile hundred near_one fuel (elements infos) c) _ (r, u)
                x) [
                  | inl stopped ↦ subst IsReady (ap (λ (p : Reply × Controller W). p.1) stopped) h
                  | inr run ↦
                      decide-IsReady glpk margin percentile hundred near_one fuel (elements infos) c
                        u r run room h
                ]
          | inr (failed, x) ↦ subst IsReady (ap (λ (p : Reply × Controller W). p.1) x) h
        ]

  -- A request that is answered, where the counters have room for what it adds.
  pub data Request : Controller W → Controller W → Type 0 where
    adds_queue :
        (info : Option (QueueInfo W)) (c : Controller W)
        → c.network.next_queue_id + 1 < 2 ^ 32
        → Request c (add_queue_svc info c).1
    deletes_queue :
        (name : String) (c u : Controller W) (st : Status)
        → del_queue_svc name c ≡ some (st, u)
        → Request c u
    deletes_client :
        (name : String) (c u : Controller W) (st : Status)
        → del_client_svc name c ≡ some (st, u)
        → Request c u
    adds_clients :
        (infos : Option (Member (ClientInfo W))) (fast : Bool) (c u : Controller W) (r : Reply)
        → add_clients_svc glpk margin percentile hundred near_one fuel infos fast c ≡ some (r, u)
        → HasRoom c (requested infos)
        → Request c u

  pub data Reach (c : Controller W) : Controller W → Type 0 where
    here : Reach c c
    next : {t u : Controller W} → Reach c t → Request t u → Reach c u

  Request-IsReady : {c u : Controller W} → Request c u → IsReady c → IsReady u
  Request-IsReady (adds_queue info c room) h = add_queue_svc-IsReady info c h
  Request-IsReady (deletes_queue name c u st e) h = del_queue_svc-IsReady name c u st e h
  Request-IsReady (deletes_client name c u st e) h = del_client_svc-IsReady name c u st e h
  Request-IsReady (adds_clients infos fast c u r e room) h =
      add_clients_svc-IsReady infos fast c u r e room h

  new_controller-IsReady : IsReady (new_controller (new_network {W = W}))
  unfolding new_network lookup
  new_controller-IsReady = record {
    sound = record {
      numbered = record { flows = λ k up. refl; clients = λ k up. refl; entries = λ k up. tt };
      flows_distinct = tt;
      clients_distinct = tt;
      queues_distinct = tt;
      flow_names_distinct = tt;
      client_names_distinct = tt;
      flows_named = tt;
      clients_named = tt;
      flow_id_valid = omega arith;
      client_id_valid = omega arith;
    };
    stored = λ k up. refl;
    store_distinct = tt;
  }

  Request-HasQueues : {c u : Controller W} → Request c u → HasQueues c.network → HasQueues u.network
  Request-HasQueues (adds_queue info c room) h = add_queue_svc-HasQueues info c room h
  Request-HasQueues (deletes_queue name c u st e) h = del_queue_svc-HasQueues name c u st e h
  Request-HasQueues (deletes_client name c u st e) h =
      SameQueues-HasQueues c.network u.network (del_client_svc-Keeps name c u st e) h
  Request-HasQueues (adds_clients infos fast c u r e room) h =
      SameQueues-HasQueues c.network u.network
        (add_clients_svc-Keeps glpk margin percentile hundred near_one fuel infos fast c u r e) h

  new_network-HasQueues : HasQueues (new_network {W = W})
  unfolding new_network lookup
  new_network-HasQueues = record {
    names_distinct = tt;
    named = tt;
    id_valid = omega arith;
    numbered = λ k up. refl;
  }

  -- From a new controller, after any sequence of requests that are answered and for whose clients,
  -- flows and queues the counters have room: the tables of clients, of flows, of queues, of the names
  -- of each, and of the stored descriptions have one entry for each key; the ids of clients, flows and
  -- queues (also those of flows in the queues, and those of the stored descriptions) are below the
  -- counters, so that the next ones are new; and neither a name nor the next client or queue or flow
  -- has the invalid id.
  pub Reach-IsReady :
      {c : Controller W}
      → Reach (new_controller (new_network {W = W})) c
      → IsReady c × HasQueues c.network
  Reach-IsReady here = (new_controller-IsReady, new_network-HasQueues)
  Reach-IsReady (next r q) =
      let (ready, queues) = Reach-IsReady r in (Request-IsReady q ready, Request-HasQueues q queues)

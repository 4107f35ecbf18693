-- ===== src/Admission/Ready.antt =====
-- What holds of the admission controller at all times: its tables are sound, and the stored descriptions
-- are those of clients that were added. The requests that add a queue, or delete, keep it so.
use workload_compactor.Base.{
  bind-some, ℕ, ◌+◌, ◌^◌, ◌≤◌, ◌<◌, ◌≡◌, subst, List, [], Option, Option-cases, Bool-cases, inl,
  inr, none, some, String, nat_key, string_key, ◌==◌, Double, length, is_empty,
}
use workload_compactor.Base.Table.{lookup, erase}
use workload_compactor.Base.Table.Distinct.{IsDistinct, erase-IsDistinct, lookup-erase-none}
use workload_compactor.Network.Types.{Network, ClientInfo, QueueInfo}
use workload_compactor.Network.Registry.{id_by_name, add_queue, del_queue}
use workload_compactor.Network.Compactor.{del_workload}
use workload_compactor.Network.Outline.Registered.{all_flow_infos}
use workload_compactor.Network.Sound.{IsSound}
use workload_compactor.Network.Sound.Changes.{
  del_queue-IsSound, del_queue-counters, add_queue-IsSound, del_workload-IsSound,
  del_workload-counters,
}
use workload_compactor.Admission.Checks.{Status}
use workload_compactor.Admission.Server.{Controller, add_queue_svc, del_queue_svc, del_client_svc}

module _ {W : Type 0} where
  -- The tables are sound, and the stored descriptions stand under ids below the counter, once each.
  pub record IsReady (c : Controller W) : Type 0 where
    pub sound : IsSound c.network
    pub stored : (k : ℕ) → c.network.next_client_id ≤ k → lookup k c.store ≡ none
    pub store_distinct : IsDistinct c.store

  -- The counters have room for the clients and the flows of a request.
  abbrev pub HasRoom : Controller W → List (ClientInfo W) → Type 0
  HasRoom c infos =
      (c.network.next_client_id + length infos < 2 ^ 32)
      × (c.network.next_flow_id + length (all_flow_infos infos) < 2 ^ 32)

  abbrev pub new_controller : Network W → Controller W
  new_controller s = record { network = s; store = [] }

pub same_reply :
    {S C : Type 0} (a : S) (c : C) (b : S) (u : C)
    → ◌≡◌ {A = Option (S × C)} (some (a, c)) (some (b, u))
    → c ≡ u
same_reply a c b u e = cc

module _ {W : Type 0} ⦃d : Double W⦄ where
  add_queue-IsReady :
      (info : QueueInfo W) (c : Controller W)
      → IsReady c
      → IsReady (record c { network = (add_queue info c.network).1 })
  unfolding add_queue
  add_queue-IsReady info c h = record {
    sound = add_queue-IsSound info c.network h.sound;
    stored = h.stored;
    store_distinct = h.store_distinct;
  }

  pub add_queue_svc-IsReady :
      (info : Option (QueueInfo W)) (c : Controller W)
      → IsReady c
      → IsReady (add_queue_svc info c).1
  unfolding add_queue_svc
  add_queue_svc-IsReady none c h = h
  add_queue_svc-IsReady (some info) c h = elim (Option-cases info.name) [
    | inl e ↦ rw e h
    | inr (n, e) ↦ elim (Bool-cases (id_by_name n c.network.queue_ids == 0)) [
      | inl free ↦ elim (Option-cases info.bandwidth) [
        | inl g ↦ rw (e, free, g) h
        | inr (b, g) ↦ elim (Bool-cases (d.le b d.nought)) [
          | inl low ↦ rw (e, free, g, low) h
          | inr fits ↦ rw (e, free, g, fits) (add_queue-IsReady (record info { name = some n }) c h)
        ]
      ]
      | inr used ↦ rw (e, used) h
    ]
  ]

  pub del_queue_svc-IsReady :
      (name : String) (c u : Controller W) (st : Status)
      → del_queue_svc name c ≡ some (st, u)
      → IsReady c
      → IsReady u
  unfolding del_queue_svc
  del_queue_svc-IsReady name c u st e h =
      let i = id_by_name name c.network.queue_ids in
      elim (Bool-cases (i == 0)) [
        | inl b ↦ subst IsReady (same_reply _ c st u (rw b at e)) h
        | inr b ↦
            let (q, found, x) = bind-some (lookup i c.network.queues) _ (st, u) (rw b at e) in
            elim (Bool-cases (is_empty q.flows)) [
              | inl g ↦
                  let (s, gone, y) = bind-some (del_queue i c.network) _ (st, u) (rw g at x) in
                  subst IsReady (same_reply _ (record c { network = s }) st u y) (record {
                    sound = del_queue-IsSound i c.network s gone h.sound;
                    stored = λ k up.
                        h.stored k (subst (λ n. n ≤ k) (del_queue-counters i c.network s gone) up);
                    store_distinct = h.store_distinct;
                  })
              | inr g ↦ subst IsReady (same_reply _ c st u (rw g at x)) h
            ]
      ]

  pub erased-IsReady :
      (i : ℕ) (c : Controller W) (s : Network W)
      → del_workload i c.network ≡ some s
      → IsReady c
      → IsReady (record { network = s; store = erase i c.store })
  erased-IsReady i c s gone h = record {
    sound = del_workload-IsSound i c.network s gone h.sound;
    stored = λ k up.
        lookup-erase-none k i c.store
          (h.stored k (subst (λ n. n ≤ k) (del_workload-counters i c.network s gone) up));
    store_distinct = erase-IsDistinct i c.store h.store_distinct;
  }

  pub del_client_svc-IsReady :
      (name : String) (c u : Controller W) (st : Status)
      → del_client_svc name c ≡ some (st, u)
      → IsReady c
      → IsReady u
  unfolding del_client_svc
  del_client_svc-IsReady name c u st e h =
      let i = id_by_name name c.network.client_ids in
      elim (Bool-cases (i == 0)) [
        | inl b ↦ subst IsReady (same_reply _ c st u (rw b at e)) h
        | inr b ↦
            let (info, found, x) = bind-some (lookup i c.store) _ (st, u) (rw b at e) in
            let (s, gone, y) = bind-some (del_workload i c.network) _ (st, u) x in
            subst IsReady (same_reply _ (record { network = s; store = erase i c.store }) st u y)
              (erased-IsReady i c s gone h)
      ]

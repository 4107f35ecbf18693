-- ===== src/Network/Sound/Changes.antt =====
-- Every change of a network keeps its tables sound.
use workload_compactor.Base.{
  bind-some, guard-some, ℕ, ◌+◌, ◌^◌, ◌<◌, ◌≡◌, refl, sym, ap, subst, ◌∙◌, List, [], ◌∷◌, some,
  String, arith, nat_key, string_key, Double, is_empty, length,
}
use workload_compactor.Base.Table.{lookup, erase}
use workload_compactor.Base.Table.Distinct.{
  insert-IsDistinct, erase-IsDistinct, adjust-IsDistinct, lookup-erase-none,
}
use workload_compactor.Base.Table.Total.{insert-AllValues}
use workload_compactor.Network.Types.{Network, FlowInfo, ClientInfo, QueueInfo}
use workload_compactor.Network.Registry.{
  text_of, elements, push_flow_id, del_flows, del_client, del_queue, init_flow, init_flows,
  init_client, add_client, add_queue,
}
use workload_compactor.Network.Registry.Entries.{entries}
use workload_compactor.Network.Registry.Counts.{enter-IsDistinct}
use workload_compactor.Network.Compactor.{mark_client, add_workload, del_workload}
use workload_compactor.Network.Outline.Entered.{next_id-suc, after-IsNumbered, init_flow-after}
use workload_compactor.Network.Outline.Added.{begun-IsNumbered}
use workload_compactor.Network.Sound.{
  AllValues-erase, IsValid, IsSound, Counted-insert, Counted-erase, del_flows-IsSound,
  del_flows-counters, marked-IsSound, mark_client-same, mark_client-IsSound,
}

module _ {W : Type 0} where
  erased-IsSound :
      (i : ℕ) (n : String) (s : Network W)
      → IsSound s
      → IsSound (record s { client_ids = erase n s.client_ids; clients = erase i s.clients })
  erased-IsSound i n s h = record {
    numbered = record {
      flows = h.numbered.flows;
      clients = λ k up. lookup-erase-none k i s.clients (h.numbered.clients k up);
      entries = h.numbered.entries;
    };
    flows_distinct = h.flows_distinct;
    clients_distinct = erase-IsDistinct i s.clients h.clients_distinct;
    queues_distinct = h.queues_distinct;
    flow_names_distinct = h.flow_names_distinct;
    client_names_distinct = erase-IsDistinct n s.client_ids h.client_names_distinct;
    flows_named = h.flows_named;
    clients_named = AllValues-erase IsValid n s.client_ids h.clients_named;
    flow_id_valid = h.flow_id_valid;
    client_id_valid = h.client_id_valid;
  }

  pub del_queue-IsSound : (i : ℕ) (s t : Network W) → del_queue i s ≡ some t → IsSound s → IsSound t
  unfolding del_queue
  del_queue-IsSound i s t e h =
      let (q, at, x) = bind-some (lookup i s.queues) _ t e in
      subst IsSound (guard-some (is_empty q.flows) _ t x) (record {
        numbered = record {
          flows = h.numbered.flows;
          clients = h.numbered.clients;
          entries = λ k up. Counted-erase k i s.queues (h.numbered.entries k up);
        };
        flows_distinct = h.flows_distinct;
        clients_distinct = h.clients_distinct;
        queues_distinct = erase-IsDistinct i s.queues h.queues_distinct;
        flow_names_distinct = h.flow_names_distinct;
        client_names_distinct = h.client_names_distinct;
        flows_named = h.flows_named;
        clients_named = h.clients_named;
        flow_id_valid = h.flow_id_valid;
        client_id_valid = h.client_id_valid;
      })

  pub del_queue-counters :
      (i : ℕ) (s t : Network W) → del_queue i s ≡ some t → t.next_client_id ≡ s.next_client_id
  unfolding del_queue
  del_queue-counters i s t e =
      let (q, at, x) = bind-some (lookup i s.queues) _ t e in
      ap (λ (v : Network W). v.next_client_id) (sym (guard-some (is_empty q.flows) _ t x))

module _ {W : Type 0} ⦃d : Double W⦄ where
  pub del_workload-IsSound :
      (i : ℕ) (s t : Network W) → del_workload i s ≡ some t → IsSound s → IsSound t
  unfolding del_workload del_client
  del_workload-IsSound i s t e h =
      let (u, marked, x) = bind-some (mark_client i s) _ t e in
      let (c, found, y) = bind-some (lookup i u.clients) _ t x in
      let (v, gone, z) = bind-some (del_flows c.flow_ids u) _ t y in
      let same : record v { client_ids = erase c.name v.client_ids; clients = erase i v.clients }
          ≡ t =
        cc in
      subst IsSound same (
        erased-IsSound i c.name v
          (del_flows-IsSound c.flow_ids u v gone (mark_client-IsSound i s u marked h)))

  pub del_workload-counters :
      (i : ℕ) (s t : Network W) → del_workload i s ≡ some t → t.next_client_id ≡ s.next_client_id
  unfolding del_workload del_client
  del_workload-counters i s t e =
      let (u, marked, x) = bind-some (mark_client i s) _ t e in
      let (c, found, y) = bind-some (lookup i u.clients) _ t x in
      let (v, gone, z) = bind-some (del_flows c.flow_ids u) _ t y in
      let same : record v { client_ids = erase c.name v.client_ids; clients = erase i v.clients }
          ≡ t =
        cc in
      let (a, only) = mark_client-same i s u marked in
      ap (λ (w : Network W). w.next_client_id) (sym same)
      ∙ del_flows-counters c.flow_ids u v gone
      ∙ ap (λ (w : Network W). w.next_client_id) (sym only)

  pub add_queue-IsSound :
      (info : QueueInfo W) (s : Network W) → IsSound s → IsSound (add_queue info s).1
  unfolding add_queue entries
  add_queue-IsSound info s h = record {
    numbered = record {
      flows = h.numbered.flows;
      clients = h.numbered.clients;
      entries = λ k up.
          Counted-insert k s.next_queue_id _ s.queues (omega arith) (h.numbered.entries k up);
    };
    flows_distinct = h.flows_distinct;
    clients_distinct = h.clients_distinct;
    queues_distinct = insert-IsDistinct s.next_queue_id _ s.queues h.queues_distinct;
    flow_names_distinct = h.flow_names_distinct;
    client_names_distinct = h.client_names_distinct;
    flows_named = h.flows_named;
    clients_named = h.clients_named;
    flow_id_valid = h.flow_id_valid;
    client_id_valid = h.client_id_valid;
  }

  init_flow-IsSound :
      (info : FlowInfo W) (i : ℕ) (s t : Network W)
      → init_flow info i s ≡ some t
      → s.next_flow_id + 1 < 2 ^ 32
      → IsSound s
      → IsSound t × (t.next_flow_id ≡ s.next_flow_id + 1) × (t.next_client_id ≡ s.next_client_id)
  init_flow-IsSound info i s t e room h =
      let (c, qs, entered, same) = init_flow-after info i s t e in
      let next = next_id-suc s.next_flow_id room in
      subst
        (λ (u : Network W).
          IsSound u × (u.next_flow_id ≡ s.next_flow_id + 1) × (u.next_client_id ≡ s.next_client_id))
        same
        (
          record {
            numbered = after-IsNumbered info i s c qs h.numbered entered room;
            flows_distinct = insert-IsDistinct s.next_flow_id _ s.flows h.flows_distinct;
            clients_distinct =
                adjust-IsDistinct i (push_flow_id s.next_flow_id) s.clients h.clients_distinct;
            queues_distinct =
                enter-IsDistinct s.queue_ids s.next_flow_id 0 (elements info.queues) s.queues qs
                  entered h.queues_distinct;
            flow_names_distinct =
                insert-IsDistinct (text_of info.name) s.next_flow_id s.flow_ids
                  h.flow_names_distinct;
            client_names_distinct = h.client_names_distinct;
            flows_named =
                insert-AllValues IsValid (text_of info.name) s.next_flow_id s.flow_ids
                  h.flow_id_valid h.flows_named;
            clients_named = h.clients_named;
            flow_id_valid = omega (arith, next);
            client_id_valid = h.client_id_valid;
          },
          next,
          refl,
        )

  init_flows-IsSound :
      (infos : List (FlowInfo W)) (i : ℕ) (s t : Network W)
      → init_flows infos i s ≡ some t
      → s.next_flow_id + length infos < 2 ^ 32
      → IsSound s
      → IsSound t
        × (t.next_flow_id ≡ s.next_flow_id + length infos)
        × (t.next_client_id ≡ s.next_client_id)
  unfolding init_flows
  init_flows-IsSound [] i s t e room h =
      let same : s ≡ t = cc in
      subst
        (λ (u : Network W).
          IsSound u × (u.next_flow_id ≡ s.next_flow_id + 0) × (u.next_client_id ≡ s.next_client_id))
        same (h, omega arith, refl)
  init_flows-IsSound (info ∷ infos) i s t e room h =
      let (u, first, rest) = bind-some (init_flow info i s) _ t e in
      let (sound, next, same) = init_flow-IsSound info i s u first (omega (arith, room)) h in
      let (ends, last, kept) =
        init_flows-IsSound infos i u t rest (omega (arith, room, next)) sound in
      (ends, omega (arith, last, next), kept ∙ same)

  abbrev Adds : ClientInfo W → Network W → ℕ × Network W → Type 0
  Adds info s q =
      IsSound q.1
      × (q.0 ≡ s.next_client_id)
      × (q.1.next_flow_id ≡ s.next_flow_id + length (elements info.flows))
      × (q.1.next_client_id ≡ s.next_client_id + 1)

  pub add_workload-IsSound :
      (percentile : W) (info : ClientInfo W) (s : Network W) (r : ℕ × Network W)
      → add_workload percentile info s ≡ some r
      → s.next_client_id + 1 < 2 ^ 32
      → s.next_flow_id + length (elements info.flows) < 2 ^ 32
      → IsSound s
      → IsSound r.1
        × (r.0 ≡ s.next_client_id)
        × (r.1.next_flow_id ≡ s.next_flow_id + length (elements info.flows))
        × (r.1.next_client_id ≡ s.next_client_id + 1)
  unfolding add_workload add_client init_client
  add_workload-IsSound percentile info s r e room flow_room h =
      let (p, added, x) = bind-some (add_client percentile info s) _ r e in
      let (v, marked, y) = bind-some (mark_client p.0 p.1) _ r x in
      let i = s.next_client_id in
      let begun = init_client percentile info s in
      let (t, entered, z) = bind-some (init_flows (elements info.flows) i begun) _ p added in
      let next = next_id-suc i room in
      let (sound, flows, clients) =
        init_flows-IsSound (elements info.flows) i begun t entered flow_room (record {
          numbered = begun-IsNumbered percentile info s room h.numbered;
          flows_distinct = h.flows_distinct;
          clients_distinct = insert-IsDistinct i _ s.clients h.clients_distinct;
          queues_distinct = h.queues_distinct;
          flow_names_distinct = h.flow_names_distinct;
          client_names_distinct =
              insert-IsDistinct (text_of info.name) i s.client_ids h.client_names_distinct;
          flows_named = h.flows_named;
          clients_named =
              insert-AllValues IsValid (text_of info.name) i s.client_ids h.client_id_valid
                h.clients_named;
          flow_id_valid = h.flow_id_valid;
          client_id_valid = omega (arith, next);
        }) in
      let same : (i, t) ≡ p = cc in
      let whole : (p.0, v) ≡ r = cc in
      let (a, only) = mark_client-same p.0 p.1 v marked in
      subst (Adds info s) whole (
        subst (λ w. Adds info s (p.0, w)) only
          (subst (λ (q : ℕ × Network W). Adds info s (q.0, record q.1 { affected_queue_ids = a }))
            same (marked-IsSound t a sound, refl, flows, clients ∙ next)))

-- ===== src/Network/Outline/Restored.antt =====
-- A network as it was before a client was added: what `addClient` does, `delClient` undoes.
use workload_compactor.Base.{
  ℕ, ◌+◌, ◌^◌, ◌<◌, ◌≡◌, refl, ◌∙◌, sym, subst, [], ◌∷◌, none, some, nat_key, string_key, Double,
  length, append_nil,
}
use workload_compactor.Base.Table.{lookup}
use workload_compactor.Base.Table.Without.{without-none, map_values-IsDistinct}
use workload_compactor.Network.Types.{Network, ClientInfo}
use workload_compactor.Network.Registry.{text_of, elements}
use workload_compactor.Network.Registry.Entries.{purge-none}
use workload_compactor.Network.Compactor.{add_workload, del_workload}
use workload_compactor.Network.Outline.{plain_flow, plain_client, outline}
use workload_compactor.Network.Outline.Clients.{ClientsOver, del_workload-ClientsOver}
use workload_compactor.Network.Outline.Entered.{HasNewNames}
use workload_compactor.Network.Outline.Registered.{flow_names}
use workload_compactor.Network.Sound.{IsSound}
use workload_compactor.Network.Outline.Workloads.{add_workload-Adds}

module _ {W : Type 0} ⦃d : Double W⦄ where
  -- The same tables, up to latencies, priorities and shaper curves.
  pub record IsRestored (s t : Network W) : Type 0 where
    pub flows : (outline t).flows ≡ (outline s).flows
    pub clients : (outline t).clients ≡ (outline s).clients
    pub queues : t.queues ≡ s.queues
    pub flow_ids : t.flow_ids ≡ s.flow_ids
    pub client_ids : t.client_ids ≡ s.client_ids
    pub queue_ids : t.queue_ids ≡ s.queue_ids

  pub IsRestored-refl : (s : Network W) → IsRestored s s
  IsRestored-refl s = record {
    flows = refl;
    clients = refl;
    queues = refl;
    flow_ids = refl;
    client_ids = refl;
    queue_ids = refl;
  }

  pub IsSound-ClientsOver : (s : Network W) → IsSound s → ClientsOver (outline s) [] (outline s)
  unfolding outline
  IsSound-ClientsOver s h = record {
    clients = without-none (outline s).clients;
    client_ids = without-none s.client_ids;
    queue_ids = refl;
    clients_distinct = map_values-IsDistinct plain_client s.clients h.clients_distinct;
    client_names_distinct = h.client_names_distinct;
    registered = tt;
    clients_apart = tt;
    over = record {
      flows = without-none (outline s).flows;
      flow_ids = without-none s.flow_ids;
      queues = purge-none s.queues;
      flows_distinct = map_values-IsDistinct plain_flow s.flows h.flows_distinct;
      names_distinct = h.flow_names_distinct;
      queues_distinct = h.queues_distinct;
      there = tt;
      apart = tt;
    };
  }

  pub ClientsOver-IsRestored :
      (s t : Network W) → ClientsOver (outline s) [] (outline t) → IsRestored s t
  unfolding outline
  ClientsOver-IsRestored s t h = record {
    flows = sym (without-none (outline t).flows) ∙ h.over.flows;
    clients = sym (without-none (outline t).clients) ∙ h.clients;
    queues = sym (purge-none t.queues) ∙ h.over.queues;
    flow_ids = sym (without-none t.flow_ids) ∙ h.over.flow_ids;
    client_ids = sym (without-none t.client_ids) ∙ h.client_ids;
    queue_ids = h.queue_ids;
  }

  -- A client that addClient adds under a name and with flow names that are new and different,
  -- in a network whose tables have one entry for each key, with ids below counters that do not
  -- wrap around: whatever latencies are computed and rate limits set in between, delClient of
  -- its id does not fail, and gives back the tables of clients, flows, queues and names, up to
  -- latencies, priorities and shaper curves.
  pub del_workload-add_workload :
      (percentile : W) (info : ClientInfo W) (s t v : Network W) (i : ℕ)
      → IsSound s
      → lookup (text_of info.name) s.client_ids ≡ none
      → HasNewNames (flow_names (elements info.flows)) s.flow_ids
      → s.next_client_id + 1 < 2 ^ 32
      → s.next_flow_id + length (elements info.flows) < 2 ^ 32
      → add_workload percentile info s ≡ some (i, t)
      → outline v ≡ outline t
      → (u : Network W) × (del_workload i v ≡ some u) × IsRestored s u
  del_workload-add_workload percentile info s t v i sound unused unused_flows room flow_room e
        same =
      let (n, id, first, over, ahead, named, flows_named, next, next_flow) =
        add_workload-Adds (outline s) percentile [] [] [] info s (IsSound-ClientsOver s sound)
          sound.numbered (unused, tt, tt)
          (subst (λ ns. HasNewNames ns s.flow_ids)
            (sym (append_nil (flow_names (elements info.flows)))) unused_flows)
          room flow_room (i, t) e in
      let (u, gone, back) =
        del_workload-ClientsOver (outline s) n [] v
          (subst (ClientsOver (outline s) (n ∷ [])) (sym same) over) in
      (u, subst (λ k. del_workload k v ≡ some u) id gone, ClientsOver-IsRestored s u back)

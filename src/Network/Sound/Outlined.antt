-- ===== src/Network/Sound/Outlined.antt =====
-- Sound tables do not depend on what the outline forgets.
use workload_compactor.Base.{◌≡◌, ◌∙◌, sym, ap, subst, nat_key, string_key, Double}
use workload_compactor.Base.Table.Without.{
  map_option, lookup-map_values, lookup-map_values-none, map_values-IsDistinct,
  IsDistinct-map_values,
}
use workload_compactor.Network.Types.{Network}
use workload_compactor.Network.Outline.{plain_flow, plain_client, outline}
use workload_compactor.Network.Sound.{IsSound}

module _ {W : Type 0} ⦃d : Double W⦄ where
  outline-IsSound : (s : Network W) → IsSound s → IsSound (outline s)
  unfolding outline
  outline-IsSound s h = record {
    numbered = record {
      flows = λ k up.
          lookup-map_values plain_flow k s.flows
          ∙ ap (map_option plain_flow) (h.numbered.flows k up);
      clients = λ k up.
          lookup-map_values plain_client k s.clients
          ∙ ap (map_option plain_client) (h.numbered.clients k up);
      entries = h.numbered.entries;
    };
    flows_distinct = map_values-IsDistinct plain_flow s.flows h.flows_distinct;
    clients_distinct = map_values-IsDistinct plain_client s.clients h.clients_distinct;
    queues_distinct = h.queues_distinct;
    flow_names_distinct = h.flow_names_distinct;
    client_names_distinct = h.client_names_distinct;
    flows_named = h.flows_named;
    clients_named = h.clients_named;
    flow_id_valid = h.flow_id_valid;
    client_id_valid = h.client_id_valid;
  }

  IsSound-outline : (s : Network W) → IsSound (outline s) → IsSound s
  unfolding outline
  IsSound-outline s h = record {
    numbered = record {
      flows = λ k up. lookup-map_values-none plain_flow k s.flows (h.numbered.flows k up);
      clients = λ k up. lookup-map_values-none plain_client k s.clients (h.numbered.clients k up);
      entries = h.numbered.entries;
    };
    flows_distinct = IsDistinct-map_values plain_flow s.flows h.flows_distinct;
    clients_distinct = IsDistinct-map_values plain_client s.clients h.clients_distinct;
    queues_distinct = h.queues_distinct;
    flow_names_distinct = h.flow_names_distinct;
    client_names_distinct = h.client_names_distinct;
    flows_named = h.flows_named;
    clients_named = h.clients_named;
    flow_id_valid = h.flow_id_valid;
    client_id_valid = h.client_id_valid;
  }

  pub same_outline-IsSound : (s t : Network W) → outline t ≡ outline s → IsSound s → IsSound t
  same_outline-IsSound s t e h = IsSound-outline t (subst IsSound (sym e) (outline-IsSound s h))

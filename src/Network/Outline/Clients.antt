-- ===== src/Network/Outline/Clients.antt =====
-- A network that is another one with new clients and their flows, and its way back: WorkloadCompactor
-- marks the queues of a client's flows, and `delClient` deletes it.
use workload_compactor.Base.{
  ℕ, ◌≡◌, refl, sym, ap, subst, ◌∙◌, Bool, false, ◌||◌, ◌==◌, List, [], ◌∷◌, ◌++◌, map, some,
  String, nat_key, string_key, All, All-both, Double,
}
use workload_compactor.Base.Table.{lookup, erase, lookup-erase_ne}
use workload_compactor.Base.Table.Distinct.{IsDistinct, erase-IsDistinct}
use workload_compactor.Base.Table.Sets.{Set}
use workload_compactor.Base.Table.Without.{
  map_option-some, map_values, without, without-erase, lookup-map_values, map_values-erase,
}
use workload_compactor.Network.Types.{Flow, Client, Network}
use workload_compactor.Network.Registry.{del_flows, del_client}
use workload_compactor.Network.Compactor.{insert_all, mark_flows, mark_client, del_workload}
use workload_compactor.Network.Outline.{plain_flow, plain_client, outline}
use workload_compactor.Network.Outline.Flows.{
  NewFlow, IsThere, FlowsOver, FlowsOver-clients, del_flows-FlowsOver,
}

pub record NewClient : Type 0 where
  pub id : ℕ
  pub name : String
  pub flows : List NewFlow

abbrev pub has_client : List NewClient → ℕ → Bool
has_client [] j = false
has_client (n ∷ ns) j = n.id == j || has_client ns j

abbrev pub has_client_name : List NewClient → String → Bool
has_client_name [] m = false
has_client_name (n ∷ ns) m = string_key.beq n.name m || has_client_name ns m

abbrev pub AreApart : List NewClient → Type 0
AreApart [] = Unit
AreApart (n ∷ ns) = All (λ (m : NewClient). (n.id == m.id) ≡ false) ns × AreApart ns

abbrev pub all_flows : List NewClient → List NewFlow
all_flows [] = []
all_flows (n ∷ ns) = n.flows ++ all_flows ns

abbrev pub flow_ids_of : List NewFlow → List ℕ
flow_ids_of = map (λ (f : NewFlow). f.id)

abbrev pub client_ids_of : List NewClient → List ℕ
client_ids_of = map (λ (n : NewClient). n.id)

module _ {W : Type 0} where
  abbrev pub IsRegistered : Network W → NewClient → Type 0
  IsRegistered s n =
      (c : Client W) × (lookup n.id s.clients ≡ some c)
      × (c.name ≡ n.name)
      × (c.flow_ids ≡ flow_ids_of n.flows)

  -- The network is the base with the new clients, and their flows.
  pub record ClientsOver (base : Network W) (ns : List NewClient) (s : Network W) : Type 0 where
    pub clients : without (has_client ns) s.clients ≡ base.clients
    pub client_ids : without (has_client_name ns) s.client_ids ≡ base.client_ids
    pub queue_ids : s.queue_ids ≡ base.queue_ids
    pub clients_distinct : IsDistinct s.clients
    pub client_names_distinct : IsDistinct s.client_ids
    pub registered : All (IsRegistered s) ns
    pub clients_apart : AreApart ns
    pub over : FlowsOver base (all_flows ns) s

  mark_flows-some :
      (fs : List ℕ) (s : Network W)
      → All (λ f. (g : Flow W) × (lookup f s.flows ≡ some g)) fs
      → (a : Set) × (mark_flows fs s ≡ some (record s { affected_queue_ids = a }))
  unfolding mark_flows
  mark_flows-some [] s h = (s.affected_queue_ids, refl)
  mark_flows-some (f ∷ fs) s h =
      let (g, at) = h.0 in
      let (a, rest) =
        mark_flows-some fs
          (record s { affected_queue_ids = insert_all g.queue_ids s.affected_queue_ids }) h.1 in
      (a, rw (at, mark_flows) rest)

module _ {W : Type 0} ⦃d : Double W⦄ where
  del_workload-runs :
      (i : ℕ) (s v : Network W) (c : Client W) (a : Set)
      → lookup i s.clients ≡ some c
      → mark_flows c.flow_ids s ≡ some (record s { affected_queue_ids = a })
      → del_flows c.flow_ids (record s { affected_queue_ids = a }) ≡ some v
      → del_workload i s
        ≡ some (record v { client_ids = erase c.name v.client_ids; clients = erase i v.clients })
  unfolding del_workload mark_client del_client
  del_workload-runs i s v c a found marked gone = rw (found, marked, found, gone) refl

module _ {W : Type 0} ⦃d : Double W⦄ (base : Network W) where
  flows_found :
      (s : Network W) (fs gs : List NewFlow)
      → All (IsThere (outline s)) (fs ++ gs)
      → All (λ f. (g : Flow W) × (lookup f s.flows ≡ some g)) (flow_ids_of fs)
  unfolding outline
  flows_found s [] gs h = tt
  flows_found s (f ∷ fs) gs h =
      let (g, at, name, queues) = h.0.0 in
      let (x, found, same) =
        map_option-some plain_flow (lookup f.id s.flows) g
          (sym (lookup-map_values plain_flow f.id s.flows) ∙ at) in
      ((x, found), flows_found s fs gs h.1)

  -- WorkloadCompactor::delClient of the first of the new clients.
  pub del_workload-ClientsOver :
      (n : NewClient) (ns : List NewClient) (s : Network W)
      → ClientsOver base (n ∷ ns) (outline s)
      → (t : Network W) × (del_workload n.id s ≡ some t) × ClientsOver base ns (outline t)
  unfolding outline plain_client
  del_workload-ClientsOver n ns s o =
      let (e, at, named, owned) = o.registered.0 in
      let (c, found, same) =
        map_option-some plain_client (lookup n.id s.clients) e
          (sym (lookup-map_values plain_client n.id s.clients) ∙ at) in
      let name : c.name ≡ n.name = ap (λ (x : Client W). x.name) same ∙ named in
      let flows : c.flow_ids ≡ flow_ids_of n.flows =
        ap (λ (x : Client W). x.flow_ids) same ∙ owned in
      let (a, marked) = mark_flows-some c.flow_ids s (
        subst (λ fs. All (λ f. (g : Flow W) × (lookup f s.flows ≡ some g)) fs) (sym flows)
          (flows_found s n.flows (all_flows ns) o.over.there)) in
      let u : Network W = record s { affected_queue_ids = a } in
      let (v, gone, over, (x, y, z)) = del_flows-FlowsOver base n.flows (all_flows ns) u o.over in
      let gone' : del_flows c.flow_ids u ≡ some v =
        subst (λ fs. del_flows fs u ≡ some v) (sym flows) gone in
      let t : Network W = record v {
        client_ids = erase c.name v.client_ids;
        clients = erase n.id v.clients;
      } in
      let table = map_values plain_client s.clients in
      let erased : map_values plain_client (erase n.id v.clients) ≡ erase n.id table =
        map_values-erase plain_client n.id v.clients
        ∙ ap (λ m. erase n.id (map_values plain_client m)) x in
      (
        t,
        del_workload-runs n.id s v c a found marked gone',
        record {
          clients =
              ap (without (has_client ns)) erased
              ∙ sym (without-erase (has_client ns) n.id table o.clients_distinct)
              ∙ o.clients;
          client_ids =
              (λ i. without (has_client_name ns) (erase (name i) (y i)))
              ∙ sym (without-erase (has_client_name ns) n.name s.client_ids o.client_names_distinct)
              ∙ o.client_ids;
          queue_ids = z ∙ o.queue_ids;
          clients_distinct =
              subst (λ m. IsDistinct m) (sym erased)
                (erase-IsDistinct n.id table o.clients_distinct);
          client_names_distinct =
              subst (λ m. IsDistinct (erase c.name m)) (sym y)
                (erase-IsDistinct c.name s.client_ids o.client_names_distinct);
          registered =
              All-both (λ (k : NewClient). (n.id == k.id) ≡ false) (IsRegistered (outline s))
                (IsRegistered (outline t))
                (λ k ne (b, b_at, b_name, b_flows). (
                  b,
                  ap (lookup k.id) erased ∙ lookup-erase_ne n.id k.id table ne ∙ b_at,
                  b_name,
                  b_flows,
                ))
                ns o.clients_apart.0 o.registered.1;
          clients_apart = o.clients_apart.1;
          over = FlowsOver-clients base (all_flows ns) (outline v) _ _ v.next_client_id over;
        },
      )

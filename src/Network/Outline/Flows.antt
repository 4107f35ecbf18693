-- ===== src/Network/Outline/Flows.antt =====
-- A network that is another one with new flows: each that `delClient` deletes is one fewer.
use workload_compactor.Base.{
  ℕ, ◌≡◌, refl, sym, ap, subst, ◌∙◌, Bool, false, ◌||◌, ◌==◌, List, [], ◌∷◌, ◌++◌, map, some,
  String, nat_key, string_key, All, All-map, All-both, Double,
}
use workload_compactor.Base.Table.{Table, lookup, erase, lookup-erase_ne}
use workload_compactor.Base.Table.Distinct.{IsDistinct, erase-IsDistinct}
use workload_compactor.Base.Table.Without.{
  map_option-some, map_values, without, without-erase, lookup-map_values, map_values-erase,
}
use workload_compactor.Network.Types.{Flow, Client, Queue, Network}
use workload_compactor.Network.Registry.{leave_queues, del_flow, del_flows}
use workload_compactor.Network.Registry.Entries.{times, purge, Counted, IsFound}
use workload_compactor.Network.Registry.Counts.{leave_queues-purge}
use workload_compactor.Network.Outline.{plain_flow, outline}

pub record NewFlow : Type 0 where
  pub id : ℕ
  pub name : String
  pub queue_ids : List ℕ

abbrev pub has_id : List NewFlow → ℕ → Bool
has_id [] j = false
has_id (f ∷ fs) j = f.id == j || has_id fs j

abbrev pub has_name : List NewFlow → String → Bool
has_name [] n = false
has_name (f ∷ fs) n = string_key.beq f.name n || has_name fs n

abbrev pub IsApart : List NewFlow → Type 0
IsApart [] = Unit
IsApart (f ∷ fs) = All (λ (g : NewFlow). (f.id == g.id) ≡ false) fs × IsApart fs

module _ {W : Type 0} where
  -- The flow is in the tables, and has an entry at most for each time that it visits a queue.
  abbrev pub IsThere : Network W → NewFlow → Type 0
  IsThere s f =
      ((g : Flow W) × (lookup f.id s.flows ≡ some g)
        × (g.name ≡ f.name)
        × (g.queue_ids ≡ f.queue_ids))
      × IsFound f.queue_ids s.queues
      × Counted f.id (λ j. times j f.queue_ids) s.queues

  -- The network is the base with the new flows.
  pub record FlowsOver (base : Network W) (fs : List NewFlow) (s : Network W) : Type 0 where
    pub flows : without (has_id fs) s.flows ≡ base.flows
    pub flow_ids : without (has_name fs) s.flow_ids ≡ base.flow_ids
    pub queues : purge (has_id fs) s.queues ≡ base.queues
    pub flows_distinct : IsDistinct s.flows
    pub names_distinct : IsDistinct s.flow_ids
    pub queues_distinct : IsDistinct s.queues
    pub there : All (IsThere s) fs
    pub apart : IsApart fs

  -- The clients play no part.
  pub FlowsOver-clients :
      (base : Network W) (fs : List NewFlow) (s : Network W) (cs : Table ℕ (Client W))
      (ids : Table String ℕ) (next : ℕ)
      → FlowsOver base fs s
      → FlowsOver base fs (record s { clients = cs; client_ids = ids; next_client_id = next })
  FlowsOver-clients base fs s cs ids next o = record {
    flows = o.flows;
    flow_ids = o.flow_ids;
    queues = o.queues;
    flows_distinct = o.flows_distinct;
    names_distinct = o.names_distinct;
    queues_distinct = o.queues_distinct;
    there = All-map (IsThere s) _ (λ f t. (t.0, t.1, t.2)) fs o.there;
    apart = o.apart;
  }

  -- What the deletion of flows leaves alone.
  abbrev pub SameClients : Network W → Network W → Type 0
  SameClients s t =
      (t.clients ≡ s.clients) × (t.client_ids ≡ s.client_ids) × (t.queue_ids ≡ s.queue_ids)

  del_flow-runs :
      (i : ℕ) (s : Network W) (f : Flow W) (qs : Table ℕ (Queue W))
      → lookup i s.flows ≡ some f
      → leave_queues i f.queue_ids s.queues ≡ some qs
      → del_flow i s
        ≡ some
            (record s { queues = qs; flow_ids = erase f.name s.flow_ids; flows = erase i s.flows })
  unfolding del_flow
  del_flow-runs i s f qs found left = rw (found, left) refl

module _ {W : Type 0} ⦃d : Double W⦄ (base : Network W) where
  del_flow-FlowsOver :
      (f : NewFlow) (fs : List NewFlow) (s : Network W)
      → FlowsOver base (f ∷ fs) (outline s)
      → (t : Network W) × (del_flow f.id s ≡ some t)
        × FlowsOver base fs (outline t)
        × SameClients s t
  unfolding del_flow outline plain_flow
  del_flow-FlowsOver f fs s o =
      let ((g, at, named, visits), found, counted) = o.there.0 in
      let (h, found_at, same) =
        map_option-some plain_flow (lookup f.id s.flows) g
          (sym (lookup-map_values plain_flow f.id s.flows) ∙ at) in
      let name : h.name ≡ f.name = ap (λ (x : Flow W). x.name) same ∙ named in
      let queues : h.queue_ids ≡ f.queue_ids = ap (λ (x : Flow W). x.queue_ids) same ∙ visits in
      let (qs, left, purged, (distinct, finds, counts)) =
        leave_queues-purge (has_id fs) f.id f.queue_ids s.queues o.queues_distinct found counted in
      let left' : leave_queues f.id h.queue_ids s.queues ≡ some qs =
        subst (λ is. leave_queues f.id is s.queues ≡ some qs) (sym queues) left in
      let t : Network W = record s {
        queues = qs;
        flow_ids = erase h.name s.flow_ids;
        flows = erase f.id s.flows;
      } in
      let erased = map_values-erase plain_flow f.id s.flows in
      (
        t,
        del_flow-runs f.id s h qs found_at left',
        record {
          flows =
              ap (without (has_id fs)) erased
              ∙ sym
                  (without-erase (has_id fs) f.id (map_values plain_flow s.flows) o.flows_distinct)
              ∙ o.flows;
          flow_ids =
              ap (λ n. without (has_name fs) (erase n s.flow_ids)) name
              ∙ sym (without-erase (has_name fs) f.name s.flow_ids o.names_distinct)
              ∙ o.flow_ids;
          queues = sym purged ∙ o.queues;
          flows_distinct =
              subst (λ m. IsDistinct m) (sym erased)
                (erase-IsDistinct f.id (map_values plain_flow s.flows) o.flows_distinct);
          names_distinct = erase-IsDistinct h.name s.flow_ids o.names_distinct;
          queues_distinct = distinct o.queues_distinct;
          there =
              All-both (λ (k : NewFlow). (f.id == k.id) ≡ false) (IsThere (outline s))
                (IsThere (outline t))
                (λ k ne ((x, x_at, x_name, x_queues), x_found, x_counted). (
                  (
                    x,
                    ap (lookup k.id) erased
                        ∙ lookup-erase_ne f.id k.id (map_values plain_flow s.flows) ne
                        ∙ x_at,
                    x_name,
                    x_queues,
                  ),
                  finds k.queue_ids x_found,
                  counts k.id _ x_counted,
                ))
                fs o.apart.0 o.there.1;
          apart = o.apart.1;
        },
        (refl, refl, refl),
      )

  -- The deletion of flows that come first among the new ones.
  pub del_flows-FlowsOver :
      (fs gs : List NewFlow) (s : Network W)
      → FlowsOver base (fs ++ gs) (outline s)
      → (t : Network W) × (del_flows (map (λ (f : NewFlow). f.id) fs) s ≡ some t)
        × FlowsOver base gs (outline t)
        × SameClients s t
  unfolding del_flows
  del_flows-FlowsOver [] gs s o = (s, refl, o, (refl, refl, refl))
  del_flows-FlowsOver (f ∷ fs) gs s o =
      let (t, deleted, over, (a, b, c)) = del_flow-FlowsOver f (fs ++ gs) s o in
      let (u, rest, ends, (x, y, z)) = del_flows-FlowsOver fs gs t over in
      (u, rw (deleted, del_flows) rest, ends, (x ∙ a, y ∙ b, z ∙ c))

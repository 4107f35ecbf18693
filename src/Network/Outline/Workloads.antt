-- ===== src/Network/Outline/Workloads.antt =====
-- WorkloadCompactor::addClient, with what it leaves for the next call.
use workload_compactor.Base.{
  bind-some, ℕ, ◌+◌, ◌^◌, ◌<◌, ◌≡◌, refl, sym, ap, subst, ◌∙◌, List, [], ◌∷◌, ◌++◌, none, some,
  String, nat_key, string_key, Double, length, Option-cases, inl, inr,
}
use workload_compactor.Base.Table.{lookup}
use workload_compactor.Base.Table.Sets.{Set}
use workload_compactor.Network.Types.{Network, ClientInfo}
use workload_compactor.Network.Registry.{
  text_of, elements, next_id, init_flows, init_client, add_client,
}
use workload_compactor.Network.Compactor.{insert_all, mark_flows, mark_client, add_workload}
use workload_compactor.Network.Outline.{outline}
use workload_compactor.Network.Outline.Flows.{FlowsOver-clients}
use workload_compactor.Network.Outline.Clients.{NewClient, all_flows, ClientsOver}
use workload_compactor.Network.Outline.Entered.{
  HasNewNames, HasNewNames-insert, next_id-suc, IsNumbered,
}
use workload_compactor.Network.Outline.Added.{begun-IsNumbered, added-ClientsOver}
use workload_compactor.Network.Outline.Registered.{flow_names, init_flows-Enters}

module _ {W : Type 0} ⦃d : Double W⦄ (base : Network W) (percentile : W) where
  -- The network with one new client more; the names that are left are still unused.
  abbrev pub Adds :
      List NewClient → List String → List String → ClientInfo W → Network W → ℕ × Network W → Type 0
  Adds ns names more info s r =
      (n : NewClient) × (n.id ≡ r.0)
      × (r.0 ≡ s.next_client_id)
      × ClientsOver base (ns ++ n ∷ []) (outline r.1)
      × IsNumbered r.1
      × HasNewNames names r.1.client_ids
      × HasNewNames more r.1.flow_ids
      × (r.1.next_client_id ≡ s.next_client_id + 1)
      × (r.1.next_flow_id ≡ s.next_flow_id + length (elements info.flows))

  module _ (ns : List NewClient) (names more : List String) (info : ClientInfo W) (s : Network W)
      (o : ClientsOver base ns (outline s)) (numbered : IsNumbered s)
      (unused : HasNewNames (text_of info.name ∷ names) s.client_ids)
      (unused_flows : HasNewNames (flow_names (elements info.flows) ++ more) s.flow_ids)
      (room : s.next_client_id + 1 < 2 ^ 32)
      (flow_room : s.next_flow_id + length (elements info.flows) < 2 ^ 32) where
    add_client-Adds :
        (r : ℕ × Network W) → add_client percentile info s ≡ some r → Adds ns names more info s r
    unfolding add_client init_client outline
    add_client-Adds r e =
        let i = s.next_client_id in
        let begun = init_client percentile info s in
        let (t, entered, end) = bind-some (init_flows (elements info.flows) i begun) _ r e in
        let same : (i, t) ≡ r = cc in
        let (news, over, numbered', unused', clients, (x, y, z), count) =
          init_flows-Enters base i (elements info.flows) (all_flows ns) more begun t entered
            (FlowsOver-clients base (all_flows ns) (outline s) _ _ (next_id i) o.over)
            (begun-IsNumbered percentile info s room numbered) unused_flows flow_room in
        subst (Adds ns names more info s) same (
          record { id = i; name = text_of info.name; flows = news },
          refl,
          refl,
          added-ClientsOver percentile info s numbered news t clients base ns o unused.0 x y over,
          numbered',
          subst (HasNewNames names) (sym x)
              (HasNewNames-insert (text_of info.name) i names s.client_ids unused.1 unused.2),
          unused',
          z ∙ next_id-suc i room,
          count,
        )

pub mark_flows-same :
    {W : Type 0} (fs : List ℕ) (s t : Network W)
    → mark_flows fs s ≡ some t
    → (a : Set) × (record s { affected_queue_ids = a } ≡ t)
unfolding mark_flows
mark_flows-same [] s t e = (s.affected_queue_ids, cc)
mark_flows-same (f ∷ fs) s t e = elim (Option-cases (lookup f s.flows)) [
  | inl h ↦ let never : none ≡ some t = rw (h, mark_flows) at e in cc
  | inr (g, h) ↦
      mark_flows-same fs
        (record s { affected_queue_ids = insert_all g.queue_ids s.affected_queue_ids }) t
        (rw (h, mark_flows) at e)
]

module _ {W : Type 0} ⦃d : Double W⦄ (base : Network W) (percentile : W) (ns : List NewClient)
    (names more : List String) (info : ClientInfo W) (s : Network W) where
  Adds-marked :
      (i : ℕ) (t : Network W) (a : Set)
      → Adds base percentile ns names more info s (i, t)
      → Adds base percentile ns names more info s (i, record t { affected_queue_ids = a })
  unfolding outline
  Adds-marked i t a (n, same, first, o, numbered, unused, flows, next, next_flow) = (
    n,
    same,
    first,
    o,
    record { flows = numbered.flows; clients = numbered.clients; entries = numbered.entries },
    unused,
    flows,
    next,
    next_flow,
  )

  -- WorkloadCompactor::addClient, where it returns.
  pub add_workload-Adds :
      ClientsOver base ns (outline s)
      → IsNumbered s
      → HasNewNames (text_of info.name ∷ names) s.client_ids
      → HasNewNames (flow_names (elements info.flows) ++ more) s.flow_ids
      → s.next_client_id + 1 < 2 ^ 32
      → s.next_flow_id + length (elements info.flows) < 2 ^ 32
      → (r : ℕ × Network W) → add_workload percentile info s ≡ some r
      → Adds base percentile ns names more info s r
  unfolding add_workload mark_client
  add_workload-Adds o numbered unused unused_flows room flow_room r e =
      let (p, added, x) = bind-some (add_client percentile info s) _ r e in
      let (u, marked, end) = bind-some (mark_client p.0 p.1) _ r x in
      let (c, found, y) = bind-some (lookup p.0 p.1.clients) _ u marked in
      let (a, same) = mark_flows-same c.flow_ids p.1 u y in
      let whole : (p.0, u) ≡ r = cc in
      subst (Adds base percentile ns names more info s) (ap (λ v. (p.0, v)) same ∙ whole) (
        Adds-marked p.0 p.1 a (
          add_client-Adds base percentile ns names more info s o numbered unused unused_flows room
            flow_room p added))

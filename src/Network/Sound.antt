-- ===== src/Network/Sound.antt =====
-- What holds of the tables of a network at all times, while the counters do not wrap around.
use workload_compactor.Base.{
  bind-some, guard-some, ℕ, ◌+◌, ◌^◌, ◌≤◌, ◌<◌, ◌≡◌, refl, sym, ap, subst, ◌∙◌, Bool, List, [], ◌∷◌,
  Option, none, some, String, arith, nat_key, string_key, ==_iff, Bool-cases, Option-cases, inl,
  inr, Double, is_empty, length, Key,
}
use workload_compactor.Base.Table.{
  Table, lookup, place, replace, insert, erase, adjust, lookup-insert_other,
}
use workload_compactor.Base.Table.Distinct.{
  IsDistinct, insert-IsDistinct, erase-IsDistinct, adjust-IsDistinct, lookup-erase-none,
  lookup_absent-adjust,
}
use workload_compactor.Base.Table.Total.{AllValues, insert-AllValues}
use workload_compactor.Base.Table.Without.{map_option, map_values, lookup-map_values}
use workload_compactor.Network.Types.{Flow, Client, Queue, Network, FlowInfo, ClientInfo, QueueInfo}
use workload_compactor.Network.Registry.{
  next_id, text_of, elements, push_flow_id, drop_flow, leave_queues, del_flow, del_flows,
  del_client, del_queue, init_flow, init_flows, init_client, add_client, add_queue,
}
use workload_compactor.Network.Registry.Entries.{entries, Counted}
use workload_compactor.Network.Registry.Counts.{shrinks, enter-IsDistinct}
use workload_compactor.Network.Compactor.{mark_client, add_workload, del_workload}
use workload_compactor.Network.Outline.{plain_flow, plain_client, outline}
use workload_compactor.Network.Outline.Entered.{
  IsNumbered, next_id-suc, after, after-IsNumbered, init_flow-after,
}
use workload_compactor.Network.Outline.Workloads.{mark_flows-same}
pub mod Changes
pub mod Outlined
pub mod Queues

pub AllValues-erase :
    {K V : Type 0} ⦃key : Key K⦄ (P : V → Type 0) (k : K) (m : Table K V)
    → AllValues P m
    → AllValues P (erase k m)
unfolding erase
AllValues-erase P k [] h = tt
AllValues-erase P k ((j, w) ∷ m) h = ground (arith, AllValues-erase P k m h.1)

-- An id that is not the invalid one.
abbrev pub IsValid : ℕ → Type 0
IsValid i = 0 < i

module _ {W : Type 0} where
  -- The tables have one entry for each key, the counters are ahead of the ids in use, and no name has
  -- the invalid id.
  pub record IsSound (s : Network W) : Type 0 where
    pub numbered : IsNumbered s
    pub flows_distinct : IsDistinct s.flows
    pub clients_distinct : IsDistinct s.clients
    pub queues_distinct : IsDistinct s.queues
    pub flow_names_distinct : IsDistinct s.flow_ids
    pub client_names_distinct : IsDistinct s.client_ids
    pub flows_named : AllValues IsValid s.flow_ids
    pub clients_named : AllValues IsValid s.client_ids
    pub flow_id_valid : IsValid s.next_flow_id
    pub client_id_valid : IsValid s.next_client_id

  Counted-place :
      (f i : ℕ) (q : Queue W) (qs : Table ℕ (Queue W))
      → entries f q.flows ≤ 0
      → Counted f (λ j. 0) qs
      → Counted f (λ j. 0) (place i q qs)
  unfolding place
  Counted-place f i q [] h c = (h, tt)
  Counted-place f i q ((j, r) ∷ qs) h c = ground (arith, Counted-place f i q qs h c.1)

  Counted-replace :
      (f i : ℕ) (q : Queue W) (qs : Table ℕ (Queue W))
      → entries f q.flows ≤ 0
      → Counted f (λ j. 0) qs
      → Counted f (λ j. 0) (replace i q qs)
  unfolding replace
  Counted-replace f i q [] h c = tt
  Counted-replace f i q ((j, r) ∷ qs) h c = ground (arith, Counted-replace f i q qs h c.1)

  pub Counted-insert :
      (f i : ℕ) (q : Queue W) (qs : Table ℕ (Queue W))
      → entries f q.flows ≤ 0
      → Counted f (λ j. 0) qs
      → Counted f (λ j. 0) (insert i q qs)
  unfolding insert
  Counted-insert f i q qs h c = elim (Option-cases (lookup i qs)) [
    | inl e ↦ rw (e, insert) (Counted-place f i q qs h c)
    | inr (r, e) ↦ rw (e, insert) (Counted-replace f i q qs h c)
  ]

  pub Counted-erase :
      (f i : ℕ) (qs : Table ℕ (Queue W)) → Counted f (λ j. 0) qs → Counted f (λ j. 0) (erase i qs)
  unfolding erase
  Counted-erase f i [] c = tt
  Counted-erase f i ((j, r) ∷ qs) c = ground (arith, Counted-erase f i qs c.1)

  -- The loop of `delClient` over a flow's queues only takes entries away.
  leave-keeps :
      (f : ℕ) (is : List ℕ) (qs qs' : Table ℕ (Queue W))
      → leave_queues f is qs ≡ some qs'
      → (IsDistinct qs → IsDistinct qs')
        × ((g : ℕ) → Counted g (λ j. 0) qs → Counted g (λ j. 0) qs')
  unfolding leave_queues
  leave-keeps f [] qs qs' e =
      let same : qs ≡ qs' = cc in
      (λ d. subst (λ m. IsDistinct m) same d, λ g c. subst (Counted g (λ j. 0)) same c)
  leave-keeps f (i ∷ is) qs qs' e = elim (Option-cases (lookup i qs)) [
    | inl h ↦ let never : none ≡ some qs' = rw (h, leave_queues) at e in cc
    | inr (q, h) ↦
        let (x, y) = leave-keeps f is (adjust i (drop_flow f) qs) qs' (rw (h, leave_queues) at e) in
        (λ d. x (adjust-IsDistinct i (drop_flow f) qs d), λ g c. y g (shrinks f g (λ j. 0) i qs c))
  ]

  del_flow-IsSound : (i : ℕ) (s t : Network W) → del_flow i s ≡ some t → IsSound s → IsSound t
  unfolding del_flow
  del_flow-IsSound i s t e h =
      let (f, found, x) = bind-some (lookup i s.flows) _ t e in
      let (qs, left, y) = bind-some (leave_queues i f.queue_ids s.queues) _ t x in
      let (d, c) = leave-keeps i f.queue_ids s.queues qs left in
      let u : Network W = record s {
        queues = qs;
        flow_ids = erase f.name s.flow_ids;
        flows = erase i s.flows;
      } in
      let same : u ≡ t = cc in
      subst IsSound same (record {
        numbered = record {
          flows = λ k up. lookup-erase-none k i s.flows (h.numbered.flows k up);
          clients = h.numbered.clients;
          entries = λ k up. c k (h.numbered.entries k up);
        };
        flows_distinct = erase-IsDistinct i s.flows h.flows_distinct;
        clients_distinct = h.clients_distinct;
        queues_distinct = d h.queues_distinct;
        flow_names_distinct = erase-IsDistinct f.name s.flow_ids h.flow_names_distinct;
        client_names_distinct = h.client_names_distinct;
        flows_named = AllValues-erase IsValid f.name s.flow_ids h.flows_named;
        clients_named = h.clients_named;
        flow_id_valid = h.flow_id_valid;
        client_id_valid = h.client_id_valid;
      })

  pub del_flows-IsSound :
      (is : List ℕ) (s t : Network W) → del_flows is s ≡ some t → IsSound s → IsSound t
  unfolding del_flows
  del_flows-IsSound [] s t e h = let same : s ≡ t = cc in subst IsSound same h
  del_flows-IsSound (i ∷ is) s t e h =
      let (u, first, rest) = bind-some (del_flow i s) _ t e in
      del_flows-IsSound is u t rest (del_flow-IsSound i s u first h)

  pub marked-IsSound :
      (s : Network W) (a : Table ℕ (Unit {0}))
      → IsSound s
      → IsSound (record s { affected_queue_ids = a })
  marked-IsSound s a h = record {
    numbered = record {
      flows = h.numbered.flows;
      clients = h.numbered.clients;
      entries = h.numbered.entries;
    };
    flows_distinct = h.flows_distinct;
    clients_distinct = h.clients_distinct;
    queues_distinct = h.queues_distinct;
    flow_names_distinct = h.flow_names_distinct;
    client_names_distinct = h.client_names_distinct;
    flows_named = h.flows_named;
    clients_named = h.clients_named;
    flow_id_valid = h.flow_id_valid;
    client_id_valid = h.client_id_valid;
  }

  pub mark_client-same :
      (i : ℕ) (s t : Network W)
      → mark_client i s ≡ some t
      → (a : Table ℕ (Unit {0})) × (record s { affected_queue_ids = a } ≡ t)
  unfolding mark_client
  mark_client-same i s t e =
      let (c, found, x) = bind-some (lookup i s.clients) _ t e in mark_flows-same c.flow_ids s t x

  pub mark_client-IsSound :
      (i : ℕ) (s t : Network W) → mark_client i s ≡ some t → IsSound s → IsSound t
  mark_client-IsSound i s t e h =
      let (a, same) = mark_client-same i s t e in subst IsSound same (marked-IsSound s a h)

  del_flow-counters :
      (i : ℕ) (s t : Network W) → del_flow i s ≡ some t → t.next_client_id ≡ s.next_client_id
  unfolding del_flow
  del_flow-counters i s t e =
      let (f, found, x) = bind-some (lookup i s.flows) _ t e in
      let (qs, left, y) = bind-some (leave_queues i f.queue_ids s.queues) _ t x in
      let u : Network W = record s {
        queues = qs;
        flow_ids = erase f.name s.flow_ids;
        flows = erase i s.flows;
      } in
      let same : u ≡ t = cc in ap (λ (v : Network W). v.next_client_id) (sym same)

  pub del_flows-counters :
      (is : List ℕ) (s t : Network W)
      → del_flows is s ≡ some t
      → t.next_client_id ≡ s.next_client_id
  unfolding del_flows
  del_flows-counters [] s t e =
      let same : s ≡ t = cc in ap (λ (v : Network W). v.next_client_id) (sym same)
  del_flows-counters (i ∷ is) s t e =
      let (u, first, rest) = bind-some (del_flow i s) _ t e in
      del_flows-counters is u t rest ∙ del_flow-counters i s u first

-- ===== src/Admission/Undone.antt =====
-- The loops of the AddClients request that add the clients, and delete them again.
use workload_compactor.Base.{
  bind-some, fun_ext, ℕ, ◌+◌, ◌^◌, ◌≤◌, ◌<◌, ◌≡◌, refl, ◌∙◌, sym, ap, subst, ◌||◌, ◌==◌, List, [],
  ◌∷◌, ◌++◌, none, some, nat_key, string_key, arith, Double, length, append_nil, append_assoc,
  length-append,
}
use workload_compactor.Base.Table.{lookup, insert, erase, lookup-insert_other}
use workload_compactor.Base.Table.Distinct.{IsDistinct, insert-IsDistinct, erase-IsDistinct}
use workload_compactor.Base.Table.Without.{without, without-insert, without-erase}
use workload_compactor.Network.Types.{ClientInfo}
use workload_compactor.Network.Registry.{elements}
use workload_compactor.Network.Compactor.{add_workload}
use workload_compactor.Network.Solver.{Glpk}
use workload_compactor.Network.Outline.{outline}
use workload_compactor.Network.Outline.Clients.{
  NewClient, has_client, client_ids_of, ClientsOver, del_workload-ClientsOver,
}
use workload_compactor.Network.Outline.Entered.{HasNewNames, IsNumbered}
use workload_compactor.Network.Outline.Registered.{
  flow_names, client_names, all_flow_infos, flow_names-append,
}
use workload_compactor.Network.Outline.Added.{has_client-append}
use workload_compactor.Network.Outline.Workloads.{add_workload-Adds}
use workload_compactor.Admission.Server.{Controller, add_all, del_all}

module _ {W : Type 0} where
  -- The counters are ahead of the ids in use.
  pub record IsAhead (c : Controller W) : Type 0 where
    pub numbered : IsNumbered c.network
    pub stored : (k : ℕ) → c.network.next_client_id ≤ k → lookup k c.store ≡ none

module _ {W : Type 0} ⦃d : Double W⦄ (base : Controller W) where
  -- The controller is the base with the new clients; the clients' descriptions are stored.
  pub record Holds (ns : List NewClient) (c : Controller W) : Type 0 where
    pub over : ClientsOver (outline base.network) ns (outline c.network)
    pub store : without (has_client ns) c.store ≡ base.store
    pub store_distinct : IsDistinct c.store

module _ {W : Type 0} ⦃d : Double W⦄ (glpk : Glpk W) (margin percentile hundred near_one : W)
    (fuel : ℕ) (base : Controller W) where
  -- The loop that deletes the new clients does not fail.
  pub del_all-Holds :
      (ns : List NewClient) (c : Controller W)
      → Holds base ns c
      → (u : Controller W) × (del_all glpk margin percentile hundred near_one fuel
            (client_ids_of ns)
            c
          ≡ some u)
        × Holds base [] u
  unfolding del_all
  del_all-Holds [] c h = (c, refl, h)
  del_all-Holds (n ∷ ns) c h =
      let (s, gone, over) = del_workload-ClientsOver (outline base.network) n ns c.network h.over in
      let t : Controller W = record { network = s; store = erase n.id c.store } in
      let (u, rest, holds) = del_all-Holds ns t (record {
        over = over;
        store = sym (without-erase (has_client ns) n.id c.store h.store_distinct) ∙ h.store;
        store_distinct = erase-IsDistinct n.id c.store h.store_distinct;
      }) in
      (u, rw (gone, del_all) rest, holds)

  -- The loop that adds the clients of a request, where it returns.
  pub add_all-Holds :
      (infos : List (ClientInfo W)) (ns : List NewClient) (c : Controller W)
      (r : List ℕ × Controller W)
      → add_all glpk margin percentile hundred near_one fuel infos c ≡ some r
      → Holds base ns c
      → IsAhead c
      → HasNewNames (client_names infos) c.network.client_ids
      → HasNewNames (flow_names (all_flow_infos infos)) c.network.flow_ids
      → c.network.next_client_id + length infos < 2 ^ 32
      → c.network.next_flow_id + length (all_flow_infos infos) < 2 ^ 32
      → (news : List NewClient) × (client_ids_of news ≡ r.0) × Holds base (ns ++ news) r.1
  unfolding add_all
  add_all-Holds [] ns c r e h a unused unused_flows room flow_room =
      let ids : [] ≡ r.0 = cc in
      let same : c ≡ r.1 = cc in
      ([], ids, subst (λ x. Holds base x r.1) (sym (append_nil ns)) (subst (Holds base ns) same h))
  add_all-Holds (info ∷ infos) ns c r e h a unused unused_flows room flow_room =
      let (p, added, x) = bind-some (add_workload percentile info c.network) _ r e in
      let t : Controller W = record { network = p.1; store = insert p.0 info c.store } in
      let (q, rest, y) =
        bind-some (add_all glpk margin percentile hundred near_one fuel infos t) _ r x in
      let fits = length-append (elements info.flows) (all_flow_infos infos) in
      let (n, id, first_id, over, numbered, names, flows, next, next_flow) =
        add_workload-Adds (outline base.network) percentile ns (client_names infos)
          (flow_names (all_flow_infos infos)) info c.network h.over a.numbered unused
          (subst (λ m. HasNewNames m c.network.flow_ids)
            (flow_names-append (elements info.flows) (all_flow_infos infos)) unused_flows)
          (omega (arith, room)) (omega (arith, flow_room, fits)) p added in
      let i : p.0 ≡ c.network.next_client_id = first_id in
      let fresh : lookup p.0 c.store ≡ none = a.stored p.0 (omega (arith, i)) in
      let ids : has_client (ns ++ n ∷ []) ≡ λ j. has_client ns j || p.0 == j =
        fun_ext (has_client-append ns n) ∙ fun_ext (λ j. ap (λ k. has_client ns j || k == j) id) in
      let (news, same, holds) =
        add_all-Holds infos (ns ++ n ∷ []) t q rest
          (record {
            over = over;
            store =
                ap (λ f. without f t.store) ids
                ∙ without-insert (has_client ns) p.0 info c.store fresh
                ∙ h.store;
            store_distinct = insert-IsDistinct p.0 info c.store h.store_distinct;
          })
          (record {
            numbered = numbered;
            stored = λ k up.
                let more : p.0 < k = omega (arith, i, next, up) in
                lookup-insert_other p.0 k info c.store (ground arith)
                ∙ a.stored k (omega (arith, i));
          })
          names flows (omega (arith, next, room)) (omega (arith, next_flow, flow_room, fits)) in
      let first : p.0 ∷ q.0 ≡ r.0 = cc in
      let last : q.1 ≡ r.1 = cc in
      (
        n ∷ news,
        (λ k. id k ∷ same k) ∙ first,
        subst (λ z. Holds base z r.1) (append_assoc ns (n ∷ []) news)
            (subst (Holds base ((ns ++ n ∷ []) ++ news)) last holds),
      )

-- ===== src/Network/Outline/Registered.antt =====
-- What `addClient` adds: the client, and its flows one by one.
use workload_compactor.Base.{
  bind-some, fun_ext, ℕ, ◌+◌, ◌^◌, ◌<◌, ◌≡◌, refl, sym, ap, subst, ◌∙◌, List, [], ◌∷◌, ◌++◌, map,
  some, String, arith, nat_key, string_key, Double, length, append_nil, append_assoc,
}
use workload_compactor.Base.Table.{adjust, adjust-adjust, adjust_same}
use workload_compactor.Base.Table.Without.{map_values-adjust_lem}
use workload_compactor.Network.Types.{Client, Network, FlowInfo, ClientInfo}
use workload_compactor.Network.Registry.{text_of, elements, push_flow_id, init_flow, init_flows}
use workload_compactor.Network.Outline.{plain_client, outline}
use workload_compactor.Network.Outline.Flows.{NewFlow, FlowsOver}
use workload_compactor.Network.Outline.Clients.{flow_ids_of}
use workload_compactor.Network.Outline.Entered.{
  HasNewNames, HasNewNames-insert, next_id-suc, IsNumbered, new_flow, after, after-FlowsOver,
  after-IsNumbered, init_flow-after,
}

abbrev pub flow_names : {W : Type 0} → List (FlowInfo W) → List String
flow_names = map (λ i. text_of i.name)

abbrev pub client_names : {W : Type 0} → List (ClientInfo W) → List String
client_names = map (λ i. text_of i.name)

abbrev pub all_flow_infos : {W : Type 0} → List (ClientInfo W) → List (FlowInfo W)
all_flow_infos [] = []
all_flow_infos (i ∷ is) = elements i.flows ++ all_flow_infos is

pub flow_names-append :
    {W : Type 0} (xs ys : List (FlowInfo W))
    → flow_names (xs ++ ys) ≡ flow_names xs ++ flow_names ys
flow_names-append [] ys = refl
flow_names-append (x ∷ xs) ys = ap (λ ns. text_of x.name ∷ ns) (flow_names-append xs ys)

module _ {W : Type 0} where
  unfoldable pub push_ids : List ℕ → Client W → Client W
  push_ids ids c = record c { flow_ids = c.flow_ids ++ ids }

  -- What `initFlow` leaves alone.
  abbrev pub SameNames : Network W → Network W → Type 0
  SameNames s t =
      (t.client_ids ≡ s.client_ids)
      × (t.queue_ids ≡ s.queue_ids)
      × (t.next_client_id ≡ s.next_client_id)

module _ {W : Type 0} ⦃d : Double W⦄ (base : Network W) (cid : ℕ) where
  -- The flows that a loop over `initFlow` has entered.
  abbrev pub Enters : List NewFlow → ℕ → List String → Network W → Network W → Type 0
  Enters fs count more s t =
      (news : List NewFlow) × FlowsOver base (fs ++ news) (outline t)
      × IsNumbered t
      × HasNewNames more t.flow_ids
      × ((outline t).clients ≡ adjust cid (push_ids (flow_ids_of news)) (outline s).clients)
      × SameNames s t
      × (t.next_flow_id ≡ s.next_flow_id + count)

  pub init_flows-Enters :
      (infos : List (FlowInfo W)) (fs : List NewFlow) (more : List String) (s t : Network W)
      → init_flows infos cid s ≡ some t
      → FlowsOver base fs (outline s)
      → IsNumbered s
      → HasNewNames (flow_names infos ++ more) s.flow_ids
      → s.next_flow_id + length infos < 2 ^ 32
      → Enters fs (length infos) more s t
  unfolding init_flows outline push_flow_id push_ids plain_client
  init_flows-Enters [] fs more s t e o numbered unused room =
      let same : s ≡ t = cc in
      subst (λ u. Enters fs 0 more s u) same
        (
          [],
          subst (λ gs. FlowsOver base gs (outline s)) (sym (append_nil fs)) o,
          numbered,
          unused,
          sym (
              adjust_same cid (push_ids []) (outline s).clients
                (λ c. ap (λ ids. record c { flow_ids = ids }) (append_nil c.flow_ids))),
          (refl, refl, refl),
          omega arith,
        )
  init_flows-Enters (info ∷ infos) fs more s t e o numbered unused room =
      let (u, first, rest) = bind-some (init_flow info cid s) _ t e in
      let (c, qs, entered, same) = init_flow-after info cid s u first in
      let v = after info cid s c qs in
      let f = new_flow info s in
      let rest' : init_flows infos cid v ≡ some t =
        subst (λ w. init_flows infos cid w ≡ some t) (sym same) rest in
      let next = next_id-suc s.next_flow_id (omega (arith, room)) in
      let (news, over, numbered', unused', clients, (x, y, z), count) =
        init_flows-Enters infos (fs ++ f ∷ []) more v t rest'
          (after-FlowsOver info cid s c qs numbered entered base fs unused.0 o)
          (after-IsNumbered info cid s c qs numbered entered (omega (arith, room)))
          (HasNewNames-insert (text_of info.name) s.next_flow_id (flow_names infos ++ more)
            s.flow_ids unused.1 unused.2)
          (omega (arith, room, next)) in
      (
        f ∷ news,
        subst (λ gs. FlowsOver base gs (outline t)) (append_assoc fs (f ∷ []) news) over,
        numbered',
        unused',
        clients
            ∙ ap (adjust cid (push_ids (flow_ids_of news))) (
                map_values-adjust_lem plain_client cid (push_flow_id s.next_flow_id)
                  (push_ids (s.next_flow_id ∷ [])) s.clients (λ c. refl))
            ∙ adjust-adjust cid (push_ids (flow_ids_of news)) (push_ids (s.next_flow_id ∷ []))
                (outline s).clients
            ∙ ap (λ h. adjust cid h (outline s).clients)
                (fun_ext (λ c.
                  ap (λ ids. record c { flow_ids = ids })
                    (append_assoc c.flow_ids (s.next_flow_id ∷ []) (flow_ids_of news)))),
        (x, y, z),
        omega (arith, count, next),
      )

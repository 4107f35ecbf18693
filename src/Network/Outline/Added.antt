-- ===== src/Network/Outline/Added.antt =====
-- WorkloadCompactor::addClient: one more new client.
use workload_compactor.Base.{
  fun_ext, ℕ, ◌+◌, ◌^◌, ◌≤◌, ◌<◌, ◌≡◌, refl, sym, ap, subst, ◌∙◌, false, ◌||◌, ◌==◌, List, [], ◌∷◌,
  ◌++◌, none, some, String, arith, nat_key, string_key, All, All-map, All-append, ==_iff, Double,
  append_nil, append_assoc, Bool-cases, inl, inr, if◌then◌else◌,
}
use workload_compactor.Base.Table.{
  Table, lookup, insert, adjust, lookup-insert, lookup-insert_other,
}
use workload_compactor.Base.Table.Distinct.{IsDistinct, insert-IsDistinct, adjust-IsDistinct}
use workload_compactor.Base.Table.Without.{
  map_option, map_values, without, without-insert, without-adjust, lookup-map_values,
  map_values-insert,
}
use workload_compactor.Network.Types.{Client, Network, ClientInfo}
use workload_compactor.Network.Registry.{text_of, client_of, init_client}
use workload_compactor.Network.Shapers.Assign.Passes.{lookup-adjust}
use workload_compactor.Network.Outline.{plain_client, outline}
use workload_compactor.Network.Outline.Flows.{NewFlow, FlowsOver}
use workload_compactor.Network.Outline.Clients.{
  NewClient, has_client, has_client_name, AreApart, all_flows, flow_ids_of, IsRegistered,
  ClientsOver,
}
use workload_compactor.Network.Outline.Entered.{next_id-suc, IsNumbered}
use workload_compactor.Network.Outline.Registered.{push_ids}

pub has_client-append :
    (ns : List NewClient) (n : NewClient) (j : ℕ)
    → has_client (ns ++ n ∷ []) j ≡ has_client ns j || n.id == j
has_client-append [] n j = ground arith
has_client-append (m ∷ ns) n j = ground (arith, has_client-append ns n j)

has_client_name-append :
    (ns : List NewClient) (n : NewClient) (m : String)
    → has_client_name (ns ++ n ∷ []) m ≡ has_client_name ns m || string_key.beq n.name m
has_client_name-append [] n m = ground arith
has_client_name-append (k ∷ ns) n m = ground (arith, has_client_name-append ns n m)

all_flows-append :
    (ns : List NewClient) (n : NewClient) → all_flows (ns ++ n ∷ []) ≡ all_flows ns ++ n.flows
all_flows-append [] n = append_nil n.flows
all_flows-append (m ∷ ns) n =
    ap (λ fs. m.flows ++ fs) (all_flows-append ns n)
    ∙ sym (append_assoc m.flows (all_flows ns) n.flows)

AreApart-append :
    (ns : List NewClient) (n : NewClient)
    → All (λ (m : NewClient). (m.id == n.id) ≡ false) ns
    → AreApart ns
    → AreApart (ns ++ n ∷ [])
AreApart-append [] n h a = (tt, tt)
AreApart-append (m ∷ ns) n h a = (
  All-append (λ (k : NewClient). (m.id == k.id) ≡ false) ns (n ∷ []) a.0 (h.0, tt),
  AreApart-append ns n h.1 a.1,
)

module _ {W : Type 0} ⦃d : Double W⦄ (percentile : W) (info : ClientInfo W) (s : Network W) where
  abbrev pub i : ℕ
  i = s.next_client_id

  abbrev pub begun : Network W
  begun = init_client percentile info s

  abbrev pub table : Table ℕ (Client W)
  table = map_values plain_client s.clients

  abbrev pub c : Client W
  c = plain_client (client_of percentile info i)

  pub begun-IsNumbered : i + 1 < 2 ^ 32 → IsNumbered s → IsNumbered begun
  unfolding init_client
  begun-IsNumbered room h =
      let next = next_id-suc i room in
      record {
        flows = h.flows;
        clients = λ k up.
            let more : i < k = omega (arith, subst (λ n. n ≤ k) next up) in
            lookup-insert_other i k _ s.clients (ground arith) ∙ h.clients k (omega arith);
        entries = h.entries;
      }

  module _ (numbered : IsNumbered s) (news : List NewFlow) (t : Network W)
      (clients : (outline t).clients
        ≡ adjust i (push_ids (flow_ids_of news)) (outline begun).clients) where
    abbrev pub n : NewClient
    n = record { id = i; name = text_of info.name; flows = news }

    abbrev filled : Table ℕ (Client W)
    filled = adjust i (push_ids (flow_ids_of news)) (insert i c table)

    absent : lookup i table ≡ none
    absent =
        lookup-map_values plain_client i s.clients
        ∙ ap (map_option plain_client) (numbered.clients i (omega arith))

    final : (outline t).clients ≡ filled
    unfolding outline init_client
    final =
        clients
        ∙ ap (adjust i (push_ids (flow_ids_of news)))
            (map_values-insert plain_client i _ s.clients (numbered.clients i (omega arith)))

    n-IsRegistered : IsRegistered (outline t) n
    unfolding plain_client client_of push_ids
    n-IsRegistered = (
      push_ids (flow_ids_of news) c,
      ap (lookup i) final
          ∙ lookup-adjust i i (push_ids (flow_ids_of news)) (insert i c table) c
              (lookup-insert i i c table ∙ ground (arith, ==_iff i i))
          ∙ ground (arith, ==_iff i i),
      refl,
      refl,
    )

    ne_of_registered : (k : NewClient) → IsRegistered (outline s) k → (i == k.id) ≡ false
    unfolding outline
    ne_of_registered k (x, x_at, _, _) = elim (Bool-cases (i == k.id)) [
      | inl e ↦
          let here : lookup k.id table ≡ none =
            ap (λ j. lookup j table) (sym ((==_iff i k.id).0 e)) ∙ absent in
          let never : some x ≡ none = sym x_at ∙ here in cc
      | inr e ↦ e
    ]

    still-IsRegistered : (k : NewClient) → IsRegistered (outline s) k → IsRegistered (outline t) k
    unfolding outline
    still-IsRegistered k r =
        let ne = ne_of_registered k r in
        let (x, x_at, x_name, x_flows) = r in
        (
          x,
          ap (lookup k.id) final
              ∙ lookup-adjust i k.id (push_ids (flow_ids_of news)) (insert i c table) x
                  (lookup-insert_other i k.id c table ne ∙ x_at)
              ∙ ap (λ b. some (if b then push_ids (flow_ids_of news) x else x)) ne,
          x_name,
          x_flows,
        )

    pub added-ClientsOver :
        (base : Network W) (ns : List NewClient)
        → ClientsOver base ns (outline s)
        → lookup (text_of info.name) s.client_ids ≡ none
        → t.client_ids ≡ begun.client_ids
        → t.queue_ids ≡ begun.queue_ids
        → FlowsOver base (all_flows ns ++ news) (outline t)
        → ClientsOver base (ns ++ n ∷ []) (outline t)
    unfolding outline init_client
    added-ClientsOver base ns o unused same_names same_queues over =
        let ids : has_client (ns ++ n ∷ []) ≡ λ j. has_client ns j || i == j =
          fun_ext (has_client-append ns n) in
        let names : has_client_name (ns ++ n ∷ []) ≡ λ m.
        has_client_name ns m || string_key.beq n.name m =
          fun_ext (has_client_name-append ns n) in
        record {
          clients =
              (λ x. without (ids x) (final x))
              ∙ without-adjust (λ j. has_client ns j || i == j) i (push_ids (flow_ids_of news))
                  (insert i c table) (ground (arith, ==_iff i i))
              ∙ without-insert (has_client ns) i c table absent
              ∙ o.clients;
          client_ids =
              (λ x. without (names x) (same_names x))
              ∙ without-insert (has_client_name ns) n.name i s.client_ids unused
              ∙ o.client_ids;
          queue_ids = same_queues ∙ o.queue_ids;
          clients_distinct =
              subst (λ m. IsDistinct m) (sym final)
                (adjust-IsDistinct i (push_ids (flow_ids_of news)) (insert i c table)
                  (insert-IsDistinct i c table o.clients_distinct));
          client_names_distinct =
              subst (λ m. IsDistinct m) (sym same_names)
                (insert-IsDistinct n.name i s.client_ids o.client_names_distinct);
          registered =
              All-append (IsRegistered (outline t)) ns (n ∷ [])
                (All-map (IsRegistered (outline s)) _ still-IsRegistered ns o.registered)
                (n-IsRegistered, tt);
          clients_apart =
              AreApart-append ns n
                (All-map (IsRegistered (outline s)) (λ (k : NewClient). (k.id == i) ≡ false)
                  (λ k r. ground (arith, ne_of_registered k r, ==_iff i k.id, ==_iff k.id i)) ns
                  o.registered)
                o.clients_apart;
          over = subst (λ fs. FlowsOver base fs (outline t)) (sym (all_flows-append ns n)) over;
        }

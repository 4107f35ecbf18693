-- ===== src/Network/Outline/Entered.antt =====
-- What `initFlow` adds to a network whose counters are ahead of its ids.
use workload_compactor.Base.{
  bind-some, fun_ext, ℕ, ◌+◌, ◌^◌, ◌≤◌, ◌<◌, ◌≡◌, refl, sym, ap, subst, ◌∙◌, false, ◌||◌, ◌==◌,
  List, [], ◌∷◌, ◌++◌, map, none, some, String, arith, nat_key, string_key, All, All-map,
  All-append, ==_iff, Bool-cases, inl, inr, Double,
}
use workload_compactor.Base.Table.{
  Table, lookup, insert, adjust, lookup-insert, lookup-insert_other,
}
use workload_compactor.Base.Table.Distinct.{IsDistinct, insert-IsDistinct, lookup_absent-adjust}
use workload_compactor.Base.Table.Without.{
  map_option, map_values, without, without-insert, lookup-map_values, map_values-insert,
}
use workload_compactor.Network.Types.{Flow, Client, Queue, Network, FlowInfo}
use workload_compactor.Network.Registry.{
  text_of, elements, id_by_name, next_id, flow_of, push_flow_id, enter_queues, init_flow,
}
use workload_compactor.Network.Registry.Entries.{times, purge, purge-enter_queues, Counted}
use workload_compactor.Network.Registry.Counts.{
  Counted_mono, Counted-enter, Counted-enter_other, enter-IsDistinct, enter-IsFound, enter-finds,
}
use workload_compactor.Network.Outline.{plain_flow, outline}
use workload_compactor.Network.Outline.Flows.{
  NewFlow, has_id, has_name, IsApart, IsThere, FlowsOver,
}

-- The names are not in the table, and no two are the same.
abbrev pub HasNewNames : List String → Table String ℕ → Type 0
HasNewNames [] m = Unit
HasNewNames (n ∷ ns) m =
    (lookup n m ≡ none) × All (λ k. string_key.beq n k ≡ false) ns × HasNewNames ns m

pub HasNewNames-insert :
    (n : String) (i : ℕ) (ns : List String) (m : Table String ℕ)
    → All (λ k. string_key.beq n k ≡ false) ns
    → HasNewNames ns m
    → HasNewNames ns (insert n i m)
HasNewNames-insert n i [] m a h = tt
HasNewNames-insert n i (k ∷ ns) m a h =
    (lookup-insert_other n k i m a.0 ∙ h.0, h.1, HasNewNames-insert n i ns m a.1 h.2)

pub next_id-suc : (n : ℕ) → n + 1 < 2 ^ 32 → next_id n ≡ n + 1
next_id-suc n h = omega arith

has_id-append :
    (fs : List NewFlow) (f : NewFlow) (j : ℕ) → has_id (fs ++ f ∷ []) j ≡ has_id fs j || f.id == j
has_id-append [] f j = ground arith
has_id-append (g ∷ fs) f j = ground (arith, has_id-append fs f j)

has_name-append :
    (fs : List NewFlow) (f : NewFlow) (n : String)
    → has_name (fs ++ f ∷ []) n ≡ has_name fs n || string_key.beq f.name n
has_name-append [] f n = ground arith
has_name-append (g ∷ fs) f n = ground (arith, has_name-append fs f n)

IsApart-append :
    (fs : List NewFlow) (f : NewFlow)
    → All (λ (g : NewFlow). (g.id == f.id) ≡ false) fs
    → IsApart fs
    → IsApart (fs ++ f ∷ [])
IsApart-append [] f h a = (tt, tt)
IsApart-append (g ∷ fs) f h a = (
  All-append (λ (k : NewFlow). (g.id == k.id) ≡ false) fs (f ∷ []) a.0 (h.0, tt),
  IsApart-append fs f h.1 a.1,
)

module _ {W : Type 0} where
  -- The counters are ahead of the ids in use.
  pub record IsNumbered (s : Network W) : Type 0 where
    pub flows : (k : ℕ) → s.next_flow_id ≤ k → lookup k s.flows ≡ none
    pub clients : (k : ℕ) → s.next_client_id ≤ k → lookup k s.clients ≡ none
    pub entries : (k : ℕ) → s.next_flow_id ≤ k → Counted k (λ i. 0) s.queues

  abbrev pub new_flow : FlowInfo W → Network W → NewFlow
  new_flow info s = record {
    id = s.next_flow_id;
    name = text_of info.name;
    queue_ids = map (λ n. id_by_name n s.queue_ids) (elements info.queues);
  }

module _ {W : Type 0} ⦃d : Double W⦄ (info : FlowInfo W) (cid : ℕ) where
  abbrev pub after : Network W → Client W → Table ℕ (Queue W) → Network W
  after s c qs = record s {
    next_flow_id = next_id s.next_flow_id;
    flows = insert s.next_flow_id (flow_of s.queue_ids info s.next_flow_id c) s.flows;
    flow_ids = insert (text_of info.name) s.next_flow_id s.flow_ids;
    clients = adjust cid (push_flow_id s.next_flow_id) s.clients;
    queues = qs;
  }

  module _ (s : Network W) (c : Client W) (qs : Table ℕ (Queue W)) (numbered : IsNumbered s)
      (entered : enter_queues s.queue_ids s.next_flow_id 0 (elements info.queues) s.queues
        ≡ some qs) where
    abbrev pub i : ℕ
    i = s.next_flow_id

    abbrev pub f : NewFlow
    f = new_flow info s

    abbrev is : List ℕ
    is = map (λ n. id_by_name n s.queue_ids) (elements info.queues)

    abbrev table : Table ℕ (Flow W)
    table = map_values plain_flow s.flows

    abbrev g : Flow W
    g = plain_flow (flow_of s.queue_ids info s.next_flow_id c)

    inserted : map_values plain_flow (after s c qs).flows ≡ insert i g table
    inserted = map_values-insert plain_flow i _ s.flows (numbered.flows i (omega arith))

    absent : lookup i table ≡ none
    absent =
        lookup-map_values plain_flow i s.flows
        ∙ ap (map_option plain_flow) (numbered.flows i (omega arith))

    f-IsThere : IsThere (outline (after s c qs)) f
    unfolding outline plain_flow flow_of
    f-IsThere = (
      (
        g,
        ap (lookup i) inserted ∙ lookup-insert i i g table ∙ ground (arith, ==_iff i i),
        refl,
        refl,
      ),
      enter-finds s.queue_ids i 0 (elements info.queues) s.queues qs entered,
      Counted_mono i (λ j. 0 + times j is) (λ j. times j is) qs (λ j. omega arith)
          (Counted-enter s.queue_ids i 0 (elements info.queues) (λ j. 0) s.queues qs entered
            (numbered.entries i (omega arith))),
    )

    ne_of_there : (k : NewFlow) → IsThere (outline s) k → (i == k.id) ≡ false
    unfolding outline
    ne_of_there k ((x, x_at, _, _), _, _) = elim (Bool-cases (i == k.id)) [
      | inl e ↦
          let here : lookup k.id table ≡ none =
            ap (λ j. lookup j table) (sym ((==_iff i k.id).0 e)) ∙ absent in
          let never : some x ≡ none = sym x_at ∙ here in cc
      | inr e ↦ e
    ]

    still-IsThere : (k : NewFlow) → IsThere (outline s) k → IsThere (outline (after s c qs)) k
    unfolding outline
    still-IsThere k t =
        let ne = ne_of_there k t in
        let ((x, x_at, x_name, x_queues), found, counted) = t in
        (
          (
            x,
            ap (lookup k.id) inserted ∙ lookup-insert_other i k.id g table ne ∙ x_at,
            x_name,
            x_queues,
          ),
          enter-IsFound s.queue_ids i 0 (elements info.queues) k.queue_ids s.queues qs entered
              found,
          Counted-enter_other s.queue_ids i k.id 0 (elements info.queues) _ s.queues qs ne entered
              counted,
        )

    pub after-FlowsOver :
        (base : Network W) (fs : List NewFlow)
        → lookup (text_of info.name) s.flow_ids ≡ none
        → FlowsOver base fs (outline s)
        → FlowsOver base (fs ++ f ∷ []) (outline (after s c qs))
    unfolding outline
    after-FlowsOver base fs unused o =
        let ids : has_id (fs ++ f ∷ []) ≡ λ j. has_id fs j || i == j =
          fun_ext (has_id-append fs f) in
        let names : has_name (fs ++ f ∷ []) ≡ λ n. has_name fs n || string_key.beq f.name n =
          fun_ext (has_name-append fs f) in
        record {
          flows =
              (λ x. without (ids x) (inserted x))
              ∙ without-insert (has_id fs) i g table absent
              ∙ o.flows;
          flow_ids =
              ap (λ p. without p (insert f.name i s.flow_ids)) names
              ∙ without-insert (has_name fs) f.name i s.flow_ids unused
              ∙ o.flow_ids;
          queues =
              ap (λ p. purge p qs) ids
              ∙ purge-enter_queues (has_id fs) s.queue_ids i 0 (elements info.queues) s.queues qs
                  (numbered.entries i (omega arith)) entered
              ∙ o.queues;
          flows_distinct =
              subst (λ m. IsDistinct m) (sym inserted)
                (insert-IsDistinct i g table o.flows_distinct);
          names_distinct = insert-IsDistinct f.name i s.flow_ids o.names_distinct;
          queues_distinct =
              enter-IsDistinct s.queue_ids i 0 (elements info.queues) s.queues qs entered
                o.queues_distinct;
          there =
              All-append (IsThere (outline (after s c qs))) fs (f ∷ [])
                (All-map (IsThere (outline s)) _ still-IsThere fs o.there) (f-IsThere, tt);
          apart =
              IsApart-append fs f
                (All-map (IsThere (outline s)) (λ (k : NewFlow). (k.id == i) ≡ false)
                  (λ k t. ground (arith, ne_of_there k t, ==_iff i k.id, ==_iff k.id i)) fs o.there)
                o.apart;
        }

    pub after-IsNumbered : i + 1 < 2 ^ 32 → IsNumbered (after s c qs)
    after-IsNumbered room =
        let next = next_id-suc i room in
        record {
          flows = λ k h.
              let more : i < k = omega (arith, subst (λ n. n ≤ k) next h) in
              lookup-insert_other i k _ s.flows (ground arith) ∙ numbered.flows k (omega arith);
          clients = λ k h. lookup_absent-adjust cid k _ s.clients (numbered.clients k h);
          entries = λ k h.
              let more : i < k = omega (arith, subst (λ n. n ≤ k) next h) in
              Counted-enter_other s.queue_ids i k 0 (elements info.queues) _ s.queues qs
                (ground arith) entered (numbered.entries k (omega arith));
        }

  -- A call of `initFlow` that returns.
  pub init_flow-after :
      (s t : Network W)
      → init_flow info cid s ≡ some t
      → (c : Client W) × (qs : Table ℕ (Queue W)) × (enter_queues s.queue_ids s.next_flow_id 0
            (elements info.queues)
            s.queues
          ≡ some qs)
        × (after s c qs ≡ t)
  unfolding init_flow
  init_flow-after s t e =
      let (c, found, x) = bind-some (lookup cid s.clients) _ t e in
      let (qs, entered, y) =
        bind-some (enter_queues s.queue_ids s.next_flow_id 0 (elements info.queues) s.queues) _ t
          x in
      (c, qs, entered, cc)

-- ===== src/Network/Sound/Queues.antt =====
-- The names and the ids of queues, which clients come and go without changing.
use workload_compactor.Base.{
  bind-some, guard-some, ℕ, ◌+◌, ◌^◌, ◌≤◌, ◌<◌, ◌≡◌, refl, sym, ap, subst, ◌∙◌, List, [], ◌∷◌, none,
  some, Option-cases, inl, inr, String, arith, nat_key, string_key, Double, is_empty,
}
use workload_compactor.Base.Table.{Table, lookup, erase, adjust, lookup-insert_other}
use workload_compactor.Base.Table.Distinct.{
  IsDistinct, insert-IsDistinct, erase-IsDistinct, lookup-erase-none, lookup_absent-adjust,
}
use workload_compactor.Base.Table.Total.{AllValues, insert-AllValues}
use workload_compactor.Network.Types.{Queue, Network, FlowInfo, ClientInfo, QueueInfo}
use workload_compactor.Network.Registry.{
  text_of, elements, id_by_name, push_flow, drop_flow, enter_queues, leave_queues, del_flow,
  del_flows, del_client, del_queue, init_flow, init_flows, init_client, add_client, add_queue,
}
use workload_compactor.Network.Compactor.{add_workload, del_workload, mark_client}
use workload_compactor.Network.Outline.{outline}
use workload_compactor.Network.Outline.Entered.{next_id-suc, init_flow-after}
use workload_compactor.Network.Sound.{AllValues-erase, IsValid, mark_client-same}

module _ {W : Type 0} where
  -- Each name of a queue stands once, and with a valid id; the next id is valid and new.
  pub record HasQueues (s : Network W) : Type 0 where
    pub names_distinct : IsDistinct s.queue_ids
    pub named : AllValues IsValid s.queue_ids
    pub id_valid : IsValid s.next_queue_id
    pub numbered : (k : ℕ) → s.next_queue_id ≤ k → lookup k s.queues ≡ none

  -- The names and the counter are the same, and no queue was added.
  pub record SameQueues (s t : Network W) : Type 0 where
    pub names : s.queue_ids ≡ t.queue_ids
    pub counter : s.next_queue_id ≡ t.next_queue_id
    pub absent : (k : ℕ) → lookup k s.queues ≡ none → lookup k t.queues ≡ none

  pub SameQueues-HasQueues : (s t : Network W) → SameQueues s t → HasQueues s → HasQueues t
  SameQueues-HasQueues s t q h = record {
    names_distinct = subst (λ m. IsDistinct m) q.names h.names_distinct;
    named = subst (λ m. AllValues IsValid m) q.names h.named;
    id_valid = subst IsValid q.counter h.id_valid;
    numbered = λ k up. q.absent k (h.numbered k (subst (λ n. n ≤ k) (sym q.counter) up));
  }

  pub SameQueues-refl : (s t : Network W) → s ≡ t → SameQueues s t
  SameQueues-refl s t e =
      subst (SameQueues s) e (record { names = refl; counter = refl; absent = λ k h. h })

  pub SameQueues-trans : (s t u : Network W) → SameQueues s t → SameQueues t u → SameQueues s u
  SameQueues-trans s t u p q = record {
    names = p.names ∙ q.names;
    counter = p.counter ∙ q.counter;
    absent = λ k h. q.absent k (p.absent k h);
  }

  enter-absent :
      (ids : Table String ℕ) (f index : ℕ) (ns : List String) (qs rs : Table ℕ (Queue W)) (k : ℕ)
      → enter_queues ids f index ns qs ≡ some rs
      → lookup k qs ≡ none
      → lookup k rs ≡ none
  unfolding enter_queues
  enter-absent ids f index [] qs rs k e h =
      let same : qs ≡ rs = cc in subst (λ m. lookup k m ≡ none) same h
  enter-absent ids f index (n ∷ ns) qs rs k e h =
      elim (Option-cases (lookup (id_by_name n ids) qs)) [
        | inl o ↦ let never : none ≡ some rs = rw (o, enter_queues) at e in cc
        | inr (q, o) ↦
            enter-absent ids f (index + 1) ns (adjust (id_by_name n ids) (push_flow f index) qs) rs
              k (rw (o, enter_queues) at e)
              (lookup_absent-adjust (id_by_name n ids) k (push_flow f index) qs h)
      ]

  leave-absent :
      (f : ℕ) (is : List ℕ) (qs rs : Table ℕ (Queue W)) (k : ℕ)
      → leave_queues f is qs ≡ some rs
      → lookup k qs ≡ none
      → lookup k rs ≡ none
  unfolding leave_queues
  leave-absent f [] qs rs k e h = let same : qs ≡ rs = cc in subst (λ m. lookup k m ≡ none) same h
  leave-absent f (i ∷ is) qs rs k e h = elim (Option-cases (lookup i qs)) [
    | inl o ↦ let never : none ≡ some rs = rw (o, leave_queues) at e in cc
    | inr (q, o) ↦
        leave-absent f is (adjust i (drop_flow f) qs) rs k (rw (o, leave_queues) at e)
          (lookup_absent-adjust i k (drop_flow f) qs h)
  ]

  del_flow-SameQueues : (i : ℕ) (s t : Network W) → del_flow i s ≡ some t → SameQueues s t
  unfolding del_flow
  del_flow-SameQueues i s t e =
      let (f, found, x) = bind-some (lookup i s.flows) _ t e in
      let (qs, left, y) = bind-some (leave_queues i f.queue_ids s.queues) _ t x in
      let u : Network W = record s {
        queues = qs;
        flow_ids = erase f.name s.flow_ids;
        flows = erase i s.flows;
      } in
      let same : u ≡ t = cc in
      subst (SameQueues s) same (record {
        names = refl;
        counter = refl;
        absent = λ k h. leave-absent i f.queue_ids s.queues qs k left h;
      })

  del_flows-SameQueues : (is : List ℕ) (s t : Network W) → del_flows is s ≡ some t → SameQueues s t
  unfolding del_flows
  del_flows-SameQueues [] s t e = let same : s ≡ t = cc in SameQueues-refl s t same
  del_flows-SameQueues (i ∷ is) s t e =
      let (u, first, rest) = bind-some (del_flow i s) _ t e in
      SameQueues-trans s u t (del_flow-SameQueues i s u first) (del_flows-SameQueues is u t rest)

  mark_client-SameQueues : (i : ℕ) (s t : Network W) → mark_client i s ≡ some t → SameQueues s t
  mark_client-SameQueues i s t e =
      let (a, same) = mark_client-same i s t e in
      subst (SameQueues s) same (record { names = refl; counter = refl; absent = λ k h. h })

  pub del_queue-HasQueues :
      (i : ℕ) (s t : Network W) → del_queue i s ≡ some t → HasQueues s → HasQueues t
  unfolding del_queue
  del_queue-HasQueues i s t e h =
      let (q, at, x) = bind-some (lookup i s.queues) _ t e in
      subst HasQueues (guard-some (is_empty q.flows) _ t x) (record {
        names_distinct = erase-IsDistinct q.name s.queue_ids h.names_distinct;
        named = AllValues-erase IsValid q.name s.queue_ids h.named;
        id_valid = h.id_valid;
        numbered = λ k up. lookup-erase-none k i s.queues (h.numbered k up);
      })

module _ {W : Type 0} ⦃d : Double W⦄ where
  init_flow-SameQueues :
      (info : FlowInfo W) (i : ℕ) (s t : Network W) → init_flow info i s ≡ some t → SameQueues s t
  init_flow-SameQueues info i s t e =
      let (c, qs, entered, same) = init_flow-after info i s t e in
      subst (SameQueues s) same (record {
        names = refl;
        counter = refl;
        absent = λ k h.
            enter-absent s.queue_ids s.next_flow_id 0 (elements info.queues) s.queues qs k entered
              h;
      })

  init_flows-SameQueues :
      (infos : List (FlowInfo W)) (i : ℕ) (s t : Network W)
      → init_flows infos i s ≡ some t
      → SameQueues s t
  unfolding init_flows
  init_flows-SameQueues [] i s t e = let same : s ≡ t = cc in SameQueues-refl s t same
  init_flows-SameQueues (info ∷ infos) i s t e =
      let (u, first, rest) = bind-some (init_flow info i s) _ t e in
      SameQueues-trans s u t (init_flow-SameQueues info i s u first)
        (init_flows-SameQueues infos i u t rest)

  pub add_workload-SameQueues :
      (percentile : W) (info : ClientInfo W) (s : Network W) (r : ℕ × Network W)
      → add_workload percentile info s ≡ some r
      → SameQueues s r.1
  unfolding add_workload add_client init_client
  add_workload-SameQueues percentile info s r e =
      let (p, added, x) = bind-some (add_client percentile info s) _ r e in
      let (v, marked, y) = bind-some (mark_client p.0 p.1) _ r x in
      let begun = init_client percentile info s in
      let (t, entered, z) =
        bind-some (init_flows (elements info.flows) s.next_client_id begun) _ p added in
      let first : t ≡ p.1 = cc in
      let last : v ≡ r.1 = cc in
      let begins : SameQueues s begun = record {
        names = refl;
        counter = refl;
        absent = λ k h. h;
      } in
      SameQueues-trans s begun r.1 begins (
        SameQueues-trans begun p.1 r.1
          (subst (SameQueues begun) first
            (init_flows-SameQueues (elements info.flows) s.next_client_id begun t entered))
          (subst (SameQueues p.1) last (mark_client-SameQueues p.0 p.1 v marked)))

  pub del_workload-SameQueues :
      (i : ℕ) (s t : Network W) → del_workload i s ≡ some t → SameQueues s t
  unfolding del_workload del_client
  del_workload-SameQueues i s t e =
      let (u, marked, x) = bind-some (mark_client i s) _ t e in
      let (c, found, y) = bind-some (lookup i u.clients) _ t x in
      let (v, gone, z) = bind-some (del_flows c.flow_ids u) _ t y in
      let same : record v { client_ids = erase c.name v.client_ids; clients = erase i v.clients }
          ≡ t =
        cc in
      let kept =
        SameQueues-trans s u v (mark_client-SameQueues i s u marked)
          (del_flows-SameQueues c.flow_ids u v gone) in
      subst (SameQueues s) same
        (record { names = kept.names; counter = kept.counter; absent = kept.absent })

  pub outline-SameQueues : (s t : Network W) → outline t ≡ outline s → SameQueues s t
  unfolding outline
  outline-SameQueues s t e = record {
    names = ap (λ (u : Network W). u.queue_ids) (sym e);
    counter = ap (λ (u : Network W). u.next_queue_id) (sym e);
    absent = λ k h. ap (λ (u : Network W). lookup k u.queues) e ∙ h;
  }

  pub add_queue-HasQueues :
      (info : QueueInfo W) (s : Network W)
      → s.next_queue_id + 1 < 2 ^ 32
      → HasQueues s
      → HasQueues (add_queue info s).1
  unfolding add_queue
  add_queue-HasQueues info s room h =
      let next = next_id-suc s.next_queue_id room in
      record {
        names_distinct =
            insert-IsDistinct (text_of info.name) s.next_queue_id s.queue_ids h.names_distinct;
        named =
            insert-AllValues IsValid (text_of info.name) s.next_queue_id s.queue_ids h.id_valid
              h.named;
        id_valid = omega (arith, next);
        numbered = λ k up.
            let more : s.next_queue_id < k = omega (arith, subst (λ n. n ≤ k) next up) in
            lookup-insert_other s.next_queue_id k _ s.queues (ground arith)
            ∙ h.numbered k (omega arith);
      }

-- ===== src/Network/Shapers/Groups/Deleted.antt =====
-- A queue that was deleted while its rate limits were still to be set: the grouping of clients comes
-- to dereference a null pointer.
use workload_compactor.Base.{
  bind-some, ℕ, zero, suc, ◌≡◌, refl, sym, subst, true, false, Bool-cases, Option, Option-cases,
  none, some, List, [], ◌∷◌, nat_key, ==_iff, ◌==◌, arith, inl, inr, length,
}
use workload_compactor.Base.Table.{Table, lookup, lookup-erase_ne}
use workload_compactor.Base.Table.Distinct.{lookup-erase-none}
use workload_compactor.Base.Table.Sets.{Set, contains, is_there}
use workload_compactor.Network.Types.{FlowIndex, Network, Queue}
use workload_compactor.Network.Shapers.Groups.{
  Sweep, claim_queue, claim_queues, join_group, pop_pending, ids_of, claim_flows, visit_flows,
  drain_next, drain, first_sweep, gather, client_groups,
}

-- The queue is to be set, but not in the table.
abbrev Stays : ℕ → Sweep → Type 0
Stays q w = (lookup q w.remaining ≡ none) × (contains q w.affected ≡ true)

claim_queue-Stays : (q r : ℕ) (w : Sweep) → Stays q w → Stays q (claim_queue r w)
unfolding claim_queue
claim_queue-Stays q r w h = cases (lookup r w.remaining) refl
  where
    cases : (o : Option (Unit {0})) → lookup r w.remaining ≡ o → Stays q (claim_queue r w)
    cases none e = rw (e, claim_queue) h
    cases (some u) e =
        let apart : (r == q) ≡ false = ground (arith, ==_iff r q, h.0, e) in
        rw (e, claim_queue)
          (
            lookup-erase-none q r w.remaining h.0,
            subst (λ o. is_there o ≡ true) (sym (lookup-erase_ne r q w.affected apart)) h.1,
          )

claim_queues-Stays : (q : ℕ) (rs : List ℕ) (w : Sweep) → Stays q w → Stays q (claim_queues rs w)
unfolding claim_queues
claim_queues-Stays q [] w h = h
claim_queues-Stays q (r ∷ rs) w h =
    claim_queues-Stays q rs (claim_queue r w) (claim_queue-Stays q r w h)

module _ {W : Type 0} (s : Network W) (q : ℕ) where
  claim_flows-Stays :
      (fs : List ℕ) (w v : Sweep) → claim_flows s fs w ≡ some v → Stays q w → Stays q v
  unfolding claim_flows
  claim_flows-Stays [] w v e h = let same : w ≡ v = cc in subst (Stays q) same h
  claim_flows-Stays (f ∷ fs) w v e h =
      let (g, at, rest) = bind-some (lookup f s.flows) _ v e in
      claim_flows-Stays fs (claim_queues g.queue_ids w) v rest
        (claim_queues-Stays q g.queue_ids w h)

  visit_flows-Stays :
      (fis : List FlowIndex) (w v : Sweep) → visit_flows s fis w ≡ some v → Stays q w → Stays q v
  unfolding visit_flows join_group
  visit_flows-Stays [] w v e h = let same : w ≡ v = cc in subst (Stays q) same h
  visit_flows-Stays (fi ∷ fis) w v e h =
      let (f, at, a) = bind-some (lookup fi.flow_id s.flows) _ v e in
      let (c, owner, b) = bind-some (lookup f.client_id s.clients) _ v a in
      let (u, run, rest) = bind-some (claim_flows s c.flow_ids (join_group c.client_id w)) _ v b in
      visit_flows-Stays fis u v rest
        (claim_flows-Stays c.flow_ids (join_group c.client_id w) u run h)

  drain_next-Stays :
      (n : ℕ) (p : List ℕ) (w v : Sweep)
      → ((x y : Sweep) → drain n s x ≡ some y → Stays q x → Stays q y)
      → drain_next s (drain n s) p w ≡ some v
      → Stays q w
      → Stays q v
  unfolding drain_next pop_pending
  drain_next-Stays n [] w v f e h = let same : w ≡ v = cc in subst (Stays q) same h
  drain_next-Stays n (r ∷ rs) w v f e h =
      let (queue, at, a) = bind-some (lookup r s.queues) _ v e in
      let (u, run, rest) = bind-some (visit_flows s queue.flows (pop_pending rs w)) _ v a in
      f u v rest (visit_flows-Stays queue.flows (pop_pending rs w) u run h)

  drain-Stays : (n : ℕ) (w v : Sweep) → drain n s w ≡ some v → Stays q w → Stays q v
  unfolding drain
  drain-Stays zero w v e h = cc
  drain-Stays (suc n) w v e h = drain_next-Stays n w.pending w v (drain-Stays n) e h

  drain-first :
      (n r : ℕ) (remaining waiting : Set) (w : Sweep)
      → drain (suc n) s (first_sweep r remaining waiting) ≡ some w
      → (queue : Queue W) × (lookup r s.queues ≡ some queue)
  unfolding drain drain_next first_sweep
  drain-first n r remaining waiting w e =
      let (queue, at, rest) = bind-some (lookup r s.queues) _ w e in (queue, at)

  -- The deleted queue is the first of a group, sooner or later.
  gather-fails :
      (n : ℕ) (remaining waiting : Set) (groups : List Set)
      → lookup q s.queues ≡ none
      → lookup q remaining ≡ none
      → contains q waiting ≡ true
      → ¬ (gather n s remaining waiting ≡ some groups)
  unfolding gather lookup first_sweep
  gather-fails zero remaining waiting groups gone left h e = cc
  gather-fails (suc n) remaining [] groups gone left h e = cc
  gather-fails (suc n) remaining ((r, u) ∷ waiting) groups gone left h e =
      let (w, run, a) =
        bind-some (drain (suc (suc (length s.queues))) s (first_sweep r remaining waiting)) _ groups
          e in
      let (gs, runs, end) = bind-some (gather n s w.remaining w.affected) _ groups a in
      elim (Bool-cases (r == q)) [
        | inl p ↦
            let (queue, at) = drain-first (suc (length s.queues)) r remaining waiting w run in
            let same : lookup q s.queues ≡ some queue =
              subst (λ k. lookup k s.queues ≡ some queue) ((==_iff r q).0 p) at in
            cc
        | inr p ↦
            let (x, y) =
              drain-Stays (suc (suc (length s.queues))) (first_sweep r remaining waiting) w run
                (lookup-erase-none q r remaining left, ground (arith, h, p)) in
            gather-fails n w.remaining w.affected gs gone x y runs
      ]

  ids_of-none : {V : Type 0} (m : Table ℕ V) → lookup q m ≡ none → lookup q (ids_of m) ≡ none
  unfolding ids_of lookup
  ids_of-none [] h = refl
  ids_of-none ((i, v) ∷ m) h = ground (arith, ids_of-none m)

  pub client_groups-deleted :
      lookup q s.queues ≡ none → contains q s.affected_queue_ids ≡ true → client_groups s ≡ none
  unfolding client_groups
  client_groups-deleted gone h = elim (Option-cases (client_groups s)) [
    | inl e ↦ e
    | inr (groups, e) ↦
        elim (gather-fails (suc (length s.affected_queue_ids)) (ids_of s.queues)
          s.affected_queue_ids groups gone (ids_of-none s.queues gone) h e) [ ]
  ]

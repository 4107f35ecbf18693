-- ===== src/Network/Shapers/Groups/Visits.antt =====
-- The visit of a queue's flows: their clients join the group, and the queues that these use are claimed.
use workload_compactor.Base.{
  same_some, ℕ, ◌≡◌, refl, sym, subst, true, false, List, [], ◌∷◌, some, nat_key, arith, Elem, inl,
  inr,
}
use workload_compactor.Base.Table.{lookup}
use workload_compactor.Base.Table.Sets.{contains, contains-insert, contains-insert-cases}
use workload_compactor.Network.Types.{Flow, Client, FlowIndex, Queue, Network}
use workload_compactor.Network.Shapers.Groups.{
  Sweep, claim_queues, join_group, claim_flows, visit_flows,
}
use workload_compactor.Network.Shapers.Groups.Reached.{
  Known, Owned, Serves, Stirred, shared, Reached, IsLinked,
}
use workload_compactor.Network.Shapers.Groups.Claims.{
  Grows, Grows-refl, Grows-trans, Inv, Joined, Joined-Later, Claimed, claim_queues-Claimed,
}

module _ {W : Type 0} (s : Network W) (P : ℕ → Type 0) (linked : IsLinked s) where
  claim_flows-Claimed :
      (cur : ℕ → Type 0) (c : Client W) (fs : List ℕ) (w : Sweep)
      → ((i : ℕ) → Elem i fs → (f : Flow W) × (lookup i s.flows ≡ some f))
      → ((r i : ℕ) (f : Flow W)
          → Elem i fs
          → lookup i s.flows ≡ some f
          → Elem r f.queue_ids
          → Known s r
          → Stirred s r)
      → Inv s P cur w
      → (v : Sweep) × (claim_flows s fs w ≡ some v)
        × Claimed s P cur w v
        × ((i : ℕ) (f : Flow W) (r : ℕ)
            → Elem i fs
            → lookup i s.flows ≡ some f
            → Elem r f.queue_ids
            → contains r v.remaining ≡ false)
  unfolding claim_flows
  claim_flows-Claimed cur c [] w found st v = (w, refl, (v, Grows-refl w), λ i f r e. elim e [ ])
  claim_flows-Claimed cur c (i ∷ fs) w found st v =
      let (f, e) = found i (inl refl) in
      let ((u, g), here) =
        claim_queues-Claimed s P cur f.queue_ids w (λ r p. st r i f (inl refl) e p) v in
      let (x, run, (y, h), rest) =
        claim_flows-Claimed cur c fs (claim_queues f.queue_ids w) (λ j p. found j (inr p))
          (λ r j k p. st r j k (inr p)) u in
      (
        x,
        rw (e, claim_flows) run,
        (y, Grows-trans w (claim_queues f.queue_ids w) x g h),
        λ j k r p a b. elim p [
          | inl q ↦
              let same : f ≡ k =
                same_some (lookup i s.flows) f k e (subst (λ t. lookup t s.flows ≡ some k) q a) in
              h.later.gone r (here r (subst (λ (t : Flow W). Elem r t.queue_ids) (sym same) b))
          | inr q ↦ rest j k r q a b
        ],
      )

  join_group-Claimed :
      (cur : ℕ → Type 0) (c : Client W) (w : Sweep)
      → Reached s c.client_id
      → Inv s P cur w
      → Claimed s P cur w (join_group c.client_id w)
        × (contains c.client_id (join_group c.client_id w).group ≡ true)
  unfolding join_group
  join_group-Claimed cur c w reached v =
      let grows : Grows w (join_group c.client_id w) = record {
        later = record {
          gone = λ q h. h;
          kept = λ i h. ground (arith, contains-insert c.client_id i w.group);
          fewer = omega arith;
          less = omega arith;
        };
        size = refl;
      } in
      (
        (
          record {
            one_each = v.one_each;
            known = v.known;
            live = λ q k e. elim (v.live q k e) [
              | inl p ↦ inl p
              | inr (inl p) ↦ inr (inl p)
              | inr (inr d) ↦
                  inr (
                    inr
                      (λ b x. Joined-Later s P w (join_group c.client_id w) b grows.later (d b x)))
            ];
            waits = v.waits;
            stale = v.stale;
            stirs = v.stirs;
            member = λ i e. elim (contains-insert-cases c.client_id i w.group e) [
              | inl p ↦ subst (Reached s) p reached
              | inr p ↦ v.member i p
            ];
          },
          grows,
        ),
        ground (arith, contains-insert c.client_id c.client_id w.group),
      )

  -- What the loop over the flows of a queue has done.
  pub visit_flows-Claimed :
      (cur : ℕ → Type 0) (q : ℕ) (queue : Queue W) (fis : List FlowIndex) (w : Sweep)
      → lookup q s.queues ≡ some queue
      → Stirred s q
      → ((fi : FlowIndex) → Elem fi fis → Elem fi queue.flows)
      → Inv s P cur w
      → (v : Sweep) × (visit_flows s fis w ≡ some v)
        × Claimed s P cur w v
        × ((fi : FlowIndex) (c : Client W) → Elem fi fis → Owned s fi c → Joined s P v c)
  unfolding visit_flows
  visit_flows-Claimed cur q queue [] w known st within v =
      (w, refl, (v, Grows-refl w), λ fi c e. elim e [ ])
  visit_flows-Claimed cur q queue (fi ∷ fis) w known st within v =
      let (c, (f, e, o)) = linked.clients_found q queue fi known (within fi (inl refl)) in
      let serves : Serves s q c = (queue, fi, known, within fi (inl refl), (f, e, o)) in
      let ((u, g), joined) = join_group-Claimed cur c w (q, c, st, serves, refl) v in
      let (x, run, (y, h), claimed) =
        claim_flows-Claimed cur c c.flow_ids (join_group c.client_id w)
          (λ i p. linked.flows_found f.client_id c i o p)
          (λ r i k p a b. shared q c r st serves (i, k, p, a, b)) u in
      let (z, runs, (t, k), others) =
        visit_flows-Claimed cur q queue fis x known st (λ j p. within j (inr p)) y in
      let here : Joined s P x c =
        (inr (h.later.kept c.client_id joined), λ r (i, j, p, a, b). claimed i j r p a b) in
      (
        z,
        rw (e, o, run, visit_flows) runs,
        (t, Grows-trans w x z (Grows-trans w (join_group c.client_id w) x g h) k),
        λ j b p own. elim p [
          | inl p ↦
              Joined-Later s P x z b k.later (
                subst (Joined s P x) (owner fi c b (f, e, o) (subst (λ i. Owned s i b) p own)) here)
          | inr p ↦ others j b p own
        ],
      )
    where
      owner : (i : FlowIndex) (a b : Client W) → Owned s i a → Owned s i b → a ≡ b
      owner i a b (f, e, o) (g, p, r) =
          let same : f ≡ g = same_some (lookup i.flow_id s.flows) f g e p in
          same_some (lookup f.client_id s.clients) a b o
            (subst (λ (t : Flow W). lookup t.client_id s.clients ≡ some b) (sym same) r)

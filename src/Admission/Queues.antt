-- ===== src/Admission/Queues.antt =====
-- The names of queues over the requests to the admission controller.
use workload_compactor.Base.{
  bind-some, ℕ, ◌+◌, ◌^◌, ◌<◌, ◌≡◌, ap, subst, Bool, true, false, if◌then◌else◌, List, [], ◌∷◌,
  Option, Option-cases, Bool-cases, inl, inr, none, some, String, nat_key, string_key, ◌==◌, Double,
  is_empty,
}
use workload_compactor.Base.Table.{lookup, insert, erase}
use workload_compactor.Network.Types.{Member, Network, ClientInfo, QueueInfo}
use workload_compactor.Network.Solver.{Glpk}
use workload_compactor.Network.Registry.{elements, id_by_name, del_queue}
use workload_compactor.Network.Compactor.{add_workload, del_workload}
use workload_compactor.Network.Sound.Queues.{
  HasQueues, SameQueues, SameQueues-refl, SameQueues-trans, del_queue-HasQueues,
  add_workload-SameQueues, del_workload-SameQueues, outline-SameQueues, add_queue-HasQueues,
}
use workload_compactor.Admission.Checks.{Status, check_client_infos}
use workload_compactor.Admission.Kept.{check_latency-outline}
use workload_compactor.Admission.Verdicts.{checked_first, gated}
use workload_compactor.Admission.Ready.{same_reply}
use workload_compactor.Admission.Server.{
  Controller, Reply, add_queue_svc, del_queue_svc, del_client_svc, add_all, del_all, all_admitted,
  check_latency, decide, overload_gate, add_clients_svc,
}

module _ {W : Type 0} where
  abbrev pub Keeps : Controller W → Controller W → Type 0
  Keeps c u = SameQueues c.network u.network

  same-Keeps : (c u : Controller W) → c ≡ u → Keeps c u
  same-Keeps c u e = SameQueues-refl c.network u.network (ap (λ (x : Controller W). x.network) e)

module _ {W : Type 0} ⦃d : Double W⦄ where
  pub add_queue_svc-HasQueues :
      (info : Option (QueueInfo W)) (c : Controller W)
      → c.network.next_queue_id + 1 < 2 ^ 32
      → HasQueues c.network
      → HasQueues (add_queue_svc info c).1.network
  unfolding add_queue_svc
  add_queue_svc-HasQueues none c room h = h
  add_queue_svc-HasQueues (some info) c room h = elim (Option-cases info.name) [
    | inl e ↦ rw e h
    | inr (n, e) ↦ elim (Bool-cases (id_by_name n c.network.queue_ids == 0)) [
      | inl free ↦ elim (Option-cases info.bandwidth) [
        | inl g ↦ rw (e, free, g) h
        | inr (b, g) ↦ elim (Bool-cases (d.le b d.nought)) [
          | inl low ↦ rw (e, free, g, low) h
          | inr fits ↦
              rw (e, free, g, fits)
                (add_queue-HasQueues (record info { name = some n }) c.network room h)
        ]
      ]
      | inr used ↦ rw (e, used) h
    ]
  ]

  pub del_queue_svc-HasQueues :
      (name : String) (c u : Controller W) (st : Status)
      → del_queue_svc name c ≡ some (st, u)
      → HasQueues c.network
      → HasQueues u.network
  unfolding del_queue_svc
  del_queue_svc-HasQueues name c u st e h =
      let i = id_by_name name c.network.queue_ids in
      let Ends = λ (x : Controller W). HasQueues x.network in
      elim (Bool-cases (i == 0)) [
        | inl b ↦ subst Ends (same_reply _ c st u (rw b at e)) h
        | inr b ↦
            let (q, found, x) = bind-some (lookup i c.network.queues) _ (st, u) (rw b at e) in
            elim (Bool-cases (is_empty q.flows)) [
              | inl g ↦
                  let (s, gone, y) = bind-some (del_queue i c.network) _ (st, u) (rw g at x) in
                  subst Ends (same_reply _ (record c { network = s }) st u y)
                    (del_queue-HasQueues i c.network s gone h)
              | inr g ↦ subst Ends (same_reply _ c st u (rw g at x)) h
            ]
      ]

  pub del_client_svc-Keeps :
      (name : String) (c u : Controller W) (st : Status)
      → del_client_svc name c ≡ some (st, u)
      → Keeps c u
  unfolding del_client_svc
  del_client_svc-Keeps name c u st e =
      let i = id_by_name name c.network.client_ids in
      elim (Bool-cases (i == 0)) [
        | inl b ↦ same-Keeps c u (same_reply _ c st u (rw b at e))
        | inr b ↦
            let (info, found, x) = bind-some (lookup i c.store) _ (st, u) (rw b at e) in
            let (s, gone, y) = bind-some (del_workload i c.network) _ (st, u) x in
            subst (Keeps c) (same_reply _ (record { network = s; store = erase i c.store }) st u y)
              (del_workload-SameQueues i c.network s gone)
      ]

module _ {W : Type 0} ⦃d : Double W⦄ (glpk : Glpk W) (margin percentile hundred near_one : W)
    (fuel : ℕ) where
  add_all-Keeps :
      (infos : List (ClientInfo W)) (c : Controller W) (r : List ℕ × Controller W)
      → add_all glpk margin percentile hundred near_one fuel infos c ≡ some r
      → Keeps c r.1
  unfolding add_all
  add_all-Keeps [] c r e = let same : c ≡ r.1 = cc in same-Keeps c r.1 same
  add_all-Keeps (info ∷ infos) c r e =
      let (p, added, x) = bind-some (add_workload percentile info c.network) _ r e in
      let t : Controller W = record { network = p.1; store = insert p.0 info c.store } in
      let (q, rest, y) =
        bind-some (add_all glpk margin percentile hundred near_one fuel infos t) _ r x in
      let last : q.1 ≡ r.1 = cc in
      subst (Keeps c) last (
        SameQueues-trans c.network p.1 q.1.network
          (add_workload-SameQueues percentile info c.network p added)
          (add_all-Keeps infos t q rest))

  del_all-Keeps :
      (ids : List ℕ) (c u : Controller W)
      → del_all glpk margin percentile hundred near_one fuel ids c ≡ some u
      → Keeps c u
  unfolding del_all
  del_all-Keeps [] c u e = let same : c ≡ u = cc in same-Keeps c u same
  del_all-Keeps (i ∷ is) c u e =
      let (s, gone, rest) = bind-some (del_workload i c.network) _ u e in
      SameQueues-trans c.network s u.network (del_workload-SameQueues i c.network s gone)
        (del_all-Keeps is (record { network = s; store = erase i c.store }) u rest)

  verdict-SameQueues :
      (override : Bool) (ids : List ℕ) (s : Network W) (q : Bool × Network W)
      → (if override
          then some (true, s)
          else check_latency glpk margin percentile hundred near_one fuel ids s)
        ≡ some q
      → SameQueues s q.1
  verdict-SameQueues true ids s q e = let same : s ≡ q.1 = cc in SameQueues-refl s q.1 same
  verdict-SameQueues false ids s q e =
      outline-SameQueues s q.1
        (check_latency-outline glpk margin percentile hundred near_one fuel ids s q e)

  decide-Keeps :
      (infos : List (ClientInfo W)) (c u : Controller W) (r : Reply)
      → decide glpk margin percentile hundred near_one fuel infos c ≡ some (r, u)
      → Keeps c u
  unfolding decide
  decide-Keeps infos c u r e =
      let (p, added, x) =
        bind-some (add_all glpk margin percentile hundred near_one fuel infos c) _ (r, u) e in
      let all = all_admitted glpk margin percentile hundred near_one fuel infos in
      let (q, checked, y) =
        bind-some
          (if all
            then some (true, p.1.network)
            else check_latency glpk margin percentile hundred near_one fuel p.0 p.1.network)
          _ (r, u) x in
      let t : Controller W = record p.1 { network = q.1 } in
      let kept : Keeps c t =
        SameQueues-trans c.network p.1.network q.1 (add_all-Keeps infos c p added)
          (verdict-SameQueues all p.0 p.1.network q checked) in
      elim (Bool-cases q.0) [
        | inl b ↦ subst (Keeps c) (same_reply _ t r u (rw b at y)) kept
        | inr b ↦
            let (v, gone, z) =
              bind-some (del_all glpk margin percentile hundred near_one fuel p.0 t) _ (r, u)
                (rw b at y) in
            subst (Keeps c) (same_reply _ v r u z)
              (SameQueues-trans c.network q.1 v.network kept (del_all-Keeps p.0 t v gone))
      ]

  pub add_clients_svc-Keeps :
      (infos : Option (Member (ClientInfo W))) (fast : Bool) (c u : Controller W) (r : Reply)
      → add_clients_svc glpk margin percentile hundred near_one fuel infos fast c ≡ some (r, u)
      → Keeps c u
  unfolding add_clients_svc
  add_clients_svc-Keeps none fast c u r e = let same : c ≡ u = cc in same-Keeps c u same
  add_clients_svc-Keeps (some infos) fast c u r e =
      elim (checked_first (check_client_infos hundred c.network infos) _
        (λ failed. (record { status = failed; admitted = false }, c)) (r, u) e) [
          | inl (passes, x) ↦
              elim (gated
                (overload_gate glpk margin percentile hundred near_one fuel fast (elements infos)
                  c.network)
                (decide glpk margin percentile hundred near_one fuel (elements infos) c) _ (r, u)
                x) [
                  | inl stopped ↦ same-Keeps c u (ap (λ (p : Reply × Controller W). p.1) stopped)
                  | inr run ↦ decide-Keeps (elements infos) c u r run
                ]
          | inr (failed, x) ↦ same-Keeps c u (ap (λ (p : Reply × Controller W). p.1) x)
        ]

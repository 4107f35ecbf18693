-- ===== src/Admission/Rejected.antt =====
-- AddClients requests that are rejected: the controller is left as it was.
use workload_compactor.Base.{
  bind-some, same_some, ℕ, ◌≡◌, refl, ◌∙◌, sym, ap, subst, Bool, true, false, List, [], Option, inl,
  inr, none, some, nat_key, string_key, Double,
}
use workload_compactor.Base.Table.Without.{without-none}
use workload_compactor.Network.Types.{Network, Member, ClientInfo}
use workload_compactor.Network.Solver.{Glpk}
use workload_compactor.Network.Registry.{elements}
use workload_compactor.Network.Outline.{outline}
use workload_compactor.Network.Outline.Restored.{
  IsRestored, IsRestored-refl, IsSound-ClientsOver, ClientsOver-IsRestored,
}
use workload_compactor.Network.Outline.Clients.{ClientsOver}
use workload_compactor.Admission.Checks.{success, check_client_infos}
use workload_compactor.Admission.Checks.FlowNames.{HasIds-of_valid, check_client_infos-new}
use workload_compactor.Admission.Verdicts.{turned_down, checked_first, gated, requested}
use workload_compactor.Admission.Ready.{IsReady, HasRoom}
use workload_compactor.Admission.Kept.{check_latency-outline}
use workload_compactor.Admission.Undone.{Holds, del_all-Holds, add_all-Holds}
use workload_compactor.Admission.Server.{
  Controller, Reply, add_all, del_all, all_admitted, check_latency, decide, overload_gate,
  add_clients_svc,
}

module _ {W : Type 0} ⦃d : Double W⦄ where
  pub record IsUndone (c u : Controller W) : Type 0 where
    pub network : IsRestored c.network u.network
    pub store : u.store ≡ c.store

  IsUndone-refl : (c : Controller W) → IsUndone c c
  IsUndone-refl c = record { network = IsRestored-refl c.network; store = refl }

  IsReady-Holds : (c : Controller W) → IsReady c → Holds c [] c
  IsReady-Holds c h = record {
    over = IsSound-ClientsOver c.network h.sound;
    store = without-none c.store;
    store_distinct = h.store_distinct;
  }

  Holds-IsUndone : (c u : Controller W) → Holds c [] u → IsUndone c u
  Holds-IsUndone c u h = record {
    network = ClientsOver-IsRestored c.network u.network h.over;
    store = sym (without-none u.store) ∙ h.store;
  }

module _ {W : Type 0} ⦃d : Double W⦄ (glpk : Glpk W) (margin percentile hundred near_one : W)
    (fuel : ℕ) where
  abbrev pub Rejects : Controller W → Option (Reply × Controller W) → Type 0
  Rejects c o =
      (u : Controller W) × (o ≡ some (record { status = success; admitted = false }, u))
      × IsUndone c u

  decide-runs :
      (infos : List (ClientInfo W)) (c t u : Controller W) (ids : List ℕ) (s : Network W)
      → add_all glpk margin percentile hundred near_one fuel infos c ≡ some (ids, t)
      → all_admitted glpk margin percentile hundred near_one fuel infos ≡ false
      → check_latency glpk margin percentile hundred near_one fuel ids t.network ≡ some (false, s)
      → del_all glpk margin percentile hundred near_one fuel ids (record t { network = s }) ≡ some u
      → decide glpk margin percentile hundred near_one fuel infos c
        ≡ some (record { status = success; admitted = false }, u)
  unfolding decide
  decide-runs infos c t u ids s added fresh checked gone = rw (added, fresh, checked, gone) refl

  -- The ways in which `decide` rejects, where it returns.
  decide-rejected :
      (infos : List (ClientInfo W)) (c u : Controller W) (r : Reply)
      → decide glpk margin percentile hundred near_one fuel infos c ≡ some (r, u)
      → r.admitted ≡ false
      → (ids : List ℕ) × (t : Controller W) × (s : Network W) × (add_all glpk margin percentile
            hundred near_one fuel infos c
          ≡ some (ids, t))
        × (all_admitted glpk margin percentile hundred near_one fuel infos ≡ false)
        × (check_latency glpk margin percentile hundred near_one fuel ids t.network
            ≡ some (false, s))
  unfolding decide
  decide-rejected infos c u r e h =
      let (p, added, x) =
        bind-some (add_all glpk margin percentile hundred near_one fuel infos c) _ (r, u) e in
      let (a, s, checked) =
        turned_down (all_admitted glpk margin percentile hundred near_one fuel infos) p.1.network
          (check_latency glpk margin percentile hundred near_one fuel p.0 p.1.network) _ _ (r, u)
          (λ n q.
            let same : true ≡ false = ap (λ (x : Reply × Controller W). x.0.admitted) q ∙ h in cc)
          x in
      (p.0, p.1, s, added, a, checked)

  module _ (c : Controller W) (ready : IsReady c) (infos : Member (ClientInfo W))
      (passes : check_client_infos hundred c.network infos ≡ success)
      (room : HasRoom c (elements infos)) where
    -- A list of clients that passes the checks, not all of them marked as admitted, at a
    -- controller whose tables have one entry for each key, with ids below counters that do
    -- not wrap around and no name under the invalid id: once the clients are added and
    -- checkLatency has answered `false`, the deletion of the clients does not fail, the
    -- request is answered as not admitted, and the clients, flows, queues, names and stored
    -- descriptions are those from before, up to latencies, priorities and shaper curves.
    pub decide-Rejects :
        (ids : List ℕ) (t : Controller W) (s : Network W)
        → add_all glpk margin percentile hundred near_one fuel (elements infos) c ≡ some (ids, t)
        → all_admitted glpk margin percentile hundred near_one fuel (elements infos) ≡ false
        → check_latency glpk margin percentile hundred near_one fuel ids t.network ≡ some (false, s)
        → Rejects c (decide glpk margin percentile hundred near_one fuel (elements infos) c)
    unfolding decide
    decide-Rejects ids t s added fresh checked =
        let (names, flows) =
          check_client_infos-new hundred c.network (HasIds-of_valid _ ready.sound.clients_named)
            (HasIds-of_valid _ ready.sound.flows_named) infos passes in
        let (news, same, holds) =
          add_all-Holds glpk margin percentile hundred near_one fuel c (elements infos) [] c
            (ids, t) added (IsReady-Holds c ready)
            (record { numbered = ready.sound.numbered; stored = ready.stored }) names flows room.0
            room.1 in
        let kept =
          check_latency-outline glpk margin percentile hundred near_one fuel ids t.network
            (false, s) checked in
        let v : Controller W = record t { network = s } in
        let (u, gone, back) =
          del_all-Holds glpk margin percentile hundred near_one fuel c news v (record {
            over = subst (ClientsOver (outline c.network) news) (sym kept) holds.over;
            store = holds.store;
            store_distinct = holds.store_distinct;
          }) in
        let gone' : del_all glpk margin percentile hundred near_one fuel ids v ≡ some u =
          subst (λ is. del_all glpk margin percentile hundred near_one fuel is v ≡ some u) same
            gone in
        (
          u,
          decide-runs (elements infos) c t u ids s added fresh checked gone',
          Holds-IsUndone c u back,
        )

  -- An AddClients request that is answered as not admitted, for whatever reason, by a
  -- controller whose tables have one entry for each key, with ids below counters that do not
  -- wrap around and no name under the invalid id: the clients, flows, queues, names and stored
  -- descriptions are those from before, up to latencies, priorities and shaper curves.
  pub add_clients_svc-rejected :
      (infos : Option (Member (ClientInfo W))) (fast : Bool) (c u : Controller W) (r : Reply)
      → IsReady c
      → HasRoom c (requested infos)
      → add_clients_svc glpk margin percentile hundred near_one fuel infos fast c ≡ some (r, u)
      → r.admitted ≡ false
      → IsUndone c u
  unfolding add_clients_svc
  add_clients_svc-rejected none fast c u r ready room e h =
      let same : c ≡ u = cc in subst (IsUndone c) same (IsUndone-refl c)
  add_clients_svc-rejected (some infos) fast c u r ready room e h =
      elim (checked_first (check_client_infos hundred c.network infos) _
        (λ failed. (record { status = failed; admitted = false }, c)) (r, u) e) [
          | inl (passes, x) ↦
              elim (gated
                (overload_gate glpk margin percentile hundred near_one fuel fast (elements infos)
                  c.network)
                (decide glpk margin percentile hundred near_one fuel (elements infos) c)
                (record { status = success; admitted = false }, c) (r, u) x) [
                  | inl stopped ↦
                      subst (IsUndone c) (ap (λ (p : Reply × Controller W). p.1) stopped)
                        (IsUndone-refl c)
                  | inr run ↦
                      let (ids, t, s, added, fresh, checked) =
                        decide-rejected (elements infos) c u r run h in
                      let (v, ends, restored) =
                        decide-Rejects c ready infos passes room ids t s added fresh checked in
                      subst (IsUndone c)
                        (ap (λ (p : Reply × Controller W). p.1) (same_some _ _ (r, u) ends run))
                        restored
                ]
          | inr (failed, x) ↦
              let same : c ≡ u = ap (λ (p : Reply × Controller W). p.1) x in
              subst (IsUndone c) same (IsUndone-refl c)
        ]

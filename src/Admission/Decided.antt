-- ===== src/Admission/Decided.antt =====
-- The request that adds clients keeps the tables sound, whatever becomes of it.
use workload_compactor.Base.{
  bind-some, ℕ, ◌≤◌, ◌<◌, ◌≡◌, ◌∙◌, ap, subst, Bool, true, false, if◌then◌else◌, List, [], ◌∷◌,
  Bool-cases, inl, inr, some, nat_key, string_key, arith, Double, length-append,
}
use workload_compactor.Base.Table.{insert, erase, lookup-insert_other}
use workload_compactor.Base.Table.Distinct.{insert-IsDistinct}
use workload_compactor.Network.Types.{Network, ClientInfo}
use workload_compactor.Network.Solver.{Glpk}
use workload_compactor.Network.Registry.{elements}
use workload_compactor.Network.Compactor.{add_workload, del_workload}
use workload_compactor.Network.Outline.Registered.{all_flow_infos}
use workload_compactor.Network.Outline.{outline}
use workload_compactor.Network.Sound.Changes.{add_workload-IsSound}
use workload_compactor.Network.Sound.Outlined.{same_outline-IsSound}
use workload_compactor.Admission.Kept.{check_latency-outline}
use workload_compactor.Admission.Server.{
  Controller, Reply, add_all, del_all, all_admitted, check_latency, decide,
}
use workload_compactor.Admission.Ready.{IsReady, HasRoom, same_reply, erased-IsReady}

module _ {W : Type 0} ⦃d : Double W⦄ (glpk : Glpk W) (margin percentile hundred near_one : W)
    (fuel : ℕ) where
  add_all-IsReady :
      (infos : List (ClientInfo W)) (c : Controller W) (r : List ℕ × Controller W)
      → add_all glpk margin percentile hundred near_one fuel infos c ≡ some r
      → HasRoom c infos
      → IsReady c
      → IsReady r.1
  unfolding add_all
  add_all-IsReady [] c r e room h = let same : c ≡ r.1 = cc in subst IsReady same h
  add_all-IsReady (info ∷ infos) c r e room h =
      let (p, added, x) = bind-some (add_workload percentile info c.network) _ r e in
      let t : Controller W = record { network = p.1; store = insert p.0 info c.store } in
      let (q, rest, y) =
        bind-some (add_all glpk margin percentile hundred near_one fuel infos t) _ r x in
      let fits = length-append (elements info.flows) (all_flow_infos infos) in
      let (sound, id, flows, clients) =
        add_workload-IsSound percentile info c.network p added (omega (arith, room.0))
          (omega (arith, room.1, fits)) h.sound in
      let last : q.1 ≡ r.1 = cc in
      subst IsReady last (
        add_all-IsReady infos t q rest
          (omega (arith, clients, room.0), omega (arith, flows, room.1, fits))
          (record {
            sound = sound;
            stored = λ k up.
                let more : p.0 < k = omega (arith, id, clients, up) in
                lookup-insert_other p.0 k info c.store (ground arith)
                ∙ h.stored k (omega (arith, id));
            store_distinct = insert-IsDistinct p.0 info c.store h.store_distinct;
          }))

  del_all-IsReady :
      (ids : List ℕ) (c u : Controller W)
      → del_all glpk margin percentile hundred near_one fuel ids c ≡ some u
      → IsReady c
      → IsReady u
  unfolding del_all
  del_all-IsReady [] c u e h = let same : c ≡ u = cc in subst IsReady same h
  del_all-IsReady (i ∷ is) c u e h =
      let (s, gone, rest) = bind-some (del_workload i c.network) _ u e in
      del_all-IsReady is (record { network = s; store = erase i c.store }) u rest
        (erased-IsReady i c s gone h)

  measured-IsReady :
      (ids : List ℕ) (t : Controller W) (q : Bool × Network W)
      → check_latency glpk margin percentile hundred near_one fuel ids t.network ≡ some q
      → IsReady t
      → IsReady (record t { network = q.1 })
  unfolding outline
  measured-IsReady ids t q e h =
      let kept =
        check_latency-outline glpk margin percentile hundred near_one fuel ids t.network q e in
      record {
        sound = same_outline-IsSound t.network q.1 kept h.sound;
        stored = λ k up.
            h.stored k (subst (λ n. n ≤ k) (ap (λ (s : Network W). s.next_client_id) kept) up);
        store_distinct = h.store_distinct;
      }

  verdict-IsReady :
      (override : Bool) (ids : List ℕ) (t : Controller W) (q : Bool × Network W)
      → (if override
          then some (true, t.network)
          else check_latency glpk margin percentile hundred near_one fuel ids t.network)
        ≡ some q
      → IsReady t
      → IsReady (record t { network = q.1 })
  verdict-IsReady true ids t q e h =
      let same : t.network ≡ q.1 = cc in
      subst (λ s. IsReady (record t { network = s })) same
        (record { sound = h.sound; stored = h.stored; store_distinct = h.store_distinct })
  verdict-IsReady false ids t q e h = measured-IsReady ids t q e h

  pub decide-IsReady :
      (infos : List (ClientInfo W)) (c u : Controller W) (r : Reply)
      → decide glpk margin percentile hundred near_one fuel infos c ≡ some (r, u)
      → HasRoom c infos
      → IsReady c
      → IsReady u
  unfolding decide
  decide-IsReady infos c u r e room h =
      let (p, added, x) =
        bind-some (add_all glpk margin percentile hundred near_one fuel infos c) _ (r, u) e in
      let all = all_admitted glpk margin percentile hundred near_one fuel infos in
      let (q, checked, y) =
        bind-some
          (if all
            then some (true, p.1.network)
            else check_latency glpk margin percentile hundred near_one fuel p.0 p.1.network)
          _ (r, u) x in
      let t : Controller W = record p.1 { network = q.1 } in
      let ready = verdict-IsReady all p.0 p.1 q checked (add_all-IsReady infos c p added room h) in
      elim (Bool-cases q.0) [
        | inl b ↦ subst IsReady (same_reply _ t r u (rw b at y)) ready
        | inr b ↦
            let (v, gone, z) =
              bind-some (del_all glpk margin percentile hundred near_one fuel p.0 t) _ (r, u)
                (rw b at y) in
            subst IsReady (same_reply _ v r u z) (del_all-IsReady p.0 t v gone ready)
      ]

-- ===== src/Admission/Kept.antt =====
-- checkLatency changes the latencies, the priorities and the shaper curves, and nothing else.
use workload_compactor.Base.{
  bind-some, ℕ, ◌≡◌, ◌∙◌, sym, ap, Bool, false, List, [], ◌∷◌, some, nat_key, Double, Bool-cases,
  Option-cases, inl, inr,
}
use workload_compactor.Base.Table.{lookup}
use workload_compactor.Base.Table.Sets.{Set}
use workload_compactor.Network.Types.{FlowIndex, Network}
use workload_compactor.Network.Solver.{Glpk}
use workload_compactor.Network.Compactor.{insert_all, calc_client_latency}
use workload_compactor.Network.Outline.{outline}
use workload_compactor.Network.Outline.Kept.{calc_client_latency-outline}
use workload_compactor.Admission.Affected.{mark_flow_ids, clients_of}
use workload_compactor.Admission.Server.{meets_slo, check_added, check_affected, check_latency}

module _ {W : Type 0} ⦃d : Double W⦄ (glpk : Glpk W) (margin percentile hundred near_one : W)
    (fuel : ℕ) where
  meets_slo-outline :
      (i : ℕ) (s : Network W) (r : Bool × Network W)
      → meets_slo glpk margin percentile hundred near_one fuel i s ≡ some r
      → outline r.1 ≡ outline s
  unfolding meets_slo
  meets_slo-outline i s r e =
      let (u, run, x) = bind-some (calc_client_latency glpk margin i s) _ r e in
      let (c, found, y) = bind-some (lookup i u.1.clients) _ r x in
      let same : u.1 ≡ r.1 = cc in
      ap outline (sym same) ∙ calc_client_latency-outline margin glpk i s u run

  check_added-outline :
      (is : List ℕ) (marked : List FlowIndex) (s : Network W)
      (r : Bool × List FlowIndex × Network W)
      → check_added glpk margin percentile hundred near_one fuel is marked s ≡ some r
      → outline r.2 ≡ outline s
  unfolding check_added
  check_added-outline [] marked s r e = let same : s ≡ r.2 = cc in ap outline (sym same)
  check_added-outline (i ∷ is) marked s r e =
      let (u, met, x) =
        bind-some (meets_slo glpk margin percentile hundred near_one fuel i s) _ r e in
      let here = meets_slo-outline i s u met in
      elim (Bool-cases u.0) [
        | inl h ↦
            let (c, found, y) = bind-some (lookup i u.1.clients) _ r (rw h at x) in
            let (m, affected, z) = bind-some (mark_flow_ids fuel u.1 c.flow_ids marked) _ r y in
            check_added-outline is m u.1 r z ∙ here
        | inr h ↦
            let x' : some (false, marked, u.1) ≡ some r = rw h at x in
            let same : u.1 ≡ r.2 = cc in ap outline (sym same) ∙ here
      ]

  check_affected-outline :
      (added is : Set) (s : Network W) (r : Bool × Network W)
      → check_affected glpk margin percentile hundred near_one fuel added is s ≡ some r
      → outline r.1 ≡ outline s
  unfolding check_affected
  check_affected-outline added [] s r e = let same : s ≡ r.1 = cc in ap outline (sym same)
  check_affected-outline added ((i, v) ∷ is) s r e = elim (Option-cases (lookup i added)) [
    | inl h ↦
        let (u, met, x) =
          bind-some (meets_slo glpk margin percentile hundred near_one fuel i s) _ r
            (rw (h, check_affected) at e) in
        let here = meets_slo-outline i s u met in
        elim (Bool-cases u.0) [
          | inl g ↦ check_affected-outline added is u.1 r (rw g at x) ∙ here
          | inr g ↦
              let x' : some (false, u.1) ≡ some r = rw g at x in
              let same : u.1 ≡ r.1 = cc in ap outline (sym same) ∙ here
        ]
    | inr (w, h) ↦ check_affected-outline added is s r (rw (h, check_affected) at e)
  ]

  -- Whatever its answer: checkLatency leaves the names, the clients, the flows and the queues
  -- as they are, but for latencies, priorities, shaper curves and the set of affected queues.
  pub check_latency-outline :
      (ids : List ℕ) (s : Network W) (r : Bool × Network W)
      → check_latency glpk margin percentile hundred near_one fuel ids s ≡ some r
      → outline r.1 ≡ outline s
  unfolding check_latency
  check_latency-outline ids s r e =
      let (u, added, x) =
        bind-some (check_added glpk margin percentile hundred near_one fuel ids [] s) _ r e in
      let here = check_added-outline ids [] s u added in
      elim (Bool-cases u.0) [
        | inl h ↦
            let (affected, found, y) = bind-some (clients_of u.2 u.1 []) _ r (rw h at x) in
            check_affected-outline (insert_all ids []) affected u.2 r y ∙ here
        | inr h ↦
            let x' : some (false, u.2) ≡ some r = rw h at x in
            let same : u.2 ≡ r.1 = cc in ap outline (sym same) ∙ here
      ]

-- ===== src/Network/Outline/Kept.antt =====
-- The computation of latencies, with the optimisation that goes before it, keeps the outline.
use workload_compactor.Base.{
  bind-some, ℕ, ◌≡◌, refl, ◌∙◌, sym, ap, Bool, List, [], ◌∷◌, Option, none, some, nat_key, Double,
  is_empty, Bool-cases, inl, inr,
}
use workload_compactor.Base.Table.{lookup, adjust}
use workload_compactor.Base.Table.Sets.{Set}
use workload_compactor.Network.Types.{Flow, Client, Network}
use workload_compactor.Network.Solver.{Glpk}
use workload_compactor.Network.Latency.{aggregate, queue_latency, set_latency, calc_flow_latency}
use workload_compactor.Network.Curves.{calc_shaper_latency}
use workload_compactor.Network.Shapers.Groups.{client_groups}
use workload_compactor.Network.Shapers.Program.{Build}
use workload_compactor.Network.Shapers.Assign.{
  clear_clients, assign_clients, conclude_group, optimise_group, optimise_groups,
  calc_shaper_parameters,
}
use workload_compactor.Network.Shapers.Assign.Passes.{Passes, sets, Covers, walks}
use workload_compactor.Network.Shapers.Assign.Priorities.{
  HasPriority, IsCleared, rank_of, clear_clients-Covers, assign_clients-Covers,
  optimise_group-Concludes,
}
use workload_compactor.Network.Compactor.{
  refresh_shapers, workload_flow_latency, flows_latency, calc_client_latency,
}
use workload_compactor.Network.Outline.{
  plain_flow, plain_client, outline, outline-flows, outline-clients, set_shaper-outline,
}

module _ {W : Type 0} ⦃d : Double W⦄ where
  Passes-outline :
      (Good : Flow W → Type 0) (is : List ℕ) (s t : Network W)
      → Passes Good is s t
      → outline t ≡ outline s
  Passes-outline Good is s t (Passes.done _) = refl
  Passes-outline Good is s t (sets i rest curve p _ u _ found e good w) =
      Passes-outline Good rest u t w ∙ set_shaper-outline i curve p s u e

  Covers-outline :
      (Good : Client W → Flow W → Type 0) (group : Set) (s t : Network W)
      → Covers Good group s t
      → outline t ≡ outline s
  Covers-outline Good group s t (Covers.done _) = refl
  Covers-outline Good group s t (walks i v rest c _ u _ found w r) =
      Covers-outline Good rest u t r ∙ Passes-outline (Good c) c.flow_ids s u w

  module _ (margin : W) where
    conclude_group-outline :
        (slos : List W) (group : Set) (b : Build W) (o : Option (ℕ → W)) (s : Network W)
        (r : Bool × Network W)
        → conclude_group margin slos group b o s ≡ some r
        → outline r.1 ≡ outline s
    unfolding conclude_group
    conclude_group-outline slos group b none s r e =
        let (t, run, end) = bind-some (clear_clients margin slos group s) _ r e in
        let same : t ≡ r.1 = cc in
        ap outline (sym same)
        ∙ Covers-outline (λ c. IsCleared (rank_of margin slos c)) group s t
            (clear_clients-Covers margin slos group s t run)
    conclude_group-outline slos group b (some values) s r e =
        let (t, run, end) =
          bind-some (assign_clients margin slos values group b.r_vars b.b_vars s) _ r e in
        let same : t ≡ r.1 = cc in
        ap outline (sym same)
        ∙ Covers-outline (λ c. HasPriority (rank_of margin slos c)) group s t
            (assign_clients-Covers margin slos values group b.r_vars b.b_vars s t run)

    module _ (glpk : Glpk W) where
      optimise_groups-outline :
          (groups : List Set) (s : Network W) (r : Bool × Network W)
          → optimise_groups glpk margin groups s ≡ some r
          → outline r.1 ≡ outline s
      unfolding optimise_groups
      optimise_groups-outline [] s r e = let same : s ≡ r.1 = cc in ap outline (sym same)
      optimise_groups-outline (group ∷ groups) s r e =
          let (u, here, x) = bind-some (optimise_group glpk margin group s) _ r e in
          let (v, rest, y) = bind-some (optimise_groups glpk margin groups u.1) _ r x in
          let same : v.1 ≡ r.1 = cc in
          let (slos, b, o, keys, ends) = optimise_group-Concludes glpk margin group s u here in
          ap outline (sym same)
          ∙ optimise_groups-outline groups u.1 v rest
          ∙ conclude_group-outline slos group b o s u ends

      refresh_shapers-outline :
          (s t : Network W) → refresh_shapers glpk margin s ≡ some t → outline t ≡ outline s
      unfolding refresh_shapers calc_shaper_parameters outline
      refresh_shapers-outline s t e = elim (Bool-cases (is_empty s.affected_queue_ids)) [
        | inl h ↦
            let e' : some s ≡ some t = rw h at e in let same : s ≡ t = cc in ap outline (sym same)
        | inr h ↦
            let (r, run, end) = bind-some (calc_shaper_parameters glpk margin s) _ t (rw h at e) in
            let (groups, found, rest) = bind-some (client_groups s) _ r run in
            let same : record r.1 { affected_queue_ids = [] } ≡ t = cc in
            ap outline (sym same)
            ∙ optimise_groups-outline groups (record s { affected_queue_ids = [] }) r rest
      ]

      calc_flow_latency-outline :
          (i : ℕ) (s : Network W) (r : W × Network W)
          → calc_flow_latency aggregate 0 i s ≡ some r
          → outline r.1 ≡ outline s
      unfolding calc_flow_latency set_latency plain_flow
      calc_flow_latency-outline i s r e =
          let (f, found, x) = bind-some (lookup i s.flows) _ r e in
          elim (Bool-cases f.ignore_latency) [
            | inl h ↦
                let e' : some (d.nought, set_latency i d.nought s) ≡ some r = rw h at x in
                let same : set_latency i d.nought s ≡ r.1 = cc in
                ap outline (sym same) ∙ outline-flows i _ s (λ f. refl)
            | inr h ↦
                let (queues, a, y) = bind-some (queue_latency aggregate 0 s f) _ r (rw h at x) in
                let (shaper, b, z) =
                  bind-some (calc_shaper_latency f.arrival_curve f.shaper_curve) _ r y in
                let same : set_latency i (d.add queues shaper) s ≡ r.1 = cc in
                ap outline (sym same) ∙ outline-flows i _ s (λ f. refl)
          ]

      flows_latency-outline :
          (fs : List ℕ) (total : W) (s : Network W) (r : W × Network W)
          → flows_latency glpk margin fs total s ≡ some r
          → outline r.1 ≡ outline s
      unfolding flows_latency workload_flow_latency
      flows_latency-outline [] total s r e = let same : s ≡ r.1 = cc in ap outline (sym same)
      flows_latency-outline (f ∷ fs) total s r e =
          let (u, here, rest) = bind-some (workload_flow_latency glpk margin f s) _ r e in
          let (t, fresh, latency) = bind-some (refresh_shapers glpk margin s) _ u here in
          flows_latency-outline fs (d.add total u.0) u.1 r rest
          ∙ calc_flow_latency-outline f t u latency
          ∙ refresh_shapers-outline s t fresh

      pub calc_client_latency-outline :
          (i : ℕ) (s : Network W) (r : W × Network W)
          → calc_client_latency glpk margin i s ≡ some r
          → outline r.1 ≡ outline s
      unfolding calc_client_latency plain_client
      calc_client_latency-outline i s r e =
          let (c, found, x) = bind-some (lookup i s.clients) _ r e in
          let (u, run, y) = bind-some (flows_latency glpk margin c.flow_ids d.nought s) _ r x in
          let t : Network W = record u.1 {
            clients = adjust i (λ e. record e { latency = u.0 }) u.1.clients;
          } in
          let same : t ≡ r.1 = cc in
          ap outline (sym same)
          ∙ outline-clients i _ u.1 (λ c. refl)
          ∙ flows_latency-outline c.flow_ids d.nought s u run

-- ===== src/Network/Shapers/Assign.antt =====
-- calcShaperParameters as a whole: each group's program is solved, and its flows get their shaper
-- curves and priorities. `none` is a null pointer dereference, a failed assertion, a write past an
-- array's end, or the fuel's end.
use workload_compactor.Base.{
  ◌>>=◌, ℕ, zero, suc, ◌+◌, Bool, true, false, ◌&&◌, List, [], ◌∷◌, Option, none, some, nat_key,
  Double, length,
}
use workload_compactor.Base.Table.{Table, lookup, adjust}
use workload_compactor.Base.Table.Sets.{Set}
use workload_compactor.Network.Types.{SimpleArrivalCurve, Flow, Client, Queue, Network}
use workload_compactor.Network.Registry.{set_flow_priority, zero_arrival_curve}
use workload_compactor.Network.Solver.{Glpk, solve}
use workload_compactor.Network.Shapers.Groups.{client_groups}
use workload_compactor.Network.Shapers.Ranks.{rank, scaled_slo, collect_slos, collect_paths, front}
use workload_compactor.Network.Shapers.Program.{Build, new_build, add_clients, close_program}
pub mod Passes
pub mod Priorities

unfoldable pub rest_of : List ℕ → List ℕ
rest_of [] = []
rest_of (v ∷ vs) = vs

module _ {W : Type 0} where
  -- `f->shaperCurve = …` and setFlowPriority.
  unfoldable pub set_shaper : ℕ → SimpleArrivalCurve W → ℕ → Network W → Option (Network W)
  set_shaper flow_id curve priority s =
      set_flow_priority flow_id priority
        (record s { flows = adjust flow_id (λ f. record f { shaper_curve = curve }) s.flows })

module _ {W : Type 0} ⦃d : Double W⦄ where
  -- The values of the program's variables times the bandwidth of the flow's first queue.
  unfoldable pub solved_curve : (ℕ → W) → List ℕ → List ℕ → W → Option (SimpleArrivalCurve W)
  solved_curve values [] b_vars bandwidth = none
  solved_curve values (r ∷ r_vars) [] bandwidth = none
  solved_curve values (r ∷ r_vars) (b ∷ b_vars) bandwidth =
      some (record { r = d.mul (values r) bandwidth; b = d.mul (values b) bandwidth })

  -- The variables that are left stand for the index `i` of the source.
  unfoldable pub assign_flows :
      (ℕ → W) → ℕ → List ℕ → List ℕ → List ℕ → Network W → Option (List ℕ × List ℕ × Network W)
  assign_flows values priority [] r_vars b_vars s = some (r_vars, b_vars, s)
  assign_flows values priority (i ∷ is) r_vars b_vars s = lookup i s.flows >>= λ f.
      front f.queue_ids >>= λ q. lookup q s.queues >>= λ queue.
      solved_curve values r_vars b_vars queue.bandwidth >>= λ curve.
      set_shaper i curve priority s
      >>= assign_flows values priority is (rest_of r_vars) (rest_of b_vars)

  unfoldable pub assign_clients :
      W → List W → (ℕ → W) → Set → List ℕ → List ℕ → Network W → Option (Network W)
  assign_clients margin slos values [] r_vars b_vars s = some s
  assign_clients margin slos values ((i, u) ∷ group) r_vars b_vars s = lookup i s.clients >>= λ c.
      assign_flows values (rank (scaled_slo margin c) slos) c.flow_ids r_vars b_vars s >>= λ t.
      assign_clients margin slos values group t.0 t.1 t.2

  -- Without a solution the shaper curves are zero.
  unfoldable pub clear_flows : ℕ → List ℕ → Network W → Option (Network W)
  clear_flows priority [] s = some s
  clear_flows priority (i ∷ is) s = lookup i s.flows >>= λ f.
      set_shaper i zero_arrival_curve priority s >>= clear_flows priority is

  unfoldable pub clear_clients : W → List W → Set → Network W → Option (Network W)
  clear_clients margin slos [] s = some s
  clear_clients margin slos ((i, u) ∷ group) s = lookup i s.clients >>= λ c.
      clear_flows (rank (scaled_slo margin c) slos) c.flow_ids s >>= clear_clients margin slos group

  -- The outcome for a group: whether its program was solved.
  unfoldable pub conclude_group :
      W → List W → Set → Build W → Option (ℕ → W) → Network W → Option (Bool × Network W)
  conclude_group margin slos group b none s =
      clear_clients margin slos group s >>= λ t. some (false, t)
  conclude_group margin slos group b (some values) s =
      assign_clients margin slos values group b.r_vars b.b_vars s >>= λ t. some (true, t)

  unfoldable pub optimise_group : Glpk W → W → Set → Network W → Option (Bool × Network W)
  optimise_group glpk margin group s = do
    slos ← collect_slos margin s group []
    (paths, stages) ← collect_paths s group [] []
    b ←
        add_clients glpk margin slos paths stages s group
          (new_build (length group) slos paths (length stages))
    conclude_group margin slos group b (solve glpk (close_program margin b)) s

  unfoldable pub optimise_groups : Glpk W → W → List Set → Network W → Option (Bool × Network W)
  optimise_groups glpk margin [] s = some (true, s)
  optimise_groups glpk margin (group ∷ groups) s = optimise_group glpk margin group s >>= λ r.
      optimise_groups glpk margin groups r.1 >>= λ t. some (r.0 && t.0, t.1)

  unfoldable pub calc_shaper_parameters : Glpk W → W → Network W → Option (Bool × Network W)
  calc_shaper_parameters glpk margin s = client_groups s >>= λ groups.
      optimise_groups glpk margin groups (record s { affected_queue_ids = [] })

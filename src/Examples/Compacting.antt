-- ===== src/Examples/Compacting.antt =====
-- The rate limits of two workloads on one disk, which src/DNC-Library/WorkloadCompactor.cpp sets.
use workload_compactor.Base.{
  ◌*◌, ltb, ℕ, ◌≡◌, ◌↔◌, ◌<◌, refl, sym, subst, List, [], ◌∷◌, none, some, true, false, units,
  nat_key, ◌==◌, ==_iff, Bool-cases, inl, inr, ◌⊎◌, arith, Elem, Bool, ◌∙◌, string_key,
}
use workload_compactor.Base.Table.{lookup, insert, erase, adjust, place, replace}
use workload_compactor.Base.Table.Sets.{Set}
use workload_compactor.Network.Types.{Network, Flow, Client, Queue}
use workload_compactor.Network.Shapers.Groups.{client_groups}
use workload_compactor.Network.Shapers.Groups.Reached.{IsLinked, Reached, Owned}
use workload_compactor.Network.Shapers.Groups.Closed.{InSome, client_groups-Reached}
use workload_compactor.Network.Shapers.Ranks.Ascending.{units-IsWeak}
use workload_compactor.Network.Shapers.Assign.Passes.{HasOwners}
use workload_compactor.Network.Shapers.Assign.Priorities.{
  optimise_group-priorities, optimise_group-unsolved,
}
use workload_compactor.Network.Shapers.Program.Overflow.{optimise_group-overflow}
use workload_compactor.Network.Compactor.{workload_flow_latency}
use workload_compactor.Network.Compactor.Deleted.{del_queue-workload_flow_latency}
use workload_compactor.Network.Shapers.Ranks.{
  collect_slos, collect_paths, client_path, front, add_stages, add_stage, add_path, insert_slo,
  rank, rank_from, same_path, scaled_slo,
}
use workload_compactor.Network.Shapers.Program.{
  add_clients, add_flows, add_flow, append_at, new_build, empty_rows, add_arrival_curve,
  add_segments, add_to_levels, add_to_path, add_to_paths, append_all, close_level, close_levels,
  close_program, close_rows, empty_level, place_on, set_objective,
}
use workload_compactor.Network.Shapers.Assign.{
  optimise_group, assign_clients, assign_flows, clear_clients, clear_flows, conclude_group, rest_of,
  set_shaper, solved_curve,
}
use workload_compactor.Network.Solver.{
  append, add_constraint, add_constraint_expression, add_variable, bounds_of, init, new_problem,
  set_objective_coeff, set_objective_direction, solve, values_of, Glpk,
}
use workload_compactor.Network.Curves.{y_intercept}
use workload_compactor.Network.Registry.{
  set_flow_priority, zero_arrival_curve, del_queue, initial_point,
}

-- The only entry of a table.
only : {V : Type 0} (k q : ℕ) (v w : V) → lookup q ((k, v) ∷ []) ≡ some w → (q ≡ k) × (v ≡ w)
unfolding lookup
only k q v w h = elim (Bool-cases (k == q)) [
  | inl e ↦ let same : q ≡ k = sym ((==_iff k q).0 e) in (same, ground (arith, h, e))
  | inr e ↦ ground (arith, h, e)
]

abbrev flow : ℕ → ℕ → Flow ℕ
flow i c = record {
  flow_id = i;
  name = "flow";
  client_id = c;
  queue_ids = 1 ∷ [];
  priority = 0;
  latency = 0;
  ignore_latency = false;
  arrival_curve = initial_point ∷ record { x = 0; y = 1; slope = 0 } ∷ [];
  shaper_curve = record { r = 7; b = 7 };
}

abbrev client : ℕ → ℕ → ℕ → Client ℕ
client c i slo = record {
  client_id = c;
  name = "client";
  flow_ids = i ∷ [];
  slo = slo;
  slo_percentile = 99;
  latency = 0;
  ignore_latency = false;
}

abbrev disk : Queue ℕ
disk = record {
  queue_id = 1;
  name = "disk";
  flows = record { flow_id = 10; index = 0 } ∷ [];
  bandwidth = 1;
}

abbrev one : Network ℕ
one = record {
  flow_ids = [];
  client_ids = [];
  queue_ids = ("disk", 1) ∷ [];
  flows = (10, flow 10 1) ∷ [];
  clients = (1, client 1 10 2) ∷ [];
  queues = (1, disk) ∷ [];
  next_flow_id = 11;
  next_client_id = 2;
  next_queue_id = 2;
  affected_queue_ids = (1, tt) ∷ [];
}

one-IsLinked : IsLinked one
unfolding lookup
one-IsLinked = record {
  queues_found = λ q h.
      let (same, u) = only 1 q tt tt h in
      (disk, subst (λ k. lookup k one.queues ≡ some disk) (sym same) refl);
  clients_found = λ q queue fi h m.
      let (same, u) = only 1 q disk queue h in
      let m' = subst (λ (x : Queue ℕ). Elem fi x.flows) (sym u) m in
      elim m' [
        | inl e ↦ (
          client 1 10 2,
          subst (λ x. Owned one x (client 1 10 2)) (sym e) (flow 10 1, refl, refl),
        )
        | inr e ↦ elim e [ ]
      ];
  flows_found = λ j c i h m.
      let (same, u) = only 1 j (client 1 10 2) c h in
      let m' = subst (λ (x : Client ℕ). Elem i x.flow_ids) (sym u) m in
      elim m' [
        | inl e ↦ (flow 10 1, subst (λ x. lookup x one.flows ≡ some (flow 10 1)) (sym e) refl)
        | inr e ↦ elim e [ ]
      ];
}

client_groups-Reached_example :
    (groups : List Set) × (client_groups one ≡ some groups)
    × ((i : ℕ) → InSome i groups ↔ Reached one i)
unfolding lookup
client_groups-Reached_example = client_groups-Reached one one-IsLinked (refl, tt) (refl, tt)

-- Either entry of a table of two.
either :
    {V : Type 0} (k l q : ℕ) (v u w : V)
    → lookup q ((k, v) ∷ (l, u) ∷ []) ≡ some w
    → (v ≡ w) ⊎ (u ≡ w)
unfolding lookup
either k l q v u w h = elim (Bool-cases (k == q)) [
  | inl e ↦ inl (ground (arith, h, e))
  | inr e ↦ inr ((only l q u w (ground (arith, h, e))).1)
]

abbrev two : Network ℕ
two = record one {
  flows = (10, flow 10 1) ∷ (20, flow 20 2) ∷ [];
  clients = (1, client 1 10 2) ∷ (2, client 2 20 5) ∷ [];
  queues =
      (
        1,
        record disk {
          flows = record { flow_id = 10; index = 0 } ∷ record { flow_id = 20; index = 0 } ∷ [];
        },
      )
      ∷ [];
}

two-HasOwners : HasOwners two.clients
two-HasOwners j k a b i x y m n = elim (either 1 2 j (client 1 10 2) (client 2 20 5) a x) [
  | inl p ↦ elim (either 1 2 k (client 1 10 2) (client 2 20 5) b y) [
    | inl q ↦ sym p ∙ q
    | inr q ↦ elim (clash (at p m) (at q n)) [ ]
  ]
  | inr p ↦ elim (either 1 2 k (client 1 10 2) (client 2 20 5) b y) [
    | inl q ↦ elim (clash (at q n) (at p m)) [ ]
    | inr q ↦ sym p ∙ q
  ]
]
  where
    at : {c e : Client ℕ} → c ≡ e → Elem i e.flow_ids → Elem i c.flow_ids
    at p m = subst (λ (x : Client ℕ). Elem i x.flow_ids) (sym p) m

    clash : Elem i (10 ∷ []) → Elem i (20 ∷ []) → ⊥
    clash m n = ground arith

-- A library whose interior point method finds every value to be its variable's number, and one that
-- finds nothing.
abbrev solves : Glpk ℕ
solves = record {
  is_finite = λ x. true;
  interior = λ p. record { returned = true; optimal = true; values = λ v. v };
  simplex = λ p. record { returned = false; optimal = false; values = λ v. v };
  exact = λ p. record { returned = false; optimal = false; values = λ v. v };
}

abbrev fails : Glpk ℕ
fails = record solves {
  interior = λ p. record { returned = true; optimal = false; values = λ v. v };
}

abbrev both : Set
both = (1, tt) ∷ (2, tt) ∷ []

abbrev solved : Bool × Network ℕ
solved = (
  true,
  record two {
    flows =
        (10, record (flow 10 1) { priority = 0; shaper_curve = record { r = 1; b = 2 } })
        ∷ (20, record (flow 20 2) { priority = 1; shaper_curve = record { r = 3; b = 4 } })
        ∷ [];
  },
)

abbrev cleared : Network ℕ
cleared = record two {
  flows =
      (10, record (flow 10 1) { priority = 0; shaper_curve = zero_arrival_curve })
      ∷ (20, record (flow 20 2) { priority = 1; shaper_curve = zero_arrival_curve })
      ∷ [];
}

two-solved : optimise_group solves 1 both two ≡ some solved
unfolding collect_slos collect_paths client_path front add_stages add_stage add_path insert_slo rank
    rank_from same_path scaled_slo add_clients add_flows add_flow append_at new_build empty_rows
    add_arrival_curve add_segments add_to_levels add_to_path add_to_paths append_all close_level
    close_levels close_program close_rows empty_level place_on set_objective optimise_group
    assign_clients assign_flows clear_clients clear_flows conclude_group rest_of set_shaper
    solved_curve append add_constraint add_constraint_expression add_variable bounds_of init
    new_problem set_objective_coeff set_objective_direction solve values_of y_intercept
    set_flow_priority zero_arrival_curve lookup insert place replace adjust
two-solved = refl

two-cleared : optimise_group fails 1 both two ≡ some (false, cleared)
unfolding collect_slos collect_paths client_path front add_stages add_stage add_path insert_slo rank
    rank_from same_path scaled_slo add_clients add_flows add_flow append_at new_build empty_rows
    add_arrival_curve add_segments add_to_levels add_to_path add_to_paths append_all close_level
    close_levels close_program close_rows empty_level place_on set_objective optimise_group
    assign_clients assign_flows clear_clients clear_flows conclude_group rest_of set_shaper
    solved_curve append add_constraint add_constraint_expression add_variable bounds_of init
    new_problem set_objective_coeff set_objective_direction solve values_of y_intercept
    set_flow_priority zero_arrival_curve lookup insert place replace adjust
two-cleared = refl

optimise_group-priorities_example :
    (f g : Flow ℕ) × (lookup 10 solved.1.flows ≡ some f)
    × (lookup 20 solved.1.flows ≡ some g)
    × ((f.priority < g.priority) ⊎ ((f.priority ≡ g.priority) × (ltb (2 * 1) (5 * 1) ≡ false)))
unfolding lookup
optimise_group-priorities_example =
    optimise_group-priorities units-IsWeak solves 1 both two solved (λ x y h. ground (arith, h))
      two-solved two-HasOwners 1 2 (client 1 10 2) (client 2 20 5) 10 20 refl refl refl refl
      (inl refl) (inl refl) refl

optimise_group-unsolved_example :
    (f : Flow ℕ) × (lookup 20 cleared.flows ≡ some f) × (f.shaper_curve ≡ zero_arrival_curve)
unfolding lookup
optimise_group-unsolved_example =
    optimise_group-unsolved fails 1 both two cleared two-cleared two-HasOwners 2 (client 2 20 5) 20
      refl refl (inl refl)

-- The disk has lost its last flow, and is affected still.
abbrev idle : Network ℕ
idle = record one { flows = []; clients = []; queues = (1, record disk { flows = [] }) ∷ [] }

del_queue-workload_flow_latency_example :
    workload_flow_latency solves 1 5 (record idle { queue_ids = []; queues = [] }) ≡ none
unfolding lookup del_queue erase
del_queue-workload_flow_latency_example =
    del_queue-workload_flow_latency solves 1 1 5 idle (record idle { queue_ids = []; queues = [] })
      (refl, tt) refl refl

-- Both flows of the only client begin at the disk.
abbrev greedy : Network ℕ
greedy = record one {
  flows = (10, flow 10 1) ∷ (20, flow 20 1) ∷ [];
  clients = (1, record (client 1 10 2) { flow_ids = 10 ∷ 20 ∷ [] }) ∷ [];
}

optimise_group-overflow_example : optimise_group solves 1 ((1, tt) ∷ []) greedy ≡ none
unfolding lookup
optimise_group-overflow_example =
    optimise_group-overflow solves 1 ((1, tt) ∷ []) greedy 1 (omega arith)

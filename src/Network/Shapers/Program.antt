-- ===== src/Network/Shapers/Program.antt =====
-- calcShaperParameters: the linear program of a group of clients. A path's rows stand in the order of
-- its queues, and a level, the rows of all paths, for each SLO, the largest first.
use workload_compactor.Base.{
  reversed, ◌>>=◌, value_or, ℕ, zero, suc, ◌+◌, ◌*◌, if◌then◌else◌, List, [], ◌∷◌, ◌++◌, map,
  Option, none, some, nat_key, ◌==◌, Double, length, ◌&&◌,
}
use workload_compactor.Base.Table.{Table, lookup}
use workload_compactor.Base.Table.Sets.{Set}
use workload_compactor.Network.Types.{PointSlope, Curve, Network}
use workload_compactor.Network.Curves.{y_intercept}
use workload_compactor.Network.Solver.{
  continuous, ConstraintExpression, Problem, Glpk, init, append, add_variable, add_constraint,
  add_constraint_expression, set_objective_direction, set_objective_coeff, le, ge, min, new_problem,
}
use workload_compactor.Network.Shapers.Ranks.{scaled_slo, front}
pub mod Overflow

-- The rows and variables while the program is built; the handles in the order of their creation.
pub record Build (W : Type 0) : Type 0 where
  pub problem : Problem W
  pub r_vars : List ℕ
  pub b_vars : List ℕ
  pub r_rows : List (ConstraintExpression W)
  pub b_rows : List (List (List (ConstraintExpression W)))

-- The first place of a queue on a path.
unfoldable pub place_on : ℕ → List ℕ → Option ℕ
place_on q [] = none
place_on q (p ∷ ps) =
    let rest = place_on q ps in if p == q then some 0 else (rest >>= λ i. some (suc i))

module _ {W : Type 0} where
  unfoldable pub append_at :
      ℕ → W → ℕ → List (ConstraintExpression W) → Option (List (ConstraintExpression W))
  append_at i coeff var [] = none
  append_at zero coeff var (e ∷ es) = append coeff var e >>= λ f. some (f ∷ es)
  append_at (suc i) coeff var (e ∷ es) = append_at i coeff var es >>= λ fs. some (e ∷ fs)

  unfoldable pub append_all :
      W → ℕ → List (ConstraintExpression W) → Option (List (ConstraintExpression W))
  append_all coeff var [] = some []
  append_all coeff var (e ∷ es) =
      append coeff var e >>= λ f. append_all coeff var es >>= λ fs. some (f ∷ fs)

  unfoldable pub empty_rows : ℕ → ℕ → List (ConstraintExpression W)
  empty_rows zero capacity = []
  empty_rows (suc n) capacity = init capacity ∷ empty_rows n capacity

  unfoldable pub empty_level : ℕ → List (List ℕ) → List (List (ConstraintExpression W))
  empty_level clients [] = []
  empty_level clients (path ∷ paths) =
      empty_rows (length path) ((length path + 1) * clients) ∷ empty_level clients paths

module _ {W : Type 0} ⦃d : Double W⦄ where
  open d use {nought, add, sub, mul, div, lt, of_ℕ}

  abbrev pub one : W
  one = of_ℕ 1

  -- A flow's terms in the rows of a path: at its own place, below its level only, and everywhere.
  unfoldable pub add_to_path :
      W
      → W
      → ℕ
      → ℕ
      → ℕ
      → List ℕ
      → List (ConstraintExpression W)
      → Option (List (ConstraintExpression W))
  add_to_path level slo q r_var b_var path rows = elim (place_on q path) [
    | none ↦ some rows
    | some j ↦
        (if lt slo level then append_at j one r_var rows else some rows)
        >>= append_all (div one level) b_var
  ]

  unfoldable pub add_to_paths :
      W
      → W
      → ℕ
      → ℕ
      → ℕ
      → List (List ℕ)
      → List (List (ConstraintExpression W))
      → Option (List (List (ConstraintExpression W)))
  add_to_paths level slo q r_var b_var [] rows = some []
  add_to_paths level slo q r_var b_var (path ∷ paths) [] = none
  add_to_paths level slo q r_var b_var (path ∷ paths) (row ∷ rows) =
      add_to_path level slo q r_var b_var path row >>= λ new.
      add_to_paths level slo q r_var b_var paths rows >>= λ news. some (new ∷ news)

  -- The levels, the largest SLO first, as far as the flow's own.
  unfoldable pub add_to_levels :
      W
      → ℕ
      → ℕ
      → ℕ
      → List (List ℕ)
      → List W
      → List (List (List (ConstraintExpression W)))
      → Option (List (List (List (ConstraintExpression W))))
  add_to_levels slo q r_var b_var paths [] levels = some levels
  add_to_levels slo q r_var b_var paths (level ∷ slos) [] = if d.le slo level then none else some []
  add_to_levels slo q r_var b_var paths (level ∷ slos) (rows ∷ levels) =
      let rest = add_to_levels slo q r_var b_var paths slos levels in
      if d.le slo level
      then (add_to_paths level slo q r_var b_var paths rows >>= λ new.
          rest >>= λ news. some (new ∷ news))
      else some (rows ∷ levels)

  -- The rows for the segments of an arrival curve after the first; `none` is a failed assertion.
  unfoldable pub add_segments :
      W → ℕ → ℕ → W → W → List (PointSlope W) → Problem W → Option (Problem W)
  add_segments bw r_var b_var r1 b1 [] p =
      some (add_constraint ((one, r_var) ∷ (nought, b_var) ∷ []) ge r1 p)
  add_segments bw r_var b_var r1 b1 (p2 ∷ ps) p =
      let r2 = div p2.slope bw in
      let b2 = div (y_intercept p2.x p2.y p2.slope) bw in
      let rest = add_segments bw r_var b_var r2 b2 ps (
        add_constraint ((sub b2 b1, r_var) ∷ (sub r1 r2, b_var) ∷ []) ge
          (sub (mul r1 b2) (mul r2 b1)) p) in
      if d.le b1 b2 && d.le r2 r1 then rest else none

  -- `arrivalCurve[1]` is read without a test of the length.
  unfoldable pub add_arrival_curve : W → ℕ → ℕ → Curve W → Problem W → Option (Problem W)
  add_arrival_curve bw r_var b_var [] p = none
  add_arrival_curve bw r_var b_var (p0 ∷ []) p = none
  add_arrival_curve bw r_var b_var (p0 ∷ p1 ∷ ps) p =
      let r1 = div p1.slope bw in
      let b1 = div (y_intercept p1.x p1.y p1.slope) bw in
      add_segments bw r_var b_var r1 b1 ps
        (add_constraint ((nought, r_var) ∷ (one, b_var) ∷ []) ge b1 p)

  -- The loop over the flows of a client.
  unfoldable pub add_flow :
      Glpk W
      → W
      → List W
      → List (List ℕ)
      → Table ℕ ℕ
      → W
      → Network W
      → ℕ
      → Build W
      → Option (Build W)
  add_flow glpk margin slos paths stages slo s flow_id b = do
    f ← lookup flow_id s.flows
    q ← front f.queue_ids
    let r = add_variable glpk.is_finite nought margin continuous b.problem
    let v = add_variable glpk.is_finite nought slo continuous r.1
    r_rows ← append_at (value_or 0 (lookup q stages)) one r.0 b.r_rows
    b_rows ← add_to_levels slo q r.0 v.0 paths (reversed slos []) b.b_rows
    queue ← lookup q s.queues
    problem ← add_arrival_curve queue.bandwidth r.0 v.0 f.arrival_curve v.1
    some (record {
      problem = problem;
      r_vars = b.r_vars ++ (r.0 ∷ []);
      b_vars = b.b_vars ++ (v.0 ∷ []);
      r_rows = r_rows;
      b_rows = b_rows;
    })

  unfoldable pub add_flows :
      Glpk W
      → W
      → List W
      → List (List ℕ)
      → Table ℕ ℕ
      → W
      → Network W
      → List ℕ
      → Build W
      → Option (Build W)
  add_flows glpk margin slos paths stages slo s [] b = some b
  add_flows glpk margin slos paths stages slo s (f ∷ fs) b =
      add_flow glpk margin slos paths stages slo s f b
      >>= add_flows glpk margin slos paths stages slo s fs

  unfoldable pub add_clients :
      Glpk W → W → List W → List (List ℕ) → Table ℕ ℕ → Network W → Set → Build W → Option (Build W)
  add_clients glpk margin slos paths stages s [] b = some b
  add_clients glpk margin slos paths stages s ((i, u) ∷ group) b = lookup i s.clients >>= λ c.
      add_flows glpk margin slos paths stages (scaled_slo margin c) s c.flow_ids b
      >>= add_clients glpk margin slos paths stages s group

  unfoldable pub new_build : ℕ → List W → List (List ℕ) → ℕ → Build W
  new_build clients slos paths stages = record {
    problem = new_problem;
    r_vars = [];
    b_vars = [];
    r_rows = empty_rows stages clients;
    b_rows = map (λ slo. empty_level clients paths) slos;
  }

  unfoldable pub close_rows : W → List (ConstraintExpression W) → Problem W → Problem W
  close_rows rhs [] p = p
  close_rows rhs (e ∷ es) p = close_rows rhs es (add_constraint_expression e le rhs p)

  unfoldable pub close_level : List (List (ConstraintExpression W)) → Problem W → Problem W
  close_level [] p = p
  close_level (rows ∷ level) p = close_level level (close_rows one rows p)

  unfoldable pub close_levels : List (List (List (ConstraintExpression W))) → Problem W → Problem W
  close_levels [] p = p
  close_levels (level ∷ levels) p = close_levels levels (close_level level p)

  unfoldable pub set_objective : List ℕ → Problem W → Problem W
  set_objective [] p = p
  set_objective (r ∷ rs) p = set_objective rs (set_objective_coeff one r p)

  -- The rows are handed over, and the sum of the rates is to be minimised.
  unfoldable pub close_program : W → Build W → Problem W
  close_program margin b =
      set_objective b.r_vars
        (set_objective_direction min (close_levels b.b_rows (close_rows margin b.r_rows b.problem)))

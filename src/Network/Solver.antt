-- ===== src/Network/Solver.antt =====
-- src/DNC-Library/Solver.hpp and SolverGLPK.cpp: a linear program as it is handed to the GLPK library,
-- and the choice among the library's methods. `none` is a write past an array's end.
use workload_compactor.Base.{
  ℕ, suc, Bool, ◌&&◌, if◌then◌else◌, List, [], ◌∷◌, ◌++◌, Option, none, some, length, ltb,
}

pub data VarType : Type 0 where
  continuous : VarType
  binary : VarType
  integer : VarType

pub data ConstraintType : Type 0 where
  le : ConstraintType
  eq : ConstraintType
  ge : ConstraintType

pub data ObjectiveType : Type 0 where
  min : ObjectiveType
  max : ObjectiveType

-- ConstraintExpression: the `count` filled places of its arrays, and their capacity.
pub record ConstraintExpression (W : Type 0) : Type 0 where
  pub terms : List (W × ℕ)
  pub capacity : ℕ

-- The library's kinds of bounds for a column: GLP_FR, GLP_LO, GLP_UP, GLP_DB.
pub data Bounds (W : Type 0) : Type 0 where
  free : Bounds W
  lower : W → Bounds W
  upper : W → Bounds W
  double_bounded : W → W → Bounds W

pub record Column (W : Type 0) : Type 0 where
  pub bounds : Bounds W
  pub kind : VarType

pub record Row (W : Type 0) : Type 0 where
  pub terms : List (W × ℕ)
  pub relation : ConstraintType
  pub rhs : W

-- `glp_prob`; columns and rows are numbered from 1.
pub record Problem (W : Type 0) : Type 0 where
  pub columns : List (Column W)
  pub rows : List (Row W)
  pub direction : ObjectiveType
  pub objective : List (W × ℕ)

-- What a method of the library reports: whether it returned 0, whether the status is then GLP_OPT, and
-- the values of the columns.
pub record Outcome (W : Type 0) : Type 0 where
  pub returned : Bool
  pub optimal : Bool
  pub values : ℕ → W

-- The GLPK library, and `isfinite` of the C library.
pub record Glpk (W : Type 0) : Type 0 where
  pub is_finite : W → Bool
  pub interior : Problem W → Outcome W
  pub simplex : Problem W → Outcome W
  pub exact : Problem W → Outcome W

module _ {W : Type 0} where
  unfoldable pub new_problem : Problem W
  new_problem = record { columns = []; rows = []; direction = min; objective = [] }

  -- ConstraintExpression::init and append.
  unfoldable pub init : ℕ → ConstraintExpression W
  init max_size = record { terms = []; capacity = max_size }

  unfoldable pub append : W → ℕ → ConstraintExpression W → Option (ConstraintExpression W)
  append coeff var e =
      if ltb (length e.terms) e.capacity
      then some (record e { terms = e.terms ++ ((coeff, var) ∷ []) })
      else none

  unfoldable pub bounds_of : (W → Bool) → W → W → Bounds W
  bounds_of is_finite lb ub =
      if is_finite lb
      then (if is_finite ub then double_bounded lb ub else lower lb)
      else (if is_finite ub then upper ub else free)

  -- The new variable's handle is the number of its column.
  unfoldable pub add_variable : (W → Bool) → W → W → VarType → Problem W → ℕ × Problem W
  add_variable is_finite lb ub kind p = (
    suc (length p.columns),
    record p {
      columns = p.columns ++ (record { bounds = bounds_of is_finite lb ub; kind = kind } ∷ []);
    },
  )

  unfoldable pub add_constraint : List (W × ℕ) → ConstraintType → W → Problem W → Problem W
  add_constraint terms relation rhs p = record p {
    rows = p.rows ++ (record { terms = terms; relation = relation; rhs = rhs } ∷ []);
  }

  unfoldable pub add_constraint_expression :
      ConstraintExpression W → ConstraintType → W → Problem W → Problem W
  add_constraint_expression e relation rhs p = add_constraint e.terms relation rhs p

  unfoldable pub set_objective_direction : ObjectiveType → Problem W → Problem W
  set_objective_direction direction p = record p { direction = direction }

  unfoldable pub set_objective_coeff : W → ℕ → Problem W → Problem W
  set_objective_coeff coeff var p = record p { objective = (coeff, var) ∷ p.objective }

  -- The simplex method is tried where the interior point method does not return 0, and its optimum is
  -- solved again exactly. With the method's values, for getSolutionVariable.
  unfoldable pub values_of : Outcome W → Option (ℕ → W)
  values_of o = if o.returned && o.optimal then some o.values else none

  unfoldable pub solve : Glpk W → Problem W → Option (ℕ → W)
  solve glpk p =
      let i = glpk.interior p in
      let x = glpk.simplex p in
      if i.returned
      then values_of i
      else (if x.returned && x.optimal then values_of (glpk.exact p) else none)

-- ===== src/Network/Shapers/Program/Overflow.antt =====
-- The rows for the stages have room for one term from each client, but take one from each flow.
use workload_compactor.Base.{
  ◌∙◌, ℕ, zero, suc, ◌+◌, ◌<◌, ◌≤◌, ◌≡◌, refl, sym, ap, subst, Bool-cases, if◌then◌else◌, ◌==◌,
  ==_iff, List, [], ◌∷◌, ◌++◌, Option, Option-cases, none, some, inl, inr, ◌⊎◌, bind-some,
  guard-some, value_or, reversed, arith, length, length-append, ltb, ltb→lt, All, Double, nat_key,
}
use workload_compactor.Base.Table.{Table, lookup}
use workload_compactor.Base.Table.Sets.{Set}
use workload_compactor.Network.Types.{Flow, Client, Network}
use workload_compactor.Network.Solver.{
  ConstraintExpression, Glpk, append, init, add_variable, continuous,
}
use workload_compactor.Network.Shapers.Ranks.{front, scaled_slo, collect_slos, collect_paths}
use workload_compactor.Network.Shapers.Program.{
  Build, one, append_at, empty_rows, new_build, add_flow, add_flows, add_clients, add_to_levels,
  add_arrival_curve,
}
use workload_compactor.Network.Shapers.Assign.{optimise_group}

module _ {W : Type 0} where
  -- No row has more terms than it has room for.
  abbrev Fits : ℕ → List (ConstraintExpression W) → Type 0
  Fits n rows = All (λ (e : ConstraintExpression W). (length e.terms ≤ n) × (e.capacity ≡ n)) rows

  abbrev row_size : ℕ → List (ConstraintExpression W) → ℕ
  row_size i [] = 0
  row_size zero (e ∷ es) = length e.terms
  row_size (suc i) (e ∷ es) = row_size i es

  append-Fits :
      (coeff : W) (var n : ℕ) (e f : ConstraintExpression W)
      → append coeff var e ≡ some f
      → e.capacity ≡ n
      → (length f.terms ≡ suc (length e.terms)) × (length f.terms ≤ n) × (f.capacity ≡ n)
  unfolding append
  append-Fits coeff var n e f r c = elim (Bool-cases (ltb (length e.terms) e.capacity)) [
    | inr h ↦
        let never : none ≡ some f =
          ap (λ b. if b then some (record e { terms = e.terms ++ ((coeff, var) ∷ []) }) else none)
            (sym h)
          ∙ r in
        cc
    | inl h ↦
        let same : record e { terms = e.terms ++ ((coeff, var) ∷ []) } ≡ f =
          guard-some (ltb (length e.terms) e.capacity) _ f r in
        let low = ltb→lt (length e.terms) e.capacity h in
        subst
          (λ (x : ConstraintExpression W).
            (length x.terms ≡ suc (length e.terms)) × (length x.terms ≤ n) × (x.capacity ≡ n))
          same
          (
            omega (arith, length-append e.terms ((coeff, var) ∷ [])),
            omega (arith, c, low, length-append e.terms ((coeff, var) ∷ [])),
            c,
          )
  ]

  cons-grows :
      (x f : ConstraintExpression W) (rows fs : List (ConstraintExpression W))
      → length x.terms ≤ length f.terms
      → ((k : ℕ) → row_size k rows ≤ row_size k fs)
      → (i : ℕ) → row_size i (x ∷ rows) ≤ row_size i (f ∷ fs)
  cons-grows x f rows fs h g zero = h
  cons-grows x f rows fs h g (suc k) = g k

  append_at-Fits :
      (j : ℕ) (coeff : W) (var n : ℕ) (rows new : List (ConstraintExpression W))
      → append_at j coeff var rows ≡ some new
      → Fits n rows
      → Fits n new
        × (row_size j new ≡ suc (row_size j rows))
        × ((i : ℕ) → row_size i rows ≤ row_size i new)
  unfolding append_at
  append_at-Fits zero coeff var n [] new e h = cc
  append_at-Fits (suc j) coeff var n [] new e h = cc
  append_at-Fits zero coeff var n (x ∷ rows) new e h =
      let (f, run, rest) = bind-some (append coeff var x) _ new e in
      let same : f ∷ rows ≡ new = cc in
      let (more, low, room) = append-Fits coeff var n x f run h.0.1 in
      subst
        (λ rs.
          Fits n rs
          × (row_size 0 rs ≡ suc (length x.terms))
          × ((i : ℕ) → row_size i (x ∷ rows) ≤ row_size i rs))
        same
        (
          ((low, room), h.1),
          more,
          cons-grows x f rows rows (omega (arith, more)) (λ k. omega arith),
        )
  append_at-Fits (suc j) coeff var n (x ∷ rows) new e h =
      let (fs, run, rest) = bind-some (append_at j coeff var rows) _ new e in
      let same : x ∷ fs ≡ new = cc in
      let (fits, more, grows) = append_at-Fits j coeff var n rows fs run h.1 in
      subst
        (λ rs.
          Fits n rs
          × (row_size (suc j) rs ≡ suc (row_size j rows))
          × ((i : ℕ) → row_size i (x ∷ rows) ≤ row_size i rs))
        same ((h.0, fits), more, cons-grows x x rows fs (omega arith) grows)

  row_size-Fits :
      (i n : ℕ) (rows : List (ConstraintExpression W)) → Fits n rows → row_size i rows ≤ n
  row_size-Fits i n [] h = omega arith
  row_size-Fits zero n (e ∷ es) h = h.0.0
  row_size-Fits (suc i) n (e ∷ es) h = row_size-Fits i n es h.1

empty_rows-Fits : (W : Type 0) (k n : ℕ) → Fits {W = W} n (empty_rows {W = W} k n)
unfolding empty_rows init
empty_rows-Fits W zero n = tt
empty_rows-Fits W (suc k) n = ((omega arith, refl), empty_rows-Fits W k n)

abbrev pub begins : ℕ → List ℕ → ℕ
begins q [] = 0
begins q (p ∷ ps) = if p == q then 1 else 0

begins_le : (q : ℕ) (qs : List ℕ) → begins q qs ≤ 1
begins_le q [] = omega arith
begins_le q (p ∷ ps) = ground arith

begins-first : (q : ℕ) (qs : List ℕ) (p : ℕ) → front qs ≡ some p → (begins q qs ≡ 0) ⊎ (p ≡ q)
unfolding front
begins-first q [] p e = cc
begins-first q (x ∷ xs) p e =
    let same : x ≡ p = cc in
    elim (Bool-cases (x == q)) [
      | inl h ↦ inr (sym same ∙ (==_iff x q).0 h)
      | inr h ↦ inl (rw h refl)
    ]

module _ {W : Type 0} where
  -- The flows of a list, and of the clients of a group, that begin at a queue.
  abbrev pub flow_begins : ℕ → Option (Flow W) → ℕ
  flow_begins q none = 0
  flow_begins q (some f) = begins q f.queue_ids

  abbrev pub flows_from : ℕ → Network W → List ℕ → ℕ
  flows_from q s [] = 0
  flows_from q s (f ∷ fs) = flow_begins q (lookup f s.flows) + flows_from q s fs

  abbrev pub client_from : ℕ → Network W → Option (Client W) → ℕ
  client_from q s none = 0
  client_from q s (some c) = flows_from q s c.flow_ids

  abbrev pub group_from : ℕ → Network W → Set → ℕ
  group_from q s [] = 0
  group_from q s ((i, u) ∷ group) = client_from q s (lookup i s.clients) + group_from q s group

module _ {W : Type 0} ⦃d : Double W⦄ (glpk : Glpk W) (margin : W) (slos : List W)
    (paths : List (List ℕ)) (stages : Table ℕ ℕ) (s : Network W) (q n : ℕ) where
  -- The row of the queue's stage.
  abbrev size : Build W → ℕ
  size b = row_size (value_or 0 (lookup q stages)) b.r_rows

  add_flow-row :
      (slo : W) (f : ℕ) (b c : Build W)
      → add_flow glpk margin slos paths stages slo s f b ≡ some c
      → (g : Flow W) × (p : ℕ) × (r : ℕ) × (rows : List (ConstraintExpression W)) × (lookup f
            s.flows
          ≡ some g)
        × (front g.queue_ids ≡ some p)
        × (append_at (value_or 0 (lookup p stages)) one r b.r_rows ≡ some rows)
        × (c.r_rows ≡ rows)
  unfolding add_flow
  add_flow-row slo f b c e =
      let r = add_variable glpk.is_finite d.nought margin continuous b.problem in
      let v = add_variable glpk.is_finite d.nought slo continuous r.1 in
      let (g, at, x1) = bind-some (lookup f s.flows) _ c e in
      let (p, first, x2) = bind-some (front g.queue_ids) _ c x1 in
      let (rows, run, x3) =
        bind-some (append_at (value_or 0 (lookup p stages)) one r.0 b.r_rows) _ c x2 in
      let (levels, y1, x4) =
        bind-some (add_to_levels slo p r.0 v.0 paths (reversed slos []) b.b_rows) _ c x3 in
      let (queue, y2, x5) = bind-some (lookup p s.queues) _ c x4 in
      let (problem, y3, x6) =
        bind-some (add_arrival_curve queue.bandwidth r.0 v.0 g.arrival_curve v.1) _ c x5 in
      (g, p, r.0, rows, at, first, run, rows_of _ c rows x6 refl)
    where
      rows_of :
          (x c : Build W) (rows : List (ConstraintExpression W))
          → some x ≡ some c
          → x.r_rows ≡ rows
          → c.r_rows ≡ rows
      rows_of x c rows e h =
          let same : x ≡ c = cc in subst (λ (y : Build W). y.r_rows ≡ rows) same h

  add_flow-size :
      (slo : W) (f : ℕ) (b c : Build W)
      → add_flow glpk margin slos paths stages slo s f b ≡ some c
      → Fits n b.r_rows
      → Fits n c.r_rows × (flow_begins q (lookup f s.flows) + size b ≤ size c)
  unfolding add_flow
  add_flow-size slo f b c e h =
      let (g, p, r, rows, at, first, run, same) = add_flow-row slo f b c e in
      let (fits, more, grows) =
        append_at-Fits (value_or 0 (lookup p stages)) one r n b.r_rows rows run h in
      let start : flow_begins q (lookup f s.flows) ≡ begins q g.queue_ids = ap (flow_begins q) at in
      (
        subst (Fits n) (sym same) fits,
        subst
            (λ xs.
              flow_begins q (lookup f s.flows) + size b
              ≤ row_size (value_or 0 (lookup q stages)) xs)
            (sym same)
            (elim (begins-first q g.queue_ids p first) [
              | inl z ↦ omega (arith, start, z, grows (value_or 0 (lookup q stages)))
              | inr here ↦
                  let more_here : row_size (value_or 0 (lookup q stages)) rows ≡ suc (size b) =
                    subst
                      (λ k.
                        row_size (value_or 0 (lookup k stages)) rows
                        ≡ suc (row_size (value_or 0 (lookup k stages)) b.r_rows))
                      here more in
                  omega (arith, start, more_here, begins_le q g.queue_ids)
            ]),
      )

  add_flows-size :
      (slo : W) (fs : List ℕ) (b c : Build W)
      → add_flows glpk margin slos paths stages slo s fs b ≡ some c
      → Fits n b.r_rows
      → Fits n c.r_rows × (flows_from q s fs + size b ≤ size c)
  unfolding add_flows
  add_flows-size slo [] b c e h =
      let same : b ≡ c = cc in
      subst (λ (x : Build W). Fits n x.r_rows × (0 + size b ≤ size x)) same (h, omega arith)
  add_flows-size slo (f ∷ fs) b c e h =
      let (x, run, rest) = bind-some (add_flow glpk margin slos paths stages slo s f b) _ c e in
      let (fits, one_more) = add_flow-size slo f b x run h in
      let (end, more) = add_flows-size slo fs x c rest fits in (end, omega (arith, one_more, more))

  add_clients-size :
      (group : Set) (b c : Build W)
      → add_clients glpk margin slos paths stages s group b ≡ some c
      → Fits n b.r_rows
      → Fits n c.r_rows × (group_from q s group + size b ≤ size c)
  unfolding add_clients
  add_clients-size [] b c e h =
      let same : b ≡ c = cc in
      subst (λ (x : Build W). Fits n x.r_rows × (0 + size b ≤ size x)) same (h, omega arith)
  add_clients-size ((i, u) ∷ group) b c e h =
      let (a, at, x1) = bind-some (lookup i s.clients) _ c e in
      let (x, run, rest) =
        bind-some (add_flows glpk margin slos paths stages (scaled_slo margin a) s a.flow_ids b) _ c
          x1 in
      let (fits, one_more) = add_flows-size (scaled_slo margin a) a.flow_ids b x run h in
      let (end, more) = add_clients-size group x c rest fits in
      let from : client_from q s (lookup i s.clients) ≡ flows_from q s a.flow_ids =
        ap (client_from q s) at in
      (end, omega (arith, one_more, more, from))

module _ {W : Type 0} ⦃d : Double W⦄ where
  -- Where more flows of a group begin at one queue than the group has clients: calcShaperParameters
  -- fails on the group, since it writes past the end of the row of the queue's stage, if not before.
  pub optimise_group-overflow :
      (glpk : Glpk W) (margin : W) (group : Set) (s : Network W) (q : ℕ)
      → length group < group_from q s group
      → optimise_group glpk margin group s ≡ none
  unfolding optimise_group new_build
  optimise_group-overflow glpk margin group s q h =
      elim (Option-cases (optimise_group glpk margin group s)) [
        | inl e ↦ e
        | inr (r, e) ↦
            let (slos, keys, x) = bind-some (collect_slos margin s group []) _ r e in
            let (p, walked, y) = bind-some (collect_paths s group [] []) _ r x in
            let start = new_build (length group) slos p.0 (length p.1) in
            let (b, built, z) =
              bind-some (add_clients glpk margin slos p.0 p.1 s group start) _ r y in
            let (fits, more) =
              add_clients-size glpk margin slos p.0 p.1 s q (length group) group start b built
                (empty_rows-Fits W (length p.1) (length group)) in
            let room = row_size-Fits (value_or 0 (lookup q p.1)) (length group) b.r_rows fits in
            let never : ⊥ = omega (arith, h, more, room) in elim never [ ]
      ]

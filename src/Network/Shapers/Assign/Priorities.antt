-- ===== src/Network/Shapers/Assign/Priorities.antt =====
-- What the flows of a group have after calcShaperParameters: priorities in the order of the SLOs, and
-- no shaper curve where the linear program has no solution.
use workload_compactor.Base.{
  bind-some, ◌⊎◌, inl, inr, Bool-cases, ℕ, ◌<◌, ◌≡◌, refl, subst, Bool, List, [], ◌∷◌, Option, none,
  some, nat_key, arith, Elem, Double, true, false, length,
}
use workload_compactor.Base.Table.{lookup}
use workload_compactor.Base.Table.Sets.{Set, contains}
use workload_compactor.Network.Types.{Flow, Client, Network}
use workload_compactor.Network.Registry.{zero_arrival_curve}
use workload_compactor.Network.Solver.{Glpk, solve}
use workload_compactor.Network.Shapers.Ranks.{rank, scaled_slo, front, collect_slos, collect_paths}
use workload_compactor.Network.Shapers.Ranks.Ascending.{
  IsWeak, KeepsOrder, rank-lt, rank_from-same, collect_slos-Ascends,
}
use workload_compactor.Network.Shapers.Program.{Build, add_clients, new_build, close_program}
use workload_compactor.Network.Shapers.Assign.{
  set_shaper, solved_curve, rest_of, assign_flows, assign_clients, clear_flows, clear_clients,
  conclude_group, optimise_group,
}
use workload_compactor.Network.Shapers.Assign.Passes.{
  Holds, Passes, sets, Covers, walks, HasOwners, Covers-Holds,
}

module _ {W : Type 0} ⦃d : Double W⦄ where
  abbrev pub HasPriority : ℕ → Flow W → Type 0
  HasPriority p f = f.priority ≡ p

  abbrev pub IsCleared : ℕ → Flow W → Type 0
  IsCleared p f = (f.priority ≡ p) × (f.shaper_curve ≡ zero_arrival_curve)

  clear_flows-Passes :
      (p : ℕ) (is : List ℕ) (s t : Network W)
      → clear_flows p is s ≡ some t
      → Passes (IsCleared p) is s t
  unfolding clear_flows
  clear_flows-Passes p [] s t e =
      let same : s ≡ t = cc in subst (Passes (IsCleared p) [] s) same (Passes.done s)
  clear_flows-Passes p (i ∷ is) s t e =
      let (f, at, step) = bind-some (lookup i s.flows) _ t e in
      let (u, set, rest) =
        bind-some (set_shaper i zero_arrival_curve p s) (clear_flows p is) t step in
      sets i is zero_arrival_curve p s u t (f, at) set (λ g. (refl, refl))
        (clear_flows-Passes p is u t rest)

  assign_flows-Passes :
      (values : ℕ → W) (p : ℕ) (is r_vars b_vars : List ℕ) (s : Network W)
      (r : List ℕ × List ℕ × Network W)
      → assign_flows values p is r_vars b_vars s ≡ some r
      → Passes (HasPriority p) is s r.2
  unfolding assign_flows
  assign_flows-Passes values p [] r_vars b_vars s r e =
      let same : s ≡ r.2 = cc in subst (Passes (HasPriority p) [] s) same (Passes.done s)
  assign_flows-Passes values p (i ∷ is) r_vars b_vars s r e =
      let (f, at, a) = bind-some (lookup i s.flows) _ r e in
      let (q, first, b) = bind-some (front f.queue_ids) _ r a in
      let (queue, there, c) = bind-some (lookup q s.queues) _ r b in
      let (curve, solved, g) =
        bind-some (solved_curve values r_vars b_vars queue.bandwidth) _ r c in
      let (u, set, rest) = bind-some (set_shaper i curve p s) _ r g in
      sets i is curve p s u r.2 (f, at) set (λ h. refl)
        (assign_flows-Passes values p is (rest_of r_vars) (rest_of b_vars) u r rest)

  module _ (margin : W) (slos : List W) where
    abbrev pub rank_of : Client W → ℕ
    rank_of c = rank (scaled_slo margin c) slos

    pub clear_clients-Covers :
        (group : Set) (s t : Network W)
        → clear_clients margin slos group s ≡ some t
        → Covers (λ c. IsCleared (rank_of c)) group s t
    unfolding clear_clients
    clear_clients-Covers [] s t e =
        let same : s ≡ t = cc in
        subst (Covers (λ c. IsCleared (rank_of c)) [] s) same (Covers.done s)
    clear_clients-Covers ((i, v) ∷ group) s t e =
        let (c, at, step) = bind-some (lookup i s.clients) _ t e in
        let (u, set, rest) = bind-some (clear_flows (rank_of c) c.flow_ids s) _ t step in
        walks i v group c s u t at (clear_flows-Passes (rank_of c) c.flow_ids s u set)
          (clear_clients-Covers group u t rest)

    pub assign_clients-Covers :
        (values : ℕ → W) (group : Set) (r_vars b_vars : List ℕ) (s t : Network W)
        → assign_clients margin slos values group r_vars b_vars s ≡ some t
        → Covers (λ c. HasPriority (rank_of c)) group s t
    unfolding assign_clients
    assign_clients-Covers values [] r_vars b_vars s t e =
        let same : s ≡ t = cc in
        subst (Covers (λ c. HasPriority (rank_of c)) [] s) same (Covers.done s)
    assign_clients-Covers values ((i, v) ∷ group) r_vars b_vars s t e =
        let (c, at, step) = bind-some (lookup i s.clients) _ t e in
        let (u, set, rest) =
          bind-some (assign_flows values (rank_of c) c.flow_ids r_vars b_vars s) _ t step in
        walks i v group c s u.2 t at
          (assign_flows-Passes values (rank_of c) c.flow_ids r_vars b_vars s u set)
          (assign_clients-Covers values group u.0 u.1 u.2 t rest)

    conclude_group-HasPriority :
        (group : Set) (b : Build W) (o : Option (ℕ → W)) (s : Network W) (r : Bool × Network W)
        → conclude_group margin slos group b o s ≡ some r
        → HasOwners s.clients
        → (k : ℕ) (c : Client W) (i : ℕ) → contains k group ≡ true
        → lookup k s.clients ≡ some c
        → Elem i c.flow_ids
        → Holds r.1 i (HasPriority (rank_of c))
    unfolding conclude_group
    conclude_group-HasPriority group b none s r e o k c i h at m =
        let (t, run, end) = bind-some (clear_clients margin slos group s) _ r e in
        let same : t ≡ r.1 = cc in
        let (f, here, good) =
          Covers-Holds (λ c. IsCleared (rank_of c)) group s t (clear_clients-Covers group s t run) o
            k c i h at m in
        subst (λ u. Holds u i (HasPriority (rank_of c))) same (f, here, good.0)
    conclude_group-HasPriority group b (some values) s r e o k c i h at m =
        let (t, run, end) =
          bind-some (assign_clients margin slos values group b.r_vars b.b_vars s) _ r e in
        let same : t ≡ r.1 = cc in
        subst (λ u. Holds u i (HasPriority (rank_of c))) same
          (Covers-Holds (λ c. HasPriority (rank_of c)) group s t
            (assign_clients-Covers values group b.r_vars b.b_vars s t run) o k c i h at m)

    conclude_group-IsCleared :
        (group : Set) (b : Build W) (o : Option (ℕ → W)) (s t : Network W)
        → conclude_group margin slos group b o s ≡ some (false, t)
        → HasOwners s.clients
        → (k : ℕ) (c : Client W) (i : ℕ) → contains k group ≡ true
        → lookup k s.clients ≡ some c
        → Elem i c.flow_ids
        → Holds t i (IsCleared (rank_of c))
    unfolding conclude_group
    conclude_group-IsCleared group b none s t e o k c i h at m =
        let (u, run, end) = bind-some (clear_clients margin slos group s) _ (false, t) e in
        let same : u ≡ t = cc in
        subst (λ v. Holds v i (IsCleared (rank_of c))) same
          (Covers-Holds (λ c. IsCleared (rank_of c)) group s u (clear_clients-Covers group s u run)
            o k c i h at m)
    conclude_group-IsCleared group b (some values) s t e o k c i h at m =
        let (u, run, end) =
          bind-some (assign_clients margin slos values group b.r_vars b.b_vars s) _ (false, t) e in
        let never : true ≡ false = cc in cc

  abbrev pub Concludes : Glpk W → W → Set → Network W → Bool × Network W → Type 0
  Concludes glpk margin group s r =
      (slos : List W) × (b : Build W) × (o : Option (ℕ → W)) × (collect_slos margin s group []
        ≡ some slos)
      × (conclude_group margin slos group b o s ≡ some r)

  pub optimise_group-Concludes :
      (glpk : Glpk W) (margin : W) (group : Set) (s : Network W) (r : Bool × Network W)
      → optimise_group glpk margin group s ≡ some r
      → Concludes glpk margin group s r
  unfolding optimise_group
  optimise_group-Concludes glpk margin group s r e =
      let (slos, keys, x) = bind-some (collect_slos margin s group []) _ r e in
      let (p, walked, y) = bind-some (collect_paths s group [] []) _ r x in
      let (b, built, z) =
        bind-some
          (add_clients glpk margin slos p.0 p.1 s group
            (new_build (length group) slos p.0 (length p.1)))
          _ r y in
      (slos, b, solve glpk (close_program margin b), keys, z)

  -- Where no flow belongs to two clients, the values are ordered, as NaN is not, and the product with
  -- the margin does not turn their order round: of two clients of a group, the flows of the one with the
  -- smaller SLO get the smaller priority numbers, or the same ones, if the SLOs less the margin are not
  -- in order any more, whether the linear program is solved or not.
  pub optimise_group-priorities :
      (w : IsWeak W) (glpk : Glpk W) (margin : W) (group : Set) (s : Network W)
      (r : Bool × Network W)
      → KeepsOrder margin
      → optimise_group glpk margin group s ≡ some r
      → HasOwners s.clients
      → (j k : ℕ) (a b : Client W) (x y : ℕ) → contains j group ≡ true
      → contains k group ≡ true
      → lookup j s.clients ≡ some a
      → lookup k s.clients ≡ some b
      → Elem x a.flow_ids
      → Elem y b.flow_ids
      → d.lt a.slo b.slo ≡ true
      → (f g : Flow W) × (lookup x r.1.flows ≡ some f)
        × (lookup y r.1.flows ≡ some g)
        × ((f.priority < g.priority)
            ⊎ ((f.priority ≡ g.priority)
                × (d.lt (d.mul a.slo margin) (d.mul b.slo margin) ≡ false)))
  unfolding scaled_slo rank
  optimise_group-priorities w glpk margin group s r m e o j k a b x y inj ink atj atk ina inb l =
      let (slos, c, values, keys, ends) = optimise_group-Concludes glpk margin group s r e in
      let (up, kept, has) = collect_slos-Ascends w margin s group [] slos keys tt in
      let (f, fx, p) =
        conclude_group-HasPriority margin slos group c values s r ends o j a x inj atj ina in
      let (g, gy, q) =
        conclude_group-HasPriority margin slos group c values s r ends o k b y ink atk inb in
      let before = d.lt (d.mul a.slo margin) (d.mul b.slo margin) in
      elim (Bool-cases before) [
        | inl less ↦
            let ranks =
              rank-lt w (scaled_slo margin a) (scaled_slo margin b) slos up (has j a inj atj)
                (has k b ink atk) less in
            (f, g, fx, gy, inl (omega (arith, p, q, ranks)))
        | inr not_less ↦
            let same =
              rank_from-same w 0 (scaled_slo margin a) (scaled_slo margin b) slos not_less
                (m a.slo b.slo l) in
            (f, g, fx, gy, inr (omega (arith, p, q, same), not_less))
      ]

  -- Where no flow belongs to two clients, and the linear program of a group has no solution: every flow
  -- of the group is left with a zero shaper curve.
  pub optimise_group-unsolved :
      (glpk : Glpk W) (margin : W) (group : Set) (s t : Network W)
      → optimise_group glpk margin group s ≡ some (false, t)
      → HasOwners s.clients
      → (k : ℕ) (c : Client W) (i : ℕ) → contains k group ≡ true
      → lookup k s.clients ≡ some c
      → Elem i c.flow_ids
      → (f : Flow W) × (lookup i t.flows ≡ some f) × (f.shaper_curve ≡ zero_arrival_curve)
  optimise_group-unsolved glpk margin group s t e o k c i h at m =
      let (slos, b, values, keys, ends) =
        optimise_group-Concludes glpk margin group s (false, t) e in
      let (f, here, good) =
        conclude_group-IsCleared margin slos group b values s t ends o k c i h at m in
      (f, here, good.1)

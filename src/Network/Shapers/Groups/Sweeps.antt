-- ===== src/Network/Shapers/Groups/Sweeps.antt =====
-- The inner loop of calcShaperParameters ends, and leaves no queue that it claimed unvisited.
use workload_compactor.Base.{
  same_some, ℕ, zero, suc, ◌+◌, ◌<◌, ◌≡◌, refl, sym, ap, subst, List, [], ◌∷◌, some, nat_key, arith,
  length, All, Elem, inl, inr,
}
use workload_compactor.Base.Table.{lookup}
use workload_compactor.Network.Types.{Queue, Network}
use workload_compactor.Network.Shapers.Groups.{Sweep, pop_pending, visit_flows, drain_next, drain}
use workload_compactor.Network.Shapers.Groups.Reached.{Known, Stirred, IsLinked}
use workload_compactor.Network.Shapers.Groups.Claims.{
  Later, Later-refl, Later-trans, Grows, Inv, Visited, Idle,
}
use workload_compactor.Network.Shapers.Groups.Visits.{visit_flows-Claimed}

module _ {W : Type 0} (s : Network W) (P : ℕ → Type 0) (linked : IsLinked s) where
  pop_pending-Inv :
      (q : ℕ) (qs : List ℕ) (w : Sweep)
      → w.pending ≡ q ∷ qs
      → Idle s P w
      → Inv s P (λ r. r ≡ q) (pop_pending qs w) × Stirred s q × Known s q
  unfolding pop_pending
  pop_pending-Inv q qs w e v =
      let stirs = subst (All (λ r. Stirred s r × Known s r)) e v.stirs in
      (
        record {
          one_each = v.one_each;
          known = v.known;
          live = λ r k h. elim (v.live r k h) [
            | inl p ↦ elim (subst (Elem r) e p) [ inl a ↦ inr (inl a) | inr a ↦ inl a ]
            | inr (inl p) ↦ elim p [ ]
            | inr (inr d) ↦ inr (inr d)
          ];
          waits = v.waits;
          stale = v.stale;
          stirs = stirs.1;
          member = v.member;
        },
        stirs.0.0,
        stirs.0.1,
      )

  Visited-Inv : (q : ℕ) (w : Sweep) → Visited s P w q → Inv s P (λ r. r ≡ q) w → Idle s P w
  Visited-Inv q w d v = record {
    one_each = v.one_each;
    known = v.known;
    live = λ r k h. elim (v.live r k h) [
      | inl p ↦ inl p
      | inr (inl p) ↦ inr (inr (subst (Visited s P w) (sym p) d))
      | inr (inr x) ↦ inr (inr x)
    ];
    waits = v.waits;
    stale = v.stale;
    stirs = v.stirs;
    member = v.member;
  }

  -- The loop has ended.
  abbrev pub Drained : Sweep → Sweep → Type 0
  Drained w v = Idle s P v × (v.pending ≡ []) × Later w v

  visit-Idle :
      (q : ℕ) (qs : List ℕ) (w : Sweep)
      → w.pending ≡ q ∷ qs
      → Idle s P w
      → (queue : Queue W) × (v : Sweep) × (lookup q s.queues ≡ some queue)
        × (visit_flows s queue.flows (pop_pending qs w) ≡ some v)
        × Idle s P v
        × Grows (pop_pending qs w) v
  visit-Idle q qs w e v =
      let (u, st, (queue, known)) = pop_pending-Inv q qs w e v in
      let (x, run, (y, g), joined) =
        visit_flows-Claimed s P linked (λ r. r ≡ q) q queue queue.flows (pop_pending qs w) known st
          (λ fi p. p) u in
      (
        queue,
        x,
        known,
        run,
        Visited-Inv q x
            (λ c (b, fi, at, within, own).
              let same : b ≡ queue = same_some (lookup q s.queues) b queue at known in
              joined fi c (subst (λ (t : Queue W). Elem fi t.flows) same within) own)
            y,
        g,
      )

  pop_pending-Later : (qs : List ℕ) (w : Sweep) → Later w (pop_pending qs w)
  unfolding pop_pending
  pop_pending-Later qs w = record {
    gone = λ q h. h;
    kept = λ i h. h;
    fewer = omega arith;
    less = omega arith;
  }

  abbrev Drains : ℕ → Type 0
  Drains n =
      (w : Sweep)
      → Idle s P w
      → length w.remaining + length w.pending < n
      → (v : Sweep) × (drain n s w ≡ some v) × Drained w v

  drain_next-Drained :
      (n : ℕ) (w : Sweep) (p : List ℕ)
      → Drains n
      → w.pending ≡ p
      → Idle s P w
      → length w.remaining + length w.pending < suc n
      → (v : Sweep) × (drain_next s (drain n s) p w ≡ some v) × Drained w v
  unfolding drain_next pop_pending
  drain_next-Drained n w [] rest e v h = (w, refl, (v, e, Later-refl w))
  drain_next-Drained n w (q ∷ qs) rest e v h =
      let (queue, x, known, run, y, g) = visit-Idle q qs w e v in
      let less : length x.remaining + length x.pending < n =
        omega (arith, g.size, h, ap length e) in
      let (z, runs, (t, done, later)) = rest x y less in
      (
        z,
        rw (known, run, drain_next) runs,
        (
          t,
          done,
          Later-trans w x z (Later-trans w (pop_pending qs w) x (pop_pending-Later qs w) g.later)
              later,
        ),
      )

  -- Enough fuel is one more than the queues that remain or wait.
  pub drain-Drained : (n : ℕ) → Drains n
  unfolding drain
  drain-Drained zero w v h = let never : ⊥ = omega (arith, h) in elim never [ ]
  drain-Drained (suc n) w v h = drain_next-Drained n w w.pending (drain-Drained n) refl v h

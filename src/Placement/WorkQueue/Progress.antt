-- ===== src/Placement/WorkQueue/Progress.antt =====
-- The wait of `placeClient` ends: the workers can go on until it does, and do so in bounded steps.
use workload_compactor.Base.{
  ℕ, ◌+◌, ◌-◌, ◌*◌, ◌^◌, ◌<◌, ◌≡◌, refl, ap, subst, sym, Bool, false, List, [], ◌∷◌, arith, leb,
  length, Bool-cases, inl, inr,
}
use workload_compactor.Placement.WorkQueue.{
  Work, new_work, next_work, take_next, work_complete, is_done, Step, takes, completes, Reach,
}
use workload_compactor.Placement.WorkQueue.FirstFit.{
  Inv, new_work-Inv, Reach-Inv, next_work-taken, length_left,
}

-- The takes and completions that are still to come, at most.
abbrev pub remaining : Work → ℕ
remaining w = 2 * (w.size - w.next_index) + length w.running

module _ (admits : ℕ → Bool) where
  Step-remaining : (w w' : Work) → Inv admits w → Step admits w w' → remaining w' < remaining w
  unfolding work_complete
  Step-remaining w w' v (takes i _ e) =
      let (l, q) = next_work-taken admits w w' i v e in
      subst (λ u. remaining u < remaining w) (sym q) (omega arith)
  Step-remaining w w' v (completes xs ys i e) = elim (Bool-cases (admits i)) [
    | inl r ↦ rw r (omega (arith, length_left admits w xs ys i e))
    | inr r ↦ rw r (omega (arith, length_left admits w xs ys i e))
  ]

  some-Step :
      (w : Work) (r : List ℕ)
      → w.running ≡ r
      → Inv admits w
      → is_done w ≡ false
      → (w' : Work) × Step admits w w'
  unfolding is_done next_work
  some-Step w (i ∷ is) e v h = (work_complete i (admits i) is w, completes [] is i e)
  some-Step w [] e v h =
      let idle : w.outstanding ≡ 0 = omega (arith, v.counted, ap length e) in
      let room : leb w.size w.next_index ≡ false = ground (arith, idle) in
      (take_next w, takes w.next_index (take_next w) (rw room))

  -- From a queue of fewer than 2^32 servers, in every state that the workers reach, each step lowers
  -- the number of steps that may remain; and while the placement is not done, some step is possible.
  pub Reach-progress :
      (n : ℕ) (w : Work)
      → n < 2 ^ 32
      → Reach admits (new_work n) w
      → ((w' : Work) → Step admits w w' → remaining w' < remaining w)
        × (is_done w ≡ false → (w' : Work) × Step admits w w')
  Reach-progress n w h r =
      let v = Reach-Inv admits (new_work n) w r (new_work-Inv admits n h) in
      (λ w' st. Step-remaining w w' v st, some-Step w w.running refl v)

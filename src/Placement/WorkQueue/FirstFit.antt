-- ===== src/Placement/WorkQueue/FirstFit.antt =====
-- Whatever the interleaving of the workers, the placement is that of the sequential first fit.
use mathlib.Core.Bool.{true≢false}
use workload_compactor.Base.{
  ℕ, zero, suc, ◌+◌, ◌%◌, ◌^◌, ◌≤◌, ◌<◌, ◌≡◌, refl, sym, subst, ap, ◌∙◌, ◌⊎◌, inl, inr, Bool, true,
  false, List, [], ◌∷◌, ◌++◌, some, arith, leb, ltb, ◌==◌, length, length-append, All, Elem,
  Bool-cases, ltb→lt, if◌then◌else◌,
}
use workload_compactor.Placement.WorkQueue.{
  Work, new_work, next_work, work_complete, is_done, Step, takes, completes, Reach, here, next,
  first_fit,
}

no-Elem : (k : ℕ) (xs : List ℕ) → length xs ≡ 0 → ¬ Elem k xs
no-Elem k [] h e = e
no-Elem k (x ∷ xs) h e = omega arith

All-grow : (m n : ℕ) (xs : List ℕ) → m ≤ n → All (λ i. i < m) xs → All (λ i. i < n) xs
All-grow m n [] l h = tt
All-grow m n (x ∷ xs) l h = (omega arith, All-grow m n xs l h.1)

All-middle :
    (m i : ℕ) (xs ys : List ℕ)
    → All (λ k. k < m) (xs ++ (i ∷ ys))
    → (i < m) × All (λ k. k < m) (xs ++ ys)
All-middle m i [] ys h = h
All-middle m i (x ∷ xs) ys h = let (a, b) = All-middle m i xs ys h.1 in (a, (h.0, b))

Elem-middle : (k i : ℕ) (xs ys : List ℕ) → Elem k (xs ++ (i ∷ ys)) → (k ≡ i) ⊎ Elem k (xs ++ ys)
Elem-middle k i [] ys e = e
Elem-middle k i (x ∷ xs) ys (inl e) = inr (inl e)
Elem-middle k i (x ∷ xs) ys (inr e) = elim (Elem-middle k i xs ys e) [
  | inl q ↦ inl q
  | inr q ↦ inr (inr q)
]

module _ (admits : ℕ → Bool) where
  -- An index before the best one is being tested, was refused, or is still to be handed out.
  abbrev Settled : Work → ℕ → Type 0
  Settled w i = Elem i w.running ⊎ (admits i ≡ false) ⊎ (w.next_index ≤ i)

  pub record Inv (w : Work) : Type 0 where
    pub small : w.size < 2 ^ 32
    pub next_le : w.next_index ≤ w.size
    pub best_le : w.best_index ≤ w.size
    pub counted : w.outstanding ≡ length w.running
    pub few : length w.running ≤ w.next_index
    pub handed_out : All (λ i. i < w.next_index) w.running
    pub best_admitted : w.best_index < w.size → admits w.best_index ≡ true
    pub settled : (i : ℕ) → i < w.best_index → Settled w i

  pub new_work-Inv : (n : ℕ) → n < 2 ^ 32 → Inv (new_work n)
  unfolding new_work
  new_work-Inv n h = record {
    small = h;
    next_le = omega arith;
    best_le = omega arith;
    counted = refl;
    few = omega arith;
    handed_out = tt;
    best_admitted = λ l. absurd (omega arith);
    settled = λ i l. inr (inr (omega arith));
  }

  Settled-after :
      (w : Work) (xs ys : List ℕ) (i k n : ℕ)
      → w.running ≡ xs ++ (i ∷ ys)
      → Settled w k
      → (k ≡ i → admits k ≡ false)
      → (w.next_index ≤ k → n ≤ k)
      → Elem k (xs ++ ys) ⊎ (admits k ≡ false) ⊎ (n ≤ k)
  Settled-after w xs ys i k n e (inl m) f g = elim (Elem-middle k i xs ys (subst (Elem k) e m)) [
    | inl q ↦ inr (inl (f q))
    | inr m' ↦ inl m'
  ]
  Settled-after w xs ys i k n e (inr (inl r)) f g = inr (inl r)
  Settled-after w xs ys i k n e (inr (inr l)) f g = inr (inr (g l))

  pub length_left :
      (w : Work) (xs ys : List ℕ) (i : ℕ)
      → w.running ≡ xs ++ (i ∷ ys)
      → length w.running ≡ suc (length (xs ++ ys))
  length_left w xs ys i e =
      omega (arith, ap length e, length-append xs (i ∷ ys), length-append xs ys)

  refused-Inv :
      (w : Work) (xs ys : List ℕ) (i : ℕ)
      → w.running ≡ xs ++ (i ∷ ys)
      → admits i ≡ false
      → Inv w
      → Inv (work_complete i false (xs ++ ys) w)
  unfolding work_complete
  refused-Inv w xs ys i e r v =
      let (lt, rest) =
        All-middle w.next_index i xs ys (subst (All (λ k. k < w.next_index)) e v.handed_out) in
      let len = length_left w xs ys i e in
      record {
        small = v.small;
        next_le = v.next_le;
        best_le = v.best_le;
        counted = omega (arith, len, v.counted, v.few, v.small, v.next_le);
        few = omega (arith, len, v.few);
        handed_out = rest;
        best_admitted = v.best_admitted;
        settled = λ k l.
            Settled-after w xs ys i k w.next_index e (v.settled k l) (λ q. ap admits q ∙ r)
              (λ h. h);
      }

  -- The new best index is at most both the old one and `i`.
  abbrev lower : ℕ → ℕ → ℕ
  lower i best = if ltb i best then i else best

  admitted-Inv :
      (w : Work) (xs ys : List ℕ) (i : ℕ)
      → w.running ≡ xs ++ (i ∷ ys)
      → admits i ≡ true
      → Inv w
      → Inv (work_complete i true (xs ++ ys) w)
  unfolding work_complete
  admitted-Inv w xs ys i e r v =
      let (lt, rest) =
        All-middle w.next_index i xs ys (subst (All (λ k. k < w.next_index)) e v.handed_out) in
      let len = length_left w xs ys i e in
      record {
        small = v.small;
        next_le = omega arith;
        best_le = ground (arith, v.best_le, lt, v.next_le);
        counted = omega (arith, len, v.counted, v.few, v.small, v.next_le);
        few = omega (arith, len, v.few, v.next_le);
        handed_out = All-grow w.next_index w.size (xs ++ ys) v.next_le rest;
        best_admitted = ground (arith, v.best_admitted);
        settled = λ k l.
            let below : (k < w.best_index) × (k < i) = ground arith in
            Settled-after w xs ys i k w.size e (v.settled k below.0)
              (λ q. absurd (omega (arith, below.1))) (λ h. absurd (omega (arith, below.1, lt)));
      }

  completes-Inv :
      (w : Work) (xs ys : List ℕ) (i : ℕ)
      → w.running ≡ xs ++ (i ∷ ys)
      → Inv w
      → Inv (work_complete i (admits i) (xs ++ ys) w)
  completes-Inv w xs ys i e v = elim (Bool-cases (admits i)) [
    | inl r ↦ rw r (admitted-Inv w xs ys i e r v)
    | inr r ↦ rw r (refused-Inv w xs ys i e r v)
  ]

  -- The state after `nextWork` on a queue with an index left.
  abbrev pub taken : Work → Work
  taken w = record w {
    next_index = w.next_index + 1;
    outstanding = w.outstanding + 1;
    running = w.next_index ∷ w.running;
  }

  pub next_work-taken :
      (w w' : Work) (i : ℕ)
      → Inv w
      → next_work w ≡ some (i, w')
      → (w.next_index < w.size) × (w' ≡ taken w)
  unfolding next_work
  next_work-taken w w' i v e = elim (Bool-cases (leb w.size w.next_index)) [
    | inl full ↦ ground arith
    | inr room ↦
        let left : w.next_index < w.size = ground arith in
        let n : (w.next_index + 1) % 2 ^ 32 ≡ w.next_index + 1 = omega (arith, v.small) in
        let o : (w.outstanding + 1) % 2 ^ 32 ≡ w.outstanding + 1 =
          omega (arith, v.small, v.counted, v.few) in
        (left, ground (arith, n, o))
  ]

  taken-Settled : (w : Work) (k : ℕ) → Settled w k → Settled (taken w) k
  taken-Settled w k (inl m) = inl (inr m)
  taken-Settled w k (inr (inl r)) = inr (inl r)
  taken-Settled w k (inr (inr l)) = elim (Bool-cases (k == w.next_index)) [
    | inl q ↦ inl (inl (ground arith))
    | inr q ↦ inr (inr (ground arith))
  ]

  taken-Inv : (w : Work) → w.next_index < w.size → Inv w → Inv (taken w)
  taken-Inv w l v = record {
    small = v.small;
    next_le = omega arith;
    best_le = v.best_le;
    counted = omega (arith, v.counted);
    few = omega (arith, v.few);
    handed_out = (
      omega arith,
      All-grow w.next_index (w.next_index + 1) w.running (omega arith) v.handed_out,
    );
    best_admitted = v.best_admitted;
    settled = λ k b. taken-Settled w k (v.settled k b);
  }

  takes-Inv : (w w' : Work) (i : ℕ) → next_work w ≡ some (i, w') → Inv w → Inv w'
  takes-Inv w w' i e v =
      let (l, q) = next_work-taken w w' i v e in subst Inv (sym q) (taken-Inv w l v)

  Step-Inv : (w w' : Work) → Step admits w w' → Inv w → Inv w'
  Step-Inv w w' (takes i _ e) v = takes-Inv w w' i e v
  Step-Inv w w' (completes xs ys i e) v = completes-Inv w xs ys i e v

  pub Reach-Inv : (w w' : Work) → Reach admits w w' → Inv w → Inv w'
  Reach-Inv w w' here v = v
  Reach-Inv w w' (next {u} r st) v = Step-Inv u w' st (Reach-Inv w u r v)

  Step-size : (w w' : Work) → Step admits w w' → w'.size ≡ w.size
  unfolding next_work work_complete
  Step-size w w' (takes i _ e) = ground arith
  Step-size w w' (completes xs ys i e) = refl

  Reach-size : (w w' : Work) → Reach admits w w' → w'.size ≡ w.size
  Reach-size w w' here = refl
  Reach-size w w' (next {u} r st) = Step-size u w' st ∙ Reach-size w u r

  -- `first_fit` from below is the best index, if all before it are refused and it is admitted.
  first_fit_unique :
      (n i best : ℕ)
      → i ≤ best
      → best ≤ i + n
      → ((k : ℕ) → i ≤ k → k < best → admits k ≡ false)
      → (best < i + n → admits best ≡ true)
      → first_fit admits n i ≡ best
  unfolding first_fit
  first_fit_unique zero i best l u below at = omega arith
  first_fit_unique (suc n) i best l u below at = elim (Bool-cases (admits i)) [
    | inl r ↦ rw r (elim (Bool-cases (ltb i best)) [
      | inl lt ↦ absurd (true≢false (sym r ∙ below i (omega arith) (ltb→lt i best lt)))
      | inr ge ↦ ground arith
    ])
    | inr r ↦ rw r (
        first_fit_unique n (suc i) best
          (elim (Bool-cases (ltb i best)) [
            | inl lt ↦ ltb→lt i best lt
            | inr ge ↦
                let q : best ≡ i = ground arith in
                absurd (true≢false (sym (at (omega arith)) ∙ ap admits q ∙ r))
          ])
          (omega arith) (λ k p. below k (omega arith)) (λ p. at (omega arith)))
  ]

  refused_before :
      (w : Work) (k : ℕ) → length w.running ≡ 0 → k < w.next_index → Settled w k → admits k ≡ false
  refused_before w k idle l (inl m) = absurd (no-Elem k w.running idle m)
  refused_before w k idle l (inr (inl r)) = r
  refused_before w k idle l (inr (inr h)) = absurd (omega arith)

  -- For a queue of fewer than 2^32 servers: whatever the order in which the workers take and complete
  -- their tests, once none is running and none is left to take, the best index is that of the first
  -- server in the queue that admits the workload, or the queue's length if none does.
  pub Reach-first_fit :
      (n : ℕ) (w : Work)
      → n < 2 ^ 32
      → Reach admits (new_work n) w
      → is_done w ≡ true
      → w.best_index ≡ first_fit admits n 0
  unfolding is_done new_work
  Reach-first_fit n w h r done =
      let v = Reach-Inv (new_work n) w r (new_work-Inv n h) in
      let same : w.size ≡ n = Reach-size (new_work n) w r in
      let all_taken : w.size ≤ w.next_index = ground arith in
      let idle : length w.running ≡ 0 = ground (arith, v.counted) in
      sym (
        first_fit_unique n 0 w.best_index (omega arith) (omega (arith, v.best_le))
          (λ k _ l. refused_before w k idle (omega (arith, v.best_le)) (v.settled k l))
          (λ l. v.best_admitted (omega arith)))

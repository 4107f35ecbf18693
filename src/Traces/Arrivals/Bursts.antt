-- ===== src/Traces/Arrivals/Bursts.antt =====
-- The bursts of rbGen, which fills the buckets of all rates in one pass, are those of a bucket for each
-- rate alone.
use workload_compactor.Base.{
  ℕ, ◌≡◌, ◌⊎◌, inl, inr, refl, sym, ap, ◌∙◌, subst, true, false, if◌then◌else◌, List, [], ◌∷◌,
  Double, arith, All, sub64,
}
use workload_compactor.Scheduler.Tokens.{seconds}
use workload_compactor.Traces.Reader.{ProcessedTraceEntry}
use workload_compactor.Network.Shapers.Ranks.Ascending.{IsWeak}
use workload_compactor.Traces.Arrivals.{
  Bucket, reset_rate, reset_rates, fill_bucket, fill_rate, fill_rates, rb_loop, rb_gen, burst_at,
}

module _ {W : Type 0} ⦃d : Double W⦄ where
  open d use {nought, add, sub, mul, lt}

  -- One bucket: it drains at the rate between two requests, down to empty, and takes their work.
  abbrev pub level_after : W → W → W → W → W
  level_after rate interarrival work level =
      let drained = sub level (mul rate interarrival) in
      add (if lt drained nought then nought else drained) work

  -- The highest level that the bucket of a rate has while the trace runs.
  abbrev pub highest_level : W → ℕ → W → W → List (ProcessedTraceEntry W) → W
  highest_level rate prev level highest [] = highest
  highest_level rate prev level highest (e ∷ es) =
      let next = level_after rate (seconds (sub64 e.arrival_time prev)) e.work level in
      highest_level rate e.arrival_time next (if lt highest next then next else highest) es

  abbrev pub Apart : W → W → Type 0
  Apart x y = (lt x y ≡ true) ⊎ (lt y x ≡ true)

  -- The rate is in the list, and the others are different.
  abbrev pub IsOnce : W → List W → Type 0
  IsOnce r [] = ⊥
  IsOnce r (x ∷ xs) = ((x ≡ r) × All (Apart r) xs) ⊎ (Apart r x × IsOnce r xs)

  -- The key is found, with its level and its burst.
  abbrev Holds : W → W → W → List (Bucket W) → Type 0
  Holds r level burst [] = ⊥
  Holds r level burst (b ∷ bs) =
      ((lt b.rate r ≡ true) × Holds r level burst bs)
      ⊎ ((lt b.rate r ≡ false) × (lt r b.rate ≡ false) × (b.level ≡ level) × (b.burst ≡ burst))

  module _ (w : IsWeak W) where
    open w.ordered use {lt_irrefl, lt_trans}

    clash :
        (r x y : W)
        → Apart r x
        → lt y r ≡ false
        → lt r y ≡ false
        → lt y x ≡ false
        → lt x y ≡ false
        → ⊥
    clash r x y (inl h) a b c e = ground (arith, w.between r x y h)
    clash r x y (inr h) a b c e = ground (arith, w.between x r y h)

    fill_rate-Holds :
        (r interarrival work level burst : W) (bs : List (Bucket W))
        → Holds r level burst bs
        → Holds r
            (level_after r interarrival work level)
            (if lt burst (level_after r interarrival work level)
              then level_after r interarrival work level
              else burst)
            (fill_rate r interarrival work bs)
    unfolding fill_rate fill_bucket
    fill_rate-Holds r i k level burst [] h = elim h [ ]
    fill_rate-Holds r i k level burst (b ∷ bs) (inl (h, t)) =
        rw h (inl (h, fill_rate-Holds r i k level burst bs t))
    fill_rate-Holds r i k level burst (b ∷ bs) (inr (h, g, e, f)) =
        rw (h, g)
          (inr (
            h,
            g,
            ap (level_after r i k) e,
            ap (λ x. if lt x (level_after r i k b.level) then level_after r i k b.level else x) f
                ∙ ap (λ x. if lt burst (level_after r i k x) then level_after r i k x else burst) e,
          ))

    fill_rate-other :
        (r x interarrival work level burst : W) (bs : List (Bucket W))
        → Apart r x
        → Holds r level burst bs
        → Holds r level burst (fill_rate x interarrival work bs)
    unfolding fill_rate fill_bucket
    fill_rate-other r x i k level burst [] a h = elim h [ ]
    fill_rate-other r x i k level burst (b ∷ bs) a h =
        ground (arith, clash r x b.rate a, h, fill_rate-other r x i k level burst bs a)

    fill_rates-other :
        (r interarrival work level burst : W) (xs : List W) (bs : List (Bucket W))
        → All (Apart r) xs
        → Holds r level burst bs
        → Holds r level burst (fill_rates xs interarrival work bs)
    unfolding fill_rates
    fill_rates-other r i k level burst [] bs a h = h
    fill_rates-other r i k level burst (x ∷ xs) bs a h =
        fill_rates-other r i k level burst xs (fill_rate x i k bs) a.1
          (fill_rate-other r x i k level burst bs a.0 h)

    fill_rates-Holds :
        (r interarrival work level burst : W) (xs : List W) (bs : List (Bucket W))
        → IsOnce r xs
        → Holds r level burst bs
        → Holds r
            (level_after r interarrival work level)
            (if lt burst (level_after r interarrival work level)
              then level_after r interarrival work level
              else burst)
            (fill_rates xs interarrival work bs)
    unfolding fill_rates
    fill_rates-Holds r i k level burst [] bs o h = elim o [ ]
    fill_rates-Holds r i k level burst (x ∷ xs) bs (inl (e, a)) h =
        fill_rates-other r i k _ _ xs (fill_rate x i k bs) a (
          subst
            (λ y.
              Holds r (level_after r i k level)
                (if lt burst (level_after r i k level) then level_after r i k level else burst)
                (fill_rate y i k bs))
            (sym e) (fill_rate-Holds r i k level burst bs h))
    fill_rates-Holds r i k level burst (x ∷ xs) bs (inr (a, o)) h =
        fill_rates-Holds r i k level burst xs (fill_rate x i k bs) o
          (fill_rate-other r x i k level burst bs a h)

    reset_rate-Holds : (r : W) (bs : List (Bucket W)) → Holds r nought nought (reset_rate r bs)
    unfolding reset_rate
    reset_rate-Holds r [] = inr (lt_irrefl r, lt_irrefl r, refl, refl)
    reset_rate-Holds r (b ∷ bs) = ground (arith, lt_irrefl r, reset_rate-Holds r bs)

    reset_rate-other :
        (r x : W) (level burst : W) (bs : List (Bucket W))
        → Apart r x
        → Holds r level burst bs
        → Holds r level burst (reset_rate x bs)
    unfolding reset_rate
    reset_rate-other r x level burst [] a h = elim h [ ]
    reset_rate-other r x level burst (b ∷ bs) a h = ground (
      arith,
      clash r x b.rate a,
      h,
      lt_trans x b.rate r,
      w.between x b.rate r,
      reset_rate-other r x level burst bs a,
    )

    reset_rates-other :
        (r level burst : W) (xs : List W) (bs : List (Bucket W))
        → All (Apart r) xs
        → Holds r level burst bs
        → Holds r level burst (reset_rates xs bs)
    unfolding reset_rates
    reset_rates-other r level burst [] bs a h = h
    reset_rates-other r level burst (x ∷ xs) bs a h =
        reset_rates-other r level burst xs (reset_rate x bs) a.1
          (reset_rate-other r x level burst bs a.0 h)

    reset_rates-Holds :
        (r : W) (xs : List W) (bs : List (Bucket W))
        → IsOnce r xs
        → Holds r nought nought (reset_rates xs bs)
    unfolding reset_rates
    reset_rates-Holds r [] bs o = elim o [ ]
    reset_rates-Holds r (x ∷ xs) bs (inl (e, a)) =
        reset_rates-other r nought nought xs (reset_rate x bs) a
          (subst (λ y. Holds r nought nought (reset_rate y bs)) (sym e) (reset_rate-Holds r bs))
    reset_rates-Holds r (x ∷ xs) bs (inr (a, o)) = reset_rates-Holds r xs (reset_rate x bs) o

    rb_loop-Holds :
        (r : W) (xs : List W) (trace : List (ProcessedTraceEntry W)) (prev : ℕ) (level burst : W)
        (bs : List (Bucket W))
        → IsOnce r xs
        → Holds r level burst bs
        → (last : W) × Holds r last
            (highest_level r prev level burst trace)
            (rb_loop xs prev trace bs)
    unfolding rb_loop
    rb_loop-Holds r xs [] prev level burst bs o h = (level, h)
    rb_loop-Holds r xs (e ∷ es) prev level burst bs o h =
        let i : W = seconds (sub64 e.arrival_time prev) in
        let next : W = level_after r i e.work level in
        rb_loop-Holds r xs es e.arrival_time next (if lt burst next then next else burst)
          (fill_rates xs i e.work bs) o (fill_rates-Holds r i e.work level burst xs bs o h)

    burst_at-Holds :
        (r level burst : W) (bs : List (Bucket W)) → Holds r level burst bs → burst_at r bs ≡ burst
    unfolding burst_at
    burst_at-Holds r level burst [] h = elim h [ ]
    burst_at-Holds r level burst (b ∷ bs) h = ground (arith, h, burst_at-Holds r level burst bs)

    -- For a rate that is in the list of rates, where the others are different, and values that are
    -- ordered, as NaN is not: the burst that rbGen finds for it is the highest level of one bucket that
    -- drains at this rate, starts empty, and takes the work of each request of the trace.
    pub rb_gen-burst :
        (r : W) (rates : List W) (trace : List (ProcessedTraceEntry W))
        → IsOnce r rates
        → burst_at r (rb_gen trace rates) ≡ highest_level r 0 nought nought trace
    unfolding rb_gen
    rb_gen-burst r rates trace o =
        let (last, h) =
          rb_loop-Holds r rates trace 0 nought nought (reset_rates rates []) o
            (reset_rates-Holds r rates [] o) in
        burst_at-Holds r last _ (rb_loop rates 0 trace (reset_rates rates [])) h

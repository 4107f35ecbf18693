-- ===== src/Traces/Arrivals.antt =====
-- src/DNC-Library/DNC.cpp: the arrival curve of a trace. A curve under construction stands with its
-- last point first. `none` is a failed assertion, an access past a curve's end, or the fuel's end.
use workload_compactor.Base.{
  reversed, ℕ, zero, suc, ◌+◌, ◌%◌, ◌^◌, Bool, true, false, not, ◌&&◌, ◌||◌, if◌then◌else◌, List,
  [], ◌∷◌, map, Option, none, some, Double, ◌>>=◌, length, ltb, sub64,
}
use workload_compactor.Scheduler.Tokens.{seconds}
use workload_compactor.Network.Types.{PointSlope, Curve}
use workload_compactor.Network.Registry.{initial_point}
use workload_compactor.Network.Curves.{y_intercept}
use workload_compactor.Traces.Reader.{ProcessedTraceEntry}
pub mod Bursts
pub mod Pruned
pub mod Rising

-- An entry of `virtualBucket` and of `bursts`.
pub record Bucket (W : Type 0) : Type 0 where
  pub rate : W
  pub level : W
  pub burst : W

module _ {W : Type 0} ⦃d : Double W⦄ where
  open d use {nought, add, sub, mul, div, lt, le, infinity, of_ℕ}

  unfoldable pub sum_work : W → ℕ → List (ProcessedTraceEntry W) → W × ℕ
  sum_work rate last [] = (rate, last)
  sum_work rate last (e ∷ es) = sum_work (add rate e.work) e.arrival_time es

  -- The work of the trace over its duration.
  unfoldable pub calc_min_rate : List (ProcessedTraceEntry W) → W
  calc_min_rate [] = nought
  calc_min_rate (e ∷ es) =
      let r = sum_work (add nought e.work) e.arrival_time es in
      div r.0 (seconds (sub64 r.1 e.arrival_time))

  -- `virtualBucket[rate] = 0; bursts[rate] = 0`.
  unfoldable pub reset_rate : W → List (Bucket W) → List (Bucket W)
  reset_rate rate [] = record { rate = rate; level = nought; burst = nought } ∷ []
  reset_rate rate (b ∷ bs) =
      if lt b.rate rate
      then b ∷ reset_rate rate bs
      else (if lt rate b.rate
          then record { rate = rate; level = nought; burst = nought } ∷ b ∷ bs
          else record b { level = nought; burst = nought } ∷ bs)

  unfoldable pub reset_rates : List W → List (Bucket W) → List (Bucket W)
  reset_rates [] bs = bs
  reset_rates (rate ∷ rates) bs = reset_rates rates (reset_rate rate bs)

  -- A bucket drains for a time, and takes the work of a request; the highest level is kept.
  unfoldable pub fill_bucket : W → W → W → Bucket W → Bucket W
  fill_bucket rate interarrival work b =
      let drained = sub b.level (mul rate interarrival) in
      let level = add (if lt drained nought then nought else drained) work in
      record b { level = level; burst = if lt b.burst level then level else b.burst }

  unfoldable pub fill_rate : W → W → W → List (Bucket W) → List (Bucket W)
  fill_rate rate interarrival work [] = []
  fill_rate rate interarrival work (b ∷ bs) =
      if lt b.rate rate
      then b ∷ fill_rate rate interarrival work bs
      else (if lt rate b.rate then b ∷ bs else fill_bucket rate interarrival work b ∷ bs)

  unfoldable pub fill_rates : List W → W → W → List (Bucket W) → List (Bucket W)
  fill_rates [] interarrival work bs = bs
  fill_rates (rate ∷ rates) interarrival work bs =
      fill_rates rates interarrival work (fill_rate rate interarrival work bs)

  unfoldable pub rb_loop :
      List W → ℕ → List (ProcessedTraceEntry W) → List (Bucket W) → List (Bucket W)
  rb_loop rates prev [] bs = bs
  rb_loop rates prev (e ∷ es) bs =
      rb_loop rates e.arrival_time es
        (fill_rates rates (seconds (sub64 e.arrival_time prev)) e.work bs)

  unfoldable pub rb_gen : List (ProcessedTraceEntry W) → List W → List (Bucket W)
  rb_gen trace rates = rb_loop rates 0 trace (reset_rates rates [])

  -- `bursts[rate]`.
  unfoldable pub burst_at : W → List (Bucket W) → W
  burst_at rate [] = nought
  burst_at rate (b ∷ bs) =
      if lt b.rate rate then burst_at rate bs else (if lt rate b.rate then nought else b.burst)

  unfoldable pub is_inf : W → Bool
  is_inf x = le infinity x || le x (sub nought infinity)

  unfoldable pub is_finite : W → Bool
  is_finite x = lt (sub nought infinity) x && lt x infinity

  unfoldable pub differs : W → W → Bool
  differs x y = not (le x y && le y x)

  unfoldable pub calc_point_slope_intersection : PointSlope W → PointSlope W → Option (PointSlope W)
  calc_point_slope_intersection p1 p2 =
      if not (differs p1.slope p2.slope)
      then some p1
      else (if is_inf p1.slope
          then some (record p1 { y = sub p2.y (mul p2.slope (sub p2.x p1.x)) })
          else (if is_inf p2.slope
              then some (record p1 { x = p2.x; y = sub p1.y (mul p1.slope (sub p1.x p2.x)) })
              else (if is_finite p1.slope && is_finite p2.slope
                  then (let b1 = y_intercept p1.x p1.y p1.slope in
                      let b2 = y_intercept p2.x p2.y p2.slope in
                      let x = div (sub b2 b1) (sub p1.slope p2.slope) in
                      some (record p1 { x = x; y = add (mul p1.slope x) b1 }))
                  else none)))

  -- The inner loop: points that the new one passes below are taken back.
  unfoldable pub place_point : PointSlope W → List (PointSlope W) → Option (List (PointSlope W))
  place_point point [] = some (point ∷ [])
  place_point point (first ∷ []) = some (point ∷ first ∷ [])
  place_point point (last ∷ before ∷ rest) =
      let back = place_point point (before ∷ rest) in
      calc_point_slope_intersection point last >>= λ x.
      if lt last.x x.x then some (x ∷ last ∷ before ∷ rest) else back

  unfoldable pub place_rates :
      List W → List (Bucket W) → List (PointSlope W) → Option (List (PointSlope W))
  place_rates [] bursts curve = some curve
  place_rates (rate ∷ rates) bursts curve =
      place_point (record { x = nought; y = burst_at rate bursts; slope = rate }) curve
      >>= place_rates rates bursts

  unfoldable pub rb_curve_to_arrival_curve : List W → List (Bucket W) → Option (Curve W)
  rb_curve_to_arrival_curve rates bursts =
      place_rates rates bursts (initial_point ∷ []) >>= λ curve. some (reversed curve [])

  -- The first loop of pruneArrivalCurve, from the back.
  unfoldable pub drop_far : W → ℕ → List (PointSlope W) → List (PointSlope W)
  drop_far threshold n [] = []
  drop_far threshold n (p ∷ ps) =
      if ltb n (length (p ∷ ps))
      then (if lt p.x threshold then p ∷ ps else drop_far threshold n ps)
      else p ∷ ps

  -- The point that its successor exceeds least, from the index `i` on, where `best` is the one so far.
  unfoldable pub closest : ℕ → ℕ → W → List (PointSlope W) → ℕ
  closest i best least [] = best
  closest i best least (p ∷ []) = best
  closest i best least (p1 ∷ p2 ∷ ps) =
      let gap = sub p2.y p1.y in
      if lt gap least then closest (i + 1) i gap (p2 ∷ ps) else closest (i + 1) best least (p2 ∷ ps)

  unfoldable pub to_remove : Curve W → ℕ
  to_remove [] = 1
  to_remove (p ∷ ps) = closest 1 1 infinity ps

  -- The point is erased, and the next one moved to meet the one before.
  unfoldable pub merge_at : ℕ → Curve W → Option (Curve W)
  merge_at zero curve = none
  merge_at (suc zero) (p ∷ q ∷ r ∷ ps) =
      calc_point_slope_intersection r p >>= λ m. some (p ∷ m ∷ ps)
  merge_at (suc (suc i)) (p ∷ ps) = merge_at (suc i) ps >>= λ qs. some (p ∷ qs)
  merge_at (suc i) curve = none

  -- The second loop.
  unfoldable pub merge_close : ℕ → ℕ → Curve W → Option (Curve W)
  merge_close zero n curve = none
  merge_close (suc fuel) n curve =
      let rest = merge_close fuel n in
      if ltb n (length curve) then (merge_at (to_remove curve) curve >>= rest) else some curve

  -- The two loops; each run of the second one takes one point away.
  unfoldable pub prune_to : W → ℕ → Curve W → Option (Curve W)
  prune_to threshold limit curve =
      merge_close (suc (length curve)) limit
        (reversed (drop_far threshold limit (reversed curve [])) [])

  -- `n++` for the initial point.
  unfoldable pub prune_arrival_curve : W → ℕ → Curve W → Option (Curve W)
  prune_arrival_curve threshold n curve = prune_to threshold ((n + 1) % 2 ^ 32) curve

  -- The rates from `rate` down to `min_rate`.
  unfoldable pub descending : ℕ → W → W → W → Option (List W)
  descending zero step min_rate rate = none
  descending (suc fuel) step min_rate rate =
      let rest = descending fuel step min_rate (sub rate step) in
      if le min_rate rate then (rest >>= λ rates. some (rate ∷ rates)) else some []

  unfoldable pub calc_arrival_curve :
      ℕ → W → W → List (ProcessedTraceEntry W) → W → Option (Curve W)
  calc_arrival_curve fuel thousandth threshold trace max_rate = do
    rates ← descending fuel (mul thousandth max_rate) (calc_min_rate trace) max_rate
    curve ← rb_curve_to_arrival_curve rates (rb_gen trace rates)
    prune_arrival_curve threshold 12 curve

  unfoldable pub points_of : List (Option (PointSlope W)) → Curve W
  points_of [] = []
  points_of (none ∷ lines) = points_of lines
  points_of (some p ∷ lines) = p ∷ points_of lines

  -- readArrivalCurve, of what `sscanf` reads of each line; without a file there is no curve.
  unfoldable pub read_arrival_curve : Option (List (Option (PointSlope W))) → Option (Curve W)
  read_arrival_curve none = none
  read_arrival_curve (some lines) = some (initial_point ∷ points_of lines)

-- ===== src/Network/Curves.antt =====
-- The operators on curves of src/DNC-Library/DNC.cpp.
use workload_compactor.Base.{
  ℕ, zero, suc, ◌+◌, if◌then◌else◌, List, [], ◌∷◌, Option, none, some, length, Double,
}
use workload_compactor.Network.Types.{
  PointSlope, Curve, SimpleArrivalCurve, SimpleServiceCurve, Queue,
}
use workload_compactor.Network.Registry.{initial_point}

module _ {W : Type 0} ⦃d : Double W⦄ where
  open d use {nought, add, sub, mul, div, lt, infinity}

  unfoldable pub constant_service_curve : Queue W → SimpleServiceCurve W
  constant_service_curve q = record { service_rate = q.bandwidth; delay = nought }

  unfoldable pub aggregate_arrival_curve :
      SimpleArrivalCurve W → SimpleArrivalCurve W → SimpleArrivalCurve W
  aggregate_arrival_curve a b = record { r = add a.r b.r; b = add a.b b.b }

  -- `min` of the C++ library: the second only if it is less.
  unfoldable pub convolution_service_curve :
      SimpleServiceCurve W → SimpleServiceCurve W → SimpleServiceCurve W
  convolution_service_curve s t = record {
    service_rate = if lt t.service_rate s.service_rate then t.service_rate else s.service_rate;
    delay = add s.delay t.delay;
  }

  unfoldable pub output_arrival_curve :
      SimpleArrivalCurve W → SimpleServiceCurve W → SimpleArrivalCurve W
  output_arrival_curve a s = record { r = a.r; b = add a.b (mul a.r s.delay) }

  unfoldable pub leftover_service_curve :
      SimpleArrivalCurve W → SimpleServiceCurve W → SimpleServiceCurve W
  leftover_service_curve a s =
      let left = sub s.service_rate a.r in
      record { service_rate = left; delay = add s.delay (div (add a.b (mul a.r s.delay)) left) }

  unfoldable pub dnc_latency_bound : SimpleArrivalCurve W → SimpleServiceCurve W → W
  dnc_latency_bound a s =
      if lt s.service_rate a.r then infinity else add s.delay (div a.b s.service_rate)

  unfoldable pub x_intercept : W → W → W → W
  x_intercept x y slope = sub x (div y slope)

  unfoldable pub y_intercept : W → W → W → W
  y_intercept x y slope = sub y (mul slope x)

  -- The `y` of a curve's point, or infinity past its end.
  unfoldable pub point_y : List (PointSlope W) → W
  point_y [] = infinity
  point_y (p ∷ ps) = p.y

  -- The distance at a vertex of the arrival curve, whose height the service curve reaches on the
  -- segment that begins at `s`; and the other way round.
  unfoldable pub latency_at_arrival : PointSlope W → PointSlope W → W
  latency_at_arrival a s = sub (add s.x (div (sub a.y s.y) s.slope)) a.x

  unfoldable pub latency_at_service : PointSlope W → PointSlope W → W
  latency_at_service a s = sub s.x (add a.x (div (sub s.y a.y) a.slope))

  unfoldable pub larger : W → W → W
  larger latency worst = if lt worst latency then latency else worst

  -- The loop of `calcLatency` with the points that each index has passed last (`none` at index 0) and
  -- those still to come. `none` is a read before the start of a curve, or past its end when both
  -- heights are infinite or not comparable; the fuel is the number of points to come.
  unfoldable pub latency_loop :
      ℕ → Option (PointSlope W) → Curve W → Option (PointSlope W) → Curve W → W → Option W
  latency_loop zero a ps s qs worst = some worst
  latency_loop (suc fuel) a [] s [] worst = some worst
  latency_loop (suc fuel) a [] s (q ∷ qs) worst =
      let rest = λ (last : PointSlope W).
        latency_loop fuel a [] (some q) qs (larger (latency_at_service last q) worst) in
      elim a [ none ↦ none | some last ↦ if lt q.y infinity then rest last else none ]
  latency_loop (suc fuel) a (p ∷ ps) s [] worst =
      let rest = λ (last : PointSlope W).
        latency_loop fuel (some p) ps s [] (larger (latency_at_arrival p last) worst) in
      elim s [ none ↦ none | some last ↦ if lt p.y infinity then rest last else none ]
  latency_loop (suc fuel) a (p ∷ ps) s (q ∷ qs) worst =
      let on_arrival = λ (last : PointSlope W).
        latency_loop fuel (some p) ps s (q ∷ qs) (larger (latency_at_arrival p last) worst) in
      let on_service = λ (last : PointSlope W).
        latency_loop fuel a (p ∷ ps) (some q) qs (larger (latency_at_service last q) worst) in
      let on_both = latency_loop fuel (some p) ps (some q) qs (larger (sub q.x p.x) worst) in
      if lt p.y q.y
      then elim s [ none ↦ none | some last ↦ on_arrival last ]
      else if lt q.y p.y
      then elim a [ none ↦ none | some last ↦ on_service last ]
      else on_both

  unfoldable pub calc_latency : Curve W → Curve W → Option W
  unfolding latency_loop
  calc_latency arrival service =
      latency_loop (length arrival + length service) none arrival none service nought

  unfoldable pub calc_shaper_latency : Curve W → SimpleArrivalCurve W → Option W
  unfolding calc_latency
  calc_shaper_latency arrival shaper =
      calc_latency arrival
        (initial_point ∷ record { x = nought; y = shaper.b; slope = shaper.r } ∷ [])

-- ===== src/Traces/Arrivals/Rising.antt =====
-- The points of the curve that rbCurveToArrivalCurve makes rise in x after the first two.
use workload_compactor.Base.{
  ◌≡◌, ◌⊎◌, inl, inr, refl, sym, subst, true, Bool-cases, List, [], ◌∷◌, some, Double, All,
  reversed,
}
use workload_compactor.Network.Types.{PointSlope}
use workload_compactor.Network.Registry.{initial_point}
use workload_compactor.Traces.Arrivals.{
  Bucket, burst_at, is_inf, is_finite, place_point, place_rates, rb_curve_to_arrival_curve,
}
use workload_compactor.Traces.Arrivals.Pruned.{IsNumber, intersection-IsNumber}

module _ {W : Type 0} ⦃d : Double W⦄ where
  open d use {lt, nought, infinity}

  -- The last point first: each point is to the right of the one before, down to the first two.
  abbrev pub Falls : List (PointSlope W) → Type 0
  Falls [] = ⊥
  Falls (p ∷ []) = p ≡ initial_point
  Falls (p ∷ q ∷ []) = q ≡ initial_point
  Falls (p ∷ q ∷ r ∷ ps) = (lt q.x p.x ≡ true) × Falls (q ∷ r ∷ ps)

  -- Both, and no slope that is NaN.
  abbrev Sound : List (PointSlope W) → Type 0
  Sound ps = Falls ps × All IsNumber ps

  Falls-tail : (p q : PointSlope W) (ps : List (PointSlope W)) → Falls (p ∷ q ∷ ps) → Falls (q ∷ ps)
  Falls-tail p q [] h = h
  Falls-tail p q (r ∷ ps) h = h.1

  place_point-Sound :
      (point : PointSlope W) (ps : List (PointSlope W))
      → IsNumber point
      → Sound ps
      → (qs : List (PointSlope W)) × (place_point point ps ≡ some qs) × Sound qs
  unfolding place_point
  place_point-Sound point [] k (h, a) = elim h [ ]
  place_point-Sound point (p ∷ []) k (h, a) = (point ∷ p ∷ [], refl, (h, (k, a)))
  place_point-Sound point (p ∷ q ∷ ps) k (h, a) =
      let (x, met, slope) = intersection-IsNumber point p k a.0 in
      elim (Bool-cases (lt p.x x.x)) [
        | inl r ↦ (
          x ∷ p ∷ q ∷ ps,
          rw (met, r, place_point) refl,
          ((r, h), (subst (λ z. (is_inf z ≡ true) ⊎ (is_finite z ≡ true)) (sym slope) k, a)),
        )
        | inr r ↦
            let (qs, run, sound) = place_point-Sound point (q ∷ ps) k (Falls-tail p q ps h, a.1) in
            (qs, rw (met, r, place_point) run, sound)
      ]

  place_rates-Sound :
      (rates : List W) (bursts : List (Bucket W)) (ps : List (PointSlope W))
      → All (λ r. (is_inf r ≡ true) ⊎ (is_finite r ≡ true)) rates
      → Sound ps
      → (qs : List (PointSlope W)) × (place_rates rates bursts ps ≡ some qs) × Sound qs
  unfolding place_rates
  place_rates-Sound [] bursts ps k h = (ps, refl, h)
  place_rates-Sound (rate ∷ rates) bursts ps k h =
      let point : PointSlope W = record { x = nought; y = burst_at rate bursts; slope = rate } in
      let (rs, placed, sound) = place_point-Sound point ps k.0 h in
      let (qs, run, rest) = place_rates-Sound rates bursts rs k.1 sound in
      (qs, rw (placed, place_rates) run, rest)

  -- For rates that are not NaN: rbCurveToArrivalCurve does not fail an assertion, and each point of its
  -- curve after the first two is to the right of the one before.
  pub rb_curve_to_arrival_curve-Falls :
      (rates : List W) (bursts : List (Bucket W))
      → All (λ r. (is_inf r ≡ true) ⊎ (is_finite r ≡ true)) rates
      → is_inf infinity ≡ true
      → (ps : List (PointSlope W)) × (rb_curve_to_arrival_curve rates bursts
          ≡ some (reversed ps []))
        × Falls ps
  unfolding rb_curve_to_arrival_curve
  rb_curve_to_arrival_curve-Falls rates bursts k i =
      let (ps, run, sound) =
        place_rates-Sound rates bursts (initial_point ∷ []) k (refl, (inl i, tt)) in
      (ps, rw (run, rb_curve_to_arrival_curve) refl, sound.0)

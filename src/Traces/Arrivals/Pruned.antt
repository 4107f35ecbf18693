-- ===== src/Traces/Arrivals/Pruned.antt =====
-- pruneArrivalCurve ends, reads no point past the curve's end, and leaves as many points as it is told.
use workload_compactor.Base.{
  same_some, ltb→lt, ℕ, zero, suc, ◌+◌, ◌%◌, ◌^◌, ◌<◌, ◌≤◌, ◌≡◌, ◌⊎◌, inl, inr, refl, sym, ap, ◌∙◌,
  subst, true, Bool-cases, List, [], ◌∷◌, some, Double, arith, length, ltb, reversed,
  length-reversed, reversed_twice, All-reversed, All,
}
use workload_compactor.Network.Types.{PointSlope, Curve}
use workload_compactor.Network.Curves.{y_intercept}
use workload_compactor.Traces.Arrivals.{
  is_inf, is_finite, differs, calc_point_slope_intersection, drop_far, closest, to_remove, merge_at,
  merge_close, prune_to, prune_arrival_curve,
}

module _ {W : Type 0} ⦃d : Double W⦄ where
  open d use {add, sub, mul, div, lt, infinity}

  -- The slope is not NaN.
  abbrev pub IsNumber : PointSlope W → Type 0
  IsNumber p = (is_inf p.slope ≡ true) ⊎ (is_finite p.slope ≡ true)

  pub intersection-IsNumber :
      (p q : PointSlope W)
      → IsNumber p
      → IsNumber q
      → (x : PointSlope W) × (calc_point_slope_intersection p q ≡ some x) × (x.slope ≡ p.slope)
  unfolding calc_point_slope_intersection
  intersection-IsNumber p q hp hq = elim (Bool-cases (differs p.slope q.slope)) [
    | inr e ↦ (p, rw (e, calc_point_slope_intersection) refl, refl)
    | inl e ↦ elim (Bool-cases (is_inf p.slope)) [
      | inl f ↦ (
        record p { y = sub q.y (mul q.slope (sub q.x p.x)) },
        rw (e, f, calc_point_slope_intersection) refl,
        refl,
      )
      | inr f ↦ elim (Bool-cases (is_inf q.slope)) [
        | inl g ↦ (
          record p { x = q.x; y = sub p.y (mul p.slope (sub p.x q.x)) },
          rw (e, f, g, calc_point_slope_intersection) refl,
          refl,
        )
        | inr g ↦
            let fp : is_finite p.slope ≡ true = ground arith in
            let fq : is_finite q.slope ≡ true = ground arith in
            let b = y_intercept p.x p.y p.slope in
            let x = div (sub (y_intercept q.x q.y q.slope) b) (sub p.slope q.slope) in
            (
              record p { x = x; y = add (mul p.slope x) b },
              rw (e, f, g, fp, fq, calc_point_slope_intersection) refl,
              refl,
            )
      ]
    ]
  ]

  closest-bounds :
      (i best : ℕ) (least : W) (ps : List (PointSlope W))
      → (closest i best least ps ≡ best)
        ⊎ ((i ≤ closest i best least ps) × (closest i best least ps + 1 < i + length ps))
  unfolding closest
  closest-bounds i best least [] = inl refl
  closest-bounds i best least (p ∷ []) = inl refl
  closest-bounds i best least (p ∷ q ∷ ps) = ground (
    arith,
    closest-bounds (i + 1) i (sub q.y p.y) (q ∷ ps),
    closest-bounds (i + 1) best least (q ∷ ps),
  )

  to_remove-bounds :
      (curve : Curve W)
      → 2 < length curve
      → (1 ≤ to_remove curve) × (to_remove curve + 1 < length curve)
  unfolding to_remove
  to_remove-bounds [] h = omega (arith, h)
  to_remove-bounds (p ∷ ps) h = ground (arith, h, closest-bounds 1 1 infinity ps)

  merge_at-shorter :
      (i : ℕ) (curve : Curve W)
      → 1 ≤ i
      → i + 1 < length curve
      → All IsNumber curve
      → (c : Curve W) × (merge_at i curve ≡ some c)
        × (length curve ≡ suc (length c))
        × All IsNumber c
  unfolding merge_at
  merge_at-shorter zero curve h l a = let never : ⊥ = omega (arith, h) in elim never [ ]
  merge_at-shorter (suc zero) [] h l a = let never : ⊥ = omega (arith, l) in elim never [ ]
  merge_at-shorter (suc zero) (p ∷ []) h l a = let never : ⊥ = omega (arith, l) in elim never [ ]
  merge_at-shorter (suc zero) (p ∷ q ∷ []) h l a =
      let never : ⊥ = omega (arith, l) in elim never [ ]
  merge_at-shorter (suc zero) (p ∷ q ∷ r ∷ ps) h l (hp, (hq, (hr, hs))) =
      let (x, e, same) = intersection-IsNumber r p hr hp in
      (
        p ∷ x ∷ ps,
        rw (e, merge_at) refl,
        refl,
        (hp, (subst (λ z. (is_inf z ≡ true) ⊎ (is_finite z ≡ true)) (sym same) hr, hs)),
      )
  merge_at-shorter (suc (suc i)) [] h l a = let never : ⊥ = omega (arith, l) in elim never [ ]
  merge_at-shorter (suc (suc i)) (p ∷ ps) h l a =
      let (c, e, shorter, b) = merge_at-shorter (suc i) ps (omega arith) (omega (arith, l)) a.1 in
      (p ∷ c, rw (e, merge_at) refl, ap suc shorter, (a.0, b))

  merge_close-length :
      (fuel n : ℕ) (curve : Curve W)
      → 2 ≤ n
      → length curve < fuel
      → All IsNumber curve
      → (c : Curve W) × (merge_close fuel n curve ≡ some c) × (length c ≤ n)
  unfolding merge_close
  merge_close-length zero n curve h l a = let never : ⊥ = omega (arith, l) in elim never [ ]
  merge_close-length (suc fuel) n curve h l a = elim (Bool-cases (ltb n (length curve))) [
    | inr e ↦ (curve, rw (e, merge_close) refl, ground (arith, e))
    | inl e ↦
        let (low, high) = to_remove-bounds curve (ground (arith, e, h)) in
        let (c, run, shorter, b) = merge_at-shorter (to_remove curve) curve low high a in
        let (z, rest, short) = merge_close-length fuel n c h (omega (arith, l, shorter)) b in
        (z, rw (e, run, merge_close) rest, short)
  ]

  drop_far-All :
      (threshold : W) (n : ℕ) (ps : List (PointSlope W))
      → All IsNumber ps
      → All IsNumber (drop_far threshold n ps)
  unfolding drop_far
  drop_far-All threshold n [] a = tt
  drop_far-All threshold n (p ∷ ps) a = ground (arith, drop_far-All threshold n ps a.1)

  drop_far-length :
      (threshold : W) (n : ℕ) (ps : List (PointSlope W))
      → length (drop_far threshold n ps) ≤ length ps
  unfolding drop_far
  drop_far-length threshold n [] = omega arith
  drop_far-length threshold n (p ∷ ps) = ground (arith, drop_far-length threshold n ps)

  drop_far-short :
      (threshold : W) (n : ℕ) (ps : List (PointSlope W))
      → length ps ≤ n
      → drop_far threshold n ps ≡ ps
  unfolding drop_far
  drop_far-short threshold n [] h = refl
  drop_far-short threshold n (p ∷ ps) h = ground (arith, h)

  merge_close-short :
      (fuel n : ℕ) (curve : Curve W)
      → length curve ≤ n
      → merge_close (suc fuel) n curve ≡ some curve
  unfolding merge_close
  merge_close-short fuel n curve h = ground (arith, h)

  prune_to-length :
      (threshold : W) (limit : ℕ) (curve : Curve W)
      → All IsNumber curve
      → 2 ≤ limit
      → (c : Curve W) × (prune_to threshold limit curve ≡ some c) × (length c ≤ limit)
  unfolding prune_to
  prune_to-length threshold limit curve a h =
      let back = reversed curve [] in
      let far = drop_far threshold limit back in
      merge_close-length (suc (length curve)) limit (reversed far []) h
        (omega (
          arith,
          length-reversed far [],
          length-reversed curve [],
          drop_far-length threshold limit back,
        ))
        (All-reversed IsNumber far []
          (drop_far-All threshold limit back (All-reversed IsNumber curve [] a tt)) tt)

  prune_to-short :
      (threshold : W) (limit : ℕ) (curve : Curve W)
      → length curve ≤ limit
      → prune_to threshold limit curve ≡ some curve
  unfolding prune_to
  prune_to-short threshold limit curve h =
      let back = reversed curve [] in
      let all : drop_far threshold limit back ≡ back =
        drop_far-short threshold limit back (omega (arith, h, length-reversed curve [])) in
      let same : reversed (drop_far threshold limit back) [] ≡ curve =
        ap (λ ps. reversed ps []) all ∙ reversed_twice curve in
      subst (λ ps. merge_close (suc (length curve)) limit ps ≡ some curve) (sym same)
        (merge_close-short (length curve) limit curve h)

  -- A curve whose slopes are not NaN, and a count of at least one point, whose successor fits 32 bits:
  -- pruneArrivalCurve ends with the count of points at most besides the initial one, and leaves a curve
  -- that has no more as it is.
  pub prune_arrival_curve-length :
      (threshold : W) (n : ℕ) (curve : Curve W)
      → All IsNumber curve
      → 1 ≤ n
      → n + 1 < 2 ^ 32
      → (c : Curve W) × (prune_arrival_curve threshold n curve ≡ some c)
        × (length c ≤ n + 1)
        × ((c ≡ curve) ⊎ (n + 1 < length curve))
  unfolding prune_arrival_curve
  prune_arrival_curve-length threshold n curve a h l =
      let limit : n + 1 ≡ (n + 1) % 2 ^ 32 = omega (arith, l) in
      let (c, run, short) = prune_to-length threshold (n + 1) curve a (omega (arith, h)) in
      (
        c,
        subst (λ m. prune_to threshold m curve ≡ some c) limit run,
        short,
        elim (Bool-cases (ltb (n + 1) (length curve))) [
          | inl e ↦ inr (ltb→lt (n + 1) (length curve) e)
          | inr e ↦ inl (
              same_some (prune_to threshold (n + 1) curve) c curve run
                (prune_to-short threshold (n + 1) curve (ground (arith, e))))
        ],
      )

-- ===== src/Examples/Tracing.antt =====
-- Traces and arrival curves, of src/TraceCommon and src/DNC-Library/DNC.cpp.
use workload_compactor.Base.{
  ℕ, ◌≤◌, ◌<◌, ◌≡◌, ◌⊎◌, inl, inr, refl, List, [], ◌∷◌, some, true, false, units, length, arith,
  reversed, string_key, ◌^◌,
}
use workload_compactor.Network.Types.{PointSlope, Curve}
use workload_compactor.Traces.Estimators.{
  Estimator, network_in_estimator, estimate_work, affine_work, of_int,
}
use workload_compactor.Traces.Reader.{
  ProcessedTraceEntry, TraceReader, read_all, reset, processed, processed_all,
}
use workload_compactor.Traces.Reader.Whole.{read_all-reset}
use workload_compactor.Traces.Arrivals.{
  rb_gen, burst_at, prune_arrival_curve, rb_curve_to_arrival_curve, is_inf, is_finite,
}
use workload_compactor.Traces.Arrivals.Pruned.{prune_arrival_curve-length}
use workload_compactor.Traces.Arrivals.Rising.{Falls, rb_curve_to_arrival_curve-Falls}
use workload_compactor.Traces.Arrivals.Bursts.{highest_level, rb_gen-burst}
use workload_compactor.Network.Shapers.Ranks.Ascending.{units-IsWeak}
use workload_compactor.Scheduler.Tokens.{seconds}

-- The work is 1 for a read, and the size for a write.
abbrev est : Estimator ℕ
est =
    network_in_estimator
      (record { non_data_constant = 1; non_data_factor = 0; data_constant = 0; data_factor = 1 })

-- The second of three requests is next.
abbrev reader : TraceReader
reader = record {
  trace =
      record { arrival_time = 5; request_size = 4; is_read = true }
      ∷ record { arrival_time = 6; request_size = 8; is_read = false }
      ∷ [];
  cur_index = 1;
}

read_all-reset_example :
    (t : TraceReader) × (read_all 3 est (reset reader)
      ≡ some (
        record { arrival_time = 5; work = 1; is_read = true }
            ∷ record { arrival_time = 6; work = 8; is_read = false }
            ∷ [],
        t,
      ))
unfolding processed processed_all estimate_work affine_work of_int
read_all-reset_example =
    read_all-reset est reader
      (record { arrival_time = 5; work = 1; is_read = true }
        ∷ record { arrival_time = 6; work = 8; is_read = false }
        ∷ [])
      (omega arith) refl

abbrev point : ℕ → ℕ → ℕ → PointSlope ℕ
point x y slope = record { x = x; y = y; slope = slope }

abbrev curve : Curve ℕ
curve = point 0 0 (2 ^ 1024) ∷ point 0 2 8 ∷ point 1 4 4 ∷ point 3 5 2 ∷ []

prune_arrival_curve-length_example :
    (c : Curve ℕ) × (prune_arrival_curve 30 1 curve ≡ some c)
    × (length c ≤ 2)
    × ((c ≡ curve) ⊎ (2 < 4))
unfolding is_inf is_finite
prune_arrival_curve-length_example =
    prune_arrival_curve-length 30 1 curve (inl refl, (inr refl, (inr refl, (inr refl, tt))))
      (omega arith) (omega arith)

rb_curve_to_arrival_curve-Falls_example :
    (ps : List (PointSlope ℕ)) × (rb_curve_to_arrival_curve
        (8 ∷ 4 ∷ [])
        (record { rate = 4; level = 0; burst = 6 } ∷ record { rate = 8; level = 0; burst = 2 } ∷ [])
      ≡ some (reversed ps []))
    × Falls ps
unfolding is_inf is_finite
rb_curve_to_arrival_curve-Falls_example =
    rb_curve_to_arrival_curve-Falls (8 ∷ 4 ∷ [])
      (record { rate = 4; level = 0; burst = 6 } ∷ record { rate = 8; level = 0; burst = 2 } ∷ [])
      (inr refl, (inr refl, tt)) refl

abbrev busy : List (ProcessedTraceEntry ℕ)
busy =
    record { arrival_time = 1_000_000_000; work = 6; is_read = true }
    ∷ record { arrival_time = 2_000_000_000; work = 5; is_read = true }
    ∷ []

-- The bucket is at 7 when the second request has come.
rb_gen-burst_example : burst_at 4 (rb_gen busy (8 ∷ 4 ∷ [])) ≡ highest_level 4 0 0 0 busy
rb_gen-burst_example =
    rb_gen-burst units-IsWeak 4 (8 ∷ 4 ∷ []) busy (inr (inl refl, inl (refl, tt)))

busy_level : highest_level 4 0 0 0 busy ≡ 7
unfolding seconds
busy_level = refl

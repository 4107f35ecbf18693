-- ===== src/Scheduler/Tokens.antt =====
-- Token buckets of a client: `UpdateTokens`, and the part of `RemoveJob` that changes the client.
use workload_compactor.Base.{
  ℕ, Bool, true, false, not, ◌&&◌, if◌then◌else◌, List, [], ◌∷◌, map, ltb, wrap64, sub64, ◌+◌,
  is_empty, Double,
}
use workload_compactor.Scheduler.Types.{Job, RateLimit, Client}

module _ {W : Type 0} ⦃d : Double W⦄ where
  -- ConvertTimeToSeconds of src/common/time.hpp.
  unfoldable pub seconds : ℕ → W
  seconds t = d.div (d.of_ℕ t) (d.of_ℕ 1_000_000_000)

  -- `tokens[i] += elapsedTime * rates[i]`.
  unfoldable pub accrue : W → RateLimit W → RateLimit W
  accrue elapsed l = record l { tokens = d.add l.tokens (d.mul elapsed l.rate) }

  unfoldable pub cap_tokens : RateLimit W → RateLimit W
  cap_tokens l = if d.lt l.burst l.tokens then record l { tokens = l.burst } else l

  -- The refill for the time in which the queue was empty.
  unfoldable pub refill_idle : Client W → Client W
  refill_idle c =
      if ltb c.rate_limit_update_time c.last_occupancy_time
      then record c {
        rate_limits =
            map
              (λ l.
                cap_tokens
                  (accrue (seconds (sub64 c.last_occupancy_time c.rate_limit_update_time)) l))
              c.rate_limits;
        rate_limit_update_time = c.last_occupancy_time;
      }
      else c

  -- Every bucket holds enough for the job.
  unfoldable pub within_limits : W → List (RateLimit W) → Bool
  within_limits size [] = true
  within_limits size (l ∷ ls) = not (d.lt l.tokens size) && within_limits size ls

  -- The refill for the time in which jobs waited, with no burst limit, and the check of the job.
  unfoldable pub check_limits : ℕ → Job W → Client W → Client W
  check_limits now j c =
      let filled = map (accrue (seconds (sub64 now c.rate_limit_update_time))) c.rate_limits in
      record c {
        rate_limits = filled;
        rate_limit_update_time = now;
        rate_limit_obeyed = within_limits j.job_size filled;
      }

  unfoldable pub update_front : ℕ → List (Job W) → Client W → Client W
  update_front now [] c = c
  update_front now (j ∷ js) c =
      if c.rate_limit_obeyed then c else check_limits now j (refill_idle c)

  unfoldable pub update_tokens : ℕ → Client W → Client W
  update_tokens now c = update_front now c.pending_jobs c

  -- `tokens[i] -= JobSize()`, not below 0.
  unfoldable pub charge : W → RateLimit W → RateLimit W
  charge size l =
      let left = d.sub l.tokens size in
      record l { tokens = if d.lt left d.nought then d.nought else left }

  -- The client once its front job has left, with `rest` behind it.
  unfoldable pub without_front : ℕ → Job W → List (Job W) → Client W → Client W
  without_front now j rest c = record c {
    pending_jobs = rest;
    occupancy =
        if is_empty rest
        then wrap64 (c.occupancy + sub64 now c.last_occupancy_time)
        else c.occupancy;
    rate_limits = map (charge j.job_size) c.rate_limits;
    rate_limit_obeyed = false;
  }

-- ===== src/Scheduler/Accounting.antt =====
-- The books of the scheduler against the jobs that are really waiting and in flight. A job is in
-- flight from the `GetNextJob` that returned it to its `CompleteJob`; the list is oldest first.
use workload_compactor.Base.{
  ℕ, ◌+◌, ◌≡◌, Bool, true, if◌then◌else◌, List, [], ◌∷◌, select, length, All, ℤ, pos, ◌+ℤ◌, ◌≤ℤ◌,
  Double, nat_key,
}
use workload_compactor.Base.Table.Distinct.{IsDistinct}
use workload_compactor.Base.Table.Total.{total, AllValues}
use workload_compactor.Scheduler.Types.{Job, Client, Scheduler, is_read_request, is_write_request}
pub mod Counters
pub mod Queues
pub mod Start
pub mod Immediate
pub mod Steps

module _ {W : Type 0} where
  abbrev pub tally : (Job W → Bool) → List (Job W) → ℕ
  tally p js = length (select p js)

  -- The bytes that the jobs passing a test ask for.
  abbrev pub bytes : (Job W → Bool) → List (Job W) → ℤ
  bytes p [] = pos 0
  bytes p (j ∷ js) = let rest = bytes p js in if p j then j.request_size +ℤ rest else rest

  abbrev pub is_immediate : Job W → Bool
  is_immediate j = j.immediate

  abbrev pub is_tracked : Job W → Bool
  is_tracked j = j.rate_limit_obeyed

  abbrev pub waiting : Client W → ℕ
  waiting c = length c.pending_jobs

  -- The counters of outstanding jobs and bytes, for the jobs in flight.
  pub record Counts (s : Scheduler W) (in_flight : List (Job W)) : Type 0 where
    pub jobs : s.outstanding_jobs ≡ pos (length in_flight)
    pub read_jobs : s.outstanding_read_jobs ≡ pos (tally is_read_request in_flight)
    pub read_bytes : s.outstanding_read_bytes ≡ bytes is_read_request in_flight
    pub write_jobs : s.outstanding_write_jobs ≡ pos (tally is_write_request in_flight)
    pub write_bytes : s.outstanding_write_bytes ≡ bytes is_write_request in_flight
    -- Each immediate job in flight raises the limit by one.
    pub limit :
        s.max_outstanding_jobs
        ≡ s.max_outstanding_read_jobs
          +ℤ s.max_outstanding_write_jobs
          +ℤ pos (tally is_immediate in_flight)
    pub within : s.outstanding_jobs ≤ℤ s.max_outstanding_jobs
    -- The jobs that obeyed their rate limit, oldest first.
    pub tracked : s.outstanding_priority_list ≡ select is_tracked in_flight

module _ {W : Type 0} ⦃d : Double W⦄ where
  abbrev pub HasSize : Job W → Type 0
  HasSize j = d.le d.nought j.job_size ≡ true

  -- The waiting jobs: their number, one client for each address, and sizes that are not negative.
  pub record Queued (s : Scheduler W) : Type 0 where
    pub pending : s.pending_job_count ≡ pos (total waiting s.clients)
    pub distinct : IsDistinct s.clients
    pub sized : AllValues (λ c. All HasSize c.pending_jobs) s.clients

-- ===== src/Scheduler/Dispatch.antt =====
-- `ScheduleJob`: the limits on outstanding work, and the release of a job to storage.
use workload_compactor.Base.{
  ℕ, Bool, true, not, ◌&&◌, if◌then◌else◌, List, [], ◌∷◌, ◌++◌, Option, none, some, ltb, leb,
  wrap64, to_u64, ◌+◌, is_empty, ℤ, pos, ◌+ℤ◌, ◌-ℤ◌, ltb_ℤ, leb_ℤ, Double, nat_key,
}
use workload_compactor.Base.Table.{Table, insert}
use workload_compactor.Scheduler.Types.{
  Job, Client, Scheduler, is_read_request, is_write_request, by_kind,
}
use workload_compactor.Scheduler.Tokens.{without_front}
use workload_compactor.Scheduler.Choice.{find_best_client}

-- `aborted`: an assertion failed, or the front or back of an empty sequence was read. `idle`: NULL.
pub data Outcome (W : Type 0) : Type 0 where
  aborted : Outcome W
  idle : Scheduler W → Outcome W
  started : Job W → Scheduler W → Outcome W

unfoldable pub not_starving : ℕ → ℕ → ℕ → ℕ → ℤ → ℤ → ℤ → Bool
not_starving seq seq_bytes oldest oldest_bytes size max_jobs max_bytes =
    not (ltb (wrap64 (oldest + to_u64 max_jobs)) seq)
    && not (leb (wrap64 (oldest_bytes + to_u64 max_bytes)) (wrap64 (seq_bytes + to_u64 size)))

module _ {W : Type 0} where
  -- The oldest outstanding job of a higher priority (a smaller number).
  unfoldable pub oldest_higher : ℕ → List (Job W) → Option (Job W)
  oldest_higher priority [] = none
  oldest_higher priority (j ∷ js) =
      if ltb j.priority priority then some j else oldest_higher priority js

  unfoldable pub can_read : Scheduler W → ℕ → Job W → Bool
  unfolding not_starving
  can_read s priority j =
      not (leb_ℤ s.max_outstanding_read_jobs s.outstanding_read_jobs)
      && not (leb_ℤ s.max_outstanding_read_bytes (s.outstanding_read_bytes +ℤ j.request_size))
      && elim (oldest_higher priority s.outstanding_priority_list) [
        | none ↦
            not_starving s.seq_num_read s.seq_num_read_bytes s.seq_num_read s.seq_num_read_bytes
              j.request_size s.max_outstanding_read_jobs s.max_outstanding_read_bytes
        | some o ↦
            not_starving s.seq_num_read s.seq_num_read_bytes o.seq_num_read o.seq_num_read_bytes
              j.request_size s.max_outstanding_read_jobs s.max_outstanding_read_bytes
      ]

  unfoldable pub can_write : Scheduler W → ℕ → Job W → Bool
  unfolding not_starving
  can_write s priority j =
      not (leb_ℤ s.max_outstanding_write_jobs s.outstanding_write_jobs)
      && not (leb_ℤ s.max_outstanding_write_bytes (s.outstanding_write_bytes +ℤ j.request_size))
      && elim (oldest_higher priority s.outstanding_priority_list) [
        | none ↦
            not_starving s.seq_num_write s.seq_num_write_bytes s.seq_num_write s.seq_num_write_bytes
              j.request_size s.max_outstanding_write_jobs s.max_outstanding_write_bytes
        | some o ↦
            not_starving s.seq_num_write s.seq_num_write_bytes o.seq_num_write o.seq_num_write_bytes
              j.request_size s.max_outstanding_write_jobs s.max_outstanding_write_bytes
      ]

  -- The checks on a job that is not immediate.
  unfoldable pub can_run : Scheduler W → ℕ → Job W → Bool
  can_run s priority j =
      not (leb_ℤ s.max_outstanding_jobs s.outstanding_jobs)
      && (if is_read_request j
          then can_read s priority j
          else if is_write_request j
          then can_write s priority j
          else true)

  -- `_seqNumRead++` and its companions.
  unfoldable pub advance_seq : Job W → Scheduler W → Scheduler W
  advance_seq j s = record s {
    seq_num_read = by_kind j (wrap64 (s.seq_num_read + 1)) s.seq_num_read s.seq_num_read;
    seq_num_read_bytes =
        by_kind j (wrap64 (s.seq_num_read_bytes + to_u64 j.request_size)) s.seq_num_read_bytes
          s.seq_num_read_bytes;
    seq_num_write = by_kind j s.seq_num_write (wrap64 (s.seq_num_write + 1)) s.seq_num_write;
    seq_num_write_bytes =
        by_kind j s.seq_num_write_bytes (wrap64 (s.seq_num_write_bytes + to_u64 j.request_size))
          s.seq_num_write_bytes;
  }

  unfoldable pub count_started : Job W → Scheduler W → Scheduler W
  count_started j s = record s {
    outstanding_jobs = s.outstanding_jobs +ℤ pos 1;
    outstanding_read_jobs =
        by_kind j (s.outstanding_read_jobs +ℤ pos 1) s.outstanding_read_jobs
          s.outstanding_read_jobs;
    outstanding_read_bytes =
        by_kind j (s.outstanding_read_bytes +ℤ j.request_size) s.outstanding_read_bytes
          s.outstanding_read_bytes;
    outstanding_write_jobs =
        by_kind j s.outstanding_write_jobs (s.outstanding_write_jobs +ℤ pos 1)
          s.outstanding_write_jobs;
    outstanding_write_bytes =
        by_kind j s.outstanding_write_bytes (s.outstanding_write_bytes +ℤ j.request_size)
          s.outstanding_write_bytes;
  }

  unfoldable pub track_priority : Job W → Scheduler W → Scheduler W
  track_priority j s = record s {
    outstanding_priority_list =
        if j.rate_limit_obeyed
        then s.outstanding_priority_list ++ (j ∷ [])
        else s.outstanding_priority_list;
  }

  -- The job as it is released.
  unfoldable pub stamp : Scheduler W → Client W → Job W → ℕ → Job W
  stamp s c j handle = record j {
    rate_limit_obeyed = c.rate_limit_obeyed;
    priority = c.priority;
    seq_num_read = s.seq_num_read;
    seq_num_write = s.seq_num_write;
    seq_num_read_bytes = s.seq_num_read_bytes;
    seq_num_write_bytes = s.seq_num_write_bytes;
    cl = some handle;
  }

module _ {W : Type 0} ⦃d : Double W⦄ where
  -- `RemoveJob` on the scheduler: `rest` is what stands behind the front job `j`.
  unfoldable pub remove_job : ℕ → ℕ → Client W → Job W → List (Job W) → Scheduler W → Scheduler W
  remove_job now addr c j rest s = record s {
    pending_job_count = s.pending_job_count -ℤ pos 1;
    clients = insert addr (without_front now j rest c) s.clients;
  }

  -- From `RemoveJob` to the release of the job.
  unfoldable pub release :
      ℕ → ℕ → Client W → Job W → List (Job W) → List ℕ → Scheduler W → Outcome W
  unfolding track_priority count_started advance_seq stamp remove_job
  release now addr c j rest [] s = aborted
  release now addr c j rest (handle ∷ handles) s =
      let j' = stamp s c j handle in
      if d.le d.nought j.job_size
      then started j'
          (record (count_started j'
            (track_priority j' (advance_seq j (remove_job now addr c j rest s)))) {
              rpc_available_clients = handles;
            })
      else aborted

  unfoldable pub dispatch : ℕ → ℕ → Client W → List (Job W) → Scheduler W → Outcome W
  unfolding release
  dispatch now addr c [] s = aborted
  dispatch now addr c (j ∷ rest) s =
      if ltb_ℤ s.max_outstanding_jobs s.outstanding_jobs
      then aborted
      else if j.immediate
      then release now addr c j rest s.rpc_available_clients
          (record s { max_outstanding_jobs = s.max_outstanding_jobs +ℤ pos 1 })
      else if can_run s c.priority j
      then release now addr c j rest s.rpc_available_clients s
      else idle s

  unfoldable pub dispatch_best :
      ℕ → Option ((ℕ × Client W) × Table ℕ (Client W)) → Scheduler W → Outcome W
  unfolding dispatch
  dispatch_best now none s = aborted
  dispatch_best now (some ((addr, c), m)) s =
      dispatch now addr c c.pending_jobs (record s { clients = m })

  -- The two times are those read by `FindBestClient` and by `RemoveJob`.
  unfoldable pub schedule_job : ℕ → ℕ → Scheduler W → Outcome W
  unfolding dispatch_best
  schedule_job found removed s =
      if ltb_ℤ (pos 0) s.pending_job_count
      then if is_empty s.rpc_available_clients
        then idle s
        else dispatch_best removed (find_best_client found s.clients) s
      else idle s

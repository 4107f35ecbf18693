-- ===== src/Scheduler/Methods.antt =====
-- The public methods of `Scheduler`, and the constructor's state.
use workload_compactor.Base.{
  ℕ, Bool, false, not, ◌&&◌, if◌then◌else◌, List, [], ◌∷◌, ◌++◌, map, select, none, some, length,
  wrap64, sub64, ◌+◌, ◌==◌, is_empty, ℤ, pos, ◌+ℤ◌, ◌-ℤ◌, Double, nat_key,
}
use workload_compactor.Base.Table.{Table, lookup, insert}
use workload_compactor.Scheduler.Types.{
  Job, Client, Scheduler, is_read_request, is_write_request, by_kind,
}

module _ {W : Type 0} where
  unfoldable pub new_scheduler : List ℕ → ℤ → ℤ → ℤ → ℤ → Scheduler W
  new_scheduler handles max_read_bytes max_write_bytes max_read_jobs max_write_jobs = record {
    rpc_available_clients = handles;
    outstanding_priority_list = [];
    seq_num_read = 0;
    seq_num_write = 0;
    seq_num_read_bytes = 0;
    seq_num_write_bytes = 0;
    outstanding_read_bytes = pos 0;
    max_outstanding_read_bytes = max_read_bytes;
    outstanding_write_bytes = pos 0;
    max_outstanding_write_bytes = max_write_bytes;
    outstanding_jobs = pos 0;
    max_outstanding_jobs = max_read_jobs +ℤ max_write_jobs;
    outstanding_read_jobs = pos 0;
    max_outstanding_read_jobs = max_read_jobs;
    outstanding_write_jobs = pos 0;
    max_outstanding_write_jobs = max_write_jobs;
    pending_job_count = pos 0;
    clients = [];
  }

  unfoldable pub new_client : ℕ → Client W
  new_client now = record {
    pending_jobs = [];
    priority = 0;
    rate_limits = [];
    rate_limit_update_time = 0;
    rate_limit_obeyed = false;
    occupancy = 0;
    last_occupancy_time = now;
    get_occupancy_time = now;
  }

  -- The client of an address, created on first use; the caller writes it back.
  unfoldable pub get_client : ℕ → ℕ → Table ℕ (Client W) → Client W
  unfolding new_client
  get_client now addr m = elim (lookup addr m) [ none ↦ new_client now | some c ↦ c ]

  -- `UpdateClient`, given the (rate, burst) pairs: the buckets start full.
  unfoldable pub update_client : ℕ → ℕ → ℕ → List (W × W) → Scheduler W → Scheduler W
  update_client now addr priority limits s =
      let c = get_client now addr s.clients in
      record s {
        clients =
            insert addr
              (record c {
                priority = priority;
                rate_limits = map (λ l. record { rate = l.0; burst = l.1; tokens = l.1 }) limits;
                rate_limit_obeyed = false;
              })
              s.clients;
      }

  -- The time for which the client had jobs waiting, up to `now`.
  unfoldable pub occupancy_time : ℕ → Client W → ℕ
  occupancy_time now c =
      if is_empty c.pending_jobs
      then c.occupancy
      else wrap64 (c.occupancy + sub64 now c.last_occupancy_time)

  unfoldable pub clear_occupancy : ℕ → Client W → Client W
  clear_occupancy now c = record c {
    occupancy = sub64 c.occupancy (occupancy_time now c);
    get_occupancy_time = now;
  }

  unfoldable pub get_num_pending_jobs : ℕ → ℕ → Scheduler W → ℕ × Scheduler W
  get_num_pending_jobs now addr s =
      let c = get_client now addr s.clients in
      (length c.pending_jobs, record s { clients = insert addr c s.clients })

  unfoldable pub remove_outstanding_priority : ℕ → List (Job W) → List (Job W)
  remove_outstanding_priority id [] = []
  remove_outstanding_priority id (j ∷ js) =
      if j.job_id == id then js else j ∷ remove_outstanding_priority id js

  unfoldable pub count_completed : Job W → Scheduler W → Scheduler W
  count_completed j s = record s {
    max_outstanding_jobs =
        if j.immediate then s.max_outstanding_jobs -ℤ pos 1 else s.max_outstanding_jobs;
    outstanding_jobs = s.outstanding_jobs -ℤ pos 1;
    outstanding_read_jobs =
        by_kind j (s.outstanding_read_jobs -ℤ pos 1) s.outstanding_read_jobs
          s.outstanding_read_jobs;
    outstanding_read_bytes =
        by_kind j (s.outstanding_read_bytes -ℤ j.request_size) s.outstanding_read_bytes
          s.outstanding_read_bytes;
    outstanding_write_jobs =
        by_kind j s.outstanding_write_jobs (s.outstanding_write_jobs -ℤ pos 1)
          s.outstanding_write_jobs;
    outstanding_write_bytes =
        by_kind j s.outstanding_write_bytes (s.outstanding_write_bytes -ℤ j.request_size)
          s.outstanding_write_bytes;
  }

  -- The broadcast to waiting threads has no state of its own: a waiting thread may try again at any
  -- time.
  unfoldable pub complete_job : Job W → Scheduler W → Scheduler W
  unfolding count_completed
  complete_job j s = record (count_completed j s) {
    outstanding_priority_list =
        if j.rate_limit_obeyed
        then remove_outstanding_priority j.job_id s.outstanding_priority_list
        else s.outstanding_priority_list;
  }

  -- `handle` is `RPCClient()` of the job.
  unfoldable pub return_client : ℕ → Scheduler W → Scheduler W
  return_client handle s = record s { rpc_available_clients = handle ∷ s.rpc_available_clients }

  -- `ping` is the answer of each RPC client to the NULL request.
  unfoldable pub keep_alive : (ℕ → Bool) → Scheduler W → Scheduler W
  keep_alive ping s = record s { rpc_available_clients = select ping s.rpc_available_clients }

module _ {W : Type 0} ⦃d : Double W⦄ where
  unfoldable pub get_occupancy : ℕ → ℕ → ℕ → Scheduler W → W × Scheduler W
  get_occupancy created now addr s =
      let c = get_client created addr s.clients in
      (
        d.div (d.of_ℕ (occupancy_time now c)) (d.of_ℕ (sub64 now c.get_occupancy_time)),
        record s { clients = insert addr (clear_occupancy now c) s.clients },
      )

module _ {W : Type 0} ⦃d : Double W⦄ (estimate_work : ℤ → Bool → W) where
  unfoldable pub estimate_job_size : Job W → W
  estimate_job_size j =
      if not (is_read_request j) && not (is_write_request j)
      then d.nought
      else estimate_work j.request_size (is_read_request j)

  -- `now` is read first, `created` by a `GetClient` that creates the client.
  unfoldable pub submit_job : ℕ → ℕ → Job W → Scheduler W → Scheduler W
  unfolding estimate_job_size
  submit_job now created j s =
      let c = get_client created j.s_addr s.clients in
      let j' = record j { arrival_time = now; job_size = estimate_job_size j; cl = none } in
      record s {
        pending_job_count = s.pending_job_count +ℤ pos 1;
        clients =
            insert j.s_addr
              (record c {
                pending_jobs = c.pending_jobs ++ (j' ∷ []);
                last_occupancy_time =
                    if is_empty c.pending_jobs then now else c.last_occupancy_time;
              })
              s.clients;
      }

-- ===== src/Scheduler/Types.antt =====
-- The data of src/NFSEnforcer/scheduler.hpp. The RPC payload of a job is left out: the scheduler
-- never reads it. A job's address, by which lists of `Job*` compare, is its `job_id`.
use workload_compactor.Base.{ℕ, ◌==◌, if◌then◌else◌, Bool, Option, List, ℤ}
use workload_compactor.Base.Table.{Table}

-- NFSPROC3_READ and NFSPROC3_WRITE of src/prot/nfs3_prot.x.
abbrev pub nfsproc3_read : ℕ
nfsproc3_read = 6

abbrev pub nfsproc3_write : ℕ
nfsproc3_write = 7

pub record Job (W : Type 0) : Type 0 where
  pub job_id : ℕ
  pub rq_proc : ℕ
  pub s_addr : ℕ
  pub immediate : Bool
  pub request_size : ℤ
  pub arrival_time : ℕ
  pub job_size : W
  pub rate_limit_obeyed : Bool
  pub priority : ℕ
  pub seq_num_read : ℕ
  pub seq_num_write : ℕ
  pub seq_num_read_bytes : ℕ
  pub seq_num_write_bytes : ℕ
  pub cl : Option ℕ

-- One place of the arrays `rateLimitRates`, `rateLimitBursts` and `rateLimitTokens`.
pub record RateLimit (W : Type 0) : Type 0 where
  pub rate : W
  pub burst : W
  pub tokens : W

pub record Client (W : Type 0) : Type 0 where
  pub pending_jobs : List (Job W)
  pub priority : ℕ
  pub rate_limits : List (RateLimit W)
  pub rate_limit_update_time : ℕ
  pub rate_limit_obeyed : Bool
  pub occupancy : ℕ
  pub last_occupancy_time : ℕ
  pub get_occupancy_time : ℕ

-- `rpc_available_clients` has the back of the vector as its head; the other lists begin at the front.
pub record Scheduler (W : Type 0) : Type 0 where
  pub rpc_available_clients : List ℕ
  pub outstanding_priority_list : List (Job W)
  pub seq_num_read : ℕ
  pub seq_num_write : ℕ
  pub seq_num_read_bytes : ℕ
  pub seq_num_write_bytes : ℕ
  pub outstanding_read_bytes : ℤ
  pub max_outstanding_read_bytes : ℤ
  pub outstanding_write_bytes : ℤ
  pub max_outstanding_write_bytes : ℤ
  pub outstanding_jobs : ℤ
  pub max_outstanding_jobs : ℤ
  pub outstanding_read_jobs : ℤ
  pub max_outstanding_read_jobs : ℤ
  pub outstanding_write_jobs : ℤ
  pub max_outstanding_write_jobs : ℤ
  pub pending_job_count : ℤ
  pub clients : Table ℕ (Client W)

module _ {W : Type 0} where
  unfoldable pub is_read_request : Job W → Bool
  is_read_request j = j.rq_proc == nfsproc3_read

  unfoldable pub is_write_request : Job W → Bool
  is_write_request j = j.rq_proc == nfsproc3_write

  -- `if (IsReadRequest()) … else if (IsWriteRequest()) … else …`.
  abbrev pub by_kind {ℓ} : {A : Type ℓ} → Job W → A → A → A → A
  by_kind j on_read on_write on_other =
      if is_read_request j then on_read else if is_write_request j then on_write else on_other

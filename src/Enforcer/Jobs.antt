-- ===== src/Enforcer/Jobs.antt =====
-- src/NFSEnforcer/NFSEnforcer.cpp: what the proxy does with a request, and what a worker thread does with
-- a job. The RPC library's calls are values, in their order.
use workload_compactor.Base.{
  ℕ, ◌==◌, Bool, true, false, not, ◌&&◌, ◌||◌, if◌then◌else◌, List, [], ◌∷◌, ◌++◌, Option, none,
  some, nat_key, Double, ℤ, pos, to_int,
}
use workload_compactor.Base.Table.{Table, lookup, insert, erase}
use workload_compactor.Scheduler.Types.{Job, Scheduler, nfsproc3_read, nfsproc3_write}
use workload_compactor.Scheduler.Methods.{
  complete_job, return_client, get_num_pending_jobs, submit_job,
}
use workload_compactor.Enforcer.Procedures.{XdrProc, codecs_of}
pub mod Replies
pub mod Pool

-- The transport of a request: its address, its socket, and the caller; `xid` is the call that was read
-- last.
pub record Transport : Type 0 where
  pub xprt : ℕ
  pub xp_sock : ℕ
  pub xid : ℕ
  pub s_addr : ℕ

-- What the code reads of decoded arguments: `count` and `offset` of a read or a write.
pub record Arguments : Type 0 where
  pub count : ℕ
  pub offset : ℕ

-- A job with the fields that only the proxy reads.
pub record Request (W : Type 0) : Type 0 where
  pub job : Job W
  pub xdr_argument : XdrProc
  pub xdr_result : XdrProc
  pub xprt : ℕ
  pub fd : ℕ
  pub xid : ℕ
  pub offset : ℕ

-- Replies, and the xid that one is given.
pub data Call : Type 0 where
  reply_void : Call
  error_no_procedure : Call
  error_decode : Call
  set_xid : ℕ → ℕ → Call
  send_reply : ℕ → Call
  error_system : ℕ → Call
  free_arguments : ℕ → Call

unfoldable pub read_or_write : ℕ → Bool
read_or_write rq_proc = (rq_proc == nfsproc3_read) || (rq_proc == nfsproc3_write)

module _ {W : Type 0} ⦃d : Double W⦄ where
  -- `new Job()`.
  unfoldable pub new_job : ℕ → Job W
  new_job job_id = record {
    job_id = job_id;
    rq_proc = 0;
    s_addr = 0;
    immediate = false;
    request_size = pos 0;
    arrival_time = 0;
    job_size = d.nought;
    rate_limit_obeyed = false;
    priority = 0;
    seq_num_read = 0;
    seq_num_write = 0;
    seq_num_read_bytes = 0;
    seq_num_write_bytes = 0;
    cl = none;
  }

  -- The parameters of a job, given its decoded arguments. The count is a `uint32_t`, the size an `int`.
  unfoldable pub fill_job : ℕ → ℕ → Transport → XdrProc × XdrProc → Arguments → Request W
  fill_job job_id rq_proc transp codecs args =
      let sized = read_or_write rq_proc in
      record {
        job = record (new_job job_id) {
          rq_proc = rq_proc;
          s_addr = transp.s_addr;
          immediate = not sized;
          request_size = if sized then to_int args.count else pos 0;
        };
        xdr_argument = codecs.0;
        xdr_result = codecs.1;
        xprt = transp.xprt;
        fd = transp.xp_sock;
        xid = transp.xid;
        offset = if sized then args.offset else 0;
      }

  -- InitJob, with `svc_getargs`, by a codec; the replies, and the job unless it failed.
  unfoldable pub decode_job :
      (XdrProc → Option Arguments)
      → ℕ
      → ℕ
      → Transport
      → Option (XdrProc × XdrProc)
      → List Call × Option (Request W)
  decode_job getargs job_id rq_proc transp none = (error_no_procedure ∷ [], none)
  decode_job getargs job_id rq_proc transp (some codecs) = elim (getargs codecs.0) [
    | none ↦ (error_decode ∷ [], none)
    | some args ↦ ([], some (fill_job job_id rq_proc transp codecs args))
  ]

  unfoldable pub init_job :
      (XdrProc → Option Arguments) → ℕ → ℕ → Transport → List Call × Option (Request W)
  init_job getargs job_id rq_proc transp =
      if rq_proc == 0
      then (reply_void ∷ [], none)
      else decode_job getargs job_id rq_proc transp (codecs_of rq_proc)

-- The scheduler, and the transport that `xprt_cache` holds for each socket.
pub record Enforcer (W : Type 0) : Type 0 where
  pub sched : Scheduler W
  pub xprt_cache : Table ℕ ℕ

-- Whether the transport is the one that is cached for the socket.
unfoldable pub is_cached : ℕ → ℕ → Table ℕ ℕ → Bool
is_cached fd xprt cache = elim (lookup fd cache) [ none ↦ false | some x ↦ x == xprt ]

module _ {W : Type 0} where
  -- RunJob, once the call has returned: whether it succeeded, and whether the reply was sent.
  unfoldable pub replies : Bool → Bool → Request W → List Call
  replies succeeded sent r =
      set_xid r.xprt r.xid
      ∷ (if succeeded
          then send_reply r.xprt ∷ (if sent then [] else error_system r.xprt ∷ [])
            ++ (free_arguments r.xprt ∷ [])
          else error_system r.xprt ∷ [])

  -- `none` is a job with no RPC client, through which the call would be made.
  unfoldable pub run_job :
      ℕ → Bool → Bool → Request W → Enforcer W → Option (List Call × Enforcer W)
  run_job now succeeded sent r e =
      let counted = (get_num_pending_jobs now r.job.s_addr e.sched).1 in
      let completed = complete_job r.job counted in
      let cached = is_cached r.fd r.xprt e.xprt_cache in
      elim r.job.cl [
        | none ↦ none
        | some handle ↦ some (
          if cached then replies succeeded sent r else [],
          record e {
            sched = if cached && not succeeded then completed else return_client handle completed;
          },
        )
      ]

  -- proxy_dispatch_main: a socket with no transport gets the one of the request.
  unfoldable pub cache_xprt : ℕ → ℕ → Enforcer W → Enforcer W
  cache_xprt fd xprt e = elim (lookup fd e.xprt_cache) [
    | none ↦ record e { xprt_cache = insert fd xprt e.xprt_cache }
    | some x ↦ e
  ]

  -- custom_xp_destroy: only the cached transport is taken from its socket.
  unfoldable pub destroy_xprt : ℕ → ℕ → Enforcer W → Enforcer W
  destroy_xprt fd xprt e =
      if is_cached fd xprt e.xprt_cache then record e { xprt_cache = erase fd e.xprt_cache } else e

-- The arguments of `submit_job` are the estimate and the clock's readings.
module _ {W : Type 0} ⦃d : Double W⦄ (estimate_work : ℤ → Bool → W) where
  unfoldable pub proxy_dispatch :
      (XdrProc → Option Arguments) → ℕ → ℕ → ℕ → ℕ → Transport → Enforcer W → List Call × Enforcer W
  proxy_dispatch getargs now created job_id rq_proc transp e =
      let r = init_job getargs job_id rq_proc transp in
      (
        r.0,
        elim r.1 [
          | none ↦ e
          | some j ↦ record e { sched = submit_job estimate_work now created j.job e.sched }
        ],
      )

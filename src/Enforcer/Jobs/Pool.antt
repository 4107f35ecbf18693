-- ===== src/Enforcer/Jobs/Pool.antt =====
-- The pool of RPC clients while requests come in, jobs end, and transports come and go.
use workload_compactor.Base.{
  ℕ, ◌≡◌, Bool, true, false, Option, some, List, [], ◌∷◌, if◌then◌else◌, not, ◌&&◌, ℤ, Double,
  nat_key,
}
use workload_compactor.Scheduler.Methods.{complete_job, return_client, get_num_pending_jobs}
use workload_compactor.Enforcer.Procedures.{XdrProc}
use workload_compactor.Enforcer.Jobs.{
  Transport, Arguments, Request, Call, send_reply, error_system, Enforcer, replies, run_job,
  cache_xprt, destroy_xprt, proxy_dispatch,
}

-- Whether the caller gets an error and no reply: what can be seen of a call that failed.
abbrev pub sends_reply : List Call → Bool
sends_reply [] = false
sends_reply (send_reply x ∷ cs) = true
sends_reply (_ ∷ cs) = sends_reply cs

abbrev pub sends_error : List Call → Bool
sends_error [] = false
sends_error (error_system x ∷ cs) = true
sends_error (_ ∷ cs) = sends_error cs

abbrev pub is_refused : List Call → Bool
is_refused cs = sends_error cs && not (sends_reply cs)

-- The RPC clients of jobs that ended, the last in front, but for those of refused callers.
abbrev pub returned : List (ℕ × List Call) → List ℕ → List ℕ
returned [] pool = pool
returned ((handle, calls) ∷ ended) pool =
    returned ended (if is_refused calls then pool else handle ∷ pool)

module _ {W : Type 0} ⦃d : Double W⦄ (estimate_work : ℤ → Bool → W) where
  -- The proxy's threads at work, in any order; of each job that ends, its RPC client and the calls that
  -- its worker made.
  pub data Serves : Enforcer W → List (ℕ × List Call) → Enforcer W → Type 0 where
    idle : {e : Enforcer W} → Serves e [] e
    dispatches :
        {e t : Enforcer W} {ended : List (ℕ × List Call)} (getargs : XdrProc → Option Arguments)
        (now created job_id rq_proc : ℕ) (transp : Transport)
        → Serves
            (proxy_dispatch estimate_work getargs now created job_id rq_proc transp e).1
            ended
            t
        → Serves e ended t
    connects :
        {e t : Enforcer W} {ended : List (ℕ × List Call)} (fd xprt : ℕ)
        → Serves (cache_xprt fd xprt e) ended t
        → Serves e ended t
    disconnects :
        {e t : Enforcer W} {ended : List (ℕ × List Call)} (fd xprt : ℕ)
        → Serves (destroy_xprt fd xprt e) ended t
        → Serves e ended t
    ends :
        {e u t : Enforcer W} {ended : List (ℕ × List Call)} (now : ℕ) (succeeded sent : Bool)
        (r : Request W) (handle : ℕ) (calls : List Call)
        → r.job.cl ≡ some handle
        → run_job now succeeded sent r e ≡ some (calls, u)
        → Serves u ended t
        → Serves e ((handle, calls) ∷ ended) t

  abbrev pub pool : Enforcer W → List ℕ
  pool e = e.sched.rpc_available_clients

  IsKept : ℕ → Enforcer W → List Call × Enforcer W → Type 0
  IsKept handle e o = pool o.1 ≡ (if is_refused o.0 then pool e else handle ∷ pool e)

  outcome : ℕ → ℕ → Request W → Enforcer W → Bool → Bool → Bool → List Call × Enforcer W
  outcome now handle r e cached succeeded sent =
      let completed = complete_job r.job (get_num_pending_jobs now r.job.s_addr e.sched).1 in
      (
        if cached then replies succeeded sent r else [],
        record e {
          sched = if cached && not succeeded then completed else return_client handle completed;
        },
      )

-- ===== src/Examples/Serving.antt =====
-- The server of src/NFSEnforcer/NFSEnforcer.cpp.
use workload_compactor.Base.{
  ℕ, ◌≡◌, refl, List, [], ◌∷◌, some, none, true, false, Option, units, nat_key, pos, All,
}
use workload_compactor.Scheduler.Types.{Scheduler}
use workload_compactor.Scheduler.Methods.{new_scheduler}
use workload_compactor.Enforcer.Procedures.{read3args, read3res}
use workload_compactor.Enforcer.Jobs.{
  Enforcer, Request, Call, init_job, new_job, run_job, cache_xprt, destroy_xprt, replies,
}
use workload_compactor.Enforcer.Jobs.Replies.{Answered, init_job-Answered}
use workload_compactor.Enforcer.Service.{StorageClient, storage_enforcer_update_svc}
use workload_compactor.Enforcer.Service.Updates.{Follows, storage_enforcer_update_svc-Follows}

abbrev fresh : Scheduler ℕ
fresh = new_scheduler (1 ∷ 2 ∷ []) (pos 9) (pos 9) (pos 2) (pos 2)

-- A read of 4096 bytes.
init_job-Answered_example :
    Answered {W = ℕ}
      (λ x. some (record { count = 4096; offset = 0 }))
      6
      (record { xprt = 1; xp_sock = 4; xid = 77; s_addr = 3 })
      (init_job
        (λ x. some (record { count = 4096; offset = 0 }))
        9
        6
        (record { xprt = 1; xp_sock = 4; xid = 77; s_addr = 3 }))
init_job-Answered_example =
    init_job-Answered (λ x. some (record { count = 4096; offset = 0 })) 9 6
      (record { xprt = 1; xp_sock = 4; xid = 77; s_addr = 3 })

abbrev read_with : ℕ → Request ℕ
read_with handle = record {
  job = record (new_job 9) { cl = some handle };
  xdr_argument = read3args;
  xdr_result = read3res;
  xprt = 1;
  fd = 4;
  xid = 77;
  offset = 0;
}

abbrev server : Enforcer ℕ
server = record { sched = fresh; xprt_cache = [] }

-- A transport connects; a call over it fails, and the next succeeds after it is closed.
abbrev two_ended : List (ℕ × List Call)
two_ended = (7, replies false true (read_with 7)) ∷ (8, []) ∷ []

abbrev or_idle : Option (List Call × Enforcer ℕ) → Enforcer ℕ
or_idle none = server
or_idle (some o) = o.1

abbrev last : Enforcer ℕ
last = or_idle (
    run_job 6 true true (read_with 8)
      (destroy_xprt 4 1 (or_idle (run_job 5 false true (read_with 7) (cache_xprt 4 1 server)))))

abbrev updates : List (StorageClient ℕ)
updates =
    record { s_addr = 3; priority = 1; rate_limit_rates = 5 ∷ []; rate_limit_bursts = 8 ∷ [] }
    ∷ record { s_addr = 4; priority = 0; rate_limit_rates = []; rate_limit_bursts = [] }
    ∷ []

storage_enforcer_update_svc-Follows_example :
    (t : Scheduler ℕ) × (storage_enforcer_update_svc 5 updates fresh ≡ some t)
    × All (λ u. Follows u t) updates
storage_enforcer_update_svc-Follows_example =
    storage_enforcer_update_svc-Follows 5 updates fresh ((refl, tt), (tt, tt)) (refl, (refl, tt))

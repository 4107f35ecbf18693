-- ===== src/Scheduler/Accounting/Steps.antt =====
-- Every interleaving of the scheduler's methods. The threads of the server hold the mutex for one
-- method at a time, so a run is a sequence of such steps.
use workload_compactor.Base.{
  ℕ, ◌≡◌, ◌≢◌, refl, sym, subst, Bool, true, List, [], ◌∷◌, ◌++◌, All, ℤ, pos, ◌+ℤ◌, ◌≤ℤ◌, int_laws,
  Double, nat_key,
}
use workload_compactor.Base.Table.{Table}
use workload_compactor.Scheduler.Types.{Job, Client, Scheduler}
use workload_compactor.Scheduler.Dispatch.{aborted, idle, started, schedule_job}
use workload_compactor.Scheduler.Methods.{
  new_scheduler, update_client, get_occupancy, clear_occupancy, get_num_pending_jobs, complete_job,
  return_client, keep_alive, submit_job, estimate_job_size,
}
use workload_compactor.Scheduler.Accounting.{Queued}
use workload_compactor.Scheduler.Accounting.Counters.{Elsewhere, complete_job-Counts}
use workload_compactor.Scheduler.Accounting.Queues.{same_count-Queued, submit_job-Queued}
use workload_compactor.Scheduler.Accounting.Start.{
  Balanced, KeepsBooks, Counts-queue, schedule_job-KeepsBooks,
}

pub record World (W : Type 0) : Type 0 where
  pub sched : Scheduler W
  pub in_flight : List (Job W)

module _ {W : Type 0} ⦃d : Double W⦄ (estimate_work : ℤ → Bool → W) where
  -- A thread submits a job whose estimate is not negative, asks for a job and gets one or must wait,
  -- completes a job in flight (no other job there has its address), or calls another method.
  pub data Step (w u : World W) : Type 0 where
    submits :
        (now created : ℕ) (j : Job W)
        → d.le d.nought (estimate_job_size estimate_work j) ≡ true
        → u ≡ record w { sched = submit_job estimate_work now created j w.sched }
        → Step w u
    starts :
        (found removed : ℕ) (j : Job W) (s : Scheduler W)
        → schedule_job found removed w.sched ≡ started j s
        → u ≡ record { sched = s; in_flight = w.in_flight ++ (j ∷ []) }
        → Step w u
    waits :
        (found removed : ℕ) (s : Scheduler W)
        → schedule_job found removed w.sched ≡ idle s
        → u ≡ record w { sched = s }
        → Step w u
    completes :
        (older newer : List (Job W)) (j : Job W)
        → w.in_flight ≡ older ++ (j ∷ newer)
        → All (Elsewhere j) older
        → u ≡ record { sched = complete_job j w.sched; in_flight = older ++ newer }
        → Step w u
    returns : (handle : ℕ) → u ≡ record w { sched = return_client handle w.sched } → Step w u
    updates :
        (now addr priority : ℕ) (limits : List (W × W))
        → u ≡ record w { sched = update_client now addr priority limits w.sched }
        → Step w u
    measures :
        (created now addr : ℕ)
        → u ≡ record w { sched = (get_occupancy created now addr w.sched).1 }
        → Step w u
    counts :
        (now addr : ℕ)
        → u ≡ record w { sched = (get_num_pending_jobs now addr w.sched).1 }
        → Step w u
    pings : (ping : ℕ → Bool) → u ≡ record w { sched = keep_alive ping w.sched } → Step w u

  -- The states that some sequence of steps leads to.
  pub data Reach (w : World W) : World W → Type 0 where
    here : Reach w w
    next : {t u : World W} → Reach w t → Step t u → Reach w u

  abbrev IsBalanced : World W → Type 0
  IsBalanced w = Balanced w.sched w.in_flight

  -- A method that touches the waiting jobs and the RPC clients only.
  queue_step :
      (s : Scheduler W) (pending : ℤ) (m : Table ℕ (Client W)) (handles : List ℕ)
      (fl : List (Job W))
      → Balanced s fl
      → Queued (record s { pending_job_count = pending; clients = m })
      → Balanced
          (record s { pending_job_count = pending; clients = m; rpc_available_clients = handles })
          fl
  queue_step s pending m handles fl b q = record {
    counts = Counts-queue s pending m handles fl b.counts;
    queued = record { pending = q.pending; distinct = q.distinct; sized = q.sized };
  }

  complete_job-Balanced :
      (s : Scheduler W) (older newer : List (Job W)) (j : Job W)
      → All (Elsewhere j) older
      → Balanced s (older ++ (j ∷ newer))
      → Balanced (complete_job j s) (older ++ newer)
  unfolding complete_job
  complete_job-Balanced s older newer j other b = record {
    counts = complete_job-Counts s older newer j other b.counts;
    queued = record {
      pending = b.queued.pending;
      distinct = b.queued.distinct;
      sized = b.queued.sized;
    };
  }

  Step-IsBalanced : (w u : World W) → Step w u → IsBalanced w → IsBalanced u
  unfolding return_client update_client get_occupancy get_num_pending_jobs keep_alive
      clear_occupancy submit_job
  Step-IsBalanced w u (submits now created j size e) b = subst IsBalanced (sym e) (
      queue_step w.sched _ _ w.sched.rpc_available_clients w.in_flight b
        (submit_job-Queued estimate_work now created j w.sched size b.queued))
  Step-IsBalanced w u (starts found removed j s h e) b = subst IsBalanced (sym e) (
      subst (KeepsBooks w.in_flight) h
        (schedule_job-KeepsBooks found removed w.sched w.in_flight b))
  Step-IsBalanced w u (waits found removed s h e) b = subst IsBalanced (sym e) (
      subst (KeepsBooks w.in_flight) h
        (schedule_job-KeepsBooks found removed w.sched w.in_flight b))
  Step-IsBalanced w u (completes older newer j h other e) b =
      subst IsBalanced (sym e)
        (complete_job-Balanced w.sched older newer j other (subst (Balanced w.sched) h b))
  Step-IsBalanced w u (returns handle e) b =
      subst IsBalanced (sym e)
        (queue_step w.sched _ _ (handle ∷ w.sched.rpc_available_clients) w.in_flight b b.queued)
  Step-IsBalanced w u (updates now addr priority limits e) b = subst IsBalanced (sym e) (
      queue_step w.sched _ _ w.sched.rpc_available_clients w.in_flight b
        (same_count-Queued now addr _ w.sched b.queued refl))
  Step-IsBalanced w u (measures created now addr e) b = subst IsBalanced (sym e) (
      queue_step w.sched _ _ w.sched.rpc_available_clients w.in_flight b
        (same_count-Queued created addr _ w.sched b.queued refl))
  Step-IsBalanced w u (counts now addr e) b = subst IsBalanced (sym e) (
      queue_step w.sched _ _ w.sched.rpc_available_clients w.in_flight b
        (same_count-Queued now addr _ w.sched b.queued refl))
  Step-IsBalanced w u (pings ping e) b =
      subst IsBalanced (sym e) (queue_step w.sched _ _ _ w.in_flight b b.queued)

  Reach-IsBalanced : (w u : World W) → Reach w u → IsBalanced w → IsBalanced u
  Reach-IsBalanced w u here b = b
  Reach-IsBalanced w u (next {t} r st) b = Step-IsBalanced t u st (Reach-IsBalanced w t r b)

  abbrev pub fresh : List ℕ → ℤ → ℤ → ℤ → ℤ → World W
  fresh handles read_bytes write_bytes read_jobs write_jobs = record {
    sched = new_scheduler handles read_bytes write_bytes read_jobs write_jobs;
    in_flight = [];
  }

  fresh-IsBalanced :
      (handles : List ℕ) (read_bytes write_bytes read_jobs write_jobs : ℤ)
      → pos 0 ≤ℤ read_jobs +ℤ write_jobs
      → IsBalanced (fresh handles read_bytes write_bytes read_jobs write_jobs)
  unfolding new_scheduler
  fresh-IsBalanced handles read_bytes write_bytes read_jobs write_jobs h = record {
    counts = record {
      jobs = refl;
      read_jobs = refl;
      read_bytes = refl;
      write_jobs = refl;
      write_bytes = refl;
      limit = omega int_laws;
      within = h;
      tracked = refl;
    };
    queued = record { pending = refl; distinct = tt; sized = tt };
  }

  -- From a new scheduler whose job limits are not negative in sum, in every state that the threads
  -- can reach (by steps that submit no job with a negative estimate, and complete a job of whose
  -- address no older one is in flight), the counters of outstanding jobs and bytes, the list of
  -- tracked jobs and the count of waiting jobs are those of the jobs in flight and waiting, and
  -- `ScheduleJob` does not abort.
  pub Reach-Balanced :
      (handles : List ℕ) (read_bytes write_bytes read_jobs write_jobs : ℤ) (u : World W)
      → pos 0 ≤ℤ read_jobs +ℤ write_jobs
      → Reach (fresh handles read_bytes write_bytes read_jobs write_jobs) u
      → Balanced u.sched u.in_flight
        × ((found removed : ℕ) → schedule_job found removed u.sched ≢ aborted)
  Reach-Balanced handles read_bytes write_bytes read_jobs write_jobs u h r =
      let b =
        Reach-IsBalanced _ u r
          (fresh-IsBalanced handles read_bytes write_bytes read_jobs write_jobs h) in
      (
        b,
        λ found removed e.
            subst (KeepsBooks u.in_flight) e
              (schedule_job-KeepsBooks found removed u.sched u.in_flight b),
      )

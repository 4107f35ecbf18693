-- ===== src/Scheduler/Accounting/Start.antt =====
-- `ScheduleJob` against the books: it never aborts, and the job that it starts is entered.
use mathlib.Core.Bool.{true≢false}
use workload_compactor.Base.{
  ℕ, ◌≡◌, ◌≢◌, refl, sym, ap, subst, ◌∙◌, true, false, if◌then◌else◌, List, [], ◌∷◌, ◌++◌, some,
  All, arith, ℤ, pos, ◌+ℤ◌, ltb_ℤ, Double, nat_key, Bool-cases, Option-cases, is_empty, inl, inr,
}
use workload_compactor.Base.Table.{Table, lookup}
use workload_compactor.Base.Table.Distinct.{IsDistinct, lookup_of_Elem}
use workload_compactor.Base.Table.Total.{total, AllValues, lookup-AllValues}
use workload_compactor.Scheduler.Types.{Job, Client, Scheduler}
use workload_compactor.Scheduler.Choice.{find_best_client}
use workload_compactor.Scheduler.Choice.Order.{find_best_client-none, find_best_client-optimal}
use workload_compactor.Scheduler.Dispatch.{
  Outcome, aborted, idle, started, can_run, stamp, remove_job, release, dispatch, dispatch_best,
  schedule_job,
}
use workload_compactor.Scheduler.Accounting.{waiting, HasSize, Counts, Queued}
use workload_compactor.Scheduler.Accounting.Counters.{count_started-Counts}
use workload_compactor.Scheduler.Accounting.Queues.{
  IsSized, total-waiting_zero, total-update_all, update_all-IsDistinct, update_all-IsSized,
  remove_job-Queued,
}

is_empty-false : (l : List ℕ) → is_empty l ≡ false → l ≢ []
is_empty-false l h = ground arith

module _ {W : Type 0} ⦃d : Double W⦄ where
  pub record Balanced (s : Scheduler W) (in_flight : List (Job W)) : Type 0 where
    pub counts : Counts s in_flight
    pub queued : Queued s

  -- The counters do not read the waiting jobs or the RPC clients.
  pub Counts-queue :
      (s : Scheduler W) (pending : ℤ) (m : Table ℕ (Client W)) (handles : List ℕ)
      (fl : List (Job W))
      → Counts s fl
      → Counts
          (record s { pending_job_count = pending; clients = m; rpc_available_clients = handles })
          fl
  Counts-queue s pending m handles fl c = record {
    jobs = c.jobs;
    read_jobs = c.read_jobs;
    read_bytes = c.read_bytes;
    write_jobs = c.write_jobs;
    write_bytes = c.write_bytes;
    limit = c.limit;
    within = c.within;
    tracked = c.tracked;
  }

  -- A method that starts a job keeps the books with that job added to those in flight.
  abbrev pub KeepsBooks : List (Job W) → Outcome W → Type 0
  KeepsBooks in_flight aborted = ⊥
  KeepsBooks in_flight (idle s) = Balanced s in_flight
  KeepsBooks in_flight (started j s) = Balanced s (in_flight ++ (j ∷ []))

  -- An immediate job raises the limit on outstanding jobs.
  abbrev raise_limit : Job W → Scheduler W → Scheduler W
  raise_limit j s = record s {
    max_outstanding_jobs =
        if j.immediate then s.max_outstanding_jobs +ℤ pos 1 else s.max_outstanding_jobs;
  }

  front-HasSize :
      (addr : ℕ) (c : Client W) (j : Job W) (rest : List (Job W)) (s : Scheduler W)
      → Queued s
      → lookup addr s.clients ≡ some c
      → c.pending_jobs ≡ j ∷ rest
      → HasSize j
  front-HasSize addr c j rest s q e front =
      (subst (All HasSize) front (lookup-AllValues IsSized addr c s.clients q.sized e)).0

  release-KeepsBooks :
      (now addr : ℕ) (c : Client W) (j : Job W) (rest : List (Job W)) (handles : List ℕ)
      (s : Scheduler W) (fl : List (Job W))
      → handles ≢ []
      → Balanced s fl
      → lookup addr s.clients ≡ some c
      → c.pending_jobs ≡ j ∷ rest
      → (j.immediate ≡ false → ltb_ℤ s.outstanding_jobs s.max_outstanding_jobs ≡ true)
      → KeepsBooks fl (release now addr c j rest handles (raise_limit j s))
  unfolding release remove_job
  release-KeepsBooks now addr c j rest [] s fl h b e front free = absurd (h refl)
  release-KeepsBooks now addr c j rest (handle ∷ handles) s fl h b e front free =
      let raised = raise_limit j s in
      let k = count_started-Counts s (stamp raised c j handle) fl b.counts free in
      let q = remove_job-Queued now addr c j rest s b.queued e front in
      rw (front-HasSize addr c j rest s b.queued e front) (record {
        counts = record {
          jobs = k.jobs;
          read_jobs = k.read_jobs;
          read_bytes = k.read_bytes;
          write_jobs = k.write_jobs;
          write_bytes = k.write_bytes;
          limit = k.limit;
          within = k.within;
          tracked = k.tracked;
        };
        queued = record { pending = q.pending; distinct = q.distinct; sized = q.sized };
      })

  below_limit :
      (s : Scheduler W) (fl : List (Job W))
      → Counts s fl
      → ltb_ℤ s.max_outstanding_jobs s.outstanding_jobs ≡ false
  below_limit s fl c = ground (arith, c.within)

  can_run_free :
      (s : Scheduler W) (priority : ℕ) (j : Job W)
      → can_run s priority j ≡ true
      → ltb_ℤ s.outstanding_jobs s.max_outstanding_jobs ≡ true
  unfolding can_run
  can_run_free s priority j h = ground arith

  dispatch-KeepsBooks :
      (now addr : ℕ) (c : Client W) (js : List (Job W)) (s : Scheduler W) (fl : List (Job W))
      → s.rpc_available_clients ≢ []
      → Balanced s fl
      → lookup addr s.clients ≡ some c
      → c.pending_jobs ≡ js
      → js ≢ []
      → KeepsBooks fl (dispatch now addr c js s)
  unfolding dispatch
  dispatch-KeepsBooks now addr c [] s fl h b e front more = absurd (more refl)
  dispatch-KeepsBooks now addr c (j ∷ rest) s fl h b e front more =
      let go = release-KeepsBooks now addr c j rest s.rpc_available_clients s fl h b e front in
      rw (below_limit s fl b.counts) (elim (Bool-cases j.immediate) [
        | inl i ↦ rw i (rw i at (go (λ f. absurd (true≢false (sym i ∙ f)))))
        | inr i ↦ elim (Bool-cases (can_run s c.priority j)) [
          | inl r ↦ rw (r, i) (rw i at (go (λ f. can_run_free s c.priority j r)))
          | inr r ↦ rw (r, i) b
        ]
      ])

  best-KeepsBooks :
      (found removed addr : ℕ) (c : Client W) (m : Table ℕ (Client W)) (s : Scheduler W)
      (fl : List (Job W))
      → s.rpc_available_clients ≢ []
      → Balanced s fl
      → ltb_ℤ (pos 0) s.pending_job_count ≡ true
      → find_best_client found s.clients ≡ some ((addr, c), m)
      → KeepsBooks fl (dispatch removed addr c c.pending_jobs (record s { clients = m }))
  best-KeepsBooks found removed addr c m s fl h b p e =
      let (same, member, best) = find_best_client-optimal found s.clients m (addr, c) e in
      let count : total waiting m ≡ total waiting s.clients =
        ap (total waiting) same ∙ total-update_all found s.clients in
      let distinct : IsDistinct m =
        subst IsDistinct (sym same) (update_all-IsDistinct found s.clients b.queued.distinct) in
      dispatch-KeepsBooks removed addr c c.pending_jobs (record s { clients = m }) fl h
        (record {
          counts = Counts-queue s s.pending_job_count m s.rpc_available_clients fl b.counts;
          queued = record {
            pending = b.queued.pending ∙ ap pos (sym count);
            distinct = distinct;
            sized =
                subst (AllValues IsSized) (sym same)
                  (update_all-IsSized found s.clients b.queued.sized);
          };
        })
        (lookup_of_Elem addr c m distinct member) refl
        (λ none_left.
          ground (arith, total-waiting_zero c m none_left best, count, b.queued.pending, p))

  some_client :
      (found removed : ℕ) (s : Scheduler W) (fl : List (Job W))
      → Balanced s fl
      → ltb_ℤ (pos 0) s.pending_job_count ≡ true
      → s.rpc_available_clients ≢ []
      → KeepsBooks fl (dispatch_best removed (find_best_client found s.clients) s)
  unfolding dispatch_best
  some_client found removed s fl b p h = elim (Option-cases (find_best_client found s.clients)) [
    | inl e ↦
        ground
          (arith, ap (total waiting) (find_best_client-none found s.clients e), b.queued.pending)
    | inr (((addr, c), m), e) ↦ rw e (best-KeepsBooks found removed addr c m s fl h b p e)
  ]

  -- `ScheduleJob` on balanced books never fails an assertion or reads the front of an empty list,
  -- and leaves the books balanced, with the job that it starts in flight.
  pub schedule_job-KeepsBooks :
      (found removed : ℕ) (s : Scheduler W) (in_flight : List (Job W))
      → Balanced s in_flight
      → KeepsBooks in_flight (schedule_job found removed s)
  unfolding schedule_job
  schedule_job-KeepsBooks found removed s fl b =
      elim (Bool-cases (ltb_ℤ (pos 0) s.pending_job_count)) [
        | inr p ↦ rw p b
        | inl p ↦ elim (Bool-cases (is_empty s.rpc_available_clients)) [
          | inl e ↦ rw (p, e) b
          | inr e ↦ rw (p, e) (some_client found removed s fl b p (is_empty-false _ e))
        ]
      ]

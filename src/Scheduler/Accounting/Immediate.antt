-- ===== src/Scheduler/Accounting/Immediate.antt =====
-- `ScheduleJob` does not leave an immediate job waiting: no limit holds it back.
use workload_compactor.Base.{
  ℕ, if◌then◌else◌, suc, ◌+ℤ◌, ◌≤◌, ◌≡◌, refl, sym, ap, ◌∙◌, subst, Bool, true, false, Bool-cases,
  Option-cases, inl, inr, List, [], ◌∷◌, some, All-elem, Elem, arith, length, pos, ltb_ℤ, is_empty,
  Double, nat_key, ==_iff, ◌==◌,
}
use workload_compactor.Base.Table.{Table, lookup}
use workload_compactor.Base.Table.Total.{total}
use workload_compactor.Scheduler.Types.{Job, Client, Scheduler}
use workload_compactor.Scheduler.Tokens.{update_tokens}
use workload_compactor.Scheduler.Choice.{
  prefer_1, find_best_client, update_all, prefers, compare_client, compare_fronts, compare_jobs,
}
use workload_compactor.Scheduler.Choice.Order.{
  NotBeaten, find_best_client-none, find_best_client-optimal,
}
use workload_compactor.Scheduler.Dispatch.{
  Outcome, aborted, idle, started, stamp, release, can_run, dispatch, dispatch_best, schedule_job,
}
use workload_compactor.Scheduler.Accounting.{waiting}
use workload_compactor.Scheduler.Accounting.Start.{Balanced, KeepsBooks, schedule_job-KeepsBooks}
use workload_compactor.Scheduler.Accounting.Queues.{pending_jobs-update_tokens}

module _ {W : Type 0} where
  -- An immediate job is first in the client's queue.
  abbrev pub HasImmediate : Client W → Type 0
  HasImmediate c =
      (j : Job W) × (rest : List (Job W)) × (c.pending_jobs ≡ j ∷ rest) × (j.immediate ≡ true)

  fronts_immediate :
      (b c : Client W) (ps qs : List (Job W)) (j : Job W) (rest : List (Job W))
      → ps ≡ j ∷ rest
      → j.immediate ≡ true
      → ¬ (compare_fronts c b ps qs ≡ prefer_1)
      → (k : Job W) × (more : List (Job W)) × (qs ≡ k ∷ more) × (k.immediate ≡ true)
  unfolding compare_fronts compare_jobs
  fronts_immediate b c [] qs j rest e i n = cc
  fronts_immediate b c (p ∷ ps) [] j rest e i n = elim (n refl) [ ]
  fronts_immediate b c (p ∷ ps) (q ∷ qs) j rest e i n =
      let first : p.immediate ≡ true = ap front_immediate e ∙ i in
      elim (Bool-cases q.immediate) [
        | inl h ↦ (q, qs, refl, h)
        | inr h ↦ elim (n (rw (first, h) refl)) [ ]
      ]
    where
      front_immediate : List (Job W) → Bool
      front_immediate [] = true
      front_immediate (x ∷ xs) = x.immediate

  NotBeaten-immediate :
      (a : ℕ) (b c : Client W) → NotBeaten b (a, c) → HasImmediate c → HasImmediate b
  unfolding prefers compare_client
  NotBeaten-immediate a b c h (j, rest, e, i) =
      fronts_immediate b c c.pending_jobs b.pending_jobs j rest e i (λ p. ground (arith, h, p))

  total-lookup :
      (a : ℕ) (c : Client W) (m : Table ℕ (Client W))
      → lookup a m ≡ some c
      → length c.pending_jobs ≤ total waiting m
  unfolding lookup
  total-lookup a c [] e = cc
  total-lookup a c ((k, b) ∷ m) e = elim (Bool-cases (k == a)) [
    | inl h ↦
        let same : b ≡ c = ground (arith, e, h) in
        let size : length b.pending_jobs ≡ length c.pending_jobs =
          ap (λ (x : Client W). length x.pending_jobs) same in
        omega (arith, size)
    | inr h ↦
        let rest : lookup a m ≡ some c = ground (arith, e, h) in
        omega (arith, total-lookup a c m rest)
  ]

module _ {W : Type 0} ⦃d : Double W⦄ where
  update_all-lookup :
      (now a : ℕ) (c : Client W) (m : Table ℕ (Client W))
      → lookup a m ≡ some c
      → Elem (a, update_tokens now c) (update_all now m)
  unfolding lookup update_all
  update_all-lookup now a c [] e = cc
  update_all-lookup now a c ((k, b) ∷ m) e = elim (Bool-cases (k == a)) [
    | inl h ↦
        let same : b ≡ c = ground (arith, e, h) in
        inl (
          ap (λ x. (x, update_tokens now c)) (sym ((==_iff k a).0 h))
          ∙ ap (λ x. (k, update_tokens now x)) (sym same))
    | inr h ↦
        let rest : lookup a m ≡ some c = ground (arith, e, h) in
        inr (update_all-lookup now a c m rest)
  ]

  -- An immediate job has been started.
  abbrev pub Starts : Outcome W → Type 0
  Starts aborted = ⊥
  Starts (idle s) = ⊥
  Starts (started j s) = j.immediate ≡ true

  release-Starts :
      (now addr : ℕ) (c : Client W) (j : Job W) (rest : List (Job W)) (handles : List ℕ)
      (s : Scheduler W) (fl : List (Job W))
      → j.immediate ≡ true
      → KeepsBooks fl (release now addr c j rest handles s)
      → Starts (release now addr c j rest handles s)
  unfolding release stamp
  release-Starts now addr c j rest [] s fl i k = k
  release-Starts now addr c j rest (handle ∷ handles) s fl i k =
      elim (Bool-cases (d.le d.nought j.job_size)) [ inl e ↦ rw e i | inr e ↦ rw e (rw e at k) ]

  dispatch-Starts :
      (now addr : ℕ) (c : Client W) (j : Job W) (rest : List (Job W)) (s : Scheduler W)
      (fl : List (Job W))
      → j.immediate ≡ true
      → KeepsBooks fl (dispatch now addr c (j ∷ rest) s)
      → Starts (dispatch now addr c (j ∷ rest) s)
  unfolding dispatch
  dispatch-Starts now addr c j rest s fl i k =
      let raised : Scheduler W = record s {
        max_outstanding_jobs = s.max_outstanding_jobs +ℤ pos 1;
      } in
      elim (Bool-cases (ltb_ℤ s.max_outstanding_jobs s.outstanding_jobs)) [
        | inl e ↦ rw e (rw e at k)
        | inr e ↦
            let out = release now addr c j rest s.rpc_available_clients raised in
            let other =
              if can_run s c.priority j
              then release now addr c j rest s.rpc_available_clients s
              else idle s in
            let run : dispatch now addr c (j ∷ rest) s ≡ out =
              ap (λ b. if b then aborted else if j.immediate then out else other) e
              ∙ ap (λ b. if b then out else other) i in
            subst Starts (sym run) (
              release-Starts now addr c j rest s.rpc_available_clients raised fl i
                (subst (KeepsBooks fl) run k))
      ]

  -- On balanced books, with an RPC client free, and an immediate job first in some client's queue:
  -- `ScheduleJob` starts an immediate job, whatever the limits.
  pub schedule_job-Starts :
      (found removed : ℕ) (s : Scheduler W) (in_flight : List (Job W)) (a : ℕ) (c : Client W)
      → Balanced s in_flight
      → is_empty s.rpc_available_clients ≡ false
      → lookup a s.clients ≡ some c
      → HasImmediate c
      → Starts (schedule_job found removed s)
  unfolding schedule_job dispatch_best
  schedule_job-Starts found removed s fl a c b free at (j, rest, front, i) =
      let many = total-lookup a c s.clients at in
      let one : length c.pending_jobs ≡ suc (length rest) = ap length front in
      let waits : ltb_ℤ (pos 0) s.pending_job_count ≡ true =
        ground (arith, many, one, b.queued.pending) in
      let books = schedule_job-KeepsBooks found removed s fl b in
      elim (Option-cases (find_best_client found s.clients)) [
        | inl e ↦
            ground (arith, ap (total waiting) (find_best_client-none found s.clients e), many, one)
        | inr (((addr, best), m), e) ↦
            let (same, member, unbeaten) =
              find_best_client-optimal found s.clients m (addr, best) e in
            let here : Elem (a, update_tokens found c) m =
              subst (Elem (a, update_tokens found c)) (sym same)
                (update_all-lookup found a c s.clients at) in
            let (k, more, first, quick) =
              NotBeaten-immediate a best (update_tokens found c)
                (All-elem (NotBeaten best) (a, update_tokens found c) m here unbeaten)
                (j, rest, pending_jobs-update_tokens found c ∙ front, i) in
            let t : Scheduler W = record s { clients = m } in
            let run : schedule_job found removed s ≡ dispatch removed addr best (k ∷ more) t =
              rw (waits, free, e, schedule_job)
                (ap (λ js. dispatch removed addr best js t) first) in
            subst Starts (sym run) (
              dispatch-Starts removed addr best k more t fl quick (subst (KeepsBooks fl) run books))
      ]

-- ===== src/Scheduler/Accounting/Counters.antt =====
-- The counters of outstanding jobs and bytes as jobs are released and completed.
use mathlib.Core.List.{append-nil}
use native.Mathlib.Nat.{add-zero}
use native.Mathlib.Numerals.{add-one}
use workload_compactor.Base.{
  ◌+◌, ◌≡◌, ap, Bool, true, false, if◌then◌else◌, List, [], ◌∷◌, ◌++◌, select, length-append,
  select-append, All, arith, ◌==◌, ℤ, pos, ◌+ℤ◌, ◌-ℤ◌, int_laws, ltb_ℤ, pos_part, neg_part,
  Bool-cases, ltb→lt, inl, inr, pos_suc, ◌∙◌,
}
use workload_compactor.Scheduler.Types.{Job, Scheduler, is_read_request, is_write_request, by_kind}
use workload_compactor.Scheduler.Dispatch.{count_started, track_priority}
use workload_compactor.Scheduler.Methods.{complete_job, remove_outstanding_priority}
use workload_compactor.Scheduler.Accounting.{tally, bytes, is_immediate, is_tracked, Counts}

module _ {W : Type 0} where
  tally-append :
      (p : Job W → Bool) (xs ys : List (Job W)) → tally p (xs ++ ys) ≡ tally p xs + tally p ys
  tally-append p xs ys = rw (select-append p xs ys) (length-append (select p xs) (select p ys))

  bytes-append :
      (p : Job W → Bool) (xs ys : List (Job W)) → bytes p (xs ++ ys) ≡ bytes p xs +ℤ bytes p ys
  bytes-append p [] ys = omega int_laws
  bytes-append p (x ∷ xs) ys = elim (Bool-cases (p x)) [
    | inl h ↦
        rw h
          (omega (int_laws, ap pos_part (bytes-append p xs ys), ap neg_part (bytes-append p xs ys)))
    | inr h ↦ rw h (bytes-append p xs ys)
  ]

  -- One more number in flight, of a job that passes the test or not.
  tally-snoc :
      (p : Job W → Bool) (xs : List (Job W)) (j : Job W) (n : ℤ)
      → n ≡ pos (tally p xs)
      → (if p j then n +ℤ pos 1 else n) ≡ pos (tally p (xs ++ (j ∷ [])))
  tally-snoc p xs j n h = rw h (
      ground (
        arith,
        tally-append p xs (j ∷ []),
        pos_suc (tally p xs),
        add-one (tally p xs),
        add-zero (tally p xs),
      ))

  bytes-snoc :
      (p : Job W → Bool) (xs : List (Job W)) (j : Job W) (n : ℤ)
      → n ≡ bytes p xs
      → (if p j then n +ℤ j.request_size else n) ≡ bytes p (xs ++ (j ∷ []))
  bytes-snoc p xs j n h =
      rw (h, bytes-append p xs (j ∷ []))
        (elim (Bool-cases (p j)) [ inl e ↦ rw e (omega int_laws) | inr e ↦ rw e (omega int_laws) ])

  by_write {ℓ} :
      {A : Type ℓ} (j : Job W) (a b : A) → by_kind j b a b ≡ (if is_write_request j then a else b)
  unfolding is_read_request is_write_request
  by_write j a b = ground arith

  by_read {ℓ} :
      {A : Type ℓ} (j : Job W) (a b : A) → by_kind j a b b ≡ (if is_read_request j then a else b)
  unfolding is_read_request is_write_request
  by_read j a b = ground arith

  tracked-snoc :
      (xs : List (Job W)) (j : Job W)
      → (if is_tracked j then select is_tracked xs ++ (j ∷ []) else select is_tracked xs)
        ≡ select is_tracked (xs ++ (j ∷ []))
  tracked-snoc xs j =
      rw (select-append is_tracked xs (j ∷ [])) (elim (Bool-cases j.rate_limit_obeyed) [
        | inl e ↦ rw e
        | inr e ↦ rw (e, append-nil (select is_tracked xs))
      ])

  tally-middle :
      (p : Job W → Bool) (xs ys : List (Job W)) (j : Job W) (n : ℤ)
      → n ≡ pos (tally p (xs ++ (j ∷ ys)))
      → (if p j then n -ℤ pos 1 else n) ≡ pos (tally p (xs ++ ys))
  tally-middle p xs ys j n h =
      rw (h, tally-append p xs (j ∷ ys), tally-append p xs ys)
        (elim (Bool-cases (p j)) [ inl e ↦ rw e (omega int_laws) | inr e ↦ rw e ])

  bytes-middle :
      (p : Job W → Bool) (xs ys : List (Job W)) (j : Job W) (n : ℤ)
      → n ≡ bytes p (xs ++ (j ∷ ys))
      → (if p j then n -ℤ j.request_size else n) ≡ bytes p (xs ++ ys)
  bytes-middle p xs ys j n h =
      rw (h, bytes-append p xs (j ∷ ys), bytes-append p xs ys)
        (elim (Bool-cases (p j)) [ inl e ↦ rw e (omega int_laws) | inr e ↦ rw e ])

  limit-snoc :
      (base : ℤ) (xs : List (Job W)) (j : Job W)
      → let before = base +ℤ pos (tally is_immediate xs) in
        (if j.immediate then before +ℤ pos 1 else before)
        ≡ base +ℤ pos (tally is_immediate (xs ++ (j ∷ [])))
  limit-snoc base xs j = rw (tally-append is_immediate xs (j ∷ [])) (elim (Bool-cases j.immediate) [
    | inl e ↦ rw e (omega int_laws)
    | inr e ↦ rw e (omega int_laws)
  ])

  limit-middle :
      (base : ℤ) (xs ys : List (Job W)) (j : Job W)
      → let before = base +ℤ pos (tally is_immediate (xs ++ (j ∷ ys))) in
        (if j.immediate then before -ℤ pos 1 else before)
        ≡ base +ℤ pos (tally is_immediate (xs ++ ys))
  limit-middle base xs ys j =
      rw (tally-append is_immediate xs (j ∷ ys), tally-append is_immediate xs ys)
        (elim (Bool-cases j.immediate) [ inl e ↦ rw e (omega int_laws) | inr e ↦ rw e ])

  abbrev pub Elsewhere : Job W → Job W → Type 0
  Elsewhere j x = (x.job_id == j.job_id) ≡ false

  -- The entry of a job is the first with its address.
  tracked-middle :
      (xs ys : List (Job W)) (j : Job W)
      → All (Elsewhere j) xs
      → (if j.rate_limit_obeyed
          then remove_outstanding_priority j.job_id (select is_tracked (xs ++ (j ∷ ys)))
          else select is_tracked (xs ++ (j ∷ ys)))
        ≡ select is_tracked (xs ++ ys)
  unfolding remove_outstanding_priority
  tracked-middle [] ys j h = ground arith
  tracked-middle (x ∷ xs) ys j h = ground (arith, tracked-middle xs ys j h.1)

  -- `CompleteJob` on a job in flight.
  pub complete_job-Counts :
      (s : Scheduler W) (xs ys : List (Job W)) (j : Job W)
      → All (Elsewhere j) xs
      → Counts s (xs ++ (j ∷ ys))
      → Counts (complete_job j s) (xs ++ ys)
  unfolding complete_job
  complete_job-Counts s xs ys j e c = record {
    jobs = rw (c.jobs, length-append xs (j ∷ ys), length-append xs ys) (omega int_laws);
    read_jobs = by_read j _ _ ∙ tally-middle is_read_request xs ys j _ c.read_jobs;
    read_bytes = by_read j _ _ ∙ bytes-middle is_read_request xs ys j _ c.read_bytes;
    write_jobs = by_write j _ _ ∙ tally-middle is_write_request xs ys j _ c.write_jobs;
    write_bytes = by_write j _ _ ∙ bytes-middle is_write_request xs ys j _ c.write_bytes;
    limit = rw c.limit (limit-middle _ xs ys j);
    within = elim (Bool-cases j.immediate) [
      | inl i ↦ rw i (omega (int_laws, c.within))
      | inr i ↦ rw i (omega (int_laws, c.within))
    ];
    tracked = rw c.tracked (tracked-middle xs ys j e);
  }

  -- A job that is released, with `limit` the limit on outstanding jobs before it.
  pub count_started-Counts :
      (s : Scheduler W) (j : Job W) (fl : List (Job W))
      → Counts s fl
      → (j.immediate ≡ false → ltb_ℤ s.outstanding_jobs s.max_outstanding_jobs ≡ true)
      → Counts
          (count_started j (
            track_priority j (record s {
              max_outstanding_jobs =
                  if j.immediate then s.max_outstanding_jobs +ℤ pos 1 else s.max_outstanding_jobs;
            })))
          (fl ++ (j ∷ []))
  unfolding count_started track_priority
  count_started-Counts s j fl c h = record {
    jobs = rw (c.jobs, length-append fl (j ∷ [])) (omega int_laws);
    read_jobs = by_read j _ _ ∙ tally-snoc is_read_request fl j _ c.read_jobs;
    read_bytes = by_read j _ _ ∙ bytes-snoc is_read_request fl j _ c.read_bytes;
    write_jobs = by_write j _ _ ∙ tally-snoc is_write_request fl j _ c.write_jobs;
    write_bytes = by_write j _ _ ∙ bytes-snoc is_write_request fl j _ c.write_bytes;
    limit = rw c.limit (limit-snoc _ fl j);
    within = elim (Bool-cases j.immediate) [
      | inl i ↦ rw i (omega (int_laws, c.within))
      | inr i ↦ rw i (omega (int_laws, ltb→lt _ _ (h i)))
    ];
    tracked = rw c.tracked (tracked-snoc fl j);
  }

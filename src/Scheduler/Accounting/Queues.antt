-- ===== src/Scheduler/Accounting/Queues.antt =====
-- The waiting jobs as clients are updated, served and given new jobs.
use workload_compactor.Base.{
  ℕ, ◌+◌, ◌≡◌, refl, sym, ap, subst, ◌∙◌, ◌⊎◌, inl, inr, Bool, true, false, List, [], ◌∷◌, none,
  some, length, length-append, All, All-append, arith, ℤ, pos, ◌+ℤ◌, int_laws, Double, nat_key,
}
use workload_compactor.Base.Table.{Table, lookup, insert}
use workload_compactor.Base.Table.Distinct.{IsDistinct, insert-IsDistinct}
use workload_compactor.Base.Table.Total.{
  total, AllValues, total-insert, total-insert_new, insert-AllValues, lookup-AllValues,
}
use workload_compactor.Scheduler.Types.{Job, Client, Scheduler}
use workload_compactor.Scheduler.Tokens.{
  update_tokens, update_front, check_limits, refill_idle, without_front,
}
use workload_compactor.Scheduler.Choice.{update_all, prefers}
use workload_compactor.Scheduler.Choice.Order.{NotBeaten}
use workload_compactor.Scheduler.Dispatch.{remove_job}
use workload_compactor.Scheduler.Methods.{get_client, new_client, submit_job, estimate_job_size}
use workload_compactor.Scheduler.Accounting.{waiting, HasSize, Queued}

module _ {W : Type 0} where
  -- If the client that no other beats has no job, no client has one.
  unbeaten_empty :
      (b x : Client W) → b.pending_jobs ≡ [] → prefers x b ≡ false → x.pending_jobs ≡ []
  unfolding prefers
  unbeaten_empty b x e h = ground arith

  pub total-waiting_zero :
      (b : Client W) (m : Table ℕ (Client W))
      → b.pending_jobs ≡ []
      → All (NotBeaten b) m
      → total waiting m ≡ 0
  total-waiting_zero b [] e h = refl
  total-waiting_zero b ((a, c) ∷ m) e h =
      omega (arith, ap length (unbeaten_empty b c e h.0), total-waiting_zero b m e h.1)

module _ {W : Type 0} ⦃d : Double W⦄ where
  pending_jobs-refill_idle : (c : Client W) → (refill_idle c).pending_jobs ≡ c.pending_jobs
  unfolding refill_idle
  pending_jobs-refill_idle c = ground arith

  pending_jobs-update_front :
      (now : ℕ) (js : List (Job W)) (c : Client W)
      → (update_front now js c).pending_jobs ≡ c.pending_jobs
  unfolding update_front check_limits
  pending_jobs-update_front now [] c = refl
  pending_jobs-update_front now (j ∷ js) c = ground (arith, pending_jobs-refill_idle c)

  pub pending_jobs-update_tokens :
      (now : ℕ) (c : Client W) → (update_tokens now c).pending_jobs ≡ c.pending_jobs
  unfolding update_tokens
  pending_jobs-update_tokens now c = pending_jobs-update_front now c.pending_jobs c

  pub total-update_all :
      (now : ℕ) (m : Table ℕ (Client W)) → total waiting (update_all now m) ≡ total waiting m
  unfolding update_all
  total-update_all now [] = refl
  total-update_all now ((a, c) ∷ m) =
      omega (arith, ap length (pending_jobs-update_tokens now c), total-update_all now m)

  lookup-update_all :
      (now k : ℕ) (m : Table ℕ (Client W)) → lookup k m ≡ none → lookup k (update_all now m) ≡ none
  unfolding update_all lookup
  lookup-update_all now k [] h = refl
  lookup-update_all now k ((a, c) ∷ m) h = ground (arith, lookup-update_all now k m)

  pub update_all-IsDistinct :
      (now : ℕ) (m : Table ℕ (Client W)) → IsDistinct m → IsDistinct (update_all now m)
  unfolding update_all
  update_all-IsDistinct now [] h = tt
  update_all-IsDistinct now ((a, c) ∷ m) h =
      (lookup-update_all now a m h.0, update_all-IsDistinct now m h.1)

  abbrev pub IsSized : Client W → Type 0
  IsSized c = All HasSize c.pending_jobs

  pub update_all-IsSized :
      (now : ℕ) (m : Table ℕ (Client W))
      → AllValues IsSized m
      → AllValues IsSized (update_all now m)
  unfolding update_all
  update_all-IsSized now [] h = tt
  update_all-IsSized now ((a, c) ∷ m) h = (
    subst (All HasSize) (sym (pending_jobs-update_tokens now c)) h.0,
    update_all-IsSized now m h.1,
  )

  -- `RemoveJob` takes the front job of the client at `addr`.
  pub remove_job-Queued :
      (now addr : ℕ) (c : Client W) (j : Job W) (rest : List (Job W)) (s : Scheduler W)
      → Queued s
      → lookup addr s.clients ≡ some c
      → c.pending_jobs ≡ j ∷ rest
      → Queued (remove_job now addr c j rest s)
  unfolding remove_job without_front
  remove_job-Queued now addr c j rest s q e front = record {
    pending = rw q.pending (
        omega (
          int_laws,
          total-insert waiting addr (without_front now j rest c) c s.clients e,
          ap length front,
        ));
    distinct = insert-IsDistinct addr _ s.clients q.distinct;
    sized =
        insert-AllValues IsSized addr _ s.clients
          (subst (All HasSize) front (lookup-AllValues IsSized addr c s.clients q.sized e)).1
          q.sized;
  }

  get_client-cases :
      (created addr : ℕ) (m : Table ℕ (Client W))
      → (lookup addr m ≡ some (get_client created addr m))
        ⊎ ((lookup addr m ≡ none) × ((get_client created addr m).pending_jobs ≡ []))
  unfolding get_client new_client
  get_client-cases created addr m = ground arith

  -- A method that writes back the client of an address, with some number of jobs more.
  pub write_client-Queued :
      (created addr more : ℕ) (c' : Client W) (s : Scheduler W)
      → Queued s
      → length c'.pending_jobs ≡ length (get_client created addr s.clients).pending_jobs + more
      → (IsSized (get_client created addr s.clients) → IsSized c')
      → Queued (record s {
        pending_job_count = s.pending_job_count +ℤ pos more;
        clients = insert addr c' s.clients;
      })
  write_client-Queued created addr more c' s q len sizes =
      elim (get_client-cases created addr s.clients) [
        | inl e ↦ record {
          pending =
              rw q.pending (omega (int_laws, total-insert waiting addr c' _ s.clients e, len));
          distinct = insert-IsDistinct addr c' s.clients q.distinct;
          sized =
              insert-AllValues IsSized addr c' s.clients
                (sizes (lookup-AllValues IsSized addr _ s.clients q.sized e)) q.sized;
        }
        | inr (e, empty) ↦ record {
          pending = rw q.pending (
              omega (int_laws, total-insert_new waiting addr c' s.clients e, len, ap length empty));
          distinct = insert-IsDistinct addr c' s.clients q.distinct;
          sized =
              insert-AllValues IsSized addr c' s.clients
                (sizes (subst (All HasSize) (sym empty) tt)) q.sized;
        }
      ]

  pub same_count-Queued :
      (created addr : ℕ) (c' : Client W) (s : Scheduler W)
      → Queued s
      → c'.pending_jobs ≡ (get_client created addr s.clients).pending_jobs
      → Queued (record s { clients = insert addr c' s.clients })
  same_count-Queued created addr c' s q same =
      let w =
        write_client-Queued created addr 0 c' s q (omega (arith, ap length same))
          (subst (All HasSize) (sym same)) in
      let unchanged : s.pending_job_count +ℤ pos 0 ≡ s.pending_job_count = omega int_laws in
      record { pending = sym unchanged ∙ w.pending; distinct = w.distinct; sized = w.sized }

module _ {W : Type 0} ⦃d : Double W⦄ (estimate_work : ℤ → Bool → W) where
  -- `SubmitJob` of a job whose estimate is not negative.
  pub submit_job-Queued :
      (now created : ℕ) (j : Job W) (s : Scheduler W)
      → d.le d.nought (estimate_job_size estimate_work j) ≡ true
      → Queued s
      → Queued (submit_job estimate_work now created j s)
  unfolding submit_job
  submit_job-Queued now created j s size q =
      write_client-Queued created j.s_addr 1 _ s q (length-append _ _)
        (λ old. All-append HasSize _ _ old (size, tt))

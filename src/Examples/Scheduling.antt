-- ===== src/Examples/Scheduling.antt =====
-- The scheduler of src/NFSEnforcer/scheduler.cpp: one client with an immediate job and a read, and the
-- pool of one RPC client.
use workload_compactor.Base.{
  ℕ, ◌≡◌, ◌≢◌, refl, Bool, true, false, [], ◌∷◌, none, All, Elem, ℤ, pos, int_laws, units, nat_key,
}
use workload_compactor.Base.Table.{Table, insert, place, lookup}
use workload_compactor.Scheduler.Types.{Job, Client, is_read_request, is_write_request}
use workload_compactor.Scheduler.Choice.{
  best_of, update_all, find_best_client, compare_client, prefers,
}
use workload_compactor.Scheduler.Choice.Order.{
  NotBeaten, flip, find_best_client-optimal, prefers_trans, compare_client-flip,
}
use workload_compactor.Scheduler.Dispatch.{schedule_job, aborted}
use workload_compactor.Scheduler.Tokens.{update_tokens, update_front, check_limits, refill_idle}
use workload_compactor.Scheduler.Methods.{
  submit_job, new_client, get_client, new_scheduler, estimate_job_size,
}
use workload_compactor.Scheduler.Accounting.Start.{Balanced, KeepsBooks, schedule_job-KeepsBooks}
use workload_compactor.Scheduler.Accounting.Immediate.{Starts, schedule_job-Starts}
use workload_compactor.Scheduler.Accounting.Steps.{
  World, Reach, here, next, submits, fresh, Reach-Balanced,
}

abbrev a_read : Job ℕ
a_read = record {
  job_id = 1;
  rq_proc = 6;
  s_addr = 7;
  immediate = false;
  request_size = pos 4096;
  arrival_time = 0;
  job_size = 0;
  rate_limit_obeyed = false;
  priority = 0;
  seq_num_read = 0;
  seq_num_write = 0;
  seq_num_read_bytes = 0;
  seq_num_write_bytes = 0;
  cl = none;
}

abbrev one_each : ℤ → Bool → ℕ
one_each size is_read = 1

abbrev begun : World ℕ
begun = fresh one_each (5 ∷ []) (pos 65536) (pos 65536) (pos 2) (pos 2)

abbrev submitted : World ℕ
submitted = record begun { sched = submit_job one_each 10 11 a_read begun.sched }

submitted-Reach : Reach one_each begun submitted
unfolding submit_job is_read_request
submitted-Reach = next here (submits 10 11 a_read refl refl)

Reach-Balanced_example :
    Balanced submitted.sched submitted.in_flight
    × ((found removed : ℕ) → schedule_job found removed submitted.sched ≢ aborted)
Reach-Balanced_example =
    Reach-Balanced one_each (5 ∷ []) (pos 65536) (pos 65536) (pos 2) (pos 2) submitted
      (omega int_laws) submitted-Reach

submitted-Balanced : Balanced submitted.sched []
submitted-Balanced = Reach-Balanced_example.0

schedule_job-KeepsBooks_example : KeepsBooks [] (schedule_job 20 21 submitted.sched)
schedule_job-KeepsBooks_example =
    schedule_job-KeepsBooks 20 21 submitted.sched [] submitted-Balanced

-- NFSPROC3_GETATTR, which does not wait for a limit.
abbrev a_getattr : Job ℕ
a_getattr = record a_read { rq_proc = 1; immediate = true; request_size = pos 0 }

abbrev asked : World ℕ
asked = record begun { sched = submit_job one_each 10 11 a_getattr begun.sched }

asked-Reach : Reach one_each begun asked
unfolding submit_job is_read_request is_write_request
asked-Reach = next here (submits 10 11 a_getattr refl refl)

asked-Balanced : Balanced asked.sched []
asked-Balanced =
    (Reach-Balanced one_each (5 ∷ []) (pos 65536) (pos 65536) (pos 2) (pos 2) asked (omega int_laws)
      asked-Reach).0

schedule_job-Starts_example : Starts (schedule_job 20 21 asked.sched)
unfolding submit_job new_scheduler get_client new_client insert place lookup estimate_job_size
    is_read_request is_write_request
schedule_job-Starts_example =
    schedule_job-Starts 20 21 asked.sched [] 7
      (record (new_client 11) {
        pending_jobs = record a_getattr { arrival_time = 10 } ∷ [];
        last_occupancy_time = 10;
      })
      asked-Balanced refl refl (record a_getattr { arrival_time = 10 }, [], refl, refl)

abbrev idle_client : Client ℕ
idle_client = new_client 3

abbrev reader : Client ℕ
reader = record idle_client { pending_jobs = a_read ∷ [] }

abbrev urgent : Client ℕ
urgent = record idle_client { pending_jobs = record a_read { immediate = true } ∷ [] }

abbrev three : Table ℕ (Client ℕ)
three = (1, idle_client) ∷ (2, reader) ∷ (3, urgent) ∷ []

find_best_client-optimal_example :
    (update_all 9 three ≡ update_all 9 three)
    × Elem (3, update_tokens 9 urgent) (update_all 9 three)
    × All (NotBeaten (update_tokens 9 urgent)) (update_all 9 three)
unfolding find_best_client new_client update_all best_of prefers update_tokens update_front
    check_limits refill_idle
find_best_client-optimal_example =
    find_best_client-optimal 9 three (update_all 9 three) (3, update_tokens 9 urgent) refl

prefers_trans_example : prefers idle_client urgent ≡ false
unfolding prefers new_client
prefers_trans_example = prefers_trans idle_client reader urgent refl refl

compare_client-flip_example : compare_client urgent reader ≡ flip (compare_client reader urgent)
compare_client-flip_example = compare_client-flip reader urgent

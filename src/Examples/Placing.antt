-- ===== src/Examples/Placing.antt =====
-- The placement of src/PlacementController/PlacementController.cpp: two servers of which the second
-- admits the workload, and one client VM.
use workload_compactor.Base.{
  ℕ, ◌<◌, ◌≡◌, ◌==◌, refl, Bool, false, List, [], ◌∷◌, none, arith, string_key,
}
use workload_compactor.Base.Table.{lookup}
use workload_compactor.Placement.WorkQueue.{
  Work, new_work, next_work, take_next, work_complete, is_done, Step, takes, completes, Reach, here,
  next, first_fit,
}
use workload_compactor.Placement.WorkQueue.FirstFit.{Reach-first_fit}
use workload_compactor.Placement.WorkQueue.Progress.{remaining, Reach-progress}
use workload_compactor.Placement.Place.Requests
use workload_compactor.Placement.Place.Requests.{no_machines, adds_client_vm, Reach-IsExclusive}
use workload_compactor.Placement.Machines.{Machines, add_client_vm_svc}
use workload_compactor.Placement.Place.{Placed, Search, Workload, place_client, remove_client}
use workload_compactor.Placement.Place.Holders.{IsExclusive, users}
use workload_compactor.Placement.Place.Exclusive.{
  Conserves, Keeps, place_client-Conserves, remove_client-Keeps,
}

abbrev second_admits : ℕ → Bool
second_admits i = i == 1

-- Both servers are taken; the second is completed, and then the first.
abbrev both_taken : Work
both_taken = take_next (take_next (new_work 2))

abbrev second_done : Work
second_done = work_complete 1 (second_admits 1) (0 ∷ []) both_taken

abbrev all_done : Work
all_done = work_complete 0 (second_admits 0) [] second_done

taken-Reach : Reach second_admits (new_work 2) both_taken
unfolding new_work next_work
taken-Reach = next (next here (takes 0 _ refl)) (takes 1 _ refl)

done-Reach : Reach second_admits (new_work 2) all_done
unfolding new_work work_complete
done-Reach = next (next taken-Reach (completes [] (0 ∷ []) 1 refl)) (completes [] [] 0 refl)

Reach-first_fit_example : all_done.best_index ≡ first_fit second_admits 2 0
unfolding is_done new_work work_complete
Reach-first_fit_example = Reach-first_fit second_admits 2 all_done (omega arith) done-Reach refl

first_fit_test : first_fit second_admits 2 0 ≡ 1
unfolding first_fit
first_fit_test = refl

Reach-progress_example :
    ((w' : Work) → Step second_admits both_taken w' → remaining w' < remaining both_taken)
    × (is_done both_taken ≡ false → (w' : Work) × Step second_admits both_taken w')
Reach-progress_example = Reach-progress second_admits 2 both_taken (omega arith) taken-Reach

abbrev machines : Machines
machines = record {
  servers = ("s1", ("v1", tt) ∷ []) ∷ ("s2", ("v2", tt) ∷ []) ∷ [];
  clients = ("c1", ("u1", tt) ∷ []) ∷ [];
  server_client_grouping = [];
  workloads = [];
}

abbrev workload : Workload
workload = record { name = "w"; admitted_at = none }

machines-IsExclusive : IsExclusive machines
unfolding lookup users
machines-IsExclusive = record {
  hosts = (refl, tt);
  sets = λ host. ground arith;
  held = λ host vm. ground arith;
}

abbrev second_server : List Placed → Search
second_server queue = record { taken = 2; best = 1 }

place_client-Conserves_example : Conserves machines (place_client second_server workload machines)
place_client-Conserves_example =
    place_client-Conserves second_server workload machines machines-IsExclusive

abbrev occupied : Machines
occupied = record machines {
  clients = ("c1", []) ∷ [];
  server_client_grouping = ("s2", "c1") ∷ [];
  workloads =
      record {
        name = "w";
        client_host = "c1";
        client_vm = "u1";
        server_host = "s2";
        server_vm = "v2";
      }
      ∷ [];
}

occupied-IsExclusive : IsExclusive occupied
unfolding lookup users
occupied-IsExclusive = record {
  hosts = (refl, tt);
  sets = λ host. ground arith;
  held = λ host vm. ground arith;
}

remove_client-Keeps_example : Keeps occupied (remove_client "w" occupied)
remove_client-Keeps_example = remove_client-Keeps "w" occupied occupied-IsExclusive

Reach-IsExclusive_example : IsExclusive (add_client_vm_svc "c1" "u1" no_machines).1
Reach-IsExclusive_example =
    Reach-IsExclusive (add_client_vm_svc "c1" "u1" no_machines).1
      (Requests.next Requests.here (adds_client_vm "c1" "u1"))

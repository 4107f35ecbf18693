-- ===== src/Scheduler/Choice.antt =====
-- Which client is served next: `CompareClient` and `FindBestClient`.
pub mod Order
use workload_compactor.Base.{
  ℕ, Bool, true, false, if◌then◌else◌, List, [], ◌∷◌, Option, none, some, ltb, Double,
}
use workload_compactor.Base.Table.{Table}
use workload_compactor.Scheduler.Types.{Job, Client}
use workload_compactor.Scheduler.Tokens.{update_tokens}

-- PREFER_1, PREFER_EQUAL and PREFER_2.
pub data Preference : Type 0 where
  prefer_1 prefer_equal prefer_2 : Preference

unfoldable pub compare_numbers : ℕ → ℕ → Preference → Preference
compare_numbers a b otherwise =
    if ltb a b then prefer_1 else if ltb b a then prefer_2 else otherwise

module _ {W : Type 0} where
  -- Within rate limits the priority counts first; a client within its limits goes before one that
  -- is not; the rest is first come, first served.
  unfoldable pub compare_limits : Client W → Client W → Preference → Preference
  unfolding compare_numbers
  compare_limits c1 c2 otherwise =
      if c1.rate_limit_obeyed
      then if c2.rate_limit_obeyed
        then compare_numbers c1.priority c2.priority otherwise
        else prefer_1
      else if c2.rate_limit_obeyed
      then prefer_2
      else otherwise

  unfoldable pub compare_jobs : Client W → Client W → Job W → Job W → Preference
  unfolding compare_limits compare_numbers
  compare_jobs c1 c2 j1 j2 =
      let rest =
        compare_limits c1 c2 (compare_numbers j1.arrival_time j2.arrival_time prefer_equal) in
      if j1.immediate
      then if j2.immediate then rest else prefer_1
      else if j2.immediate
      then prefer_2
      else rest

  unfoldable pub compare_fronts : Client W → Client W → List (Job W) → List (Job W) → Preference
  unfolding compare_jobs
  compare_fronts c1 c2 [] [] = prefer_equal
  compare_fronts c1 c2 [] (j2 ∷ js2) = prefer_2
  compare_fronts c1 c2 (j1 ∷ js1) [] = prefer_1
  compare_fronts c1 c2 (j1 ∷ js1) (j2 ∷ js2) = compare_jobs c1 c2 j1 j2

  unfoldable pub compare_client : Client W → Client W → Preference
  unfolding compare_fronts
  compare_client c1 c2 = compare_fronts c1 c2 c1.pending_jobs c2.pending_jobs

  -- `CompareClient(c1, c2) > 0`.
  unfoldable pub prefers : Client W → Client W → Bool
  unfolding compare_client
  prefers c1 c2 = elim (compare_client c1 c2) [ prefer_1 ↦ true | _ ↦ false ]

  unfoldable pub best_of : ℕ × Client W → List (ℕ × Client W) → ℕ × Client W
  best_of best [] = best
  best_of best (x ∷ xs) = best_of (if prefers x.1 best.1 then x else best) xs

module _ {W : Type 0} ⦃d : Double W⦄ where
  unfoldable pub update_all : ℕ → Table ℕ (Client W) → Table ℕ (Client W)
  update_all now [] = []
  update_all now ((a, c) ∷ m) = (a, update_tokens now c) ∷ update_all now m

  -- The loop updates each client's tokens just before it compares that client, and an update reads
  -- no other client: so all are updated, and then compared in the same order. `none` is the
  -- dereference of `begin()` of an empty map.
  unfoldable pub find_best_client :
      ℕ → Table ℕ (Client W) → Option ((ℕ × Client W) × Table ℕ (Client W))
  find_best_client now [] = none
  find_best_client now ((a, c) ∷ m) =
      let first : ℕ × Client W = (a, update_tokens now c) in
      let rest = update_all now m in some (best_of first rest, first ∷ rest)

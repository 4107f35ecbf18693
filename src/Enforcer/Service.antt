-- ===== src/Enforcer/Service.antt =====
-- The requests of the storage RPC program in src/NFSEnforcer/NFSEnforcer.cpp.
use workload_compactor.Base.{
  ℕ, ◌==◌, if◌then◌else◌, List, [], ◌∷◌, Option, none, some, Double, length,
}
use workload_compactor.Scheduler.Types.{Scheduler}
use workload_compactor.Scheduler.Methods.{update_client, get_occupancy}
pub mod Updates

pub record StorageClient (W : Type 0) : Type 0 where
  pub s_addr : ℕ
  pub priority : ℕ
  pub rate_limit_rates : List W
  pub rate_limit_bursts : List W

-- The places of two arrays, as far as the first goes; they are as long by the assertion before.
unfoldable pub paired {ℓ} : {A : Type ℓ} → List A → List A → List (A × A)
paired [] ys = []
paired (x ∷ xs) [] = []
paired (x ∷ xs) (y ∷ ys) = (x, y) ∷ paired xs ys

module _ {W : Type 0} where
  -- storage_enforcer_update_svc, each update with the clock's reading; `none` is a failed assertion.
  unfoldable pub storage_enforcer_update_svc :
      ℕ → List (StorageClient W) → Scheduler W → Option (Scheduler W)
  storage_enforcer_update_svc now [] s = some s
  storage_enforcer_update_svc now (c ∷ cs) s =
      let rest =
        storage_enforcer_update_svc now cs (
          update_client now c.s_addr c.priority (paired c.rate_limit_rates c.rate_limit_bursts)
            s) in
      if length c.rate_limit_rates == length c.rate_limit_bursts then rest else none

module _ {W : Type 0} ⦃d : Double W⦄ where
  unfoldable pub storage_enforcer_get_occupancy_svc : ℕ → ℕ → ℕ → Scheduler W → W × Scheduler W
  storage_enforcer_get_occupancy_svc created now addr s = get_occupancy created now addr s

-- ===== src/Traces/Estimators.antt =====
-- src/Estimator: the work of a request, by its size and kind. What the code reads of the JSON
-- description of an estimator is a record.
use workload_compactor.Base.{
  Bool, not, if◌then◌else◌, List, [], ◌∷◌, Option, none, some, String, string_key, Double, ◌>>=◌, ℤ,
  pos, negsuc, ltb_ℤ, suc,
}

pub data EstimatorType : Type 0 where
  network_in : EstimatorType
  network_out : EstimatorType
  storage : EstimatorType

pub record StorageBandwidth (W : Type 0) : Type 0 where
  pub request_size : ℤ
  pub bandwidth : W

pub record NetworkEstimator (W : Type 0) : Type 0 where
  pub non_data_constant : W
  pub non_data_factor : W
  pub data_constant : W
  pub data_factor : W

pub data Estimator (W : Type 0) : Type 0 where
  network_in_estimator : NetworkEstimator W → Estimator W
  network_out_estimator : NetworkEstimator W → Estimator W
  -- The tables for reads and for writes.
  storage_ssd_estimator : List (StorageBandwidth W) → List (StorageBandwidth W) → Estimator W

pub record BandwidthTableEntry (W : Type 0) : Type 0 where
  pub request_size : ℤ
  pub read_bandwidth : W
  pub write_bandwidth : W

pub record EstimatorInfo (W : Type 0) : Type 0 where
  pub type_name : String
  pub network : NetworkEstimator W
  pub bandwidth_table : List (BandwidthTableEntry W)

module _ {W : Type 0} where
  unfoldable pub read_table : List (BandwidthTableEntry W) → List (StorageBandwidth W)
  read_table [] = []
  read_table (e ∷ es) =
      record { request_size = e.request_size; bandwidth = e.read_bandwidth } ∷ read_table es

  unfoldable pub write_table : List (BandwidthTableEntry W) → List (StorageBandwidth W)
  write_table [] = []
  write_table (e ∷ es) =
      record { request_size = e.request_size; bandwidth = e.write_bandwidth } ∷ write_table es

  -- Estimator::create; `none` is the exception for an unknown type.
  unfoldable pub create : EstimatorInfo W → Option (Estimator W)
  create info =
      if string_key.beq info.type_name "networkIn"
      then some (network_in_estimator info.network)
      else (if string_key.beq info.type_name "networkOut"
          then some (network_out_estimator info.network)
          else (if string_key.beq info.type_name "storageSSD"
              then some (
                  storage_ssd_estimator (read_table info.bandwidth_table)
                    (write_table info.bandwidth_table))
              else none))

  unfoldable pub estimator_type : Estimator W → EstimatorType
  estimator_type (network_in_estimator e) = network_in
  estimator_type (network_out_estimator e) = network_out
  estimator_type (storage_ssd_estimator r w) = storage

module _ {W : Type 0} ⦃d : Double W⦄ where
  open d use {nought, add, sub, mul, div, lt, of_ℕ}

  -- `(double)n` for an `int`.
  unfoldable pub of_int : ℤ → W
  of_int (pos n) = of_ℕ n
  of_int (negsuc n) = sub nought (of_ℕ (suc n))

  unfoldable pub linear_interpolate : W → W → W → W → W → W
  linear_interpolate x x0 x1 y0 y1 = add y0 (div (mul (sub y1 y0) (sub x x0)) (sub x1 x0))

  unfoldable pub affine_work : W → W → ℤ → W
  affine_work constant factor size = add constant (mul factor (of_int size))

  -- The segment of the table that the size falls in, the last bandwidth past its end, or none for an
  -- empty table, which has no last entry.
  unfoldable pub bandwidth_from : ℤ → StorageBandwidth W → List (StorageBandwidth W) → W
  bandwidth_from size last [] = last.bandwidth
  bandwidth_from size prev (e ∷ es) =
      if ltb_ℤ size e.request_size
      then linear_interpolate (of_int size) (of_int prev.request_size) (of_int e.request_size)
          prev.bandwidth e.bandwidth
      else bandwidth_from size e es

  unfoldable pub storage_bandwidth : ℤ → List (StorageBandwidth W) → Option W
  storage_bandwidth size [] = none
  storage_bandwidth size (e ∷ es) = some (bandwidth_from size e es)

  -- `none` is also a bandwidth that is not positive, a failed assertion.
  unfoldable pub estimate_work : Estimator W → ℤ → Bool → Option W
  estimate_work (network_in_estimator e) size is_read = some (
      if is_read
      then affine_work e.non_data_constant e.non_data_factor size
      else affine_work e.data_constant e.data_factor size)
  estimate_work (network_out_estimator e) size is_read = some (
      if not is_read
      then affine_work e.non_data_constant e.non_data_factor size
      else affine_work e.data_constant e.data_factor size)
  estimate_work (storage_ssd_estimator reads writes) size is_read =
      storage_bandwidth size (if is_read then reads else writes) >>= λ bandwidth.
      if lt nought bandwidth then some (div (of_int size) bandwidth) else none

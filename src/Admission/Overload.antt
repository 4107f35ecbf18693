-- ===== src/Admission/Overload.antt =====
-- checkOverload of src/AdmissionController/AdmissionController.cpp.
use workload_compactor.Base.{
  ◌>>=◌, value_or, Bool, false, ◌&&◌, ◌||◌, if◌then◌else◌, List, [], ◌∷◌, Option, none, some,
  String, Double, nat_key, string_key,
}
use workload_compactor.Base.Table.{lookup}
use workload_compactor.Network.Types.{Curve, FlowIndex, Network, FlowInfo, ClientInfo}
use workload_compactor.Network.Registry.{id_by_name, elements}

module _ {W : Type 0} ⦃d : Double W⦄ where
  abbrev is_zero : W → Bool
  is_zero x = d.le x d.nought && d.le d.nought x

  -- The flows of a queue against a load: `none` where a shaper curve is not initialised.
  unfoldable pub queue_load : Network W → List FlowIndex → W → Option (Option W)
  queue_load s [] load = some (some load)
  queue_load s (fi ∷ fis) load =
      let rest = queue_load s fis in
      lookup fi.flow_id s.flows >>= λ f.
      if is_zero f.shaper_curve.r && is_zero f.shaper_curve.b
      then some none
      else rest (d.add load f.shaper_curve.r)

-- checkOverload, with the constant 0.999999 of the arithmetic. The inner `none` is its early return
-- of `false`, and the outer one the last point of an empty curve, or a queue that is not there.
module _ {W : Type 0} ⦃d : Double W⦄ (near_one : W) where
  unfoldable pub last_slope : Curve W → Option W
  last_slope [] = none
  last_slope (p ∷ []) = some p.slope
  last_slope (p ∷ q ∷ ps) = last_slope (q ∷ ps)

  -- The loop over the queues of a flow, given the slope at the end of its arrival curve.
  unfoldable pub overload_queues : Network W → W → List String → Bool → Option (Option Bool)
  unfolding queue_load
  overload_queues s slope [] possible = some (some possible)
  overload_queues s slope (n ∷ ns) possible =
      let rest = overload_queues s slope ns in
      lookup (id_by_name n s.queue_ids) s.queues >>= λ q. queue_load s q.flows slope >>= λ r.
      elim r [
        | none ↦ some none
        | some load ↦ rest (possible || d.lt (d.mul near_one q.bandwidth) load)
      ]

  abbrev overload_flow : Network W → FlowInfo W → Bool → Option (Option Bool)
  overload_flow s info possible = elim (elements info.queues) [
    | [] ↦ some (some possible)
    | n ∷ ns ↦ last_slope (value_or [] info.arrival_info) >>= λ slope.
        overload_queues s slope (n ∷ ns) possible
  ]

  unfoldable pub overload_flows : Network W → List (FlowInfo W) → Bool → Option (Option Bool)
  unfolding last_slope overload_queues
  overload_flows s [] possible = some (some possible)
  overload_flows s (i ∷ is) possible =
      let rest = overload_flows s is in
      overload_flow s i possible >>= λ r. elim r [ none ↦ some none | some found ↦ rest found ]

  unfoldable pub overload_clients : Network W → List (ClientInfo W) → Bool → Option (Option Bool)
  unfolding overload_flows
  overload_clients s [] possible = some (some possible)
  overload_clients s (i ∷ is) possible =
      let rest = overload_clients s is in
      if value_or false i.admitted
      then rest possible
      else (overload_flows s (elements i.flows) possible >>= λ r. elim r [
        | none ↦ some none
        | some found ↦ rest found
      ])

  unfoldable pub check_overload : List (ClientInfo W) → Network W → Option Bool
  unfolding overload_clients
  check_overload infos s = overload_clients s infos false >>= λ r. some (value_or false r)

-- ===== src/Admission/Checks.antt =====
-- The checks of a request to add clients: checkFlowInfo, checkClientInfo and checkClientInfos.
use workload_compactor.Base.{
  ℕ, Bool, true, false, ◌&&◌, not, if◌then◌else◌, List, [], ◌∷◌, Option, none, some, String, Double,
  string_key, ◌==◌,
}
use workload_compactor.Base.Table.{Table, lookup, insert}
use workload_compactor.Network.Types.{Network, Member, absent, other, array, FlowInfo, ClientInfo}
use workload_compactor.Network.Registry.{id_by_name}
pub mod Unused
pub mod FlowNames

-- AdmissionStatus of src/prot/AdmissionController_prot.x.
pub data Status : Type 0 where
  success : Status
  missing_argument : Status
  invalid_argument : Status
  flow_name_in_use : Status
  client_name_in_use : Status
  queue_name_in_use : Status
  flow_name_nonexistent : Status
  client_name_nonexistent : Status
  queue_name_nonexistent : Status
  queue_has_active_flows : Status

-- A set of names.
abbrev pub Names : Type 0
Names = Table String (Unit {0})

-- The names that a check has seen, with its result.
abbrev pub Checked : Type 0
Checked = Status × Names × Names

abbrev pub is_member : String → Names → Bool
is_member n names = elim (lookup n names) [ none ↦ false | some u ↦ true ]

unfoldable pub check_queues : Table String ℕ → List String → Bool
check_queues ids [] = true
check_queues ids (n ∷ ns) = not (id_by_name n ids == 0) && check_queues ids ns

module _ {W : Type 0} where
  unfoldable pub check_flow_members : Network W → FlowInfo W → Member String → Status
  unfolding check_queues
  check_flow_members s info absent = missing_argument
  check_flow_members s info other = invalid_argument
  check_flow_members s info (array queues) =
      if check_queues s.queue_ids queues
      then elim info.arrival_info [ none ↦ missing_argument | some curve ↦ success ]
      else queue_name_nonexistent

  -- The flow names seen so far are returned with the flow's name added, once it is found to be new.
  unfoldable pub check_flow_info : Network W → Names → FlowInfo W → Status × Names
  unfolding check_flow_members
  check_flow_info s names info = elim info.name [
    | none ↦ (missing_argument, names)
    | some n ↦
        if not (id_by_name n s.flow_ids == 0)
        then (flow_name_in_use, names)
        else if is_member n names
        then (flow_name_in_use, names)
        else (check_flow_members s info info.queues, insert n tt names)
  ]

  unfoldable pub check_flow_infos : Network W → Names → List (FlowInfo W) → Status × Names
  check_flow_infos s names [] = (success, names)
  check_flow_infos s names (i ∷ is) =
      let rest = λ (seen : Names). check_flow_infos s seen is in
      let (status, seen) = check_flow_info s names i in
      elim status [ success ↦ rest seen | failed ↦ (failed, seen) ]

  unfoldable pub check_client_flows : Network W → Names → Member (FlowInfo W) → Status × Names
  unfolding check_flow_infos
  check_client_flows s names absent = (missing_argument, names)
  check_client_flows s names other = (invalid_argument, names)
  check_client_flows s names (array flows) = check_flow_infos s names flows

module _ {W : Type 0} ⦃d : Double W⦄ where
  -- `hundred` is the constant 100 of the arithmetic.
  unfoldable pub percentile_fits : W → Option W → Bool
  percentile_fits hundred none = true
  percentile_fits hundred (some p) = d.lt d.nought p && d.lt p hundred

  unfoldable pub check_client_info : W → Network W → Names → Names → ClientInfo W → Checked
  unfolding percentile_fits check_client_flows
  check_client_info hundred s clients flows info = elim info.name [
    | none ↦ (missing_argument, clients, flows)
    | some n ↦
        if not (id_by_name n s.client_ids == 0)
        then (client_name_in_use, clients, flows)
        else if is_member n clients
        then (client_name_in_use, clients, flows)
        else (elim info.slo [
          | none ↦ (missing_argument, insert n tt clients, flows)
          | some slo ↦
              if d.le slo d.nought
              then (invalid_argument, insert n tt clients, flows)
              else if percentile_fits hundred info.slo_percentile
              then (let r = check_client_flows s flows info.flows in
                  (r.0, insert n tt clients, r.1))
              else (invalid_argument, insert n tt clients, flows)
        ])
  ]

  unfoldable pub check_clients : W → Network W → Names → Names → List (ClientInfo W) → Status
  check_clients hundred s clients flows [] = success
  check_clients hundred s clients flows (i ∷ is) =
      let rest = λ (r : Checked). check_clients hundred s r.1 r.2 is in
      let r = check_client_info hundred s clients flows i in
      elim r.0 [ success ↦ rest r | failed ↦ failed ]

  unfoldable pub check_client_infos : W → Network W → Member (ClientInfo W) → Status
  unfolding check_clients
  check_client_infos hundred s absent = invalid_argument
  check_client_infos hundred s other = invalid_argument
  check_client_infos hundred s (array infos) = check_clients hundred s [] [] infos

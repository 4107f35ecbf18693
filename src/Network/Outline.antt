-- ===== src/Network/Outline.antt =====
-- What stays of a network while latencies are computed: the names, the links between clients, flows
-- and queues, and the descriptions. The latencies, priorities and shaper curves are made equal.
use workload_compactor.Base.{
  bind-some, ℕ, ◌≡◌, refl, ◌∙◌, sym, ap, subst, Bool, List, [], ◌∷◌, Option, none, some, nat_key,
  Double, true, false,
}
use workload_compactor.Base.Table.{Table, lookup, adjust}
use workload_compactor.Base.Table.Without.{map_values, map_values-adjust}
use workload_compactor.Network.Types.{SimpleArrivalCurve, Flow, Client, Network}
use workload_compactor.Network.Registry.{set_flow_priority, zero_arrival_curve}
use workload_compactor.Network.Shapers.Assign.{set_shaper}
pub mod Kept
pub mod Flows
pub mod Clients
pub mod Entered
pub mod Registered
pub mod Added
pub mod Workloads
pub mod Restored

module _ {W : Type 0} ⦃d : Double W⦄ where
  unfoldable pub plain_flow : Flow W → Flow W
  plain_flow f = record f { priority = 0; latency = d.nought; shaper_curve = zero_arrival_curve }

  unfoldable pub plain_client : Client W → Client W
  plain_client c = record c { latency = d.nought }

  unfoldable pub outline : Network W → Network W
  outline s = record s {
    flows = map_values plain_flow s.flows;
    clients = map_values plain_client s.clients;
    affected_queue_ids = [];
  }

  -- An adjustment of flows that only touches what the outline forgets.
  pub outline-flows :
      (i : ℕ) (g : Flow W → Flow W) (s : Network W)
      → ((f : Flow W) → plain_flow (g f) ≡ plain_flow f)
      → outline (record s { flows = adjust i g s.flows }) ≡ outline s
  unfolding outline
  outline-flows i g s h =
      ap
        (λ fs. record s {
          flows = fs;
          clients = map_values plain_client s.clients;
          affected_queue_ids = [];
        })
        (map_values-adjust plain_flow i g s.flows h)

  pub outline-clients :
      (i : ℕ) (g : Client W → Client W) (s : Network W)
      → ((c : Client W) → plain_client (g c) ≡ plain_client c)
      → outline (record s { clients = adjust i g s.clients }) ≡ outline s
  unfolding outline
  outline-clients i g s h =
      ap
        (λ cs. record s {
          flows = map_values plain_flow s.flows;
          clients = cs;
          affected_queue_ids = [];
        })
        (map_values-adjust plain_client i g s.clients h)

  pub set_shaper-outline :
      (i : ℕ) (curve : SimpleArrivalCurve W) (p : ℕ) (s t : Network W)
      → set_shaper i curve p s ≡ some t
      → outline t ≡ outline s
  unfolding set_shaper set_flow_priority plain_flow
  set_shaper-outline i curve p s t e =
      let u : Network W = record s {
        flows = adjust i (λ (h : Flow W). record h { shaper_curve = curve }) s.flows;
      } in
      let (g, at, same) = bind-some (lookup i u.flows) _ t e in
      let v : Network W = record u {
        flows = adjust i (λ (h : Flow W). record h { priority = p }) u.flows;
      } in
      let ends : v ≡ t = cc in
      ap outline (sym ends)
      ∙ outline-flows i (λ h. record h { priority = p }) u (λ f. refl)
      ∙ outline-flows i (λ h. record h { shaper_curve = curve }) s (λ f. refl)

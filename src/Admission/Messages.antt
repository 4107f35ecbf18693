-- ===== src/Admission/Messages.antt =====
-- The messages of the admission controller to the enforcers, as values with the enforcer's address in
-- front. They are put together by src/prot/net_clnt.cpp and src/prot/storage_clnt.cpp. The connection is
-- a library's; that it succeeds is assumed, since the controller exits where it does not.
use workload_compactor.Base.{
  ◌>>=◌, value_or, ℕ, ◌==◌, if◌then◌else◌, List, [], ◌∷◌, ◌++◌, map, Option, none, some, String,
  nat_key, string_key,
}
use workload_compactor.Base.Table.{lookup}
use workload_compactor.Network.Types.{Network, Enforcing, FlowInfo, ClientInfo}
use workload_compactor.Network.Registry.{id_by_name, elements}
use workload_compactor.Shaping.Clients.{Addr, ClientUpdate}
use workload_compactor.Enforcer.Service.{StorageClient}
use workload_compactor.Admission.Server.{Controller}
pub mod Removals
pub mod Received
pub mod Cleared
pub mod Served
pub mod Reset

pub data Message (W : Type 0) : Type 0 where
  update_net : String → ClientUpdate W → Message W
  remove_net : String → Addr → Message W
  update_storage : String → StorageClient W → Message W

-- `flowInfo["rateLimiters"][0] = ...`.
unfoldable pub set_first {ℓ} : {A : Type ℓ} → A → List A → List A
set_first x [] = x ∷ []
set_first x (y ∷ ys) = x ∷ ys

module _ {W : Type 0} where
  -- setFlowParameters and setRateLimits; `none` is a null pointer or a failed assertion. The latency,
  -- which is set too, is in no message.
  unfoldable pub set_flow_parameters : Network W → FlowInfo W → Option (FlowInfo W)
  unfolding set_first
  set_flow_parameters s info =
      let n = value_or "" info.name in
      lookup (id_by_name n s.flow_ids) s.flows >>= λ f.
      if string_key.beq f.name n
      then some (record info {
        priority = some f.priority;
        enforcing = record info.enforcing {
          rate_limiters =
              set_first (f.shaper_curve.r, f.shaper_curve.b) info.enforcing.rate_limiters;
        };
      })
      else none

  -- The members that the code asks for: the enforcer, the destination and the source.
  unfoldable pub net_addresses : Enforcing W → Option (String × String × String)
  net_addresses e = do
    enforcer ← e.enforcer_addr
    dst ← e.dst_addr
    src ← e.src_addr
    some (enforcer, dst, src)

  -- The enforcer and the client.
  unfoldable pub storage_addresses : Enforcing W → Option (String × String)
  storage_addresses e = do
    enforcer ← e.enforcer_addr
    client ← e.client_addr
    some (enforcer, client)

-- The resolver of addresses.
module _ {W : Type 0} (addr_info : String → ℕ) where
  unfoldable pub client_update : String → String → FlowInfo W → ClientUpdate W
  client_update dst src info = record {
    client = (addr_info dst, addr_info src);
    priority = value_or 0 info.priority;
    rate_limits = info.enforcing.rate_limiters;
  }

  unfoldable pub storage_client : String → FlowInfo W → StorageClient W
  storage_client addr info = record {
    s_addr = addr_info addr;
    priority = value_or 0 info.priority;
    rate_limit_rates = map (λ l. l.0) info.enforcing.rate_limiters;
    rate_limit_bursts = map (λ l. l.1) info.enforcing.rate_limiters;
  }

  unfoldable pub update_net_enforcer_client : Network W → FlowInfo W → Option (List (Message W))
  unfolding set_flow_parameters net_addresses client_update
  update_net_enforcer_client s info = elim (net_addresses info.enforcing) [
    | none ↦ some []
    | some a ↦
        set_flow_parameters s info >>= λ i. some (update_net a.0 (client_update a.1 a.2 i) ∷ [])
  ]

  unfoldable pub remove_net_enforcer_client : FlowInfo W → List (Message W)
  unfolding net_addresses
  remove_net_enforcer_client info = elim (net_addresses info.enforcing) [
    | none ↦ []
    | some a ↦ remove_net a.0 (addr_info a.1, addr_info a.2) ∷ []
  ]

  unfoldable pub update_nfs_enforcer_client : Network W → FlowInfo W → Option (List (Message W))
  unfolding set_flow_parameters storage_addresses storage_client
  update_nfs_enforcer_client s info = elim (storage_addresses info.enforcing) [
    | none ↦ some []
    | some a ↦
        set_flow_parameters s info >>= λ i. some (update_storage a.0 (storage_client a.1 i) ∷ [])
  ]

  unfoldable pub remove_nfs_enforcer_client : FlowInfo W → List (Message W)
  unfolding storage_addresses storage_client
  remove_nfs_enforcer_client info = elim (storage_addresses info.enforcing) [
    | none ↦ []
    | some a ↦
        let reset = record info {
          priority = some 0;
          enforcing = record info.enforcing { rate_limiters = [] };
        } in
        update_storage a.0 (storage_client a.1 reset) ∷ []
  ]

  -- The body of the loop over the flows, by the type of the enforcer.
  unfoldable pub update_flow : Network W → FlowInfo W → Option (List (Message W))
  unfolding update_net_enforcer_client update_nfs_enforcer_client
  update_flow s info = elim info.enforcing.enforcer_type [
    | none ↦ some []
    | some t ↦
        if string_key.beq t "network"
        then update_net_enforcer_client s info
        else (if string_key.beq t "storage" then update_nfs_enforcer_client s info else some [])
  ]

  unfoldable pub remove_flow : FlowInfo W → List (Message W)
  unfolding remove_net_enforcer_client remove_nfs_enforcer_client
  remove_flow info = elim info.enforcing.enforcer_type [
    | none ↦ []
    | some t ↦
        if string_key.beq t "network"
        then remove_net_enforcer_client info
        else (if string_key.beq t "storage" then remove_nfs_enforcer_client info else [])
  ]

  unfoldable pub update_flows : Network W → List (FlowInfo W) → Option (List (Message W))
  unfolding update_flow
  update_flows s [] = some []
  update_flows s (i ∷ is) =
      let rest = update_flows s is in update_flow s i >>= λ ms. rest >>= λ more. some (ms ++ more)

  -- The loop of AddClients over the admitted clients.
  unfoldable pub update_clients : Network W → List (ClientInfo W) → Option (List (Message W))
  unfolding update_flows
  update_clients s [] = some []
  update_clients s (c ∷ cs) =
      let rest = update_clients s cs in
      update_flows s (elements c.flows) >>= λ ms. rest >>= λ more. some (ms ++ more)

  unfoldable pub remove_flows : List (FlowInfo W) → List (Message W)
  unfolding remove_flow
  remove_flows [] = []
  remove_flows (i ∷ is) = remove_flow i ++ remove_flows is

  -- The messages of DelClient, from the stored description.
  unfoldable pub del_client_messages : String → Controller W → Option (List (Message W))
  unfolding remove_flows
  del_client_messages name c =
      let i = id_by_name name c.network.client_ids in
      if i == 0
      then some []
      else (lookup i c.store >>= λ info. some (remove_flows (elements info.flows)))

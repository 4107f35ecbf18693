-- ===== src/Admission/Messages/Removals.antt =====
-- The messages of DelClient are of two forms.
use workload_compactor.Base.{
  ℕ, ◌≡◌, refl, Bool, true, false, if◌then◌else◌, List, [], ◌∷◌, Option, none, some, String, All,
  All-append, string_key,
}
use workload_compactor.Network.Types.{FlowInfo}
use workload_compactor.Shaping.Clients.{Addr}
use workload_compactor.Admission.Messages.{
  Message, remove_net, update_storage, net_addresses, storage_addresses, storage_client,
  remove_net_enforcer_client, remove_nfs_enforcer_client, remove_flow, remove_flows,
}

module _ {ℓ κ} {A : Type ℓ} where
  pub if_holds : (P : A → Type κ) (b : Bool) {x y : A} → P x → P y → P (if b then x else y)
  if_holds P true hx hy = hx
  if_holds P false hx hy = hy

  pub if_both :
      {B : Type ℓ} (R : A → B → Type κ) (b : Bool) {x y : A} {u v : B}
      → R x u
      → R y v
      → R (if b then x else y) (if b then u else v)
  if_both R true hx hy = hx
  if_both R false hx hy = hy

-- A predicate that holds of the removals of network clients and of the storage updates with no limits.
module _ {W : Type 0} (addr_info : String → ℕ) (P : Message W → Type 0)
    (on_net : (e : String) (a : Addr) → P (remove_net e a))
    (on_storage : (e : String) (a : ℕ)
      → P (
          update_storage e (record {
            s_addr = a;
            priority = 0;
            rate_limit_rates = [];
            rate_limit_bursts = [];
          }))) where
  pub remove_net-All : (i : FlowInfo W) → All P (remove_net_enforcer_client addr_info i)
  unfolding remove_net_enforcer_client
  remove_net-All i = cases (net_addresses i.enforcing) refl
    where
      cases :
          (o : Option (String × String × String))
          → net_addresses i.enforcing ≡ o
          → All P (remove_net_enforcer_client addr_info i)
      cases none e = rw (e, remove_net_enforcer_client) tt
      cases (some a) e = rw (e, remove_net_enforcer_client) (on_net a.0 _, tt)

  remove_nfs-All : (i : FlowInfo W) → All P (remove_nfs_enforcer_client addr_info i)
  unfolding remove_nfs_enforcer_client storage_client
  remove_nfs-All i = cases (storage_addresses i.enforcing) refl
    where
      cases :
          (o : Option (String × String))
          → storage_addresses i.enforcing ≡ o
          → All P (remove_nfs_enforcer_client addr_info i)
      cases none e = rw (e, remove_nfs_enforcer_client) tt
      cases (some a) e = rw (e, remove_nfs_enforcer_client) (on_storage a.0 (addr_info a.1), tt)

  pub remove_flow-All : (i : FlowInfo W) → All P (remove_flow addr_info i)
  unfolding remove_flow
  remove_flow-All i = cases i.enforcing.enforcer_type refl
    where
      cases : (o : Option String) → i.enforcing.enforcer_type ≡ o → All P (remove_flow addr_info i)
      cases none e = rw (e, remove_flow) tt
      cases (some t) e =
          rw (e, remove_flow)
            (if_holds (All P) (string_key.beq t "network") (remove_net-All i)
              (if_holds (All P) (string_key.beq t "storage") (remove_nfs-All i) tt))

  pub remove_flows-All : (is : List (FlowInfo W)) → All P (remove_flows addr_info is)
  unfolding remove_flows
  remove_flows-All [] = tt
  remove_flows-All (i ∷ is) =
      All-append P (remove_flow addr_info i) (remove_flows addr_info is) (remove_flow-All i)
        (remove_flows-All is)

-- ===== src/Admission/Messages/Reset.antt =====
-- What the messages of DelClient leave at the storage enforcers, which take messages one by one.
use workload_compactor.Base.{
  ◌>>=◌, ℕ, ◌≡◌, refl, ◌∙◌, subst, true, false, ◌==◌, List, [], ◌∷◌, ◌++◌, Option, none, some,
  String, arith, All, All-append, All-map, string_key, nat_key,
}
use workload_compactor.Base.Table.{lookup}
use workload_compactor.Network.Types.{Network, FlowInfo, ClientInfo}
use workload_compactor.Network.Registry.{id_by_name, elements}
use workload_compactor.Scheduler.Types.{Scheduler}
use workload_compactor.Enforcer.Service.{StorageClient}
use workload_compactor.Admission.Server.{Controller}
use workload_compactor.Admission.Messages.{
  Message, update_net, remove_net, update_storage, net_addresses, storage_addresses,
  set_flow_parameters, client_update, storage_client, update_net_enforcer_client,
  remove_net_enforcer_client, update_nfs_enforcer_client, remove_nfs_enforcer_client, update_flow,
  remove_flow, update_flows, remove_flows, del_client_messages,
}
use workload_compactor.Admission.Messages.Removals.{if_both, remove_net-All, remove_flows-All}
use workload_compactor.Admission.Messages.Served.{
  same_result, IsUnlimited, Resets, IsReset, serve_storage, serve_storage-append, update_svc-Lifts,
  serve_storage-Resets,
}

module _ {W : Type 0} (now : ℕ) where
  abbrev serve : String → List (Message W) → Scheduler W → Option (Scheduler W)
  serve = serve_storage now

  module _ (addr_info : String → ℕ) where
    -- After the removals the storage enforcers limit none of the clients that were updated.
    abbrev Restores : Option (List (Message W)) → List (Message W) → Type 0
    Restores sent removals =
        (ms : List (Message W))
        → sent ≡ some ms
        → (before : String → Scheduler W)
        → (after : String → Scheduler W) × ((h : String)
            → serve h removals (before h) ≡ some (after h))
          × All (IsReset after) ms

    nothing-Restores : Restores (some []) []
    unfolding serve_storage
    nothing-Restores ms e before = (before, λ h. refl, subst (All (IsReset before)) same tt)
      where
        same : [] ≡ ms
        same = cc

    append-Restores :
        (o p : Option (List (Message W))) (first second : List (Message W))
        → All Resets second
        → Restores o first
        → Restores p second
        → Restores (o >>= λ m. p >>= λ more. some (m ++ more)) (first ++ second)
    append-Restores none p first second q hx hy ms sent before = cc
    append-Restores (some m) none first second q hx hy ms sent before = cc
    append-Restores (some m) (some more) first second q hx hy ms sent before =
        let (between, served, reset) = hx m refl before in
        let (after, later, reset_later) = hy more refl between in
        (
          after,
          λ h. serve_storage-append now h first second (before h) ∙ rw (served h) (later h),
          subst (All (IsReset after)) both (
              All-append (IsReset after) m more
                (All-map (IsReset between) (IsReset after) (kept between after later) m reset)
                reset_later),
        )
      where
        both : m ++ more ≡ ms
        both = cc

        still :
            (h : String) (s t : Scheduler W)
            → serve h second s ≡ some t
            → (a : ℕ) → IsUnlimited a s
            → IsUnlimited a t
        still h s t run a u =
            let (v, ran, keeps) = serve_storage-Resets now h second s q in
            let same : v ≡ t = same_result ran run in subst (IsUnlimited a) same (keeps a u)

        kept :
            (between after : String → Scheduler W)
            → ((h : String) → serve h second (between h) ≡ some (after h))
            → (x : Message W) → IsReset between x
            → IsReset after x
        kept between after later (update_net e u) h = tt
        kept between after later (remove_net e a) h = tt
        kept between after later (update_storage e u) h =
            still e (between e) (after e) (later e) u.s_addr h

    net-Restores :
        (s : Network W) (i : FlowInfo W)
        → Restores
            (update_net_enforcer_client addr_info s i)
            (remove_net_enforcer_client addr_info i)
    unfolding update_net_enforcer_client
    net-Restores s i ms sent before =
        (λ h. (served h).0, λ h. (served h).1, cases (net_addresses i.enforcing) refl)
      where
        served :
            (h : String)
            → (t : Scheduler W) × (serve h (remove_net_enforcer_client addr_info i) (before h)
                ≡ some t)
              × ((a : ℕ) → IsUnlimited a (before h) → IsUnlimited a t)
        served h =
            serve_storage-Resets now h (remove_net_enforcer_client addr_info i) (before h)
              (remove_net-All addr_info Resets (λ e a. tt) (λ e a. ((refl, refl, refl))) i)

        after : String → Scheduler W
        after h = (served h).0

        found :
            (a : String × String × String) (o : Option (FlowInfo W))
            → set_flow_parameters s i ≡ o
            → net_addresses i.enforcing ≡ some a
            → All (IsReset after) ms
        found a none q e = absurd (ground (arith, q, e, sent))
        found a (some j) q e = subst (All (IsReset after)) one (tt, tt)
          where
            one : update_net a.0 (client_update addr_info a.1 a.2 j) ∷ [] ≡ ms
            one = ground (arith, q, e, sent)

        cases :
            (o : Option (String × String × String))
            → net_addresses i.enforcing ≡ o
            → All (IsReset after) ms
        cases none e = subst (All (IsReset after)) none_sent tt
          where
            none_sent : [] ≡ ms
            none_sent = ground (arith, e, sent)
        cases (some a) e = found a (set_flow_parameters s i) refl e

    -- An update of a storage client, for a flow that the network has, and its reset.
    update-Restores :
        (s : Network W) (i : FlowInfo W) (e client : String)
        → Restores
            (set_flow_parameters s i >>= λ j.
              some (update_storage e (storage_client addr_info client j) ∷ []))
            (update_storage e (record {
              s_addr = addr_info client;
              priority = 0;
              rate_limit_rates = [];
              rate_limit_bursts = [];
            })
              ∷ [])
    unfolding serve_storage storage_client
    update-Restores s i e client ms sent before =
        (λ h. (served h).0, λ h. (served h).1, cases (set_flow_parameters s i) refl)
      where
        reset : StorageClient W
        reset = record {
          s_addr = addr_info client;
          priority = 0;
          rate_limit_rates = [];
          rate_limit_bursts = [];
        }

        served :
            (h : String)
            → (t : Scheduler W) × (serve h (update_storage e reset ∷ []) (before h) ≡ some t)
              × ((a : ℕ) → IsUnlimited a (before h) → IsUnlimited a t)
        served h =
            serve_storage-Resets now h (update_storage e reset ∷ []) (before h)
              ((refl, refl, refl), tt)

        same : string_key.beq e e ≡ true
        same = (string_key.beq_iff e e).1 refl

        lifted : IsUnlimited (addr_info client) (served e).0
        lifted =
            let (t, run, there, kept) = update_svc-Lifts now reset (before e) (refl, refl, refl) in
            let ran : serve e (update_storage e reset ∷ []) (before e) ≡ some t =
              rw (serve_storage, same, run) refl in
            let at : t ≡ (served e).0 = same_result ran (served e).1 in
            subst (IsUnlimited (addr_info client)) at there

        cases :
            (o : Option (FlowInfo W))
            → set_flow_parameters s i ≡ o
            → All (IsReset (λ h. (served h).0)) ms
        cases none q = absurd (ground (arith, q, sent))
        cases (some j) q = subst (All (IsReset (λ h. (served h).0))) one (lifted, tt)
          where
            one : update_storage e (storage_client addr_info client j) ∷ [] ≡ ms
            one = ground (arith, q, sent)

    nfs-Restores :
        (s : Network W) (i : FlowInfo W)
        → Restores
            (update_nfs_enforcer_client addr_info s i)
            (remove_nfs_enforcer_client addr_info i)
    unfolding update_nfs_enforcer_client remove_nfs_enforcer_client storage_client
    nfs-Restores s i = cases (storage_addresses i.enforcing) refl
      where
        cases :
            (o : Option (String × String))
            → storage_addresses i.enforcing ≡ o
            → Restores
                (update_nfs_enforcer_client addr_info s i)
                (remove_nfs_enforcer_client addr_info i)
        cases none e =
            rw (e, update_nfs_enforcer_client, remove_nfs_enforcer_client) nothing-Restores
        cases (some a) e =
            rw (e, update_nfs_enforcer_client, remove_nfs_enforcer_client)
              (update-Restores s i a.0 a.1)

    flow-Restores :
        (s : Network W) (i : FlowInfo W)
        → Restores (update_flow addr_info s i) (remove_flow addr_info i)
    unfolding update_flow remove_flow
    flow-Restores s i = cases i.enforcing.enforcer_type refl
      where
        cases :
            (o : Option String)
            → i.enforcing.enforcer_type ≡ o
            → Restores (update_flow addr_info s i) (remove_flow addr_info i)
        cases none e = rw (e, update_flow, remove_flow) nothing-Restores
        cases (some t) e =
            rw (e, update_flow, remove_flow)
              (if_both Restores (string_key.beq t "network") (net-Restores s i)
                (if_both Restores (string_key.beq t "storage") (nfs-Restores s i) nothing-Restores))

    flows-Restores :
        (s : Network W) (is : List (FlowInfo W))
        → Restores (update_flows addr_info s is) (remove_flows addr_info is)
    unfolding update_flows remove_flows
    flows-Restores s [] = nothing-Restores
    flows-Restores s (i ∷ is) =
        append-Restores (update_flow addr_info s i) (update_flows addr_info s is)
          (remove_flow addr_info i) (remove_flows addr_info is)
          (remove_flows-All addr_info Resets (λ e a. tt) (λ e a. (refl, refl, refl)) is)
          (flow-Restores s i) (flows-Restores s is)

    -- For a client that the controller knows, with the stored description from which its updates were
    -- sent, and any storage enforcers: DelClient sends messages, no enforcer fails an assertion on
    -- them, and afterwards each client that the updates had limited there has priority 0 and no
    -- rate limit.
    pub del_client_messages-IsReset :
        (name : String) (c : Controller W) (info : ClientInfo W) (s : Network W)
        (ms : List (Message W))
        → (id_by_name name c.network.client_ids == 0) ≡ false
        → lookup (id_by_name name c.network.client_ids) c.store ≡ some info
        → update_flows addr_info s (elements info.flows) ≡ some ms
        → (before : String → Scheduler W)
        → (removals : List (Message W)) × (del_client_messages addr_info name c ≡ some removals)
          × (after : String → Scheduler W) × ((h : String)
              → serve_storage now h removals (before h) ≡ some (after h))
          × All (IsReset after) ms
    unfolding del_client_messages
    del_client_messages-IsReset name c info s ms known stored sent before =
        let (after, served, reset) = flows-Restores s (elements info.flows) ms sent before in
        (
          remove_flows addr_info (elements info.flows),
          rw (known, stored) refl,
          after,
          served,
          reset,
        )

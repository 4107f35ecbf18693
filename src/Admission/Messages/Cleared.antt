-- ===== src/Admission/Messages/Cleared.antt =====
-- What the messages of DelClient leave at the network enforcers, which take messages one by one.
use workload_compactor.Base.{
  ◌>>=◌, ℕ, ◌≡◌, refl, sym, subst, true, false, ◌==◌, List, [], ◌∷◌, ◌++◌, Option, none, some,
  String, Double, arith, All, All-append, All-map, string_key, fun_ext, nat_key,
}
use workload_compactor.Base.Table.{lookup}
use workload_compactor.Network.Types.{Network, FlowInfo, ClientInfo}
use workload_compactor.Network.Registry.{id_by_name, elements}
use workload_compactor.Shaping.Clients.{Addr, addr_key, Enforcer}
use workload_compactor.Admission.Server.{Controller}
use workload_compactor.Admission.Messages.{
  Message, update_net, remove_net, update_storage, net_addresses, storage_addresses,
  set_flow_parameters, client_update, storage_client, update_net_enforcer_client,
  remove_net_enforcer_client, update_nfs_enforcer_client, remove_nfs_enforcer_client, update_flow,
  remove_flow, update_flows, remove_flows, del_client_messages,
}
use workload_compactor.Admission.Messages.Removals.{if_both, remove_flow-All, remove_flows-All}
use workload_compactor.Admission.Messages.Received.{
  IsCleared, receive, receive_all, HasOneOfEach, without_client-IsAbsent, Removes,
  receive_all-IsAbsent, receive_all-HasOneOfEach, receive_all-append,
}

module _ {W : Type 0} ⦃d : Double W⦄ (num_priorities max_rate : ℕ) (to_unsigned : W → ℕ)
    (times : ℕ → ℕ) (get_sent_bytes : ℕ → ℕ → ℕ) where
  -- The network enforcer at an address serves a list of messages.
  abbrev pub serve : String → List (Message W) → Enforcer W → Enforcer W
  serve = receive_all num_priorities max_rate to_unsigned times get_sent_bytes

  module _ (addr_info : String → ℕ) where
    -- The second list of messages clears what the first, where there is one, sets.
    abbrev Clears : Option (List (Message W)) → List (Message W) → Type 0
    Clears sent removals =
        (ms : List (Message W))
        → sent ≡ some ms
        → (net : String → Enforcer W) → ((h : String) → HasOneOfEach (net h))
        → All (IsCleared (λ h. serve h removals (net h))) ms

    nothing-Clears : Clears (some []) []
    unfolding receive_all
    nothing-Clears ms e net d = subst (All (IsCleared net)) same tt
      where
        same : [] ≡ ms
        same = cc

    -- An update of a network client, for a flow that the network has, and its removal.
    update-Clears :
        (s : Network W) (i : FlowInfo W) (e dst src : String)
        → Clears
            (set_flow_parameters s i >>= λ j.
              some (update_net e (client_update addr_info dst src j) ∷ []))
            (remove_net e (addr_info dst, addr_info src) ∷ [])
    unfolding receive_all receive client_update
    update-Clears s i e dst src ms sent net d = cases (set_flow_parameters s i) refl
      where
        same : string_key.beq e e ≡ true
        same = (string_key.beq_iff e e).1 refl

        address : Addr
        address = (addr_info dst, addr_info src)

        gone :
            (j : FlowInfo W)
            → IsCleared
                (λ h. serve h (remove_net e address ∷ []) (net h))
                (update_net e (client_update addr_info dst src j))
        gone j =
            rw (same, receive_all, receive)
              (without_client-IsAbsent num_priorities max_rate to_unsigned times get_sent_bytes
                address (net e) (d e))

        cases :
            (o : Option (FlowInfo W))
            → set_flow_parameters s i ≡ o
            → All (IsCleared (λ h. serve h (remove_net e address ∷ []) (net h))) ms
        cases none q = absurd (ground (arith, q, sent))
        cases (some j) q = subst (All _) one (gone j, tt)
          where
            one : update_net e (client_update addr_info dst src j) ∷ [] ≡ ms
            one = ground (arith, q, sent)

    net-Clears :
        (s : Network W) (i : FlowInfo W)
        → Clears (update_net_enforcer_client addr_info s i) (remove_net_enforcer_client addr_info i)
    unfolding update_net_enforcer_client remove_net_enforcer_client
    net-Clears s i = cases (net_addresses i.enforcing) refl
      where
        cases :
            (o : Option (String × String × String))
            → net_addresses i.enforcing ≡ o
            → Clears
                (update_net_enforcer_client addr_info s i)
                (remove_net_enforcer_client addr_info i)
        cases none e = rw (e, update_net_enforcer_client, remove_net_enforcer_client) nothing-Clears
        cases (some a) e =
            rw (e, update_net_enforcer_client, remove_net_enforcer_client)
              (update-Clears s i a.0 a.1 a.2)

    nfs-Clears :
        (s : Network W) (i : FlowInfo W)
        → Clears (update_nfs_enforcer_client addr_info s i) (remove_nfs_enforcer_client addr_info i)
    unfolding update_nfs_enforcer_client
    nfs-Clears s i ms sent net d = cases (storage_addresses i.enforcing) refl
      where
        after : String → Enforcer W
        after h = serve h (remove_nfs_enforcer_client addr_info i) (net h)

        found :
            (a : String × String) (o : Option (FlowInfo W))
            → set_flow_parameters s i ≡ o
            → storage_addresses i.enforcing ≡ some a
            → All (IsCleared after) ms
        found a none q e = absurd (ground (arith, q, e, sent))
        found a (some j) q e = subst (All (IsCleared after)) one (tt, tt)
          where
            one : update_storage a.0 (storage_client addr_info a.1 j) ∷ [] ≡ ms
            one = ground (arith, q, e, sent)

        cases :
            (o : Option (String × String))
            → storage_addresses i.enforcing ≡ o
            → All (IsCleared after) ms
        cases none e = subst (All (IsCleared after)) none_sent tt
          where
            none_sent : [] ≡ ms
            none_sent = ground (arith, e, sent)
        cases (some a) e = found a (set_flow_parameters s i) refl e

    flow-Clears :
        (s : Network W) (i : FlowInfo W)
        → Clears (update_flow addr_info s i) (remove_flow addr_info i)
    unfolding update_flow remove_flow
    flow-Clears s i = cases i.enforcing.enforcer_type refl
      where
        cases :
            (o : Option String)
            → i.enforcing.enforcer_type ≡ o
            → Clears (update_flow addr_info s i) (remove_flow addr_info i)
        cases none e = rw (e, update_flow, remove_flow) nothing-Clears
        cases (some t) e =
            rw (e, update_flow, remove_flow)
              (if_both Clears (string_key.beq t "network") (net-Clears s i)
                (if_both Clears (string_key.beq t "storage") (nfs-Clears s i) nothing-Clears))

    -- Where one list of messages follows another, the removals do too.
    append-Clears :
        (o p : Option (List (Message W))) (first second : List (Message W))
        → All Removes first
        → All Removes second
        → Clears o first
        → Clears p second
        → Clears (o >>= λ m. p >>= λ more. some (m ++ more)) (first ++ second)
    append-Clears none p first second r q hx hy ms sent net d = cc
    append-Clears (some m) none first second r q hx hy ms sent net d = cc
    append-Clears (some m) (some more) first second r q hx hy ms sent net d =
        subst (λ w. All (IsCleared w) ms) regrouped
          (subst (All (IsCleared after)) both (
            All-append (IsCleared after) m more
              (All-map (IsCleared between) (IsCleared after) kept m (hx m refl net d))
              (hy more refl between (λ h.
                receive_all-HasOneOfEach num_priorities max_rate to_unsigned times get_sent_bytes h
                  first (net h) r (d h)))))
      where
        between : String → Enforcer W
        between h = serve h first (net h)

        after : String → Enforcer W
        after h = serve h second (between h)

        kept : (x : Message W) → IsCleared between x → IsCleared after x
        kept (update_net e u) h =
            receive_all-IsAbsent num_priorities max_rate to_unsigned times get_sent_bytes e second
              u.client (between e) q h
        kept (remove_net e a) h = tt
        kept (update_storage e c) h = tt

        regrouped : after ≡ (λ h. serve h (first ++ second) (net h))
        regrouped = fun_ext (λ h. sym (
            receive_all-append num_priorities max_rate to_unsigned times get_sent_bytes h first
              second (net h)))

        both : m ++ more ≡ ms
        both = cc

    flows-Clears :
        (s : Network W) (is : List (FlowInfo W))
        → Clears (update_flows addr_info s is) (remove_flows addr_info is)
    unfolding update_flows remove_flows
    flows-Clears s [] = nothing-Clears
    flows-Clears s (i ∷ is) =
        append-Clears (update_flow addr_info s i) (update_flows addr_info s is)
          (remove_flow addr_info i) (remove_flows addr_info is)
          (remove_flow-All addr_info Removes (λ e a. tt) (λ e a. tt) i)
          (remove_flows-All addr_info Removes (λ e a. tt) (λ e a. tt) is) (flow-Clears s i)
          (flows-Clears s is)

    -- For a client that the controller knows, with the stored description from which its updates were
    -- sent, and network enforcers with one client for each address: DelClient sends messages, and once
    -- the enforcers have served them, none of them knows an address that the updates had set there,
    -- whatever the enforcers' tables were when the messages came.
    pub del_client_messages-IsCleared :
        (name : String) (c : Controller W) (info : ClientInfo W) (s : Network W)
        (ms : List (Message W))
        → (id_by_name name c.network.client_ids == 0) ≡ false
        → lookup (id_by_name name c.network.client_ids) c.store ≡ some info
        → update_flows addr_info s (elements info.flows) ≡ some ms
        → (net : String → Enforcer W) → ((h : String) → HasOneOfEach (net h))
        → (removals : List (Message W)) × (del_client_messages addr_info name c ≡ some removals)
          × All (IsCleared (λ h. serve h removals (net h))) ms
    unfolding del_client_messages
    del_client_messages-IsCleared name c info s ms known stored sent net d = (
      remove_flows addr_info (elements info.flows),
      rw (known, stored) refl,
      flows-Clears s (elements info.flows) ms sent net d,
    )

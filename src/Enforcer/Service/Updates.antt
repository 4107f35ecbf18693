-- ===== src/Enforcer/Service/Updates.antt =====
-- What an update of the storage clients leaves.
use workload_compactor.Base.{
  ℕ, ◌≡◌, refl, sym, ap, ◌∙◌, ◌==◌, ==_iff, false, List, [], ◌∷◌, map, some, arith, length, All,
  nat_key,
}
use workload_compactor.Base.Table.{lookup, lookup-insert_here, lookup-insert_other}
use workload_compactor.Scheduler.Types.{Client, RateLimit, Scheduler}
use workload_compactor.Scheduler.Methods.{update_client}
use workload_compactor.Enforcer.Service.{StorageClient, paired, storage_enforcer_update_svc}

module _ {W : Type 0} where
  -- A rate limit for each pair of a rate and a burst, with a full bucket.
  abbrev pub full : W × W → RateLimit W
  full l = record { rate = l.0; burst = l.1; tokens = l.1 }

  -- The scheduler's client of the address is limited as the update says.
  abbrev pub Follows : StorageClient W → Scheduler W → Type 0
  Follows u s =
      (c : Client W) × (lookup u.s_addr s.clients ≡ some c)
      × (c.priority ≡ u.priority)
      × (c.rate_limits ≡ map full (paired u.rate_limit_rates u.rate_limit_bursts))

  abbrev pub Others : ℕ → List (StorageClient W) → Type 0
  Others addr us = All (λ (u : StorageClient W). (u.s_addr == addr) ≡ false) us

  abbrev pub HasOwnAddresses : List (StorageClient W) → Type 0
  HasOwnAddresses [] = Unit
  HasOwnAddresses (u ∷ us) = Others u.s_addr us × HasOwnAddresses us

  abbrev pub HasPairs : List (StorageClient W) → Type 0
  HasPairs us =
      All (λ (u : StorageClient W). length u.rate_limit_rates ≡ length u.rate_limit_bursts) us

  update_client-Follows :
      (now : ℕ) (u : StorageClient W) (s : Scheduler W)
      → Follows u
          (update_client now u.s_addr u.priority (paired u.rate_limit_rates u.rate_limit_bursts) s)
  unfolding update_client
  update_client-Follows now u s = (_, lookup-insert_here u.s_addr _ s.clients, refl, refl)

  update_client-other :
      (now addr : ℕ) (u : StorageClient W) (s : Scheduler W)
      → (u.s_addr == addr) ≡ false
      → lookup addr
          (update_client now u.s_addr u.priority
            (paired u.rate_limit_rates u.rate_limit_bursts)
            s).clients
        ≡ lookup addr s.clients
  unfolding update_client
  update_client-other now addr u s h = lookup-insert_other u.s_addr addr _ s.clients h

  -- The update of clients with other addresses.
  pub update_svc-other :
      (now addr : ℕ) (us : List (StorageClient W)) (s t : Scheduler W)
      → storage_enforcer_update_svc now us s ≡ some t
      → Others addr us
      → lookup addr t.clients ≡ lookup addr s.clients
  unfolding storage_enforcer_update_svc
  update_svc-other now addr [] s t e h = ap (λ (x : Scheduler W). lookup addr x.clients) (sym same)
    where
      same : s ≡ t
      same = cc
  update_svc-other now addr (u ∷ us) s t e h =
      let next =
        update_client now u.s_addr u.priority (paired u.rate_limit_rates u.rate_limit_bursts) s in
      let rest : storage_enforcer_update_svc now us next ≡ some t = ground (arith, e) in
      update_svc-other now addr us next t rest h.1 ∙ update_client-other now addr u s h.0

  -- For clients of different addresses, each with as many rates as bursts: the update does not fail an
  -- assertion, and afterwards each of them has the priority and the rate limits that it was sent, with
  -- full buckets.
  pub storage_enforcer_update_svc-Follows :
      (now : ℕ) (us : List (StorageClient W)) (s : Scheduler W)
      → HasOwnAddresses us
      → HasPairs us
      → (t : Scheduler W) × (storage_enforcer_update_svc now us s ≡ some t)
        × All (λ u. Follows u t) us
  unfolding storage_enforcer_update_svc
  storage_enforcer_update_svc-Follows now [] s h p = (s, refl, tt)
  storage_enforcer_update_svc-Follows now (u ∷ us) s h p =
      let next =
        update_client now u.s_addr u.priority (paired u.rate_limit_rates u.rate_limit_bursts) s in
      let (t, run, rest) = storage_enforcer_update_svc-Follows now us next h.1 p.1 in
      let (c, at, same, limits) = update_client-Follows now u s in
      (
        t,
        rw
            (
              (==_iff (length u.rate_limit_rates) (length u.rate_limit_bursts)).1 p.0,
              storage_enforcer_update_svc,
            )
            run,
        ((c, update_svc-other now u.s_addr us next t run h.0 ∙ at, same, limits), rest),
      )

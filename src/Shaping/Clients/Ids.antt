-- ===== src/Shaping/Clients/Ids.antt =====
-- The ids under which clients are known to the kernel, where two clients come to share one.
use workload_compactor.Base.{
  ◌>>=◌, ℕ, ◌+◌, ◌*◌, ◌^◌, ◌<◌, ◌≡◌, refl, ap, ◌∙◌, sym, subst, wrap32, not, false, ◌==◌, List, [],
  ◌++◌, Option, none, some, arith, length, Double,
}
use workload_compactor.Base.Table.{lookup, lookup-insert}
use workload_compactor.Shaping.Commands.{Command}
use workload_compactor.Shaping.Handles.{root_htb_handle, root_htb_minor}
use workload_compactor.Shaping.Clients.Filters.{
  Filter, filter_after, filter_after-append, levels-filters, base_exact, filter_of,
  update_client-filters,
}
use workload_compactor.Shaping.Clients.{
  Place, start_place, add_levels, new_client, later_commands, update_commands, new_enforcer,
  addr_eq, Addr, addr_key, Client, Enforcer, update_client, update_at, update_known,
  update_sent_bytes, get_occupancy, occupancy_at, blank_client,
}

module _ {W : Type 0} ⦃d : Double W⦄ (num_priorities max_rate : ℕ) (to_unsigned : W → ℕ) where
  abbrev pub id_in : Option (Client W) → Option ℕ
  id_in none = none
  id_in (some c) = some c.id

  -- The id of the client at an address, if there is one.
  abbrev pub id_of : Addr → Enforcer W → Option ℕ
  id_of addr s = id_in (lookup addr s.clients)

  blank-inserted :
      (now : ℕ) (sent : ℕ → ℕ → ℕ) (addr : Addr) (s : Enforcer W)
      → lookup addr s.clients ≡ none
      → lookup addr (get_occupancy num_priorities max_rate to_unsigned now sent addr s).1.clients
        ≡ some (blank_client num_priorities max_rate to_unsigned)
  unfolding get_occupancy occupancy_at blank_client
  blank-inserted now sent addr s e = rw (e, lookup-insert) (ground arith)

  known-id :
      (addr : Addr) (priority : ℕ) (limits : List (W × W)) (c : Client W) (s : Enforcer W)
      → priority < num_priorities
      → id_of addr (update_known num_priorities max_rate to_unsigned addr priority limits c s).1
        ≡ some c.id
  unfolding update_known
  known-id addr priority limits c s l =
      let open_priority : (priority == num_priorities) ≡ false = ground arith in
      rw open_priority (rw lookup-insert (ground arith))

  reused-id :
      (now later : ℕ) (sent : ℕ → ℕ → ℕ) (addr : Addr) (priority : ℕ) (limits : List (W × W))
      (s : Enforcer W)
      → lookup addr s.clients ≡ none
      → priority < num_priorities
      → let asked = (get_occupancy num_priorities max_rate to_unsigned now sent addr s).1 in
        let updated =
          (update_client num_priorities max_rate to_unsigned later sent addr priority limits
            asked).1 in
        id_of addr updated ≡ some 0
  unfolding update_client update_at update_known update_sent_bytes blank_client
  reused-id now later sent addr priority limits s e l = rw (blank-inserted now sent addr s e) (
      known-id addr priority limits (blank_client num_priorities max_rate to_unsigned)
        (get_occupancy num_priorities max_rate to_unsigned now sent addr s).1 l)

  -- At the root, the filter of a client with priority 0 is replaced by one of the address.
  root-replaced :
      (b : Addr) (id priority : ℕ) (limits : List (W × W)) (g : Filter)
      → 5 * num_priorities + 2 < 2 ^ 32
      → 0 < priority
      → priority < num_priorities
      → filter_after root_htb_handle id
          (update_commands num_priorities max_rate to_unsigned b id 0 0 priority limits)
          (some g)
        ≡ some (some (record { dst = b.0; src = b.1; minor = root_htb_minor priority }))
  unfolding update_commands later_commands root_htb_handle filter_after
  root-replaced b id q limits g h pos below =
      levels-filters num_priorities max_rate to_unsigned root_htb_handle id id q (not (0 == q)) 0
        limits (start_place num_priorities max_rate to_unsigned id q) _ _
      ∙ later
          (add_levels num_priorities max_rate to_unsigned id q (not (0 == q)) 0 limits
            (start_place num_priorities max_rate to_unsigned id q)).1
    where
      later :
          (r : Place)
          → filter_after root_htb_handle id
              (later_commands num_priorities max_rate to_unsigned b id 0 0 q (length limits) r)
              (some g)
            ≡ some (some (record { dst = b.0; src = b.1; minor = root_htb_minor q }))
      later r =
          let e = base_exact num_priorities max_rate to_unsigned q (omega (arith, below)) h in
          ground (arith, e)

  -- A client whose address is another's is still there after the enforcer is asked, or updates.
  asked-other :
      (now : ℕ) (sent : ℕ → ℕ → ℕ) (a b : Addr) (s : Enforcer W)
      → addr_eq b a ≡ false
      → lookup b s.clients ≡ none
      → lookup a (get_occupancy num_priorities max_rate to_unsigned now sent b s).1.clients
        ≡ lookup a s.clients
  unfolding get_occupancy occupancy_at blank_client
  asked-other now sent a b s apart e = rw (e, lookup-insert) (ground arith)

  known-other :
      (a b : Addr) (priority : ℕ) (limits : List (W × W)) (c : Client W) (s : Enforcer W)
      → addr_eq b a ≡ false
      → priority < num_priorities
      → lookup a (update_known num_priorities max_rate to_unsigned b priority limits c s).1.clients
        ≡ lookup a s.clients
  unfolding update_known
  known-other a b priority limits c s apart l =
      let open_priority : (priority == num_priorities) ≡ false = ground arith in
      rw (open_priority, lookup-insert) (ground (arith, apart))

  known-filter :
      (a : Addr) (priority : ℕ) (limits : List (W × W)) (c : Client W) (s : Enforcer W)
      → priority < num_priorities
      → filter_of num_priorities max_rate to_unsigned a
          (lookup a
            (update_known num_priorities max_rate to_unsigned a priority limits c s).1.clients)
          root_htb_handle
        ≡ some (record { dst = a.0; src = a.1; minor = root_htb_minor priority })
  unfolding update_known root_htb_handle
  known-filter a priority limits c s l =
      let open_priority : (priority == num_priorities) ≡ false = ground arith in
      rw open_priority (rw lookup-insert (ground arith))

  -- The first client of an enforcer.
  module _ (now : ℕ) (sent : ℕ → ℕ → ℕ) (a : Addr) (p : ℕ) (limits : List (W × W))
      (below : p < num_priorities) where
    abbrev first : List Command × Enforcer W
    first = update_client num_priorities max_rate to_unsigned now sent a p limits new_enforcer

    abbrev started : Client W
    started = new_client num_priorities max_rate to_unsigned now 0

    abbrev counted : Enforcer W
    counted = record { clients = []; next_id = wrap32 (0 + 1) }

    first_known :
        first ≡ update_known num_priorities max_rate to_unsigned a p limits started counted
    unfolding update_client update_at new_enforcer lookup
    first_known =
        let open_priority : (p == num_priorities) ≡ false = ground arith in rw open_priority refl

    first-id : id_of a first.1 ≡ some 0
    unfolding new_client
    first-id =
        subst (λ (r : List Command × Enforcer W). id_of a r.1 ≡ some 0) (sym first_known)
          (known-id a p limits started counted below)

    first-other : (b : Addr) → addr_eq a b ≡ false → lookup b first.1.clients ≡ none
    unfolding lookup
    first-other b apart =
        subst (λ (r : List Command × Enforcer W). lookup b r.1.clients ≡ none) (sym first_known)
          (known-other b a p limits started counted apart below)

    first-filter :
        5 * num_priorities + 2 < 2 ^ 32
        → filter_after root_htb_handle 0 first.0 none
          ≡ some (some (record { dst = a.0; src = a.1; minor = root_htb_minor p }))
    unfolding new_enforcer lookup
    first-filter h =
        update_client-filters num_priorities max_rate to_unsigned now sent a p limits new_enforcer
          root_htb_handle h tt (λ c e. absurd (ground (arith, e))) (omega (arith, below))
          (λ q. absurd (omega (arith, q, below)))
        ∙ ap some (
            subst
              (λ (r : List Command × Enforcer W).
                filter_of num_priorities max_rate to_unsigned a (lookup a r.1.clients)
                  root_htb_handle
                ≡ some (record { dst = a.0; src = a.1; minor = root_htb_minor p }))
              (sym first_known) (known-filter a p limits started counted below))

  second_known :
      (later : ℕ) (sent : ℕ → ℕ → ℕ) (b : Addr) (q : ℕ) (limits : List (W × W)) (s : Enforcer W)
      → lookup b s.clients ≡ some (blank_client num_priorities max_rate to_unsigned)
      → update_client num_priorities max_rate to_unsigned later sent b q limits s
        ≡ update_known num_priorities max_rate to_unsigned b q limits
            (blank_client num_priorities max_rate to_unsigned)
            s
  unfolding update_client update_at update_sent_bytes blank_client
  second_known later sent b q limits s e = rw e refl

  blank-filter :
      (b : Addr) (q : ℕ) (limits : List (W × W)) (g : Filter) (s : Enforcer W)
      → 5 * num_priorities + 2 < 2 ^ 32
      → 0 < q
      → q < num_priorities
      → filter_after root_htb_handle 0
          (update_known num_priorities max_rate to_unsigned b q limits
            (blank_client num_priorities max_rate to_unsigned)
            s).0
          (some g)
        ≡ some (some (record { dst = b.0; src = b.1; minor = root_htb_minor q }))
  unfolding update_known blank_client
  blank-filter b q limits g s h pos lq = root-replaced b 0 q limits g h pos lq

  -- An enforcer that has served no one adds a first client, is asked for the occupancy of another
  -- address, and is then given a priority for that, which is not 0: both clients have the id 0, and the
  -- filter that the root had for the first client is replaced by one from the second's addresses,
  -- so that it has none for the first client any more. The addresses are different, the priorities in
  -- range, and as many as fit 32-bit handles.
  pub get_occupancy-takes_filter :
      (now asked later : ℕ) (sent : ℕ → ℕ → ℕ) (a b : Addr) (p q : ℕ) (limits more : List (W × W))
      → 5 * num_priorities + 2 < 2 ^ 32
      → addr_eq a b ≡ false
      → p < num_priorities
      → 0 < q
      → q < num_priorities
      → let x =
          update_client num_priorities max_rate to_unsigned now sent a p limits new_enforcer in
        let s = (get_occupancy num_priorities max_rate to_unsigned asked sent b x.1).1 in
        let y = update_client num_priorities max_rate to_unsigned later sent b q more s in
        (id_of a y.1 ≡ some 0)
        × (id_of b y.1 ≡ some 0)
        × (filter_after root_htb_handle 0 x.0 none
            ≡ some (some (record { dst = a.0; src = a.1; minor = root_htb_minor p })))
        × (filter_after root_htb_handle 0 (x.0 ++ y.0) none
            ≡ some (some (record { dst = b.0; src = b.1; minor = root_htb_minor q })))
  get_occupancy-takes_filter now asked later sent a b p q limits more h apart lp pos lq =
      let apart' : addr_eq b a ≡ false = ground (arith, apart) in
      let x = first now sent a p limits lp in
      let s = (get_occupancy num_priorities max_rate to_unsigned asked sent b x.1).1 in
      let unknown = first-other now sent a p limits lp b apart in
      let blank = blank-inserted asked sent b x.1 unknown in
      let before = asked-other asked sent a b x.1 apart' unknown in
      let alone = first-filter now sent a p limits lp h in
      let second = update_client num_priorities max_rate to_unsigned later sent b q more s in
      let met = second_known later sent b q more s blank in
      (
        ap id_in (
              subst (λ (r : List Command × Enforcer W). lookup a r.1.clients ≡ lookup a s.clients)
                (sym met)
                (known-other a b q more (blank_client num_priorities max_rate to_unsigned) s apart'
                  lq))
            ∙ ap id_in before
            ∙ first-id now sent a p limits lp,
        reused-id asked later sent b q more x.1 unknown lq,
        alone,
        filter_after-append root_htb_handle 0 x.0 second.0 none
            ∙ ap (λ o. o >>= filter_after root_htb_handle 0 second.0) alone
            ∙ subst
                (λ (r : List Command × Enforcer W).
                  filter_after root_htb_handle 0 r.0
                    (some (record { dst = a.0; src = a.1; minor = root_htb_minor p }))
                  ≡ some (some (record { dst = b.0; src = b.1; minor = root_htb_minor q })))
                (sym met) (blank-filter b q more _ s h pos lq),
      )

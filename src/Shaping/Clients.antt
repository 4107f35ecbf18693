-- ===== src/Shaping/Clients.antt =====
-- The clients of the enforcer: `updateClient`, the occupancy and the requests. The bytes that a class
-- has sent are a parameter, since the kernel counts them.
use workload_compactor.Base.{
  ℕ, suc, ◌+◌, ◌*◌, Bool, true, false, not, ◌&&◌, ◌||◌, if◌then◌else◌, ◌==◌, List, [], ◌∷◌, ◌++◌,
  Option, none, some, length, ltb, leb, wrap32, wrap64, sub64, Double, Key, ◌≡◌, ◌↔◌, arith, ==_iff,
}
use workload_compactor.Base.Table.{Table, lookup, insert, erase}
use workload_compactor.Shaping.Handles.{
  num_levels, root_htb_handle, root_htb_minor, htb_minor, htb_base_handle, htb_handle,
}
use workload_compactor.Shaping.Commands.{
  Command, remove_qdisc, remove_class, remove_filter, add_htb_qdisc, add_htb_class, add_filter,
}
pub mod Filters
pub mod Ids

-- `pair<unsigned long, unsigned long>`: the destination and the source.
abbrev pub Addr : Type 0
Addr = ℕ × ℕ

abbrev addr_eq : Addr → Addr → Bool
addr_eq a b = a.0 == b.0 && a.1 == b.1

abbrev addr_lt : Addr → Addr → Bool
addr_lt a b = ltb a.0 b.0 || a.0 == b.0 && ltb a.1 b.1

pub addr_eq_iff : (a b : Addr) → (addr_eq a b ≡ true) ↔ (a ≡ b)
addr_eq_iff a b = ground arith

instance abbrev pub addr_key : Key Addr
addr_key = record { beq = addr_eq; blt = addr_lt; beq_iff = addr_eq_iff }

pub record Client (W : Type 0) : Type 0 where
  pub id : ℕ
  pub priority : ℕ
  pub rate_limit_length : ℕ
  pub rate : W
  pub last_sent_bytes_time : ℕ
  pub max_sent_bytes : W
  pub prev_sent_bytes : ℕ
  pub sent_bytes : ℕ

-- The globals g_clients and g_nextId.
pub record Enforcer (W : Type 0) : Type 0 where
  pub clients : Table Addr (Client W)
  pub next_id : ℕ

-- The globals at the start.
unfoldable pub new_enforcer : {W : Type 0} → Enforcer W
new_enforcer = record { clients = []; next_id = 0 }

-- `NetClientUpdate`, with the bursts beside their rates: the code reads both arrays at the length of
-- the first.
pub record ClientUpdate (W : Type 0) : Type 0 where
  pub client : Addr
  pub priority : ℕ
  pub rate_limits : List (W × W)

-- The locals `level`, `parentHandle`, `minor` and `childHandle` of `updateClient`.
pub record Place : Type 0 where
  pub level : ℕ
  pub parent_handle : ℕ
  pub minor : ℕ
  pub child_handle : ℕ

-- The globals g_numPriorities and g_maxRate, and the conversion of a rate to `unsigned int`.
module _ {W : Type 0} ⦃d : Double W⦄ (num_priorities max_rate : ℕ) (to_unsigned : W → ℕ) where
  unfoldable pub update_sent_bytes : ℕ → (ℕ → ℕ → ℕ) → Client W → Client W
  update_sent_bytes now get_sent_bytes c =
      let current = get_sent_bytes (htb_base_handle num_priorities c.priority) (htb_minor c.id 0) in
      if ltb 0 c.rate_limit_length
      then record c {
        sent_bytes = wrap64 (c.sent_bytes + sub64 current c.prev_sent_bytes);
        prev_sent_bytes = current;
        max_sent_bytes = d.add c.max_sent_bytes (
            d.mul c.rate
              (d.div (d.of_ℕ (sub64 now c.last_sent_bytes_time)) (d.of_ℕ 1_000_000_000)));
        last_sent_bytes_time = now;
      }
      else c

  unfoldable pub start_place : ℕ → ℕ → Place
  start_place id priority = record {
    level = 0;
    parent_handle = htb_base_handle num_priorities priority;
    minor = htb_minor id 0;
    child_handle = htb_handle num_priorities id priority 0;
  }

  -- The part of the loop's body under `level > 0`: the handles of a level, and its qdisc. `fresh` is
  -- `oldPriority != priority`.
  unfoldable pub enter_level : ℕ → ℕ → Bool → ℕ → Place → List Command × Place
  enter_level id priority fresh old_length p =
      if ltb 0 p.level
      then (
        if leb old_length (p.level * 2) || fresh
            then add_htb_qdisc p.parent_handle p.minor p.child_handle ∷ []
            else [],
        record p {
          parent_handle = p.child_handle;
          minor = htb_minor id p.level;
          child_handle = htb_handle num_priorities id priority p.level;
        },
      )
      else ([], p)

  abbrev next_level : Place → Place
  next_level p = record p { level = suc p.level }

  -- Each level of the chain takes two rate limits; the second of the last may be missing.
  unfoldable pub add_levels : ℕ → ℕ → Bool → ℕ → List (W × W) → Place → List Command × Place
  unfolding enter_level
  add_levels id priority fresh old_length [] p = ([], p)
  add_levels id priority fresh old_length ((rate, burst) ∷ []) p =
      let (commands, q) = enter_level id priority fresh old_length p in
      (
        commands
            ++ (add_htb_class q.parent_handle q.minor (to_unsigned rate) (to_unsigned rate)
                  (to_unsigned burst) (to_unsigned burst)
                ∷ []),
        next_level q,
      )
  add_levels id priority fresh old_length ((rate, burst) ∷ (ceil, cburst) ∷ more) p =
      let (commands, q) = enter_level id priority fresh old_length p in
      let (rest, r) = add_levels id priority fresh old_length more (next_level q) in
      (
        commands
            ++ (add_htb_class q.parent_handle q.minor (to_unsigned rate) (to_unsigned ceil)
                  (to_unsigned burst) (to_unsigned cburst)
                ∷ rest),
        r,
      )

  abbrev when : Bool → Command → List Command
  when true c = c ∷ []
  when false c = []

  -- The commands after the loop, for `length` rate limits and the handles that the loop leaves.
  unfoldable pub later_commands : Addr → ℕ → ℕ → ℕ → ℕ → ℕ → Place → List Command
  later_commands addr id old_priority old_length priority length p =
      let fresh = not (old_priority == priority) in
      let used = ltb 0 length in
      when (used && (old_length == 0 || fresh))
        (add_filter (htb_base_handle num_priorities priority) id addr.0 addr.1 (htb_minor id 0))
      ++ when (fresh && ltb old_priority num_priorities) (remove_filter root_htb_handle id)
      ++ when (fresh && ltb priority num_priorities)
          (add_filter root_htb_handle id addr.0 addr.1 (root_htb_minor priority))
      ++ when (ltb 2 old_length && fresh) (
          remove_qdisc (htb_base_handle num_priorities old_priority) (htb_minor id 0)
            (htb_handle num_priorities id old_priority 0))
      ++ when (ltb 2 old_length && not fresh && ltb (p.level * 2) old_length)
          (remove_qdisc p.parent_handle p.minor p.child_handle)
      ++ when (ltb 0 old_length && (not used || fresh))
          (remove_filter (htb_base_handle num_priorities old_priority) id)
      ++ when (ltb 0 old_length && (not used || fresh))
          (remove_class (htb_base_handle num_priorities old_priority) (htb_minor id 0))

  -- The commands of `updateClient`, from the loop on.
  unfoldable pub update_commands : Addr → ℕ → ℕ → ℕ → ℕ → List (W × W) → List Command
  unfolding add_levels start_place later_commands
  update_commands addr id old_priority old_length priority limits =
      let levels =
        add_levels id priority (not (old_priority == priority)) old_length limits
          (start_place id priority) in
      levels.0 ++ later_commands addr id old_priority old_length priority (length limits) levels.1

  -- The client that `g_clients[addr]` makes, with the fields that a new client gets at once.
  unfoldable pub new_client : ℕ → ℕ → Client W
  new_client now id = record {
    id = id;
    priority = num_priorities;
    rate_limit_length = 0;
    rate = d.of_ℕ max_rate;
    last_sent_bytes_time = now;
    max_sent_bytes = d.nought;
    prev_sent_bytes = 0;
    sent_bytes = 0;
  }

  abbrev first_rate : List (W × W) → W
  first_rate [] = d.of_ℕ max_rate
  first_rate (l ∷ ls) = l.0

  -- The client's new fields; a new client has `old` with priority g_numPriorities and no rate limit,
  -- which are the old values that the code uses for it.
  unfoldable pub update_known :
      Addr → ℕ → List (W × W) → Client W → Enforcer W → List Command × Enforcer W
  unfolding update_commands
  update_known addr priority limits old s = (
    update_commands addr old.id old.priority old.rate_limit_length priority limits,
    record s {
      clients =
          if priority == num_priorities
          then erase addr s.clients
          else insert addr
              (record old {
                priority = priority;
                rate_limit_length = length limits;
                rate = first_rate limits;
                prev_sent_bytes = if not (old.priority == priority) then 0 else old.prev_sent_bytes;
              })
              s.clients;
    },
  )

  -- `updateClient`, on what `g_clients` has at the address.
  unfoldable pub update_at :
      ℕ
      → (ℕ → ℕ → ℕ)
      → Addr
      → ℕ
      → List (W × W)
      → Option (Client W)
      → Enforcer W
      → List Command × Enforcer W
  unfolding update_known new_client update_sent_bytes
  update_at now get_sent_bytes addr priority limits (some c) s =
      update_known addr priority limits (update_sent_bytes now get_sent_bytes c) s
  update_at now get_sent_bytes addr priority limits none s =
      if priority == num_priorities
      then ([], s)
      else update_known addr priority limits (new_client now s.next_id)
          (record s { next_id = wrap32 (s.next_id + 1) })

  unfoldable pub update_client :
      ℕ → (ℕ → ℕ → ℕ) → Addr → ℕ → List (W × W) → Enforcer W → List Command × Enforcer W
  unfolding update_at
  update_client now get_sent_bytes addr priority limits s =
      update_at now get_sent_bytes addr priority limits (lookup addr s.clients) s

  -- The loop of the UpdateClients RPC; `times` has the clock at each update.
  unfoldable pub update_clients_svc :
      (ℕ → ℕ) → (ℕ → ℕ → ℕ) → List (ClientUpdate W) → Enforcer W → List Command × Enforcer W
  unfolding update_client
  update_clients_svc times get_sent_bytes [] s = ([], s)
  update_clients_svc times get_sent_bytes (u ∷ us) s =
      let rest = update_clients_svc (λ n. times (suc n)) get_sent_bytes us in
      if leb num_priorities u.priority || ltb ((num_levels + 1) * 2) (length u.rate_limits)
      then rest s
      else (let (commands, t) =
            update_client (times 0) get_sent_bytes u.client u.priority u.rate_limits s in
          let (more, v) = rest t in (commands ++ more, v))

  -- The loop of the RemoveClients RPC.
  unfoldable pub remove_clients_svc :
      (ℕ → ℕ) → (ℕ → ℕ → ℕ) → List Addr → Enforcer W → List Command × Enforcer W
  unfolding update_client
  remove_clients_svc times get_sent_bytes [] s = ([], s)
  remove_clients_svc times get_sent_bytes (a ∷ addrs) s =
      let (commands, t) = update_client (times 0) get_sent_bytes a num_priorities [] s in
      let (more, u) = remove_clients_svc (λ n. times (suc n)) get_sent_bytes addrs t in
      (commands ++ more, u)

  -- The client that `g_clients[addr]` makes for an unknown address: every field is 0.
  unfoldable pub blank_client : Client W
  blank_client = record {
    id = 0;
    priority = 0;
    rate_limit_length = 0;
    rate = d.nought;
    last_sent_bytes_time = 0;
    max_sent_bytes = d.nought;
    prev_sent_bytes = 0;
    sent_bytes = 0;
  }

  abbrev pub or_blank : Option (Client W) → Client W
  or_blank none = blank_client
  or_blank (some c) = c

  abbrev occupancy_of : Client W → W
  occupancy_of c =
      let occupancy : W = d.div (d.of_ℕ c.sent_bytes) c.max_sent_bytes in
      if d.lt (d.of_ℕ 1) occupancy then d.of_ℕ 1 else occupancy

  -- `getOccupancy`, on the client `c` that `g_clients` has or makes at the address.
  unfoldable pub occupancy_at : ℕ → (ℕ → ℕ → ℕ) → Addr → Client W → Enforcer W → W × Enforcer W
  unfolding update_sent_bytes
  occupancy_at now get_sent_bytes addr c s =
      let u = update_sent_bytes now get_sent_bytes c in
      if c.priority == 0 then (d.nought, record s { clients = insert addr c s.clients }) else (
        occupancy_of u,
        record s {
          clients = insert addr (record u { sent_bytes = 0; max_sent_bytes = d.nought }) s.clients;
        },
      )

  unfoldable pub get_occupancy : ℕ → (ℕ → ℕ → ℕ) → Addr → Enforcer W → W × Enforcer W
  unfolding blank_client occupancy_at
  get_occupancy now get_sent_bytes addr s =
      occupancy_at now get_sent_bytes addr (or_blank (lookup addr s.clients)) s

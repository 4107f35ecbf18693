-- ===== src/Shaping/Clients/Filters.antt =====
-- The filters that direct a client's packets, as the commands of `updateClient` leave them.
use workload_compactor.Base.{
  ◌>>=◌, ℕ, suc, ◌+◌, ◌*◌, ◌%◌, ◌^◌, ◌<◌, ◌≤◌, ◌≡◌, refl, ◌∙◌, Bool, true, false, not, ◌&&◌,
  if◌then◌else◌, ◌==◌, List, [], ◌∷◌, ◌++◌, Option, none, some, length, ltb, arith, Double,
  Bool-cases, inl, inr,
}
use workload_compactor.Base.Table.{lookup, lookup-insert}
use workload_compactor.Base.Table.Distinct.{IsDistinct, lookup-erase}
use workload_compactor.Shaping.Handles.{
  root_htb_handle, root_htb_minor, root_htb_minor_helper, root_htb_minor_default, dsmark_handle,
  htb_base_handle, htb_minor,
}
use workload_compactor.Shaping.Commands.{Command, remove_filter, add_filter}
use workload_compactor.Shaping.Clients.{
  Addr, addr_key, Client, Enforcer, Place, enter_level, add_levels, start_place, later_commands,
  update_commands, update_known, update_sent_bytes, new_client, update_client, update_at,
}

-- A filter: the packets to a destination, from a source, go to the class of a minor number.
pub record Filter : Type 0 where
  pub dst : ℕ
  pub src : ℕ
  pub minor : ℕ

-- The filter that a discipline has for a client id after commands. `none`: one was added where one was,
-- or removed where there was none.
unfoldable pub filter_after : ℕ → ℕ → List Command → Option Filter → Option (Option Filter)
filter_after handle id [] f = some f
filter_after handle id (add_filter h i dst src minor ∷ cs) f =
    let rest = filter_after handle id cs in
    if h == handle && i == id
    then (elim f [
      | none ↦ rest (some (record { dst = dst; src = src; minor = minor }))
      | some g ↦ none
    ])
    else rest f
filter_after handle id (remove_filter h i ∷ cs) f =
    let rest = filter_after handle id cs in
    if h == handle && i == id then (elim f [ none ↦ none | some g ↦ rest none ]) else rest f
filter_after handle id (_ ∷ cs) f = filter_after handle id cs f

-- The filter that a discipline should have for a client: at the root, to the class of its priority; at
-- its priority's base discipline, if it has rate limits, to the first class of its own; none elsewhere.
abbrev pub needed_filter : ℕ → Addr → ℕ → ℕ → ℕ → ℕ → Option Filter
needed_filter num_priorities addr id priority limits handle =
    if ltb priority num_priorities
    then (if handle == root_htb_handle
        then some (record { dst = addr.0; src = addr.1; minor = root_htb_minor priority })
        else (if handle == htb_base_handle num_priorities priority && ltb 0 limits
            then some (record { dst = addr.0; src = addr.1; minor = htb_minor id 0 })
            else none))
    else none

either_then :
    (k : Option Filter → Option (Option Filter)) (b : Bool) (o p u v : Option (Option Filter))
    → u ≡ (o >>= k)
    → v ≡ (p >>= k)
    → (if b then u else v) ≡ ((if b then o else p) >>= k)
either_then k true o p u v x y = x
either_then k false o p u v x y = y

pub filter_after-append :
    (handle id : ℕ) (cs more : List Command) (f : Option Filter)
    → filter_after handle id (cs ++ more) f
      ≡ (filter_after handle id cs f >>= filter_after handle id more)
unfolding filter_after
filter_after-append handle id [] more f = refl
filter_after-append handle id (add_filter h i dst src minor ∷ cs) more none =
    either_then (filter_after handle id more) (h == handle && i == id) _ _ _ _
      (filter_after-append handle id cs more
        (some (record { dst = dst; src = src; minor = minor })))
      (filter_after-append handle id cs more none)
filter_after-append handle id (add_filter h i dst src minor ∷ cs) more (some g) =
    either_then (filter_after handle id more) (h == handle && i == id) none _ none _ refl
      (filter_after-append handle id cs more (some g))
filter_after-append handle id (remove_filter h i ∷ cs) more none =
    either_then (filter_after handle id more) (h == handle && i == id) none _ none _ refl
      (filter_after-append handle id cs more none)
filter_after-append handle id (remove_filter h i ∷ cs) more (some g) =
    either_then (filter_after handle id more) (h == handle && i == id) _ _ _ _
      (filter_after-append handle id cs more none) (filter_after-append handle id cs more (some g))
filter_after-append handle id (_ ∷ cs) more f = filter_after-append handle id cs more f

module _ {W : Type 0} ⦃d : Double W⦄ (num_priorities max_rate : ℕ) (to_unsigned : W → ℕ) where
  pub levels-filters :
      (handle i id priority : ℕ) (fresh : Bool) (old_length : ℕ) (limits : List (W × W)) (p : Place)
      (rest : List Command) (present : Option Filter)
      → filter_after handle i
          ((add_levels num_priorities max_rate to_unsigned id priority fresh old_length limits p).0
            ++ rest)
          present
        ≡ filter_after handle i rest present
  unfolding filter_after add_levels enter_level
  levels-filters handle i id priority fresh old_length [] p rest present = refl
  levels-filters handle i id priority fresh old_length ((rate, burst) ∷ []) p rest present =
      ground arith
  levels-filters handle i id priority fresh old_length ((rate, burst) ∷ (ceil, cburst) ∷ more) p
        rest present =
      let q = (enter_level num_priorities max_rate to_unsigned id priority fresh old_length p).1 in
      let ih =
        levels-filters handle i id priority fresh old_length more (record q { level = suc q.level })
          rest present in
      ground (arith, ih)

  pub base_exact :
      (p : ℕ)
      → p ≤ num_priorities
      → 5 * num_priorities + 2 < 2 ^ 32
      → htb_base_handle num_priorities p ≡ p + 3 * num_priorities + 2
  unfolding htb_base_handle dsmark_handle root_htb_minor_default root_htb_minor_helper
      root_htb_minor
  base_exact p l h = ground arith

  later-filters :
      (addr : Addr) (id o ol p n : ℕ) (q : Place) (handle : ℕ)
      → 5 * num_priorities + 2 < 2 ^ 32
      → o ≤ num_priorities
      → p ≤ num_priorities
      → (o ≡ num_priorities → ol ≡ 0)
      → (p ≡ num_priorities → n ≡ 0)
      → filter_after handle id
          (later_commands num_priorities max_rate to_unsigned addr id o ol p n q)
          (needed_filter num_priorities addr id o ol handle)
        ≡ some (needed_filter num_priorities addr id p n handle)
  unfolding later_commands root_htb_handle filter_after
  later-filters addr id o ol p n q handle h ho hp empty empty' =
      let a = base_exact o ho h in let b = base_exact p hp h in ground (arith, a, b)

  update_commands-filters :
      (addr : Addr) (id old_priority old_length priority : ℕ) (limits : List (W × W)) (handle : ℕ)
      → 5 * num_priorities + 2 < 2 ^ 32
      → old_priority ≤ num_priorities
      → priority ≤ num_priorities
      → (old_priority ≡ num_priorities → old_length ≡ 0)
      → (priority ≡ num_priorities → length limits ≡ 0)
      → filter_after handle id
          (update_commands num_priorities max_rate to_unsigned addr id old_priority old_length
            priority limits)
          (needed_filter num_priorities addr id old_priority old_length handle)
        ≡ some (needed_filter num_priorities addr id priority (length limits) handle)
  unfolding update_commands
  update_commands-filters addr id o ol p limits handle h ho hp empty empty' =
      levels-filters handle id id p (not (o == p)) ol limits
        (start_place num_priorities max_rate to_unsigned id p) _ _
      ∙ later-filters addr id o ol p (length limits) _ handle h ho hp empty empty'

  abbrev pub filter_of : Addr → Option (Client W) → ℕ → Option Filter
  filter_of addr none handle = none
  filter_of addr (some c) handle =
      needed_filter num_priorities addr c.id c.priority c.rate_limit_length handle

  -- The id under which `updateClient` works.
  abbrev pub id_at : Addr → Enforcer W → ℕ
  id_at addr s = elim (lookup addr s.clients) [ none ↦ s.next_id | some c ↦ c.id ]

  known-filters :
      (addr : Addr) (priority : ℕ) (limits : List (W × W)) (old : Client W) (s : Enforcer W)
      (handle : ℕ)
      → 5 * num_priorities + 2 < 2 ^ 32
      → IsDistinct s.clients
      → old.priority ≤ num_priorities
      → priority ≤ num_priorities
      → (old.priority ≡ num_priorities → old.rate_limit_length ≡ 0)
      → (priority ≡ num_priorities → length limits ≡ 0)
      → let r = update_known num_priorities max_rate to_unsigned addr priority limits old s in
        filter_after handle old.id r.0
          (needed_filter num_priorities addr old.id old.priority old.rate_limit_length handle)
        ≡ some (filter_of addr (lookup addr r.1.clients) handle)
  unfolding update_known
  known-filters addr p limits old s handle h dist ho hp e e' =
      let commands =
        update_commands-filters addr old.id old.priority old.rate_limit_length p limits handle h ho
          hp e e' in
      elim (Bool-cases (p == num_priorities)) [
        | inl q ↦ ground (arith, commands, lookup-erase addr s.clients dist)
        | inr q ↦ rw (q, lookup-insert) (ground (arith, commands))
      ]

  sent_bytes-same :
      (now : ℕ) (sent : ℕ → ℕ → ℕ) (c : Client W)
      → let u = update_sent_bytes num_priorities max_rate to_unsigned now sent c in
        (u.id ≡ c.id) × (u.priority ≡ c.priority) × (u.rate_limit_length ≡ c.rate_limit_length)
  unfolding update_sent_bytes
  sent_bytes-same now sent c = ground arith

  at-filters :
      (now : ℕ) (sent : ℕ → ℕ → ℕ) (addr : Addr) (priority : ℕ) (limits : List (W × W))
      (o : Option (Client W)) (s : Enforcer W) (handle : ℕ)
      → 5 * num_priorities + 2 < 2 ^ 32
      → IsDistinct s.clients
      → lookup addr s.clients ≡ o
      → ((c : Client W) → o ≡ some c → c.priority < num_priorities)
      → priority ≤ num_priorities
      → (priority ≡ num_priorities → length limits ≡ 0)
      → let r = update_at num_priorities max_rate to_unsigned now sent addr priority limits o s in
        filter_after handle
          (elim o [ none ↦ s.next_id | some c ↦ c.id ])
          r.0
          (filter_of addr o handle)
        ≡ some (filter_of addr (lookup addr r.1.clients) handle)
  unfolding update_at new_client filter_after
  at-filters now sent addr p limits none s handle h dist found range hp e =
      elim (Bool-cases (p == num_priorities)) [
        | inl r ↦ rw (r, found) refl
        | inr r ↦
            let fresh : Client W = new_client num_priorities max_rate to_unsigned now s.next_id in
            let known =
              known-filters addr p limits fresh (record s { next_id = (s.next_id + 1) % 2 ^ 32 })
                handle h dist (omega arith) hp (λ _. refl) e in
            ground (arith, known, r)
      ]
  at-filters now sent addr p limits (some c) s handle h dist found range hp e =
      let l = range c refl in
      let (i, q, n) = sent_bytes-same now sent c in
      let u = update_sent_bytes num_priorities max_rate to_unsigned now sent c in
      let known =
        known-filters addr p limits u s handle h dist (omega (arith, q)) hp
          (λ full. absurd (omega (arith, q, full))) e in
      ground (arith, known, i, q, n)

  -- The commands of `updateClient` (also those by which a client is removed) never add a filter that
  -- is there or remove one that is not, and leave at each discipline the filter that the client needs:
  -- at the root, from its addresses to the class of its priority; at the base of its priority, if it
  -- has rate limits, from its addresses to its first class; none elsewhere, and none if it is removed.
  -- It is so for a client whose filters were right, a table with one client for each address, a stored
  -- and a new priority in range, as many priorities as fit 32-bit handles, and no rate limits for a
  -- removal.
  pub update_client-filters :
      (now : ℕ) (sent : ℕ → ℕ → ℕ) (addr : Addr) (priority : ℕ) (limits : List (W × W))
      (s : Enforcer W) (handle : ℕ)
      → 5 * num_priorities + 2 < 2 ^ 32
      → IsDistinct s.clients
      → ((c : Client W) → lookup addr s.clients ≡ some c → c.priority < num_priorities)
      → priority ≤ num_priorities
      → (priority ≡ num_priorities → length limits ≡ 0)
      → let r = update_client num_priorities max_rate to_unsigned now sent addr priority limits s in
        filter_after handle (id_at addr s) r.0 (filter_of addr (lookup addr s.clients) handle)
        ≡ some (filter_of addr (lookup addr r.1.clients) handle)
  unfolding update_client
  update_client-filters now sent addr p limits s handle h dist range hp e =
      at-filters now sent addr p limits (lookup addr s.clients) s handle h dist refl range hp e

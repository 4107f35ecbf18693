-- ===== src/Shaping/Handles/Apart.antt =====
-- No two queueing disciplines or classes have the same number.
use workload_compactor.Base.{ℕ, zero, suc, ◌+◌, ◌*◌, ◌^◌, ◌<◌, ◌≡◌, arith, refl}
use workload_compactor.Shaping.Handles.{
  num_levels, root_htb_handle, root_htb_minor, root_htb_minor_helper, root_htb_minor_default,
  dsmark_handle, htb_base_handle, htb_handle,
}

-- A number below `m` beside a multiple of `m` can be read off their sum.
radix_unique : (m a b x y : ℕ) → x < m → y < m → a * m + x ≡ b * m + y → (a ≡ b) × (x ≡ y)
radix_unique m zero zero x y l k e = (refl, omega arith)
radix_unique m zero (suc b) x y l k e = absurd (omega arith)
radix_unique m (suc a) zero x y l k e = absurd (omega arith)
radix_unique m (suc a) (suc b) x y l k e =
    let (p, q) = radix_unique m a b x y l k (omega arith) in (omega (arith, p), q)

-- The largest number in use by clients up to an id.
abbrev pub largest_handle : ℕ → ℕ → ℕ
largest_handle num_priorities id =
    id * (num_priorities * num_levels) + num_priorities * num_levels + 4 * num_priorities + 3

module _ (num_priorities : ℕ) where
  htb_handle-exact :
      (id priority level : ℕ)
      → priority < num_priorities
      → level < num_levels
      → largest_handle num_priorities id < 2 ^ 32
      → htb_handle num_priorities id priority level
        ≡ id * (num_priorities * num_levels)
          + (priority * num_levels + level)
          + 4 * num_priorities
          + 2
  unfolding htb_handle htb_base_handle dsmark_handle root_htb_minor_default root_htb_minor_helper
      root_htb_minor
  htb_handle-exact id priority level p l h =
      let assoc : id * num_priorities * 5 ≡ id * (num_priorities * 5) = omega arith in
      omega (arith, assoc)

  -- The numbers of the disciplines that carry clients' rate limits are not reused: two that are equal
  -- are of the same client, priority and level, for priorities and levels in range and client ids
  -- whose numbers fit 32 bits.
  pub htb_handle-injective :
      (id priority level id' priority' level' : ℕ)
      → priority < num_priorities
      → level < num_levels
      → largest_handle num_priorities id < 2 ^ 32
      → priority' < num_priorities
      → level' < num_levels
      → largest_handle num_priorities id' < 2 ^ 32
      → htb_handle num_priorities id priority level ≡ htb_handle num_priorities id' priority' level'
      → (id ≡ id') × (priority ≡ priority') × (level ≡ level')
  htb_handle-injective id p l id' p' l' hp hl h hp' hl' h' e =
      let a = htb_handle-exact id p l hp hl h in
      let b = htb_handle-exact id' p' l' hp' hl' h' in
      let (same, offset) =
        radix_unique (num_priorities * num_levels) id id' (p * num_levels + l)
          (p' * num_levels + l') (omega arith) (omega arith) (omega (arith, a, b, e)) in
      (same, omega (arith, offset), omega (arith, offset))

  -- The numbers within the root discipline, the handles of the marking disciplines, those of the base
  -- disciplines and those of the clients' rate limits stand in this order without overlap, for
  -- priorities and levels in range and client ids whose numbers fit 32 bits.
  pub handles-ordered :
      (p q r id t level : ℕ)
      → p < num_priorities
      → q < num_priorities
      → r < num_priorities
      → t < num_priorities
      → level < num_levels
      → largest_handle num_priorities id < 2 ^ 32
      → (root_htb_minor p < root_htb_minor_helper num_priorities q)
        × (root_htb_minor_helper num_priorities q < root_htb_minor_default num_priorities)
        × (root_htb_minor_default num_priorities < dsmark_handle num_priorities r)
        × (dsmark_handle num_priorities r < htb_base_handle num_priorities p)
        × (htb_base_handle num_priorities p < htb_handle num_priorities id t level)
        × (root_htb_handle < dsmark_handle num_priorities r)
  unfolding htb_base_handle dsmark_handle root_htb_minor_default root_htb_minor_helper
      root_htb_minor root_htb_handle
  handles-ordered p q r id t level hp hq hr ht hl h =
      let a = htb_handle-exact id t level ht hl h in ground (arith, a)

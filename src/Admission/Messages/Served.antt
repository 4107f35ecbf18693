-- ===== src/Admission/Messages/Served.antt =====
-- The storage enforcers take the messages one by one; what a reset keeps and what it lifts.
use workload_compactor.Base.{
  ◌>>=◌, ℕ, ◌≡◌, refl, sym, ap, ◌∙◌, subst, Bool, true, false, ◌==◌, ==_iff, if◌then◌else◌, List,
  [], ◌∷◌, ◌++◌, map, length, Option, none, some, String, All, string_key, nat_key,
}
use workload_compactor.Base.Table.{lookup}
use workload_compactor.Scheduler.Types.{Client, Scheduler}
use workload_compactor.Enforcer.Service.{StorageClient, paired, storage_enforcer_update_svc}
use workload_compactor.Enforcer.Service.Updates.{
  full, storage_enforcer_update_svc-Follows, update_svc-other,
}
use workload_compactor.Admission.Messages.{Message, update_net, remove_net, update_storage}

module _ {W : Type 0} where
  -- The scheduler has a client of the address, with priority 0 and no rate limit.
  abbrev pub IsUnlimited : ℕ → Scheduler W → Type 0
  IsUnlimited addr s =
      (c : Client W) × (lookup addr s.clients ≡ some c) × (c.priority ≡ 0) × (c.rate_limits ≡ [])

  abbrev pub Lifts : StorageClient W → Type 0
  Lifts u = (u.priority ≡ 0) × (u.rate_limit_rates ≡ []) × (u.rate_limit_bursts ≡ [])

  -- A message by which DelClient removes a client.
  abbrev pub Resets : Message W → Type 0
  Resets (update_net e u) = Unit
  Resets (remove_net e a) = Unit
  Resets (update_storage e u) = Lifts u

  -- The storage enforcers limit the client that a message updated by nothing.
  abbrev pub IsReset : (String → Scheduler W) → Message W → Type 0
  IsReset after (update_net e u) = Unit
  IsReset after (remove_net e a) = Unit
  IsReset after (update_storage e u) = IsUnlimited u.s_addr (after e)

module _ {W : Type 0} (now : ℕ) where
  -- The storage enforcer at an address serves the messages to it; `none` is a failed assertion.
  unfoldable pub serve_storage : String → List (Message W) → Scheduler W → Option (Scheduler W)
  serve_storage host [] s = some s
  serve_storage host (update_net e u ∷ ms) s = serve_storage host ms s
  serve_storage host (remove_net e a ∷ ms) s = serve_storage host ms s
  serve_storage host (update_storage e u ∷ ms) s =
      let rest = serve_storage host ms in
      if string_key.beq e host
      then (storage_enforcer_update_svc now (u ∷ []) s >>= rest)
      else rest s

  pub serve_storage-append :
      (host : String) (ms more : List (Message W)) (s : Scheduler W)
      → serve_storage host (ms ++ more) s ≡ (serve_storage host ms s >>= serve_storage host more)
  unfolding serve_storage
  serve_storage-append host [] more s = refl
  serve_storage-append host (update_net e u ∷ ms) more s = serve_storage-append host ms more s
  serve_storage-append host (remove_net e a ∷ ms) more s = serve_storage-append host ms more s
  serve_storage-append host (update_storage e u ∷ ms) more s =
      cases (string_key.beq e host) (storage_enforcer_update_svc now (u ∷ []) s)
        (serve_storage-append host ms more)
    where
      cases :
          (b : Bool) (o : Option (Scheduler W))
          → ((t : Scheduler W)
              → serve_storage host (ms ++ more) t
                ≡ (serve_storage host ms t >>= serve_storage host more))
          → (if b
              then (o >>= serve_storage host (ms ++ more))
              else serve_storage host (ms ++ more) s)
            ≡ ((if b then (o >>= serve_storage host ms) else serve_storage host ms s)
                >>= serve_storage host more)
      cases true none h = refl
      cases true (some t) h = h t
      cases false o h = h s

  -- A reset lifts the limits of its client, and leaves those without limits so.
  pub update_svc-Lifts :
      (u : StorageClient W) (s : Scheduler W)
      → Lifts u
      → (t : Scheduler W) × (storage_enforcer_update_svc now (u ∷ []) s ≡ some t)
        × IsUnlimited u.s_addr t
        × ((a : ℕ) → IsUnlimited a s → IsUnlimited a t)
  unfolding paired
  update_svc-Lifts u s (first, rates, bursts) =
      let (t, run, followed) =
        storage_enforcer_update_svc-Follows now (u ∷ []) s (tt, tt)
          (ap length rates ∙ sym (ap length bursts), tt) in
      let (c, at, priority, limits) = followed.0 in
      let lifted : IsUnlimited u.s_addr t = (
        c,
        at,
        priority ∙ first,
        limits ∙ ap (λ l. map full (paired l u.rate_limit_bursts)) rates,
      ) in
      (t, run, lifted, λ a h. cases t run lifted a h (u.s_addr == a) refl)
    where
      cases :
          (t : Scheduler W)
          → storage_enforcer_update_svc now (u ∷ []) s ≡ some t
          → IsUnlimited u.s_addr t
          → (a : ℕ) → IsUnlimited a s
          → (b : Bool) → (u.s_addr == a) ≡ b
          → IsUnlimited a t
      cases t run lifted a h true e = subst (λ x. IsUnlimited x t) ((==_iff u.s_addr a).0 e) lifted
      cases t run lifted a (c, at, first, none_left) false e =
          (c, update_svc-other now a (u ∷ []) s t run (e, tt) ∙ at, first, none_left)

  pub serve_storage-Resets :
      (host : String) (ms : List (Message W)) (s : Scheduler W)
      → All Resets ms
      → (t : Scheduler W) × (serve_storage host ms s ≡ some t)
        × ((a : ℕ) → IsUnlimited a s → IsUnlimited a t)
  unfolding serve_storage
  serve_storage-Resets host [] s r = (s, refl, λ a h. h)
  serve_storage-Resets host (update_net e u ∷ ms) s r = serve_storage-Resets host ms s r.1
  serve_storage-Resets host (remove_net e a ∷ ms) s r = serve_storage-Resets host ms s r.1
  serve_storage-Resets host (update_storage e u ∷ ms) s r =
      let (v, run, lifted, kept) = update_svc-Lifts u s r.0 in
      cases (string_key.beq e host) v run kept (serve_storage-Resets host ms v r.1)
        (serve_storage-Resets host ms s r.1)
    where
      cases :
          (b : Bool) (v : Scheduler W)
          → storage_enforcer_update_svc now (u ∷ []) s ≡ some v
          → ((a : ℕ) → IsUnlimited a s → IsUnlimited a v)
          → (t : Scheduler W) × (serve_storage host ms v ≡ some t)
            × ((a : ℕ) → IsUnlimited a v → IsUnlimited a t)
          → (t : Scheduler W) × (serve_storage host ms s ≡ some t)
            × ((a : ℕ) → IsUnlimited a s → IsUnlimited a t)
          → (t : Scheduler W) × ((if b
                then (storage_enforcer_update_svc now (u ∷ []) s >>= serve_storage host ms)
                else serve_storage host ms s)
              ≡ some t)
            × ((a : ℕ) → IsUnlimited a s → IsUnlimited a t)
      cases true v run kept (t, rest, after) other = (t, rw run rest, λ a h. after a (kept a h))
      cases false v run kept there other = other

pub same_result {ℓ} : {A : Type ℓ} {o : Option A} {x y : A} → o ≡ some x → o ≡ some y → x ≡ y
same_result p q = cc

-- ===== src/Network/Shapers/Groups/Claims.antt =====
-- What holds of the loops' variables at every moment, and that taking a queue keeps it.
use workload_compactor.Base.{
  ℕ, ◌+◌, ◌≤◌, ◌≡◌, refl, sym, ap, subst, true, false, List, [], ◌∷◌, some, nat_key, arith, length,
  All, Elem, ◌⊎◌, inl, inr, Option-cases, Bool-cases, ==_iff,
}
use workload_compactor.Base.Table.{lookup, erase}
use workload_compactor.Base.Table.Sets.{
  is_there, contains, contains-erase, length-erase, length-erase_le,
}
use workload_compactor.Base.Table.Distinct.{IsDistinct, erase-IsDistinct}
use workload_compactor.Network.Types.{Client, Network}
use workload_compactor.Network.Shapers.Groups.{Sweep, claim_queue, claim_queues}
use workload_compactor.Network.Shapers.Groups.Reached.{Known, Serves, Uses, Stirred, Reached}

-- The sets only change one way.
pub record Later (w v : Sweep) : Type 0 where
  pub gone : (q : ℕ) → contains q w.remaining ≡ false → contains q v.remaining ≡ false
  pub kept : (i : ℕ) → contains i w.group ≡ true → contains i v.group ≡ true
  pub fewer : length v.affected ≤ length w.affected
  pub less : length v.remaining ≤ length w.remaining

pub Later-trans : (u v w : Sweep) → Later u v → Later v w → Later u w
Later-trans u v w g h = record {
  gone = λ q e. h.gone q (g.gone q e);
  kept = λ i e. h.kept i (g.kept i e);
  fewer = omega (arith, g.fewer, h.fewer);
  less = omega (arith, g.less, h.less);
}

-- A queue that leaves `remaining` becomes pending.
pub record Grows (w v : Sweep) : Type 0 where
  pub later : Later w v
  pub size : length v.remaining + length v.pending ≡ length w.remaining + length w.pending

pub Later-refl : (w : Sweep) → Later w w
Later-refl w = record { gone = λ q h. h; kept = λ i h. h; fewer = omega arith; less = omega arith }

pub Grows-refl : (w : Sweep) → Grows w w
Grows-refl w = record { later = Later-refl w; size = refl }

pub Grows-trans : (u v w : Sweep) → Grows u v → Grows v w → Grows u w
Grows-trans u v w g h = record {
  later = Later-trans u v w g.later h.later;
  size = omega (arith, g.size, h.size);
}

abbrev taken : ℕ → Sweep → Sweep
taken q w = record w {
  remaining = erase q w.remaining;
  affected = erase q w.affected;
  pending = q ∷ w.pending;
}

claim_queue-cases :
    (q : ℕ) (w : Sweep)
    → ((contains q w.remaining ≡ false) × (claim_queue q w ≡ w))
      ⊎ ((contains q w.remaining ≡ true) × (claim_queue q w ≡ taken q w))
unfolding claim_queue
claim_queue-cases q w = elim (Option-cases (lookup q w.remaining)) [
  | inl e ↦ inl (ap is_there e, rw (e, claim_queue) refl)
  | inr (u, e) ↦ inr (ap is_there e, rw (e, claim_queue) refl)
]

module _ {W : Type 0} (s : Network W) (P : ℕ → Type 0) where
  -- The client is in a group, an older one or the one that is built, and its queues are claimed.
  abbrev pub Joined : Sweep → Client W → Type 0
  Joined w c =
      (P c.client_id ⊎ (contains c.client_id w.group ≡ true))
      × ((r : ℕ) → Uses s c r → contains r w.remaining ≡ false)

  abbrev pub Visited : Sweep → ℕ → Type 0
  Visited w q = (c : Client W) → Serves s q c → Joined w c

  pub Joined-Later : (w v : Sweep) (c : Client W) → Later w v → Joined w c → Joined v c
  Joined-Later w v c g (inl p, h) = (inl p, λ r u. g.gone r (h r u))
  Joined-Later w v c g (inr e, h) = (inr (g.kept c.client_id e), λ r u. g.gone r (h r u))

  -- `cur` holds of the queue that is being visited.
  pub record Inv (cur : ℕ → Type 0) (w : Sweep) : Type 0 where
    pub one_each : IsDistinct w.remaining × IsDistinct w.affected
    pub known : (q : ℕ) → contains q w.remaining ≡ true → Known s q
    pub live :
        (q : ℕ)
        → Known s q
        → contains q w.remaining ≡ false
        → Elem q w.pending ⊎ (cur q ⊎ Visited w q)
    pub waits :
        (q : ℕ)
        → lookup q s.affected_queue_ids ≡ some tt
        → (contains q w.affected ≡ true) ⊎ (contains q w.remaining ≡ false)
    pub stale : (q : ℕ) → contains q w.affected ≡ true → lookup q s.affected_queue_ids ≡ some tt
    pub stirs : All (λ q. Stirred s q × Known s q) w.pending
    pub member : (i : ℕ) → contains i w.group ≡ true → Reached s i

  -- No queue is being visited.
  abbrev pub Idle : Sweep → Type 0
  Idle w = Inv (λ q. ⊥) w

  taken-Grows :
      (q : ℕ) (w : Sweep)
      → IsDistinct w.remaining
      → contains q w.remaining ≡ true
      → Grows w (taken q w)
  taken-Grows q w d h = record {
    later = record {
      gone = λ r e. ground (arith, contains-erase q r w.remaining d);
      kept = λ i e. e;
      fewer = length-erase_le q w.affected;
      less = length-erase_le q w.remaining;
    };
    size = omega (arith, length-erase q w.remaining h);
  }

  taken-Inv :
      (cur : ℕ → Type 0) (q : ℕ) (w : Sweep)
      → Stirred s q
      → contains q w.remaining ≡ true
      → Inv cur w
      → Inv cur (taken q w)
  taken-Inv cur q w st h v =
      let grows = taken-Grows q w v.one_each.0 h in
      record {
        one_each = (
          erase-IsDistinct q w.remaining v.one_each.0,
          erase-IsDistinct q w.affected v.one_each.1,
        );
        known = λ r e. v.known r (ground (arith, contains-erase q r w.remaining v.one_each.0));
        live = λ r k e. elim (Bool-cases (contains r w.remaining)) [
          | inr f ↦ elim (v.live r k f) [
            | inl p ↦ inl (inr p)
            | inr (inl p) ↦ inr (inl p)
            | inr (inr d) ↦ inr (inr (λ c x. Joined-Later w (taken q w) c grows.later (d c x)))
          ]
          | inl f ↦
              inl (inl (ground (arith, ==_iff q r, contains-erase q r w.remaining v.one_each.0)))
        ];
        waits = λ r a. ground (
          arith,
          v.waits r a,
          contains-erase q r w.affected v.one_each.1,
          contains-erase q r w.remaining v.one_each.0,
        );
        stale = λ r e. v.stale r (ground (arith, contains-erase q r w.affected v.one_each.1));
        stirs = ((st, v.known q h), v.stirs);
        member = v.member;
      }

  -- What holds after queues are claimed, which stood in the tables or not.
  abbrev pub Claimed : (ℕ → Type 0) → Sweep → Sweep → Type 0
  Claimed cur w v = Inv cur v × Grows w v

  claim_queue-Claimed :
      (cur : ℕ → Type 0) (q : ℕ) (w : Sweep)
      → (Known s q → Stirred s q)
      → Inv cur w
      → Claimed cur w (claim_queue q w) × (contains q (claim_queue q w).remaining ≡ false)
  claim_queue-Claimed cur q w st v = elim (claim_queue-cases q w) [
    | inl (h, e) ↦
        subst (λ u. Claimed cur w u × (contains q u.remaining ≡ false)) (sym e)
          ((v, Grows-refl w), h)
    | inr (h, e) ↦
        subst (λ u. Claimed cur w u × (contains q u.remaining ≡ false)) (sym e)
          (
            (taken-Inv cur q w (st (v.known q h)) h v, taken-Grows q w v.one_each.0 h),
            ground (arith, contains-erase q q w.remaining v.one_each.0),
          )
  ]

  -- The queues of a flow are claimed.
  pub claim_queues-Claimed :
      (cur : ℕ → Type 0) (qs : List ℕ) (w : Sweep)
      → ((q : ℕ) → Elem q qs → Known s q → Stirred s q)
      → Inv cur w
      → Claimed cur w (claim_queues qs w)
        × ((q : ℕ) → Elem q qs → contains q (claim_queues qs w).remaining ≡ false)
  unfolding claim_queues
  claim_queues-Claimed cur [] w st v = ((v, Grows-refl w), λ q e. elim e [ ])
  claim_queues-Claimed cur (q ∷ qs) w st v =
      let ((u, g), gone) = claim_queue-Claimed cur q w (st q (inl refl)) v in
      let ((x, h), rest) = claim_queues-Claimed cur qs (claim_queue q w) (λ r e. st r (inr e)) u in
      (
        (x, Grows-trans w (claim_queue q w) (claim_queues qs (claim_queue q w)) g h),
        λ r e. elim e [
          | inl p ↦
              h.later.gone r
                (subst (λ t. contains t (claim_queue q w).remaining ≡ false) (sym p) gone)
          | inr p ↦ rest r p
        ],
      )

-- ===== src/Network/Shapers/Groups/Closed.antt =====
-- The groups of calcShaperParameters hold the clients that share queues with an affected queue, and
-- no others; the fuel is enough.
use workload_compactor.Base.{
  ℕ, zero, suc, ◌<◌, ◌≤◌, ◌≡◌, ◌↔◌, ◌⊎◌, refl, ap, subst, true, false, Option, List, [], ◌∷◌, some,
  none, nat_key, arith, length, Elem, inl, inr, ==_iff, Bool-cases, ◌+◌,
}
use workload_compactor.Base.Table.{Table, lookup}
use workload_compactor.Base.Table.Sets.{
  Set, is_there, lookup_of_contains, contains, contains-erase, length-erase_le,
}
use workload_compactor.Base.Table.Distinct.{IsDistinct, erase-IsDistinct}
use workload_compactor.Network.Types.{Network, Queue}
use workload_compactor.Network.Shapers.Groups.{Sweep, first_sweep, gather, client_groups, ids_of}
use workload_compactor.Network.Shapers.Groups.Reached.{
  Known, Stirred, affected, shared, Reached, IsLinked,
}
use workload_compactor.Network.Shapers.Groups.Claims.{Idle}
use workload_compactor.Network.Shapers.Groups.Sweeps.{drain-Drained}

-- The client is in one of the groups.
abbrev pub InSome : ℕ → List Set → Type 0
InSome i [] = ⊥
InSome i (g ∷ gs) = (contains i g ≡ true) ⊎ InSome i gs

-- Between two groups.
abbrev between : Set → Set → Sweep
between remaining waiting = record {
  remaining = remaining;
  affected = waiting;
  pending = [];
  group = [];
}

first_sweep-length :
    (q : ℕ) (remaining waiting : Set) (n : ℕ)
    → length remaining ≤ n
    → length (first_sweep q remaining waiting).remaining
        + length (first_sweep q remaining waiting).pending
      < suc (suc n)
unfolding first_sweep
first_sweep-length q remaining waiting n h = omega (arith, h, length-erase_le q remaining)

head-contains : (q : ℕ) (u : Unit {0}) (waiting : Set) → contains q ((q, u) ∷ waiting) ≡ true
unfolding lookup
head-contains q u waiting = ground (arith, ==_iff q q)

module _ {V : Type 0} where
  ids_of-lookup : (q : ℕ) (m : Table ℕ V) → lookup q m ≡ none → lookup q (ids_of m) ≡ none
  unfolding ids_of lookup
  ids_of-lookup q [] h = refl
  ids_of-lookup q ((i, v) ∷ m) h = ground (arith, ids_of-lookup q m)

  ids_of-IsDistinct : (m : Table ℕ V) → IsDistinct m → IsDistinct (ids_of m)
  unfolding ids_of
  ids_of-IsDistinct [] d = tt
  ids_of-IsDistinct ((i, v) ∷ m) d = (ids_of-lookup i m d.0, ids_of-IsDistinct m d.1)

  ids_of-contains : (q : ℕ) (m : Table ℕ V) → contains q (ids_of m) ≡ contains q m
  unfolding ids_of lookup
  ids_of-contains q [] = refl
  ids_of-contains q ((i, v) ∷ m) = ground (arith, ids_of-contains q m)

  ids_of-length : (m : Table ℕ V) → length (ids_of m) ≡ length m
  unfolding ids_of
  ids_of-length [] = refl
  ids_of-length ((i, v) ∷ m) = ap suc (ids_of-length m)

module _ {W : Type 0} (s : Network W) where
  first_sweep-Idle :
      (P : ℕ → Type 0) (q : ℕ) (u : Unit {0}) (remaining waiting : Set)
      → Known s q
      → Idle s P (between remaining ((q, u) ∷ waiting))
      → Idle s P (first_sweep q remaining waiting)
  unfolding first_sweep lookup
  first_sweep-Idle P q u remaining waiting k v =
      let gone = λ (r : ℕ). contains-erase q r remaining v.one_each.0 in
      record {
        one_each = (erase-IsDistinct q remaining v.one_each.0, v.one_each.1.1);
        known = λ r e. v.known r (ground (arith, gone r));
        live = λ r y h. elim (Bool-cases (contains r remaining)) [
          | inl f ↦ inl (inl (ground (arith, ==_iff q r, gone r)))
          | inr f ↦ elim (v.live r y f) [
            | inl p ↦ elim p [ ]
            | inr (inl p) ↦ elim p [ ]
            | inr (inr d) ↦
                inr (inr (λ c x. let (j, g) = d c x in (j, λ i z. ground (arith, gone i, g i z))))
          ]
        ];
        waits = λ r a. ground (arith, ==_iff q r, v.waits r a, gone r);
        stale = λ r e. v.stale r (ground (arith, ==_iff q r));
        stirs = ((affected q (v.stale q (ground (arith, ==_iff q q))), k), tt);
        member = v.member;
      }

  between-Idle :
      (P Q : ℕ → Type 0) (w : Sweep)
      → ((i : ℕ) → P i ⊎ (contains i w.group ≡ true) → Q i)
      → w.pending ≡ []
      → Idle s P w
      → Idle s Q (between w.remaining w.affected)
  unfolding lookup
  between-Idle P Q w f e v = record {
    one_each = v.one_each;
    known = v.known;
    live = λ r k h. elim (v.live r k h) [
      | inl p ↦ elim (subst (Elem r) e p) [ ]
      | inr (inl p) ↦ elim p [ ]
      | inr (inr d) ↦ inr (inr (λ c x. let (j, g) = d c x in (inl (f c.client_id j), g)))
    ];
    waits = v.waits;
    stale = v.stale;
    stirs = tt;
    member = λ i h. let never : false ≡ true = h in cc;
  }

module _ {W : Type 0} (s : Network W) (linked : IsLinked s) where
  -- The groups that the outer loop builds from here.
  abbrev Gathered : ℕ → (ℕ → Type 0) → Set → Set → Type 0
  Gathered n P remaining waiting =
      (groups : List Set) × (left : Set) × (gather n s remaining waiting ≡ some groups)
      × Idle s (λ i. P i ⊎ InSome i groups) (between left [])
      × ((i : ℕ) → InSome i groups → Reached s i)

  gather-Gathered :
      (n : ℕ) (P : ℕ → Type 0) (remaining waiting : Set)
      → Idle s P (between remaining waiting)
      → length waiting < n
      → length remaining ≤ length s.queues
      → Gathered n P remaining waiting
  unfolding gather first_sweep lookup
  gather-Gathered zero P remaining waiting v h l =
      let never : ⊥ = omega (arith, h) in elim never [ ]
  gather-Gathered (suc n) P remaining [] v h l = (
    [],
    remaining,
    refl,
    between-Idle s P (λ i. P i ⊎ InSome i []) (between remaining [])
        (λ i p. elim p [ inl a ↦ inl a | inr a ↦ let never : false ≡ true = a in cc ]) refl v,
    λ i e. elim e [ ],
  )
  gather-Gathered (suc n) P remaining ((q, u) ∷ waiting) v h l =
      let known = linked.queues_found q (v.stale q (head-contains q u waiting)) in
      let start = first_sweep-Idle s P q u remaining waiting known v in
      let (w, run, (x, done, later)) =
        drain-Drained s P linked (suc (suc (length s.queues))) (first_sweep q remaining waiting)
          start (first_sweep-length q remaining waiting (length s.queues) l) in
      let fuel : length w.affected < n = omega (arith, later.fewer, h) in
      let room : length w.remaining ≤ length s.queues =
        omega (arith, later.less, length-erase_le q remaining, l) in
      let next = between-Idle s P (λ i. P i ⊎ (contains i w.group ≡ true)) w (λ i p. p) done x in
      let (gs, left, runs, y, sound) =
        gather-Gathered n (λ i. P i ⊎ (contains i w.group ≡ true)) w.remaining w.affected next fuel
          room in
      (
        w.group ∷ gs,
        left,
        rw (run, runs, gather) refl,
        between-Idle s (λ i. (P i ⊎ (contains i w.group ≡ true)) ⊎ InSome i gs)
            (λ i. P i ⊎ InSome i (w.group ∷ gs)) (between left [])
            (λ i p. elim p [
              | inl (inl (inl a)) ↦ inl a
              | inl (inl (inr a)) ↦ inr (inl a)
              | inl (inr a) ↦ inr (inr a)
              | inr a ↦ let never : false ≡ true = a in cc
            ])
            refl y,
        λ i e. elim e [ inl p ↦ x.member i p | inr p ↦ sound i p ],
      )

  queue_of_lookup :
      (q : ℕ) (o : Option (Queue W)) → lookup q s.queues ≡ o → is_there o ≡ true → Known s q
  queue_of_lookup q none e h = cc
  queue_of_lookup q (some queue) e h = (queue, e)

  start-Idle :
      IsDistinct s.queues
      → IsDistinct s.affected_queue_ids
      → Idle s (λ i. ⊥) (between (ids_of s.queues) s.affected_queue_ids)
  unfolding lookup
  start-Idle dq da = record {
    one_each = (ids_of-IsDistinct s.queues dq, da);
    known = λ q h.
        queue_of_lookup q (lookup q s.queues) refl (ground (arith, ids_of-contains q s.queues));
    live = λ q (queue, k) h. ground (arith, ids_of-contains q s.queues);
    waits = λ q h. inl (ap is_there h);
    stale = λ q h. lookup_of_contains q s.affected_queue_ids h;
    stirs = tt;
    member = λ i h. let never : false ≡ true = h in cc;
  }

  Stirred-gone :
      (P : ℕ → Type 0) (left : Set) (q : ℕ)
      → Idle s P (between left [])
      → Stirred s q
      → (contains q left ≡ false) × Known s q
  unfolding lookup
  Stirred-gone P left q v (affected _ h) = elim (v.waits q h) [
    | inl a ↦ let never : false ≡ true = a in cc
    | inr g ↦ (g, linked.queues_found q h)
  ]
  Stirred-gone P left r v (shared q c _ st serves uses known) =
      let (gone, here) = Stirred-gone P left q v st in
      elim (v.live q here gone) [
        | inl p ↦ elim p [ ]
        | inr (inl p) ↦ elim p [ ]
        | inr (inr d) ↦ ((d c serves).1 r uses, known)
      ]

  Reached-InSome :
      (groups : List Set) (left : Set) (i : ℕ)
      → Idle s (λ j. ⊥ ⊎ InSome j groups) (between left [])
      → Reached s i
      → InSome i groups
  unfolding lookup
  Reached-InSome groups left i v (q, c, st, serves, e) =
      let (gone, here) = Stirred-gone (λ j. ⊥ ⊎ InSome j groups) left q v st in
      elim (v.live q here gone) [
        | inl p ↦ elim p [ ]
        | inr (inl p) ↦ elim p [ ]
        | inr (inr d) ↦ elim (d c serves).0 [
          | inl (inl p) ↦ elim p [ ]
          | inl (inr p) ↦ subst (λ j. InSome j groups) e p
          | inr p ↦ let never : false ≡ true = p in cc
        ]
      ]

  -- Where the ids in the tables are found: the grouping of clients ends without a null pointer, and a
  -- client is in one of the groups exactly if it is reached from an affected queue, by way of queues
  -- that its flows share.
  pub client_groups-Reached :
      IsDistinct s.queues
      → IsDistinct s.affected_queue_ids
      → (groups : List Set) × (client_groups s ≡ some groups)
        × ((i : ℕ) → InSome i groups ↔ Reached s i)
  unfolding client_groups
  client_groups-Reached dq da =
      let (groups, left, run, v, sound) =
        gather-Gathered (suc (length s.affected_queue_ids)) (λ i. ⊥) (ids_of s.queues)
          s.affected_queue_ids (start-Idle dq da) (omega arith)
          (omega (arith, ids_of-length s.queues)) in
      (groups, run, λ i. (sound i, Reached-InSome groups left i v))

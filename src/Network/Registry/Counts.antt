-- ===== src/Network/Registry/Counts.antt =====
-- The counts of a flow's entries while other flows come and go, and the loop of `delClient` over the
-- queues of a flow that has no more entries than the loop meets.
use workload_compactor.Base.{
  ℕ, ◌+◌, ◌≤◌, ◌≡◌, refl, sym, ap, subst, ◌∙◌, Bool, false, ◌||◌, ◌==◌, if◌then◌else◌, List, [],
  ◌∷◌, map, none, some, String, arith, nat_key, string_key, All-map, ==_iff, Bool-cases, inl, inr,
}
use workload_compactor.Base.Table.{Table, lookup, adjust}
use workload_compactor.Base.Table.Distinct.{IsDistinct, adjust-IsDistinct}
use workload_compactor.Network.Types.{Queue}
use workload_compactor.Network.Registry.{
  id_by_name, push_flow, drop_flow, enter_queues, leave_queues,
}
use workload_compactor.Network.Registry.Visits.{found-adjust, enter-round, leave-found}
use workload_compactor.Network.Registry.Entries.{
  times, entries, entries-push, entries-drop_le, entries-drop, keep-drop, purge, purge-absent,
  purge-adjust, Counted, IsFound,
}

module _ {W : Type 0} where
  adjust-IsFound :
      (i : ℕ) (g : Queue W → Queue W) (is : List ℕ) (qs : Table ℕ (Queue W))
      → IsFound is qs
      → IsFound is (adjust i g qs)
  adjust-IsFound i g is qs h =
      All-map _ _
        (λ j (found : (q : Queue W) × (lookup j qs ≡ some q)).
          found-adjust i j g qs found.0 found.1)
        is h

  pub Counted_mono :
      (f : ℕ) (cap cap' : ℕ → ℕ) (qs : Table ℕ (Queue W))
      → ((j : ℕ) → cap j ≤ cap' j)
      → Counted f cap qs
      → Counted f cap' qs
  Counted_mono f cap cap' [] more c = tt
  Counted_mono f cap cap' ((n, q) ∷ qs) more c =
      (omega (arith, more n, c.0), Counted_mono f cap cap' qs more c.1)

  -- A change of one queue changes the count of a flow there.
  Counted-adjust :
      (f : ℕ) (cap cap' : ℕ → ℕ) (i : ℕ) (g : Queue W → Queue W) (qs : Table ℕ (Queue W))
      → ((q : Queue W) → entries f q.flows ≤ cap i → entries f (g q).flows ≤ cap' i)
      → ((j : ℕ) → cap j ≤ cap' j)
      → Counted f cap qs
      → Counted f cap' (adjust i g qs)
  unfolding adjust
  Counted-adjust f cap cap' i g [] here more c = tt
  Counted-adjust f cap cap' i g ((n, q) ∷ qs) here more c = elim (Bool-cases (n == i)) [
    | inl e ↦
        let same = (==_iff n i).0 e in
        rw e (
          subst (λ k. entries f (g q).flows ≤ cap' k) (sym same)
              (here q (subst (λ k. entries f q.flows ≤ cap k) same c.0)),
          Counted_mono f cap cap' qs more c.1,
        )
    | inr e ↦ rw e (omega (arith, more n, c.0), Counted-adjust f cap cap' i g qs here more c.1)
  ]

  -- Entering a flow adds at most one entry for each time that the loop meets the queue.
  pub Counted-enter :
      (ids : Table String ℕ) (f k : ℕ) (ns : List String) (cap : ℕ → ℕ) (qs qs' : Table ℕ (Queue W))
      → enter_queues ids f k ns qs ≡ some qs'
      → Counted f cap qs
      → Counted f (λ i. cap i + times i (map (λ n. id_by_name n ids) ns)) qs'
  unfolding enter_queues push_flow
  Counted-enter ids f k [] cap qs qs' e c =
      let same : qs ≡ qs' = cc in
      subst (Counted f _) same (Counted_mono f _ _ qs (λ i. omega arith) c)
  Counted-enter ids f k (n ∷ ns) cap qs qs' e c =
      let (found, rest) = enter-round ids f k n ns qs qs' e in
      let i = id_by_name n ids in
      Counted_mono f _ _ qs' (λ j. ground arith)
        (Counted-enter ids f (k + 1) ns (λ j. cap j + (if i == j then 1 else 0)) _ qs' rest
          (Counted-adjust f cap _ i (push_flow f k) qs
            (λ q h. ground (arith, h, entries-push f f k q.flows, ==_iff i i, ==_iff f f))
            (λ j. omega arith) c))

  pub Counted-enter_other :
      (ids : Table String ℕ) (f g k : ℕ) (ns : List String) (cap : ℕ → ℕ)
      (qs qs' : Table ℕ (Queue W))
      → (f == g) ≡ false
      → enter_queues ids f k ns qs ≡ some qs'
      → Counted g cap qs
      → Counted g cap qs'
  unfolding enter_queues push_flow
  Counted-enter_other ids f g k [] cap qs qs' ne e c =
      let same : qs ≡ qs' = cc in subst (Counted g cap) same c
  Counted-enter_other ids f g k (n ∷ ns) cap qs qs' ne e c =
      let (found, rest) = enter-round ids f k n ns qs qs' e in
      Counted-enter_other ids f g (k + 1) ns cap _ qs' ne rest (
        Counted-adjust g cap cap (id_by_name n ids) (push_flow f k) qs
          (λ q h. ground (arith, h, entries-push f g k q.flows, ne)) (λ j. omega arith) c)

  -- What holds of the queues before a flow enters them holds afterwards.
  pub enter-IsDistinct :
      (ids : Table String ℕ) (f k : ℕ) (ns : List String) (qs qs' : Table ℕ (Queue W))
      → enter_queues ids f k ns qs ≡ some qs'
      → IsDistinct qs
      → IsDistinct qs'
  unfolding enter_queues
  enter-IsDistinct ids f k [] qs qs' e d =
      let same : qs ≡ qs' = cc in subst (λ m. IsDistinct m) same d
  enter-IsDistinct ids f k (n ∷ ns) qs qs' e d =
      let (found, rest) = enter-round ids f k n ns qs qs' e in
      enter-IsDistinct ids f (k + 1) ns _ qs' rest (adjust-IsDistinct _ (push_flow f k) qs d)

  pub enter-IsFound :
      (ids : Table String ℕ) (f k : ℕ) (ns : List String) (is : List ℕ) (qs qs' : Table ℕ (Queue W))
      → enter_queues ids f k ns qs ≡ some qs'
      → IsFound is qs
      → IsFound is qs'
  unfolding enter_queues
  enter-IsFound ids f k [] is qs qs' e h = let same : qs ≡ qs' = cc in subst (IsFound is) same h
  enter-IsFound ids f k (n ∷ ns) is qs qs' e h =
      let (found, rest) = enter-round ids f k n ns qs qs' e in
      enter-IsFound ids f (k + 1) ns is _ qs' rest (adjust-IsFound _ (push_flow f k) is qs h)

  -- The queues that the loop enters are there.
  pub enter-finds :
      (ids : Table String ℕ) (f k : ℕ) (ns : List String) (qs qs' : Table ℕ (Queue W))
      → enter_queues ids f k ns qs ≡ some qs'
      → IsFound (map (λ n. id_by_name n ids) ns) qs'
  unfolding enter_queues
  enter-finds ids f k [] qs qs' e = tt
  enter-finds ids f k (n ∷ ns) qs qs' e =
      let (found, rest) = enter-round ids f k n ns qs qs' e in
      let i = id_by_name n ids in
      let here : IsFound (i ∷ []) qs' =
        enter-IsFound ids f (k + 1) ns (i ∷ []) _ qs' rest
          (adjust-IsFound i (push_flow f k) (i ∷ []) qs (found, tt)) in
      (here.0, enter-finds ids f (k + 1) ns _ qs' rest)

  Counted-absent :
      (f i : ℕ) (is : List ℕ) (qs : Table ℕ (Queue W))
      → lookup i qs ≡ none
      → Counted f (λ j. times j (i ∷ is)) qs
      → Counted f (λ j. times j is) qs
  unfolding lookup
  Counted-absent f i is [] h c = tt
  Counted-absent f i is ((j, r) ∷ qs) h c =
      ground (arith, ==_iff i j, ==_iff j i, Counted-absent f i is qs)

  -- One queue fewer to leave.
  Counted-drop :
      (f i : ℕ) (is : List ℕ) (qs : Table ℕ (Queue W))
      → IsDistinct qs
      → Counted f (λ j. times j (i ∷ is)) qs
      → Counted f (λ j. times j is) (adjust i (drop_flow f) qs)
  unfolding adjust drop_flow
  Counted-drop f i is [] d c = tt
  Counted-drop f i is ((n, q) ∷ qs) d c = elim (Bool-cases (n == i)) [
    | inl e ↦
        let same = (==_iff n i).0 e in
        rw e (
          entries-drop f (times n is) q.flows (ground (arith, c.0, e)),
          Counted-absent f i is qs (subst (λ k. lookup k qs ≡ none) same d.0) c.1,
        )
    | inr e ↦ rw e (ground (arith, c.0, e, ==_iff n i, ==_iff i n), Counted-drop f i is qs d.1 c.1)
  ]

  -- What the loop of `delClient` leaves alone.
  abbrev pub Keeps : Table ℕ (Queue W) → Table ℕ (Queue W) → Type 0
  Keeps qs qs' =
      (IsDistinct qs → IsDistinct qs')
      × ((is : List ℕ) → IsFound is qs → IsFound is qs')
      × ((g : ℕ) (cap : ℕ → ℕ) → Counted g cap qs → Counted g cap qs')

  drops :
      (p : ℕ → Bool) (f i : ℕ) (qs : Table ℕ (Queue W))
      → purge (λ j. f == j || p j) (adjust i (drop_flow f) qs) ≡ purge (λ j. f == j || p j) qs
  unfolding drop_flow
  drops p f i qs =
      purge-adjust (λ j. f == j || p j) i (drop_flow f) qs
        (λ q.
          ap (λ fis. record q { flows = fis })
            (keep-drop (λ j. f == j || p j) f q.flows (ground (arith, ==_iff f f))))

  pub shrinks :
      (f g : ℕ) (cap : ℕ → ℕ) (i : ℕ) (qs : Table ℕ (Queue W))
      → Counted g cap qs
      → Counted g cap (adjust i (drop_flow f) qs)
  unfolding drop_flow
  shrinks f g cap i qs c =
      Counted-adjust g cap cap i (drop_flow f) qs
        (λ q h. omega (arith, entries-drop_le f g q.flows, h)) (λ j. omega arith) c

  -- The loop, over as many queues as the flow has entries, takes all of them away.
  pub leave_queues-purge :
      (p : ℕ → Bool) (f : ℕ) (is : List ℕ) (qs : Table ℕ (Queue W))
      → IsDistinct qs
      → IsFound is qs
      → Counted f (λ j. times j is) qs
      → (qs' : Table ℕ (Queue W)) × (leave_queues f is qs ≡ some qs')
        × (purge (λ j. f == j || p j) qs ≡ purge p qs')
        × Keeps qs qs'
  unfolding leave_queues
  leave_queues-purge p f [] qs d found c =
      (qs, refl, (purge-absent p f qs c).1, (λ x. x, λ is x. x, λ g cap x. x))
  leave_queues-purge p f (i ∷ is) qs d found c =
      let dropped = adjust i (drop_flow f) qs in
      let (qs', left, same, (x, y, z)) =
        leave_queues-purge p f is dropped (adjust-IsDistinct i (drop_flow f) qs d)
          (adjust-IsFound i (drop_flow f) is qs found.1) (Counted-drop f i is qs d c) in
      (
        qs',
        leave-found f i is qs found.0.0 found.0.1 ∙ left,
        sym (drops p f i qs) ∙ same,
        (
          λ e. x (adjust-IsDistinct i (drop_flow f) qs e),
          λ js e. y js (adjust-IsFound i (drop_flow f) js qs e),
          λ g cap e. z g cap (shrinks f g cap i qs e),
        ),
      )

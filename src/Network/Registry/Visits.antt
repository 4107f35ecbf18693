-- ===== src/Network/Registry/Visits.antt =====
-- A flow's entries in the queues that it visits: `delClient` takes away what `initFlow` adds.
use workload_compactor.Base.{
  ℕ, ◌+◌, ◌≡◌, refl, sym, ap, subst, ◌∙◌, Bool, true, false, ◌||◌, ◌==◌, List, [], ◌∷◌, ◌++◌, map,
  Option, none, some, String, arith, nat_key, string_key, Bool-cases, Option-cases, inl, inr,
}
use workload_compactor.Base.Table.{Table, lookup, adjust}
use workload_compactor.Network.Types.{FlowIndex, Queue}
use workload_compactor.Network.Registry.{
  id_by_name, drop_first, push_flow, drop_flow, enter_queues, leave_queues,
}

-- Does the flow have an entry?
unfoldable pub visits : ℕ → List FlowIndex → Bool
visits flow_id [] = false
visits flow_id (fi ∷ fis) = fi.flow_id == flow_id || visits flow_id fis

drop_first-append :
    (f : ℕ) (xs ys : List FlowIndex)
    → visits f xs ≡ true
    → drop_first f (xs ++ ys) ≡ drop_first f xs ++ ys
unfolding visits drop_first
drop_first-append f [] ys h = cc
drop_first-append f (x ∷ xs) ys h = ground (arith, drop_first-append f xs ys)

drop_first-last :
    (f k : ℕ) (xs : List FlowIndex)
    → visits f xs ≡ false
    → drop_first f (xs ++ (record { flow_id = f; index = k } ∷ [])) ≡ xs
unfolding visits drop_first
drop_first-last f k [] h = ground arith
drop_first-last f k (x ∷ xs) h = ground (arith, drop_first-last f k xs)

visits-append :
    (f : ℕ) (xs ys : List FlowIndex) → visits f (xs ++ ys) ≡ (visits f xs || visits f ys)
unfolding visits
visits-append f [] ys = refl
visits-append f (x ∷ xs) ys = ground (arith, visits-append f xs ys)

module _ {W : Type 0} where
  abbrev VisitsAt : ℕ → Option (Queue W) → Type 0
  VisitsAt f none = ⊥
  VisitsAt f (some q) = visits f q.flows ≡ true

  -- No queue has an entry of the flow.
  unfoldable pub IsAbsent : ℕ → Table ℕ (Queue W) → Type 0
  IsAbsent f [] = Unit
  IsAbsent f ((i, q) ∷ qs) = (visits f q.flows ≡ false) × IsAbsent f qs

  push_drop : (f k : ℕ) (q : Queue W) → visits f q.flows ≡ false → drop_flow f (push_flow f k q) ≡ q
  unfolding push_flow drop_flow
  push_drop f k q h = ap (λ fis. record q { flows = fis }) (drop_first-last f k q.flows h)

  drop_push :
      (f k : ℕ) (q : Queue W)
      → visits f q.flows ≡ true
      → drop_flow f (push_flow f k q) ≡ push_flow f k (drop_flow f q)
  unfolding push_flow drop_flow
  drop_push f k q h = ap (λ fis. record q { flows = fis }) (drop_first-append f q.flows _ h)

  entered-left :
      (f k i : ℕ) (qs : Table ℕ (Queue W))
      → IsAbsent f qs
      → adjust i (drop_flow f) (adjust i (push_flow f k) qs) ≡ qs
  unfolding adjust IsAbsent
  entered-left f k i [] a = refl
  entered-left f k i ((j, q) ∷ qs) a =
      ground (arith, push_drop f k q a.0, entered-left f k i qs a.1)

  -- An entry that is there is dropped before or after another is added.
  drop-push_elsewhere :
      (f k i j : ℕ) (qs : Table ℕ (Queue W))
      → VisitsAt f (lookup i qs)
      → adjust i (drop_flow f) (adjust j (push_flow f k) qs)
        ≡ adjust j (push_flow f k) (adjust i (drop_flow f) qs)
  unfolding adjust lookup
  drop-push_elsewhere f k i j [] v = absurd v
  drop-push_elsewhere f k i j ((n, q) ∷ qs) v = elim (Bool-cases (n == i)) [
    | inl e ↦
        let here : visits f q.flows ≡ true = rw e at v in ground (arith, drop_push f k q here, e)
    | inr e ↦
        let later : VisitsAt f (lookup i qs) = rw e at v in
        ground (arith, drop-push_elsewhere f k i j qs later, e)
  ]

  visits-push :
      (f k i j : ℕ) (qs : Table ℕ (Queue W))
      → VisitsAt f (lookup i qs)
      → VisitsAt f (lookup i (adjust j (push_flow f k) qs))
  unfolding adjust lookup push_flow
  visits-push f k i j [] v = absurd v
  visits-push f k i j ((n, q) ∷ qs) v = elim (Bool-cases (n == i)) [
    | inl e ↦
        let here : visits f q.flows ≡ true = rw e at v in
        elim (Bool-cases (n == j)) [
          | inl g ↦ rw (g, e) (visits-append f q.flows _ ∙ ground (arith, here))
          | inr g ↦ rw (g, e) here
        ]
    | inr e ↦
        let later : VisitsAt f (lookup i qs) = rw e at v in
        elim (Bool-cases (n == j)) [
          | inl g ↦ rw (g, e) later
          | inr g ↦ rw (g, e) (visits-push f k i j qs later)
        ]
  ]

  pub found-adjust :
      (i j : ℕ) (g : Queue W → Queue W) (qs : Table ℕ (Queue W)) (q : Queue W)
      → lookup j qs ≡ some q
      → (r : Queue W) × (lookup j (adjust i g qs) ≡ some r)
  unfolding adjust lookup
  found-adjust i j g [] q e = absurd (ground (arith, e))
  found-adjust i j g ((n, p) ∷ qs) q e = elim (Bool-cases (n == j)) [
    | inl h ↦ elim (Bool-cases (n == i)) [
      | inl l ↦ (g p, ground (arith, h, l))
      | inr l ↦ (p, ground (arith, h, l))
    ]
    | inr h ↦
        let (r, found) = found-adjust i j g qs q (ground (arith, e, h)) in
        elim (Bool-cases (n == i)) [
          | inl l ↦ (q, ground (arith, e, h, l))
          | inr l ↦ (r, ground (arith, found, h, l))
        ]
  ]

  -- A round of the loop of `initFlow` finds its queue, and of the loop of `delClient`.
  enter-found :
      (ids : Table String ℕ) (f k : ℕ) (n : String) (ns : List String) (qs : Table ℕ (Queue W))
      (q : Queue W)
      → lookup (id_by_name n ids) qs ≡ some q
      → enter_queues ids f k (n ∷ ns) qs
        ≡ enter_queues ids f (k + 1) ns (adjust (id_by_name n ids) (push_flow f k) qs)
  unfolding enter_queues
  enter-found ids f k n ns qs q e = rw (e, enter_queues) refl

  pub enter-round :
      (ids : Table String ℕ) (f k : ℕ) (n : String) (ns : List String) (qs qs' : Table ℕ (Queue W))
      → enter_queues ids f k (n ∷ ns) qs ≡ some qs'
      → ((q : Queue W) × (lookup (id_by_name n ids) qs ≡ some q))
        × (enter_queues ids f (k + 1) ns (adjust (id_by_name n ids) (push_flow f k) qs) ≡ some qs')
  unfolding enter_queues
  enter-round ids f k n ns qs qs' e = elim (Option-cases (lookup (id_by_name n ids) qs)) [
    | inl h ↦ absurd (ground (arith, rw (h, enter_queues) at e))
    | inr (q, h) ↦ ((q, h), sym (enter-found ids f k n ns qs q h) ∙ e)
  ]

  pub leave-found :
      (f i : ℕ) (is : List ℕ) (qs : Table ℕ (Queue W)) (q : Queue W)
      → lookup i qs ≡ some q
      → leave_queues f (i ∷ is) qs ≡ leave_queues f is (adjust i (drop_flow f) qs)
  unfolding leave_queues
  leave-found f i is qs q e = rw (e, leave_queues) refl

  -- Dropping an entry commutes with the rest of the loop of `initFlow`.
  enter-drop :
      (ids : Table String ℕ) (f k i : ℕ) (ns : List String) (qs qs' : Table ℕ (Queue W))
      → VisitsAt f (lookup i qs)
      → enter_queues ids f k ns qs ≡ some qs'
      → enter_queues ids f k ns (adjust i (drop_flow f) qs) ≡ some (adjust i (drop_flow f) qs')
  unfolding enter_queues
  enter-drop ids f k i [] qs qs' v e = ground (arith, e)
  enter-drop ids f k i (n ∷ ns) qs qs' v e =
      let j = id_by_name n ids in
      let ((q, found), rest) = enter-round ids f k n ns qs qs' e in
      let (r, again) = found-adjust i j (drop_flow f) qs q found in
      enter-found ids f k n ns (adjust i (drop_flow f) qs) r again
      ∙ ap (enter_queues ids f (k + 1) ns) (sym (drop-push_elsewhere f k i j qs v))
      ∙ enter-drop ids f (k + 1) i ns (adjust j (push_flow f k) qs) qs' (visits-push f k i j qs v)
          rest

  -- The queue of the first round still has the entry, and is found, after the others.
  enter-keeps :
      (ids : Table String ℕ) (f k i : ℕ) (ns : List String) (qs qs' : Table ℕ (Queue W))
      → VisitsAt f (lookup i qs)
      → enter_queues ids f k ns qs ≡ some qs'
      → VisitsAt f (lookup i qs')
  unfolding enter_queues
  enter-keeps ids f k i [] qs qs' v e = subst (λ t. VisitsAt f (lookup i t)) (ground (arith, e)) v
  enter-keeps ids f k i (n ∷ ns) qs qs' v e =
      let j = id_by_name n ids in
      let (_, rest) = enter-round ids f k n ns qs qs' e in
      enter-keeps ids f (k + 1) i ns (adjust j (push_flow f k) qs) qs' (visits-push f k i j qs v)
        rest

  pushed-VisitsAt :
      (f k i : ℕ) (qs : Table ℕ (Queue W)) (q : Queue W)
      → lookup i qs ≡ some q
      → VisitsAt f (lookup i (adjust i (push_flow f k) qs))
  unfolding adjust lookup push_flow visits
  pushed-VisitsAt f k i [] q e = absurd (ground (arith, e))
  pushed-VisitsAt f k i ((n, p) ∷ qs) q e = elim (Bool-cases (n == i)) [
    | inl h ↦ rw (h, h) (visits-append f p.flows _ ∙ ground arith)
    | inr h ↦ rw (h, h) (pushed-VisitsAt f k i qs q (ground (arith, e, h)))
  ]

  VisitsAt-found : (f : ℕ) (o : Option (Queue W)) → VisitsAt f o → (q : Queue W) × (o ≡ some q)
  VisitsAt-found f none v = absurd v
  VisitsAt-found f (some q) v = (q, refl)

  -- For a flow that has no entry in any queue: the loop of `delClient` over the queues that the loop of
  -- `initFlow` entered it in, also if it visits a queue twice, does not meet a missing queue, and gives
  -- back the queues as they were.
  pub leave_queues-enter_queues :
      (ids : Table String ℕ) (flow_id index : ℕ) (names : List String) (qs qs' : Table ℕ (Queue W))
      → IsAbsent flow_id qs
      → enter_queues ids flow_id index names qs ≡ some qs'
      → leave_queues flow_id (map (λ n. id_by_name n ids) names) qs' ≡ some qs
  unfolding leave_queues enter_queues
  leave_queues-enter_queues ids f k [] qs qs' a e = sym e
  leave_queues-enter_queues ids f k (n ∷ ns) qs qs' a e =
      let i = id_by_name n ids in
      let ((q, found), rest) = enter-round ids f k n ns qs qs' e in
      let pushed = adjust i (push_flow f k) qs in
      let v = pushed-VisitsAt f k i qs q found in
      let (r, there) = VisitsAt-found f _ (enter-keeps ids f (k + 1) i ns pushed qs' v rest) in
      let dropped = enter-drop ids f (k + 1) i ns pushed qs' v rest in
      leave-found f i (map (λ m. id_by_name m ids) ns) qs' r there
      ∙ leave_queues-enter_queues ids f (k + 1) ns qs (adjust i (drop_flow f) qs') a
          (ap (enter_queues ids f (k + 1) ns) (sym (entered-left f k i qs a)) ∙ dropped)

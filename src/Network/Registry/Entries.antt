-- ===== src/Network/Registry/Entries.antt =====
-- How many entries a flow has in the queues, and the queues without the entries of some flows.
use workload_compactor.Base.{
  ℕ, ◌+◌, ◌≤◌, ◌≡◌, refl, sym, ap, ◌∙◌, Bool, true, false, ◌||◌, ◌==◌, if◌then◌else◌, List, [], ◌∷◌,
  ◌++◌, some, String, arith, nat_key, string_key, All, ==_iff, Bool-cases, inl, inr,
}
use workload_compactor.Base.Table.{Table, lookup, adjust}
use workload_compactor.Base.Table.Without.{map_values, map_values-adjust}
use workload_compactor.Network.Types.{FlowIndex, Queue}
use workload_compactor.Network.Registry.{id_by_name, drop_first, push_flow, enter_queues}
use workload_compactor.Network.Registry.Visits.{enter-round}

abbrev pub times : ℕ → List ℕ → ℕ
times i [] = 0
times i (j ∷ js) = if j == i then 1 + times i js else times i js

unfoldable pub entries : ℕ → List FlowIndex → ℕ
entries f [] = 0
entries f (fi ∷ fis) = if fi.flow_id == f then 1 + entries f fis else entries f fis

-- The entries of the flows that do not pass the test.
unfoldable pub keep : (ℕ → Bool) → List FlowIndex → List FlowIndex
keep p [] = []
keep p (fi ∷ fis) = if p fi.flow_id then keep p fis else fi ∷ keep p fis

pub entries-push :
    (f g k : ℕ) (xs : List FlowIndex)
    → entries g (xs ++ (record { flow_id = f; index = k } ∷ []))
      ≡ entries g xs + (if f == g then 1 else 0)
unfolding entries
entries-push f g k [] = ground arith
entries-push f g k (x ∷ xs) = ground (arith, entries-push f g k xs)

pub entries-drop_le : (f g : ℕ) (xs : List FlowIndex) → entries g (drop_first f xs) ≤ entries g xs
unfolding entries drop_first
entries-drop_le f g [] = omega arith
entries-drop_le f g (x ∷ xs) = ground (arith, entries-drop_le f g xs)

pub entries-drop :
    (f n : ℕ) (xs : List FlowIndex) → entries f xs ≤ 1 + n → entries f (drop_first f xs) ≤ n
unfolding entries drop_first
entries-drop f n [] h = omega arith
entries-drop f n (x ∷ xs) h = elim (Bool-cases (x.flow_id == f)) [
  | inl e ↦ ground (arith, e, h)
  | inr e ↦ ground (arith, e, h, entries-drop f n xs)
]

keep-push :
    (p : ℕ → Bool) (f k : ℕ) (xs : List FlowIndex)
    → p f ≡ true
    → keep p (xs ++ (record { flow_id = f; index = k } ∷ [])) ≡ keep p xs
unfolding keep
keep-push p f k [] h = rw h refl
keep-push p f k (x ∷ xs) h = ground (arith, keep-push p f k xs h)

pub keep-drop :
    (p : ℕ → Bool) (f : ℕ) (xs : List FlowIndex) → p f ≡ true → keep p (drop_first f xs) ≡ keep p xs
unfolding keep drop_first
keep-drop p f [] h = refl
keep-drop p f (x ∷ xs) h = elim (Bool-cases (x.flow_id == f)) [
  | inl e ↦ ground (arith, ap p ((==_iff x.flow_id f).0 e), h, e)
  | inr e ↦ ground (arith, e, keep-drop p f xs h)
]

keep-absent :
    (p : ℕ → Bool) (f : ℕ) (xs : List FlowIndex)
    → entries f xs ≤ 0
    → (keep (λ j. p j || f == j) xs ≡ keep p xs) × (keep (λ j. f == j || p j) xs ≡ keep p xs)
unfolding keep entries
keep-absent p f [] h = (refl, refl)
keep-absent p f (x ∷ xs) h = ground (arith, h, keep-absent p f xs)

keep-none : (xs : List FlowIndex) → keep (λ j. false) xs ≡ xs
unfolding keep
keep-none [] = refl
keep-none (x ∷ xs) = ap (λ ys. x ∷ ys) (keep-none xs)

module _ {W : Type 0} where
  abbrev pub keep_in : (ℕ → Bool) → Queue W → Queue W
  keep_in p q = record q { flows = keep p q.flows }

  unfoldable pub purge : (ℕ → Bool) → Table ℕ (Queue W) → Table ℕ (Queue W)
  purge p = map_values (keep_in p)

  -- Each queue has at most so many entries of the flow.
  abbrev pub Counted : ℕ → (ℕ → ℕ) → Table ℕ (Queue W) → Type 0
  Counted f cap [] = Unit
  Counted f cap ((i, q) ∷ qs) = (entries f q.flows ≤ cap i) × Counted f cap qs

  abbrev pub IsFound : List ℕ → Table ℕ (Queue W) → Type 0
  IsFound is qs = All (λ i. (q : Queue W) × (lookup i qs ≡ some q)) is

  pub purge-absent :
      (p : ℕ → Bool) (f : ℕ) (qs : Table ℕ (Queue W))
      → Counted f (λ i. 0) qs
      → (purge (λ j. p j || f == j) qs ≡ purge p qs) × (purge (λ j. f == j || p j) qs ≡ purge p qs)
  unfolding purge map_values
  purge-absent p f [] c = (refl, refl)
  purge-absent p f ((i, q) ∷ qs) c =
      let (a, b) = keep-absent p f q.flows c.0 in
      let (x, y) = purge-absent p f qs c.1 in
      (λ k. (i, record q { flows = a k }) ∷ x k, λ k. (i, record q { flows = b k }) ∷ y k)

  pub purge-none : (qs : Table ℕ (Queue W)) → purge (λ j. false) qs ≡ qs
  unfolding purge map_values
  purge-none [] = refl
  purge-none ((i, q) ∷ qs) = λ k. (i, record q { flows = keep-none q.flows k }) ∷ purge-none qs k

  pub purge-adjust :
      (p : ℕ → Bool) (i : ℕ) (g : Queue W → Queue W) (qs : Table ℕ (Queue W))
      → ((q : Queue W) → keep_in p (g q) ≡ keep_in p q)
      → purge p (adjust i g qs) ≡ purge p qs
  unfolding purge
  purge-adjust p i g qs h = map_values-adjust (keep_in p) i g qs h

  purge-enter :
      (p : ℕ → Bool) (ids : Table String ℕ) (f k : ℕ) (ns : List String)
      (qs qs' : Table ℕ (Queue W))
      → p f ≡ true
      → enter_queues ids f k ns qs ≡ some qs'
      → purge p qs' ≡ purge p qs
  unfolding enter_queues push_flow
  purge-enter p ids f k [] qs qs' h e = let same : qs ≡ qs' = cc in ap (purge p) (sym same)
  purge-enter p ids f k (n ∷ ns) qs qs' h e =
      let (found, rest) = enter-round ids f k n ns qs qs' e in
      purge-enter p ids f (k + 1) ns _ qs' h rest
      ∙ purge-adjust p (id_by_name n ids) (push_flow f k) qs
          (λ q. ap (λ fis. record q { flows = fis }) (keep-push p f k q.flows h))

  -- The entries of a new flow do not count, once the test includes it.
  pub purge-enter_queues :
      (p : ℕ → Bool) (ids : Table String ℕ) (f k : ℕ) (ns : List String)
      (qs qs' : Table ℕ (Queue W))
      → Counted f (λ i. 0) qs
      → enter_queues ids f k ns qs ≡ some qs'
      → purge (λ j. p j || f == j) qs' ≡ purge p qs
  purge-enter_queues p ids f k ns qs qs' c e =
      purge-enter (λ j. p j || f == j) ids f k ns qs qs' (ground (arith, ==_iff f f)) e
      ∙ (purge-absent p f qs c).0

-- ===== src/Scheduler/Choice/Order.antt =====
-- `CompareClient` as an order, and what the loop of `FindBestClient` finds.
use workload_compactor.Base.{
  ℕ, ◌≡◌, refl, true, false, List, [], ◌∷◌, Option, none, some, All, Elem, arith, Bool-cases, inl,
  inr, ◌⊎◌, subst, Double,
}
use workload_compactor.Base.Table.{Table}
use workload_compactor.Scheduler.Types.{Job, Client}
use workload_compactor.Scheduler.Tokens.{update_tokens}
use workload_compactor.Scheduler.Choice.{
  Preference, prefer_1, prefer_equal, prefer_2, compare_jobs, compare_fronts, compare_client,
  prefers, best_of, update_all, find_best_client,
}

-- The preference of the second for the first.
pub flip : Preference → Preference
flip prefer_1 = prefer_2
flip prefer_equal = prefer_equal
flip prefer_2 = prefer_1

abbrev NotFirst : Preference → Type 0
NotFirst prefer_1 = ⊥
NotFirst _ = Unit

module _ {W : Type 0} where
  compare_jobs-flip :
      (a b : Client W) (i j : Job W) → compare_jobs b a j i ≡ flip (compare_jobs a b i j)
  unfolding compare_jobs flip
  compare_jobs-flip a b i j = ground arith

  -- `CompareClient(c2, c1)` is the opposite of `CompareClient(c1, c2)`.
  pub compare_client-flip : (a b : Client W) → compare_client b a ≡ flip (compare_client a b)
  unfolding compare_client flip
  compare_client-flip a b = fronts a.pending_jobs b.pending_jobs
    where
      fronts : (is js : List (Job W)) → compare_fronts b a js is ≡ flip (compare_fronts a b is js)
      fronts [] [] = refl
      fronts [] (j ∷ js) = refl
      fronts (i ∷ is) [] = refl
      fronts (i ∷ is) (j ∷ js) = compare_jobs-flip a b i j

  compare_jobs_trans :
      (a b c : Client W) (i j k : Job W)
      → NotFirst (compare_jobs a b i j)
      → NotFirst (compare_jobs b c j k)
      → NotFirst (compare_jobs a c i k)
  unfolding compare_jobs
  compare_jobs_trans a b c i j k p q = ground arith

  compare_fronts_trans :
      (a b c : Client W) (is js ks : List (Job W))
      → NotFirst (compare_fronts a b is js)
      → NotFirst (compare_fronts b c js ks)
      → NotFirst (compare_fronts a c is ks)
  unfolding compare_fronts
  compare_fronts_trans a b c [] js [] p q = tt
  compare_fronts_trans a b c [] js (k ∷ ks) p q = tt
  compare_fronts_trans a b c (i ∷ is) [] ks p q = absurd p
  compare_fronts_trans a b c (i ∷ is) (j ∷ js) [] p q = absurd q
  compare_fronts_trans a b c (i ∷ is) (j ∷ js) (k ∷ ks) p q = compare_jobs_trans a b c i j k p q

  NotFirst-prefers : (a b : Client W) → prefers a b ≡ false → NotFirst (compare_client a b)
  unfolding prefers
  NotFirst-prefers a b h = ground arith

  prefers-NotFirst : (a b : Client W) → NotFirst (compare_client a b) → prefers a b ≡ false
  unfolding prefers
  prefers-NotFirst a b h = ground arith

  -- Not being preferred is transitive, so the clients are ordered up to ties.
  pub prefers_trans :
      (a b c : Client W) → prefers a b ≡ false → prefers b c ≡ false → prefers a c ≡ false
  unfolding compare_client
  prefers_trans a b c p q =
      prefers-NotFirst a c
        (compare_fronts_trans a b c _ _ _ (NotFirst-prefers a b p) (NotFirst-prefers b c q))

  prefers_asymm : (a b : Client W) → prefers a b ≡ true → prefers b a ≡ false
  unfolding prefers flip
  prefers_asymm a b h = ground (arith, compare_client-flip a b)

  prefers_irrefl : (a : Client W) → prefers a a ≡ false
  prefers_irrefl a = elim (Bool-cases (prefers a a)) [ inl h ↦ prefers_asymm a a h | inr h ↦ h ]

  abbrev pub NotBeaten : Client W → ℕ × Client W → Type 0
  NotBeaten b x = prefers x.1 b ≡ false

  abbrev IsBest : ℕ × Client W → List (ℕ × Client W) → Type 0
  IsBest r xs = Elem r xs × All (NotBeaten r.1) xs

  -- One round of the loop: `c` is the better of `b` and `x`.
  IsBest-cons :
      (b x c r : ℕ × Client W) (xs : List (ℕ × Client W))
      → (c ≡ b) ⊎ (c ≡ x)
      → prefers b.1 c.1 ≡ false
      → prefers x.1 c.1 ≡ false
      → IsBest r (c ∷ xs)
      → IsBest r (b ∷ x ∷ xs)
  IsBest-cons b x c r xs e hb hx (m, (hc, h)) =
      (ground arith, (prefers_trans b.1 c.1 r.1 hb hc, (prefers_trans x.1 c.1 r.1 hx hc, h)))

  best_of-IsBest : (b : ℕ × Client W) (xs : List (ℕ × Client W)) → IsBest (best_of b xs) (b ∷ xs)
  unfolding best_of
  best_of-IsBest b [] = (inl refl, (prefers_irrefl b.1, tt))
  best_of-IsBest b (x ∷ xs) = elim (Bool-cases (prefers x.1 b.1)) [
    | inl h ↦
        subst (λ r. IsBest r (b ∷ x ∷ xs)) (rw h)
          (IsBest-cons b x x _ xs (inr refl) (prefers_asymm x.1 b.1 h) (prefers_irrefl x.1)
            (best_of-IsBest x xs))
    | inr h ↦
        subst (λ r. IsBest r (b ∷ x ∷ xs)) (rw h)
          (IsBest-cons b x b _ xs (inl refl) (prefers_irrefl b.1) h (best_of-IsBest b xs))
  ]

module _ {W : Type 0} ⦃d : Double W⦄ where
  abbrev FindsBest : ℕ → Table ℕ (Client W) → Option ((ℕ × Client W) × Table ℕ (Client W)) → Type 0
  FindsBest now m none = m ≡ []
  FindsBest now m (some (best, m')) =
      (m' ≡ update_all now m) × Elem best m' × All (NotBeaten best.1) m'

  find_best_client-FindsBest :
      (now : ℕ) (m : Table ℕ (Client W)) → FindsBest now m (find_best_client now m)
  unfolding find_best_client update_all
  find_best_client-FindsBest now [] = refl
  find_best_client-FindsBest now ((a, c) ∷ m) =
      let h = best_of-IsBest (a, update_tokens now c) (update_all now m) in (refl, h.0, h.1)

  -- `FindBestClient` updates the tokens of every client, and returns one of the updated clients to
  -- which `CompareClient` prefers no other.
  pub find_best_client-optimal :
      (now : ℕ) (m m' : Table ℕ (Client W)) (best : ℕ × Client W)
      → find_best_client now m ≡ some (best, m')
      → (m' ≡ update_all now m) × Elem best m' × All (NotBeaten best.1) m'
  find_best_client-optimal now m m' best e =
      subst (FindsBest now m) e (find_best_client-FindsBest now m)

  -- It has no client to return only when there is none.
  pub find_best_client-none :
      (now : ℕ) (m : Table ℕ (Client W)) → find_best_client now m ≡ none → m ≡ []
  find_best_client-none now m e = subst (FindsBest now m) e (find_best_client-FindsBest now m)

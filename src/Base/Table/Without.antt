-- ===== src/Base/Table/Without.antt =====
-- A table without the entries whose keys pass a test, and a table with every value changed.
use mathlib.Core.Path.{◌≡◌, refl, ap, ◌∙◌}
use mathlib.Core.Bool.{Bool, true, false, ◌||◌}
use mathlib.Core.List.{[], ◌∷◌}
use mathlib.Core.Option.{Option, none, some}
use native.Mathlib.Omega.{arith}
use workload_compactor.Base.Tests.{Key, if◌then◌else◌}
use workload_compactor.Base.Table.{Table, lookup, place, insert, erase, adjust}
use workload_compactor.Base.Table.Distinct.{IsDistinct}

abbrev pub map_option : {A B : Type 0} → (A → B) → Option A → Option B
map_option f none = none
map_option f (some a) = some (f a)

pub map_option-some :
    {A B : Type 0} (f : A → B) (o : Option A) (b : B)
    → map_option f o ≡ some b
    → (a : A) × (o ≡ some a) × (f a ≡ b)
map_option-some f none b e = cc
map_option-some f (some a) b e = (a, refl, cc)

module _ {K : Type 0} {V : Type 0} where
  unfoldable pub without : (K → Bool) → Table K V → Table K V
  without p [] = []
  without p ((k, v) ∷ m) = if p k then without p m else (k, v) ∷ without p m

  pub without-none : (m : Table K V) → without (λ k. false) m ≡ m
  unfolding without
  without-none [] = refl
  without-none ((k, v) ∷ m) = ap (λ r. (k, v) ∷ r) (without-none m)

module _ {K : Type 0} {V : Type 0} ⦃key : Key K⦄ where
  open key use {beq, blt, beq_iff}

  without-absent :
      (p : K → Bool) (k : K) (m : Table K V)
      → lookup k m ≡ none
      → without (λ j. p j || beq k j) m ≡ without p m
  unfolding lookup without
  without-absent p k [] h = refl
  without-absent p k ((i, w) ∷ m) h = ground (arith, beq_iff i k, beq_iff k i, without-absent p k m)

  without-place :
      (p : K → Bool) (k : K) (v : V) (m : Table K V)
      → p k ≡ true
      → without p (place k v m) ≡ without p m
  unfolding place without
  without-place p k v [] h = ground arith
  without-place p k v ((i, w) ∷ m) h = ground (arith, without-place p k v m)

  -- A new entry does not count, once the test includes its key.
  pub without-insert :
      (p : K → Bool) (k : K) (v : V) (m : Table K V)
      → lookup k m ≡ none
      → without (λ j. p j || beq k j) (insert k v m) ≡ without p m
  unfolding insert
  without-insert p k v m h =
      rw (h, insert)
        (without-place (λ j. p j || beq k j) k v m (ground (arith, beq_iff k k))
          ∙ without-absent p k m h)

  without-gone :
      (p : K → Bool) (k : K) (m : Table K V)
      → lookup k m ≡ none
      → without (λ j. beq k j || p j) m ≡ without p m
  unfolding lookup without
  without-gone p k [] h = refl
  without-gone p k ((i, w) ∷ m) h = ground (arith, beq_iff i k, beq_iff k i, without-gone p k m)

  pub without-erase :
      (p : K → Bool) (k : K) (m : Table K V)
      → IsDistinct m
      → without (λ j. beq k j || p j) m ≡ without p (erase k m)
  unfolding erase without
  without-erase p k [] d = refl
  without-erase p k ((i, w) ∷ m) d =
      ground (arith, beq_iff i k, beq_iff k i, without-gone p i m, without-erase p k m d.1)

  pub without-adjust :
      (p : K → Bool) (k : K) (f : V → V) (m : Table K V)
      → p k ≡ true
      → without p (adjust k f m) ≡ without p m
  unfolding adjust without
  without-adjust p k f [] h = refl
  without-adjust p k f ((i, w) ∷ m) h = ground (arith, beq_iff i k, without-adjust p k f m)

module _ {K : Type 0} {V V' : Type 0} where
  unfoldable pub map_values : (V → V') → Table K V → Table K V'
  map_values f [] = []
  map_values f ((k, v) ∷ m) = (k, f v) ∷ map_values f m

module _ {K : Type 0} {V V' : Type 0} ⦃key : Key K⦄ (f : V → V') where
  open key use {beq, blt, beq_iff}

  pub lookup-map_values :
      (k : K) (m : Table K V) → lookup k (map_values f m) ≡ map_option f (lookup k m)
  unfolding lookup map_values
  lookup-map_values k [] = refl
  lookup-map_values k ((i, w) ∷ m) = ground (arith, lookup-map_values k m)

  map_values-place :
      (k : K) (v : V) (m : Table K V) → map_values f (place k v m) ≡ place k (f v) (map_values f m)
  unfolding place map_values
  map_values-place k v [] = refl
  map_values-place k v ((i, w) ∷ m) = ground (arith, map_values-place k v m)

  -- The new key is in none of the tables.
  pub map_values-insert :
      (k : K) (v : V) (m : Table K V)
      → lookup k m ≡ none
      → map_values f (insert k v m) ≡ insert k (f v) (map_values f m)
  unfolding insert
  map_values-insert k v m h =
      let there = lookup-map_values k m in
      let absent : lookup k (map_values f m) ≡ none = there ∙ ap (map_option f) h in
      rw (h, insert) (rw (absent, insert) (map_values-place k v m))

  pub map_values-erase :
      (k : K) (m : Table K V) → map_values f (erase k m) ≡ erase k (map_values f m)
  unfolding erase map_values
  map_values-erase k [] = refl
  map_values-erase k ((i, w) ∷ m) = ground (arith, map_values-erase k m)

  pub map_values-adjust :
      (k : K) (g : V → V) (m : Table K V)
      → ((v : V) → f (g v) ≡ f v)
      → map_values f (adjust k g m) ≡ map_values f m
  unfolding adjust map_values
  map_values-adjust k g [] h = refl
  map_values-adjust k g ((i, w) ∷ m) h = ground (arith, h w, map_values-adjust k g m h)

  -- An adjustment that commutes with the change of the values.
  pub map_values-adjust_lem :
      (k : K) (g : V → V) (h : V' → V') (m : Table K V)
      → ((v : V) → f (g v) ≡ h (f v))
      → map_values f (adjust k g m) ≡ adjust k h (map_values f m)
  unfolding adjust map_values
  map_values-adjust_lem k g h [] same = refl
  map_values-adjust_lem k g h ((i, w) ∷ m) same =
      ground (arith, same w, map_values-adjust_lem k g h m same)

  pub map_values-IsDistinct : (m : Table K V) → IsDistinct m → IsDistinct (map_values f m)
  unfolding map_values
  map_values-IsDistinct [] d = tt
  map_values-IsDistinct ((i, w) ∷ m) d =
      (lookup-map_values i m ∙ ap (map_option f) d.0, map_values-IsDistinct m d.1)

  pub lookup-map_values-none :
      (k : K) (m : Table K V) → lookup k (map_values f m) ≡ none → lookup k m ≡ none
  unfolding lookup map_values
  lookup-map_values-none k [] h = refl
  lookup-map_values-none k ((i, w) ∷ m) h = ground (arith, lookup-map_values-none k m)

  pub IsDistinct-map_values : (m : Table K V) → IsDistinct (map_values f m) → IsDistinct m
  unfolding map_values
  IsDistinct-map_values [] d = tt
  IsDistinct-map_values ((i, w) ∷ m) d =
      (lookup-map_values-none i m d.0, IsDistinct-map_values m d.1)

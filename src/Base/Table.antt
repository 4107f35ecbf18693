-- ===== src/Base/Table.antt =====
-- `std::map` as an association list, walked in the order of its keys.
use mathlib.Core.Path.{◌≡◌, refl}
use mathlib.Core.Bool.{false}
use mathlib.Core.List.{List, [], ◌∷◌}
use mathlib.Core.Option.{Option, none, some}
use native.Mathlib.Omega.{arith}
use workload_compactor.Base.Tests.{Key, if◌then◌else◌}
pub mod Distinct
pub mod Total
pub mod Sets
pub mod Without

abbrev pub Table : Type 0 → Type 0 → Type 0
Table K V = List (K × V)

module _ {K : Type 0} {V : Type 0} ⦃key : Key K⦄ where
  open key use {beq, blt, beq_iff}

  unfoldable pub lookup : K → Table K V → Option V
  lookup k [] = none
  lookup k ((j, v) ∷ m) = if beq j k then some v else lookup k m

  -- A new value at a key that is there.
  unfoldable pub replace : K → V → Table K V → Table K V
  replace k v [] = []
  replace k v ((j, w) ∷ m) = if beq j k then (j, v) ∷ m else (j, w) ∷ replace k v m

  -- A new key, in its place.
  unfoldable pub place : K → V → Table K V → Table K V
  place k v [] = (k, v) ∷ []
  place k v ((j, w) ∷ m) = if blt k j then (k, v) ∷ (j, w) ∷ m else (j, w) ∷ place k v m

  -- `m[k] = v`.
  unfoldable pub insert : K → V → Table K V → Table K V
  insert k v m = elim (lookup k m) [ none ↦ place k v m | some old ↦ replace k v m ]

  unfoldable pub erase : K → Table K V → Table K V
  erase k [] = []
  erase k ((j, w) ∷ m) = if beq j k then m else (j, w) ∷ erase k m

  -- `m[k]->…`, a change of the object at a key; the caller tests that it is there.
  unfoldable pub adjust : K → (V → V) → Table K V → Table K V
  adjust k f [] = []
  adjust k f ((j, w) ∷ m) = if beq j k then (j, f w) ∷ m else (j, w) ∷ adjust k f m

  pub lookup-place :
      (k j : K) (v : V) (m : Table K V)
      → lookup k m ≡ none
      → lookup j (place k v m) ≡ (if beq k j then some v else lookup j m)
  unfolding lookup place
  lookup-place k j v [] h = refl
  lookup-place k j v ((i, w) ∷ m) h =
      ground (arith, beq_iff k j, beq_iff i k, beq_iff i j, lookup-place k j v m)

  pub lookup-replace :
      (k j : K) (v old : V) (m : Table K V)
      → lookup k m ≡ some old
      → lookup j (replace k v m) ≡ (if beq k j then some v else lookup j m)
  unfolding lookup replace
  lookup-replace k j v old [] h = cc
  lookup-replace k j v old ((i, w) ∷ m) h =
      ground (arith, beq_iff k j, beq_iff i k, beq_iff i j, lookup-replace k j v old m)

  pub lookup-insert :
      (k j : K) (v : V) (m : Table K V)
      → lookup j (insert k v m) ≡ (if beq k j then some v else lookup j m)
  unfolding insert
  lookup-insert k j v m = cases (lookup k m) refl
    where
      cases :
          (o : Option V)
          → lookup k m ≡ o
          → lookup j (insert k v m) ≡ (if beq k j then some v else lookup j m)
      cases none e = rw (e, insert) (lookup-place k j v m e)
      cases (some old) e = rw (e, insert) (lookup-replace k j v old m e)

  pub lookup-insert_here : (k : K) (v : V) (m : Table K V) → lookup k (insert k v m) ≡ some v
  lookup-insert_here k v m = ground (arith, beq_iff k k, lookup-insert k k v m)

  pub lookup-insert_other :
      (k j : K) (v : V) (m : Table K V) → beq k j ≡ false → lookup j (insert k v m) ≡ lookup j m
  lookup-insert_other k j v m h = ground (arith, lookup-insert k j v m)

  erase-place : (k : K) (v : V) (m : Table K V) → lookup k m ≡ none → erase k (place k v m) ≡ m
  unfolding lookup place erase
  erase-place k v [] h = ground (arith, beq_iff k k)
  erase-place k v ((i, w) ∷ m) h = ground (arith, beq_iff k k, erase-place k v m)

  -- What was added under a new key is taken away by `erase`.
  pub erase-insert :
      (k : K) (v : V) (m : Table K V) → lookup k m ≡ none → erase k (insert k v m) ≡ m
  unfolding insert
  erase-insert k v m h = rw (h, insert) (erase-place k v m h)

  pub lookup-erase_ne :
      (k j : K) (m : Table K V) → beq k j ≡ false → lookup j (erase k m) ≡ lookup j m
  unfolding lookup erase
  lookup-erase_ne k j [] h = refl
  lookup-erase_ne k j ((i, w) ∷ m) h =
      ground (arith, beq_iff i k, beq_iff i j, beq_iff k j, lookup-erase_ne k j m h)

  pub adjust-adjust :
      (k : K) (f g : V → V) (m : Table K V) → adjust k f (adjust k g m) ≡ adjust k (λ v. f (g v)) m
  unfolding adjust
  adjust-adjust k f g [] = refl
  adjust-adjust k f g ((i, w) ∷ m) = ground (arith, adjust-adjust k f g m)

  pub adjust_same : (k : K) (f : V → V) (m : Table K V) → ((v : V) → f v ≡ v) → adjust k f m ≡ m
  unfolding adjust
  adjust_same k f [] h = refl
  adjust_same k f ((i, w) ∷ m) h = ground (arith, h w, adjust_same k f m h)

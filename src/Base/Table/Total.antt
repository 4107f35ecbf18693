-- ===== src/Base/Table/Total.antt =====
-- The sum of a number over the values of a table, and what holds of every value.
use Prim.Native.Nat.{ℕ, ◌+◌}
use mathlib.Core.Path.{◌≡◌, refl}
use mathlib.Core.List.{[], ◌∷◌}
use mathlib.Core.Option.{Option, none, some}
use native.Mathlib.Omega.{arith}
use workload_compactor.Base.Tests.{Key}
use workload_compactor.Base.Table.{Table, lookup, replace, place, insert}

module _ {K : Type 0} {V : Type 0} where
  abbrev pub total : (V → ℕ) → Table K V → ℕ
  total f [] = 0
  total f ((k, v) ∷ m) = f v + total f m

  abbrev pub AllValues : (V → Type 0) → Table K V → Type 0
  AllValues P [] = Unit
  AllValues P ((k, v) ∷ m) = P v × AllValues P m

module _ {K : Type 0} {V : Type 0} ⦃key : Key K⦄ where
  open key use {beq, blt, beq_iff}

  total-place :
      (f : V → ℕ) (k : K) (v : V) (m : Table K V) → total f (place k v m) ≡ f v + total f m
  unfolding place
  total-place f k v [] = omega arith
  total-place f k v ((i, w) ∷ m) = ground (arith, total-place f k v m)

  pub total-replace :
      (f : V → ℕ) (k : K) (v old : V) (m : Table K V)
      → lookup k m ≡ some old
      → total f (replace k v m) + f old ≡ f v + total f m
  unfolding lookup replace
  total-replace f k v old [] h = cc
  total-replace f k v old ((i, w) ∷ m) h = ground (arith, total-replace f k v old m)

  -- A write at a key changes the sum by the difference of the two values there.
  pub total-insert :
      (f : V → ℕ) (k : K) (v old : V) (m : Table K V)
      → lookup k m ≡ some old
      → total f (insert k v m) + f old ≡ f v + total f m
  unfolding insert
  total-insert f k v old m h = rw (h, insert) (total-replace f k v old m h)

  pub total-insert_new :
      (f : V → ℕ) (k : K) (v : V) (m : Table K V)
      → lookup k m ≡ none
      → total f (insert k v m) ≡ f v + total f m
  unfolding insert
  total-insert_new f k v m h = rw (h, insert) (total-place f k v m)

  place-AllValues :
      (P : V → Type 0) (k : K) (v : V) (m : Table K V)
      → P v
      → AllValues P m
      → AllValues P (place k v m)
  unfolding place
  place-AllValues P k v [] p h = (p, tt)
  place-AllValues P k v ((i, w) ∷ m) p h = ground (arith, place-AllValues P k v m p h.1)

  replace-AllValues :
      (P : V → Type 0) (k : K) (v : V) (m : Table K V)
      → P v
      → AllValues P m
      → AllValues P (replace k v m)
  unfolding replace
  replace-AllValues P k v [] p h = tt
  replace-AllValues P k v ((i, w) ∷ m) p h = ground (arith, replace-AllValues P k v m p h.1)

  pub insert-AllValues :
      (P : V → Type 0) (k : K) (v : V) (m : Table K V)
      → P v
      → AllValues P m
      → AllValues P (insert k v m)
  unfolding insert
  insert-AllValues P k v m p h = cases (lookup k m) refl
    where
      cases : (o : Option V) → lookup k m ≡ o → AllValues P (insert k v m)
      cases none e = rw (e, insert) (place-AllValues P k v m p h)
      cases (some old) e = rw (e, insert) (replace-AllValues P k v m p h)

  pub lookup-AllValues :
      (P : V → Type 0) (k : K) (v : V) (m : Table K V) → AllValues P m → lookup k m ≡ some v → P v
  unfolding lookup
  lookup-AllValues P k v [] h e = cc
  lookup-AllValues P k v ((i, w) ∷ m) h e = ground (arith, lookup-AllValues P k v m h.1)

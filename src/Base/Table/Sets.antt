-- ===== src/Base/Table/Sets.antt =====
-- A `std::set` as a table with nothing at its keys, and the test for an element.
use Prim.Native.Nat.{ℕ, suc, ◌≤◌}
use mathlib.Core.Path.{◌≡◌, refl, sym, ap, ◌∙◌}
use mathlib.Core.Logic.{◌⊎◌}
use mathlib.Core.Bool.{Bool, true, false, not, ◌&&◌, ◌||◌}
use mathlib.Core.List.{[], ◌∷◌}
use mathlib.Core.Option.{Option, none, some}
use native.Mathlib.Omega.{arith}
use workload_compactor.Base.Tests.{==_iff, nat_key, ◌==◌}
use workload_compactor.Base.Lists.{length}
use workload_compactor.Base.Table.{Table, lookup, insert, erase, lookup-insert, lookup-erase_ne}
use workload_compactor.Base.Table.Distinct.{IsDistinct, lookup-erase}

abbrev pub Set : Type 0
Set = Table ℕ (Unit {0})

abbrev pub is_there {ℓ} : {A : Type ℓ} → Option A → Bool
is_there none = false
is_there (some a) = true

abbrev pub contains : {V : Type 0} → ℕ → Table ℕ V → Bool
contains k m = is_there (lookup k m)

pub contains-insert : (k j : ℕ) (m : Set) → contains j (insert k tt m) ≡ (k == j) || contains j m
contains-insert k j m = ground (arith, lookup-insert k j tt m)

-- An element of a set with a new element is that one, or an old one.
pub contains-insert-cases :
    (k j : ℕ) (m : Set) → contains j (insert k tt m) ≡ true → (k ≡ j) ⊎ (contains j m ≡ true)
contains-insert-cases k j m h = ground (arith, ==_iff k j, contains-insert k j m)

pub contains-erase :
    (k j : ℕ) (m : Set) → IsDistinct m → contains j (erase k m) ≡ not (k == j) && contains j m
contains-erase k j m d = ground (arith, ==_iff k j, lookup-erase_ne k j m, lookup-erase k m d)

pub length-erase : (k : ℕ) (m : Set) → contains k m ≡ true → length m ≡ suc (length (erase k m))
unfolding lookup erase
length-erase k [] h = cc
length-erase k ((i, u) ∷ m) h = ground (arith, length-erase k m)

pub length-erase_le : (k : ℕ) (m : Set) → length (erase k m) ≤ length m
unfolding erase
length-erase_le k [] = omega arith
length-erase_le k ((i, u) ∷ m) = ground (arith, length-erase_le k m)

pub lookup_of_contains : (k : ℕ) (m : Set) → contains k m ≡ true → lookup k m ≡ some tt
lookup_of_contains k m h = cases (lookup k m) refl
  where
    cases : (o : Option (Unit {0})) → lookup k m ≡ o → lookup k m ≡ some tt
    cases none e = let never : false ≡ true = ap is_there (sym e) ∙ h in cc
    cases (some u) e = e

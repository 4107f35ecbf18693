-- ===== src/Base/Table/Distinct.antt =====
-- Tables with one entry for each key, which every table of the program is.
use mathlib.Core.Path.{◌≡◌, refl, ap}
use mathlib.Core.Logic.{inl, inr}
use mathlib.Core.List.{[], ◌∷◌}
use mathlib.Core.Option.{Option, none, some}
use native.Mathlib.Omega.{arith}
use workload_compactor.Base.Tests.{Key}
use workload_compactor.Base.Lists.{Elem}
use workload_compactor.Base.Table.{
  Table, lookup, replace, place, insert, erase, adjust, lookup-place, lookup-replace,
}

module _ {K : Type 0} {V : Type 0} ⦃key : Key K⦄ where
  open key use {beq, blt, beq_iff}

  abbrev pub IsDistinct : Table K V → Type 0
  IsDistinct [] = Unit
  IsDistinct ((k, v) ∷ m) = (lookup k m ≡ none) × IsDistinct m

  place-IsDistinct :
      (k : K) (v : V) (m : Table K V) → lookup k m ≡ none → IsDistinct m → IsDistinct (place k v m)
  unfolding lookup place
  place-IsDistinct k v [] h d = (refl, tt)
  place-IsDistinct k v ((i, w) ∷ m) h d =
      ground (arith, beq_iff i k, beq_iff k i, lookup-place k i v m, place-IsDistinct k v m)

  replace-IsDistinct :
      (k : K) (v old : V) (m : Table K V)
      → lookup k m ≡ some old
      → IsDistinct m
      → IsDistinct (replace k v m)
  unfolding lookup replace
  replace-IsDistinct k v old [] h d = tt
  replace-IsDistinct k v old ((i, w) ∷ m) h d =
      ground
        (arith, beq_iff i k, beq_iff k i, lookup-replace k i v old m, replace-IsDistinct k v old m)

  pub insert-IsDistinct : (k : K) (v : V) (m : Table K V) → IsDistinct m → IsDistinct (insert k v m)
  unfolding insert
  insert-IsDistinct k v m d = cases (lookup k m) refl
    where
      cases : (o : Option V) → lookup k m ≡ o → IsDistinct (insert k v m)
      cases none e = rw (e, insert) (place-IsDistinct k v m e d)
      cases (some old) e = rw (e, insert) (replace-IsDistinct k v old m e d)

  -- In such a table an entry is the one that `lookup` finds.
  pub lookup_of_Elem :
      (k : K) (v : V) (m : Table K V) → IsDistinct m → Elem (k, v) m → lookup k m ≡ some v
  unfolding lookup
  lookup_of_Elem k v [] d e = elim e [ ]
  lookup_of_Elem k v ((i, w) ∷ m) d (inl e) =
      ground (arith, beq_iff i k, ap (λ (x : K × V). x.0) e, ap (λ (x : K × V). x.1) e)
  lookup_of_Elem k v ((i, w) ∷ m) d (inr e) =
      ground (arith, beq_iff i k, lookup_of_Elem k v m d.1 e)

  -- An erased key is gone.
  pub lookup-erase : (k : K) (m : Table K V) → IsDistinct m → lookup k (erase k m) ≡ none
  unfolding lookup erase
  lookup-erase k [] d = refl
  lookup-erase k ((i, w) ∷ m) d = ground (arith, beq_iff i k, lookup-erase k m d.1)

  pub lookup-erase-none :
      (j k : K) (m : Table K V) → lookup j m ≡ none → lookup j (erase k m) ≡ none
  unfolding lookup erase
  lookup-erase-none j k [] h = refl
  lookup-erase-none j k ((i, w) ∷ m) h =
      ground (arith, beq_iff i k, beq_iff i j, lookup-erase-none j k m)

  pub erase-IsDistinct : (k : K) (m : Table K V) → IsDistinct m → IsDistinct (erase k m)
  unfolding erase
  erase-IsDistinct k [] d = tt
  erase-IsDistinct k ((i, w) ∷ m) d =
      ground (arith, erase-IsDistinct k m d.1, lookup-erase-none i k m d.0)

  pub lookup_absent-adjust :
      (k j : K) (f : V → V) (m : Table K V) → lookup j m ≡ none → lookup j (adjust k f m) ≡ none
  unfolding adjust lookup
  lookup_absent-adjust k j f [] h = refl
  lookup_absent-adjust k j f ((i, w) ∷ m) h = ground (arith, lookup_absent-adjust k j f m)

  pub adjust-IsDistinct :
      (k : K) (f : V → V) (m : Table K V) → IsDistinct m → IsDistinct (adjust k f m)
  unfolding adjust
  adjust-IsDistinct k f [] d = tt
  adjust-IsDistinct k f ((i, w) ∷ m) d =
      ground (arith, lookup_absent-adjust k i f m d.0, adjust-IsDistinct k f m d.1)

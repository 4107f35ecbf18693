-- ===== src/Network/Shapers/Ranks/Ascending.antt =====
-- The order of the ranks is that of the SLOs.
use workload_compactor.Base.{
  units, units-IsOrdered, bind-some, ℕ, ◌+◌, ◌<◌, ◌≤◌, ◌≡◌, ◌⊎◌, inl, inr, refl, true, false, List,
  [], ◌∷◌, some, nat_key, arith, ◌==◌, ==_iff, Bool-cases, subst, sym, same_some, Double, IsOrdered,
  All, All-map,
}
use workload_compactor.Base.Table.{lookup}
use workload_compactor.Base.Table.Sets.{Set, contains}
use workload_compactor.Network.Types.{Client, Network}
use workload_compactor.Network.Shapers.Ranks.{insert_slo, rank_from, rank, scaled_slo, collect_slos}

-- Values that neither precedes have the same place in the order, which NaN would break.
pub record IsWeak {ℓ} (W : Type ℓ) ⦃d : Double W⦄ : Type ℓ where
  pub ordered : IsOrdered W
  pub between : (x y z : W) → d.lt x y ≡ true → d.lt z y ≡ false → d.lt x z ≡ true

-- A multiplication by the margin does not turn the order of two values round; rounding may make them
-- equal.
abbrev pub KeepsOrder : {W : Type 0} ⦃d : Double W⦄ → W → Type 0
KeepsOrder {W = W} ⦃d = d⦄ margin =
    (x y : W) → d.lt x y ≡ true → d.lt (d.mul y margin) (d.mul x margin) ≡ false

pub units-IsWeak : IsWeak ℕ
units-IsWeak = record { ordered = units-IsOrdered; between = λ x y z h k. ground (arith, h, k) }

module _ {W : Type 0} ⦃d : Double W⦄ (o : IsWeak W) where
  open o.ordered use {lt_irrefl, lt_trans}

  -- The keys of a map ascend.
  abbrev pub Ascends : List W → Type 0
  Ascends [] = Unit
  Ascends (x ∷ xs) = All (λ y. d.lt x y ≡ true) xs × Ascends xs

  -- A value equivalent to x is among the keys.
  abbrev pub HasKey : W → List W → Type 0
  HasKey x [] = ⊥
  HasKey x (y ∷ ys) = ((d.lt x y ≡ false) × (d.lt y x ≡ false)) ⊎ HasKey x ys

  below :
      (x y : W) (ys : List W)
      → d.lt x y ≡ true
      → All (λ z. d.lt y z ≡ true) ys
      → All (λ z. d.lt x z ≡ true) ys
  below x y ys h a = All-map _ _ (λ z e. lt_trans x y z h e) ys a

  insert_slo-All :
      (z x : W) (ys : List W)
      → d.lt z x ≡ true
      → All (λ y. d.lt z y ≡ true) ys
      → All (λ y. d.lt z y ≡ true) (insert_slo x ys)
  unfolding insert_slo
  insert_slo-All z x [] h a = (h, tt)
  insert_slo-All z x (y ∷ ys) h a = ground (arith, insert_slo-All z x ys h a.1)

  pub insert_slo-Ascends : (x : W) (ys : List W) → Ascends ys → Ascends (insert_slo x ys)
  unfolding insert_slo
  insert_slo-Ascends x [] a = (tt, tt)
  insert_slo-Ascends x (y ∷ ys) a =
      ground (arith, insert_slo-Ascends x ys a.1, insert_slo-All y x ys, below x y ys)

  pub insert_slo-HasKey : (x : W) (ys : List W) → HasKey x (insert_slo x ys)
  unfolding insert_slo
  insert_slo-HasKey x [] = inl (lt_irrefl x, lt_irrefl x)
  insert_slo-HasKey x (y ∷ ys) = ground (arith, insert_slo-HasKey x ys, lt_irrefl x)

  pub insert_slo-keeps : (x z : W) (ys : List W) → HasKey z ys → HasKey z (insert_slo x ys)
  unfolding insert_slo
  insert_slo-keeps x z [] h = elim h [ ]
  insert_slo-keeps x z (y ∷ ys) h = ground (arith, insert_slo-keeps x z ys, h)

  HasKey-above :
      (x y : W) (ys : List W) → HasKey x ys → All (λ z. d.lt y z ≡ true) ys → d.lt y x ≡ true
  HasKey-above x y [] h a = elim h [ ]
  HasKey-above x y (z ∷ zs) (inl h) a = o.between y z x a.0 h.0
  HasKey-above x y (z ∷ zs) (inr h) a = HasKey-above x y zs h a.1

  HasKey-tail : (x y : W) (ys : List W) → d.lt y x ≡ true → HasKey x (y ∷ ys) → HasKey x ys
  HasKey-tail x y ys h k = ground arith

  rank_from-le : (i : ℕ) (x : W) (ys : List W) → Ascends ys → HasKey x ys → i ≤ rank_from i x ys
  unfolding rank_from
  rank_from-le i x [] a h = elim h [ ]
  rank_from-le i x (y ∷ ys) a h = ground (arith, rank_from-le (i + 1) x ys a.1, HasKey-above x y ys)

  above : (x y z : W) → d.lt x z ≡ true → d.lt x y ≡ false → d.lt y z ≡ true
  above x y z h e = ground (arith, o.between x z y)

  rank_from-lt :
      (i : ℕ) (x z : W) (ys : List W)
      → Ascends ys
      → HasKey x ys
      → HasKey z ys
      → d.lt x z ≡ true
      → rank_from i x ys < rank_from i z ys
  unfolding rank_from
  rank_from-lt i x z [] a h k e = elim h [ ]
  rank_from-lt i x z (y ∷ ys) a h k e = ground (
    arith,
    rank_from-lt (i + 1) x z ys a.1,
    rank_from-le (i + 1) z ys a.1,
    HasKey-above x y ys,
    lt_trans y x z,
    above x y z,
  )

  -- Of two SLOs that are keys, the smaller has the smaller rank.
  pub rank-lt :
      (x z : W) (ys : List W)
      → Ascends ys
      → HasKey x ys
      → HasKey z ys
      → d.lt x z ≡ true
      → rank x ys < rank z ys
  unfolding rank
  rank-lt x z ys a h k e = rank_from-lt 0 x z ys a h k e

  -- Values that neither precedes have the same rank.
  pub rank_from-same :
      (i : ℕ) (x z : W) (ys : List W)
      → d.lt x z ≡ false
      → d.lt z x ≡ false
      → rank_from i x ys ≡ rank_from i z ys
  unfolding rank_from
  rank_from-same i x z [] h k = refl
  rank_from-same i x z (y ∷ ys) h k = ground (
    arith,
    rank_from-same (i + 1) x z ys h k,
    o.between y x z,
    o.between y z x,
    o.between x y z,
    o.between z y x,
  )

  -- The keys of a group ascend, and hold the SLO of each of its clients.
  pub collect_slos-Ascends :
      (margin : W) (s : Network W) (group : Set) (slos all : List W)
      → collect_slos margin s group slos ≡ some all
      → Ascends slos
      → Ascends all
        × ((x : W) → HasKey x slos → HasKey x all)
        × ((i : ℕ) (c : Client W)
            → contains i group ≡ true
            → lookup i s.clients ≡ some c
            → HasKey (scaled_slo margin c) all)
  unfolding collect_slos lookup
  collect_slos-Ascends margin s [] slos all e a =
      let same : slos ≡ all = cc in
      (
        subst Ascends same a,
        λ x h. subst (HasKey x) same h,
        λ i c h. let never : false ≡ true = h in cc,
      )
  collect_slos-Ascends margin s ((j, u) ∷ group) slos all e a =
      let (b, found, rest) = bind-some (lookup j s.clients) _ all e in
      let (up, keep, here) =
        collect_slos-Ascends margin s group (insert_slo (scaled_slo margin b) slos) all rest
          (insert_slo-Ascends (scaled_slo margin b) slos a) in
      (
        up,
        λ x h. keep x (insert_slo-keeps (scaled_slo margin b) x slos h),
        λ i c h at. elim (Bool-cases (j == i)) [
          | inl p ↦
              let same : b ≡ c =
                same_some (lookup j s.clients) b c found
                  (subst (λ k. lookup k s.clients ≡ some c) (sym ((==_iff j i).0 p)) at) in
              subst (λ t. HasKey (scaled_slo margin t) all) same
                (keep (scaled_slo margin b) (insert_slo-HasKey (scaled_slo margin b) slos))
          | inr p ↦ here i c (ground (arith, h, p)) at
        ],
      )

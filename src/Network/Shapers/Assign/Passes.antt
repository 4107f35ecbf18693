-- ===== src/Network/Shapers/Assign/Passes.antt =====
-- The two loops that set the flows' shapers and priorities, as one walk over the clients of a group.
use workload_compactor.Base.{
  bind-some, ℕ, if◌then◌else◌, ◌≡◌, refl, ◌∙◌, sym, ap, subst, Bool, Bool-cases, List, [], ◌∷◌,
  some, nat_key, ==_iff, ◌==◌, arith, Elem, ◌⊎◌, inl, inr, true, false, same_some,
}
use workload_compactor.Base.Table.{Table, lookup, adjust}
use workload_compactor.Base.Table.Sets.{Set, contains}
use workload_compactor.Network.Types.{SimpleArrivalCurve, Flow, Client, Network}
use workload_compactor.Network.Registry.{set_flow_priority}
use workload_compactor.Network.Shapers.Assign.{set_shaper}

pub lookup-adjust :
    {V : Type 0} (k j : ℕ) (f : V → V) (m : Table ℕ V) (v : V)
    → lookup j m ≡ some v
    → lookup j (adjust k f m) ≡ some (if k == j then f v else v)
unfolding lookup adjust
lookup-adjust k j f [] v h = cc
lookup-adjust k j f ((i, w) ∷ m) v h =
    ground (arith, ==_iff i k, ==_iff i j, ==_iff k j, lookup-adjust k j f m v)

module _ {W : Type 0} where
  -- The flow of the id is as told.
  abbrev pub Holds : Network W → ℕ → (Flow W → Type 0) → Type 0
  Holds s i P = (f : Flow W) × (lookup i s.flows ≡ some f) × P f

  abbrev shaped : SimpleArrivalCurve W → ℕ → Flow W → Flow W
  shaped curve p f = record f { shaper_curve = curve; priority = p }

  set_shaper-lookup :
      (i : ℕ) (curve : SimpleArrivalCurve W) (p : ℕ) (s t : Network W)
      → set_shaper i curve p s ≡ some t
      → (t.clients ≡ s.clients)
        × ((j : ℕ) (f : Flow W)
            → lookup j s.flows ≡ some f
            → lookup j t.flows ≡ some (if i == j then shaped curve p f else f))
  unfolding set_shaper set_flow_priority
  set_shaper-lookup i curve p s t e =
      let (g, at, same) =
        bind-some (lookup i (adjust i (λ (h : Flow W). record h { shaper_curve = curve }) s.flows))
          _ t e in
      let u : Network W = record s {
        flows =
            adjust i (λ h. record h { priority = p })
              (adjust i (λ h. record h { shaper_curve = curve }) s.flows);
      } in
      let ends : u ≡ t = cc in
      subst
        (λ (v : Network W).
          (v.clients ≡ s.clients)
          × ((j : ℕ) (f : Flow W)
              → lookup j s.flows ≡ some f
              → lookup j v.flows ≡ some (if i == j then shaped curve p f else f)))
        ends
        (
          refl,
          λ j f h.
              lookup-adjust i j (λ g. record g { priority = p }) _ _
                (lookup-adjust i j (λ g. record g { shaper_curve = curve }) s.flows f h)
              ∙ both (i == j) f,
        )
    where
      both :
          (b : Bool) (f : Flow W)
          → some (
              if b
              then record (if b then record f { shaper_curve = curve } else f) { priority = p }
              else (if b then record f { shaper_curve = curve } else f))
            ≡ some (if b then shaped curve p f else f)
      both true f = refl
      both false f = refl

  -- A walk over flows, each of which gets a curve and a priority that make it good.
  pub data Passes (Good : Flow W → Type 0) : List ℕ → Network W → Network W → Type 0 where
    done : (s : Network W) → Passes Good [] s s
    sets :
        (i : ℕ) (is : List ℕ) (curve : SimpleArrivalCurve W) (p : ℕ) (s t u : Network W)
        → (g : Flow W) × (lookup i s.flows ≡ some g)
        → set_shaper i curve p s ≡ some t
        → ((f : Flow W) → Good (shaped curve p f))
        → Passes Good is t u
        → Passes Good (i ∷ is) s u

  -- Of a flow of the walk, and of any other flow.
  Holds-set_shaper :
      (Good : Flow W → Type 0) (i : ℕ) (curve : SimpleArrivalCurve W) (p : ℕ) (s t : Network W)
      → set_shaper i curve p s ≡ some t
      → ((f : Flow W) → Good (shaped curve p f))
      → (j : ℕ) (R : Flow W → Type 0) → Holds s j R
      → (Holds t j Good × (i ≡ j)) ⊎ Holds t j R
  Holds-set_shaper Good i curve p s t e good j R (f, at, r) =
      let (same, look) = set_shaper-lookup i curve p s t e in
      elim (Bool-cases (i == j)) [
        | inl q ↦ inl (
          (
            shaped curve p f,
            look j f at ∙ ap (λ b. some (if b then shaped curve p f else f)) q,
            good f,
          ),
          (==_iff i j).0 q,
        )
        | inr q ↦ inr (f, look j f at ∙ ap (λ b. some (if b then shaped curve p f else f)) q, r)
      ]

  Passes-clients :
      (Good : Flow W → Type 0) (is : List ℕ) (s t : Network W)
      → Passes Good is s t
      → t.clients ≡ s.clients
  Passes-clients Good is s t (done _) = refl
  Passes-clients Good is s t (sets i rest curve p _ u _ found e good w) =
      Passes-clients Good rest u t w ∙ (set_shaper-lookup i curve p s u e).0

  Passes-Holds :
      (Good : Flow W → Type 0) (is : List ℕ) (s t : Network W)
      → Passes Good is s t
      → (j : ℕ) (R : Flow W → Type 0) → Holds s j R
      → (Elem j is × Holds t j Good) ⊎ Holds t j R
  Passes-Holds Good is s t (done _) j R h = inr h
  Passes-Holds Good is s t (sets i rest curve p _ u _ found e good w) j R h =
      elim (Holds-set_shaper Good i curve p s u e good j R h) [
        | inl (g, q) ↦ elim (Passes-Holds Good rest u t w j Good g) [
          | inl (x, y) ↦ inl (inr x, y)
          | inr y ↦ inl (inl (sym q), y)
        ]
        | inr k ↦ elim (Passes-Holds Good rest u t w j R k) [
          | inl (x, y) ↦ inl (inr x, y)
          | inr y ↦ inr y
        ]
      ]

  Passes-here :
      (Good : Flow W → Type 0) (is : List ℕ) (s t : Network W)
      → Passes Good is s t
      → (j : ℕ) → Elem j is
      → Holds t j Good
  Passes-here Good is s t (done _) j m = elim m [ ]
  Passes-here Good is s t (sets i rest curve p _ u _ (f, at) e good w) j (inl q) =
      let g : Holds u i Good = (
        shaped curve p f,
        (set_shaper-lookup i curve p s u e).1 i f at
            ∙ ap (λ b. some (if b then shaped curve p f else f)) ((==_iff i i).1 refl),
        good f,
      ) in
      let kept = Passes-Holds Good rest u t w i Good g in
      subst (λ k. Holds t k Good) (sym q) (elim kept [ inl x ↦ x.1 | inr x ↦ x ])
  Passes-here Good is s t (sets i rest curve p _ u _ found e good w) j (inr m) =
      Passes-here Good rest u t w j m

  -- A walk over the clients of a group.
  pub data Covers (Good : Client W → Flow W → Type 0) : Set → Network W → Network W → Type 0 where
    done : (s : Network W) → Covers Good [] s s
    walks :
        (i : ℕ) (v : Unit {0}) (group : Set) (c : Client W) (s t u : Network W)
        → lookup i s.clients ≡ some c
        → Passes (Good c) c.flow_ids s t
        → Covers Good group t u
        → Covers Good ((i, v) ∷ group) s u

  -- No flow belongs to two clients.
  abbrev pub HasOwners : Table ℕ (Client W) → Type 0
  HasOwners clients =
      (j k : ℕ) (a b : Client W) (i : ℕ)
      → lookup j clients ≡ some a
      → lookup k clients ≡ some b
      → Elem i a.flow_ids
      → Elem i b.flow_ids
      → a ≡ b

  Covers-keep :
      (Good : Client W → Flow W → Type 0) (group : Set) (s t : Network W)
      → Covers Good group s t
      → HasOwners s.clients
      → (k : ℕ) (c : Client W) (i : ℕ) → lookup k s.clients ≡ some c
      → Elem i c.flow_ids
      → Holds s i (Good c)
      → Holds t i (Good c)
  Covers-keep Good group s t (done _) o k c i at m h = h
  Covers-keep Good group s t (walks j v rest b _ u _ found w r) o k c i at m h =
      let same = Passes-clients (Good b) b.flow_ids s u w in
      let owners : HasOwners u.clients = subst HasOwners (sym same) o in
      Covers-keep Good rest u t r owners k c i (subst (λ x. lookup k x ≡ some c) (sym same) at) m
        (elim (Passes-Holds (Good b) b.flow_ids s u w i (Good c) h) [
          | inl (x, y) ↦ subst (λ e. Holds u i (Good e)) (o j k b c i found at x m) y
          | inr y ↦ y
        ])

  -- Every flow of a client of the group is good at the end.
  pub Covers-Holds :
      (Good : Client W → Flow W → Type 0) (group : Set) (s t : Network W)
      → Covers Good group s t
      → HasOwners s.clients
      → (k : ℕ) (c : Client W) (i : ℕ) → contains k group ≡ true
      → lookup k s.clients ≡ some c
      → Elem i c.flow_ids
      → Holds t i (Good c)
  unfolding lookup
  Covers-Holds Good group s t (done _) o k c i h at m = let never : false ≡ true = h in cc
  Covers-Holds Good group s t (walks j v rest b _ u _ found w r) o k c i h at m =
      let same = Passes-clients (Good b) b.flow_ids s u w in
      let owners : HasOwners u.clients = subst HasOwners (sym same) o in
      let there = subst (λ x. lookup k x ≡ some c) (sym same) at in
      elim (Bool-cases (j == k)) [
        | inl p ↦
            let one : b ≡ c =
              same_some (lookup j s.clients) b c found
                (subst (λ x. lookup x s.clients ≡ some c) (sym ((==_iff j k).0 p)) at) in
            Covers-keep Good rest u t r owners k c i there m (
              subst (λ e. Holds u i (Good e)) one
                (Passes-here (Good b) b.flow_ids s u w i
                  (subst (λ (e : Client W). Elem i e.flow_ids) (sym one) m)))
        | inr p ↦ Covers-Holds Good rest u t r owners k c i (ground (arith, h, p)) there m
      ]

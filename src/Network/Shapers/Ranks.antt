-- ===== src/Network/Shapers/Ranks.antt =====
-- calcShaperParameters: the SLOs of a group of clients in ascending order, whose ranks become the
-- flows' priorities; the paths and the stages of the clients' flows.
use workload_compactor.Base.{
  ◌>>=◌, ℕ, ◌+◌, Bool, true, false, ◌&&◌, if◌then◌else◌, List, [], ◌∷◌, ◌++◌, Option, none, some,
  nat_key, ◌==◌, Double, length,
}
use workload_compactor.Base.Table.{Table, lookup, insert}
use workload_compactor.Base.Table.Sets.{Set}
use workload_compactor.Network.Types.{Flow, Client, Network}
pub mod Ascending

module _ {W : Type 0} ⦃d : Double W⦄ where
  -- `SLOs[SLO] = 0`: a key of a map is found by `<` alone.
  unfoldable pub insert_slo : W → List W → List W
  insert_slo x [] = x ∷ []
  insert_slo x (y ∷ ys) =
      if d.lt y x then y ∷ insert_slo x ys else (if d.lt x y then x ∷ y ∷ ys else y ∷ ys)

  -- `SLOs[SLO]`: the position of the key; a key that is not there gets the value 0.
  unfoldable pub rank_from : ℕ → W → List W → ℕ
  rank_from i x [] = 0
  rank_from i x (y ∷ ys) = if d.lt y x then rank_from (i + 1) x ys else (if d.lt x y then 0 else i)

  unfoldable pub rank : W → List W → ℕ
  rank x ys = rank_from 0 x ys

  -- A client's SLO, less a margin of a thousandth.
  unfoldable pub scaled_slo : W → Client W → W
  scaled_slo margin c = d.mul c.slo margin

  unfoldable pub collect_slos : W → Network W → Set → List W → Option (List W)
  collect_slos margin s [] slos = some slos
  collect_slos margin s ((i, u) ∷ group) slos = lookup i s.clients >>= λ c.
      collect_slos margin s group (insert_slo (scaled_slo margin c) slos)

-- `vector::front`, which an empty vector does not have.
unfoldable pub front : List ℕ → Option ℕ
front [] = none
front (q ∷ qs) = some q

-- The stage of a new queue is the number of queues before it.
unfoldable pub add_stage : ℕ → Table ℕ ℕ → Table ℕ ℕ
add_stage q stages = elim (lookup q stages) [
  | none ↦ insert q (length stages) stages
  | some i ↦ stages
]

unfoldable pub same_path : List ℕ → List ℕ → Bool
same_path [] [] = true
same_path [] (q ∷ qs) = false
same_path (p ∷ ps) [] = false
same_path (p ∷ ps) (q ∷ qs) = (p == q) && same_path ps qs

-- A path that is not there yet comes last.
unfoldable pub add_path : List ℕ → List (List ℕ) → List (List ℕ)
add_path path [] = path ∷ []
add_path path (p ∷ ps) = if same_path p path then p ∷ ps else p ∷ add_path path ps

unfoldable pub add_stages : List ℕ → Table ℕ ℕ → Table ℕ ℕ
add_stages [] stages = stages
add_stages (q ∷ qs) stages = add_stages qs (add_stage q stages)

module _ {W : Type 0} where
  -- The first queues of a client's flows.
  unfoldable pub client_path : Network W → List ℕ → Option (List ℕ)
  client_path s [] = some []
  client_path s (f ∷ fs) =
      lookup f s.flows >>= λ g. front g.queue_ids >>= λ q. client_path s fs >>= λ qs. some (q ∷ qs)

  unfoldable pub collect_paths :
      Network W → Set → List (List ℕ) → Table ℕ ℕ → Option (List (List ℕ) × Table ℕ ℕ)
  collect_paths s [] paths stages = some (paths, stages)
  collect_paths s ((i, u) ∷ group) paths stages = lookup i s.clients >>= λ c.
      client_path s c.flow_ids >>= λ path.
      collect_paths s group (add_path path paths) (add_stages path stages)

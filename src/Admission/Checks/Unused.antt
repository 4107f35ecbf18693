-- ===== src/Admission/Checks/Unused.antt =====
-- What a request that passes the checks can rely on: its clients have names, and the names are unused.
use workload_compactor.Base.{
  ◌≡◌, refl, subst, Bool, false, List, [], ◌∷◌, map, some, String, Double, string_key, arith, All,
  All-map, Option-cases, inl, inr,
}
use workload_compactor.Base.Table.{insert, lookup-insert}
use workload_compactor.Network.Types.{Network, array, ClientInfo}
use workload_compactor.Network.Registry.{id_by_name}
use workload_compactor.Admission.Checks.{
  success, Names, Checked, is_member, check_client_info, check_clients, check_client_infos,
}

abbrev pub str_eq : String → String → Bool
str_eq a b = string_key.beq a b

-- No name stands twice.
pub IsUnique : List String → Type 0
IsUnique [] = Unit
IsUnique (n ∷ ns) = All (λ m. str_eq n m ≡ false) ns × IsUnique ns

member-insert :
    (n m : String) (names : Names)
    → is_member m (insert n tt names) ≡ false
    → (str_eq n m ≡ false) × (is_member m names ≡ false)
member-insert n m names h = ground (arith, lookup-insert n m tt names)

module _ {W : Type 0} ⦃d : Double W⦄ where
  -- The names are those of the clients, unused in the network, not seen before, and different.
  abbrev pub HasUnused : Network W → Names → List (ClientInfo W) → List String → Type 0
  HasUnused s seen infos names =
      (map (λ (i : ClientInfo W). i.name) infos ≡ map (λ n. some n) names)
      × All (λ n. id_by_name n s.client_ids ≡ 0) names
      × All (λ n. is_member n seen ≡ false) names
      × IsUnique names

  abbrev pub Passes : Network W → Names → ClientInfo W → Checked → Type 0
  Passes s clients info r =
      r.0 ≡ success
      → (n : String) × (info.name ≡ some n)
        × (id_by_name n s.client_ids ≡ 0)
        × (is_member n clients ≡ false)
        × (r.1 ≡ insert n tt clients)

  pub check_client_info-Passes :
      (hundred : W) (s : Network W) (clients flows : Names) (info : ClientInfo W)
      → Passes s clients info (check_client_info hundred s clients flows info)
  unfolding check_client_info
  check_client_info-Passes hundred s clients flows info h = elim (Option-cases info.name) [
    | inl e ↦ ground (arith, e, h)
    | inr (n, e) ↦ (n, e, ground (arith, e, h), ground (arith, e, h), ground (arith, e, h))
  ]

  check_clients-HasUnused :
      (hundred : W) (s : Network W) (clients flows : Names) (infos : List (ClientInfo W))
      → check_clients hundred s clients flows infos ≡ success
      → (names : List String) × HasUnused s clients infos names
  unfolding check_clients IsUnique
  check_clients-HasUnused hundred s clients flows [] h = ([], (refl, tt, tt, tt))
  check_clients-HasUnused hundred s clients flows (i ∷ is) h =
      let r : Checked = check_client_info hundred s clients flows i in
      let here : r.0 ≡ success = ground (arith, h) in
      let (n, name, unused, unseen, seen) =
        check_client_info-Passes hundred s clients flows i here in
      let rest : check_clients hundred s r.1 r.2 is ≡ success = ground (arith, h, here) in
      let (ns, (same, free, apart, unique)) = check_clients-HasUnused hundred s r.1 r.2 is rest in
      let split : All (λ m. (str_eq n m ≡ false) × (is_member m clients ≡ false)) ns =
        All-map _ _ (λ m q. member-insert n m clients (subst (λ t. is_member m t ≡ false) seen q))
          ns apart in
      (
        n ∷ ns,
        (
          ground (arith, name, same),
          (unused, free),
          (unseen, All-map _ _ (λ m q. q.1) ns split),
          (All-map _ _ (λ m q. q.0) ns split, unique),
        ),
      )

  -- A list of clients that checkClientInfos passes: each has a name, which no client of the network
  -- has, and no two of them have the same.
  pub check_client_infos-HasUnused :
      (hundred : W) (s : Network W) (infos : List (ClientInfo W))
      → check_client_infos hundred s (array infos) ≡ success
      → (names : List String) × HasUnused s [] infos names
  unfolding check_client_infos
  check_client_infos-HasUnused hundred s infos h = check_clients-HasUnused hundred s [] [] infos h

-- ===== src/Admission/Checks/FlowNames.antt =====
-- The names of the flows in a request that passes the checks: no flow of the network has one of them,
-- and no two are the same.
use workload_compactor.Base.{
  value_or, ℕ, ◌≡◌, refl, sym, ap, subst, ◌∙◌, false, List, [], ◌∷◌, ◌++◌, none, String, Double,
  nat_key, string_key, arith, All, All-append, All-map, Option-cases, inl, inr,
}
use workload_compactor.Base.Table.{Table, lookup, insert, lookup-insert}
use workload_compactor.Base.Table.Total.{AllValues, lookup-AllValues}
use workload_compactor.Network.Sound.{IsValid}
use workload_compactor.Network.Types.{Network, Member, absent, other, array, FlowInfo, ClientInfo}
use workload_compactor.Network.Registry.{text_of, elements, id_by_name}
use workload_compactor.Network.Outline.Entered.{HasNewNames}
use workload_compactor.Network.Outline.Registered.{
  flow_names, client_names, all_flow_infos, flow_names-append,
}
use workload_compactor.Admission.Checks.Unused.{check_client_info-Passes}
use workload_compactor.Admission.Checks.{
  success, Names, Checked, is_member, check_flow_info, check_flow_infos, check_client_flows,
  check_client_info, check_clients, check_client_infos,
}

-- The ids of names are not the invalid one.
abbrev pub HasIds : Table String ℕ → Type 0
HasIds ids = (n : String) → id_by_name n ids ≡ 0 → lookup n ids ≡ none

pub HasIds-of_valid : (ids : Table String ℕ) → AllValues IsValid ids → HasIds ids
unfolding id_by_name
HasIds-of_valid ids h n e = elim (Option-cases (lookup n ids)) [
  | inl none_there ↦ none_there
  | inr (v, found) ↦
      let valid : IsValid v = lookup-AllValues IsValid n v ids h found in
      absurd (omega (arith, valid, sym (ap (value_or 0) found) ∙ e))
]

abbrev pub IsUnseen : Names → List String → Type 0
IsUnseen seen ns = All (λ n. is_member n seen ≡ false) ns

-- The names are new, to the network and to what was seen, and seen afterwards; the old ones too.
abbrev pub Sees : Table String ℕ → Names → List String → Names → Type 0
Sees ids seen ns seen' =
    HasNewNames ns ids
    × IsUnseen seen ns
    × ((n : String)
        → is_member n seen' ≡ false
        → (is_member n seen ≡ false) × All (λ k. string_key.beq k n ≡ false) ns)

str_flip : (n k : String) → string_key.beq k n ≡ false → string_key.beq n k ≡ false
str_flip n k h = ground (arith, string_key.beq_iff n k, string_key.beq_iff k n)

-- One name, and then more.
Sees-cons :
    (ids : Table String ℕ) (seen middle last : Names) (n : String) (ns : List String)
    → Sees ids seen (n ∷ []) middle
    → Sees ids middle ns last
    → Sees ids seen (n ∷ ns) last
Sees-cons ids seen middle last n ns (new, unseen, back) (news, unseens, backs) = (
  (
    new.0,
    All-map (λ k. is_member k middle ≡ false) (λ k. string_key.beq n k ≡ false)
        (λ k h. (back k h).1.0) ns unseens,
    news,
  ),
  (
    unseen.0,
    All-map (λ k. is_member k middle ≡ false) (λ k. is_member k seen ≡ false) (λ k h. (back k h).0)
        ns unseens,
  ),
  λ k h. let (old, ne) = backs k h in let (older, here) = back k old in (older, (here.0, ne)),
)

abbrev pub AreNew : Table String ℕ → Names → List String → Type 0
AreNew ids seen ns = HasNewNames ns ids × IsUnseen seen ns

AreNew-append :
    (ids : Table String ℕ) (seen middle : Names) (ns ms : List String)
    → Sees ids seen ns middle
    → AreNew ids middle ms
    → AreNew ids seen (ns ++ ms)
AreNew-append ids seen middle ns ms (new, unseen, back) (news, unseens) = (
  both ns new (All-map (λ k. is_member k middle ≡ false) _ (λ k h. (back k h).1) ms unseens),
  All-append (λ k. is_member k seen ≡ false) ns ms unseen
      (All-map (λ k. is_member k middle ≡ false) (λ k. is_member k seen ≡ false)
        (λ k h. (back k h).0) ms unseens),
)
  where
    both :
        (xs : List String)
        → HasNewNames xs ids
        → All (λ k. All (λ j. string_key.beq j k ≡ false) xs) ms
        → HasNewNames (xs ++ ms) ids
    both [] h a = news
    both (x ∷ xs) h a = (
      h.0,
      All-append (λ k. string_key.beq x k ≡ false) xs ms h.1
          (All-map (λ k. All (λ j. string_key.beq j k ≡ false) (x ∷ xs)) _ (λ k b. b.0) ms a),
      both xs h.2
          (All-map (λ k. All (λ j. string_key.beq j k ≡ false) (x ∷ xs)) _ (λ k b. b.1) ms a),
    )

member_insert :
    (n k : String) (seen : Names)
    → is_member k (insert n tt seen) ≡ false
    → (is_member k seen ≡ false) × (string_key.beq n k ≡ false)
member_insert n k seen h = ground (arith, lookup-insert n k tt seen)

module _ {W : Type 0} (s : Network W) (named : HasIds s.flow_ids) where
  check_flow_info-Sees :
      (seen : Names) (info : FlowInfo W)
      → (check_flow_info s seen info).0 ≡ success
      → Sees s.flow_ids seen (text_of info.name ∷ []) (check_flow_info s seen info).1
  unfolding check_flow_info
  check_flow_info-Sees seen info h = elim (Option-cases info.name) [
    | inl e ↦ ground (arith, e, h)
    | inr (n, e) ↦
        let text : text_of info.name ≡ n = rw e refl in
        let unused : id_by_name n s.flow_ids ≡ 0 = ground (arith, e, h) in
        let unseen : is_member n seen ≡ false = ground (arith, e, h) in
        let last : (check_flow_info s seen info).1 ≡ insert n tt seen = ground (arith, e, h) in
        subst (λ m. Sees s.flow_ids seen (m ∷ []) (check_flow_info s seen info).1) (sym text)
          (subst (Sees s.flow_ids seen (n ∷ [])) (sym last) (
            (named n unused, tt, tt),
            (unseen, tt),
            λ k g. let (old, ne) = member_insert n k seen g in (old, (ne, tt)),
          ))
  ]

  check_flow_infos-Sees :
      (seen : Names) (infos : List (FlowInfo W))
      → (check_flow_infos s seen infos).0 ≡ success
      → Sees s.flow_ids seen (flow_names infos) (check_flow_infos s seen infos).1
  unfolding check_flow_infos
  check_flow_infos-Sees seen [] h = (tt, tt, λ n g. (g, tt))
  check_flow_infos-Sees seen (i ∷ is) h =
      let r = check_flow_info s seen i in
      let here : r.0 ≡ success = ground (arith, h) in
      let same : check_flow_infos s seen (i ∷ is) ≡ check_flow_infos s r.1 is =
        ground (arith, here) in
      let rest : (check_flow_infos s r.1 is).0 ≡ success = ap (λ x. x.0) (sym same) ∙ h in
      subst (Sees s.flow_ids seen (flow_names (i ∷ is))) (ap (λ x. x.1) (sym same)) (
        Sees-cons s.flow_ids seen r.1 (check_flow_infos s r.1 is).1 (text_of i.name) (flow_names is)
          (check_flow_info-Sees seen i here) (check_flow_infos-Sees r.1 is rest))

  check_client_flows-Sees :
      (seen : Names) (flows : Member (FlowInfo W))
      → (check_client_flows s seen flows).0 ≡ success
      → Sees s.flow_ids seen (flow_names (elements flows)) (check_client_flows s seen flows).1
  unfolding check_client_flows
  check_client_flows-Sees seen absent h = (tt, tt, λ n g. (g, tt))
  check_client_flows-Sees seen other h = (tt, tt, λ n g. (g, tt))
  check_client_flows-Sees seen (array flows) h = check_flow_infos-Sees seen flows h

module _ {W : Type 0} ⦃d : Double W⦄ (hundred : W) (s : Network W) (named : HasIds s.client_ids)
    (named_flows : HasIds s.flow_ids) where
  check_client_info-flows :
      (clients flows : Names) (info : ClientInfo W)
      → (check_client_info hundred s clients flows info).0 ≡ success
      → Sees s.flow_ids flows
          (flow_names (elements info.flows))
          (check_client_info hundred s clients flows info).2
  unfolding check_client_info
  check_client_info-flows clients flows info h =
      let r = check_client_flows s flows info.flows in
      let here : r.0 ≡ success = ground (arith, h) in
      let last : (check_client_info hundred s clients flows info).2 ≡ r.1 = ground (arith, h) in
      subst (Sees s.flow_ids flows (flow_names (elements info.flows))) (sym last)
        (check_client_flows-Sees s named_flows flows info.flows here)

  check_client_info-names :
      (clients flows : Names) (info : ClientInfo W)
      → (check_client_info hundred s clients flows info).0 ≡ success
      → Sees s.client_ids clients
          (text_of info.name ∷ [])
          (check_client_info hundred s clients flows info).1
  check_client_info-names clients flows info h =
      let (n, name, unused, unseen, last) =
        check_client_info-Passes hundred s clients flows info h in
      let text : text_of info.name ≡ n = rw name refl in
      subst
        (λ m. Sees s.client_ids clients (m ∷ []) (check_client_info hundred s clients flows info).1)
        (sym text)
        (subst (Sees s.client_ids clients (n ∷ [])) (sym last) (
          (named n unused, tt, tt),
          (unseen, tt),
          λ k g. let (old, ne) = member_insert n k clients g in (old, (ne, tt)),
        ))

  check_clients-new :
      (clients flows : Names) (infos : List (ClientInfo W))
      → check_clients hundred s clients flows infos ≡ success
      → AreNew s.client_ids clients (client_names infos)
        × AreNew s.flow_ids flows (flow_names (all_flow_infos infos))
  unfolding check_clients
  check_clients-new clients flows [] h = ((tt, tt), (tt, tt))
  check_clients-new clients flows (i ∷ is) h =
      let r : Checked = check_client_info hundred s clients flows i in
      let here : r.0 ≡ success = ground (arith, h) in
      let rest : check_clients hundred s r.1 r.2 is ≡ success = ground (arith, h, here) in
      let (names, flows_new) = check_clients-new r.1 r.2 is rest in
      (
        AreNew-append s.client_ids clients r.1 (text_of i.name ∷ []) (client_names is)
            (check_client_info-names clients flows i here) names,
        subst (AreNew s.flow_ids flows)
            (sym (flow_names-append (elements i.flows) (all_flow_infos is)))
            (AreNew-append s.flow_ids flows r.2 (flow_names (elements i.flows))
              (flow_names (all_flow_infos is)) (check_client_info-flows clients flows i here)
              flows_new),
      )

  -- A list of clients that checkClientInfos passes: the clients' names, and those of all their flows,
  -- are unused in the network and different.
  pub check_client_infos-new :
      (infos : Member (ClientInfo W))
      → check_client_infos hundred s infos ≡ success
      → HasNewNames (client_names (elements infos)) s.client_ids
        × HasNewNames (flow_names (all_flow_infos (elements infos))) s.flow_ids
  unfolding check_client_infos
  check_client_infos-new absent h = (tt, tt)
  check_client_infos-new other h = (tt, tt)
  check_client_infos-new (array infos) h =
      let (names, flows) = check_clients-new [] [] infos h in (names.0, flows.0)

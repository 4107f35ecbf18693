-- ===== src/Placement/Place/Requests.antt =====
-- Every sequence of requests to the placement controller, which it serves one at a time.
use workload_compactor.Base.{
  ℕ, ◌+◌, ◌≤◌, ◌≡◌, refl, sym, subst, Bool, false, not, ◌&&◌, ◌||◌, if◌then◌else◌, List, [], ◌∷◌,
  some, String, string_key, arith, Bool-cases, Option-cases, inl, inr, is_empty,
}
use workload_compactor.Base.Table.{Table, lookup, insert, erase, lookup-erase_ne}
use workload_compactor.Base.Table.Distinct.{
  IsDistinct, lookup-erase, erase-IsDistinct, insert-IsDistinct,
}
use workload_compactor.Placement.Machines.{
  Vms, WorkloadInfo, Machines, str_eq, has_vm, vms_at, client_vm_in_use, client_host_in_use,
  add_client_vm_svc, del_client_vm_svc, add_server_vm_svc, del_server_vm_svc,
}
use workload_compactor.Placement.Place.{Placed, Search, Workload, place_client, remove_client}
use workload_compactor.Placement.Place.Holders.{
  str_eq_iff, one_if, users, IsExclusive, available-insert, available-erase, vms_at-insert,
  vms_at-touch,
}
use workload_compactor.Placement.Place.Exclusive.{
  Conserves, place_client-Conserves, remove_client-Keeps, insert-sets,
}

unused :
    (host vm : String) (ws : List WorkloadInfo)
    → client_vm_in_use host vm ws ≡ false
    → users host vm ws ≡ 0
unfolding client_vm_in_use users
unused host vm [] h = refl
unused host vm (w ∷ ws) h = ground (arith, unused host vm ws)

-- A change of the sets of client VMs under which no VM becomes held by more than one.
replaced-IsExclusive :
    (s : Machines) (m : Table String Vms)
    → IsExclusive s
    → IsDistinct m
    → ((h : String) → IsDistinct (vms_at h m))
    → ((h v : String) → one_if (has_vm v (vms_at h m)) + users h v s.workloads ≤ 1)
    → IsExclusive (record s { clients = m })
replaced-IsExclusive s m x d sets held = record { hosts = d; sets = sets; held = held }

touched-IsExclusive :
    (host : String) (s : Machines)
    → IsExclusive s
    → IsExclusive (record s { clients = insert host (vms_at host s.clients) s.clients })
touched-IsExclusive host s x =
    replaced-IsExclusive s _ x (insert-IsDistinct host _ s.clients x.hosts)
      (λ h. subst IsDistinct (sym (vms_at-touch host h s.clients)) (x.sets h))
      (λ h v. rw vms_at-touch (x.held h v))

added-IsExclusive :
    (host vm : String) (s : Machines)
    → IsExclusive s
    → client_vm_in_use host vm s.workloads ≡ false
    → IsExclusive
        (record s { clients = insert host (insert vm tt (vms_at host s.clients)) s.clients })
added-IsExclusive host vm s x free =
    replaced-IsExclusive s _ x (insert-IsDistinct host _ s.clients x.hosts)
      (insert-sets host vm s.clients x.sets) (λ h v. rw available-insert (held h v))
  where
    held :
        (h v : String)
        → one_if (str_eq host h && str_eq vm v || has_vm v (vms_at h s.clients))
            + users h v s.workloads
          ≤ 1
    held h v = elim (Bool-cases (str_eq host h && str_eq vm v)) [
      | inl e ↦
          let same_host : host ≡ h = (str_eq_iff host h).0 (ground (arith, e)) in
          let same_vm : vm ≡ v = (str_eq_iff vm v).0 (ground (arith, e)) in
          let nobody : users h v s.workloads ≡ 0 =
            subst (λ (w : String). users h w s.workloads ≡ 0) same_vm
              (subst (λ (k : String). users k vm s.workloads ≡ 0) same_host
                (unused host vm s.workloads free)) in
          rw (e, nobody) (omega arith)
      | inr e ↦ rw e (x.held h v)
    ]

add_client_vm_svc-IsExclusive :
    (host vm : String) (s : Machines) → IsExclusive s → IsExclusive (add_client_vm_svc host vm s).1
unfolding add_client_vm_svc
add_client_vm_svc-IsExclusive host vm s x = elim (Bool-cases (has_vm vm (vms_at host s.clients))) [
  | inl a ↦ rw a (touched-IsExclusive host s x)
  | inr a ↦ elim (Bool-cases (client_vm_in_use host vm s.workloads)) [
    | inl u ↦ rw (a, u) (touched-IsExclusive host s x)
    | inr u ↦ rw (a, u) (added-IsExclusive host vm s x u)
  ]
]

fewer-held : (a b : Bool) (n : ℕ) → one_if b + n ≤ 1 → one_if (a && b) + n ≤ 1
fewer-held a b n h = ground (arith, h)

erase-sets :
    (host vm : String) (m : Table String Vms)
    → ((h : String) → IsDistinct (vms_at h m))
    → (h : String) → IsDistinct (vms_at h (insert host (erase vm (vms_at host m)) m))
erase-sets host vm m d h = elim (Bool-cases (str_eq host h)) [
  | inl e ↦ rw (vms_at-insert, e) (erase-IsDistinct vm _ (d host))
  | inr e ↦ rw (vms_at-insert, e) (d h)
]

-- The host without a VM.
lessened-IsExclusive :
    (host vm : String) (vms : Vms) (s : Machines)
    → IsExclusive s
    → lookup host s.clients ≡ some vms
    → IsExclusive (record s { clients = insert host (erase vm vms) s.clients })
lessened-IsExclusive host vm vms s x e =
    let at : vms_at host s.clients ≡ vms = ground (arith, e) in
    subst (λ (t : Vms). IsExclusive (record s { clients = insert host (erase vm t) s.clients })) at
      (replaced-IsExclusive s _ x (insert-IsDistinct host _ s.clients x.hosts)
        (erase-sets host vm s.clients x.sets)
        (λ h v.
          rw (available-erase host vm h v s.clients (x.sets host))
            (fewer-held _ (has_vm v (vms_at h s.clients)) _ (x.held h v))))

vms_at-erase :
    (j k : String) (m : Table String Vms)
    → IsDistinct m
    → vms_at k (erase j m) ≡ (if str_eq j k then [] else vms_at k m)
vms_at-erase j k m d = elim (Bool-cases (str_eq j k)) [
  | inl e ↦ rw e (
      subst (λ (i : String). vms_at i (erase j m) ≡ []) ((str_eq_iff j k).0 e)
        (ground (arith, lookup-erase j m d)))
  | inr e ↦ rw e (ground (arith, lookup-erase_ne j k m e))
]

-- Without the host.
dropped-IsExclusive :
    (host : String) (s : Machines)
    → IsExclusive s
    → IsExclusive (record s { clients = erase host s.clients })
unfolding lookup
dropped-IsExclusive host s x =
    replaced-IsExclusive s _ x (erase-IsDistinct host s.clients x.hosts)
      (λ h. elim (Bool-cases (str_eq host h)) [
        | inl e ↦ rw (vms_at-erase host h s.clients x.hosts, e) tt
        | inr e ↦ rw (vms_at-erase host h s.clients x.hosts, e) (x.sets h)
      ])
      (λ h v. elim (Bool-cases (str_eq host h)) [
        | inl e ↦ rw (vms_at-erase host h s.clients x.hosts, e) (omega (arith, x.held h v))
        | inr e ↦ rw (vms_at-erase host h s.clients x.hosts, e) (x.held h v)
      ])

del_found :
    (host vm : String) (vms : Vms) (s : Machines)
    → IsExclusive s
    → lookup host s.clients ≡ some vms
    → IsExclusive (del_client_vm_svc host vm s).1
unfolding del_client_vm_svc
del_found host vm vms s x e = elim (Bool-cases (has_vm vm vms)) [
  | inr a ↦ rw (e, del_client_vm_svc, a) x
  | inl a ↦
      elim (Bool-cases (is_empty (erase vm vms) && not (client_host_in_use host s.workloads))) [
        | inl u ↦ rw (e, del_client_vm_svc, a, u) (dropped-IsExclusive host s x)
        | inr u ↦ rw (e, del_client_vm_svc, a, u) (lessened-IsExclusive host vm vms s x e)
      ]
]

del_client_vm_svc-IsExclusive :
    (host vm : String) (s : Machines) → IsExclusive s → IsExclusive (del_client_vm_svc host vm s).1
unfolding del_client_vm_svc
del_client_vm_svc-IsExclusive host vm s x = elim (Option-cases (lookup host s.clients)) [
  | inl e ↦ rw (e, del_client_vm_svc) x
  | inr (vms, e) ↦ del_found host vm vms s x e
]

-- The requests about server VMs leave the client VMs and the workloads alone.
servers-IsExclusive :
    (s t : Machines)
    → t.clients ≡ s.clients
    → t.workloads ≡ s.workloads
    → IsExclusive s
    → IsExclusive t
servers-IsExclusive s t c w x = record {
  hosts = rw c x.hosts;
  sets = λ h. rw c (x.sets h);
  held = λ h v. rw (c, w) (x.held h v);
}

add_server-same :
    (host vm : String) (s : Machines)
    → let t = (add_server_vm_svc host vm s).1 in
      (t.clients ≡ s.clients) × (t.workloads ≡ s.workloads)
unfolding add_server_vm_svc
add_server-same host vm s = ground arith

del_server-same :
    (host vm : String) (s : Machines)
    → let t = (del_server_vm_svc host vm s).1 in
      (t.clients ≡ s.clients) × (t.workloads ≡ s.workloads)
unfolding del_server_vm_svc
del_server-same host vm s = ground arith

-- One request. A placement that runs out of client machines ends the program.
pub data Step (s : Machines) : Machines → Type 0 where
  places :
      (search : List Placed → Search) (w : Workload) (placed : Bool) (t : Machines)
      → place_client search w s ≡ some (placed, t)
      → Step s t
  removes : (name : String) → Step s (remove_client name s)
  adds_client_vm : (host vm : String) → Step s (add_client_vm_svc host vm s).1
  deletes_client_vm : (host vm : String) → Step s (del_client_vm_svc host vm s).1
  adds_server_vm : (host vm : String) → Step s (add_server_vm_svc host vm s).1
  deletes_server_vm : (host vm : String) → Step s (del_server_vm_svc host vm s).1

pub data Reach (s : Machines) : Machines → Type 0 where
  here : Reach s s
  next : {u v : Machines} → Reach s u → Step u v → Reach s v

Step-IsExclusive : (s t : Machines) → Step s t → IsExclusive s → IsExclusive t
Step-IsExclusive s t (places search w placed _ e) x =
    (subst (Conserves s) e (place_client-Conserves search w s x)).1
Step-IsExclusive s t (removes name) x = (remove_client-Keeps name s x).1
Step-IsExclusive s t (adds_client_vm host vm) x = add_client_vm_svc-IsExclusive host vm s x
Step-IsExclusive s t (deletes_client_vm host vm) x = del_client_vm_svc-IsExclusive host vm s x
Step-IsExclusive s t (adds_server_vm host vm) x =
    let same = add_server-same host vm s in servers-IsExclusive s _ same.0 same.1 x
Step-IsExclusive s t (deletes_server_vm host vm) x =
    let same = del_server-same host vm s in servers-IsExclusive s _ same.0 same.1 x

Reach-keeps : (s t : Machines) → Reach s t → IsExclusive s → IsExclusive t
Reach-keeps s t here x = x
Reach-keeps s t (next {u} r st) x = Step-IsExclusive u t st (Reach-keeps s u r x)

abbrev pub no_machines : Machines
no_machines = record { servers = []; clients = []; server_client_grouping = []; workloads = [] }

-- After any sequence of placements, removals and requests that add or delete VMs, from a controller
-- with no machines: no client VM is both available and used by a workload, and none is used by two
-- workloads.
pub Reach-IsExclusive : (s : Machines) → Reach no_machines s → IsExclusive s
unfolding lookup users
Reach-IsExclusive s r =
    Reach-keeps no_machines s r (record { hosts = tt; sets = λ h. tt; held = λ h v. ground arith })

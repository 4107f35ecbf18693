-- ===== src/Placement/Place/Exclusive.antt =====
-- Whatever the requests to the placement controller, no client VM is given to two workloads.
use workload_compactor.Base.{
  ◌>>=◌, bind-some, get_elem?, zero, suc, ℕ, ◌≤◌, ◌≡◌, refl, sym, ap, subst, ◌∙◌, Bool, true, List,
  [], ◌∷◌, Option, none, some, String, string_key, arith, Bool-cases, inl, inr,
}
use workload_compactor.Base.Table.{Table, insert}
use workload_compactor.Base.Table.Distinct.{IsDistinct, insert-IsDistinct}
use workload_compactor.Placement.Machines.{Vms, WorkloadInfo, Machines, str_eq, has_vm, vms_at}
use workload_compactor.Placement.Place.{
  Placed, Search, client_server_placement, try_servers, work_queue, settle, settle_with, settle_at,
  place_client, Workload, find_workload, drop_workload, release_vm, remove_client,
}
use workload_compactor.Placement.Place.Holders.{
  uses, users, holders, IsExclusive, settle-holders, settle-sets, available-insert, vms_at-insert,
}
use workload_compactor.Placement.Place.Free.{
  IsSame, IsSame-refl, IsSame-trans, Chooses, client_server_placement-Chooses,
}

IsSame-holders :
    (s t : Machines) (host vm : String) → IsSame s t → holders host vm t ≡ holders host vm s
IsSame-holders s t host vm e = rw (e.workloads, e.vms) refl

IsSame-sets :
    (s t : Machines)
    → IsSame s t
    → ((h : String) → IsDistinct (vms_at h s.clients))
    → (h : String) → IsDistinct (vms_at h t.clients)
IsSame-sets s t e d h = subst IsDistinct (sym (e.vms h)) (d h)

-- The same VMs are held as before, by as many.
abbrev pub Conserves : Machines → Option (Bool × Machines) → Type 0
Conserves s none = Unit
Conserves s (some (placed, t)) =
    ((host vm : String) → holders host vm t ≡ holders host vm s) × IsExclusive t

settle_with-Conserves :
    (name : String) (server : Placed) (s : Machines) (o : Option (Placed × Machines))
    → IsExclusive s
    → Chooses s o
    → Conserves s (settle_with name server o)
unfolding settle
settle_with-Conserves name server s none x c = tt
settle_with-Conserves name server s (some (client, t)) x (free, same) =
    let sets = IsSame-sets s t same x.sets in
    let free' = subst (λ v. has_vm client.1 v ≡ true) (sym (same.vms client.0)) free in
    let held : (host vm : String)
        → holders host vm (settle name server client t) ≡ holders host vm s =
      λ host vm.
        settle-holders name host vm server client t (sets client.0) free'
        ∙ IsSame-holders s t host vm same in
    (
      held,
      record {
        hosts = insert-IsDistinct client.0 _ t.clients (same.hosts x.hosts);
        sets = settle-sets name server client t sets;
        held = λ host vm. subst (λ n. n ≤ 1) (sym (held host vm)) (x.held host vm);
      },
    )

settle_at-Conserves :
    (name : String) (o : Option Placed) (s : Machines)
    → IsExclusive s
    → Conserves s (settle_at name o s)
unfolding settle_at
settle_at-Conserves name none s x = (λ h v. refl, x)
settle_at-Conserves name (some server) s x =
    settle_with-Conserves name server s _ x (client_server_placement-Chooses server.0 s x.hosts)

-- The servers that the workers take only add hosts with no VMs.
try_servers-IsSame :
    (n : ℕ) (queue : List Placed) (s t : Machines)
    → try_servers n queue s ≡ some t
    → IsDistinct s.clients
    → IsSame s t
unfolding try_servers
try_servers-IsSame zero queue s t e d =
    let same : s ≡ t = cc in subst (IsSame s) same (IsSame-refl s)
try_servers-IsSame (suc n) [] s t e d =
    let same : s ≡ t = cc in subst (IsSame s) same (IsSame-refl s)
try_servers-IsSame (suc n) (server ∷ queue) s t e d =
    let (r, found, rest) = bind-some (client_server_placement server.0 s) _ t e in
    let chosen : Chooses s (some r) =
      subst (Chooses s) found (client_server_placement-Chooses server.0 s d) in
    IsSame-trans s r.1 t chosen.1 (try_servers-IsSame n queue r.1 t rest (chosen.1.hosts d))

IsSame-IsExclusive : (s t : Machines) → IsSame s t → IsExclusive s → IsExclusive t
IsSame-IsExclusive s t e x = record {
  hosts = e.hosts x.hosts;
  sets = IsSame-sets s t e x.sets;
  held = λ host vm. subst (λ n. n ≤ 1) (sym (IsSame-holders s t host vm e)) (x.held host vm);
}

Conserves-same :
    (s t : Machines) (o : Option (Bool × Machines)) → IsSame s t → Conserves t o → Conserves s o
Conserves-same s t none e c = tt
Conserves-same s t (some (placed, u)) e c =
    (λ host vm. c.0 host vm ∙ IsSame-holders s t host vm e, c.1)

tried-Conserves :
    (s : Machines) (o : Option Machines) (f : Machines → Option (Bool × Machines))
    → IsExclusive s
    → ((t : Machines) → o ≡ some t → IsDistinct s.clients → IsSame s t)
    → ((t : Machines) → IsExclusive t → Conserves t (f t))
    → Conserves s (o >>= f)
tried-Conserves s none f x same settles = tt
tried-Conserves s (some t) f x same settles =
    let e = same t refl x.hosts in
    Conserves-same s t (f t) e (settles t (IsSame-IsExclusive s t e x))

-- `placeClient`, however many servers the workers take and whichever they find, and whether it places the workload or not: every
-- client VM is held by as many (it is available, or a workload uses it) as before, so that no client
-- VM comes to have two uses, if none had before.
pub place_client-Conserves :
    (search : List Placed → Search) (w : Workload) (s : Machines)
    → IsExclusive s
    → Conserves s (place_client search w s)
unfolding place_client
place_client-Conserves search w s x = cases w.admitted_at refl
  where
    cases : (o : Option Placed) → w.admitted_at ≡ o → Conserves s (place_client search w s)
    cases (some server) e = rw e (settle_at-Conserves w.name (some server) s x)
    cases none e =
        let queue = work_queue s.servers in
        rw e (
          tried-Conserves s (try_servers (search queue).taken queue s)
            (settle_at w.name (get_elem? queue (search queue).best)) x
            (try_servers-IsSame (search queue).taken queue s)
            (λ t y. settle_at-Conserves w.name (get_elem? queue (search queue).best) t y))

users-drop :
    (name host vm : String) (ws : List WorkloadInfo) (w : WorkloadInfo)
    → find_workload name ws ≡ some w
    → users host vm ws ≡ users host vm (w ∷ drop_workload name ws)
unfolding find_workload drop_workload users
users-drop name host vm [] w e = cc
users-drop name host vm (v ∷ ws) w e = elim (Bool-cases (str_eq v.name name)) [
  | inl h ↦ let same : v ≡ w = ground (arith, e) in rw h (ap (λ x. users host vm (x ∷ ws)) same)
  | inr h ↦ rw h (omega (arith, users-drop name host vm ws w (ground (arith, e))))
]

released-holders :
    (name host vm : String) (s : Machines) (w : WorkloadInfo)
    → IsExclusive s
    → find_workload name s.workloads ≡ some w
    → holders host vm (record (release_vm w s) { workloads = drop_workload name s.workloads })
      ≡ holders host vm s
unfolding users
released-holders name host vm s w x e =
    let split = users-drop name host vm s.workloads w e in
    let le = x.held host vm in
    rw (available-insert, split)
      (elim (Bool-cases (uses host vm w)) [
        | inl u ↦ elim (Bool-cases (has_vm vm (vms_at host s.clients))) [
          | inl a ↦ ground (arith, split, le, u, a)
          | inr a ↦ rw (u, a) (omega arith)
        ]
        | inr u ↦ rw u (omega arith)
      ])

abbrev pub Keeps : Machines → Machines → Type 0
Keeps s t = ((host vm : String) → holders host vm t ≡ holders host vm s) × IsExclusive t

pub insert-sets :
    (host vm : String) (m : Table String Vms)
    → ((h : String) → IsDistinct (vms_at h m))
    → (h : String) → IsDistinct (vms_at h (insert host (insert vm tt (vms_at host m)) m))
insert-sets host vm m d h = elim (Bool-cases (str_eq host h)) [
  | inl e ↦ rw (vms_at-insert, e) (insert-IsDistinct vm tt _ (d host))
  | inr e ↦ rw (vms_at-insert, e) (d h)
]

-- `removeClient` gives the client VM of the workload that it removes back, once: every client VM is
-- held by as many as before, so that no client VM comes to have two uses, if none had before.
pub remove_client-Keeps :
    (name : String) (s : Machines) → IsExclusive s → Keeps s (remove_client name s)
unfolding remove_client
remove_client-Keeps name s x = cases (find_workload name s.workloads) refl
  where
    cases :
        (o : Option WorkloadInfo)
        → find_workload name s.workloads ≡ o
        → Keeps s (remove_client name s)
    cases none e = rw (e, remove_client) ((λ h v. refl), x)
    cases (some w) e =
        let held : (host vm : String)
            → holders host vm
                (record (release_vm w s) { workloads = drop_workload name s.workloads })
              ≡ holders host vm s =
          λ host vm. released-holders name host vm s w x e in
        rw (e, remove_client)
          (
            held,
            record {
              hosts = insert-IsDistinct w.client_host _ s.clients x.hosts;
              sets = insert-sets w.client_host w.client_vm s.clients x.sets;
              held = λ host vm. subst (λ n. n ≤ 1) (sym (held host vm)) (x.held host vm);
            },
          )

-- ===== src/Placement/Place/Free.antt =====
-- `clientServerPlacement` finds an available VM.
use workload_compactor.Base.{
  ℕ, ◌≡◌, refl, subst, ◌∙◌, true, List, [], ◌∷◌, Option, none, some, String, string_key, arith,
  Bool-cases, Option-cases, inl, inr, ltb, length, Elem,
}
use workload_compactor.Base.Table.{Table, lookup}
use workload_compactor.Base.Table.Distinct.{IsDistinct, lookup_of_Elem, insert-IsDistinct}
use workload_compactor.Placement.Machines.{Vms, WorkloadInfo, Machines, str_eq, has_vm, vms_at}
use workload_compactor.Placement.Place.{
  Placed, first_vm, touch, shared_client, roomiest, or_none, or_roomiest, among_workloads,
  or_elsewhere, at_grouping, client_server_placement,
}
use workload_compactor.Placement.Place.Holders.{str_eq_iff, vms_at-touch}

-- The same VMs at every host, and the same workloads.
pub record IsSame (s t : Machines) : Type 0 where
  pub workloads : t.workloads ≡ s.workloads
  pub vms : (host : String) → vms_at host t.clients ≡ vms_at host s.clients
  pub hosts : IsDistinct s.clients → IsDistinct t.clients

pub IsSame-refl : (s : Machines) → IsSame s s
IsSame-refl s = record { workloads = refl; vms = λ h. refl; hosts = λ d. d }

pub IsSame-trans : (s t u : Machines) → IsSame s t → IsSame t u → IsSame s u
IsSame-trans s t u a b = record {
  workloads = b.workloads ∙ a.workloads;
  vms = λ h. b.vms h ∙ a.vms h;
  hosts = λ d. b.hosts (a.hosts d);
}

touch-IsSame : (host : String) (s : Machines) → IsSame s (touch host s)
touch-IsSame host s = record {
  workloads = refl;
  vms = λ h. vms_at-touch host h s.clients;
  hosts = insert-IsDistinct host (vms_at host s.clients) s.clients;
}

-- The VM, if one was found, is available.
abbrev IsFree : Machines → Option Placed → Type 0
IsFree s none = Unit
IsFree s (some p) = has_vm p.1 (vms_at p.0 s.clients) ≡ true

IsFree-same : (s t : Machines) (o : Option Placed) → IsSame s t → IsFree t o → IsFree s o
IsFree-same s t none e f = tt
IsFree-same s t (some p) e f = subst (λ v. has_vm p.1 v ≡ true) (e.vms p.0) f

first_vm-IsFree :
    (host : String) (vms : Vms) (s : Machines)
    → vms_at host s.clients ≡ vms
    → IsFree s (first_vm host vms)
unfolding lookup
first_vm-IsFree host [] s e = tt
first_vm-IsFree host ((vm, u) ∷ vms) s e = rw e (ground (arith, str_eq_iff vm vm))

abbrev FindsFree : Machines → Option Placed × Machines → Type 0
FindsFree s (o, t) = IsFree s o × IsSame s t

shared_client-FindsFree :
    (server_host : String) (ws : List WorkloadInfo) (s : Machines)
    → FindsFree s (shared_client server_host ws s)
unfolding shared_client
shared_client-FindsFree sh [] s = (tt, IsSame-refl s)
shared_client-FindsFree sh (w ∷ ws) s = elim (Bool-cases (str_eq w.server_host sh)) [
  | inr e ↦ rw e (shared_client-FindsFree sh ws s)
  | inl e ↦ elim (Option-cases (first_vm w.client_host (vms_at w.client_host s.clients))) [
    | inr (p, f) ↦
        rw (e, f)
          (
            subst (IsFree s) f (first_vm-IsFree w.client_host _ s refl),
            touch-IsSame w.client_host s,
          )
    | inl f ↦
        let t = touch w.client_host s in
        let (free, same) = shared_client-FindsFree sh ws t in
        let step = touch-IsSame w.client_host s in
        rw (e, f) (IsFree-same s t _ step free, IsSame-trans s t _ step same)
  ]
]

roomiest-IsFree :
    (s : Machines) (most : ℕ) (best : Option Placed) (m : Table String Vms)
    → IsDistinct s.clients
    → ((x : String × Vms) → Elem x m → Elem x s.clients)
    → IsFree s best
    → IsFree s (roomiest most best m)
unfolding roomiest
roomiest-IsFree s most best [] d inside f = f
roomiest-IsFree s most best ((host, vms) ∷ m) d inside f =
    let at = lookup_of_Elem host vms s.clients d (inside (host, vms) (inl refl)) in
    let later = λ (x : String × Vms) (e : Elem x m). inside x (inr e) in
    let here = first_vm-IsFree host vms s (ground (arith, at)) in
    let better = roomiest-IsFree s (length vms) (first_vm host vms) m d later here in
    let same = roomiest-IsFree s most best m d later f in
    elim (Bool-cases (ltb most (length vms))) [ inl e ↦ rw e better | inr e ↦ rw e same ]

-- The VM that is chosen was available, and nothing changes but for hosts that get an empty set.
abbrev pub Chooses : Machines → Option (Placed × Machines) → Type 0
Chooses s none = Unit
Chooses s (some (p, t)) = (has_vm p.1 (vms_at p.0 s.clients) ≡ true) × IsSame s t

Chooses-same :
    (s t : Machines) (o : Option (Placed × Machines)) → IsSame s t → Chooses t o → Chooses s o
Chooses-same s t none e c = tt
Chooses-same s t (some (p, u)) e c = (IsFree-same s t (some p) e c.0, IsSame-trans s t u e c.1)

or_none-Chooses : (s : Machines) (o : Option Placed) → IsFree s o → Chooses s (or_none s o)
or_none-Chooses s none f = tt
or_none-Chooses s (some p) f = (f, IsSame-refl s)

or_roomiest-Chooses :
    (s : Machines) (r : Option Placed × Machines)
    → IsDistinct s.clients
    → FindsFree s r
    → Chooses s (or_roomiest r)
or_roomiest-Chooses s (some p, t) d f = f
or_roomiest-Chooses s (none, t) d (free, same) =
    Chooses-same s t _ same
      (or_none-Chooses t _ (roomiest-IsFree t 0 none t.clients (same.hosts d) (λ x i. i) tt))

among_workloads-Chooses :
    (server_host : String) (s : Machines)
    → IsDistinct s.clients
    → Chooses s (among_workloads server_host s)
among_workloads-Chooses sh s d =
    or_roomiest-Chooses s _ d (shared_client-FindsFree sh s.workloads s)

or_elsewhere-Chooses :
    (server_host host : String) (o : Option Placed) (s : Machines)
    → IsDistinct s.clients
    → IsFree s o
    → Chooses s (or_elsewhere server_host o (touch host s))
or_elsewhere-Chooses sh host (some p) s d f = (f, touch-IsSame host s)
or_elsewhere-Chooses sh host none s d f =
    let same = touch-IsSame host s in
    Chooses-same s (touch host s) _ same (among_workloads-Chooses sh (touch host s) (same.hosts d))

at_grouping-Chooses :
    (server_host : String) (o : Option String) (s : Machines)
    → IsDistinct s.clients
    → Chooses s (at_grouping server_host o s)
at_grouping-Chooses sh none s d = among_workloads-Chooses sh s d
at_grouping-Chooses sh (some host) s d =
    or_elsewhere-Chooses sh host _ s d (first_vm-IsFree host (vms_at host s.clients) s refl)

pub client_server_placement-Chooses :
    (server_host : String) (s : Machines)
    → IsDistinct s.clients
    → Chooses s (client_server_placement server_host s)
unfolding client_server_placement
client_server_placement-Chooses sh s d =
    at_grouping-Chooses sh (lookup sh s.server_client_grouping) s d

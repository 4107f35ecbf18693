-- ===== src/Placement/Place/Holders.antt =====
-- A client VM is available, or used by one workload, and never both.
use workload_compactor.Base.{
  ℕ, ◌+◌, ◌≤◌, ◌≡◌, ◌↔◌, refl, sym, ap, subst, ◌∙◌, Bool, true, false, not, ◌&&◌, ◌||◌,
  if◌then◌else◌, List, [], ◌∷◌, ◌++◌, String, string_key, arith, Bool-cases, inl, inr,
}
use workload_compactor.Base.Table.{Table, insert, erase, lookup-insert, lookup-erase_ne}
use workload_compactor.Base.Table.Distinct.{IsDistinct, lookup-erase, erase-IsDistinct}
use workload_compactor.Placement.Machines.{Vms, WorkloadInfo, Machines, str_eq, has_vm, vms_at}
use workload_compactor.Placement.Place.{Placed, settle}

pub str_eq_iff : (a b : String) → (str_eq a b ≡ true) ↔ (a ≡ b)
str_eq_iff = string_key.beq_iff

abbrev pub one_if : Bool → ℕ
one_if true = 1
one_if false = 0

-- Does the workload use the VM?
abbrev pub uses : String → String → WorkloadInfo → Bool
uses host vm w = str_eq w.client_host host && str_eq w.client_vm vm

unfoldable pub users : String → String → List WorkloadInfo → ℕ
users host vm [] = 0
users host vm (w ∷ ws) = one_if (uses host vm w) + users host vm ws

-- 1 where the VM is available, and 1 for each workload that uses it.
abbrev pub holders : String → String → Machines → ℕ
holders host vm s = one_if (has_vm vm (vms_at host s.clients)) + users host vm s.workloads

-- No VM has two uses.
pub record IsExclusive (s : Machines) : Type 0 where
  pub hosts : IsDistinct s.clients
  pub sets : (host : String) → IsDistinct (vms_at host s.clients)
  pub held : (host vm : String) → holders host vm s ≤ 1

pub vms_at-insert :
    (j k : String) (vms : Vms) (m : Table String Vms)
    → vms_at k (insert j vms m) ≡ (if str_eq j k then vms else vms_at k m)
vms_at-insert j k vms m = ground (arith, lookup-insert j k vms m)

pub vms_at-touch :
    (j k : String) (m : Table String Vms) → vms_at k (insert j (vms_at j m) m) ≡ vms_at k m
vms_at-touch j k m = elim (Bool-cases (str_eq j k)) [
  | inl e ↦
      let same : j ≡ k = (str_eq_iff j k).0 e in
      vms_at-insert j k (vms_at j m) m ∙ rw e (ap (λ i. vms_at i m) same)
  | inr e ↦ vms_at-insert j k (vms_at j m) m ∙ rw e refl
]

pub has_vm-insert :
    (v w : String) (vms : Vms) → has_vm w (insert v tt vms) ≡ (str_eq v w || has_vm w vms)
has_vm-insert v w vms = ground (arith, lookup-insert v w tt vms)

pub has_vm-erase :
    (v w : String) (vms : Vms)
    → IsDistinct vms
    → has_vm w (erase v vms) ≡ (not (str_eq v w) && has_vm w vms)
has_vm-erase v w vms d = elim (Bool-cases (str_eq v w)) [
  | inl e ↦
      let same : v ≡ w = (str_eq_iff v w).0 e in
      rw e (subst (λ x. has_vm x (erase v vms) ≡ false) same (ground (arith, lookup-erase v vms d)))
  | inr e ↦ rw e (ground (arith, lookup-erase_ne v w vms e))
]

pub users-append :
    (host vm : String) (xs ys : List WorkloadInfo)
    → users host vm (xs ++ ys) ≡ users host vm xs + users host vm ys
unfolding users
users-append host vm [] ys = omega arith
users-append host vm (x ∷ xs) ys = omega (arith, users-append host vm xs ys)

pub available-erase :
    (ch cv host vm : String) (m : Table String Vms)
    → IsDistinct (vms_at ch m)
    → has_vm vm (vms_at host (insert ch (erase cv (vms_at ch m)) m))
      ≡ (not (str_eq ch host && str_eq cv vm) && has_vm vm (vms_at host m))
available-erase ch cv host vm m d = elim (Bool-cases (str_eq ch host)) [
  | inr e ↦ rw (vms_at-insert, e) refl
  | inl e ↦
      rw (vms_at-insert, e)
        (has_vm-erase cv vm (vms_at ch m) d
          ∙ ap (λ h. not (str_eq cv vm) && has_vm vm (vms_at h m)) ((str_eq_iff ch host).0 e))
]

pub available-insert :
    (ch cv host vm : String) (m : Table String Vms)
    → has_vm vm (vms_at host (insert ch (insert cv tt (vms_at ch m)) m))
      ≡ (str_eq ch host && str_eq cv vm || has_vm vm (vms_at host m))
available-insert ch cv host vm m = elim (Bool-cases (str_eq ch host)) [
  | inr e ↦ rw (vms_at-insert, e) refl
  | inl e ↦
      rw (vms_at-insert, e)
        (has_vm-insert cv vm (vms_at ch m)
          ∙ ap (λ h. str_eq cv vm || has_vm vm (vms_at h m)) ((str_eq_iff ch host).0 e))
]

same-available :
    (ch cv host vm : String) (m : Table String Vms)
    → (str_eq ch host && str_eq cv vm) ≡ true
    → has_vm cv (vms_at ch m) ≡ has_vm vm (vms_at host m)
same-available ch cv host vm m h =
    let e : ch ≡ host = (str_eq_iff ch host).0 (ground (arith, h)) in
    let f : cv ≡ vm = (str_eq_iff cv vm).0 (ground (arith, h)) in
    ap (λ (i : String). has_vm cv (vms_at i m)) e ∙ ap (λ (v : String). has_vm v (vms_at host m)) f

-- An available VM becomes the VM of a new workload.
pub settle-holders :
    (name host vm : String) (server client : Placed) (s : Machines)
    → IsDistinct (vms_at client.0 s.clients)
    → has_vm client.1 (vms_at client.0 s.clients) ≡ true
    → holders host vm (settle name server client s) ≡ holders host vm s
unfolding settle users
settle-holders name host vm server (ch, cv) s d a =
    let after = available-erase ch cv host vm s.clients d in
    let same = same-available ch cv host vm s.clients in
    rw (after, users-append)
      (elim (Bool-cases (str_eq ch host && str_eq cv vm)) [
        | inl u ↦ rw (u, sym (same u), a) (omega arith)
        | inr u ↦ rw u (omega arith)
      ])

pub settle-sets :
    (name : String) (server client : Placed) (s : Machines)
    → ((host : String) → IsDistinct (vms_at host s.clients))
    → (host : String) → IsDistinct (vms_at host (settle name server client s).clients)
unfolding settle
settle-sets name server client s d host = elim (Bool-cases (str_eq client.0 host)) [
  | inl e ↦ rw (vms_at-insert, e) (erase-IsDistinct client.1 _ (d client.0))
  | inr e ↦ rw (vms_at-insert, e) (d host)
]

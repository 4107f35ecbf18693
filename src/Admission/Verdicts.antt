-- ===== src/Admission/Verdicts.antt =====
-- The ways in which a request that adds clients may be answered.
use workload_compactor.Base.{
  ◌>>=◌, if◌then◌else◌, ◌≡◌, ◌≢◌, refl, Bool, true, false, ◌⊎◌, inl, inr, List, [], Option, none,
  some,
}
use workload_compactor.Network.Types.{Member}
use workload_compactor.Network.Registry.{elements}
use workload_compactor.Admission.Checks.{Status, success}

-- A verdict that is overridden, or asked for, and does not end as an acceptance does.
pub turned_down :
    {N A : Type 0} (override : Bool) (n : N) (verdict : Option (Bool × N)) (accept : N → A)
    (reject : N → Option A) (a : A)
    → ((n : N) → accept n ≢ a)
    → ((if override then some (true, n) else verdict) >>= λ q.
        if q.0 then some (accept q.1) else reject q.1)
      ≡ some a
    → (override ≡ false) × (m : N) × (verdict ≡ some (false, m))
turned_down true n verdict accept reject a not e =
    let same : accept n ≡ a = cc in absurd (not n same)
turned_down false n none accept reject a not e = cc
turned_down false n (some (true, m)) accept reject a not e =
    let same : accept m ≡ a = cc in absurd (not m same)
turned_down false n (some (false, m)) accept reject a not e = (refl, m, refl)

-- A request whose checks fail is answered at once.
pub checked_first :
    {A : Type 0} (status : Status) (next : Option A) (reply : Status → A) (a : A)
    → (elim status [ success ↦ next | failed ↦ some (reply failed) ]) ≡ some a
    → ((status ≡ success) × (next ≡ some a)) ⊎ ((failed : Status) × (reply failed ≡ a))
checked_first success next reply a e = inl (refl, e)
checked_first status next reply a e = inr (status, cc)

-- So is one that a quick test turns down.
pub gated :
    {A : Type 0} (test : Option Bool) (next : Option A) (stop a : A)
    → (test >>= λ b. if b then some stop else next) ≡ some a
    → (stop ≡ a) ⊎ (next ≡ some a)
gated none next stop a e = cc
gated (some true) next stop a e = inl cc
gated (some false) next stop a e = inr e

abbrev pub requested : {A : Type 0} → Option (Member A) → List A
requested none = []
requested (some infos) = elements infos

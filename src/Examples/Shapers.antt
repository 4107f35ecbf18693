-- ===== src/Examples/Shapers.antt =====
-- The enforcer of src/NetEnforcer/NetEnforcer.cpp with its default of seven priorities.
use workload_compactor.Base.{ℕ, ◌<◌, ◌≡◌, refl, none, ◌++◌, [], ◌∷◌, some, arith, units}
use workload_compactor.Base.Table.{lookup}
use workload_compactor.Shaping.Handles.{
  root_htb_handle, root_htb_minor, root_htb_minor_helper, root_htb_minor_default, dsmark_handle,
  htb_base_handle, htb_handle,
}
use workload_compactor.Shaping.Handles.Apart.{htb_handle-injective, handles-ordered}
use workload_compactor.Shaping.Clients.{
  addr_key, Enforcer, new_enforcer, update_client, get_occupancy,
}
use workload_compactor.Shaping.Clients.Ids.{id_of, get_occupancy-takes_filter}
use workload_compactor.Shaping.Clients.Filters.{filter_after, filter_of, update_client-filters}

abbrev three : ℕ
three = 3

htb_handle-injective_example : (three ≡ three) × (three ≡ three) × (three ≡ three)
htb_handle-injective_example =
    htb_handle-injective 7 three three three three three three (omega arith) (omega arith)
      (omega arith) (omega arith) (omega arith) (omega arith) refl

handles-ordered_example :
    (root_htb_minor 0 < root_htb_minor_helper 7 1)
    × (root_htb_minor_helper 7 1 < root_htb_minor_default 7)
    × (root_htb_minor_default 7 < dsmark_handle 7 2)
    × (dsmark_handle 7 2 < htb_base_handle 7 0)
    × (htb_base_handle 7 0 < htb_handle 7 4 3 2)
    × (root_htb_handle < dsmark_handle 7 2)
handles-ordered_example =
    handles-ordered 7 0 1 2 4 3 2 (omega arith) (omega arith) (omega arith) (omega arith)
      (omega arith) (omega arith)

abbrev none_sent : ℕ → ℕ → ℕ
none_sent handle minor = 0

abbrev nobody : Enforcer ℕ
nobody = record { clients = []; next_id = 0 }

update_client-filters_example :
    let r = update_client 7 1000 (λ n. n) 5 none_sent (1, 2) 3 ((100, 10) ∷ []) nobody in
    filter_after 1 0 r.0 none
    ≡ some (filter_of 7 1000 (λ (n : ℕ). n) (1, 2) (lookup (1, 2) r.1.clients) 1)
unfolding lookup
update_client-filters_example =
    update_client-filters 7 1000 (λ n. n) 5 none_sent (1, 2) 3 ((100, 10) ∷ []) nobody 1
      (omega arith) tt (λ c found. absurd (ground arith)) (omega arith) (λ q. absurd (omega arith))

get_occupancy-takes_filter_example :
    let x = update_client 7 1000 (λ n. n) 5 none_sent (1, 2) 3 [] new_enforcer in
    let s = (get_occupancy 7 1000 (λ n. n) 6 none_sent (8, 9) x.1).1 in
    let y = update_client 7 1000 (λ n. n) 7 none_sent (8, 9) 4 [] s in
    (id_of 7 1000 (λ (n : ℕ). n) (1, 2) y.1 ≡ some 0)
    × (id_of 7 1000 (λ (n : ℕ). n) (8, 9) y.1 ≡ some 0)
    × (filter_after root_htb_handle 0 x.0 none
        ≡ some (some (record { dst = 1; src = 2; minor = root_htb_minor 3 })))
    × (filter_after root_htb_handle 0 (x.0 ++ y.0) none
        ≡ some (some (record { dst = 8; src = 9; minor = root_htb_minor 4 })))
get_occupancy-takes_filter_example =
    get_occupancy-takes_filter 7 1000 (λ n. n) 5 6 7 none_sent (1, 2) (8, 9) 3 4 [] [] (omega arith)
      refl (omega arith) (omega arith) (omega arith)

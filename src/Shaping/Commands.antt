-- ===== src/Shaping/Commands.antt =====
-- The `tc` commands that the enforcer runs, by their arguments, and `initTC`.
use workload_compactor.Base.{ℕ, zero, suc, ◌+◌, ◌-◌, ◌*◌, ◌/◌, ◌^◌, ◌%◌, List, [], ◌∷◌, wrap32}
use workload_compactor.Shaping.Handles.{
  root_htb_minor, root_htb_minor_helper, root_htb_minor_default, dsmark_handle, htb_base_handle,
}

-- One for each call of `snprintf` that begins with "tc qdisc", "tc class" or "tc filter". A class is
-- its parent and its minor number.
pub data Command : Type 0 where
  remove_root : Command
  remove_qdisc : (parent_handle parent_minor child_handle : ℕ) → Command
  remove_class : (parent_handle minor : ℕ) → Command
  remove_filter : (parent_handle id : ℕ) → Command
  add_htb_qdisc : (parent_handle parent_minor child_handle : ℕ) → Command
  add_htb_class : (parent_handle minor rate ceil burst cburst : ℕ) → Command
  add_filter : (parent_handle id s_dst_addr s_src_addr minor : ℕ) → Command
  add_root : (default_minor : ℕ) → Command
  add_top_class : (minor rate : ℕ) → Command
  add_priority_class : (parent_minor minor rate ceil priority : ℕ) → Command
  add_dsmark_qdisc : (parent_minor handle : ℕ) → Command
  change_dsmark_class : (handle value : ℕ) → Command

-- a - b on `unsigned int`.
abbrev sub32 : ℕ → ℕ → ℕ
sub32 a b = wrap32 (a + 2 ^ 32 - wrap32 b)

-- The flag of a priority: `(7 - priority) << 5` as an `unsigned char`.
unfoldable pub dscp_value : ℕ → ℕ
dscp_value priority = sub32 7 priority * 32 % 2 ^ 8

module _ (num_priorities min_rate : ℕ) where
  -- The loop over the priorities from `priority` on, with `left` to come. The last class of a round is
  -- made with the lowered rates.
  unfoldable pub init_priorities : ℕ → ℕ → ℕ → ℕ → List Command
  unfolding dscp_value
  init_priorities zero priority rate ceil = []
  init_priorities (suc left) priority rate ceil =
      add_priority_class (root_htb_minor_helper num_priorities priority) (root_htb_minor priority)
        min_rate ceil priority
      ∷ add_dsmark_qdisc (root_htb_minor priority) (dsmark_handle num_priorities priority)
      ∷ change_dsmark_class (dsmark_handle num_priorities priority) (dscp_value priority)
      ∷ add_htb_qdisc (dsmark_handle num_priorities priority) 1
          (htb_base_handle num_priorities priority)
      ∷ add_priority_class (root_htb_minor_helper num_priorities priority)
          (root_htb_minor_helper num_priorities (priority + 1)) (sub32 rate min_rate)
          (sub32 ceil min_rate) (priority + 1)
      ∷ init_priorities left (priority + 1) (sub32 rate min_rate) (sub32 ceil min_rate)

unfoldable pub init_tc : ℕ → ℕ → List Command
unfolding init_priorities
init_tc num_priorities max_rate =
    let min_rate = max_rate / 100 in
    remove_root
    ∷ add_root (root_htb_minor_default num_priorities)
    ∷ add_top_class (root_htb_minor_helper num_priorities 0) max_rate
    ∷ init_priorities num_priorities min_rate num_priorities 0
        (wrap32 (min_rate * (num_priorities + 1))) max_rate

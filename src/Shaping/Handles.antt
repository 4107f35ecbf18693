-- ===== src/Shaping/Handles.antt =====
-- The numbers that name queueing disciplines and classes. `num_priorities` is g_numPriorities.
use workload_compactor.Base.{ℕ, ◌+◌, ◌*◌, if◌then◌else◌, ◌==◌, wrap32}
pub mod Apart

-- g_numLevels.
abbrev pub num_levels : ℕ
num_levels = 5

unfoldable pub root_htb_handle : ℕ
root_htb_handle = 1

unfoldable pub root_htb_minor : ℕ → ℕ
root_htb_minor priority = wrap32 (priority + 1)

unfoldable pub htb_minor : ℕ → ℕ → ℕ
htb_minor id level = if level == 0 then wrap32 (id + 2) else 1

module _ (num_priorities : ℕ) where
  unfoldable pub root_htb_minor_helper : ℕ → ℕ
  unfolding root_htb_minor
  root_htb_minor_helper priority = wrap32 (priority + root_htb_minor num_priorities)

  unfoldable pub root_htb_minor_default : ℕ
  unfolding root_htb_minor_helper
  root_htb_minor_default = root_htb_minor_helper num_priorities

  unfoldable pub dsmark_handle : ℕ → ℕ
  unfolding root_htb_minor_default
  dsmark_handle priority = wrap32 (priority + root_htb_minor_default + 1)

  unfoldable pub htb_base_handle : ℕ → ℕ
  unfolding dsmark_handle
  htb_base_handle priority = wrap32 (priority + dsmark_handle num_priorities)

  unfoldable pub htb_handle : ℕ → ℕ → ℕ → ℕ
  unfolding htb_base_handle
  htb_handle id priority level =
      let offset : ℕ = wrap32 (id * num_priorities * num_levels + priority * num_levels + level) in
      wrap32 (offset + htb_base_handle num_priorities)

-- ===== src/Placement/WorkQueue.antt =====
-- The queue of servers to try for one workload, shared by the worker threads: `nextWork`,
-- `workComplete` and the wait in `placeClient`. A worker holds the mutex but for the time in which its
-- AdmissionController tests the server, so a run is a sequence of the two steps below.
use workload_compactor.Base.{
  wrap32, ℕ, zero, suc, ◌+◌, ◌-◌, ◌*◌, ◌%◌, ◌^◌, ◌≤◌, ◌<◌, ◌≡◌, refl, Bool, true, false, ◌&&◌,
  if◌then◌else◌, List, [], ◌∷◌, ◌++◌, Option, none, some, leb, ltb, ◌==◌,
}
pub mod FirstFit
pub mod Progress

-- `running` are the indices that workers are testing; the code has their number only. `size` is the
-- length of the work queue.
pub record Work : Type 0 where
  pub size : ℕ
  pub next_index : ℕ
  pub outstanding : ℕ
  pub best_index : ℕ
  pub running : List ℕ

-- What `placeClient` sets up for a queue of that many servers.
unfoldable pub new_work : ℕ → Work
new_work n = record { size = n; next_index = 0; outstanding = 0; best_index = n; running = [] }

abbrev pub take_next : Work → Work
take_next w = record w {
  next_index = wrap32 (w.next_index + 1);
  outstanding = wrap32 (w.outstanding + 1);
  running = w.next_index ∷ w.running;
}

-- `nextWork`: `none` while the worker has to wait.
unfoldable pub next_work : Work → Option (ℕ × Work)
next_work w = if leb w.size w.next_index then none else some (w.next_index, take_next w)

-- `workComplete`, given the indices that are still running after it.
unfoldable pub work_complete : ℕ → Bool → List ℕ → Work → Work
work_complete i admitted left w = record w {
  outstanding = wrap32 (w.outstanding + 2 ^ 32 - 1);
  next_index = if admitted then w.size else w.next_index;
  best_index = if admitted && ltb i w.best_index then i else w.best_index;
  running = left;
}

-- The condition on which `placeClient` stops waiting.
unfoldable pub is_done : Work → Bool
is_done w = w.outstanding == 0 && leb w.size w.next_index

-- `admits i` is the answer of the admission test for server `i` in the state in which the placement
-- began: no test changes that state for the others, since each removes the workload again.
module _ (admits : ℕ → Bool) where
  pub data Step (w : Work) : Work → Type 0 where
    takes : (i : ℕ) (w' : Work) → next_work w ≡ some (i, w') → Step w w'
    completes :
        (before after : List ℕ) (i : ℕ)
        → w.running ≡ before ++ (i ∷ after)
        → Step w (work_complete i (admits i) (before ++ after) w)

  pub data Reach (w : Work) : Work → Type 0 where
    here : Reach w w
    next : {u v : Work} → Reach w u → Step u v → Reach w v

  -- The sequential placement: the index of the first server that admits the workload, of `n` from
  -- `i` on, or the end.
  unfoldable pub first_fit : ℕ → ℕ → ℕ
  first_fit zero i = i
  first_fit (suc n) i = let later = first_fit n (suc i) in if admits i then i else later

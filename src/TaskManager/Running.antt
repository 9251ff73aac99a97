-- ===== src/TaskManager/Running.antt =====
-- code/TaskManager.cpp: `isRunning` and `currentThread`.
use hobby_kernel.Common.{
  ℕ, zero, suc, ◌<◌, ◌≡◌, Bool, false, ◌||◌, List, [], ◌∷◌, arith, length, ◌==◌, ok,
}
use hobby_kernel.Common.Chain.{Chain}
use hobby_kernel.TaskManager.{TaskManager, id_of, running_loop, is_running, current_thread_id}
use hobby_kernel.TaskManager.Queue.{Runs}

-- One of the nodes stands for a thread with this id.
abbrev pub any_id : TaskManager → ℕ → List ℕ → Bool
any_id s id [] = false
any_id s id (x ∷ xs) = (id_of s x == id) || any_id s id xs

running_loop-any_id :
    (fuel id p : ℕ) (s : TaskManager) (xs : List ℕ)
    → Chain s.next p xs
    → length xs < fuel
    → running_loop fuel id p s ≡ ok (any_id s id xs)
unfolding running_loop
running_loop-any_id zero id p s xs c h = absurd (omega arith)
running_loop-any_id (suc f) id p s [] c h = ground arith
running_loop-any_id (suc f) id p s (x ∷ xs) c h =
    ground (arith, running_loop-any_id f id (s.next x) s xs c.2)

-- `isRunning(id)` returns, and says whether the running thread or one in the ready queue has the id.
pub is_running-any_id :
    (fuel id c : ℕ) (s : TaskManager) (qs : List ℕ)
    → Runs s c qs
    → length qs < fuel
    → is_running fuel id s ≡ ok (any_id s id (c ∷ qs))
unfolding is_running
is_running-any_id fuel id c s qs v h =
    ground (arith, v.current, v.not_null, running_loop-any_id fuel id s.ready_queue s qs v.chain h)

pub current_thread_id-ok :
    (c : ℕ) (s : TaskManager) (qs : List ℕ) → Runs s c qs → current_thread_id s ≡ ok (id_of s c)
unfolding current_thread_id
current_thread_id-ok c s qs v = ground (arith, v.current, v.not_null)

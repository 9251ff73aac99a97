-- ===== src/Tests/Threads.antt =====
-- Runs of the theorems on code/TaskManager.cpp.
use hobby_kernel.Common.{◌≡◌, refl, [], ◌∷◌, arith, ◌==◌, if◌then◌else◌, Returns, ok, fault}
use hobby_kernel.Samples.{running, ready, tasks, kernel, tasks-Runs, kernel_heap-IsReady}
use hobby_kernel.TaskManager.{TaskManager, create_thread, remove_thread}
use hobby_kernel.TaskManager.Queue.{Runs}
use hobby_kernel.TaskManager.Create.{Numbered, Creates, create_thread-Creates}
use hobby_kernel.TaskManager.Removal.{remove_thread-last}
use hobby_kernel.Timer.{handle_timer_event, ticks}
use hobby_kernel.Timer.Switch.{Switches, handle_timer_event-Switches}
use hobby_kernel.Timer.Rotation.{Schedules, Resumes, ticks-round}

handle_timer_event-Switches_example :
    Returns (Switches kernel running 0x200200 (0x200300 ∷ [])) (handle_timer_event 2 kernel)
handle_timer_event-Switches_example =
    handle_timer_event-Switches 2 kernel running 0x200200 (0x200300 ∷ []) tasks-Runs (omega arith)
      refl

scheduled : Schedules tasks (running ∷ ready)
scheduled = record { runs = tasks-Runs; alive = λ a h. refl; own = λ a b h h' e. omega (arith, e) }

ticks-round_example : Returns (Resumes tasks (running ∷ ready)) (ticks 3 3 kernel)
ticks-round_example = ticks-round 3 kernel (running ∷ ready) scheduled (omega arith)

numbered : Numbered tasks (running ∷ ready)
numbered = record {
  threads = λ a h. ground (arith, h);
  given = λ a h. ground (arith, h);
  unique = λ a b h h' e. ground (arith, h, h', e);
}

create_thread-Creates_example :
    Returns
      (Creates 11 12 13 0x400000 14 15 tasks running ready)
      (create_thread 3 11 12 13 (ok 0x400000) 14 15 tasks)
create_thread-Creates_example =
    create_thread-Creates 2 11 12 13 0x400000 14 15 running tasks ready tasks-Runs numbered
      (omega arith) kernel_heap-IsReady (omega arith) (omega arith)

-- Four nodes, of which three are ready.
abbrev longer : TaskManager
longer = record tasks {
  next = λ a. if a == 0x200200 then 0x200300 else if a == 0x200300 then 0x200380 else 0;
}

longer-Runs : Runs longer running (0x200200 ∷ 0x200300 ∷ 0x200380 ∷ [])
longer-Runs = record {
  current = refl;
  not_null = ground arith;
  chain = ground arith;
  distinct = ground arith;
  allocated = ground arith;
}

remove_thread-last_example : remove_thread 2 0x200310 tasks ≡ fault
remove_thread-last_example =
    remove_thread-last 2 0x200310 running 0x200200 tasks [] 0x200300 tasks-Runs refl refl
      (omega arith)

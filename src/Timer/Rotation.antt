-- ===== src/Timer/Rotation.antt =====
-- code/TaskManager.cpp: timer interrupts in a row, while no thread has ended.
use hobby_kernel.Common.{
  ℕ, ◌≤◌, ◌≡◌, ◌≢◌, refl, ap, subst, sym, ◌∙◌, true, false, List, [], ◌∷◌, ◌++◌, arith, length,
  length-append, ◌==◌, if◌then◌else◌, ok, Returns, Returns->>=, Returns-mono,
}
use hobby_kernel.Common.Chain.{null, has, has-append}
use hobby_kernel.TaskManager.{TaskManager, Registers}
use hobby_kernel.TaskManager.Queue.{Runs}
use hobby_kernel.Ipc.{Kernel}
use hobby_kernel.Timer.{handle_timer_event, ticks}
use hobby_kernel.Timer.Switch.{Switches, handle_timer_event-Switches}
use native.Mathlib.Decide.{ℕ_discrete}
use mathlib.Core.List.{append-nil, append_assoc}

-- The registers that the thread of a node goes on with.
abbrev pub context : TaskManager → ℕ → Registers
context s a = if a == s.current_thread then s.cpu else (s.threads (s.thread a)).registers

-- The first node runs, and the others are ready, in this order.
abbrev pub InOrder : TaskManager → List ℕ → Type 0
InOrder s [] = ⊥
InOrder s (x ∷ xs) = Runs s x xs

-- The first node runs, and the others are ready, in this order. None has ended, and no two of them
-- are for the same thread.
pub record Schedules (s : TaskManager) (xs : List ℕ) : Type 0 where
  pub runs : InOrder s xs
  pub alive : (a : ℕ) → has a xs ≡ true → s.remove a ≡ false
  pub own : (a b : ℕ) → has a xs ≡ true → has b xs ≡ true → s.thread a ≡ s.thread b → a ≡ b

-- The nodes `xs` are scheduled, and each goes on with the registers that it had in `s`.
pub record Resumes (s : TaskManager) (xs : List ℕ) (k : Kernel) : Type 0 where
  pub schedules : Schedules k.tasks xs
  pub contexts : (a : ℕ) → has a xs ≡ true → context k.tasks a ≡ context s a

-- Turning the list does not change which nodes it has.
has-turn : (a x : ℕ) (xs : List ℕ) → has a (xs ++ x ∷ []) ≡ true → has a (x ∷ xs) ≡ true
has-turn a x xs h = ground (arith, has-append a xs (x ∷ []))

context_of_switch :
    (k : Kernel) (c q : ℕ) (qs : List ℕ)
    → Runs k.tasks c (q ∷ qs)
    → ((a b : ℕ)
        → has a (c ∷ q ∷ qs) ≡ true
        → has b (c ∷ q ∷ qs) ≡ true
        → k.tasks.thread a ≡ k.tasks.thread b
        → a ≡ b)
    → (k' : Kernel) → Switches k c q qs k'
    → (a : ℕ) → has a (c ∷ q ∷ qs) ≡ true
    → context k'.tasks a ≡ context k.tasks a
context_of_switch k c q qs v own k' w a h =
    let ne : q ≢ c = ground (arith, v.distinct.0) in
    let same : k'.tasks.thread a ≡ k.tasks.thread a = ap (λ f. f a) w.same_thread in
    let other : a ≢ c → k.tasks.thread a ≢ k.tasks.thread c =
      λ n e. n (own a c h (ground arith) e) in
    let fresh : q ≢ c → k.tasks.thread q ≢ k.tasks.thread c =
      λ n e. n (own q c (ground arith) (ground arith) e) in
    let loaded = (w.loaded (fresh ne)).0 in
    elim (ℕ_discrete a q) [
      | yes e ↦ ground (
        arith,
        e,
        w.runs.current,
        v.current,
        ne,
        loaded,
        ap (λ n. (k.tasks.threads (k.tasks.thread n)).registers) e,
      )
      | no n ↦ elim (ℕ_discrete a c) [
        | yes e ↦ ground (
          arith,
          e,
          w.runs.current,
          v.current,
          ne,
          n,
          w.saved,
          ap (λ n. (k'.tasks.threads n).registers) (same ∙ ap k.tasks.thread e),
        )
        | no m ↦ ground (
          arith,
          w.runs.current,
          v.current,
          n,
          m,
          ap (λ t. (k'.tasks.threads t).registers) same,
          ap (λ t. t.registers) (w.others (k.tasks.thread a) (other m)),
        )
      ]
    ]

Resumes-Switches :
    (k : Kernel) (c q : ℕ) (qs : List ℕ)
    → Runs k.tasks c (q ∷ qs)
    → ((a : ℕ) → has a (c ∷ q ∷ qs) ≡ true → k.tasks.remove a ≡ false)
    → ((a b : ℕ)
        → has a (c ∷ q ∷ qs) ≡ true
        → has b (c ∷ q ∷ qs) ≡ true
        → k.tasks.thread a ≡ k.tasks.thread b
        → a ≡ b)
    → (k' : Kernel) → Switches k c q qs k'
    → Resumes k.tasks (q ∷ qs ++ c ∷ []) k'
Resumes-Switches k c q qs v alive own k' w =
    let back : (a : ℕ) → has a (q ∷ qs ++ c ∷ []) ≡ true → has a (c ∷ q ∷ qs) ≡ true =
      λ a h. has-turn a c (q ∷ qs) h in
    record {
      schedules = record {
        runs = w.runs;
        alive = λ a h. ap (λ f. f a) w.same_remove ∙ alive a (back a h);
        own = λ a b ha hb e.
            own a b (back a ha) (back b hb)
              (sym (ap (λ f. f a) w.same_thread) ∙ e ∙ ap (λ f. f b) w.same_thread);
      };
      contexts = λ a h. context_of_switch k c q qs v own k' w a (back a h);
    }

idle : (fuel : ℕ) (k : Kernel) → k.tasks.ready_queue ≡ null → handle_timer_event fuel k ≡ ok k
unfolding handle_timer_event
idle fuel k e = let b : (k.tasks.ready_queue == null) ≡ true = ground arith in rw b refl

tick_first :
    (fuel : ℕ) (k : Kernel) (c : ℕ) (qs : List ℕ)
    → Runs k.tasks c qs
    → ((a : ℕ) → has a (c ∷ qs) ≡ true → k.tasks.remove a ≡ false)
    → ((a b : ℕ)
        → has a (c ∷ qs) ≡ true
        → has b (c ∷ qs) ≡ true
        → k.tasks.thread a ≡ k.tasks.thread b
        → a ≡ b)
    → length qs ≤ fuel
    → Returns (Resumes k.tasks (qs ++ c ∷ [])) (handle_timer_event fuel k)
tick_first fuel k c [] v alive own h =
    rw (idle fuel k v.chain)
      (record { schedules = record { runs = v; alive = alive; own = own }; contexts = λ a h. refl })
tick_first fuel k c (q ∷ qs) v alive own h =
    Returns-mono (Switches k c q qs) (Resumes k.tasks (q ∷ qs ++ c ∷ []))
      (handle_timer_event fuel k)
      (handle_timer_event-Switches fuel k c q qs v (omega arith) (alive c (ground arith)))
      (Resumes-Switches k c q qs v alive own)

has-turned :
    (a x : ℕ) (xs post : List ℕ)
    → has a (post ++ x ∷ xs) ≡ true
    → has a ((xs ++ post) ++ x ∷ []) ≡ true
has-turned a x xs post m =
    ground
      (arith, has-append a post (x ∷ xs), has-append a (xs ++ post) (x ∷ []), has-append a xs post)

-- Timer interrupts turn the list of the running thread and the ready ones: after as many as `pre`
-- has threads, these have gone behind the others, each with the registers that it had when the
-- first of the interrupts came, and the interrupts return.
pub ticks-Resumes :
    (fuel : ℕ) (k : Kernel) (pre post : List ℕ)
    → Schedules k.tasks (pre ++ post)
    → length (pre ++ post) ≤ fuel
    → Returns (Resumes k.tasks (post ++ pre)) (ticks fuel (length pre) k)
unfolding ticks
ticks-Resumes fuel k [] post v h =
    subst (λ l. Resumes k.tasks l k) (sym (append-nil post))
      (record { schedules = v; contexts = λ a m. refl })
ticks-Resumes fuel k (x ∷ xs) post v h =
    Returns->>= (Resumes k.tasks ((xs ++ post) ++ x ∷ [])) (Resumes k.tasks (post ++ x ∷ xs))
      (handle_timer_event fuel k) (ticks fuel (length xs))
      (tick_first fuel k x (xs ++ post) v.runs v.alive v.own (omega (arith, h)))
      λ k' w.
        Returns-mono (Resumes k'.tasks ((post ++ x ∷ []) ++ xs)) (Resumes k.tasks (post ++ x ∷ xs))
          (ticks fuel (length xs) k')
          (ticks-Resumes fuel k' xs (post ++ x ∷ [])
            (subst (Schedules k'.tasks) (append_assoc xs post (x ∷ [])) w.schedules)
            (omega (
              arith,
              h,
              length-append xs post,
              length-append xs (post ++ x ∷ []),
              length-append post (x ∷ []),
            )))
          λ k'' u.
            let nodes : (post ++ x ∷ []) ++ xs ≡ post ++ x ∷ xs = append_assoc post (x ∷ []) xs in
            let turned = subst (λ l. Resumes k'.tasks l k'') nodes u in
            record {
              schedules = turned.schedules;
              contexts = λ a m. turned.contexts a m ∙ w.contexts a (has-turned a x xs post m);
            }

-- After a whole round of timer interrupts, one for each thread, the same thread runs again, with the
-- same registers, and the ready queue has the order that it had.
pub ticks-round :
    (fuel : ℕ) (k : Kernel) (xs : List ℕ)
    → Schedules k.tasks xs
    → length xs ≤ fuel
    → Returns (Resumes k.tasks xs) (ticks fuel (length xs) k)
ticks-round fuel k xs v h =
    ticks-Resumes fuel k xs [] (subst (Schedules k.tasks) (sym (append-nil xs)) v)
      (subst (λ l. length l ≤ fuel) (sym (append-nil xs)) h)

-- ===== src/Ipc/Refines.antt =====
-- code/IPC.cpp: the message queue does what the mailbox does.
use mathlib.Core.Path.{fun_ext}
use hobby_kernel.Common.{
  ℕ, suc, ◌+◌, ◌≤◌, ◌≡◌, ◌∙◌, refl, sym, subst, ap, inl, inr, Bool, true, false, ◌||◌, List, [],
  ◌∷◌, ◌++◌, ◌==◌, if◌then◌else◌, if_true, if_false, Bool-cases, arith, take, length, length-append,
  Option, none, some, Outcome, ok, fault, ◌>>=◌, Returns-elim,
}
use hobby_kernel.KernelHeap.{sizeof_memory_block}
use hobby_kernel.KernelHeap.Bump.{IsReady, room, kernel_free_frame, kernel_free-IsReady}
use hobby_kernel.TaskManager.{TaskManager, id_of}
use hobby_kernel.TaskManager.Running.{any_id}
use hobby_kernel.Ipc.{
  Kernel, Answers, contents, sizeof_dataq, send_message, receive_message, free_node,
}
use hobby_kernel.Ipc.Queue.{Queues, NoneFor}
use hobby_kernel.Ipc.Send.{Sends, send_message-Sends, send_message-unknown, node_at}
use hobby_kernel.Ipc.Receive.{Receives, receive_message-first, receive_message-others}
use hobby_kernel.Ipc.Mailbox.{
  Mailbox, Request, send, receive, replay, run, answer, given, take_first, view, view-append,
  view-same, Split, split, take_first-none, take_first-some,
}

-- The part of the kernel heap that the requests can take.
abbrev pub cost : List Request → ℕ
cost [] = 0
cost (send tid bytes size ∷ rs) =
    sizeof_dataq + sizeof_memory_block + size + sizeof_memory_block + cost rs
cost (receive ∷ rs) = cost rs

abbrev pub threads_known : Kernel → ℕ → List ℕ → ℕ → Bool
threads_known k c qs tid = any_id k.tasks tid (c ∷ qs)

any_id-same :
    (s s' : TaskManager) (tid : ℕ) (xs : List ℕ)
    → ((a : ℕ) → id_of s' a ≡ id_of s a)
    → any_id s' tid xs ≡ any_id s tid xs
any_id-same s s' tid [] h = refl
any_id-same s s' tid (x ∷ xs) h =
    ap (λ id. (id == tid) || any_id s' tid xs) (h x)
    ∙ ap (λ b. (id_of s x == tid) || b) (any_id-same s s' tid xs h)

-- The mailbox side after a step: the same threads, and an equal mailbox.
replay-same :
    (k k' : Kernel) (c : ℕ) (qs : List ℕ) (rs : List Request) (mb mb' : Mailbox)
    → ((a : ℕ) → id_of k'.tasks a ≡ id_of k.tasks a)
    → mb' ≡ mb
    → replay (id_of k'.tasks c) (threads_known k' c qs) rs mb'
      ≡ replay (id_of k.tasks c) (threads_known k c qs) rs mb
replay-same k k' c qs rs mb mb' h e =
    ap (λ id. replay id (threads_known k' c qs) rs mb') (h c)
    ∙ ap (λ known. replay (id_of k.tasks c) known rs mb')
        (fun_ext λ tid. any_id-same k.tasks k'.tasks tid (c ∷ qs) h)
    ∙ ap (replay (id_of k.tasks c) (threads_known k c qs) rs) e

Sends-view :
    (k k' : Kernel) (tid size : ℕ) (bytes : List ℕ) (c : ℕ) (qs ms : List ℕ)
    → Sends k tid size bytes c qs ms k'
    → view k' (ms ++ node_at k ∷ []) ≡ view k ms ++ (tid, take size bytes) ∷ []
Sends-view k k' tid size bytes c qs ms s =
    view-append k' ms (node_at k ∷ [])
    ∙ ap (λ mb. mb ++ view k' (node_at k ∷ []))
        (view-same k k' ms ms s.same_message s.same_contents λ a h. h)
    ∙ ap (λ id. view k ms ++ (id, contents k' (node_at k)) ∷ []) s.receiver
    ∙ ap (λ b. view k ms ++ (tid, b) ∷ []) s.carries

Receives-view :
    (k k' : Kernel) (c y : ℕ) (qs rest xs : List ℕ) (o : Option (List ℕ))
    → Receives k c y qs rest (o, k')
    → view k' xs ≡ view k xs
Receives-view k k' c y qs rest xs o r =
    view-same k k' xs xs (λ a h. ap (λ m. m a) r.same_message)
      (λ a h.
        ap (λ m. take (m a).size (k'.buffer (m a).data_address)) r.same_message
        ∙ ap (λ b. take (k.message a).size (b (k.message a).data_address)) r.same_buffer)
      λ a h. h

abbrev reply_with :
    Option (List ℕ) → Outcome (List (Option (List ℕ))) → Outcome (List (Option (List ℕ)))
reply_with a o = o >>= λ answers. ok (a ∷ answers)

abbrev reply {ℓ} :
    {S : Type ℓ}
    → (S → Outcome (List (Option (List ℕ))))
    → Option (List ℕ) × S
    → Outcome (List (Option (List ℕ)))
reply next x = reply_with x.0 (next x.1)

-- Without a message for the thread.
both :
    (b : Bool) (k : Kernel) (mb : Mailbox) (next : Kernel → Outcome (List (Option (List ℕ))))
    (next' : Mailbox → Outcome (List (Option (List ℕ))))
    → next k ≡ next' mb
    → ((if b then fault else ok (none, k)) >>= reply next)
      ≡ ((if b then fault else ok (none, mb)) >>= reply next')
both true k mb next next' e = refl
both false k mb next next' e = ap (reply_with none) e

answer-none :
    (k : Kernel) (id : ℕ) (ms : List ℕ)
    → NoneFor k id ms
    → answer id (view k ms) ≡ (if length ms == 0 then fault else ok (none, view k ms))
answer-none k id [] n = refl
answer-none k id (x ∷ ms) n =
    ap (given (view k (x ∷ ms))) (take_first-none k id (x ∷ ms) n)
    ∙ sym (if_false (suc (length ms) == 0) fault (ok (none, view k (x ∷ ms))) (ground arith))

answer-take_first :
    (id : ℕ) (mb mb' : Mailbox) (bytes : List ℕ)
    → take_first id mb ≡ some (bytes, mb')
    → answer id mb ≡ ok (some bytes, mb')
answer-take_first id [] mb' bytes e = ground (arith, e)
answer-take_first id (m ∷ mb) mb' bytes e = ap (given (m ∷ mb)) e

answer-some :
    (k : Kernel) (id : ℕ) (ms : List ℕ) (s : Split k id ms)
    → answer id (view k ms) ≡ ok (some (contents k s.node), view k (s.pre ++ s.post))
answer-some k id ms s =
    answer-take_first id (view k ms) (view k (s.pre ++ s.post)) (contents k s.node) (
      ap (λ xs. take_first id (view k xs)) s.parts
      ∙ take_first-some k id s.pre s.node s.post s.others s.mine)

Split-length :
    (k : Kernel) (id : ℕ) (ms : List ℕ) (s : Split k id ms)
    → length ms ≡ length (s.pre ++ s.post) + 1
Split-length k id ms s =
    ap length s.parts
    ∙ omega (arith, length-append s.pre (s.node ∷ s.post), length-append s.pre s.post)

room-free :
    (a n : ℕ) (k : Kernel) → n ≤ room k.tasks.kernel_heap → n ≤ room (free_node a k).kernel_heap
room-free a n k h = let f = kernel_free_frame a k.tasks.kernel_heap in omega (arith, h, f.0, f.1)

-- A thread that sends to any threads and receives gets the answers that the mailbox gives, in every
-- order of these calls, while the kernel heap has room and `operator new` returns; a receive from an empty queue, which the
-- code answers with a bad access, ends both.
pub run-replay :
    (f : ℕ) (new : ℕ → Outcome ℕ) (answers : Answers new) (rs : List Request) (k : Kernel) (c : ℕ)
    (qs ms : List ℕ)
    → Queues k c qs ms
    → IsReady k.tasks.kernel_heap
    → cost rs ≤ room k.tasks.kernel_heap
    → length qs ≤ f
    → length ms + length rs ≤ f
    → run (suc f) new rs k ≡ replay (id_of k.tasks c) (threads_known k c qs) rs (view k ms)
unfolding run replay
run-replay f new answers [] k c qs ms v ready fits hq hm = refl
run-replay f new answers (send tid bytes size ∷ rs) k c qs ms v ready fits hq hm =
    let id = id_of k.tasks c in
    let known = threads_known k c qs in
    let sent = view k ms ++ (tid, take size bytes) ∷ [] in
    elim (Bool-cases (known tid)) [
      | inl e ↦
          Returns-elim (Sends k tid size bytes c qs ms) (send_message (suc f) tid bytes size k)
            (send_message-Sends f tid size bytes k c qs ms v ready e (omega (arith, fits)) hq
              (omega (arith, hm)))
            (λ k' r s.
              ap (λ o. o >>= run (suc f) new rs) r
              ∙ run-replay f new answers rs k' c qs (ms ++ node_at k ∷ []) s.queues s.heap
                  (omega (arith, fits, s.top, s.same_end)) hq
                  (omega (arith, hm, length-append ms (node_at k ∷ [])))
              ∙ replay-same k k' c qs rs sent (view k' (ms ++ node_at k ∷ [])) s.same_id
                  (Sends-view k k' tid size bytes c qs ms s)
              ∙ ap (replay id known rs) (sym (if_true (known tid) sent (view k ms) e)))
      | inr e ↦
          ap (λ o. o >>= run (suc f) new rs)
            (send_message-unknown (suc f) tid size bytes k c qs ms v e (omega (arith, hq)))
          ∙ run-replay f new answers rs k c qs ms v ready (omega (arith, fits)) hq
              (omega (arith, hm))
          ∙ ap (replay id known rs) (sym (if_false (known tid) sent (view k ms) e))
    ]
run-replay f new answers (receive ∷ rs) k c qs ms v ready fits hq hm =
    let id = id_of k.tasks c in
    let mb = view k ms in
    elim (split k id ms) [
      | inl n ↦
          ap (λ o. o >>= reply (run (suc f) new rs))
            (receive_message-others (suc f) new k c qs ms v n (omega (arith, hm)))
          ∙ both (length ms == 0) k mb (run (suc f) new rs) (replay id (threads_known k c qs) rs)
              (run-replay f new answers rs k c qs ms v ready fits hq (omega (arith, hm)))
          ∙ ap (λ o. o >>= reply (replay id (threads_known k c qs) rs))
              (sym (answer-none k id ms n))
      | inr s ↦
          let rest = s.pre ++ s.post in
          Returns-elim (Receives k c s.node qs rest) (receive_message (suc f) new k)
            (receive_message-first (suc f) new answers k c qs s.pre s.node s.post
              (subst (Queues k c qs) s.parts v) s.others s.mine
              (omega (arith, hm, Split-length k id ms s, length-append s.pre s.post)))
            (λ (o, k') e r.
              ap (λ o. o >>= reply (run (suc f) new rs)) e
              ∙ ap (reply_with o) (
                  run-replay f new answers rs k' c qs rest r.queues
                    (subst (λ (t : TaskManager). IsReady t.kernel_heap) (sym r.same_tasks)
                      (kernel_free-IsReady s.node k.tasks.kernel_heap ready))
                    (subst (λ (t : TaskManager). cost rs ≤ room t.kernel_heap) (sym r.same_tasks)
                      (room-free s.node (cost rs) k fits))
                    hq (omega (arith, hm, Split-length k id ms s))
                  ∙ replay-same k k' c qs rs (view k rest) (view k' rest)
                      (λ a. ap (λ t. id_of t a) r.same_tasks)
                      (Receives-view k k' c s.node qs rest rest o r))
              ∙ ap (λ o. reply_with o (replay id (threads_known k c qs) rs (view k rest))) r.result
              ∙ ap (λ o. o >>= reply (replay id (threads_known k c qs) rs))
                  (sym (answer-some k id ms s)))
    ]

-- ===== src/Kmain/Boot/Exchange.antt =====
-- kmain.cpp: a message from `kmain` is drawn by `Program1`.
use hobby_kernel.Common.{
  ℕ, suc, ◌+◌, ◌*◌, ◌%◌, ◌≤◌, ◌≡◌, ◌≢◌, ◌∙◌, refl, sym, subst, ap, arith, false, List, [], ◌∷◌,
  Option, some, take, Outcome, ok, ◌>>=◌, Returns, Returns->>=,
}
use hobby_kernel.KernelHeap.{kernel_free, sizeof_memory_block}
use hobby_kernel.KernelHeap.Bump.{IsReady, room, kernel_free_frame, kernel_free-IsReady}
use hobby_kernel.TaskManager.{id_of}
use hobby_kernel.TaskManager.Queue.{Below}
use hobby_kernel.Ipc.{Kernel, Answers, sizeof_dataq, contents, send_message, receive_message}
use hobby_kernel.Ipc.Queue.{Queues, DataBelow}
use hobby_kernel.Ipc.Send.{Sends, send_message-Sends, node_at}
use hobby_kernel.Ipc.Receive.{Receives, receive_message-first}
use hobby_kernel.Timer.{handle_timer_event}
use hobby_kernel.Timer.Switch.{Switches, handle_timer_event-Switches}
use hobby_kernel.Console.{Screen}
use hobby_kernel.Kmain.{next_seed, drawing_message, draw}
use hobby_kernel.Kmain.Drawing.{Draws, draw-Draws}
use hobby_kernel.Kmain.Boot.{send_round, draw_round, draw_message}

three : (s : ℕ) → take 3 (drawing_message s) ≡ drawing_message s
unfolding drawing_message
three s = refl

-- A round of the loop of `kmain`, a timer interrupt, and a round of the loop of `Program1`.
pub exchange :
    (fuel : ℕ) → (new : ℕ → Outcome ℕ) → (seed : ℕ) → Kernel → Screen → Outcome (Kernel × Screen)
exchange fuel new seed k s = send_round fuel (seed, k) >>= λ (seed', k1).
    handle_timer_event fuel k1 >>= λ k2. draw_round fuel new (k2, s)

-- Thread 0 writes and thread 1 reads; one of them runs, the other is ready, and no message waits.
pub record Talks (writer reader running waiting : ℕ) (k : Kernel) : Type 0 where
  pub queues : Queues k running (waiting ∷ []) []
  pub ready : IsReady k.tasks.kernel_heap
  pub writes : id_of k.tasks writer ≡ 0
  pub reads : id_of k.tasks reader ≡ 1
  pub writer_alive : k.tasks.remove writer ≡ false
  pub reader_alive : k.tasks.remove reader ≡ false

-- The bytes of kernel memory that a message takes, with the headers of its two blocks.
abbrev pub message_cost : ℕ
message_cost = sizeof_dataq + 3 + 2 * sizeof_memory_block

-- The letter is drawn where the seed says; the reader runs, and no message is left.
pub record Exchanges (c q seed : ℕ) (k : Kernel) (s : Screen) (r : Kernel × Screen) : Type 0 where
  pub draws : Draws (next_seed seed % 80) (next_seed seed % 25) s r.1
  pub talks : Talks c q q c r.0
  pub left : room r.0.tasks.kernel_heap + message_cost ≡ room k.tasks.kernel_heap

module _ (c q seed : ℕ) (k : Kernel) (v : Talks c q c q k) where
  abbrev message : List ℕ
  message = drawing_message (next_seed seed)

  module _ (k1 : Kernel) (w : Sends k 1 3 message c (q ∷ []) [] k1) (k2 : Kernel)
      (t : Switches k1 c q [] k2) where
    apart : k1.tasks.thread q ≢ k1.tasks.thread c
    apart e =
        omega
          (arith, ap (λ a. (k1.tasks.threads a).id) e, w.same_id q, w.same_id c, v.writes, v.reads)

    id_after : id_of k2.tasks q ≡ 1
    id_after =
        ap (λ f. (k2.tasks.threads (f q)).id) t.same_thread
        ∙ ap (λ u. u.id) (t.others (k1.tasks.thread q) apart)
        ∙ w.same_id q
        ∙ v.reads

    waiting : Queues k2 q (c ∷ []) (node_at k ∷ [])
    waiting = record {
      runs = t.runs;
      chain = (
        t.same_messages.0 ∙ w.queues.chain.0,
        w.queues.chain.1,
        ap (λ f. f (node_at k)) t.same_messages.2 ∙ w.queues.chain.2,
      );
      distinct = w.queues.distinct;
      allocated =
          subst (λ h. Below h.current_address (node_at k ∷ [])) (sym t.same_heap)
            w.queues.allocated;
      data_allocated =
          subst (λ h. DataBelow h.current_address k2.message (node_at k ∷ [])) (sym t.same_heap)
            (subst (λ m. DataBelow k1.tasks.kernel_heap.current_address m (node_at k ∷ []))
              (sym t.same_messages.1) w.queues.data_allocated);
    }

    carried : contents k2 (node_at k) ≡ message
    carried =
        ap (λ m. take (m (node_at k)).size (k2.buffer (m (node_at k)).data_address))
          t.same_messages.1
        ∙ ap (λ b. take (k1.message (node_at k)).size (b (k1.message (node_at k)).data_address))
            t.same_buffer
        ∙ w.carries
        ∙ three (next_seed seed)

    module _ (r : Option (List ℕ) × Kernel) (x : Receives k2 q (node_at k) (c ∷ []) [] r) where
      heap : r.1.tasks.kernel_heap ≡ kernel_free (node_at k) k1.tasks.kernel_heap
      heap = ap (λ u. u.kernel_heap) x.same_tasks ∙ ap (kernel_free (node_at k)) t.same_heap

      id_of_node : (a : ℕ) → id_of r.1.tasks a ≡ id_of k.tasks a
      id_of_node a =
          ap (λ u. id_of u a) x.same_tasks
          ∙ ap (λ f. (k2.tasks.threads (f a)).id) t.same_thread
          ∙ t.same_ids (k1.tasks.thread a)
          ∙ w.same_id a

      same_remove : r.1.tasks.remove ≡ k.tasks.remove
      same_remove = ap (λ u. u.remove) x.same_tasks ∙ t.same_remove ∙ w.same_remove

      talks : Talks c q q c r.1
      talks = record {
        queues = x.queues;
        ready =
            subst IsReady (sym heap) (kernel_free-IsReady (node_at k) k1.tasks.kernel_heap w.heap);
        writes = id_of_node c ∙ v.writes;
        reads = id_of_node q ∙ v.reads;
        writer_alive = ap (λ f. f c) same_remove ∙ v.writer_alive;
        reader_alive = ap (λ f. f q) same_remove ∙ v.reader_alive;
      }

      left : room r.1.tasks.kernel_heap + message_cost ≡ room k.tasks.kernel_heap
      left =
          let f = kernel_free_frame (node_at k) k1.tasks.kernel_heap in
          ap (λ h. room h + message_cost) heap
          ∙ omega (arith, f.0, f.1, w.top, w.same_end, w.heap.high)

    received :
        (new : ℕ → Outcome ℕ) (answers : Answers new) (f : ℕ) (s : Screen)
        → Returns (Exchanges c q seed k s) (draw_round (suc f) new (k2, s))
    unfolding draw_round draw_message
    received new answers f s =
        let draws : Option (List ℕ) × Kernel → Outcome (Kernel × Screen) =
          λ r. draw_message r.0 s >>= λ s'. ok (r.1, s') in
        Returns->>= (Receives k2 q (node_at k) (c ∷ []) []) (Exchanges c q seed k s)
          (receive_message (suc f) new k2) draws
          (receive_message-first (suc f) new answers k2 q (c ∷ []) [] (node_at k) [] waiting tt
            (ap (λ m. (m (node_at k)).tid) t.same_messages.1 ∙ w.receiver ∙ sym id_after)
            (omega arith))
          λ r x.
            subst (λ o. Returns (Exchanges c q seed k s) (draw_message o s >>= λ s'. ok (r.1, s')))
              (sym (x.result ∙ ap some carried))
              (Returns->>= (Draws (next_seed seed % 80) (next_seed seed % 25) s)
                (Exchanges c q seed k s) (draw message s) (λ s'. ok (r.1, s'))
                (draw-Draws (next_seed seed) s)
                λ s' d. record { draws = d; talks = talks r x; left = left r x })

-- When `kmain`'s thread runs, only thread 1 is ready and no message waits, a round of `kmain`, a timer
-- interrupt and a round of `Program1` return, while the kernel heap has room and `operator new` returns; the letter is on the
-- screen where the next seed says, and no message is left.
pub exchange-Exchanges :
    (f : ℕ) (new : ℕ → Outcome ℕ) (answers : Answers new) (c q seed : ℕ) (k : Kernel) (s : Screen)
    → Talks c q c q k
    → message_cost ≤ room k.tasks.kernel_heap
    → Returns (Exchanges c q seed k s) (exchange (suc (suc f)) new seed k s)
unfolding exchange send_round
exchange-Exchanges f new answers c q seed k s v fits =
    let bytes = message c q seed k v in
    let draw_it : Kernel → Outcome (Kernel × Screen) = λ k2. draw_round (suc (suc f)) new (k2, s) in
    let run_on : ℕ × Kernel → Outcome (Kernel × Screen) =
      λ x. handle_timer_event (suc (suc f)) x.1 >>= draw_it in
    let Sent = Sends k 1 3 bytes c (q ∷ []) [] in
    let Is = Exchanges c q seed k s in
    let keep : Kernel → Outcome (ℕ × Kernel) = λ k'. ok (next_seed seed, k') in
    let sent = send_message (suc (suc f)) 1 bytes 3 k in
    Returns->>= (λ x. Sent x.1) Is (sent >>= keep) run_on
      (Returns->>= Sent (λ x. Sent x.1) sent keep
        (send_message-Sends (suc f) 1 3 bytes k c (q ∷ []) [] v.queues v.ready
          (ground (arith, v.reads)) (omega (arith, fits)) (omega arith) (omega arith))
        λ k' w. w)
      λ x w.
        Returns->>= (Switches x.1 c q []) Is (handle_timer_event (suc (suc f)) x.1) draw_it
          (handle_timer_event-Switches (suc (suc f)) x.1 c q [] w.queues.runs (omega arith)
            (ap (λ g. g c) w.same_remove ∙ v.writer_alive))
          λ k2 t. received c q seed k v x.1 w k2 t new answers (suc f) s

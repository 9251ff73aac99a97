-- ===== src/Ipc/Mailbox.antt =====
-- code/IPC.cpp: what messages between threads are meant to be, a list of receivers and bytes.
use hobby_kernel.Common.{
  ℕ, ◌≡◌, ◌∙◌, refl, ap, ◌⊎◌, inl, inr, Bool, true, List, [], ◌∷◌, ◌++◌, ◌==◌, if◌then◌else◌,
  ==_iff, Bool-cases, arith, take, Option, none, some, Outcome, ok, fault, ◌>>=◌,
}
use hobby_kernel.Common.Chain.{has}
use hobby_kernel.Ipc.{Kernel, contents, send_message, receive_message}
use hobby_kernel.Ipc.Queue.{NoneFor}

abbrev pub Mailbox : Type 0
Mailbox = List (ℕ × List ℕ)

-- A call: `send` with the receiver, the data and `cbData`.
pub data Request : Type 0 where
  send : (tid : ℕ) (bytes : List ℕ) (size : ℕ) → Request
  receive : Request

abbrev behind : ℕ × List ℕ → Option (List ℕ × Mailbox) → Option (List ℕ × Mailbox)
behind m none = none
behind m (some (bytes, mb)) = some (bytes, m ∷ mb)

-- The first message for a thread, and the others.
abbrev pub take_first : ℕ → Mailbox → Option (List ℕ × Mailbox)
take_first id [] = none
take_first id ((tid, bytes) ∷ mb) =
    let rest = behind (tid, bytes) (take_first id mb) in
    if tid == id then some (bytes, mb) else rest

abbrev pub given : Mailbox → Option (List ℕ × Mailbox) → Outcome (Option (List ℕ) × Mailbox)
given mb none = ok (none, mb)
given mb (some (bytes, mb')) = ok (some bytes, mb')

-- What a call of `receiveMessage` by the thread `id` answers.
abbrev pub answer : ℕ → Mailbox → Outcome (Option (List ℕ) × Mailbox)
answer id [] = fault
answer id (m ∷ mb) = given (m ∷ mb) (take_first id (m ∷ mb))

-- The answers to the requests of the thread `id`. `known` says which threads there are.
unfoldable pub replay :
    (id : ℕ) (known : ℕ → Bool) → List Request → Mailbox → Outcome (List (Option (List ℕ)))
replay id known [] mb = ok []
replay id known (send tid bytes size ∷ rs) mb =
    replay id known rs (if known tid then mb ++ (tid, take size bytes) ∷ [] else mb)
replay id known (receive ∷ rs) mb =
    answer id mb >>= λ (a, mb'). replay id known rs mb' >>= λ answers. ok (a ∷ answers)

-- The same requests to the code. `new` is as in `receive_message`.
unfoldable pub run :
    ℕ → (new : ℕ → Outcome ℕ) → List Request → Kernel → Outcome (List (Option (List ℕ)))
run fuel new [] k = ok []
run fuel new (send tid bytes size ∷ rs) k = send_message fuel tid bytes size k >>= run fuel new rs
run fuel new (receive ∷ rs) k =
    receive_message fuel new k >>= λ (a, k'). run fuel new rs k' >>= λ answers. ok (a ∷ answers)

-- The queue as a mailbox.
abbrev pub view : Kernel → List ℕ → Mailbox
view k [] = []
view k (x ∷ xs) = ((k.message x).tid, contents k x) ∷ view k xs

pub view-append : (k : Kernel) (xs ys : List ℕ) → view k (xs ++ ys) ≡ view k xs ++ view k ys
view-append k [] ys = refl
view-append k (x ∷ xs) ys = ap (λ mb. ((k.message x).tid, contents k x) ∷ mb) (view-append k xs ys)

pub view-same :
    (k k' : Kernel) (ms xs : List ℕ)
    → ((a : ℕ) → has a ms ≡ true → k'.message a ≡ k.message a)
    → ((a : ℕ) → has a ms ≡ true → contents k' a ≡ contents k a)
    → ((a : ℕ) → has a xs ≡ true → has a ms ≡ true)
    → view k' xs ≡ view k xs
view-same k k' ms [] same_m same_c sub = refl
view-same k k' ms (x ∷ xs) same_m same_c sub =
    let h = sub x (ground arith) in
    ap (λ m. (m.tid, contents k' x) ∷ view k' xs) (same_m x h)
    ∙ ap (λ bytes. ((k.message x).tid, bytes) ∷ view k' xs) (same_c x h)
    ∙ ap (λ mb. ((k.message x).tid, contents k x) ∷ mb)
        (view-same k k' ms xs same_m same_c λ a e. sub a (ground arith))

-- Where the first message for a thread stands.
pub record Split (k : Kernel) (id : ℕ) (ms : List ℕ) : Type 0 where
  pub pre : List ℕ
  pub node : ℕ
  pub post : List ℕ
  pub parts : ms ≡ pre ++ node ∷ post
  pub others : NoneFor k id pre
  pub mine : (k.message node).tid ≡ id

pub split : (k : Kernel) (id : ℕ) (ms : List ℕ) → NoneFor k id ms ⊎ Split k id ms
split k id [] = inl tt
split k id (x ∷ ms) = elim (Bool-cases ((k.message x).tid == id)) [
  | inl e ↦ inr (record {
    pre = [];
    node = x;
    post = ms;
    parts = refl;
    others = tt;
    mine = (==_iff (k.message x).tid id).0 e;
  })
  | inr e ↦ elim (split k id ms) [
    | inl n ↦ inl (e, n)
    | inr s ↦ inr (record {
      pre = x ∷ s.pre;
      node = s.node;
      post = s.post;
      parts = ap (λ xs. x ∷ xs) s.parts;
      others = (e, s.others);
      mine = s.mine;
    })
  ]
]

pub take_first-none :
    (k : Kernel) (id : ℕ) (ms : List ℕ) → NoneFor k id ms → take_first id (view k ms) ≡ none
take_first-none k id [] n = refl
take_first-none k id (x ∷ ms) n = rw (n.0, take_first-none k id ms n.1) refl

test : (k : Kernel) (id y : ℕ) → (k.message y).tid ≡ id → ((k.message y).tid == id) ≡ true
test k id y e = ground (arith, e)

pub take_first-some :
    (k : Kernel) (id : ℕ) (pre : List ℕ) (y : ℕ) (post : List ℕ)
    → NoneFor k id pre
    → (k.message y).tid ≡ id
    → take_first id (view k (pre ++ y ∷ post)) ≡ some (contents k y, view k (pre ++ post))
take_first-some k id [] y post n e = rw (test k id y e) refl
take_first-some k id (x ∷ pre) y post n e = rw (n.0, take_first-some k id pre y post n.1 e) refl

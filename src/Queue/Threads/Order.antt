-- ===== src/Queue/Threads/Order.antt =====
-- In what order, and how often, the threads of src/server.c see what the accept loop has pushed.
use mathlib.Core.Logic.{◌≢◌}
use barehttp.Base.{ℕ, ◌≡◌, sym, ap, ◌∙◌, Bool, List, [], ◌∷◌, ◌++◌, arith, append_assoc}
use barehttp.Queue.{
  Queue, wait, done, queue_push, queue_pop, queue_add_active_fd, queue_del_active_fd,
}
use barehttp.Queue.Inv.{IsValid, queue_push-IsValid, queue_pop-IsValid}
use barehttp.Queue.Refine.{contents, contents-active, queue_push_refines, queue_pop_refines}
use barehttp.Queue.Threads.{
  Main, accepting, pushing, leaving, Worker, System, wake_main, wake_worker, Step, interrupt,
  accept, accept_ends, push_waits, push_leaves, push_wakes, push_unheard, pop_waits, pop_leaves,
  pop_takes, serves, abandons, finishes, shuts_down, Spurious, main_wakes, worker_wakes, Reach,
  here, next, stray,
}

-- What holds in every state: the queue is valid, nothing was lost, doubled or reordered on its way
-- through it, and the accept loop sleeps only while the queue is full.
pub record Inv (cap : ℕ) (s : System) : Type 0 where
  pub valid : IsValid s.cq
  pub capacity : s.cq.max_size ≡ cap
  pub in_order : s.pushed ≡ s.taken ++ contents s.cq
  pub full : (fd : ℕ) → s.main ≡ Main.blocked fd → s.cq.size ≡ cap

push_contents :
    (q : Queue) (fd : ℕ) (sigint : Bool) {q' : Queue}
    → IsValid q
    → queue_push q fd sigint ≡ done q'
    → contents q' ≡ contents q ++ fd ∷ []
push_contents q fd sigint {q'} v e = ground (arith, queue_push_refines q fd sigint v)

pop_contents :
    (q : Queue) (sigint : Bool) {fd : ℕ} {q' : Queue}
    → IsValid q
    → queue_pop q sigint ≡ done (fd, q')
    → contents q ≡ fd ∷ contents q'
pop_contents q sigint {fd} {q'} v e = ground (arith, queue_pop_refines q sigint v)

push_wait_full :
    (q : Queue) (fd : ℕ) (sigint : Bool) → queue_push q fd sigint ≡ wait → q.size ≡ q.max_size
unfolding queue_push
push_wait_full q fd sigint e = ground arith

wake_main-ne : (m : Main) (fd : ℕ) → wake_main m ≢ Main.blocked fd
wake_main-ne (Main.blocked g) fd = cc
wake_main-ne accepting fd = cc
wake_main-ne (pushing g) fd = cc
wake_main-ne leaving fd = cc
wake_main-ne Main.joining fd = cc

-- The accept loop moves and the queue does not.
main_moves :
    {cap : ℕ} (s : System) (m : Main)
    → Inv cap s
    → ((fd : ℕ) → m ≡ Main.blocked fd → s.cq.size ≡ cap)
    → Inv cap (record s { main = m })
main_moves s m i h = record {
  valid = i.valid;
  capacity = i.capacity;
  in_order = i.in_order;
  full = h;
}

-- Threads of the pool move and the queue does not.
workers_move :
    {cap : ℕ} (s : System) (w : ℕ → Worker) → Inv cap s → Inv cap (record s { worker = w })
workers_move s w i = record {
  valid = i.valid;
  capacity = i.capacity;
  in_order = i.in_order;
  full = i.full;
}

-- The table of active descriptors changes, and a thread of the pool moves.
active_moves :
    {cap : ℕ} (s : System) (a : List ℕ) (w : ℕ → Worker)
    → Inv cap s
    → Inv cap (record s { cq = record s.cq { active_fds = a }; worker = w })
active_moves s a w i = record {
  valid = omega arith;
  capacity = i.capacity;
  in_order = i.in_order ∙ ap (λ l. s.taken ++ l) (sym (contents-active s.cq a));
  full = i.full;
}

push_moves :
    {cap : ℕ} (s : System) (fd : ℕ) (q : Queue) (w : ℕ → Worker)
    → Inv cap s
    → queue_push s.cq fd s.sigint ≡ done q
    → Inv cap (record s { cq = q; main = accepting; worker = w; pushed = s.pushed ++ fd ∷ [] })
push_moves s fd q w i e = record {
  valid = (queue_push-IsValid s.cq fd s.sigint i.valid e).0;
  capacity = (queue_push-IsValid s.cq fd s.sigint i.valid e).1 ∙ i.capacity;
  in_order =
      ap (λ l. l ++ fd ∷ []) i.in_order
      ∙ append_assoc s.taken (contents s.cq) (fd ∷ [])
      ∙ ap (λ l. s.taken ++ l) (sym (push_contents s.cq fd s.sigint i.valid e));
  full = λ g m. cc;
}

pop_moves :
    {cap : ℕ} (s : System) (fd : ℕ) (q : Queue) (w : ℕ → Worker)
    → Inv cap s
    → queue_pop s.cq s.sigint ≡ done (fd, q)
    → Inv cap (record s { cq = q; main = wake_main s.main; worker = w; taken = s.taken ++ fd ∷ [] })
pop_moves s fd q w i e = record {
  valid = (queue_pop-IsValid s.cq s.sigint i.valid e).0;
  capacity = (queue_pop-IsValid s.cq s.sigint i.valid e).1 ∙ i.capacity;
  in_order =
      i.in_order
      ∙ ap (λ l. s.taken ++ l) (pop_contents s.cq s.sigint i.valid e)
      ∙ sym (append_assoc s.taken (fd ∷ []) (contents q));
  full = λ g m. absurd (wake_main-ne s.main g m);
}

Step-Inv : {n cap : ℕ} {s t : System} → Step n s t → Inv cap s → Inv cap t
unfolding queue_add_active_fd queue_del_active_fd
Step-Inv interrupt i = record {
  valid = i.valid;
  capacity = i.capacity;
  in_order = i.in_order;
  full = i.full;
}
Step-Inv {s = s} (accept fd m) i = main_moves s (pushing fd) i (λ g e. cc)
Step-Inv {s = s} (accept_ends m) i = main_moves s leaving i (λ g e. cc)
Step-Inv {s = s} (push_waits fd m e) i =
    main_moves s (Main.blocked fd) i (λ g h. push_wait_full s.cq fd s.sigint e ∙ i.capacity)
Step-Inv {s = s} (push_leaves fd m e) i = main_moves s leaving i (λ g h. cc)
Step-Inv {s = s} (push_wakes fd q j m e lt b) i = push_moves s fd q _ i e
Step-Inv {s = s} (push_unheard fd q m e b) i = push_moves s fd q s.worker i e
Step-Inv {s = s} (pop_waits k lt w e) i = workers_move s _ i
Step-Inv {s = s} (pop_leaves k lt w e) i = workers_move s _ i
Step-Inv {s = s} (pop_takes k fd q lt w e) i = pop_moves s fd q _ i e
Step-Inv {s = s} (serves k fd lt w e) i = active_moves s _ _ i
Step-Inv {s = s} (abandons k fd lt w e) i = workers_move s _ i
Step-Inv {s = s} (finishes k fd lt w) i = active_moves s _ _ i
Step-Inv {s = s} (shuts_down m) i =
    main_moves (record s { worker = λ j. wake_worker (s.worker j) }) Main.joining
      (workers_move s _ i) (λ g h. cc)

Spurious-Inv : {n cap : ℕ} {s t : System} → Spurious n s t → Inv cap s → Inv cap t
Spurious-Inv {s = s} main_wakes i = main_moves s _ i (λ g m. absurd (wake_main-ne s.main g m))
Spurious-Inv {s = s} (worker_wakes k lt) i = workers_move s _ i

-- In every state that the accept loop and any number of threads reach from one that meets the
-- invariant, the queue is valid and keeps its capacity, the descriptors taken out of it followed by
-- those that wait in it are exactly those pushed, in the order in which they were pushed, and the
-- accept loop sleeps only while the queue is full. Threads may wake for no reason.
pub Reach-Inv : {n cap : ℕ} {s t : System} → Inv cap s → Reach n s t → Inv cap t
Reach-Inv i here = i
Reach-Inv i (next r st) = Step-Inv st (Reach-Inv i r)
Reach-Inv i (stray r sp) = Spurious-Inv sp (Reach-Inv i r)

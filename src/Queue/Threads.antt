-- ===== src/Queue/Threads.antt =====
-- The threads of the pool and the accept loop of src/server.c around the queue, any number of
-- workers interleaved in any order. A step is what one thread does with the mutex held, up to
-- giving it up or falling asleep in `pthread_cond_wait`, or one event outside the mutex.
pub mod Order
pub mod Shutdown
pub mod Wakeups
use barehttp.Base.{ℕ, ◌<◌, ◌≡◌, ◌≢◌, Bool, true, false, List, [], ◌∷◌, ◌++◌, ◌==◌, if◌then◌else◌}
use barehttp.Queue.{
  Queue, wait, leave, done, queue_push, queue_pop, queue_add_active_fd, queue_del_active_fd,
}

-- Where the accept loop of `main` stands. `blocked` is the wait on `not_full`.
pub data Main : Type 0 where
  accepting : Main
  pushing : (fd : ℕ) → Main
  blocked : (fd : ℕ) → Main
  leaving : Main
  joining : Main

-- Where a thread of the pool stands. `blocked` is the wait on `not_empty`.
pub data Worker : Type 0 where
  popping : Worker
  blocked : Worker
  popped : (fd : ℕ) → Worker
  serving : (fd : ℕ) → Worker
  stopped : Worker

-- `pushed` and `taken` record what went into the queue and came out of it, oldest first.
pub record System : Type 0 where
  pub cq : Queue
  pub sigint : Bool
  pub main : Main
  pub worker : ℕ → Worker
  pub pushed : List ℕ
  pub taken : List ℕ

abbrev pub update : (ℕ → Worker) → ℕ → Worker → ℕ → Worker
update f i w j = if i == j then w else f j

-- `pthread_cond_signal` on `not_full`, on which the accept loop alone waits.
abbrev pub wake_main : Main → Main
wake_main (Main.blocked fd) = pushing fd
wake_main m = m

-- `pthread_cond_broadcast` on `not_empty`, at one thread of the pool.
abbrev pub wake_worker : Worker → Worker
wake_worker Worker.blocked = popping
wake_worker w = w

-- `n` is the size of the pool.
pub data Step (n : ℕ) (s : System) : System → Type 0 where
  interrupt : Step n s (record s { sigint = true })
  accept : (fd : ℕ) → s.main ≡ accepting → Step n s (record s { main = pushing fd })
  accept_ends : s.main ≡ accepting → Step n s (record s { main = leaving })
  push_waits :
      (fd : ℕ)
      → s.main ≡ pushing fd
      → queue_push s.cq fd s.sigint ≡ wait
      → Step n s (record s { main = Main.blocked fd })
  push_leaves :
      (fd : ℕ)
      → s.main ≡ pushing fd
      → queue_push s.cq fd s.sigint ≡ leave
      → Step n s (record s { main = leaving })
  push_wakes :
      (fd : ℕ) (q : Queue) (j : ℕ)
      → s.main ≡ pushing fd
      → queue_push s.cq fd s.sigint ≡ done q
      → j < n
      → s.worker j ≡ Worker.blocked
      → Step n s (record s {
        cq = q;
        main = accepting;
        worker = update s.worker j popping;
        pushed = s.pushed ++ fd ∷ [];
      })
  push_unheard :
      (fd : ℕ) (q : Queue)
      → s.main ≡ pushing fd
      → queue_push s.cq fd s.sigint ≡ done q
      → ((j : ℕ) → j < n → s.worker j ≢ Worker.blocked)
      → Step n s (record s { cq = q; main = accepting; pushed = s.pushed ++ fd ∷ [] })
  pop_waits :
      (i : ℕ)
      → i < n
      → s.worker i ≡ popping
      → queue_pop s.cq s.sigint ≡ wait
      → Step n s (record s { worker = update s.worker i Worker.blocked })
  pop_leaves :
      (i : ℕ)
      → i < n
      → s.worker i ≡ popping
      → queue_pop s.cq s.sigint ≡ leave
      → Step n s (record s { worker = update s.worker i stopped })
  pop_takes :
      (i fd : ℕ) (q : Queue)
      → i < n
      → s.worker i ≡ popping
      → queue_pop s.cq s.sigint ≡ done (fd, q)
      → Step n s (record s {
        cq = q;
        main = wake_main s.main;
        worker = update s.worker i (popped fd);
        taken = s.taken ++ fd ∷ [];
      })
  serves :
      (i fd : ℕ)
      → i < n
      → s.worker i ≡ popped fd
      → s.sigint ≡ false
      → Step n s
          (record s { cq = queue_add_active_fd s.cq fd i; worker = update s.worker i (serving fd) })
  abandons :
      (i fd : ℕ)
      → i < n
      → s.worker i ≡ popped fd
      → s.sigint ≡ true
      → Step n s (record s { worker = update s.worker i stopped })
  finishes :
      (i fd : ℕ)
      → i < n
      → s.worker i ≡ serving fd
      → Step n s (record s {
        cq = queue_del_active_fd s.cq i;
        worker = update s.worker i (if s.sigint then stopped else popping);
      })
  shuts_down :
      s.main ≡ leaving
      → Step n s (record s { main = joining; worker = λ j. wake_worker (s.worker j) })

-- POSIX lets `pthread_cond_wait` return with no signal.
pub data Spurious (n : ℕ) (s : System) : System → Type 0 where
  main_wakes : Spurious n s (record s { main = wake_main s.main })
  worker_wakes :
      (i : ℕ)
      → i < n
      → Spurious n s (record s { worker = update s.worker i (wake_worker (s.worker i)) })

pub data Reach (n : ℕ) (s : System) : System → Type 0 where
  here : Reach n s s
  next : {t u : System} → Reach n s t → Step n t u → Reach n s u
  stray : {t u : System} → Reach n s t → Spurious n t u → Reach n s u

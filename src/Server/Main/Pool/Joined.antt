-- ===== src/Server/Main/Pool/Joined.antt =====
-- src/server.c: the threads and the connections when `main` without USE_EPOLL returns.
use barehttp.Base.{
  ℕ, ◌≡◌, refl, sym, ap, ◌∙◌, arith, Bool, true, false, inl, inr, Bool-cases, ℤ, ◌∷◌, List, ◌++◌,
  ltb, is_neg, if◌then◌else◌, Option, none, some, pos, negsuc,
}
use barehttp.Os.{
  Os, M, Trace, acquired, queue_memory, threads_memory, args_memory, pushed, accepted, ok,
  saw_sigint,
}
use barehttp.Http.{ServerConf}
use barehttp.CString.{codes}
use barehttp.CString.Format.{print_int}
use barehttp.Logs.{LogType, log_info, logs_print}
use barehttp.Logs.File.{logs_destroy}
use barehttp.Tcp.{tcp_start_connection}
use barehttp.Server.Epoll.Loop.{free_server_conf}
use barehttp.Server.Main.Pool.{
  rounds, detach_threads, join_threads, accept_loop, spawn_threads, threads_made, with_threads,
  socket_made, pool_server, shut_down, socket_shut, quit_threads, quit_spawn, quit_shutdown,
  quit_done, quit_socket, quit_queue, accept_done,
}
use barehttp.Server.Main.Pool.Events.{
  pool_events, pool_events-logs_print, pool_events-tcp_shutdown, pool_events-tcp_start_connection,
  accept_loop_keeps,
}
use barehttp.Server.Main.Pool.Threads.{
  is_running, due, pushed_fds, fds, Made, is_running-pool_events, fds-pool_events,
  is_running-detach_threads, fds-detach_threads, is_running-join_threads, fds-join_threads,
  spawn_threads-Made, fds-spawn_threads,
}

-- The thread `id` runs or does not, and the connections put in the queue are those that are due.
abbrev Stands : ℕ → Bool → Trace → Type 0
Stands id b t = (is_running id t ≡ b) × (due t ≡ (pushed_fds t, none))

abbrev pub PoolStands : ℕ → ℕ → Option ℤ × Trace → Type 0
PoolStands id n (none, t) = Stands id (ltb id n) t
PoolStands id n (some _, t) = Stands id false t

PoolStands-if :
    (id n : ℕ) (b : Bool) (m k : M (Option ℤ)) (t : Trace)
    → PoolStands id n (m t)
    → PoolStands id n (k t)
    → PoolStands id n ((if b then m else k) t)
PoolStands-if id n true m k t i j = i
PoolStands-if id n false m k t i j = j

Stands-pool_events :
    (id : ℕ) (b : Bool) (t u : Trace)
    → pool_events u ≡ pool_events t
    → Stands id b t
    → Stands id b u
Stands-pool_events id b t u e s = (
  sym (is_running-pool_events id u) ∙ ap (is_running id) e ∙ is_running-pool_events id t ∙ s.0,
  grind (arith, fds-pool_events u, fds-pool_events t),
)

from_pool_events : (id : ℕ) (b : Bool) (t : Trace) → Stands id b (pool_events t) → Stands id b t
from_pool_events id b t s = grind (arith, is_running-pool_events id t, fds-pool_events t)

to_pool_events : (id : ℕ) (b : Bool) (t : Trace) → Stands id b t → Stands id b (pool_events t)
to_pool_events id b t s = grind (arith, is_running-pool_events id t, fds-pool_events t)

seen-Stands :
    (id : ℕ) (b sigint : Bool) (l : Trace) → Stands id b l → Stands id b (saw_sigint sigint ∷ l)
unfolding is_running due pushed_fds
seen-Stands id b true l (r, q) = (r, rw q refl)
seen-Stands id b false l (r, q) = (r, rw q refl)

queued-Stands :
    (id : ℕ) (b : Bool) (sockfd fd : ℕ) (l : Trace)
    → Stands id b l
    → Stands id b (pushed fd ∷ saw_sigint false ∷ accepted sockfd (ok fd) ∷ l)
unfolding is_running due pushed_fds
queued-Stands id b sockfd fd l (r, q) = (r, rw q refl)

dropped-Stands :
    (id : ℕ) (b : Bool) (sockfd fd : ℕ) (l : Trace)
    → Stands id b l
    → Stands id b (saw_sigint true ∷ accepted sockfd (ok fd) ∷ l)
unfolding is_running due pushed_fds
dropped-Stands id b sockfd fd l (r, q) = (r, rw q refl)

detach_threads-Stands :
    (id n : ℕ) (b : Bool) (t : Trace)
    → Stands id b t
    → Stands id (if ltb id n then false else b) (detach_threads n 0 t).1
detach_threads-Stands id n b t s =
    grind (arith, is_running-detach_threads id n 0 t, fds-detach_threads n 0 t)

quit_spawn-Stands :
    (id n : ℕ) (t : Trace) → Stands id (ltb id n) t → Stands id false (quit_spawn n t).1
unfolding quit_spawn free_server_conf logs_destroy is_running due pushed_fds
quit_spawn-Stands id n t s = ground (arith, detach_threads-Stands id n (ltb id n) t s)

quit_shutdown-Stands :
    (id n : ℕ) (t : Trace) → Stands id false t → Stands id false (quit_shutdown n t).1
unfolding quit_shutdown free_server_conf logs_destroy is_running due pushed_fds
quit_shutdown-Stands id n t s = ground (arith, detach_threads-Stands id n false t s)

quit_done-Stands : (id : ℕ) (t : Trace) → Stands id false t → Stands id false (quit_done t).1
unfolding quit_done free_server_conf logs_destroy is_running due pushed_fds
quit_done-Stands id t s = s

quit_threads-Stands : (id : ℕ) (t : Trace) → Stands id false t → Stands id false (quit_threads t).1
unfolding quit_threads free_server_conf logs_destroy is_running due pushed_fds
quit_threads-Stands id t s = s

module _ (os : Os) (sc : ServerConf) (id : ℕ) where
  logs_print-Stands :
      (type : LogType) (message : List ℕ) (b : Bool) (t : Trace)
      → Stands id b t
      → Stands id b (logs_print os type message t).1
  logs_print-Stands type message b t =
      Stands-pool_events id b t _ (pool_events-logs_print os type message t)

  join_threads-Stands :
      (n : ℕ) (t : Trace) → Stands id (ltb id n) t → Stands id false (join_threads os sc n 0 t).1
  join_threads-Stands n t s =
      grind (arith, is_running-join_threads os sc id n 0 t, fds-join_threads os sc n 0 t)

  module _ (sockfd : ℕ) where
    socket_shut-Stands :
        (ret : ℤ) (t : Trace)
        → Stands id false t
        → Stands id false (socket_shut os sc sockfd ret t).1
    unfolding socket_shut
    socket_shut-Stands ret t s = elim (Bool-cases (is_neg ret)) [
      | inl e ↦ rw e (quit_shutdown-Stands id (rounds sc.pool_size) t s)
      | inr e ↦ rw e (quit_done-Stands id t s)
    ]

    shut_down-Stands :
        (t : Trace)
        → Stands id (ltb id (rounds sc.pool_size)) t
        → Stands id false (shut_down os sc sockfd t).1
    unfolding shut_down is_running due pushed_fds
    shut_down-Stands t s = socket_shut-Stands _ _ (
        Stands-pool_events id false _ _ (pool_events-tcp_shutdown os sockfd _) (
          join_threads-Stands (rounds sc.pool_size) _
            (logs_print-Stands _ _ (ltb id (rounds sc.pool_size)) t s)))

    accept_loop-Stands :
        (fuel : ℕ) (b : Bool) (t : Trace)
        → Stands id b t
        → Stands id b (accept_loop os sc sockfd fuel t).1
    accept_loop-Stands fuel b t s = from_pool_events id b _ (
        accept_loop_keeps os sc sockfd (Stands id b) (seen-Stands id b) (queued-Stands id b sockfd)
          (dropped-Stands id b sockfd) fuel t (to_pool_events id b t s))

    accept_done-Stands :
        (ended : Bool) (t : Trace)
        → Stands id (ltb id (rounds sc.pool_size)) t
        → PoolStands id (rounds sc.pool_size) (accept_done os sc sockfd ended t)
    unfolding accept_done
    accept_done-Stands true t s = shut_down-Stands t s
    accept_done-Stands false t s = s

    threads_made-Stands :
        (fuel : ℕ) (made : Option ℕ) (t u : Trace)
        → Stands id false t
        → fds u ≡ fds t
        → Made id 0 (rounds sc.pool_size) t (made, u)
        → PoolStands id (rounds sc.pool_size) (threads_made os sc sockfd fuel made u)
    unfolding threads_made
    threads_made-Stands fuel (some i) t u s e m =
        quit_spawn-Stands id i _ (logs_print-Stands _ _ (ltb id i) u (ground arith))
    threads_made-Stands fuel none t u s e m =
        accept_done-Stands _ _ (accept_loop-Stands fuel _ u (ground arith))

    with_threads-Stands :
        (fuel : ℕ) (t : Trace)
        → Stands id false t
        → PoolStands id (rounds sc.pool_size) (with_threads os sc sockfd fuel t)
    unfolding with_threads is_running due pushed_fds
    with_threads-Stands fuel t s =
        let v =
          (logs_print os log_info (codes "Server initialized in port " ++ print_int sc.listen_port)
            t).1 in
        let logged : Stands id false v = logs_print-Stands _ _ false t s in
        let w = acquired threads_memory (os.alloc v threads_memory) ∷ v in
        let x = acquired args_memory (os.alloc w args_memory) ∷ w in
        let made = spawn_threads os sc sockfd (rounds sc.pool_size) 0 x in
        PoolStands-if id (rounds sc.pool_size) (os.alloc v threads_memory) _ _ w
          (PoolStands-if id (rounds sc.pool_size) (os.alloc w args_memory) _ _ x
            (threads_made-Stands fuel made.0 x made.1 logged
              (fds-spawn_threads os sc sockfd (rounds sc.pool_size) 0 x)
              (spawn_threads-Made os sc sockfd id (rounds sc.pool_size) 0 x))
            (quit_threads-Stands id x logged))
          (quit_threads-Stands id w logged)

  socket_made-Stands :
      (fuel : ℕ) (s : ℤ × ℤ) (t : Trace)
      → Stands id false t
      → PoolStands id (rounds sc.pool_size) (socket_made os sc fuel s t)
  unfolding socket_made quit_socket
  socket_made-Stands fuel (pos _, pos sockfd) t s = with_threads-Stands sockfd fuel t s
  socket_made-Stands fuel (pos _, negsuc _) t s =
      quit_threads-Stands id _ (logs_print-Stands _ _ false t s)
  socket_made-Stands fuel (negsuc _, _) t s =
      quit_threads-Stands id _ (logs_print-Stands _ _ false t s)

  -- No thread runs before `main` without USE_EPOLL makes its pool, and the connections put in the queue
  -- are those due, as said below. Then where `main` returns, whichever call, allocation or thread failed, every
  -- thread that was made has been joined or detached; while it accepts connections exactly the
  -- threads numbered below the size of the pool run. In both cases the connections put in the queue
  -- are, in their order, those accepted for which the read of `sigint` that comes next, the one in
  -- `queue_push`, found it not set.
  pub pool_server-Stands :
      (fuel : ℕ) (t : Trace)
      → Stands id false t
      → PoolStands id (rounds sc.pool_size) (pool_server os sc fuel t)
  unfolding pool_server quit_queue free_server_conf logs_destroy is_running due pushed_fds
  pool_server-Stands fuel t s =
      let u = acquired queue_memory (os.alloc t queue_memory) ∷ t in
      let r = tcp_start_connection os sc.listen_port sc.backlog u in
      PoolStands-if id (rounds sc.pool_size) (os.alloc t queue_memory) _ _ u
        (socket_made-Stands fuel r.0 r.1 (
          Stands-pool_events id false u r.1
            (pool_events-tcp_start_connection os sc.listen_port sc.backlog u) s))
        (logs_print-Stands _ _ false u s)

-- ===== src/Server/Main/Pool/Exits.antt =====
-- src/server.c: the returns of `main` without USE_EPOLL, and what is allocated and freed on the way to each.
use barehttp.Base.{
  ◌++◌, ℕ, ◌≡◌, refl, Bool, true, false, ◌∷◌, Option, none, some, ℤ, pos, negsuc, minus_one, is_neg,
  Bool-cases, inl, inr, ◌∙◌, ap,
}
use barehttp.Os.{
  Os, Trace, acquired, released, Resource, conf_memory, log_memory, log_stream, queue_memory,
  threads_memory, args_memory,
}
use barehttp.Os.Held.{resources}
use barehttp.Http.{ServerConf}
use barehttp.Logs.{log_info, logs_print}
use barehttp.Logs.File.{logs_destroy}
use barehttp.CString.{codes}
use barehttp.CString.Format.{print_int}
use barehttp.Server.Epoll.Loop.{free_server_conf}
use barehttp.Server.Main.Pool.{
  rounds, socket_shut, quit_threads, quit_spawn, quit_shutdown, quit_done, shut_down, accept_done,
  threads_made, with_threads, quit_socket, socket_made, quit_queue, pool_server,
}
use barehttp.Server.Main.Pool.Memory.{
  resources-detach_threads, resources-logs_print, resources-tcp_shutdown, resources-join_threads,
  resources-tcp_start_connection, resources-spawn_threads, resources-accept_loop,
}

-- Behind the allocations `l`, what frees the log, and these two in this order.
abbrev pub freed : Resource → Resource → Trace → Trace
freed r s l = released log_memory ∷ released log_stream ∷ released r ∷ released s ∷ l

abbrev freed_all : Resource → Resource → Trace → Trace
freed_all r s l = released threads_memory ∷ released args_memory ∷ freed r s l

abbrev pub all_made : Trace → Trace
all_made l =
    acquired args_memory true ∷ acquired threads_memory true ∷ acquired queue_memory true ∷ l

-- The allocations and frees of a run that returns a number, behind those of `l`.
pub data Exit (l : Trace) : ℤ → Trace → Type 0 where
  no_queue : Exit l minus_one (
      released log_memory
      ∷ released log_stream
      ∷ released conf_memory
      ∷ acquired queue_memory false
      ∷ l)
  no_socket : Exit l minus_one (freed conf_memory queue_memory (acquired queue_memory true ∷ l))
  no_threads : Exit l minus_one (
      freed conf_memory queue_memory
        (acquired threads_memory false ∷ acquired queue_memory true ∷ l))
  no_args : Exit l minus_one (
      freed conf_memory queue_memory (
        acquired args_memory false ∷ acquired threads_memory true ∷ acquired queue_memory true ∷ l))
  no_spawn : Exit l minus_one (freed_all conf_memory queue_memory (all_made l))
  no_shutdown : Exit l minus_one (freed_all queue_memory conf_memory (all_made l))
  complete : Exit l (pos 0) (freed_all conf_memory queue_memory (all_made l))

quit_threads_lem :
    (t : Trace) → resources (quit_threads t).1 ≡ freed conf_memory queue_memory (resources t)
unfolding quit_threads free_server_conf logs_destroy resources
quit_threads_lem t = refl

quit_shutdown_lem :
    (i : ℕ) (t : Trace)
    → resources (quit_shutdown i t).1 ≡ freed_all queue_memory conf_memory (resources t)
unfolding quit_shutdown free_server_conf logs_destroy resources
quit_shutdown_lem i t = rw (resources-detach_threads i 0 t) refl

quit_spawn_lem :
    (i : ℕ) (t : Trace)
    → resources (quit_spawn i t).1 ≡ freed_all conf_memory queue_memory (resources t)
unfolding quit_spawn free_server_conf logs_destroy resources
quit_spawn_lem i t = rw (resources-detach_threads i 0 t) refl

quit_done_lem :
    (t : Trace) → resources (quit_done t).1 ≡ freed_all conf_memory queue_memory (resources t)
unfolding quit_done free_server_conf logs_destroy resources
quit_done_lem t = refl

-- A return; or the server runs, and everything is allocated.
abbrev pub Exits : Trace → Option ℤ × Trace → Type 0
Exits l (some k, t) = Exit l k (resources t)
Exits l (none, t) = resources t ≡ all_made l

module _ (os : Os) (sc : ServerConf) where
  module _ (sockfd : ℕ) (l : Trace) where
    socket_shut-Exit :
        (ret : ℤ) (t : Trace)
        → resources t ≡ all_made l
        → let r = socket_shut os sc sockfd ret t in Exit l r.0 (resources r.1)
    unfolding socket_shut quit_shutdown quit_done
    socket_shut-Exit ret t e = elim (Bool-cases (is_neg ret)) [
      | inl p ↦ rw p (rw (quit_shutdown_lem (rounds sc.pool_size) t, e) no_shutdown)
      | inr p ↦ rw p (rw (quit_done_lem t, e) complete)
    ]

    shut_down-Exit :
        (t : Trace)
        → resources t ≡ all_made l
        → let r = shut_down os sc sockfd t in Exit l r.0 (resources r.1)
    unfolding shut_down resources
    shut_down-Exit t e = socket_shut-Exit _ _ (
        resources-tcp_shutdown os sockfd _
        ∙ resources-join_threads os sc (rounds sc.pool_size) 0 _
        ∙ resources-logs_print os _ _ t
        ∙ e)

    accept_done-Exits :
        (ended : Bool) (t : Trace)
        → resources t ≡ all_made l
        → Exits l (accept_done os sc sockfd ended t)
    unfolding accept_done
    accept_done-Exits true t e = shut_down-Exit t e
    accept_done-Exits false t e = e

    threads_made-Exits :
        (fuel : ℕ) (made : Option ℕ) (t : Trace)
        → resources t ≡ all_made l
        → Exits l (threads_made os sc sockfd fuel made t)
    unfolding threads_made quit_spawn
    threads_made-Exits fuel (some i) t e =
        rw (quit_spawn_lem i _, resources-logs_print os _ _ t, e) no_spawn
    threads_made-Exits fuel none t e =
        accept_done-Exits _ _ (resources-accept_loop os sc sockfd fuel t ∙ e)

    with_threads-Exits :
        (fuel : ℕ) (t : Trace)
        → resources t ≡ acquired queue_memory true ∷ l
        → Exits l (with_threads os sc sockfd fuel t)
    unfolding with_threads resources quit_threads logs_destroy free_server_conf
    with_threads-Exits fuel t e =
        let port = codes "Server initialized in port " ++ print_int sc.listen_port in
        let u = (logs_print os log_info port t).1 in
        let same : resources u ≡ acquired queue_memory true ∷ l =
          resources-logs_print os log_info port t ∙ e in
        elim (Bool-cases (os.alloc u threads_memory)) [
          | inl p ↦
              let v = acquired threads_memory true ∷ u in
              elim (Bool-cases (os.alloc v args_memory)) [
                | inl q ↦
                    rw (p, q)
                      (threads_made-Exits fuel _ _ (
                        resources-spawn_threads os sc sockfd (rounds sc.pool_size) 0 _
                        ∙ ap (λ k. acquired args_memory true ∷ acquired threads_memory true ∷ k)
                            same))
                | inr q ↦ rw (p, q) (rw same no_args)
              ]
          | inr p ↦ rw p (rw same no_threads)
        ]

  quit_queue-Exits :
      (l : Trace) (t : Trace)
      → resources t ≡ acquired queue_memory false ∷ l
      → Exits l (quit_queue os sc t)
  unfolding quit_queue free_server_conf logs_destroy resources
  quit_queue-Exits l t e = rw (resources-logs_print os _ _ t, e) no_queue

  quit_socket-Exits :
      (l : Trace) (t : Trace)
      → resources t ≡ acquired queue_memory true ∷ l
      → Exits l (quit_socket os sc t)
  unfolding quit_socket quit_threads
  quit_socket-Exits l t e = rw (quit_threads_lem _, resources-logs_print os _ _ t, e) no_socket

  socket_made-Exits :
      (l : Trace) (fuel : ℕ) (s : ℤ × ℤ) (t : Trace)
      → resources t ≡ acquired queue_memory true ∷ l
      → Exits l (socket_made os sc fuel s t)
  unfolding socket_made
  socket_made-Exits l fuel (pos _, pos sockfd) t e = with_threads-Exits sockfd l fuel t e
  socket_made-Exits l fuel (pos _, negsuc _) t e = quit_socket-Exits l t e
  socket_made-Exits l fuel (negsuc _, _) t e = quit_socket-Exits l t e

  pub pool_server-Exits : (fuel : ℕ) (t : Trace) → Exits (resources t) (pool_server os sc fuel t)
  unfolding pool_server resources
  pool_server-Exits fuel t = elim (Bool-cases (os.alloc t queue_memory)) [
    | inl p ↦ rw p (
        socket_made-Exits (resources t) fuel _ _
          (resources-tcp_start_connection os sc.listen_port sc.backlog _))
    | inr p ↦ rw p (quit_queue-Exits (resources t) _ refl)
  ]

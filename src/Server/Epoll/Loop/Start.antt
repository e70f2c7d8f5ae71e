-- ===== src/Server/Epoll/Loop/Start.antt =====
-- src/server.c: the returns of `epoll_server` in front of its loop, and all of them together.
use barehttp.Base.{
  ℕ, ◌≡◌, refl, arith, Bool-cases, true, false, inl, inr, ◌∷◌, ℤ, pos, eq_ℤ, negsuc,
}
use barehttp.Os.{
  Os, Trace, Result, ok, err, watched, made_epoll, Resource, conf_memory, log_memory, log_stream,
  events_memory,
}
use barehttp.Http.{ServerConf}
use barehttp.Logs.File.{logs_destroy}
use barehttp.Tcp.{tcp_start_connection}
use barehttp.Server.Worker.{Parser}
use barehttp.Server.Clients.{Clients}
use barehttp.Server.Epoll.Loop.{
  default_max_clients, set_non_blocking, initialize_events, free_server_conf, quit_early,
  quit_no_epoll, release_all, socket_watched, epoll_made, with_socket, epoll_server,
}
use barehttp.Server.Epoll.Loop.Exit.{wait_loop-Quit}
use barehttp.Server.Epoll.Loop.Quit.{freed_last, has_no_events, Quit}

module _ (os : Os) where
  freed_last-set_non_blocking :
      (r : Resource) (fd : ℤ) (t : Trace) → freed_last r (set_non_blocking os fd t).1 ≡ 0
  unfolding set_non_blocking freed_last
  freed_last-set_non_blocking r fd t = ground arith

  has_no_events-set_non_blocking :
      (fd : ℤ) (t : Trace)
      → eq_ℤ (set_non_blocking os fd t).0 (pos 0) ≡ false
      → has_no_events (set_non_blocking os fd t).1 ≡ true
  unfolding set_non_blocking has_no_events
  has_no_events-set_non_blocking fd t h = ground arith

  freed_last-initialize_events :
      (r : Resource) (t : Trace) → freed_last r (initialize_events os t).1 ≡ 0
  unfolding initialize_events freed_last
  freed_last-initialize_events r t = ground arith

  has_no_events-initialize_events :
      (t : Trace)
      → eq_ℤ (initialize_events os t).0 (pos 0) ≡ false
      → has_no_events (initialize_events os t).1 ≡ true
  unfolding initialize_events has_no_events
  has_no_events-initialize_events t h = ground arith

module _ (os : Os) (phr : Parser) (sc : ServerConf) where
  quit_early-Quit :
      (t : Trace)
      → ((r : Resource) → freed_last r t ≡ 0)
      → has_no_events t ≡ true
      → Quit (quit_early os phr sc t)
  unfolding quit_early free_server_conf logs_destroy freed_last has_no_events
  quit_early-Quit t f n = record {
    conf_once = rw (f conf_memory) refl;
    log_once = rw (f log_memory) refl;
    stream_once = rw (f log_stream) refl;
    events_once = rw (f events_memory, n) refl;
    code = refl;
  }

  socket_watched-Quit :
      (epollfd sockfd fuel : ℕ) (clients : Clients) (r : Result (Unit {0})) (t : Trace)
      → Quit (
          socket_watched os phr sc epollfd sockfd fuel clients r
            (watched epollfd sockfd sockfd r ∷ t))
  unfolding socket_watched release_all free_server_conf logs_destroy freed_last has_no_events
  socket_watched-Quit epollfd sockfd fuel clients (err _) t = record {
    conf_once = refl;
    log_once = refl;
    stream_once = refl;
    events_once = refl;
    code = refl;
  }
  socket_watched-Quit epollfd sockfd fuel clients (ok _) t =
      wait_loop-Quit os phr sc epollfd sockfd fuel clients _

  epoll_made-Quit :
      (fuel : ℕ) (clients : Clients) (sockfd : ℕ) (r : Result ℕ) (t : Trace)
      → Quit (epoll_made os phr sc fuel clients sockfd r (made_epoll r ∷ t))
  unfolding epoll_made quit_no_epoll free_server_conf logs_destroy freed_last has_no_events
  epoll_made-Quit fuel clients sockfd (err _) t = record {
    conf_once = refl;
    log_once = refl;
    stream_once = refl;
    events_once = refl;
    code = refl;
  }
  epoll_made-Quit fuel clients sockfd (ok epollfd) t =
      socket_watched-Quit epollfd sockfd fuel clients _ _

  with_socket-Quit :
      (fuel : ℕ) (clients : Clients) (sockfd : ℤ) (t : Trace)
      → Quit (with_socket os phr sc fuel clients sockfd t)
  unfolding with_socket
  with_socket-Quit fuel clients (negsuc _) t = tt
  with_socket-Quit fuel clients (pos sockfd) t =
      elim (Bool-cases (eq_ℤ (initialize_events os t).0 (pos 0))) [
        | inl e ↦ rw e (epoll_made-Quit fuel clients sockfd _ _)
        | inr e ↦ rw e (
            quit_early-Quit _ (λ r. freed_last-initialize_events os r t)
              (has_no_events-initialize_events os t e))
      ]

  -- Wherever `epoll_server` returns, in whatever round and whatever the clients did, the last calls
  -- in front of the return free the configuration, the log and its stream once each, and the array of
  -- the events once, or not at all where `fcntl` or its allocation had failed. The result is 0 where the
  -- loop ended with a failing `epoll_wait` and `sigint` was set, and -1 otherwise.
  pub epoll_server-Quit :
      (fuel : ℕ) (clients : Clients) (t : Trace) → Quit (epoll_server os phr sc fuel clients t)
  unfolding epoll_server
  epoll_server-Quit fuel clients t =
      let s = tcp_start_connection os sc.listen_port default_max_clients t in
      elim (Bool-cases (eq_ℤ (set_non_blocking os s.0.1 s.1).0 (pos 0))) [
        | inl e ↦ rw e (with_socket-Quit fuel clients s.0.1 _)
        | inr e ↦ rw e (
            quit_early-Quit _ (λ r. freed_last-set_non_blocking os r s.0.1 s.1)
              (has_no_events-set_non_blocking os s.0.1 s.1 e))
      ]

-- ===== src/Server/Epoll/Files/Rounds.antt =====
-- src/server.c: which files are asked for while `epoll_server` runs.
use barehttp.Base.{
  ℕ, zero, suc, ◌%◌, ◌^◌, ◌≡◌, arith, Bool-cases, inl, inr, ◌==◌, List, [], ◌∷◌, ℤ, pos, negsuc,
  eq_ℤ, ◌∙◌,
}
use barehttp.Os.{Os, Trace, Result, polled, watched, made_epoll, ok, err}
use barehttp.Os.Traces.{opens}
use barehttp.Http.{ServerConf}
use barehttp.Http.Handlers.Asked.{AllAsked, IsConfined, AllConfined, AllAsked-of_eq}
use barehttp.Logs.File.{logs_destroy}
use barehttp.Tcp.{tcp_start_connection, tcp_accept_connection}
use barehttp.Server.Worker.{Parser}
use barehttp.Server.Clients.{Clients, free_clients}
use barehttp.Server.Epoll.Client.{Next, go, stop, fault, client_event}
use barehttp.Server.Epoll.Loop.{
  default_max_clients, Outcome, set_non_blocking, initialize_events, free_server_conf, quit_early,
  quit_no_epoll, release_all, quit_accept, quit_add, client_watched, register_client,
  client_accepted, new_client, handle_event, and_then, handle_events, round_done, woken, wait_loop,
  socket_watched, epoll_made, with_socket, epoll_server,
}
use barehttp.Server.Epoll.Files.{Kept, serve_client-Kept}

module _ (os : Os) (phr : Parser) (sc : ServerConf) where
  module _ (epollfd sockfd : ℕ) where
    free_clients-Kept : (cs : Clients) (t : Trace) → Kept sc t (free_clients os cs t)
    unfolding free_clients AllAsked opens
    free_clients-Kept [] t h = h
    free_clients-Kept ((p, d) ∷ cs) t h = free_clients-Kept cs _ h

    client_watched-Kept :
        (clients : Clients) (r : Result (Unit {0})) (t : Trace)
        → Kept sc t (client_watched os phr sc epollfd sockfd clients r t)
    unfolding client_watched quit_add free_server_conf logs_destroy AllAsked opens
    client_watched-Kept clients (err e) t h = free_clients-Kept clients _ h
    client_watched-Kept clients (ok _) t h = h

    register_client-Kept :
        (clients : Clients) (fd cd : ℕ) (t : Trace)
        → Kept sc t (register_client os phr sc epollfd sockfd clients fd cd t)
    unfolding register_client AllAsked opens
    register_client-Kept clients fd zero t h = h
    register_client-Kept clients fd (suc n) t h = client_watched-Kept _ _ _ h

    opens-set_non_blocking : (fd : ℤ) (t : Trace) → opens (set_non_blocking os fd t).1 ≡ opens t
    unfolding set_non_blocking opens
    opens-set_non_blocking fd t = ground arith

    client_accepted-Kept :
        (clients : Clients) (r : Result ℕ) (t : Trace)
        → Kept sc t (client_accepted os phr sc epollfd sockfd clients r t)
    unfolding client_accepted quit_accept free_server_conf logs_destroy AllAsked opens
    client_accepted-Kept clients (err e) t h = h
    client_accepted-Kept clients (ok fd) t h =
        let u = (set_non_blocking os (pos fd) t).1 in
        register_client-Kept clients fd _ u
          (AllAsked-of_eq (IsConfined sc) t u (opens-set_non_blocking (pos fd) t) h)

    handle_event-Kept :
        (clients : Clients) (word : ℕ) (t : Trace)
        → Kept sc t (handle_event os phr sc epollfd sockfd clients word t)
    unfolding handle_event new_client client_event tcp_accept_connection AllAsked opens
    handle_event-Kept clients word t h = elim (Bool-cases (word % 2 ^ 32 == sockfd)) [
      | inl e ↦ rw e (client_accepted-Kept clients _ _ h)
      | inr e ↦ rw e (serve_client-Kept os phr sc epollfd clients word _ t h)
    ]

    and_then-Kept :
        (rest : Clients → Trace → Next × Trace) (n : Next) (t : Trace)
        → ((cs : Clients) (u : Trace) → Kept sc u (rest cs u))
        → Kept sc t (and_then os phr sc epollfd sockfd rest n t)
    and_then-Kept rest (go cs) t k h = k cs t h
    and_then-Kept rest (stop _) t k h = h
    and_then-Kept rest fault t k h = h

    handle_events-Kept :
        (words : List ℕ) (clients : Clients) (t : Trace)
        → Kept sc t (handle_events os phr sc epollfd sockfd words clients t)
    unfolding handle_events
    handle_events-Kept [] clients t h = h
    handle_events-Kept (word ∷ words) clients t h =
        and_then-Kept _ _ _ (λ cs u. handle_events-Kept words cs u)
          (handle_event-Kept clients word t h)

    round_done-Kept :
        (again : Clients → Trace → Outcome × Trace) (n : Next) (t : Trace)
        → ((cs : Clients) (u : Trace) → Kept sc u (again cs u))
        → Kept sc t (round_done os phr sc epollfd sockfd again n t)
    round_done-Kept again (go cs) t k h = k cs t h
    round_done-Kept again (stop _) t k h = h
    round_done-Kept again fault t k h = h

    woken-Kept :
        (again : Clients → Trace → Outcome × Trace) (clients : Clients) (r : Result (List ℕ))
        (t : Trace)
        → ((cs : Clients) (u : Trace) → Kept sc u (again cs u))
        → Kept sc t (woken os phr sc epollfd sockfd again clients r t)
    unfolding woken release_all free_server_conf logs_destroy AllAsked opens
    woken-Kept again clients (ok words) t k h =
        let n = handle_events os phr sc epollfd sockfd words clients t in
        round_done-Kept again n.0 n.1 k (handle_events-Kept words clients t h)
    woken-Kept again clients (err e) t k h =
        let u = (release_all os phr sc epollfd t).1 in
        elim (Bool-cases (os.sigint u)) [ inl p ↦ rw p h | inr p ↦ rw p h ]

    wait_loop-Kept :
        (fuel : ℕ) (clients : Clients) (t : Trace)
        → Kept sc t (wait_loop os phr sc epollfd sockfd fuel clients t)
    unfolding wait_loop AllAsked opens
    wait_loop-Kept zero clients t h = h
    wait_loop-Kept (suc fuel) clients t h =
        let r = os.epoll_wait t epollfd sc.queue_size in
        woken-Kept (wait_loop os phr sc epollfd sockfd fuel) clients r
          (polled epollfd sc.queue_size r ∷ t) (λ cs u. wait_loop-Kept fuel cs u) h

    socket_watched-Kept :
        (fuel : ℕ) (clients : Clients) (r : Result (Unit {0})) (t : Trace)
        → Kept sc t (socket_watched os phr sc epollfd sockfd fuel clients r t)
    unfolding socket_watched release_all free_server_conf logs_destroy AllAsked opens
    socket_watched-Kept fuel clients (err _) t h = h
    socket_watched-Kept fuel clients (ok _) t h = wait_loop-Kept fuel clients t h

  epoll_made-Kept :
      (fuel : ℕ) (clients : Clients) (sockfd : ℕ) (r : Result ℕ) (t : Trace)
      → Kept sc t (epoll_made os phr sc fuel clients sockfd r t)
  unfolding epoll_made quit_no_epoll free_server_conf logs_destroy AllAsked opens
  epoll_made-Kept fuel clients sockfd (err _) t h = h
  epoll_made-Kept fuel clients sockfd (ok epollfd) t h =
      let r = os.epoll_add t epollfd sockfd sockfd in
      socket_watched-Kept epollfd sockfd fuel clients r (watched epollfd sockfd sockfd r ∷ t) h

  opens-initialize_events : (t : Trace) → opens (initialize_events os t).1 ≡ opens t
  unfolding initialize_events opens
  opens-initialize_events t = ground arith

  quit_early-Kept : (t : Trace) → Kept sc t (quit_early os phr sc t)
  unfolding quit_early free_server_conf logs_destroy AllAsked opens
  quit_early-Kept t h = h

  with_socket-Kept :
      (fuel : ℕ) (clients : Clients) (sockfd : ℤ) (t : Trace)
      → Kept sc t (with_socket os phr sc fuel clients sockfd t)
  unfolding with_socket AllAsked opens
  with_socket-Kept fuel clients (negsuc _) t h = h
  with_socket-Kept fuel clients (pos sockfd) t h =
      let u = (initialize_events os t).1 in
      let r = os.epoll_create u in
      let ready = AllAsked-of_eq (IsConfined sc) t u (opens-initialize_events t) h in
      elim (Bool-cases (eq_ℤ (initialize_events os t).0 (pos 0))) [
        | inl e ↦ rw e (epoll_made-Kept fuel clients sockfd r (made_epoll r ∷ u) ready)
        | inr e ↦ rw e (quit_early-Kept u ready)
      ]

  opens-tcp_start_connection :
      (port backlog : ℤ) (t : Trace) → opens (tcp_start_connection os port backlog t).1 ≡ opens t
  unfolding tcp_start_connection opens
  opens-tcp_start_connection port backlog t = ground arith

  -- While `epoll_server` runs, however many rounds, whatever the clients send and whatever URLs the
  -- parser finds in it, every file that is asked for is asked for in the root directory, and through no
  -- symbolic link and no path that leaves it.
  pub epoll_server_confined :
      (fuel : ℕ) (clients : Clients) (t : Trace)
      → AllConfined sc t
      → AllConfined sc (epoll_server os phr sc fuel clients t).1
  unfolding epoll_server
  epoll_server_confined fuel clients t h =
      let s = tcp_start_connection os sc.listen_port default_max_clients t in
      let ready =
        AllAsked-of_eq (IsConfined sc) t _
          (opens-set_non_blocking 0 0 s.0.1 s.1
            ∙ opens-tcp_start_connection sc.listen_port default_max_clients t)
          h in
      elim (Bool-cases (eq_ℤ (set_non_blocking os s.0.1 s.1).0 (pos 0))) [
        | inl e ↦ rw e (with_socket-Kept fuel clients s.0.1 _ ready)
        | inr e ↦ rw e (quit_early-Kept _ ready)
      ]

-- ===== src/Server/Epoll/Loop/Open.antt =====
-- src/server.c: the connections that are open while `epoll_server` runs.
use barehttp.Base.{
  ◌∙◌, ℕ, ◌+◌, if◌then◌else◌, zero, suc, ◌≡◌, arith, false, inl, inr, Bool-cases, ◌==◌, ◌%◌, ◌^◌,
  List, [], ◌∷◌, ℤ, pos, negsuc, eq_ℤ,
}
use barehttp.Os.{Os, Trace, Result, ok, err, accepted}
use barehttp.Os.Pending.{pending, HasFreshFds}
use barehttp.Http.{ServerConf}
use barehttp.Tcp.{tcp_accept_connection, tcp_start_connection}
use barehttp.Tcp.Pending.{pending-tcp_start_connection}
use barehttp.Server.Worker.{Parser}
use barehttp.Server.Clients.{Clients, add_client}
use barehttp.Server.Epoll.Client.{Next, go, stop, fault}
use barehttp.Server.Epoll.Client.Open.{conns, Tracked, NextTracked, client_event-Tracked}
use barehttp.Server.Epoll.Loop.{
  new_client_data, default_max_clients, Outcome, returned, faulted, running, set_non_blocking,
  initialize_events, quit_early, quit_no_epoll, quit_add, quit_accept, client_watched,
  register_client, client_accepted, new_client, handle_event, and_then, handle_events, round_done,
  woken, wait_loop, socket_watched, epoll_made, with_socket, epoll_server,
}

abbrev pub OutcomeTracked : ℕ → Outcome × Trace → Type 0
OutcomeTracked fd (running cs, t) = Tracked fd cs t
OutcomeTracked fd (returned _, t) = Unit {0}
OutcomeTracked fd (faulted, t) = Unit {0}

module _ (os : Os) (fd : ℕ) where
  pending-set_non_blocking :
      (g : ℤ) (t : Trace) → pending fd (set_non_blocking os g t).1 ≡ pending fd t
  unfolding set_non_blocking pending
  pending-set_non_blocking g t = ground arith

  pending-initialize_events : (t : Trace) → pending fd (initialize_events os t).1 ≡ pending fd t
  unfolding initialize_events pending
  pending-initialize_events t = ground arith

module _ (os : Os) (fresh : HasFreshFds os) (phr : Parser) (sc : ServerConf)
    (epollfd sockfd fd : ℕ) where
  client_watched-Tracked :
      (clients : Clients) (r : Result (Unit {0})) (t : Trace)
      → Tracked fd clients t
      → NextTracked fd (client_watched os phr sc epollfd sockfd clients r t)
  unfolding client_watched quit_add
  client_watched-Tracked clients (err _) t h = tt
  client_watched-Tracked clients (ok _) t h = h

  register_client-Tracked :
      (clients : Clients) (g cd : ℕ) (t : Trace)
      → conns clients fd + (if g == fd then 1 else 0) ≡ (if pending fd t then 1 else 0)
      → NextTracked fd (register_client os phr sc epollfd sockfd clients g cd t)
  unfolding register_client pending conns add_client new_client_data
  register_client-Tracked clients g zero t h = tt
  register_client-Tracked clients g (suc cd) t h = client_watched-Tracked _ _ _ (grind arith)

  client_accepted-Tracked :
      (clients : Clients) (r : Result ℕ) (t : Trace)
      → (r ≡ ok fd → pending fd t ≡ false)
      → Tracked fd clients t
      → NextTracked fd (client_accepted os phr sc epollfd sockfd clients r (accepted sockfd r ∷ t))
  unfolding client_accepted quit_accept pending
  client_accepted-Tracked clients (err _) t f h = tt
  client_accepted-Tracked clients (ok g) t f h =
      register_client-Tracked clients g _ _ (grind (arith, pending-set_non_blocking os fd (pos g)))

  new_client-Tracked :
      (clients : Clients) (t : Trace)
      → Tracked fd clients t
      → NextTracked fd (new_client os phr sc epollfd sockfd clients t)
  unfolding new_client tcp_accept_connection
  new_client-Tracked clients t h =
      client_accepted-Tracked clients _ t (fresh.accept_fresh t sockfd fd) h

  handle_event-Tracked :
      (clients : Clients) (word : ℕ) (t : Trace)
      → Tracked fd clients t
      → NextTracked fd (handle_event os phr sc epollfd sockfd clients word t)
  unfolding handle_event
  handle_event-Tracked clients word t h = elim (Bool-cases (word % 2 ^ 32 == sockfd)) [
    | inl e ↦ rw e (new_client-Tracked clients t h)
    | inr e ↦ rw e (client_event-Tracked os fresh phr sc epollfd fd clients word t h)
  ]

  and_then-Tracked :
      (rest : Clients → Trace → Next × Trace) (n : Next) (t : Trace)
      → NextTracked fd (n, t)
      → ((cs : Clients) (u : Trace) → Tracked fd cs u → NextTracked fd (rest cs u))
      → NextTracked fd (and_then os phr sc epollfd sockfd rest n t)
  and_then-Tracked rest (go cs) t i h = h cs t i
  and_then-Tracked rest (stop _) t i h = tt
  and_then-Tracked rest fault t i h = tt

  handle_events-Tracked :
      (words : List ℕ) (clients : Clients) (t : Trace)
      → Tracked fd clients t
      → NextTracked fd (handle_events os phr sc epollfd sockfd words clients t)
  unfolding handle_events
  handle_events-Tracked [] clients t h = h
  handle_events-Tracked (word ∷ words) clients t h =
      and_then-Tracked (handle_events os phr sc epollfd sockfd words) _ _
        (handle_event-Tracked clients word t h) (handle_events-Tracked words)

  round_done-Tracked :
      (again : Clients → Trace → Outcome × Trace) (n : Next) (t : Trace)
      → NextTracked fd (n, t)
      → ((cs : Clients) (u : Trace) → Tracked fd cs u → OutcomeTracked fd (again cs u))
      → OutcomeTracked fd (round_done os phr sc epollfd sockfd again n t)
  round_done-Tracked again (go cs) t i h = h cs t i
  round_done-Tracked again (stop _) t i h = tt
  round_done-Tracked again fault t i h = tt

  woken-Tracked :
      (again : Clients → Trace → Outcome × Trace) (clients : Clients) (r : Result (List ℕ))
      (t : Trace)
      → Tracked fd clients t
      → ((cs : Clients) (u : Trace) → Tracked fd cs u → OutcomeTracked fd (again cs u))
      → OutcomeTracked fd (woken os phr sc epollfd sockfd again clients r t)
  unfolding woken
  woken-Tracked again clients (ok words) t i h =
      round_done-Tracked again _ _ (handle_events-Tracked words clients t i) h
  woken-Tracked again clients (err _) t i h = ground arith

  wait_loop-Tracked :
      (fuel : ℕ) (clients : Clients) (t : Trace)
      → Tracked fd clients t
      → OutcomeTracked fd (wait_loop os phr sc epollfd sockfd fuel clients t)
  unfolding wait_loop pending
  wait_loop-Tracked zero clients t h = h
  wait_loop-Tracked (suc fuel) clients t h =
      woken-Tracked (wait_loop os phr sc epollfd sockfd fuel) clients _ _ h (wait_loop-Tracked fuel)

  socket_watched-Tracked :
      (fuel : ℕ) (clients : Clients) (r : Result (Unit {0})) (t : Trace)
      → Tracked fd clients t
      → OutcomeTracked fd (socket_watched os phr sc epollfd sockfd fuel clients r t)
  unfolding socket_watched
  socket_watched-Tracked fuel clients (err _) t h = tt
  socket_watched-Tracked fuel clients (ok _) t h = wait_loop-Tracked fuel clients t h

module _ (os : Os) (fresh : HasFreshFds os) (phr : Parser) (sc : ServerConf) (fd : ℕ) where
  epoll_made-Tracked :
      (fuel : ℕ) (clients : Clients) (sockfd : ℕ) (r : Result ℕ) (t : Trace)
      → Tracked fd clients t
      → OutcomeTracked fd (epoll_made os phr sc fuel clients sockfd r t)
  unfolding epoll_made quit_no_epoll pending
  epoll_made-Tracked fuel clients sockfd (err _) t h = tt
  epoll_made-Tracked fuel clients sockfd (ok epollfd) t h =
      socket_watched-Tracked os fresh phr sc epollfd sockfd fd fuel clients _ _ h

  with_socket-Tracked :
      (fuel : ℕ) (clients : Clients) (sockfd : ℤ) (t : Trace)
      → Tracked fd clients t
      → OutcomeTracked fd (with_socket os phr sc fuel clients sockfd t)
  unfolding with_socket quit_early pending
  with_socket-Tracked fuel clients (negsuc _) t h = tt
  with_socket-Tracked fuel clients (pos sockfd) t h =
      let e = initialize_events os t in
      elim (Bool-cases (eq_ℤ e.0 (pos 0))) [
        | inl p ↦ rw p (
            epoll_made-Tracked fuel clients sockfd _ _
              (grind (arith, pending-initialize_events os fd t)))
        | inr p ↦ rw p tt
      ]

  -- The system hands out no descriptor that is an accepted connection and has not been closed. Let a
  -- descriptor be that of one client when `epoll_server` starts if it is such a connection, and of
  -- none if it is not. Then this stays so while `epoll_server` runs, however many rounds, whatever
  -- the clients send and whatever calls fail: every connection that it has accepted and not closed
  -- is that of one client of its list, and every client's connection is open.
  pub epoll_server-Tracked :
      (fuel : ℕ) (clients : Clients) (t : Trace)
      → Tracked fd clients t
      → OutcomeTracked fd (epoll_server os phr sc fuel clients t)
  unfolding epoll_server quit_early
  epoll_server-Tracked fuel clients t n =
      let s = tcp_start_connection os sc.listen_port default_max_clients t in
      let b = set_non_blocking os s.0.1 s.1 in
      let same : pending fd b.1 ≡ pending fd t =
        pending-set_non_blocking os fd s.0.1 s.1
        ∙ pending-tcp_start_connection os fd sc.listen_port default_max_clients t fresh in
      elim (Bool-cases (eq_ℤ b.0 (pos 0))) [
        | inl p ↦ rw p (with_socket-Tracked fuel clients s.0.1 b.1 (rw same n))
        | inr p ↦ rw p tt
      ]

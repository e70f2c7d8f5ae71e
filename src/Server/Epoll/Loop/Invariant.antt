-- ===== src/Server/Epoll/Loop/Invariant.antt =====
-- The list of clients of `epoll_server` in src/server.c, whatever happens on the connections.
use barehttp.Base.{ℕ, zero, suc, inl, inr, arith, Bool-cases, List, ℤ, pos, negsuc, eq_ℤ}
use barehttp.Os.{Os, Trace, Result, ok, err}
use barehttp.Http.{ServerConf}
use barehttp.Server.Worker.{Parser}
use barehttp.Server.Clients.{Clients}
use barehttp.Server.Epoll.Client.{Next, go, stop, fault}
use barehttp.Server.Epoll.Loop.{
  Outcome, returned, faulted, running, initialize_events, quit_early, quit_no_epoll, round_done,
  woken, socket_watched, epoll_made, with_socket, handle_events, wait_loop, epoll_server,
}
use barehttp.Server.Epoll.Loop.Events.{Inv, IsFresh, NextInv, handle_events-Inv}

abbrev pub OutcomeInv : Outcome → Type 0
OutcomeInv (running cs) = Inv cs
OutcomeInv (returned _) = Unit {0}
OutcomeInv faulted = Unit {0}

module _ (os : Os) (phr : Parser) (sc : ServerConf) where
  round_done-Inv :
      (epollfd sockfd : ℕ) (again : Clients → Trace → Outcome × Trace) (n : Next) (t : Trace)
      → NextInv n
      → ((cs : Clients) (u : Trace) → Inv cs → OutcomeInv (again cs u).0)
      → OutcomeInv (round_done os phr sc epollfd sockfd again n t).0
  round_done-Inv epollfd sockfd again (go cs) t i h = h cs t i
  round_done-Inv epollfd sockfd again (stop _) t i h = tt
  round_done-Inv epollfd sockfd again fault t i h = tt

  woken-Inv :
      (epollfd sockfd : ℕ) (again : Clients → Trace → Outcome × Trace) (clients : Clients)
      (r : Result (List ℕ)) (t : Trace)
      → IsFresh os
      → Inv clients
      → ((cs : Clients) (u : Trace) → Inv cs → OutcomeInv (again cs u).0)
      → OutcomeInv (woken os phr sc epollfd sockfd again clients r t).0
  unfolding woken
  woken-Inv epollfd sockfd again clients (ok words) t f i h =
      let n = handle_events os phr sc epollfd sockfd words clients t in
      round_done-Inv epollfd sockfd again n.0 n.1
        (handle_events-Inv os phr sc epollfd sockfd words clients t f i) h
  woken-Inv epollfd sockfd again clients (err _) t f i h = ground arith

  wait_loop-Inv :
      (fuel epollfd sockfd : ℕ) (clients : Clients) (t : Trace)
      → IsFresh os
      → Inv clients
      → OutcomeInv (wait_loop os phr sc epollfd sockfd fuel clients t).0
  unfolding wait_loop
  wait_loop-Inv zero epollfd sockfd clients t f i = i
  wait_loop-Inv (suc fuel) epollfd sockfd clients t f i =
      woken-Inv epollfd sockfd (wait_loop os phr sc epollfd sockfd fuel) clients _ _ f i
        (λ cs u j. wait_loop-Inv fuel epollfd sockfd cs u f j)

  socket_watched-Inv :
      (epollfd sockfd fuel : ℕ) (clients : Clients) (r : Result (Unit {0})) (t : Trace)
      → IsFresh os
      → Inv clients
      → OutcomeInv (socket_watched os phr sc epollfd sockfd fuel clients r t).0
  unfolding socket_watched
  socket_watched-Inv epollfd sockfd fuel clients (err _) t f i = tt
  socket_watched-Inv epollfd sockfd fuel clients (ok _) t f i =
      wait_loop-Inv fuel epollfd sockfd clients t f i

  epoll_made-Inv :
      (fuel : ℕ) (clients : Clients) (sockfd : ℕ) (r : Result ℕ) (t : Trace)
      → IsFresh os
      → Inv clients
      → OutcomeInv (epoll_made os phr sc fuel clients sockfd r t).0
  unfolding epoll_made quit_no_epoll
  epoll_made-Inv fuel clients sockfd (err _) t f i = tt
  epoll_made-Inv fuel clients sockfd (ok epollfd) t f i =
      socket_watched-Inv epollfd sockfd fuel clients _ _ f i

  with_socket-Inv :
      (fuel : ℕ) (clients : Clients) (sockfd : ℤ) (t : Trace)
      → IsFresh os
      → Inv clients
      → OutcomeInv (with_socket os phr sc fuel clients sockfd t).0
  unfolding with_socket quit_early
  with_socket-Inv fuel clients (negsuc _) t f i = tt
  with_socket-Inv fuel clients (pos sockfd) t f i =
      elim (Bool-cases (eq_ℤ (initialize_events os t).0 (pos 0))) [
        | inl e ↦ rw e (epoll_made-Inv fuel clients sockfd _ _ f i)
        | inr e ↦ rw e tt
      ]

  -- While `epoll_server` runs, however many rounds and whatever the clients send, no address stands in
  -- its list twice, and every client that still reads the head of its request has room in its buffer:
  -- where that holds of what `active_clients` leads to at the start, and `calloc` hands out no address
  -- that is in use.
  pub epoll_server-Inv :
      (fuel : ℕ) (clients : Clients) (t : Trace)
      → IsFresh os
      → Inv clients
      → OutcomeInv (epoll_server os phr sc fuel clients t).0
  unfolding epoll_server quit_early
  epoll_server-Inv fuel clients t f i = grind (arith, with_socket-Inv)

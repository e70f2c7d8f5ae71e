-- ===== src/Server/Epoll/Loop/Exit.antt =====
-- src/server.c: what `epoll_server` frees on each of its returns.
use barehttp.Base.{
  ℕ, zero, suc, ap, ◌≡◌, refl, Bool-cases, inl, inr, ◌==◌, ◌%◌, ◌^◌, List, [], ◌∷◌, ℤ,
}
use barehttp.Os.{
  Os, Trace, watched, accepted, polled, Result, ok, err, Resource, conf_memory, log_memory,
  log_stream, events_memory,
}
use barehttp.Http.{ServerConf}
use barehttp.Tcp.{tcp_accept_connection}
use barehttp.Logs.File.{logs_destroy}
use barehttp.Server.Worker.{Parser}
use barehttp.Server.Clients.{Clients, free_clients}
use barehttp.Server.Epoll.Client.{Next, go, stop, fault, client_event}
use barehttp.Server.Epoll.Loop.{
  Outcome, free_server_conf, release_all, quit_accept, quit_add, client_watched, register_client,
  client_accepted, new_client, handle_event, and_then, handle_events, round_done, woken, wait_loop,
}
use barehttp.Server.Epoll.Loop.Quit.{
  freed_last, has_no_events, Quit, QuitNext, serve_client-QuitNext,
}

module _ (os : Os) (phr : Parser) (sc : ServerConf) where
  module _ (epollfd sockfd : ℕ) where
    freed_last-free_clients :
        (r : Resource) (cs : Clients) (t : Trace)
        → freed_last r (free_clients os cs t).1 ≡ freed_last r t
    unfolding free_clients freed_last
    freed_last-free_clients r [] t = refl
    freed_last-free_clients r ((p, d) ∷ cs) t = freed_last-free_clients r cs _

    has_no_events-free_clients :
        (cs : Clients) (t : Trace) → has_no_events (free_clients os cs t).1 ≡ has_no_events t
    unfolding free_clients has_no_events
    has_no_events-free_clients [] t = refl
    has_no_events-free_clients ((p, d) ∷ cs) t = has_no_events-free_clients cs _

    quit_add-QuitNext :
        (clients : Clients) (fd cd : ℕ) (r : Result (Unit {0})) (t : Trace)
        → QuitNext (quit_add os phr sc epollfd sockfd clients (watched epollfd fd cd r ∷ t))
    unfolding quit_add free_server_conf logs_destroy freed_last has_no_events
    quit_add-QuitNext clients fd cd r t = record {
      conf_once = ap suc (freed_last-free_clients conf_memory clients _);
      log_once = freed_last-free_clients log_memory clients _;
      stream_once = freed_last-free_clients log_stream clients _;
      events_once =
          rw (has_no_events-free_clients clients) (freed_last-free_clients events_memory clients _);
      code = refl;
    }

    client_watched-QuitNext :
        (clients : Clients) (fd cd : ℕ) (r : Result (Unit {0})) (t : Trace)
        → QuitNext (client_watched os phr sc epollfd sockfd clients r (watched epollfd fd cd r ∷ t))
    unfolding client_watched
    client_watched-QuitNext clients fd cd (err e) t = quit_add-QuitNext clients fd cd (err e) t
    client_watched-QuitNext clients fd cd (ok _) t = tt

    register_client-QuitNext :
        (clients : Clients) (fd cd : ℕ) (t : Trace)
        → QuitNext (register_client os phr sc epollfd sockfd clients fd cd t)
    unfolding register_client
    register_client-QuitNext clients fd zero t = tt
    register_client-QuitNext clients fd (suc n) t = client_watched-QuitNext _ fd (suc n) _ t

    quit_accept-QuitNext :
        (e : ℕ) (t : Trace)
        → QuitNext (quit_accept os phr sc epollfd sockfd (accepted sockfd (err e) ∷ t))
    unfolding quit_accept free_server_conf logs_destroy freed_last has_no_events
    quit_accept-QuitNext e t = record {
      conf_once = refl;
      log_once = refl;
      stream_once = refl;
      events_once = refl;
      code = refl;
    }

    client_accepted-QuitNext :
        (clients : Clients) (r : Result ℕ) (t : Trace)
        → QuitNext (client_accepted os phr sc epollfd sockfd clients r (accepted sockfd r ∷ t))
    unfolding client_accepted
    client_accepted-QuitNext clients (err e) t = quit_accept-QuitNext e t
    client_accepted-QuitNext clients (ok fd) t = register_client-QuitNext clients fd _ _

    handle_event-QuitNext :
        (clients : Clients) (word : ℕ) (t : Trace)
        → QuitNext (handle_event os phr sc epollfd sockfd clients word t)
    unfolding handle_event new_client client_event tcp_accept_connection
    handle_event-QuitNext clients word t = elim (Bool-cases (word % 2 ^ 32 == sockfd)) [
      | inl e ↦ rw e (client_accepted-QuitNext clients _ t)
      | inr e ↦ rw e (serve_client-QuitNext os phr sc epollfd clients word _ t)
    ]

    and_then-QuitNext :
        (rest : Clients → Trace → Next × Trace) (n : Next) (t : Trace)
        → QuitNext (n, t)
        → ((cs : Clients) (u : Trace) → QuitNext (rest cs u))
        → QuitNext (and_then os phr sc epollfd sockfd rest n t)
    and_then-QuitNext rest (go cs) t q h = h cs t
    and_then-QuitNext rest (stop _) t q h = q
    and_then-QuitNext rest fault t q h = tt

    handle_events-QuitNext :
        (words : List ℕ) (clients : Clients) (t : Trace)
        → QuitNext (handle_events os phr sc epollfd sockfd words clients t)
    unfolding handle_events
    handle_events-QuitNext [] clients t = tt
    handle_events-QuitNext (word ∷ words) clients t =
        and_then-QuitNext _ _ _ (handle_event-QuitNext clients word t)
          (λ cs u. handle_events-QuitNext words cs u)

    round_done-Quit :
        (again : Clients → Trace → Outcome × Trace) (n : Next) (t : Trace)
        → QuitNext (n, t)
        → ((cs : Clients) (u : Trace) → Quit (again cs u))
        → Quit (round_done os phr sc epollfd sockfd again n t)
    round_done-Quit again (go cs) t q h = h cs t
    round_done-Quit again (stop _) t q h = q
    round_done-Quit again fault t q h = tt

    woken-Quit :
        (again : Clients → Trace → Outcome × Trace) (clients : Clients) (m : ℤ)
        (r : Result (List ℕ)) (t : Trace)
        → ((cs : Clients) (u : Trace) → Quit (again cs u))
        → Quit (woken os phr sc epollfd sockfd again clients r (polled epollfd m r ∷ t))
    unfolding woken release_all free_server_conf logs_destroy freed_last has_no_events
    woken-Quit again clients m (ok words) t h =
        round_done-Quit again _ _ (handle_events-QuitNext words clients _) h
    woken-Quit again clients m (err e) t h =
        let u = (release_all os phr sc epollfd (polled epollfd m (err e) ∷ t)).1 in
        elim (Bool-cases (os.sigint u)) [
          | inl p ↦ rw p (record {
            conf_once = refl;
            log_once = refl;
            stream_once = refl;
            events_once = refl;
            code = refl;
          })
          | inr p ↦ rw p (record {
            conf_once = refl;
            log_once = refl;
            stream_once = refl;
            events_once = refl;
            code = refl;
          })
        ]

    pub wait_loop-Quit :
        (fuel : ℕ) (clients : Clients) (t : Trace)
        → Quit (wait_loop os phr sc epollfd sockfd fuel clients t)
    unfolding wait_loop
    wait_loop-Quit zero clients t = tt
    wait_loop-Quit (suc fuel) clients t =
        woken-Quit _ clients sc.queue_size _ t (λ cs u. wait_loop-Quit fuel cs u)

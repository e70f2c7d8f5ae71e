-- ===== src/Server/Epoll/Loop.antt =====
-- src/server.c: `epoll_server` from the listening socket to its return, `set_non_blocking` and
-- `initialize_events`.
pub mod Open
pub mod Leaves
pub mod Quit
pub mod Exit
pub mod Start
pub mod Events
pub mod Invariant
mod Examples
use Prim.Native.Nat.{bit_or}
use barehttp.Base.{
  ℕ, zero, suc, ◌%◌, ◌^◌, Bool, true, false, List, [], ◌∷◌, ◌==◌, if◌then◌else◌, ℤ, pos, negsuc,
  minus_one, eq_ℤ, replicate,
}
use barehttp.Os.{
  alloc, release, Os, Trace, Event, Resource, conf_memory, log_memory, log_stream, events_memory, M,
  pure, note, call, ◌>>=◌, ◌>>◌, Result, ok, err, got_flags, set_flags, made_epoll, watched, polled,
  acquired, released, saw_sigint,
}
use barehttp.Logs.File.{logs_destroy}
use barehttp.Tcp.{close, tcp_start_connection, tcp_accept_connection}
use barehttp.Http.{HttpRequest, ServerConf, max_buffr}
use barehttp.Server.Worker.{Parser}
use barehttp.Server.Clients.{
  ClientData, client_reading_headers, Clients, addresses, add_client, free_clients,
}
use barehttp.Server.Epoll.Client.{Next, go, stop, fault, client_event}

-- `O_NONBLOCK`.
abbrev o_nonblock : ℕ
o_nonblock = 2048

abbrev pub default_max_clients : ℤ
default_max_clients = pos 16

-- What `calloc` leaves in a `client_data`, with the descriptor and the state set.
unfoldable pub new_client_data : ℕ → ClientData
new_client_data fd = record {
  fd = fd;
  state = client_reading_headers;
  rq = replicate max_buffr 0;
  rq_size = 0;
  http_rq = record { method = []; url = []; version = 0; headers = []; body = [] };
  last_len = 0;
  body_len = pos 0;
  header_len = 0;
}

-- How `epoll_server` stands: it has returned, it has done what C leaves undefined, or it goes on
-- with these clients.
pub data Outcome : Type 0 where
  returned : ℤ → Outcome
  faulted : Outcome
  running : Clients → Outcome

module _ (os : Os) where
  unfoldable pub set_non_blocking : ℤ → M ℤ
  set_non_blocking fd = do
    flags ← call (λ t. os.getfl t fd) (got_flags fd)
    elim flags [
      | err _ ↦ pure minus_one
      | ok flags ↦ do
        ret ←
            call (λ t. os.setfl t fd (bit_or flags o_nonblock))
              (set_flags fd (bit_or flags o_nonblock))
        elim ret [ err _ ↦ pure minus_one | ok _ ↦ pure (pos 0) ]
    ]

  unfoldable pub initialize_events : M ℤ
  initialize_events = do
    events ← alloc os events_memory
    if events then pure (pos 0) else pure minus_one

-- The four calls of `free`.
unfoldable pub free_server_conf : M (Unit {0})
free_server_conf = release conf_memory

abbrev free_events : M (Unit {0})
free_events = release events_memory

module _ (os : Os) (phr_parse_request : Parser) (sc : ServerConf) where
  -- The returns in front of the first call of `epoll_ctl`.
  unfoldable pub quit_early : M Outcome
  quit_early = do logs_destroy; free_server_conf; pure (returned minus_one)

  unfoldable pub quit_no_epoll : M Outcome
  quit_no_epoll = do free_events; logs_destroy; free_server_conf; pure (returned minus_one)

  -- What stands in front of the other returns.
  unfoldable pub release_all : ℕ → M (Unit {0})
  release_all epollfd = do close os epollfd; free_events; logs_destroy; free_server_conf

  module _ (epollfd sockfd : ℕ) where
    unfoldable pub quit_accept : M Next
    quit_accept = do
      close os epollfd
      logs_destroy
      free_events
      free_server_conf
      pure (stop minus_one)

    unfoldable pub quit_add : Clients → M Next
    quit_add clients = do
      close os epollfd
      logs_destroy
      free_events
      free_clients os clients
      free_server_conf
      pure (stop minus_one)

    -- What follows the registration of a client.
    unfoldable pub client_watched : Clients → Result (Unit {0}) → M Next
    client_watched clients (err _) = quit_add clients
    client_watched clients (ok _) = pure (go clients)

    -- `cd` is the address that `calloc` returned; it is used with no test for NULL.
    unfoldable pub register_client : Clients → ℕ → ℕ → M Next
    register_client clients clientfd zero = pure fault
    register_client clients clientfd (suc n) =
        let active = add_client clients (suc n) (new_client_data clientfd) in
        do
          r ← call (λ t. os.epoll_add t epollfd clientfd (suc n)) (watched epollfd clientfd (suc n))
          client_watched active r

    abbrev calloc_client : Clients → M ℕ
    calloc_client clients t = (os.calloc_client t (addresses clients), t)

    -- What follows `tcp_accept_connection`.
    unfoldable pub client_accepted : Clients → Result ℕ → M Next
    client_accepted clients (err _) = quit_accept
    client_accepted clients (ok clientfd) = do
      set_non_blocking os (pos clientfd)
      cd ← calloc_client clients
      register_client clients clientfd cd

    unfoldable pub new_client : Clients → M Next
    new_client clients = do a ← tcp_accept_connection os sockfd; client_accepted clients a

    -- One event. Its word is compared with the listening descriptor as the `int` in the union.
    unfoldable pub handle_event : Clients → ℕ → M Next
    handle_event clients word =
        if word % 2 ^ 32 == sockfd
        then new_client clients
        else client_event os phr_parse_request sc epollfd clients word

    -- The loop over the ready events ends where `epoll_server` returns.
    abbrev pub and_then : (Clients → M Next) → Next → M Next
    and_then rest (go clients) = rest clients
    and_then rest (stop ret) = pure (stop ret)
    and_then rest fault = pure fault

    unfoldable pub handle_events : List ℕ → Clients → M Next
    handle_events [] clients = pure (go clients)
    handle_events (word ∷ words) clients = do
      n ← handle_event clients word
      and_then (handle_events words) n

    abbrev read_sigint : M Bool
    read_sigint = call (λ t. os.sigint t) saw_sigint

    -- A round of `while(1)` behind the loop over its events; `again` is the next round.
    abbrev pub round_done : (Clients → M Outcome) → Next → M Outcome
    round_done again (go clients) = again clients
    round_done again (stop ret) = pure (returned ret)
    round_done again fault = pure faulted

    -- What follows `epoll_wait`.
    unfoldable pub woken : (Clients → M Outcome) → Clients → Result (List ℕ) → M Outcome
    woken again clients (ok words) = do n ← handle_events words clients; round_done again n
    woken again clients (err _) = do
      release_all epollfd
      sigint ← read_sigint
      if sigint then pure (returned (pos 0)) else pure (returned minus_one)

    -- At most `fuel` rounds of `while(1)`.
    unfoldable pub wait_loop : ℕ → Clients → M Outcome
    wait_loop zero clients = pure (running clients)
    wait_loop (suc fuel) clients = do
      nfds ← call (λ t. os.epoll_wait t epollfd sc.queue_size) (polled epollfd sc.queue_size)
      woken (wait_loop fuel) clients nfds

    -- What follows the registration of the listening socket.
    unfoldable pub socket_watched : ℕ → Clients → Result (Unit {0}) → M Outcome
    socket_watched fuel clients (err _) = do release_all epollfd; pure (returned minus_one)
    socket_watched fuel clients (ok _) = wait_loop fuel clients

  -- What follows `epoll_create1`.
  unfoldable pub epoll_made : ℕ → Clients → ℕ → Result ℕ → M Outcome
  epoll_made fuel clients sockfd (err _) = quit_no_epoll
  epoll_made fuel clients sockfd (ok epollfd) = do
    r ← call (λ t. os.epoll_add t epollfd sockfd sockfd) (watched epollfd sockfd sockfd)
    socket_watched epollfd sockfd fuel clients r

  -- From `initialize_events` on. A negative `sockfd` is one that `fcntl` has refused.
  unfoldable pub with_socket : ℕ → Clients → ℤ → M Outcome
  with_socket fuel clients (negsuc _) = pure faulted
  with_socket fuel clients (pos sockfd) = do
    e ← initialize_events os
    if eq_ℤ e (pos 0)
        then (do
          epollfd ← call (λ t. os.epoll_create t) made_epoll
          epoll_made fuel clients sockfd epollfd)
        else quit_early

  -- `clients` is what the variable `active_clients` leads to, which nothing initialises. The result of
  -- `tcp_start_connection` is not read.
  unfoldable pub epoll_server : ℕ → Clients → M Outcome
  epoll_server fuel clients = do
    s ← tcp_start_connection os sc.listen_port default_max_clients
    n ← set_non_blocking os s.1
    if eq_ℤ n (pos 0) then with_socket fuel clients s.1 else quit_early

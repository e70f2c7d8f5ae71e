-- ===== src/Server/Epoll/Loop/Examples.antt =====
-- The connections of `epoll_server`, over a system that hands out new descriptors.
use barehttp.Base.{
  ℕ, ◌≤◌, arith, some, replicate, length, ◌+◌, ◌≡◌, refl, true, [], ◌∷◌, take, ltb, if◌then◌else◌,
}
use barehttp.CString.{codes}
use barehttp.CString.Memory.{poke_at}
use barehttp.Os.{Os, ok}
use barehttp.Os.Pending.{pending}
use barehttp.Os.Sample.{sample, sum, new_fds, new_fds-HasFreshFds}
use barehttp.Http.Sample.{conf}
use barehttp.Server.Worker.{Parser, partial, complete, http_parse_request}
use barehttp.Tcp.{tcp_start_connection, tcp_accept_connection, tcp_recv}
use barehttp.Server.Clients.{Clients, client_at, add_client}
use barehttp.Server.Clients.Laws.{IsDistinct}
use barehttp.Server.Epoll.Client.Progress.{NeverWaits}
use barehttp.Server.Epoll.Loop.Leaves.{HasLeft, client_leaves}
use barehttp.Server.Epoll.Client.{
  client_event, serve_client, client_received, by_state, read_headers, headers_parsed,
  headers_partial,
}
use barehttp.Server.Epoll.Loop.{
  set_non_blocking, with_socket, initialize_events, epoll_made, socket_watched, wait_loop, woken,
  handle_events, handle_event, new_client, client_accepted, register_client, client_watched,
  new_client_data, epoll_server,
}
use barehttp.Server.Epoll.Client.Open.{conns}
use barehttp.Server.Epoll.Loop.Open.{OutcomeTracked, epoll_server-Tracked}

-- In each round a client comes, and the client at the address 101 sends five bytes.
abbrev five_bytes : Os
five_bytes = record sample {
  recv = λ t fd room. ok (take room (codes "hello"));
  epoll_wait = λ t epollfd maxevents. ok (1 ∷ 101 ∷ []);
  calloc_client = λ t used. 101 + sum used;
}

abbrev roomy : Os
roomy = new_fds five_bytes

-- A head is eight bytes long.
abbrev eight : Parser
eight = λ buff last_len n.
    if ltb (length buff) 8 then partial else complete 8 (codes "GET", codes "/", 0, [])

five_bytes-NeverWaits : NeverWaits five_bytes
five_bytes-NeverWaits = record { no_eagain = λ t fd room e h. absurd cc }

abbrev one_client : Clients
one_client = (101, new_client_data 4) ∷ []

one_client-at : client_at one_client 101 ≡ some (new_client_data 4)
unfolding client_at
one_client-at = refl

client_leaves_example :
    (k : ℕ) × (k ≤ 8194)
    × HasLeft 101 (handle_events five_bytes eight conf 8 3 (replicate k 101) one_client []).0
unfolding IsDistinct client_at new_client_data
client_leaves_example =
    client_leaves five_bytes eight conf 8 3 101 refl five_bytes-NeverWaits 8193 one_client
      (new_client_data 4) [] (refl, tt) one_client-at (λ h. cc) (omega arith)

epoll_server-Tracked_example : OutcomeTracked 4 (epoll_server roomy eight conf 3 [] [])
unfolding conns pending
epoll_server-Tracked_example =
    epoll_server-Tracked roomy (new_fds-HasFreshFds five_bytes) eight conf 4 3 [] [] refl

-- After the first round its client is in the list, and the connection is open.
one_connection : (pending 4 (epoll_server roomy eight conf 1 [] []).1 ≡ true)
unfolding epoll_server set_non_blocking with_socket initialize_events epoll_made socket_watched
    wait_loop woken handle_events handle_event new_client tcp_accept_connection client_accepted
    register_client client_watched client_event serve_client client_at add_client new_client_data
    tcp_start_connection tcp_recv client_received by_state read_headers headers_parsed
    headers_partial http_parse_request pending codes poke_at
one_connection = refl

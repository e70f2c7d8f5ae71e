-- ===== src/Server/Epoll/Examples.antt =====
-- Runs of the epoll loop of src/server.c, and its theorems at concrete clients.
use barehttp.Base.{
  List, false, ℕ, ◌<◌, ◌≡◌, refl, arith, ltb, [], ◌∷◌, none, some, if◌then◌else◌, pos, length, take,
  replicate, length-replicate,
}
use barehttp.CString.{to_int, codes}
use barehttp.Os.{Os, ok}
use barehttp.Os.Sample.{sample, sum}
use barehttp.Http.Sample.{conf}
use barehttp.Os.Traces.{opens}
use barehttp.Http.Handlers.Asked.{AllAsked, AllConfined}
use barehttp.Server.Epoll.Files.Rounds.{epoll_server_confined}
use barehttp.Server.Worker.{http_parse_request, Parser, partial, complete}
use barehttp.Server.Clients.{
  ClientData, client_reading_body, Clients, client_at, addresses, update_client,
}
use barehttp.Server.Clients.Laws.{IsDistinct}
use barehttp.Server.Epoll.Client.{
  serve_client, client_received, by_state, read_headers, headers_parsed, headers_partial,
  headers_done, respond_headers, is_too_long, go, fault, client_event,
}
use barehttp.Server.Epoll.Client.Frame.{Settled, HasRoom, HasRoom-below, client_event-Settled}
use barehttp.Server.Epoll.Client.Buffer.{GrownNext, client_event-GrownNext}
use barehttp.Server.Epoll.Client.Overflow.{read_twice, client_event-overflow}
use barehttp.Server.Epoll.Loop.{
  new_client_data, epoll_server, Outcome, running, with_socket, epoll_made, socket_watched,
  wait_loop, woken, handle_events, handle_event, new_client, client_accepted, register_client,
  client_watched, set_non_blocking, initialize_events,
}
use barehttp.Tcp.{tcp_start_connection, tcp_accept_connection, tcp_recv}
use barehttp.Http.Request.{http_get_content_length, content_length}
use barehttp.CString.Memory.{poke_at}
use barehttp.Server.Clients.{remove_client, add_client}
use barehttp.Server.Epoll.Loop.Events.{IsFresh, Inv}
use barehttp.Server.Epoll.Loop.Invariant.{OutcomeInv, epoll_server-Inv}

-- Every call of `recv` brings five bytes, or as many as there is room for; a client comes, and then the
-- client at the address 1 sends something.
abbrev busy : Os
busy = record sample {
  recv = λ t fd room. ok (take room (codes "hello"));
  epoll_wait = λ t epollfd maxevents. ok (3 ∷ 1 ∷ []);
}

-- A head is eight bytes long.
abbrev eight : Parser
eight = λ buff last_len n.
    if ltb (length buff) 8 then partial else complete 8 (codes "GET", codes "/", 0, [])

abbrev one_client : Clients
one_client = (100, new_client_data 4) ∷ []

one_client-IsDistinct : IsDistinct one_client
unfolding IsDistinct client_at
one_client-IsDistinct = (refl, tt)

one_client-at : client_at one_client 100 ≡ some (new_client_data 4)
unfolding client_at
one_client-at = refl

new-HasRoom : HasRoom (new_client_data 4)
unfolding new_client_data
new-HasRoom = HasRoom-below (new_client_data 4) (omega arith)

client_event-Settled_example :
    Settled 8 one_client 100 (new_client_data 4) (client_event busy eight conf 8 one_client 100 [])
client_event-Settled_example =
    client_event-Settled busy eight conf 8 one_client 100 (new_client_data 4) one_client-IsDistinct
      one_client-at new-HasRoom []

-- An address above all that are in use is not in use.
client_at_above : (cs : Clients) (p : ℕ) → sum (addresses cs) < p → client_at cs p ≡ none
unfolding client_at
client_at_above [] p h = refl
client_at_above ((q, d) ∷ cs) p h = ground (arith, client_at_above cs p (omega (arith, h)))

busy-IsFresh : IsFresh busy
unfolding IsFresh
busy-IsFresh t cs = client_at_above cs _ (omega arith)

no_clients-Inv : Inv []
unfolding IsDistinct client_at
no_clients-Inv = record { distinct = tt; roomy = λ p d e. absurd (cc) }

epoll_server-Inv_example : OutcomeInv (epoll_server busy eight conf 2 [] []).0
epoll_server-Inv_example = epoll_server-Inv busy eight conf 2 [] [] busy-IsFresh no_clients-Inv

-- Eight thousand bytes come at once, of a body of five thousand.
abbrev flooding : Os
flooding = record sample { recv = λ t fd room. ok (65 ∷ replicate 7999 65) }

abbrev reader : ClientData
reader = record (new_client_data 4) {
  state = client_reading_body;
  rq_size = 100;
  body_len = pos 5000;
}

abbrev one_reader : Clients
one_reader = (100, reader) ∷ []

one_reader-at : client_at one_reader 100 ≡ some reader
unfolding client_at
one_reader-at = refl

-- Another client has come in between.
abbrev read_reader : ClientData
read_reader = read_twice reader (65 ∷ replicate 7999 65)

abbrev joined_reader : Clients
joined_reader = (200, new_client_data 5) ∷ (100, read_reader) ∷ []

joined_reader-at : client_at joined_reader 100 ≡ some read_reader
unfolding client_at
joined_reader-at = refl

client_event-overflow_example :
    let cs = update_client one_reader 100 read_reader in
    ((client_event flooding eight conf 8 one_reader 100 []).0 ≡ go cs)
    × (client_at cs 100 ≡ some read_reader)
    × ((client_event flooding eight conf 8 joined_reader 100 []).0 ≡ fault)
client_event-overflow_example =
    client_event-overflow flooding eight conf 8 one_reader 100 reader one_reader-at refl 5000 65
      (replicate 7999 65) [] [] joined_reader refl refl (omega arith)
      (omega (arith, length-replicate {A = ℕ} 7999 65))
      (omega (arith, length-replicate {A = ℕ} 7999 65)) joined_reader-at

epoll_server_confined_example : AllConfined conf (epoll_server busy eight conf 2 [] []).1
unfolding AllAsked opens
epoll_server_confined_example = epoll_server_confined busy eight conf 2 [] [] tt

abbrev sent : ClientData
sent = new_client_data 4

sent-array : length sent.rq ≡ 8192
unfolding new_client_data
sent-array = length-replicate {A = ℕ} 8192 0

client_event-GrownNext_example :
    GrownNext eight
      (new_client_data 4)
      (codes "hello")
      100
      (client_event busy eight conf 8 one_client 100 []).0
unfolding new_client_data codes
client_event-GrownNext_example =
    client_event-GrownNext busy eight conf 8 one_client 100 sent (codes "hello")
      one_client-IsDistinct one_client-at refl sent-array (omega arith) [] refl

abbrev addresses_of : Outcome → List ℕ
addresses_of (running cs) = addresses cs
addresses_of _ = []

-- In the second round the first client has sent its head and goes, and a second one has come.
two_rounds : addresses_of (epoll_server busy eight conf 2 [] []).0 ≡ 2 ∷ []
unfolding epoll_server with_socket epoll_made socket_watched wait_loop woken handle_events
    handle_event new_client client_accepted register_client client_watched client_event serve_client
    client_received by_state read_headers headers_parsed headers_partial headers_done
    respond_headers is_too_long new_client_data client_at update_client remove_client add_client
    set_non_blocking initialize_events tcp_start_connection tcp_accept_connection tcp_recv
    http_parse_request http_get_content_length content_length poke_at codes to_int
two_rounds = refl

-- A Content-Length that overflows with what has been read is not too long.
huge_length : is_too_long (pos 2147483647) 100 ≡ false
unfolding is_too_long to_int
huge_length = refl

-- ===== src/Server/Epoll/Files.antt =====
-- src/server.c: which files are asked for when a client of `epoll_server` sends something.
pub mod Rounds
use barehttp.Base.{
  ℕ, zero, suc, ◌+◌, ◌-◌, ◌%◌, ◌^◌, ◌≡◌, refl, arith, Bool-cases, Bool, true, false, inl, inr, ◌==◌,
  ltb, leb, List, [], ◌∷◌, Option, none, some, if◌then◌else◌, ℤ, pos, negsuc, eq_ℤ, ◌∙◌,
}
use barehttp.CString.{Bytes}
use barehttp.Os.{Os, Trace, Result, polled, watched, made_epoll, ok, err, eagain}
use barehttp.Os.Traces.{opens}
use barehttp.Http.{HttpRequest, ServerConf, max_buffr}
use barehttp.Http.Request.{http_get_content_length}
use barehttp.Http.Handlers.{http_process_request}
use barehttp.Http.Handlers.Asked.{
  AllAsked, IsConfined, AllConfined, AllAsked-of_eq, http_process_request_confined,
}
use barehttp.Logs.File.{logs_destroy}
use barehttp.Tcp.{tcp_recv, tcp_start_connection, tcp_accept_connection}
use barehttp.Server.Worker.{Parser, Parse, invalid, partial, complete}
use barehttp.Server.Clients.{
  ClientState, client_reading_headers, client_reading_body, client_sending_response, ClientData,
  Clients, client_at, free_clients,
}
use barehttp.Server.Epoll.Client.{
  Next, go, stop, fault, is_too_long, has_body, drop_client, respond_headers, respond_body,
  headers_done, headers_partial, headers_parsed, read_headers, body_bytes, read_more, by_state,
  client_received, serve_client, client_event,
}
use barehttp.Server.Epoll.Loop.{
  default_max_clients, Outcome, set_non_blocking, initialize_events, free_server_conf, quit_early,
  quit_no_epoll, release_all, quit_accept, quit_add, client_watched, register_client,
  client_accepted, new_client, handle_event, and_then, handle_events, round_done, woken, wait_loop,
  socket_watched, epoll_made, with_socket, epoll_server,
}

-- A call from the trace `t` on, with what it returns and the trace after it.
abbrev pub Kept : ServerConf → {A : Type 0} → Trace → A × Trace → Type 0
Kept sc t r = AllConfined sc t → AllConfined sc r.1

module _ (os : Os) (phr : Parser) (sc : ServerConf) where
  module _ (epollfd : ℕ) (clients : Clients) (client : ℕ) where
    headers_done-Kept :
        (d : ClientData) (t : Trace) → Kept sc t (headers_done os phr sc epollfd clients client d t)
    unfolding headers_done drop_client respond_headers AllAsked opens
    headers_done-Kept d t h =
        elim (Bool-cases (is_too_long (http_get_content_length d.http_rq) d.rq_size)) [
          | inl p ↦ rw p h
          | inr p ↦ elim (Bool-cases (eq_ℤ (http_get_content_length d.http_rq) (pos 0))) [
            | inl q ↦ rw (p, q) (http_process_request_confined os d.http_rq d.fd sc t h)
            | inr q ↦ rw (p, q) h
          ]
        ]

    headers_parsed-Kept :
        (d : ClientData) (r : Parse HttpRequest) (t : Trace)
        → Kept sc t (headers_parsed os phr sc epollfd clients client d r t)
    unfolding headers_parsed headers_partial drop_client AllAsked opens
    headers_parsed-Kept d invalid t h = h
    headers_parsed-Kept d partial t h = elim (Bool-cases (leb max_buffr d.rq_size)) [
      | inl p ↦ rw p h
      | inr p ↦ rw p h
    ]
    headers_parsed-Kept d (complete size request) t h = headers_done-Kept _ t h

    read_more-Kept :
        (d : ClientData) (n : ℕ) (t : Trace)
        → Kept sc t (read_more os phr sc epollfd clients client d n t)
    unfolding read_more respond_body body_bytes drop_client AllAsked opens
    read_more-Kept d n t h = elim (Bool-cases (has_body d.body_len (d.rq_size + n))) [
      | inl p ↦ rw p (http_process_request_confined os _ d.fd sc t h)
      | inr p ↦ rw p h
    ]

    by_state-Kept :
        (s : ClientState) (d : ClientData) (n : ℕ) (t : Trace)
        → Kept sc t (by_state os phr sc epollfd s clients client d n t)
    unfolding by_state read_headers
    by_state-Kept client_reading_headers d n t h = headers_parsed-Kept _ _ t h
    by_state-Kept client_reading_body d n t h = read_more-Kept d n t h
    by_state-Kept client_sending_response d n t h = h

    client_received-Kept :
        (d : ClientData) (r : Result Bytes) (t : Trace)
        → Kept sc t (client_received os phr sc epollfd clients client d r t)
    unfolding client_received drop_client AllAsked opens
    client_received-Kept d (ok []) t h = h
    client_received-Kept d (ok (b ∷ bs)) t h = by_state-Kept d.state _ _ t h
    client_received-Kept d (err e) t h = elim (Bool-cases (e == eagain)) [
      | inl p ↦ rw p h
      | inr p ↦ rw p h
    ]

    pub serve_client-Kept :
        (d : Option ClientData) (t : Trace)
        → Kept sc t (serve_client os phr sc epollfd clients client d t)
    unfolding serve_client tcp_recv AllAsked opens
    serve_client-Kept none t h = h
    serve_client-Kept (some d) t h = elim (Bool-cases (ltb max_buffr d.rq_size)) [
      | inl p ↦ rw p h
      | inr p ↦ rw p (client_received-Kept d _ _ h)
    ]

-- ===== src/Server/Epoll/Client.antt =====
-- src/server.c: the part of `epoll_server` that serves a client whose descriptor is ready: it reads
-- once, and goes on by the state of the client.
pub mod Frame
pub mod Open
pub mod Progress
pub mod Overflow
pub mod Buffer
use barehttp.Base.{
  ℕ, ◌+◌, ◌-◌, Bool, true, false, List, [], ◌∷◌, ◌++◌, Option, none, some, ◌==◌, leb, ltb,
  if◌then◌else◌, ℤ, pos, negsuc, eq_ℤ, length, take, drop,
}
use barehttp.CString.{Bytes, to_int}
use barehttp.CString.Memory.{poke_at}
use barehttp.Os.{Os, M, pure, call, ◌>>=◌, ◌>>◌, Result, ok, err, unwatched, eagain}
use barehttp.Tcp.{close, tcp_recv}
use barehttp.Http.{HttpRequest, ServerConf, max_buffr}
use barehttp.Http.Request.{http_get_content_length, http_add_body}
use barehttp.Http.Handlers.{http_process_request}
use barehttp.Server.Worker.{Parser, Parse, invalid, partial, complete, http_parse_request}
use barehttp.Server.Clients.{
  ClientState, client_reading_headers, client_reading_body, client_sending_response, ClientData,
  Clients, client_at, update_client, remove_client,
}

-- How the work on an event ends: the loop goes on with these clients, `epoll_server` returns, or the
-- program does what C leaves undefined.
pub data Next : Type 0 where
  go : Clients → Next
  stop : ℤ → Next
  fault : Next

-- A sum of two values of type `int`, as the machine wraps it, against a bound.
abbrev at_least : ℤ → ℕ → Bool
at_least (pos n) m = leb m n
at_least (negsuc _) m = false

abbrev at_least_negsuc : ℤ → ℕ → Bool
at_least_negsuc (pos _) b = true
at_least_negsuc (negsuc n) b = leb n b

-- `cd->body_len + cd->rq_size >= MAX_BUFFR`.
unfoldable pub is_too_long : ℤ → ℕ → Bool
is_too_long (pos b) rq_size = at_least (to_int (b + rq_size)) max_buffr
is_too_long (negsuc b) rq_size = leb (max_buffr + (b + 1)) rq_size

-- `cd->rq_size - cd->body_len >= cd->body_len`.
unfoldable pub has_body : ℤ → ℕ → Bool
has_body (pos b) rq_size = leb (b + b) rq_size
has_body (negsuc b) rq_size = at_least_negsuc (to_int (rq_size + (b + 1))) b

-- The client after `recv` wrote behind the bytes of `rq`.
abbrev pub fill : ClientData → Bytes → ClientData
fill cd bs = record cd { rq = poke_at cd.rq cd.rq_size bs }

module _ (os : Os) (phr_parse_request : Parser) (sc : ServerConf) (epollfd : ℕ) where
  -- `epoll_ctl (epollfd, EPOLL_CTL_DEL, fd, NULL)`, whose result is not read.
  abbrev unwatch : ℕ → M (Result (Unit {0}))
  unwatch fd = call (λ t. os.epoll_del t epollfd fd) (unwatched epollfd fd)

  -- The client goes; the list changes in between or at the end.
  unfoldable pub drop_client : Clients → ℕ → ℕ → M Next
  drop_client clients client fd = do
    close os fd
    unwatch fd
    pure (go (remove_client clients client))

  -- The request is processed and the client goes, in the two orders of the code.
  unfoldable pub respond_headers : Clients → ℕ → ClientData → M Next
  respond_headers clients client cd = do
    http_process_request os cd.http_rq cd.fd sc
    unwatch cd.fd
    close os cd.fd
    pure (go (remove_client clients client))

  unfoldable pub respond_body : Clients → ℕ → ClientData → HttpRequest → M Next
  respond_body clients client cd request = do
    http_process_request os request cd.fd sc
    drop_client clients client cd.fd

  -- The head of the request is complete.
  unfoldable pub headers_done : Clients → ℕ → ClientData → M Next
  headers_done clients client cd =
      let body_len = http_get_content_length cd.http_rq in
      let cd' = record cd { body_len = body_len } in
      if is_too_long body_len cd.rq_size
      then drop_client clients client cd.fd
      else (if eq_ℤ body_len (pos 0)
          then respond_headers clients client cd'
          else pure
              (go (update_client clients client (record cd' { state = client_reading_body }))))

  -- The head of the request is not complete.
  unfoldable pub headers_partial : Clients → ℕ → ClientData → M Next
  headers_partial clients client cd =
      if leb max_buffr cd.rq_size
      then drop_client clients client cd.fd
      else pure (go (update_client clients client cd))

  unfoldable pub headers_parsed : Clients → ℕ → ClientData → Parse HttpRequest → M Next
  headers_parsed clients client cd invalid = drop_client clients client cd.fd
  headers_parsed clients client cd partial = headers_partial clients client cd
  headers_parsed clients client cd (complete size request) =
      headers_done clients client (record cd { http_rq = request })

  -- `n` bytes came for a client in CLIENT_READING_HEADERS, and stand in `rq`.
  unfoldable pub read_headers : Clients → ℕ → ClientData → ℕ → M Next
  read_headers clients client cd n =
      let cd' = record cd { last_len = cd.rq_size; rq_size = cd.rq_size + n } in
      headers_parsed clients client cd'
        (http_parse_request phr_parse_request (take cd'.rq_size cd'.rq) cd'.last_len)

  -- The bytes that `http_add_body` is given: `rq_size - header_len` from `rq + rq_size` on, where
  -- `header_len` is never set. They stand behind the bytes read, and behind the array.
  unfoldable pub body_bytes : ClientData → ℕ → M Bytes
  body_bytes cd client t =
      (take (cd.rq_size - cd.header_len) (drop cd.rq_size (cd.rq ++ os.behind t client)), t)

  -- `n` bytes came for a client in CLIENT_READING_BODY.
  unfoldable pub read_more : Clients → ℕ → ClientData → ℕ → M Next
  read_more clients client cd n =
      let cd' = record cd { rq_size = cd.rq_size + n } in
      if has_body cd.body_len cd'.rq_size
      then (do
        body ← body_bytes cd' client
        respond_body clients client cd' (http_add_body cd'.http_rq body))
      else pure (go (update_client clients client (record cd' { rq_size = cd'.rq_size + n })))

  unfoldable pub by_state : ClientState → Clients → ℕ → ClientData → ℕ → M Next
  by_state client_reading_headers clients client cd n = read_headers clients client cd n
  by_state client_reading_body clients client cd n = read_more clients client cd n
  by_state client_sending_response clients client cd n = pure (go (update_client clients client cd))

  -- What follows `tcp_recv`.
  unfoldable pub client_received : Clients → ℕ → ClientData → Result Bytes → M Next
  client_received clients client cd (ok []) = drop_client clients client cd.fd
  client_received clients client cd (ok (b ∷ bs)) =
      by_state cd.state clients client (fill cd (b ∷ bs)) (length (b ∷ bs))
  client_received clients client cd (err e) =
      if e == eagain then pure (go clients) else drop_client clients client cd.fd

  -- The structure that `events[i].data.ptr` leads to. Where `rq_size` is past the array the length that
  -- `recv` is given is negative, so as a `size_t` it is larger than any memory.
  unfoldable pub serve_client : Clients → ℕ → Option ClientData → M Next
  serve_client clients client none = pure fault
  serve_client clients client (some cd) =
      if ltb max_buffr cd.rq_size
      then pure fault
      else (do r ← tcp_recv os cd.fd (max_buffr - cd.rq_size); client_received clients client cd r)

  unfoldable pub client_event : Clients → ℕ → M Next
  client_event clients client = serve_client clients client (client_at clients client)

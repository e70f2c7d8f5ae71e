-- ===== src/Server/Worker.antt =====
-- src/server.c: `thread_function`, what a thread of the pool does with the connections that it takes
-- out of the queue, and `http_parse_request` of srclib/http.c, by which it reads them. The parser of
-- srclib/picohttpparser.c is a parameter.
pub mod Buffer
pub mod Release
pub mod Files
pub mod Bounds
pub mod Body
pub mod Enough
pub mod Leaks
use barehttp.Base.{
  ℕ, zero, suc, ◌+◌, ◌-◌, ◌≡◌, ◌≤◌, Bool, true, false, List, [], ◌∷◌, ◌++◌, Option, none, some,
  ◌==◌, ltb, if◌then◌else◌, ℤ, pos, negsuc, is_neg, length, drop,
}
use barehttp.CString.{Bytes, codes}
use barehttp.CString.Format.{decimal}
use barehttp.CString.Memory.{c_str}
use barehttp.Os.{Os, Trace, M, pure, note, ◌>>=◌, ◌>>◌, Result, ok, err, entered, left, eagain}
use barehttp.Tcp.{tcp_recv, tcp_shutdown}
use barehttp.Logs.{LogType, log_error, log_warning, log_info, logs_print, get_client_ip_port}
use barehttp.Http.{
  Header, HttpRequest, ServerConf, http_bad_request, http_internal_error, max_buffr, max_headers,
}
use barehttp.Http.Request.{http_get_content_length, http_add_body}
use barehttp.Http.Response.{http_send_error}
use barehttp.Http.Handlers.{http_process_request}

-- What the parser answers: -1, -2, or the length of the request's head, with what stands in it.
pub data Parse (A : Type 0) : Type 0 where
  invalid : Parse A
  partial : Parse A
  complete : (size : ℕ) → A → Parse A

-- The method, the URL, the version and the headers.
abbrev pub Fields : Type 0
Fields = Bytes × Bytes × ℕ × List Header

-- `phr_parse_request`: the bytes so far, how many there were at the last call, and how many headers
-- there is room for.
abbrev pub Parser : Type 0
Parser = Bytes → ℕ → ℕ → Parse Fields

-- The body is set by `http_add_body` before anything reads it.
abbrev pub to_request : Parse Fields → Parse HttpRequest
to_request invalid = invalid
to_request partial = partial
to_request (complete size (method, url, version, headers)) =
    complete size
      (record { method = method; url = url; version = version; headers = headers; body = [] })

-- The parser reads `num_headers`, an `int`, as a `size_t`. What it makes of the four bytes behind it is
-- part of the parameter, which may be any function of `buff` and `last_len`.
unfoldable pub http_parse_request : Parser → Bytes → ℕ → Parse HttpRequest
http_parse_request phr_parse_request buff last_len =
    to_request (phr_parse_request buff last_len max_headers)

-- The two comparisons of `expected_len`, an `int` that may be negative, with the lengths put on the
-- other side.
abbrev pub exceeds : ℤ → ℕ → Bool
exceeds (pos n) header_size = ltb max_buffr (n + header_size)
exceeds (negsuc n) header_size = false

abbrev pub is_short : Bytes → ℕ → ℤ → Bool
is_short buff header_size (pos n) = ltb (length buff) (n + header_size)
is_short buff header_size (negsuc n) = false

-- The first `buff_len` bytes of `buff` when the head is read, and the length of the head with the
-- request; `none` where the connection is to be closed.
abbrev pub Head : Type 0
Head = Bytes × Option (ℕ × HttpRequest)

module _ (os : Os) (phr_parse_request : Parser) (clientfd : ℕ) where
  -- What `%d` prints for a pointer.
  abbrev number : M Bytes
  number t = (c_str (os.garbage t), t)

  unfoldable pub refuse_head : Bytes → M Head
  refuse_head buff = do
    client ← number
    logs_print os log_warning (codes "Invalid or too long petition. Client " ++ client)
    http_send_error os clientfd http_bad_request
    pure (buff, none)

  -- What follows `http_parse_request`; `again` is the next round.
  unfoldable pub head_parsed : M Head → Bytes → Parse HttpRequest → M Head
  head_parsed again buff invalid = refuse_head buff
  head_parsed again buff partial =
      let refused = refuse_head buff in if length buff == max_buffr then refused else again
  head_parsed again buff (complete size request) = pure (buff, some (size, request))

  -- What follows `tcp_recv`.
  unfoldable pub head_received : (Bytes → M Head) → Bytes → Result Bytes → M Head
  head_received again buff (ok []) = do
    client ← number
    logs_print os log_info (codes "Client " ++ (client ++ codes " closed connection"))
    pure (buff, none)
  head_received again buff (ok (b ∷ bs)) =
      let buff' : Bytes = buff ++ (b ∷ bs) in
      head_parsed (again buff') buff' (http_parse_request phr_parse_request buff' (length buff))
  head_received again buff (err e) =
      if e == eagain
      then (do
        logs_print os log_info
            (codes "Connection " ++ (decimal clientfd ++ codes " closed by timeout"))
        pure (buff, none))
      else (do
        client ← number
        logs_print os log_error
            (codes "TCP error on client " ++ (client ++ (codes ": " ++ os.strerror e)))
        http_send_error os clientfd http_internal_error
        pure (buff, none))

  -- The loop that reads the head. A round that goes on reads a byte at least and leaves room, so one
  -- round more than `buff` has bytes is enough.
  unfoldable pub read_head : ℕ → Bytes → M Head
  read_head zero buff = pure (buff, none)
  read_head (suc fuel) buff = do
    bytes_read ← tcp_recv os clientfd (max_buffr - length buff)
    head_received (read_head fuel) buff bytes_read

  -- What follows `tcp_recv` in the loop that reads the body; the test is `open_con`.
  unfoldable pub body_received :
      (Bytes → M (Bytes × Bool)) → Bytes → Bytes → Result Bytes → M (Bytes × Bool)
  body_received again ip buff (ok []) = do
    logs_print os log_info (codes "Client " ++ (ip ++ codes " closed connection"))
    pure (buff, false)
  body_received again ip buff (ok (b ∷ bs)) = again (buff ++ (b ∷ bs))
  body_received again ip buff (err e) = do
    logs_print os log_error (codes "TCP error on client " ++ (ip ++ (codes ": " ++ os.strerror e)))
    http_send_error os clientfd http_internal_error
    pure (buff, false)

  -- The loop that reads the body. A round that goes on reads a byte at least.
  unfoldable pub read_body : ℕ → Bytes → ℕ → ℤ → Bytes → M (Bytes × Bool)
  read_body zero ip header_size expected_len buff = pure (buff, false)
  read_body (suc fuel) ip header_size expected_len buff =
      if is_short buff header_size expected_len
      then (do
        bytes_read ← tcp_recv os clientfd (max_buffr - length buff)
        body_received (read_body fuel ip header_size expected_len) ip buff bytes_read)
      else pure (buff, true)

  -- From `header_size` to the test of `open_con`.
  unfoldable pub complete_body : Bytes → ℕ → HttpRequest → Bytes → M (Bytes × Bool)
  complete_body ip header_size request buff =
      let expected_len = http_get_content_length request in
      if exceeds expected_len header_size
      then (do http_send_error os clientfd http_bad_request; pure (buff, false))
      else read_body (suc max_buffr) ip header_size expected_len buff

  -- From `http_add_body` on.
  unfoldable pub answer : ℕ → ServerConf → ℕ → HttpRequest → Bytes → M Bytes
  answer id sc header_size request buff = do
    ret ← http_process_request os (http_add_body request (drop header_size buff)) clientfd sc
    if is_neg ret
        then (do
          logs_print os log_error (codes "Error processing HTTP request.")
          http_send_error os clientfd http_internal_error
          tcp_shutdown os clientfd
          note (left id)
          pure buff)
        else (do
          note (left id)
          tcp_shutdown os clientfd
          logs_print os log_info (codes "Closing connection " ++ decimal clientfd)
          pure [])

  -- From the second test of `open_con` on.
  unfoldable pub body_done : ℕ → ServerConf → ℕ → HttpRequest → Bytes × Bool → M Bytes
  body_done id sc header_size request (buff, true) = answer id sc header_size request buff
  body_done id sc header_size request (buff, false) = do
    tcp_shutdown os clientfd
    note (left id)
    pure buff

  -- From the first test of `open_con` on.
  unfoldable pub head_done : ℕ → ServerConf → Bytes → Head → M Bytes
  head_done id sc ip (buff, none) = do note (left id); tcp_shutdown os clientfd; pure buff
  head_done id sc ip (buff, some (header_size, request)) = do
    body ← complete_body ip header_size request buff
    body_done id sc header_size request body

  -- From `queue_add_active_fd` to the loop; the result is `ip_port_str`.
  unfoldable pub begin : ℕ → M Bytes
  begin id = do
    note (entered clientfd id)
    ip ← get_client_ip_port os clientfd
    logs_print os log_info (
        codes "Connection accepted by thread "
        ++ (decimal id
            ++ (codes " - descriptor " ++ (decimal clientfd ++ (codes " - client " ++ ip)))))
    pure ip

  -- One round of the loop, for the connection that `queue_pop` returned: from and to what stands in
  -- `buff`.
  unfoldable pub serve : ℕ → ServerConf → Bytes → M Bytes
  serve id sc buff = do
    ip ← begin id
    head ← read_head (suc max_buffr) buff
    head_done id sc ip head

-- The loop, over the connections that the thread takes until SIGINT. The trace holds the calls of this
-- thread; those of the threads beside it show in what the system answers only.
unfoldable pub thread_function : Os → Parser → ℕ → ServerConf → List ℕ → Bytes → M Bytes
thread_function os phr_parse_request id sc [] buff = pure buff
thread_function os phr_parse_request id sc (clientfd ∷ fds) buff = do
  buff ← serve os phr_parse_request clientfd id sc buff
  thread_function os phr_parse_request id sc fds buff

-- ===== src/Server/Worker/Bounds.antt =====
-- The loops of `thread_function` in src/server.c that read a connection: the rounds that they need,
-- and what they do with a buffer that is full from the start.
use barehttp.Base.{
  ℕ, zero, suc, ◌+◌, ◌-◌, ◌≡◌, ◌≤◌, ◌<◌, refl, arith, List, [], ◌∷◌, ◌++◌, none, length,
  length-append, ap, ◌∙◌,
}
use barehttp.CString.{Bytes}
use barehttp.Os.{Os, Trace, Result, ok, err, M}
use barehttp.Os.Traces.{opens}
use barehttp.Tcp.{tcp_recv}
use barehttp.Tcp.Laws.{opens-tcp_shutdown}
use barehttp.Logs.Laws.{opens-logs_print, opens-get_client_ip_port}
use barehttp.Http.{HttpRequest, ServerConf, max_buffr}
use barehttp.Http.Response.ErrorPage.{opens-http_send_error}
use barehttp.Server.Worker.{
  Head, Parser, Parse, invalid, partial, complete, head_parsed, head_received, read_head, head_done,
  begin, serve, thread_function,
}
use barehttp.Server.Worker.Buffer.{RecvIsBounded, Fits, tcp_recv-Fits}

module _ (os : Os) (phr_parse_request : Parser) (fd : ℕ) where
  head_parsed-eq :
      (again again' : M Head) (buff : Bytes) (p : Parse HttpRequest) (t : Trace)
      → again t ≡ again' t
      → head_parsed os phr_parse_request fd again buff p t
        ≡ head_parsed os phr_parse_request fd again' buff p t
  unfolding head_parsed
  head_parsed-eq again again' buff invalid t h = refl
  head_parsed-eq again again' buff partial t h = ground arith
  head_parsed-eq again again' buff (complete size r) t h = refl

  head_received-eq :
      (again again' : Bytes → M Head) (buff : Bytes) (r : Result Bytes) (t : Trace)
      → Fits buff r
      → ((c : ℕ) (x : Bytes)
          → length (c ∷ x) ≤ max_buffr - length buff
          → again (buff ++ (c ∷ x)) t ≡ again' (buff ++ (c ∷ x)) t)
      → head_received os phr_parse_request fd again buff r t
        ≡ head_received os phr_parse_request fd again' buff r t
  unfolding head_received
  head_received-eq again again' buff (ok []) t f h = refl
  head_received-eq again again' buff (ok (c ∷ x)) t f h =
      head_parsed-eq (again (buff ++ (c ∷ x))) (again' (buff ++ (c ∷ x))) (buff ++ (c ∷ x)) _ t
        (h c x f)
  head_received-eq again again' buff (err e) t f h = refl

  -- Where `recv` hands over no more than it is asked for, one round for each free byte of the buffer
  -- and one more are enough to read a head: any two numbers of rounds that reach that far give the
  -- same result and the same calls.
  pub read_head-enough :
      (fuel fuel' : ℕ) (buff : Bytes) (t : Trace)
      → RecvIsBounded os
      → length buff ≤ max_buffr
      → max_buffr < length buff + fuel
      → max_buffr < length buff + fuel'
      → read_head os phr_parse_request fd fuel buff t
        ≡ read_head os phr_parse_request fd fuel' buff t
  unfolding read_head
  read_head-enough zero fuel' buff t b l h k = absurd (omega arith)
  read_head-enough (suc fuel) zero buff t b l h k = absurd (omega arith)
  read_head-enough (suc fuel) (suc fuel') buff t b l h k =
      let r = tcp_recv os fd (max_buffr - length buff) t in
      head_received-eq (read_head os phr_parse_request fd fuel)
        (read_head os phr_parse_request fd fuel') buff r.0 r.1
        (tcp_recv-Fits os phr_parse_request fd buff t b)
        (λ c x f.
          let n : length (buff ++ (c ∷ x)) ≡ length buff + length (c ∷ x) =
            length-append buff (c ∷ x) in
          read_head-enough fuel fuel' (buff ++ (c ∷ x)) r.1 b (omega arith) (omega arith)
            (omega arith))

  -- A full buffer with no head in it.
  head_received-full :
      (again : Bytes → M Head) (buff : Bytes) (r : Result Bytes) (t : Trace)
      → length buff ≡ max_buffr
      → Fits buff r
      → let h = head_received os phr_parse_request fd again buff r t in
        (h.0 ≡ (buff, none)) × (opens h.1 ≡ opens t)
  unfolding head_received
  head_received-full again buff (ok []) t l f = (refl, opens-logs_print os _ _ t)
  head_received-full again buff (ok (c ∷ x)) t l f = absurd (omega arith)
  head_received-full again buff (err e) t l f =
      grind (arith, opens-logs_print, opens-http_send_error)

  opens-begin : (id : ℕ) (t : Trace) → opens (begin os phr_parse_request fd id t).1 ≡ opens t
  unfolding begin opens
  opens-begin id t = grind (arith, opens-logs_print, opens-get_client_ip_port)

  opens-tcp_recv : (room : ℕ) (t : Trace) → opens (tcp_recv os fd room t).1 ≡ opens t
  unfolding tcp_recv opens
  opens-tcp_recv room t = refl

  head_done-none :
      (id : ℕ) (sc : ServerConf) (ip buff : Bytes) (t : Trace)
      → let r = head_done os phr_parse_request fd id sc ip (buff, none) t in
        (r.0 ≡ buff) × (opens r.1 ≡ opens t)
  unfolding head_done opens
  head_done-none id sc ip buff t = grind (arith, opens-tcp_shutdown)

  read_head-full :
      (fuel : ℕ) (buff : Bytes) (t : Trace)
      → RecvIsBounded os
      → length buff ≡ max_buffr
      → let h = read_head os phr_parse_request fd (suc fuel) buff t in
        (h.0 ≡ (buff, none)) × (opens h.1 ≡ opens t)
  unfolding read_head
  read_head-full fuel buff t b l =
      let r = tcp_recv os fd (max_buffr - length buff) t in
      let (e, o) =
        head_received-full (read_head os phr_parse_request fd fuel) buff r.0 r.1 l
          (tcp_recv-Fits os phr_parse_request fd buff t b) in
      (e, o ∙ opens-tcp_recv (max_buffr - length buff) t)

  serve-full :
      (id : ℕ) (sc : ServerConf) (buff : Bytes) (t : Trace)
      → RecvIsBounded os
      → length buff ≡ max_buffr
      → let r = serve os phr_parse_request fd id sc buff t in (r.0 ≡ buff) × (opens r.1 ≡ opens t)
  unfolding serve
  serve-full id sc buff t b l =
      let begun = begin os phr_parse_request fd id t in
      let h = read_head os phr_parse_request fd (suc max_buffr) buff begun.1 in
      let (e, o) = read_head-full max_buffr buff begun.1 b l in
      let (f, p) = head_done-none id sc begun.0 buff h.1 in rw e (f, p ∙ o ∙ opens-begin id t)

-- Where `recv` hands over no more than it is asked for, a thread whose buffer is full when it takes
-- the next connection leaves it as it is through any connections after that, and asks for no file.
pub thread_function-full :
    (os : Os) (phr_parse_request : Parser) (id : ℕ) (sc : ServerConf) (fds : List ℕ) (buff : Bytes)
    (t : Trace)
    → RecvIsBounded os
    → length buff ≡ max_buffr
    → let r = thread_function os phr_parse_request id sc fds buff t in
      (r.0 ≡ buff) × (opens r.1 ≡ opens t)
unfolding thread_function
thread_function-full os phr id sc [] buff t b l = (refl, refl)
thread_function-full os phr id sc (fd ∷ fds) buff t b l =
    let r = serve os phr fd id sc buff t in
    let (e, o) = serve-full os phr fd id sc buff t b l in
    let (f, p) = thread_function-full os phr id sc fds r.0 r.1 b (ap length e ∙ l) in (f ∙ e, p ∙ o)

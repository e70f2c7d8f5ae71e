-- ===== src/Server/Worker/Files.antt =====
-- src/server.c: which files are asked for while a thread of the pool works.
use barehttp.Base.{
  ℕ, zero, suc, ◌≡◌, refl, arith, Bool-cases, Bool, true, false, inl, inr, ◌==◌, List, [], ◌∷◌,
  none, some, ℤ, is_neg, length, drop, ◌∙◌,
}
use barehttp.CString.{Bytes}
use barehttp.Os.{Os, Trace, Result, ok, err, left}
use barehttp.Os.Traces.{opens}
use barehttp.Http.{HttpRequest, ServerConf, max_buffr}
use barehttp.Http.Request.{http_get_content_length, http_add_body}
use barehttp.Http.Handlers.{http_process_request}
use barehttp.Http.Handlers.Asked.{
  IsConfined, AllConfined, AllAsked-of_eq, http_process_request_confined,
}
use barehttp.Http.Response.ErrorPage.{opens-http_send_error}
use barehttp.Logs.Laws.{opens-logs_print, opens-get_client_ip_port}
use barehttp.Tcp.{tcp_recv}
use barehttp.Tcp.Laws.{opens-tcp_shutdown}
use barehttp.Server.Worker.{
  Parser, Parse, invalid, partial, complete, Head, exceeds, is_short, refuse_head, head_parsed,
  head_received, read_head, body_received, read_body, complete_body, answer, body_done, head_done,
  begin, serve, thread_function,
}

module _ (os : Os) (phr : Parser) (fd : ℕ) where
  opens-refuse_head : (buff : Bytes) (t : Trace) → opens (refuse_head os phr fd buff t).1 ≡ opens t
  unfolding refuse_head
  opens-refuse_head buff t = grind (arith, opens-logs_print, opens-http_send_error)

  opens-head_parsed :
      (again : Trace → Head × Trace) (buff : Bytes) (r : Parse HttpRequest) (t : Trace)
      → ((u : Trace) → opens (again u).1 ≡ opens u)
      → opens (head_parsed os phr fd again buff r t).1 ≡ opens t
  unfolding head_parsed
  opens-head_parsed again buff invalid t h = opens-refuse_head buff t
  opens-head_parsed again buff partial t h = elim (Bool-cases (length buff == max_buffr)) [
    | inl p ↦ rw p (opens-refuse_head buff t)
    | inr p ↦ rw p (h t)
  ]
  opens-head_parsed again buff (complete size request) t h = refl

  opens-head_received :
      (again : Bytes → Trace → Head × Trace) (buff : Bytes) (r : Result Bytes) (t : Trace)
      → ((b : Bytes) (u : Trace) → opens (again b u).1 ≡ opens u)
      → opens (head_received os phr fd again buff r t).1 ≡ opens t
  unfolding head_received
  opens-head_received again buff (ok []) t h = opens-logs_print os _ _ t
  opens-head_received again buff (ok (b ∷ bs)) t h = opens-head_parsed _ _ _ t (λ u. h _ u)
  opens-head_received again buff (err e) t h =
      grind (arith, opens-logs_print, opens-http_send_error)

  opens-read_head :
      (fuel : ℕ) (buff : Bytes) (t : Trace) → opens (read_head os phr fd fuel buff t).1 ≡ opens t
  unfolding read_head tcp_recv opens
  opens-read_head zero buff t = refl
  opens-read_head (suc fuel) buff t =
      opens-head_received _ buff _ _ (λ b u. opens-read_head fuel b u)

  opens-body_received :
      (again : Bytes → Trace → (Bytes × Bool) × Trace) (ip buff : Bytes) (r : Result Bytes)
      (t : Trace)
      → ((b : Bytes) (u : Trace) → opens (again b u).1 ≡ opens u)
      → opens (body_received os phr fd again ip buff r t).1 ≡ opens t
  unfolding body_received
  opens-body_received again ip buff (ok []) t h = opens-logs_print os _ _ t
  opens-body_received again ip buff (ok (b ∷ bs)) t h = h _ t
  opens-body_received again ip buff (err e) t h =
      grind (arith, opens-logs_print, opens-http_send_error)

  opens-read_body :
      (fuel : ℕ) (ip : Bytes) (size : ℕ) (expected : ℤ) (buff : Bytes) (t : Trace)
      → opens (read_body os phr fd fuel ip size expected buff t).1 ≡ opens t
  unfolding read_body tcp_recv opens
  opens-read_body zero ip size expected buff t = refl
  opens-read_body (suc fuel) ip size expected buff t =
      elim (Bool-cases (is_short buff size expected)) [
        | inl p ↦
            rw p
              (opens-body_received _ ip buff _ _ (λ b u. opens-read_body fuel ip size expected b u))
        | inr p ↦ rw p refl
      ]

  opens-complete_body :
      (ip : Bytes) (size : ℕ) (request : HttpRequest) (buff : Bytes) (t : Trace)
      → opens (complete_body os phr fd ip size request buff t).1 ≡ opens t
  unfolding complete_body
  opens-complete_body ip size request buff t =
      elim (Bool-cases (exceeds (http_get_content_length request) size)) [
        | inl p ↦ rw p (opens-http_send_error os fd _ t)
        | inr p ↦ rw p (opens-read_body _ ip size _ buff t)
      ]

  opens-begin : (id : ℕ) (t : Trace) → opens (begin os phr fd id t).1 ≡ opens t
  unfolding begin opens
  opens-begin id t = opens-logs_print os _ _ _ ∙ opens-get_client_ip_port os fd _

  module _ (id : ℕ) (sc : ServerConf) where
    answer_confined :
        (size : ℕ) (request : HttpRequest) (buff : Bytes) (t : Trace)
        → AllConfined sc t
        → AllConfined sc (answer os phr fd id sc size request buff t).1
    unfolding answer opens
    answer_confined size request buff t h =
        let r = http_process_request os (http_add_body request (drop size buff)) fd sc t in
        AllAsked-of_eq (IsConfined sc) r.1 _
          (elim (Bool-cases (is_neg r.0)) [
            | inl p ↦ rw p (
                opens-tcp_shutdown os fd _
                ∙ opens-http_send_error os fd _ _
                ∙ opens-logs_print os _ _ r.1)
            | inr p ↦ rw p (opens-logs_print os _ _ _ ∙ opens-tcp_shutdown os fd _)
          ])
          (http_process_request_confined os (http_add_body request (drop size buff)) fd sc t h)

    body_done_confined :
        (size : ℕ) (request : HttpRequest) (body : Bytes × Bool) (t : Trace)
        → AllConfined sc t
        → AllConfined sc (body_done os phr fd id sc size request body t).1
    unfolding body_done opens
    body_done_confined size request (buff, true) t h = answer_confined size request buff t h
    body_done_confined size request (buff, false) t h =
        AllAsked-of_eq (IsConfined sc) t _ (opens-tcp_shutdown os fd t) h

    head_done_confined :
        (ip : Bytes) (head : Head) (t : Trace)
        → AllConfined sc t
        → AllConfined sc (head_done os phr fd id sc ip head t).1
    unfolding head_done opens
    head_done_confined ip (buff, none) t h =
        AllAsked-of_eq (IsConfined sc) t _ (opens-tcp_shutdown os fd (left id ∷ t)) h
    head_done_confined ip (buff, some (size, request)) t h =
        let body = complete_body os phr fd ip size request buff t in
        body_done_confined size request body.0 body.1
          (AllAsked-of_eq (IsConfined sc) t body.1 (opens-complete_body ip size request buff t) h)

    serve_confined :
        (buff : Bytes) (t : Trace)
        → AllConfined sc t
        → AllConfined sc (serve os phr fd id sc buff t).1
    unfolding serve
    serve_confined buff t h =
        let ip = begin os phr fd id t in
        let head = read_head os phr fd (suc max_buffr) buff ip.1 in
        head_done_confined ip.0 head.0 head.1 (
          AllAsked-of_eq (IsConfined sc) t head.1
            (opens-read_head (suc max_buffr) buff ip.1 ∙ opens-begin id t) h)

-- While a thread of the pool works, whatever connections it takes, whatever they send and whatever
-- URLs the parser finds in it, every file that is asked for is asked for in the root directory, and
-- through no symbolic link and no path that leaves it.
pub thread_function_confined :
    (os : Os) (phr : Parser) (id : ℕ) (sc : ServerConf) (fds : List ℕ) (buff : Bytes) (t : Trace)
    → AllConfined sc t
    → AllConfined sc (thread_function os phr id sc fds buff t).1
unfolding thread_function
thread_function_confined os phr id sc [] buff t h = h
thread_function_confined os phr id sc (fd ∷ fds) buff t h =
    let r = serve os phr fd id sc buff t in
    thread_function_confined os phr id sc fds r.0 r.1 (serve_confined os phr fd id sc buff t h)

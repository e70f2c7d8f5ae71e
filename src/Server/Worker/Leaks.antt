-- ===== src/Server/Worker/Leaks.antt =====
-- src/server.c: which descriptors a thread of the pool leaves open.
use barehttp.Base.{
  ℕ, zero, suc, ◌+◌, ◌≤◌, ◌≡◌, refl, arith, Bool-cases, Bool, true, false, inl, inr, ◌==◌, List, [],
  ◌∷◌, ◌∙◌, none, some, ℤ, if◌then◌else◌, length,
}
use barehttp.CString.{Bytes}
use barehttp.Os.{Os, Trace, Result, ok, err}
use barehttp.Os.Traces.{open_count}
use barehttp.Http.{HttpRequest, ServerConf, max_buffr}
use barehttp.Http.Request.{http_get_content_length}
use barehttp.Http.Leaks.{
  open_count-tcp_shutdown, open_count-http_send_error, http_process_request-Leaks,
}
use barehttp.Logs.Laws.{open_count-logs_print, open_count-get_client_ip_port}
use barehttp.Tcp.{tcp_recv}
use barehttp.Server.Worker.{
  Parser, Parse, invalid, partial, complete, Head, exceeds, is_short, refuse_head, head_parsed,
  head_received, read_head, body_received, read_body, complete_body, answer, body_done, head_done,
  begin, serve, thread_function,
}

-- A descriptor stands open as often as before, or up to `n` times more.
abbrev pub LeaksUpTo : ℕ → ℕ → Trace → Trace → Type 0
LeaksUpTo n g t u = (open_count g t ≤ open_count g u) × (open_count g u ≤ open_count g t + n)

module _ (os : Os) (phr : Parser) (fd g : ℕ) (apart : (fd == g) ≡ false) where
  open_count-refuse_head :
      (buff : Bytes) (t : Trace) → open_count g (refuse_head os phr fd buff t).1 ≡ open_count g t
  unfolding refuse_head
  open_count-refuse_head buff t =
      grind (arith, open_count-logs_print os, open_count-http_send_error os g fd apart)

  open_count-head_parsed :
      (again : Trace → Head × Trace) (buff : Bytes) (r : Parse HttpRequest) (t : Trace)
      → ((u : Trace) → open_count g (again u).1 ≡ open_count g u)
      → open_count g (head_parsed os phr fd again buff r t).1 ≡ open_count g t
  unfolding head_parsed
  open_count-head_parsed again buff invalid t h = open_count-refuse_head buff t
  open_count-head_parsed again buff partial t h = grind (arith, open_count-refuse_head)
  open_count-head_parsed again buff (complete size request) t h = refl

  open_count-head_received :
      (again : Bytes → Trace → Head × Trace) (buff : Bytes) (r : Result Bytes) (t : Trace)
      → ((b : Bytes) (u : Trace) → open_count g (again b u).1 ≡ open_count g u)
      → open_count g (head_received os phr fd again buff r t).1 ≡ open_count g t
  unfolding head_received
  open_count-head_received again buff (ok []) t h = open_count-logs_print os _ _ t g
  open_count-head_received again buff (ok (b ∷ bs)) t h = open_count-head_parsed _ _ _ t (h _)
  open_count-head_received again buff (err e) t h =
      grind (arith, open_count-logs_print os, open_count-http_send_error os g fd apart)

  open_count-read_head :
      (fuel : ℕ) (buff : Bytes) (t : Trace)
      → open_count g (read_head os phr fd fuel buff t).1 ≡ open_count g t
  unfolding read_head tcp_recv open_count
  open_count-read_head zero buff t = refl
  open_count-read_head (suc fuel) buff t =
      open_count-head_received _ buff _ _ (open_count-read_head fuel)

  open_count-body_received :
      (again : Bytes → Trace → (Bytes × Bool) × Trace) (ip buff : Bytes) (r : Result Bytes)
      (t : Trace)
      → ((b : Bytes) (u : Trace) → open_count g (again b u).1 ≡ open_count g u)
      → open_count g (body_received os phr fd again ip buff r t).1 ≡ open_count g t
  unfolding body_received
  open_count-body_received again ip buff (ok []) t h = open_count-logs_print os _ _ t g
  open_count-body_received again ip buff (ok (b ∷ bs)) t h = h _ t
  open_count-body_received again ip buff (err e) t h =
      grind (arith, open_count-logs_print os, open_count-http_send_error os g fd apart)

  open_count-read_body :
      (fuel : ℕ) (ip : Bytes) (size : ℕ) (expected : ℤ) (buff : Bytes) (t : Trace)
      → open_count g (read_body os phr fd fuel ip size expected buff t).1 ≡ open_count g t
  unfolding read_body tcp_recv open_count
  open_count-read_body zero ip size expected buff t = refl
  open_count-read_body (suc fuel) ip size expected buff t =
      elim (Bool-cases (is_short buff size expected)) [
        | inl p ↦
            rw p
              (open_count-body_received _ ip buff _ _ (open_count-read_body fuel ip size expected))
        | inr p ↦ rw p refl
      ]

  open_count-complete_body :
      (ip : Bytes) (size : ℕ) (request : HttpRequest) (buff : Bytes) (t : Trace)
      → open_count g (complete_body os phr fd ip size request buff t).1 ≡ open_count g t
  unfolding complete_body
  open_count-complete_body ip size request buff t =
      elim (Bool-cases (exceeds (http_get_content_length request) size)) [
        | inl p ↦ rw p (open_count-http_send_error os g fd apart _ t)
        | inr p ↦ rw p (open_count-read_body _ ip size _ buff t)
      ]

  open_count-begin : (id : ℕ) (t : Trace) → open_count g (begin os phr fd id t).1 ≡ open_count g t
  unfolding begin open_count
  open_count-begin id t = open_count-logs_print os _ _ _ g ∙ open_count-get_client_ip_port os fd _ g

  answer-Leaks :
      (id : ℕ) (sc : ServerConf) (size : ℕ) (request : HttpRequest) (buff : Bytes) (t : Trace)
      → LeaksUpTo 1 g t (answer os phr fd id sc size request buff t).1
  unfolding answer open_count
  answer-Leaks id sc size request buff t = grind (
    arith,
    open_count-logs_print os,
    open_count-http_send_error os g fd apart,
    open_count-tcp_shutdown os g fd apart,
    http_process_request-Leaks os g fd apart,
  )

  body_done-Leaks :
      (id : ℕ) (sc : ServerConf) (size : ℕ) (request : HttpRequest) (body : Bytes × Bool)
      (t : Trace)
      → LeaksUpTo 1 g t (body_done os phr fd id sc size request body t).1
  unfolding body_done open_count
  body_done-Leaks id sc size request (buff, true) t = answer-Leaks id sc size request buff t
  body_done-Leaks id sc size request (buff, false) t =
      grind (arith, open_count-tcp_shutdown os g fd apart)

  head_done-Leaks :
      (id : ℕ) (sc : ServerConf) (ip : Bytes) (head : Head) (t : Trace)
      → LeaksUpTo 1 g t (head_done os phr fd id sc ip head t).1
  unfolding head_done open_count
  head_done-Leaks id sc ip (buff, none) t = grind (arith, open_count-tcp_shutdown os g fd apart)
  head_done-Leaks id sc ip (buff, some (size, request)) t =
      let body = complete_body os phr fd ip size request buff t in
      ground (
        arith,
        body_done-Leaks id sc size request body.0 body.1,
        open_count-complete_body ip size request buff t,
      )

  serve-Leaks :
      (id : ℕ) (sc : ServerConf) (buff : Bytes) (t : Trace)
      → LeaksUpTo 1 g t (serve os phr fd id sc buff t).1
  unfolding serve
  serve-Leaks id sc buff t =
      let begun = begin os phr fd id t in
      let head = read_head os phr fd (suc max_buffr) buff begun.1 in
      ground (
        arith,
        head_done-Leaks id sc begun.0 head.0 head.1,
        open_count-read_head (suc max_buffr) buff begun.1,
        open_count-begin id t,
      )

-- Whether a descriptor is one of these.
abbrev pub is_one_of : ℕ → List ℕ → Bool
is_one_of g [] = false
is_one_of g (fd ∷ fds) = if fd == g then true else is_one_of g fds

-- After what a thread of the pool does, a descriptor that is none of the connections which it has
-- taken out of the queue stands open as often as before, or up to once more for each of the
-- connections, going by the calls of the trace: whatever is sent on the connections, scripts
-- included, and whatever calls fail.
pub thread_function-LeaksUpTo :
    (os : Os) (phr : Parser) (id : ℕ) (sc : ServerConf) (g : ℕ) (fds : List ℕ) (buff : Bytes)
    (t : Trace)
    → is_one_of g fds ≡ false
    → LeaksUpTo (length fds) g t (thread_function os phr id sc fds buff t).1
unfolding thread_function
thread_function-LeaksUpTo os phr id sc g [] buff t apart = ground arith
thread_function-LeaksUpTo os phr id sc g (fd ∷ fds) buff t apart =
    let r = serve os phr fd id sc buff t in
    ground (
      arith,
      serve-Leaks os phr fd g (ground arith) id sc buff t,
      thread_function-LeaksUpTo os phr id sc g fds r.0 r.1 (ground arith),
    )

-- ===== src/Server/Worker/Release.antt =====
-- How `thread_function` of src/server.c ends its work on a connection, on every path.
use barehttp.Base.{ℕ, suc, ◌≡◌, ◌⊎◌, inl, inr, arith, ◌∷◌, some, none, Bool, true, false, ◌∙◌, ap}
use barehttp.CString.{Bytes}
use barehttp.Os.{Os, Trace, Result, shut, closed, left}
use barehttp.Os.Traces.{effects}
use barehttp.Tcp.{tcp_shutdown}
use barehttp.Logs.Laws.{effects-logs_print}
use barehttp.Http.{HttpRequest, ServerConf, max_buffr}
use barehttp.Server.Worker.{
  Head, Parser, read_head, complete_body, answer, body_done, head_done, begin, serve,
}

-- The last effects are those of `queue_del_active_fd` and `tcp_shutdown`, in either order.
unfoldable pub IsReleased : ℕ → ℕ → Trace → Type 0
IsReleased id fd t =
    (u : Trace) × (r : Result (Unit {0})) × (r' : Result (Unit {0})) × ((effects t
        ≡ left id ∷ closed fd r ∷ shut fd r' ∷ u)
      ⊎ (effects t ≡ closed fd r ∷ shut fd r' ∷ left id ∷ u))

module _ (os : Os) (phr_parse_request : Parser) (fd : ℕ) where
  tcp_shutdown-effects :
      (t : Trace)
      → (r : Result (Unit {0})) × (r' : Result (Unit {0})) × (effects (tcp_shutdown os fd t).1
          ≡ closed fd r ∷ shut fd r' ∷ effects t)
  unfolding tcp_shutdown effects
  tcp_shutdown-effects t =
      (os.close (shut fd (os.shutdown t fd) ∷ t) fd, os.shutdown t fd, ground arith)

  left_then_shut : (id : ℕ) (t : Trace) → IsReleased id fd (tcp_shutdown os fd (left id ∷ t)).1
  unfolding IsReleased effects
  left_then_shut id t =
      let (r, r', e) = tcp_shutdown-effects (left id ∷ t) in (effects t, r, r', inr e)

  shut_then_left : (id : ℕ) (t : Trace) → IsReleased id fd (left id ∷ (tcp_shutdown os fd t).1)
  unfolding IsReleased effects
  shut_then_left id t =
      let (r, r', e) = tcp_shutdown-effects t in (effects t, r, r', inl (ap (λ l. left id ∷ l) e))

  IsReleased-logs :
      (id : ℕ) (t u : Trace) → effects u ≡ effects t → IsReleased id fd t → IsReleased id fd u
  unfolding IsReleased
  IsReleased-logs id t u e (v, r, r', inl f) = (v, r, r', inl (e ∙ f))
  IsReleased-logs id t u e (v, r, r', inr f) = (v, r, r', inr (e ∙ f))

  answer-IsReleased :
      (id : ℕ) (sc : ServerConf) (size : ℕ) (request : HttpRequest) (buff : Bytes) (t : Trace)
      → IsReleased id fd (answer os phr_parse_request fd id sc size request buff t).1
  unfolding answer
  answer-IsReleased id sc size request buff t =
      grind (arith, left_then_shut, shut_then_left, IsReleased-logs, effects-logs_print)

  body_done-IsReleased :
      (id : ℕ) (sc : ServerConf) (size : ℕ) (request : HttpRequest) (body : Bytes × Bool)
      (t : Trace)
      → IsReleased id fd (body_done os phr_parse_request fd id sc size request body t).1
  unfolding body_done
  body_done-IsReleased id sc size request (buff, true) t =
      answer-IsReleased id sc size request buff t
  body_done-IsReleased id sc size request (buff, false) t = shut_then_left id t

  head_done-IsReleased :
      (id : ℕ) (sc : ServerConf) (ip : Bytes) (head : Head) (t : Trace)
      → IsReleased id fd (head_done os phr_parse_request fd id sc ip head t).1
  unfolding head_done
  head_done-IsReleased id sc ip (buff, none) t = left_then_shut id t
  head_done-IsReleased id sc ip (buff, some (size, request)) t =
      let body = complete_body os phr_parse_request fd ip size request buff t in
      body_done-IsReleased id sc size request body.0 body.1

  -- However a connection and its request turn out, the last that a thread does with it, but for the
  -- log, is to shut it down and close it and to take it out of its slot of active descriptors.
  pub serve-IsReleased :
      (id : ℕ) (sc : ServerConf) (buff : Bytes) (t : Trace)
      → IsReleased id fd (serve os phr_parse_request fd id sc buff t).1
  unfolding serve
  serve-IsReleased id sc buff t =
      let begun = begin os phr_parse_request fd id t in
      let head = read_head os phr_parse_request fd (suc max_buffr) buff begun.1 in
      head_done-IsReleased id sc begun.0 head.0 head.1

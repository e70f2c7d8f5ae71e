-- ===== src/Server/Arrival.antt =====
-- How the head of a request comes over a connection, in pieces of any sizes. The thread pool and
-- `epoll_server` of src/server.c both read it so: `Pool` and `Loop` are about what each makes of it.
pub mod Pool
pub mod Loop
pub mod Same
mod Examples
use barehttp.Base.{ℕ, ◌-◌, ◌<◌, ◌≡◌, ◌∷◌, ◌++◌, length}
use barehttp.CString.{Bytes}
use barehttp.Os.{Os, Trace, ok, received}
use barehttp.Http.{HttpRequest, max_buffr}
use barehttp.Server.Worker.{Parser, partial, complete, http_parse_request}

-- A call of `recv` on `fd` for the space behind `buff` answers `bs`.
abbrev pub Receives : Os → ℕ → Bytes → Trace → Bytes → Type 0
Receives os fd buff t bs = os.recv t fd (max_buffr - length buff) ≡ ok bs

abbrev pub after_receive : ℕ → Bytes → Trace → Bytes → Trace
after_receive fd buff t bs = received fd (max_buffr - length buff) (ok bs) ∷ t

-- From `buff` and the trace `t` on, the calls of `recv` bring a head that ends in the last piece:
-- `text` is what has come by then, `request` what the parser finds in it, and `after` the trace.
pub data HeadArrives (os : Os) (phr : Parser) (fd : ℕ) (text : Bytes) (after : Trace) (size : ℕ)
    (request : HttpRequest) : Bytes → Trace → Type 0 where
  last :
      (buff : Bytes) (t : Trace) (c : ℕ) (bs : Bytes)
      → Receives os fd buff t (c ∷ bs)
      → http_parse_request phr (buff ++ (c ∷ bs)) (length buff) ≡ complete size request
      → text ≡ buff ++ (c ∷ bs)
      → after ≡ after_receive fd buff t (c ∷ bs)
      → HeadArrives os phr fd text after size request buff t
  more :
      (buff : Bytes) (t : Trace) (c : ℕ) (bs : Bytes)
      → Receives os fd buff t (c ∷ bs)
      → http_parse_request phr (buff ++ (c ∷ bs)) (length buff) ≡ partial
      → length (buff ++ (c ∷ bs)) < max_buffr
      → HeadArrives os phr fd text after size request
          (buff ++ (c ∷ bs))
          (after_receive fd buff t (c ∷ bs))
      → HeadArrives os phr fd text after size request buff t

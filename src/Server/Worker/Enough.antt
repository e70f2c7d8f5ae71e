-- ===== src/Server/Worker/Enough.antt =====
-- src/server.c: how many rounds the two loops of `thread_function` that read a request need.
use barehttp.Base.{ℕ, ◌+◌, ◌<◌, ◌≤◌, ◌≡◌, ℤ, length}
use barehttp.CString.{Bytes}
use barehttp.Os.{Os, Trace}
use barehttp.Http.{max_buffr}
use barehttp.Server.Worker.{Parser, read_head, read_body}
use barehttp.Server.Worker.Buffer.{RecvIsBounded}
use barehttp.Server.Worker.Bounds.{read_head-enough}
use barehttp.Server.Worker.Body.{read_body-enough}

-- Where `recv` hands over no more than it is asked for, one round for each free byte of the buffer and
-- one more are enough to read a head, and to read a body: any two numbers of rounds that reach that
-- far give the same result and the same calls.
pub reads-enough :
    (os : Os) (phr : Parser) (fd : ℕ) (fuel fuel' : ℕ) (buff : Bytes) (t : Trace)
    → RecvIsBounded os
    → length buff ≤ max_buffr
    → max_buffr < length buff + fuel
    → max_buffr < length buff + fuel'
    → (read_head os phr fd fuel buff t ≡ read_head os phr fd fuel' buff t)
      × ((ip : Bytes) (size : ℕ) (n : ℤ)
          → read_body os phr fd fuel ip size n buff t ≡ read_body os phr fd fuel' ip size n buff t)
reads-enough os phr fd fuel fuel' buff t b l h k = (
  read_head-enough os phr fd fuel fuel' buff t b l h k,
  λ ip size n. read_body-enough os phr fd fuel fuel' ip size n buff t b l h k,
)

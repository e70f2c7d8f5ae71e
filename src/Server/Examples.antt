-- ===== src/Server/Examples.antt =====
-- Runs of src/server.c over the sample system, and its theorems at concrete connections and clients.
use barehttp.Base.{
  ℤ, ◌+◌, if◌then◌else◌, ℕ, ◌≤◌, ◌≡◌, refl, arith, ltb, [], ◌∷◌, length, take, drop, replicate,
  length-take, length-replicate,
}
use barehttp.CString.{Bytes, codes, str_eq, atoi}
use barehttp.CString.Memory.{c_str}
use barehttp.Os.{Os, ok}
use barehttp.Os.Traces.{opens}
use barehttp.Os.Sample.{sample}
use barehttp.Http.Sample.{conf}
use barehttp.Http.{HttpRequest, max_buffr}
use barehttp.Http.Request.{content_length, http_get_content_length}
use barehttp.Tcp.{tcp_recv}
use barehttp.Server.Worker.{
  Parser, partial, complete, http_parse_request, head_parsed, head_received, read_head,
  body_received, read_body, complete_body, serve, thread_function,
}
use barehttp.Server.Worker.Buffer.{RecvIsBounded, thread_function-le}
use barehttp.Server.Worker.Bounds.{thread_function-full}
use barehttp.Server.Worker.Enough.{reads-enough}
use barehttp.Server.Worker.Body.{complete_body_lem}
use barehttp.Http.Handlers.Asked.{AllAsked, AllConfined}
use barehttp.Server.Worker.Files.{thread_function_confined}
use barehttp.Server.Worker.Leaks.{LeaksUpTo, thread_function-LeaksUpTo}
use barehttp.Server.Worker.Release.{IsReleased, serve-IsReleased}

-- Every call of `recv` brings five bytes, or as many as there is room for.
abbrev talking : Os
talking = record sample { recv = λ t fd room. ok (take room (codes "hello")) }

talking-RecvIsBounded : RecvIsBounded talking
unfolding RecvIsBounded
talking-RecvIsBounded t fd room bs e = ground (arith, length-take room (codes "hello"))

-- A head is eight bytes long.
abbrev eight : Parser
eight = λ buff last_len n.
    if ltb (length buff) 8 then partial else complete 8 (codes "GET", codes "/", 0, [])

-- The head comes with the second call, and the bytes behind it stay in the buffer.
two_reads : let head = read_head talking eight 4 3 [] [] in head.0.0 ≡ codes "hellohello"
unfolding read_head head_received head_parsed http_parse_request tcp_recv codes
two_reads = refl

thread_function-le_example :
    length (thread_function talking eight 2 conf (4 ∷ 5 ∷ []) [] []).0 ≤ max_buffr
thread_function-le_example =
    thread_function-le talking eight 2 conf (4 ∷ 5 ∷ []) [] [] talking-RecvIsBounded (omega arith)

abbrev full_buffer : Bytes
full_buffer = replicate 8192 65

length-full_buffer : length full_buffer ≡ max_buffr
length-full_buffer = length-replicate {A = ℕ} 8192 65

thread_function-full_example :
    let r = thread_function talking eight 2 conf (4 ∷ 5 ∷ []) full_buffer [] in
    (r.0 ≡ full_buffer) × (opens r.1 ≡ opens [])
thread_function-full_example =
    thread_function-full talking eight 2 conf (4 ∷ 5 ∷ []) full_buffer [] talking-RecvIsBounded
      length-full_buffer

reads-enough_example :
    (read_head talking eight 4 9000 [] [] ≡ read_head talking eight 4 8193 [] [])
    × ((ip : Bytes) (size : ℕ) (n : ℤ)
        → read_body talking eight 4 9000 ip size n [] []
          ≡ read_body talking eight 4 8193 ip size n [] [])
reads-enough_example =
    reads-enough talking eight 4 9000 8193 [] [] talking-RecvIsBounded (omega arith) (omega arith)
      (omega arith)

-- A request with a body of three bytes, of which two stand behind the head.
abbrev with_body : HttpRequest
with_body = record {
  method = codes "POST";
  url = codes "/a.py";
  version = 0;
  headers = record { name = codes "Content-Length"; value = codes "3" } ∷ [];
  body = [];
}

abbrev ten : Bytes
ten = codes "hellohello"

complete_body_lem_example :
    let a = (complete_body talking eight 4 (codes "10.0.0.1:80") 8 with_body ten []).0 in
    (3 ≤ length (drop 8 a.0)) × (3 + 8 ≤ max_buffr)
unfolding complete_body read_body body_received tcp_recv http_get_content_length content_length
    codes str_eq atoi c_str
complete_body_lem_example =
    complete_body_lem talking eight 4 (codes "10.0.0.1:80") 8 with_body ten 3 [] refl refl

thread_function-LeaksUpTo_example :
    LeaksUpTo 2 9 [] (thread_function talking eight 2 conf (4 ∷ 5 ∷ []) [] []).1
thread_function-LeaksUpTo_example =
    thread_function-LeaksUpTo talking eight 2 conf 9 (4 ∷ 5 ∷ []) [] [] refl

serve-IsReleased_example : IsReleased 2 4 (serve talking eight 4 2 conf [] []).1
serve-IsReleased_example = serve-IsReleased talking eight 4 2 conf [] []

thread_function_confined_example :
    AllConfined conf (thread_function talking eight 2 conf (4 ∷ 5 ∷ []) [] []).1
unfolding AllAsked opens
thread_function_confined_example =
    thread_function_confined talking eight 2 conf (4 ∷ 5 ∷ []) [] [] tt

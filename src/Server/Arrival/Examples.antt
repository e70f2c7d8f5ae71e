-- ===== src/Server/Arrival/Examples.antt =====
-- A head that comes in two pieces, over a connection of each server.
use barehttp.Base.{
  ℕ, ◌≡◌, refl, arith, ltb, if◌then◌else◌, [], ◌∷◌, some, pos, length, take, drop, replicate,
}
use barehttp.CString.{Bytes, codes}
use barehttp.Os.{Os, Trace, ok, ◌>>=◌}
use barehttp.Os.Sample.{sample}
use barehttp.Http.{HttpRequest}
use barehttp.Http.Sample.{conf}
use barehttp.Http.Request.{http_get_content_length, content_length, http_add_body}
use barehttp.Server.Worker.{
  Parser, partial, complete, http_parse_request, read_head, head_done, answer,
}
use barehttp.Server.Clients.{Clients, client_at, remove_client}
use barehttp.Server.Epoll.Client.{go}
use barehttp.Server.Epoll.Loop.{new_client_data, handle_events}
use barehttp.Server.Arrival.{HeadArrives, last, more, after_receive}
use barehttp.Server.Arrival.Loop.{IsReading, after_answer}
use barehttp.Server.Arrival.Same.{same_request}

-- Every call of `recv` brings five bytes.
abbrev five : Os
five = record sample { recv = λ t fd room. ok (take room (codes "hello")) }

-- A head ends with the bytes that there are, when there are eight at least.
abbrev rest_of : Parser
rest_of = λ buff last_len n.
    if ltb (length buff) 8 then partial else complete (length buff) (codes "GET", codes "/", 0, [])

abbrev get : HttpRequest
get = record { method = codes "GET"; url = codes "/"; version = 0; headers = []; body = [] }

abbrev ten : Bytes
ten = codes "hellohello"

abbrev after_two : Trace
after_two = after_receive 4 (codes "hello") (after_receive 4 [] [] (codes "hello")) (codes "hello")

two_pieces : HeadArrives five rest_of 4 ten after_two (length ten) get [] []
unfolding http_parse_request codes
two_pieces = more [] [] 104 (codes "ello") refl refl (omega arith) (
    last (codes "hello") (after_receive 4 [] [] (codes "hello")) 104 (codes "ello") refl refl refl
      refl)

no_body : http_get_content_length get ≡ pos 0
unfolding http_get_content_length content_length
no_body = refl

abbrev new_client : Clients
new_client = (100, new_client_data 4) ∷ []

new_client-at : client_at new_client 100 ≡ some (new_client_data 4)
unfolding client_at
new_client-at = refl

new_client-IsReading : IsReading 4 [] (new_client_data 4)
unfolding new_client_data
new_client-IsReading = record { state = refl; conn = refl; array = refl; size = refl; whole = refl }

same_request_example :
    (read_head five rest_of 4 8193 [] >>= head_done five rest_of 4 2 conf (codes "10.0.0.1:80")) []
      ≡ answer five rest_of 4 2 conf (length ten) get ten after_two
    × http_add_body get (drop (length ten) ten) ≡ get
    × ((n : ℕ) × (handle_events five rest_of conf 8 3 (replicate n 100) new_client []
          ≡ (go (remove_client new_client 100), after_answer five conf 8 4 get after_two)))
unfolding codes
same_request_example =
    same_request five rest_of conf 2 8 3 100 4 (codes "10.0.0.1:80") ten after_two get [] new_client
      (new_client_data 4) refl new_client-at new_client-IsReading no_body (omega arith) two_pieces

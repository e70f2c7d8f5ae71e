-- ===== src/Server/Arrival/Same.antt =====
-- src/server.c: what the thread pool and `epoll_server` make of the same request.
use barehttp.Base.{
  ℕ, ◌<◌, ◌≤◌, ◌%◌, ◌^◌, ◌≡◌, refl, arith, true, false, ◌==◌, [], ◌∷◌, some, pos, suc, ap, sym, ◌∙◌,
  replicate, length, drop,
}
use barehttp.CString.{Bytes}
use barehttp.Os.{Os, Trace, ◌>>=◌}
use barehttp.Http.{HttpRequest, ServerConf, max_buffr, max_headers}
use barehttp.Http.Request.{http_get_content_length, http_add_body}
use barehttp.Server.Worker.{
  Parser, Parse, invalid, partial, complete, http_parse_request, read_head, read_body,
  complete_body, exceeds, is_short, answer, Fields, to_request, body_done, head_done,
}
use barehttp.Server.Clients.{ClientData, Clients, client_at, remove_client}
use barehttp.Server.Epoll.Client.{go}
use barehttp.Server.Epoll.Loop.{handle_events}
use barehttp.Server.Arrival.{HeadArrives, last, more}
use barehttp.Server.Arrival.Pool.{read_head_arrives}
use barehttp.Server.Arrival.Loop.{IsReading, after_answer, client-Answered}

drop_all : (bs : Bytes) → drop (length bs) bs ≡ []
drop_all [] = refl
drop_all (b ∷ bs) = drop_all bs

body_of : Parse HttpRequest → Bytes
body_of invalid = []
body_of partial = []
body_of (complete size request) = request.body

to_request_no_body : (q : Parse Fields) → body_of (to_request q) ≡ []
unfolding body_of
to_request_no_body invalid = refl
to_request_no_body partial = refl
to_request_no_body (complete size (method, url, version, headers)) = refl

parsed_no_body :
    (phr : Parser) (buff : Bytes) (n : ℕ) (size : ℕ) (request : HttpRequest)
    → http_parse_request phr buff n ≡ complete size request
    → request.body ≡ []
unfolding http_parse_request body_of
parsed_no_body phr buff n size request p =
    sym (ap body_of p) ∙ to_request_no_body (phr buff n max_headers)

arrived_no_body :
    (os : Os) (phr : Parser) (fd : ℕ) (text : Bytes) (after : Trace) (size : ℕ)
    (request : HttpRequest) (buff : Bytes) (t : Trace)
    → HeadArrives os phr fd text after size request buff t
    → request.body ≡ []
arrived_no_body os phr fd text after size request buff t (last _ _ c bs r p e a) =
    parsed_no_body phr _ _ size request p
arrived_no_body os phr fd text after size request buff t (more _ _ c bs r p s h) =
    arrived_no_body os phr fd text after size request _ _ h

add_nothing : (request : HttpRequest) → request.body ≡ [] → http_add_body request [] ≡ request
unfolding http_add_body
add_nothing request b = ap (λ bs. record request { body = bs }) (sym b)

not_short : (text : Bytes) → is_short text (length text) (pos 0) ≡ false
not_short text = ground arith

not_over : (n : ℕ) → n ≤ max_buffr → exceeds (pos 0) n ≡ false
not_over n l = ground arith

module _ (os : Os) (phr : Parser) (fd : ℕ) (ip : Bytes) (request : HttpRequest) (text : Bytes) where
  enough :
      (fuel : ℕ) (t : Trace)
      → read_body os phr fd (suc fuel) ip (length text) (pos 0) text t ≡ ((text, true), t)
  unfolding read_body
  enough fuel t = rw (not_short text) refl

  no_body_read :
      (t : Trace)
      → length text ≤ max_buffr
      → http_get_content_length request ≡ pos 0
      → complete_body os phr fd ip (length text) request text t ≡ ((text, true), t)
  unfolding complete_body
  no_body_read t l z = rw (z, not_over (length text) l) (enough max_buffr t)

  pool_answers :
      (id : ℕ) (sc : ServerConf) (t : Trace)
      → length text ≤ max_buffr
      → http_get_content_length request ≡ pos 0
      → head_done os phr fd id sc ip (text, some (length text, request)) t
        ≡ answer os phr fd id sc (length text) request text t
  unfolding head_done body_done
  pool_answers id sc t l z =
      ap (λ r. body_done os phr fd id sc (length text) request r.0 r.1) (no_body_read t l z)

module _ (os : Os) (phr : Parser) (sc : ServerConf) (id epollfd sockfd client fd : ℕ) (ip : Bytes)
    (text : Bytes) (after : Trace) (request : HttpRequest) where
  -- The head of a request that announces no body comes on a connection in pieces of any sizes, ends
  -- with the last piece and leaves room in the buffer. A thread that starts with an empty buffer ends
  -- its loop with this request and answers it. A new client of `epoll_server`, with an address that is
  -- not taken for the listening descriptor, gets from some number of its events in a row to the same
  -- call of `http_process_request`, with the same request and after the same calls of `recv`; then its
  -- connection is unwatched and closed, and it leaves the list. What the thread calls
  -- `http_process_request` with, after `http_add_body`, is the request itself.
  pub same_request :
      (t : Trace) (clients : Clients) (cd : ClientData)
      → (client % 2 ^ 32 == sockfd) ≡ false
      → client_at clients client ≡ some cd
      → IsReading fd [] cd
      → http_get_content_length request ≡ pos 0
      → length text < max_buffr
      → HeadArrives os phr fd text after (length text) request [] t
      → (read_head os phr fd (suc max_buffr) [] >>= head_done os phr fd id sc ip) t
          ≡ answer os phr fd id sc (length text) request text after
        × http_add_body request (drop (length text) text) ≡ request
        × ((n : ℕ) × (handle_events os phr sc epollfd sockfd (replicate n client) clients t
              ≡ (go (remove_client clients client), after_answer os sc epollfd fd request after)))
  same_request t clients cd apart there reading no_body room h =
      let text_fits : length text ≤ max_buffr = omega (arith, room) in
      (
        ap (λ r. head_done os phr fd id sc ip r.0 r.1)
              (read_head_arrives os phr fd text after (length text) request (suc max_buffr) [] t
                (omega arith) text_fits h)
            ∙ pool_answers os phr fd ip request text id sc after text_fits no_body,
        ap (http_add_body request) (drop_all text)
            ∙ add_nothing request
                (arrived_no_body os phr fd text after (length text) request [] t h),
        client-Answered os phr sc epollfd sockfd client fd apart text after (length text) request
            no_body room [] t clients cd there reading h,
      )

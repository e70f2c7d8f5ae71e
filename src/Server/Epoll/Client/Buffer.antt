-- ===== src/Server/Epoll/Client/Buffer.antt =====
-- src/server.c: the bytes of a client of `epoll_server` that sends the head of its request, and what the
-- parser makes of them.
use mathlib.Core.Path.{subst}
use barehttp.Base.{
  ℕ, ◌+◌, ◌-◌, ◌≤◌, ltb, leb, eq_ℤ, Bool-cases, ◌≡◌, inl, inr, refl, arith, [], ◌∷◌, ◌++◌, Option,
  none, some, pos, ap, sym, ◌∙◌, length, take,
}
use barehttp.CString.{Bytes}
use barehttp.CString.Memory.{take-poke_at, length-poke_at}
use barehttp.Os.{Os, Trace, Result, ok, M, received}
use barehttp.Tcp.{tcp_recv}
use barehttp.Http.{HttpRequest, ServerConf, max_buffr}
use barehttp.Http.Request.{http_get_content_length}
use barehttp.Server.Worker.{Parser, Parse, invalid, partial, complete, http_parse_request}
use barehttp.Server.Clients.{
  client_reading_headers, client_reading_body, ClientData, Clients, client_at, update_client,
  remove_client,
}
use barehttp.Server.Clients.Laws.{IsDistinct, remove_client-at, update_client-at}
use barehttp.Server.Epoll.Client.{
  Next, go, stop, fault, fill, is_too_long, drop_client, respond_headers, headers_done,
  headers_partial, headers_parsed, read_headers, by_state, client_received, serve_client,
  client_event,
}

-- The client `d` after `bs` came for the client `cd`: its buffer holds those bytes behind the others; if it
-- still reads its head the parser has found it incomplete, and if it reads its body the parser has
-- found this request in the buffer, with this Content-Length.
pub record Grown (phr : Parser) (cd : ClientData) (bs : Bytes) (d : ClientData) : Type 0 where
  pub array : length d.rq ≡ max_buffr
  pub whole : take d.rq_size d.rq ≡ take cd.rq_size cd.rq ++ bs
  pub head :
      d.state ≡ client_reading_headers
      → http_parse_request phr (take cd.rq_size cd.rq ++ bs) cd.rq_size ≡ partial
  pub body :
      d.state ≡ client_reading_body
      → (size : ℕ) × (http_parse_request phr (take cd.rq_size cd.rq ++ bs) cd.rq_size
          ≡ complete size d.http_rq)
        × (d.body_len ≡ http_get_content_length d.http_rq)

-- The client as `bs` has been read.
abbrev pub read_of : ClientData → Bytes → ClientData
read_of cd bs = record (fill cd bs) { last_len = cd.rq_size; rq_size = cd.rq_size + length bs }

-- What stands at the client's address afterwards, if anything does.
abbrev pub GrownNext : Parser → ClientData → Bytes → ℕ → Next → Type 0
GrownNext phr cd bs client (go cs) =
    (d : ClientData) → client_at cs client ≡ some d → Grown phr cd bs d
GrownNext phr cd bs client (stop _) = Unit {0}
GrownNext phr cd bs client fault = Unit {0}

abbrev get_client : ClientData → Option ClientData → ClientData
get_client d none = d
get_client d (some e) = e

module _ (os : Os) (phr : Parser) (sc : ServerConf) (epollfd : ℕ) (clients : Clients) (client : ℕ)
    (cd : ClientData) (bs : Bytes) (apart : IsDistinct clients)
    (there : client_at clients client ≡ some cd) (state : cd.state ≡ client_reading_headers)
    (array : length cd.rq ≡ max_buffr) (room : cd.rq_size + length bs ≤ max_buffr) where
  abbrev text : Bytes
  text = take cd.rq_size cd.rq ++ bs

  whole_read : take (cd.rq_size + length bs) (read_of cd bs).rq ≡ text
  whole_read = take-poke_at cd.rq cd.rq_size bs (omega (arith, array, room))

  array_read : length (read_of cd bs).rq ≡ max_buffr
  array_read = length-poke_at cd.rq cd.rq_size bs (omega (arith, array, room)) ∙ array

  removed-GrownNext : GrownNext phr cd bs client (go (remove_client clients client))
  removed-GrownNext d e = absurd (ground (arith, remove_client-at clients client client apart))

  updated-GrownNext :
      (d' : ClientData)
      → Grown phr cd bs d'
      → GrownNext phr cd bs client (go (update_client clients client d'))
  updated-GrownNext d' g d e =
      let at : client_at (update_client clients client d') client ≡ some d' =
        ground (arith, update_client-at clients client client cd d' there) in
      subst (Grown phr cd bs) (ap (get_client d') (sym at ∙ e)) g

  headers_done-GrownNext :
      (size : ℕ) (request : HttpRequest) (t : Trace)
      → http_parse_request phr text cd.rq_size ≡ complete size request
      → GrownNext phr cd bs client
          (headers_done os phr sc epollfd clients client
            (record (read_of cd bs) { http_rq = request })
            t).0
  unfolding headers_done drop_client respond_headers
  headers_done-GrownNext size request t p =
      elim (Bool-cases (is_too_long (http_get_content_length request) (cd.rq_size + length bs))) [
        | inl l ↦ rw l removed-GrownNext
        | inr l ↦ elim (Bool-cases (eq_ℤ (http_get_content_length request) (pos 0))) [
          | inl z ↦ rw (l, z) removed-GrownNext
          | inr z ↦
              rw (l, z)
                (updated-GrownNext with_body (record {
                  array = array_read;
                  whole = whole_read;
                  head = λ h. absurd (cc);
                  body = λ h. (size, p, refl);
                }))
        ]
      ]
    where
      with_body : ClientData
      with_body = record (read_of cd bs) {
        http_rq = request;
        body_len = http_get_content_length request;
        state = client_reading_body;
      }

  headers_parsed-GrownNext :
      (r : Parse HttpRequest) (t : Trace)
      → http_parse_request phr text cd.rq_size ≡ r
      → GrownNext phr cd bs client
          (headers_parsed os phr sc epollfd clients client (read_of cd bs) r t).0
  unfolding headers_parsed headers_partial drop_client
  headers_parsed-GrownNext invalid t p = removed-GrownNext
  headers_parsed-GrownNext partial t p =
      elim (Bool-cases (leb max_buffr (cd.rq_size + length bs))) [
        | inl l ↦ rw l removed-GrownNext
        | inr l ↦ rw l (
            updated-GrownNext (read_of cd bs) (record {
              array = array_read;
              whole = whole_read;
              head = λ h. p;
              body = λ h. absurd (cc);
            }))
      ]
  headers_parsed-GrownNext (complete size request) t p = headers_done-GrownNext size request t p

  by_state-GrownNext :
      (t : Trace)
      → GrownNext phr cd bs client
          (by_state os phr sc epollfd cd.state clients client (fill cd bs) (length bs) t).0
  unfolding by_state read_headers
  by_state-GrownNext t =
      subst
        (λ s.
          GrownNext phr cd bs client
            (by_state os phr sc epollfd s clients client (fill cd bs) (length bs) t).0)
        (sym state)
        (headers_parsed-GrownNext _ t
          (ap (λ x. http_parse_request phr x cd.rq_size) (sym whole_read)))

  abbrev after_recv : Result Bytes → M Next
  after_recv = client_received os phr sc epollfd clients client cd

  received-GrownNext :
      (l : Bytes) (t : Trace) → bs ≡ l → GrownNext phr cd bs client (after_recv (ok l) t).0
  unfolding client_received drop_client
  received-GrownNext [] t e = removed-GrownNext
  received-GrownNext (c ∷ s) t e =
      subst
        (λ l.
          GrownNext phr cd bs client
            (by_state os phr sc epollfd cd.state clients client (fill cd l) (length l) t).0)
        e (by_state-GrownNext t)

  -- In a list with no address twice, let a client of the list read the head of its request, with a
  -- buffer of the size of the array, and let `recv` hand over no more than there is room for. Then if it
  -- is still in the list after its event its buffer holds what was received behind what it held;
  -- either it goes on with the head, and the parser has found all that to be an incomplete head,
  -- or it goes on with the body, and its request is what the parser has found in all that, and the
  -- length of the body that of the Content-Length in it.
  pub client_event-GrownNext :
      (t : Trace)
      → os.recv t cd.fd (max_buffr - cd.rq_size) ≡ ok bs
      → GrownNext phr cd bs client (client_event os phr sc epollfd clients client t).0
  unfolding client_event serve_client tcp_recv
  client_event-GrownNext t r = rw there (elim (Bool-cases (ltb max_buffr cd.rq_size)) [
    | inl p ↦ absurd (ground arith)
    | inr p ↦ rw p (
        subst
          (λ a.
            GrownNext phr cd bs client
              (after_recv a (received cd.fd (max_buffr - cd.rq_size) a ∷ t)).0)
          (sym r) (received-GrownNext bs _ refl))
  ])

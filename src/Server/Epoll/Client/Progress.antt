-- ===== src/Server/Epoll/Client/Progress.antt =====
-- src/server.c: what an event of a client brings `epoll_server` nearer to.
use barehttp.Base.{
  ℕ, ◌+◌, ◌<◌, ◌≡◌, ◌≢◌, ◌⊎◌, refl, arith, true, false, inl, inr, Bool-cases, ◌==◌, [], ◌∷◌, length,
  none, some, leb, ltb, eq_ℤ, pos,
}
use barehttp.CString.{Bytes}
use barehttp.Os.{Os, Trace, Result, ok, err, eagain}
use barehttp.Http.{HttpRequest, ServerConf, max_buffr}
use barehttp.Http.Request.{http_get_content_length}
use barehttp.Tcp.{tcp_recv}
use barehttp.Server.Worker.{Parser, Parse, invalid, partial, complete}
use barehttp.Server.Clients.{
  ClientState, client_reading_headers, client_reading_body, client_sending_response, ClientData,
  Clients, client_at, update_client, remove_client,
}
use barehttp.Server.Clients.Laws.{
  IsDistinct, remove_client-at, update_client-at, update_client-IsDistinct,
}
use barehttp.Server.Epoll.Client.{
  Next, go, stop, fault, is_too_long, has_body, drop_client, respond_headers, respond_body,
  headers_done, headers_partial, headers_parsed, read_headers, read_more, by_state, client_received,
  serve_client, client_event,
}

-- The client is out of the list, or more of its bytes have been counted and it goes on to receive.
abbrev pub Progressed : ClientData → ℕ → Next → Type 0
Progressed cd client (go cs) =
    (client_at cs client ≡ none)
    ⊎ ((d : ClientData) × (client_at cs client ≡ some d)
        × (d.state ≢ client_sending_response)
        × (cd.rq_size < d.rq_size)
        × IsDistinct cs)
Progressed cd client (stop _) = ⊥
Progressed cd client fault = Unit {0}

-- No call of `recv` answers that it would have to wait.
pub record NeverWaits (os : Os) : Type 0 where
  pub no_eagain : (t : Trace) (fd room e : ℕ) → os.recv t fd room ≡ err e → (e == eagain) ≡ false

module _ (os : Os) (phr : Parser) (sc : ServerConf) (epollfd : ℕ) (clients : Clients) (client : ℕ)
    (cd : ClientData) (apart : IsDistinct clients)
    (there : client_at clients client ≡ some cd) where
  removed-Progressed : Progressed cd client (go (remove_client clients client))
  removed-Progressed = inl (ground (arith, remove_client-at clients client client apart))

  updated-Progressed :
      (d : ClientData)
      → d.state ≢ client_sending_response
      → cd.rq_size < d.rq_size
      → Progressed cd client (go (update_client clients client d))
  updated-Progressed d s l = inr (
    d,
    ground (arith, update_client-at clients client client cd d there),
    s,
    l,
    update_client-IsDistinct clients client d apart,
  )

  headers_done-Progressed :
      (d : ClientData) (t : Trace)
      → cd.rq_size < d.rq_size
      → Progressed cd client (headers_done os phr sc epollfd clients client d t).0
  unfolding headers_done drop_client respond_headers
  headers_done-Progressed d t l =
      elim (Bool-cases (is_too_long (http_get_content_length d.http_rq) d.rq_size)) [
        | inl p ↦ rw p removed-Progressed
        | inr p ↦ elim (Bool-cases (eq_ℤ (http_get_content_length d.http_rq) (pos 0))) [
          | inl q ↦ rw (p, q) removed-Progressed
          | inr q ↦ rw (p, q) (updated-Progressed _ (λ h. cc) l)
        ]
      ]

  headers_parsed-Progressed :
      (d : ClientData) (q : Parse HttpRequest) (t : Trace)
      → d.state ≢ client_sending_response
      → cd.rq_size < d.rq_size
      → Progressed cd client (headers_parsed os phr sc epollfd clients client d q t).0
  unfolding headers_parsed headers_partial drop_client
  headers_parsed-Progressed d invalid t s l = removed-Progressed
  headers_parsed-Progressed d partial t s l = elim (Bool-cases (leb max_buffr d.rq_size)) [
    | inl p ↦ rw p removed-Progressed
    | inr p ↦ rw p (updated-Progressed d s l)
  ]
  headers_parsed-Progressed d (complete n request) t s l = headers_done-Progressed _ t l

  read_more-Progressed :
      (d : ClientData) (n : ℕ) (t : Trace)
      → d.state ≢ client_sending_response
      → cd.rq_size < d.rq_size + n
      → Progressed cd client (read_more os phr sc epollfd clients client d n t).0
  unfolding read_more respond_body drop_client
  read_more-Progressed d n t s l = elim (Bool-cases (has_body d.body_len (d.rq_size + n))) [
    | inl p ↦ rw p removed-Progressed
    | inr p ↦ rw p (updated-Progressed _ s (omega (arith, l)))
  ]

  by_state-Progressed :
      (k : ClientState) (d : ClientData) (n : ℕ) (t : Trace)
      → d.state ≡ k
      → k ≢ client_sending_response
      → cd.rq_size < d.rq_size + n
      → Progressed cd client (by_state os phr sc epollfd k clients client d n t).0
  unfolding by_state read_headers
  by_state-Progressed client_reading_headers d n t e s l =
      headers_parsed-Progressed _ _ t (λ h. cc) l
  by_state-Progressed client_reading_body d n t e s l = read_more-Progressed d n t (λ h. cc) l
  by_state-Progressed client_sending_response d n t e s l = absurd (s refl)

  module _ (waits : NeverWaits os) (receiving : cd.state ≢ client_sending_response) where
    client_received-Progressed :
        (r : Result Bytes) (t : Trace)
        → ((e : ℕ) → r ≡ err e → (e == eagain) ≡ false)
        → Progressed cd client (client_received os phr sc epollfd clients client cd r t).0
    unfolding client_received drop_client
    client_received-Progressed (ok []) t w = removed-Progressed
    client_received-Progressed (ok (b ∷ bs)) t w =
        by_state-Progressed cd.state _ (length (b ∷ bs)) t refl receiving (omega arith)
    client_received-Progressed (err e) t w = rw (w e refl) removed-Progressed

    pub client_event-Progressed :
        (t : Trace) → Progressed cd client (client_event os phr sc epollfd clients client t).0
    unfolding client_event serve_client tcp_recv
    client_event-Progressed t = rw there (elim (Bool-cases (ltb max_buffr cd.rq_size)) [
      | inl p ↦ rw p tt
      | inr p ↦ rw p (client_received-Progressed _ _ (waits.no_eagain t cd.fd _))
    ])

pub client_event-over :
    (os : Os) (phr : Parser) (sc : ServerConf) (epollfd : ℕ) (clients : Clients) (client : ℕ)
    (cd : ClientData) (t : Trace)
    → client_at clients client ≡ some cd
    → max_buffr < cd.rq_size
    → client_event os phr sc epollfd clients client t ≡ (fault, t)
unfolding client_event serve_client
client_event-over os phr sc epollfd clients client cd t there over =
    let p : ltb max_buffr cd.rq_size ≡ true = ground arith in rw (there, p) refl

-- ===== src/Server/Epoll/Client/Open.antt =====
-- src/server.c: the connections that are open when `epoll_server` has answered to one event of a client.
use barehttp.Base.{
  ℕ, ◌+◌, ◌≤◌, ◌≡◌, refl, ◌∙◌, arith, true, false, inl, inr, Bool, Option-cases, ◌==◌, [], ◌∷◌,
  some, if◌then◌else◌, leb, ltb, eq_ℤ, pos,
}
use barehttp.CString.{Bytes}
use barehttp.Os.{Os, M, eagain, Trace, Result, ok, err}
use barehttp.Os.Pending.{pending, HasFreshFds}
use barehttp.Http.{HttpRequest, ServerConf, max_buffr}
use barehttp.Http.Request.{http_get_content_length}
use barehttp.Http.Pending.{pending-http_process_request}
use barehttp.Tcp.{tcp_recv}
use barehttp.Server.Worker.{Parser, Parse, invalid, partial, complete}
use barehttp.Server.Clients.{
  ClientState, client_reading_headers, client_reading_body, client_sending_response, ClientData,
  Clients, client_at, update_client, remove_client,
}
use barehttp.Server.Epoll.Client.{
  Next, go, stop, fault, is_too_long, has_body, drop_client, respond_headers, respond_body,
  headers_done, headers_partial, headers_parsed, read_headers, body_bytes, read_more, by_state,
  client_received, serve_client, client_event,
}

-- How many clients of the list have the descriptor.
unfoldable pub conns : Clients → ℕ → ℕ
conns [] fd = 0
conns ((p, d) ∷ cs) fd = (if d.fd == fd then 1 else 0) + conns cs fd

conns-update_client :
    (cs : Clients) (p : ℕ) (d d' : ClientData) (fd : ℕ)
    → client_at cs p ≡ some d
    → d.fd ≡ d'.fd
    → conns (update_client cs p d') fd ≡ conns cs fd
unfolding conns update_client client_at
conns-update_client [] p d d' fd e s = refl
conns-update_client ((q, d0) ∷ cs) p d d' fd e s = grind (arith, conns-update_client cs p d d' fd)

conns-remove_client :
    (cs : Clients) (p : ℕ) (d : ClientData) (fd : ℕ)
    → client_at cs p ≡ some d
    → conns cs fd ≡ conns (remove_client cs p) fd + (if d.fd == fd then 1 else 0)
unfolding conns remove_client client_at
conns-remove_client [] p d fd e = absurd cc
conns-remove_client ((q, d0) ∷ cs) p d fd e = grind (arith, conns-remove_client cs p d fd)

-- One client has the descriptor if it is an open connection, and none if it is not.
abbrev pub Tracked : ℕ → Clients → Trace → Type 0
Tracked fd cs t = conns cs fd ≡ (if pending fd t then 1 else 0)

abbrev pub NextTracked : ℕ → Next × Trace → Type 0
NextTracked fd (go cs, t) = Tracked fd cs t
NextTracked fd (stop _, t) = Unit {0}
NextTracked fd (fault, t) = Unit {0}

NextTracked-if :
    (fd : ℕ) (b : Bool) (m n : M Next) (t : Trace)
    → NextTracked fd (m t)
    → NextTracked fd (n t)
    → NextTracked fd ((if b then m else n) t)
NextTracked-if fd true m n t i j = i
NextTracked-if fd false m n t i j = j

module _ (os : Os) (fresh : HasFreshFds os) (phr : Parser) (sc : ServerConf) (epollfd : ℕ) (fd : ℕ)
    (clients : Clients) (client : ℕ) (d : ClientData)
    (there : client_at clients client ≡ some d) where
  drop_client-Tracked :
      (g : ℕ) (t : Trace)
      → d.fd ≡ g
      → conns clients fd ≤ 1
      → ((g == fd) ≡ false → Tracked fd clients t)
      → NextTracked fd (drop_client os phr sc epollfd clients client g t)
  unfolding drop_client pending
  drop_client-Tracked g t e l h = grind (arith, conns-remove_client clients client d fd)

  at_most_one : (t : Trace) → Tracked fd clients t → conns clients fd ≤ 1
  at_most_one t h = ground arith

  respond_headers-Tracked :
      (cd : ClientData) (t : Trace)
      → d.fd ≡ cd.fd
      → Tracked fd clients t
      → NextTracked fd (respond_headers os phr sc epollfd clients client cd t)
  unfolding respond_headers pending
  respond_headers-Tracked cd t e h = grind (
    arith,
    conns-remove_client clients client d fd,
    pending-http_process_request os fresh fd cd.fd,
  )

  respond_body-Tracked :
      (cd : ClientData) (request : HttpRequest) (t : Trace)
      → d.fd ≡ cd.fd
      → Tracked fd clients t
      → NextTracked fd (respond_body os phr sc epollfd clients client cd request t)
  unfolding respond_body
  respond_body-Tracked cd request t e h =
      drop_client-Tracked cd.fd _ e (at_most_one t h)
        (λ p. rw (pending-http_process_request os fresh fd cd.fd p request sc t) h)

  update-Tracked :
      (cd : ClientData) (t : Trace)
      → d.fd ≡ cd.fd
      → Tracked fd clients t
      → Tracked fd (update_client clients client cd) t
  update-Tracked cd t e h = conns-update_client clients client d cd fd there e ∙ h

  headers_done-Tracked :
      (cd : ClientData) (t : Trace)
      → d.fd ≡ cd.fd
      → Tracked fd clients t
      → NextTracked fd (headers_done os phr sc epollfd clients client cd t)
  unfolding headers_done
  headers_done-Tracked cd t e h =
      let len = http_get_content_length cd.http_rq in
      let measured = record cd { body_len = len } in
      let reading = record measured { state = client_reading_body } in
      NextTracked-if fd (is_too_long len cd.rq_size) _ _ t
        (drop_client-Tracked cd.fd t e (at_most_one t h) (λ p. h))
        (NextTracked-if fd (eq_ℤ len (pos 0))
          (respond_headers os phr sc epollfd clients client measured)
          (λ u. (go (update_client clients client reading), u)) t
          (respond_headers-Tracked measured t e h) (update-Tracked reading t e h))

  headers_parsed-Tracked :
      (cd : ClientData) (q : Parse HttpRequest) (t : Trace)
      → d.fd ≡ cd.fd
      → Tracked fd clients t
      → NextTracked fd (headers_parsed os phr sc epollfd clients client cd q t)
  unfolding headers_parsed headers_partial
  headers_parsed-Tracked cd invalid t e h = drop_client-Tracked cd.fd t e (at_most_one t h) (λ p. h)
  headers_parsed-Tracked cd partial t e h =
      NextTracked-if fd (leb max_buffr cd.rq_size) _ _ t
        (drop_client-Tracked cd.fd t e (at_most_one t h) (λ p. h)) (update-Tracked cd t e h)
  headers_parsed-Tracked cd (complete n request) t e h = headers_done-Tracked _ t e h

  read_more-Tracked :
      (cd : ClientData) (n : ℕ) (t : Trace)
      → d.fd ≡ cd.fd
      → Tracked fd clients t
      → NextTracked fd (read_more os phr sc epollfd clients client cd n t)
  unfolding read_more body_bytes
  read_more-Tracked cd n t e h =
      NextTracked-if fd (has_body cd.body_len (cd.rq_size + n)) _ _ t
        (respond_body-Tracked _ _ t e h) (update-Tracked _ t e h)

  by_state-Tracked :
      (s : ClientState) (cd : ClientData) (n : ℕ) (t : Trace)
      → d.fd ≡ cd.fd
      → Tracked fd clients t
      → NextTracked fd (by_state os phr sc epollfd s clients client cd n t)
  unfolding by_state read_headers
  by_state-Tracked client_reading_headers cd n t e h = headers_parsed-Tracked _ _ t e h
  by_state-Tracked client_reading_body cd n t e h = read_more-Tracked cd n t e h
  by_state-Tracked client_sending_response cd n t e h = update-Tracked cd t e h

  client_received-Tracked :
      (r : Result Bytes) (t : Trace)
      → Tracked fd clients t
      → NextTracked fd (client_received os phr sc epollfd clients client d r t)
  unfolding client_received
  client_received-Tracked (ok []) t h = drop_client-Tracked d.fd t refl (at_most_one t h) (λ p. h)
  client_received-Tracked (ok (b ∷ bs)) t h = by_state-Tracked d.state _ _ t refl h
  client_received-Tracked (err e) t h =
      NextTracked-if fd (e == eagain) _ _ t h
        (drop_client-Tracked d.fd t refl (at_most_one t h) (λ p. h))

module _ (os : Os) (fresh : HasFreshFds os) (phr : Parser) (sc : ServerConf) (epollfd : ℕ)
    (fd : ℕ) where
  pub client_event-Tracked :
      (clients : Clients) (client : ℕ) (t : Trace)
      → Tracked fd clients t
      → NextTracked fd (client_event os phr sc epollfd clients client t)
  unfolding client_event serve_client tcp_recv pending
  client_event-Tracked clients client t h = elim (Option-cases (client_at clients client)) [
    | inl e ↦ rw e tt
    | inr (d, e) ↦ rw e (
        NextTracked-if fd (ltb max_buffr d.rq_size) _ _ t tt
          (client_received-Tracked os fresh phr sc epollfd fd clients client d e _ _ h))
  ]

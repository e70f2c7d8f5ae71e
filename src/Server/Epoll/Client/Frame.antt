-- ===== src/Server/Epoll/Client/Frame.antt =====
-- What a ready client's event does to the list of clients of `epoll_server` in src/server.c.
use barehttp.Base.{
  ℕ, ◌+◌, ◌-◌, ◌<◌, leb, ltb, eq_ℤ, Bool-cases, ◌≡◌, ◌≢◌, ◌⊎◌, inl, inr, refl, arith, ◌==◌, [], ◌∷◌,
  none, some, pos, ap,
}
use barehttp.CString.{Bytes}
use barehttp.Os.{Os, Trace, Result, ok, err, closed, unwatched, eagain}
use barehttp.Tcp.{tcp_recv}
use barehttp.Http.{HttpRequest, ServerConf, max_buffr}
use barehttp.Http.Request.{http_get_content_length}
use barehttp.Http.Handlers.{http_process_request}
use barehttp.Server.Worker.{Parser, Parse, invalid, partial, complete}
use barehttp.Server.Clients.{
  ClientState, client_reading_headers, client_reading_body, client_sending_response, ClientData,
  Clients, client_at, update_client, remove_client,
}
use barehttp.Server.Clients.Laws.{
  IsDistinct, remove_client-at, remove_client-IsDistinct, update_client-at,
  update_client-IsDistinct,
}
use barehttp.Server.Epoll.Client.{
  Next, is_too_long, has_body, go, stop, fault, drop_client, respond_headers, respond_body,
  headers_done, headers_partial, headers_parsed, read_headers, read_more, by_state, client_received,
  serve_client, client_event,
}

-- The list keeps its addresses apart, and no other client changes.
pub record Frame (clients cs : Clients) (client : ℕ) : Type 0 where
  pub distinct : IsDistinct cs
  pub others : (q : ℕ) → q ≢ client → client_at cs q ≡ client_at clients q

-- A client that is still reading the head of its request has room in its buffer.
unfoldable pub HasRoom : ClientData → Type 0
HasRoom d = d.state ≡ client_reading_headers → d.rq_size < max_buffr

pub HasRoom-below : (d : ClientData) → d.rq_size < max_buffr → HasRoom d
unfolding HasRoom
HasRoom-below d h e = h

HasRoom-later : (d : ClientData) → d.state ≢ client_reading_headers → HasRoom d
unfolding HasRoom
HasRoom-later d h e = absurd (h e)

-- The client at the address is still there with its descriptor, or it is not, and the last that was
-- done is to close that descriptor and to take it out of the epoll list, in one order or the other.
abbrev IsKept : Clients → ℕ → ℕ → Type 0
IsKept cs client fd = (d : ClientData) × (client_at cs client ≡ some d) × (d.fd ≡ fd) × HasRoom d

abbrev IsDropped : ℕ → ℕ → Trace → Type 0
IsDropped epollfd fd t =
    (u : Trace) × (r : Result (Unit {0})) × (r' : Result (Unit {0})) × ((t
        ≡ unwatched epollfd fd r ∷ closed fd r' ∷ u)
      ⊎ (t ≡ closed fd r' ∷ unwatched epollfd fd r ∷ u))

-- The three ways in which the event of a client can end.
unfoldable pub Settled : ℕ → Clients → ℕ → ClientData → Next × Trace → Type 0
Settled epollfd clients client cd (go cs, t) =
    Frame clients cs client
    × (IsKept cs client cd.fd ⊎ ((client_at cs client ≡ none) × IsDropped epollfd cd.fd t))
Settled epollfd clients client cd (stop _, t) = ⊥
Settled epollfd clients client cd (fault, t) =
    (max_buffr < cd.rq_size) × (cd.state ≢ client_reading_headers)

module _ (os : Os) (phr : Parser) (sc : ServerConf) (epollfd : ℕ) (clients : Clients) (client : ℕ)
    (cd : ClientData) (apart : IsDistinct clients) (there : client_at clients client ≡ some cd)
    (roomy : HasRoom cd) where
  abbrev IsSettled : Next × Trace → Type 0
  IsSettled = Settled epollfd clients client cd

  removed-Frame : Frame clients (remove_client clients client) client
  removed-Frame = record {
    distinct = remove_client-IsDistinct clients client apart;
    others = λ q h. ground (arith, remove_client-at clients client q apart);
  }

  updated-Frame : (d : ClientData) → Frame clients (update_client clients client d) client
  updated-Frame d = record {
    distinct = update_client-IsDistinct clients client d apart;
    others = λ q h. ground (arith, update_client-at clients client q cd d there);
  }

  gone : client_at (remove_client clients client) client ≡ none
  gone = ground (arith, remove_client-at clients client client apart)

  updated-Settled :
      (d : ClientData) (t : Trace)
      → d.fd ≡ cd.fd
      → HasRoom d
      → IsSettled (go (update_client clients client d), t)
  unfolding Settled
  updated-Settled d t e h = (
    updated-Frame d,
    inl (d, ground (arith, update_client-at clients client client cd d there), e, h),
  )

  drop_client-Settled :
      (fd : ℕ) (t : Trace)
      → fd ≡ cd.fd
      → IsSettled (drop_client os phr sc epollfd clients client fd t)
  unfolding Settled drop_client
  drop_client-Settled fd t e =
      let r' = os.close t cd.fd in
      let r = os.epoll_del (closed cd.fd r' ∷ t) epollfd cd.fd in
      rw e (removed-Frame, inr (gone, (t, r, r', inl refl)))

  respond_headers-Settled :
      (d : ClientData) (t : Trace)
      → d.fd ≡ cd.fd
      → IsSettled (respond_headers os phr sc epollfd clients client d t)
  unfolding Settled respond_headers
  respond_headers-Settled d t e =
      let u = (http_process_request os d.http_rq d.fd sc t).1 in
      let r = os.epoll_del u epollfd d.fd in
      let r' = os.close (unwatched epollfd d.fd r ∷ u) d.fd in
      (
        removed-Frame,
        inr (gone, (u, r, r', inr (ap (λ f. closed f r' ∷ unwatched epollfd f r ∷ u) e))),
      )

  headers_done-Settled :
      (d : ClientData) (t : Trace)
      → d.fd ≡ cd.fd
      → IsSettled (headers_done os phr sc epollfd clients client d t)
  unfolding headers_done
  headers_done-Settled d t e =
      elim (Bool-cases (is_too_long (http_get_content_length d.http_rq) d.rq_size)) [
        | inl p ↦ rw p (drop_client-Settled d.fd t e)
        | inr p ↦ elim (Bool-cases (eq_ℤ (http_get_content_length d.http_rq) (pos 0))) [
          | inl q ↦ rw (p, q) (respond_headers-Settled _ t e)
          | inr q ↦ rw (p, q) (updated-Settled _ t e (HasRoom-later _ (λ h. cc)))
        ]
      ]

  headers_parsed-Settled :
      (d : ClientData) (r : Parse HttpRequest) (t : Trace)
      → d.fd ≡ cd.fd
      → IsSettled (headers_parsed os phr sc epollfd clients client d r t)
  unfolding headers_parsed headers_partial
  headers_parsed-Settled d invalid t e = drop_client-Settled d.fd t e
  headers_parsed-Settled d partial t e = elim (Bool-cases (leb max_buffr d.rq_size)) [
    | inl p ↦ rw p (drop_client-Settled d.fd t e)
    | inr p ↦ rw p (updated-Settled d t e (HasRoom-below d (ground arith)))
  ]
  headers_parsed-Settled d (complete size request) t e = headers_done-Settled _ t e

  read_more-Settled :
      (d : ClientData) (n : ℕ) (t : Trace)
      → d.fd ≡ cd.fd
      → d.state ≡ client_reading_body
      → IsSettled (read_more os phr sc epollfd clients client d n t)
  unfolding read_more respond_body
  read_more-Settled d n t e s = elim (Bool-cases (has_body d.body_len (d.rq_size + n))) [
    | inl p ↦ rw p (drop_client-Settled d.fd _ e)
    | inr p ↦ rw p (updated-Settled _ t e (HasRoom-later _ (λ h. cc)))
  ]

  by_state-Settled :
      (s : ClientState) (d : ClientData) (n : ℕ) (t : Trace)
      → d.fd ≡ cd.fd
      → d.state ≡ s
      → IsSettled (by_state os phr sc epollfd s clients client d n t)
  unfolding by_state read_headers
  by_state-Settled client_reading_headers d n t e h = headers_parsed-Settled _ _ t e
  by_state-Settled client_reading_body d n t e h = read_more-Settled d n t e h
  by_state-Settled client_sending_response d n t e h =
      updated-Settled d t e (HasRoom-later d (λ k. cc))

  same-Settled : (t : Trace) → IsSettled (go clients, t)
  unfolding Settled
  same-Settled t = (record { distinct = apart; others = λ q h. refl }, inl (cd, there, refl, roomy))

  client_received-Settled :
      (r : Result Bytes) (t : Trace)
      → IsSettled (client_received os phr sc epollfd clients client cd r t)
  unfolding client_received
  client_received-Settled (ok []) t = drop_client-Settled cd.fd t refl
  client_received-Settled (ok (b ∷ bs)) t = by_state-Settled cd.state _ _ t refl refl
  client_received-Settled (err e) t = elim (Bool-cases (e == eagain)) [
    | inl p ↦ rw p (same-Settled t)
    | inr p ↦ rw p (drop_client-Settled cd.fd t refl)
  ]

  -- In a list with no address twice, an event for a client of the list leaves every other client as
  -- it is and no address twice. The client itself stays in the list with its descriptor, and with room
  -- in its buffer as long as it reads the head of its request; or it is out of the list, and the last
  -- that was done is to close its descriptor and to take it out of the epoll list. `epoll_server` does
  -- not return, and the program runs into what C leaves undefined only where `rq_size` is past the
  -- array, of a client that does not read its head any more. All that for a client that has room
  -- in its buffer before the event if it reads the head of its request.
  pub client_event-Settled :
      (t : Trace) → IsSettled (client_event os phr sc epollfd clients client t)
  unfolding client_event serve_client Settled HasRoom
  client_event-Settled t = rw there (elim (Bool-cases (ltb max_buffr cd.rq_size)) [
    | inl p ↦ rw p (
        let over : max_buffr < cd.rq_size = ground arith in
        (over, λ h. absurd (omega (arith, roomy h))))
    | inr p ↦
        let r = tcp_recv os cd.fd (max_buffr - cd.rq_size) t in
        rw p (client_received-Settled r.0 r.1)
  ])

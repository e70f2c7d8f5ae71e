-- ===== src/Server/Arrival/Loop.antt =====
-- src/server.c: `epoll_server` reads a head that comes in pieces, one event for each piece.
use barehttp.Base.{
  ℕ, suc, ◌+◌, ◌-◌, ◌%◌, ◌^◌, ◌<◌, ◌≤◌, ◌≡◌, refl, arith, Bool-cases, false, inl, inr, ◌==◌, ltb,
  leb, [], ◌∷◌, ◌++◌, some, pos, ap, ◌∙◌, length, length-append, take, replicate,
}
use barehttp.CString.{Bytes, to_int}
use barehttp.CString.Memory.{take-poke_at, length-poke_at}
use barehttp.Os.{Os, Trace, M, Result, ok, received, closed, unwatched}
use barehttp.Http.{HttpRequest, ServerConf, max_buffr}
use barehttp.Http.Request.{http_get_content_length}
use barehttp.Http.Handlers.{http_process_request}
use barehttp.Tcp.{tcp_recv}
use barehttp.Server.Worker.{Parser, Parse, partial, complete, http_parse_request}
use barehttp.Server.Clients.{
  client_reading_headers, ClientData, Clients, client_at, update_client, remove_client,
}
use barehttp.Server.Clients.Laws.{update_client-at}
use barehttp.Server.Epoll.Client.{
  Next, go, fill, is_too_long, respond_headers, headers_done, headers_partial, headers_parsed,
  read_headers, by_state, client_received, serve_client, client_event,
}
use barehttp.Server.Epoll.Client.Buffer.{read_of}
use barehttp.Server.Epoll.Loop.{handle_event, handle_events}
use barehttp.Server.Arrival.{HeadArrives, last, more, Receives, after_receive}

-- The client reads its head on the connection `fd`, and `buff` is what it has read.
pub record IsReading (fd : ℕ) (buff : Bytes) (d : ClientData) : Type 0 where
  pub state : d.state ≡ client_reading_headers
  pub conn : d.fd ≡ fd
  pub array : length d.rq ≡ max_buffr
  pub size : d.rq_size ≡ length buff
  pub whole : take d.rq_size d.rq ≡ buff

remove-update_client :
    (cs : Clients) (p : ℕ) (d : ClientData)
    → remove_client (update_client cs p d) p ≡ remove_client cs p
unfolding remove_client update_client
remove-update_client [] p d = refl
remove-update_client ((q, e) ∷ cs) p d = ground (arith, remove-update_client cs p d)

-- What is done when the head of a request without a body has come: `after` is the trace so far.
abbrev pub after_answer : Os → ServerConf → ℕ → ℕ → HttpRequest → Trace → Trace
after_answer os sc epollfd fd request after =
    let u = (http_process_request os request fd sc after).1 in
    let v = unwatched epollfd fd (os.epoll_del u epollfd fd) ∷ u in closed fd (os.close v fd) ∷ v

no_body_fits : (n : ℕ) → n < max_buffr → is_too_long (pos 0) n ≡ false
unfolding is_too_long to_int
no_body_fits n h = ground arith

module _ (os : Os) (phr : Parser) (sc : ServerConf) (epollfd : ℕ) (clients : Clients) (client : ℕ)
    (fd : ℕ) (cd : ClientData) (there : client_at clients client ≡ some cd) (buff : Bytes)
    (reading : IsReading fd buff cd) (c : ℕ) (bs : Bytes) (t : Trace)
    (receives : Receives os fd buff t (c ∷ bs)) (fits : length (buff ++ (c ∷ bs)) ≤ max_buffr) where
  open reading use {state, conn, array, size, whole}

  abbrev buff' : Bytes
  buff' = buff ++ (c ∷ bs)

  abbrev t' : Trace
  t' = after_receive fd buff t (c ∷ bs)

  whole_read : take (cd.rq_size + length (c ∷ bs)) (read_of cd (c ∷ bs)).rq ≡ buff'
  whole_read =
      take-poke_at cd.rq cd.rq_size (c ∷ bs)
        (omega (arith, array, size, fits, length-append buff (c ∷ bs)))
      ∙ ap (λ l. l ++ (c ∷ bs)) whole

  here : os.recv t cd.fd (max_buffr - cd.rq_size) ≡ ok (c ∷ bs)
  here =
      ap (λ f. os.recv t f (max_buffr - cd.rq_size)) conn
      ∙ ap (λ n. os.recv t fd (max_buffr - n)) size
      ∙ receives

  same : received cd.fd (max_buffr - cd.rq_size) (ok (c ∷ bs)) ∷ t ≡ t'
  same =
      ap (λ f. received f (max_buffr - cd.rq_size) (ok (c ∷ bs)) ∷ t) conn
      ∙ ap (λ n. received fd (max_buffr - n) (ok (c ∷ bs)) ∷ t) size

  abbrev answered : Result Bytes → M Next
  answered = client_received os phr sc epollfd clients client cd

  abbrev parsed : Parse HttpRequest → M Next
  parsed = headers_parsed os phr sc epollfd clients client (read_of cd (c ∷ bs))

  -- The event comes to what follows the parser.
  event_parsed :
      (q : Parse HttpRequest)
      → http_parse_request phr buff' (length buff) ≡ q
      → client_event os phr sc epollfd clients client t
        ≡ headers_parsed os phr sc epollfd clients client (read_of cd (c ∷ bs)) q t'
  unfolding client_event serve_client client_received by_state read_headers tcp_recv
  event_parsed q p = rw there (elim (Bool-cases (ltb max_buffr cd.rq_size)) [
    | inl over ↦ absurd (ground (arith, length-append buff (c ∷ bs)))
    | inr room ↦ rw room (
        ap (λ a. answered a (received cd.fd (max_buffr - cd.rq_size) a ∷ t)) here
        ∙ ap (λ u. answered (ok (c ∷ bs)) u) same
        ∙ ap
            (λ s.
              by_state os phr sc epollfd s clients client (fill cd (c ∷ bs)) (length (c ∷ bs)) t')
            state
        ∙ ap (λ x. parsed (http_parse_request phr x cd.rq_size) t') whole_read
        ∙ ap (λ n. parsed (http_parse_request phr buff' n) t') size
        ∙ ap (λ q. parsed q t') p)
  ])

  abbrev next_client : ClientData
  next_client = read_of cd (c ∷ bs)

  next-IsReading : IsReading fd buff' next_client
  next-IsReading = record {
    state = state;
    conn = conn;
    array =
        length-poke_at cd.rq cd.rq_size (c ∷ bs)
          (omega (arith, array, size, fits, length-append buff (c ∷ bs)))
        ∙ array;
    size = omega (arith, size, length-append buff (c ∷ bs));
    whole = whole_read;
  }

  event_partial :
      http_parse_request phr buff' (length buff) ≡ partial
      → length buff' < max_buffr
      → client_event os phr sc epollfd clients client t
        ≡ (go (update_client clients client next_client), t')
  unfolding headers_parsed headers_partial
  event_partial p room =
      event_parsed partial p ∙ elim (Bool-cases (leb max_buffr (cd.rq_size + length (c ∷ bs)))) [
        | inl full ↦ absurd (ground (arith, length-append buff (c ∷ bs)))
        | inr e ↦ rw e refl
      ]

  event_complete :
      (n : ℕ) (request : HttpRequest)
      → http_parse_request phr buff' (length buff) ≡ complete n request
      → http_get_content_length request ≡ pos 0
      → length buff' < max_buffr
      → client_event os phr sc epollfd clients client t
        ≡ (go (remove_client clients client), after_answer os sc epollfd fd request t')
  unfolding headers_parsed headers_done respond_headers
  event_complete n request p z room =
      let short : is_too_long (pos 0) (cd.rq_size + length (c ∷ bs)) ≡ false =
        no_body_fits _ (omega (arith, size, room, length-append buff (c ∷ bs))) in
      event_parsed (complete n request) p
      ∙ rw (z, short)
          (ap (λ f. (go (remove_client clients client), after_answer os sc epollfd f request t'))
            conn)

module _ (os : Os) (phr : Parser) (sc : ServerConf) (epollfd sockfd : ℕ) (client fd : ℕ)
    (apart : (client % 2 ^ 32 == sockfd) ≡ false) where
  -- The first of some events for the client.
  first_event :
      (n : ℕ) (clients cs : Clients) (t u : Trace)
      → client_event os phr sc epollfd clients client t ≡ (go cs, u)
      → handle_events os phr sc epollfd sockfd (client ∷ replicate n client) clients t
        ≡ handle_events os phr sc epollfd sockfd (replicate n client) cs u
  unfolding handle_events handle_event
  first_event n clients cs t u e = rw (apart, e) refl

  module _ (text : Bytes) (after : Trace) (size : ℕ) (request : HttpRequest)
      (no_body : http_get_content_length request ≡ pos 0) (room : length text < max_buffr) where
    abbrev Answered : Bytes → Trace → Clients → Type 0
    Answered buff t clients =
        (n : ℕ) × (handle_events os phr sc epollfd sockfd (replicate n client) clients t
          ≡ (go (remove_client clients client), after_answer os sc epollfd fd request after))

    pub client-Answered :
        (buff : Bytes) (t : Trace) (clients : Clients) (cd : ClientData)
        → client_at clients client ≡ some cd
        → IsReading fd buff cd
        → HeadArrives os phr fd text after size request buff t
        → Answered buff t clients
    unfolding handle_events
    client-Answered buff t clients cd there reading (last _ _ c bs r p e a) =
        let done =
          event_complete os phr sc epollfd clients client fd cd there buff reading c bs t r
            (omega (arith, ap length e)) size request p no_body (omega (arith, ap length e)) in
        (1, first_event 0 clients _ t _ done ∙ cc)
    client-Answered buff t clients cd there reading (more _ _ c bs r p s h) =
        let fits : length (buff ++ (c ∷ bs)) ≤ max_buffr = omega (arith, s) in
        let cd' = read_of cd (c ∷ bs) in
        let (n, rest) =
          client-Answered (buff ++ (c ∷ bs)) (after_receive fd buff t (c ∷ bs))
            (update_client clients client cd') cd'
            (ground (arith, update_client-at clients client client cd cd' there))
            (next-IsReading os phr sc epollfd clients client fd cd there buff reading c bs t r fits)
            h in
        (
          suc n,
          first_event n clients _ t _ (
                event_partial os phr sc epollfd clients client fd cd there buff reading c bs t r
                  fits p s)
              ∙ rest
              ∙ ap (λ cs. (go cs, after_answer os sc epollfd fd request after))
                  (remove-update_client clients client cd'),
        )

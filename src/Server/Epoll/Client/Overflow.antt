-- ===== src/Server/Epoll/Client/Overflow.antt =====
-- src/server.c: the count of the bytes in `rq` of a client whose body is being read.
use barehttp.Base.{
  ℕ, ◌+◌, ◌-◌, ◌<◌, ◌≤◌, ltb, ◌≡◌, arith, ◌∷◌, some, pos, length, ◌∙◌, ap, Bool-cases, inl, inr,
}
use barehttp.CString.{Bytes}
use barehttp.Os.{Os, Trace, Result, ok, M, received}
use barehttp.Tcp.{tcp_recv}
use barehttp.Http.{ServerConf, max_buffr}
use barehttp.Server.Worker.{Parser}
use barehttp.Server.Clients.{client_reading_body, ClientData, Clients, client_at, update_client}
use barehttp.Server.Clients.Laws.{update_client-at}
use barehttp.Server.Epoll.Client.{
  Next, has_body, go, fault, fill, by_state, read_more, client_received, serve_client, client_event,
}

-- The client after a read that does not complete its body.
abbrev pub read_twice : ClientData → Bytes → ClientData
read_twice cd bs = record (fill cd bs) { rq_size = cd.rq_size + length bs + length bs }

module _ (os : Os) (phr : Parser) (sc : ServerConf) (epollfd : ℕ) (clients : Clients) (client : ℕ)
    (cd : ClientData) (there : client_at clients client ≡ some cd)
    (state : cd.state ≡ client_reading_body) where
  abbrev after_recv : Result Bytes → M Next
  after_recv = client_received os phr sc epollfd clients client cd

  read_more_open :
      (b n : ℕ) (d : ClientData) (t : Trace)
      → d.body_len ≡ pos b
      → d.rq_size + n < b + b
      → read_more os phr sc epollfd clients client d n t
        ≡ (go (update_client clients client (record d { rq_size = d.rq_size + n + n })), t)
  unfolding read_more has_body
  read_more_open b n d t e h = rw e (ground arith)

  overflown :
      (d : ClientData) (t : Trace)
      → max_buffr < d.rq_size
      → (cs : Clients) → client_at cs client ≡ some d
      → (client_event os phr sc epollfd cs client t).0 ≡ fault
  unfolding client_event serve_client
  overflown d t h cs left = rw left (ground arith)

  received_lem :
      (b c : ℕ) (bs : Bytes) (t : Trace)
      → cd.body_len ≡ pos b
      → cd.rq_size + length (c ∷ bs) < b + b
      → client_received os phr sc epollfd clients client cd (ok (c ∷ bs)) t
        ≡ (go (update_client clients client (read_twice cd (c ∷ bs))), t)
  unfolding client_received by_state
  received_lem b c bs t e h =
      ap (λ s. by_state os phr sc epollfd s clients client (fill cd (c ∷ bs)) (length (c ∷ bs)) t)
        state
      ∙ read_more_open b _ (fill cd (c ∷ bs)) t e h

  -- A read of a body that stays incomplete adds the bytes read to `rq_size` a second time. So where a
  -- client's `rq_size` is within the array but the count with the bytes twice is past it, the event
  -- leaves the client with that count in its place of the list; and an event that finds the client as
  -- it was left, in any list and after any calls, gives `recv` a negative length.
  pub client_event-overflow :
      (b c : ℕ) (bs : Bytes) (t u : Trace) (later : Clients)
      → cd.body_len ≡ pos b
      → os.recv t cd.fd (max_buffr - cd.rq_size) ≡ ok (c ∷ bs)
      → cd.rq_size ≤ max_buffr
      → cd.rq_size + length (c ∷ bs) < b + b
      → max_buffr < cd.rq_size + length (c ∷ bs) + length (c ∷ bs)
      → client_at later client ≡ some (read_twice cd (c ∷ bs))
      → let cs = update_client clients client (read_twice cd (c ∷ bs)) in
        ((client_event os phr sc epollfd clients client t).0 ≡ go cs)
        × (client_at cs client ≡ some (read_twice cd (c ∷ bs)))
        × ((client_event os phr sc epollfd later client u).0 ≡ fault)
  unfolding client_event serve_client tcp_recv
  client_event-overflow b c bs t u later e r room short over left = (
    rw there (elim (Bool-cases (ltb max_buffr cd.rq_size)) [
      | inl p ↦ absurd (ground arith)
      | inr p ↦ rw p (
          ap (λ a. (after_recv a (received cd.fd (max_buffr - cd.rq_size) a ∷ t)).0) r
          ∙ ap (λ a. a.0) (received_lem b c bs _ e short))
    ]),
    update_client-at clients client client cd (read_twice cd (c ∷ bs)) there ∙ ground arith,
    overflown (read_twice cd (c ∷ bs)) u over later left,
  )

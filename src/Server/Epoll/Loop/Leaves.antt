-- ===== src/Server/Epoll/Loop/Leaves.antt =====
-- src/server.c: how long a client can stay in the list of `epoll_server`.
use barehttp.Base.{
  ℕ, zero, suc, ◌+◌, ◌<◌, ◌≤◌, ◌≡◌, ◌≢◌, refl, arith, false, inl, inr, ◌==◌, ◌%◌, ◌^◌, none, some,
  replicate,
}
use barehttp.Os.{Os, Trace}
use barehttp.Http.{ServerConf, max_buffr}
use barehttp.Server.Worker.{Parser}
use barehttp.Server.Clients.{client_sending_response, ClientData, Clients, client_at}
use barehttp.Server.Clients.Laws.{IsDistinct}
use barehttp.Server.Epoll.Client.{Next, go, stop, fault, client_event}
use barehttp.Server.Epoll.Client.Progress.{
  Progressed, NeverWaits, client_event-Progressed, client_event-over,
}
use barehttp.Server.Epoll.Loop.{and_then, handle_event, handle_events}

-- The client is out of the list, or the program has come to what C leaves undefined.
abbrev pub HasLeft : ℕ → Next → Type 0
HasLeft client (go cs) = client_at cs client ≡ none
HasLeft client (stop _) = ⊥
HasLeft client fault = Unit {0}

module _ (os : Os) (phr : Parser) (sc : ServerConf) (epollfd sockfd client : ℕ)
    (apart : (client % 2 ^ 32 == sockfd) ≡ false) where
  abbrev events : ℕ → Clients → Trace → Next × Trace
  events n clients = handle_events os phr sc epollfd sockfd (replicate n client) clients

  events-next :
      (n : ℕ) (clients : Clients) (t : Trace)
      → let r = client_event os phr sc epollfd clients client t in
        events (suc n) clients t ≡ and_then os phr sc epollfd sockfd (events n) r.0 r.1
  unfolding handle_events handle_event
  events-next n clients t = rw apart refl

  -- What `n` events at most bring a client to.
  abbrev LeavesWithin : ℕ → Clients → Trace → Type 0
  LeavesWithin n clients t = (k : ℕ) × (k ≤ n) × HasLeft client (events k clients t).0

  leaves_next :
      (n : ℕ) (clients : Clients) (t : Trace) (cd : ClientData) (o : Next) (u : Trace)
      → client_event os phr sc epollfd clients client t ≡ (o, u)
      → Progressed cd client o
      → ((cs : Clients) (d : ClientData)
          → client_at cs client ≡ some d
          → d.state ≢ client_sending_response
          → cd.rq_size < d.rq_size
          → IsDistinct cs
          → LeavesWithin n cs u)
      → LeavesWithin (suc n) clients t
  unfolding handle_events
  leaves_next n clients t cd (go cs) u e (inl gone) h =
      (1, omega arith, rw (events-next 0 clients t, e) gone)
  leaves_next n clients t cd (go cs) u e (inr (d, at, s, l, i)) h =
      let (k, b, left) = h cs d at s l i in
      (suc k, omega (arith, b), rw (events-next k clients t, e) left)
  leaves_next n clients t cd (stop _) u e p h = absurd p
  leaves_next n clients t cd fault u e p h = (1, omega arith, rw (events-next 0 clients t, e) tt)

  module _ (waits : NeverWaits os) where
    -- In a list with no address twice, let a client be one that receives, with an address that is not
    -- taken for the listening descriptor, and let no call of `recv` answer that it would have to wait.
    -- Then as many events of the client in a row as its buffer has free bytes, and two more, are
    -- enough for the client to have been taken out of the list, or for its read position to have come
    -- past its buffer, where C leaves the next read undefined; `epoll_server` does not return.
    pub client_leaves :
        (n : ℕ) (clients : Clients) (cd : ClientData) (t : Trace)
        → IsDistinct clients
        → client_at clients client ≡ some cd
        → cd.state ≢ client_sending_response
        → max_buffr < n + cd.rq_size
        → (k : ℕ) × (k ≤ suc n)
          × HasLeft client (handle_events os phr sc epollfd sockfd (replicate k client) clients t).0
    unfolding handle_events
    client_leaves zero clients cd t i at s l =
        let over = client_event-over os phr sc epollfd clients client cd t at (omega (arith, l)) in
        (1, omega arith, rw (events-next 0 clients t, over) tt)
    client_leaves (suc n) clients cd t i at s l =
        let r = client_event os phr sc epollfd clients client t in
        leaves_next (suc n) clients t cd r.0 r.1 refl
          (client_event-Progressed os phr sc epollfd clients client cd i at waits s t)
          (λ cs d a b c j. client_leaves n cs d r.1 j a b (omega (arith, l, c)))

-- ===== src/Server/Epoll/Loop/Events.antt =====
-- The list of clients of `epoll_server` in src/server.c through the events of one round.
use barehttp.Base.{
  ℕ, zero, suc, ◌≡◌, inl, inr, sym, ◌∙◌, arith, Bool-cases, ◌==◌, ◌%◌, ◌^◌, List, [], ◌∷◌, none,
  some, Option-cases,
}
use mathlib.Core.Path.{subst}
use barehttp.Os.{Os, Trace, Result, ok, err}
use barehttp.Tcp.{tcp_accept_connection}
use barehttp.Http.{ServerConf}
use barehttp.Server.Worker.{Parser}
use barehttp.Server.Clients.{ClientData, Clients, client_at, addresses, add_client}
use barehttp.Server.Clients.Laws.{IsDistinct, add_client-at}
use barehttp.Server.Epoll.Client.{Next, go, stop, fault, serve_client, client_event}
use barehttp.Server.Epoll.Client.Frame.{HasRoom, HasRoom-below, Settled, client_event-Settled}
use barehttp.Server.Epoll.Loop.{
  new_client_data, quit_accept, client_accepted, and_then, quit_add, client_watched,
  register_client, new_client, handle_event, handle_events,
}

-- No address stands in the list twice, and every client that still reads the head of its request has
-- room in its buffer.
pub record Inv (cs : Clients) : Type 0 where
  pub distinct : IsDistinct cs
  pub roomy : (p : ℕ) (d : ClientData) → client_at cs p ≡ some d → HasRoom d

-- `calloc` does not hand out the address of a client that is allocated.
unfoldable pub IsFresh : Os → Type 0
IsFresh os = (t : Trace) (cs : Clients) → client_at cs (os.calloc_client t (addresses cs)) ≡ none

abbrev pub NextInv : Next → Type 0
NextInv (go cs) = Inv cs
NextInv (stop _) = Unit {0}
NextInv fault = Unit {0}

Settled-Inv :
    (epollfd : ℕ) (clients : Clients) (client : ℕ) (cd : ClientData) (n : Next) (t : Trace)
    → Inv clients
    → Settled epollfd clients client cd (n, t)
    → NextInv n
unfolding Settled
Settled-Inv epollfd clients client cd (go cs) t i (f, k) = record {
  distinct = f.distinct;
  roomy = λ p d e. elim (Bool-cases (p == client)) [
    | inl q ↦ elim k [
      | inl (d', at, fd, room) ↦ subst HasRoom (ground arith) room
      | inr (out, dropped) ↦ absurd (ground arith)
    ]
    | inr q ↦ i.roomy p d (sym (f.others p (ground arith)) ∙ e)
  ];
}
Settled-Inv epollfd clients client cd (stop _) t i s = tt
Settled-Inv epollfd clients client cd fault t i s = tt

module _ (os : Os) (phr : Parser) (sc : ServerConf) where
  client_event-Inv :
      (epollfd : ℕ) (clients : Clients) (client : ℕ) (t : Trace)
      → Inv clients
      → NextInv (client_event os phr sc epollfd clients client t).0
  unfolding client_event serve_client
  client_event-Inv epollfd clients client t i = elim (Option-cases (client_at clients client)) [
    | inl e ↦ rw e tt
    | inr (cd, e) ↦
        let r = client_event os phr sc epollfd clients client t in
        Settled-Inv epollfd clients client cd r.0 r.1 i (
          client_event-Settled os phr sc epollfd clients client cd i.distinct e
            (i.roomy client cd e) t)
  ]

  add_client-Inv :
      (clients : Clients) (p fd : ℕ)
      → client_at clients p ≡ none
      → Inv clients
      → Inv (add_client clients p (new_client_data fd))
  unfolding new_client_data
  add_client-Inv clients p fd n i = record {
    distinct = (add_client-at clients p p (new_client_data fd) i.distinct n).1;
    roomy = λ q d e.
        let at = (add_client-at clients p q (new_client_data fd) i.distinct n).0 in
        elim (Bool-cases (p == q)) [
          | inl h ↦ subst HasRoom (ground arith) (HasRoom-below (new_client_data fd) (omega arith))
          | inr h ↦ i.roomy q d (ground arith)
        ];
  }

  client_watched-Inv :
      (epollfd sockfd : ℕ) (clients : Clients) (r : Result (Unit {0})) (t : Trace)
      → Inv clients
      → NextInv (client_watched os phr sc epollfd sockfd clients r t).0
  unfolding client_watched quit_add
  client_watched-Inv epollfd sockfd clients (err _) t i = tt
  client_watched-Inv epollfd sockfd clients (ok _) t i = i

  register_client-Inv :
      (epollfd sockfd : ℕ) (clients : Clients) (fd cd : ℕ) (t : Trace)
      → client_at clients cd ≡ none
      → Inv clients
      → NextInv (register_client os phr sc epollfd sockfd clients fd cd t).0
  unfolding register_client
  register_client-Inv epollfd sockfd clients fd zero t n i = tt
  register_client-Inv epollfd sockfd clients fd (suc cd) t n i =
      client_watched-Inv epollfd sockfd _ _ _ (add_client-Inv clients (suc cd) fd n i)

  client_accepted-Inv :
      (epollfd sockfd : ℕ) (clients : Clients) (r : Result ℕ) (t : Trace)
      → IsFresh os
      → Inv clients
      → NextInv (client_accepted os phr sc epollfd sockfd clients r t).0
  unfolding client_accepted quit_accept IsFresh
  client_accepted-Inv epollfd sockfd clients (err _) t f i = tt
  client_accepted-Inv epollfd sockfd clients (ok fd) t f i =
      register_client-Inv epollfd sockfd clients fd _ _ (f _ clients) i

  new_client-Inv :
      (epollfd sockfd : ℕ) (clients : Clients) (t : Trace)
      → IsFresh os
      → Inv clients
      → NextInv (new_client os phr sc epollfd sockfd clients t).0
  unfolding new_client IsFresh
  new_client-Inv epollfd sockfd clients t f i =
      let a = tcp_accept_connection os sockfd t in
      client_accepted-Inv epollfd sockfd clients a.0 a.1 f i

  handle_event-Inv :
      (epollfd sockfd : ℕ) (clients : Clients) (word : ℕ) (t : Trace)
      → IsFresh os
      → Inv clients
      → NextInv (handle_event os phr sc epollfd sockfd clients word t).0
  unfolding handle_event
  handle_event-Inv epollfd sockfd clients word t f i = elim (Bool-cases (word % 2 ^ 32 == sockfd)) [
    | inl e ↦ rw e (new_client-Inv epollfd sockfd clients t f i)
    | inr e ↦ rw e (client_event-Inv epollfd clients word t i)
  ]

  and_then-Inv :
      (epollfd sockfd : ℕ) (rest : Clients → Trace → Next × Trace) (n : Next) (t : Trace)
      → NextInv n
      → ((cs : Clients) (u : Trace) → Inv cs → NextInv (rest cs u).0)
      → NextInv (and_then os phr sc epollfd sockfd rest n t).0
  and_then-Inv epollfd sockfd rest (go cs) t i h = h cs t i
  and_then-Inv epollfd sockfd rest (stop _) t i h = tt
  and_then-Inv epollfd sockfd rest fault t i h = tt

  pub handle_events-Inv :
      (epollfd sockfd : ℕ) (words : List ℕ) (clients : Clients) (t : Trace)
      → IsFresh os
      → Inv clients
      → NextInv (handle_events os phr sc epollfd sockfd words clients t).0
  unfolding handle_events
  handle_events-Inv epollfd sockfd [] clients t f i = i
  handle_events-Inv epollfd sockfd (word ∷ words) clients t f i =
      let n = handle_event os phr sc epollfd sockfd clients word t in
      and_then-Inv epollfd sockfd (handle_events os phr sc epollfd sockfd words) n.0 n.1
        (handle_event-Inv epollfd sockfd clients word t f i)
        (λ cs u j. handle_events-Inv epollfd sockfd words cs u f j)

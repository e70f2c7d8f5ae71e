-- ===== src/Server/Epoll/Loop/Quit.antt =====
-- src/server.c: what it means that `epoll_server` has freed what it was given, and that no event of a client
-- makes it return.
use barehttp.Base.{
  ℕ, suc, ltb, ◌-◌, ◌≡◌, arith, Bool-cases, Bool, true, false, inl, inr, [], ◌∷◌, Option, none,
  some, if◌then◌else◌, ℤ, pos, minus_one,
}
use barehttp.CString.{Bytes}
use barehttp.Os.{
  Os, Trace, Result, ok, err, closed, acquired, released, saw_sigint, got_flags, set_flags,
  Resource, conf_memory, log_memory, log_stream, events_memory,
}
use barehttp.Os.Held.{is_resource}
use barehttp.Http.{HttpRequest, ServerConf, max_buffr}
use barehttp.Tcp.{tcp_recv}
use barehttp.Server.Worker.{Parser, Parse, invalid, partial, complete}
use barehttp.Server.Clients.{
  ClientState, client_reading_headers, client_reading_body, client_sending_response, ClientData,
  Clients,
}
use barehttp.Server.Epoll.Client.{
  Next, stop, drop_client, respond_headers, respond_body, headers_done, headers_partial,
  headers_parsed, read_headers, read_more, by_state, client_received, serve_client,
}
use barehttp.Server.Epoll.Loop.{Outcome, returned}

-- How often a resource is freed by the last calls of a trace, those that free or close something or
-- read the variable `sigint`.
unfoldable pub freed_last : Resource → Trace → ℕ
freed_last r (released s ∷ t) = let n = freed_last r t in if is_resource s r then suc n else n
freed_last r (closed _ _ ∷ t) = freed_last r t
freed_last r (saw_sigint _ ∷ t) = freed_last r t
freed_last r _ = 0

-- The calls in front of those: they end with a refusal of `fcntl`, or of the memory for the events.
unfoldable pub has_no_events : Trace → Bool
has_no_events (released _ ∷ t) = has_no_events t
has_no_events (closed _ _ ∷ t) = has_no_events t
has_no_events (saw_sigint _ ∷ t) = has_no_events t
has_no_events (got_flags _ (err _) ∷ t) = true
has_no_events (set_flags _ _ (err _) ∷ t) = true
has_no_events (acquired events_memory false ∷ t) = true
has_no_events _ = false

abbrev is_interrupted : Trace → Bool
is_interrupted (saw_sigint true ∷ t) = true
is_interrupted _ = false

-- A return of `k`.
pub record IsQuit (k : ℤ) (t : Trace) : Type 0 where
  pub conf_once : freed_last conf_memory t ≡ 1
  pub log_once : freed_last log_memory t ≡ 1
  pub stream_once : freed_last log_stream t ≡ 1
  pub events_once : freed_last events_memory t ≡ (if has_no_events t then 0 else 1)
  pub code : k ≡ (if is_interrupted t then pos 0 else minus_one)

abbrev pub Quit : Outcome × Trace → Type 0
Quit (returned k, t) = IsQuit k t
Quit _ = Unit {0}

abbrev pub QuitNext : Next × Trace → Type 0
QuitNext (stop k, t) = IsQuit k t
QuitNext _ = Unit {0}

module _ (os : Os) (phr : Parser) (sc : ServerConf) where
  module _ (epollfd : ℕ) (clients : Clients) (client : ℕ) where
    headers_done-QuitNext :
        (d : ClientData) (t : Trace) → QuitNext (headers_done os phr sc epollfd clients client d t)
    unfolding headers_done drop_client respond_headers
    headers_done-QuitNext d t = ground arith

    headers_parsed-QuitNext :
        (d : ClientData) (r : Parse HttpRequest) (t : Trace)
        → QuitNext (headers_parsed os phr sc epollfd clients client d r t)
    unfolding headers_parsed headers_partial drop_client
    headers_parsed-QuitNext d invalid t = tt
    headers_parsed-QuitNext d partial t = ground arith
    headers_parsed-QuitNext d (complete size request) t = headers_done-QuitNext _ t

    by_state-QuitNext :
        (s : ClientState) (d : ClientData) (n : ℕ) (t : Trace)
        → QuitNext (by_state os phr sc epollfd s clients client d n t)
    unfolding by_state read_headers read_more respond_body drop_client
    by_state-QuitNext client_reading_headers d n t = headers_parsed-QuitNext _ _ t
    by_state-QuitNext client_reading_body d n t = ground arith
    by_state-QuitNext client_sending_response d n t = tt

    client_received-QuitNext :
        (d : ClientData) (r : Result Bytes) (t : Trace)
        → QuitNext (client_received os phr sc epollfd clients client d r t)
    unfolding client_received drop_client
    client_received-QuitNext d (ok []) t = tt
    client_received-QuitNext d (ok (b ∷ bs)) t = by_state-QuitNext d.state _ _ t
    client_received-QuitNext d (err e) t = ground arith

    pub serve_client-QuitNext :
        (d : Option ClientData) (t : Trace)
        → QuitNext (serve_client os phr sc epollfd clients client d t)
    unfolding serve_client
    serve_client-QuitNext none t = tt
    serve_client-QuitNext (some d) t = elim (Bool-cases (ltb max_buffr d.rq_size)) [
      | inl p ↦ rw p tt
      | inr p ↦
          let r = tcp_recv os d.fd (max_buffr - d.rq_size) t in
          rw p (client_received-QuitNext d r.0 r.1)
    ]

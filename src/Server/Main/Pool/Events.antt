-- ===== src/Server/Main/Pool/Events.antt =====
-- src/server.c: what `main` without USE_EPOLL does with the threads of the pool and with connections.
use mathlib.Core.Path.{subst}
use barehttp.Base.{
  ℕ, zero, suc, ◌≡◌, ◌⊎◌, refl, sym, ap, ◌∙◌, arith, Bool, true, false, inl, inr, Bool-cases, ℤ, [],
  ◌∷◌,
}
use barehttp.CString.{Bytes}
use barehttp.Os.{
  Os, Event, Trace, Result, ok, err, accepted, pushed, spawned, joined, detached, saw_sigint,
}
use barehttp.Os.Traces.{effects}
use barehttp.Http.{ServerConf}
use barehttp.Logs.{LogType, logs_print, get_client_ip_port}
use barehttp.Logs.Laws.{effects-logs_print, effects-get_client_ip_port}
use barehttp.Tcp.{tcp_start_connection, tcp_accept_connection, tcp_shutdown}
use barehttp.Server.Main.Pool.{stop_client, enqueue, next_round, accepted_one, accept_loop}

abbrev cons_pool_event : Event → Trace → Trace
cons_pool_event (accepted s (ok fd)) t = accepted s (ok fd) ∷ t
cons_pool_event (saw_sigint b) t = saw_sigint b ∷ t
cons_pool_event (pushed fd) t = pushed fd ∷ t
cons_pool_event (spawned i made) t = spawned i made ∷ t
cons_pool_event (joined i) t = joined i ∷ t
cons_pool_event (detached i) t = detached i ∷ t
cons_pool_event e t = t

-- The accepted connections, the reads of `sigint`, the connections put in the queue, and what was done
-- with threads.
unfoldable pub pool_events : Trace → Trace
pool_events [] = []
pool_events (e ∷ t) = cons_pool_event e (pool_events t)

pool_events-effects : (t : Trace) → pool_events (effects t) ≡ pool_events t
unfolding pool_events effects
pool_events-effects [] = refl
pool_events-effects (e ∷ t) = ground (arith, pool_events-effects t)

pool_events_of_effects : (t u : Trace) → effects u ≡ effects t → pool_events u ≡ pool_events t
pool_events_of_effects t u e =
    sym (pool_events-effects u) ∙ ap pool_events e ∙ pool_events-effects t

module _ (os : Os) where
  pub pool_events-logs_print :
      (type : LogType) (message : Bytes) (t : Trace)
      → pool_events (logs_print os type message t).1 ≡ pool_events t
  pool_events-logs_print type message t =
      pool_events_of_effects t _ (effects-logs_print os type message t)

  pool_events-get_client_ip_port :
      (fd : ℕ) (t : Trace) → pool_events (get_client_ip_port os fd t).1 ≡ pool_events t
  pool_events-get_client_ip_port fd t =
      pool_events_of_effects t _ (effects-get_client_ip_port os fd t)

  pub pool_events-tcp_shutdown :
      (fd : ℕ) (t : Trace) → pool_events (tcp_shutdown os fd t).1 ≡ pool_events t
  unfolding tcp_shutdown pool_events
  pool_events-tcp_shutdown fd t = ground arith

  pub pool_events-tcp_start_connection :
      (port backlog : ℤ) (t : Trace)
      → pool_events (tcp_start_connection os port backlog t).1 ≡ pool_events t
  unfolding tcp_start_connection pool_events
  pool_events-tcp_start_connection port backlog t = ground arith

  module _ (sc : ServerConf) where
    pub pool_events-stop_client :
        (fd : ℕ) (t : Trace) → pool_events (stop_client os sc fd t).1 ≡ pool_events t
    unfolding stop_client
    pool_events-stop_client fd t = ground (arith, pool_events-tcp_shutdown fd t)

    pool_events-enqueue :
        (sockfd fd : ℕ) (t : Trace)
        → let l = pool_events (enqueue os sc sockfd fd t).1 in
          (l ≡ pushed fd ∷ saw_sigint false ∷ pool_events t) ⊎ (l ≡ saw_sigint true ∷ pool_events t)
    unfolding enqueue pool_events
    pool_events-enqueue sockfd fd t =
        grind (arith, pool_events-logs_print, pool_events-get_client_ip_port)

    pool_events-refused_one :
        (sockfd e : ℕ) (t : Trace)
        → pool_events (accepted_one os sc sockfd (err e) (accepted sockfd (err e) ∷ t)).1
          ≡ pool_events t
    unfolding accepted_one pool_events
    pool_events-refused_one sockfd e t = grind (arith, pool_events-logs_print)

    -- What the loop keeps that is kept by a read of `sigint`, and by an accepted connection, which is
    -- then put in the queue or, where `sigint` is set, is not.
    module _ (sockfd : ℕ) (P : Trace → Type 0)
        (seen : (b : Bool) (l : Trace) → P l → P (saw_sigint b ∷ l))
        (queued : (fd : ℕ) (l : Trace)
          → P l
          → P (pushed fd ∷ saw_sigint false ∷ accepted sockfd (ok fd) ∷ l))
        (dropped : (fd : ℕ) (l : Trace)
          → P l
          → P (saw_sigint true ∷ accepted sockfd (ok fd) ∷ l)) where
      next_round_keeps :
          (again : Trace → Bool × Trace) (more : Bool) (t : Trace)
          → P (pool_events t)
          → ((u : Trace) → P (pool_events u) → P (pool_events (again u).1))
          → P (pool_events (next_round os sc sockfd again more t).1)
      next_round_keeps again true t p h = h t p
      next_round_keeps again false t p h = p

      accepted_one_keeps :
          (r : Result ℕ) (t : Trace)
          → P (pool_events t)
          → P (pool_events (accepted_one os sc sockfd r (accepted sockfd r ∷ t)).1)
      unfolding accepted_one pool_events
      accepted_one_keeps (ok fd) t p =
          elim (pool_events-enqueue sockfd fd (accepted sockfd (ok fd) ∷ t)) [
            | inl e ↦ subst P (sym e) (queued fd _ p)
            | inr e ↦ subst P (sym e) (dropped fd _ p)
          ]
      accepted_one_keeps (err e) t p = subst P (sym (pool_events-refused_one sockfd e t)) p

      pub accept_loop_keeps :
          (fuel : ℕ) (t : Trace)
          → P (pool_events t)
          → P (pool_events (accept_loop os sc sockfd fuel t).1)
      unfolding accept_loop tcp_accept_connection pool_events
      accept_loop_keeps zero t p = p
      accept_loop_keeps (suc fuel) t p = elim (Bool-cases (os.sigint t)) [
        | inl e ↦ rw e (seen true _ p)
        | inr e ↦
            let u = saw_sigint false ∷ t in
            let r = os.accept u sockfd in
            let one = accepted_one os sc sockfd r (accepted sockfd r ∷ u) in
            rw e (
              next_round_keeps (accept_loop os sc sockfd fuel) one.0 one.1
                (accepted_one_keeps r u (seen false _ p)) (accept_loop_keeps fuel))
      ]

-- ===== src/Server/Main/Pool/Memory.antt =====
-- src/server.c: what `main` without USE_EPOLL allocates and frees.
use barehttp.Base.{
  ℕ, zero, suc, ◌≡◌, refl, arith, Bool, true, false, ◌∷◌, ℤ, Bool-cases, inl, inr, ◌∙◌,
}
use barehttp.Os.{Os, Trace, Result, ok, err, accepted, spawned, saw_sigint}
use barehttp.Os.Held.{resources, resources_of_effects}
use barehttp.Http.{ServerConf}
use barehttp.Logs.{LogType, logs_print, get_client_ip_port}
use barehttp.Logs.Laws.{effects-logs_print, effects-get_client_ip_port}
use barehttp.Tcp.{tcp_start_connection, tcp_accept_connection, tcp_shutdown}
use barehttp.CString.{Bytes}
use barehttp.Server.Main.Pool.{
  detach_threads, stop_client, join_threads, enqueue, next_round, accepted_one, accept_loop,
  spawn_threads,
}

pub resources-detach_threads :
    (n j : ℕ) (t : Trace) → resources (detach_threads n j t).1 ≡ resources t
unfolding detach_threads resources
resources-detach_threads zero j t = refl
resources-detach_threads (suc n) j t = resources-detach_threads n (suc j) _

module _ (os : Os) where
  pub resources-logs_print :
      (type : LogType) (message : Bytes) (t : Trace)
      → resources (logs_print os type message t).1 ≡ resources t
  resources-logs_print type message t =
      resources_of_effects t _ (effects-logs_print os type message t)

  resources-get_client_ip_port :
      (fd : ℕ) (t : Trace) → resources (get_client_ip_port os fd t).1 ≡ resources t
  resources-get_client_ip_port fd t = resources_of_effects t _ (effects-get_client_ip_port os fd t)

  pub resources-tcp_shutdown :
      (fd : ℕ) (t : Trace) → resources (tcp_shutdown os fd t).1 ≡ resources t
  unfolding tcp_shutdown resources
  resources-tcp_shutdown fd t = ground arith

  pub resources-tcp_start_connection :
      (port backlog : ℤ) (t : Trace)
      → resources (tcp_start_connection os port backlog t).1 ≡ resources t
  unfolding tcp_start_connection resources
  resources-tcp_start_connection port backlog t = ground arith

  module _ (sc : ServerConf) where
    resources-stop_client :
        (fd : ℕ) (t : Trace) → resources (stop_client os sc fd t).1 ≡ resources t
    unfolding stop_client
    resources-stop_client fd t = ground (arith, resources-tcp_shutdown fd t)

    pub resources-join_threads :
        (n i : ℕ) (t : Trace) → resources (join_threads os sc n i t).1 ≡ resources t
    unfolding join_threads resources
    resources-join_threads zero i t = refl
    resources-join_threads (suc n) i t =
        resources-join_threads n (suc i) _ ∙ resources-stop_client (os.active_fd t i) _

    resources-enqueue :
        (sockfd fd : ℕ) (t : Trace) → resources (enqueue os sc sockfd fd t).1 ≡ resources t
    unfolding enqueue resources
    resources-enqueue sockfd fd t =
        grind (arith, resources-logs_print, resources-get_client_ip_port)

    pub resources-spawn_threads :
        (sockfd n i : ℕ) (t : Trace) → resources (spawn_threads os sc sockfd n i t).1 ≡ resources t
    unfolding spawn_threads resources
    resources-spawn_threads sockfd zero i t = refl
    resources-spawn_threads sockfd (suc n) i t =
        ground
          (arith, resources-spawn_threads sockfd n (suc i) (spawned i (os.pthread_create t i) ∷ t))

    module _ (sockfd : ℕ) where
      resources-accepted_one :
          (r : Result ℕ) (t : Trace) → resources (accepted_one os sc sockfd r t).1 ≡ resources t
      unfolding accepted_one
      resources-accepted_one (ok fd) t = resources-enqueue sockfd fd t
      resources-accepted_one (err e) t = grind (arith, resources-logs_print)

      resources-next_round :
          (again : Trace → Bool × Trace) (more : Bool) (t : Trace)
          → ((u : Trace) → resources (again u).1 ≡ resources u)
          → resources (next_round os sc sockfd again more t).1 ≡ resources t
      resources-next_round again true t h = h t
      resources-next_round again false t h = refl

      pub resources-accept_loop :
          (fuel : ℕ) (t : Trace) → resources (accept_loop os sc sockfd fuel t).1 ≡ resources t
      unfolding accept_loop tcp_accept_connection resources
      resources-accept_loop zero t = refl
      resources-accept_loop (suc fuel) t = elim (Bool-cases (os.sigint t)) [
        | inl p ↦ rw p refl
        | inr p ↦
            let r = os.accept (saw_sigint false ∷ t) sockfd in
            let u = accepted sockfd r ∷ saw_sigint false ∷ t in
            rw p (
              resources-next_round _ (accepted_one os sc sockfd r u).0 _
                (λ v. resources-accept_loop fuel v)
              ∙ resources-accepted_one r u)
      ]

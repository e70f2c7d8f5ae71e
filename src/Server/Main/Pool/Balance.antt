-- ===== src/Server/Main/Pool/Balance.antt =====
-- src/server.c: what is left allocated when `main` without USE_EPOLL returns.
use barehttp.Base.{
  ℕ, ◌+◌, ◌-◌, ◌≡◌, refl, arith, Bool, true, false, ◌∷◌, Option, none, some, if◌then◌else◌, ℤ, ap,
}
use barehttp.Os.{
  Os, Trace, acquired, released, conf_memory, log_memory, log_stream, queue_memory, threads_memory,
  args_memory,
}
use barehttp.Os.Held.{held, resources, held-resources}
use barehttp.Http.{ServerConf}
use barehttp.Server.Main.Pool.{pool_server}
use barehttp.Server.Main.Pool.Exits.{
  all_made, Exit, no_queue, no_socket, no_threads, no_args, no_spawn, no_shutdown, complete, Exits,
  pool_server-Exits,
}

-- Whether the last allocation was that of `args`, and refused.
unfoldable pub is_args_refused : Trace → Bool
is_args_refused (released _ ∷ t) = is_args_refused t
is_args_refused (acquired args_memory false ∷ t) = true
is_args_refused _ = false

-- The program holds what it held, but for the configuration and the log; where the allocation of
-- `args` was refused it holds `threads` in addition.
pub record Balanced (t u : Trace) : Type 0 where
  pub conf : held conf_memory u ≡ held conf_memory t - 1
  pub log : held log_memory u ≡ held log_memory t - 1
  pub stream : held log_stream u ≡ held log_stream t - 1
  pub queue : held queue_memory u ≡ held queue_memory t
  pub args : held args_memory u ≡ held args_memory t
  pub threads :
      held threads_memory u
      ≡ held threads_memory t + (if is_args_refused (resources u) then 1 else 0)

-- The program holds what it held, and what the pool works with.
pub record Working (t u : Trace) : Type 0 where
  pub conf : held conf_memory u ≡ held conf_memory t
  pub log : held log_memory u ≡ held log_memory t
  pub stream : held log_stream u ≡ held log_stream t
  pub queue : held queue_memory u ≡ held queue_memory t + 1
  pub args : held args_memory u ≡ held args_memory t + 1
  pub threads : held threads_memory u ≡ held threads_memory t + 1

abbrev pub Accounted : Trace → Option ℤ × Trace → Type 0
Accounted t (some _, u) = Balanced t u
Accounted t (none, u) = Working t u

all_made_lem :
    (l : Trace)
    → (held conf_memory (all_made l) ≡ held conf_memory l)
      × (held log_memory (all_made l) ≡ held log_memory l)
      × (held log_stream (all_made l) ≡ held log_stream l)
      × (held queue_memory (all_made l) ≡ held queue_memory l + 1)
      × (held args_memory (all_made l) ≡ held args_memory l + 1)
      × (held threads_memory (all_made l) ≡ held threads_memory l + 1)
unfolding held
all_made_lem l = (refl, refl, refl, refl, refl, refl)

Exit-Balanced :
    (l : Trace) (k : ℤ) (u : Trace)
    → Exit l k u
    → (held conf_memory u ≡ held conf_memory l - 1)
      × (held log_memory u ≡ held log_memory l - 1)
      × (held log_stream u ≡ held log_stream l - 1)
      × (held queue_memory u ≡ held queue_memory l)
      × (held args_memory u ≡ held args_memory l)
      × (held threads_memory u ≡ held threads_memory l + (if is_args_refused u then 1 else 0))
unfolding held is_args_refused
Exit-Balanced l _ _ no_queue = ground arith
Exit-Balanced l _ _ no_socket = ground arith
Exit-Balanced l _ _ no_threads = ground arith
Exit-Balanced l _ _ no_args = ground arith
Exit-Balanced l _ _ no_spawn = ground arith
Exit-Balanced l _ _ no_shutdown = ground arith
Exit-Balanced l _ _ complete = ground arith

Exits-Balanced : (k : ℤ) (t u : Trace) → Exit (resources t) k (resources u) → Balanced t u
Exits-Balanced k t u e =
    let (conf, log, stream, queue, args, threads) = Exit-Balanced _ _ _ e in
    record {
      conf = ground (arith, conf, held-resources conf_memory t, held-resources conf_memory u);
      log = ground (arith, log, held-resources log_memory t, held-resources log_memory u);
      stream = ground (arith, stream, held-resources log_stream t, held-resources log_stream u);
      queue = ground (arith, queue, held-resources queue_memory t, held-resources queue_memory u);
      args = ground (arith, args, held-resources args_memory t, held-resources args_memory u);
      threads =
          ground (arith, threads, held-resources threads_memory t, held-resources threads_memory u);
    }

Exits-Accounted : (t : Trace) (r : Option ℤ × Trace) → Exits (resources t) r → Accounted t r
Exits-Accounted t (some k, u) e = Exits-Balanced k t u e
Exits-Accounted t (none, u) e =
    let (conf, log, stream, queue, args, threads) = all_made_lem (resources t) in
    record {
      conf = ground (
        arith,
        ap (held conf_memory) e,
        conf,
        held-resources conf_memory t,
        held-resources conf_memory u,
      );
      log = ground (
        arith,
        ap (held log_memory) e,
        log,
        held-resources log_memory t,
        held-resources log_memory u,
      );
      stream = ground (
        arith,
        ap (held log_stream) e,
        stream,
        held-resources log_stream t,
        held-resources log_stream u,
      );
      queue = ground (
        arith,
        ap (held queue_memory) e,
        queue,
        held-resources queue_memory t,
        held-resources queue_memory u,
      );
      args = ground (
        arith,
        ap (held args_memory) e,
        args,
        held-resources args_memory t,
        held-resources args_memory u,
      );
      threads = ground (
        arith,
        ap (held threads_memory) e,
        threads,
        held-resources threads_memory t,
        held-resources threads_memory u,
      );
    }

-- Where `main` without USE_EPOLL returns, however many connections it accepted and whichever
-- allocation, call or thread failed, the configuration, the log and its stream are held once less
-- than when the queue was created, and the queue and `args` as often as then; so is `threads`,
-- unless the allocation of `args` was refused: then it is held once more. While its loop goes on, the
-- queue, `args` and `threads` are held once more and the others as often as then.
pub pool_server-Accounted :
    (os : Os) (sc : ServerConf) (fuel : ℕ) (t : Trace) → Accounted t (pool_server os sc fuel t)
pool_server-Accounted os sc fuel t = Exits-Accounted t _ (pool_server-Exits os sc fuel t)

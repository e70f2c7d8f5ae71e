-- ===== src/Server/Main/Pool.antt =====
-- src/server.c: what `main` does without USE_EPOLL: the queue, the pool of threads, the loop that
-- accepts connections, and the shutdown. The other threads run in between: what they leave in the table
-- of active descriptors is an answer of the system here, and their steps are in `Queue.Threads`.
pub mod Memory
pub mod Exits
pub mod Balance
pub mod Events
pub mod Threads
pub mod Joined
use barehttp.Base.{
  ℕ, zero, suc, ◌-◌, Option, none, some, ◌+◌, ◌*◌, ◌/◌, ◌%◌, Bool, true, false, ◌++◌, ◌==◌, not,
  ◌&&◌, if◌then◌else◌, ℤ, pos, negsuc, minus_one, is_neg, eq_ℤ,
}
use barehttp.CString.{Bytes, codes}
use barehttp.CString.Format.{decimal, print_int}
use barehttp.Os.{
  Os, M, pure, note, call, alloc, release, ◌>>=◌, ◌>>◌, Result, ok, err, queue_memory,
  threads_memory, args_memory, set_timeout, spawned, detached, joined, pushed, woke_threads,
  found_active, saw_sigint, eintr,
}
use barehttp.Logs.{logs_print, get_client_ip_port, log_error, log_info}
use barehttp.Logs.File.{logs_destroy}
use barehttp.Tcp.{tcp_start_connection, tcp_accept_connection, tcp_shutdown}
use barehttp.Http.{ServerConf}
use barehttp.Server.Epoll.Loop.{free_server_conf}

-- -n, and the quotient and the remainder of `/` and `%` on `int`.
unfoldable pub neg : ℕ → ℤ
neg n = if n == 0 then pos 0 else negsuc (n - 1)

unfoldable pub div_int : ℤ → ℕ → ℤ
div_int (pos n) m = pos (n / m)
div_int (negsuc n) m = neg ((n + 1) / m)

unfoldable pub mod_int : ℤ → ℕ → ℤ
mod_int (pos n) m = pos (n % m)
mod_int (negsuc n) m = neg ((n + 1) % m)

abbrev times : ℤ → ℕ → ℤ
times (pos n) m = pos (n * m)
times (negsuc n) m = neg ((n + 1) * m)

abbrev tv_sec : ServerConf → ℤ
tv_sec sc = div_int sc.timeout_ms 1000

abbrev tv_usec : ServerConf → ℤ
tv_usec sc = times (mod_int sc.timeout_ms 1000) 1000

-- How often a loop `for (i = 0; i < n; i++)` runs.
abbrev pub rounds : ℤ → ℕ
rounds (pos n) = n
rounds (negsuc _) = 0

-- The two calls of `calloc` and the `malloc` of `queue_create` are one allocation here.
abbrev queue_destroy : M (Unit {0})
queue_destroy = release queue_memory

-- What the returns do that stand before the threads.
unfoldable pub quit_threads : M ℤ
quit_threads = do queue_destroy; free_server_conf; logs_destroy; pure minus_one

-- `for(j=0; j<i; j++) pthread_detach(threads[j]);`, from `j` on, with `n` rounds left.
unfoldable pub detach_threads : ℕ → ℕ → M (Unit {0})
detach_threads zero j = pure tt
detach_threads (suc n) j = do note (detached j); detach_threads n (suc j)

unfoldable pub quit_spawn : ℕ → M ℤ
quit_spawn i = do
  detach_threads i 0
  queue_destroy
  free_server_conf
  logs_destroy
  release args_memory
  release threads_memory
  pure minus_one

unfoldable pub quit_shutdown : ℕ → M ℤ
quit_shutdown i = do
  detach_threads i 0
  free_server_conf
  queue_destroy
  logs_destroy
  release args_memory
  release threads_memory
  pure minus_one

unfoldable pub quit_done : M ℤ
quit_done = do
  queue_destroy
  free_server_conf
  logs_destroy
  release args_memory
  release threads_memory
  pure (pos 0)

module _ (os : Os) (sc : ServerConf) where
  unfoldable pub stop_client : ℕ → M (Unit {0})
  stop_client clientfd = if clientfd == 0 then pure tt else (do tcp_shutdown os clientfd; pure tt)

  -- The loop over the threads at the end, from `i` on, with `n` rounds left.
  unfoldable pub join_threads : ℕ → ℕ → M (Unit {0})
  join_threads zero i = pure tt
  join_threads (suc n) i = do
    clientfd ← call (λ t. os.active_fd t i) (found_active i)
    stop_client clientfd
    note (joined i)
    join_threads n (suc i)

  module _ (sockfd : ℕ) where
    -- What follows the last call of `tcp_shutdown`.
    unfoldable pub socket_shut : ℤ → M ℤ
    socket_shut ret = if is_neg ret then quit_shutdown (rounds sc.pool_size) else quit_done

    -- From `queue_shutdown` to the end.
    unfoldable pub shut_down : M ℤ
    shut_down = do
      logs_print os log_info (codes "SIGINT received, shutting down server")
      note woke_threads
      join_threads (rounds sc.pool_size) 0
      ret ← tcp_shutdown os sockfd
      socket_shut ret

    -- A connection is accepted. `queue_push` waits while the queue is full, which is a matter of the
    -- other threads; then it reads `sigint`, and puts the connection in the queue only if that is not
    -- set.
    unfoldable pub enqueue : ℕ → M (Unit {0})
    enqueue clientfd = do
      if eq_ℤ (tv_sec sc) (pos 0) && eq_ℤ (tv_usec sc) (pos 0)
          then pure tt
          else note (set_timeout clientfd (tv_sec sc) (tv_usec sc))
      get_client_ip_port os clientfd
      sigint ← call (λ t. os.sigint t) saw_sigint
      if sigint then pure tt else note (pushed clientfd)
      logs_print os log_info
          (codes "New connection added to queue: descriptor " ++ decimal clientfd)
      pure tt

    -- What follows `tcp_accept_connection`: whether the loop goes on.
    unfoldable pub accepted_one : Result ℕ → M Bool
    accepted_one (ok clientfd) = do enqueue clientfd; pure true
    accepted_one (err e) = if e == eintr then pure false else (do
      logs_print os log_error (codes "Error accepting connection: " ++ os.strerror e)
      pure false)

    abbrev pub next_round : M Bool → Bool → M Bool
    next_round again true = again
    next_round again false = pure true

    -- `while(!sigint)`: at most `fuel` rounds; whether it has ended.
    unfoldable pub accept_loop : ℕ → M Bool
    accept_loop zero = pure false
    accept_loop (suc fuel) = do
      sigint ← call (λ t. os.sigint t) saw_sigint
      if sigint then pure true else (do
        clientfd ← tcp_accept_connection os sockfd
        more ← accepted_one clientfd
        next_round (accept_loop fuel) more)

    -- `none`: the rounds are used up.
    unfoldable pub accept_done : Bool → M (Option ℤ)
    accept_done true = do ret ← shut_down; pure (some ret)
    accept_done false = pure none

    -- The loop that makes the threads, from `i` on, with `n` rounds left; `some i` where the creation of
    -- thread `i` fails.
    unfoldable pub spawn_threads : ℕ → ℕ → M (Option ℕ)
    spawn_threads zero i = pure none
    spawn_threads (suc n) i = do
      made ← call (λ t. os.pthread_create t i) (spawned i)
      if made then spawn_threads n (suc i) else pure (some i)

    unfoldable pub threads_made : ℕ → Option ℕ → M (Option ℤ)
    threads_made fuel (some i) = do
      logs_print os log_error (codes "Error spawning thread")
      ret ← quit_spawn i
      pure (some ret)
    threads_made fuel none = do ended ← accept_loop fuel; accept_done ended

    -- From the allocation of `threads` on.
    unfoldable pub with_threads : ℕ → M (Option ℤ)
    with_threads fuel = do
      logs_print os log_info (codes "Server initialized in port " ++ print_int sc.listen_port)
      threads ← alloc os threads_memory
      if threads
          then (do
            args ← alloc os args_memory
            if args
                then (do made ← spawn_threads (rounds sc.pool_size) 0; threads_made fuel made)
                else (do ret ← quit_threads; pure (some ret)))
          else (do ret ← quit_threads; pure (some ret))

  -- `tcp_start_connection` failed.
  unfoldable pub quit_socket : M (Option ℤ)
  quit_socket = do
    logs_print os log_error (codes "Error opening TCP socket")
    ret ← quit_threads
    pure (some ret)

  -- What follows `tcp_start_connection`, with its result and `sockfd`. A result that is not -1 comes with
  -- a descriptor.
  unfoldable pub socket_made : ℕ → ℤ × ℤ → M (Option ℤ)
  socket_made fuel (pos _, pos sockfd) = with_threads sockfd fuel
  socket_made fuel (_, _) = quit_socket

  unfoldable pub quit_queue : M (Option ℤ)
  quit_queue = do
    logs_print os log_error (codes "Error iniziating client queue")
    free_server_conf
    logs_destroy
    pure (some minus_one)

  -- From `queue_create` on; at most `fuel` connections are accepted.
  unfoldable pub pool_server : ℕ → M (Option ℤ)
  pool_server fuel = do
    cq ← alloc os queue_memory
    if cq
        then (do s ← tcp_start_connection os sc.listen_port sc.backlog; socket_made fuel s)
        else quit_queue

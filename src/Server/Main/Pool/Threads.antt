-- ===== src/Server/Main/Pool/Threads.antt =====
-- src/server.c: the threads and the connections that `main` without USE_EPOLL leaves.
use barehttp.Base.{
  ℕ, zero, suc, ◌+◌, ◌-◌, ◌≤◌, ◌≡◌, refl, sym, ap, ◌∙◌, arith, Bool, true, false, inl, inr,
  Bool-cases, [], ◌∷◌, List, ◌==◌, ltb, leb, ◌&&◌, if◌then◌else◌, Option, none, some,
}
use barehttp.Os.{
  Os, Event, Trace, ok, accepted, pushed, spawned, joined, detached, found_active, saw_sigint,
}
use barehttp.Http.{ServerConf}
use barehttp.Server.Main.Pool.{detach_threads, stop_client, join_threads, spawn_threads}
use barehttp.Server.Main.Pool.Events.{pool_events, pool_events-stop_client}

abbrev cons_running : ℕ → Event → Bool → Bool
cons_running id (spawned i true) b = if i == id then true else b
cons_running id (joined i) b = if i == id then false else b
cons_running id (detached i) b = if i == id then false else b
cons_running id e b = b

-- Whether a thread has been made and neither joined nor detached since.
unfoldable pub is_running : ℕ → Trace → Bool
is_running id [] = false
is_running id (e ∷ t) = cons_running id e (is_running id t)

abbrev cons_due : Event → List ℕ × Option ℕ → List ℕ × Option ℕ
cons_due (accepted _ (ok fd)) (l, _) = (l, some fd)
cons_due (saw_sigint false) (l, some fd) = (fd ∷ l, none)
cons_due (saw_sigint false) (l, none) = (l, none)
cons_due (saw_sigint true) (l, _) = (l, none)
cons_due e d = d

-- The accepted connections for which the next read of `sigint` found it not set, newest first, and the
-- connection that was accepted last if `sigint` has not been read since.
unfoldable pub due : Trace → List ℕ × Option ℕ
due [] = ([], none)
due (e ∷ t) = cons_due e (due t)

abbrev cons_pushed : Event → List ℕ → List ℕ
cons_pushed (pushed fd) l = fd ∷ l
cons_pushed e l = l

-- The connections that were put in the queue, newest first.
unfoldable pub pushed_fds : Trace → List ℕ
pushed_fds [] = []
pushed_fds (e ∷ t) = cons_pushed e (pushed_fds t)

-- These three look at pool events only.
pub is_running-pool_events : (id : ℕ) (t : Trace) → is_running id (pool_events t) ≡ is_running id t
unfolding is_running pool_events
is_running-pool_events id [] = refl
is_running-pool_events id (e ∷ t) = ground (arith, is_running-pool_events id t)

due-pool_events : (t : Trace) → due (pool_events t) ≡ due t
unfolding due pool_events
due-pool_events [] = refl
due-pool_events (e ∷ t) = ground (arith, due-pool_events t)

pushed_fds-pool_events : (t : Trace) → pushed_fds (pool_events t) ≡ pushed_fds t
unfolding pushed_fds pool_events
pushed_fds-pool_events [] = refl
pushed_fds-pool_events (e ∷ t) = ground (arith, pushed_fds-pool_events t)

-- Whether `id` is one of the `n` numbers from `i` on.
abbrev pub within : ℕ → ℕ → ℕ → Bool
within i n id = leb i id && ltb id (i + n)

-- The loop that detaches threads.
pub is_running-detach_threads :
    (id n j : ℕ) (t : Trace)
    → is_running id (detach_threads n j t).1 ≡ (if within j n id then false else is_running id t)
unfolding detach_threads is_running
is_running-detach_threads id zero j t = ground arith
is_running-detach_threads id (suc n) j t =
    ground (arith, is_running-detach_threads id n (suc j) (detached j ∷ t))

abbrev pub fds : Trace → (List ℕ × Option ℕ) × List ℕ
fds t = (due t, pushed_fds t)

pub fds-pool_events : (t : Trace) → fds (pool_events t) ≡ fds t
fds-pool_events t = grind (arith, due-pool_events t, pushed_fds-pool_events t)

pub fds-detach_threads : (n j : ℕ) (t : Trace) → fds (detach_threads n j t).1 ≡ fds t
unfolding detach_threads due pushed_fds
fds-detach_threads zero j t = refl
fds-detach_threads (suc n) j t = fds-detach_threads n (suc j) (detached j ∷ t)

-- What the creation of threads comes to, from `i` on, for the thread `id`.
abbrev pub Made : (id i n : ℕ) (t : Trace) → Option ℕ × Trace → Type 0
Made id i n t (none, u) = is_running id u ≡ (if within i n id then true else is_running id t)
Made id i n t (some k, u) =
    (i ≤ k) × (is_running id u ≡ (if within i (k - i) id then true else is_running id t))

Made-next :
    (id i n : ℕ) (t : Trace) (r : Option ℕ × Trace)
    → Made id (suc i) n (spawned i true ∷ t) r
    → Made id i (suc n) t r
unfolding is_running
Made-next id i n t (none, u) h = ground arith
Made-next id i n t (some k, u) h = ground arith

module _ (os : Os) (sc : ServerConf) where
  is_running-stop_client :
      (id fd : ℕ) (t : Trace) → is_running id (stop_client os sc fd t).1 ≡ is_running id t
  is_running-stop_client id fd t =
      sym (is_running-pool_events id _)
      ∙ ap (is_running id) (pool_events-stop_client os sc fd t)
      ∙ is_running-pool_events id t

  -- The loop that joins them.
  pub is_running-join_threads :
      (id n i : ℕ) (t : Trace)
      → is_running id (join_threads os sc n i t).1
        ≡ (if within i n id then false else is_running id t)
  unfolding join_threads is_running
  is_running-join_threads id zero i t = ground arith
  is_running-join_threads id (suc n) i t =
      let u = (stop_client os sc (os.active_fd t i) (found_active i (os.active_fd t i) ∷ t)).1 in
      is_running-join_threads id n (suc i) (joined i ∷ u)
      ∙ ground (
        arith,
        is_running-stop_client id (os.active_fd t i) (found_active i (os.active_fd t i) ∷ t),
      )

  fds-stop_client : (fd : ℕ) (t : Trace) → fds (stop_client os sc fd t).1 ≡ fds t
  fds-stop_client fd t =
      sym (fds-pool_events _) ∙ ap fds (pool_events-stop_client os sc fd t) ∙ fds-pool_events t

  pub fds-join_threads : (n i : ℕ) (t : Trace) → fds (join_threads os sc n i t).1 ≡ fds t
  unfolding join_threads due pushed_fds
  fds-join_threads zero i t = refl
  fds-join_threads (suc n) i t = fds-join_threads n (suc i) _ ∙ fds-stop_client (os.active_fd t i) _

  module _ (sockfd : ℕ) where
    pub spawn_threads-Made :
        (id n i : ℕ) (t : Trace) → Made id i n t (spawn_threads os sc sockfd n i t)
    unfolding spawn_threads is_running
    spawn_threads-Made id zero i t = ground arith
    spawn_threads-Made id (suc n) i t = elim (Bool-cases (os.pthread_create t i)) [
      | inl e ↦ rw e (Made-next id i n t _ (spawn_threads-Made id n (suc i) (spawned i true ∷ t)))
      | inr e ↦ rw e (ground arith)
    ]

    pub fds-spawn_threads : (n i : ℕ) (t : Trace) → fds (spawn_threads os sc sockfd n i t).1 ≡ fds t
    unfolding spawn_threads due pushed_fds
    fds-spawn_threads zero i t = refl
    fds-spawn_threads (suc n) i t =
        ground (arith, fds-spawn_threads n (suc i) (spawned i (os.pthread_create t i) ∷ t))

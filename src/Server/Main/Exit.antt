-- ===== src/Server/Main/Exit.antt =====
-- src/server.c: what `main` has freed when it returns, from its first call on.
use barehttp.Base.{ℕ, ◌≡◌, ◌⊎◌, refl, Bool-cases, true, false, inl, inr, ◌∷◌, some, minus_one}
use barehttp.CString.{Bytes}
use barehttp.Os.{Os, Trace, Result, ok, err, acquired, released, opened_root, conf_memory}
use barehttp.Http.{ServerConf}
use barehttp.Logs.File.{LogInit, null, opened_log, overrun, logs_init_file}
use barehttp.Server.Worker.{Parser}
use barehttp.Server.Clients.{Clients}
use barehttp.Server.Conf.{
  Cfg, CfgStatus, cfg_success, cfg_file_error, cfg_parse_error, Confuse, read_conf, root_opened,
  store_conf, conf_parsed, initialize_server_conf, opts,
}
use barehttp.Server.Epoll.Loop.{Outcome, returned, faulted, running, free_server_conf}
use barehttp.Server.Epoll.Loop.Quit.{IsQuit, Quit}
use barehttp.Server.Epoll.Loop.Start.{epoll_server-Quit}
use barehttp.Server.Main.{log_made, conf_made, main}

module _ (os : Os) where
  -- The ways in which `main` ends in front of `epoll_server`, with all the calls made from the trace
  -- `t` on.
  pub data Refused (t : Trace) : Trace → Type 0 where
    -- The file is not a configuration.
    no_conf : Refused t t
    no_memory : Refused t (acquired conf_memory false ∷ t)
    -- The configuration stays allocated.
    no_root :
        (root : Bytes) (e : ℕ)
        → Refused t (opened_root root (err e) ∷ acquired conf_memory true ∷ t)
    -- Behind the calls of `logs_init_file` there is only that which frees the configuration.
    no_log :
        (root log_name : Bytes) (root_fd : ℕ) (u : Trace)
        → logs_init_file os
            (some log_name)
            (opened_root root (ok root_fd) ∷ acquired conf_memory true ∷ t)
          ≡ (null, u)
        → Refused t (released conf_memory ∷ u)

  abbrev pub Ended : Trace → Outcome × Trace → Type 0
  Ended t (returned k, u) = IsQuit k u ⊎ ((k ≡ minus_one) × Refused t u)
  Ended t (faulted, u) = Unit {0}
  Ended t (running _, u) = Unit {0}

  Quit-Ended : (t : Trace) (r : Outcome × Trace) → Quit r → Ended t r
  Quit-Ended t (returned k, u) q = inl q
  Quit-Ended t (faulted, u) q = tt
  Quit-Ended t (running _, u) q = tt

  module _ (phr : Parser) (fuel : ℕ) (clients : Clients) where
    log_made-Ended :
        (sc : ServerConf) (root : Bytes) (root_fd : ℕ) (t : Trace) (r : LogInit × Trace)
        → logs_init_file os
            (some sc.log_file)
            (opened_root root (ok root_fd) ∷ acquired conf_memory true ∷ t)
          ≡ r
        → Ended t (log_made os phr fuel clients sc r.0 r.1)
    unfolding log_made free_server_conf
    log_made-Ended sc root root_fd t (null, u) e = inr (refl, no_log root _ root_fd u e)
    log_made-Ended sc root root_fd t (overrun, u) e = tt
    log_made-Ended sc root root_fd t (opened_log _, u) e =
        Quit-Ended t _ (epoll_server-Quit os phr sc fuel clients _)

    root_opened-Ended :
        (cfg : Cfg) (root : Bytes) (r : Result ℕ) (t : Trace)
        → let c = root_opened os cfg r (opened_root root r ∷ acquired conf_memory true ∷ t) in
          Ended t (conf_made os phr fuel clients c.0 c.1)
    unfolding root_opened conf_made
    root_opened-Ended cfg root (err e) t = inr (refl, no_root root e)
    root_opened-Ended cfg root (ok root_fd) t =
        log_made-Ended (read_conf cfg root_fd) root root_fd t _ refl

    store_conf-Ended :
        (cfg : Cfg) (t : Trace)
        → let c = store_conf os cfg t in Ended t (conf_made os phr fuel clients c.0 c.1)
    unfolding store_conf conf_made
    store_conf-Ended cfg t = elim (Bool-cases (os.alloc t conf_memory)) [
      | inl p ↦ rw p (root_opened-Ended cfg _ _ t)
      | inr p ↦ rw p (inr (refl, no_memory))
    ]

    conf_parsed-Ended :
        (r : CfgStatus × Cfg) (t : Trace)
        → let c = conf_parsed os r t in Ended t (conf_made os phr fuel clients c.0 c.1)
    unfolding conf_parsed conf_made
    conf_parsed-Ended (cfg_parse_error, cfg) t = inr (refl, no_conf)
    conf_parsed-Ended (cfg_file_error, cfg) t = store_conf-Ended cfg t
    conf_parsed-Ended (cfg_success, cfg) t = store_conf-Ended cfg t

    -- When `main` returns, either its last calls free what `epoll_server` was given, as
    -- `IsQuit` says, or it never came to `epoll_server` and returns -1, and its calls are no more than
    -- these: none, where the file is not a configuration; the refused allocation of the
    -- configuration; or that allocation and the failed opening of the root, so that the configuration
    -- is not freed; or both, those of a `logs_init_file` that returns NULL, and the call that frees
    -- the configuration.
    pub main-Ended : (confuse : Confuse) (t : Trace) → Ended t (main os phr fuel clients confuse t)
    unfolding main initialize_server_conf
    main-Ended confuse t = conf_parsed-Ended (confuse opts _) t

-- ===== src/Server/Main.antt =====
-- src/server.c: `main` as it is compiled, with USE_EPOLL. `Pool` is what stands behind the `#endif`.
pub mod Pool
pub mod Exit
mod Examples
use barehttp.Base.{ℕ, Option, none, some, ℤ, minus_one}
use barehttp.CString.{Bytes, codes}
use barehttp.Os.{Os, M, pure, note, ◌>>=◌, ◌>>◌, handled_sigint, ignored_sigpipe}
use barehttp.Http.{ServerConf}
use barehttp.Logs.File.{LogInit, null, opened_log, overrun, logs_init_file}
use barehttp.Server.Clients.{Clients}
use barehttp.Server.Conf.{Confuse, initialize_server_conf}
use barehttp.Server.Worker.{Parser}
use barehttp.Server.Epoll.Loop.{Outcome, returned, faulted, free_server_conf, epoll_server}

module _ (os : Os) (phr_parse_request : Parser) (fuel : ℕ) (clients : Clients) where
  -- What follows `logs_init_file`.
  unfoldable pub log_made : ServerConf → LogInit → M Outcome
  log_made sc null = do free_server_conf; pure (returned minus_one)
  log_made sc overrun = pure faulted
  log_made sc (opened_log _) = do
    note handled_sigint
    note ignored_sigpipe
    epoll_server os phr_parse_request sc fuel clients

  -- What follows `initialize_server_conf`.
  unfoldable pub conf_made : Option ServerConf → M Outcome
  conf_made none = pure (returned minus_one)
  conf_made (some sc) = do lf ← logs_init_file os (some sc.log_file); log_made sc lf

  -- At most `fuel` rounds of the loop of `epoll_server`, from the `clients` that its variable
  -- `active_clients` leads to.
  unfoldable pub main : Confuse → M Outcome
  main confuse = do sc ← initialize_server_conf os confuse (codes "server.conf"); conf_made sc

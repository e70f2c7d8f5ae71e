-- ===== src/Server/Conf.antt =====
-- src/server.c: `initialize_server_conf`. The library libconfuse is a parameter.
pub mod Stored
use barehttp.Base.{
  ℕ, ◌-◌, ◌%◌, ◌^◌, Bool, true, false, List, [], ◌∷◌, Option, none, some, if◌then◌else◌, ℤ, pos,
  negsuc,
}
use barehttp.CString.{Bytes, codes, to_int}
use barehttp.Os.{Os, M, pure, call, ◌>>=◌, ◌>>◌, Result, ok, err, alloc, conf_memory, opened_root}
use barehttp.Http.{ServerConf}

-- `CFG_INT` and `CFG_STR`: an option with its default.
pub data CfgOpt : Type 0 where
  cfg_int : (name : Bytes) → (default : ℤ) → CfgOpt
  cfg_str : (name default : Bytes) → CfgOpt

pub data CfgStatus : Type 0 where
  cfg_success : CfgStatus
  cfg_file_error : CfgStatus
  cfg_parse_error : CfgStatus

-- What `cfg_getint` and `cfg_getstr` give for each name.
pub record Cfg : Type 0 where
  pub cfg_getint : Bytes → ℤ
  pub cfg_getstr : Bytes → Bytes

-- `cfg_init` and `cfg_parse` on the options and the name of a file.
abbrev pub Confuse : Type 0
Confuse = List CfgOpt → Bytes → CfgStatus × Cfg

-- `opts`.
unfoldable pub opts : List CfgOpt
opts =
    cfg_int (codes "listen_port") (pos 8000)
    ∷ cfg_str (codes "server_root") (codes "www/")
    ∷ cfg_str (codes "server_signature") (codes "Server")
    ∷ cfg_str (codes "log_file") (codes "server_logs")
    ∷ cfg_int (codes "timeout_ms") (pos 1000)
    ∷ cfg_int (codes "pool_size") (pos 8)
    ∷ cfg_int (codes "queue_size") (pos 32)
    ∷ cfg_int (codes "backlog") (pos 10)
    ∷ []

-- A `long` as it is stored in an `int`.
unfoldable pub long_to_int : ℤ → ℤ
long_to_int (pos n) = to_int n
long_to_int (negsuc n) = to_int (2 ^ 32 - 1 - n % 2 ^ 32)

unfoldable pub read_conf : Cfg → ℕ → ServerConf
read_conf cfg root_fd = record {
  server_root = cfg.cfg_getstr (codes "server_root");
  root_fd = root_fd;
  listen_port = long_to_int (cfg.cfg_getint (codes "listen_port"));
  server_signature = cfg.cfg_getstr (codes "server_signature");
  log_file = cfg.cfg_getstr (codes "log_file");
  timeout_ms = long_to_int (cfg.cfg_getint (codes "timeout_ms"));
  queue_size = long_to_int (cfg.cfg_getint (codes "queue_size"));
  pool_size = long_to_int (cfg.cfg_getint (codes "pool_size"));
  backlog = long_to_int (cfg.cfg_getint (codes "backlog"));
}

module _ (os : Os) where
  -- What follows `open`.
  unfoldable pub root_opened : Cfg → Result ℕ → M (Option ServerConf)
  root_opened cfg (err _) = pure none
  root_opened cfg (ok root_fd) = pure (some (read_conf cfg root_fd))

  -- From `malloc` on. `strdup` is taken to succeed with it.
  unfoldable pub store_conf : Cfg → M (Option ServerConf)
  store_conf cfg = do
    sc ← alloc os conf_memory
    let root = cfg.cfg_getstr (codes "server_root")
    if sc
        then (do fd ← call (λ t. os.open_root t root) (opened_root root); root_opened cfg fd)
        else pure none

  unfoldable pub conf_parsed : CfgStatus × Cfg → M (Option ServerConf)
  conf_parsed (cfg_parse_error, cfg) = pure none
  conf_parsed (cfg_file_error, cfg) = store_conf cfg
  conf_parsed (cfg_success, cfg) = store_conf cfg

  unfoldable pub initialize_server_conf : Confuse → Bytes → M (Option ServerConf)
  initialize_server_conf confuse conf_filename = conf_parsed (confuse opts conf_filename)

-- ===== src/Server/Conf/Stored.antt =====
-- src/server.c: what `initialize_server_conf` returns, and the values it stores.
use barehttp.Base.{
  ℕ, ◌^◌, ◌≡◌, ◌≢◌, ◌⊎◌, inl, inr, refl, arith, ltb, Bool, Bool-cases, true, false, Option, none,
  some, ◌∷◌, ℤ, pos, negsuc,
}
use barehttp.CString.{Bytes, codes, to_int}
use barehttp.Os.{Os, Trace, Result, ok, err, acquired, opened_root, conf_memory}
use barehttp.Http.{ServerConf}
use barehttp.Server.Conf.{
  CfgStatus, cfg_success, cfg_file_error, cfg_parse_error, Cfg, Confuse, opts, long_to_int,
  read_conf, root_opened, store_conf, conf_parsed, initialize_server_conf,
}

-- Whether a number is in the range of `int`.
abbrev fits_int : ℤ → Bool
fits_int (pos n) = ltb n (2 ^ 31)
fits_int (negsuc n) = ltb n (2 ^ 31)

-- An `int` that was made from a `long`: the same number where the range allows it.
abbrev IsStored : ℤ → ℤ → Type 0
IsStored value stored = (fits_int stored ≡ true) × ((stored ≡ value) ⊎ (fits_int value ≡ false))

long_to_int-IsStored : (value : ℤ) → IsStored value (long_to_int value)
unfolding long_to_int to_int
long_to_int-IsStored (pos n) = ground arith
long_to_int-IsStored (negsuc n) = ground arith

-- The values of a configuration, as `cfg_getint` and `cfg_getstr` give them by their names.
pub record Stores (cfg : Cfg) (sc : ServerConf) : Type 0 where
  pub listen_port : IsStored (cfg.cfg_getint (codes "listen_port")) sc.listen_port
  pub queue_size : IsStored (cfg.cfg_getint (codes "queue_size")) sc.queue_size
  pub pool_size : IsStored (cfg.cfg_getint (codes "pool_size")) sc.pool_size
  pub backlog : IsStored (cfg.cfg_getint (codes "backlog")) sc.backlog
  pub timeout_ms : IsStored (cfg.cfg_getint (codes "timeout_ms")) sc.timeout_ms
  pub server_root : sc.server_root ≡ cfg.cfg_getstr (codes "server_root")
  pub server_signature : sc.server_signature ≡ cfg.cfg_getstr (codes "server_signature")
  pub log_file : sc.log_file ≡ cfg.cfg_getstr (codes "log_file")

read_conf-Stores : (cfg : Cfg) (root_fd : ℕ) → Stores cfg (read_conf cfg root_fd)
unfolding read_conf
read_conf-Stores cfg root_fd = record {
  listen_port = long_to_int-IsStored _;
  queue_size = long_to_int-IsStored _;
  pool_size = long_to_int-IsStored _;
  backlog = long_to_int-IsStored _;
  timeout_ms = long_to_int-IsStored _;
  server_root = refl;
  server_signature = refl;
  log_file = refl;
}

module _ (os : Os) where
  -- What opening the root answers, behind the allocation.
  abbrev root_answer : Trace → Bytes → Result ℕ
  root_answer t root = os.open_root (acquired conf_memory true ∷ t) root

  abbrev pub Configured : CfgStatus × Cfg → Trace → Option ServerConf × Trace → Type 0
  Configured (status, cfg) t (some sc, u) =
      (status ≢ cfg_parse_error)
      × Stores cfg sc
      × (root_answer t sc.server_root ≡ ok sc.root_fd)
      × (u ≡ opened_root sc.server_root (ok sc.root_fd) ∷ acquired conf_memory true ∷ t)
  Configured (status, cfg) t (none, u) =
      ((status ≡ cfg_parse_error) × (u ≡ t))
      ⊎ ((os.alloc t conf_memory ≡ false) × (u ≡ acquired conf_memory false ∷ t))
      ⊎ ((e : ℕ) × (root_answer t (cfg.cfg_getstr (codes "server_root")) ≡ err e)
          × (u
              ≡ opened_root (cfg.cfg_getstr (codes "server_root")) (err e)
                ∷ acquired conf_memory true
                ∷ t))

  root_opened-Configured :
      (status : CfgStatus) (cfg : Cfg) (r : Result ℕ) (t : Trace)
      → status ≢ cfg_parse_error
      → root_answer t (cfg.cfg_getstr (codes "server_root")) ≡ r
      → Configured
          (status, cfg)
          t
          (root_opened os cfg r
            (opened_root (cfg.cfg_getstr (codes "server_root")) r ∷ acquired conf_memory true ∷ t))
  unfolding root_opened read_conf
  root_opened-Configured status cfg (err e) t p h = inr (inr (e, h, refl))
  root_opened-Configured status cfg (ok fd) t p h = (p, read_conf-Stores cfg fd, h, refl)

  store_conf-Configured :
      (status : CfgStatus) (cfg : Cfg) (t : Trace)
      → status ≢ cfg_parse_error
      → Configured (status, cfg) t (store_conf os cfg t)
  unfolding store_conf
  store_conf-Configured status cfg t p = elim (Bool-cases (os.alloc t conf_memory)) [
    | inl e ↦ rw e (root_opened-Configured status cfg _ t p refl)
    | inr e ↦ rw e (inr (inl (e, refl)))
  ]

  conf_parsed-Configured : (r : CfgStatus × Cfg) (t : Trace) → Configured r t (conf_parsed os r t)
  unfolding conf_parsed
  conf_parsed-Configured (cfg_parse_error, cfg) t = inl (refl, refl)
  conf_parsed-Configured (cfg_file_error, cfg) t =
      store_conf-Configured cfg_file_error cfg t (λ p. cc)
  conf_parsed-Configured (cfg_success, cfg) t = store_conf-Configured cfg_success cfg t (λ p. cc)

  -- `initialize_server_conf` returns a configuration unless the file is wrongly written, the
  -- memory is refused, or the directory it names as its root cannot be opened, and then it makes no
  -- calls but these. A configuration has the values that libconfuse gives for its names: the texts as
  -- they are, the numbers in the range of `int`, as they are if they are in that range; and the
  -- descriptor of the root it names. A missing file is no error.
  pub initialize_server_conf_lem :
      (confuse : Confuse) (file : Bytes) (t : Trace)
      → Configured (confuse opts file) t (initialize_server_conf os confuse file t)
  unfolding initialize_server_conf
  initialize_server_conf_lem confuse file t = conf_parsed-Configured _ t

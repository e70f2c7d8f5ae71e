-- ===== src/Server/Main/Examples.antt =====
-- Runs of `main` of src/server.c over the sample system, with both servers.
use barehttp.Base.{◌≡◌, refl, false, [], ◌∷◌, List, if◌then◌else◌, ℤ, pos, negsuc, minus_one}
use barehttp.CString.{Bytes, codes, str_eq}
use barehttp.Server.Main.Pool.Threads.{is_running, due, pushed_fds}
use barehttp.Server.Main.Pool.Joined.{PoolStands, pool_server-Stands}
use barehttp.Os.{Os}
use barehttp.Os.Sample.{sample}
use barehttp.Http.Sample.{conf}
use barehttp.Server.Worker.{Parser, partial}
use barehttp.Server.Conf.{
  CfgOpt, cfg_int, cfg_str, cfg_file_error, Confuse, opts, initialize_server_conf,
}
use barehttp.Server.Conf.Stored.{Configured, initialize_server_conf_lem}
use barehttp.Server.Main.{main}
use barehttp.Server.Main.Exit.{Ended, main-Ended}
use barehttp.Server.Main.Pool.{pool_server, rounds, div_int, mod_int, neg}
use barehttp.Server.Main.Pool.Balance.{Accounted, pool_server-Accounted}

abbrev silent : Parser
silent = λ buff last_len n. partial

unfoldable int_default : List CfgOpt → Bytes → ℤ
int_default [] name = pos 0
int_default (cfg_int n d ∷ os) name =
    let rest = int_default os name in if str_eq n name then d else rest
int_default (cfg_str _ _ ∷ os) name = int_default os name

unfoldable str_default : List CfgOpt → Bytes → Bytes
str_default [] name = []
str_default (cfg_str n d ∷ os) name =
    let rest = str_default os name in if str_eq n name then d else rest
str_default (cfg_int _ _ ∷ os) name = str_default os name

-- There is no configuration file.
abbrev no_file : Confuse
no_file os file =
    (cfg_file_error, record { cfg_getint = int_default os; cfg_getstr = str_default os })

initialize_server_conf_lem_example :
    Configured sample
      (no_file opts (codes "server.conf"))
      []
      (initialize_server_conf sample no_file (codes "server.conf") [])
initialize_server_conf_lem_example =
    initialize_server_conf_lem sample no_file (codes "server.conf") []

main-Ended_example : Ended sample [] (main sample silent 2 [] no_file [])
main-Ended_example = main-Ended sample silent 2 [] no_file []

pool_server-Accounted_example : Accounted [] (pool_server sample conf 3 [])
pool_server-Accounted_example = pool_server-Accounted sample conf 3 []

-- Connections come, and no SIGINT.
abbrev undisturbed : Os
undisturbed = record sample { sigint = λ t. false }

pool_server-Stands_example :
    PoolStands 1 (rounds conf.pool_size) (pool_server undisturbed conf 3 [])
unfolding is_running due pushed_fds
pool_server-Stands_example = pool_server-Stands undisturbed conf 1 3 [] (refl, refl)

-- A second and a half in front of zero, as C divides.
negative_timeout :
    (div_int (negsuc 1499) 1000 ≡ minus_one) × (mod_int (negsuc 1499) 1000 ≡ negsuc 499)
unfolding div_int mod_int neg
negative_timeout = (refl, refl)

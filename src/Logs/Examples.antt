-- ===== src/Logs/Examples.antt =====
-- One line of the log file of srclib/logs.c.
use barehttp.Base.{◌+◌, ◌≡◌, ◌⊎◌, refl, [], ◌∷◌, some, pos, minus_one}
use barehttp.CString.{codes}
use barehttp.Os.{log_memory, log_stream, ok, unlocked_log, locked_log, logged}
use barehttp.Os.Traces.{log_trace}
use barehttp.Os.Sample.{sample}
use barehttp.Logs.{LogType, log_prefix, strftime, logs_print}
use barehttp.Logs.File.{complete_log_name, logs_init_file}
use barehttp.Logs.File.Laws.{Named, streams, logs_init_file_lem}
use barehttp.Os.Held.{held}
use barehttp.Logs.Laws.{newest, logs_print_lem}

logs_print_lem_example :
    let r = logs_print sample LogType.log_info (codes "hello") [] in
    let date = (strftime 32 (codes "01-01-1970, 00-00-00")).0 in
    (newest (log_trace r.1) ≡ some unlocked_log)
    × ((r.0 ≡ minus_one)
        ⊎ ((r.0 ≡ pos 0)
            × (log_trace r.1
                ≡ unlocked_log
                  ∷ logged (codes "\n") (ok tt)
                  ∷ logged (codes "hello") (ok tt)
                  ∷ logged (log_prefix date LogType.log_info) (ok tt)
                  ∷ locked_log
                  ∷ log_trace [])))
logs_print_lem_example = logs_print_lem sample LogType.log_info (codes "hello") []

one_line :
    log_prefix (codes "01-01-1970, 00-00-00") LogType.log_info
    ≡ codes "[01-01-1970, 00-00-00] [INFO] "
unfolding log_prefix codes
one_line = refl

logs_init_file_lem_example :
    let r = logs_init_file sample (some (codes "log")) [] in
    let date = (strftime 32 (codes "01-01-1970, 00-00-00")).0 in
    Named r.0 (complete_log_name (codes "log") date)
    × (held log_memory r.1 ≡ held log_memory [] + 1)
    × (held log_stream r.1 ≡ held log_stream [] + streams r.0)
logs_init_file_lem_example = logs_init_file_lem sample (codes "log") [] refl

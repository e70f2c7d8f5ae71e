-- ===== src/Logs/File/Laws.antt =====
-- What `logs_init_file` of srclib/logs.c opens, and what it leaves allocated.
use barehttp.Base.{ℕ, ◌+◌, ◌≡◌, ◌<◌, ◌≤◌, arith, true, ◌∷◌, some, length}
use barehttp.CString.{Bytes, codes}
use barehttp.Os.{Os, Trace, log_memory, log_stream, told_time}
use barehttp.Os.Held.{held}
use barehttp.Logs.{strftime}
use barehttp.Logs.File.{
  LogInit, null, opened_log, overrun, complete_log_name, logs_directory, open_log, init_named,
  logs_init_file,
}

-- How many more streams stand open after a call with this result.
abbrev pub streams : LogInit → ℕ
streams (opened_log _) = 1
streams _ = 0

abbrev pub Named : LogInit → Bytes → Type 0
Named (opened_log path) name = (path ≡ name) × (length name < 256)
Named null name = Unit {0}
Named overrun name = 256 ≤ length name

module _ (os : Os) (log_name : Bytes) (t : Trace) where
  abbrev pub after : LogInit × Trace
  after = logs_init_file os (some log_name) t

  abbrev pub date : Bytes
  date = (strftime 32 (os.local_text (codes "%d-%m-%Y_%H-%M-%S") (os.time t))).0

  -- A log that is returned is on the file named by the configured name and the date, and that name
  -- fits in its array; the array is overrun only where it does not. Where the first `malloc` succeeds
  -- its memory stays allocated whatever is returned, NULL included; the stream is open after the call
  -- where a log is returned, and only there.
  pub logs_init_file_lem :
      os.alloc (told_time (os.time t) ∷ t) log_memory ≡ true
      → Named after.0 (complete_log_name log_name date)
        × (held log_memory after.1 ≡ held log_memory t + 1)
        × (held log_stream after.1 ≡ held log_stream t + streams after.0)
  unfolding logs_init_file init_named logs_directory open_log held
  logs_init_file_lem h = ground arith

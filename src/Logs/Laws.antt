-- ===== src/Logs/Laws.antt =====
-- What `logs_print` and `get_client_ip_port` of srclib/logs.c do and leave alone.
use barehttp.Base.{ℕ, ◌≡◌, ◌⊎◌, Option, none, some, [], ◌∷◌, pos, minus_one, arith}
use barehttp.CString.{Bytes, codes}
use barehttp.Os.{Os, Trace, Event, ok, unlocked_log, locked_log, logged}
use barehttp.Os.Traces.{
  effects, log_trace, sends, opens, open_count, sends_of_effects, opens_of_effects,
  open_count_of_effects,
}
use barehttp.Logs.{LogType, strftime, log_prefix, logs_print, get_client_ip_port}

abbrev pub newest : Trace → Option Event
newest [] = none
newest (e ∷ t) = some e

module _ (os : Os) where
  pub effects-logs_print :
      (type : LogType) (message : Bytes) (t : Trace)
      → effects (logs_print os type message t).1 ≡ effects t
  unfolding logs_print effects
  effects-logs_print type message t = ground arith

  pub effects-get_client_ip_port :
      (fd : ℕ) (t : Trace) → effects (get_client_ip_port os fd t).1 ≡ effects t
  unfolding get_client_ip_port effects
  effects-get_client_ip_port fd t = grind (arith, effects-logs_print)

  module _ (type : LogType) (message : Bytes) (t : Trace) where
    pub sends-logs_print : (fd : ℕ) → sends fd (logs_print os type message t).1 ≡ sends fd t
    sends-logs_print = sends_of_effects t _ (effects-logs_print type message t)

    pub opens-logs_print : opens (logs_print os type message t).1 ≡ opens t
    opens-logs_print = opens_of_effects t _ (effects-logs_print type message t)

    pub open_count-logs_print :
        (fd : ℕ) → open_count fd (logs_print os type message t).1 ≡ open_count fd t
    open_count-logs_print = open_count_of_effects t _ (effects-logs_print type message t)

  module _ (fd : ℕ) (t : Trace) where
    pub sends-get_client_ip_port : (g : ℕ) → sends g (get_client_ip_port os fd t).1 ≡ sends g t
    sends-get_client_ip_port = sends_of_effects t _ (effects-get_client_ip_port fd t)

    pub opens-get_client_ip_port : opens (get_client_ip_port os fd t).1 ≡ opens t
    opens-get_client_ip_port = opens_of_effects t _ (effects-get_client_ip_port fd t)

    pub open_count-get_client_ip_port :
        (g : ℕ) → open_count g (get_client_ip_port os fd t).1 ≡ open_count g t
    open_count-get_client_ip_port = open_count_of_effects t _ (effects-get_client_ip_port fd t)

  -- Whatever the writes to the file answer, the last thing that `logs_print` does to the log is to
  -- give up its mutex. The result is -1, or it is 0 and the log holds, in one piece between taking
  -- the mutex and giving it up, the date and the name of the type, the message, and the end of the
  -- line, each of them written.
  pub logs_print_lem :
      (type : LogType) (message : Bytes) (t : Trace)
      → let r = logs_print os type message t in
        let date = (strftime 32 (os.local_text (codes "%d-%m-%Y, %H-%M-%S") (os.time t))).0 in
        (newest (log_trace r.1) ≡ some unlocked_log)
        × ((r.0 ≡ minus_one)
            ⊎ ((r.0 ≡ pos 0)
                × (log_trace r.1
                    ≡ unlocked_log
                      ∷ logged (codes "\n") (ok tt)
                      ∷ logged message (ok tt)
                      ∷ logged (log_prefix date type) (ok tt)
                      ∷ locked_log
                      ∷ log_trace t)))
  unfolding logs_print log_trace
  logs_print_lem type message t = (ground arith, ground arith)

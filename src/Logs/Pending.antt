-- ===== src/Logs/Pending.antt =====
-- srclib/logs.c accepts and closes no connection.
use barehttp.Base.{ℕ, ◌≡◌}
use barehttp.CString.{Bytes}
use barehttp.Os.{Os, Trace}
use barehttp.Os.Pending.{pending, pending_of_effects}
use barehttp.Logs.{LogType, logs_print, get_client_ip_port}
use barehttp.Logs.Laws.{effects-logs_print, effects-get_client_ip_port}

module _ (os : Os) (g : ℕ) where
  pub pending-logs_print :
      (type : LogType) (message : Bytes) (t : Trace)
      → pending g (logs_print os type message t).1 ≡ pending g t
  pending-logs_print type message t =
      pending_of_effects g t _ (effects-logs_print os type message t)

  pub pending-get_client_ip_port :
      (fd : ℕ) (t : Trace) → pending g (get_client_ip_port os fd t).1 ≡ pending g t
  pending-get_client_ip_port fd t = pending_of_effects g t _ (effects-get_client_ip_port os fd t)

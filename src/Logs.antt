-- ===== src/Logs.antt =====
-- srclib/logs.c: the log file, its mutex, and the text of a client's address.
pub mod Laws
pub mod Pending
pub mod File
mod Examples
use barehttp.Base.{ℕ, ◌∷◌, [], ◌++◌, ltb, if◌then◌else◌, ℤ, pos, minus_one, length}
use barehttp.CString.{Bytes, codes}
use barehttp.CString.Format.{decimal}
use barehttp.CString.Memory.{c_str}
use barehttp.Os.{
  Os, M, pure, call, ◌>>=◌, ◌>>◌, Result, ok, err, told_time, named_peer, locked_log, unlocked_log,
  logged,
}

pub data LogType : Type 0 where
  log_error : LogType
  log_warning : LogType
  log_info : LogType

unfoldable get_log_type_name : LogType → Bytes
get_log_type_name log_error = codes "ERRR"
get_log_type_name log_warning = codes "WARN"
get_log_type_name log_info = codes "INFO"

-- `strftime (buf, size, …)`: the string in `buf` and the value returned. C leaves the array as it
-- may be where the text does not fit; the texts that the program asks for do.
unfoldable pub strftime : ℕ → Bytes → Bytes × ℕ
strftime size text = if ltb (length text) size then (text, length text) else ([], 0)

-- What `logs_print` writes in front of the message.
unfoldable pub log_prefix : Bytes → LogType → Bytes
unfolding get_log_type_name
log_prefix date type = codes "[" ++ date ++ codes "] [" ++ get_log_type_name type ++ codes "] "

module _ (os : Os) where
  abbrev pub ask_time : M ℕ
  ask_time = call (λ t. os.time t) told_time

  abbrev pub fprintf : Bytes → M (Result (Unit {0}))
  fprintf text = call (λ t. os.fprintf t text) (logged text)

  abbrev lock : M (Unit {0})
  lock t = (tt, locked_log ∷ t)

  abbrev unlock : M (Unit {0})
  unlock t = (tt, unlocked_log ∷ t)

  -- `message` is the format with its arguments put in.
  unfoldable pub logs_print : LogType → Bytes → M ℤ
  logs_print type message = do
    now ← ask_time
    let date = (strftime 32 (os.local_text (codes "%d-%m-%Y, %H-%M-%S") now)).0
    lock
    ret ← fprintf (log_prefix date type)
    elim ret [
      | err _ ↦ do unlock; pure minus_one
      | ok _ ↦ do
        ret ← fprintf message
        elim ret [
          | err _ ↦ do unlock; pure minus_one
          | ok _ ↦ do
            ret ← fprintf (codes "\n")
            elim ret [ err _ ↦ do unlock; pure minus_one | ok _ ↦ do unlock; pure (pos 0) ]
        ]
    ]

  -- The text in `ip_port_str`. Where the address is not to be had the array keeps what it held.
  unfoldable pub get_client_ip_port : ℕ → M Bytes
  get_client_ip_port clientfd = do
    peer ← call (λ t. os.getpeername t clientfd) (named_peer clientfd)
    elim peer [
      | err _ ↦ do
        logs_print log_error (codes "Error obteniendo la ip y el puerto del cliente")
        λ t. (c_str (os.garbage t), t)
      | ok (ip, port) ↦ pure (ip ++ codes ":" ++ decimal port)
    ]

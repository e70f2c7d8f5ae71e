-- ===== src/Logs/File.antt =====
-- srclib/logs.c: `logs_init_file` and `logs_destroy`.
pub mod Laws
use barehttp.Base.{
  ℕ, Bool, true, false, ◌∷◌, [], ◌++◌, Option, none, some, ltb, if◌then◌else◌, length,
}
use barehttp.CString.{Bytes, codes}
use barehttp.Os.{
  Os, M, pure, call, ◌>>=◌, ◌>>◌, Result, ok, err, Resource, log_memory, log_stream, alloc, release,
  acquired, note, statted_logs, made_logs, fopened, made_mutex,
}
use barehttp.Logs.{strftime, ask_time}

-- What `logs_init_file` returns: NULL, or a log on the file with this name. `overrun` stands for a
-- `sprintf` past the end of `complete_log_name`, which C leaves undefined.
pub data LogInit : Type 0 where
  null : LogInit
  opened_log : Bytes → LogInit
  overrun : LogInit

-- `"logs/%s_%s.log"`.
unfoldable pub complete_log_name : Bytes → Bytes → Bytes
complete_log_name log_name date =
    codes "logs/" ++ (log_name ++ (codes "_" ++ (date ++ codes ".log")))

module _ (os : Os) where
  -- The directory: whether it is there when the call goes on.
  unfoldable pub logs_directory : M Bool
  logs_directory = do
    st ← call (λ t. os.stat_logs t) statted_logs
    elim st [
      | err _ ↦ do
        made ← call (λ t. os.mkdir_logs t) made_logs
        elim made [ err _ ↦ pure false | ok _ ↦ pure true ]
      | ok is_dir ↦ pure is_dir
    ]

  -- From `fopen` on.
  unfoldable pub open_log : Bytes → M LogInit
  open_log name = do
    file ← call (λ t. os.fopen t name) (fopened name)
    elim file [
      | err _ ↦ pure null
      | ok _ ↦ do
        note (acquired log_stream true)
        mutex ← call (λ t. os.mutex_init t) made_mutex
        if mutex then pure (opened_log name) else (do release log_stream; pure null)
    ]

  -- From the second test on; the name is not NULL.
  unfoldable pub init_named : ℕ → Bytes → M LogInit
  init_named now log_name =
      let date = (strftime 32 (os.local_text (codes "%d-%m-%Y_%H-%M-%S") now)).0 in
      let name = complete_log_name log_name date in
      do
        there ← logs_directory
        if there then (if ltb (length name) 256 then open_log name else pure overrun) else pure null

  -- `none` is a `log_name` of NULL.
  unfoldable pub logs_init_file : Option Bytes → M LogInit
  logs_init_file log_name = do
    now ← ask_time os
    lf ← alloc os log_memory
    if lf then (elim log_name [ none ↦ pure null | some name ↦ init_named now name ]) else pure null

-- `fclose`, the mutex, and `free`.
unfoldable pub logs_destroy : M (Unit {0})
logs_destroy = do release log_stream; release log_memory

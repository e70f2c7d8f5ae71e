-- ===== src/Http/Script.antt =====
-- srclib/http.c: `process_script`, which runs a program of the root directory and sends what it
-- prints.
pub mod Laws
pub mod Rounds
use barehttp.Base.{
  ℕ, zero, suc, ◌+◌, ◌-◌, Bool, true, false, List, [], ◌∷◌, ◌++◌, Option, none, some, ◌==◌, ltb,
  leb, if◌then◌else◌, ℤ, pos, is_neg, eq_ℤ, minus_one, minus_two, minus_three, length, drop,
}
use barehttp.CString.{Bytes, codes, str_eq, after_last}
use barehttp.CString.Format.{decimal, print_int}
use barehttp.CString.Memory.{c_str, snprintf}
use barehttp.Os.{
  Os, M, pure, call, ◌>>=◌, ◌>>◌, Result, ok, err, piped, forked, wrote, read_from, waited,
}
use barehttp.Tcp.{close, tcp_send}
use barehttp.Logs.{
  LogType, log_error, log_warning, strftime, ask_time, logs_print, get_client_ip_port,
}
use barehttp.Http.{
  Status, http_ok, http_not_found, http_not_allowed, http_internal_error, ServerConf, max_buffr,
  max_header_content, max_path,
}
use barehttp.Http.Files.{open_safe, get_file_info}
use barehttp.Http.Response.{HttpResponse, add_header, serialize_response, http_send_error}

abbrev pub http_date_format : Bytes
http_date_format = codes "%a, %d %b %Y %H:%M:%S GMT"

-- What the child executes: the program, and the arguments behind its name.
unfoldable pub script_command : Bytes → Bytes → Bytes × List Bytes
script_command path full_path = elim (after_last b'.' path) [
  | none ↦ (full_path, full_path ∷ [])
  | some ext ↦
      if str_eq ext (codes "py")
      then (codes "/usr/bin/python3", codes "python3" ∷ full_path ∷ [])
      else (if str_eq ext (codes "php")
          then (codes "/usr/bin/php", codes "php" ∷ full_path ∷ [])
          else (full_path, full_path ∷ []))
]

-- `"/proc/self/fd/%d"`.
unfoldable pub fd_path : Result ℕ → Bytes
fd_path (ok fd) = codes "/proc/self/fd/" ++ decimal fd
fd_path (err _) = codes "/proc/self/fd/" ++ print_int minus_one

-- The headers that `process_script` puts before `total` bytes of output.
unfoldable pub script_response : Bytes → Bytes → ℕ → HttpResponse
script_response date signature total =
    let size = (snprintf max_header_content (decimal total)).0 in
    let r0 : HttpResponse = record { status = http_ok; headers = [] } in
    let r1 = add_header r0 (codes "Date") date in
    let r2 = add_header r1 (codes "Server") signature in
    let r3 = add_header r2 (codes "Content-Length") size in
    let r4 = add_header r3 (codes "Content-Type") (codes "text/plain") in
    add_header r4 (codes "Connection") (codes "Close")

module _ (os : Os) where
  abbrev waitpid : ℕ → M (Unit {0})
  waitpid pid t = (tt, waited pid ∷ t)

  -- The loop that hands the arguments over. A round that goes on writes a byte at least, so as many
  -- rounds as there are bytes are enough.
  unfoldable pub write_loop : ℕ → ℕ → Bytes → M (Unit {0})
  write_loop zero fd rest = pure tt
  write_loop (suc fuel) fd [] = pure tt
  write_loop (suc fuel) fd (c ∷ rest) = do
    n ← call (λ t. os.write t fd (c ∷ rest)) (wrote fd (c ∷ rest))
    elim n [ err _ ↦ pure tt | ok zero ↦ pure tt | ok (suc k) ↦ write_loop fuel fd (drop k rest) ]

  -- The loop that reads the output; `none` where the buffer is full. A round that goes on reads a
  -- byte at least, so one round more than the buffer has bytes is enough.
  unfoldable pub read_loop : ℕ → ℕ → Bytes → M (Option Bytes)
  read_loop zero fd out = pure none
  read_loop (suc fuel) fd out = if leb max_buffr (length out) then pure none else (do
    r ← call (λ t. os.read t fd (max_buffr - length out)) (read_from fd (max_buffr - length out))
    elim r [
      | err _ ↦ pure (some out)
      | ok [] ↦ pure (some out)
      | ok (b ∷ bs) ↦ read_loop fuel fd (out ++ (b ∷ bs))
    ])

  -- From `fork` on: the pipes are open, the first of each pair is its reading end.
  unfoldable pub run_child : Bytes × List Bytes → Bytes → ℕ × ℕ → ℕ × ℕ → M (Option Bytes)
  run_child command args inpipe outpipe = do
    p ← call (λ t. os.fork t command.0 command.1) (forked command.0 command.1)
    elim p [
      | err _ ↦ do
        close os inpipe.0
        close os inpipe.1
        close os outpipe.0
        close os outpipe.1
        pure none
      | ok pid ↦ do
        close os inpipe.0
        close os outpipe.1
        write_loop (length args) inpipe.1 args
        close os inpipe.1
        out ← read_loop (suc max_buffr) outpipe.0 []
        close os outpipe.0
        waitpid pid
        pure out
    ]

  -- The two calls of `pipe` before it. `none` stands for the returns of -1.
  unfoldable pub run_script : Bytes × List Bytes → Bytes → M (Option Bytes)
  run_script command args = do
    i ← call (λ t. os.pipe t) piped
    elim i [
      | err _ ↦ pure none
      | ok inpipe ↦ do
        o ← call (λ t. os.pipe t) piped
        elim o [
          | err _ ↦ do close os inpipe.0; close os inpipe.1; pure none
          | ok outpipe ↦ run_child command args inpipe outpipe
        ]
    ]

  -- The response to a script that printed `out`.
  unfoldable pub send_output : ℕ → ℕ → ServerConf → Bytes → M ℤ
  send_output now clientfd sc out =
      let date = strftime max_header_content (os.gmt_text http_date_format now) in
      let s =
        serialize_response (script_response date.0 sc.server_signature (length out)) max_buffr in
      if date.1 == 0
      then (do http_send_error os clientfd http_internal_error; pure minus_one)
      else (if eq_ℤ s.0 minus_one
          then (do
            logs_print os log_error (codes "Response too long to fit in 8192")
            http_send_error os clientfd http_internal_error
            pure (pos 0))
          else (do
            ret ← tcp_send os clientfd s.1 (length s.1)
            if is_neg ret then pure minus_one else (do
              ret ← tcp_send os clientfd out (length out)
              if is_neg ret then pure minus_one else pure (pos 0))))

  unfoldable pub process_script : Bytes → Bytes → ℕ → ServerConf → M ℤ
  process_script script_args path clientfd sc = do
    now ← ask_time os
    ip ← get_client_ip_port os clientfd
    info ← get_file_info os sc.root_fd path false
    if eq_ℤ info.0 minus_two
        then (do
          logs_print os log_warning (codes "Requested script not exists - client: " ++ ip)
          http_send_error os clientfd http_not_found
          pure minus_two)
        else (if eq_ℤ info.0 minus_three
            then (do
              logs_print os log_warning (codes "Requested script not allowed - client: " ++ ip)
              http_send_error os clientfd http_not_allowed
              pure minus_two)
            else (if eq_ℤ info.0 minus_one then pure minus_one else (do
              script_fd ← open_safe os sc.root_fd path
              let full_path = (snprintf max_path (fd_path script_fd)).0
              out ← run_script (script_command (c_str path) full_path) script_args
              elim out [ none ↦ pure minus_one | some out ↦ send_output now clientfd sc out ])))

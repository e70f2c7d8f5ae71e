-- ===== src/Http/Leaks.antt =====
-- srclib/http.c: which descriptors an answer to a request leaves open.
pub mod Kept
use barehttp.Base.{
  ℕ, zero, suc, ℤ, ◌-◌, ◌+◌, ◌≤◌, ◌≡◌, refl, false, ◌==◌, List, [], ◌∷◌, ◌++◌, length, drop, Bool,
  arith,
}
use barehttp.CString.{Bytes}
use barehttp.Os.{Os, Trace}
use barehttp.Os.Traces.{open_count}
use barehttp.Tcp.{tcp_shutdown, tcp_send}
use barehttp.Logs.Laws.{open_count-logs_print, open_count-get_client_ip_port}
use barehttp.Http.{ServerConf, HttpRequest, Status}
use barehttp.Http.Response.{HttpResponse, http_send_error}
use barehttp.Http.Files.{open_safe, get_file_info, send_file}
use barehttp.Http.Files.Transfer.{send_loop-open_count}
use barehttp.Http.Script.{send_output, process_script}
use barehttp.Http.Script.Laws.{run_script_closes}
use barehttp.Http.Handlers.{
  process_options, post_to_path, process_post, send_file_response, get_dated, get_plain_file,
  get_from_path, process_get, http_process_request,
}

-- A descriptor stands open as often as before, or once more.
abbrev pub Leaks : ℕ → Trace → Trace → Type 0
Leaks g t u = (open_count g t ≤ open_count g u) × (open_count g u ≤ open_count g t + 1)

module _ (os : Os) (g clientfd : ℕ) (apart : (clientfd == g) ≡ false) where
  pub open_count-tcp_shutdown :
      (t : Trace) → open_count g (tcp_shutdown os clientfd t).1 ≡ open_count g t
  unfolding tcp_shutdown open_count
  open_count-tcp_shutdown t = ground arith

  pub open_count-tcp_send :
      (buf : Bytes) (len : ℕ) (t : Trace)
      → open_count g (tcp_send os clientfd buf len t).1 ≡ open_count g t
  unfolding tcp_send open_count
  open_count-tcp_send buf len t = grind (arith, open_count-tcp_shutdown)

  pub open_count-http_send_error :
      (error : Status) (t : Trace)
      → open_count g (http_send_error os clientfd error t).1 ≡ open_count g t
  unfolding http_send_error
  open_count-http_send_error error t = grind (arith, open_count-tcp_send, open_count-logs_print os)

  pub open_count-get_file_info :
      (root : ℕ) (path : Bytes) (wanted : Bool) (t : Trace)
      → open_count g (get_file_info os root path wanted t).1 ≡ open_count g t
  unfolding get_file_info open_safe open_count
  open_count-get_file_info root path wanted t = grind arith

  send_file-Leaks :
      (root : ℕ) (path : Bytes) (t : Trace) → Leaks g t (send_file os root path clientfd t).1
  unfolding send_file open_safe open_count
  send_file-Leaks root path t = grind (arith, send_loop-open_count os)

  open_count-send_output :
      (now : ℕ) (sc : ServerConf) (out : Bytes) (t : Trace)
      → open_count g (send_output os now clientfd sc out t).1 ≡ open_count g t
  unfolding send_output
  open_count-send_output now sc out t =
      grind (arith, open_count-http_send_error, open_count-logs_print os, open_count-tcp_send)

  process_script-Leaks :
      (args path : Bytes) (sc : ServerConf) (t : Trace)
      → Leaks g t (process_script os args path clientfd sc t).1
  unfolding process_script open_safe open_count
  process_script-Leaks args path sc t = grind (
    arith,
    open_count-get_file_info,
    run_script_closes os,
    open_count-send_output,
    open_count-http_send_error,
    open_count-logs_print os,
    open_count-get_client_ip_port os,
  )

  send_file_response-Leaks :
      (path : Bytes) (response : HttpResponse) (sc : ServerConf) (ip : Bytes) (t : Trace)
      → Leaks g t (send_file_response os path response clientfd sc ip t).1
  unfolding send_file_response
  send_file_response-Leaks path response sc ip t = grind (
    arith,
    open_count-http_send_error,
    open_count-logs_print os,
    open_count-tcp_send,
    send_file-Leaks,
  )

  get_dated-Leaks :
      (now : ℕ) (path : Bytes) (size : ℤ) (modified : ℕ) (sc : ServerConf) (ip : Bytes) (t : Trace)
      → Leaks g t (get_dated os now path size modified clientfd sc ip t).1
  unfolding get_dated
  get_dated-Leaks now path size modified sc ip t =
      grind (arith, open_count-http_send_error, open_count-logs_print os, send_file_response-Leaks)

  get_plain_file-Leaks :
      (now : ℕ) (path : Bytes) (sc : ServerConf) (ip : Bytes) (t : Trace)
      → Leaks g t (get_plain_file os now path clientfd sc ip t).1
  unfolding get_plain_file
  get_plain_file-Leaks now path sc ip t = grind (
    arith,
    open_count-get_file_info,
    open_count-http_send_error,
    open_count-logs_print os,
    get_dated-Leaks,
  )

  get_from_path-Leaks :
      (now : ℕ) (args path : Bytes) (sc : ServerConf) (ip : Bytes) (t : Trace)
      → Leaks g t (get_from_path os now args path clientfd sc ip t).1
  unfolding get_from_path
  get_from_path-Leaks now args path sc ip t =
      grind (arith, process_script-Leaks, open_count-logs_print os, get_plain_file-Leaks)

  post_to_path-Leaks :
      (request : HttpRequest) (path : Bytes) (sc : ServerConf) (ip : Bytes) (t : Trace)
      → Leaks g t (post_to_path os request path clientfd sc ip t).1
  unfolding post_to_path
  post_to_path-Leaks request path sc ip t =
      grind (arith, process_script-Leaks, open_count-logs_print os)

  pub open_count-process_options :
      (t : Trace) → open_count g (process_options os clientfd t).1 ≡ open_count g t
  unfolding process_options
  open_count-process_options t = grind (
    arith,
    open_count-http_send_error,
    open_count-logs_print os,
    open_count-tcp_send,
    open_count-get_client_ip_port os,
  )

  process_get-Leaks :
      (request : HttpRequest) (sc : ServerConf) (t : Trace)
      → Leaks g t (process_get os request clientfd sc t).1
  unfolding process_get open_count
  process_get-Leaks request sc t = grind (
    arith,
    open_count-http_send_error,
    open_count-logs_print os,
    open_count-get_client_ip_port os,
    get_from_path-Leaks,
  )

  process_post-Leaks :
      (request : HttpRequest) (sc : ServerConf) (t : Trace)
      → Leaks g t (process_post os request clientfd sc t).1
  unfolding process_post
  process_post-Leaks request sc t = grind (
    arith,
    open_count-http_send_error,
    open_count-logs_print os,
    open_count-get_client_ip_port os,
    post_to_path-Leaks,
  )

  pub http_process_request-Leaks :
      (request : HttpRequest) (sc : ServerConf) (t : Trace)
      → Leaks g t (http_process_request os request clientfd sc t).1
  unfolding http_process_request
  http_process_request-Leaks request sc t = grind (
    arith,
    open_count-http_send_error,
    open_count-logs_print os,
    open_count-get_client_ip_port os,
    process_get-Leaks,
    process_post-Leaks,
    open_count-process_options,
  )

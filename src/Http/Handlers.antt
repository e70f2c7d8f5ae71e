-- ===== src/Http/Handlers.antt =====
-- srclib/http.c: `process_options`, `process_post`, `process_get`, and `http_process_request`, which
-- chooses between them.
pub mod Refusals
pub mod Asked
pub mod Replies
pub mod Lengths
mod Examples
use barehttp.Base.{
  ℕ, Bool, true, false, List, [], ◌∷◌, ◌++◌, Option, none, some, ◌==◌, if◌then◌else◌, ℤ, pos,
  is_neg, eq_ℤ, minus_one, minus_two, minus_three, length,
}
use barehttp.CString.{Bytes, codes}
use barehttp.CString.Format.{print_int}
use barehttp.CString.Memory.{c_str, snprintf}
use barehttp.Os.{Os, M, pure, ◌>>=◌, ◌>>◌}
use barehttp.Tcp.{tcp_send}
use barehttp.Logs.{
  LogType, log_error, log_warning, log_info, strftime, ask_time, logs_print, get_client_ip_port,
}
use barehttp.Http.{
  Method, unknown, get, post, options, http_ok, http_no_content, http_bad_request, http_forbidden,
  http_not_found, http_not_allowed, http_internal_error, HttpRequest, ServerConf, max_buffr,
  max_header_content,
}
use barehttp.Http.Url.{check_path_traversal, cut_query, build_path}
use barehttp.Http.Mime.{get_mime_type, is_script}
use barehttp.Http.Request.{request_method_type}
use barehttp.Http.Response.{HttpResponse, add_header, serialize_response, http_send_error}
use barehttp.Http.Files.{get_file_info, send_file}
use barehttp.Http.Script.{http_date_format, process_script}

-- The bytes of `script_args`, none where the pointer is NULL and `args_len` is 0.
abbrev args_or_empty : Option Bytes → Bytes
args_or_empty none = []
args_or_empty (some args) = args

-- The response of `process_options`.
unfoldable pub options_response : HttpResponse
options_response =
    let r0 : HttpResponse = record { status = http_no_content; headers = [] } in
    let r1 = add_header r0 (codes "Allow") (codes "GET, POST, OPTIONS") in
    add_header r1 (codes "Content-Length") (codes "0")

-- The headers that `process_get` puts before a file.
unfoldable pub file_response : Bytes → Bytes → Bytes → ℤ → Bytes → HttpResponse
file_response date signature last_mod file_size mime_type =
    let size = (snprintf max_header_content (print_int file_size)).0 in
    let r0 : HttpResponse = record { status = http_ok; headers = [] } in
    let r1 = add_header r0 (codes "Date") date in
    let r2 = add_header r1 (codes "Server") signature in
    let r3 = add_header r2 (codes "Last-Modified") last_mod in
    let r4 = add_header r3 (codes "Content-Length") size in
    let r5 = add_header r4 (codes "Content-Type") mime_type in
    add_header r5 (codes "Connection") (codes "Close")

module _ (os : Os) where
  -- What an array `char path[MAX_PATH]` holds when a handler starts.
  abbrev path_array : M Bytes
  path_array t = (os.garbage t, t)

  unfoldable pub process_options : ℕ → M ℤ
  process_options clientfd =
      let s = serialize_response options_response max_buffr in
      if eq_ℤ s.0 minus_one
      then (do
        logs_print os log_error (codes "Response too long to fit in 8192")
        http_send_error os clientfd http_internal_error
        pure (pos 0))
      else (do
        ret ← tcp_send os clientfd s.1 (length s.1)
        ip ← get_client_ip_port os clientfd
        if is_neg ret
            then pure minus_one
            else (do logs_print os log_info (codes "Response sent - client: " ++ ip); pure (pos 0)))

  -- From the MIME type on; `path` is the array.
  unfoldable pub post_to_path : HttpRequest → Bytes → ℕ → ServerConf → Bytes → M ℤ
  post_to_path request path clientfd sc ip =
      let finish : M ℤ = (do
        logs_print os log_info (codes "POST response sent - client: " ++ ip)
        pure (pos 0)) in
      if is_script (get_mime_type (c_str path))
      then (do
        ret ← process_script os request.body path clientfd sc
        if eq_ℤ ret minus_one
            then pure minus_one
            else (if eq_ℤ ret minus_two then pure (pos 0) else (do
              logs_print os log_info (codes "Executing POST script - client: " ++ ip)
              finish)))
      else finish

  unfoldable pub process_post : HttpRequest → ℕ → ServerConf → M ℤ
  process_post request clientfd sc = do
    array ← path_array
    ip ← get_client_ip_port os clientfd
    if check_path_traversal request.url
        then (do
          logs_print os log_warning
              (codes "Trying to access not allowed direction - client: " ++ ip)
          http_send_error os clientfd http_forbidden
          pure (pos 0))
        else (elim (build_path (cut_query request.url).0 array) [
          | none ↦ do http_send_error os clientfd http_bad_request; pure (pos 0)
          | some path ↦ post_to_path request path clientfd sc ip
        ])

  -- The part of `process_get` behind the two dates.
  unfoldable pub send_file_response : Bytes → HttpResponse → ℕ → ServerConf → Bytes → M ℤ
  send_file_response path response clientfd sc ip =
      let s = serialize_response response max_buffr in
      if eq_ℤ s.0 minus_one
      then (do
        logs_print os log_error (codes "Response too long to fit in 8192")
        http_send_error os clientfd http_internal_error
        pure (pos 0))
      else (do
        ret ← tcp_send os clientfd s.1 (length s.1)
        if is_neg ret
            then (do
              logs_print os log_error (codes "Error sending HTTP response header - client: " ++ ip)
              http_send_error os clientfd http_internal_error
              pure (pos 0))
            else (do
              ret ← send_file os sc.root_fd path clientfd
              if is_neg ret then pure minus_one else (do
                logs_print os log_info (
                    codes "Response HTTP, with file "
                    ++ (c_str path ++ (codes ", sent - client: " ++ ip)))
                pure (pos 0))))

  -- The part of `process_get` behind `get_file_info`, for a file that is there.
  unfoldable pub get_dated : ℕ → Bytes → ℤ → ℕ → ℕ → ServerConf → Bytes → M ℤ
  get_dated now path file_size last_modified clientfd sc ip =
      let date = strftime max_header_content (os.gmt_text http_date_format now) in
      let last_mod = strftime max_header_content (os.gmt_text http_date_format last_modified) in
      if date.1 == 0
      then (do
        logs_print os log_error (codes "Error formatting actual date - client: " ++ ip)
        http_send_error os clientfd http_internal_error
        pure (pos 0))
      else (if last_mod.1 == 0
          then (do
            logs_print os log_error (codes "Error formatting last modified date - client: " ++ ip)
            http_send_error os clientfd http_internal_error
            pure (pos 0))
          else send_file_response path
              (file_response date.0 sc.server_signature last_mod.0 file_size
                (get_mime_type (c_str path)))
              clientfd sc ip)

  unfoldable pub get_plain_file : ℕ → Bytes → ℕ → ServerConf → Bytes → M ℤ
  get_plain_file now path clientfd sc ip = do
    info ← get_file_info os sc.root_fd path true
    if eq_ℤ info.0 minus_two
        then (do
          logs_print os log_warning
              (codes "File " ++ (c_str path ++ (codes " not found - client: " ++ ip)))
          http_send_error os clientfd http_not_found
          pure (pos 0))
        else (if eq_ℤ info.0 minus_three
            then (do
              logs_print os log_warning
                  (codes "File " ++ (c_str path ++ (codes " not allowed - client: " ++ ip)))
              http_send_error os clientfd http_forbidden
              pure (pos 0))
            else (if is_neg info.0
                then pure minus_one
                else get_dated now path info.1 info.2 clientfd sc ip))

  -- From the MIME type on; `path` is the array.
  unfoldable pub get_from_path : ℕ → Bytes → Bytes → ℕ → ServerConf → Bytes → M ℤ
  get_from_path now script_args path clientfd sc ip =
      if is_script (get_mime_type (c_str path))
      then (do
        ret ← process_script os script_args path clientfd sc
        if eq_ℤ ret minus_two
            then pure (pos 0)
            else (if eq_ℤ ret (pos 0)
                then (do
                  logs_print os log_info (codes "Executing GET script - client: " ++ ip)
                  logs_print os log_info (codes "GET response sent - client: " ++ ip)
                  pure ret)
                else pure ret))
      else get_plain_file now path clientfd sc ip

  unfoldable pub process_get : HttpRequest → ℕ → ServerConf → M ℤ
  process_get request clientfd sc = do
    array ← path_array
    now ← ask_time os
    ip ← get_client_ip_port os clientfd
    if check_path_traversal request.url
        then (do
          logs_print os log_warning
              (codes "Trying to access not allowed direction - client: " ++ ip)
          http_send_error os clientfd http_forbidden
          pure (pos 0))
        else (let cut = cut_query request.url in
            elim (build_path cut.0 array) [
              | none ↦ do http_send_error os clientfd http_bad_request; pure (pos 0)
              | some path ↦ get_from_path now (args_or_empty cut.1) path clientfd sc ip
            ])

  abbrev received_line : Bytes → HttpRequest → Bytes → Bytes
  received_line what request ip = what ++ (request.url ++ (codes " - client: " ++ ip))

  unfoldable pub http_process_request : HttpRequest → ℕ → ServerConf → M ℤ
  http_process_request request clientfd sc = do
    ip ← get_client_ip_port os clientfd
    elim (request_method_type request.method) [
      | get ↦ do
        logs_print os log_info (received_line (codes "Received GET petition ") request ip)
        process_get request clientfd sc
      | post ↦ do
        logs_print os log_info (received_line (codes "Received POST petition ") request ip)
        process_post request clientfd sc
      | options ↦ do
        logs_print os log_info (received_line (codes "Received OPTIONS petition ") request ip)
        process_options clientfd
      | unknown ↦ do
        -- `%d` is given a pointer, so what it prints is no value of the program.
        number ← path_array
        logs_print os log_error
            (codes "Not supported method " ++ (c_str number ++ (codes " - client: " ++ ip)))
        http_send_error os clientfd http_not_allowed
    ]

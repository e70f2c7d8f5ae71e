-- ===== src/Http/Leaks/Kept.antt =====
-- srclib/http.c: the requests that leave no descriptor open.
use barehttp.Base.{
  ℕ, ℤ, ◌+◌, ◌≡◌, ◌⊎◌, arith, false, true, inl, inr, Bool-cases, ◌==◌, some, is_neg,
}
use barehttp.CString.{Bytes}
use barehttp.CString.Memory.{c_str}
use barehttp.Os.{Os, Trace}
use barehttp.Os.Traces.{open_count}
use barehttp.Logs.Laws.{open_count-logs_print, open_count-get_client_ip_port}
use barehttp.Http.{ServerConf, HttpRequest}
use barehttp.Http.Mime.{is_script, get_mime_type}
use barehttp.Http.Url.{cut_query, build_path}
use barehttp.Http.Response.{HttpResponse}
use barehttp.Http.Files.{open_safe, send_file}
use barehttp.Http.Files.Transfer.{send_loop-open_count}
use barehttp.Http.Handlers.{
  post_to_path, process_post, send_file_response, get_dated, get_plain_file, get_from_path,
  process_get, http_process_request,
}
use barehttp.Http.Leaks.{
  open_count-tcp_send, open_count-http_send_error, open_count-get_file_info,
  open_count-process_options, http_process_request-Leaks,
}

-- Where the result is not negative a descriptor stands open as often as before.
abbrev Kept : ℕ → Trace → ℤ × Trace → Type 0
Kept g t (ret, u) = is_neg ret ≡ false → open_count g u ≡ open_count g t

-- The path of the URL is that of no script.
unfoldable pub AsksNoScript : HttpRequest → Type 0
AsksNoScript request =
    (array built : Bytes)
    → build_path (cut_query request.url).0 array ≡ some built
    → is_script (get_mime_type (c_str built)) ≡ false

module _ (os : Os) (g clientfd : ℕ) (apart : (clientfd == g) ≡ false) where
  send_file-Kept :
      (root : ℕ) (path : Bytes) (t : Trace) → Kept g t (send_file os root path clientfd t)
  unfolding send_file open_safe open_count
  send_file-Kept root path t = grind (arith, send_loop-open_count os)

  send_file_response-Kept :
      (path : Bytes) (response : HttpResponse) (sc : ServerConf) (ip : Bytes) (t : Trace)
      → Kept g t (send_file_response os path response clientfd sc ip t)
  unfolding send_file_response
  send_file_response-Kept path response sc ip t = grind (
    arith,
    open_count-http_send_error os g clientfd apart,
    open_count-logs_print os,
    open_count-tcp_send os g clientfd apart,
    send_file-Kept,
  )

  get_dated-Kept :
      (now : ℕ) (path : Bytes) (size : ℤ) (modified : ℕ) (sc : ServerConf) (ip : Bytes) (t : Trace)
      → Kept g t (get_dated os now path size modified clientfd sc ip t)
  unfolding get_dated
  get_dated-Kept now path size modified sc ip t = grind (
    arith,
    open_count-http_send_error os g clientfd apart,
    open_count-logs_print os,
    send_file_response-Kept,
  )

  get_plain_file-Kept :
      (now : ℕ) (path : Bytes) (sc : ServerConf) (ip : Bytes) (t : Trace)
      → Kept g t (get_plain_file os now path clientfd sc ip t)
  unfolding get_plain_file
  get_plain_file-Kept now path sc ip t = grind (
    arith,
    open_count-get_file_info os g clientfd apart,
    open_count-http_send_error os g clientfd apart,
    open_count-logs_print os,
    get_dated-Kept,
  )

  get_from_path-Kept :
      (now : ℕ) (args path : Bytes) (sc : ServerConf) (ip : Bytes) (t : Trace)
      → is_script (get_mime_type (c_str path)) ≡ false
      → Kept g t (get_from_path os now args path clientfd sc ip t)
  unfolding get_from_path
  get_from_path-Kept now args path sc ip t s = rw s (get_plain_file-Kept now path sc ip t)

  post_to_path-Kept :
      (request : HttpRequest) (path : Bytes) (sc : ServerConf) (ip : Bytes) (t : Trace)
      → is_script (get_mime_type (c_str path)) ≡ false
      → Kept g t (post_to_path os request path clientfd sc ip t)
  unfolding post_to_path
  post_to_path-Kept request path sc ip t s = rw s (λ n. open_count-logs_print os _ _ t g)

  process_get-Kept :
      (request : HttpRequest) (sc : ServerConf) (t : Trace)
      → AsksNoScript request
      → Kept g t (process_get os request clientfd sc t)
  unfolding process_get open_count AsksNoScript
  process_get-Kept request sc t a = grind (
    arith,
    open_count-http_send_error os g clientfd apart,
    open_count-logs_print os,
    open_count-get_client_ip_port os,
    get_from_path-Kept,
    a (os.garbage t),
  )

  process_post-Kept :
      (request : HttpRequest) (sc : ServerConf) (t : Trace)
      → AsksNoScript request
      → Kept g t (process_post os request clientfd sc t)
  unfolding process_post AsksNoScript
  process_post-Kept request sc t a = grind (
    arith,
    open_count-http_send_error os g clientfd apart,
    open_count-logs_print os,
    open_count-get_client_ip_port os,
    post_to_path-Kept,
    a (os.garbage t),
  )

  http_process_request-Kept :
      (request : HttpRequest) (sc : ServerConf) (t : Trace)
      → AsksNoScript request
      → Kept g t (http_process_request os request clientfd sc t)
  unfolding http_process_request
  http_process_request-Kept request sc t a = grind (
    arith,
    open_count-http_send_error os g clientfd apart,
    open_count-logs_print os,
    open_count-get_client_ip_port os,
    process_get-Kept,
    process_post-Kept,
    open_count-process_options os g clientfd apart,
  )

  -- When a request whose URL leads to no script has been answered, every descriptor but that of its
  -- client stands open as often as before; or one stands open once more, and then the result is
  -- negative: the file was not sent as a whole.
  pub http_process_request-closes :
      (request : HttpRequest) (sc : ServerConf) (t : Trace)
      → AsksNoScript request
      → let r = http_process_request os request clientfd sc t in
        (open_count g r.1 ≡ open_count g t)
        ⊎ ((is_neg r.0 ≡ true) × (open_count g r.1 ≡ open_count g t + 1))
  http_process_request-closes request sc t a =
      let r = http_process_request os request clientfd sc t in
      elim (Bool-cases (is_neg r.0)) [
        | inl n ↦ grind (arith, http_process_request-Leaks os g clientfd apart request sc t)
        | inr n ↦ inl (http_process_request-Kept request sc t a n)
      ]

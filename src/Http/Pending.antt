-- ===== src/Http/Pending.antt =====
-- srclib/http.c closes no connection but the one that it answers on, and accepts none.
use barehttp.Base.{
  ℕ, zero, suc, ℤ, ◌-◌, ◌+◌, ◌≡◌, refl, false, ◌==◌, List, [], ◌∷◌, ◌++◌, length, drop, Bool, arith,
}
use barehttp.CString.{Bytes}
use barehttp.Os.{Os, Trace, Result, ok, err, piped, wrote, read_from, sent_file}
use barehttp.Http.Script.Laws.{more_written, just_read}
use barehttp.Os.Pending.{pending, HasFreshFds}
use barehttp.Tcp.Pending.{pending-tcp_send}
use barehttp.Logs.Pending.{pending-logs_print, pending-get_client_ip_port}
use barehttp.Http.{max_buffr, ServerConf, HttpRequest, Status}
use barehttp.Http.Response.{HttpResponse, http_send_error}
use barehttp.Http.Files.{safe, relative, open_safe, get_file_info, send_loop, send_file}
use barehttp.Http.Script.{write_loop, read_loop, run_child, run_script, send_output, process_script}
use barehttp.Http.Handlers.{
  process_options, post_to_path, process_post, send_file_response, get_dated, get_plain_file,
  get_from_path, process_get, http_process_request,
}

abbrev sent_to : ℕ → Result ℕ → ℕ
sent_to offset (ok n) = offset + n
sent_to offset (err _) = offset

module _ (os : Os) (g : ℕ) where
  pending-send_loop :
      (fuel clientfd fd size offset : ℕ) (t : Trace)
      → pending g (send_loop os fuel clientfd fd size offset t).1 ≡ pending g t
  unfolding send_loop pending
  pending-send_loop zero clientfd fd size offset t = refl
  pending-send_loop (suc fuel) clientfd fd size offset t =
      let r = os.sendfile t clientfd fd offset (size - offset) in
      ground (
        arith,
        pending-send_loop fuel clientfd fd size (sent_to offset r)
            (sent_file clientfd fd offset (size - offset) r ∷ t),
      )

  pending-write_loop :
      (fuel fd : ℕ) (rest : Bytes) (t : Trace)
      → pending g (write_loop os fuel fd rest t).1 ≡ pending g t
  unfolding write_loop pending
  pending-write_loop zero fd rest t = refl
  pending-write_loop (suc fuel) fd [] t = refl
  pending-write_loop (suc fuel) fd (c ∷ rest) t =
      let r = os.write t fd (c ∷ rest) in
      ground
        (arith, pending-write_loop fuel fd (drop (more_written r) rest) (wrote fd (c ∷ rest) r ∷ t))

  pending-read_loop :
      (fuel fd : ℕ) (out : Bytes) (t : Trace)
      → pending g (read_loop os fuel fd out t).1 ≡ pending g t
  unfolding read_loop pending
  pending-read_loop zero fd out t = refl
  pending-read_loop (suc fuel) fd out t =
      let r = os.read t fd (max_buffr - length out) in
      ground (
        arith,
        pending-read_loop fuel fd (out ++ just_read r)
            (read_from fd (max_buffr - length out) r ∷ t),
      )

module _ (os : Os) (fresh : HasFreshFds os) (g : ℕ) where
  pending-get_file_info :
      (root : ℕ) (path : Bytes) (wanted : Bool) (t : Trace)
      → pending g (get_file_info os root path wanted t).1 ≡ pending g t
  unfolding get_file_info open_safe pending
  pending-get_file_info root path wanted t =
      grind (arith, fresh.open_fresh t root (relative path) safe g)

  pending-send_file :
      (root : ℕ) (path : Bytes) (clientfd : ℕ) (t : Trace)
      → pending g (send_file os root path clientfd t).1 ≡ pending g t
  unfolding send_file open_safe pending
  pending-send_file root path clientfd t =
      grind (arith, fresh.open_fresh t root (relative path) safe g, pending-send_loop os g)

  pending-run_child :
      (command : Bytes × List Bytes) (args : Bytes) (i o : ℕ × ℕ) (t : Trace)
      → pending i.0 t ≡ false
      → pending i.1 t ≡ false
      → pending o.0 t ≡ false
      → pending o.1 t ≡ false
      → pending g (run_child os command args i o t).1 ≡ pending g t
  unfolding run_child pending
  pending-run_child command args i o t a b c d =
      grind (arith, pending-write_loop os g, pending-read_loop os g)

  pending-run_script :
      (command : Bytes × List Bytes) (args : Bytes) (t : Trace)
      → pending g (run_script os command args t).1 ≡ pending g t
  unfolding run_script pending
  pending-run_script command args t =
      grind (arith, pending-run_child, fresh.pipe_fresh t, fresh.pipe_fresh (piped (os.pipe t) ∷ t))

module _ (os : Os) (fresh : HasFreshFds os) (g clientfd : ℕ) (apart : (clientfd == g) ≡ false) where
  pub pending-http_send_error :
      (error : Status) (t : Trace) → pending g (http_send_error os clientfd error t).1 ≡ pending g t
  unfolding http_send_error
  pending-http_send_error error t =
      grind (arith, pending-tcp_send os g clientfd apart, pending-logs_print os g)

  pending-send_output :
      (now : ℕ) (sc : ServerConf) (out : Bytes) (t : Trace)
      → pending g (send_output os now clientfd sc out t).1 ≡ pending g t
  unfolding send_output
  pending-send_output now sc out t = grind (
    arith,
    pending-http_send_error,
    pending-logs_print os g,
    pending-tcp_send os g clientfd apart,
  )

  pending-process_script :
      (args path : Bytes) (sc : ServerConf) (t : Trace)
      → pending g (process_script os args path clientfd sc t).1 ≡ pending g t
  unfolding process_script open_safe pending
  pending-process_script args path sc t = grind (
    arith,
    pending-get_file_info os fresh g,
    pending-run_script os fresh g,
    pending-send_output,
    pending-http_send_error,
    pending-logs_print os g,
    pending-get_client_ip_port os g,
  )

  pending-send_file_response :
      (path : Bytes) (response : HttpResponse) (sc : ServerConf) (ip : Bytes) (t : Trace)
      → pending g (send_file_response os path response clientfd sc ip t).1 ≡ pending g t
  unfolding send_file_response
  pending-send_file_response path response sc ip t = grind (
    arith,
    pending-http_send_error,
    pending-logs_print os g,
    pending-tcp_send os g clientfd apart,
    pending-send_file os fresh g,
  )

  pending-get_dated :
      (now : ℕ) (path : Bytes) (size : ℤ) (modified : ℕ) (sc : ServerConf) (ip : Bytes) (t : Trace)
      → pending g (get_dated os now path size modified clientfd sc ip t).1 ≡ pending g t
  unfolding get_dated
  pending-get_dated now path size modified sc ip t =
      grind (arith, pending-http_send_error, pending-logs_print os g, pending-send_file_response)

  pending-get_plain_file :
      (now : ℕ) (path : Bytes) (sc : ServerConf) (ip : Bytes) (t : Trace)
      → pending g (get_plain_file os now path clientfd sc ip t).1 ≡ pending g t
  unfolding get_plain_file
  pending-get_plain_file now path sc ip t = grind (
    arith,
    pending-get_file_info os fresh g,
    pending-http_send_error,
    pending-logs_print os g,
    pending-get_dated,
  )

  pending-get_from_path :
      (now : ℕ) (args path : Bytes) (sc : ServerConf) (ip : Bytes) (t : Trace)
      → pending g (get_from_path os now args path clientfd sc ip t).1 ≡ pending g t
  unfolding get_from_path
  pending-get_from_path now args path sc ip t =
      grind (arith, pending-process_script, pending-logs_print os g, pending-get_plain_file)

  pending-post_to_path :
      (request : HttpRequest) (path : Bytes) (sc : ServerConf) (ip : Bytes) (t : Trace)
      → pending g (post_to_path os request path clientfd sc ip t).1 ≡ pending g t
  unfolding post_to_path
  pending-post_to_path request path sc ip t =
      grind (arith, pending-process_script, pending-logs_print os g)

  pending-process_options : (t : Trace) → pending g (process_options os clientfd t).1 ≡ pending g t
  unfolding process_options
  pending-process_options t = grind (
    arith,
    pending-http_send_error,
    pending-logs_print os g,
    pending-tcp_send os g clientfd apart,
    pending-get_client_ip_port os g,
  )

  pending-process_get :
      (request : HttpRequest) (sc : ServerConf) (t : Trace)
      → pending g (process_get os request clientfd sc t).1 ≡ pending g t
  unfolding process_get pending
  pending-process_get request sc t = grind (
    arith,
    pending-http_send_error,
    pending-logs_print os g,
    pending-get_client_ip_port os g,
    pending-get_from_path,
  )

  pending-process_post :
      (request : HttpRequest) (sc : ServerConf) (t : Trace)
      → pending g (process_post os request clientfd sc t).1 ≡ pending g t
  unfolding process_post
  pending-process_post request sc t = grind (
    arith,
    pending-http_send_error,
    pending-logs_print os g,
    pending-get_client_ip_port os g,
    pending-post_to_path,
  )

  pub pending-http_process_request :
      (request : HttpRequest) (sc : ServerConf) (t : Trace)
      → pending g (http_process_request os request clientfd sc t).1 ≡ pending g t
  unfolding http_process_request
  pending-http_process_request request sc t = grind (
    arith,
    pending-http_send_error,
    pending-logs_print os g,
    pending-get_client_ip_port os g,
    pending-process_get,
    pending-process_post,
    pending-process_options,
  )

-- ===== src/Http/Handlers/Refusals.antt =====
-- The requests that `process_get` and `process_post` of srclib/http.c turn down before any file is
-- opened.
use barehttp.Base.{ℕ, ◌≡◌, ◌⊎◌, refl, arith, true, ◌∷◌, pos, ◌∙◌}
use barehttp.CString.{Bytes}
use barehttp.Os.{Os, Trace, told_time}
use barehttp.Os.Traces.{sends, opens}
use barehttp.Logs.Laws.{
  sends-logs_print, opens-logs_print, sends-get_client_ip_port, opens-get_client_ip_port,
}
use barehttp.Logs.{LogType, logs_print, get_client_ip_port}
use barehttp.Http.{Status, http_forbidden, HttpRequest, ServerConf}
use barehttp.Http.Url.{check_path_traversal}
use barehttp.Http.Response.{error_body, http_send_error}
use barehttp.Http.Response.ErrorPage.{page_headers, http_send_error_lem, opens-http_send_error}
use barehttp.Http.Handlers.{process_get, process_post}

-- Between two traces the client was sent the page of an error, or its headers alone.
unfoldable pub Answers : ℕ → Status → Trace → Trace → Type 0
Answers fd code t u =
    (sends fd u ≡ error_body code ∷ page_headers code ∷ sends fd t)
    ⊎ (sends fd u ≡ page_headers code ∷ sends fd t)

module _ (os : Os) where
  Answers-http_send_error :
      (fd : ℕ) (code : Status) (t : Trace) → Answers fd code t (http_send_error os fd code t).1
  unfolding Answers
  Answers-http_send_error fd code t = ground (arith, http_send_error_lem os fd code t)

  pub Answers-from :
      (fd : ℕ) (code : Status) (s t u : Trace)
      → sends fd t ≡ sends fd s
      → Answers fd code t u
      → Answers fd code s u
  unfolding Answers
  Answers-from fd code s t u e a = ground arith

  -- A line in the log, then the error page.
  module _ (type : LogType) (message : Bytes) (fd : ℕ) (code : Status) (t : Trace) where
    abbrev refused : Trace
    refused = (http_send_error os fd code (logs_print os type message t).1).1

    pub Answers-refused : Answers fd code t refused
    Answers-refused =
        Answers-from fd code t _ refused (sends-logs_print os type message t fd)
          (Answers-http_send_error fd code _)

    pub opens-refused : opens refused ≡ opens t
    opens-refused = opens-http_send_error os fd code _ ∙ opens-logs_print os type message t

  module _ (request : HttpRequest) (clientfd : ℕ) (sc : ServerConf) (t : Trace) where
    -- The trace when a handler has asked for the time and for the client's name.
    abbrev got_name : Trace → Trace
    got_name u = (get_client_ip_port os clientfd u).1

    -- A GET or POST request whose URL has a backslash in front of its last character, two dots in a
    -- row or two slashes in a row is answered with 403, and no file is asked for.
    pub handlers_forbid :
        check_path_traversal request.url ≡ true
        → let g = process_get os request clientfd sc t in
          let p = process_post os request clientfd sc t in
          (g.0 ≡ pos 0)
          × Answers clientfd http_forbidden t g.1
          × (opens g.1 ≡ opens t)
          × (p.0 ≡ pos 0)
          × Answers clientfd http_forbidden t p.1
          × (opens p.1 ≡ opens t)
    unfolding process_get process_post sends opens
    handlers_forbid h = rw h (
      refl,
      Answers-from clientfd http_forbidden t (got_name timed) _
          (sends-get_client_ip_port os clientfd timed clientfd)
          (Answers-refused LogType.log_warning _ clientfd http_forbidden _),
      opens-refused LogType.log_warning _ clientfd http_forbidden _
          ∙ opens-get_client_ip_port os clientfd timed,
      refl,
      Answers-from clientfd http_forbidden t (got_name t) _
          (sends-get_client_ip_port os clientfd t clientfd)
          (Answers-refused LogType.log_warning _ clientfd http_forbidden _),
      opens-refused LogType.log_warning _ clientfd http_forbidden _
          ∙ opens-get_client_ip_port os clientfd t,
    )
      where
        timed : Trace
        timed = told_time (os.time t) ∷ t

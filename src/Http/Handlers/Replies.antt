-- ===== src/Http/Handlers/Replies.antt =====
-- What the handlers of srclib/http.c send for a request that is not turned down by its URL.
use barehttp.Base.{
  ℕ, ◌≡◌, ◌<◌, ◌⊎◌, inl, inr, refl, arith, true, false, some, ◌∷◌, ap, ℤ, pos, Bool-cases,
  minus_two, minus_three, is_neg, length, ◌∙◌,
}
use barehttp.CString.{Bytes}
use barehttp.CString.Memory.{c_str}
use barehttp.Os.{Os, Trace, err, enoent, eacces, eloop, opened}
use barehttp.Os.Traces.{sends, opens}
use barehttp.Logs.Laws.{sends-logs_print, sends-get_client_ip_port, opens-get_client_ip_port}
use barehttp.Logs.{LogType, get_client_ip_port}
use barehttp.Tcp.{tcp_send}
use barehttp.Tcp.Laws.{sends-tcp_send_all}
use barehttp.Http.{
  unknown, http_not_allowed, http_forbidden, http_not_found, http_internal_error, HttpRequest,
  ServerConf, max_buffr,
}
use barehttp.Http.Url.{check_path_traversal, cut_query, build_path}
use barehttp.Http.Mime.{get_mime_type, is_script}
use barehttp.Http.Request.{request_method_type}
use barehttp.Http.Files.{relative, safe, open_error, open_safe, get_file_info}
use barehttp.Http.Files.Transfer.{sends-send_file}
use barehttp.Http.Response.{HttpResponse}
use barehttp.Http.Response.Serialize.{render, serialize_response_lem}
use barehttp.Http.Handlers.{
  post_to_path, process_post, get_plain_file, send_file_response, http_process_request,
}
use barehttp.Http.Handlers.Refusals.{Answers, Answers-from, Answers-refused, opens-refused}

module _ (os : Os) (clientfd : ℕ) (sc : ServerConf) (t : Trace) where
  -- A request with a method other than GET, POST and OPTIONS is answered with 405, and no file is
  -- asked for.
  unknown_method_refused :
      (request : HttpRequest)
      → request_method_type request.method ≡ unknown
      → let r = http_process_request os request clientfd sc t in
        Answers clientfd http_not_allowed t r.1 × (opens r.1 ≡ opens t)
  unfolding http_process_request
  unknown_method_refused request h = rw h (
    Answers-from os clientfd http_not_allowed t (get_client_ip_port os clientfd t).1 _
        (sends-get_client_ip_port os clientfd t clientfd)
        (Answers-refused os LogType.log_error _ clientfd http_not_allowed _),
    opens-refused os LogType.log_error _ clientfd http_not_allowed _
        ∙ opens-get_client_ip_port os clientfd t,
  )

  -- A POST request that passes the check, has a path that is not too long, and whose path is not that
  -- of a Python or PHP script, has the result 0; but nothing is sent to its client.
  pub plain_post_unanswered :
      (request : HttpRequest) (path : Bytes)
      → check_path_traversal request.url ≡ false
      → build_path (cut_query request.url).0 (os.garbage t) ≡ some path
      → is_script (get_mime_type (c_str path)) ≡ false
      → let r = process_post os request clientfd sc t in
        (r.0 ≡ pos 0) × (sends clientfd r.1 ≡ sends clientfd t)
  unfolding process_post post_to_path
  plain_post_unanswered request path c b s =
      rw (c, b, s)
        (
          refl,
          sends-logs_print os LogType.log_info _ _ clientfd
              ∙ sends-get_client_ip_port os clientfd t clientfd,
        )

  module _ (now : ℕ) (path ip : Bytes) (e : ℕ)
      (h : os.openat2 t sc.root_fd (relative path) safe ≡ err e) where
    abbrev replied : ℤ × Trace
    replied = get_plain_file os now path clientfd sc ip t

    abbrev asked : Trace
    asked = opened sc.root_fd (relative path) safe (err e) ∷ t

    not_found :
        open_error e ≡ minus_two → (replied.0 ≡ pos 0) × Answers clientfd http_not_found t replied.1
    unfolding get_plain_file get_file_info open_safe sends
    not_found q =
        rw (h, q)
          (
            refl,
            Answers-from os clientfd http_not_found t asked _ refl
                (Answers-refused os LogType.log_warning _ clientfd http_not_found _),
          )

    not_allowed :
        open_error e ≡ minus_three
        → (replied.0 ≡ pos 0) × Answers clientfd http_forbidden t replied.1
    unfolding get_plain_file get_file_info open_safe sends
    not_allowed q =
        rw (h, q)
          (
            refl,
            Answers-from os clientfd http_forbidden t asked _ refl
                (Answers-refused os LogType.log_warning _ clientfd http_forbidden _),
          )

  -- Where the file of a GET request cannot be opened, the answer is 404 if it does not exist, and 403
  -- if access to it is denied or a symbolic link stands on its path; the result is 0.
  missing_file_refused :
      (now : ℕ) (path ip : Bytes) (e : ℕ)
      → os.openat2 t sc.root_fd (relative path) safe ≡ err e
      → let r = get_plain_file os now path clientfd sc ip t in
        (e ≡ enoent → (r.0 ≡ pos 0) × Answers clientfd http_not_found t r.1)
        × ((e ≡ eacces) ⊎ (e ≡ eloop) → (r.0 ≡ pos 0) × Answers clientfd http_forbidden t r.1)
  missing_file_refused now path ip e h = (
    λ p. not_found now path ip e h (ap open_error p),
    λ d. not_allowed now path ip e h (elim d [ inl p ↦ ap open_error p | inr p ↦ ap open_error p ]),
  )

  -- The headers of a file are handed to `send`.
  abbrev pub response_sent : HttpResponse → ℤ × Trace
  response_sent response = tcp_send os clientfd (render response) (length (render response)) t

  -- Where the headers of a file fit in the buffer, the client is handed exactly the text of the
  -- headers; where sending them succeeds nothing else is handed to `send`, and where it fails an
  -- error page is, or the headers of one alone.
  pub send_file_response_lem :
      (path : Bytes) (response : HttpResponse) (ip : Bytes)
      → length (render response) < max_buffr
      → let sent = response_sent response in
        let r = send_file_response os path response clientfd sc ip t in
        (sends clientfd sent.1 ≡ render response ∷ sends clientfd t)
        × (((is_neg sent.0 ≡ false) × (sends clientfd r.1 ≡ render response ∷ sends clientfd t))
            ⊎ ((is_neg sent.0 ≡ true) × Answers clientfd http_internal_error sent.1 r.1))
  unfolding send_file_response
  send_file_response_lem path response ip h = elim (serialize_response_lem response max_buffr) [
    | inl (l, e) ↦ rw e (elim (Bool-cases (is_neg sent.0)) [
      | inl n ↦ rw n (
        handed,
        inr (refl, Answers-refused os LogType.log_error _ clientfd http_internal_error sent.1),
      )
      | inr n ↦ rw n (handed, inl (refl, grind (arith, handed, sends-send_file, sends-logs_print)))
    ])
    | inr (l, e) ↦ absurd (omega arith)
  ]
    where
      sent : ℤ × Trace
      sent = response_sent response

      handed : sends clientfd sent.1 ≡ render response ∷ sends clientfd t
      handed = sends-tcp_send_all os clientfd (render response) t

-- ===== src/Http/Handlers/Asked.antt =====
-- Which files the handlers of srclib/http.c ask the system for.
use mathlib.Core.Path.{subst}
use barehttp.Base.{
  ℕ, ◌≡◌, ◌⊎◌, inl, inr, refl, arith, true, false, ◌∷◌, some, ℤ, All, Bool-cases, Option-cases, sym,
  ◌∙◌,
}
use barehttp.CString.{Bytes}
use barehttp.Os.{Os, Trace, told_time}
use barehttp.Os.Traces.{Asked, opens}
use barehttp.Tcp.Laws.{opens-tcp_send}
use barehttp.Logs.Laws.{opens-logs_print, opens-get_client_ip_port}
use barehttp.Logs.{get_client_ip_port}
use barehttp.Http.{Method, get, post, options, unknown, HttpRequest, ServerConf}
use barehttp.Http.Request.{request_method_type}
use barehttp.Http.Files.{safe_file}
use barehttp.Http.Files.Laws.{opens-get_file_info}
use barehttp.Http.Files.Transfer.{opens-send_file}
use barehttp.Http.Url.{check_path_traversal, cut_query, build_path}
use barehttp.Http.Url.Paths.{StaysBelow, opened_path_safe}
use barehttp.Http.Response.{HttpResponse}
use barehttp.Http.Response.ErrorPage.{opens-http_send_error}
use barehttp.Http.Script.Laws.{opens-process_script}
use barehttp.Http.Handlers.Refusals.{handlers_forbid}
use barehttp.Http.Handlers.{
  process_options, post_to_path, process_post, send_file_response, get_dated, get_plain_file,
  get_from_path, process_get, http_process_request,
}

-- Between two traces one file was asked for, twice at most.
unfoldable AsksOnly : Asked → Trace → Trace → Type 0
AsksOnly file t u =
    (opens u ≡ opens t) ⊎ ((opens u ≡ file ∷ opens t) ⊎ (opens u ≡ file ∷ file ∷ opens t))

module _ (os : Os) where
  opens-send_file_response :
      (path : Bytes) (response : HttpResponse) (clientfd : ℕ) (sc : ServerConf) (ip : Bytes)
      (t : Trace)
      → let u = (send_file_response os path response clientfd sc ip t).1 in
        (opens u ≡ opens t) ⊎ (opens u ≡ safe_file sc.root_fd path ∷ opens t)
  unfolding send_file_response
  opens-send_file_response path response clientfd sc ip t =
      grind (arith, opens-http_send_error, opens-logs_print, opens-tcp_send, opens-send_file)

  opens-get_dated :
      (now : ℕ) (path : Bytes) (size : ℤ) (modified clientfd : ℕ) (sc : ServerConf) (ip : Bytes)
      (t : Trace)
      → let u = (get_dated os now path size modified clientfd sc ip t).1 in
        (opens u ≡ opens t) ⊎ (opens u ≡ safe_file sc.root_fd path ∷ opens t)
  unfolding get_dated
  opens-get_dated now path size modified clientfd sc ip t =
      grind (arith, opens-http_send_error, opens-logs_print, opens-send_file_response)

  get_plain_file_asks :
      (now : ℕ) (path : Bytes) (clientfd : ℕ) (sc : ServerConf) (ip : Bytes) (t : Trace)
      → AsksOnly (safe_file sc.root_fd path) t (get_plain_file os now path clientfd sc ip t).1
  unfolding AsksOnly get_plain_file
  get_plain_file_asks now path clientfd sc ip t =
      grind (arith, opens-http_send_error, opens-logs_print, opens-get_file_info, opens-get_dated)

  get_from_path_asks :
      (now : ℕ) (args path : Bytes) (clientfd : ℕ) (sc : ServerConf) (ip : Bytes) (t : Trace)
      → AsksOnly (safe_file sc.root_fd path) t (get_from_path os now args path clientfd sc ip t).1
  unfolding AsksOnly get_from_path
  get_from_path_asks now args path clientfd sc ip t =
      grind (arith, opens-logs_print, opens-process_script, get_plain_file_asks)

  post_to_path_asks :
      (request : HttpRequest) (path : Bytes) (clientfd : ℕ) (sc : ServerConf) (ip : Bytes)
      (t : Trace)
      → AsksOnly (safe_file sc.root_fd path) t (post_to_path os request path clientfd sc ip t).1
  unfolding AsksOnly post_to_path
  post_to_path_asks request path clientfd sc ip t =
      grind (arith, opens-logs_print, opens-process_script)

-- A file of the root directory, reached through no symbolic link.
abbrev IsInside : ServerConf → Asked → Type 0
IsInside sc (root, path, how) =
    (root ≡ sc.root_fd) × StaysBelow path × (how.beneath ≡ true) × (how.no_symlinks ≡ true)

-- All files that a trace asks for satisfy P.
unfoldable pub AllAsked : (Asked → Type 0) → Trace → Type 0
AllAsked P t = All P (opens t)

abbrev pub AllInside : ServerConf → Trace → Type 0
AllInside sc t = AllAsked (IsInside sc) t

-- A file of the root directory or below it, as the system sees to.
abbrev pub IsConfined : ServerConf → Asked → Type 0
IsConfined sc (root, path, how) =
    (root ≡ sc.root_fd) × (how.beneath ≡ true) × (how.no_symlinks ≡ true)

abbrev pub AllConfined : ServerConf → Trace → Type 0
AllConfined sc t = AllAsked (IsConfined sc) t

AllAsked-asks :
    (P : Asked → Type 0) (file : Asked) (t u : Trace)
    → AsksOnly file t u
    → P file
    → AllAsked P t
    → AllAsked P u
unfolding AsksOnly AllAsked
AllAsked-asks P file t u (inl e) f h = subst (All P) (sym e) h
AllAsked-asks P file t u (inr (inl e)) f h = subst (All P) (sym e) (f, h)
AllAsked-asks P file t u (inr (inr e)) f h = subst (All P) (sym e) (f, (f, h))

pub AllAsked-of_eq :
    (P : Asked → Type 0) (t u : Trace) → opens u ≡ opens t → AllAsked P t → AllAsked P u
unfolding AllAsked
AllAsked-of_eq P t u e h = subst (All P) (sym e) h

module _ (os : Os) (request : HttpRequest) (clientfd : ℕ) (sc : ServerConf) (P : Asked → Type 0)
    (good : (array built : Bytes)
      → check_path_traversal request.url ≡ false
      → build_path (cut_query request.url).0 array ≡ some built
      → P (safe_file sc.root_fd built)) where
  -- The system has been asked for the time, and for the client's name.
  named_asks :
      (t u : Trace)
      → opens u ≡ opens t
      → AllAsked P t
      → AllAsked P (get_client_ip_port os clientfd u).1
  named_asks t u e h = AllAsked-of_eq P t _ (opens-get_client_ip_port os clientfd u ∙ e) h

  process_get_asks :
      (t : Trace) → AllAsked P t → AllAsked P (process_get os request clientfd sc t).1
  unfolding process_get opens
  process_get_asks t h = elim (Bool-cases (check_path_traversal request.url)) [
    | inl c ↦ AllAsked-of_eq P t _ (handlers_forbid os request clientfd sc t c).2 h
    | inr c ↦ rw c (elim (Option-cases (build_path (cut_query request.url).0 (os.garbage t))) [
      | inl b ↦ rw b (AllAsked-of_eq P _ _ (opens-http_send_error os clientfd _ _) start)
      | inr (built, b) ↦ rw b (
          AllAsked-asks P _ _ _ (get_from_path_asks os _ _ built clientfd sc _ _)
            (good (os.garbage t) built c b) start)
    ])
  ]
    where
      start : AllAsked P (get_client_ip_port os clientfd (told_time (os.time t) ∷ t)).1
      start = named_asks t (told_time (os.time t) ∷ t) refl h

  process_post_asks :
      (t : Trace) → AllAsked P t → AllAsked P (process_post os request clientfd sc t).1
  unfolding process_post
  process_post_asks t h = elim (Bool-cases (check_path_traversal request.url)) [
    | inl c ↦ AllAsked-of_eq P t _ (handlers_forbid os request clientfd sc t c).5 h
    | inr c ↦ rw c (elim (Option-cases (build_path (cut_query request.url).0 (os.garbage t))) [
      | inl b ↦ rw b (AllAsked-of_eq P _ _ (opens-http_send_error os clientfd _ _) start)
      | inr (built, b) ↦ rw b (
          AllAsked-asks P _ _ _ (post_to_path_asks os request built clientfd sc _ _)
            (good (os.garbage t) built c b) start)
    ])
  ]
    where
      start : AllAsked P (get_client_ip_port os clientfd t).1
      start = named_asks t t refl h

  opens-process_options : (t : Trace) → opens (process_options os clientfd t).1 ≡ opens t
  unfolding process_options
  opens-process_options t =
      grind
        (arith, opens-http_send_error, opens-logs_print, opens-tcp_send, opens-get_client_ip_port)

  http_process_request_asks :
      (t : Trace) → AllAsked P t → AllAsked P (http_process_request os request clientfd sc t).1
  unfolding http_process_request
  http_process_request_asks t h = go (request_method_type request.method) refl
    where
      named : Trace
      named = (get_client_ip_port os clientfd t).1

      go :
          (m : Method)
          → request_method_type request.method ≡ m
          → AllAsked P (http_process_request os request clientfd sc t).1
      go get m = rw m (
          process_get_asks _ (
            AllAsked-of_eq P t _
              (opens-logs_print os _ _ _ ∙ opens-get_client_ip_port os clientfd t) h))
      go post m = rw m (
          process_post_asks _ (
            AllAsked-of_eq P t _
              (opens-logs_print os _ _ _ ∙ opens-get_client_ip_port os clientfd t) h))
      go options m = rw m (
          AllAsked-of_eq P t _
            (opens-process_options _
              ∙ opens-logs_print os _ _ _
              ∙ opens-get_client_ip_port os clientfd t)
            h)
      go unknown m = rw m (
          AllAsked-of_eq P t _
            (opens-http_send_error os clientfd _ _
              ∙ opens-logs_print os _ _ _
              ∙ opens-get_client_ip_port os clientfd t)
            h)

module _ (os : Os) (request : HttpRequest) (clientfd : ℕ) (sc : ServerConf) where
  -- Whatever method a request has, if its URL starts with a slash every file that is asked for while
  -- it is handled is asked for in the root directory, by a path that does not start with a slash and
  -- has no two dots in a row, and through no symbolic link.
  pub http_process_request_inside :
      (s : Bytes) (t : Trace)
      → request.url ≡ b'/' ∷ s
      → AllInside sc t
      → AllInside sc (http_process_request os request clientfd sc t).1
  http_process_request_inside s t e h =
      http_process_request_asks os request clientfd sc (IsInside sc)
        (λ array built c b.
          (refl, opened_path_safe s array built (rw (← e) c) (rw (← e) b), refl, refl))
        t h

  pub http_process_request_confined :
      (t : Trace)
      → AllConfined sc t
      → AllConfined sc (http_process_request os request clientfd sc t).1
  http_process_request_confined t h =
      http_process_request_asks os request clientfd sc (IsConfined sc)
        (λ array built c b. (refl, refl, refl)) t h

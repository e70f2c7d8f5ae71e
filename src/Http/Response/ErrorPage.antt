-- ===== src/Http/Response/ErrorPage.antt =====
-- `http_send_error` of srclib/http.c: what it sends, and that its texts fit their arrays.
use barehttp.Base.{
  ℕ, ◌<◌, ◌≡◌, ◌∷◌, arith, ℤ, pos, minus_one, length, is_neg, if◌then◌else◌, ◌⊎◌, true, false, inl,
  inr, Bool-cases,
}
use barehttp.CString.{Bytes, codes}
use barehttp.CString.Format.{decimal}
use barehttp.CString.Memory.{snprintf_exact}
use barehttp.Os.{Os, Trace, M, pure, ◌>>=◌, ◌>>◌}
use barehttp.Os.Traces.{sends, opens}
use barehttp.Tcp.{tcp_send}
use barehttp.Tcp.Laws.{sends-tcp_send_all, opens-tcp_send}
use barehttp.Http.{
  Status, http_ok, http_no_content, http_bad_request, http_forbidden, http_not_found,
  http_not_allowed, http_internal_error, http_version_not_supported,
}
use barehttp.Http.Response.{status_text, error_body, error_headers, http_send_error}

-- For every status the page and its headers are shorter than the arrays `body` and `headers`.
error_page_fits :
    (code : Status)
    → (length (error_body code) < 512)
      × (length (error_headers code (length (error_body code))) < 256)
unfolding error_body error_headers codes decimal status_text
error_page_fits http_ok = omega arith
error_page_fits http_no_content = omega arith
error_page_fits http_bad_request = omega arith
error_page_fits http_forbidden = omega arith
error_page_fits http_not_found = omega arith
error_page_fits http_not_allowed = omega arith
error_page_fits http_internal_error = omega arith
error_page_fits http_version_not_supported = omega arith

abbrev pub page_headers : Status → Bytes
page_headers code = error_headers code (length (error_body code))

module _ (os : Os) (clientfd : ℕ) (code : Status) (t : Trace) where
  abbrev result : ℤ × Trace
  result = http_send_error os clientfd code t

  -- `http_send_error` with nothing cut off.
  abbrev whole : M ℤ
  whole = do
    ret ← tcp_send os clientfd (page_headers code) (length (page_headers code))
    if is_neg ret
        then pure minus_one
        else (do tcp_send os clientfd (error_body code) (length (error_body code)); pure (pos 0))

  http_send_error-eq-whole : result ≡ whole t
  unfolding http_send_error
  http_send_error-eq-whole = rw (
    snprintf_exact 512 (error_body code) (error_page_fits code).0,
    snprintf_exact 256 (page_headers code) (error_page_fits code).1,
  )

  -- The headers are handed to `send`.
  abbrev pub headers_sent : ℤ × Trace
  headers_sent = tcp_send os clientfd (page_headers code) (length (page_headers code)) t

  pub http_send_error_lem :
      (opens result.1 ≡ opens t)
      × (((is_neg headers_sent.0 ≡ false)
            × (result.0 ≡ pos 0)
            × (sends clientfd result.1 ≡ error_body code ∷ page_headers code ∷ sends clientfd t))
          ⊎ ((is_neg headers_sent.0 ≡ true)
              × (result.0 ≡ minus_one)
              × (sends clientfd result.1 ≡ page_headers code ∷ sends clientfd t)))
  http_send_error_lem = rw http_send_error-eq-whole (elim (Bool-cases (is_neg headers_sent.0)) [
    | inl n ↦ grind (arith, sends-tcp_send_all, opens-tcp_send)
    | inr n ↦ grind (arith, sends-tcp_send_all, opens-tcp_send)
  ])

pub opens-http_send_error :
    (os : Os) (clientfd : ℕ) (code : Status) (t : Trace)
    → opens (http_send_error os clientfd code t).1 ≡ opens t
opens-http_send_error os clientfd code t = (http_send_error_lem os clientfd code t).0

-- ===== src/Http/Response.antt =====
-- srclib/http.c: responses as text (`status_text`, `add_header`, `serialize_response`) and the
-- error page of `http_send_error`.
pub mod Serialize
pub mod ErrorPage
use barehttp.Base.{
  ℕ, ◌+◌, ◌-◌, List, [], ◌∷◌, ◌++◌, ◌==◌, leb, if◌then◌else◌, ℤ, pos, is_neg, minus_one, length,
}
use barehttp.CString.{Bytes, codes}
use barehttp.CString.Format.{decimal}
use barehttp.CString.Memory.{snprintf}
use barehttp.Os.{Os, M, pure, ◌>>=◌, ◌>>◌}
use barehttp.Tcp.{tcp_send}
use barehttp.Http.{
  Status, http_ok, http_no_content, http_bad_request, http_forbidden, http_not_found,
  http_not_allowed, http_internal_error, http_version_not_supported, status_code, max_headers,
}

unfoldable pub status_text : Status → Bytes
status_text http_ok = codes "OK"
status_text http_bad_request = codes "Bad Request"
status_text http_forbidden = codes "Forbidden"
status_text http_not_found = codes "Not Found"
status_text http_not_allowed = codes "Method Not Allowed"
status_text http_no_content = codes "No Content"
status_text http_internal_error = codes "Internal Error"
status_text http_version_not_supported = codes "Version Not Supported"

-- `struct _response_header`.
pub record ResponseHeader : Type 0 where
  pub name : Bytes
  pub value : Bytes

-- `struct _http_response`; the length of the list is `n_headers`.
pub record HttpResponse : Type 0 where
  pub status : Status
  pub headers : List ResponseHeader

-- The response after the call. Where the array is full the call returns -1, which no caller reads.
unfoldable pub add_header : HttpResponse → Bytes → Bytes → HttpResponse
add_header response name value =
    if length response.headers == max_headers then response else record response {
      headers = response.headers ++ record { name = name; value = value } ∷ [];
    }

abbrev pub crlf : Bytes
crlf = 13 ∷ 10 ∷ []

-- `"HTTP/1.0 %d %s\r\n"`.
abbrev pub status_line : Status → Bytes
status_line s =
    codes "HTTP/1.0 " ++ (decimal (status_code s) ++ (codes " " ++ (status_text s ++ crlf)))

-- `"%s: %s\r\n"`.
abbrev pub header_line : ResponseHeader → Bytes
header_line h = h.name ++ (codes ": " ++ (h.value ++ crlf))

-- One `snprintf (buffer + len, size - len, …)` with the test behind it; `rest` follows it. The
-- result is that of the function, and the string in `buffer`.
abbrev pub put : ℕ → Bytes → ℕ → Bytes → (Bytes → ℕ → ℤ × Bytes) → ℤ × Bytes
put size buffer len text rest =
    let w = snprintf (size - len) text in
    let buffer' : Bytes = buffer ++ w.0 in
    let len' : ℕ = len + w.1 in
    let next = rest buffer' len' in if leb size len' then (minus_one, buffer') else next

unfoldable pub serialize_headers : ℕ → List ResponseHeader → Bytes → ℕ → ℤ × Bytes
serialize_headers size [] buffer len = put size buffer len crlf (λ b n. (pos n, b))
serialize_headers size (h ∷ hs) buffer len =
    put size buffer len (header_line h) (serialize_headers size hs)

unfoldable pub serialize_response : HttpResponse → ℕ → ℤ × Bytes
unfolding serialize_headers
serialize_response res size =
    put size [] 0 (status_line res.status) (serialize_headers size res.headers)

-- `"%d %s"` in the error page.
abbrev title : Status → Bytes
title code = decimal (status_code code) ++ (codes " " ++ status_text code)

unfoldable pub error_body : Status → Bytes
error_body code =
    codes "<html><head><title>"
    ++ (title code
        ++ (codes "</title></head><body><h1>" ++ (title code ++ codes "</h1></body></html>")))

unfoldable pub error_headers : Status → ℕ → Bytes
error_headers code body_len =
    status_line code
    ++ (codes "Content-Type: text/html"
        ++ (crlf
            ++ (codes "Content-Length: "
                ++ (decimal body_len ++ (crlf ++ (codes "Connection: close" ++ (crlf ++ crlf)))))))

module _ (os : Os) where
  unfoldable pub http_send_error : ℕ → Status → M ℤ
  http_send_error clientfd code =
      let body = snprintf 512 (error_body code) in
      let headers = snprintf 256 (error_headers code body.1) in
      do
        ret ← tcp_send os clientfd headers.0 headers.1
        if is_neg ret then pure minus_one else (do tcp_send os clientfd body.0 body.1; pure (pos 0))

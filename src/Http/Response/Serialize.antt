-- ===== src/Http/Response/Serialize.antt =====
-- `serialize_response` of srclib/http.c writes the response that HTTP asks for, or refuses.
use mathlib.Core.Path.{ap₂}
use native.Mathlib.Decide.{dec_lt}
use barehttp.Base.{
  ℕ, ◌+◌, ◌-◌, ◌≤◌, ◌<◌, ◌≡◌, ap, List, [], ◌∷◌, ◌++◌, arith, ℤ, pos, minus_one, length, ◌⊎◌, ◌∙◌,
  take_of_le, length-append, append_assoc, lt→leb_false, le→leb, inl, inr,
}
use barehttp.CString.{Bytes}
use barehttp.CString.Memory.{snprintf}
use barehttp.Http.Response.{
  ResponseHeader, HttpResponse, status_line, header_line, crlf, put, serialize_headers,
  serialize_response,
}

-- The text of the headers and the empty line behind them.
render_headers : List ResponseHeader → Bytes
render_headers [] = crlf
render_headers (h ∷ hs) = header_line h ++ render_headers hs

unfoldable pub render : HttpResponse → Bytes
unfolding render_headers
render res = status_line res.status ++ render_headers res.headers

module _ (size : ℕ) (buffer : Bytes) (len : ℕ) (text : Bytes) (rest : Bytes → ℕ → ℤ × Bytes) where
  put_fits :
      len + length text < size
      → put size buffer len text rest ≡ rest (buffer ++ text) (len + length text)
  unfolding snprintf
  put_fits h = rw (lt→leb_false size (len + length text) h) (
      ap (λ b. rest (buffer ++ b) (len + length text))
        (take_of_le (size - len - 1) text (omega arith)))

  put_long : size ≤ len + length text → (put size buffer len text rest).0 ≡ minus_one
  unfolding snprintf
  put_long h = rw (le→leb size (len + length text) h)

serialize_headers_fits :
    (size : ℕ) (hs : List ResponseHeader) (buffer : Bytes) (len : ℕ)
    → len + length (render_headers hs) < size
    → serialize_headers size hs buffer len
      ≡ (pos (len + length (render_headers hs)), buffer ++ render_headers hs)
unfolding serialize_headers render_headers
serialize_headers_fits size [] buffer len h = put_fits size buffer len crlf (λ b n. (pos n, b)) h
serialize_headers_fits size (x ∷ hs) buffer len h =
    put_fits size buffer len (header_line x) (serialize_headers size hs) (omega (arith, split))
    ∙ serialize_headers_fits size hs (buffer ++ header_line x) (len + length (header_line x))
        (omega (arith, split))
    ∙ ap₂ (λ n b. (pos n, b)) (omega (arith, split))
        (append_assoc buffer (header_line x) (render_headers hs))
  where
    split :
        length (header_line x ++ render_headers hs)
        ≡ length (header_line x) + length (render_headers hs)
    split = length-append (header_line x) (render_headers hs)

serialize_headers_long :
    (size : ℕ) (hs : List ResponseHeader) (buffer : Bytes) (len : ℕ)
    → size ≤ len + length (render_headers hs)
    → (serialize_headers size hs buffer len).0 ≡ minus_one
unfolding serialize_headers render_headers
serialize_headers_long size [] buffer len h = put_long size buffer len crlf (λ b n. (pos n, b)) h
serialize_headers_long size (x ∷ hs) buffer len h =
    elim (dec_lt (len + length (header_line x)) size) [
      | yes p ↦
          ap (λ r. r.0) (put_fits size buffer len (header_line x) (serialize_headers size hs) p)
          ∙ serialize_headers_long size hs (buffer ++ header_line x) (len + length (header_line x))
              (omega (arith, length-append (header_line x) (render_headers hs)))
      | no p ↦ put_long size buffer len (header_line x) (serialize_headers size hs) (omega arith)
    ]

-- Where the text of a response fits in the buffer with its NUL, `serialize_response` returns its
-- length and leaves exactly that text in the buffer; where it does not, the result is -1.
pub serialize_response_lem :
    (res : HttpResponse) (size : ℕ)
    → ((length (render res) < size)
        × (serialize_response res size ≡ (pos (length (render res)), render res)))
      ⊎ ((size ≤ length (render res)) × ((serialize_response res size).0 ≡ minus_one))
unfolding serialize_response render
serialize_response_lem res size = elim (dec_lt (length (render res)) size) [
  | yes p ↦ inl (
    p,
    put_fits size [] 0 line (serialize_headers size res.headers) (omega (arith, split))
        ∙ serialize_headers_fits size res.headers line (0 + length line) (omega (arith, split))
        ∙ ap (λ n. (pos n, line ++ render_headers res.headers)) (omega (arith, split)),
  )
  | no p ↦ inr (
    omega arith,
    elim (dec_lt (length line) size) [
      | yes q ↦
          ap (λ r. r.0) (put_fits size [] 0 line (serialize_headers size res.headers) (omega arith))
          ∙ serialize_headers_long size res.headers line (0 + length line) (omega (arith, split))
      | no q ↦ put_long size [] 0 line (serialize_headers size res.headers) (omega arith)
    ],
  )
]
  where
    line : Bytes
    line = status_line res.status

    split :
        length (line ++ render_headers res.headers)
        ≡ length line + length (render_headers res.headers)
    split = length-append line (render_headers res.headers)

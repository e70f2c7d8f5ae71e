-- ===== src/Http/Handlers/Lengths.antt =====
-- srclib/http.c: the Content-Length that the responses with a body are sent with, as
-- `http_get_content_length` reads it.
use barehttp.Base.{
  ℕ, ◌^◌, ◌<◌, ◌≡◌, arith, List, [], ◌∷◌, leb, pos, ap, ◌∙◌, length, take_of_le, Bool-cases, inl,
  inr,
}
use barehttp.CString.{Bytes, codes, str_eq, atoi}
use barehttp.CString.Format.{decimal, print_int, atoi-decimal, length-decimal, NoNul-decimal}
use barehttp.CString.Memory.{c_str, c_str_whole, snprintf, snprintf_fits}
use barehttp.Http.{Header, HttpRequest, max_header_content}
use barehttp.Http.Request.{temp_val, content_length, http_get_content_length}
use barehttp.Http.Response.{ResponseHeader, add_header}
use barehttp.Http.Script.{script_response}
use barehttp.Http.Handlers.{file_response}

-- The headers of a response, as the parser hands over those of a request.
abbrev pub as_headers : List ResponseHeader → List Header
as_headers [] = []
as_headers (h ∷ hs) = record { name = h.name; value = h.value } ∷ as_headers hs

temp_val_short : (s : Bytes) → length s < 16 → temp_val s ≡ c_str s
temp_val_short s h = elim (Bool-cases (leb 16 (length s))) [
  | inl p ↦ absurd (ground arith)
  | inr p ↦ rw p (ap c_str (take_of_le (length s) s (omega arith)))
]

atoi-temp_val : (n : ℕ) → n < 2 ^ 31 → atoi (temp_val (decimal n)) ≡ pos n
atoi-temp_val n h =
    let short = length-decimal 9 n (omega (arith, h)) in
    ap atoi (
      temp_val_short (decimal n) (omega (arith, short)) ∙ c_str_whole (decimal n) (NoNul-decimal n))
    ∙ atoi-decimal n h

size_text : (n : ℕ) → n < 2 ^ 31 → (snprintf max_header_content (decimal n)).0 ≡ decimal n
size_text n h =
    snprintf_fits max_header_content (decimal n)
      (omega (arith, length-decimal 9 n (omega (arith, h))))

-- The Content-Length of a file's or a script's response is read back as the number that
-- it was made from, if an `int` can hold that: by `http_get_content_length`, from any request with
-- the headers of the response.
pub http_get_content_length-responses :
    (request : HttpRequest) (date signature last_mod mime_type : Bytes) (n : ℕ)
    → n < 2 ^ 31
    → let file = file_response date signature last_mod (pos n) mime_type in
      let script = script_response date signature n in
      (http_get_content_length (record request { headers = as_headers file.headers }) ≡ pos n)
      × (http_get_content_length (record request { headers = as_headers script.headers }) ≡ pos n)
unfolding http_get_content_length content_length file_response script_response add_header codes
    str_eq print_int
http_get_content_length-responses request date signature last_mod mime_type n h =
    (rw (size_text n h) (atoi-temp_val n h), rw (size_text n h) (atoi-temp_val n h))

-- ===== src/Http/Request.antt =====
-- srclib/http.c: requests made and freed, and what is read from a parsed one (`request_method_type`,
-- `http_get_content_length`, `http_add_body`).
use barehttp.Base.{
  Option, some, none, ◌-◌, ◌&&◌, List, [], ◌∷◌, ◌==◌, leb, if◌then◌else◌, ℤ, pos, length, take,
}
use barehttp.Os.{Os, M, pure, ◌>>=◌, alloc, release, request_memory}
use barehttp.CString.{Bytes, codes, str_eq, atoi}
use barehttp.CString.Memory.{c_str}
use barehttp.Http.{Header, HttpRequest, Method, unknown, get, post, options, max_header_value_len}

unfoldable pub request_method_type : Bytes → Method
request_method_type method =
    if length method == 3 && str_eq method (codes "GET")
    then get
    else (if length method == 4 && str_eq method (codes "POST")
        then post
        else (if length method == 7 && str_eq method (codes "OPTIONS") then options else unknown))

-- The value that is handed to `atoi`: at most 15 characters.
abbrev pub temp_val : Bytes → Bytes
temp_val value = c_str (
    take
      (if leb max_header_value_len (length value) then max_header_value_len - 1 else length value)
      value)

unfoldable pub content_length : List Header → ℤ
content_length [] = pos 0
content_length (h ∷ hs) =
    let rest = content_length hs in
    if length h.name == 14 && str_eq h.name (codes "Content-Length")
    then atoi (temp_val h.value)
    else rest

unfoldable pub http_get_content_length : HttpRequest → ℤ
unfolding content_length
http_get_content_length request = content_length request.headers

unfoldable pub http_add_body : HttpRequest → Bytes → HttpRequest
http_add_body request body = record request { body = body }

-- The request with which the fields are filled, if there is memory for it.
unfoldable http_init_request : Os → M (Option HttpRequest)
http_init_request os = do
  r ← alloc os request_memory
  if r
      then pure (some (record { method = []; url = []; version = 0; headers = []; body = [] }))
      else pure none

abbrev http_free_request : M (Unit {0})
http_free_request = release request_memory

-- ===== src/Http/Examples.antt =====
-- Runs of srclib/http.c over the sample system, and its theorems at concrete requests.
use barehttp.Base.{
  ◌+◌, ◌<◌, ◌≤◌, ◌≡◌, ◌⊎◌, ◌↔◌, refl, true, false, [], ◌∷◌, String, some, arith, pos, minus_one,
  length, drop, if◌then◌else◌, replicate,
}
use barehttp.CString.{Bytes, codes, after_last, str_eq, atoi}
use barehttp.CString.Memory.{poke, c_str}
use barehttp.Os.Traces.{opens, open_count}
use barehttp.Os.Sample.{sample}
use barehttp.Http.Sample.{conf}
use barehttp.Http.{http_no_content, http_forbidden, HttpRequest}
use barehttp.Http.Url.{check_path_traversal, cut_query, is_root, build_path}
use barehttp.Http.Url.Safety.{Traverses, check_path_traversal_iff}
use barehttp.Http.Url.Paths.{build_path_opens, StaysBelow, opened_path_safe}
use barehttp.Http.Mime.{get_mime_type}
use barehttp.Http.Request.{content_length}
use barehttp.Http.Files.{relative, send_file}
use barehttp.Http.Files.Transfer.{IsBounded, transferred, send_file_lem}
use barehttp.Http.Script.{write_loop, read_loop}
use barehttp.Http.Script.Rounds.{loops-enough}
use barehttp.Http.Response.{HttpResponse, serialize_response}
use barehttp.Http.Response.Serialize.{render, serialize_response_lem}
use barehttp.Http.Handlers.{process_get, process_post, http_process_request}
use barehttp.Http.Handlers.Refusals.{Answers, handlers_forbid}
use barehttp.Http.Handlers.Asked.{AllAsked, AllInside, http_process_request_inside}

url_tests :
    (check_path_traversal (codes "/a/../b") ≡ true)
    × (check_path_traversal (codes "/a//b") ≡ true)
    × (check_path_traversal (codes "/a\\b") ≡ true)
    × (check_path_traversal (codes "/a.b/c\\") ≡ false)
    × (cut_query (codes "/a?b?c") ≡ (codes "/a", some (codes "b?c")))
unfolding check_path_traversal codes cut_query
url_tests = (refl, refl, refl, refl, refl)

mime_tests :
    (get_mime_type (codes "/a.b/c.py") ≡ codes "text/x-python")
    × (get_mime_type (codes "/index.html") ≡ codes "text/html")
    × (get_mime_type (codes "/README") ≡ codes "text/plain")
unfolding get_mime_type codes after_last str_eq
mime_tests = (refl, refl, refl)

lengths :
    (content_length (record { name = codes "Content-Length"; value = codes "12" } ∷ []) ≡ pos 12)
    × (content_length (record { name = codes "content-length"; value = codes "12" } ∷ []) ≡ pos 0)
unfolding content_length codes str_eq atoi c_str
lengths = (refl, refl)

abbrev request : String → String → HttpRequest
request method url = record {
  method = codes method;
  url = codes url;
  version = 0;
  headers = [];
  body = [];
}

check_path_traversal_iff_example :
    (check_path_traversal (codes "/a/../b") ≡ true) ↔ Traverses (codes "/a/../b")
check_path_traversal_iff_example = check_path_traversal_iff (codes "/a/../b")

-- "/a.py?x".
abbrev tail_of_url : Bytes
tail_of_url = 97 ∷ 46 ∷ 112 ∷ 121 ∷ 63 ∷ 120 ∷ []

abbrev array : Bytes
array = replicate 132 65

build_path_opens_example :
    let path = (cut_query (b'/' ∷ tail_of_url)).0 in
    (built : Bytes) × (build_path path array ≡ some built)
    × (relative built ≡ (if is_root path then codes "index.html" else drop 1 path))
unfolding cut_query
build_path_opens_example = build_path_opens tail_of_url array (omega arith) (omega arith)

abbrev built_path : Bytes
built_path = poke array (b'/' ∷ 97 ∷ 46 ∷ 112 ∷ 121 ∷ 0 ∷ [])

opened_path_safe_example : StaysBelow (relative built_path)
unfolding cut_query check_path_traversal build_path
opened_path_safe_example = opened_path_safe tail_of_url array built_path refl refl

abbrev small : HttpResponse
small = record {
  status = http_no_content;
  headers = record { name = codes "Allow"; value = codes "GET" } ∷ [];
}

serialize_response_lem_example :
    ((length (render small) < 64)
      × (serialize_response small 64 ≡ (pos (length (render small)), render small)))
    ⊎ ((64 ≤ length (render small)) × ((serialize_response small 64).0 ≡ minus_one))
serialize_response_lem_example = serialize_response_lem small 64

handlers_forbid_example :
    let g = process_get sample (request "GET" "/../x") 4 conf [] in
    let p = process_post sample (request "GET" "/../x") 4 conf [] in
    (g.0 ≡ pos 0)
    × Answers 4 http_forbidden [] g.1
    × (opens g.1 ≡ opens [])
    × (p.0 ≡ pos 0)
    × Answers 4 http_forbidden [] p.1
    × (opens p.1 ≡ opens [])
unfolding check_path_traversal codes
handlers_forbid_example = handlers_forbid sample (request "GET" "/../x") 4 conf [] refl

sample-IsBounded : IsBounded sample
unfolding IsBounded
sample-IsBounded t out fd offset count n e = ground arith

send_file_lem_example :
    let after = send_file sample 9 built_path 4 [] in
    ((after.0 ≡ pos 0)
      × (transferred 4 after.1 ≡ transferred 4 [] + 10)
      × (open_count 5 after.1 ≡ open_count 5 []))
    ⊎ ((after.0 ≡ minus_one)
        × (transferred 4 after.1 < transferred 4 [] + 10)
        × (open_count 5 after.1 ≡ open_count 5 [] + 1))
send_file_lem_example =
    send_file_lem sample 9 built_path 4 [] 5 (record { st_size = 10; st_mtime = 0 })
      sample-IsBounded refl refl

abbrev get_a : HttpRequest
get_a = record {
  method = codes "GET";
  url = b'/' ∷ tail_of_url;
  version = 0;
  headers = [];
  body = [];
}

http_process_request_inside_example : AllInside conf (http_process_request sample get_a 4 conf []).1
unfolding AllAsked opens
http_process_request_inside_example =
    http_process_request_inside sample get_a 4 conf tail_of_url [] refl tt

loops-enough_example :
    (write_loop sample 100 7 (codes "name=bob") [] ≡ write_loop sample 8 7 (codes "name=bob") [])
    × (read_loop sample 9000 7 [] [] ≡ read_loop sample 8193 7 [] [])
unfolding codes
loops-enough_example =
    loops-enough sample 7 100 9000 (codes "name=bob") [] (omega arith) (omega arith)

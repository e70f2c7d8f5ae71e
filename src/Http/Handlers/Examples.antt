-- ===== src/Http/Handlers/Examples.antt =====
-- The replies of the handlers of srclib/http.c at concrete requests.
use mathlib.Core.Path.{subst}
use barehttp.Http.Leaks.Kept.{AsksNoScript, http_process_request-closes}
use barehttp.Base.{
  ◌+◌, false, true, is_neg, ap, none, some, ◌≡◌, ◌⊎◌, ◌<◌, refl, arith, [], ◌∷◌, pos, length,
}
use barehttp.CString.{Bytes, codes, str_eq, after_last}
use barehttp.CString.Format.{decimal}
use barehttp.CString.Memory.{c_str, poke}
use barehttp.Os.Traces.{sends, open_count}
use barehttp.Os.Sample.{sample}
use barehttp.Http.Sample.{conf}
use barehttp.Http.{http_ok, http_internal_error, HttpRequest}
use barehttp.Http.Url.{check_path_traversal, cut_query, build_path}
use barehttp.Http.Mime.{get_mime_type, is_script}
use barehttp.Http.Request.{http_get_content_length}
use barehttp.Http.Script.{script_response}
use barehttp.Http.Handlers.Lengths.{as_headers, http_get_content_length-responses}
use barehttp.Http.Response.{HttpResponse, status_text}
use barehttp.Http.Response.Serialize.{render}
use barehttp.Http.Handlers.{file_response, process_post, send_file_response, http_process_request}
use barehttp.Http.Handlers.Refusals.{Answers}
use barehttp.Http.Handlers.Replies.{response_sent, plain_post_unanswered, send_file_response_lem}

abbrev put_request : HttpRequest
put_request = record {
  method = codes "PUT";
  url = codes "/a.txt";
  version = 0;
  headers = [];
  body = [];
}

abbrev post_text : HttpRequest
post_text = record {
  method = codes "POST";
  url = codes "/a.t";
  version = 0;
  headers = [];
  body = [];
}

abbrev text_path : Bytes
text_path = poke (sample.garbage []) (47 ∷ 97 ∷ 46 ∷ 116 ∷ 0 ∷ [])

plain_post_unanswered_example :
    let r = process_post sample post_text 4 conf [] in (r.0 ≡ pos 0) × (sends 4 r.1 ≡ sends 4 [])
unfolding check_path_traversal cut_query build_path get_mime_type is_script codes str_eq after_last
    c_str poke
plain_post_unanswered_example =
    plain_post_unanswered sample 4 conf [] post_text text_path refl refl refl

abbrev get_text : HttpRequest
get_text = record post_text { method = codes "GET" }

get_text-AsksNoScript : AsksNoScript get_text
unfolding AsksNoScript check_path_traversal cut_query build_path get_mime_type is_script codes
    str_eq after_last c_str poke
get_text-AsksNoScript array built e =
    subst (λ path. is_script (get_mime_type (c_str path)) ≡ false)
      (ap (λ o. elim o [ none ↦ [] | some path ↦ path ]) e) refl

http_process_request-closes_example :
    let r = http_process_request sample get_text 4 conf [] in
    (open_count 5 r.1 ≡ open_count 5 [])
    ⊎ ((is_neg r.0 ≡ true) × (open_count 5 r.1 ≡ open_count 5 [] + 1))
http_process_request-closes_example =
    http_process_request-closes sample 5 4 refl get_text conf [] get_text-AsksNoScript

abbrev small : HttpResponse
small = record {
  status = http_ok;
  headers = record { name = codes "Connection"; value = codes "Close" } ∷ [];
}

small-fits : length (render small) < 8192
unfolding render codes decimal status_text
small-fits = omega arith

send_file_response_lem_example :
    let r = send_file_response sample text_path small 4 conf [] [] in
    let sent = response_sent sample 4 conf [] small in
    (sends 4 sent.1 ≡ render small ∷ sends 4 [])
    × (((is_neg sent.0 ≡ false) × (sends 4 r.1 ≡ render small ∷ sends 4 []))
        ⊎ ((is_neg sent.0 ≡ true) × Answers 4 http_internal_error sent.1 r.1))
send_file_response_lem_example =
    send_file_response_lem sample 4 conf [] text_path small [] small-fits

http_get_content_length-responses_example :
    let file =
      file_response (codes "now") (codes "s") (codes "then") (pos 10) (codes "text/html") in
    let script = script_response (codes "now") (codes "s") 10 in
    (http_get_content_length (record put_request { headers = as_headers file.headers }) ≡ pos 10)
    × (http_get_content_length (record put_request { headers = as_headers script.headers })
        ≡ pos 10)
http_get_content_length-responses_example =
    http_get_content_length-responses put_request (codes "now") (codes "s") (codes "then")
      (codes "text/html") 10 (omega arith)

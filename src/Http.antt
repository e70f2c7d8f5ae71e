-- ===== src/Http.antt =====
-- srclib/http.c and includes/http.h: requests, responses and the handlers of the three methods.
pub mod Pending
pub mod Leaks
pub mod Url
pub mod Mime
pub mod Request
pub mod Response
pub mod Files
pub mod Script
pub mod Handlers
pub mod Sample
mod Examples
use barehttp.Base.{ℕ, ℤ, List}
use barehttp.CString.{Bytes}

-- `MAX_HEADERS`, `MAX_BUFFR` and `MAX_HEADER_CONTENT` of includes/http.h; `MAX_HEADER_VALUE_LEN`
-- and `MAX_PATH` of srclib/http.c.
abbrev pub max_headers : ℕ
max_headers = 50

abbrev pub max_buffr : ℕ
max_buffr = 8192

abbrev pub max_header_content : ℕ
max_header_content = 64

abbrev pub max_header_value_len : ℕ
max_header_value_len = 16

abbrev pub max_path : ℕ
max_path = 132

-- `http_status_t`.
pub data Status : Type 0 where
  http_ok : Status
  http_no_content : Status
  http_bad_request : Status
  http_forbidden : Status
  http_not_found : Status
  http_not_allowed : Status
  http_internal_error : Status
  http_version_not_supported : Status

abbrev pub status_code : Status → ℕ
status_code http_ok = 200
status_code http_no_content = 204
status_code http_bad_request = 400
status_code http_forbidden = 403
status_code http_not_found = 404
status_code http_not_allowed = 405
status_code http_internal_error = 500
status_code http_version_not_supported = 505

-- `http_method_t`.
pub data Method : Type 0 where
  unknown : Method
  get : Method
  post : Method
  options : Method

-- `struct phr_header`, with the bytes that a pointer and a length delimit.
pub record Header : Type 0 where
  pub name : Bytes
  pub value : Bytes

-- `http_request`. A pointer with its length is the list of those bytes; NULL is the empty list.
pub record HttpRequest : Type 0 where
  pub method : Bytes
  pub url : Bytes
  pub version : ℕ
  pub headers : List Header
  pub body : Bytes

-- `server_conf` of includes/server.h.
pub record ServerConf : Type 0 where
  pub server_root : Bytes
  pub root_fd : ℕ
  pub listen_port : ℤ
  pub server_signature : Bytes
  pub log_file : Bytes
  pub timeout_ms : ℤ
  pub queue_size : ℤ
  pub pool_size : ℤ
  pub backlog : ℤ

-- ===== src/Http/Sample.antt =====
-- The configuration of the tests: that of server.conf.
use barehttp.Base.{pos}
use barehttp.CString.{codes}
use barehttp.Http.{ServerConf}

abbrev pub conf : ServerConf
conf = record {
  server_root = codes "www";
  root_fd = 9;
  listen_port = pos 8080;
  server_signature = codes "barehttp";
  log_file = codes "log";
  timeout_ms = pos 1000;
  queue_size = pos 32;
  pool_size = pos 8;
  backlog = pos 10;
}
